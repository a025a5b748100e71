-- ===== src/Contracts/Bridge.antt =====
-- The messages of bridge.proto, from crates/xetcas-contracts/src/generated/candace.xetcas.v1.rs.
use xetcas.Prelude.{ℕ, Bool, Option, List, Bytes}

pub record LfsRef : Type 0 where
  pub name : Bytes

pub record LfsObjectSpec : Type 0 where
  pub oid : Bytes
  pub size : ℕ

pub record LfsBatchRequest : Type 0 where
  pub operation : Bytes
  pub transfers : List Bytes
  pub ref : Option LfsRef
  pub objects : List LfsObjectSpec
  pub hash_algo : Bytes

pub record LfsAction : Type 0 where
  pub href : Bytes
  pub header : List (Bytes × Bytes)
  pub expires_in : ℕ

pub record LfsObjectError : Type 0 where
  pub code : ℕ
  pub message : Bytes

pub record LfsBatchObject : Type 0 where
  pub oid : Bytes
  pub size : ℕ
  pub authenticated : Bool
  pub actions : List (Bytes × LfsAction)
  pub error : Option LfsObjectError

pub record LfsBatchResponse : Type 0 where
  pub transfer : Bytes
  pub objects : List LfsBatchObject
  pub hash_algo : Bytes

pub record CasTokenInfo : Type 0 where
  pub cas_url : Bytes
  pub exp : ℕ
  pub access_token : Bytes
