-- ===== src/Contracts/Transfer.antt =====
-- The messages of transfer.proto, from crates/xetcas-contracts/src/generated/candace.xetcas.v1.rs.
-- A `HashMap` is the list of its entries in the order in which it iterates.
use xetcas.Prelude.{ℕ, Bool, Option, List, Bytes}

-- Chunk indexes, the end excluded.
pub record IndexRange : Type 0 where
  pub start : ℕ
  pub end : ℕ

-- Bytes, the end included.
pub record ByteRange : Type 0 where
  pub start : ℕ
  pub end : ℕ

pub record QueryReconstructionRequest : Type 0 where
  pub file_id : Bytes
  pub range : Option ByteRange

pub record CasReconstructionTerm : Type 0 where
  pub hash : Bytes
  pub range : Option IndexRange
  pub unpacked_length : ℕ

pub record CasReconstructionFetchInfo : Type 0 where
  pub range : Option IndexRange
  pub url : Bytes
  pub url_range : Option ByteRange

pub record FetchInfoList : Type 0 where
  pub entries : List CasReconstructionFetchInfo

pub record QueryReconstructionResponse : Type 0 where
  pub offset_into_first_range : ℕ
  pub terms : List CasReconstructionTerm
  pub fetch_info : List (Bytes × FetchInfoList)

pub record XorbRangeDescriptor : Type 0 where
  pub chunks : Option IndexRange
  pub bytes : Option ByteRange

pub record XorbMultiRangeFetch : Type 0 where
  pub url : Bytes
  pub ranges : List XorbRangeDescriptor

pub record XorbFetchList : Type 0 where
  pub entries : List XorbMultiRangeFetch

pub record QueryReconstructionResponseV2 : Type 0 where
  pub offset_into_first_range : ℕ
  pub terms : List CasReconstructionTerm
  pub xorbs : List (Bytes × XorbFetchList)

pub record ChunkDedupQuery : Type 0 where
  pub prefix : Bytes
  pub hash : Bytes

pub record UploadXorbKey : Type 0 where
  pub prefix : Bytes
  pub hash : Bytes

pub record UploadXorbResponse : Type 0 where
  pub was_inserted : Bool

pub record UploadShardResponse : Type 0 where
  pub result : ℕ
