-- ===== src/Lfs.antt =====
-- crates/xetcasd/src/routes/lfs.rs: the Git LFS bridge. The JSON form of a request is a parameter; the clock
-- and the session ids that the objects of a batch get are a function of the object's place. A `HashMap`
-- of headers is the list of its entries.
pub mod Objects
pub mod Batch
pub mod Download
pub mod Served
mod Roundtrip
mod Tests
use xetcas.Prelude.{
  ℕ, ◌+◌, Bool, true, false, Option, none, some, List, [], ◌∷◌, ◌++◌, Bytes, bytes_eq, codes,
  lookup, insert, Result, ok, err, ◌>>=◌, ◌>>◌, ok_or, map_err, not, ◌||◌, if◌then◌else◌,
}
use xetcas.Prelude.Words.{add_u64}
use xetcas.Contracts.Bridge.{
  LfsObjectSpec, LfsBatchRequest, LfsAction, LfsObjectError, LfsBatchObject, LfsBatchResponse,
  CasTokenInfo,
}
use xetcas.Contracts.Constants.{transfer_xet, transfer_basic, hash_algo_sha256}
use xetcas.Contracts.Storage.{FileRecord}
use xetcas.Contracts.Validate.Fields.{Failure, is_empty}
use xetcas.Contracts.Validate.Bridge.{
  is_some, validate_lfs_object_spec, validate_lfs_batch_request, validate_lfs_batch_response,
  validate_cas_token_info,
}
use xetcas.Decimal.{to_string}
use xetcas.Errors.{AppError, not_found, bad_request, internal}
use xetcas.Headers.{Header, to_str}
use xetcas.HttpRange.{trim}
use xetcas.Index.{Codec, IndexError, Tables, file_by_sha256}
use xetcas.State.{Config, public_base, advertised_token}

-- The messages.
pub data Reason : Type 0 where
  invalid_message : Failure → Reason
  malformed_request : Reason
  unsupported_operation : Bytes → Reason
  index_failed : IndexError → Reason

abbrev pub Reply : Type 0 → Type 0
Reply A = Result (AppError Reason) A

abbrev pub token_ttl_secs : ℕ
token_ttl_secs = 3600

-- The keys of the header map of an action.
abbrev pub header_xet_cas_url : Bytes
header_xet_cas_url = codes "X-Xet-Cas-Url"

abbrev pub header_xet_access_token : Bytes
header_xet_access_token = codes "X-Xet-Access-Token"

abbrev pub header_xet_token_expiration : Bytes
header_xet_token_expiration = codes "X-Xet-Token-Expiration"

abbrev pub header_xet_session_id : Bytes
header_xet_session_id = codes "X-Xet-Session-Id"

abbrev pub authorization_header : Bytes
authorization_header = codes "Authorization"

-- The handler `token`; `now` is the clock.
unfoldable pub token : Config → ℕ → Reply CasTokenInfo
token config now =
    let info : CasTokenInfo = record {
      cas_url = public_base config.public_url;
      exp = add_u64 now token_ttl_secs;
      access_token = advertised_token config;
    } in
    map_err (λ e. internal (invalid_message e)) (validate_cas_token_info info) >> ok info

unfoldable pub forwarded_authorization : Header → Option Bytes
forwarded_authorization authorization = elim (to_str authorization) [
  | none ↦ none
  | some value ↦ if is_empty (trim value) then none else some (trim value)
]

unfoldable pub embeds_authorization : LfsAction → Bool
embeds_authorization action = is_some (lookup authorization_header action.header)

-- `if let Some(auth) = auth { header.insert(..) }`
unfoldable pub with_authorization : Option Bytes → List (Bytes × Bytes) → List (Bytes × Bytes)
with_authorization none header = header
with_authorization (some auth) header = insert authorization_header auth header

unfoldable pub upload_action : Config → ℕ × Bytes → Option Bytes → LfsAction
upload_action config (now, session) auth = record {
  href = public_base config.public_url ++ codes "/xet-token";
  header = with_authorization auth (
      (header_xet_cas_url, public_base config.public_url)
      ∷ (header_xet_access_token, advertised_token config)
      ∷ (header_xet_token_expiration, to_string (add_u64 now token_ttl_secs))
      ∷ (header_xet_session_id, session)
      ∷ []);
  expires_in = token_ttl_secs;
}

unfoldable pub download_action : Config → Bytes → Option Bytes → LfsAction
download_action config oid auth = record {
  href = public_base config.public_url ++ (codes "/lfs/objects/" ++ oid);
  header = with_authorization auth [];
  expires_in = token_ttl_secs;
}

unfoldable pub contains_text : Bytes → List Bytes → Bool
contains_text t [] = false
contains_text t (u ∷ us) = bytes_eq u t || contains_text t us

-- An entry without actions, with an error or none.
abbrev pub without_actions : LfsObjectSpec → Option LfsObjectError → LfsBatchObject
without_actions spec error = record {
  oid = spec.oid;
  size = spec.size;
  authenticated = false;
  actions = [];
  error = error;
}

abbrev pub with_action : LfsObjectSpec → Bytes → LfsAction → LfsBatchObject
with_action spec name action = record {
  oid = spec.oid;
  size = spec.size;
  authenticated = embeds_authorization action;
  actions = (name, action) ∷ [];
  error = none;
}

abbrev pub needs_xet : LfsObjectError
needs_xet = record {
  code = 422;
  message = codes "xetcasd requires the xet transfer agent for uploads -- run 'git xet install'";
}

abbrev pub no_object : Bytes → LfsObjectError
no_object oid = record { code = 404; message = codes "object " ++ (oid ++ codes " not found") }

-- The handler `download` up to the stream of the file.
unfoldable pub download : Codec → Bytes → Tables → Reply FileRecord
download codec oid t = do
  map_err (λ e. bad_request (invalid_message e))
      (validate_lfs_object_spec (record { oid = oid; size = 0 }))
  found ← map_err (λ e. internal (index_failed e)) (file_by_sha256 codec oid t)
  ok_or found not_found

-- The loop, with the place of the object.
unfoldable pub push_objects :
    (ℕ → LfsObjectSpec → Reply LfsBatchObject)
    → ℕ
    → List LfsObjectSpec
    → List LfsBatchObject
    → Reply (List LfsBatchObject)
push_objects object i [] objects = ok objects
push_objects object i (spec ∷ specs) objects =
    object i spec >>= λ o. push_objects object (i + 1) specs (objects ++ o ∷ [])

module _ (codec : Codec) (config : Config) (t : Tables) (auth : Option Bytes) where
  -- One round of the loop of `upload_batch`.
  unfoldable pub upload_object : Bool → ℕ × Bytes → LfsObjectSpec → Reply LfsBatchObject
  upload_object offers_xet fresh spec =
      if not offers_xet
      then ok (without_actions spec (some needs_xet))
      else (map_err (λ e. internal (index_failed e)) (file_by_sha256 codec spec.oid t) >>= λ known.
          ok (elim known [
            | some file ↦ without_actions spec none
            | none ↦ with_action spec (codes "upload") (upload_action config fresh auth)
          ]))

  -- One round of the loop of `download_batch`.
  unfoldable pub download_object : LfsObjectSpec → Reply LfsBatchObject
  download_object spec =
      map_err (λ e. internal (index_failed e)) (file_by_sha256 codec spec.oid t) >>= λ known.
      ok (elim known [
        | some file ↦ with_action spec (codes "download") (download_action config spec.oid auth)
        | none ↦ without_actions spec (some (no_object spec.oid))
      ])

  unfoldable pub upload_batch : (ℕ → ℕ × Bytes) → LfsBatchRequest → Reply LfsBatchResponse
  upload_batch fresh request =
      let offers_xet = contains_text transfer_xet request.transfers in
      push_objects (λ i. upload_object offers_xet (fresh i)) 0 request.objects [] >>= λ objects.
      ok (record {
        transfer = if offers_xet then transfer_xet else transfer_basic;
        objects = objects;
        hash_algo = hash_algo_sha256;
      })

  unfoldable pub download_batch : LfsBatchRequest → Reply LfsBatchResponse
  download_batch request = push_objects (λ i. download_object) 0 request.objects [] >>= λ objects.
      ok (record { transfer = transfer_basic; objects = objects; hash_algo = hash_algo_sha256 })

  -- The `match` on the operation.
  unfoldable pub respond : (ℕ → ℕ × Bytes) → LfsBatchRequest → Reply LfsBatchResponse
  respond fresh request =
      if bytes_eq request.operation (codes "upload")
      then upload_batch fresh request
      else (if bytes_eq request.operation (codes "download")
          then download_batch request
          else err (bad_request (unsupported_operation request.operation)))

-- The handler `batch`, with the parser of its body.
unfoldable pub batch :
    Codec
    → (Bytes → Option LfsBatchRequest)
    → Config
    → (ℕ → ℕ × Bytes)
    → Header
    → Bytes
    → Tables
    → Reply LfsBatchResponse
batch codec from_slice config fresh authorization body t = do
  request ← ok_or (from_slice body) (bad_request malformed_request)
  map_err (λ e. bad_request (invalid_message e)) (validate_lfs_batch_request request)
  response ← respond codec config t (forwarded_authorization authorization) fresh request
  map_err (λ e. internal (invalid_message e)) (validate_lfs_batch_response response)
  ok response
