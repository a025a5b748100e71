-- ===== src/Lfs/Tests.antt =====
-- The batch handler of crates/xetcasd/src/routes/lfs.rs on one request, over an empty index.
use xetcas.Prelude.{
  ℕ, zero, suc, ◌≡◌, refl, ◌⊎◌, true, Option, none, some, [], ◌∷◌, Bytes, codes, ok, fail_if,
  bytes_eq, lookup, arith,
}
use xetcas.Contracts.Bridge.{LfsObjectSpec, LfsBatchRequest}
use xetcas.Contracts.Validate.Fields.{
  require_hash_hex, is_hash_hex, all_bytes, is_hex_byte, validate_each,
}
use xetcas.Contracts.Validate.Bridge.{validate_lfs_object_spec, validate_lfs_batch_request}
use xetcas.Contracts.Validate.Accepts.{is_hash_hex_iff}
use xetcas.HttpRange.{parse_u64}
use xetcas.Index.{Codec, schema}
use xetcas.Headers.{value}
use xetcas.State.{Config, public_base, advertised_token}
use xetcas.Lfs.{
  forwarded_authorization, upload_action, header_xet_cas_url, header_xet_access_token,
  header_xet_session_id, header_xet_token_expiration, batch,
}
use xetcas.Lfs.Objects.{Unless}
use xetcas.Lfs.Batch.{Responds, batch-Responds}
use xetcas.Lfs.Download.{Stored, Missing, Broken, download-agrees, upload_action-readable}

abbrev repeat : ℕ → ℕ → Bytes
repeat zero c = []
repeat (suc n) c = c ∷ repeat n c

abbrev oid : Bytes
oid = repeat 64 b'a'

abbrev spec : LfsObjectSpec
spec = record { oid = oid; size = 5 }

abbrev request : LfsBatchRequest
request = record {
  operation = codes "upload";
  transfers = codes "basic" ∷ codes "xet" ∷ [];
  ref = none;
  objects = spec ∷ [];
  hash_algo = codes "sha256";
}

-- A body of one byte stands for the request.
abbrev from_slice : Bytes → Option LfsBatchRequest
from_slice [] = none
from_slice (c ∷ s) = some request

abbrev codec : Codec
codec = record {
  encode_xorb = λ r. [];
  decode_xorb = λ b. none;
  encode_file = λ f. [];
  decode_file = λ b. none;
}

abbrev config : Config
config = record {
  public_url = codes "http://h/";
  git_root = [];
  git_autocreate = true;
  token = none;
}

abbrev fresh : ℕ → ℕ × Bytes
fresh i = (1000, i ∷ [])

request_valid : validate_lfs_batch_request request ≡ ok tt
unfolding validate_lfs_batch_request fail_if bytes_eq validate_each validate_lfs_object_spec
    require_hash_hex is_hash_hex all_bytes is_hex_byte
request_valid = refl

batch-Responds_example :
    Unless
      (batch codec from_slice config fresh (value (codes "Basic x ")) (0 ∷ []) schema)
      (Responds (forwarded_authorization (value (codes "Basic x "))) (spec ∷ []))
batch-Responds_example =
    batch-Responds codec from_slice config fresh (value (codes "Basic x ")) (0 ∷ []) schema request
      refl request_valid

oid_valid : (is_hash_hex oid ≡ true)
unfolding is_hash_hex all_bytes is_hex_byte
oid_valid = refl

download-agrees_example :
    Stored codec config schema none (fresh 0) spec
    ⊎ (Missing codec config schema none (fresh 0) spec
        ⊎ Broken codec config schema none (fresh 0) spec)
download-agrees_example =
    download-agrees codec config schema none (fresh 0) spec ((is_hash_hex_iff oid).0 oid_valid)

upload_action-readable_example :
    (lookup header_xet_cas_url (upload_action config (1000, 7 ∷ []) (some (codes "x"))).header
      ≡ some (public_base config.public_url))
    × (lookup header_xet_access_token
          (upload_action config (1000, 7 ∷ []) (some (codes "x"))).header
        ≡ some (advertised_token config))
    × (lookup header_xet_session_id (upload_action config (1000, 7 ∷ []) (some (codes "x"))).header
        ≡ some (7 ∷ []))
    × ((expiration : Bytes) × (lookup header_xet_token_expiration
            (upload_action config (1000, 7 ∷ []) (some (codes "x"))).header
          ≡ some expiration)
        × (parse_u64 expiration ≡ some 4600))
upload_action-readable_example =
    upload_action-readable config 1000 (7 ∷ []) (some (codes "x")) (omega arith)
