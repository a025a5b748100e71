-- ===== src/Contracts/Tests.antt =====
-- The validators of crates/xetcas-contracts/src/v1/validate.rs on a record each, in the style of the
-- unit tests of that crate, and the instances of the theorems.
use xetcas.Prelude.{
  ℕ, suc, zero, ◌≡◌, ◌≢◌, ◌↔◌, false, none, some, [], ◌∷◌, Bytes, ok, err, codes, arith,
}
use xetcas.Contracts.Transfer.{
  QueryReconstructionRequest, QueryReconstructionResponse, QueryReconstructionResponseV2,
  ChunkDedupQuery, UploadXorbKey,
}
use xetcas.Contracts.Storage.{XorbRecord, FileRecord}
use xetcas.Contracts.Bridge.{LfsBatchRequest, LfsBatchResponse}
use xetcas.Contracts.Validate.Fields.{panicked}
use xetcas.Contracts.Validate.Transfer.{
  validate_query_reconstruction_request, validate_query_reconstruction_response,
  validate_query_reconstruction_response_v2, validate_chunk_dedup_query, validate_upload_xorb_key,
}
use xetcas.Contracts.Validate.Storage.{validate_xorb_record, validate_file_record}
use xetcas.Contracts.Validate.Bridge.{validate_lfs_batch_request, validate_lfs_batch_response}
use xetcas.Contracts.Validate.Accepts.{IsHashHex, IfPresent}
use xetcas.Contracts.Validate.StorageLaws.{
  IsXorbRecord, IsFileRecord, xorb_record-accepts, xorb_record_never_panics, file_record-accepts,
}
use xetcas.Contracts.Validate.TransferLaws.{
  IsByteRange, IsResponse, IsResponseV2, IsResponse-accepts, IsResponseV2-accepts, requests-accept,
}
use xetcas.Contracts.Validate.BridgeLaws.{IsBatchRequest, IsBatchResponse, batch-accepts}

abbrev repeat : ℕ → ℕ → Bytes
repeat zero c = []
repeat (suc n) c = c ∷ repeat n c

abbrev hash_a : Bytes
hash_a = repeat 64 b'a'

abbrev two_chunks : XorbRecord
two_chunks = record {
  xorb_hash = hash_a;
  num_chunks = 2;
  frames_length = 21;
  unpacked_length = 5;
  chunk_boundary_offsets = 10 ∷ 21 ∷ [];
  unpacked_chunk_offsets = 2 ∷ 5 ∷ [];
  chunk_hashes = repeat 64 7;
  created_at = 0;
}

abbrev one_term : FileRecord
one_term = record {
  file_hash = hash_a;
  file_length = 5;
  sha256 = [];
  terms =
      record {
        xorb_hash = hash_a;
        chunk_index_start = 0;
        chunk_index_end = 2;
        unpacked_segment_bytes = 5;
      }
      ∷ [];
  verification_range_hashes = [];
  created_at = 0;
}

abbrev response : QueryReconstructionResponse
response = record {
  offset_into_first_range = 0;
  terms =
      record { hash = hash_a; range = some (record { start = 0; end = 2 }); unpacked_length = 5 }
      ∷ [];
  fetch_info =
      (
        hash_a,
        record {
          entries =
              record {
                range = some (record { start = 0; end = 2 });
                url = codes "http://x";
                url_range = some (record { start = 0; end = 20 });
              }
              ∷ [];
        },
      )
      ∷ [];
}

abbrev response_v2 : QueryReconstructionResponseV2
response_v2 = record { offset_into_first_range = 0; terms = response.terms; xorbs = [] }

abbrev request : QueryReconstructionRequest
request = record { file_id = hash_a; range = some (record { start = 0; end = 4 }) }

abbrev query : ChunkDedupQuery
query = record { prefix = codes "default"; hash = hash_a }

abbrev key : UploadXorbKey
key = record { prefix = codes "default"; hash = codes "not-a-hash" }

abbrev batch : LfsBatchRequest
batch = record {
  operation = codes "upload";
  transfers = codes "xet" ∷ [];
  ref = none;
  objects = record { oid = hash_a; size = 5 } ∷ [];
  hash_algo = [];
}

abbrev reply : LfsBatchResponse
reply = record {
  transfer = codes "xet";
  objects =
      record { oid = hash_a; size = 5; authenticated = false; actions = []; error = none } ∷ [];
  hash_algo = codes "sha256";
}

xorb_record-accepts_example : (validate_xorb_record two_chunks ≡ ok tt) ↔ IsXorbRecord two_chunks
xorb_record-accepts_example = xorb_record-accepts two_chunks

xorb_record_never_panics_example : validate_xorb_record two_chunks ≢ err panicked
xorb_record_never_panics_example = xorb_record_never_panics two_chunks

file_record-accepts_example : (validate_file_record one_term ≡ ok tt) ↔ IsFileRecord one_term
file_record-accepts_example = file_record-accepts one_term (omega arith)

IsResponse-accepts_example :
    (validate_query_reconstruction_response response ≡ ok tt) ↔ IsResponse response
IsResponse-accepts_example = IsResponse-accepts response

IsResponseV2-accepts_example :
    (validate_query_reconstruction_response_v2 response_v2 ≡ ok tt) ↔ IsResponseV2 response_v2
IsResponseV2-accepts_example = IsResponseV2-accepts response_v2

requests-accept_example :
    ((validate_query_reconstruction_request request ≡ ok tt)
      ↔ (IsHashHex request.file_id × IfPresent IsByteRange request.range))
    × ((validate_chunk_dedup_query query ≡ ok tt) ↔ ((query.prefix ≢ []) × IsHashHex query.hash))
    × ((validate_upload_xorb_key key ≡ ok tt) ↔ ((key.prefix ≢ []) × IsHashHex key.hash))
requests-accept_example = requests-accept request query key

batch-accepts_example :
    ((validate_lfs_batch_request batch ≡ ok tt) ↔ IsBatchRequest batch)
    × ((validate_lfs_batch_response reply ≡ ok tt) ↔ IsBatchResponse reply)
batch-accepts_example = batch-accepts batch reply
