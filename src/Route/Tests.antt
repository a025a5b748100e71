-- ===== src/Route/Tests.antt =====
-- The handler of crates/xetcasd/src/routes/reconstructions.rs on a file of two chunks. The codec of
-- the tests knows one xorb and one file.
use xetcas.Prelude.{
  ℕ, zero, suc, ◌≡◌, refl, none, some, [], ◌∷◌, ◌++◌, Bytes, codes, ok, lookup, bytes_eq, fail_if,
  All, insert,
}
use xetcas.Prelude.Words.{as_u32, sub_u32, sub_u64, add_u64, checked_sub, saturating_suc}
use xetcas.Contracts.Transfer.{QueryReconstructionResponse}
use xetcas.Contracts.Storage.{XorbRecord, FileRecord}
use xetcas.Contracts.Validate.Fields.{
  all_bytes, is_hex_byte, is_hash_hex, require_hash_hex, require_non_empty, require_present,
  validate_each, require_hash_hex_keys,
}
use xetcas.Contracts.Validate.Transfer.{
  validate_index_range, validate_byte_range, validate_query_reconstruction_request,
  validate_cas_reconstruction_term, validate_cas_reconstruction_fetch_info,
  validate_fetch_info_list, validate_query_reconstruction_response,
}
use xetcas.Contracts.Validate.TransferLaws.{IsResponse}
use xetcas.HttpRange.{
  trim, strip_prefix, contains, split_once, parse_bounds, parse_range_header, resolve,
}
use xetcas.Index.{Codec, Tables, get_file, get_xorbs_into}
use xetcas.Reconstruction.Meta.{from_record, num_chunks, offset_before, chunk_len, byte_offset}
use xetcas.Reconstruction.Plan.{
  clamp, skip_segments, trim_leading, trim_trailing, push_range, lead, trail, push, plan_segment,
  plan_segments, insert_range, sort_ranges, merge_from, merge_ranges, merge_all,
  plan_reconstruction,
}
use xetcas.Shards.Served.{metas_of}
use xetcas.Headers.{value}
use xetcas.State.{public_base}
use xetcas.Route.{
  read_range, resolve_range, hashes_of, response_term, response_terms, fetch_url, fetch_entry,
  fetch_entries, fetch_info, response_of, plan_file, respond, get,
}
use xetcas.Route.Response.{Offered, get-IsResponse}

abbrev repeat : ℕ → ℕ → Bytes
repeat zero c = []
repeat (suc n) c = c ∷ repeat n c

abbrev hash_a : Bytes
hash_a = repeat 64 b'a'

abbrev xorb : XorbRecord
xorb = record {
  xorb_hash = hash_a;
  num_chunks = 2;
  frames_length = 21;
  unpacked_length = 5;
  chunk_boundary_offsets = 10 ∷ 21 ∷ [];
  unpacked_chunk_offsets = 2 ∷ 5 ∷ [];
  chunk_hashes = [];
  created_at = 0;
}

abbrev file : FileRecord
file = record {
  file_hash = hash_a;
  file_length = 5;
  sha256 = [];
  terms =
      record {
        xorb_hash = hash_a;
        chunk_index_start = 0;
        chunk_index_end = 2;
        unpacked_segment_bytes = 5;
      }
      ∷ [];
  verification_range_hashes = [];
  created_at = 0;
}

abbrev codec : Codec
codec = record {
  encode_xorb = λ r. [];
  decode_xorb = λ s. some xorb;
  encode_file = λ f. [];
  decode_file = λ s. some file;
}

abbrev tables : Tables
tables = record {
  xorbs = (hash_a, []) ∷ [];
  files = (hash_a, record { sha256 = none; blob = [] }) ∷ [];
  chunks = [];
  disk_bytes = 21;
}

abbrev response : QueryReconstructionResponse
response = record {
  offset_into_first_range = 1;
  terms =
      record { hash = hash_a; range = some (record { start = 1; end = 2 }); unpacked_length = 3 }
      ∷ [];
  fetch_info =
      (
        hash_a,
        record {
          entries =
              record {
                range = some (record { start = 1; end = 2 });
                url = codes "http://x/v1/xorbs/default/" ++ (hash_a ++ codes "/data");
                url_range = some (record { start = 10; end = 20 });
              }
              ∷ [];
        },
      )
      ∷ [];
}

sends : get codec (codes "http://x/") tables hash_a (value (codes "bytes=3-9")) ≡ ok response
unfolding get plan_file respond response_of fetch_info fetch_entries fetch_entry fetch_url
    response_terms response_term hashes_of resolve_range read_range public_base metas_of get_file
    get_xorbs_into lookup insert bytes_eq fail_if parse_range_header trim strip_prefix contains
    split_once parse_bounds resolve saturating_suc from_record num_chunks offset_before chunk_len
    byte_offset clamp skip_segments trim_leading trim_trailing push_range lead trail push
    plan_segment plan_segments insert_range sort_ranges merge_from merge_ranges merge_all
    plan_reconstruction as_u32 sub_u32 sub_u64 add_u64 checked_sub validate_index_range
    validate_byte_range validate_query_reconstruction_request validate_cas_reconstruction_term
    validate_cas_reconstruction_fetch_info validate_fetch_info_list
    validate_query_reconstruction_response require_hash_hex require_non_empty require_present
    require_hash_hex_keys validate_each is_hash_hex all_bytes is_hex_byte
sends = refl

get-IsResponse_example : IsResponse response × All (Offered response) response.terms
get-IsResponse_example =
    get-IsResponse codec (codes "http://x/") tables hash_a (value (codes "bytes=3-9")) response
      sends
