-- ===== src/Contracts/Validate/Storage.antt =====
-- crates/xetcas-contracts/src/v1/validate.rs: the validators of storage.proto.
use Prim.Native.String.{String}
use xetcas.Prelude.{
  ℕ, ◌*◌, not, ◌&&◌, ◌||◌, List, [], ◌∷◌, Result, ◌>>=◌, ◌>>◌, ok_or, fail_if, ltb, leb, ◌==◌,
  length, last?,
}
use xetcas.Prelude.Words.{add_u64}
use xetcas.Contracts.Constants.{hash_bytes}
use xetcas.Contracts.Storage.{XorbRecord, FileTermRecord, FileRecord}
use xetcas.Contracts.Validate.Fields.{
  Failure, panicked, Checked, violation, is_empty, is_hash_hex, require_hash_hex, validate_each,
}

abbrev xorb_violation : String → String → Failure
xorb_violation field predicate = violation "candace.xetcas.v1.XorbRecord" field predicate

abbrev file_violation : String → String → Failure
file_violation field predicate = violation "candace.xetcas.v1.FileRecord" field predicate

-- The last entry, where the source has `.last().expect(..)`.
unfoldable pub last_offset : List ℕ → Result Failure ℕ
last_offset offsets = ok_or (last? offsets) panicked

unfoldable pub validate_xorb_record : XorbRecord → Checked
validate_xorb_record value = do
  require_hash_hex "candace.xetcas.v1.XorbRecord" "xorb_hash" value.xorb_hash
  fail_if (not (leb 1 value.num_chunks && leb value.num_chunks 8192))
      (xorb_violation "num_chunks" "this >= 1 && this <= 8192")
  fail_if (ltb 67_108_864 value.unpacked_length)
      (xorb_violation "unpacked_length" "this <= 67108864")
  fail_if (not (length value.chunk_boundary_offsets == value.num_chunks))
      (xorb_violation "chunk_boundary_offsets" "len(this) == num_chunks")
  fail_if (not (length value.unpacked_chunk_offsets == value.num_chunks))
      (xorb_violation "unpacked_chunk_offsets" "len(this) == num_chunks")
  fail_if (not (length value.chunk_hashes == hash_bytes * value.num_chunks))
      (xorb_violation "chunk_hashes" "len(this) == 32 * num_chunks")
  last_boundary ← last_offset value.chunk_boundary_offsets
  fail_if (not (last_boundary == value.frames_length))
      (xorb_violation "chunk_boundary_offsets" "last(this) == frames_length")
  last_unpacked ← last_offset value.unpacked_chunk_offsets
  fail_if (not (last_unpacked == value.unpacked_length))
      (xorb_violation "unpacked_chunk_offsets" "last(this) == unpacked_length")

unfoldable pub validate_file_term_record : FileTermRecord → Checked
validate_file_term_record value = do
  require_hash_hex "candace.xetcas.v1.FileTermRecord" "xorb_hash" value.xorb_hash
  fail_if (ltb value.chunk_index_end value.chunk_index_start)
      (violation "candace.xetcas.v1.FileTermRecord" "chunk_index_start" "this <= chunk_index_end")

-- `terms.iter().map(..).sum()` over u64, from the left.
unfoldable pub sum_segments : ℕ → List FileTermRecord → ℕ
sum_segments total [] = total
sum_segments total (term ∷ terms) = sum_segments (add_u64 total term.unpacked_segment_bytes) terms

unfoldable pub validate_file_record : FileRecord → Checked
validate_file_record value = do
  require_hash_hex "candace.xetcas.v1.FileRecord" "file_hash" value.file_hash
  fail_if (not (is_empty value.sha256 || is_hash_hex value.sha256)) (
      file_violation "sha256"
        "len(this) == 0 || (len(this) == 64 && matches(this, \"^[0-9a-f]{64}$\"))")
  validate_each validate_file_term_record value.terms
  fail_if
      (not (is_empty value.verification_range_hashes)
        && not (length value.verification_range_hashes == hash_bytes * length value.terms))
      (file_violation "verification_range_hashes" "len(this) == 0 || len(this) == 32 * len(terms)")
  fail_if (not (sum_segments 0 value.terms == value.file_length))
      (file_violation "file_length" "this == sum(terms.unpacked_segment_bytes)")
