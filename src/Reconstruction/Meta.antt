-- ===== src/Reconstruction/Meta.antt =====
-- crates/xetcasd/src/reconstruction.rs: `XorbMeta`, the chunk geometry of one xorb. The numbers are
-- u32; a subtraction that would go below 0 wraps, as in the release build.
use xetcas.Prelude.{
  ℕ, ◌-◌, ◌||◌, List, Bytes, Result, ok, ◌>>=◌, ◌>>◌, ok_or, fail_if, ltb, leb, ◌==◌, length,
  get_elem?, if◌then◌else◌,
}
use xetcas.Prelude.Words.{as_u32, sub_u32, sub_u64}
use xetcas.Contracts.Storage.{XorbRecord}

-- The messages that the module returns as `String`, and the panic of an index out of bounds.
pub data PlanError : Type 0 where
  chunk_index_out_of_range : ℕ → PlanError
  chunk_range_out_of_range : ℕ → ℕ → PlanError
  past_terms : PlanError
  unknown_xorb : Bytes → PlanError
  segment_shorter : PlanError
  panicked : PlanError

pub record XorbMeta : Type 0 where
  pub boundary : List ℕ
  pub unpacked : List ℕ

unfoldable pub from_record : XorbRecord → XorbMeta
from_record record' = record {
  boundary = record'.chunk_boundary_offsets;
  unpacked = record'.unpacked_chunk_offsets;
}

unfoldable pub num_chunks : XorbMeta → ℕ
num_chunks meta = as_u32 (length meta.unpacked)

-- `if i == 0 { 0 } else { offsets[i - 1] }`: where chunk `i` starts.
unfoldable pub offset_before : List ℕ → ℕ → Result PlanError ℕ
offset_before offsets i = if i == 0 then ok 0 else ok_or (get_elem? offsets (i - 1)) panicked

unfoldable pub chunk_len : XorbMeta → ℕ → Result PlanError ℕ
chunk_len meta i = do
  end ← ok_or (get_elem? meta.unpacked i) (chunk_index_out_of_range i)
  start ← offset_before meta.unpacked i
  ok (sub_u32 end start)

unfoldable pub unpacked_len : XorbMeta → ℕ → ℕ → Result PlanError ℕ
unpacked_len meta start end = do
  fail_if (ltb (num_chunks meta) end || ltb end start) (chunk_range_out_of_range start end)
  hi ← offset_before meta.unpacked end
  lo ← offset_before meta.unpacked start
  ok (sub_u64 hi lo)

unfoldable pub byte_offset : XorbMeta → ℕ → ℕ → Result PlanError (ℕ × ℕ)
byte_offset meta start end = do
  fail_if (ltb (num_chunks meta) end || leb end start) (chunk_range_out_of_range start end)
  lo ← offset_before meta.boundary start
  hi ← ok_or (get_elem? meta.boundary (end - 1)) panicked
  ok (lo, hi)
