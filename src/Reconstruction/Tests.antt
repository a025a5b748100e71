-- ===== src/Reconstruction/Tests.antt =====
-- `plan_reconstruction` of crates/xetcasd/src/reconstruction.rs on a file of two chunks, and the
-- instances of the theorems.
use xetcas.Prelude.{
  ℕ, zero, suc, ◌<◌, ◌≡◌, refl, none, some, [], ◌∷◌, Bytes, ok, codes, arith, ◌↔◌, Any, All, take,
  drop, length, get_elem?, lookup, bytes_eq, fail_if,
}
use xetcas.Contracts.Storage.{FileTermRecord, FileRecord}
use xetcas.Reconstruction.Meta.{XorbMeta}
use xetcas.Reconstruction.Plan.{
  Plan, Metas, clamp, skip_segments, plan_segments, plan_segment, lead, trail, trim_leading,
  trim_trailing, push, push_range, merge_all, merge_ranges, merge_from, sort_ranges, insert_range,
  plan_reconstruction,
}
use xetcas.Reconstruction.Content.{span}
use xetcas.Reconstruction.Segment.{Holds, file_content, terms_content}
use xetcas.Reconstruction.Walk.{Declares}
use xetcas.Reconstruction.Extent.{StartsPast, plan_reconstruction-none}
use xetcas.Reconstruction.Fetch.{ranges_of, fetch-Spanned, fetch-Apart, fetch-Framed}
use xetcas.Reconstruction.Fetch.Merge.{Spans, Apart}
use xetcas.Reconstruction.Fetch.Frames.{Rises}
use xetcas.Reconstruction.Meta.{chunk_len, offset_before, num_chunks, byte_offset}
use xetcas.Prelude.Words.{add_u64, sub_u64, sub_u32, checked_sub, as_u32}
use xetcas.Reconstruction.Refines.{plan_reconstruction-content, plan_reconstruction-whole}

-- The xorb "a" has the chunks 1 2 and 3 4 5, with frames of 10 and 11 bytes.
abbrev chunk : Bytes → ℕ → Bytes
chunk xorb zero = 1 ∷ 2 ∷ []
chunk xorb (suc zero) = 3 ∷ 4 ∷ 5 ∷ []
chunk xorb (suc (suc n)) = []

abbrev meta : XorbMeta
meta = record { boundary = 10 ∷ 21 ∷ []; unpacked = 2 ∷ 5 ∷ [] }

abbrev metas : Metas
metas = (codes "a", meta) ∷ []

abbrev seg : FileTermRecord
seg = record {
  xorb_hash = codes "a";
  chunk_index_start = 0;
  chunk_index_end = 2;
  unpacked_segment_bytes = 5;
}

abbrev file : FileRecord
file = record {
  file_hash = codes "f";
  file_length = 5;
  sha256 = [];
  terms = seg ∷ [];
  verification_range_hashes = [];
  created_at = 0;
}

meta_offsets :
    (i : ℕ) → i < 2 → get_elem? meta.unpacked i ≡ some (length (span (chunk (codes "a")) 0 (suc i)))
unfolding span
meta_offsets zero h = refl
meta_offsets (suc zero) h = refl
meta_offsets (suc (suc n)) h = absurd (omega arith)

meta_small : (length (span (chunk (codes "a")) 0 2) ≡ 5)
unfolding span
meta_small = refl

found : lookup (codes "a") metas ≡ some meta
unfolding lookup bytes_eq
found = refl

seg-Holds : Holds metas chunk seg
unfolding span lookup bytes_eq
seg-Holds = record {
  meta = meta;
  found = found;
  describes = record {
    offsets = meta_offsets;
    frames = refl;
    count = omega arith;
    small = omega (arith, meta_small);
  };
  ordered = omega arith;
  inside = omega arith;
  bytes = refl;
}

file_length : length (file_content chunk file.terms) ≡ 5
unfolding span
file_length = refl

plan_reconstruction-content_example :
    (plan : Plan) × (plan_reconstruction file (some (3, 9)) metas ≡ ok (some plan))
    × (take 2 (drop plan.offset_into_first_range (terms_content chunk plan.terms))
        ≡ take 2 (drop 3 (file_content chunk file.terms)))
    × All (Declares chunk) plan.terms
plan_reconstruction-content_example =
    plan_reconstruction-content metas chunk file 3 9 (seg-Holds, tt) (omega (arith, file_length))
      (omega arith) (omega arith) (omega arith)

plan_reconstruction-whole_example :
    (plan : Plan) × (plan_reconstruction file none metas ≡ ok (some plan))
    × (take 5 (drop plan.offset_into_first_range (terms_content chunk plan.terms))
        ≡ file_content chunk file.terms)
plan_reconstruction-whole_example =
    plan_reconstruction-whole metas chunk file (seg-Holds, tt) (omega (arith, file_length))
      (omega arith) (omega arith)

-- The plan of bytes 3 to 5.
abbrev plan : Plan
plan = record {
  offset_into_first_range = 1;
  terms = record { xorb = codes "a"; chunk_start = 1; chunk_end = 2; unpacked_length = 3 } ∷ [];
  fetch =
      (codes "a", record { chunk_start = 1; chunk_end = 2; byte_start = 10; byte_end = 21 } ∷ [])
      ∷ [];
}

plans : plan_reconstruction file (some (3, 9)) metas ≡ ok (some plan)
unfolding plan_reconstruction clamp skip_segments plan_segments plan_segment lead trail trim_leading
    trim_trailing chunk_len offset_before byte_offset num_chunks push push_range merge_all
    merge_ranges merge_from sort_ranges insert_range lookup bytes_eq fail_if add_u64 sub_u64 sub_u32
    checked_sub as_u32
plans = refl

fetch-Spanned_example :
    All (λ t. Any (Spans t.chunk_start t.chunk_end) (ranges_of t.xorb plan.fetch)) plan.terms
fetch-Spanned_example = fetch-Spanned metas file (some (3, 9)) plan plans

fetch-Apart_example : Apart (ranges_of (codes "a") plan.fetch)
fetch-Apart_example = fetch-Apart metas file (some (3, 9)) plan (codes "a") plans

boundary-Rises : Rises meta.boundary
boundary-Rises zero zero a b h e f = ground arith
boundary-Rises zero (suc zero) a b h e f = ground arith
boundary-Rises (suc zero) (suc zero) a b h e f = ground arith
boundary-Rises (suc i) zero a b h e f = absurd (omega arith)
boundary-Rises i (suc (suc j)) a b h e f = ground arith
boundary-Rises (suc (suc i)) (suc zero) a b h e f = absurd (omega arith)

fetch-Framed_example :
    All
      (λ r. byte_offset meta r.chunk_start r.chunk_end ≡ ok (r.byte_start, r.byte_end))
      (ranges_of (codes "a") plan.fetch)
fetch-Framed_example =
    fetch-Framed metas file (some (3, 9)) plan (codes "a") meta found boundary-Rises plans

plan_reconstruction-none_example :
    (plan_reconstruction file (some (5, 9)) metas ≡ ok none) ↔ StartsPast 5 (some (5, 9))
plan_reconstruction-none_example = plan_reconstruction-none metas file (some (5, 9))

abbrev no_terms : FileRecord
no_terms = record file { file_length = 0; terms = [] }
