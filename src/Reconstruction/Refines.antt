-- ===== src/Reconstruction/Refines.antt =====
-- `plan_reconstruction` of crates/xetcasd/src/reconstruction.rs against its specification: the bytes
-- that a client reads by the plan are the bytes of the file in the range. The children follow the
-- code's two loops.
mod Skip
mod Cover
use xetcas.Prelude.{
  ℕ, zero, suc, ◌+◌, ◌-◌, ◌^◌, ◌≤◌, ◌<◌, min, ◌≡◌, refl, sym, ap, ◌∙◌, ◌⊎◌, inl, inr, Option, none,
  some, List, [], ◌∷◌, ◌++◌, Bytes, ok, length, length-append, arith, All, take, drop, drop-append,
  drop-append_le, take-append, length-drop,
}
use xetcas.Prelude.Words.{sub_u64, sub_u64_of_le}
use xetcas.Contracts.Storage.{FileTermRecord, FileRecord}
use xetcas.Reconstruction.Plan.{
  Plan, Metas, Walk, clamp, within, skip_segments, plan_segments, merge_all, plan_reconstruction,
}
use xetcas.Reconstruction.Segment.{Holds, file_content, terms_content}
use xetcas.Reconstruction.Walk.{Declares}
use Skip.{skip_segments-Skips}
use Cover.{Covers, start_walk, plan_segments-Covers}

-- Bytes in the middle of a list, counted from its start and from the middle's.
slice-middle {ℓ} :
    {A : Type ℓ} (d m r : List A) (start n : ℕ)
    → length d ≤ start
    → start + n ≤ length d + length m
    → take n (drop start (d ++ (m ++ r))) ≡ take n (drop (start - length d) m)
slice-middle d m r start n h k =
    let e : start ≡ length d + (start - length d) = omega arith in
    ap (λ j. take n (drop j (d ++ (m ++ r)))) e
    ∙ ap (take n) (drop-append d (m ++ r) (start - length d) ∙ drop-append_le _ m r (omega arith))
    ∙ take-append n _ r (omega (arith, length-drop (start - length d) m))

abbrev plan_of : ℕ → Walk → Plan
plan_of range_start w = record {
  offset_into_first_range = sub_u64 range_start w.first_chunk_byte_start;
  terms = w.terms;
  fetch = merge_all w.per_xorb;
}

-- The plan is what its three steps make.
pub plan_reconstruction-steps :
    (metas : Metas) (file : FileRecord) (range : Option (ℕ × ℕ)) (range_start range_end first : ℕ)
    (segs : List FileTermRecord) (w : Walk)
    → clamp file.file_length range ≡ within range_start range_end
    → skip_segments range_start 0 file.terms ≡ ok (first, segs)
    → plan_segments metas range_start range_end segs (start_walk first) ≡ ok w
    → plan_reconstruction file range metas ≡ ok (some (plan_of range_start w))
unfolding plan_reconstruction
plan_reconstruction-steps metas file range range_start range_end first segs w ec es ew =
    ground (arith, ec, es, ew)

-- The bytes of the range lie in what the terms hold.
Covers-slice :
    {chunk : Bytes → ℕ → Bytes} {start stop : ℕ} {content rest : Bytes} {w : Walk}
    → (c : Covers chunk start content rest w) → (stop ≤ w.cumulative) ⊎ (rest ≡ [])
    → start ≤ stop
    → stop ≤ length content
    → start < 2 ^ 64
    → take
        (stop - start)
        (drop (sub_u64 start w.first_chunk_byte_start) (terms_content chunk w.terms))
      ≡ take (stop - start) (drop start content)
Covers-slice {chunk} {start} {stop} {content} {rest} {w} c after ordered inside small =
    let m = terms_content chunk w.terms in
    let size =
      ap length c.splits
      ∙ length-append c.dropped _
      ∙ ap (λ k. length c.dropped + k) (length-append m rest) in
    let offset : sub_u64 start w.first_chunk_byte_start ≡ start - length c.dropped =
      ap (sub_u64 start) c.firsts ∙ sub_u64_of_le start (length c.dropped) c.before small in
    let reach : start + (stop - start) ≤ length c.dropped + length m = elim after [
      | inl covered ↦ omega (arith, c.moves)
      | inr end ↦ omega (arith, size, ap length end)
    ] in
    ap (λ k. take (stop - start) (drop k m)) offset
    ∙ sym (slice-middle c.dropped m rest start (stop - start) c.before reach)
    ∙ ap (λ x. take (stop - start) (drop start x)) (sym c.splits)

-- A range that starts in the file is cut at the file's end.
clamp-within :
    (total start end : ℕ)
    → start < total
    → clamp total (some (start, end)) ≡ within start (min end total)
unfolding clamp
clamp-within total start end h = ground arith

clamp-whole : (total : ℕ) → 0 < total → clamp total none ≡ within 0 total
unfolding clamp
clamp-whole total h = ground arith

-- The range that `clamp` finds in a file is covered.
plan-content :
    (metas : Metas) (chunk : Bytes → ℕ → Bytes) (file : FileRecord) (range : Option (ℕ × ℕ))
    (start stop : ℕ)
    → All (Holds metas chunk) file.terms
    → file.file_length ≡ length (file_content chunk file.terms)
    → file.file_length < 2 ^ 64
    → clamp file.file_length range ≡ within start stop
    → start < stop
    → stop ≤ file.file_length
    → (plan : Plan) × (plan_reconstruction file range metas ≡ ok (some plan))
      × (take (stop - start) (drop plan.offset_into_first_range (terms_content chunk plan.terms))
          ≡ take (stop - start) (drop start (file_content chunk file.terms)))
      × All (Declares chunk) plan.terms
plan-content metas chunk file range start stop hs total small ec ordered inside =
    let (first, left, e, s) =
      skip_segments-Skips metas chunk start 0 file.terms hs (omega arith) (omega arith)
        (omega arith) in
    let (w, ew, rest, c, after) =
      plan_segments-Covers start stop (omega arith) s.head s.more s.holds s.holds_more s.dropped
        s.splits (omega (arith, s.firsts)) s.before s.reaches (omega arith) in
    (
      plan_of start w,
      plan_reconstruction-steps metas file range start stop first (s.head ∷ s.more) w ec
          (e ∙ ap (λ l. ok (first, l)) s.found) ew,
      Covers-slice c after (omega arith) (omega arith) (omega arith),
      c.declares,
    )

-- For a file whose terms the index holds and whose length is that of its content, below 2^64 bytes,
-- and a range [start, end) that is not empty and starts inside it, the code returns a plan: after
-- the plan's offset the content of its terms goes on with exactly the file's bytes of the range, cut
-- at the file's end, and each term declares the length of its content.
pub plan_reconstruction-content :
    (metas : Metas) (chunk : Bytes → ℕ → Bytes) (file : FileRecord) (start end : ℕ)
    → All (Holds metas chunk) file.terms
    → file.file_length ≡ length (file_content chunk file.terms)
    → file.file_length < 2 ^ 64
    → start < end
    → start < file.file_length
    → (plan : Plan) × (plan_reconstruction file (some (start, end)) metas ≡ ok (some plan))
      × (take
            (min end file.file_length - start)
            (drop plan.offset_into_first_range (terms_content chunk plan.terms))
          ≡ take (min end file.file_length - start) (drop start (file_content chunk file.terms)))
      × All (Declares chunk) plan.terms
plan_reconstruction-content metas chunk file start end hs total small ordered inside =
    plan-content metas chunk file (some (start, end)) start (min end file.file_length) hs total
      small (clamp-within file.file_length start end inside) (omega arith) (omega arith)

take-all {ℓ} : {A : Type ℓ} (n : ℕ) (xs : List A) → n ≡ length xs → take n xs ≡ xs
take-all zero [] e = refl
take-all zero (x ∷ xs) e = absurd (omega arith)
take-all (suc n) [] e = refl
take-all (suc n) (x ∷ xs) e = ap (λ l. x ∷ l) (take-all n xs (omega arith))

-- Without a range, a file that is not empty, whose terms the index holds and whose length is that of
-- its content, below 2^64 bytes, gets a plan: the content of its terms, after the plan's offset,
-- starts with the whole file.
pub plan_reconstruction-whole :
    (metas : Metas) (chunk : Bytes → ℕ → Bytes) (file : FileRecord)
    → All (Holds metas chunk) file.terms
    → file.file_length ≡ length (file_content chunk file.terms)
    → file.file_length < 2 ^ 64
    → 0 < file.file_length
    → (plan : Plan) × (plan_reconstruction file none metas ≡ ok (some plan))
      × (take file.file_length (drop plan.offset_into_first_range (terms_content chunk plan.terms))
          ≡ file_content chunk file.terms)
plan_reconstruction-whole metas chunk file hs total small some_bytes =
    let (plan, e, bytes, _) =
      plan-content metas chunk file none 0 file.file_length hs total small
        (clamp-whole file.file_length some_bytes) some_bytes (omega arith) in
    let whole : file.file_length - 0 ≡ file.file_length = omega arith in
    (plan, e, rw whole at bytes ∙ take-all file.file_length (file_content chunk file.terms) total)
