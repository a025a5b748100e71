-- ===== src/Reconstruction/Refines/Cover.antt =====
-- The main loop of `plan_reconstruction` (crates/xetcasd/src/reconstruction.rs) from its first round
-- on: the terms hold the file's bytes around the range.
use xetcas.Prelude.{
  ℕ, ◌+◌, ◌^◌, ◌≤◌, ◌<◌, ◌≡◌, sym, ap, subst, ◌∙◌, ◌⊎◌, inl, inr, List, [], ◌∷◌, ◌++◌, append_assoc,
  append-nil, Bytes, ok, length, length-append, arith, All,
}
use xetcas.Contracts.Storage.{FileTermRecord}
use xetcas.Reconstruction.Plan.{Metas, Walk, plan_segments}
use xetcas.Reconstruction.Segment.{
  Holds, segment_content, term_content, file_content, terms_content, Advances,
}
use xetcas.Reconstruction.Segment.Round.{plan_segment-Advances}
use xetcas.Reconstruction.Walk.{
  Declares, Walked, plan_segments-stop, plan_segments-go, plan_segments-Walked, length-Advances,
}

-- What the plan's loops leave behind: the terms hold the bytes `content` between what is dropped and
-- `rest`.
pub record Covers (chunk : Bytes → ℕ → Bytes) (range_start : ℕ) (content rest : Bytes) (w : Walk)
    : Type 0 where
  pub dropped : Bytes
  pub splits : content ≡ dropped ++ (terms_content chunk w.terms ++ rest)
  pub firsts : w.first_chunk_byte_start ≡ length dropped
  pub before : length dropped ≤ range_start
  pub moves : w.cumulative ≡ length dropped + length (terms_content chunk w.terms)
  pub declares : All (Declares chunk) w.terms

abbrev pub start_walk : ℕ → Walk
start_walk first = record {
  cumulative = first;
  first_chunk_byte_start = first;
  terms = [];
  per_xorb = [];
}

regroup {ℓ} :
    {A : Type ℓ} (p f t b m : List A) → p ++ ((f ++ (t ++ b)) ++ m) ≡ (p ++ f) ++ (t ++ (b ++ m))
regroup p f t b m = simp append_assoc

module _ {chunk : Bytes → ℕ → Bytes} {range_start range_end : ℕ} where
  Covers-first :
      {content : Bytes} {first : ℕ} {seg : FileTermRecord} {w : Walk} (pre more : Bytes)
      → content ≡ pre ++ (segment_content chunk seg ++ more)
      → first ≡ length pre
      → first ≤ range_start
      → (a : Advances chunk range_start range_end seg (start_walk first) w)
      → Covers chunk range_start content (a.back ++ more) w
  Covers-first {w = w} pre more e ef early a =
      let one : terms_content chunk w.terms ≡ term_content chunk a.term =
        ap (terms_content chunk) a.pushes ∙ append-nil (term_content chunk a.term) in
      let size = length-append pre a.front in
      let held = ap length one in
      record {
        dropped = pre ++ a.front;
        splits =
            e
            ∙ ap (λ x. pre ++ (x ++ more)) a.splits
            ∙ regroup pre a.front (term_content chunk a.term) a.back more
            ∙ ap (λ x. (pre ++ a.front) ++ (x ++ (a.back ++ more))) (sym one);
        firsts = omega (arith, a.firsts, size, ef);
        before = elim a.before [
          | inl k ↦ omega (arith, k, size, ef)
          | inr flush ↦ omega (arith, size, ap length flush, ef, early)
        ];
        moves = omega (arith, a.moves, size, ef, held);
        declares = rw a.pushes (a.declares, tt);
      }

  Covers-next :
      {content more : Bytes} {w w' : Walk}
      → Covers chunk range_start content more w
      → (k : Walked chunk range_end more w w') → Covers chunk range_start content k.rest w'
  Covers-next c k = record {
    dropped = c.dropped;
    splits = c.splits ∙ ap (λ x. c.dropped ++ x) k.splits;
    firsts = k.firsts ∙ c.firsts;
    before = c.before;
    moves = omega (arith, c.moves, k.moves);
    declares = k.declares c.declares;
  }

module _ {metas : Metas} {chunk : Bytes → ℕ → Bytes} (range_start range_end : ℕ)
    (ordered : range_start < range_end) (seg : FileTermRecord) (segs : List FileTermRecord)
    (h : Holds metas chunk seg) (hs : All (Holds metas chunk) segs) where
  -- From the first segment on, the main loop ends in a result that covers the range.
  pub plan_segments-Covers :
      {content : Bytes} {first : ℕ} (pre : Bytes)
      → content ≡ pre ++ (segment_content chunk seg ++ file_content chunk segs)
      → first ≡ length pre
      → first ≤ range_start
      → range_start < first + length (segment_content chunk seg)
      → length content < 2 ^ 64
      → (w : Walk) × (plan_segments metas range_start range_end (seg ∷ segs) (start_walk first)
          ≡ ok w)
        × (rest : Bytes) × Covers chunk range_start content rest w
        × ((range_end ≤ w.cumulative) ⊎ (rest ≡ []))
  plan_segments-Covers {content = content} {first = first} pre e ef early reach small =
      let size =
        ap length e
        ∙ length-append pre _
        ∙ ap (λ k. length pre + k) (length-append (segment_content chunk seg) _) in
      let (w1, e1, a) =
        plan_segment-Advances range_start range_end ordered seg (start_walk first) h (omega arith)
          (omega arith) (omega (arith, size, h.bytes)) (omega (arith, h.bytes)) in
      let goes =
        plan_segments-go metas range_start range_end seg segs (start_walk first) w1 (omega arith)
          e1 in
      let c = Covers-first pre (file_content chunk segs) e ef early a in
      elim a.after [
        | inl covered ↦ (
          w1,
          goes ∙ plan_segments-stop metas range_start range_end segs w1 covered,
          a.back ++ file_content chunk segs,
          c,
          inl covered,
        )
        | inr end ↦
            let long = length-Advances a in
            let nothing = ap length end in
            let (w, e', k) =
              plan_segments-Walked metas chunk range_start range_end ordered segs w1 hs
                (omega (arith, a.moves, long, nothing)) (omega (arith, a.firsts, a.moves))
                (omega (arith, a.moves, long, size)) in
            (
              w,
              goes ∙ e',
              k.rest,
              Covers-next
                  (subst (λ b. Covers chunk range_start content (b ++ file_content chunk segs) w1)
                    end c)
                  k,
              k.after,
            )
      ]
