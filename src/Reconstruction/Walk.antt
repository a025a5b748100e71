-- ===== src/Reconstruction/Walk.antt =====
-- The main loop of `plan_reconstruction` (crates/xetcasd/src/reconstruction.rs) past its first round.
use xetcas.Prelude.{
  ℕ, ◌+◌, ◌^◌, ◌≤◌, ◌<◌, ◌≡◌, refl, sym, ap, ◌∙◌, ◌⊎◌, inl, inr, List, [], ◌∷◌, ◌++◌, append_assoc,
  append-nil, Bytes, ok, length, length-append, arith, ltb, ltb→lt, ltb→ge, Bool-cases, All,
}
use xetcas.Contracts.Storage.{FileTermRecord}
use xetcas.Reconstruction.Plan.{Term, Metas, Walk, plan_segment, plan_segments}
use xetcas.Reconstruction.Segment.{
  Holds, segment_content, term_content, file_content, terms_content, Advances,
}
use xetcas.Reconstruction.Segment.Round.{plan_segment-Advances}

module _ (chunk : Bytes → ℕ → Bytes) where
  -- The term says how long its content is.
  abbrev pub Declares : Term → Type 0
  Declares t = t.unpacked_length ≡ length (term_content chunk t)

  pub terms_content-snoc :
      (ts : List Term) (t : Term)
      → terms_content chunk (ts ++ t ∷ []) ≡ terms_content chunk ts ++ term_content chunk t
  terms_content-snoc [] t = append-nil (term_content chunk t)
  terms_content-snoc (u ∷ ts) t =
      ap (λ b. term_content chunk u ++ b) (terms_content-snoc ts t)
      ∙ sym (append_assoc (term_content chunk u) _ _)

  pub Declares-snoc :
      (ts : List Term) (t : Term) → All Declares ts → Declares t → All Declares (ts ++ t ∷ [])
  Declares-snoc [] t h d = (d, tt)
  Declares-snoc (u ∷ ts) t h d = (h.0, Declares-snoc ts t h.1 d)

  -- What the rounds from `w` to `w'` do with the bytes `content`: they are added to the terms, up to
  -- a rest that the range does not need.
  pub record Walked (range_end : ℕ) (content : Bytes) (w w' : Walk) : Type 0 where
    pub rest : Bytes
    pub splits : terms_content chunk w.terms ++ content ≡ terms_content chunk w'.terms ++ rest
    pub firsts : w'.first_chunk_byte_start ≡ w.first_chunk_byte_start
    pub moves :
        w'.cumulative + length (terms_content chunk w.terms)
        ≡ w.cumulative + length (terms_content chunk w'.terms)
    pub after : (range_end ≤ w'.cumulative) ⊎ (rest ≡ [])
    pub declares : All Declares w.terms → All Declares w'.terms

  -- A round that skips nothing at the front.
  Walked-Advances :
      {range_start range_end : ℕ} {seg : FileTermRecord} {w w' : Walk}
      → (a : Advances chunk range_start range_end seg w w') → a.front ≡ []
      → (terms_content chunk w.terms ++ segment_content chunk seg
          ≡ terms_content chunk w'.terms ++ a.back)
        × (w'.first_chunk_byte_start ≡ w.first_chunk_byte_start)
        × (w'.cumulative + length (terms_content chunk w.terms)
            ≡ w.cumulative + length (terms_content chunk w'.terms))
        × (All Declares w.terms → All Declares w'.terms)
  Walked-Advances {w = w} {w' = w'} a none =
      let nothing = ap length none in
      let snoc = ap (terms_content chunk) a.pushes ∙ terms_content-snoc w.terms a.term in
      let total = ap length snoc ∙ length-append (terms_content chunk w.terms) _ in
      (
        ap (λ x. terms_content chunk w.terms ++ x)
              (a.splits ∙ ap (λ x. x ++ (term_content chunk a.term ++ a.back)) none)
            ∙ sym (append_assoc (terms_content chunk w.terms) _ _)
            ∙ ap (λ x. x ++ a.back) (sym snoc),
        omega (arith, a.firsts, nothing),
        omega (arith, a.moves, nothing, total),
        λ h. rw a.pushes (Declares-snoc w.terms a.term h a.declares),
      )

module _ {chunk : Bytes → ℕ → Bytes} {range_start range_end : ℕ} {seg : FileTermRecord}
    {w w1 : Walk} (a : Advances chunk range_start range_end seg w w1) where
  pub length-Advances :
      length (segment_content chunk seg)
      ≡ length a.front + (length (term_content chunk a.term) + length a.back)
  length-Advances =
      let inner = length-append (term_content chunk a.term) a.back in
      let outer = length-append a.front (term_content chunk a.term ++ a.back) in
      omega (arith, ap length a.splits, inner, outer)

  Walked-last :
      (more : Bytes)
      → a.front ≡ []
      → range_end ≤ w1.cumulative
      → Walked chunk range_end (segment_content chunk seg ++ more) w w1
  Walked-last more none covered =
      let (sp, fi, mo, de) = Walked-Advances chunk a none in
      record {
        rest = a.back ++ more;
        splits =
            sym (append_assoc (terms_content chunk w.terms) _ _)
            ∙ ap (λ x. x ++ more) sp
            ∙ append_assoc (terms_content chunk w1.terms) _ _;
        firsts = fi;
        moves = mo;
        after = inl covered;
        declares = de;
      }

  Walked-next :
      (more : Bytes) {w' : Walk}
      → a.front ≡ []
      → a.back ≡ []
      → Walked chunk range_end more w1 w'
      → Walked chunk range_end (segment_content chunk seg ++ more) w w'
  Walked-next more {w'} none end h =
      let (sp, fi, mo, de) = Walked-Advances chunk a none in
      record {
        rest = h.rest;
        splits =
            sym (append_assoc (terms_content chunk w.terms) _ _)
            ∙ ap (λ x. x ++ more)
                (sp ∙ ap (λ x. terms_content chunk w1.terms ++ x) end ∙ append-nil _)
            ∙ h.splits;
        firsts = h.firsts ∙ fi;
        moves = omega (arith, mo, h.moves);
        after = h.after;
        declares = λ d. h.declares (de d);
      }

-- Past the range's end the loop stops.
pub plan_segments-stop :
    (metas : Metas) (range_start range_end : ℕ) (segs : List FileTermRecord) (w : Walk)
    → range_end ≤ w.cumulative
    → plan_segments metas range_start range_end segs w ≡ ok w
unfolding plan_segments
plan_segments-stop metas range_start range_end [] w h = refl
plan_segments-stop metas range_start range_end (seg ∷ segs) w h = ground arith

pub plan_segments-go :
    (metas : Metas) (range_start range_end : ℕ) (seg : FileTermRecord) (segs : List FileTermRecord)
    (w w' : Walk)
    → w.cumulative < range_end
    → plan_segment metas range_start range_end seg w ≡ ok w'
    → plan_segments metas range_start range_end (seg ∷ segs) w
      ≡ plan_segments metas range_start range_end segs w'
unfolding plan_segments
plan_segments-go metas range_start range_end seg segs w w' h e = ground (arith, e)

module _ (metas : Metas) (chunk : Bytes → ℕ → Bytes) (range_start range_end : ℕ)
    (ordered : range_start < range_end) where
  pub plan_segments-Walked :
      (segs : List FileTermRecord) (w : Walk)
      → All (Holds metas chunk) segs
      → range_start < w.cumulative
      → w.first_chunk_byte_start ≤ w.cumulative
      → w.cumulative + length (file_content chunk segs) < 2 ^ 64
      → (w' : Walk) × (plan_segments metas range_start range_end segs w ≡ ok w')
        × Walked chunk range_end (file_content chunk segs) w w'
  plan_segments-Walked [] w hs late first small = (
    w,
    unfold plan_segments in refl,
    record {
      rest = [];
      splits = refl;
      firsts = refl;
      moves = refl;
      after = inr refl;
      declares = λ h. h;
    },
  )
  plan_segments-Walked (seg ∷ segs) w hs late first small =
      let size = length-append (segment_content chunk seg) (file_content chunk segs) in
      elim (Bool-cases (ltb w.cumulative range_end)) [
        | inl go ↦
            let (w1, e1, a) =
              plan_segment-Advances range_start range_end ordered seg w hs.0 (ltb→lt _ _ go) first
                (omega (arith, size, hs.0.bytes)) (omega arith) in
            let none : a.front ≡ [] = elim a.before [ inl k ↦ absurd (omega arith) | inr e ↦ e ] in
            let goes =
              plan_segments-go metas range_start range_end seg segs w w1 (ltb→lt _ _ go) e1 in
            elim a.after [
              | inl covered ↦ (
                w1,
                goes ∙ plan_segments-stop metas range_start range_end segs w1 covered,
                Walked-last a (file_content chunk segs) none covered,
              )
              | inr end ↦
                  let long = length-Advances a in
                  let (w', e', h) =
                    plan_segments-Walked segs w1 hs.1 (omega (arith, a.moves))
                      (omega (arith, a.firsts, a.moves, ap length none))
                      (omega (arith, a.moves, size, long)) in
                  (w', goes ∙ e', Walked-next a (file_content chunk segs) none end h)
            ]
        | inr stop ↦ (
          w,
          plan_segments-stop metas range_start range_end (seg ∷ segs) w (ltb→ge _ _ stop),
          record {
            rest = file_content chunk (seg ∷ segs);
            splits = refl;
            firsts = refl;
            moves = refl;
            after = inl (ltb→ge _ _ stop);
            declares = λ h. h;
          },
        )
      ]
