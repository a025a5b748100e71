-- ===== src/Reconstruction/Fetch/Steps.antt =====
-- What a successful run of `plan_reconstruction` (crates/xetcasd/src/reconstruction.rs) went through:
-- the steps behind its result.
use xetcas.Prelude.{
  ℕ, ◌≡◌, refl, sym, ap, subst, ◌∙◌, true, false, ◌↔◌, ◌⊎◌, inl, inr, Option, none, some, List, [],
  ◌∷◌, Result, ok, ◌>>=◌, lookup, bind-ok, ok-inj, ok_or-some, ltb, Bool-cases, arith,
}
use xetcas.Prelude.Words.{sub_u64}
use xetcas.Contracts.Storage.{FileTermRecord, FileRecord}
use xetcas.Reconstruction.Meta.{PlanError, XorbMeta, byte_offset}
use xetcas.Reconstruction.Plan.{
  Plan, empty, Metas, Cursor, Tail, Walk, lead, trail, push, plan_segment, plan_segments, Request,
  clamp, past_eof, empty_file, within, skip_segments, merge_all, plan_reconstruction,
}

-- A round that returns has found the xorb, and has pushed a term with the byte range of its chunks.
pub record Pushed (metas : Metas) (seg : FileTermRecord) (w w' : Walk) : Type 0 where
  pub meta : XorbMeta
  pub cursor : Cursor
  pub tail : Tail
  pub bytes : ℕ × ℕ
  pub found : lookup seg.xorb_hash metas ≡ some meta
  pub frames : byte_offset meta cursor.chunk_start tail.chunk_end ≡ ok bytes
  pub pushes : push seg cursor tail bytes w ≡ w'

plan_segment-Pushed :
    (metas : Metas) (range_start range_end : ℕ) (seg : FileTermRecord) (w w' : Walk)
    → plan_segment metas range_start range_end seg w ≡ ok w'
    → Pushed metas seg w w'
unfolding plan_segment
plan_segment-Pushed metas range_start range_end seg w w' h =
    let finish : Cursor → Tail → ℕ × ℕ → Result PlanError Walk =
      λ c t bytes. ok (push seg c t bytes w) in
    let (meta, e1, h1) = bind-ok _ _ w' h in
    let (c, _, h2) =
      bind-ok (lead meta range_start seg w)
        (λ c. trail meta range_end seg c >>= λ t.
          byte_offset meta c.chunk_start t.chunk_end >>= finish c t)
        w' h1 in
    let (t, _, h3) =
      bind-ok (trail meta range_end seg c)
        (λ t. byte_offset meta c.chunk_start t.chunk_end >>= finish c t) w' h2 in
    let (bytes, e4, h4) = bind-ok (byte_offset meta c.chunk_start t.chunk_end) (finish c t) w' h3 in
    record {
      meta = meta;
      cursor = c;
      tail = t;
      bytes = bytes;
      found = ok_or-some _ _ meta e1;
      frames = e4;
      pushes = ok-inj _ refl h4;
    }

rounds-go :
    (metas : Metas) (range_start range_end : ℕ) (seg : FileTermRecord) (segs : List FileTermRecord)
    (w : Walk)
    → ltb w.cumulative range_end ≡ true
    → plan_segments metas range_start range_end (seg ∷ segs) w ≡ (
        plan_segment metas range_start range_end seg w
        >>= plan_segments metas range_start range_end segs)
unfolding plan_segments
rounds-go metas range_start range_end seg segs w e = ground (arith, e)

rounds-stop :
    (metas : Metas) (range_start range_end : ℕ) (seg : FileTermRecord) (segs : List FileTermRecord)
    (w : Walk)
    → ltb w.cumulative range_end ≡ false
    → plan_segments metas range_start range_end (seg ∷ segs) w ≡ ok w
unfolding plan_segments
rounds-stop metas range_start range_end seg segs w e = ground (arith, e)

-- What each round keeps, a run of rounds keeps.
pub plan_segments-keeps {ℓ} :
    (metas : Metas) (range_start range_end : ℕ) (I : Walk → Type ℓ)
    → ((seg : FileTermRecord) (w w' : Walk) → Pushed metas seg w w' → I w → I w')
    → (segs : List FileTermRecord) (w w' : Walk)
    → plan_segments metas range_start range_end segs w ≡ ok w'
    → I w
    → I w'
unfolding plan_segments
plan_segments-keeps metas range_start range_end I keeps [] w w' h i = subst I (ok-inj _ refl h) i
plan_segments-keeps metas range_start range_end I keeps (seg ∷ segs) w w' h i =
    elim (Bool-cases (ltb w.cumulative range_end)) [
      | inl e ↦
          let (v, ev, hv) =
            bind-ok _ _ w' (sym (rounds-go metas range_start range_end seg segs w e) ∙ h) in
          plan_segments-keeps metas range_start range_end I keeps segs v w' hv
            (keeps seg w v (plan_segment-Pushed metas range_start range_end seg w v ev) i)
      | inr e ↦ subst I (ok-inj _ (rounds-stop metas range_start range_end seg segs w e) h) i
    ]

Request-cases :
    (q : Request)
    → (q ≡ past_eof) ⊎ ((q ≡ empty_file) ⊎ ((start : ℕ) × (end : ℕ) × (q ≡ within start end)))
Request-cases past_eof = inl refl
Request-cases empty_file = inr (inl refl)
Request-cases (within start end) = inr (inr (start, end, refl))

none_or_some {ℓ} : {A : Type ℓ} {a : A} → none ≡ some a → ⊥
none_or_some h = cc

some-inj {ℓ} : {A : Type ℓ} (o : Option A) {a b : A} → o ≡ some a → o ≡ some b → a ≡ b
some-inj o h k = cc

module _ (file : FileRecord) (range : Option (ℕ × ℕ)) (metas : Metas) where
  pub plan-past :
      clamp file.file_length range ≡ past_eof → plan_reconstruction file range metas ≡ ok none
  unfolding plan_reconstruction
  plan-past e = ground (arith, e)

  pub plan-empty :
      clamp file.file_length range ≡ empty_file
      → plan_reconstruction file range metas ≡ ok (some empty)
  unfolding plan_reconstruction
  plan-empty e = ground (arith, e)

  abbrev started : ℕ → Walk
  started first = record {
    cumulative = first;
    first_chunk_byte_start = first;
    terms = [];
    per_xorb = [];
  }

  abbrev finish : ℕ → Walk → Result PlanError (Option Plan)
  finish range_start w = ok (
      some (record {
        offset_into_first_range = sub_u64 range_start w.first_chunk_byte_start;
        terms = w.terms;
        fetch = merge_all w.per_xorb;
      }))

  abbrev walk_from : ℕ → ℕ → ℕ × List FileTermRecord → Result PlanError (Option Plan)
  walk_from range_start range_end skipped =
      plan_segments metas range_start range_end skipped.1 (started skipped.0) >>= finish range_start

  plan-within :
      (range_start range_end : ℕ)
      → clamp file.file_length range ≡ within range_start range_end
      → plan_reconstruction file range metas
        ≡ (skip_segments range_start 0 file.terms >>= walk_from range_start range_end)
  unfolding plan_reconstruction
  plan-within range_start range_end e = ground (arith, e)

-- The walk of a plan: what every round keeps and holds at the start holds at its end, and the plan is
-- made of it; or the plan is empty.
pub plan_reconstruction-walk {ℓ} :
    (metas : Metas) (file : FileRecord) (range : Option (ℕ × ℕ)) (plan : Plan) (I : Walk → Type ℓ)
    → ((seg : FileTermRecord) (w w' : Walk) → Pushed metas seg w w' → I w → I w')
    → ((first : ℕ)
        → I (record {
          cumulative = first;
          first_chunk_byte_start = first;
          terms = [];
          per_xorb = [];
        }))
    → plan_reconstruction file range metas ≡ ok (some plan)
    → (w : Walk) × I w × (w.terms ≡ plan.terms) × (merge_all w.per_xorb ≡ plan.fetch)
unfolding merge_all
plan_reconstruction-walk metas file range plan I keeps start h =
    elim (Request-cases (clamp file.file_length range)) [
      | inl e ↦ absurd (none_or_some (ok-inj _ (plan-past file range metas e) h))
      | inr (inl e) ↦
          let p = some-inj _ refl (ok-inj _ (plan-empty file range metas e) h) in
          (_, start 0, ap (λ q. q.terms) p, ap (λ q. q.fetch) p)
      | inr (inr (range_start, range_end, e)) ↦
          let (skipped, e1, h1) =
            bind-ok (skip_segments range_start 0 file.terms)
              (walk_from file range metas range_start range_end) (some plan)
              (sym (plan-within file range metas range_start range_end e) ∙ h) in
          let first_walk = started file range metas skipped.0 in
          let (w, e2, h2) =
            bind-ok (plan_segments metas range_start range_end skipped.1 first_walk)
              (finish file range metas range_start) (some plan) h1 in
          let p = some-inj _ refl (ok-inj _ refl h2) in
          (
            w,
            plan_segments-keeps metas range_start range_end I keeps skipped.1 first_walk w e2
                (start skipped.0),
            ap (λ q. q.terms) p,
            ap (λ q. q.fetch) p,
          )
    ]

-- A range inside the file never answers `None`.
plan-within_some :
    (metas : Metas) (file : FileRecord) (range : Option (ℕ × ℕ)) (range_start range_end : ℕ)
    → clamp file.file_length range ≡ within range_start range_end
    → plan_reconstruction file range metas ≡ ok none
    → ⊥
plan-within_some metas file range range_start range_end e h =
    let (skipped, _, h1) =
      bind-ok (skip_segments range_start 0 file.terms)
        (walk_from file range metas range_start range_end) none
        (sym (plan-within file range metas range_start range_end e) ∙ h) in
    let (w, _, h2) =
      bind-ok
        (plan_segments metas range_start range_end skipped.1 (started file range metas skipped.0))
        (finish file range metas range_start) none h1 in
    none_or_some (sym (ok-inj _ refl h2))

-- The plan is absent exactly when the range starts past the end.
pub plan-none_iff :
    (metas : Metas) (file : FileRecord) (range : Option (ℕ × ℕ))
    → (plan_reconstruction file range metas ≡ ok none) ↔ (clamp file.file_length range ≡ past_eof)
plan-none_iff metas file range = (
  λ h. elim (Request-cases (clamp file.file_length range)) [
    | inl e ↦ e
    | inr (inl e) ↦ absurd (none_or_some (sym (ok-inj _ (plan-empty file range metas e) h)))
    | inr (inr (range_start, range_end, e)) ↦
        absurd (plan-within_some metas file range range_start range_end e h)
  ],
  λ e. plan-past file range metas e,
)
