-- ===== src/Reconstruction/Fetch.antt =====
-- The fetch ranges that `plan_reconstruction` (crates/xetcasd/src/reconstruction.rs) advertises: that
-- they cover the terms, stay apart, and carry the byte ranges of their frames.
pub mod Steps
pub mod Merge
pub mod Frames
use xetcas.Prelude.{
  ℕ, ◌≡◌, refl, sym, ap, ◌∙◌, subst, ◌⊎◌, inl, inr, true, false, Bool-cases, Option, none, some,
  List, [], ◌∷◌, ◌++◌, Bytes, bytes_eq, bytes_eq_iff, bytes_eq_refl, bytes_eq→eq, lookup, ok, arith,
  All, Any, here, there, max, if◌then◌else◌,
}
use xetcas.Contracts.Storage.{FileTermRecord, FileRecord}
use xetcas.Reconstruction.Meta.{XorbMeta, byte_offset}
use xetcas.Reconstruction.Plan.{
  Term, FetchRange, Ranges, Plan, Metas, Walk, extend, push, push_range, sort_ranges, merge_ranges,
  merge_all, plan_reconstruction,
}
use Steps.{Pushed, plan_reconstruction-walk}
use Merge.{Spans, Apart, merged, merged-Spans, merged-Apart, merged-All}
use Frames.{Rises, byte_offset-max}

-- The ranges of one xorb.
abbrev pub ranges_of : Bytes → Ranges → List FetchRange
ranges_of hash [] = []
ranges_of hash ((key, ranges) ∷ m) = if bytes_eq key hash then ranges else ranges_of hash m

ranges_of-push_range :
    (k h : Bytes) (r : FetchRange) (m : Ranges)
    → ranges_of k (push_range h r m)
      ≡ (if bytes_eq h k then ranges_of k m ++ r ∷ [] else ranges_of k m)
unfolding push_range
ranges_of-push_range k h r [] = refl
ranges_of-push_range k h r ((j, rs) ∷ m) =
    ground
      (arith, bytes_eq_iff h k, bytes_eq_iff j h, bytes_eq_iff j k, ranges_of-push_range k h r m)

ranges_of-merge_all : (k : Bytes) (m : Ranges) → ranges_of k (merge_all m) ≡ merged (ranges_of k m)
unfolding merge_all sort_ranges merge_ranges
ranges_of-merge_all k [] = refl
ranges_of-merge_all k ((j, rs) ∷ m) = ground (arith, ranges_of-merge_all k m)

abbrev Spanned : Ranges → Term → Type 0
Spanned m t = Any (Spans t.chunk_start t.chunk_end) (ranges_of t.xorb m)

Any-append_left {ℓ κ} : {A : Type ℓ} {P : A → Type κ} (xs ys : List A) → Any P xs → Any P (xs ++ ys)
Any-append_left [] ys h = elim h [ ]
Any-append_left (x ∷ xs) ys (here p) = here p
Any-append_left (x ∷ xs) ys (there h) = there (Any-append_left xs ys h)

Any-append_right {ℓ κ} :
    {A : Type ℓ} {P : A → Type κ} (xs ys : List A) → Any P ys → Any P (xs ++ ys)
Any-append_right [] ys h = h
Any-append_right (x ∷ xs) ys h = there (Any-append_right xs ys h)

All-snoc {ℓ κ} :
    {A : Type ℓ} (P : A → Type κ) (xs : List A) (y : A) → All P xs → P y → All P (xs ++ y ∷ [])
All-snoc P [] y h p = (p, tt)
All-snoc P (x ∷ xs) y h p = (h.0, All-snoc P xs y h.1 p)

-- A push keeps what is spanned, and spans the range's own chunks.
push_range-Spanned :
    (h : Bytes) (r : FetchRange) (m : Ranges) (t : Term)
    → Spanned m t
    → Spanned (push_range h r m) t
push_range-Spanned h r m t s =
    let e = ranges_of-push_range t.xorb h r m in
    elim (Bool-cases (bytes_eq h t.xorb)) [
      | inl b ↦ rw (e, b) (Any-append_left _ (r ∷ []) s)
      | inr b ↦ rw (e, b) s
    ]

push_range-own :
    (h : Bytes) (r : FetchRange) (m : Ranges)
    → Any (Spans r.chunk_start r.chunk_end) (ranges_of h (push_range h r m))
push_range-own h r m =
    let e = ranges_of-push_range h h r m in
    rw (e, bytes_eq_refl h) (Any-append_right _ (r ∷ []) (here (omega arith, omega arith)))

All-map {ℓ κ μ} :
    {A : Type ℓ} (P : A → Type κ) (Q : A → Type μ) (xs : List A)
    → ((a : A) → P a → Q a)
    → All P xs
    → All Q xs
All-map P Q [] f h = tt
All-map P Q (x ∷ xs) f h = (f x h.0, All-map P Q xs f h.1)

-- Every term of a plan lies in a range that the plan advertises for its xorb.
pub fetch-Spanned :
    (metas : Metas) (file : FileRecord) (range : Option (ℕ × ℕ)) (plan : Plan)
    → plan_reconstruction file range metas ≡ ok (some plan)
    → All (λ t. Any (Spans t.chunk_start t.chunk_end) (ranges_of t.xorb plan.fetch)) plan.terms
unfolding push
fetch-Spanned metas file range plan h =
    let I : Walk → Type 0 = λ w. All (Spanned w.per_xorb) w.terms in
    let (w, i, terms, fetch) =
      plan_reconstruction-walk metas file range plan I
        (λ seg w w' p i. subst I p.pushes (
          All-snoc _ w.terms _
            (All-map _ _ w.terms (λ t. push_range-Spanned seg.xorb_hash _ w.per_xorb t) i)
            (push_range-own seg.xorb_hash _ w.per_xorb)))
        (λ first. tt) h in
    subst (λ f. All (Spanned f) plan.terms) fetch
      (subst (All (Spanned (merge_all w.per_xorb))) terms (
        All-map _ _ w.terms
          (λ t s.
            subst (Any (Spans t.chunk_start t.chunk_end))
              (sym (ranges_of-merge_all t.xorb w.per_xorb))
              (merged-Spans t.chunk_start t.chunk_end (ranges_of t.xorb w.per_xorb) s))
          i))

-- The ranges that a plan advertises for one xorb go up, with at least one chunk between one and the
-- next.
pub fetch-Apart :
    (metas : Metas) (file : FileRecord) (range : Option (ℕ × ℕ)) (plan : Plan) (hash : Bytes)
    → plan_reconstruction file range metas ≡ ok (some plan)
    → Apart (ranges_of hash plan.fetch)
fetch-Apart metas file range plan hash h =
    let anything : Walk → Type 0 = λ w. Unit in
    let (w, _, _, fetch) =
      plan_reconstruction-walk metas file range plan anything (λ seg w w' p i. tt) (λ first. tt)
        h in
    subst (λ f. Apart (ranges_of hash f)) fetch
      (subst Apart (sym (ranges_of-merge_all hash w.per_xorb))
        (merged-Apart (ranges_of hash w.per_xorb)))

-- The byte range is that of the frames of the chunks.
abbrev pub Framed : XorbMeta → FetchRange → Type 0
Framed meta r = byte_offset meta r.chunk_start r.chunk_end ≡ ok (r.byte_start, r.byte_end)

extend-Framed :
    (meta : XorbMeta)
    → Rises meta.boundary
    → (a b : FetchRange) → Framed meta a
    → Framed meta b
    → Framed meta (extend a b)
extend-Framed meta rises a b f g =
    byte_offset-max meta a.chunk_start b.chunk_start a.chunk_end b.chunk_end a.byte_start
      b.byte_start a.byte_end b.byte_end rises f g

some-inj {ℓ} : {A : Type ℓ} (o : Option A) {a b : A} → o ≡ some a → o ≡ some b → a ≡ b
some-inj o h k = cc

push_range-All {κ} :
    (P : FetchRange → Type κ) (k h : Bytes) (r : FetchRange) (m : Ranges)
    → (bytes_eq h k ≡ true → P r)
    → All P (ranges_of k m)
    → All P (ranges_of k (push_range h r m))
push_range-All P k h r m p i =
    let e = ranges_of-push_range k h r m in
    elim (Bool-cases (bytes_eq h k)) [
      | inl b ↦ rw (e, b) (All-snoc P (ranges_of k m) r i (p b))
      | inr b ↦ rw (e, b) i
    ]

-- For a xorb of the index whose physical offsets go up, each range that a plan advertises carries
-- exactly the byte range of the frames of its chunks, after the merge too.
pub fetch-Framed :
    (metas : Metas) (file : FileRecord) (range : Option (ℕ × ℕ)) (plan : Plan) (hash : Bytes)
    (meta : XorbMeta)
    → lookup hash metas ≡ some meta
    → Rises meta.boundary
    → plan_reconstruction file range metas ≡ ok (some plan)
    → All
        (λ r. byte_offset meta r.chunk_start r.chunk_end ≡ ok (r.byte_start, r.byte_end))
        (ranges_of hash plan.fetch)
unfolding push
fetch-Framed metas file range plan hash meta found rises h =
    let I : Walk → Type 0 = λ w. All (Framed meta) (ranges_of hash w.per_xorb) in
    let (w, i, _, fetch) =
      plan_reconstruction-walk metas file range plan I
        (λ seg w w' p i. subst I p.pushes (
          push_range-All (Framed meta) hash seg.xorb_hash _ w.per_xorb
            (λ b.
              subst
                (λ (m : XorbMeta). byte_offset m p.cursor.chunk_start p.tail.chunk_end ≡ ok p.bytes)
                (some-inj _ p.found
                  (ap (λ k. lookup k metas) (bytes_eq→eq seg.xorb_hash hash b) ∙ found))
                p.frames)
            i))
        (λ first. tt) h in
    subst (λ f. All (Framed meta) (ranges_of hash f)) fetch
      (subst (All (Framed meta)) (sym (ranges_of-merge_all hash w.per_xorb)) (
        merged-All (Framed meta) (ranges_of hash w.per_xorb) (λ a b _. extend-Framed meta rises a b)
          i))
