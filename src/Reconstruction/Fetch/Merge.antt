-- ===== src/Reconstruction/Fetch/Merge.antt =====
-- `sort_by_key` and the merge of the fetch ranges of one xorb (crates/xetcasd/src/reconstruction.rs).
use xetcas.Prelude.{
  ℕ, ◌≤◌, ◌<◌, ◌≡◌, sym, subst, true, false, ◌⊎◌, inl, inr, List, [], ◌∷◌, arith, All, Any, here,
  there, leb, leb→le, leb→gt, Bool-cases,
}
use xetcas.Reconstruction.Plan.{
  FetchRange, insert_range, sort_ranges, extend, merge_from, merge_ranges,
}

-- The range covers the chunks from `start` to `end`.
abbrev pub Spans : ℕ → ℕ → FetchRange → Type 0
Spans start end r = (r.chunk_start ≤ start) × (end ≤ r.chunk_end)

-- Chunks lie between any two of the ranges, which go up.
abbrev pub Apart : List FetchRange → Type 0
Apart [] = Unit
Apart (r ∷ rs) = All (λ q. r.chunk_end < q.chunk_start) rs × Apart rs

abbrev Sorted : List FetchRange → Type 0
Sorted [] = Unit
Sorted (r ∷ rs) = All (λ q. r.chunk_start ≤ q.chunk_start) rs × Sorted rs

All-mono {ℓ κ μ} :
    {A : Type ℓ} {P : A → Type κ} {Q : A → Type μ} (xs : List A)
    → ((a : A) → P a → Q a)
    → All P xs
    → All Q xs
All-mono [] f h = tt
All-mono (x ∷ xs) f h = (f x h.0, All-mono xs f h.1)

insert_range-All {κ} :
    (P : FetchRange → Type κ) (r : FetchRange) (qs : List FetchRange)
    → P r
    → All P qs
    → All P (insert_range r qs)
unfolding insert_range
insert_range-All P r [] p h = (p, tt)
insert_range-All P r (q ∷ qs) p h = elim (Bool-cases (leb r.chunk_start q.chunk_start)) [
  | inl e ↦ rw e (p, h)
  | inr e ↦ rw e (h.0, insert_range-All P r qs p h.1)
]

pub sort_ranges-All {κ} :
    (P : FetchRange → Type κ) (rs : List FetchRange) → All P rs → All P (sort_ranges rs)
unfolding sort_ranges
sort_ranges-All P [] h = tt
sort_ranges-All P (r ∷ rs) h = insert_range-All P r (sort_ranges rs) h.0 (sort_ranges-All P rs h.1)

insert_range-Sorted :
    (r : FetchRange) (qs : List FetchRange) → Sorted qs → Sorted (insert_range r qs)
unfolding insert_range
insert_range-Sorted r [] s = (tt, tt)
insert_range-Sorted r (q ∷ qs) s = elim (Bool-cases (leb r.chunk_start q.chunk_start)) [
  | inl e ↦
      let le = leb→le r.chunk_start q.chunk_start e in
      rw e ((le, All-mono qs (λ p h. omega (arith, le, h)) s.0), s)
  | inr e ↦
      let gt = leb→gt r.chunk_start q.chunk_start e in
      rw e (
        insert_range-All (λ p. q.chunk_start ≤ p.chunk_start) r qs (omega arith) s.0,
        insert_range-Sorted r qs s.1,
      )
]

sort_ranges-Sorted : (rs : List FetchRange) → Sorted (sort_ranges rs)
unfolding sort_ranges
sort_ranges-Sorted [] = tt
sort_ranges-Sorted (r ∷ rs) = insert_range-Sorted r (sort_ranges rs) (sort_ranges-Sorted rs)

Any-split {ℓ κ} :
    {A : Type ℓ} {P : A → Type κ} {x : A} {xs : List A} → Any P (x ∷ xs) → P x ⊎ Any P xs
Any-split (here p) = inl p
Any-split (there h) = inr h

insert_range-Any {κ} :
    {P : FetchRange → Type κ} (r : FetchRange) (qs : List FetchRange)
    → Any P (r ∷ qs)
    → Any P (insert_range r qs)
unfolding insert_range
insert_range-Any r [] h = h
insert_range-Any {P = P} r (q ∷ qs) h = elim (Bool-cases (leb r.chunk_start q.chunk_start)) [
  | inl e ↦ rw e h
  | inr e ↦ rw e (elim (Any-split h) [
    | inl p ↦ there (insert_range-Any r qs (here p))
    | inr h ↦ elim (Any-split h) [
      | inl p ↦ here p
      | inr h ↦ there (insert_range-Any r qs (there h))
    ]
  ])
]

sort_ranges-Any {κ} :
    {P : FetchRange → Type κ} (rs : List FetchRange) → Any P rs → Any P (sort_ranges rs)
unfolding sort_ranges
sort_ranges-Any [] h = elim h [ ]
sort_ranges-Any (r ∷ rs) (here p) = insert_range-Any r (sort_ranges rs) (here p)
sort_ranges-Any (r ∷ rs) (there h) =
    insert_range-Any r (sort_ranges rs) (there (sort_ranges-Any rs h))

merge-joins :
    (cur r : FetchRange) (rs : List FetchRange)
    → leb r.chunk_start cur.chunk_end ≡ true
    → merge_from cur (r ∷ rs) ≡ merge_from (extend cur r) rs
unfolding merge_from
merge-joins cur r rs e = ground (arith, e)

merge-parts :
    (cur r : FetchRange) (rs : List FetchRange)
    → leb r.chunk_start cur.chunk_end ≡ false
    → merge_from cur (r ∷ rs) ≡ cur ∷ merge_from r rs
unfolding merge_from
merge-parts cur r rs e = ground (arith, e)

-- The merge keeps what some range covers.
merge_from-Spans :
    (start end : ℕ) (cur : FetchRange) (rs : List FetchRange)
    → Sorted (cur ∷ rs)
    → Any (Spans start end) (cur ∷ rs)
    → Any (Spans start end) (merge_from cur rs)
unfolding merge_from
merge_from-Spans start end cur [] s h = h
merge_from-Spans start end cur (r ∷ rs) s h =
    let rest : Any (Spans start end) (r ∷ rs) → Any (Spans start end) (merge_from r rs) =
      merge_from-Spans start end r rs s.1 in
    let join : Any (Spans start end) (extend cur r ∷ rs) → _ =
      merge_from-Spans start end (extend cur r) rs (s.0.1, s.1.1) in
    elim (Bool-cases (leb r.chunk_start cur.chunk_end)) [
      | inl e ↦ subst (Any (Spans start end)) (sym (merge-joins cur r rs e)) (
          join (elim (Any-split h) [
            | inl p ↦ here (p.0, omega (arith, p.1))
            | inr h ↦ elim (Any-split h) [
              | inl p ↦ here (omega (arith, p.0, s.0.0), omega (arith, p.1))
              | inr h ↦ there h
            ]
          ]))
      | inr e ↦
          subst (Any (Spans start end)) (sym (merge-parts cur r rs e))
            (elim (Any-split h) [ inl p ↦ here p | inr h ↦ there (rest h) ])
    ]

-- What the first range and the rest keep off, the merge keeps off.
merge_from-All {κ} :
    (P : FetchRange → Type κ) (cur : FetchRange) (rs : List FetchRange)
    → ((a b : FetchRange) → b.chunk_start ≤ a.chunk_end → P a → P b → P (extend a b))
    → P cur
    → All P rs
    → All P (merge_from cur rs)
unfolding merge_from
merge_from-All P cur [] f p h = (p, tt)
merge_from-All P cur (r ∷ rs) f p h = elim (Bool-cases (leb r.chunk_start cur.chunk_end)) [
  | inl e ↦
      subst (All P) (sym (merge-joins cur r rs e))
        (merge_from-All P (extend cur r) rs f (f cur r (leb→le r.chunk_start _ e) p h.0) h.1)
  | inr e ↦ subst (All P) (sym (merge-parts cur r rs e)) (p, merge_from-All P r rs f h.0 h.1)
]

merge_from-Apart :
    (cur : FetchRange) (rs : List FetchRange) → Sorted (cur ∷ rs) → Apart (merge_from cur rs)
unfolding merge_from
merge_from-Apart cur [] s = (tt, tt)
merge_from-Apart cur (r ∷ rs) s = elim (Bool-cases (leb r.chunk_start cur.chunk_end)) [
  | inl e ↦
      subst Apart (sym (merge-joins cur r rs e)) (merge_from-Apart (extend cur r) rs (s.0.1, s.1.1))
  | inr e ↦
      let gt = leb→gt r.chunk_start cur.chunk_end e in
      subst Apart (sym (merge-parts cur r rs e)) (
        merge_from-All (λ q. cur.chunk_end < q.chunk_start) r rs (λ a b le p q. p) gt
            (All-mono rs (λ p h. omega (arith, gt, h)) s.1.0),
        merge_from-Apart r rs s.1,
      )
]

abbrev pub merged : List FetchRange → List FetchRange
merged rs = merge_ranges (sort_ranges rs)

Sorted-Spans :
    (start end : ℕ) (rs : List FetchRange)
    → Sorted rs
    → Any (Spans start end) rs
    → Any (Spans start end) (merge_ranges rs)
unfolding merge_ranges
Sorted-Spans start end [] s h = elim h [ ]
Sorted-Spans start end (r ∷ rs) s h = merge_from-Spans start end r rs s h

pub merged-Spans :
    (start end : ℕ) (rs : List FetchRange)
    → Any (Spans start end) rs
    → Any (Spans start end) (merged rs)
merged-Spans start end rs h =
    Sorted-Spans start end (sort_ranges rs) (sort_ranges-Sorted rs) (sort_ranges-Any rs h)

Sorted-Apart : (rs : List FetchRange) → Sorted rs → Apart (merge_ranges rs)
unfolding merge_ranges
Sorted-Apart [] s = tt
Sorted-Apart (r ∷ rs) s = merge_from-Apart r rs s

pub merged-Apart : (rs : List FetchRange) → Apart (merged rs)
merged-Apart rs = Sorted-Apart (sort_ranges rs) (sort_ranges-Sorted rs)

merge_ranges-All {κ} :
    (P : FetchRange → Type κ) (rs : List FetchRange)
    → ((a b : FetchRange) → b.chunk_start ≤ a.chunk_end → P a → P b → P (extend a b))
    → All P rs
    → All P (merge_ranges rs)
unfolding merge_ranges
merge_ranges-All P [] f h = tt
merge_ranges-All P (r ∷ rs) f h = merge_from-All P r rs f h.0 h.1

pub merged-All {κ} :
    (P : FetchRange → Type κ) (rs : List FetchRange)
    → ((a b : FetchRange) → b.chunk_start ≤ a.chunk_end → P a → P b → P (extend a b))
    → All P rs
    → All P (merged rs)
merged-All P rs f h = merge_ranges-All P (sort_ranges rs) f (sort_ranges-All P rs h)
