-- ===== src/Locks/Agreement.antt =====
-- Mutual exclusion by `KeyedLocks` of crates/xetcasd/src/state.rs, although the table forgets mutexes.
use xetcas.Prelude.{
  ℕ, ◌+◌, ◌≤◌, ◌≡◌, refl, sym, ap, ◌∙◌, ◌⊎◌, inl, inr, Bool, true, false, Bool-cases, Option-cases,
  none, some, List, [], ◌∷◌, ◌++◌, Bytes, bytes_eq, bytes_eq_iff, bytes_eq→eq, lookup, arith, leb,
  leb→le, ◌==◌, if◌then◌else◌, All,
}
use xetcas.Locks.{
  Phase, waiting, holding, leaving, Handle, Locks, remove, references, strong_count, owns, owners,
  drop_body,
}

phase-cases : (h : Handle) → (h.phase ≡ waiting) ⊎ ((h.phase ≡ holding) ⊎ (h.phase ≡ leaving))
phase-cases h = go h.phase
  where
    go : (p : Phase) → (p ≡ waiting) ⊎ ((p ≡ holding) ⊎ (p ≡ leaving))
    go waiting = inl refl
    go holding = inr (inl refl)
    go leaving = inr (inr refl)

abbrev pub is_holding : Phase → Bool
is_holding waiting = false
is_holding holding = true
is_holding leaving = false

-- The guards of a key.
unfoldable pub holders : Bytes → List Handle → ℕ
holders k [] = 0
holders k (h ∷ hs) =
    (if bytes_eq h.key k then (if is_holding h.phase then 1 else 0) else 0) + holders k hs

-- A handle that has not run `drop` has the mutex that the table has for its key.
abbrev pub Entered : List (Bytes × ℕ) → Handle → Type 0
Entered inner h = (h.phase ≡ leaving) ⊎ (lookup h.key inner ≡ some h.mutex)

abbrev pub Invariant : Locks → Type 0
Invariant s = All (Entered s.inner) s.handles × ((m : ℕ) → owners m s.handles ≤ 1)

-- Counting and lists of handles.
pub owners-append : (m : ℕ) (hs gs : List Handle) → owners m (hs ++ gs) ≡ owners m hs + owners m gs
unfolding owners
owners-append m [] gs = omega arith
owners-append m (h ∷ hs) gs = ground (arith, owners-append m hs gs)

pub references-append :
    (m : ℕ) (hs gs : List Handle) → references m (hs ++ gs) ≡ references m hs + references m gs
unfolding references
references-append m [] gs = omega arith
references-append m (h ∷ hs) gs = ground (arith, references-append m hs gs)

module _ (P : Handle → Type 0) where
  pub All-append : (hs gs : List Handle) → All P hs → All P gs → All P (hs ++ gs)
  All-append [] gs a b = b
  All-append (h ∷ hs) gs a b = (a.0, All-append hs gs a.1 b)

  pub All-before : (hs gs : List Handle) → All P (hs ++ gs) → All P hs
  All-before [] gs a = tt
  All-before (h ∷ hs) gs a = (a.0, All-before hs gs a.1)

  pub All-after : (hs gs : List Handle) → All P (hs ++ gs) → All P gs
  All-after [] gs a = a
  All-after (h ∷ hs) gs a = All-after hs gs a.1

  -- One handle is replaced.
  pub All-replace :
      (hs gs : List Handle) (h g : Handle) → All P (hs ++ h ∷ gs) → P g → All P (hs ++ g ∷ gs)
  All-replace hs gs h g a p =
      All-append hs (g ∷ gs) (All-before hs (h ∷ gs) a) (p, (All-after hs (h ∷ gs) a).1)

  pub All-without : (hs gs : List Handle) (h : Handle) → All P (hs ++ h ∷ gs) → All P (hs ++ gs)
  All-without hs gs h a = All-append hs gs (All-before hs (h ∷ gs) a) (All-after hs (h ∷ gs) a).1

owners-cons :
    (m : ℕ) (h : Handle) (hs : List Handle)
    → owners m (h ∷ hs)
      ≡ (if h.mutex == m then (if owns h.phase then 1 else 0) else 0) + owners m hs
unfolding owners
owners-cons m h hs = refl

pub owners-replace :
    (m : ℕ) (hs gs : List Handle) (h g : Handle)
    → owners m (hs ++ g ∷ gs) + owners m (h ∷ []) ≡ owners m (hs ++ h ∷ gs) + owners m (g ∷ [])
unfolding owners
owners-replace m hs gs h g =
    ground (arith, owners-append m hs (g ∷ gs), owners-append m hs (h ∷ gs))

same-mutex :
    (k : Bytes) (m : ℕ) (inner : List (Bytes × ℕ)) (h : Handle)
    → lookup k inner ≡ some m
    → lookup h.key inner ≡ some h.mutex
    → bytes_eq h.key k ≡ true
    → h.mutex ≡ m
same-mutex k m inner h e l b =
    let p = ap (λ x. lookup x inner) (bytes_eq→eq h.key k b) in ground arith

-- A guard of the key owns the mutex of the key.
guard-owns :
    (k : Bytes) (m : ℕ) (inner : List (Bytes × ℕ)) (h : Handle)
    → lookup k inner ≡ some m
    → Entered inner h
    → (if bytes_eq h.key k then (if is_holding h.phase then 1 else 0) else 0)
      ≤ (if h.mutex == m then (if owns h.phase then 1 else 0) else 0)
guard-owns k m inner h e a = elim (phase-cases h) [
  | inl w ↦ ground (arith, ap is_holding w)
  | inr (inr w) ↦ ground (arith, ap is_holding w)
  | inr (inl w) ↦ elim a [
    | inl l ↦ absurd (let both = sym w ∙ l in cc)
    | inr l ↦ ground (arith, ap is_holding w, ap owns w, same-mutex k m inner h e l)
  ]
]

-- At most one guard per key.
holders-owners :
    (k : Bytes) (m : ℕ) (inner : List (Bytes × ℕ)) (hs : List Handle)
    → lookup k inner ≡ some m
    → All (Entered inner) hs
    → holders k hs ≤ owners m hs
unfolding holders owners
holders-owners k m inner [] e a = omega arith
holders-owners k m inner (h ∷ hs) e a =
    omega (arith, holders-owners k m inner hs e a.1, guard-owns k m inner h e a.0)

guard-none :
    (k : Bytes) (inner : List (Bytes × ℕ)) (h : Handle)
    → lookup k inner ≡ none
    → Entered inner h
    → (if bytes_eq h.key k then (if is_holding h.phase then 1 else 0) else 0) ≤ 0
guard-none k inner h e a = elim (phase-cases h) [
  | inl w ↦ ground (arith, ap is_holding w)
  | inr (inr w) ↦ ground (arith, ap is_holding w)
  | inr (inl w) ↦ elim a [
    | inl l ↦ absurd (let both = sym w ∙ l in cc)
    | inr l ↦ elim (Bool-cases (bytes_eq h.key k)) [
      | inr b ↦ rw b (omega arith)
      | inl b ↦ absurd (let p = ap (λ x. lookup x inner) (bytes_eq→eq h.key k b) in ground arith)
    ]
  ]
]

holders-none :
    (k : Bytes) (inner : List (Bytes × ℕ)) (hs : List Handle)
    → lookup k inner ≡ none
    → All (Entered inner) hs
    → holders k hs ≡ 0
unfolding holders
holders-none k inner [] e a = refl
holders-none k inner (h ∷ hs) e a =
    omega (arith, holders-none k inner hs e a.1, guard-none k inner h e a.0)

pub Invariant-holders : (k : Bytes) (s : Locks) → Invariant s → holders k s.handles ≤ 1
Invariant-holders k s (a, o) = elim (Option-cases (lookup k s.inner)) [
  | inl e ↦ omega (arith, holders-none k s.inner s.handles e a)
  | inr (m, e) ↦ omega (arith, holders-owners k m s.inner s.handles e a, o m)
]

-- The table after `drop`: an entry that a waiting call needs stays.
pub lookup-remove :
    (k j : Bytes) (inner : List (Bytes × ℕ))
    → bytes_eq k j ≡ false
    → lookup j (remove k inner) ≡ lookup j inner
unfolding lookup remove
lookup-remove k j [] h = refl
lookup-remove k j ((i, m) ∷ inner) h =
    ground (arith, bytes_eq_iff k j, bytes_eq_iff i k, bytes_eq_iff i j, lookup-remove k j inner h)

pub drop_body-cases :
    (key : Bytes) (m : ℕ) (hs : List Handle) (inner : List (Bytes × ℕ))
    → lookup key inner ≡ some m
    → (drop_body key hs inner ≡ inner)
      ⊎ ((drop_body key hs inner ≡ remove key inner) × (references m hs ≤ 1))
unfolding drop_body strong_count
drop_body-cases key m hs inner e = elim (Bool-cases (leb (strong_count m hs) 2)) [
  | inr b ↦ inl (ground arith)
  | inl b ↦ inr (ground arith, omega (arith, leb→le (strong_count m hs) 2 b))
]
