-- ===== src/Locks/Steps.antt =====
-- Each step of crates/xetcasd/src/state.rs's keyed locks keeps the table and the handles in agreement.
use xetcas.Prelude.{
  ℕ, suc, ◌≤◌, ◌≡◌, ◌≢◌, refl, sym, ap, ◌∙◌, inl, inr, Bool-cases, none, some, List, [], ◌∷◌, ◌++◌,
  Bytes, bytes_eq, bytes_eq_refl, bytes_eq→eq, lookup, arith, ==_iff, All,
}
use xetcas.Locks.{
  Phase, waiting, holding, leaving, Handle, Locks, remove, references, owns, owners, call,
  with_phase, with_handles,
}
use xetcas.Locks.Agreement.{Entered, owners-append, lookup-remove}

pub Entered-phase :
    (inner : List (Bytes × ℕ)) (h : Handle) (p q : Phase)
    → h.phase ≡ p
    → p ≢ leaving
    → Entered inner h
    → Entered inner (with_phase q h)
Entered-phase inner h p q e n (inl l) = absurd (n (sym e ∙ l))
Entered-phase inner h p q e n (inr l) = inr l

pub Entered-removed :
    (key : Bytes) (m : ℕ) (inner : List (Bytes × ℕ)) (hs : List Handle)
    → lookup key inner ≡ some m
    → references m hs ≡ 0
    → All (Entered inner) hs
    → All (Entered (remove key inner)) hs
unfolding references
Entered-removed key m inner [] e r a = tt
Entered-removed key m inner (h ∷ hs) e r a = (
  elim a.0 [
    | inl l ↦ inl l
    | inr l ↦ elim (Bool-cases (bytes_eq key h.key)) [
      | inr b ↦ inr (lookup-remove key h.key inner b ∙ l)
      | inl b ↦ absurd (
          let p = ap (λ x. lookup x inner) (bytes_eq→eq key h.key b) in
          let same : h.mutex ≡ m = ground arith in ground arith)
    ]
  ],
  Entered-removed key m inner hs e (ground arith) a.1,
)

pub Entered-new :
    (key : Bytes) (m : ℕ) (inner : List (Bytes × ℕ)) (hs : List Handle)
    → lookup key inner ≡ none
    → All (Entered inner) hs
    → All (Entered ((key, m) ∷ inner)) hs
unfolding lookup
Entered-new key m inner [] e a = tt
Entered-new key m inner (h ∷ hs) e a = (
  elim a.0 [
    | inl l ↦ inl l
    | inr l ↦ elim (Bool-cases (bytes_eq key h.key)) [
      | inr b ↦ inr (rw b l)
      | inl b ↦ absurd (let p = ap (λ x. lookup x inner) (bytes_eq→eq key h.key b) in ground arith)
    ]
  ],
  Entered-new key m inner hs e a.1,
)

pub owners-one-waiting : (m : ℕ) (h : Handle) → h.phase ≡ waiting → owners m (h ∷ []) ≡ 0
unfolding owners
owners-one-waiting m h e = ground (arith, ap owns e)

pub owners-without :
    (m : ℕ) (hs gs : List Handle) (h : Handle) → owners m (hs ++ gs) ≤ owners m (hs ++ h ∷ gs)
unfolding owners
owners-without m hs gs h = ground (arith, owners-append m hs gs, owners-append m hs (h ∷ gs))

pub owners-acquired :
    (m : ℕ) (hs gs : List Handle) (h : Handle)
    → h.phase ≡ waiting
    → owners h.mutex (hs ++ h ∷ gs) ≡ 0
    → owners m (hs ++ h ∷ gs) ≤ 1
    → owners m (hs ++ with_phase holding h ∷ gs) ≤ 1
unfolding owners
owners-acquired m hs gs h e z o = ground (
  arith,
  owners-append m hs (with_phase holding h ∷ gs),
  owners-append m hs (h ∷ gs),
  ap owns e,
  ==_iff h.mutex m,
  ap (λ n. owners n (hs ++ h ∷ gs)),
)

pub owners-dropped :
    (m : ℕ) (hs gs : List Handle) (h : Handle)
    → h.phase ≡ holding
    → owners m (hs ++ with_phase leaving h ∷ gs) ≡ owners m (hs ++ h ∷ gs)
unfolding owners
owners-dropped m hs gs h e =
    ground (
      arith,
      owners-append m hs (with_phase leaving h ∷ gs),
      owners-append m hs (h ∷ gs),
      ap owns e,
    )

pub lookup-first :
    (k : Bytes) (m : ℕ) (inner : List (Bytes × ℕ)) → lookup k ((k, m) ∷ inner) ≡ some m
unfolding lookup
lookup-first k m inner = rw (bytes_eq_refl k) refl

pub call-some :
    (key : Bytes) (m : ℕ) (s : Locks)
    → lookup key s.inner ≡ some m
    → call key s
      ≡ with_handles (s.handles ++ record { key = key; mutex = m; phase = waiting } ∷ []) s
unfolding call
call-some key m s e = ground arith

pub call-none :
    (key : Bytes) (s : Locks)
    → lookup key s.inner ≡ none
    → call key s ≡ record {
      inner = (key, s.next) ∷ s.inner;
      next = suc s.next;
      handles = s.handles ++ record { key = key; mutex = s.next; phase = waiting } ∷ [];
    }
unfolding call
call-none key s e = ground arith
