-- ===== src/Locks/Exclusion.antt =====
-- Mutual exclusion by `KeyedLocks` of crates/xetcasd/src/state.rs, although its table forgets mutexes.
use xetcas.Prelude.{
  ℕ, ◌≤◌, ◌≡◌, refl, sym, ap, subst, ◌∙◌, inl, inr, Option-cases, none, some, List, [], ◌∷◌, ◌++◌,
  Bytes, lookup, arith, All,
}
use xetcas.Locks.{
  waiting, holding, leaving, Handle, Locks, references, owners, call, drop_body, with_phase,
  Progress, acquire, drop_guard, release, Step, progress, lock, cancel, Reachable, start, then_step,
}
use xetcas.Locks.Agreement.{
  holders, Entered, Invariant, references-append, owners-append, All-append, All-before, All-after,
  All-replace, All-without, Invariant-holders, drop_body-cases,
}
use xetcas.Locks.Steps.{
  Entered-phase, Entered-removed, Entered-new, owners-one-waiting, owners-without, owners-acquired,
  owners-dropped, lookup-first, call-some, call-none,
}

-- The invariant of the table and the handles, by themselves.
abbrev Holds : List (Bytes × ℕ) → List Handle → Type 0
Holds inner hs = All (Entered inner) hs × ((m : ℕ) → owners m hs ≤ 1)

module _ (inner : List (Bytes × ℕ)) (before after : List Handle) (h : Handle) where
  acquire-Holds :
      h.phase ≡ waiting
      → owners h.mutex (before ++ h ∷ after) ≡ 0
      → Holds inner (before ++ h ∷ after)
      → Holds inner (before ++ with_phase holding h ∷ after)
  acquire-Holds e z (a, o) = (
    All-replace (Entered inner) before after h (with_phase holding h) a (
        Entered-phase inner h waiting holding e (λ n. cc)
          (All-after (Entered inner) before (h ∷ after) a).0),
    λ m. owners-acquired m before after h e z (o m),
  )

  without-Holds : Holds inner (before ++ h ∷ after) → Holds inner (before ++ after)
  without-Holds (a, o) = (
    All-without (Entered inner) before after h a,
    λ m. omega (arith, o m, owners-without m before after h),
  )

  -- No other handle has the mutex when its entry is removed.
  alone :
      references h.mutex (before ++ h ∷ after) ≤ 1
      → (references h.mutex before ≡ 0) × (references h.mutex after ≡ 0)
  unfolding references
  alone r = let whole = references-append h.mutex before (h ∷ after) in (ground arith, ground arith)

  drop-Holds :
      h.phase ≡ holding
      → Holds inner (before ++ h ∷ after)
      → Holds (drop_body h.key (before ++ h ∷ after) inner) (before ++ with_phase leaving h ∷ after)
  drop-Holds e (a, o) =
      let own = (All-after (Entered inner) before (h ∷ after) a).0 in
      let one : (m : ℕ) → owners m (before ++ with_phase leaving h ∷ after) ≤ 1 =
        λ m. omega (arith, o m, owners-dropped m before after h e) in
      let left = All-before (Entered inner) before (h ∷ after) a in
      let right = (All-after (Entered inner) before (h ∷ after) a).1 in
      elim own [
        | inl l ↦ absurd (let both = sym e ∙ l in cc)
        | inr l ↦ elim (drop_body-cases h.key h.mutex (before ++ h ∷ after) inner l) [
          | inl same ↦ rw same (
            All-append (Entered inner) before (with_phase leaving h ∷ after) left (inl refl, right),
            one,
          )
          | inr (removed, r) ↦
              let (x, y) = alone r in
              rw removed (
                All-append _ before (with_phase leaving h ∷ after)
                    (Entered-removed h.key h.mutex inner before l x left)
                    (inl refl, Entered-removed h.key h.mutex inner after l y right),
                one,
              )
        ]
      ]

Progress-Invariant : (s s' : Locks) → Progress s s' → Invariant s → Invariant s'
Progress-Invariant s s' (acquire before after h e p z) i =
    acquire-Holds s.inner before after h p (sym (ap (owners h.mutex) e) ∙ z)
      (subst (Holds s.inner) e i)
Progress-Invariant s s' (drop_guard before after h e p) i =
    rw e (drop-Holds s.inner before after h p (subst (Holds s.inner) e i))
Progress-Invariant s s' (release before after h e p) i =
    without-Holds s.inner before after h (subst (Holds s.inner) e i)

call-found :
    (key : Bytes) (m : ℕ) (s : Locks)
    → lookup key s.inner ≡ some m
    → Invariant s
    → Invariant (call key s)
call-found key m s e (a, o) =
    let h : Handle = record { key = key; mutex = m; phase = waiting } in
    subst Invariant (sym (call-some key m s e)) (
      All-append (Entered s.inner) s.handles (h ∷ []) a (inr e, tt),
      λ n. omega (arith, o n, owners-append n s.handles (h ∷ []), owners-one-waiting n h refl),
    )

call-new :
    (key : Bytes) (s : Locks) → lookup key s.inner ≡ none → Invariant s → Invariant (call key s)
call-new key s e (a, o) =
    let h : Handle = record { key = key; mutex = s.next; phase = waiting } in
    subst Invariant (sym (call-none key s e)) (
      All-append (Entered ((key, s.next) ∷ s.inner)) s.handles (h ∷ [])
          (Entered-new key s.next s.inner s.handles e a)
          (inr (lookup-first key s.next s.inner), tt),
      λ n. omega (arith, o n, owners-append n s.handles (h ∷ []), owners-one-waiting n h refl),
    )

Step-Invariant : (s s' : Locks) → Step s s' → Invariant s → Invariant s'
Step-Invariant s s' (progress p) i = Progress-Invariant s s' p i
Step-Invariant s s' (lock key) i = elim (Option-cases (lookup key s.inner)) [
  | inl e ↦ call-new key s e i
  | inr (m, e) ↦ call-found key m s e i
]
Step-Invariant s s' (cancel before after h e p) i =
    without-Holds s.inner before after h (subst (Holds s.inner) e i)

Reachable-Invariant : (s : Locks) → Reachable s → Invariant s
Reachable-Invariant s start = (tt, λ m. (unfold owners in omega arith))
Reachable-Invariant s' (then_step {s = s} r p) = Step-Invariant s s' p (Reachable-Invariant s r)

-- However calls of `lock`, the end of a wait, drops of guards and cancelled calls interleave, no two guards of
-- one key are alive at once, although the table removes and makes mutexes in between.
pub Reachable-holders : (s : Locks) (k : Bytes) → Reachable s → holders k s.handles ≤ 1
Reachable-holders s k r = Invariant-holders k s (Reachable-Invariant s r)
