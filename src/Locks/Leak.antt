-- ===== src/Locks/Leak.antt =====
-- The table of `KeyedLocks` of crates/xetcasd/src/state.rs grows when calls of `lock` are cancelled.
use xetcas.Prelude.{suc, ◌≡◌, refl, ap, subst, ◌∙◌, none, List, [], ◌∷◌, ◌++◌, Bytes, lookup, arith}
use xetcas.Locks.{
  waiting, holding, leaving, Handle, Locks, references, strong_count, owners, call, drop_body,
  acquire, drop_guard, release, progress, lock, cancel, Reachable, then_step,
}
use xetcas.Locks.Steps.{lookup-first, call-some, call-none}

-- The states of the run: two calls for the key, of which the first is served and the second is cancelled
-- before the mutex is free.
module _ (k : Bytes) (s : Locks) where
  abbrev first : Handle
  first = record { key = k; mutex = s.next; phase = waiting }

  abbrev held : Handle
  held = record { key = k; mutex = s.next; phase = holding }

  abbrev released : Handle
  released = record { key = k; mutex = s.next; phase = leaving }

  -- With these handles, and the entry of the key.
  abbrev grown : List Handle → Locks
  grown hs = record { inner = (k, s.next) ∷ s.inner; next = suc s.next; handles = hs }

  -- The drop finds three references.
  kept : drop_body k (held ∷ first ∷ []) ((k, s.next) ∷ s.inner) ≡ (k, s.next) ∷ s.inner
  unfolding drop_body strong_count references
  kept = let e = lookup-first k s.next s.inner in ground arith

  none-owned : owners s.next (first ∷ []) ≡ 0
  unfolding owners
  none-owned = ground arith

  served :
      Reachable s → s.handles ≡ [] → lookup k s.inner ≡ none → Reachable (grown (held ∷ first ∷ []))
  served r idle e =
      let one : call k s ≡ grown (first ∷ []) =
        call-none k s e ∙ ap (λ hs. grown (hs ++ first ∷ [])) idle in
      let r1 = subst Reachable one (then_step r (lock k)) in
      let r2 = then_step r1 (progress (acquire [] [] first refl refl none-owned)) in
      subst Reachable (call-some k s.next (grown (held ∷ [])) (lookup-first k s.next s.inner))
        (then_step r2 (lock k))

  leaked : Reachable s → s.handles ≡ [] → lookup k s.inner ≡ none → Reachable (grown [])
  leaked r idle e =
      let r4 = then_step (served r idle e) (progress (drop_guard [] (first ∷ []) held refl refl)) in
      let r5 : Reachable (grown (released ∷ first ∷ [])) =
        subst
          (λ inner.
            Reachable
              (record { inner = inner; next = suc s.next; handles = released ∷ first ∷ [] }))
          kept r4 in
      let r6 = then_step r5 (progress (release [] (first ∷ []) released refl refl)) in
      then_step r6 (cancel [] [] first refl refl)

-- From every reachable state with no call and no guard, and for every key without an entry, a run with one
-- cancelled call leads to such a state in which the table has the key's entry and all the others: no
-- bound on the table holds for all runs.
pub Reachable-leaked :
    (s : Locks) (k : Bytes)
    → Reachable s
    → s.handles ≡ []
    → lookup k s.inner ≡ none
    → (s' : Locks) × Reachable s' × ((s'.handles ≡ []) × (s'.inner ≡ (k, s.next) ∷ s.inner))
Reachable-leaked s k r idle e = (grown k s [], leaked k s r idle e, (refl, refl))
