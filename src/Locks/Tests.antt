-- ===== src/Locks/Tests.antt =====
-- The keyed locks of crates/xetcasd/src/state.rs over one key.
use xetcas.Prelude.{◌≤◌, ◌≡◌, refl, [], ◌∷◌, Bytes, codes, lookup}
use xetcas.Locks.{
  waiting, holding, Handle, Locks, owners, call, Progress, acquire, lock, default, Reachable, start,
  then_step,
}
use xetcas.Locks.Agreement.{holders}
use xetcas.Locks.Exclusion.{Reachable-holders}
use xetcas.Locks.Leak.{Reachable-leaked}

abbrev key : Bytes
key = codes "k"

abbrev waits : Handle
waits = record { key = key; mutex = 0; phase = waiting }

abbrev one_call : Locks
one_call = record { inner = (key, 0) ∷ []; next = 1; handles = waits ∷ [] }

abbrev one_guard : Locks
one_guard = record {
  inner = (key, 0) ∷ [];
  next = 1;
  handles = record { key = key; mutex = 0; phase = holding } ∷ [];
}

acquired : Progress one_call one_guard
unfolding owners
acquired = acquire [] [] waits refl refl refl

Reachable-holders_example : holders key (call key default).handles ≤ 1
Reachable-holders_example = Reachable-holders (call key default) key (then_step start (lock key))

Reachable-leaked_example :
    (s' : Locks) × Reachable s'
    × ((s'.handles ≡ []) × (s'.inner ≡ (key, default.next) ∷ default.inner))
unfolding lookup
Reachable-leaked_example = Reachable-leaked default key start refl refl
