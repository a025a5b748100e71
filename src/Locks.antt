-- ===== src/Locks.antt =====
-- `KeyedLocks` and `KeyedGuard` of crates/xetcasd/src/state.rs. A handle is one call of `lock` from the moment
-- when it has taken its mutex out of the table: it waits, then holds the guard, and while the guard is
-- dropped it has run the body of `drop` and has not yet released the mutex. A mutex is a number, the value
-- of `next` when it was made. Each handle has one reference to its mutex, and the table has one.
pub mod Agreement
pub mod Steps
pub mod Exclusion
pub mod Leak
mod Tests
use xetcas.Prelude.{
  ℕ, suc, ◌+◌, ◌≡◌, Bool, true, false, Option, none, some, List, [], ◌∷◌, ◌++◌, Bytes, bytes_eq,
  lookup, leb, ◌==◌, if◌then◌else◌,
}

pub data Phase : Type 0 where
  waiting : Phase
  holding : Phase
  leaving : Phase

pub record Handle : Type 0 where
  pub key : Bytes
  pub mutex : ℕ
  pub phase : Phase

pub record Locks : Type 0 where
  pub inner : List (Bytes × ℕ)
  pub next : ℕ
  pub handles : List Handle

-- The table without the key.
unfoldable pub remove : Bytes → List (Bytes × ℕ) → List (Bytes × ℕ)
remove k [] = []
remove k ((j, m) ∷ inner) = if bytes_eq j k then remove k inner else (j, m) ∷ remove k inner

unfoldable pub references : ℕ → List Handle → ℕ
references m [] = 0
references m (h ∷ hs) = (if h.mutex == m then 1 else 0) + references m hs

-- `Arc::strong_count` of a mutex in the table.
unfoldable pub strong_count : ℕ → List Handle → ℕ
strong_count m hs = 1 + references m hs

-- Whether a handle has the mutex locked.
abbrev pub owns : Phase → Bool
owns waiting = false
owns holding = true
owns leaving = true

unfoldable pub owners : ℕ → List Handle → ℕ
owners m [] = 0
owners m (h ∷ hs) = (if h.mutex == m then (if owns h.phase then 1 else 0) else 0) + owners m hs

-- `lock`, up to the `await`.
unfoldable pub call : Bytes → Locks → Locks
call key s = elim (lookup key s.inner) [
  | some m ↦ record {
    inner = s.inner;
    next = s.next;
    handles = s.handles ++ record { key = key; mutex = m; phase = waiting } ∷ [];
  }
  | none ↦ record {
    inner = (key, s.next) ∷ s.inner;
    next = suc s.next;
    handles = s.handles ++ record { key = key; mutex = s.next; phase = waiting } ∷ [];
  }
]

-- The body of `drop`, on the table.
unfoldable pub drop_body : Bytes → List Handle → List (Bytes × ℕ) → List (Bytes × ℕ)
drop_body key hs inner = elim (lookup key inner) [
  | none ↦ inner
  | some m ↦ if leb (strong_count m hs) 2 then remove key inner else inner
]

abbrev pub with_phase : Phase → Handle → Handle
with_phase phase h = record { key = h.key; mutex = h.mutex; phase = phase }

abbrev pub with_handles : List Handle → Locks → Locks
with_handles hs s = record { inner = s.inner; next = s.next; handles = hs }

-- What the holders of handles do next.
pub data Progress (s : Locks) : Locks → Type 0 where
  acquire :
      (before after : List Handle) (h : Handle)
      → s.handles ≡ before ++ h ∷ after
      → h.phase ≡ waiting
      → owners h.mutex s.handles ≡ 0
      → Progress s (with_handles (before ++ with_phase holding h ∷ after) s)
  drop_guard :
      (before after : List Handle) (h : Handle)
      → s.handles ≡ before ++ h ∷ after
      → h.phase ≡ holding
      → Progress s (record {
        inner = drop_body h.key s.handles s.inner;
        next = s.next;
        handles = before ++ with_phase leaving h ∷ after;
      })
  release :
      (before after : List Handle) (h : Handle)
      → s.handles ≡ before ++ h ∷ after
      → h.phase ≡ leaving
      → Progress s (with_handles (before ++ after) s)

-- A call of `lock` that waits can be dropped.
pub data Step (s : Locks) : Locks → Type 0 where
  progress : {s' : Locks} → Progress s s' → Step s s'
  lock : (key : Bytes) → Step s (call key s)
  cancel :
      (before after : List Handle) (h : Handle)
      → s.handles ≡ before ++ h ∷ after
      → h.phase ≡ waiting
      → Step s (with_handles (before ++ after) s)

abbrev pub default : Locks
default = record { inner = []; next = 0; handles = [] }

pub data Reachable : Locks → Type 0 where
  start : Reachable default
  then_step : {s s' : Locks} → Reachable s → Step s s' → Reachable s'
