-- ===== src/Xorbs/Uploads.antt =====
-- The uploads of crates/xetcasd/src/routes/xorbs.rs as they interleave: what they do to the objects and to
-- the index, step by step.
use xetcas.Prelude.{
  ℕ, ◌≡◌, refl, Bool, true, false, none, some, List, [], ◌∷◌, ◌++◌, Bytes, bytes_eq, bytes_eq_iff,
  bytes_eq_refl, lookup, ok, arith, if◌then◌else◌,
}
use xetcas.Contracts.Storage.{FileRecord}
use xetcas.Headers.{Header}
use xetcas.Index.{Codec, ChunkEntry, schema, get_xorb, put_files}
use xetcas.Shards.{Hashing}
use xetcas.State.{Config}
use xetcas.Xorbs.{Format, Verified, Store, write_atomic, admit, index_xorb}

-- Other keys keep their entries.
unfoldable pub remove : {V : Type 0} → Bytes → List (Bytes × V) → List (Bytes × V)
remove k [] = []
remove k ((j, v) ∷ m) = if bytes_eq j k then remove k m else (j, v) ∷ remove k m

pub lookup-remove :
    {V : Type 0} (k j : Bytes) (m : List (Bytes × V))
    → lookup j (remove k m) ≡ (if bytes_eq k j then none else lookup j m)
unfolding lookup remove
lookup-remove k j [] = ground arith
lookup-remove k j ((i, w) ∷ m) =
    ground (arith, bytes_eq_iff k j, bytes_eq_iff i k, bytes_eq_iff i j, lookup-remove k j m)

-- An upload that holds the lock of its hash: it waits for its task of `write_atomic`, or the object has its
-- name and it waits for the task of `put_xorb`.
pub record Stage : Type 0 where
  pub verified : Verified
  pub renamed : Bool

-- The store, the uploads that hold a lock, and the tasks whose upload is gone: `spawn_blocking` runs a task to
-- its end also when nobody waits for it, and the lock is free by then.
pub record World : Type 0 where
  pub store : Store
  pub active : List (Bytes × Stage)
  pub late : List (Bytes × Stage)

abbrev pub empty_world : World
empty_world = record { store = record { objects = []; index = schema }; active = []; late = [] }

pub lookup-first :
    {V : Type 0} (k : Bytes) (v : V) (m : List (Bytes × V)) → lookup k ((k, v) ∷ m) ≡ some v
unfolding lookup
lookup-first k v m = rw (bytes_eq_refl k) refl

abbrev pub with_store : Store → World → World
with_store s w = record { store = s; active = w.active; late = w.late }

abbrev pub with_uploads : List (Bytes × Stage) → List (Bytes × Stage) → World → World
with_uploads active late w = record { store = w.store; active = active; late = late }

abbrev pub rename_object : Bytes → Verified → Store → Store
rename_object hash v s = record { objects = write_atomic hash v.stored s.objects; index = s.index }

abbrev pub insert_record : Codec → Verified → Store → Store
insert_record codec v s = record { objects = s.objects; index = (index_xorb codec v s.index).1 }

-- The lock is taken, the xorb is not indexed, and the task that writes it is started.
abbrev pub after_claim : Bytes → Verified → World → World
after_claim hash v w =
    with_uploads ((hash, record { verified = v; renamed = false }) ∷ w.active) w.late w

abbrev pub after_write : Bytes → Verified → World → World
after_write hash v w =
    with_uploads ((hash, record { verified = v; renamed = true }) ∷ w.active) w.late
      (with_store (rename_object hash v w.store) w)

abbrev pub after_index : Codec → Bytes → Verified → World → World
after_index codec hash v w =
    with_uploads (remove hash w.active) w.late (with_store (insert_record codec v w.store) w)

abbrev pub after_fail : Bytes → World → World
after_fail hash w = with_uploads (remove hash w.active) w.late w

-- The upload is dropped and with it its lock, but not its task.
abbrev pub after_leave : Bytes → Stage → World → World
after_leave hash stage w = with_uploads (remove hash w.active) ((hash, stage) ∷ w.late) w

abbrev pub after_late_write : Bytes → Verified → List (Bytes × Stage) → World → World
after_late_write hash v late w =
    with_uploads w.active late (with_store (rename_object hash v w.store) w)

abbrev pub after_late_index : Codec → Verified → List (Bytes × Stage) → World → World
after_late_index codec v late w =
    with_uploads w.active late (with_store (insert_record codec v w.store) w)

abbrev pub after_shard : Codec → List FileRecord → List ChunkEntry → World → World
after_shard codec files chunks w =
    with_store
      (record { objects = w.store.objects; index = (put_files codec files chunks w.store.index).1 })
      w

module _ (codec : Codec) (h : Hashing) (format : Format h.MerkleHash) (leaves : Bool) where
  -- What a server comes to. A task may fail, and the process may end and start again; if `leaves`, a client may
  -- leave, so that its upload is dropped while a task of it runs, and the task ends at any time later.
  pub data Reachable : World → Type 0 where
    start : Reachable empty_world
    claim :
        {w : World} (config : Config) (now : ℕ) (authorization : Header) (prefix hash body : Bytes)
        (v : Verified)
        → admit h format config now authorization prefix hash body ≡ ok v
        → lookup hash w.active ≡ none
        → get_xorb codec hash w.store.index ≡ ok none
        → Reachable w
        → Reachable (after_claim hash v w)
    write :
        {w : World} (hash : Bytes) (v : Verified)
        → lookup hash w.active ≡ some (record { verified = v; renamed = false })
        → Reachable w
        → Reachable (after_write hash v w)
    index :
        {w : World} (hash : Bytes) (v : Verified)
        → lookup hash w.active ≡ some (record { verified = v; renamed = true })
        → Reachable w
        → Reachable (after_index codec hash v w)
    fail : {w : World} (hash : Bytes) → Reachable w → Reachable (after_fail hash w)
    leave :
        {w : World} (hash : Bytes) (stage : Stage)
        → leaves ≡ true
        → lookup hash w.active ≡ some stage
        → Reachable w
        → Reachable (after_leave hash stage w)
    late_write :
        {w : World} (before after : List (Bytes × Stage)) (hash : Bytes) (v : Verified)
        → w.late ≡ before ++ (hash, record { verified = v; renamed = false }) ∷ after
        → Reachable w
        → Reachable (after_late_write hash v (before ++ after) w)
    late_index :
        {w : World} (before after : List (Bytes × Stage)) (hash : Bytes) (v : Verified)
        → w.late ≡ before ++ (hash, record { verified = v; renamed = true }) ∷ after
        → Reachable w
        → Reachable (after_late_index codec v (before ++ after) w)
    restart : {w : World} → Reachable w → Reachable (with_uploads [] [] w)
    shard :
        {w : World} (files : List FileRecord) (chunks : List ChunkEntry)
        → Reachable w
        → Reachable (after_shard codec files chunks w)
