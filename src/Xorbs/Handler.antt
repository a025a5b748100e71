-- ===== src/Xorbs/Handler.antt =====
-- The handler `upload` of crates/xetcasd/src/routes/xorbs.rs is made of the steps of its theorems.
use xetcas.Prelude.{
  ℕ, ◌≡◌, refl, ◌∙◌, Bool, Option, none, some, Bytes, lookup, Result, ok, err, arith,
}
use xetcas.Contracts.Storage.{XorbRecord}
use xetcas.Errors.{AppError}
use xetcas.Headers.{Header}
use xetcas.Index.{IndexError, Codec, get_xorb}
use xetcas.Shards.{Hashing}
use xetcas.State.{Config}
use xetcas.Xorbs.{Format, Verified, Store, admit, commit, upload, Reply, Reason}
use xetcas.Xorbs.Uploads.{
  World, lookup-first, after_claim, after_write, after_index, Reachable, claim, write, index,
}

commit-err :
    (codec : Codec) (hash : Bytes) (v : Verified) (s : Store) (e : IndexError)
    → get_xorb codec hash s.index ≡ err e
    → s ≡ (commit codec hash v s).1
unfolding commit
commit-err codec hash v s e found = ground arith

commit-found :
    (codec : Codec) (hash : Bytes) (v : Verified) (s : Store) (r : XorbRecord)
    → get_xorb codec hash s.index ≡ ok (some r)
    → s ≡ (commit codec hash v s).1
unfolding commit
commit-found codec hash v s r found = ground arith

commit-new :
    (codec : Codec) (hash : Bytes) (v : Verified) (w : World)
    → get_xorb codec hash w.store.index ≡ ok none
    → (after_index codec hash v (after_write hash v (after_claim hash v w))).store
      ≡ (commit codec hash v w.store).1
unfolding commit
commit-new codec hash v w found = ground arith

module _ (codec : Codec) (h : Hashing) (format : Format h.MerkleHash) (leaves : Bool) where
  -- The store after the lock was taken is that of a reachable world.
  commit-Reachable :
      (config : Config) (now : ℕ) (authorization : Header) (prefix hash body : Bytes) (v : Verified)
      (w : World) (m : Result IndexError (Option XorbRecord))
      → get_xorb codec hash w.store.index ≡ m
      → admit h format config now authorization prefix hash body ≡ ok v
      → lookup hash w.active ≡ none
      → Reachable codec h format leaves w
      → (w' : World) × Reachable codec h format leaves w'
        × (w'.store ≡ (commit codec hash v w.store).1)
  commit-Reachable config now authorization prefix hash body v w (err e) found admitted free r =
      (w, r, commit-err codec hash v w.store e found)
  commit-Reachable config now authorization prefix hash body v w (ok (some x)) found admitted free
        r =
      (w, r, commit-found codec hash v w.store x found)
  commit-Reachable config now authorization prefix hash body v w (ok none) found admitted free r =
      let claimed = claim config now authorization prefix hash body v admitted free found r in
      let written = write hash v (lookup-first hash _ w.active) claimed in
      (
        after_index codec hash v (after_write hash v (after_claim hash v w)),
        index hash v (lookup-first hash _ (after_claim hash v w).active) written,
        commit-new codec hash v w found,
      )

  upload-refused :
      (config : Config) (now : ℕ) (authorization : Header) (prefix hash body : Bytes) (s : Store)
      (e : AppError Reason)
      → admit h format config now authorization prefix hash body ≡ err e
      → s ≡ (upload codec h format config now authorization prefix hash body s).1
  unfolding upload
  upload-refused config now authorization prefix hash body s e refused = ground arith

  upload-admitted :
      (config : Config) (now : ℕ) (authorization : Header) (prefix hash body : Bytes) (s : Store)
      (v : Verified)
      → admit h format config now authorization prefix hash body ≡ ok v
      → (commit codec hash v s).1
        ≡ (upload codec h format config now authorization prefix hash body s).1
  unfolding upload
  upload-admitted config now authorization prefix hash body s v admitted = ground arith

  upload-cases :
      (config : Config) (now : ℕ) (authorization : Header) (prefix hash body : Bytes) (w : World)
      (m : Reply Verified)
      → admit h format config now authorization prefix hash body ≡ m
      → lookup hash w.active ≡ none
      → Reachable codec h format leaves w
      → (w' : World) × Reachable codec h format leaves w'
        × (w'.store ≡ (upload codec h format config now authorization prefix hash body w.store).1)
  upload-cases config now authorization prefix hash body w (err e) admitted free r =
      (w, r, upload-refused config now authorization prefix hash body w.store e admitted)
  upload-cases config now authorization prefix hash body w (ok v) admitted free r =
      let (w', r', p) =
        commit-Reachable config now authorization prefix hash body v w _ refl admitted free r in
      (w', r', p ∙ upload-admitted config now authorization prefix hash body w.store v admitted)

  -- A whole upload, accepted or refused, is made of the steps: when no other upload holds the lock of the
  -- hash, the store that the handler leaves is that of a reachable world.
  pub upload-Reachable :
      (config : Config) (now : ℕ) (authorization : Header) (prefix hash body : Bytes) (w : World)
      → lookup hash w.active ≡ none
      → Reachable codec h format leaves w
      → (w' : World) × Reachable codec h format leaves w'
        × (w'.store ≡ (upload codec h format config now authorization prefix hash body w.store).1)
  upload-Reachable config now authorization prefix hash body w free r =
      upload-cases config now authorization prefix hash body w _ refl free r
