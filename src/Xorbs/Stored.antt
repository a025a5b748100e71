-- ===== src/Xorbs/Stored.antt =====
-- The agreement of each record in the index with its object, over the interleaved uploads of
-- crates/xetcasd/src/routes/xorbs.rs, as long as every upload outlives its tasks.
use xetcas.Prelude.{
  ◌≡◌, refl, sym, ap, ◌∙◌, inl, inr, true, false, Bool-cases, none, some, List, [], ◌∷◌, ◌++◌,
  Bytes, bytes_eq, bytes_eq_refl, bytes_eq→eq, lookup, lookup-insert, ok, arith, if◌then◌else◌,
  length,
}
use xetcas.Contracts.Storage.{XorbRecord, FileRecord}
use xetcas.Index.{Codec, ChunkEntry, Tables, get_xorb, put_files}
use xetcas.Index.Xorbs.{put_xorb-get_xorb}
use xetcas.Shards.{Hashing}
use xetcas.Xorbs.{Format, Verified, index_xorb}
use xetcas.Xorbs.Admitted.{Agrees, admit-Agrees}
use xetcas.Xorbs.Uploads.{
  Stage, World, lookup-remove, empty_world, with_uploads, after_claim, after_write, after_index,
  after_fail, Reachable, start, claim, write, index, fail, leave, late_write, late_index, restart,
  shard,
}

pub get_xorb-index :
    (codec : Codec) (hash k : Bytes) (v : Verified) (t : Tables)
    → ((r : XorbRecord) → codec.decode_xorb (codec.encode_xorb r) ≡ some r)
    → v.xorb.xorb_hash ≡ hash
    → get_xorb codec hash t ≡ ok none
    → get_xorb codec k (index_xorb codec v t).1
      ≡ (if bytes_eq hash k then ok (some v.xorb) else get_xorb codec k t)
unfolding index_xorb
get_xorb-index codec hash k v t decodes named fresh =
    let law =
      put_xorb-get_xorb codec v.xorb v.dedup_chunks (length v.stored) t k (decodes v.xorb) in
    let added = law.0.1 (ap (λ x. get_xorb codec x t) named ∙ fresh) in
    law.1 ∙ rw (added, named) refl

pub put_files-get_xorb :
    (codec : Codec) (files : List FileRecord) (chunks : List ChunkEntry) (t : Tables) (k : Bytes)
    → get_xorb codec k (put_files codec files chunks t).1 ≡ get_xorb codec k t
unfolding get_xorb put_files
put_files-get_xorb codec files chunks t k = refl

module _ (codec : Codec) (h : Hashing) (format : Format h.MerkleHash) where
  -- The object of a hash is there and agrees with the record.
  abbrev pub Backed : Bytes → XorbRecord → List (Bytes × Bytes) → Type 0
  Backed hash r objects =
      (stored : Bytes) × (lookup hash objects ≡ some stored) × Agrees h format hash stored r

  -- An upload that holds a lock has made sure that its xorb is not indexed.
  abbrev IsActive : World → Type 0
  IsActive w =
      (k : Bytes) (u : Stage)
      → lookup k w.active ≡ some u
      → Agrees h format k u.verified.stored u.verified.xorb
        × (get_xorb codec k w.store.index ≡ ok none)
        × (u.renamed ≡ true → lookup k w.store.objects ≡ some u.verified.stored)

  abbrev IsBacked : World → Type 0
  IsBacked w =
      (k : Bytes) (r : XorbRecord)
      → get_xorb codec k w.store.index ≡ ok (some r)
      → Backed k r w.store.objects

  -- One step each.
  claim-IsActive :
      (hash : Bytes) (v : Verified) (w : World)
      → Agrees h format hash v.stored v.xorb
      → get_xorb codec hash w.store.index ≡ ok none
      → IsActive w
      → IsActive (after_claim hash v w)
  unfolding lookup
  claim-IsActive hash v w agrees fresh i k u e = elim (Bool-cases (bytes_eq hash k)) [
    | inl same ↦
        let p : hash ≡ k = bytes_eq→eq hash k same in
        let q : record { verified = v; renamed = false } ≡ u = ground arith in
        rw (← p, ← q) (agrees, fresh, λ n. absurd (cc))
    | inr other ↦ i k u (rw other at e)
  ]

  write-IsActive :
      (hash : Bytes) (v : Verified) (w : World)
      → lookup hash w.active ≡ some (record { verified = v; renamed = false })
      → IsActive w
      → IsActive (after_write hash v w)
  unfolding lookup
  write-IsActive hash v w l i k u e =
      let (agrees, fresh, _) = i hash _ l in
      elim (Bool-cases (bytes_eq hash k)) [
        | inl same ↦
            let p : hash ≡ k = bytes_eq→eq hash k same in
            let q : record { verified = v; renamed = true } ≡ u = ground arith in
            let object =
              lookup-insert hash hash v.stored w.store.objects ∙ rw (bytes_eq_refl hash) refl in
            rw (← p, ← q) (agrees, fresh, λ _. object)
        | inr other ↦
            let (a, b, c) = i k u (rw other at e) in
            (a, b, λ n. lookup-insert hash k v.stored w.store.objects ∙ rw other (c n))
      ]

  write-IsBacked :
      (hash : Bytes) (v : Verified) (w : World)
      → get_xorb codec hash w.store.index ≡ ok none
      → IsBacked w
      → IsBacked (after_write hash v w)
  write-IsBacked hash v w fresh i k r e = elim (Bool-cases (bytes_eq hash k)) [
    | inl same ↦ absurd (let p = bytes_eq→eq hash k same in ground arith)
    | inr other ↦
        let (stored, a, b) = i k r e in
        (stored, lookup-insert hash k v.stored w.store.objects ∙ rw other a, b)
  ]

  fail-IsActive : (hash : Bytes) (w : World) → IsActive w → IsActive (after_fail hash w)
  fail-IsActive hash w i k u e = elim (Bool-cases (bytes_eq hash k)) [
    | inl same ↦ absurd (let l = lookup-remove hash k w.active in ground arith)
    | inr other ↦ i k u (let l = lookup-remove hash k w.active in ground arith)
  ]

  IsActive-nil : (w : World) → IsActive (with_uploads [] [] w)
  unfolding lookup
  IsActive-nil w k u e = absurd (cc)

  module _ (decodes : (r : XorbRecord) → codec.decode_xorb (codec.encode_xorb r) ≡ some r) where
    index-IsActive :
        (hash : Bytes) (v : Verified) (w : World)
        → v.xorb.xorb_hash ≡ hash
        → get_xorb codec hash w.store.index ≡ ok none
        → IsActive w
        → IsActive (after_index codec hash v w)
    index-IsActive hash v w named fresh i k u e = elim (Bool-cases (bytes_eq hash k)) [
      | inl same ↦ absurd (let l = lookup-remove hash k w.active in ground arith)
      | inr other ↦
          let (a, b, c) = i k u (let l = lookup-remove hash k w.active in ground arith) in
          (a, get_xorb-index codec hash k v w.store.index decodes named fresh ∙ rw other b, c)
    ]

    index-IsBacked :
        (hash : Bytes) (v : Verified) (w : World)
        → lookup hash w.active ≡ some (record { verified = v; renamed = true })
        → IsActive w
        → IsBacked w
        → IsBacked (after_index codec hash v w)
    index-IsBacked hash v w l i j k r e =
        let (b, c, a) = i hash _ l in
        let (_, _, _, (_, _, _, named, _)) = b in
        let answer = sym e ∙ get_xorb-index codec hash k v w.store.index decodes named c in
        elim (Bool-cases (bytes_eq hash k)) [
          | inl same ↦
              let p : hash ≡ k = bytes_eq→eq hash k same in
              let q : v.xorb ≡ r = ground arith in rw (← p, ← q) (v.stored, a refl, b)
          | inr other ↦ j k r (sym (rw other at answer))
        ]

pub nothing-indexed :
    (codec : Codec) (k : Bytes) (r : XorbRecord)
    → get_xorb codec k empty_world.store.index ≡ ok (some r)
    → ⊥
unfolding get_xorb lookup
nothing-indexed codec k r e = cc

nil-snoc {ℓ} : {A : Type ℓ} (x : A) (before after : List A) → [] ≡ before ++ x ∷ after → ⊥
nil-snoc x [] after e = cc
nil-snoc x (y ∷ before) after e = cc

module _ (codec : Codec) (h : Hashing) (format : Format h.MerkleHash)
    (decodes : (r : XorbRecord) → codec.decode_xorb (codec.encode_xorb r) ≡ some r)
    (hex-from_hex : (s : Bytes) (m : h.MerkleHash) → format.from_hex s ≡ some m → h.hex m ≡ s)
    (same-eq : (a b : h.MerkleHash) → format.same a b ≡ true → a ≡ b) where
  abbrev Invariant : World → Type 0
  Invariant w = IsActive codec h format w × IsBacked codec h format w × ([] ≡ w.late)

  Reachable-Invariant : (w : World) → Reachable codec h format false w → Invariant w
  Reachable-Invariant w start =
      (IsActive-nil codec h format w, λ k r e. absurd (nothing-indexed codec k r e), refl)
  Reachable-Invariant _ (claim {w} config now authorization prefix hash body v e free fresh r) =
      let (i, j, n) = Reachable-Invariant w r in
      let agrees =
        admit-Agrees h format hex-from_hex same-eq config now authorization prefix hash body v e in
      (claim-IsActive codec h format hash v w agrees fresh i, j, n)
  Reachable-Invariant _ (write {w} hash v l r) =
      let (i, j, n) = Reachable-Invariant w r in
      let (_, fresh, _) = i hash _ l in
      (
        write-IsActive codec h format hash v w l i,
        write-IsBacked codec h format hash v w fresh j,
        n,
      )
  Reachable-Invariant _ (index {w} hash v l r) =
      let (i, j, n) = Reachable-Invariant w r in
      let (b, c, _) = i hash _ l in
      let (_, _, _, (_, _, _, named, _)) = b in
      (
        index-IsActive codec h format decodes hash v w named c i,
        index-IsBacked codec h format decodes hash v w l i j,
        n,
      )
  Reachable-Invariant _ (fail {w} hash r) =
      let (i, j, n) = Reachable-Invariant w r in (fail-IsActive codec h format hash w i, j, n)
  Reachable-Invariant _ (leave {w} hash stage leaves l r) = absurd (cc)
  Reachable-Invariant _ (late_write {w} before after hash v e r) =
      let (_, _, n) = Reachable-Invariant w r in absurd (nil-snoc _ before after (n ∙ e))
  Reachable-Invariant _ (late_index {w} before after hash v e r) =
      let (_, _, n) = Reachable-Invariant w r in absurd (nil-snoc _ before after (n ∙ e))
  Reachable-Invariant _ (restart {w} r) =
      let (_, j, _) = Reachable-Invariant w r in (IsActive-nil codec h format w, j, refl)
  Reachable-Invariant _ (shard {w} files chunks r) =
      let (i, j, n) = Reachable-Invariant w r in
      (
        λ k u e.
            let (a, b, c) = i k u e in
            (a, put_files-get_xorb codec files chunks w.store.index k ∙ b, c),
        λ k q e. j k q (sym (put_files-get_xorb codec files chunks w.store.index k) ∙ e),
        n,
      )

-- Uploads of any hashes interleave, one at a time with the lock of a hash, their tasks may fail, the process
-- may end and start again, and shards are indexed between; but no upload is dropped while a task of it
-- runs. For a codec that decodes what it encodes, hashes that print as they were read, and a
-- comparison of hashes that is equality: whenever the index answers a hash with a record, the object of
-- the hash is on disk, and one parsed body that has this hash made both the object and the record,
-- which is well-formed.
pub Reachable-Backed :
    (codec : Codec) (h : Hashing) (format : Format h.MerkleHash)
    (decodes : (r : XorbRecord) → codec.decode_xorb (codec.encode_xorb r) ≡ some r)
    (hex-from_hex : (s : Bytes) (m : h.MerkleHash) → format.from_hex s ≡ some m → h.hex m ≡ s)
    (same-eq : (a b : h.MerkleHash) → format.same a b ≡ true → a ≡ b) (w : World) (hash : Bytes)
    (r : XorbRecord)
    → Reachable codec h format false w
    → get_xorb codec hash w.store.index ≡ ok (some r)
    → Backed codec h format hash r w.store.objects
Reachable-Backed codec h format decodes hex-from_hex same-eq w hash r reached e =
    (Reachable-Invariant codec h format decodes hex-from_hex same-eq w reached).1 hash r e
