-- ===== src/Xorbs/Late.antt =====
-- The uploads of crates/xetcasd/src/routes/xorbs.rs when clients leave: a task that nobody waits for runs on
-- without the lock.
use xetcas.Prelude.{
  ◌≡◌, refl, sym, ◌∙◌, ◌⊎◌, inl, inr, Bool, true, Bool-cases, ◌&&◌, some, List, [], ◌∷◌, ◌++◌,
  Bytes, bytes_eq, bytes_eq_refl, bytes_eq→eq, lookup, lookup-insert, insert, ok, arith, length,
  All,
}
use xetcas.Contracts.Storage.{XorbRecord}
use xetcas.Index.{Codec, Tables, get_xorb, put_xorb}
use xetcas.Index.Xorbs.{put_xorb-get_xorb}
use xetcas.Shards.{Hashing}
use xetcas.Xorbs.{Format, Verified, index_xorb}
use xetcas.Xorbs.Admitted.{Agrees, admit-Agrees}
use xetcas.Xorbs.Stored.{put_files-get_xorb, nothing-indexed}
use xetcas.Xorbs.Uploads.{
  Stage, World, remove, lookup-remove, after_late_write, Reachable, start, claim, write, index,
  fail, leave, late_write, late_index, restart, shard,
}

get_xorb-index-cases :
    (codec : Codec) (k : Bytes) (v : Verified) (t : Tables) (r : XorbRecord)
    → ((x : XorbRecord) → codec.decode_xorb (codec.encode_xorb x) ≡ some x)
    → get_xorb codec k (index_xorb codec v t).1 ≡ ok (some r)
    → (get_xorb codec k t ≡ ok (some r)) ⊎ ((v.xorb.xorb_hash ≡ k) × (v.xorb ≡ r))
unfolding index_xorb
get_xorb-index-cases codec k v t r decodes e =
    let law =
      put_xorb-get_xorb codec v.xorb v.dedup_chunks (length v.stored) t k (decodes v.xorb) in
    let flag = (put_xorb codec v.xorb v.dedup_chunks (length v.stored) t).0 in
    let answer = sym e ∙ law.1 in
    elim (Bool-cases (flag && bytes_eq v.xorb.xorb_hash k)) [
      | inl b ↦
          inr (
            bytes_eq→eq v.xorb.xorb_hash k (ground arith),
            (let a = rw b at answer in ground arith),
          )
      | inr b ↦ inl (sym (rw b at answer))
    ]

All-pick {ℓ κ} :
    {A : Type ℓ} (P : A → Type κ) (before : List A) (x : A) (after : List A)
    → All P (before ++ x ∷ after)
    → P x × All P (before ++ after)
All-pick P [] x after h = h
All-pick P (y ∷ before) x after h =
    let (p, rest) = All-pick P before x after h.1 in (p, (h.0, rest))

All-map {ℓ κ} :
    {A : Type ℓ} (P Q : A → Type κ) (xs : List A) → ((x : A) → P x → Q x) → All P xs → All Q xs
All-map P Q [] f h = tt
All-map P Q (x ∷ xs) f h = (f x h.0, All-map P Q xs f h.1)

module _ (h : Hashing) (format : Format h.MerkleHash) where
  -- Some parsed body with this hash made the object of the hash.
  abbrev pub Present : Bytes → List (Bytes × Bytes) → Type 0
  Present k objects =
      (stored : Bytes) × (r : XorbRecord) × ((lookup k objects ≡ some stored)
        × Agrees h format k stored r)

  abbrev Held : List (Bytes × Bytes) → Bytes → Stage → Type 0
  Held objects k u =
      Agrees h format k u.verified.stored u.verified.xorb × (u.renamed ≡ true → Present k objects)

  abbrev IsHeld : List (Bytes × Bytes) → List (Bytes × Stage) → Type 0
  IsHeld objects active = (k : Bytes) (u : Stage) → lookup k active ≡ some u → Held objects k u

  Present-own :
      (hash : Bytes) (v : Verified) (objects : List (Bytes × Bytes))
      → Agrees h format hash v.stored v.xorb
      → Present hash (insert hash v.stored objects)
  Present-own hash v objects agrees = (
    v.stored,
    v.xorb,
    (lookup-insert hash hash v.stored objects ∙ rw (bytes_eq_refl hash) refl, agrees),
  )

  Present-insert :
      (hash k : Bytes) (v : Verified) (objects : List (Bytes × Bytes))
      → Agrees h format hash v.stored v.xorb
      → Present k objects
      → Present k (insert hash v.stored objects)
  Present-insert hash k v objects agrees p = elim (Bool-cases (bytes_eq hash k)) [
    | inl same ↦
        let q : hash ≡ k = bytes_eq→eq hash k same in rw (← q) (Present-own hash v objects agrees)
    | inr other ↦
        let (stored, r, (a, b)) = p in
        (stored, r, (lookup-insert hash k v.stored objects ∙ rw other a, b))
  ]

  Held-insert :
      (hash k : Bytes) (v : Verified) (u : Stage) (objects : List (Bytes × Bytes))
      → Agrees h format hash v.stored v.xorb
      → Held objects k u
      → Held (insert hash v.stored objects) k u
  Held-insert hash k v u objects agrees p =
      (p.0, λ n. Present-insert hash k v objects agrees (p.1 n))

  IsHeld-cons :
      (objects : List (Bytes × Bytes)) (hash : Bytes) (stage : Stage)
      (active : List (Bytes × Stage))
      → Held objects hash stage
      → IsHeld objects active
      → IsHeld objects ((hash, stage) ∷ active)
  unfolding lookup
  IsHeld-cons objects hash stage active p i k u e = elim (Bool-cases (bytes_eq hash k)) [
    | inl same ↦
        let q : hash ≡ k = bytes_eq→eq hash k same in
        let s : stage ≡ u = ground arith in rw (← q, ← s) p
    | inr other ↦ i k u (rw other at e)
  ]

  IsHeld-remove :
      (hash : Bytes) (w : World)
      → IsHeld w.store.objects w.active
      → IsHeld w.store.objects (remove hash w.active)
  IsHeld-remove hash w i k u e = elim (Bool-cases (bytes_eq hash k)) [
    | inl same ↦ absurd (let l = lookup-remove hash k w.active in ground arith)
    | inr other ↦ i k u (let l = lookup-remove hash k w.active in ground arith)
  ]

  IsHeld-nil : (objects : List (Bytes × Bytes)) → IsHeld objects []
  unfolding lookup
  IsHeld-nil objects k u e = absurd (cc)

module _ (codec : Codec) (h : Hashing) (format : Format h.MerkleHash) where
  -- A body with this hash made the record, and a body with this hash made the object.
  abbrev Kept : World → Type 0
  Kept w =
      (k : Bytes) (r : XorbRecord)
      → get_xorb codec k w.store.index ≡ ok (some r)
      → ((stored : Bytes) × Agrees h format k stored r) × Present h format k w.store.objects

  abbrev Invariant : World → Type 0
  Invariant w =
      IsHeld h format w.store.objects w.active
      × All (λ e. Held h format w.store.objects e.0 e.1) w.late
      × Kept w

  module _ (decodes : (r : XorbRecord) → codec.decode_xorb (codec.encode_xorb r) ≡ some r) where
    index-Kept :
        (k hash : Bytes) (v : Verified) (w : World) (r : XorbRecord)
        → Held h format w.store.objects hash (record { verified = v; renamed = true })
        → Kept w
        → get_xorb codec k (index_xorb codec v w.store.index).1 ≡ ok (some r)
        → ((stored : Bytes) × Agrees h format k stored r) × Present h format k w.store.objects
    index-Kept k hash v w r held j e =
        elim (get_xorb-index-cases codec k v w.store.index r decodes e) [
          | inl old ↦ j k r old
          | inr (p, q) ↦
              let (agrees, present) = held in
              let (_, _, _, (_, _, _, named, _)) = agrees in
              let same : hash ≡ k = sym named ∙ p in
              rw (← same, ← q) ((v.stored, agrees), present refl)
        ]

module _ (codec : Codec) (h : Hashing) (format : Format h.MerkleHash) (leaves : Bool)
    (decodes : (r : XorbRecord) → codec.decode_xorb (codec.encode_xorb r) ≡ some r)
    (hex-from_hex : (s : Bytes) (m : h.MerkleHash) → format.from_hex s ≡ some m → h.hex m ≡ s)
    (same-eq : (a b : h.MerkleHash) → format.same a b ≡ true → a ≡ b) where
  write-late :
      (hash : Bytes) (v : Verified) (w : World) (late : List (Bytes × Stage))
      → Agrees h format hash v.stored v.xorb
      → Invariant codec h format w
      → All (λ e. Held h format w.store.objects e.0 e.1) late
      → Invariant codec h format (after_late_write hash v late w)
  write-late hash v w late agrees (i, _, j) l = (
    λ k u e. Held-insert h format hash k v u w.store.objects agrees (i k u e),
    All-map _ _ late (λ e p. Held-insert h format hash e.0 v e.1 w.store.objects agrees p) l,
    λ k r e.
        let (made, present) = j k r e in
        (made, Present-insert h format hash k v w.store.objects agrees present),
  )

  Reachable-Invariant : (w : World) → Reachable codec h format leaves w → Invariant codec h format w
  Reachable-Invariant w start =
      (IsHeld-nil h format [], tt, λ k r e. absurd (nothing-indexed codec k r e))
  Reachable-Invariant _ (claim {w} config now authorization prefix hash body v e free fresh r) =
      let (i, l, j) = Reachable-Invariant w r in
      let agrees =
        admit-Agrees h format hex-from_hex same-eq config now authorization prefix hash body v e in
      (IsHeld-cons h format w.store.objects hash _ w.active (agrees, λ n. absurd (cc)) i, l, j)
  Reachable-Invariant _ (write {w} hash v e r) =
      let (i, l, j) = Reachable-Invariant w r in
      let (agrees, _) = i hash _ e in
      let (i', l', j') = write-late hash v w w.late agrees (i, l, j) l in
      (
        IsHeld-cons h format _ hash _ w.active
            (agrees, λ n. Present-own h format hash v w.store.objects agrees) i',
        l',
        j',
      )
  Reachable-Invariant _ (index {w} hash v e r) =
      let (i, l, j) = Reachable-Invariant w r in
      (
        IsHeld-remove h format hash w i,
        l,
        λ k x f. index-Kept codec h format decodes k hash v w x (i hash _ e) j f,
      )
  Reachable-Invariant _ (fail {w} hash r) =
      let (i, l, j) = Reachable-Invariant w r in (IsHeld-remove h format hash w i, l, j)
  Reachable-Invariant _ (leave {w} hash stage left e r) =
      let (i, l, j) = Reachable-Invariant w r in
      (IsHeld-remove h format hash w i, (i hash stage e, l), j)
  Reachable-Invariant _ (late_write {w} before after hash v e r) =
      let (i, l, j) = Reachable-Invariant w r in
      let (held, rest) = All-pick _ before _ after (rw e at l) in
      write-late hash v w (before ++ after) held.0 (i, l, j) rest
  Reachable-Invariant _ (late_index {w} before after hash v e r) =
      let (i, l, j) = Reachable-Invariant w r in
      let (held, rest) = All-pick _ before _ after (rw e at l) in
      (i, rest, λ k x f. index-Kept codec h format decodes k hash v w x held j f)
  Reachable-Invariant _ (restart {w} r) =
      let (_, _, j) = Reachable-Invariant w r in (IsHeld-nil h format w.store.objects, tt, j)
  Reachable-Invariant _ (shard {w} files chunks r) =
      let (i, l, j) = Reachable-Invariant w r in
      (i, l, λ k x e. j k x (sym (put_files-get_xorb codec files chunks w.store.index k) ∙ e))

-- Whoever leaves, and whenever the tasks of the uploads that are gone end, for a codec that decodes what it
-- encodes, hashes that print as they were read, and a comparison of hashes that is equality: whenever
-- the index answers a hash with a record, a parsed body with this hash made the record, which is
-- well-formed, and the object of the hash is on disk and a parsed body with this hash made it, which need
-- not be the same.
pub Reachable-Kept :
    (codec : Codec) (h : Hashing) (format : Format h.MerkleHash) (leaves : Bool)
    (decodes : (r : XorbRecord) → codec.decode_xorb (codec.encode_xorb r) ≡ some r)
    (hex-from_hex : (s : Bytes) (m : h.MerkleHash) → format.from_hex s ≡ some m → h.hex m ≡ s)
    (same-eq : (a b : h.MerkleHash) → format.same a b ≡ true → a ≡ b) (w : World) (hash : Bytes)
    (r : XorbRecord)
    → Reachable codec h format leaves w
    → get_xorb codec hash w.store.index ≡ ok (some r)
    → ((stored : Bytes) × Agrees h format hash stored r) × Present h format hash w.store.objects
Reachable-Kept codec h format leaves decodes hex-from_hex same-eq w hash r reached e =
    let (_, _, kept) =
      Reachable-Invariant codec h format leaves decodes hex-from_hex same-eq w reached in
    kept hash r e
