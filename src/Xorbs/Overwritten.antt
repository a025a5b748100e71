-- ===== src/Xorbs/Overwritten.antt =====
-- A run of the uploads of crates/xetcasd/src/routes/xorbs.rs in which a client leaves while its object is
-- written, and another one uploads the same xorb.
use xetcas.Prelude.{
  ℕ, ◌≡◌, refl, ◌∙◌, true, false, none, some, List, [], Bytes, bytes_eq_refl, lookup, lookup-insert,
  ok,
}
use xetcas.Contracts.Storage.{XorbRecord}
use xetcas.Headers.{Header}
use xetcas.Index.{Codec, get_xorb}
use xetcas.Shards.{Hashing}
use xetcas.State.{Config}
use xetcas.Xorbs.{Format, Verified, admit}
use xetcas.Xorbs.Admitted.{admit-Agrees}
use xetcas.Xorbs.Stored.{get_xorb-index}
use xetcas.Xorbs.Uploads.{
  Stage, World, remove, lookup-remove, lookup-first, after_claim, after_write, after_index,
  after_leave, after_late_write, Reachable, claim, write, index, leave, late_write,
}

-- The first upload is dropped in its write, the second one runs to its end, and the write of the first ends.
abbrev pub overwritten : Codec → Bytes → Verified → Verified → World → World
overwritten codec hash a b w =
    let left = after_leave hash (record { verified = a; renamed = false }) (after_claim hash a w) in
    after_late_write hash a w.late
      (after_index codec hash b (after_write hash b (after_claim hash b left)))

removed-none :
    (hash : Bytes) (stages : List (Bytes × Stage)) → lookup hash (remove hash stages) ≡ none
removed-none hash stages = lookup-remove hash hash stages ∙ rw (bytes_eq_refl hash) refl

-- Clients may leave. From every reachable state in which nobody holds the lock of a hash and the index has no
-- xorb of this hash, for any two bodies that the checks before the lock accept under the hash, the state
-- after that run is reachable: in it the index answers the hash with the record of the second body,
-- while the object of the hash is that of the first one. The codec decodes what it encodes, hashes
-- print as they were read, and the comparison of hashes is equality.
pub Reachable-overwritten :
    (codec : Codec) (h : Hashing) (format : Format h.MerkleHash)
    (decodes : (r : XorbRecord) → codec.decode_xorb (codec.encode_xorb r) ≡ some r)
    (hex-from_hex : (s : Bytes) (m : h.MerkleHash) → format.from_hex s ≡ some m → h.hex m ≡ s)
    (same-eq : (a b : h.MerkleHash) → format.same a b ≡ true → a ≡ b) (config : Config)
    (now now' : ℕ) (authorization : Header) (prefix hash body body' : Bytes) (a b : Verified)
    (w : World)
    → admit h format config now authorization prefix hash body ≡ ok a
    → admit h format config now' authorization prefix hash body' ≡ ok b
    → lookup hash w.active ≡ none
    → get_xorb codec hash w.store.index ≡ ok none
    → Reachable codec h format true w
    → Reachable codec h format true (overwritten codec hash a b w)
      × (get_xorb codec hash (overwritten codec hash a b w).store.index ≡ ok (some b.xorb))
      × (lookup hash (overwritten codec hash a b w).store.objects ≡ some a.stored)
Reachable-overwritten codec h format decodes hex-from_hex same-eq config now now' authorization
      prefix hash body body' a b w p q free fresh r =
    let claimed = claim config now authorization prefix hash body a p free fresh r in
    let left = leave hash _ refl (lookup-first hash _ w.active) claimed in
    let again =
      claim config now' authorization prefix hash body' b q (removed-none hash _) fresh left in
    let stored = write hash b (lookup-first hash _ _) again in
    let indexed = index hash b (lookup-first hash _ _) stored in
    let (_, _, _, (_, _, _, named, _)) =
      admit-Agrees h format hex-from_hex same-eq config now' authorization prefix hash body' b q in
    (
      late_write [] w.late hash a refl indexed,
      get_xorb-index codec hash hash b w.store.index decodes named fresh
          ∙ rw (bytes_eq_refl hash) refl,
      lookup-insert hash hash a.stored _ ∙ rw (bytes_eq_refl hash) refl,
    )
