-- ===== src/Index/Xorbs.antt =====
-- `put_xorb` and `get_xorb` of crates/xetcasd/src/index.rs: the first record of a hash stays.
use xetcas.Prelude.{
  ℕ, ◌+◌, ◌≡◌, refl, sym, ◌∙◌, ◌↔◌, inl, inr, true, false, Bool-cases, none, some, List, Bytes,
  bytes_eq, bytes_eq_iff, bytes_eq_refl, ok, ◌&&◌, arith, if◌then◌else◌,
}
use xetcas.Contracts.Storage.{XorbRecord}
use xetcas.Index.{Codec, Tables, put_chunks, entries_of, put_xorb, get_xorb}
use xetcas.Index.Table.{inserted, insert_or_ignore, lookup-insert_or_ignore, insert_or_ignore-again}

module _ (codec : Codec) (r : XorbRecord) (dedup_chunks : List (Bytes × ℕ)) (disk_bytes : ℕ)
    (t : Tables) where
  abbrev added : Tables
  added = record {
    xorbs = insert_or_ignore r.xorb_hash (codec.encode_xorb r) t.xorbs;
    files = t.files;
    chunks = put_chunks (entries_of r.xorb_hash dedup_chunks) t.chunks;
    disk_bytes = t.disk_bytes + disk_bytes;
  }

  pub put_xorb-new :
      inserted r.xorb_hash t.xorbs ≡ true
      → put_xorb codec r dedup_chunks disk_bytes t ≡ (true, added)
  unfolding put_xorb
  put_xorb-new h = rw h refl

  pub put_xorb-old :
      inserted r.xorb_hash t.xorbs ≡ false → put_xorb codec r dedup_chunks disk_bytes t ≡ (false, t)
  unfolding put_xorb
  put_xorb-old h = rw h refl

get_xorb-none_iff :
    (codec : Codec) (hash : Bytes) (t : Tables)
    → (inserted hash t.xorbs ≡ true) ↔ (get_xorb codec hash t ≡ ok none)
unfolding get_xorb inserted
get_xorb-none_iff codec hash t = ground arith

get_xorb-insert_or_ignore :
    (codec : Codec) (r : XorbRecord) (t t' : Tables) (k : Bytes)
    → codec.decode_xorb (codec.encode_xorb r) ≡ some r
    → inserted r.xorb_hash t.xorbs ≡ true
    → t'.xorbs ≡ insert_or_ignore r.xorb_hash (codec.encode_xorb r) t.xorbs
    → get_xorb codec k t' ≡ (if bytes_eq r.xorb_hash k then ok (some r) else get_xorb codec k t)
unfolding get_xorb inserted
get_xorb-insert_or_ignore codec r t t' k decodes new e =
    rw (e, lookup-insert_or_ignore k r.xorb_hash (codec.encode_xorb r) t.xorbs)
      (ground (arith, bytes_eq_iff r.xorb_hash k))

-- For a codec that decodes what it encodes, `put_xorb` reports a new xorb exactly when the index holds
-- none under the hash; then the hash is answered with the record, and all other answers stay as they
-- were.
pub put_xorb-get_xorb :
    (codec : Codec) (r : XorbRecord) (dedup_chunks : List (Bytes × ℕ)) (disk_bytes : ℕ) (t : Tables)
    (k : Bytes)
    → codec.decode_xorb (codec.encode_xorb r) ≡ some r
    → (((put_xorb codec r dedup_chunks disk_bytes t).0 ≡ true)
        ↔ (get_xorb codec r.xorb_hash t ≡ ok none))
      × (get_xorb codec k (put_xorb codec r dedup_chunks disk_bytes t).1 ≡ (
          if (put_xorb codec r dedup_chunks disk_bytes t).0 && bytes_eq r.xorb_hash k
          then ok (some r)
          else get_xorb codec k t))
put_xorb-get_xorb codec r dedup_chunks disk_bytes t k decodes =
    elim (Bool-cases (inserted r.xorb_hash t.xorbs)) [
      | inl e ↦
          let p = put_xorb-new codec r dedup_chunks disk_bytes t e in
          rw p (
            (λ h. (get_xorb-none_iff codec r.xorb_hash t).0 e, λ h. refl),
            get_xorb-insert_or_ignore codec r t (added codec r dedup_chunks disk_bytes t) k decodes
                e refl,
          )
      | inr e ↦
          let p = put_xorb-old codec r dedup_chunks disk_bytes t e in
          rw p ((λ h. cc, λ h. sym e ∙ (get_xorb-none_iff codec r.xorb_hash t).1 h), refl)
    ]

-- A second upload of a xorb that the index took reports "not new" and changes nothing, whatever comes
-- with it.
pub put_xorb-again :
    (codec : Codec) (r r' : XorbRecord) (dedup_chunks dedup_chunks' : List (Bytes × ℕ))
    (disk_bytes disk_bytes' : ℕ) (t : Tables)
    → r.xorb_hash ≡ r'.xorb_hash
    → put_xorb codec r' dedup_chunks' disk_bytes' (put_xorb codec r dedup_chunks disk_bytes t).1
      ≡ (false, (put_xorb codec r dedup_chunks disk_bytes t).1)
put_xorb-again codec r r' dedup_chunks dedup_chunks' disk_bytes disk_bytes' t same =
    put_xorb-old codec r' dedup_chunks' disk_bytes' (put_xorb codec r dedup_chunks disk_bytes t).1
      (elim (Bool-cases (inserted r.xorb_hash t.xorbs)) [
        | inl e ↦
            rw (put_xorb-new codec r dedup_chunks disk_bytes t e, ← same)
              (insert_or_ignore-again r.xorb_hash r.xorb_hash (codec.encode_xorb r) t.xorbs
                (bytes_eq_refl r.xorb_hash))
        | inr e ↦ rw (put_xorb-old codec r dedup_chunks disk_bytes t e, ← same) e
      ])
