-- ===== src/Shards/Upload/Verified.antt =====
-- The SHA-256 of a registered file, as crates/xetcasd/src/routes/shards.rs checks it and as
-- crates/xetcasd/src/routes/lfs.rs answers by it, while uploads interleave.
use xetcas.Prelude.{
  ℕ, ◌≡◌, refl, ap, ◌∙◌, ◌⊎◌, inl, inr, true, false, Bool-cases, ◌&&◌, Option, none, some, List, [],
  ◌∷◌, ◌++◌, Bytes, bytes_eq, bytes_eq→eq, lookup-insert, ok, map_err, bind-ok, fail_if-ok,
  map_err-ok, arith, if◌then◌else◌, All,
}
use xetcas.Contracts.Storage.{XorbRecord, FileRecord}
use xetcas.Contracts.Validate.Fields.{is_empty}
use xetcas.Errors.{internal}
use xetcas.Filestream.{Decoding, content_sha256}
use xetcas.Filestream.Lookup.{Extends}
use xetcas.Filestream.Stable.{content_sha256-stable}
use xetcas.Index.{
  Codec, FileRow, ChunkEntry, Tables, schema, get_xorb, put_xorb, get_file, file_row, put_files,
}
use xetcas.Index.Table.{inserted}
use xetcas.Index.Xorbs.{put_xorb-get_xorb}
use xetcas.Xorbs.{Store, write_atomic}
use xetcas.Shards.Upload.{
  Reply, index_failed, unreadable, lift, check_content, known_with, verify_file, verify_sha256,
}

-- The store, and the files of the shards whose check has ended and whose registration may come.
pub record World : Type 0 where
  pub store : Store
  pub checked : List (List FileRecord)

abbrev pub empty_store : Store
empty_store = record { objects = []; index = schema }

abbrev pub with_objects : List (Bytes × Bytes) → Store → Store
with_objects objects s = record { objects = objects; index = s.index }

abbrev pub with_index : Tables → Store → Store
with_index t s = record { objects = s.objects; index = t }

-- What a server comes to, as long as no upload of a xorb is dropped while its write runs: an object is written
-- only for a xorb that is not indexed, since the lock is held. Any xorb may be indexed; a shard is
-- checked against one store and registered in a later one, or never.
pub data Reachable (codec : Codec) (decoding : Decoding) : World → Type 0 where
  start : Reachable codec decoding (record { store = empty_store; checked = [] })
  write :
      {w : World} (hash stored : Bytes)
      → get_xorb codec hash w.store.index ≡ ok none
      → Reachable codec decoding w
      → Reachable codec decoding (record {
        store = with_objects (write_atomic hash stored w.store.objects) w.store;
        checked = w.checked;
      })
  index :
      {w : World} (r : XorbRecord) (dedup_chunks : List (Bytes × ℕ)) (disk_bytes : ℕ)
      → Reachable codec decoding w
      → Reachable codec decoding (record {
        store = with_index (put_xorb codec r dedup_chunks disk_bytes w.store.index).1 w.store;
        checked = w.checked;
      })
  check :
      {w : World} (files : List FileRecord)
      → verify_sha256 codec decoding w.store files ≡ ok tt
      → Reachable codec decoding w
      → Reachable codec decoding (record { store = w.store; checked = files ∷ w.checked })
  register :
      {w : World} (before after : List (List FileRecord)) (files : List FileRecord)
      (chunks : List ChunkEntry)
      → w.checked ≡ before ++ files ∷ after
      → Reachable codec decoding w
      → Reachable codec decoding (record {
        store = with_index (put_files codec files chunks w.store.index).1 w.store;
        checked = w.checked;
      })

module _ (codec : Codec) (decoding : Decoding) where
  -- The claimed hash is that of the content, if there is a claim.
  abbrev pub IsVerified : Store → FileRecord → Type 0
  IsVerified s file = (file.sha256 ≡ []) ⊎ (content_sha256 decoding codec file s ≡ ok file.sha256)

  -- Or the file will not be registered, since its hash is there.
  abbrev pub IsFine : Store → FileRecord → Type 0
  IsFine s file = IsVerified s file ⊎ (inserted file.file_hash s.index.files ≡ false)

  abbrev pub IsGoodRow : Store → Bytes × FileRow → Type 0
  IsGoodRow s e = (f : FileRecord) × (e.1 ≡ file_row codec f) × IsVerified s f

  check_content-hash :
      (s : Store) (file : FileRecord)
      → check_content codec decoding s file ≡ ok tt
      → content_sha256 decoding codec file s ≡ ok file.sha256
  unfolding check_content
  check_content-hash s file h =
      let (computed, e, h1) =
        bind-ok (map_err (lift unreadable) (content_sha256 decoding codec file s)) _ tt h in
      let same = fail_if-ok _ _ h1 in
      map_err-ok _ _ computed e ∙ ap ok (bytes_eq→eq computed file.sha256 (ground arith))

  get_file-inserted :
      (k : Bytes) (t : Tables) (f : FileRecord)
      → get_file codec k t ≡ ok (some f)
      → inserted k t.files ≡ false
  unfolding get_file inserted
  get_file-inserted k t f h = ground arith

  known-inserted :
      (file : FileRecord) (t : Tables) (known : Option FileRecord)
      → get_file codec file.file_hash t ≡ ok known
      → known_with file known ≡ true
      → inserted file.file_hash t.files ≡ false
  unfolding known_with
  known-inserted file t none e h = absurd (cc)
  known-inserted file t (some f) e h = get_file-inserted file.file_hash t f e

  empty-nil : (s : Bytes) → is_empty s ≡ true → s ≡ []
  empty-nil [] h = refl
  empty-nil (c ∷ s) h = absurd (cc)

  verify_file-step :
      (s : Store) (file : FileRecord)
      → is_empty file.sha256 ≡ false
      → verify_file codec decoding s file ≡ ok tt
      → (known : Option FileRecord) × (get_file codec file.file_hash s.index ≡ ok known)
        × ((if known_with file known then ok tt else check_content codec decoding s file) ≡ ok tt)
  unfolding verify_file
  verify_file-step s file n h =
      let decide : Option FileRecord → Reply (Unit {0}) =
        λ known. if known_with file known then ok tt else check_content codec decoding s file in
      let (known, e, h1) =
        bind-ok (map_err (λ e. internal (index_failed e)) (get_file codec file.file_hash s.index))
          decide tt (ground arith) in
      (known, map_err-ok _ _ known e, h1)

  verify_file-IsFine :
      (s : Store) (file : FileRecord) → verify_file codec decoding s file ≡ ok tt → IsFine s file
  verify_file-IsFine s file h = elim (Bool-cases (is_empty file.sha256)) [
    | inl n ↦ inl (inl (empty-nil file.sha256 n))
    | inr n ↦
        let (known, e, h1) = verify_file-step s file n h in
        elim (Bool-cases (known_with file known)) [
          | inl b ↦ inr (known-inserted file s.index known e b)
          | inr b ↦ inl (inr (check_content-hash s file (ground arith)))
        ]
  ]

  pub verify_sha256-IsFine :
      (s : Store) (files : List FileRecord)
      → verify_sha256 codec decoding s files ≡ ok tt
      → All (IsFine s) files
  unfolding verify_sha256
  verify_sha256-IsFine s [] h = tt
  verify_sha256-IsFine s (file ∷ files) h =
      let (u, e, h1) =
        bind-ok (verify_file codec decoding s file) (λ _. verify_sha256 codec decoding s files) tt
          h in
      (verify_file-IsFine s file e, verify_sha256-IsFine s files h1)

  -- What was checked stays checked in a larger store.
  pub IsVerified-stable :
      (s s' : Store) (file : FileRecord)
      → Extends codec s s'
      → IsVerified s file
      → IsVerified s' file
  IsVerified-stable s s' file x (inl n) = inl n
  IsVerified-stable s s' file x (inr h) =
      inr (content_sha256-stable codec decoding file s s' file.sha256 x h)

  pub write-Extends :
      (hash stored : Bytes) (s : Store)
      → get_xorb codec hash s.index ≡ ok none
      → Extends codec s (with_objects (write_atomic hash stored s.objects) s)
  write-Extends hash stored s n = (
    λ k r h. h,
    λ k object i e.
        let (r, known) = i in
        elim (Bool-cases (bytes_eq hash k)) [
          | inl b ↦
              absurd
                (let p = ap (λ x. get_xorb codec x s.index) (bytes_eq→eq hash k b) in ground arith)
          | inr b ↦ lookup-insert hash k stored s.objects ∙ rw b e
        ],
  )

  pub index-Extends :
      ((r : XorbRecord) → codec.decode_xorb (codec.encode_xorb r) ≡ some r)
      → (r : XorbRecord) (dedup_chunks : List (Bytes × ℕ)) (disk_bytes : ℕ) (s : Store)
      → Extends codec s (with_index (put_xorb codec r dedup_chunks disk_bytes s.index).1 s)
  index-Extends decodes r dedup_chunks disk_bytes s = (
    λ k q h.
        let law = put_xorb-get_xorb codec r dedup_chunks disk_bytes s.index k (decodes r) in
        let flag = (put_xorb codec r dedup_chunks disk_bytes s.index).0 in
        elim (Bool-cases (flag && bytes_eq r.xorb_hash k)) [
          | inr b ↦ law.1 ∙ rw b h
          | inl b ↦ absurd (
              let fresh = law.0.0 (ground arith) in
              let p : get_xorb codec r.xorb_hash s.index ≡ get_xorb codec k s.index =
                ap (λ x. get_xorb codec x s.index) (bytes_eq→eq r.xorb_hash k (ground arith)) in
              ground arith)
        ],
    λ k object i e. e,
  )

  pub register-Extends :
      (files : List FileRecord) (chunks : List ChunkEntry) (s : Store)
      → Extends codec s (with_index (put_files codec files chunks s.index).1 s)
  unfolding put_files get_xorb
  register-Extends files chunks s = (λ k r h. h, λ k object i e. e)
