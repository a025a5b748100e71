-- ===== src/Shards/Upload/Registered.antt =====
-- A file that crates/xetcasd/src/routes/lfs.rs finds by its SHA-256 has content with this hash.
use xetcas.Prelude.{
  ℕ, ◌≡◌, refl, sym, subst, ◌∙◌, ◌⊎◌, inl, inr, false, Bool-cases, some, List, [], ◌∷◌, ◌++◌, Bytes,
  All,
}
use xetcas.Contracts.Storage.{XorbRecord, FileRecord}
use xetcas.Filestream.{Decoding}
use xetcas.Filestream.Lookup.{Extends}
use xetcas.Index.{Codec, FileRow, ChunkEntry, Tables, put_xorb, file_row, put_file_rows, put_files}
use xetcas.Index.Files.{inserted-kept, rows-kept}
use xetcas.Index.Table.{Rows, inserted, insert_or_ignore}
use xetcas.Xorbs.{Store, write_atomic}
use xetcas.Shards.Upload.Verified.{
  World, with_objects, with_index, Reachable, start, write, index, check, register, IsVerified,
  IsFine, IsGoodRow, verify_sha256-IsFine, IsVerified-stable, write-Extends, index-Extends,
  register-Extends,
}

All-map :
    {A : Type 0} (P Q : A → Type 0) (xs : List A) → ((x : A) → P x → Q x) → All P xs → All Q xs
All-map P Q [] f a = tt
All-map P Q (x ∷ xs) f a = (f x a.0, All-map P Q xs f a.1)

All-snoc :
    {A : Type 0} (P : A → Type 0) (xs : List A) (x : A) → All P xs → P x → All P (xs ++ x ∷ [])
All-snoc P [] x a p = (p, tt)
All-snoc P (y ∷ xs) x a p = (a.0, All-snoc P xs x a.1 p)

All-middle : {A : Type 0} (P : A → Type 0) (xs ys : List A) (x : A) → All P (xs ++ x ∷ ys) → P x
All-middle P [] ys x a = a.0
All-middle P (y ∷ xs) ys x a = All-middle P xs ys x a.1

module _ (codec : Codec) (decoding : Decoding) where
  -- One row is added, or the hash is there.
  insert-IsGoodRow :
      (s : Store) (k : Bytes) (f : FileRecord) (m : Rows FileRow)
      → IsVerified codec decoding s f ⊎ (inserted k m ≡ false)
      → All (IsGoodRow codec decoding s) m
      → All (IsGoodRow codec decoding s) (insert_or_ignore k (file_row codec f) m)
  unfolding insert_or_ignore
  insert-IsGoodRow s k f m v a = elim (Bool-cases (inserted k m)) [
    | inr n ↦ rw n a
    | inl n ↦ elim v [
      | inl good ↦
          rw n (All-snoc (IsGoodRow codec decoding s) m (k, file_row codec f) a (f, refl, good))
      | inr old ↦ absurd (let both = sym n ∙ old in cc)
    ]
  ]

  abbrev IsFineFor : Store → Rows FileRow → FileRecord → Type 0
  IsFineFor s m file = IsVerified codec decoding s file ⊎ (inserted file.file_hash m ≡ false)

  fine-kept :
      (s : Store) (j : Bytes) (row : FileRow) (m : Rows FileRow) (file : FileRecord)
      → IsFineFor s m file
      → IsFineFor s (insert_or_ignore j row m) file
  fine-kept s j row m file (inl v) = inl v
  fine-kept s j row m file (inr n) = inr (inserted-kept file.file_hash j row m n)

  put_file_rows-IsGoodRow :
      (s : Store) (files : List FileRecord) (m : Rows FileRow)
      → All (IsFineFor s m) files
      → All (IsGoodRow codec decoding s) m
      → All (IsGoodRow codec decoding s) (put_file_rows codec files m).1
  unfolding put_file_rows
  put_file_rows-IsGoodRow s [] m f a = a
  put_file_rows-IsGoodRow s (file ∷ files) m f a =
      let m' = insert_or_ignore file.file_hash (file_row codec file) m in
      put_file_rows-IsGoodRow s files m'
        (All-map (IsFineFor s m) (IsFineFor s m') files
          (λ x p. fine-kept s file.file_hash (file_row codec file) m x p) f.1)
        (insert-IsGoodRow s file.file_hash file m f.0 a)

  abbrev pub Invariant : World → Type 0
  Invariant w =
      All (IsGoodRow codec decoding w.store) w.store.index.files
      × All (All (IsFine codec decoding w.store)) w.checked

  -- The store grows and the files stay.
  grown-Invariant :
      (s s' : Store) (checked : List (List FileRecord))
      → Extends codec s s'
      → s'.index.files ≡ s.index.files
      → Invariant (record { store = s; checked = checked })
      → Invariant (record { store = s'; checked = checked })
  grown-Invariant s s' checked x same (a, b) = (
    subst (All (IsGoodRow codec decoding s')) (sym same) (
        All-map (IsGoodRow codec decoding s) (IsGoodRow codec decoding s') s.index.files
          (λ e p. good e p) a),
    All-map (All (IsFine codec decoding s)) (All (IsFine codec decoding s')) checked
        (λ fs p.
          All-map (IsFine codec decoding s) (IsFine codec decoding s') fs (λ f q. fine f q) p)
        b,
  )
    where
      good : (e : Bytes × FileRow) → IsGoodRow codec decoding s e → IsGoodRow codec decoding s' e
      good e (f, r, v) = (f, r, IsVerified-stable codec decoding s s' f x v)

      fine : (f : FileRecord) → IsFine codec decoding s f → IsFine codec decoding s' f
      fine f (inl v) = inl (IsVerified-stable codec decoding s s' f x v)
      fine f (inr n) = inr (subst (λ m. inserted f.file_hash m ≡ false) (sym same) n)

  put_xorb-files :
      (r : XorbRecord) (dedup_chunks : List (Bytes × ℕ)) (disk_bytes : ℕ) (t : Tables)
      → (put_xorb codec r dedup_chunks disk_bytes t).1.files ≡ t.files
  unfolding put_xorb
  put_xorb-files r dedup_chunks disk_bytes t = elim (Bool-cases (inserted r.xorb_hash t.xorbs)) [
    | inl e ↦ rw e refl
    | inr e ↦ rw e refl
  ]

  put_files-files :
      (files : List FileRecord) (chunks : List ChunkEntry) (t : Tables)
      → (put_files codec files chunks t).1.files ≡ (put_file_rows codec files t.files).1
  unfolding put_files
  put_files-files files chunks t = refl

  -- A checked shard is registered: its rows are good, and every checked file stays fine.
  register-Invariant :
      (s : Store) (files : List FileRecord) (chunks : List ChunkEntry)
      (checked : List (List FileRecord))
      → All (IsFine codec decoding s) files
      → Invariant (record { store = s; checked = checked })
      → Invariant (record {
        store = with_index (put_files codec files chunks s.index).1 s;
        checked = checked;
      })
  register-Invariant s files chunks checked f (a, b) =
      let s' = with_index (put_files codec files chunks s.index).1 s in
      let x = register-Extends codec decoding files chunks s in
      let rows : All (IsGoodRow codec decoding s') (put_file_rows codec files s.index.files).1 =
        All-map (IsGoodRow codec decoding s) (IsGoodRow codec decoding s')
          (put_file_rows codec files s.index.files).1
          (λ e p. let (g, r, v) = p in (g, r, IsVerified-stable codec decoding s s' g x v))
          (put_file_rows-IsGoodRow s files s.index.files f a) in
      (
        subst (All (IsGoodRow codec decoding s')) (sym (put_files-files files chunks s.index)) rows,
        All-map (All (IsFine codec decoding s)) (All (IsFine codec decoding s')) checked
            (λ fs p.
              All-map (IsFine codec decoding s) (IsFine codec decoding s') fs (λ g q. kept g q) p)
            b,
      )
    where
      kept :
          (g : FileRecord)
          → IsFine codec decoding s g
          → IsFine codec decoding (with_index (put_files codec files chunks s.index).1 s) g
      kept g (inl v) = inl (
          IsVerified-stable codec decoding s (with_index (put_files codec files chunks s.index).1 s)
            g (register-Extends codec decoding files chunks s) v)
      kept g (inr n) = inr (
          subst (λ m. inserted g.file_hash m ≡ false) (sym (put_files-files files chunks s.index))
            (rows-kept codec files g.file_hash s.index.files n))

  module _ (decodes : (r : XorbRecord) → codec.decode_xorb (codec.encode_xorb r) ≡ some r) where
    pub Reachable-Invariant : (w : World) → Reachable codec decoding w → Invariant w
    Reachable-Invariant w start = (tt, tt)
    Reachable-Invariant _ (write {w} hash stored n r) =
        grown-Invariant w.store (with_objects (write_atomic hash stored w.store.objects) w.store)
          w.checked (write-Extends codec decoding hash stored w.store n) refl
          (Reachable-Invariant w r)
    Reachable-Invariant _ (index {w} x dedup_chunks disk_bytes r) =
        grown-Invariant w.store
          (with_index (put_xorb codec x dedup_chunks disk_bytes w.store.index).1 w.store) w.checked
          (index-Extends codec decoding decodes x dedup_chunks disk_bytes w.store)
          (put_xorb-files x dedup_chunks disk_bytes w.store.index) (Reachable-Invariant w r)
    Reachable-Invariant _ (check {w} files v r) =
        let (a, b) = Reachable-Invariant w r in
        (a, (verify_sha256-IsFine codec decoding w.store files v, b))
    Reachable-Invariant _ (register {w} before after files chunks e r) =
        let (a, b) = Reachable-Invariant w r in
        register-Invariant w.store files chunks w.checked
          (All-middle (All (IsFine codec decoding w.store)) before after files
            (subst (All (All (IsFine codec decoding w.store))) e b))
          (a, b)
