-- ===== src/Index/Files.antt =====
-- `put_files` of crates/xetcasd/src/index.rs: the first record of a file hash stays.
use xetcas.Prelude.{
  ℕ, ◌+◌, ◌≡◌, refl, ap, ap₂, ◌∙◌, Bool, true, false, Option, none, some, List, [], ◌∷◌, Bytes,
  bytes_eq, bytes_eq_refl, ok, ◌>>=◌, lookup, length, arith, if◌then◌else◌, All,
}
use xetcas.Contracts.Storage.{FileRecord}
use xetcas.Index.{
  Codec, FileRow, ChunkEntry, ChunkRow, Tables, put_chunks, transpose, file_row, put_file_rows,
  put_files, get_file, stats,
}
use xetcas.Index.Table.{
  Rows, inserted, insert_or_ignore, lookup-insert_or_ignore, length-insert_or_ignore,
}

-- A key that is there stays.
pub inserted-kept :
    {V : Type 0} (k j : Bytes) (v : V) (m : Rows V)
    → inserted k m ≡ false
    → inserted k (insert_or_ignore j v m) ≡ false
unfolding inserted
inserted-kept k j v m h = ground (arith, lookup-insert_or_ignore k j v m)

inserted-own :
    {V : Type 0} (k : Bytes) (v : V) (m : Rows V) → inserted k (insert_or_ignore k v m) ≡ false
unfolding inserted
inserted-own k v m = ground (arith, lookup-insert_or_ignore k k v m, bytes_eq_refl k)

ignored :
    {V : Type 0} (k : Bytes) (v : V) (m : Rows V)
    → inserted k m ≡ false
    → insert_or_ignore k v m ≡ m
unfolding insert_or_ignore
ignored k v m h = rw h refl

-- Every key of the list is there.
module _ {V : Type 0} where
  abbrev Known : Rows V → List Bytes → Type 0
  Known m = All (λ k. inserted k m ≡ false)

abbrev file_hashes : List FileRecord → List Bytes
file_hashes [] = []
file_hashes (f ∷ fs) = f.file_hash ∷ file_hashes fs

abbrev chunk_hashes : List ChunkEntry → List Bytes
chunk_hashes [] = []
chunk_hashes (c ∷ cs) = c.chunk_hash ∷ chunk_hashes cs

module _ (codec : Codec) where
  abbrev pub rows : List FileRecord → Rows FileRow → Rows FileRow
  rows fs m = (put_file_rows codec fs m).1

  pub rows-kept :
      (fs : List FileRecord) (k : Bytes) (m : Rows FileRow)
      → inserted k m ≡ false
      → inserted k (rows fs m) ≡ false
  unfolding put_file_rows
  rows-kept [] k m h = h
  rows-kept (f ∷ fs) k m h =
      rows-kept fs k (insert_or_ignore f.file_hash (file_row codec f) m)
        (inserted-kept k f.file_hash (file_row codec f) m h)

  rows-Known : (fs : List FileRecord) (m : Rows FileRow) → Known (rows fs m) (file_hashes fs)
  unfolding put_file_rows
  rows-Known [] m = tt
  rows-Known (f ∷ fs) m =
      let m' = insert_or_ignore f.file_hash (file_row codec f) m in
      (
        rows-kept fs f.file_hash m' (inserted-own f.file_hash (file_row codec f) m),
        rows-Known fs m',
      )

  -- Files that are known are ignored.
  rows-ignored :
      (fs : List FileRecord) (m : Rows FileRow)
      → Known m (file_hashes fs)
      → put_file_rows codec fs m ≡ (0, m)
  unfolding put_file_rows
  rows-ignored [] m h = refl
  rows-ignored (f ∷ fs) m h =
      rw (ignored f.file_hash (file_row codec f) m h.0, rows-ignored fs m h.1, h.0) refl

  length-rows :
      (fs : List FileRecord) (m : Rows FileRow)
      → length (rows fs m) ≡ (put_file_rows codec fs m).0 + length m
  unfolding put_file_rows
  length-rows [] m = omega arith
  length-rows (f ∷ fs) m =
      let m' = insert_or_ignore f.file_hash (file_row codec f) m in
      omega (arith, length-rows fs m', length-insert_or_ignore f.file_hash (file_row codec f) m)

chunks-kept :
    (cs : List ChunkEntry) (k : Bytes) (m : Rows ChunkRow)
    → inserted k m ≡ false
    → inserted k (put_chunks cs m) ≡ false
unfolding put_chunks
chunks-kept [] k m h = h
chunks-kept (c ∷ cs) k m h = chunks-kept cs k _ (inserted-kept k c.chunk_hash _ m h)

chunks-Known :
    (cs : List ChunkEntry) (m : Rows ChunkRow) → Known (put_chunks cs m) (chunk_hashes cs)
unfolding put_chunks
chunks-Known [] m = tt
chunks-Known (c ∷ cs) m =
    (chunks-kept cs c.chunk_hash _ (inserted-own c.chunk_hash _ m), chunks-Known cs _)

chunks-ignored :
    (cs : List ChunkEntry) (m : Rows ChunkRow) → Known m (chunk_hashes cs) → put_chunks cs m ≡ m
unfolding put_chunks
chunks-ignored [] m h = refl
chunks-ignored (c ∷ cs) m h =
    ap (put_chunks cs) (ignored c.chunk_hash _ m h.0) ∙ chunks-ignored cs m h.1

-- The same files and chunks a second time: no file is new, and no table changes.
pub put_files-again :
    (codec : Codec) (files : List FileRecord) (chunks : List ChunkEntry) (t : Tables)
    → put_files codec files chunks (put_files codec files chunks t).1
      ≡ (0, (put_files codec files chunks t).1)
unfolding put_files
put_files-again codec files chunks t =
    let rest = put_chunks chunks t.chunks in
    let files_stay =
      rows-ignored codec files (rows codec files t.files) (rows-Known codec files t.files) in
    let chunks_stay = chunks-ignored chunks rest (chunks-Known chunks t.chunks) in
    ap₂
      (λ (p : ℕ × Rows FileRow) (c : Rows ChunkRow).
        (p.0, record { xorbs = t.xorbs; files = p.1; chunks = c; disk_bytes = t.disk_bytes }))
      files_stay chunks_stay

-- The first file of the list with the hash.
abbrev pub first_of : Bytes → List FileRecord → Option FileRecord
first_of k [] = none
first_of k (f ∷ fs) = if bytes_eq f.file_hash k then some f else first_of k fs

module _ (codec : Codec)
    (decodes : (f : FileRecord) → codec.decode_file (codec.encode_file f) ≡ some f) where
  lookup-rows :
      (fs : List FileRecord) (k : Bytes) (m : Rows FileRow)
      → lookup k (rows codec fs m) ≡ elim (lookup k m) [
        | none ↦ elim (first_of k fs) [ none ↦ none | some f ↦ some (file_row codec f) ]
        | some row ↦ some row
      ]
  unfolding put_file_rows
  lookup-rows [] k m = ground arith
  lookup-rows (f ∷ fs) k m =
      let m' = insert_or_ignore f.file_hash (file_row codec f) m in
      ground
        (arith, lookup-rows fs k m', lookup-insert_or_ignore k f.file_hash (file_row codec f) m)

  abbrev row_after : Option FileRow → Option FileRecord → Option FileRow
  row_after o q = elim o [
    | none ↦ elim q [ none ↦ none | some f ↦ some (file_row codec f) ]
    | some row ↦ some row
  ]

  abbrev absent : Option FileRow → Bool
  absent o = elim o [ none ↦ true | some row ↦ false ]

  abbrev blob_of : Option FileRow → Option Bytes
  blob_of o = elim o [ none ↦ none | some row ↦ some row.blob ]

  -- The answer by the row that was there and the file that came.
  answers :
      (o : Option FileRow) (q : Option FileRecord)
      → transpose codec.decode_file (blob_of (row_after o q))
        ≡ (if absent o then ok q else transpose codec.decode_file (blob_of o))
  unfolding file_row
  answers none none = refl
  answers none (some f) = rw (decodes f) refl
  answers (some row) q = refl

-- For a codec that decodes what it encodes: after `put_files`, a file that the index had is answered
-- as before, and any other hash with the first file of the list that has it. In the statistics, if they
-- can be read, the count of files grows by the number of new files and nothing else changes.
pub put_files-get_file :
    (codec : Codec) (files : List FileRecord) (chunks : List ChunkEntry) (t : Tables) (k : Bytes)
    → ((f : FileRecord) → codec.decode_file (codec.encode_file f) ≡ some f)
    → (get_file codec k (put_files codec files chunks t).1
        ≡ (if inserted k t.files then ok (first_of k files) else get_file codec k t))
      × (stats (put_files codec files chunks t).1 ≡ (
          stats t >>= λ s. ok (record {
            xorbs = s.xorbs;
            files = (put_files codec files chunks t).0 + s.files;
            stored_bytes = s.stored_bytes;
          })))
unfolding put_files get_file stats inserted file_row
put_files-get_file codec files chunks t k decodes = (
  rw (lookup-rows codec decodes files k t.files)
      (answers codec decodes (lookup k t.files) (first_of k files)),
  ground (arith, length-rows codec files t.files),
)
