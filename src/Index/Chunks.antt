-- ===== src/Index/Chunks.antt =====
-- The dedup index of crates/xetcasd/src/index.rs: what its chunk rows point to, over the uploads that
-- a server takes.
use xetcas.Prelude.{
  ℕ, ◌≡◌, refl, sym, subst, ◌∙◌, ◌⊎◌, inl, inr, true, false, Bool-cases, Option-cases, some, List,
  [], ◌∷◌, Bytes, bytes_eq, bytes_eq→eq, bytes_eq_refl, ok, lookup, arith, All,
}
use xetcas.Contracts.Storage.{XorbRecord, FileRecord}
use xetcas.Index.{
  Codec, ChunkRow, Tables, schema, ChunkEntry, put_chunks, entries_of, put_xorb, get_xorb,
  put_files, lookup_chunk,
}
use xetcas.Index.Table.{Rows, inserted, insert_or_ignore, lookup-insert_or_ignore}
use xetcas.Index.Xorbs.{put_xorb-new, put_xorb-old}

-- The tables that transactions make from the schema. A shard names only xorbs that the index has.
pub data Reached (codec : Codec) : Tables → Type 0 where
  created : Reached codec schema
  xorb_stored :
      (r : XorbRecord) (dedup_chunks : List (Bytes × ℕ)) (disk_bytes : ℕ) (t : Tables)
      → Reached codec t
      → Reached codec (put_xorb codec r dedup_chunks disk_bytes t).1
  shard_stored :
      (files : List FileRecord) (chunks : List ChunkEntry) (t : Tables)
      → All (λ c. inserted c.xorb_hash t.xorbs ≡ false) chunks
      → Reached codec t
      → Reached codec (put_files codec files chunks t).1

lookup-none_or :
    {V : Type 0} (k j : Bytes) (v w : V) (m : Rows V)
    → lookup k (insert_or_ignore j v m) ≡ some w
    → (lookup k m ≡ some w) ⊎ ((bytes_eq j k ≡ true) × (v ≡ w))
lookup-none_or k j v w m h =
    let e = sym (lookup-insert_or_ignore k j v m) ∙ h in
    elim (Option-cases (lookup k m)) [
      | inl a ↦ elim (Bool-cases (bytes_eq j k)) [
        | inl b ↦ inr (b, ground arith)
        | inr b ↦ absurd (ground arith)
      ]
      | inr (u, a) ↦ inl (ground arith)
    ]

-- A property of rows that holds of the entries and of the table holds of the table after them.
module _ (P : ChunkRow → Type 0) where
  abbrev Rowwise : Rows ChunkRow → Type 0
  Rowwise m = (k : Bytes) (row : ChunkRow) → lookup k m ≡ some row → P row

  abbrev row_of : ChunkEntry → ChunkRow
  row_of c = record { xorb_hash = c.xorb_hash; chunk_index = c.chunk_index }

  put_chunks-Rowwise :
      (cs : List ChunkEntry) (m : Rows ChunkRow)
      → All (λ c. P (row_of c)) cs
      → Rowwise m
      → Rowwise (put_chunks cs m)
  unfolding put_chunks
  put_chunks-Rowwise [] m h i = i
  put_chunks-Rowwise (c ∷ cs) m h i =
      put_chunks-Rowwise cs (insert_or_ignore c.chunk_hash (row_of c) m) h.1 (λ k row e.
        elim (lookup-none_or k c.chunk_hash (row_of c) row m e) [
          | inl old ↦ i k row old
          | inr (_, same) ↦ subst P same h.0
        ])

entries_of-All :
    (P : ChunkRow → Type 0) (hash : Bytes) (cs : List (Bytes × ℕ))
    → ((n : ℕ) → P (record { xorb_hash = hash; chunk_index = n }))
    → All (λ c. P (row_of P c)) (entries_of hash cs)
unfolding entries_of
entries_of-All P hash [] h = tt
entries_of-All P hash ((c, n) ∷ cs) h = (h n, entries_of-All P hash cs h)

abbrev Stored : Rows Bytes → ChunkRow → Type 0
Stored xorbs row = (blob : Bytes) × (lookup row.xorb_hash xorbs ≡ some blob)

-- Each BLOB is a record of its key, and each chunk row points to a stored xorb.
record Sound (codec : Codec) (t : Tables) : Type 0 where
  encoded :
      (k blob : Bytes)
      → lookup k t.xorbs ≡ some blob
      → (r : XorbRecord) × (codec.encode_xorb r ≡ blob) × (r.xorb_hash ≡ k)
  pointed : Rowwise (Stored t.xorbs) t.chunks

lookup-kept :
    {V : Type 0} (k j : Bytes) (v w : V) (m : Rows V)
    → lookup k m ≡ some w
    → lookup k (insert_or_ignore j v m) ≡ some w
lookup-kept k j v w m h = rw (lookup-insert_or_ignore k j v m, h) refl

lookup-own :
    {V : Type 0} (k : Bytes) (v : V) (m : Rows V)
    → (w : V) × (lookup k (insert_or_ignore k v m) ≡ some w)
lookup-own k v m =
    let e = lookup-insert_or_ignore k k v m in
    elim (Option-cases (lookup k m)) [
      | inl a ↦ (v, rw (e, a, bytes_eq_refl k) refl)
      | inr (u, a) ↦ (u, rw (e, a) refl)
    ]

inserted-Stored :
    {V : Type 0} (k : Bytes) (m : Rows V) → inserted k m ≡ false → (v : V) × (lookup k m ≡ some v)
unfolding inserted
inserted-Stored k m h = elim (Option-cases (lookup k m)) [
  | inl a ↦ absurd (ground arith)
  | inr p ↦ p
]

schema-Sound : (codec : Codec) → Sound codec schema
unfolding lookup
schema-Sound codec = record { encoded = λ k blob e. absurd (cc); pointed = λ k row e. absurd (cc) }

put_xorb-Sound :
    (codec : Codec) (r : XorbRecord) (dedup_chunks : List (Bytes × ℕ)) (disk_bytes : ℕ) (t : Tables)
    → Sound codec t
    → Sound codec (put_xorb codec r dedup_chunks disk_bytes t).1
put_xorb-Sound codec r dedup_chunks disk_bytes t s =
    let blob = codec.encode_xorb r in
    let xorbs = insert_or_ignore r.xorb_hash blob t.xorbs in
    elim (Bool-cases (inserted r.xorb_hash t.xorbs)) [
      | inl e ↦ rw (put_xorb-new codec r dedup_chunks disk_bytes t e) (record {
        encoded = λ k b h. elim (lookup-none_or k r.xorb_hash blob b t.xorbs h) [
          | inl old ↦ s.encoded k b old
          | inr (same, is) ↦ (r, is, bytes_eq→eq r.xorb_hash k same)
        ];
        pointed =
            put_chunks-Rowwise (Stored xorbs) (entries_of r.xorb_hash dedup_chunks) t.chunks
              (entries_of-All (Stored xorbs) r.xorb_hash dedup_chunks
                (λ n. lookup-own r.xorb_hash blob t.xorbs))
              (λ k row h.
                let (b, at) = s.pointed k row h in
                (b, lookup-kept row.xorb_hash r.xorb_hash blob b t.xorbs at));
      })
      | inr e ↦ rw (put_xorb-old codec r dedup_chunks disk_bytes t e) s
    ]

entries-Stored :
    (xorbs : Rows Bytes) (cs : List ChunkEntry)
    → All (λ c. inserted c.xorb_hash xorbs ≡ false) cs
    → All (λ c. Stored xorbs (row_of (Stored xorbs) c)) cs
entries-Stored xorbs [] h = tt
entries-Stored xorbs (c ∷ cs) h =
    (inserted-Stored c.xorb_hash xorbs h.0, entries-Stored xorbs cs h.1)

put_files-Sound :
    (codec : Codec) (files : List FileRecord) (chunks : List ChunkEntry) (t : Tables)
    → All (λ c. inserted c.xorb_hash t.xorbs ≡ false) chunks
    → Sound codec t
    → Sound codec (put_files codec files chunks t).1
unfolding put_files
put_files-Sound codec files chunks t known s = record {
  encoded = s.encoded;
  pointed =
      put_chunks-Rowwise (Stored t.xorbs) chunks t.chunks (entries-Stored t.xorbs chunks known)
        s.pointed;
}

Reached-Sound : (codec : Codec) (t : Tables) → Reached codec t → Sound codec t
Reached-Sound codec _ created = schema-Sound codec
Reached-Sound codec _ (xorb_stored r cs n t h) =
    put_xorb-Sound codec r cs n t (Reached-Sound codec t h)
Reached-Sound codec _ (shard_stored files chunks t known h) =
    put_files-Sound codec files chunks t known (Reached-Sound codec t h)

-- In every index that uploads make, where a shard's chunks name xorbs that the index has, a chunk that
-- is found names a xorb that is found too: `get_xorb` answers with a record of that hash, for a codec
-- that decodes what it encodes.
pub lookup_chunk-get_xorb :
    (codec : Codec) (t : Tables) (chunk_hash : Bytes) (row : ChunkRow)
    → ((r : XorbRecord) → codec.decode_xorb (codec.encode_xorb r) ≡ some r)
    → Reached codec t
    → lookup_chunk chunk_hash t ≡ some row
    → (r : XorbRecord) × (get_xorb codec row.xorb_hash t ≡ ok (some r))
      × (r.xorb_hash ≡ row.xorb_hash)
unfolding lookup_chunk get_xorb
lookup_chunk-get_xorb codec t chunk_hash row decodes reached h =
    let s = Reached-Sound codec t reached in
    let (blob, found) = s.pointed chunk_hash row h in
    let (r, encodes, same) = s.encoded row.xorb_hash blob found in
    (r, rw (found, ← encodes, decodes r) refl, same)
