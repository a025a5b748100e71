-- ===== src/Index.antt =====
-- crates/xetcasd/src/index.rs: the metadata index. The SQLite tables are lists of rows in the order
-- of their insertion, with at most one row for a primary key; a transaction is one step. A BLOB is
-- what prost makes of a record: the codec is a parameter. Failures of SQLite itself are left out. The
-- size of one object is a length in memory and so below 2^63, where the cast to i64 changes nothing.
pub mod Table
pub mod Xorbs
pub mod Chunks
pub mod Files
pub mod Stats
mod Tests
use xetcas.Prelude.{
  ℕ, ◌+◌, ◌^◌, Bool, true, false, Option, none, some, List, [], ◌∷◌, Bytes, bytes_eq, Result, ok,
  err, ◌>>=◌, ok_or, lookup, insert, length, ltb, if◌then◌else◌,
}
use xetcas.Contracts.Storage.{XorbRecord, FileRecord}
use Table.{Rows, insert_or_ignore, inserted, least}

-- The messages' protobuf form.
pub record Codec : Type 0 where
  pub encode_xorb : XorbRecord → Bytes
  pub decode_xorb : Bytes → Option XorbRecord
  pub encode_file : FileRecord → Bytes
  pub decode_file : Bytes → Option FileRecord

-- A BLOB that does not decode, and a number that is no 64-bit integer.
pub data IndexError : Type 0 where
  undecodable : IndexError
  not_an_integer : IndexError

pub record FileRow : Type 0 where
  pub sha256 : Option Bytes
  pub blob : Bytes

pub record ChunkRow : Type 0 where
  pub xorb_hash : Bytes
  pub chunk_index : ℕ

-- `disk_bytes` is the sum of the sizes. From 2^63 on SQLite keeps such a sum as a REAL, which does not read as
-- an i64.
pub record Tables : Type 0 where
  pub xorbs : Rows Bytes
  pub files : Rows FileRow
  pub chunks : Rows ChunkRow
  pub disk_bytes : ℕ

-- What `SCHEMA` creates.
abbrev pub schema : Tables
schema = record { xorbs = []; files = []; chunks = []; disk_bytes = 0 }

pub record ChunkEntry : Type 0 where
  pub chunk_hash : Bytes
  pub xorb_hash : Bytes
  pub chunk_index : ℕ

unfoldable pub put_chunks : List ChunkEntry → Rows ChunkRow → Rows ChunkRow
put_chunks [] t = t
put_chunks (c ∷ cs) t = put_chunks cs (
    insert_or_ignore c.chunk_hash (record { xorb_hash = c.xorb_hash; chunk_index = c.chunk_index })
      t)

-- `(chunk_hash, index)` pairs of one xorb.
unfoldable pub entries_of : Bytes → List (Bytes × ℕ) → List ChunkEntry
entries_of hash [] = []
entries_of hash ((chunk_hash, index) ∷ cs) =
    record { chunk_hash = chunk_hash; xorb_hash = hash; chunk_index = index } ∷ entries_of hash cs

abbrev pub decoded : {A : Type 0} → Option A → Result IndexError (Option A)
decoded none = err undecodable
decoded (some a) = ok (some a)

-- `blob.map(decode).transpose()`
abbrev pub transpose :
    {A : Type 0} → (Bytes → Option A) → Option Bytes → Result IndexError (Option A)
transpose decode none = ok none
transpose decode (some blob) = decoded (decode blob)

pub record IndexStats : Type 0 where
  pub xorbs : ℕ
  pub files : ℕ
  pub stored_bytes : ℕ

module _ (codec : Codec) where
  unfoldable pub put_xorb : XorbRecord → List (Bytes × ℕ) → ℕ → Tables → Bool × Tables
  put_xorb r dedup_chunks disk_bytes t =
      if inserted r.xorb_hash t.xorbs
      then (
        true,
        record {
          xorbs = insert_or_ignore r.xorb_hash (codec.encode_xorb r) t.xorbs;
          files = t.files;
          chunks = put_chunks (entries_of r.xorb_hash dedup_chunks) t.chunks;
          disk_bytes = t.disk_bytes + disk_bytes;
        },
      )
      else (false, t)

  unfoldable pub get_xorb : Bytes → Tables → Result IndexError (Option XorbRecord)
  get_xorb hash t = transpose codec.decode_xorb (lookup hash t.xorbs)

  unfoldable pub get_xorbs_into :
      List (Bytes × XorbRecord)
      → List Bytes
      → Tables
      → Result IndexError (List (Bytes × XorbRecord))
  get_xorbs_into out [] t = ok out
  get_xorbs_into out (hash ∷ hashes) t = elim (lookup hash t.xorbs) [
    | none ↦ get_xorbs_into out hashes t
    | some blob ↦ ok_or (codec.decode_xorb blob) undecodable >>= λ r.
        get_xorbs_into (insert hash r out) hashes t
  ]

  abbrev pub get_xorbs : List Bytes → Tables → Result IndexError (List (Bytes × XorbRecord))
  get_xorbs = get_xorbs_into []

  unfoldable pub get_file : Bytes → Tables → Result IndexError (Option FileRecord)
  get_file file_hash t =
      transpose codec.decode_file
        (elim (lookup file_hash t.files) [ none ↦ none | some row ↦ some row.blob ])

  -- `WHERE sha256 = ?1 ORDER BY file_hash LIMIT 1`
  unfoldable pub file_by_sha256 : Bytes → Tables → Result IndexError (Option FileRecord)
  file_by_sha256 sha256 t =
      transpose codec.decode_file
        (elim (least (λ row. elim row.sha256 [ none ↦ false | some s ↦ bytes_eq s sha256 ])
          t.files) [ none ↦ none | some (_, row) ↦ some row.blob ])

  unfoldable pub file_row : FileRecord → FileRow
  file_row file = record {
    sha256 = elim file.sha256 [ [] ↦ none | c ∷ s ↦ some (c ∷ s) ];
    blob = codec.encode_file file;
  }

  -- The rows that the statements add, and the table after them.
  unfoldable pub put_file_rows : List FileRecord → Rows FileRow → ℕ × Rows FileRow
  put_file_rows [] files = (0, files)
  put_file_rows (file ∷ rest) files =
      let (n, after) = put_file_rows rest (insert_or_ignore file.file_hash (file_row file) files) in
      ((if inserted file.file_hash files then 1 else 0) + n, after)

  unfoldable pub put_files : List FileRecord → List ChunkEntry → Tables → ℕ × Tables
  put_files files chunks t =
      let (new_files, rows) = put_file_rows files t.files in
      (
        new_files,
        record {
          xorbs = t.xorbs;
          files = rows;
          chunks = put_chunks chunks t.chunks;
          disk_bytes = t.disk_bytes;
        },
      )

unfoldable pub lookup_chunk : Bytes → Tables → Option ChunkRow
lookup_chunk chunk_hash t = lookup chunk_hash t.chunks

unfoldable pub stats : Tables → Result IndexError IndexStats
stats t =
    if ltb t.disk_bytes (2 ^ 63)
    then ok (record { xorbs = length t.xorbs; files = length t.files; stored_bytes = t.disk_bytes })
    else err not_an_integer

abbrev pub counts : Tables → Result IndexError (ℕ × ℕ)
counts t = stats t >>= λ s. ok (s.xorbs, s.files)
