-- ===== src/Index/Tests.antt =====
-- The index of crates/xetcasd/src/index.rs on a xorb and a file, and the instances of the theorems.
-- The codec of the tests keeps the hash and the first number of a record.
use xetcas.Prelude.{
  ◌+◌, ◌≡◌, ◌↔◌, refl, true, ◌&&◌, none, some, [], ◌∷◌, bytes_eq, ok, ◌>>=◌, codes, lookup, length,
  arith, if◌then◌else◌,
}
use xetcas.Contracts.Storage.{XorbRecord, FileRecord}
use xetcas.Index.{
  Tables, schema, put_xorb, get_xorb, put_files, get_file, stats, lookup_chunk, put_chunks,
  entries_of,
}
use xetcas.Index.Table.{inserted, insert_or_ignore}
use xetcas.Index.Xorbs.{put_xorb-get_xorb}
use xetcas.Index.Chunks.{created, xorb_stored, lookup_chunk-get_xorb}
use xetcas.Sample.{codec, decode_xorb-encode_xorb, decode_file-encode_file}
use xetcas.Index.Files.{first_of, put_files-again, put_files-get_file}
use xetcas.Index.Stats.{Accounted, stats-first_sizes}

abbrev xorb : XorbRecord
xorb = record {
  xorb_hash = codes "a";
  num_chunks = 2;
  frames_length = 21;
  unpacked_length = 5;
  chunk_boundary_offsets = 10 ∷ 21 ∷ [];
  unpacked_chunk_offsets = 2 ∷ 5 ∷ [];
  chunk_hashes = [];
  created_at = 0;
}

abbrev file : FileRecord
file = record {
  file_hash = codes "f";
  file_length = 5;
  sha256 = [];
  terms = [];
  verification_range_hashes = [];
  created_at = 0;
}

-- The index after one xorb with a chunk "c" of 21 bytes.
abbrev one_xorb : Tables
one_xorb = (put_xorb codec xorb ((codes "c", 0) ∷ []) 21 schema).1

put_xorb-get_xorb_example :
    (((put_xorb codec xorb [] 21 schema).0 ≡ true)
      ↔ (get_xorb codec xorb.xorb_hash schema ≡ ok none))
    × (get_xorb codec (codes "a") (put_xorb codec xorb [] 21 schema).1 ≡ (
        if (put_xorb codec xorb [] 21 schema).0 && bytes_eq xorb.xorb_hash (codes "a")
        then ok (some xorb)
        else get_xorb codec (codes "a") schema))
put_xorb-get_xorb_example =
    put_xorb-get_xorb codec xorb [] 21 schema (codes "a") (decode_xorb-encode_xorb xorb)

put_files-again_example :
    put_files codec (file ∷ []) [] (put_files codec (file ∷ []) [] schema).1
    ≡ (0, (put_files codec (file ∷ []) [] schema).1)
put_files-again_example = put_files-again codec (file ∷ []) [] schema

put_files-get_file_example :
    (get_file codec (codes "f") (put_files codec (file ∷ []) [] schema).1 ≡ (
      if inserted (codes "f") schema.files
      then ok (first_of (codes "f") (file ∷ []))
      else get_file codec (codes "f") schema))
    × (stats (put_files codec (file ∷ []) [] schema).1 ≡ (
        stats schema >>= λ s. ok (record {
          xorbs = s.xorbs;
          files = (put_files codec (file ∷ []) [] schema).0 + s.files;
          stored_bytes = s.stored_bytes;
        })))
put_files-get_file_example =
    put_files-get_file codec (file ∷ []) [] schema (codes "f") decode_file-encode_file

chunk_found :
    lookup_chunk (codes "c") one_xorb ≡ some (record { xorb_hash = codes "a"; chunk_index = 0 })
unfolding lookup_chunk put_xorb put_chunks entries_of inserted insert_or_ignore lookup bytes_eq
chunk_found = refl

lookup_chunk-get_xorb_example :
    (r : XorbRecord) × (get_xorb codec (codes "a") one_xorb ≡ ok (some r))
    × (r.xorb_hash ≡ codes "a")
lookup_chunk-get_xorb_example =
    lookup_chunk-get_xorb codec one_xorb (codes "c")
      (record { xorb_hash = codes "a"; chunk_index = 0 }) decode_xorb-encode_xorb
      (xorb_stored xorb ((codes "c", 0) ∷ []) 21 schema created) chunk_found

-- The second upload has another size.
stats-first_sizes_example :
    stats (put_xorb codec xorb [] 30 (put_xorb codec xorb [] 21 schema).1).1
    ≡ ok (record {
      xorbs = 1;
      files = length (put_xorb codec xorb [] 30 (put_xorb codec xorb [] 21 schema).1).1.files;
      stored_bytes = 21;
    })
unfolding bytes_eq
stats-first_sizes_example =
    stats-first_sizes codec ((codes "a", 30) ∷ (codes "a", 21) ∷ [])
      (put_xorb codec xorb [] 30 (put_xorb codec xorb [] 21 schema).1).1
      (Accounted.xorb_stored xorb [] 30 _ _
        (Accounted.xorb_stored xorb [] 21 [] schema Accounted.created))
      (omega arith)
