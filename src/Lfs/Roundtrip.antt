-- ===== src/Lfs/Roundtrip.antt =====
-- One file of crates/xetcasd/src/routes/lfs.rs from its shard to its download. In the tests a chunk is two bytes,
-- stored as they are, and the hash of a content repeats its first byte.
use xetcas.Prelude.{none, some, [], ◌∷◌, Bytes, take, drop}
use xetcas.Contracts.Storage.{XorbRecord, FileRecord}
use xetcas.Filestream.{Decoding}
use xetcas.Index.{put_xorb, put_files}
use xetcas.Reconstruction.Meta.{num_chunks}
use xetcas.Sample.{repeat, codec}
use xetcas.Shards.Upload.Verified.{World, with_objects, with_index, empty_store, index}
use xetcas.Xorbs.{Store, write_atomic}

abbrev decoding : Decoding
decoding = record {
  deserialize_chunk = λ r. elim r [ [] ↦ none | c ∷ s ↦ some (take 2 (c ∷ s), drop 2 (c ∷ s)) ];
  sha256_hex = λ b. elim b [ [] ↦ repeat 64 b'0' | c ∷ s ↦ repeat 64 c ];
}

abbrev hash_a : Bytes
hash_a = repeat 64 b'a'

abbrev oid : Bytes
oid = repeat 64 b'c'

abbrev object : Bytes
object = b'c' ∷ 1 ∷ 2 ∷ 3 ∷ 0 ∷ []

abbrev xorb : XorbRecord
xorb = record {
  xorb_hash = hash_a;
  num_chunks = 2;
  frames_length = 4;
  unpacked_length = 4;
  chunk_boundary_offsets = 2 ∷ 4 ∷ [];
  unpacked_chunk_offsets = 2 ∷ 4 ∷ [];
  chunk_hashes = [];
  created_at = 0;
}

abbrev file : FileRecord
file = record {
  file_hash = repeat 64 b'f';
  file_length = 4;
  sha256 = oid;
  terms =
      record {
        xorb_hash = hash_a;
        chunk_index_start = 0;
        chunk_index_end = 2;
        unpacked_segment_bytes = 4;
      }
      ∷ [];
  verification_range_hashes = [];
  created_at = 0;
}

abbrev stored : Store
stored =
    with_index (put_xorb codec xorb [] 5 empty_store.index).1
      (with_objects (write_atomic hash_a object []) empty_store)

abbrev registered : World
registered = record {
  store = with_index (put_files codec (file ∷ []) [] stored.index).1 stored;
  checked = (file ∷ []) ∷ [];
}
