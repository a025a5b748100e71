-- ===== src/Shards/Tests.antt =====
-- `build_records` of crates/xetcasd/src/routes/shards.rs on a shard of one file, and the instances of
-- the theorems. The hashes of the tests are texts.
use xetcas.Prelude.{
  here, ℕ, zero, suc, ◌<◌, ◌≡◌, refl, subst, inl, inr, Bool-cases, some, [], ◌∷◌, Bytes, bytes_eq,
  lookup, ok, length, take, drop, get_elem?, fail_if, All, arith,
}
use xetcas.Prelude.Words.{as_u32, sub_u32, sub_u64, add_u64}
use xetcas.Contracts.Storage.{XorbRecord, FileRecord}
use xetcas.Contracts.Validate.Fields.{
  all_bytes, is_hex_byte, is_hash_hex, require_hash_hex, validate_each,
}
use xetcas.Contracts.Validate.Storage.{
  validate_file_term_record, sum_segments, validate_file_record,
}
use xetcas.Index.{ChunkEntry}
use xetcas.Reconstruction.Meta.{from_record, num_chunks, offset_before, chunk_len, unpacked_len}
use xetcas.Reconstruction.Plan.{Plan, plan_reconstruction}
use xetcas.Reconstruction.Content.{Describes, span}
use xetcas.Reconstruction.Segment.{file_content, terms_content}
use xetcas.Reconstruction.Walk.{Declares}
use xetcas.Shards.{
  Hashing, ShardFile, ShardData, Xorbs, chunk_hash_at, push_chunks, check_range_hash, check_term,
  check_terms, first_chunk, record_of, check_file, validated_chunk_mappings, check_files,
  build_records,
}
use xetcas.Shards.Mappings.{Corroborated}
use xetcas.Shards.Accepted.{Accepted, build_records-Accepted}
use xetcas.Shards.Served.{metas_of, Verified, build_records-plan_reconstruction}

abbrev repeat : ℕ → ℕ → Bytes
repeat zero c = []
repeat (suc n) c = c ∷ repeat n c

abbrev hash_a : Bytes
hash_a = repeat 64 b'a'

abbrev hashing : Hashing
hashing = record {
  MerkleHash = Bytes;
  from_slice = some;
  as_bytes = λ m. m;
  hex = λ m. m;
  file_hash = λ chunks. hash_a;
  range_hash_from_chunks = λ hashes. [];
}

abbrev xorb : XorbRecord
xorb = record {
  xorb_hash = hash_a;
  num_chunks = 2;
  frames_length = 21;
  unpacked_length = 5;
  chunk_boundary_offsets = 10 ∷ 21 ∷ [];
  unpacked_chunk_offsets = 2 ∷ 5 ∷ [];
  chunk_hashes = repeat 64 7;
  created_at = 0;
}

abbrev xorbs : Xorbs
xorbs = (hash_a, xorb) ∷ []

abbrev shard_file : ShardFile
shard_file = record {
  file_hash = hash_a;
  sha256 = [];
  terms =
      record {
        xorb_hash = hash_a;
        chunk_index_start = 0;
        chunk_index_end = 2;
        unpacked_segment_bytes = 5;
      }
      ∷ [];
  verification = [];
}

abbrev file : FileRecord
file = record_of hashing 0 shard_file 5

abbrev entry : ChunkEntry
entry = record { chunk_hash = repeat 32 7; xorb_hash = hash_a; chunk_index = 0 }

abbrev shard : ShardData
shard = record { files = shard_file ∷ []; flagged_chunks = entry ∷ [] }

builds : build_records hashing shard xorbs 0 ≡ ok (file ∷ [], entry ∷ entry ∷ [])
unfolding build_records check_files check_file check_terms check_term push_chunks chunk_hash_at
    check_range_hash first_chunk validated_chunk_mappings lookup bytes_eq fail_if from_record
    num_chunks offset_before chunk_len unpacked_len as_u32 sub_u32 sub_u64 add_u64
    validate_file_record validate_file_term_record sum_segments require_hash_hex is_hash_hex
    all_bytes is_hex_byte validate_each
builds = refl

build_records-Accepted_example :
    All (Accepted hashing xorbs) (file ∷ []) × All (Corroborated hashing xorbs) (entry ∷ entry ∷ [])
build_records-Accepted_example =
    build_records-Accepted hashing xorbs 0 shard (file ∷ []) (entry ∷ entry ∷ []) builds

abbrev chunk : Bytes → ℕ → Bytes
chunk hash zero = 1 ∷ 2 ∷ []
chunk hash (suc zero) = 3 ∷ 4 ∷ 5 ∷ []
chunk hash (suc (suc n)) = []

xorb_offsets :
    (hash : Bytes) (i : ℕ)
    → i < 2
    → get_elem? xorb.unpacked_chunk_offsets i ≡ some (length (span (chunk hash) 0 (suc i)))
unfolding span
xorb_offsets hash zero h = refl
xorb_offsets hash (suc zero) h = refl
xorb_offsets hash (suc (suc n)) h = absurd (omega arith)

xorb_size : (hash : Bytes) → length (span (chunk hash) 0 2) ≡ 5
unfolding span
xorb_size hash = refl

xorb-Describes : (hash : Bytes) → Describes (from_record xorb) (chunk hash)
unfolding from_record
xorb-Describes hash = record {
  offsets = xorb_offsets hash;
  frames = refl;
  count = omega arith;
  small = omega (arith, xorb_size hash);
}

only_xorb : (hash : Bytes) (r : XorbRecord) → lookup hash xorbs ≡ some r → xorb ≡ r
unfolding lookup
only_xorb hash r e = elim (Bool-cases (bytes_eq hash_a hash)) [
  | inl b ↦ ground (arith, e, b)
  | inr b ↦ absurd (ground (arith, e, b))
]

xorbs-Verified : Verified xorbs chunk
xorbs-Verified hash r e =
    subst (λ q. Describes (from_record q) (chunk hash)) (only_xorb hash r e) (xorb-Describes hash)

build_records-plan_reconstruction_example :
    (plan : Plan) × (plan_reconstruction file (some (3, 9)) (metas_of xorbs) ≡ ok (some plan))
    × (take 2 (drop plan.offset_into_first_range (terms_content chunk plan.terms))
        ≡ take 2 (drop 3 (file_content chunk file.terms)))
    × All (Declares chunk) plan.terms
build_records-plan_reconstruction_example =
    build_records-plan_reconstruction hashing xorbs 0 shard (file ∷ []) (entry ∷ entry ∷ []) chunk
      file 3 9 xorbs-Verified builds (here refl) (omega arith) (omega arith) (omega arith)
