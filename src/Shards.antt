-- ===== src/Shards.antt =====
-- crates/xetcasd/src/routes/shards.rs: the checks on an uploaded shard, and `chunk_hash_at` of
-- crates/xetcasd/src/dedup_shard.rs. Hashes come from the crate xet_core_structures, which is a
-- parameter. The map of the stored xorbs is an association list.
pub mod Terms
pub mod Chunks
pub mod Mappings
pub mod Accepted
pub mod Served
pub mod Upload
mod Tests
use xetcas.Prelude.{
  ℕ, zero, suc, ◌+◌, ◌-◌, ◌*◌, Bool, true, false, not, ◌&&◌, ◌||◌, Option, none, some, List, [],
  ◌∷◌, ◌++◌, map, Bytes, bytes_eq, lookup, length, take, drop, Result, ok, err, ◌>>=◌, ◌>>◌, ok_or,
  fail_if, map_err, ltb, leb, ◌==◌, if◌then◌else◌,
}
use xetcas.Prelude.Words.{add_u64}
use xetcas.Contracts.Constants.{hash_bytes}
use xetcas.Contracts.Storage.{XorbRecord, FileTermRecord, FileRecord}
use xetcas.Contracts.Validate.Fields.{Failure, is_empty}
use xetcas.Contracts.Validate.Storage.{validate_file_record}
use xetcas.Reconstruction.Meta.{
  PlanError, XorbMeta, from_record, num_chunks, chunk_len, unpacked_len,
}
use xetcas.Index.{ChunkEntry}
use xetcas.Errors.{AppError, bad_request}

-- What the code uses of `MerkleHash` and of the hashes over chunks.
pub record Hashing : Type 1 where
  pub MerkleHash : Type 0
  pub from_slice : Bytes → Option MerkleHash
  pub as_bytes : MerkleHash → Bytes
  pub hex : MerkleHash → Bytes
  pub file_hash : List (MerkleHash × ℕ) → MerkleHash
  pub range_hash_from_chunks : List MerkleHash → MerkleHash

-- The messages.
pub data Reason : Type 0 where
  verification_length : Reason
  unknown_xorb : Bytes → Reason
  chunk_range_outside : Reason
  bad_meta : PlanError → Reason
  wrong_length : Reason
  chunk_hash_missing : ℕ → Reason
  bad_chunk_hash : ℕ → Reason
  verification_mismatch : ℕ → Reason
  file_hash_mismatch : Reason
  invalid_record : Failure → Reason

-- A file as it appears in an uploaded shard.
pub record ShardFile : Type 0 where
  pub file_hash : Bytes
  pub sha256 : Bytes
  pub terms : List FileTermRecord
  pub verification : Bytes

pub record ShardData : Type 0 where
  pub files : List ShardFile
  pub flagged_chunks : List ChunkEntry

abbrev pub Xorbs : Type 0
Xorbs = List (Bytes × XorbRecord)

abbrev pub Reply : Type 0 → Type 0
Reply A = Result (AppError Reason) A

module _ (h : Hashing) where
  unfoldable pub chunk_hash_at : XorbRecord → ℕ → Result Reason h.MerkleHash
  chunk_hash_at record' index = do
    fail_if (ltb (length record'.chunk_hashes) (index * hash_bytes + hash_bytes))
        (chunk_hash_missing index)
    ok_or (h.from_slice (take hash_bytes (drop (index * hash_bytes) record'.chunk_hashes)))
        (bad_chunk_hash index)

  -- `for index in start..end`: the chunks are added to the list.
  unfoldable pub push_chunks :
      XorbRecord → XorbMeta → ℕ → ℕ → List (h.MerkleHash × ℕ) → Reply (List (h.MerkleHash × ℕ))
  push_chunks record' meta index zero chunks = ok chunks
  push_chunks record' meta index (suc rounds) chunks = do
    hash ← map_err bad_request (chunk_hash_at record' index)
    len ← map_err (λ e. bad_request (bad_meta e)) (chunk_len meta index)
    push_chunks record' meta (index + 1) rounds (chunks ++ (hash, len) ∷ [])

  abbrev pub hashes_of : List (h.MerkleHash × ℕ) → List h.MerkleHash
  hashes_of [] = []
  hashes_of ((hash, len) ∷ cs) = hash ∷ hashes_of cs

  unfoldable pub check_range_hash : List (h.MerkleHash × ℕ) → Bytes → ℕ → Reply (Unit {0})
  check_range_hash term_chunks verification index =
      fail_if
        (not (
          bytes_eq (h.as_bytes (h.range_hash_from_chunks (hashes_of term_chunks)))
            (take hash_bytes (drop (index * hash_bytes) verification))))
        (bad_request (verification_mismatch index))

  -- One round of the loop over a file's terms: the file's length and its chunks so far.
  unfoldable pub check_term :
      Xorbs
      → Bytes
      → ℕ
      → FileTermRecord
      → ℕ × List (h.MerkleHash × ℕ)
      → Reply (ℕ × List (h.MerkleHash × ℕ))
  check_term xorbs verification i term so_far = do
    record' ← ok_or (lookup term.xorb_hash xorbs) (bad_request (unknown_xorb term.xorb_hash))
    let meta = from_record record'
    fail_if
        (leb term.chunk_index_end term.chunk_index_start
          || ltb (num_chunks meta) term.chunk_index_end)
        (bad_request chunk_range_outside)
    expected ←
        map_err (λ e. bad_request (bad_meta e))
          (unpacked_len meta term.chunk_index_start term.chunk_index_end)
    fail_if (not (expected == term.unpacked_segment_bytes)) (bad_request wrong_length)
    chunks ←
        push_chunks record' meta term.chunk_index_start
          (term.chunk_index_end - term.chunk_index_start) so_far.1
    if is_empty verification
        then ok tt
        else check_range_hash (drop (length so_far.1) chunks) verification i
    ok (add_u64 so_far.0 term.unpacked_segment_bytes, chunks)

  unfoldable pub check_terms :
      Xorbs
      → Bytes
      → ℕ
      → List FileTermRecord
      → ℕ × List (h.MerkleHash × ℕ)
      → Reply (ℕ × List (h.MerkleHash × ℕ))
  check_terms xorbs verification i [] so_far = ok so_far
  check_terms xorbs verification i (term ∷ terms) so_far =
      check_term xorbs verification i term so_far >>= check_terms xorbs verification (i + 1) terms

  -- The entry for the first chunk of a file, if it has one.
  unfoldable pub first_chunk : Xorbs → List FileTermRecord → List ChunkEntry
  first_chunk xorbs [] = []
  first_chunk xorbs (first ∷ terms) = elim (lookup first.xorb_hash xorbs) [
    | none ↦ []
    | some record' ↦ elim (chunk_hash_at record' first.chunk_index_start) [
      | err e ↦ []
      | ok hash ↦
          record {
            chunk_hash = h.hex hash;
            xorb_hash = first.xorb_hash;
            chunk_index = first.chunk_index_start;
          }
          ∷ []
    ]
  ]

  abbrev pub record_of : ℕ → ShardFile → ℕ → FileRecord
  record_of now file file_length = record {
    file_hash = file.file_hash;
    file_length = file_length;
    sha256 = file.sha256;
    terms = file.terms;
    verification_range_hashes = file.verification;
    created_at = now;
  }

  -- One round of the loop over the files; `now` is the clock.
  unfoldable pub check_file : Xorbs → ℕ → ShardFile → Reply FileRecord
  check_file xorbs now file = do
    fail_if
        (not (is_empty file.verification)
          && not (length file.verification == length file.terms * hash_bytes))
        (bad_request verification_length)
    checked ← check_terms xorbs file.verification 0 file.terms (0, [])
    fail_if (not (bytes_eq (h.hex (h.file_hash checked.1)) file.file_hash))
        (bad_request file_hash_mismatch)
    map_err (λ e. bad_request (invalid_record e))
        (validate_file_record (record_of now file checked.0))
    ok (record_of now file checked.0)

  unfoldable pub validated_chunk_mappings : List ChunkEntry → Xorbs → List ChunkEntry
  validated_chunk_mappings [] xorbs = []
  validated_chunk_mappings (c ∷ flagged) xorbs =
      let kept = validated_chunk_mappings flagged xorbs in
      elim (lookup c.xorb_hash xorbs) [
        | none ↦ kept
        | some record' ↦ elim (chunk_hash_at record' c.chunk_index) [
          | err e ↦ kept
          | ok actual ↦ if bytes_eq (h.hex actual) c.chunk_hash then c ∷ kept else kept
        ]
      ]

  unfoldable pub check_files :
      Xorbs
      → ℕ
      → List ShardFile
      → List FileRecord × List ChunkEntry
      → Reply (List FileRecord × List ChunkEntry)
  check_files xorbs now [] done = ok done
  check_files xorbs now (file ∷ files) done = check_file xorbs now file >>= λ record'.
      check_files xorbs now files (done.0 ++ record' ∷ [], done.1 ++ first_chunk xorbs file.terms)

  unfoldable pub build_records : ShardData → Xorbs → ℕ → Reply (List FileRecord × List ChunkEntry)
  build_records data' xorbs now =
      check_files xorbs now data'.files ([], validated_chunk_mappings data'.flagged_chunks xorbs)
