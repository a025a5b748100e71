-- ===== src/Xorbs.antt =====
-- crates/xetcasd/src/routes/xorbs.rs: the upload of a xorb and the route that serves its bytes, with the
-- objects of crates/xetcasd/src/xorbstore.rs as an association list from a hash to the file's bytes (the
-- path of an object ends in its hash). Parsing and hashing come from the crate xet_core_structures, a
-- parameter. A failed read of the body and a closed semaphore are left out.
pub mod Frames
pub mod Uploads
pub mod Admitted
pub mod Late
pub mod Overwritten
pub mod Handler
pub mod Stored
pub mod Data
mod Tests
use xetcas.Prelude.{
  ℕ, zero, suc, ◌+◌, ◌-◌, ◌*◌, Bool, true, false, not, Option, none, some, List, [], ◌∷◌, ◌++◌,
  Bytes, lookup, insert, length, take, drop, get_elem?, last?, Result, ok, err, ◌>>=◌, ◌>>◌, ok_or,
  fail_if, map_err, ltb, leb, ◌==◌, if◌then◌else◌, codes,
}
use xetcas.Prelude.Words.{sub_u64}
use xetcas.Contracts.Constants.{max_chunks_per_xorb, max_xorb_unpacked_bytes}
use xetcas.Contracts.Storage.{XorbRecord}
use xetcas.Contracts.Transfer.{UploadXorbResponse}
use xetcas.Contracts.Validate.Fields.{Failure, is_empty}
use xetcas.Contracts.Validate.Storage.{validate_xorb_record}
use xetcas.Contracts.Validate.Transfer.{validate_upload_xorb_key}
use xetcas.Decimal.{to_string}
use xetcas.Errors.{AppError, not_found, range_not_satisfiable, bad_request, internal}
use xetcas.Headers.{Header, absent, unreadable, value}
use xetcas.HttpRange.{RangeSpec, parse_range_header, resolve}
use xetcas.Index.{Codec, IndexError, Tables, get_xorb, put_xorb}
use xetcas.Shards.{Hashing, chunk_hash_at}
use xetcas.State.{Config, authorize}

-- `info` of the object that the crate parses.
pub record XorbInfo (MerkleHash : Type 0) : Type 0 where
  pub num_chunks : ℕ
  pub chunk_boundary_offsets : List ℕ
  pub unpacked_chunk_offsets : List ℕ
  pub chunk_hashes : List MerkleHash

-- What `reconstruct_xorb_with_footer` returns, with the bytes that it writes.
pub record Reconstructed (MerkleHash : Type 0) : Type 0 where
  pub stored : Bytes
  pub info : XorbInfo MerkleHash
  pub computed : MerkleHash

-- What the code uses of the crate's xorb format.
pub record Format (MerkleHash : Type 0) : Type 0 where
  pub xorb_chunk_header_length : ℕ
  pub from_hex : Bytes → Option MerkleHash
  pub same : MerkleHash → MerkleHash → Bool
  pub reconstruct_xorb_with_footer : Bytes → Option (Reconstructed MerkleHash)
  pub hash_is_global_dedup_eligible : MerkleHash → Bool

-- The messages.
pub data Reason : Type 0 where
  invalid_message : Failure → Reason
  bad_hash : Reason
  body_too_long : Reason
  empty_body : Reason
  verify_task : Reason
  too_many_frames : Reason
  malformed_xorb : Reason
  wrong_hash : Reason
  no_chunks : Reason
  too_many_chunks : Reason
  too_many_bytes : Reason
  bad_chunk : xetcas.Shards.Reason → Reason
  index_failed : IndexError → Reason
  malformed_range : Reason

abbrev pub Reply : Type 0 → Type 0
Reply A = Result (AppError Reason) A

abbrev pub max_upload_bytes : ℕ
max_upload_bytes = 68 * 1024 * 1024

-- `u32::from_le_bytes` of three bytes after the first one at the offset; past the end the code panics.
unfoldable pub compressed_len : Bytes → ℕ → Option ℕ
compressed_len body offset = elim (get_elem? body (offset + 1)) [
  | none ↦ none
  | some a ↦ elim (get_elem? body (offset + 2)) [
    | none ↦ none
    | some b ↦ elim (get_elem? body (offset + 3)) [
      | none ↦ none
      | some c ↦ some (a + b * 256 + c * 65536)
    ]
  ]
]

-- The loop, with the number of frames that are still within the limit; `none` is a panic.
unfoldable pub frames_exceed : ℕ → Bytes → ℕ → ℕ → Option Bool
frames_exceed header_length body offset zero = elim (leb (offset + header_length) (length body)) [
  | false ↦ some false
  | true ↦ elim (compressed_len body offset) [ none ↦ none | some len ↦ some true ]
]
frames_exceed header_length body offset (suc left) =
    elim (leb (offset + header_length) (length body)) [
      | false ↦ some false
      | true ↦ elim (compressed_len body offset) [
        | none ↦ none
        | some len ↦ frames_exceed header_length body (offset + header_length + len) left
      ]
    ]

unfoldable pub chunk_frame_count_exceeds_limit : ℕ → Bytes → Option Bool
chunk_frame_count_exceeds_limit header_length body =
    frames_exceed header_length body 0 max_chunks_per_xorb

-- `*offsets.last().unwrap_or(&0)`
abbrev last_or_zero : List ℕ → ℕ
last_or_zero offsets = elim (last? offsets) [ none ↦ 0 | some n ↦ n ]

-- A verified upload: the bytes to store, the record, and the chunks for global dedup.
pub record Verified : Type 0 where
  pub stored : Bytes
  pub xorb : XorbRecord
  pub dedup_chunks : List (Bytes × ℕ)

-- The objects on disk and the index.
pub record Store : Type 0 where
  pub objects : List (Bytes × Bytes)
  pub index : Tables

abbrev pub write_atomic : Bytes → Bytes → List (Bytes × Bytes) → List (Bytes × Bytes)
write_atomic hash stored objects = insert hash stored objects

module _ (h : Hashing) (format : Format h.MerkleHash) where
  unfoldable pub concat_hashes : List h.MerkleHash → Bytes
  concat_hashes [] = []
  concat_hashes (m ∷ ms) = h.as_bytes m ++ concat_hashes ms

  abbrev pub record_of : ℕ → XorbInfo h.MerkleHash → h.MerkleHash → XorbRecord
  record_of now info computed = record {
    xorb_hash = h.hex computed;
    num_chunks = info.num_chunks;
    frames_length = last_or_zero info.chunk_boundary_offsets;
    unpacked_length = last_or_zero info.unpacked_chunk_offsets;
    chunk_boundary_offsets = info.chunk_boundary_offsets;
    unpacked_chunk_offsets = info.unpacked_chunk_offsets;
    chunk_hashes = concat_hashes info.chunk_hashes;
    created_at = now;
  }

  -- A panic ends the task that verifies; `now` is the clock.
  unfoldable pub verify_xorb : ℕ → Bytes → h.MerkleHash → Reply (Bytes × XorbRecord)
  verify_xorb now body expected = do
    exceeds ←
        ok_or (chunk_frame_count_exceeds_limit format.xorb_chunk_header_length body)
          (internal verify_task)
    fail_if exceeds (bad_request too_many_frames)
    parsed ← ok_or (format.reconstruct_xorb_with_footer body) (bad_request malformed_xorb)
    fail_if (not (format.same parsed.computed expected)) (bad_request wrong_hash)
    fail_if (parsed.info.num_chunks == 0) (bad_request no_chunks)
    fail_if (ltb max_chunks_per_xorb parsed.info.num_chunks) (bad_request too_many_chunks)
    fail_if (ltb max_xorb_unpacked_bytes (last_or_zero parsed.info.unpacked_chunk_offsets))
        (bad_request too_many_bytes)
    ok (parsed.stored, record_of now parsed.info parsed.computed)

  -- `for index in 0..num_chunks`, from an index on.
  unfoldable pub eligible_from : XorbRecord → ℕ → ℕ → Reply (List (Bytes × ℕ))
  eligible_from r index zero = ok []
  eligible_from r index (suc rounds) = do
    hash ← map_err (λ e. bad_request (bad_chunk e)) (chunk_hash_at h r index)
    rest ← eligible_from r (index + 1) rounds
    ok (if format.hash_is_global_dedup_eligible hash then (h.hex hash, index) ∷ rest else rest)

  unfoldable pub eligible_chunks : XorbRecord → Reply (List (Bytes × ℕ))
  eligible_chunks r = eligible_from r 0 r.num_chunks

  -- `upload` up to the lock.
  unfoldable pub admit : Config → ℕ → Header → Bytes → Bytes → Bytes → Reply Verified
  admit config now authorization prefix hash body = do
    authorize config authorization
    map_err (λ e. bad_request (invalid_message e))
        (validate_upload_xorb_key (record { prefix = prefix; hash = hash }))
    expected ← ok_or (format.from_hex hash) (bad_request bad_hash)
    fail_if (ltb max_upload_bytes (length body)) (bad_request body_too_long)
    fail_if (is_empty body) (bad_request empty_body)
    verified ← verify_xorb now body expected
    map_err (λ e. bad_request (invalid_message e)) (validate_xorb_record verified.1)
    dedup_chunks ← eligible_chunks verified.1
    ok (record { stored = verified.0; xorb = verified.1; dedup_chunks = dedup_chunks })

module _ (codec : Codec) where
  -- `put_xorb` with the verified record.
  unfoldable pub index_xorb : Verified → Tables → Bool × Tables
  index_xorb v t = put_xorb codec v.xorb v.dedup_chunks (length v.stored) t

  -- What `upload` does under the lock.
  unfoldable pub commit : Bytes → Verified → Store → Reply UploadXorbResponse × Store
  commit hash v s = elim (get_xorb codec hash s.index) [
    | err e ↦ (err (internal (index_failed e)), s)
    | ok (some r) ↦ (ok (record { was_inserted = false }), s)
    | ok none ↦ (
      ok (record { was_inserted = (index_xorb v s.index).0 }),
      record { objects = write_atomic hash v.stored s.objects; index = (index_xorb v s.index).1 },
    )
  ]

  unfoldable pub upload :
      (h : Hashing)
      → Format h.MerkleHash
      → Config
      → ℕ
      → Header
      → Bytes
      → Bytes
      → Bytes
      → Store
      → Reply UploadXorbResponse × Store
  upload h format config now authorization prefix hash body s =
      elim (admit h format config now authorization prefix hash body) [
        | err e ↦ (err e, s)
        | ok v ↦ commit hash v s
      ]
