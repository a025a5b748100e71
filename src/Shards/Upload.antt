-- ===== src/Shards/Upload.antt =====
-- The handler of crates/xetcasd/src/routes/shards.rs. A parsed shard is a record of what the code reads of
-- the views of the crate xet_core_structures, whose parser is a parameter.
pub mod Verified
pub mod Registered
pub mod Found
pub mod Handler
use xetcas.Prelude.{
  ℕ, zero, suc, ◌+◌, Bool, true, false, not, Option, none, some, List, [], ◌∷◌, ◌++◌, Bytes,
  bytes_eq, Result, ok, err, ◌>>=◌, ◌>>◌, ok_or, fail_if, map_err, ◌==◌, if◌then◌else◌,
}
use xetcas.Prelude.Words.{as_u32}
use xetcas.Contracts.Storage.{FileTermRecord, FileRecord}
use xetcas.Contracts.Transfer.{UploadShardResponse}
use xetcas.Contracts.Validate.Fields.{Failure, is_empty}
use xetcas.Contracts.Validate.Transfer.{validate_upload_shard_response}
use xetcas.Errors.{AppError, not_found, range_not_satisfiable, bad_request, unauthorized, internal}
use xetcas.Filestream.{Decoding, content_sha256}
use xetcas.Headers.{Header}
use xetcas.Index.{Codec, IndexError, ChunkEntry, Tables, get_xorbs, get_file, put_files}
use xetcas.Route.{hashes_of}
use xetcas.Shards.{Hashing, ShardFile, ShardData, build_records}
use xetcas.State.{Config, authorize}
use xetcas.Xorbs.{Store}

module _ (MerkleHash : Type 0) where
  pub record EntryView : Type 0 where
    pub xorb_hash : MerkleHash
    pub chunk_index_start : ℕ
    pub chunk_index_end : ℕ
    pub unpacked_segment_bytes : ℕ

  -- `verification` has the range hashes if the shard has them.
  pub record FileView : Type 0 where
    pub file_hash : MerkleHash
    pub entries : List EntryView
    pub verification : Option (List MerkleHash)
    pub sha256 : Option MerkleHash

  -- A chunk's hash, and whether it has the flag for global dedup.
  pub record XorbView : Type 0 where
    pub xorb_hash : MerkleHash
    pub chunks : List (MerkleHash × Bool)

  -- The views by number.
  pub record MinimalShard : Type 0 where
    pub num_files : ℕ
    pub file : ℕ → Option FileView
    pub num_xorb : ℕ
    pub xorb : ℕ → Option XorbView

-- The messages.
pub data Reason : Type 0 where
  invalid_message : Failure → Reason
  malformed_shard : Reason
  truncated_files : Reason
  truncated_xorbs : Reason
  empty_body : Reason
  index_failed : IndexError → Reason
  sha256_mismatch : Bytes → Bytes → Reason
  invalid_shard : xetcas.Shards.Reason → Reason
  unreadable : xetcas.Filestream.Reason → Reason

abbrev pub Reply : Type 0 → Type 0
Reply A = Result (AppError Reason) A

-- An error of a part of the handler.
unfoldable pub lift : {M : Type 0} → (M → Reason) → AppError M → AppError Reason
lift f not_found = not_found
lift f range_not_satisfiable = range_not_satisfiable
lift f (bad_request m) = bad_request (f m)
lift f unauthorized = unauthorized
lift f (internal m) = internal (f m)

module _ (h : Hashing) where
  unfoldable pub terms_of : List (EntryView h.MerkleHash) → List FileTermRecord
  terms_of [] = []
  terms_of (e ∷ es) =
      record {
        xorb_hash = h.hex e.xorb_hash;
        chunk_index_start = e.chunk_index_start;
        chunk_index_end = e.chunk_index_end;
        unpacked_segment_bytes = e.unpacked_segment_bytes;
      }
      ∷ terms_of es

  unfoldable pub verification_bytes : List h.MerkleHash → Bytes
  verification_bytes [] = []
  verification_bytes (m ∷ ms) = h.as_bytes m ++ verification_bytes ms

  unfoldable pub shard_file : FileView h.MerkleHash → ShardFile
  shard_file view = record {
    file_hash = h.hex view.file_hash;
    sha256 = elim view.sha256 [ none ↦ [] | some m ↦ h.hex m ];
    terms = terms_of view.entries;
    verification = elim view.verification [ none ↦ [] | some ms ↦ verification_bytes ms ];
  }

  -- `for i in 0..num_files`, from a number on.
  unfoldable pub shard_files : (ℕ → Option (FileView h.MerkleHash)) → ℕ → ℕ → Reply (List ShardFile)
  shard_files view_of i zero = ok []
  shard_files view_of i (suc rounds) = do
    view ← ok_or (view_of i) (bad_request truncated_files)
    rest ← shard_files view_of (i + 1) rounds
    ok (shard_file view ∷ rest)

  unfoldable pub flagged_from : Bytes → ℕ → List (h.MerkleHash × Bool) → List ChunkEntry
  flagged_from xorb_hash c [] = []
  flagged_from xorb_hash c ((chunk_hash, flag) ∷ chunks) =
      let rest = flagged_from xorb_hash (c + 1) chunks in
      if flag
      then record { chunk_hash = h.hex chunk_hash; xorb_hash = xorb_hash; chunk_index = as_u32 c }
        ∷ rest
      else rest

  -- `for i in 0..num_xorb`, from a number on.
  unfoldable pub flagged_chunks_of :
      (ℕ → Option (XorbView h.MerkleHash)) → ℕ → ℕ → Reply (List ChunkEntry)
  flagged_chunks_of view_of i zero = ok []
  flagged_chunks_of view_of i (suc rounds) = do
    view ← ok_or (view_of i) (bad_request truncated_xorbs)
    rest ← flagged_chunks_of view_of (i + 1) rounds
    ok (flagged_from (h.hex view.xorb_hash) 0 view.chunks ++ rest)

  unfoldable pub decode_shard :
      (Bytes → Option (MinimalShard h.MerkleHash)) → Bytes → Reply ShardData
  decode_shard from_reader body = do
    shard ← ok_or (from_reader body) (bad_request malformed_shard)
    files ← shard_files shard.file 0 shard.num_files
    flagged_chunks ← flagged_chunks_of shard.xorb 0 shard.num_xorb
    ok (record { files = files; flagged_chunks = flagged_chunks })

unfoldable pub file_xorbs : List ShardFile → List Bytes
file_xorbs [] = []
file_xorbs (file ∷ files) = hashes_of file.terms ++ file_xorbs files

unfoldable pub chunk_xorbs : List ChunkEntry → List Bytes
chunk_xorbs [] = []
chunk_xorbs (c ∷ cs) = c.xorb_hash ∷ chunk_xorbs cs

-- Whether the index has the file with this claim.
unfoldable pub known_with : FileRecord → Option FileRecord → Bool
known_with file none = false
known_with file (some f) = bytes_eq f.sha256 file.sha256

module _ (codec : Codec) (decoding : Decoding) (s : Store) where
  -- The comparison of the content's hash with the claimed one.
  unfoldable pub check_content : FileRecord → Reply (Unit {0})
  check_content file = do
    computed ← map_err (lift unreadable) (content_sha256 decoding codec file s)
    fail_if (not (bytes_eq computed file.sha256))
        (bad_request (sha256_mismatch file.file_hash computed))

  -- One round of the loop of `verify_sha256`.
  unfoldable pub verify_file : FileRecord → Reply (Unit {0})
  verify_file file =
      if is_empty file.sha256
      then ok tt
      else (map_err (λ e. internal (index_failed e)) (get_file codec file.file_hash s.index)
          >>= λ known. if known_with file known then ok tt else check_content file)

  unfoldable pub verify_sha256 : List FileRecord → Reply (Unit {0})
  verify_sha256 [] = ok tt
  verify_sha256 (file ∷ files) = verify_file file >> verify_sha256 files

  -- The handler up to `put_files`; `now` is the clock.
  unfoldable pub accept :
      (h : Hashing)
      → (Bytes → Option (MinimalShard h.MerkleHash))
      → Config
      → ℕ
      → Header
      → Bytes
      → Reply (List FileRecord × List ChunkEntry)
  accept h from_reader config now authorization body = do
    authorize config authorization
    fail_if (is_empty body) (bad_request empty_body)
    shard ← decode_shard h from_reader body
    xorbs ←
        map_err (λ e. internal (index_failed e))
          (get_xorbs codec (file_xorbs shard.files ++ chunk_xorbs shard.flagged_chunks) s.index)
    built ← map_err (lift invalid_shard) (build_records h shard xorbs now)
    verify_sha256 built.0
    ok built

-- The answer to `put_files`, which is 0 if there was no new file.
unfoldable pub shard_result : ℕ → Reply UploadShardResponse
shard_result new_files = do
  let response : UploadShardResponse = record { result = if new_files == 0 then 0 else 1 }
  map_err (λ e. internal (invalid_message e)) (validate_upload_shard_response response)
  ok response

unfoldable pub upload :
    (codec : Codec)
    → Decoding
    → (h : Hashing) → (Bytes → Option (MinimalShard h.MerkleHash))
    → Config
    → ℕ
    → Header
    → Bytes
    → Store
    → Reply UploadShardResponse × Tables
upload codec decoding h from_reader config now authorization body s =
    elim (accept codec decoding s h from_reader config now authorization body) [
      | err e ↦ (err e, s.index)
      | ok (files, chunks) ↦
          let put = put_files codec files chunks s.index in (shard_result put.0, put.1)
    ]
