-- ===== src/Filestream.antt =====
-- crates/xetcasd/src/filestream.rs: a file's bytes out of the stored xorbs. `deserialize_chunk` of the crate
-- xet_core_structures, on what is left to read, and the hex form of SHA-256 are parameters; the hash of
-- updates is that of their concatenation. A client that hangs up and the download permits are left out.
pub mod Lookup
pub mod Stable
use xetcas.Prelude.{
  ℕ, zero, suc, Bool, true, false, Option, none, some, List, [], ◌∷◌, ◌++◌, Bytes, lookup, drop,
  Result, ok, err, ◌>>=◌, ok_or, map_err, if◌then◌else◌,
}
use xetcas.Prelude.Words.{sub_u32}
use xetcas.Contracts.Storage.{XorbRecord, FileTermRecord, FileRecord}
use xetcas.Errors.{AppError, internal}
use xetcas.Index.{Codec, IndexError, get_xorbs}
use xetcas.Reconstruction.Meta.{PlanError, from_record, byte_offset}
use xetcas.Route.{hashes_of}
use xetcas.Xorbs.{Store}

-- What the code uses of the two crates.
pub record Decoding : Type 0 where
  pub deserialize_chunk : Bytes → Option (Bytes × Bytes)
  pub sha256_hex : Bytes → Bytes

-- The messages.
pub data Reason : Type 0 where
  index_failed : IndexError → Reason
  missing_xorb : Bytes → Reason
  bad_meta : PlanError → Reason
  hashing_failed : Reason

abbrev pub Reply : Type 0 → Type 0
Reply A = Result (AppError Reason) A

-- The path of the object is that of its hash.
pub record Segment : Type 0 where
  pub hash : Bytes
  pub byte_start : ℕ
  pub num_chunks : ℕ

unfoldable pub segment_of : List (Bytes × XorbRecord) → FileTermRecord → Reply Segment
segment_of records term = do
  r ← ok_or (lookup term.xorb_hash records) (internal (missing_xorb term.xorb_hash))
  span ←
      map_err (λ e. internal (bad_meta e))
        (byte_offset (from_record r) term.chunk_index_start term.chunk_index_end)
  ok (record {
    hash = term.xorb_hash;
    byte_start = span.0;
    num_chunks = sub_u32 term.chunk_index_end term.chunk_index_start;
  })

unfoldable pub segments_of : List (Bytes × XorbRecord) → List FileTermRecord → Reply (List Segment)
segments_of records [] = ok []
segments_of records (term ∷ terms) = do
  segment ← segment_of records term
  segments ← segments_of records terms
  ok (segment ∷ segments)

unfoldable pub plan_segments : Codec → FileRecord → Store → Reply (List Segment)
plan_segments codec file s = do
  records ←
      map_err (λ e. internal (index_failed e)) (get_xorbs codec (hashes_of file.terms) s.index)
  segments_of records file.terms

unfoldable pub concat : List Bytes → Bytes
concat [] = []
concat (chunk ∷ chunks) = chunk ++ concat chunks

module _ (decoding : Decoding) where
  -- The chunks that are handed on, and whether the reads end with an error.
  unfoldable pub decode_chunks : ℕ → Bytes → List Bytes × Bool
  decode_chunks zero reader = ([], false)
  decode_chunks (suc rounds) reader = elim (decoding.deserialize_chunk reader) [
    | none ↦ ([], true)
    | some (chunk, rest) ↦ (chunk ∷ (decode_chunks rounds rest).0, (decode_chunks rounds rest).1)
  ]

  unfoldable pub decode_segment : List (Bytes × Bytes) → Segment → List Bytes × Bool
  decode_segment objects segment = elim (lookup segment.hash objects) [
    | none ↦ ([], true)
    | some object ↦ decode_chunks segment.num_chunks (drop segment.byte_start object)
  ]

  unfoldable pub decode_segments : List (Bytes × Bytes) → List Segment → List Bytes × Bool
  decode_segments objects [] = ([], false)
  decode_segments objects (segment ∷ segments) =
      let first = decode_segment objects segment in
      let rest = decode_segments objects segments in
      if first.1 then first else (first.0 ++ rest.0, rest.1)

  -- The stream's chunks, and whether an error ends it.
  unfoldable pub stream_file : Codec → FileRecord → Store → Reply (List Bytes × Bool)
  stream_file codec file s =
      plan_segments codec file s >>= λ segments. ok (decode_segments s.objects segments)

  unfoldable pub content_sha256 : Codec → FileRecord → Store → Reply Bytes
  content_sha256 codec file s = stream_file codec file s >>= λ out.
      if out.1 then err (internal hashing_failed) else ok (decoding.sha256_hex (concat out.0))
