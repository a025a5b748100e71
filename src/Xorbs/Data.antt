-- ===== src/Xorbs/Data.antt =====
-- The data route of crates/xetcasd/src/routes/xorbs.rs: the bytes of an object that a reconstruction names.
pub mod Ranges
use xetcas.Prelude.{
  ℕ, zero, suc, ◌+◌, ◌-◌, ◌*◌, Bool, true, false, not, Option, none, some, List, [], ◌∷◌, ◌++◌,
  Bytes, lookup, insert, length, take, drop, get_elem?, last?, Result, ok, err, ◌>>=◌, ◌>>◌, ok_or,
  fail_if, map_err, ltb, leb, ◌==◌, if◌then◌else◌, codes,
}
use xetcas.Prelude.Words.{sub_u64}
use xetcas.Contracts.Constants.{max_chunks_per_xorb, max_xorb_unpacked_bytes}
use xetcas.Contracts.Storage.{XorbRecord}
use xetcas.Contracts.Transfer.{UploadXorbResponse}
use xetcas.Contracts.Validate.Fields.{Failure, is_empty}
use xetcas.Contracts.Validate.Storage.{validate_xorb_record}
use xetcas.Contracts.Validate.Transfer.{validate_upload_xorb_key}
use xetcas.Decimal.{to_string}
use xetcas.Errors.{AppError, not_found, range_not_satisfiable, bad_request, internal}
use xetcas.Headers.{Header, absent, unreadable, value}
use xetcas.HttpRange.{RangeSpec, parse_range_header, resolve}
use xetcas.Index.{Codec, IndexError, Tables, get_xorb, put_xorb}
use xetcas.Shards.{Hashing, chunk_hash_at}
use xetcas.State.{Config, authorize}
use xetcas.Xorbs.{Reply, Store, index_failed, malformed_range}

-- The part of an object that the data route sends.
pub record Served : Type 0 where
  pub status : ℕ
  pub content_length : ℕ
  pub content_range : Option Bytes
  pub body : Bytes

-- `(start, end, status)`
unfoldable pub requested : Header → ℕ → Reply (ℕ × ℕ × ℕ)
requested absent frames_length = ok (0, frames_length, 200)
requested unreadable frames_length = err (bad_request malformed_range)
requested (value s) frames_length = elim (parse_range_header s) [
  | none ↦ err (bad_request malformed_range)
  | some spec ↦ elim (resolve spec frames_length) [
    | none ↦ err range_not_satisfiable
    | some (start, end) ↦ ok (start, end, 206)
  ]
]

-- `bytes {start}-{end - 1}/{total}`
unfoldable pub content_range : ℕ → ℕ → ℕ → Bytes
content_range start end total =
    codes "bytes "
    ++ (to_string start ++ (b'-' ∷ (to_string (end - 1) ++ (b'/' ∷ to_string total))))

unfoldable pub served : ℕ → (ℕ × ℕ × ℕ) → Bytes → Served
served frames_length (start, end, status) object = record {
  status = status;
  content_length = sub_u64 end start;
  content_range = if status == 206 then some (content_range start end frames_length) else none;
  body = take (sub_u64 end start) (drop start object);
}

-- The handler `data`.
unfoldable pub get_data : Codec → Bytes → Header → Store → Reply Served
get_data codec hash header s = do
  found ← map_err (λ e. internal (index_failed e)) (get_xorb codec hash s.index)
  r ← ok_or found not_found
  range ← requested header r.frames_length
  object ← ok_or (lookup hash s.objects) not_found
  ok (served r.frames_length range object)
