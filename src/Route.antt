-- ===== src/Route.antt =====
-- crates/xetcasd/src/routes/reconstructions.rs: the handler of `GET /v1/reconstructions/{file_id}`. The hashes of the terms go to the index as they come: their order and repetitions do not
-- change the map that comes back.
pub mod Response
mod Tests
use xetcas.Prelude.{
  ℕ, ◌-◌, Option, none, some, List, [], ◌∷◌, ◌++◌, Bytes, codes, Result, ok, err, ◌>>=◌, ◌>>◌,
  ok_or, map_err, ◌==◌, true, false, if◌then◌else◌,
}
use xetcas.Contracts.Constants.{prefix_default}
use xetcas.Contracts.Transfer.{
  IndexRange, ByteRange, QueryReconstructionRequest, CasReconstructionTerm,
  CasReconstructionFetchInfo, FetchInfoList, QueryReconstructionResponse,
}
use xetcas.Contracts.Storage.{FileTermRecord, FileRecord}
use xetcas.Contracts.Validate.Fields.{Failure}
use xetcas.Contracts.Validate.Transfer.{
  validate_query_reconstruction_request, validate_query_reconstruction_response,
}
use xetcas.Errors.{AppError, not_found, range_not_satisfiable, bad_request, internal}
use xetcas.Headers.{Header, absent, unreadable, value}
use xetcas.HttpRange.{RangeSpec, parse_range_header, resolve}
use xetcas.Index.{Codec, IndexError, Tables, get_file, get_xorbs}
use xetcas.Reconstruction.Meta.{PlanError}
use xetcas.Reconstruction.Plan.{Term, FetchRange, Ranges, Plan, plan_reconstruction}
use xetcas.Shards.Served.{metas_of}
use xetcas.State.{public_base}

-- The messages.
pub data Reason : Type 0 where
  invalid_message : Failure → Reason
  malformed_range : Reason
  index_failed : IndexError → Reason
  not_planned : PlanError → Reason

unfoldable pub read_range : Header → Result (AppError Reason) (Option RangeSpec)
read_range absent = ok none
read_range unreadable = err (bad_request malformed_range)
read_range (value s) = elim (parse_range_header s) [
  | none ↦ err (bad_request malformed_range)
  | some spec ↦ ok (some spec)
]

unfoldable pub resolve_range : Option RangeSpec → ℕ → Result (AppError Reason) (Option (ℕ × ℕ))
resolve_range none total = ok none
resolve_range (some spec) total = elim (resolve spec total) [
  | none ↦ err range_not_satisfiable
  | some range ↦ ok (some range)
]

unfoldable pub hashes_of : List FileTermRecord → List Bytes
hashes_of [] = []
hashes_of (t ∷ ts) = t.xorb_hash ∷ hashes_of ts

unfoldable pub response_term : Term → CasReconstructionTerm
response_term t = record {
  hash = t.xorb;
  range = some (record { start = t.chunk_start; end = t.chunk_end });
  unpacked_length = t.unpacked_length;
}

unfoldable pub response_terms : List Term → List CasReconstructionTerm
response_terms [] = []
response_terms (t ∷ ts) = response_term t ∷ response_terms ts

unfoldable pub fetch_url : Bytes → Bytes → Bytes
fetch_url base xorb =
    base ++ (codes "/v1/xorbs/" ++ (prefix_default ++ (codes "/" ++ (xorb ++ codes "/data"))))

-- The byte range on the wire includes its end; `saturating_sub(1)`.
unfoldable pub fetch_entry : Bytes → Bytes → FetchRange → CasReconstructionFetchInfo
fetch_entry base xorb r = record {
  range = some (record { start = r.chunk_start; end = r.chunk_end });
  url = fetch_url base xorb;
  url_range = some (record { start = r.byte_start; end = r.byte_end - 1 });
}

unfoldable pub fetch_entries : Bytes → Bytes → List FetchRange → List CasReconstructionFetchInfo
fetch_entries base xorb [] = []
fetch_entries base xorb (r ∷ rs) = fetch_entry base xorb r ∷ fetch_entries base xorb rs

unfoldable pub fetch_info : Bytes → Ranges → List (Bytes × FetchInfoList)
fetch_info base [] = []
fetch_info base ((xorb, ranges) ∷ m) =
    (xorb, record { entries = fetch_entries base xorb ranges }) ∷ fetch_info base m

unfoldable pub response_of : Bytes → Plan → QueryReconstructionResponse
response_of base plan = record {
  offset_into_first_range = plan.offset_into_first_range;
  terms = response_terms plan.terms;
  fetch_info = fetch_info base plan.fetch;
}

module _ (codec : Codec) (public_url : Bytes) (t : Tables) where
  -- From the parsed header on.
  unfoldable pub plan_file : FileRecord → Option RangeSpec → Result (AppError Reason) Plan
  plan_file file spec = do
    range ← resolve_range spec file.file_length
    records ← map_err (λ e. internal (index_failed e)) (get_xorbs codec (hashes_of file.terms) t)
    plan ←
        map_err (λ e. internal (not_planned e)) (plan_reconstruction file range (metas_of records))
    ok_or plan range_not_satisfiable

  unfoldable pub respond : Plan → Result (AppError Reason) QueryReconstructionResponse
  respond plan = do
    map_err (λ e. internal (invalid_message e))
        (validate_query_reconstruction_response (response_of (public_base public_url) plan))
    ok (response_of (public_base public_url) plan)

  unfoldable pub get : Bytes → Header → Result (AppError Reason) QueryReconstructionResponse
  get file_id header = do
    map_err (λ e. bad_request (invalid_message e))
        (validate_query_reconstruction_request (record { file_id = file_id; range = none }))
    spec ← read_range header
    found ← map_err (λ e. internal (index_failed e)) (get_file codec file_id t)
    file ← ok_or found not_found
    plan ← plan_file file spec
    respond plan
