-- ===== src/Route/Response.antt =====
-- What the handler of crates/xetcasd/src/routes/reconstructions.rs answers with.
use xetcas.Prelude.{
  ℕ, ◌≤◌, ◌≡◌, refl, ap, ◌∙◌, subst, inl, inr, Bool-cases, Option, none, some, List, [], ◌∷◌, Bytes,
  bytes_eq, Result, ok, ok_or, map_err, All, Any, here, there, if◌then◌else◌, bind-ok, ok-inj,
  ok_or-some, map_err-ok,
}
use xetcas.Contracts.Transfer.{
  IndexRange, CasReconstructionTerm, CasReconstructionFetchInfo, FetchInfoList,
  QueryReconstructionResponse,
}
use xetcas.Contracts.Storage.{FileRecord}
use xetcas.Contracts.Validate.Transfer.{
  validate_query_reconstruction_request, validate_query_reconstruction_response,
}
use xetcas.Contracts.Validate.TransferLaws.{IsResponse, IsResponse-accepts}
use xetcas.Errors.{AppError, not_found, range_not_satisfiable, bad_request, internal}
use xetcas.Headers.{Header}
use xetcas.HttpRange.{RangeSpec}
use xetcas.Index.{Codec, Tables, get_file, get_xorbs}
use xetcas.Reconstruction.Plan.{Term, FetchRange, Ranges, Plan, Metas, plan_reconstruction}
use xetcas.Reconstruction.Fetch.{ranges_of, fetch-Spanned}
use xetcas.Reconstruction.Fetch.Merge.{Spans}
use xetcas.Shards.Served.{metas_of}
use xetcas.State.{public_base}
use xetcas.Route.{
  Reason, invalid_message, index_failed, not_planned, read_range, resolve_range, hashes_of,
  response_term, response_terms, fetch_entry, fetch_entries, fetch_info, response_of, plan_file,
  respond, get,
}

-- The entries for a hash.
abbrev pub entries_of : Bytes → List (Bytes × FetchInfoList) → List CasReconstructionFetchInfo
entries_of hash [] = []
entries_of hash ((key, l) ∷ m) = if bytes_eq key hash then l.entries else entries_of hash m

-- The first range lies in the second, and both are there.
abbrev pub Within : Option IndexRange → Option IndexRange → Type 0
Within (some a) (some b) = (b.start ≤ a.start) × (a.end ≤ b.end)
Within (some a) none = ⊥
Within none b = ⊥

-- Some fetch entry for the term's xorb has all chunks of the term.
abbrev pub Offered : QueryReconstructionResponse → CasReconstructionTerm → Type 0
Offered r term = Any (λ e. Within term.range e.range) (entries_of term.hash r.fetch_info)

entries-Within :
    (base xorb : Bytes) (a : IndexRange) (rs : List FetchRange)
    → Any (Spans a.start a.end) rs
    → Any (λ e. Within (some a) e.range) (fetch_entries base xorb rs)
unfolding fetch_entries fetch_entry
entries-Within base xorb a (r ∷ rs) (here p) = here p
entries-Within base xorb a (r ∷ rs) (there p) = there (entries-Within base xorb a rs p)
entries-Within base xorb a [] p = elim p [ ]

fetch_info-Within :
    (base hash : Bytes) (a : IndexRange) (m : Ranges)
    → Any (Spans a.start a.end) (ranges_of hash m)
    → Any (λ e. Within (some a) e.range) (entries_of hash (fetch_info base m))
unfolding fetch_info
fetch_info-Within base hash a [] p = elim p [ ]
fetch_info-Within base hash a ((key, rs) ∷ m) p = elim (Bool-cases (bytes_eq key hash)) [
  | inl e ↦ rw e (entries-Within base key a rs (rw e at p))
  | inr e ↦ rw e (fetch_info-Within base hash a m (rw e at p))
]

terms-Offered :
    (base : Bytes) (plan : Plan) (ts : List Term)
    → All (λ t. Any (Spans t.chunk_start t.chunk_end) (ranges_of t.xorb plan.fetch)) ts
    → All (Offered (response_of base plan)) (response_terms ts)
unfolding response_of response_terms response_term
terms-Offered base plan [] h = tt
terms-Offered base plan (t ∷ ts) h = (
  fetch_info-Within base t.xorb (record { start = t.chunk_start; end = t.chunk_end }) plan.fetch
      h.0,
  terms-Offered base plan ts h.1,
)

response_of-Offered :
    (base : Bytes) (plan : Plan)
    → All (λ t. Any (Spans t.chunk_start t.chunk_end) (ranges_of t.xorb plan.fetch)) plan.terms
    → All (Offered (response_of base plan)) (response_of base plan).terms
unfolding response_of
response_of-Offered base plan h = terms-Offered base plan plan.terms h

module _ (codec : Codec) (public_url : Bytes) (t : Tables) where
  respond-sent :
      (plan : Plan) (r : QueryReconstructionResponse)
      → respond codec public_url t plan ≡ ok r
      → IsResponse r × (response_of (public_base public_url) plan ≡ r)
  unfolding respond
  respond-sent plan r h =
      let answer = response_of (public_base public_url) plan in
      let send : Unit {0} → Result (AppError Reason) QueryReconstructionResponse = λ _. ok answer in
      let (_, e1, h1) =
        bind-ok
          (map_err (λ e. internal (invalid_message e))
            (validate_query_reconstruction_response answer))
          send r h in
      let same = ok-inj (send tt) refl h1 in
      (subst IsResponse same ((IsResponse-accepts answer).0 (map_err-ok _ _ tt e1)), same)

  -- A plan is that of the planner, for some range and records.
  plan_file-planned :
      (file : FileRecord) (spec : Option RangeSpec) (plan : Plan)
      → plan_file codec public_url t file spec ≡ ok plan
      → (range : Option (ℕ × ℕ)) × (metas : Metas) × (plan_reconstruction file range metas
          ≡ ok (some plan))
  unfolding plan_file
  plan_file-planned file spec plan h =
      let (range, _, h1) = bind-ok (resolve_range spec file.file_length) _ plan h in
      let (records, _, h2) =
        bind-ok
          (map_err (λ e. internal (index_failed e)) (get_xorbs codec (hashes_of file.terms) t)) _
          plan h1 in
      let (found, e3, h3) =
        bind-ok
          (map_err (λ e. internal (not_planned e))
            (plan_reconstruction file range (metas_of records)))
          _ plan h2 in
      (
        range,
        metas_of records,
        map_err-ok _ _ found e3 ∙ ap ok (ok_or-some found range_not_satisfiable plan h3),
      )

-- Every response that the handler sends satisfies the contract, and for each of its terms some fetch
-- entry for the term's xorb has all chunks of the term.
pub get-IsResponse :
    (codec : Codec) (public_url : Bytes) (t : Tables) (file_id : Bytes) (header : Header)
    (r : QueryReconstructionResponse)
    → get codec public_url t file_id header ≡ ok r
    → IsResponse r × All (Offered r) r.terms
unfolding get
get-IsResponse codec public_url t file_id header r h =
    let (_, _, h1) =
      bind-ok
        (map_err (λ e. bad_request (invalid_message e))
          (validate_query_reconstruction_request (record { file_id = file_id; range = none })))
        _ r h in
    let (spec, _, h2) = bind-ok (read_range header) _ r h1 in
    let (found, _, h3) =
      bind-ok (map_err (λ e. internal (index_failed e)) (get_file codec file_id t)) _ r h2 in
    let (file, _, h4) = bind-ok (ok_or found not_found) _ r h3 in
    let (plan, e5, h5) =
      bind-ok (plan_file codec public_url t file spec) (respond codec public_url t) r h4 in
    let (range, metas, planned) = plan_file-planned codec public_url t file spec plan e5 in
    let (valid, same) = respond-sent codec public_url t plan r h5 in
    (
      valid,
      subst (λ q. All (Offered q) q.terms) same
          (response_of-Offered (public_base public_url) plan
            (fetch-Spanned metas file range plan planned)),
    )
