-- ===== src/Contracts/Validate/TransferLaws.antt =====
-- What the validators of transfer.proto accept (crates/xetcas-contracts/src/v1/validate.rs), against
-- predicates written from the comments of the messages.
use xetcas.Prelude.{◌≤◌, ◌≡◌, ◌≢◌, ◌↔◌, [], ok, All}
use xetcas.Contracts.Transfer.{
  IndexRange, ByteRange, QueryReconstructionRequest, CasReconstructionTerm,
  CasReconstructionFetchInfo, FetchInfoList, QueryReconstructionResponse, XorbRangeDescriptor,
  XorbMultiRangeFetch, XorbFetchList, QueryReconstructionResponseV2, ChunkDedupQuery, UploadXorbKey,
  UploadShardResponse,
}
use xetcas.Contracts.Validate.Transfer.{
  validate_index_range, validate_byte_range, validate_query_reconstruction_request,
  validate_cas_reconstruction_term, validate_cas_reconstruction_fetch_info,
  validate_fetch_info_list, validate_query_reconstruction_response, validate_xorb_range_descriptor,
  validate_xorb_multi_range_fetch, validate_xorb_fetch_list,
  validate_query_reconstruction_response_v2, validate_chunk_dedup_query, validate_upload_xorb_key,
  validate_upload_shard_response,
}
use xetcas.Contracts.Validate.Accepts.{
  Accepts, IsHashHex, Present, IfPresent, accepts-then, accepts-fail_if, accepts-ltb,
  accepts-Present, accepts-Present_then, accepts-IfPresent, accepts-each, accepts-IsHashHex,
  accepts-non_empty, accepts-IsHashHex_keys,
}

abbrev pub IsIndexRange : IndexRange → Type 0
IsIndexRange r = r.start ≤ r.end

abbrev pub IsByteRange : ByteRange → Type 0
IsByteRange r = r.start ≤ r.end

abbrev pub IsTerm : CasReconstructionTerm → Type 0
IsTerm t = IsHashHex t.hash × Present IsIndexRange t.range

abbrev pub IsFetchInfo : CasReconstructionFetchInfo → Type 0
IsFetchInfo f = (f.url ≢ []) × (Present IsIndexRange f.range × Present IsByteRange f.url_range)

abbrev pub IsResponse : QueryReconstructionResponse → Type 0
IsResponse r =
    All IsTerm r.terms
    × (All (λ e. IsHashHex e.0) r.fetch_info × All (λ e. All IsFetchInfo e.1.entries) r.fetch_info)

abbrev pub IsDescriptor : XorbRangeDescriptor → Type 0
IsDescriptor d = Present IsIndexRange d.chunks × Present IsByteRange d.bytes

abbrev pub IsMultiRangeFetch : XorbMultiRangeFetch → Type 0
IsMultiRangeFetch f = (f.url ≢ []) × All IsDescriptor f.ranges

abbrev pub IsResponseV2 : QueryReconstructionResponseV2 → Type 0
IsResponseV2 r =
    All IsTerm r.terms
    × (All (λ e. IsHashHex e.0) r.xorbs × All (λ e. All IsMultiRangeFetch e.1.entries) r.xorbs)

pub index_range-accepts : (r : IndexRange) → Accepts (validate_index_range r) (IsIndexRange r)
unfolding validate_index_range
index_range-accepts r = accepts-fail_if _ _ (accepts-ltb r.end r.start)

pub byte_range-accepts : (r : ByteRange) → Accepts (validate_byte_range r) (IsByteRange r)
unfolding validate_byte_range
byte_range-accepts r = accepts-fail_if _ _ (accepts-ltb r.end r.start)

pub IsTerm-accepts :
    (t : CasReconstructionTerm) → Accepts (validate_cas_reconstruction_term t) (IsTerm t)
unfolding validate_cas_reconstruction_term
IsTerm-accepts t =
    accepts-then _ _ (accepts-IsHashHex _ _ t.hash)
      (accepts-Present _ _ t.range validate_index_range index_range-accepts)

pub IsFetchInfo-accepts :
    (f : CasReconstructionFetchInfo)
    → Accepts (validate_cas_reconstruction_fetch_info f) (IsFetchInfo f)
unfolding validate_cas_reconstruction_fetch_info
IsFetchInfo-accepts f = accepts-then _ _ (accepts-non_empty _ _ f.url) (
    accepts-Present_then _ _ f.range validate_index_range _ index_range-accepts
      (accepts-Present _ _ f.url_range validate_byte_range byte_range-accepts))

fetch_info_list-accepts :
    (l : FetchInfoList) → Accepts (validate_fetch_info_list l) (All IsFetchInfo l.entries)
unfolding validate_fetch_info_list
fetch_info_list-accepts l = accepts-each _ l.entries IsFetchInfo-accepts

-- A v1 reconstruction response is accepted exactly when each term has a hash of 64 lowercase hex
-- digits and an ordered chunk range, each key of the fetch map is such a hash, and each fetch entry
-- has a URL, an ordered chunk range and an ordered byte range.
pub IsResponse-accepts :
    (r : QueryReconstructionResponse)
    → (validate_query_reconstruction_response r ≡ ok tt) ↔ IsResponse r
unfolding validate_query_reconstruction_response
IsResponse-accepts r = accepts-then _ _ (accepts-each _ r.terms IsTerm-accepts) (
    accepts-then _ _ (accepts-IsHashHex_keys _ _ r.fetch_info)
      (accepts-each _ r.fetch_info (λ e. fetch_info_list-accepts e.1)))

IsDescriptor-accepts :
    (d : XorbRangeDescriptor) → Accepts (validate_xorb_range_descriptor d) (IsDescriptor d)
unfolding validate_xorb_range_descriptor
IsDescriptor-accepts d =
    accepts-Present_then _ _ d.chunks validate_index_range _ index_range-accepts
      (accepts-Present _ _ d.bytes validate_byte_range byte_range-accepts)

IsMultiRangeFetch-accepts :
    (f : XorbMultiRangeFetch) → Accepts (validate_xorb_multi_range_fetch f) (IsMultiRangeFetch f)
unfolding validate_xorb_multi_range_fetch
IsMultiRangeFetch-accepts f =
    accepts-then _ _ (accepts-non_empty _ _ f.url) (accepts-each _ f.ranges IsDescriptor-accepts)

fetch_list-accepts :
    (l : XorbFetchList) → Accepts (validate_xorb_fetch_list l) (All IsMultiRangeFetch l.entries)
unfolding validate_xorb_fetch_list
fetch_list-accepts l = accepts-each _ l.entries IsMultiRangeFetch-accepts

-- A v2 reconstruction response is accepted exactly when each term has a hash and an ordered chunk
-- range, each key of the xorb map is a hash, and each multi-range fetch has a URL and, in each of its
-- ranges, ordered chunks and ordered bytes.
pub IsResponseV2-accepts :
    (r : QueryReconstructionResponseV2)
    → (validate_query_reconstruction_response_v2 r ≡ ok tt) ↔ IsResponseV2 r
unfolding validate_query_reconstruction_response_v2
IsResponseV2-accepts r = accepts-then _ _ (accepts-each _ r.terms IsTerm-accepts) (
    accepts-then _ _ (accepts-IsHashHex_keys _ _ r.xorbs)
      (accepts-each _ r.xorbs (λ e. fetch_list-accepts e.1)))

-- The requests of the read and upload routes are accepted exactly when their hashes are 64 lowercase
-- hex digits, their prefixes are not empty and the optional range of a reconstruction is ordered.
pub requests-accept :
    (q : QueryReconstructionRequest) (d : ChunkDedupQuery) (u : UploadXorbKey)
    → ((validate_query_reconstruction_request q ≡ ok tt)
        ↔ (IsHashHex q.file_id × IfPresent IsByteRange q.range))
      × ((validate_chunk_dedup_query d ≡ ok tt) ↔ ((d.prefix ≢ []) × IsHashHex d.hash))
      × ((validate_upload_xorb_key u ≡ ok tt) ↔ ((u.prefix ≢ []) × IsHashHex u.hash))
unfolding validate_query_reconstruction_request validate_chunk_dedup_query validate_upload_xorb_key
requests-accept q d u = (
  accepts-then _ _ (accepts-IsHashHex _ _ q.file_id)
      (accepts-IfPresent q.range validate_byte_range byte_range-accepts),
  accepts-then _ _ (accepts-non_empty _ _ d.prefix) (accepts-IsHashHex _ _ d.hash),
  accepts-then _ _ (accepts-non_empty _ _ u.prefix) (accepts-IsHashHex _ _ u.hash),
)

pub upload_shard_response-accepts :
    (r : UploadShardResponse) → Accepts (validate_upload_shard_response r) (r.result ≤ 1)
unfolding validate_upload_shard_response
upload_shard_response-accepts r = accepts-fail_if _ _ (accepts-ltb 1 r.result)
