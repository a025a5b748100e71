-- ===== src/Contracts/Validate/Transfer.antt =====
-- crates/xetcas-contracts/src/v1/validate.rs: the validators of transfer.proto.
use xetcas.Prelude.{none, some, ok, ◌>>=◌, ◌>>◌, fail_if, ltb}
use xetcas.Contracts.Transfer.{
  IndexRange, ByteRange, QueryReconstructionRequest, CasReconstructionTerm,
  CasReconstructionFetchInfo, FetchInfoList, QueryReconstructionResponse, XorbRangeDescriptor,
  XorbMultiRangeFetch, XorbFetchList, QueryReconstructionResponseV2, ChunkDedupQuery, UploadXorbKey,
  UploadShardResponse,
}
use xetcas.Contracts.Validate.Fields.{
  Checked, violation, require_hash_hex, require_non_empty, require_present, validate_each,
  require_hash_hex_keys,
}

unfoldable pub validate_index_range : IndexRange → Checked
validate_index_range value =
    fail_if (ltb value.end value.start)
      (violation "candace.xetcas.v1.IndexRange" "start" "this <= end")

unfoldable pub validate_byte_range : ByteRange → Checked
validate_byte_range value =
    fail_if (ltb value.end value.start)
      (violation "candace.xetcas.v1.ByteRange" "start" "this <= end")

unfoldable pub validate_query_reconstruction_request : QueryReconstructionRequest → Checked
validate_query_reconstruction_request value = do
  require_hash_hex "candace.xetcas.v1.QueryReconstructionRequest" "file_id" value.file_id
  elim value.range [ none ↦ ok tt | some range ↦ validate_byte_range range ]

unfoldable pub validate_cas_reconstruction_term : CasReconstructionTerm → Checked
validate_cas_reconstruction_term value = do
  require_hash_hex "candace.xetcas.v1.CasReconstructionTerm" "hash" value.hash
  range ← require_present "candace.xetcas.v1.CasReconstructionTerm" "range" value.range
  validate_index_range range

unfoldable pub validate_cas_reconstruction_fetch_info : CasReconstructionFetchInfo → Checked
validate_cas_reconstruction_fetch_info value = do
  require_non_empty "candace.xetcas.v1.CasReconstructionFetchInfo" "url" value.url
  range ← require_present "candace.xetcas.v1.CasReconstructionFetchInfo" "range" value.range
  validate_index_range range
  url_range ←
      require_present "candace.xetcas.v1.CasReconstructionFetchInfo" "url_range" value.url_range
  validate_byte_range url_range

unfoldable pub validate_fetch_info_list : FetchInfoList → Checked
validate_fetch_info_list value = validate_each validate_cas_reconstruction_fetch_info value.entries

unfoldable pub validate_query_reconstruction_response : QueryReconstructionResponse → Checked
validate_query_reconstruction_response value = do
  validate_each validate_cas_reconstruction_term value.terms
  require_hash_hex_keys "candace.xetcas.v1.QueryReconstructionResponse" "fetch_info"
      value.fetch_info
  validate_each (λ e. validate_fetch_info_list e.1) value.fetch_info

unfoldable pub validate_xorb_range_descriptor : XorbRangeDescriptor → Checked
validate_xorb_range_descriptor value = do
  chunks ← require_present "candace.xetcas.v1.XorbRangeDescriptor" "chunks" value.chunks
  validate_index_range chunks
  bytes ← require_present "candace.xetcas.v1.XorbRangeDescriptor" "bytes" value.bytes
  validate_byte_range bytes

unfoldable pub validate_xorb_multi_range_fetch : XorbMultiRangeFetch → Checked
validate_xorb_multi_range_fetch value = do
  require_non_empty "candace.xetcas.v1.XorbMultiRangeFetch" "url" value.url
  validate_each validate_xorb_range_descriptor value.ranges

unfoldable pub validate_xorb_fetch_list : XorbFetchList → Checked
validate_xorb_fetch_list value = validate_each validate_xorb_multi_range_fetch value.entries

unfoldable pub validate_query_reconstruction_response_v2 : QueryReconstructionResponseV2 → Checked
validate_query_reconstruction_response_v2 value = do
  validate_each validate_cas_reconstruction_term value.terms
  require_hash_hex_keys "candace.xetcas.v1.QueryReconstructionResponseV2" "xorbs" value.xorbs
  validate_each (λ e. validate_xorb_fetch_list e.1) value.xorbs

unfoldable pub validate_chunk_dedup_query : ChunkDedupQuery → Checked
validate_chunk_dedup_query value = do
  require_non_empty "candace.xetcas.v1.ChunkDedupQuery" "prefix" value.prefix
  require_hash_hex "candace.xetcas.v1.ChunkDedupQuery" "hash" value.hash

unfoldable pub validate_upload_xorb_key : UploadXorbKey → Checked
validate_upload_xorb_key value = do
  require_non_empty "candace.xetcas.v1.UploadXorbKey" "prefix" value.prefix
  require_hash_hex "candace.xetcas.v1.UploadXorbKey" "hash" value.hash

unfoldable pub validate_upload_shard_response : UploadShardResponse → Checked
validate_upload_shard_response value =
    fail_if (ltb 1 value.result)
      (violation "candace.xetcas.v1.UploadShardResponse" "result" "this <= 1")
