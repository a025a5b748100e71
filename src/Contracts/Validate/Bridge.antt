-- ===== src/Contracts/Validate/Bridge.antt =====
-- crates/xetcas-contracts/src/v1/validate.rs: the validators of bridge.proto.
use xetcas.Prelude.{
  Bool, true, false, not, ◌&&◌, ◌||◌, Option, none, some, ◌>>◌, fail_if, bytes_eq, codes,
}
use xetcas.Contracts.Bridge.{
  LfsObjectSpec, LfsBatchRequest, LfsAction, LfsBatchObject, LfsBatchResponse, CasTokenInfo,
}
use xetcas.Contracts.Validate.Fields.{
  Checked, violation, is_empty, require_hash_hex, require_non_empty, validate_each,
}

unfoldable pub validate_lfs_object_spec : LfsObjectSpec → Checked
validate_lfs_object_spec value = require_hash_hex "candace.xetcas.v1.LfsObjectSpec" "oid" value.oid

unfoldable pub validate_lfs_batch_request : LfsBatchRequest → Checked
validate_lfs_batch_request value = do
  fail_if
      (not
        (bytes_eq value.operation (codes "upload") || bytes_eq value.operation (codes "download")))
      (violation "candace.xetcas.v1.LfsBatchRequest" "operation"
        "this == \"upload\" || this == \"download\"")
  fail_if (not (is_empty value.hash_algo || bytes_eq value.hash_algo (codes "sha256"))) (
      violation "candace.xetcas.v1.LfsBatchRequest" "hash_algo"
        "len(this) == 0 || this == \"sha256\"")
  validate_each validate_lfs_object_spec value.objects

unfoldable pub validate_lfs_action : LfsAction → Checked
validate_lfs_action value = require_non_empty "candace.xetcas.v1.LfsAction" "href" value.href

abbrev pub is_some {ℓ} : {A : Type ℓ} → Option A → Bool
is_some none = false
is_some (some a) = true

unfoldable pub validate_lfs_batch_object : LfsBatchObject → Checked
validate_lfs_batch_object value = do
  fail_if (not (is_empty value.actions) && is_some value.error) (
      violation "candace.xetcas.v1.LfsBatchObject" "actions"
        "at most one of actions/error is populated")
  validate_each (λ e. validate_lfs_action e.1) value.actions

unfoldable pub validate_lfs_batch_response : LfsBatchResponse → Checked
validate_lfs_batch_response value = do
  fail_if (not (bytes_eq value.transfer (codes "xet") || bytes_eq value.transfer (codes "basic"))) (
      violation "candace.xetcas.v1.LfsBatchResponse" "transfer"
        "this == \"xet\" || this == \"basic\"")
  validate_each validate_lfs_batch_object value.objects

unfoldable pub validate_cas_token_info : CasTokenInfo → Checked
validate_cas_token_info value = do
  require_non_empty "candace.xetcas.v1.CasTokenInfo" "cas_url" value.cas_url
  require_non_empty "candace.xetcas.v1.CasTokenInfo" "access_token" value.access_token
