-- ===== src/Contracts/Validate/BridgeLaws.antt =====
-- What the validators of bridge.proto accept (crates/xetcas-contracts/src/v1/validate.rs).
use xetcas.Prelude.{
  ◌≡◌, ◌≢◌, refl, ◌↔◌, ◌⊎◌, inl, inr, not, ◌&&◌, false, Option, none, some, List, [], ◌∷◌, ok, All,
  codes, bytes_eq_iff,
}
use xetcas.Contracts.Bridge.{
  LfsObjectSpec, LfsBatchRequest, LfsAction, LfsBatchObject, LfsBatchResponse, CasTokenInfo,
}
use xetcas.Contracts.Validate.Fields.{is_empty}
use xetcas.Contracts.Validate.Bridge.{
  is_some, validate_lfs_object_spec, validate_lfs_batch_request, validate_lfs_action,
  validate_lfs_batch_object, validate_lfs_batch_response, validate_cas_token_info,
}
use xetcas.Contracts.Validate.Accepts.{
  Accepts, IsHashHex, accepts-then, accepts-fail_if, accepts-unless, accepts-each,
  accepts-IsHashHex, accepts-non_empty, ||_iff, is_empty_iff,
}

-- At most one of actions and error is there, and each action has a target.
abbrev pub IsBatchObject : LfsBatchObject → Type 0
IsBatchObject o = ((o.actions ≡ []) ⊎ (o.error ≡ none)) × All (λ e. e.1.href ≢ []) o.actions

abbrev pub IsBatchRequest : LfsBatchRequest → Type 0
IsBatchRequest r =
    ((r.operation ≡ codes "upload") ⊎ (r.operation ≡ codes "download"))
    × (((r.hash_algo ≡ []) ⊎ (r.hash_algo ≡ codes "sha256"))
        × All (λ (o : LfsObjectSpec). IsHashHex o.oid) r.objects)

abbrev pub IsBatchResponse : LfsBatchResponse → Type 0
IsBatchResponse r =
    ((r.transfer ≡ codes "xet") ⊎ (r.transfer ≡ codes "basic")) × All IsBatchObject r.objects

pub object_spec-accepts :
    (o : LfsObjectSpec) → Accepts (validate_lfs_object_spec o) (IsHashHex o.oid)
unfolding validate_lfs_object_spec
object_spec-accepts o = accepts-IsHashHex _ _ o.oid

action-accepts : (a : LfsAction) → Accepts (validate_lfs_action a) (a.href ≢ [])
unfolding validate_lfs_action
action-accepts a = accepts-non_empty _ _ a.href

not_both_iff {ℓ κ} :
    {A : Type ℓ} {B : Type κ} (xs : List A) (o : Option B)
    → ((not (is_empty xs) && is_some o) ≡ false) ↔ ((xs ≡ []) ⊎ (o ≡ none))
not_both_iff [] o = (λ e. inl refl, λ p. refl)
not_both_iff (x ∷ xs) none = (λ e. inr refl, λ p. refl)
not_both_iff (x ∷ xs) (some a) = (λ e. cc, λ p. elim p [ inl e ↦ cc | inr e ↦ cc ])

IsBatchObject-accepts :
    (o : LfsBatchObject) → Accepts (validate_lfs_batch_object o) (IsBatchObject o)
unfolding validate_lfs_batch_object
IsBatchObject-accepts o =
    accepts-then _ _ (accepts-fail_if _ _ (not_both_iff o.actions o.error))
      (accepts-each _ o.actions (λ e. action-accepts e.1))

-- An LFS batch request is accepted exactly when its operation is "upload" or "download", its hash
-- algorithm is empty or "sha256", and each object id is 64 lowercase hex digits; a batch response
-- exactly when its transfer is "xet" or "basic" and each object has at most one of actions and error
-- and a target in each action.
pub batch-accepts :
    (q : LfsBatchRequest) (r : LfsBatchResponse)
    → ((validate_lfs_batch_request q ≡ ok tt) ↔ IsBatchRequest q)
      × ((validate_lfs_batch_response r ≡ ok tt) ↔ IsBatchResponse r)
unfolding validate_lfs_batch_request validate_lfs_batch_response
batch-accepts q r = (
  accepts-then _ _
      (accepts-unless _ _ (||_iff _ _ (bytes_eq_iff q.operation _) (bytes_eq_iff q.operation _)))
      (accepts-then _ _
        (accepts-unless _ _ (||_iff _ _ (is_empty_iff q.hash_algo) (bytes_eq_iff q.hash_algo _)))
        (accepts-each _ q.objects object_spec-accepts)),
  accepts-then _ _
      (accepts-unless _ _ (||_iff _ _ (bytes_eq_iff r.transfer _) (bytes_eq_iff r.transfer _)))
      (accepts-each _ r.objects IsBatchObject-accepts),
)

pub cas_token_info-accepts :
    (i : CasTokenInfo)
    → Accepts (validate_cas_token_info i) ((i.cas_url ≢ []) × (i.access_token ≢ []))
unfolding validate_cas_token_info
cas_token_info-accepts i =
    accepts-then _ _ (accepts-non_empty _ _ i.cas_url) (accepts-non_empty _ _ i.access_token)
