-- ===== src/Lfs/Objects.antt =====
-- The entries of a batch response of crates/xetcasd/src/routes/lfs.rs: one for each requested object, with the
-- credential of the request in each action.
use xetcas.Prelude.{
  ℕ, ◌≡◌, ◌≢◌, refl, ap, ◌∙◌, ◌⊎◌, inl, inr, Bool, true, false, Option, none, some, List, [], ◌∷◌,
  ◌++◌, Bytes, bytes_eq, codes, lookup, lookup-insert, Result, ok, err, if◌then◌else◌, All,
  bytes_eq_refl,
}
use xetcas.Contracts.Bridge.{LfsObjectSpec, LfsAction, LfsObjectError, LfsBatchObject}
use xetcas.Contracts.Validate.Bridge.{is_some}
use xetcas.Contracts.Validate.BridgeLaws.{IsBatchObject}
use xetcas.Contracts.Validate.Fields.{is_empty}
use xetcas.Contracts.Storage.{FileRecord}
use xetcas.Errors.{internal}
use xetcas.Index.{Codec, IndexError, Tables, file_by_sha256}
use xetcas.State.{Config, public_base}
use xetcas.Lfs.{
  Reply, index_failed, authorization_header, embeds_authorization, with_authorization, needs_xet,
  no_object, upload_action, download_action, without_actions, with_action, upload_object,
  download_object,
}

-- The entry has the object's id and size and at most one of actions and error; each of its actions carries the
-- credential, if there is one, and the flag says whether one does.
abbrev pub Answers : Option Bytes → LfsObjectSpec → LfsBatchObject → Type 0
Answers auth spec o =
    (o.oid ≡ spec.oid)
    × (o.size ≡ spec.size)
    × IsBatchObject o
    × All (λ e. lookup authorization_header e.1.header ≡ auth) o.actions
    × (o.authenticated ≡ (if is_empty o.actions then false else is_some auth))

-- Entry by entry.
pub data Answered (auth : Option Bytes) : List LfsObjectSpec → List LfsBatchObject → Type 0 where
  nil : Answered auth [] []
  cons :
      {spec : LfsObjectSpec} {o : LfsBatchObject} {specs : List LfsObjectSpec}
      {os : List LfsBatchObject}
      → Answers auth spec o
      → Answered auth specs os
      → Answered auth (spec ∷ specs) (o ∷ os)

lookup-with_authorization :
    (auth : Option Bytes) (header : List (Bytes × Bytes))
    → lookup authorization_header header ≡ none
    → lookup authorization_header (with_authorization auth header) ≡ auth
unfolding with_authorization
lookup-with_authorization none header h = h
lookup-with_authorization (some auth) header h =
    lookup-insert authorization_header authorization_header auth header
    ∙ rw (bytes_eq_refl authorization_header) refl

lookup-upload :
    (config : Config) (fresh : ℕ × Bytes) (auth : Option Bytes)
    → lookup authorization_header (upload_action config fresh auth).header ≡ auth
unfolding upload_action
lookup-upload config (now, session) auth =
    lookup-with_authorization auth _ (unfold lookup bytes_eq in refl)

lookup-download :
    (config : Config) (oid : Bytes) (auth : Option Bytes)
    → lookup authorization_header (download_action config oid auth).header ≡ auth
unfolding download_action
lookup-download config oid auth = lookup-with_authorization auth [] (unfold lookup in refl)

append-ne_nil : (a b : Bytes) → b ≢ [] → a ++ b ≢ []
append-ne_nil [] b h = h
append-ne_nil (c ∷ a) b h = λ e. cc

upload-href :
    (config : Config) (fresh : ℕ × Bytes) (auth : Option Bytes)
    → (upload_action config fresh auth).href ≢ []
unfolding upload_action
upload-href config (now, session) auth =
    append-ne_nil (public_base config.public_url) (codes "/xet-token") (λ e. cc)

download-href :
    (config : Config) (oid : Bytes) (auth : Option Bytes)
    → (download_action config oid auth).href ≢ []
unfolding download_action
download-href config oid auth =
    append-ne_nil (public_base config.public_url) (codes "/lfs/objects/" ++ oid) (λ e. cc)

with_action-Answers :
    (auth : Option Bytes) (spec : LfsObjectSpec) (name : Bytes) (action : LfsAction)
    → lookup authorization_header action.header ≡ auth
    → action.href ≢ []
    → Answers auth spec (with_action spec name action)
unfolding embeds_authorization
with_action-Answers auth spec name action h k =
    (refl, refl, (inr refl, (k, tt)), (h, tt), ap is_some h)

without_actions-Answers :
    (auth : Option Bytes) (spec : LfsObjectSpec) (error : Option LfsObjectError)
    → Answers auth spec (without_actions spec error)
without_actions-Answers auth spec error = (refl, refl, (inl refl, tt), tt, refl)

-- A call that only the index makes fail, and its result otherwise.
abbrev pub Unless : {A : Type 0} → Reply A → (A → Type 0) → Type 0
Unless {A} m P =
    ((e : IndexError) × (m ≡ err (internal (index_failed e)))) ⊎ ((a : A) × (m ≡ ok a) × P a)

module _ (codec : Codec) (config : Config) (t : Tables) (auth : Option Bytes) where
  upload_found :
      (fresh : ℕ × Bytes) (spec : LfsObjectSpec) (m : Result IndexError (Option FileRecord))
      → file_by_sha256 codec spec.oid t ≡ m
      → Unless (upload_object codec config t auth true fresh spec) (Answers auth spec)
  unfolding upload_object
  upload_found fresh spec (err e) h = inl (e, rw h refl)
  upload_found fresh spec (ok none) h = inr (
    with_action spec (codes "upload") (upload_action config fresh auth),
    rw h refl,
    with_action-Answers auth spec (codes "upload") (upload_action config fresh auth)
        (lookup-upload config fresh auth) (upload-href config fresh auth),
  )
  upload_found fresh spec (ok (some file)) h =
      inr (without_actions spec none, rw h refl, without_actions-Answers auth spec none)

  pub upload_object-Answers :
      (offers_xet : Bool) (fresh : ℕ × Bytes) (spec : LfsObjectSpec)
      → Unless (upload_object codec config t auth offers_xet fresh spec) (Answers auth spec)
  upload_object-Answers true fresh spec = upload_found fresh spec _ refl
  upload_object-Answers false fresh spec = inr (
    without_actions spec (some needs_xet),
    (unfold upload_object in refl),
    without_actions-Answers auth spec (some needs_xet),
  )

  download_found :
      (spec : LfsObjectSpec) (m : Result IndexError (Option FileRecord))
      → file_by_sha256 codec spec.oid t ≡ m
      → Unless (download_object codec config t auth spec) (Answers auth spec)
  unfolding download_object
  download_found spec (err e) h = inl (e, rw h refl)
  download_found spec (ok none) h = inr (
    without_actions spec (some (no_object spec.oid)),
    rw h refl,
    without_actions-Answers auth spec (some (no_object spec.oid)),
  )
  download_found spec (ok (some file)) h = inr (
    with_action spec (codes "download") (download_action config spec.oid auth),
    rw h refl,
    with_action-Answers auth spec (codes "download") (download_action config spec.oid auth)
        (lookup-download config spec.oid auth) (download-href config spec.oid auth),
  )

  pub download_object-Answers :
      (spec : LfsObjectSpec) → Unless (download_object codec config t auth spec) (Answers auth spec)
  download_object-Answers spec = download_found spec _ refl
