-- ===== src/Lfs/Download.antt =====
-- The batch entries of crates/xetcasd/src/routes/lfs.rs against the download route, and the headers of an
-- upload action as git-xet reads them.
use xetcas.Prelude.{
  ℕ, ◌+◌, ◌^◌, ◌<◌, ◌≡◌, refl, ◌∙◌, ◌⊎◌, inl, inr, true, false, Option, none, some, List, Bytes,
  bytes_eq, codes, lookup, lookup-insert, Result, ok, err,
}
use xetcas.Prelude.Words.{add_u64, add_u64_of_lt}
use xetcas.Contracts.Bridge.{LfsObjectSpec}
use xetcas.Contracts.Storage.{FileRecord}
use xetcas.Contracts.Validate.Accepts.{IsHashHex}
use xetcas.Contracts.Validate.Bridge.{validate_lfs_object_spec}
use xetcas.Contracts.Validate.BridgeLaws.{object_spec-accepts}
use xetcas.Decimal.{to_string}
use xetcas.Decimal.Print.{parse_u64-to_string}
use xetcas.Errors.{not_found, internal}
use xetcas.HttpRange.{parse_u64}
use xetcas.Index.{Codec, IndexError, Tables, file_by_sha256}
use xetcas.State.{Config, public_base, advertised_token}
use xetcas.Lfs.{
  index_failed, token_ttl_secs, header_xet_cas_url, header_xet_access_token,
  header_xet_token_expiration, header_xet_session_id, authorization_header, with_authorization,
  upload_action, download_action, without_actions, with_action, no_object, download, upload_object,
  download_object,
}

module _ (codec : Codec) (config : Config) (t : Tables) (auth : Option Bytes) (fresh : ℕ × Bytes)
    (spec : LfsObjectSpec) where
  -- The object is there: the download route serves it, a download batch points to that route, and an upload
  -- batch has nothing to do for it.
  abbrev pub Stored : Type 0
  Stored =
      (file : FileRecord) × ((download codec spec.oid t ≡ ok file)
        × (download_object codec config t auth spec
            ≡ ok (with_action spec (codes "download") (download_action config spec.oid auth)))
        × (upload_object codec config t auth true fresh spec ≡ ok (without_actions spec none)))

  -- It is not there: the route and a download batch say so, and an upload batch asks for it.
  abbrev pub Missing : Type 0
  Missing =
      (download codec spec.oid t ≡ err not_found)
      × (download_object codec config t auth spec
          ≡ ok (without_actions spec (some (no_object spec.oid))))
      × (upload_object codec config t auth true fresh spec
          ≡ ok (with_action spec (codes "upload") (upload_action config fresh auth)))

  -- The row of the object does not decode, and all three fail.
  abbrev pub Broken : Type 0
  Broken =
      (e : IndexError) × ((download codec spec.oid t ≡ err (internal (index_failed e)))
        × (download_object codec config t auth spec ≡ err (internal (index_failed e)))
        × (upload_object codec config t auth true fresh spec ≡ err (internal (index_failed e))))

  agree-by :
      (m : Result IndexError (Option FileRecord))
      → file_by_sha256 codec spec.oid t ≡ m
      → validate_lfs_object_spec (record { oid = spec.oid; size = 0 }) ≡ ok tt
      → Stored ⊎ (Missing ⊎ Broken)
  unfolding download download_object upload_object
  agree-by (err e) h v = inr (inr (e, (rw (v, h) refl, rw h refl, rw h refl)))
  agree-by (ok none) h v = inr (inl (rw (v, h) refl, rw h refl, rw h refl))
  agree-by (ok (some file)) h v = inl (file, (rw (v, h) refl, rw h refl, rw h refl))

-- For an object id of 64 lowercase hex digits the three routes agree: either the object is stored, and the
-- download route serves it, a download batch links to it and an upload batch with git-xet skips it; or
-- it is missing, and the route answers 404, a download batch has the error 404 and an upload batch
-- asks for it; or all three fail on a row of the index that does not decode.
pub download-agrees :
    (codec : Codec) (config : Config) (t : Tables) (auth : Option Bytes) (fresh : ℕ × Bytes)
    (spec : LfsObjectSpec)
    → IsHashHex spec.oid
    → Stored codec config t auth fresh spec
      ⊎ (Missing codec config t auth fresh spec ⊎ Broken codec config t auth fresh spec)
download-agrees codec config t auth fresh spec h =
    agree-by codec config t auth fresh spec _ refl
      ((object_spec-accepts (record { oid = spec.oid; size = 0 })).1 h)

-- The credential is written under a key of its own.
lookup-other :
    (auth : Option Bytes) (key : Bytes) (header : List (Bytes × Bytes))
    → bytes_eq authorization_header key ≡ false
    → lookup key (with_authorization auth header) ≡ lookup key header
unfolding with_authorization
lookup-other none key header h = refl
lookup-other (some auth) key header h =
    lookup-insert authorization_header key auth header ∙ rw h refl

distinct :
    (bytes_eq authorization_header header_xet_cas_url ≡ false)
    × (bytes_eq authorization_header header_xet_access_token ≡ false)
    × (bytes_eq authorization_header header_xet_session_id ≡ false)
    × (bytes_eq authorization_header header_xet_token_expiration ≡ false)
unfolding bytes_eq
distinct = (refl, refl, refl, refl)

-- git-xet finds in every upload action, with a credential or without, the base URL, the token and the session,
-- and an expiration that it reads as the time of the request and an hour, while this fits a u64.
pub upload_action-readable :
    (config : Config) (now : ℕ) (session : Bytes) (auth : Option Bytes)
    → now + token_ttl_secs < 2 ^ 64
    → (lookup header_xet_cas_url (upload_action config (now, session) auth).header
        ≡ some (public_base config.public_url))
      × (lookup header_xet_access_token (upload_action config (now, session) auth).header
          ≡ some (advertised_token config))
      × (lookup header_xet_session_id (upload_action config (now, session) auth).header
          ≡ some session)
      × ((expiration : Bytes) × (lookup header_xet_token_expiration
              (upload_action config (now, session) auth).header
            ≡ some expiration)
          × (parse_u64 expiration ≡ some (now + token_ttl_secs)))
unfolding upload_action
upload_action-readable config now session auth h =
    let expiration = to_string (add_u64 now token_ttl_secs) in
    let sum = add_u64_of_lt now token_ttl_secs h in
    (
      lookup-other auth header_xet_cas_url _ distinct.0 ∙ (unfold lookup bytes_eq in refl),
      lookup-other auth header_xet_access_token _ distinct.1 ∙ (unfold lookup bytes_eq in refl),
      lookup-other auth header_xet_session_id _ distinct.2 ∙ (unfold lookup bytes_eq in refl),
      (
        expiration,
        lookup-other auth header_xet_token_expiration _ distinct.3
            ∙ (unfold lookup bytes_eq in refl),
        rw sum (parse_u64-to_string (now + token_ttl_secs) h),
      ),
    )
