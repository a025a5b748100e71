-- ===== src/Xorbs/Admitted.antt =====
-- What `upload` of crates/xetcasd/src/routes/xorbs.rs has made sure of before it takes the lock.
use xetcas.Prelude.{
  ℕ, ◌≡◌, refl, sym, ap, ◌∙◌, subst, inl, inr, true, Option-cases, some, Bytes, ok, ok_or, fail_if,
  map_err, bind-ok, ok-inj, ok_or-some, map_err-ok, arith, ltb, length,
}
use xetcas.Contracts.Storage.{XorbRecord}
use xetcas.Contracts.Validate.Fields.{is_empty}
use xetcas.Contracts.Validate.Storage.{validate_xorb_record}
use xetcas.Contracts.Validate.StorageLaws.{IsXorbRecord, xorb_record-accepts}
use xetcas.Contracts.Validate.Transfer.{validate_upload_xorb_key}
use xetcas.Errors.{bad_request}
use xetcas.Headers.{Header}
use xetcas.Shards.{Hashing}
use xetcas.State.{Config, authorize}
use xetcas.Xorbs.{
  bad_hash, body_too_long, empty_body, invalid_message, max_upload_bytes, eligible_chunks,
  record_of, Format, Verified, Reconstructed, verify_xorb, admit,
}

module _ (h : Hashing) (format : Format h.MerkleHash) where
  -- The object and the record of a hash come from one parsed body, which has that hash.
  abbrev pub Agrees : Bytes → Bytes → XorbRecord → Type 0
  Agrees hash stored r =
      (body : Bytes) × (now : ℕ) × (parsed : Reconstructed h.MerkleHash)
      × ((format.reconstruct_xorb_with_footer body ≡ some parsed)
          × (parsed.stored ≡ stored)
          × (record_of h format now parsed.info parsed.computed ≡ r)
          × (r.xorb_hash ≡ hash)
          × IsXorbRecord r)

  pub verify_xorb-parsed :
      (now : ℕ) (body : Bytes) (expected : h.MerkleHash) (stored : Bytes) (r : XorbRecord)
      → verify_xorb h format now body expected ≡ ok (stored, r)
      → (parsed : Reconstructed h.MerkleHash) × ((format.reconstruct_xorb_with_footer body
            ≡ some parsed)
          × (parsed.stored ≡ stored)
          × (record_of h format now parsed.info parsed.computed ≡ r)
          × (format.same parsed.computed expected ≡ true))
  unfolding verify_xorb fail_if
  verify_xorb-parsed now body expected stored r e =
      elim (Option-cases (format.reconstruct_xorb_with_footer body)) [
        | inl p ↦ absurd (ground arith)
        | inr (parsed, p) ↦ (parsed, (p, ground arith, ground arith, ground arith))
      ]

module _ (h : Hashing) (format : Format h.MerkleHash)
    (hex-from_hex : (s : Bytes) (m : h.MerkleHash) → format.from_hex s ≡ some m → h.hex m ≡ s)
    (same-eq : (a b : h.MerkleHash) → format.same a b ≡ true → a ≡ b) where
  pub verified-Agrees :
      (now : ℕ) (hash body : Bytes) (expected : h.MerkleHash) (stored : Bytes) (r : XorbRecord)
      → format.from_hex hash ≡ some expected
      → verify_xorb h format now body expected ≡ ok (stored, r)
      → validate_xorb_record r ≡ ok tt
      → Agrees h format hash stored r
  verified-Agrees now hash body expected stored r p e valid =
      let (parsed, (q, bytes, xorb, same)) =
        verify_xorb-parsed h format now body expected stored r e in
      let named : r.xorb_hash ≡ hash =
        sym (ap (λ x. x.xorb_hash) xorb)
        ∙ ap h.hex (same-eq parsed.computed expected same)
        ∙ hex-from_hex hash expected p in
      (body, now, parsed, (q, bytes, xorb, named, (xorb_record-accepts r).0 valid))

  -- What the checks before the lock have made sure of.
  pub admit-Agrees :
      (config : Config) (now : ℕ) (authorization : Header) (prefix hash body : Bytes) (v : Verified)
      → admit h format config now authorization prefix hash body ≡ ok v
      → Agrees h format hash v.stored v.xorb
  unfolding admit
  admit-Agrees config now authorization prefix hash body v e =
      let (_, _, e1) = bind-ok (authorize config authorization) _ v e in
      let (_, _, e2) =
        bind-ok
          (map_err (λ f. bad_request (invalid_message f))
            (validate_upload_xorb_key (record { prefix = prefix; hash = hash })))
          _ v e1 in
      let (expected, p3, e3) =
        bind-ok (ok_or (format.from_hex hash) (bad_request bad_hash)) _ v e2 in
      let (_, _, e4) =
        bind-ok (fail_if (ltb max_upload_bytes (length body)) (bad_request body_too_long)) _ v e3 in
      let (_, _, e5) = bind-ok (fail_if (is_empty body) (bad_request empty_body)) _ v e4 in
      let (verified, p6, e6) = bind-ok (verify_xorb h format now body expected) _ v e5 in
      let (_, p7, e7) =
        bind-ok (map_err (λ f. bad_request (invalid_message f)) (validate_xorb_record verified.1)) _
          v e6 in
      let (dedup_chunks, p8, e8) = bind-ok (eligible_chunks h format verified.1) _ v e7 in
      let made = ok-inj (ok _) refl e8 in
      subst (λ u. Agrees h format hash u.stored u.xorb) made
        (verified-Agrees now hash body expected verified.0 verified.1 (ok_or-some _ _ expected p3)
          p6 (map_err-ok _ _ tt p7))
