-- ===== src/Lfs/Batch.antt =====
-- The handler `batch` of crates/xetcasd/src/routes/lfs.rs: what it answers to a valid request.
use xetcas.Prelude.{
  ℕ, ◌+◌, ◌≡◌, refl, sym, ap, subst, ◌∙◌, ◌⊎◌, inl, inr, Bool, true, false, Option, some, List, [],
  ◌∷◌, ◌++◌, append_assoc, append-nil, Bytes, bytes_eq_iff, codes, ok, err, arith, if◌then◌else◌,
  All,
}
use xetcas.Contracts.Bridge.{LfsObjectSpec, LfsBatchRequest, LfsBatchObject, LfsBatchResponse}
use xetcas.Contracts.Validate.Bridge.{validate_lfs_batch_request}
use xetcas.Contracts.Validate.BridgeLaws.{IsBatchObject, IsBatchResponse, batch-accepts}
use xetcas.Errors.{internal}
use xetcas.Headers.{Header}
use xetcas.Index.{Codec, IndexError, Tables}
use xetcas.State.{Config}
use xetcas.Lfs.{
  Reply, index_failed, forwarded_authorization, contains_text, upload_object, download_object,
  push_objects, upload_batch, download_batch, respond, batch,
}
use xetcas.Lfs.Objects.{
  Answers, Answered, nil, cons, Unless, upload_object-Answers, download_object-Answers,
}

module _ (auth : Option Bytes) (object : ℕ → LfsObjectSpec → Reply LfsBatchObject)
    (answers : (i : ℕ) (spec : LfsObjectSpec) → Unless (object i spec) (Answers auth spec)) where
  push_objects-Answered :
      (i : ℕ) (specs : List LfsObjectSpec) (before : List LfsBatchObject)
      → ((e : IndexError) × (push_objects object i specs before ≡ err (internal (index_failed e))))
        ⊎ ((os : List LfsBatchObject) × (push_objects object i specs before ≡ ok (before ++ os))
            × Answered auth specs os)
  unfolding push_objects
  push_objects-Answered i [] before = inr ([], ap ok (sym (append-nil before)), nil)
  push_objects-Answered i (spec ∷ specs) before = elim (answers i spec) [
    | inl (e, h) ↦ inl (e, rw h refl)
    | inr (o, h, a) ↦ elim (push_objects-Answered (i + 1) specs (before ++ o ∷ [])) [
      | inl (e, k) ↦ inl (e, rw h k)
      | inr (os, k, rest) ↦
          inr (o ∷ os, rw h (k ∙ ap ok (append_assoc before (o ∷ []) os)), cons a rest)
    ]
  ]

-- A response to the requested objects.
abbrev pub Responds : Option Bytes → List LfsObjectSpec → LfsBatchResponse → Type 0
Responds auth specs r = IsBatchResponse r × Answered auth specs r.objects

Answered-IsBatchObject :
    (auth : Option Bytes) (specs : List LfsObjectSpec) (os : List LfsBatchObject)
    → Answered auth specs os
    → All IsBatchObject os
Answered-IsBatchObject auth [] [] nil = tt
Answered-IsBatchObject auth [] (o ∷ os) a = elim a [ ]
Answered-IsBatchObject auth (spec ∷ specs) [] a = elim a [ ]
Answered-IsBatchObject auth (spec ∷ specs) (o ∷ os) (cons a rest) =
    (a.2, Answered-IsBatchObject auth specs os rest)

module _ (codec : Codec) (config : Config) (t : Tables) (auth : Option Bytes) where
  upload_batch-Responds :
      (fresh : ℕ → ℕ × Bytes) (q : LfsBatchRequest)
      → Unless (upload_batch codec config t auth fresh q) (Responds auth q.objects)
  unfolding upload_batch
  upload_batch-Responds fresh q =
      let offers_xet = contains_text (codes "xet") q.transfers in
      elim (push_objects-Answered auth (λ i. upload_object codec config t auth offers_xet (fresh i))
        (λ i spec. upload_object-Answers codec config t auth offers_xet (fresh i) spec) 0 q.objects
        []) [
          | inl (e, h) ↦ inl (e, rw h refl)
          | inr (os, h, a) ↦ inr (
            record {
              transfer = if offers_xet then codes "xet" else codes "basic";
              objects = os;
              hash_algo = codes "sha256";
            },
            rw h refl,
            ((transfer offers_xet, Answered-IsBatchObject auth q.objects os a), a),
          )
        ]
    where
      transfer :
          (b : Bool)
          → ((if b then codes "xet" else codes "basic") ≡ codes "xet")
            ⊎ ((if b then codes "xet" else codes "basic") ≡ codes "basic")
      transfer true = inl refl
      transfer false = inr refl

  download_batch-Responds :
      (q : LfsBatchRequest)
      → Unless (download_batch codec config t auth q) (Responds auth q.objects)
  unfolding download_batch
  download_batch-Responds q =
      elim (push_objects-Answered auth (λ i. download_object codec config t auth)
        (λ i spec. download_object-Answers codec config t auth spec) 0 q.objects []) [
          | inl (e, h) ↦ inl (e, rw h refl)
          | inr (os, h, a) ↦ inr (
            record { transfer = codes "basic"; objects = os; hash_algo = codes "sha256" },
            rw h refl,
            ((inr refl, Answered-IsBatchObject auth q.objects os a), a),
          )
        ]

  respond-upload :
      (fresh : ℕ → ℕ × Bytes) (q : LfsBatchRequest)
      → q.operation ≡ codes "upload"
      → respond codec config t auth fresh q ≡ upload_batch codec config t auth fresh q
  unfolding respond
  respond-upload fresh q h = ground (arith, bytes_eq_iff q.operation (codes "upload"))

  respond-download :
      (fresh : ℕ → ℕ × Bytes) (q : LfsBatchRequest)
      → q.operation ≡ codes "download"
      → respond codec config t auth fresh q ≡ download_batch codec config t auth q
  unfolding respond
  respond-download fresh q h = ground (
    arith,
    bytes_eq_iff q.operation (codes "upload"),
    bytes_eq_iff q.operation (codes "download"),
  )

  respond-Responds :
      (fresh : ℕ → ℕ × Bytes) (q : LfsBatchRequest)
      → (q.operation ≡ codes "upload") ⊎ (q.operation ≡ codes "download")
      → Unless (respond codec config t auth fresh q) (Responds auth q.objects)
  respond-Responds fresh q (inl h) =
      subst (λ m. Unless m (Responds auth q.objects)) (sym (respond-upload fresh q h))
        (upload_batch-Responds fresh q)
  respond-Responds fresh q (inr h) =
      subst (λ m. Unless m (Responds auth q.objects)) (sym (respond-download fresh q h))
        (download_batch-Responds q)

-- Every request that parses and passes its validator is answered, unless a row of the index does not decode:
-- the response passes its own validator, so the server never fails on it; it has one entry for each
-- requested object, in their order, with its id and size; and each action in it carries the credential
-- that the request came with, trimmed, where `authenticated` is set exactly when there is one.
pub batch-Responds :
    (codec : Codec) (from_slice : Bytes → Option LfsBatchRequest) (config : Config)
    (fresh : ℕ → ℕ × Bytes) (authorization : Header) (body : Bytes) (t : Tables)
    (q : LfsBatchRequest)
    → from_slice body ≡ some q
    → validate_lfs_batch_request q ≡ ok tt
    → Unless
        (batch codec from_slice config fresh authorization body t)
        (Responds (forwarded_authorization authorization) q.objects)
unfolding batch
batch-Responds codec from_slice config fresh authorization body t q parsed valid =
    let auth = forwarded_authorization authorization in
    elim (respond-Responds codec config t auth fresh q
      ((batch-accepts q (record { transfer = []; objects = []; hash_algo = [] })).0.0 valid).0) [
        | inl (e, h) ↦ inl (e, rw (parsed, valid, h) refl)
        | inr (r, h, (good, a)) ↦
            inr (r, rw (parsed, valid, h, (batch-accepts q r).1.1 good) refl, (good, a))
      ]
