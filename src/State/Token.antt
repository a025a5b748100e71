-- ===== src/State/Token.antt =====
-- Whom `authorize` of crates/xetcasd/src/state.rs lets through.
use xetcas.Prelude.{
  ◌≡◌, refl, ap, ◌∙◌, ◌↔◌, ◌⊎◌, inl, inr, Bool-cases, Option-cases, none, some, [], ◌∷◌, ◌++◌,
  Bytes, bytes_eq, bytes_eq→eq, bytes_eq_refl, codes, ok, arith,
}
use xetcas.Headers.{Header, absent, unreadable, value}
use xetcas.HttpRange.{trim, strip_prefix}
use xetcas.State.{Config, presented, authorize}

strip_prefix-append : (p s : Bytes) → strip_prefix p (p ++ s) ≡ some s
unfolding strip_prefix
strip_prefix-append [] s = refl
strip_prefix-append (c ∷ p) s = ground (arith, strip_prefix-append p s)

strip_prefix-some : (p s rest : Bytes) → strip_prefix p s ≡ some rest → s ≡ p ++ rest
unfolding strip_prefix
strip_prefix-some [] s rest h = cc
strip_prefix-some (c ∷ p) [] rest h = absurd (cc)
strip_prefix-some (c ∷ p) (d ∷ s) rest h = ground (arith, strip_prefix-some p s rest)

-- The header reads "Bearer ", then the token, perhaps with white space around it.
abbrev pub Carries : Header → Bytes → Type 0
Carries header token =
    (rest : Bytes) × (header ≡ value (codes "Bearer " ++ rest)) × (trim rest ≡ token)

presented-value : (rest : Bytes) → presented (value (codes "Bearer " ++ rest)) ≡ some (trim rest)
unfolding presented
presented-value rest = rw (strip_prefix-append (codes "Bearer ") rest) refl

presented-Carries :
    (header : Header) (token : Bytes) → presented header ≡ some token → Carries header token
unfolding presented
presented-Carries absent token h = absurd (cc)
presented-Carries unreadable token h = absurd (cc)
presented-Carries (value s) token h = elim (Option-cases (strip_prefix (codes "Bearer ") s)) [
  | inl e ↦ absurd (ground arith)
  | inr (rest, e) ↦ (rest, ap value (strip_prefix-some (codes "Bearer ") s rest e), ground arith)
]

module _ (M : Type 0) where
  authorize-none :
      (config : Config) (header : Header)
      → config.token ≡ none
      → authorize {M = M} config header ≡ ok tt
  unfolding authorize
  authorize-none config header h = rw h refl

  authorize-some :
      (config : Config) (header : Header) (expected : Bytes)
      → config.token ≡ some expected
      → presented header ≡ some expected
      → authorize {M = M} config header ≡ ok tt
  unfolding authorize
  authorize-some config header expected h p = ground (arith, bytes_eq_refl expected)

  authorize-presented :
      (config : Config) (header : Header) (expected : Bytes)
      → config.token ≡ some expected
      → authorize {M = M} config header ≡ ok tt
      → presented header ≡ some expected
  unfolding authorize
  authorize-presented config header expected h p = elim (Option-cases (presented header)) [
    | inl e ↦ absurd (ground arith)
    | inr (token, e) ↦ elim (Bool-cases (bytes_eq token expected)) [
      | inl same ↦ e ∙ ap some (bytes_eq→eq token expected same)
      | inr other ↦ absurd (ground arith)
    ]
  ]

-- A request passes exactly when no token is configured or its Authorization header carries the token
-- that is.
pub authorize-Carries :
    (M : Type 0) (config : Config) (header : Header)
    → (authorize {M = M} config header ≡ ok tt) ↔ (
        (config.token ≡ none)
        ⊎ ((expected : Bytes) × (config.token ≡ some expected) × Carries header expected))
authorize-Carries M config header = (
  λ h. elim (Option-cases config.token) [
    | inl e ↦ inl e
    | inr (expected, e) ↦ inr (
      expected,
      e,
      presented-Carries header expected (authorize-presented M config header expected e h),
    )
  ],
  λ h. elim h [
    | inl e ↦ authorize-none M config header e
    | inr (expected, e, (rest, p, q)) ↦
        authorize-some M config header expected e
          (ap presented p ∙ presented-value rest ∙ ap some q)
  ],
)
