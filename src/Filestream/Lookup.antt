-- ===== src/Filestream/Lookup.antt =====
-- The records that crates/xetcasd/src/filestream.rs gets of the index while the store grows.
use xetcas.Prelude.{
  ◌≡◌, refl, sym, ap, subst, ◌∙◌, ◌⊎◌, inl, inr, Bool-cases, Option-cases, none, some, List, [],
  ◌∷◌, Bytes, bytes_eq, bytes_eq→eq, lookup, insert, lookup-insert, ok, ok-inj, arith, All,
}
use xetcas.Contracts.Storage.{XorbRecord}
use xetcas.Index.{Codec, Tables, get_xorb, get_xorbs_into}
use xetcas.Xorbs.{Store}

pub no-entry : (j : Bytes) (q : XorbRecord) → lookup j [] ≡ some q → ⊥
unfolding lookup
no-entry j q n = cc

module _ (codec : Codec) where
  -- The xorb is indexed.
  abbrev pub Indexed : Tables → Bytes → Type 0
  Indexed t k = (r : XorbRecord) × (get_xorb codec k t ≡ ok (some r))

  -- Indexed xorbs keep their records and their objects.
  abbrev pub Extends : Store → Store → Type 0
  Extends s s' =
      ((k : Bytes) (r : XorbRecord)
        → get_xorb codec k s.index ≡ ok (some r)
        → get_xorb codec k s'.index ≡ ok (some r))
      × ((k object : Bytes)
          → Indexed s.index k
          → lookup k s.objects ≡ some object
          → lookup k s'.objects ≡ some object)

  get_xorbs_into-nil :
      (out : List (Bytes × XorbRecord)) (t : Tables) → get_xorbs_into codec out [] t ≡ ok out
  unfolding get_xorbs_into
  get_xorbs_into-nil out t = refl

  get_xorbs_into-found :
      (out : List (Bytes × XorbRecord)) (k : Bytes) (ks : List Bytes) (t : Tables) (r : XorbRecord)
      → get_xorb codec k t ≡ ok (some r)
      → get_xorbs_into codec out (k ∷ ks) t ≡ get_xorbs_into codec (insert k r out) ks t
  unfolding get_xorbs_into get_xorb
  get_xorbs_into-found out k ks t r h = ground arith

  get_xorbs_into-missing :
      (out : List (Bytes × XorbRecord)) (k : Bytes) (ks : List Bytes) (t : Tables)
      → get_xorb codec k t ≡ ok none
      → get_xorbs_into codec out (k ∷ ks) t ≡ get_xorbs_into codec out ks t
  unfolding get_xorbs_into get_xorb
  get_xorbs_into-missing out k ks t h = ground arith

  get_xorbs_into-cases :
      (out m : List (Bytes × XorbRecord)) (k : Bytes) (ks : List Bytes) (t : Tables)
      → get_xorbs_into codec out (k ∷ ks) t ≡ ok m
      → (get_xorb codec k t ≡ ok none) ⊎ Indexed t k
  unfolding get_xorbs_into get_xorb
  get_xorbs_into-cases out m k ks t h = elim (Option-cases (lookup k t.xorbs)) [
    | inl e ↦ inl (ground arith)
    | inr (blob, e) ↦ elim (Option-cases (codec.decode_xorb blob)) [
      | inl d ↦ absurd (ground arith)
      | inr (r, d) ↦ inr (r, ground arith)
    ]
  ]

  -- What the index gave is indexed.
  pub get_xorbs_into-Indexed :
      (out m : List (Bytes × XorbRecord)) (ks : List Bytes) (t : Tables) (j : Bytes)
      (r : XorbRecord)
      → get_xorbs_into codec out ks t ≡ ok m
      → ((q : XorbRecord) → lookup j out ≡ some q → Indexed t j)
      → lookup j m ≡ some r
      → Indexed t j
  get_xorbs_into-Indexed out m [] t j r h i e =
      i r (ap (lookup j) (ok-inj (ok out) refl (sym (get_xorbs_into-nil out t) ∙ h)) ∙ e)
  get_xorbs_into-Indexed out m (k ∷ ks) t j r h i e = elim (get_xorbs_into-cases out m k ks t h) [
    | inl n ↦
        get_xorbs_into-Indexed out m ks t j r (sym (get_xorbs_into-missing out k ks t n) ∙ h) i e
    | inr (p, n) ↦
        get_xorbs_into-Indexed (insert k p out) m ks t j r
          (sym (get_xorbs_into-found out k ks t p n) ∙ h)
          (λ q l. elim (Bool-cases (bytes_eq k j)) [
            | inl b ↦ (p, subst (λ x. get_xorb codec x t ≡ ok (some p)) (bytes_eq→eq k j b) n)
            | inr b ↦ i q (let w = lookup-insert k j p out in ground arith)
          ])
          e
  ]

  -- With all keys indexed the answer stays.
  pub get_xorbs_into-stable :
      (s s' : Store) (out : List (Bytes × XorbRecord)) (ks : List Bytes)
      → Extends s s'
      → All (Indexed s.index) ks
      → get_xorbs_into codec out ks s'.index ≡ get_xorbs_into codec out ks s.index
  get_xorbs_into-stable s s' out [] x a = (unfold get_xorbs_into in refl)
  get_xorbs_into-stable s s' out (k ∷ ks) x ((r, e), a) =
      get_xorbs_into-found out k ks s'.index r (x.0 k r e)
      ∙ get_xorbs_into-stable s s' (insert k r out) ks x a
      ∙ sym (get_xorbs_into-found out k ks s.index r e)
