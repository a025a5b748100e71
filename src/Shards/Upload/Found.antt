-- ===== src/Shards/Upload/Found.antt =====
-- What crates/xetcasd/src/index.rs finds by a SHA-256, when each row is that of a checked file.
use xetcas.Prelude.{
  ◌≡◌, ◌≢◌, sym, ap, subst, ◌∙◌, ◌⊎◌, inl, inr, Bool, true, false, Bool-cases, Option-cases, none,
  some, [], ◌∷◌, Bytes, bytes_eq, bytes_eq_iff, ok, arith, All,
}
use xetcas.Contracts.Storage.{FileRecord}
use xetcas.Filestream.{Decoding, content_sha256}
use xetcas.Index.{Codec, FileRow, Tables, file_by_sha256, file_row}
use xetcas.Index.Table.{Rows, least, text_before}
use xetcas.Xorbs.{Store}
use xetcas.Shards.Upload.Verified.{IsVerified, IsGoodRow}

least-cases :
    {V : Type 0} (p : V → Bool) (m : Rows V) (j k : Bytes) (w v : V)
    → least p ((j, w) ∷ m) ≡ some (k, v)
    → ((j ≡ k) × (w ≡ v) × (p w ≡ true)) ⊎ (least p m ≡ some (k, v))
unfolding least
least-cases p m j k w v h = elim (Bool-cases (p w)) [
  | inr b ↦ inr (ground arith)
  | inl b ↦ elim (Option-cases (least p m)) [
    | inl n ↦ inl (ground arith, ground arith, b)
    | inr ((i, u), e) ↦ elim (Bool-cases (text_before i j)) [
      | inl t ↦ inr (ground arith)
      | inr t ↦ inl (ground arith, ground arith, b)
    ]
  ]
]

-- The least row that passes a test is one of the rows.
least-All :
    {V : Type 0} (P : Bytes × V → Type 0) (p : V → Bool) (m : Rows V) (k : Bytes) (v : V)
    → All P m
    → least p m ≡ some (k, v)
    → P (k, v) × (p v ≡ true)
unfolding least
least-All P p [] k v a h = absurd (cc)
least-All P p ((j, w) ∷ m) k v a h = elim (least-cases p m j k w v h) [
  | inl (x, y, b) ↦ (rw (← x, ← y) a.0, rw (← y) b)
  | inr e ↦ least-All P p m k v a.1 e
]

some-inj : {A : Type 0} {a b : A} → some a ≡ some b → a ≡ b
some-inj h = cc

-- The test of `WHERE sha256 = ?1`.
abbrev has_sha256 : Bytes → FileRow → Bool
has_sha256 oid row = elim row.sha256 [ none ↦ false | some s ↦ bytes_eq s oid ]

module _ (codec : Codec) (decoding : Decoding) where
  file_by_sha256-row :
      (oid : Bytes) (t : Tables) (f : FileRecord)
      → file_by_sha256 codec oid t ≡ ok (some f)
      → (k : Bytes) × (row : FileRow) × ((least (has_sha256 oid) t.files ≡ some (k, row))
          × (codec.decode_file row.blob ≡ some f))
  unfolding file_by_sha256
  file_by_sha256-row oid t f h = elim (Option-cases (least (has_sha256 oid) t.files)) [
    | inl n ↦ absurd (ground arith)
    | inr ((k, row), e) ↦ elim (Option-cases (codec.decode_file row.blob)) [
      | inl n ↦ absurd (ground arith)
      | inr (g, d) ↦ (k, row, (e, d ∙ ap some (ground arith)))
    ]
  ]

  row-sha256 :
      (oid sha256 : Bytes) (row : FileRow)
      → row.sha256 ≡ elim sha256 [ [] ↦ none | c ∷ s ↦ some (c ∷ s) ]
      → has_sha256 oid row ≡ true
      → (sha256 ≡ oid) × (sha256 ≢ [])
  row-sha256 oid [] row e h = absurd (ground arith)
  row-sha256 oid (c ∷ s) row e h = (ground (arith, bytes_eq_iff (c ∷ s) oid), λ n. cc)

  good-row :
      (s : Store) (oid : Bytes) (g : FileRecord) (row : FileRow)
      → row ≡ file_row codec g
      → IsVerified codec decoding s g
      → has_sha256 oid row ≡ true
      → (row.blob ≡ codec.encode_file g) × (content_sha256 decoding codec g s ≡ ok oid)
  unfolding file_row
  good-row s oid g row r v b =
      let (same, there_is) = row-sha256 oid g.sha256 row (ap (λ x. x.sha256) r) b in
      elim v [ inl n ↦ absurd (there_is n) | inr c ↦ (ap (λ x. x.blob) r, c ∙ ap ok same) ]

  pub file_by_sha256-content :
      (s : Store) (oid : Bytes) (f : FileRecord)
      → ((g : FileRecord) → codec.decode_file (codec.encode_file g) ≡ some g)
      → All (IsGoodRow codec decoding s) s.index.files
      → file_by_sha256 codec oid s.index ≡ ok (some f)
      → content_sha256 decoding codec f s ≡ ok oid
  file_by_sha256-content s oid f decodes a h =
      let (k, row, (e, d)) = file_by_sha256-row oid s.index f h in
      let ((g, r, v), b) =
        least-All (IsGoodRow codec decoding s) (has_sha256 oid) s.index.files k row a e in
      let (blob, content) = good-row s oid g row r v b in
      let same = some-inj (sym (decodes g) ∙ ap codec.decode_file (sym blob) ∙ d) in
      subst (λ x. content_sha256 decoding codec x s ≡ ok oid) same content
