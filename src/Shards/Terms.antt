-- ===== src/Shards/Terms.antt =====
-- The loop over a file's terms in `build_records` (crates/xetcasd/src/routes/shards.rs): what a term
-- that it accepts satisfies.
use xetcas.Prelude.{
  ℕ, ◌+◌, ◌≤◌, ◌<◌, ◌≡◌, ap, ◌∙◌, false, not, ◌||◌, some, List, [], ◌∷◌, Bytes, lookup, ok, All,
  arith, leb, ltb, ◌==◌, bind-ok, ok_or-some, map_err-ok, fail_if-ok,
}
use xetcas.Contracts.Storage.{XorbRecord, FileTermRecord}
use xetcas.Reconstruction.Meta.{from_record, num_chunks, unpacked_len}
use xetcas.Shards.{Hashing, Xorbs, check_term, check_terms}

-- The term names a stored xorb and a range of its chunks that is not empty, and declares the bytes
-- that they decode to.
pub record Backed (xorbs : Xorbs) (term : FileTermRecord) : Type 0 where
  pub stored : XorbRecord
  pub found : lookup term.xorb_hash xorbs ≡ some stored
  pub ordered : term.chunk_index_start < term.chunk_index_end
  pub inside : term.chunk_index_end ≤ num_chunks (from_record stored)
  pub declares :
      unpacked_len (from_record stored) term.chunk_index_start term.chunk_index_end
      ≡ ok term.unpacked_segment_bytes

outside : (s e n : ℕ) → (leb e s || ltb n e) ≡ false → (s < e) × (e ≤ n)
outside s e n h = ground arith

equal : (a b : ℕ) → not (a == b) ≡ false → a ≡ b
equal a b h = ground arith

module _ (h : Hashing) (xorbs : Xorbs) (verification : Bytes) where
  pub check_term-Backed :
      (i : ℕ) (term : FileTermRecord) (so_far after : ℕ × List (h.MerkleHash × ℕ))
      → check_term h xorbs verification i term so_far ≡ ok after
      → Backed xorbs term
  unfolding check_term
  check_term-Backed i term so_far after e =
      let (stored, e1, h1) = bind-ok _ _ after e in
      let (_, e2, h2) = bind-ok _ _ after h1 in
      let (expected, e3, h3) = bind-ok _ _ after h2 in
      let (_, e4, h4) = bind-ok _ _ after h3 in
      let (ordered, inside) = outside _ _ _ (fail_if-ok _ _ e2) in
      let same = equal expected term.unpacked_segment_bytes (fail_if-ok _ _ e4) in
      record {
        stored = stored;
        found = ok_or-some _ _ stored e1;
        ordered = ordered;
        inside = inside;
        declares = map_err-ok _ _ expected e3 ∙ ap ok same;
      }

  pub check_terms-Backed :
      (i : ℕ) (terms : List FileTermRecord) (so_far after : ℕ × List (h.MerkleHash × ℕ))
      → check_terms h xorbs verification i terms so_far ≡ ok after
      → All (Backed xorbs) terms
  unfolding check_terms
  check_terms-Backed i [] so_far after e = tt
  check_terms-Backed i (term ∷ terms) so_far after e =
      let (next, e1, h1) = bind-ok _ _ after e in
      (check_term-Backed i term so_far next e1, check_terms-Backed (i + 1) terms next after h1)
