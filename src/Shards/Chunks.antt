-- ===== src/Shards/Chunks.antt =====
-- The chunks of a file's terms, as the stored xorbs have them, and the loops of `build_records`
-- (crates/xetcasd/src/routes/shards.rs) that collect them.
use xetcas.Prelude.{
  ℕ, zero, suc, ◌+◌, ◌-◌, ◌*◌, ◌%◌, ◌^◌, ◌<◌, ◌≤◌, ◌≡◌, refl, sym, ap, subst, ◌∙◌, ◌⊎◌, inl, inr,
  true, false, not, Bool-cases, some, List, [], ◌∷◌, ◌++◌, append_assoc, append-nil, Bytes,
  bytes_eq→eq, lookup, length, take, drop, ok, bind-ok, ok-inj, ok_or-some, map_err-ok, fail_if-ok,
  arith, ◌==◌, if◌then◌else◌,
}
use xetcas.Prelude.Words.{add_u64}
use xetcas.Contracts.Constants.{hash_bytes}
use xetcas.Contracts.Storage.{XorbRecord, FileTermRecord}
use xetcas.Contracts.Validate.Fields.{is_empty}
use xetcas.Reconstruction.Meta.{from_record, chunk_len, unpacked_len}
use xetcas.Shards.{
  Hashing, Xorbs, chunk_hash_at, push_chunks, hashes_of, check_range_hash, check_term, check_terms,
}
use xetcas.Shards.Terms.{check_term-Backed}

shift : (i n : ℕ) → i + 1 + n ≡ i + suc n
shift i n = omega arith

range_end : (start end : ℕ) → start < end → start + (end - start) ≡ end
range_end start end h = omega arith

module _ (h : Hashing) where
  -- The hash with the number `i` among the concatenated hashes of a record.
  pub record IsChunkHash (r : XorbRecord) (i : ℕ) (m : h.MerkleHash) : Type 0 where
    pub inside : i * hash_bytes + hash_bytes ≤ length r.chunk_hashes
    pub reads : h.from_slice (take hash_bytes (drop (i * hash_bytes) r.chunk_hashes)) ≡ some m

  -- The chunks of a record from one index up to another one.
  pub data Chunks (r : XorbRecord) : ℕ → ℕ → List (h.MerkleHash × ℕ) → Type 0 where
    empty : (i : ℕ) → Chunks r i i []
    chunk :
        (i end len : ℕ) (m : h.MerkleHash) (cs : List (h.MerkleHash × ℕ))
        → IsChunkHash r i m
        → chunk_len (from_record r) i ≡ ok len
        → Chunks r (i + 1) end cs
        → Chunks r i end ((m, len) ∷ cs)

  pub chunk_hash_at-IsChunkHash :
      (r : XorbRecord) (i : ℕ) (m : h.MerkleHash) → chunk_hash_at h r i ≡ ok m → IsChunkHash r i m
  unfolding chunk_hash_at
  chunk_hash_at-IsChunkHash r i m e =
      let (_, p, e1) = bind-ok _ _ m e in
      let small = fail_if-ok _ _ p in record { inside = ground arith; reads = ok_or-some _ _ m e1 }

  push_chunks-Chunks :
      (r : XorbRecord) (i n : ℕ) (before after : List (h.MerkleHash × ℕ))
      → push_chunks h r (from_record r) i n before ≡ ok after
      → (cs : List (h.MerkleHash × ℕ)) × Chunks r i (i + n) cs × (after ≡ before ++ cs)
  unfolding push_chunks
  push_chunks-Chunks r i zero before after e =
      let n : i ≡ i + 0 = omega arith in
      (
        [],
        subst (λ k. Chunks r i k []) n (empty i),
        sym (ok-inj (ok before) refl e) ∙ sym (append-nil before),
      )
  push_chunks-Chunks r i (suc n) before after e =
      let (m, p, e1) = bind-ok _ _ after e in
      let (len, q, e2) = bind-ok _ _ after e1 in
      let (cs, c, whole) = push_chunks-Chunks r (i + 1) n (before ++ (m, len) ∷ []) after e2 in
      (
        (m, len) ∷ cs,
        chunk i (i + suc n) len m cs (chunk_hash_at-IsChunkHash r i m (map_err-ok _ _ m p))
            (map_err-ok _ _ len q) (subst (λ x. Chunks r (i + 1) x cs) (shift i n) c),
        whole ∙ append_assoc before ((m, len) ∷ []) cs,
      )

-- The bytes that the terms of a file declare.
abbrev pub declared_bytes : List FileTermRecord → ℕ
declared_bytes [] = 0
declared_bytes (t ∷ ts) = t.unpacked_segment_bytes + declared_bytes ts

module _ (h : Hashing) (xorbs : Xorbs) (verification : Bytes) where
  -- The range hash with the number `i`, if the shard has range hashes, is that over these chunks.
  abbrev pub IsRangeHash : ℕ → List (h.MerkleHash × ℕ) → Type 0
  IsRangeHash i cs =
      (verification ≡ [])
      ⊎ (h.as_bytes (h.range_hash_from_chunks (hashes_of h cs))
          ≡ take hash_bytes (drop (i * hash_bytes) verification))

  -- The chunks of all terms in order, of which the first has the number `i`.
  pub data TermChunks : ℕ → List FileTermRecord → List (h.MerkleHash × ℕ) → Type 0 where
    no_terms : (i : ℕ) → TermChunks i [] []
    term :
        (i : ℕ) (t : FileTermRecord) (ts : List FileTermRecord) (r : XorbRecord)
        (cs ds : List (h.MerkleHash × ℕ))
        → lookup t.xorb_hash xorbs ≡ some r
        → Chunks h r t.chunk_index_start t.chunk_index_end cs
        → IsRangeHash i cs
        → TermChunks (i + 1) ts ds
        → TermChunks i (t ∷ ts) (cs ++ ds)

  is_empty-nil : (s : Bytes) → is_empty s ≡ true → s ≡ []
  is_empty-nil [] e = refl
  is_empty-nil (c ∷ s) e = absurd (cc)

  drop-length : (xs ys : List (h.MerkleHash × ℕ)) → drop (length xs) (xs ++ ys) ≡ ys
  drop-length [] ys = refl
  drop-length (x ∷ xs) ys = drop-length xs ys

  compared-IsRangeHash :
      (i : ℕ) (before cs chunks : List (h.MerkleHash × ℕ))
      → chunks ≡ before ++ cs
      → (if is_empty verification
          then ok tt
          else check_range_hash h (drop (length before) chunks) verification i)
        ≡ ok tt
      → IsRangeHash i cs
  unfolding check_range_hash
  compared-IsRangeHash i before cs chunks whole e = elim (Bool-cases (is_empty verification)) [
    | inl n ↦ inl (is_empty-nil verification n)
    | inr n ↦
        let compared = fail_if-ok _ _ (rw n at e) in
        let own : drop (length before) chunks ≡ cs =
          ap (λ l. drop (length before) l) whole ∙ drop-length before cs in
        inr (
          ap (λ l. h.as_bytes (h.range_hash_from_chunks (hashes_of h l))) (sym own)
          ∙ bytes_eq→eq _ _ (ground arith))
  ]

  check_term-Chunks :
      (i : ℕ) (t : FileTermRecord) (so_far after : ℕ × List (h.MerkleHash × ℕ))
      → check_term h xorbs verification i t so_far ≡ ok after
      → (r : XorbRecord) × (cs : List (h.MerkleHash × ℕ)) × ((lookup t.xorb_hash xorbs ≡ some r)
          × Chunks h r t.chunk_index_start t.chunk_index_end cs
          × IsRangeHash i cs
          × (after.1 ≡ so_far.1 ++ cs)
          × (after.0 ≡ add_u64 so_far.0 t.unpacked_segment_bytes))
  unfolding check_term
  check_term-Chunks i t so_far after e =
      let (r, e1, h1) = bind-ok _ _ after e in
      let (_, e2, h2) = bind-ok _ _ after h1 in
      let (expected, e3, h3) = bind-ok _ _ after h2 in
      let (_, e4, h4) = bind-ok _ _ after h3 in
      let (chunks, e5, h5) = bind-ok _ _ after h4 in
      let (_, e6, h6) = bind-ok _ _ after h5 in
      let inside = fail_if-ok _ _ e2 in
      let found : lookup t.xorb_hash xorbs ≡ some r = ok_or-some _ _ r e1 in
      let measured : unpacked_len (from_record r) t.chunk_index_start t.chunk_index_end
          ≡ ok expected =
        map_err-ok _ _ expected e3 in
      let same : not (expected == t.unpacked_segment_bytes) ≡ false = fail_if-ok _ _ e4 in
      let ordered : t.chunk_index_start < t.chunk_index_end =
        (check_term-Backed h xorbs verification i t so_far after e).ordered in
      let (cs, c, whole) =
        push_chunks-Chunks h r t.chunk_index_start (t.chunk_index_end - t.chunk_index_start)
          so_far.1 chunks e5 in
      let made = ok-inj (ok _) refl h6 in
      (
        r,
        cs,
        (
          found,
          subst (λ k. Chunks h r t.chunk_index_start k cs) (range_end _ _ ordered) c,
          compared-IsRangeHash i so_far.1 cs chunks whole e6,
          ap (λ a. a.1) (sym made) ∙ whole,
          ap (λ a. a.0) (sym made),
        ),
      )

  pub check_terms-TermChunks :
      (i : ℕ) (ts : List FileTermRecord) (so_far after : ℕ × List (h.MerkleHash × ℕ))
      → check_terms h xorbs verification i ts so_far ≡ ok after
      → so_far.0 < 2 ^ 64
      → (cs : List (h.MerkleHash × ℕ)) × (TermChunks i ts cs
          × (after.1 ≡ so_far.1 ++ cs)
          × (after.0 ≡ (so_far.0 + declared_bytes ts) % 2 ^ 64))
  unfolding check_terms add_u64
  check_terms-TermChunks i [] so_far after e small =
      let made = ok-inj (ok so_far) refl e in
      let len = ap (λ a. a.0) made in
      ([], (no_terms i, sym (append-nil so_far.1 ∙ ap (λ a. a.1) made), omega (arith, len)))
  check_terms-TermChunks i (t ∷ ts) so_far after e small =
      let (next, e1, h1) = bind-ok _ _ after e in
      let (r, cs, (found, c, range, more, len)) = check_term-Chunks i t so_far next e1 in
      let (ds, (rest, whole, total)) =
        check_terms-TermChunks (i + 1) ts next after h1 (omega (arith, len)) in
      (
        cs ++ ds,
        (
          term i t ts r cs ds found c range rest,
          whole ∙ ap (λ l. l ++ ds) more ∙ append_assoc so_far.1 cs ds,
          omega (arith, len, total),
        ),
      )
