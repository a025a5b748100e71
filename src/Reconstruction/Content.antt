-- ===== src/Reconstruction/Content.antt =====
-- What the terms of crates/xetcasd/src/reconstruction.rs stand for: the bytes of the chunks that they
-- name. `f i` is the uncompressed content of chunk `i` of a xorb.
use xetcas.Prelude.{
  ℕ, zero, suc, ◌+◌, ◌-◌, ◌^◌, ◌≤◌, ◌<◌, ◌≡◌, refl, sym, ap, ◌∙◌, some, List, [], ◌∷◌, ◌++◌,
  append_assoc, append-nil, Bytes, ok, length, length-append, get_elem?, arith, fail_if, ltb, leb,
  ge→ltb, gt→leb, false, ◌==◌, Bool-cases, inl, inr,
}
use xetcas.Prelude.Words.{as_u32_of_lt, sub_u32_of_le, sub_u64_of_le}
use xetcas.Reconstruction.Meta.{
  XorbMeta, num_chunks, offset_before, chunk_len, unpacked_len, byte_offset,
}

-- The bytes of `n` chunks from chunk `s` on.
unfoldable pub span : (ℕ → Bytes) → ℕ → ℕ → Bytes
span f s zero = []
span f s (suc n) = f s ++ span f (suc s) n

pub span-add : (f : ℕ → Bytes) (s n m : ℕ) → span f s (n + m) ≡ span f s n ++ span f (s + n) m
unfolding span
span-add f s zero m =
    let e : zero + m ≡ m = omega arith in let e' : s + zero ≡ s = omega arith in rw (e, e')
span-add f s (suc n) m =
    let e : suc n + m ≡ suc (n + m) = omega arith in
    let e' : suc s + n ≡ s + suc n = omega arith in
    rw e (rw (span-add f (suc s) n m, e') (sym (append_assoc (f s) _ _)))

pub span-one : (f : ℕ → Bytes) (s : ℕ) → span f s 1 ≡ f s
unfolding span
span-one f s = append-nil (f s)

pub length-span_add :
    (f : ℕ → Bytes) (s n m : ℕ)
    → length (span f s (n + m)) ≡ length (span f s n) + length (span f (s + n) m)
length-span_add f s n m = ap length (span-add f s n m) ∙ length-append (span f s n) _

-- A shorter run has no more bytes.
pub length-span_le : (f : ℕ → Bytes) (s k n : ℕ) → k ≤ n → length (span f s k) ≤ length (span f s n)
length-span_le f s k n h =
    let e : k + (n - k) ≡ n = omega arith in
    omega (arith, length-span_add f s k (n - k), ap (λ j. length (span f s j)) e)

-- One chunk more at the front.
pub length-span-suc :
    (f : ℕ → Bytes) (s n : ℕ) → length (span f s (suc n)) ≡ length (f s) + length (span f (suc s) n)
unfolding span
length-span-suc f s n = length-append (f s) _

-- One chunk more at the end.
pub length-span_snoc :
    (f : ℕ → Bytes) (s n : ℕ) → length (span f s (suc n)) ≡ length (span f s n) + length (f (s + n))
length-span_snoc f s n =
    let e : suc n ≡ n + 1 = omega arith in
    rw e (
      length-span_add f s n 1
      ∙ ap (λ (b : Bytes). length (span f s n) + length b) (span-one f (s + n)))

pub length-span_next :
    (f : ℕ → Bytes) (n : ℕ) → length (span f 0 (suc n)) ≡ length (span f 0 n) + length (f n)
length-span_next f n = let e : 0 + n ≡ n = omega arith in length-span_snoc f 0 n ∙ rw e

get_elem?-some {ℓ} :
    {A : Type ℓ} (xs : List A) (i : ℕ) → i < length xs → (a : A) × (get_elem? xs i ≡ some a)
get_elem?-some [] i h = absurd (omega arith)
get_elem?-some (x ∷ xs) zero h = (x, refl)
get_elem?-some (x ∷ xs) (suc i) h = get_elem?-some xs i (omega arith)

-- The index's geometry of a xorb is that of chunks `f`: the uncompressed offset of chunk `i` is where
-- it ends, there is a physical offset for each chunk, and a xorb stays below 4 GiB.
pub record Describes (meta : XorbMeta) (f : ℕ → Bytes) : Type 0 where
  pub offsets :
      (i : ℕ)
      → i < length meta.unpacked
      → get_elem? meta.unpacked i ≡ some (length (span f 0 (suc i)))
  pub frames : length meta.boundary ≡ length meta.unpacked
  pub count : length meta.unpacked < 2 ^ 32
  pub small : length (span f 0 (length meta.unpacked)) < 2 ^ 32

not_zero : (s : ℕ) → (s == 0) ≡ false → 0 < s
not_zero s h = ground arith

module _ {meta : XorbMeta} {f : ℕ → Bytes} (d : Describes meta f) where
  pub num_chunks-length : num_chunks meta ≡ length meta.unpacked
  unfolding num_chunks
  num_chunks-length = as_u32_of_lt _ d.count

  -- A prefix is no longer than the xorb.
  prefix-small : (i : ℕ) → i ≤ length meta.unpacked → length (span f 0 i) < 2 ^ 32
  prefix-small i h = omega (arith, d.small, length-span_le f 0 i (length meta.unpacked) h)

  offset_before-span :
      (i : ℕ) → i ≤ length meta.unpacked → offset_before meta.unpacked i ≡ ok (length (span f 0 i))
  unfolding offset_before span
  offset_before-span zero h = refl
  offset_before-span (suc i) h =
      let e : suc i - 1 ≡ i = omega arith in
      let z : (suc i == 0) ≡ false = ground arith in rw (z, e, d.offsets i h)

  -- The code's length of a chunk is the chunk's.
  pub chunk_len-length : (i : ℕ) → i < length meta.unpacked → chunk_len meta i ≡ ok (length (f i))
  unfolding chunk_len
  chunk_len-length i h =
      rw (d.offsets i h, offset_before-span i (omega arith))
        (let next = length-span_next f i in
          ap ok (
            sub_u32_of_le _ _ (omega (arith, next)) (prefix-small (suc i) h) ∙ omega (arith, next)))

  -- The code's length of a chunk range is that of its content.
  pub unpacked_len-length :
      (s n : ℕ)
      → s + n ≤ length meta.unpacked
      → unpacked_len meta s (s + n) ≡ ok (length (span f s n))
  unfolding unpacked_len fail_if
  unpacked_len-length s n h =
      let inside : ltb (num_chunks meta) (s + n) ≡ false =
        ge→ltb _ _ (omega (arith, num_chunks-length)) in
      let ordered : ltb (s + n) s ≡ false = ge→ltb _ _ (omega arith) in
      let parts = length-span_add f 0 s n in
      let e : 0 + s ≡ s = omega arith in
      let here : length (span f (0 + s) n) ≡ length (span f s n) = rw e in
      rw (inside, ordered, offset_before-span (s + n) h, offset_before-span s (omega arith))
        (ap ok (
          sub_u64_of_le _ _ (omega (arith, parts)) (omega (arith, prefix-small (s + n) h))
          ∙ omega (arith, parts, here)))

  -- Physical offsets are there for every non-empty range of chunks.
  pub byte_offset-total :
      (s e : ℕ) → s < e → e ≤ length meta.unpacked → (b : ℕ × ℕ) × (byte_offset meta s e ≡ ok b)
  unfolding byte_offset offset_before fail_if
  byte_offset-total s e h k =
      let inside : ltb (num_chunks meta) e ≡ false =
        ge→ltb _ _ (omega (arith, num_chunks-length)) in
      let ordered : leb e s ≡ false = gt→leb _ _ h in
      let (hi, eh) = get_elem?-some meta.boundary (e - 1) (omega (arith, d.frames)) in
      elim (Bool-cases (s == 0)) [
        | inl z ↦ ((0, hi), rw (inside, ordered, z, eh))
        | inr p ↦
            let (lo, el) =
              get_elem?-some meta.boundary (s - 1) (omega (arith, d.frames, not_zero s p)) in
            ((lo, hi), rw (inside, ordered, p, el, eh))
      ]
