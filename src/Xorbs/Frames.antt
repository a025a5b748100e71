-- ===== src/Xorbs/Frames.antt =====
-- `chunk_frame_count_exceeds_limit` of crates/xetcasd/src/routes/xorbs.rs against the frames that lie in a
-- body: the walk from header to header until less than a header is left.
use xetcas.Prelude.{
  ℕ, zero, suc, ◌+◌, ◌*◌, ◌≤◌, ◌<◌, ◌≡◌, refl, ap, sym, ◌∙◌, true, false, Bool-cases, inl, inr,
  some, [], ◌∷◌, Bytes, length, get_elem?, arith, ltb, leb, leb→le, leb→gt, ge→ltb, lt→ltb,
}
use xetcas.Contracts.Constants.{max_chunks_per_xorb}
use xetcas.Xorbs.{compressed_len, frames_exceed, chunk_frame_count_exceeds_limit}

-- From the offset on there are so many frames: each has a whole header, and the last may be cut short.
pub data Frames (header_length : ℕ) (body : Bytes) : ℕ → ℕ → Type 0 where
  stop : {offset : ℕ} → length body < offset + header_length → Frames header_length body offset 0
  next :
      {offset len n : ℕ}
      → offset + header_length ≤ length body
      → compressed_len body offset ≡ some len
      → Frames header_length body (offset + header_length + len) n
      → Frames header_length body offset (suc n)

get_elem?-in : (l : Bytes) (i : ℕ) → i < length l → (a : ℕ) × (get_elem? l i ≡ some a)
get_elem?-in [] i h = absurd (omega arith)
get_elem?-in (x ∷ l) zero h = (x, refl)
get_elem?-in (x ∷ l) (suc i) h = get_elem?-in l i (omega arith)

compressed_len-bytes :
    (body : Bytes) (offset a b c : ℕ)
    → get_elem? body (offset + 1) ≡ some a
    → get_elem? body (offset + 2) ≡ some b
    → get_elem? body (offset + 3) ≡ some c
    → compressed_len body offset ≡ some (a + b * 256 + c * 65536)
unfolding compressed_len
compressed_len-bytes body offset a b c p q r = ground arith

-- A header of four bytes or more has the length in it.
compressed_len-in :
    (body : Bytes) (offset : ℕ)
    → offset + 4 ≤ length body
    → (len : ℕ) × (compressed_len body offset ≡ some len)
compressed_len-in body offset h =
    let (a, p) = get_elem?-in body (offset + 1) (omega arith) in
    let (b, q) = get_elem?-in body (offset + 2) (omega arith) in
    let (c, r) = get_elem?-in body (offset + 3) (omega arith) in
    (a + b * 256 + c * 65536, compressed_len-bytes body offset a b c p q r)

-- The walk comes to an end, since a frame is not empty.
Frames-within :
    (fuel header_length : ℕ) (body : Bytes) (offset : ℕ)
    → 4 ≤ header_length
    → length body < offset + fuel
    → (n : ℕ) × Frames header_length body offset n
Frames-within zero header_length body offset h k = (0, stop (omega arith))
Frames-within (suc fuel) header_length body offset h k =
    elim (Bool-cases (leb (offset + header_length) (length body))) [
      | inr e ↦ (0, stop (leb→gt _ _ e))
      | inl e ↦
          let fits = leb→le _ _ e in
          let (len, p) = compressed_len-in body offset (omega arith) in
          let (n, rest) =
            Frames-within fuel header_length body (offset + header_length + len) h (omega arith) in
          (suc n, next fits p rest)
    ]

exceed-end :
    (header_length : ℕ) (body : Bytes) (offset left : ℕ)
    → length body < offset + header_length
    → frames_exceed header_length body offset left ≡ some false
unfolding frames_exceed
exceed-end header_length body offset zero h = ground arith
exceed-end header_length body offset (suc left) h = ground arith

exceed-over :
    (header_length : ℕ) (body : Bytes) (offset len : ℕ)
    → offset + header_length ≤ length body
    → compressed_len body offset ≡ some len
    → frames_exceed header_length body offset 0 ≡ some true
unfolding frames_exceed
exceed-over header_length body offset len h p = ground arith

exceed-next :
    (header_length : ℕ) (body : Bytes) (offset len left : ℕ)
    → offset + header_length ≤ length body
    → compressed_len body offset ≡ some len
    → frames_exceed header_length body offset (suc left)
      ≡ frames_exceed header_length body (offset + header_length + len) left
unfolding frames_exceed
exceed-next header_length body offset len left h p = ground arith

ltb-suc : (a b : ℕ) → ltb a b ≡ ltb (suc a) (suc b)
ltb-suc a b = ground arith

exceed-Frames :
    (header_length : ℕ) (body : Bytes) (offset n left : ℕ)
    → Frames header_length body offset n
    → frames_exceed header_length body offset left ≡ some (ltb left n)
exceed-Frames header_length body offset n left (stop h) =
    exceed-end header_length body offset left h ∙ ap some (sym (ge→ltb left 0 (omega arith)))
exceed-Frames header_length body offset (suc n) zero (next {len = len} h p rest) =
    exceed-over header_length body offset len h p ∙ ap some (sym (lt→ltb 0 (suc n) (omega arith)))
exceed-Frames header_length body offset (suc n) (suc left) (next {len = len} h p rest) =
    exceed-next header_length body offset len left h p
    ∙ exceed-Frames header_length body (offset + header_length + len) n left rest
    ∙ ap some (ltb-suc left n)

-- With frame headers of at least four bytes the walk over any body ends without a panic: the body has some
-- number of frames, and the guard reports exactly whether this number is above 8192.
pub chunk_frame_count_exceeds_limit-Frames :
    (header_length : ℕ) (body : Bytes)
    → 4 ≤ header_length
    → (n : ℕ) × Frames header_length body 0 n
      × (chunk_frame_count_exceeds_limit header_length body ≡ some (ltb max_chunks_per_xorb n))
unfolding chunk_frame_count_exceeds_limit
chunk_frame_count_exceeds_limit-Frames header_length body h =
    let (n, frames) = Frames-within (suc (length body)) header_length body 0 h (omega arith) in
    (n, frames, exceed-Frames header_length body 0 n max_chunks_per_xorb frames)
