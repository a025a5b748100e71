-- ===== src/HttpRange/RoundTrip.antt =====
-- Headers in the form that clients write are read back: `parse_range_header` of
-- crates/xetcasd/src/http_range.rs against the value of a run of decimal digits.
use xetcas.Prelude.{
  ℕ, ◌+◌, ◌-◌, ◌*◌, ◌^◌, ◌≤◌, ◌<◌, ◌≡◌, refl, false, some, [], ◌∷◌, ◌++◌, Bytes, codes, arith, All,
}
use xetcas.HttpRange.{
  from_to, from, suffix, trim_start, trim_end, trim, strip_prefix, contains, split_once,
  digits_from, parse_u64, parse_bounds, parse_range_header,
}

abbrev pub IsDigit : ℕ → Type 0
IsDigit c = (b'0' ≤ c) × (c ≤ b'9')

-- The number that decimal digits write, after what was read before them.
abbrev pub value_from : ℕ → Bytes → ℕ
value_from n [] = n
value_from n (c ∷ s) = value_from (n * 10 + (c - b'0')) s

abbrev pub value : Bytes → ℕ
value = value_from 0

le-value_from : (n : ℕ) (s : Bytes) → n ≤ value_from n s
le-value_from n [] = omega arith
le-value_from n (c ∷ s) = omega (arith, le-value_from (n * 10 + (c - b'0')) s)

digits_from-value :
    (n : ℕ) (s : Bytes)
    → All IsDigit s
    → value_from n s < 2 ^ 64
    → digits_from n s ≡ some (value_from n s)
unfolding digits_from
digits_from-value n [] h b = refl
digits_from-value n (c ∷ s) h b =
    ground (
      arith,
      le-value_from (n * 10 + (c - b'0')) s,
      digits_from-value (n * 10 + (c - b'0')) s h.1 b,
    )

pub parse_u64-value :
    (c : ℕ) (s : Bytes)
    → All IsDigit (c ∷ s)
    → value (c ∷ s) < 2 ^ 64
    → parse_u64 (c ∷ s) ≡ some (value (c ∷ s))
unfolding parse_u64
parse_u64-value c s h b = ground (arith, digits_from-value 0 (c ∷ s) h b)

-- Bytes that the header's form is made of: no white space, no comma.
abbrev IsPlain : ℕ → Type 0
IsPlain c = (b'-' ≤ c)

trim_start-plain : (s : Bytes) → All IsPlain s → trim_start s ≡ s
unfolding trim_start
trim_start-plain [] h = refl
trim_start-plain (c ∷ s) h = ground arith

trim_end-plain : (s : Bytes) → All IsPlain s → trim_end s ≡ s
unfolding trim_end
trim_end-plain [] h = refl
trim_end-plain (c ∷ s) h = ground (arith, trim_end-plain s h.1)

trim-plain : (s : Bytes) → All IsPlain s → trim s ≡ s
unfolding trim
trim-plain s h = rw (trim_start-plain s h) (trim_end-plain s h)

contains-plain : (s : Bytes) → All IsPlain s → contains b',' s ≡ false
unfolding contains
contains-plain [] h = refl
contains-plain (c ∷ s) h = ground (arith, contains-plain s h.1)

digits-IsPlain : (s : Bytes) → All IsDigit s → All IsPlain s
digits-IsPlain [] h = tt
digits-IsPlain (c ∷ s) h = (omega arith, digits-IsPlain s h.1)

All-append : (s t : Bytes) → All IsPlain s → All IsPlain t → All IsPlain (s ++ t)
All-append [] t h k = k
All-append (c ∷ s) t h k = (h.0, All-append s t h.1 k)

split_once-digits : (s t : Bytes) → All IsDigit s → split_once b'-' (s ++ (b'-' ∷ t)) ≡ some (s, t)
unfolding split_once
split_once-digits [] t h = refl
split_once-digits (c ∷ s) t h = ground (arith, split_once-digits s t h.1)

strip_bytes : (s : Bytes) → strip_prefix (codes "bytes=") (codes "bytes=" ++ s) ≡ some s
unfolding strip_prefix
strip_bytes s = refl

-- A header of two plain parts is read by the parts.
parse-parts :
    (s t : Bytes)
    → All IsDigit s
    → All IsDigit t
    → parse_range_header (codes "bytes=" ++ (s ++ (b'-' ∷ t))) ≡ parse_bounds s t
unfolding parse_range_header
parse-parts s t h k =
    let rest = s ++ (b'-' ∷ t) in
    let plain : All IsPlain rest =
      All-append s (b'-' ∷ t) (digits-IsPlain s h) (omega arith, digits-IsPlain t k) in
    let whole : All IsPlain (codes "bytes=" ++ rest) =
      All-append (codes "bytes=") rest (omega arith) plain in
    rw (trim-plain (codes "bytes=" ++ rest) whole, strip_bytes rest, trim-plain rest plain)
      (rw (contains-plain rest plain, split_once-digits s t h)
        (rw (trim-plain s (digits-IsPlain s h), trim-plain t (digits-IsPlain t k))))

-- "bytes=S-E", "bytes=S-" and "bytes=-N", with any digits that write numbers below 2^64, are read
-- as the ranges that they write.
pub parse_range_header-digits :
    (c d : ℕ) (s t : Bytes)
    → All IsDigit (c ∷ s)
    → All IsDigit (d ∷ t)
    → value (c ∷ s) < 2 ^ 64
    → value (d ∷ t) < 2 ^ 64
    → (parse_range_header (codes "bytes=" ++ ((c ∷ s) ++ (b'-' ∷ d ∷ t)))
        ≡ some (from_to (value (c ∷ s)) (value (d ∷ t))))
      × (parse_range_header (codes "bytes=" ++ ((c ∷ s) ++ (b'-' ∷ [])))
          ≡ some (from (value (c ∷ s))))
      × (parse_range_header (codes "bytes=" ++ (b'-' ∷ d ∷ t)) ≡ some (suffix (value (d ∷ t))))
unfolding parse_bounds
parse_range_header-digits c d s t h k b e = (
  rw (parse-parts (c ∷ s) (d ∷ t) h k, parse_u64-value c s h b, parse_u64-value d t k e),
  rw (parse-parts (c ∷ s) [] h tt, parse_u64-value c s h b),
  rw (parse-parts [] (d ∷ t) tt k, parse_u64-value d t k e),
)
