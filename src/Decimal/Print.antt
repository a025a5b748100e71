-- ===== src/Decimal/Print.antt =====
-- The digits that a number prints as, against the value that `parse_range_header` and `u64::from_str`
-- give digits.
use xetcas.Prelude.{
  ℕ, zero, suc, ◌+◌, ◌-◌, ◌*◌, ◌/◌, ◌%◌, ◌^◌, ◌<◌, ◌≡◌, ◌≢◌, refl, ap, ◌∙◌, [], ◌∷◌, ◌++◌, Bytes,
  All, arith, Bool-cases, inl, inr, ltb, ltb→lt, some,
}
use xetcas.HttpRange.{parse_u64}
use xetcas.HttpRange.RoundTrip.{IsDigit, value_from, value, parse_u64-value}
use xetcas.Decimal.{print, to_string}

-- Numbers of that many digits.
abbrev below : ℕ → ℕ
below zero = 1
below (suc fuel) = below fuel * 10

value_from-snoc :
    (n : ℕ) (s : Bytes) (c : ℕ) → value_from n (s ++ c ∷ []) ≡ value_from n s * 10 + (c - b'0')
value_from-snoc n [] c = refl
value_from-snoc n (d ∷ s) c = value_from-snoc (n * 10 + (d - b'0')) s c

All-snoc : (s : Bytes) (c : ℕ) → All IsDigit s → IsDigit c → All IsDigit (s ++ c ∷ [])
All-snoc [] c h d = (d, tt)
All-snoc (e ∷ s) c h d = (h.0, All-snoc s c h.1 d)

print-IsDigit : (fuel n : ℕ) → All IsDigit (print fuel n)
unfolding print
print-IsDigit zero n = tt
print-IsDigit (suc fuel) n = elim (Bool-cases (ltb n 10)) [
  | inl e ↦ let small = ltb→lt n 10 e in rw e (omega arith)
  | inr e ↦ rw e (All-snoc (print fuel (n / 10)) _ (print-IsDigit fuel (n / 10)) (omega arith))
]

value-print : (fuel n : ℕ) → n < below fuel → value (print fuel n) ≡ n
unfolding print
value-print zero n h = omega arith
value-print (suc fuel) n h = elim (Bool-cases (ltb n 10)) [
  | inl e ↦ rw e (omega arith)
  | inr e ↦
      rw (e, value_from-snoc 0 (print fuel (n / 10)) (b'0' + n % 10))
        (omega (arith, value-print fuel (n / 10) (omega arith)))
]

snoc-ne-nil : (s : Bytes) (c : ℕ) → s ++ c ∷ [] ≢ []
snoc-ne-nil [] c = λ h. cc
snoc-ne-nil (d ∷ s) c = λ h. cc

print-ne-nil : (fuel n : ℕ) → print (suc fuel) n ≢ []
unfolding print
print-ne-nil fuel n = ground (arith, snoc-ne-nil (print fuel (n / 10)) (b'0' + n % 10))

ne-nil-cons : (s : Bytes) → s ≢ [] → (c : ℕ) × (r : Bytes) × (s ≡ c ∷ r)
ne-nil-cons [] h = absurd (h refl)
ne-nil-cons (c ∷ r) h = (c, r, refl)

pub to_string-cons : (n : ℕ) → (c : ℕ) × (s : Bytes) × (to_string n ≡ c ∷ s)
unfolding to_string
to_string-cons n = ne-nil-cons (print 20 n) (print-ne-nil 19 n)

parse_u64-digits :
    (s : Bytes) → s ≢ [] → All IsDigit s → value s < 2 ^ 64 → parse_u64 s ≡ some (value s)
parse_u64-digits [] h d b = absurd (h refl)
parse_u64-digits (c ∷ s) h d b = parse_u64-value c s d b

pub to_string-IsDigit : (n : ℕ) → All IsDigit (to_string n)
unfolding to_string
to_string-IsDigit n = print-IsDigit 20 n

pub value-to_string : (n : ℕ) → n < 2 ^ 64 → value (to_string n) ≡ n
unfolding to_string
value-to_string n h = value-print 20 n (omega arith)

-- Every u64 is read back from its print.
pub parse_u64-to_string : (n : ℕ) → n < 2 ^ 64 → parse_u64 (to_string n) ≡ some n
unfolding to_string
parse_u64-to_string n h =
    let v = value-print 20 n (omega arith) in
    parse_u64-digits (print 20 n) (print-ne-nil 19 n) (print-IsDigit 20 n) (omega (arith, v))
    ∙ ap some v
