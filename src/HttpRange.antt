-- ===== src/HttpRange.antt =====
-- crates/xetcasd/src/http_range.rs: the `Range` header. A header value that `to_str` lets through
-- is visible ASCII and tabs, so the white space that `trim` removes is the space and the bytes
-- 9 to 13; `u64::from_str` takes one leading `+` and at least one digit, and fails past 2^64 - 1.
pub mod Bounds
pub mod RoundTrip
mod Tests
use xetcas.Prelude.{
  ℕ, ◌+◌, ◌-◌, ◌*◌, ◌^◌, min, Bool, true, false, ◌&&◌, ◌||◌, Option, none, some, List, [], ◌∷◌,
  Bytes, codes, ltb, leb, ◌==◌, if◌then◌else◌, zero, suc,
}
use xetcas.Prelude.Words.{saturating_suc}

pub data RangeSpec : Type 0 where
  from_to : ℕ → ℕ → RangeSpec
  from : ℕ → RangeSpec
  suffix : ℕ → RangeSpec

infixl 5 ◌>>=◌
-- `?` on an `Option`.
abbrev pub ◌>>=◌ : {A B : Type 0} → Option A → (A → Option B) → Option B
none >>= f = none
some a >>= f = f a

abbrev pub is_empty : Bytes → Bool
is_empty [] = true
is_empty (c ∷ s) = false

pub is_space : ℕ → Bool
is_space c = c == 32 || (leb 9 c && leb c 13)

pub trim_start : Bytes → Bytes
unfolding is_space
trim_start [] = []
trim_start (c ∷ s) = if is_space c then trim_start s else c ∷ s

-- A trailing run of white space is dropped.
pub trim_end : Bytes → Bytes
unfolding is_space
trim_end [] = []
trim_end (c ∷ s) = let rest = trim_end s in if is_empty rest && is_space c then [] else c ∷ rest

unfoldable pub trim : Bytes → Bytes
unfolding trim_start trim_end
trim s = trim_end (trim_start s)

unfoldable pub strip_prefix : Bytes → Bytes → Option Bytes
strip_prefix [] s = some s
strip_prefix (p ∷ ps) [] = none
strip_prefix (p ∷ ps) (c ∷ s) = if p == c then strip_prefix ps s else none

unfoldable pub contains : ℕ → Bytes → Bool
contains d [] = false
contains d (c ∷ s) = c == d || contains d s

prepend : ℕ → Option (Bytes × Bytes) → Option (Bytes × Bytes)
prepend c none = none
prepend c (some (a, b)) = some (c ∷ a, b)

-- The parts around the first `d`.
unfoldable pub split_once : ℕ → Bytes → Option (Bytes × Bytes)
unfolding prepend
split_once d [] = none
split_once d (c ∷ s) = if c == d then some ([], s) else prepend c (split_once d s)

pub digits_from : ℕ → Bytes → Option ℕ
digits_from n [] = some n
digits_from n (c ∷ s) =
    if leb b'0' c && leb c b'9'
    then (if ltb (n * 10 + (c - b'0')) (2 ^ 64) then digits_from (n * 10 + (c - b'0')) s else none)
    else none

digits : Bytes → Option ℕ
unfolding digits_from
digits [] = none
digits (c ∷ s) = digits_from 0 (c ∷ s)

-- `str::parse::<u64>`.
pub parse_u64 : Bytes → Option ℕ
unfolding digits
parse_u64 [] = none
parse_u64 (c ∷ s) = if c == b'+' then digits s else digits (c ∷ s)

-- The `match` on which bound is empty.
unfoldable pub parse_bounds : Bytes → Bytes → Option RangeSpec
unfolding parse_u64
parse_bounds [] [] = none
parse_bounds [] (c ∷ end) = do n ← parse_u64 (c ∷ end); some (suffix n)
parse_bounds (c ∷ start) [] = do n ← parse_u64 (c ∷ start); some (from n)
parse_bounds (c ∷ start) (d ∷ end) = do
  s ← parse_u64 (c ∷ start)
  e ← parse_u64 (d ∷ end)
  some (from_to s e)

unfoldable pub parse_range_header : Bytes → Option RangeSpec
parse_range_header value = do
  stripped ← strip_prefix (codes "bytes=") (trim value)
  let spec = trim stripped
  if contains b',' spec
      then none
      else do parts ← split_once b'-' spec; parse_bounds (trim parts.0) (trim parts.1)

-- The half-open range within a known total; `none` is unsatisfiable.
unfoldable pub resolve : RangeSpec → ℕ → Option (ℕ × ℕ)
unfolding saturating_suc
resolve (from_to s e) total =
    if leb total s || ltb e s then none else some (s, min total (saturating_suc e))
resolve (from s) total = if leb total s then none else some (s, total)
resolve (suffix n) total = if n == 0 then none else some (total - n, total)
