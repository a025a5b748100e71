-- ===== src/HttpRange/Bounds.antt =====
-- What a resolved range holds: RangeSpec::resolve of crates/xetcasd/src/http_range.rs.
use xetcas.Prelude.{ℕ, ◌+◌, ◌^◌, ◌≤◌, ◌<◌, ◌≡◌, ◌↔◌, none, some, arith}
use xetcas.HttpRange.{RangeSpec, from_to, from, suffix, resolve}

-- The byte positions that a range names in an object of `total` bytes, by RFC 9110: from `s` to `e`
-- inclusive, from `s` on, or the last `n`.
abbrev pub Names : RangeSpec → ℕ → ℕ → Type 0
Names (from_to s e) total i = (s ≤ i) × (i ≤ e) × (i < total)
Names (from s) total i = (s ≤ i) × (i < total)
Names (suffix n) total i = (total ≤ i + n) × (i < total)

-- A range that resolves gives a half-open interval inside the object that holds exactly the
-- positions the range names. The object's length fits a u64.
pub resolve-exact :
    (r : RangeSpec) (total a b : ℕ) (i : ℕ)
    → total < 2 ^ 64
    → resolve r total ≡ some (a, b)
    → (a ≤ b) × (b ≤ total) × (Names r total i ↔ ((a ≤ i) × (i < b)))
unfolding resolve
resolve-exact (from_to s e) total a b i h k = ground arith
resolve-exact (from s) total a b i h k = ground arith
resolve-exact (suffix n) total a b i h k = ground arith

-- A range that does not resolve names no byte of the object.
pub resolve-none : (r : RangeSpec) (total i : ℕ) → resolve r total ≡ none → ¬ Names r total i
unfolding resolve
resolve-none (from_to s e) total i k n = ground arith
resolve-none (from s) total i k n = ground arith
resolve-none (suffix m) total i k n = ground arith
