-- ===== src/Decimal.antt =====
-- `u64::to_string`, which crates/xetcasd/src/routes/lfs.rs and crates/xetcasd/src/routes/xorbs.rs print
-- numbers with. A u64 has at most 20 digits.
pub mod Print
use xetcas.Prelude.{ℕ, zero, suc, ◌+◌, ◌/◌, ◌%◌, List, [], ◌∷◌, ◌++◌, Bytes, ltb, if◌then◌else◌}

-- The last `fuel` digits, without leading zeros.
unfoldable pub print : ℕ → ℕ → Bytes
print zero n = []
print (suc fuel) n =
    let front = print fuel (n / 10) in
    if ltb n 10 then (b'0' + n) ∷ [] else front ++ (b'0' + n % 10) ∷ []

unfoldable pub to_string : ℕ → Bytes
to_string n = print 20 n
