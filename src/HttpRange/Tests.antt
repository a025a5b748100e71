-- ===== src/HttpRange/Tests.antt =====
-- `parse_range_header` and `resolve` of crates/xetcasd/src/http_range.rs on headers of the unit
-- tests, and the instances of the theorems.
use xetcas.Prelude.{◌≤◌, ◌<◌, ◌≡◌, refl, ◌↔◌, some, none, [], ◌∷◌, codes, arith}
use xetcas.HttpRange.{
  trim, strip_prefix, contains, split_once, parse_bounds, parse_range_header, from_to, from, suffix,
  resolve,
}
use xetcas.HttpRange.Bounds.{Names, resolve-exact, resolve-none}
use xetcas.HttpRange.RoundTrip.{parse_range_header-digits}

parses_from_to : parse_range_header (codes "bytes= 0 -99 ") ≡ some (from_to 0 99)
unfolding parse_range_header trim strip_prefix contains split_once parse_bounds
parses_from_to = refl

parses_none : parse_range_header (codes "bytes=0-9,20-29") ≡ none
unfolding parse_range_header trim strip_prefix contains split_once parse_bounds
parses_none = refl

parses_suffix : parse_range_header (codes "bytes=-64") ≡ some (suffix 64)
unfolding parse_range_header trim strip_prefix contains split_once parse_bounds
parses_suffix = refl

resolves : resolve (from_to 100 999) 500 ≡ some (100, 500)
unfolding resolve
resolves = refl

past_end : resolve (from 500) 500 ≡ none
unfolding resolve
past_end = refl

resolve-exact_example :
    (100 ≤ 500) × (500 ≤ 500) × (Names (from_to 100 999) 500 250 ↔ ((100 ≤ 250) × (250 < 500)))
resolve-exact_example = resolve-exact (from_to 100 999) 500 100 500 250 (omega arith) resolves

resolve-none_example : ¬ Names (from 500) 500 250
resolve-none_example = resolve-none (from 500) 500 250 past_end

parse_range_header-digits_example :
    (parse_range_header (codes "bytes=10-99") ≡ some (from_to 10 99))
    × (parse_range_header (codes "bytes=10-") ≡ some (from 10))
    × (parse_range_header (codes "bytes=-99") ≡ some (suffix 99))
parse_range_header-digits_example =
    parse_range_header-digits b'1' b'9' (b'0' ∷ []) (b'9' ∷ []) (omega arith) (omega arith)
      (omega arith) (omega arith)
