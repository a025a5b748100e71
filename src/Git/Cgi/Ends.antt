-- ===== src/Git/Cgi/Ends.antt =====
-- `find_header_end` of crates/xetcasd/src/routes/git.rs against one walk over the bytes.
use xetcas.Prelude.{
  ℕ, suc, ◌≡◌, refl, true, Option, none, some, [], ◌∷◌, Bytes, arith, if◌then◌else◌,
}
use xetcas.HttpRange.{strip_prefix}
use xetcas.Git.Cgi.{begins, position, crlf_crlf, lf_lf, earlier, find_header_end}

abbrev pub shift : Option (ℕ × ℕ) → Option (ℕ × ℕ)
shift none = none
shift (some (end, at)) = some (suc end, suc at)

-- The first place where an empty line ends, with where the block ends before it.
unfoldable pub first_end : Bytes → Option (ℕ × ℕ)
first_end [] = none
first_end (c ∷ s) =
    if begins crlf_crlf (c ∷ s)
    then some (0, 4)
    else (if begins lf_lf (c ∷ s) then some (0, 2) else shift (first_end s))

not-both : (s : Bytes) → begins crlf_crlf s ≡ true → begins lf_lf s ≡ true → ⊥
unfolding begins strip_prefix
not-both [] h k = cc
not-both (c ∷ []) h k = ground arith
not-both (c ∷ d ∷ s) h k = ground arith

-- `find_header_end` finds the first empty line, whichever of the two line ends it has.
pub find_header_end-first_end : (s : Bytes) → find_header_end s ≡ first_end s
unfolding find_header_end position earlier first_end
find_header_end-first_end [] = refl
find_header_end-first_end (c ∷ s) = ground (arith, find_header_end-first_end s, not-both (c ∷ s))
