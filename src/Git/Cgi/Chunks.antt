-- ===== src/Git/Cgi/Chunks.antt =====
-- The output of `git http-backend` is cut at the same place however the reads of
-- crates/xetcasd/src/routes/git.rs chop it.
use xetcas.Prelude.{
  ℕ, suc, ◌≤◌, ◌≡◌, refl, sym, ap, ap₂, subst, ◌∙◌, inl, inr, Bool, true, false, Option,
  Option-cases, none, some, List, [], ◌∷◌, ◌++◌, Bytes, append_assoc, append-nil, arith, length,
  take-append, drop-append_le, if◌then◌else◌,
}
use xetcas.HttpRange.{strip_prefix}
use xetcas.Git.Cgi.{
  begins, crlf_crlf, lf_lf, find_header_end, read_header, cut, concat, split_output,
}
use xetcas.Git.Cgi.Ends.{shift, first_end, find_header_end-first_end}

-- One step of the walk.
pick : Bool → Bool → Option (ℕ × ℕ) → Option (ℕ × ℕ)
pick x y r = if x then some (0, 4) else (if y then some (0, 2) else shift r)

-- The place stays, and lies within the first n bytes.
abbrev Kept : ℕ → Option (ℕ × ℕ) → ℕ × ℕ → Type 0
Kept n r p = (r ≡ some p) × (p.0 ≤ p.1) × (p.1 ≤ n)

pick-append :
    (x y : Bool) (r r' : Option (ℕ × ℕ)) (n : ℕ) (p : ℕ × ℕ)
    → pick x y r ≡ some p
    → 3 ≤ n
    → ((q : ℕ × ℕ) → r ≡ some q → Kept n r' q)
    → Kept (suc n) (pick x y r') p
unfolding pick
pick-append true y r r' n p h k i = ground arith
pick-append false true r r' n p h k i = ground arith
pick-append false false none r' n p h k i = absurd (cc)
pick-append false false (some q) r' n p h k i = let (e, a, b) = i q refl in rw e (ground arith)

begins-append :
    (c d e f : ℕ) (s t : Bytes)
    → (begins crlf_crlf (c ∷ d ∷ e ∷ f ∷ s ++ t) ≡ begins crlf_crlf (c ∷ d ∷ e ∷ f ∷ s))
      × (begins lf_lf (c ∷ d ∷ e ∷ f ∷ s ++ t) ≡ begins lf_lf (c ∷ d ∷ e ∷ f ∷ s))
unfolding begins strip_prefix
begins-append c d e f s t = (ground arith, ground arith)

first_end-step :
    (c : ℕ) (s : Bytes)
    → first_end (c ∷ s) ≡ pick (begins crlf_crlf (c ∷ s)) (begins lf_lf (c ∷ s)) (first_end s)
unfolding pick first_end
first_end-step c s = refl

first_end-longer :
    (c d e f : ℕ) (s t : Bytes) (p : ℕ × ℕ)
    → first_end (c ∷ d ∷ e ∷ f ∷ s) ≡ some p
    → ((q : ℕ × ℕ)
        → first_end (d ∷ e ∷ f ∷ s) ≡ some q
        → Kept (length (d ∷ e ∷ f ∷ s)) (first_end (d ∷ e ∷ f ∷ s ++ t)) q)
    → Kept (length (c ∷ d ∷ e ∷ f ∷ s)) (first_end (c ∷ d ∷ e ∷ f ∷ s ++ t)) p
first_end-longer c d e f s t p h i =
    let x = begins crlf_crlf (c ∷ d ∷ e ∷ f ∷ s) in
    let y = begins lf_lf (c ∷ d ∷ e ∷ f ∷ s) in
    let later = first_end (d ∷ e ∷ f ∷ s ++ t) in
    let (same, same') = begins-append c d e f s t in
    let step = first_end-step c (d ∷ e ∷ f ∷ s ++ t) ∙ ap₂ (λ u v. pick u v later) same same' in
    subst (λ r. Kept (length (c ∷ d ∷ e ∷ f ∷ s)) r p) (sym step)
      (pick-append x y (first_end (d ∷ e ∷ f ∷ s)) later (length (d ∷ e ∷ f ∷ s)) p
        (sym (first_end-step c (d ∷ e ∷ f ∷ s)) ∙ h) (omega arith) i)

first_end-none :
    (c : ℕ) (p : ℕ × ℕ) → (first_end [] ≡ some p → ⊥) × (first_end (c ∷ []) ≡ some p → ⊥)
unfolding first_end begins strip_prefix
first_end-none c p = (λ h. cc, λ h. ground arith)

first_end-two :
    (c d : ℕ) (t : Bytes) (p : ℕ × ℕ)
    → first_end (c ∷ d ∷ []) ≡ some p
    → Kept 2 (first_end (c ∷ d ∷ t)) p
unfolding first_end begins strip_prefix
first_end-two c d t p h = ground arith

first_end-three :
    (c d e : ℕ) (t : Bytes) (p : ℕ × ℕ)
    → first_end (c ∷ d ∷ e ∷ []) ≡ some p
    → Kept 3 (first_end (c ∷ d ∷ e ∷ t)) p
unfolding first_end begins strip_prefix
first_end-three c d e t p h = ground arith

-- An empty line that is there is found at the same place when more follows.
first_end-append :
    (s t : Bytes) (p : ℕ × ℕ) → first_end s ≡ some p → Kept (length s) (first_end (s ++ t)) p
first_end-append [] t p h = absurd ((first_end-none 0 p).0 h)
first_end-append (c ∷ []) t p h = absurd ((first_end-none c p).1 h)
first_end-append (c ∷ d ∷ []) t p h = first_end-two c d t p h
first_end-append (c ∷ d ∷ e ∷ []) t p h = first_end-three c d e t p h
first_end-append (c ∷ d ∷ e ∷ f ∷ s) t p h =
    first_end-longer c d e f s t p h (first_end-append (d ∷ e ∷ f ∷ s) t)

find_header_end-append :
    (s t : Bytes) (p : ℕ × ℕ)
    → find_header_end s ≡ some p
    → Kept (length s) (find_header_end (s ++ t)) p
find_header_end-append s t p h =
    rw (find_header_end-first_end (s ++ t))
      (first_end-append s t p (sym (find_header_end-first_end s) ∙ h))

-- What the loop gives, cut where it found the end, with what it has left to read.
abbrev sent : Option (ℕ × ℕ) × Bytes × List Bytes → Bytes × Bytes
sent (at, buffered, left) = ((cut at buffered).0, (cut at buffered).1 ++ concat left)

read_header-found :
    (chunk buffered : Bytes) (chunks : List Bytes) (p : ℕ × ℕ)
    → find_header_end buffered ≡ some p
    → read_header (chunk ∷ chunks) buffered ≡ (some p, buffered, chunk ∷ chunks)
unfolding read_header
read_header-found chunk buffered chunks p h = ground arith

read_header-next :
    (chunk buffered : Bytes) (chunks : List Bytes)
    → find_header_end buffered ≡ none
    → read_header (chunk ∷ chunks) buffered ≡ read_header chunks (buffered ++ chunk)
unfolding read_header
read_header-next chunk buffered chunks h = ground arith

cut-append :
    (s t : Bytes) (p : ℕ × ℕ)
    → p.0 ≤ p.1
    → p.1 ≤ length s
    → cut (some p) (s ++ t) ≡ ((cut (some p) s).0, (cut (some p) s).1 ++ t)
unfolding cut
cut-append s t (end, at) h k = rw (take-append end s t (omega arith), drop-append_le at s t k) refl

-- The cut of all the output.
abbrev cut_all : Bytes → Bytes × Bytes
cut_all s = cut (find_header_end s) s

sent-read_header :
    (chunks : List Bytes) (buffered : Bytes)
    → sent (read_header chunks buffered) ≡ cut_all (buffered ++ concat chunks)
unfolding read_header concat
sent-read_header [] buffered =
    rw (append-nil buffered, append-nil (cut (find_header_end buffered) buffered).1) refl
sent-read_header (chunk ∷ chunks) buffered = elim (Option-cases (find_header_end buffered)) [
  | inl e ↦
      ap sent (read_header-next chunk buffered chunks e)
      ∙ sent-read_header chunks (buffered ++ chunk)
      ∙ ap cut_all (append_assoc buffered chunk (concat chunks))
  | inr (p, e) ↦
      let whole = concat (chunk ∷ chunks) in
      let (same, a, b) = find_header_end-append buffered whole p e in
      ap sent (read_header-found chunk buffered chunks p e)
      ∙ sym (ap (λ o. cut o (buffered ++ whole)) same ∙ cut-append buffered whole p a b)
]

-- However the reads chop the output, the header block is what stands before the first empty line of the whole
-- output, of either kind of line end, and the body that is sent is all that follows it; with no empty
-- line, all of the output is the header block.
pub split_output-cut :
    (chunks : List Bytes) → split_output chunks ≡ cut (first_end (concat chunks)) (concat chunks)
unfolding split_output
split_output-cut chunks =
    sent-read_header chunks []
    ∙ ap (λ o. cut o (concat chunks)) (find_header_end-first_end (concat chunks))
