-- ===== src/Git/Below.antt =====
-- `Path::join` and `Path::starts_with` as crates/xetcasd/src/routes/git.rs uses them: what is joined to a
-- base is below it.
use xetcas.Prelude.{
  ℕ, ◌≡◌, ◌≢◌, refl, sym, ap, subst, ◌∙◌, inl, inr, Bool, true, false, not, ◌&&◌, Bool-cases,
  Option-cases, some, List, [], ◌∷◌, ◌++◌, append_assoc, append-nil, Bytes, bytes_eq, bytes_eq_iff,
  bytes_eq_refl, codes, arith, if◌then◌else◌, All,
}
use xetcas.Git.{
  split, strip_suffix, ends_with, is_absolute, path_join, visible, components_of, is_prefix,
  starts_with,
}
use xetcas.Git.Paths.{IsComponent, split-cons, split-append}

is_prefix-append : (vs ws : List Bytes) → is_prefix vs (vs ++ ws) ≡ true
unfolding is_prefix
is_prefix-append [] ws = refl
is_prefix-append (v ∷ vs) ws = ground (arith, bytes_eq_refl v, is_prefix-append vs ws)

visible-append : (vs ws : List Bytes) → visible (vs ++ ws) ≡ visible vs ++ visible ws
unfolding visible
visible-append [] ws = refl
visible-append (v ∷ vs) ws = ground (arith, visible-append vs ws)

components_of-append :
    (v : Bytes) (vs ws : List Bytes)
    → components_of ((v ∷ vs) ++ ws) ≡ components_of (v ∷ vs) ++ visible ws
unfolding components_of
components_of-append v vs ws = ground (arith, visible-append vs ws, visible-append (v ∷ vs) ws)

is_absolute-append : (v s : Bytes) (c : ℕ) → v ≢ [] → is_absolute (v ++ s) ≡ is_absolute v
unfolding is_absolute
is_absolute-append [] s c h = absurd (h refl)
is_absolute-append (d ∷ v) s c h = refl

-- A path below a base that is not empty starts with it.
starts_with-below : (base s : Bytes) → base ≢ [] → starts_with (base ++ (b'/' ∷ s)) base ≡ true
unfolding starts_with
starts_with-below base s h =
    let (v, vs, e) = split-cons base in
    let parts = split-append base s in
    let prefix = is_prefix-append (components_of (v ∷ vs)) (visible (split s)) in
    rw
      (
        is_absolute-append base (b'/' ∷ s) 0 h,
        parts,
        e,
        components_of-append v vs (split s),
        prefix,
      )
      (ground arith)

strip_suffix-some :
    (suffix s front : Bytes) → strip_suffix suffix s ≡ some front → s ≡ front ++ suffix
unfolding strip_suffix
strip_suffix-some [] [] front h = cc
strip_suffix-some (d ∷ suffix) [] front h = absurd (cc)
strip_suffix-some suffix (c ∷ s) front h = elim (Bool-cases (bytes_eq (c ∷ s) suffix)) [
  | inl e ↦ ground (arith, bytes_eq_iff (c ∷ s) suffix)
  | inr e ↦ elim (Option-cases (strip_suffix suffix s)) [
    | inl n ↦ absurd (ground arith)
    | inr (f, p) ↦ let whole = strip_suffix-some suffix s f p in ground arith
  ]
]

is_absolute-slash : (r s t : Bytes) → is_absolute (r ++ (b'/' ∷ s)) ≡ is_absolute (r ++ (b'/' ∷ t))
unfolding is_absolute
is_absolute-slash [] s t = refl
is_absolute-slash (c ∷ r) s t = refl

same-absolute : (b : Bool) (p : Bool) → p ≡ true → ((if b then b else not b) && p) ≡ true
same-absolute true p h = h
same-absolute false p h = h

-- A base that ends in a slash.
starts_with-slash : (r s : Bytes) → starts_with ((r ++ (b'/' ∷ [])) ++ s) (r ++ (b'/' ∷ [])) ≡ true
unfolding starts_with
starts_with-slash r s =
    let (v, vs, e) = split-cons r in
    let prefix = is_prefix-append (components_of (v ∷ vs)) (visible (split s)) in
    let base : components_of ((v ∷ vs) ++ split []) ≡ components_of (v ∷ vs) =
      components_of-append v vs (split [])
      ∙ (unfold visible split in append-nil (components_of (v ∷ vs))) in
    rw
      (
        append_assoc r (b'/' ∷ []) s,
        is_absolute-slash r s [],
        split-append r s,
        split-append r [],
        e,
        base,
        components_of-append v vs (split s),
        prefix,
      )
      (same-absolute (is_absolute (r ++ (b'/' ∷ []))) true refl)

starts_with-empty : (s : Bytes) → is_absolute s ≡ false → starts_with s [] ≡ true
unfolding starts_with is_absolute split components_of visible is_prefix bytes_eq
starts_with-empty s h = rw h refl

ends_with-append :
    (suffix s : Bytes) → ends_with suffix s ≡ true → (front : Bytes) × (s ≡ front ++ suffix)
unfolding ends_with
ends_with-append suffix s h = elim (Option-cases (strip_suffix suffix s)) [
  | inl e ↦ absurd (ground arith)
  | inr (front, e) ↦ (front, strip_suffix-some suffix s front e)
]

-- What is joined to a base is below it, unless it is absolute.
pub starts_with-path_join :
    (base s : Bytes) → is_absolute s ≡ false → starts_with (path_join base s) base ≡ true
unfolding path_join
starts_with-path_join [] s h = rw h (starts_with-empty s h)
starts_with-path_join (c ∷ base) s h = elim (Bool-cases (ends_with (codes "/") (c ∷ base))) [
  | inr e ↦ rw (h, e) (starts_with-below (c ∷ base) s (λ n. cc))
  | inl e ↦
      let (r, whole) = ends_with-append (codes "/") (c ∷ base) e in
      rw (h, e) (subst (λ b. starts_with (b ++ s) b ≡ true) (sym whole) (starts_with-slash r s))
]

visible-components : (ws : List Bytes) → All IsComponent ws → visible ws ≡ ws
unfolding visible
visible-components [] h = refl
visible-components ([] ∷ ws) h = absurd (h.0.0 refl)
visible-components ((c ∷ w) ∷ ws) h =
    ground (arith, h.0.1, bytes_eq_iff (c ∷ w) (codes "."), visible-components ws h.1)

components_of-components : (ws : List Bytes) → All IsComponent ws → components_of ws ≡ ws
unfolding components_of
components_of-components [] h = refl
components_of-components (w ∷ ws) h =
    ground (arith, h.0.1, bytes_eq_iff w (codes "."), visible-components (w ∷ ws) h)

components_of-slash :
    (base s : Bytes)
    → components_of (split (base ++ (b'/' ∷ s))) ≡ components_of (split base) ++ visible (split s)
components_of-slash base s =
    let (v, vs, e) = split-cons base in
    rw (split-append base s, e) (components_of-append v vs (split s))

components_of-nil : components_of (split []) ≡ []
unfolding split components_of visible bytes_eq
components_of-nil = refl

components_of-trailing :
    (r : Bytes) → components_of (split (r ++ (b'/' ∷ []))) ≡ components_of (split r)
components_of-trailing r =
    components_of-slash r [] ∙ (unfold visible split in append-nil (components_of (split r)))

-- What is joined to a base has the components of the base and then its own.
pub components_of-path_join :
    (base s : Bytes)
    → is_absolute s ≡ false
    → All IsComponent (split s)
    → components_of (split (path_join base s)) ≡ components_of (split base) ++ split s
unfolding path_join
components_of-path_join [] s h all =
    rw (h, components_of-nil) (components_of-components (split s) all)
components_of-path_join (c ∷ base) s h all = elim (Bool-cases (ends_with (codes "/") (c ∷ base))) [
  | inr e ↦
      rw (h, e)
        (components_of-slash (c ∷ base) s
          ∙ ap (λ l. components_of (split (c ∷ base)) ++ l) (visible-components (split s) all))
  | inl e ↦
      let (r, whole) = ends_with-append (codes "/") (c ∷ base) e in
      rw (h, e)
        (subst (λ b. components_of (split (b ++ s)) ≡ components_of (split b) ++ split s)
          (sym whole)
          (rw (append_assoc r (b'/' ∷ []) s, components_of-trailing r, components_of-slash r s)
            (ap (λ l. components_of (split r) ++ l) (visible-components (split s) all))))
]
