-- ===== src/Git/Paths.antt =====
-- The path checks of crates/xetcasd/src/routes/git.rs: what `sanitize` lets through, and what `split_repo`
-- makes of a path.
use xetcas.Prelude.{
  ℕ, ◌≡◌, ◌≢◌, refl, sym, ap, ◌∙◌, ◌↔◌, inl, inr, true, false, Bool-cases, List, [], ◌∷◌, ◌++◌,
  Bytes, bytes_eq_iff, codes, ok, fail_if, arith, ◌==◌, All,
}
use xetcas.Contracts.Validate.Fields.{is_empty, all_bytes}
use xetcas.Git.{split, join, is_path_byte, check_component, check_components, sanitize}

-- A part of a path that names an entry of a directory: letters, digits, dots, underscores and dashes.
abbrev pub IsComponent : Bytes → Type 0
IsComponent w = (w ≢ []) × (w ≢ codes ".") × (w ≢ codes "..") × (all_bytes is_path_byte w ≡ true)

is_empty_iff : (w : Bytes) → (is_empty w ≡ true) ↔ (w ≡ [])
is_empty_iff [] = (λ h. refl, λ h. refl)
is_empty_iff (c ∷ w) = (λ h. cc, λ h. cc)

check_component-accepts : (w : Bytes) → (check_component w ≡ ok tt) ↔ IsComponent w
unfolding check_component fail_if
check_component-accepts w =
    ground (arith, is_empty_iff w, bytes_eq_iff w (codes "."), bytes_eq_iff w (codes ".."))

check_components-accepts : (ws : List Bytes) → (check_components ws ≡ ok tt) ↔ All IsComponent ws
unfolding check_components
check_components-accepts [] = (λ h. tt, λ h. refl)
check_components-accepts (w ∷ ws) =
    ground (arith, check_component-accepts w, check_components-accepts ws)

pub split-cons : (s : Bytes) → (w : Bytes) × (ws : List Bytes) × (split s ≡ w ∷ ws)
unfolding split
split-cons [] = ([], [], refl)
split-cons (c ∷ s) =
    let (w, ws, e) = split-cons s in
    elim (Bool-cases (c == b'/')) [
      | inl h ↦ ([], split s, rw h refl)
      | inr h ↦ (c ∷ w, ws, rw (h, e) refl)
    ]

join-push : (c : ℕ) (w : Bytes) (ws : List Bytes) → join ((c ∷ w) ∷ ws) ≡ c ∷ join (w ∷ ws)
unfolding join
join-push c w [] = refl
join-push c w (v ∷ ws) = refl

join-empty : (w : Bytes) (ws : List Bytes) → join ([] ∷ w ∷ ws) ≡ b'/' ∷ join (w ∷ ws)
unfolding join
join-empty w ws = refl

-- A path is the join of its parts.
pub join-split : (s : Bytes) → join (split s) ≡ s
unfolding split
join-split [] = (unfold join in refl)
join-split (c ∷ s) =
    let (w, ws, e) = split-cons s in
    let whole = ap join (sym e) ∙ join-split s in
    elim (Bool-cases (c == b'/')) [
      | inl h ↦ rw (h, e) (join-empty w ws ∙ ground (arith, whole))
      | inr h ↦ rw (h, e) (join-push c w ws ∙ ap (λ l. c ∷ l) whole)
    ]

split-plain : (w : Bytes) → all_bytes is_path_byte w ≡ true → split w ≡ w ∷ []
unfolding split all_bytes is_path_byte
split-plain [] h = refl
split-plain (c ∷ w) h =
    let rest = split-plain w (ground arith) in
    let other : (c == b'/') ≡ false = ground arith in rw (other, rest) refl

-- What stands before a slash and what stands after it are split apart.
pub split-append : (v s : Bytes) → split (v ++ (b'/' ∷ s)) ≡ split v ++ split s
unfolding split
split-append [] s = refl
split-append (c ∷ v) s =
    let (w, ws, e) = split-cons v in
    let rest = split-append v s in
    elim (Bool-cases (c == b'/')) [ inl h ↦ rw (h, rest) refl | inr h ↦ rw (h, rest, e) refl ]

pub split-join :
    (w : Bytes) (ws : List Bytes) → All IsComponent (w ∷ ws) → split (join (w ∷ ws)) ≡ w ∷ ws
unfolding join
split-join w [] h = split-plain w h.0.3
split-join w (v ∷ ws) h =
    split-append w (join (v ∷ ws)) ∙ rw (split-plain w h.0.3, split-join v ws h.1) refl

pub sanitize-parts : (path : Bytes) → (sanitize path ≡ ok tt) ↔ All IsComponent (split path)
unfolding sanitize fail_if split
sanitize-parts [] = (λ h. absurd (cc), λ h. absurd (h.0.0 refl))
sanitize-parts (c ∷ s) = check_components-accepts (split (c ∷ s))

-- A path is accepted exactly when it is one or more names with single slashes between them, each of ASCII
-- letters, digits, ".", "_" and "-", and none of them empty, "." or "..".
pub sanitize-IsComponent :
    (path : Bytes)
    → (sanitize path ≡ ok tt)
      ↔ ((w : Bytes) × (ws : List Bytes) × (path ≡ join (w ∷ ws)) × All IsComponent (w ∷ ws))
sanitize-IsComponent path = (
  λ h.
      let (w, ws, e) = split-cons path in
      (w, ws, sym (join-split path) ∙ ap join e, rw e at ((sanitize-parts path).0 h)),
  λ h. let (w, ws, e, a) = h in (sanitize-parts path).1 (rw (e, split-join w ws a) a),
)
