-- ===== src/Git/Repo.antt =====
-- What `split_repo` of crates/xetcasd/src/routes/git.rs makes of a path.
use xetcas.Prelude.{
  ◌≡◌, refl, sym, ap, ◌∙◌, ◌⊎◌, inl, inr, true, false, Bool-cases, List, [], ◌∷◌, ◌++◌,
  append_assoc, Bytes, codes, ok, err, All,
}
use xetcas.Errors.{bad_request}
use xetcas.Git.{no_repository, split, join, ends_with, split_parts, split_repo}
use xetcas.Git.Paths.{join-split}

abbrev pub IsPlainName : Bytes → Type 0
IsPlainName w = ends_with (codes ".git") w ≡ false

-- The parts of a path around the first one that ends in ".git".
pub record Parts (ws : List Bytes) : Type 0 where
  pub before : List Bytes
  pub name : Bytes
  pub after : List Bytes
  pub whole : ws ≡ before ++ name ∷ after
  pub first : All IsPlainName before
  pub git : ends_with (codes ".git") name ≡ true

parts-found :
    (prefix ws : List Bytes) (w : Bytes)
    → ends_with (codes ".git") w ≡ true
    → split_parts prefix (w ∷ ws) ≡ ok (join (prefix ++ w ∷ []), join ws)
unfolding split_parts
parts-found prefix ws w h = rw h refl

parts-next :
    (prefix ws : List Bytes) (w : Bytes)
    → ends_with (codes ".git") w ≡ false
    → split_parts prefix (w ∷ ws) ≡ split_parts (prefix ++ w ∷ []) ws
unfolding split_parts
parts-next prefix ws w h = rw h refl

parts-none : (prefix : List Bytes) → split_parts prefix [] ≡ err (bad_request no_repository)
unfolding split_parts
parts-none prefix = refl

-- Either there is such a part, and the parts around it are joined, or there is none.
split_parts-cases :
    (prefix ws : List Bytes)
    → ((p : Parts ws) × (split_parts prefix ws
          ≡ ok (join (prefix ++ (p.before ++ p.name ∷ [])), join p.after)))
      ⊎ (All IsPlainName ws × (split_parts prefix ws ≡ err (bad_request no_repository)))
split_parts-cases prefix [] = inr (tt, parts-none prefix)
split_parts-cases prefix (w ∷ ws) = elim (Bool-cases (ends_with (codes ".git") w)) [
  | inl h ↦ inl (
    record { before = []; name = w; after = ws; whole = refl; first = tt; git = h },
    parts-found prefix ws w h,
  )
  | inr h ↦ elim (split_parts-cases (prefix ++ w ∷ []) ws) [
    | inl (p, e) ↦ inl (
      record {
        before = w ∷ p.before;
        name = p.name;
        after = p.after;
        whole = ap (λ l. w ∷ l) p.whole;
        first = (h, p.first);
        git = p.git;
      },
      parts-next prefix ws w h
          ∙ e
          ∙ ap (λ l. ok (join l, join p.after))
              (append_assoc prefix (w ∷ []) (p.before ++ p.name ∷ [])),
    )
    | inr (none_there, e) ↦ inr ((h, none_there), parts-next prefix ws w h ∙ e)
  ]
]

join-append :
    (v : List Bytes) (w x : Bytes) (ws : List Bytes)
    → join (v ++ w ∷ x ∷ ws) ≡ join (v ++ w ∷ []) ++ (b'/' ∷ join (x ∷ ws))
unfolding join
join-append [] w x ws = refl
join-append (u ∷ []) w x ws =
    ap (λ l. u ++ (b'/' ∷ l)) (join-append [] w x ws)
    ∙ sym (append_assoc u (b'/' ∷ w) (b'/' ∷ join (x ∷ ws)))
join-append (u ∷ t ∷ v) w x ws =
    ap (λ l. u ++ (b'/' ∷ l)) (join-append (t ∷ v) w x ws)
    ∙ sym (append_assoc u (b'/' ∷ join (t ∷ v ++ w ∷ [])) (b'/' ∷ join (x ∷ ws)))

-- The repository and the rest, put together with a slash, are the path, or there is no rest.
abbrev pub Rejoins : Bytes → Bytes → Bytes → Type 0
Rejoins path repo rest = ((path ≡ repo) × (rest ≡ [])) ⊎ (path ≡ repo ++ (b'/' ∷ rest))

rejoins :
    (v : List Bytes) (w : Bytes) (ws : List Bytes)
    → Rejoins (join (v ++ w ∷ ws)) (join (v ++ w ∷ [])) (join ws)
rejoins v w [] = inl (refl, (unfold join in refl))
rejoins v w (x ∷ ws) = inr (join-append v w x ws)

-- `split_repo` cuts every path that has a part ending in ".git" behind the first such part: the repository is
-- the path up to and with that part, and with the rest it is the whole path. It refuses exactly the
-- paths without such a part.
pub split_repo-Parts :
    (path : Bytes)
    → ((p : Parts (split path)) × (repo : Bytes) × (rest : Bytes) × ((split_repo path
            ≡ ok (repo, rest))
          × (repo ≡ join (p.before ++ p.name ∷ []))
          × Rejoins path repo rest))
      ⊎ (All IsPlainName (split path) × (split_repo path ≡ err (bad_request no_repository)))
unfolding split_repo
split_repo-Parts path = elim (split_parts-cases [] (split path)) [
  | inl (p, e) ↦
      let whole = sym (join-split path) ∙ ap join p.whole in
      inl (
        p,
        join (p.before ++ p.name ∷ []),
        join p.after,
        (e, refl, rw whole (rejoins p.before p.name p.after)),
      )
  | inr h ↦ inr h
]
