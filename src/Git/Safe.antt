-- ===== src/Git/Safe.antt =====
-- Where `dispatch` of crates/xetcasd/src/routes/git.rs sends a request: only to repositories under the root
-- that are ready.
use xetcas.Prelude.{
  ◌≡◌, refl, sym, ap, subst, ◌∙◌, inl, inr, true, false, Bool-cases, List, [], ◌∷◌, ◌++◌, Bytes,
  bytes_eq_refl, ok, err, arith, All,
}
use xetcas.Contracts.Validate.Fields.{all_bytes}
use xetcas.Errors.{AppError}
use xetcas.State.{Config}
use xetcas.Git.{
  Reason, Reply, split, join, sanitize, split_repo, is_absolute, path_join, is_path_byte,
  components_of, starts_with, Repos, repo_is_ready, Attempt, autocreate, http_backend, create_repo,
  then_backend, ready_repo, git_request, batch_request, dispatch,
}
use xetcas.Git.Paths.{IsComponent, split-join, sanitize-parts}
use xetcas.Git.Below.{starts_with-path_join, components_of-path_join}
use xetcas.Git.Repo.{Parts, split_repo-Parts}

join-relative : (w : Bytes) (ws : List Bytes) → IsComponent w → is_absolute (join (w ∷ ws)) ≡ false
unfolding is_absolute join all_bytes is_path_byte
join-relative [] ws h = absurd (h.0 refl)
join-relative (c ∷ w) [] h = let p = h.3 in ground arith
join-relative (c ∷ w) (v ∷ ws) h = let p = h.3 in ground arith

-- The repository of a path that passed the check is not absolute, and each of its parts is a name.
repo-components :
    (ws : List Bytes) (p : Parts ws)
    → All IsComponent ws
    → (is_absolute (join (p.before ++ p.name ∷ [])) ≡ false)
      × All IsComponent (split (join (p.before ++ p.name ∷ [])))
repo-components ws p h = go p.before p.name p.after (rw (p.whole) at h)
  where
    up_to :
        (before : List Bytes) (name : Bytes) (after : List Bytes)
        → All IsComponent (before ++ name ∷ after)
        → All IsComponent (before ++ name ∷ [])
    up_to [] name after h = (h.0, tt)
    up_to (w ∷ before) name after h = (h.0, up_to before name after h.1)

    go :
        (before : List Bytes) (name : Bytes) (after : List Bytes)
        → All IsComponent (before ++ name ∷ after)
        → (is_absolute (join (before ++ name ∷ [])) ≡ false)
          × All IsComponent (split (join (before ++ name ∷ [])))
    go [] name after h = (join-relative name [] h.0, rw (split-join name [] (h.0, tt)) (h.0, tt))
    go (w ∷ before) name after h =
        let all : All IsComponent (w ∷ (before ++ name ∷ [])) =
          (h.0, up_to before name after h.1) in
        (join-relative w (before ++ name ∷ []) h.0, rw (split-join w (before ++ name ∷ []) all) all)

then_backend-ok :
    (path p : Bytes) (r : Reply (Unit {0}) × Repos) (s' : Repos)
    → then_backend path r ≡ (ok (http_backend p), s')
    → (r ≡ (ok tt, s')) × (p ≡ path)
then_backend-ok path p (ok u, s) s' h = (ground arith, ground arith)
then_backend-ok path p (err e, s) s' h = absurd (ground arith)

module _ (config : Config) (attempt : Attempt) (dir : Bytes) where
  ready-first : (ready : List Bytes) → repo_is_ready dir (dir ∷ ready) ≡ true
  unfolding repo_is_ready
  ready-first ready = rw (bytes_eq_refl dir) refl

  autocreate-ready :
      (s s' : Repos) → autocreate attempt dir s ≡ (ok tt, s') → repo_is_ready dir s'.ready ≡ true
  unfolding autocreate
  autocreate-ready s s' h = let first = ready-first s.ready in ground arith

  create_repo-ready :
      (locked s' : Repos)
      → create_repo config attempt dir locked ≡ (ok tt, s')
      → repo_is_ready dir s'.ready ≡ true
  unfolding create_repo
  create_repo-ready locked s' h = let made = autocreate-ready locked s' in ground arith

  ready_repo-ready :
      (path p : Bytes) (locked s s' : Repos)
      → ready_repo config attempt path dir locked s ≡ (ok (http_backend p), s')
      → (p ≡ path) × (repo_is_ready dir s'.ready ≡ true)
  unfolding ready_repo
  ready_repo-ready path p locked s s' h = elim (Bool-cases (repo_is_ready dir s.ready)) [
    | inl e ↦ ground arith
    | inr e ↦
        let (made, same) =
          then_backend-ok path p (create_repo config attempt dir locked) s' (ground arith) in
        (same, create_repo-ready locked s' made)
  ]

-- For a path that passed the check, the directory of its repository lies below the root of all
-- repositories, however the root is written: the last check of `dispatch` never refuses a request.
pub sanitize-starts_with :
    (root path repo rest : Bytes)
    → sanitize path ≡ ok tt
    → split_repo path ≡ ok (repo, rest)
    → starts_with (path_join root repo) root ≡ true
sanitize-starts_with root path repo rest h e = elim (split_repo-Parts path) [
  | inr (plain, f) ↦ absurd (ground arith)
  | inl (p, repo', rest', (f, q, r)) ↦
      let same : repo' ≡ repo = ground arith in
      starts_with-path_join root repo (
        ap is_absolute (sym same ∙ q)
        ∙ (repo-components (split path) p ((sanitize-parts path).0 h)).0)
]

-- And each of its parts is a name.
split_repo-components :
    (path repo rest : Bytes)
    → sanitize path ≡ ok tt
    → split_repo path ≡ ok (repo, rest)
    → (is_absolute repo ≡ false) × All IsComponent (split repo)
split_repo-components path repo rest h e = elim (split_repo-Parts path) [
  | inr (plain, f) ↦ absurd (ground arith)
  | inl (p, repo', rest', (f, q, r)) ↦
      let same : repo' ≡ repo = ground arith in
      subst (λ x. (is_absolute x ≡ false) × All IsComponent (split x)) (sym q ∙ same)
        (repo-components (split path) p ((sanitize-parts path).0 h))
]

-- What a request that reaches `git http-backend` went through.
abbrev pub Reaches : Config → Bytes → Bytes → Repos → Type 0
Reaches config path p s' =
    (repo : Bytes) × (rest : Bytes) × ((split_repo path ≡ ok (repo, rest))
      × (p ≡ path)
      × All IsComponent (split path)
      × All IsComponent (split repo)
      × (components_of (split (path_join config.git_root repo))
          ≡ components_of (split config.git_root) ++ split repo)
      × (repo_is_ready (path_join config.git_root repo) s'.ready ≡ true))

module _ (config : Config) (attempt : Attempt) (path p : Bytes) (locked s s' : Repos) where
  git_request-step :
      (repo rest : Bytes)
      → split_repo path ≡ ok (repo, rest)
      → starts_with (path_join config.git_root repo) config.git_root ≡ true
      → git_request config attempt path locked s
        ≡ ready_repo config attempt path (path_join config.git_root repo) locked s
  unfolding git_request
  git_request-step repo rest e h = ground arith

  git_request-refused :
      (f : AppError Reason)
      → split_repo path ≡ err f
      → git_request config attempt path locked s ≡ (err f, s)
  unfolding git_request
  git_request-refused f e = ground arith

  git_request-Reaches :
      sanitize path ≡ ok tt
      → git_request config attempt path locked s ≡ (ok (http_backend p), s')
      → Reaches config path p s'
  git_request-Reaches h e = elim (split_repo-Parts path) [
    | inr (plain, f) ↦ let g = git_request-refused _ f in absurd (ground arith)
    | inl (parts, repo, rest, (f, q, r)) ↦
        let below = sanitize-starts_with config.git_root path repo rest h f in
        let (same, ready) =
          ready_repo-ready config attempt (path_join config.git_root repo) path p locked s s'
            (sym (git_request-step repo rest f below) ∙ e) in
        let (relative, names) = split_repo-components path repo rest h f in
        (
          repo,
          rest,
          (
            f,
            same,
            (sanitize-parts path).0 h,
            names,
            components_of-path_join config.git_root repo relative names,
            ready,
          ),
        )
  ]

  dispatch-git :
      (method body : Bytes)
      → dispatch config attempt method path body locked s ≡ (ok (http_backend p), s')
      → (sanitize path ≡ ok tt)
        × (git_request config attempt path locked s ≡ (ok (http_backend p), s'))
  unfolding dispatch batch_request
  dispatch-git method body h = ground arith

-- A request that is passed to `git http-backend` is passed on with its path as it came, and every part of
-- that path is a name: none is empty, "." or "..". The directory of its repository has the components
-- of the root of all repositories followed by names only, so that no component leads up again. And that
-- repository is ready then, whatever the calls that create it answered.
pub dispatch-Reaches :
    (config : Config) (attempt : Attempt) (method path body p : Bytes) (locked s s' : Repos)
    → dispatch config attempt method path body locked s ≡ (ok (http_backend p), s')
    → Reaches config path p s'
dispatch-Reaches config attempt method path body p locked s s' h =
    let (passed, request) = dispatch-git config attempt path p locked s s' method body h in
    git_request-Reaches config attempt path p locked s s' passed request
