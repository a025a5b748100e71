-- ===== src/Git.antt =====
-- crates/xetcasd/src/routes/git.rs: the checks on the path, the choice between the LFS bridge and `git
-- http-backend`, and the creation of a repository on first touch. What the commands and the file system
-- answer is an argument; a path is a text, with `join` and `starts_with` as `std::path` has them on Unix.
pub mod Cgi
pub mod Paths
pub mod Repo
pub mod Below
pub mod Safe
mod Tests
use xetcas.Prelude.{
  ℕ, ◌+◌, ◌*◌, ◌^◌, ◌%◌, Bool, true, false, not, ◌&&◌, ◌||◌, Option, none, some, List, [], ◌∷◌,
  ◌++◌, Bytes, bytes_eq, codes, length, Result, ok, err, ◌>>=◌, ◌>>◌, fail_if, ltb, leb, ◌==◌,
  if◌then◌else◌,
}
use xetcas.Contracts.Validate.Fields.{is_empty, all_bytes}
use xetcas.Errors.{AppError, not_found, bad_request, internal}
use xetcas.HttpRange.{contains}
use xetcas.State.{Config}

-- The messages.
pub data Reason : Type 0 where
  empty_path : Reason
  bad_component : Reason
  illegal_character : Reason
  no_repository : Reason
  body_too_long : Reason
  escapes_root : Reason
  no_staging : Reason
  git_failed : Reason

abbrev pub Reply : Type 0 → Type 0
Reply A = Result (AppError Reason) A

abbrev push_front : ℕ → List Bytes → List Bytes
push_front c [] = (c ∷ []) ∷ []
push_front c (w ∷ ws) = (c ∷ w) ∷ ws

-- `split('/')`: an empty text has one empty part.
unfoldable pub split : Bytes → List Bytes
split [] = [] ∷ []
split (c ∷ s) = let rest = split s in if c == b'/' then [] ∷ rest else push_front c rest

-- `join("/")`
unfoldable pub join : List Bytes → Bytes
join [] = []
join (w ∷ []) = w
join (w ∷ v ∷ ws) = w ++ (b'/' ∷ join (v ∷ ws))

unfoldable pub strip_suffix : Bytes → Bytes → Option Bytes
strip_suffix suffix [] = if is_empty suffix then some [] else none
strip_suffix suffix (c ∷ s) =
    if bytes_eq (c ∷ s) suffix
    then some []
    else elim (strip_suffix suffix s) [ none ↦ none | some front ↦ some (c ∷ front) ]

unfoldable pub ends_with : Bytes → Bytes → Bool
ends_with suffix s = elim (strip_suffix suffix s) [ none ↦ false | some front ↦ true ]

unfoldable pub is_path_byte : ℕ → Bool
is_path_byte c =
    (leb b'0' c && leb c b'9')
    || (leb b'A' c && leb c b'Z')
    || (leb b'a' c && leb c b'z')
    || (c == b'.')
    || (c == b'_')
    || (c == b'-')

unfoldable pub check_component : Bytes → Reply (Unit {0})
check_component component = do
  fail_if (is_empty component || bytes_eq component (codes ".") || bytes_eq component (codes ".."))
      (bad_request bad_component)
  fail_if (not (all_bytes is_path_byte component)) (bad_request illegal_character)

unfoldable pub check_components : List Bytes → Reply (Unit {0})
check_components [] = ok tt
check_components (component ∷ components) = check_component component >> check_components components

unfoldable pub sanitize : Bytes → Reply (Unit {0})
sanitize path = do fail_if (is_empty path) (bad_request empty_path); check_components (split path)

-- The loop over the parts, with those before.
unfoldable pub split_parts : List Bytes → List Bytes → Reply (Bytes × Bytes)
split_parts prefix [] = err (bad_request no_repository)
split_parts prefix (part ∷ parts) =
    let rest = split_parts (prefix ++ part ∷ []) parts in
    if ends_with (codes ".git") part then ok (join (prefix ++ part ∷ []), join parts) else rest

unfoldable pub split_repo : Bytes → Reply (Bytes × Bytes)
split_repo path = split_parts [] (split path)

unfoldable pub is_absolute : Bytes → Bool
is_absolute [] = false
is_absolute (c ∷ s) = c == b'/'

-- `Path::join`: an absolute path replaces the base.
unfoldable pub path_join : Bytes → Bytes → Bytes
path_join base path =
    if is_absolute path
    then path
    else (if is_empty base || ends_with (codes "/") base
        then base ++ path
        else base ++ (b'/' ∷ path))

-- Empty parts and `.` are no components.
unfoldable pub visible : List Bytes → List Bytes
visible [] = []
visible (part ∷ parts) =
    if is_empty part || bytes_eq part (codes ".") then visible parts else part ∷ visible parts

-- But a path may start with `.`.
unfoldable pub components_of : List Bytes → List Bytes
components_of [] = []
components_of (part ∷ parts) =
    if bytes_eq part (codes ".") then part ∷ visible parts else visible (part ∷ parts)

unfoldable pub is_prefix : List Bytes → List Bytes → Bool
is_prefix [] ws = true
is_prefix (v ∷ vs) [] = false
is_prefix (v ∷ vs) (w ∷ ws) = bytes_eq v w && is_prefix vs ws

-- `Path::starts_with`, by components.
unfoldable pub starts_with : Bytes → Bytes → Bool
starts_with path base =
    (if is_absolute path then is_absolute base else not (is_absolute base))
    && is_prefix (components_of (split base)) (components_of (split path))

-- The repositories whose init and configuration both finished, and the counter `repos_created`.
pub record Repos : Type 0 where
  pub ready : List Bytes
  pub repos_created : ℕ

unfoldable pub repo_is_ready : Bytes → List Bytes → Bool
repo_is_ready dir [] = false
repo_is_ready dir (d ∷ ready) = bytes_eq d dir || repo_is_ready dir ready

-- Which calls of a creation succeed, and whether another writer's repository is there when the staged one
-- could not be made or moved.
pub record Attempt : Type 0 where
  pub staging : Bool
  pub init : Bool
  pub config : Bool
  pub parent : Bool
  pub rename : Bool
  pub other_won : Bool

unfoldable pub built : Attempt → Bool
built a = a.init && a.config && a.parent && a.rename

unfoldable pub autocreate : Attempt → Bytes → Repos → Reply (Unit {0}) × Repos
autocreate a dir s =
    if not a.staging
    then (err (internal no_staging), s)
    else (if built a
        then (
          ok tt,
          record { ready = dir ∷ s.ready; repos_created = (s.repos_created + 1) % 2 ^ 64 },
        )
        else (if a.other_won
            then (ok tt, record { ready = dir ∷ s.ready; repos_created = s.repos_created })
            else (err (internal git_failed), s)))

-- Where a request goes.
pub data Target : Type 0 where
  lfs_batch : Bytes → Bytes → Target
  http_backend : Bytes → Target

abbrev batch_suffix : Bytes
batch_suffix = codes "/info/lfs/objects/batch"

abbrev max_batch_bytes : ℕ
max_batch_bytes = 8 * 1024 * 1024

-- The repository is created under the lock, if there is none yet.
unfoldable pub create_repo : Config → Attempt → Bytes → Repos → Reply (Unit {0}) × Repos
create_repo config attempt dir locked =
    if repo_is_ready dir locked.ready
    then (ok tt, locked)
    else (if not config.git_autocreate
        then (err not_found, locked)
        else autocreate attempt dir locked)

abbrev then_backend : Bytes → Reply (Unit {0}) × Repos → Reply Target × Repos
then_backend path (ok u, s) = (ok (http_backend path), s)
then_backend path (err e, s) = (err e, s)

-- `locked` are the repositories when the lock is taken.
unfoldable pub ready_repo : Config → Attempt → Bytes → Bytes → Repos → Repos → Reply Target × Repos
ready_repo config attempt path dir locked s =
    if repo_is_ready dir s.ready
    then (ok (http_backend path), s)
    else then_backend path (create_repo config attempt dir locked)

unfoldable pub git_request : Config → Attempt → Bytes → Repos → Repos → Reply Target × Repos
git_request config attempt path locked s = elim (split_repo path) [
  | err e ↦ (err e, s)
  | ok (repo, rest) ↦
      if not (starts_with (path_join config.git_root repo) config.git_root)
      then (err (bad_request escapes_root), s)
      else ready_repo config attempt path (path_join config.git_root repo) locked s
]

unfoldable pub batch_request : Bytes → Bytes → Reply Target
batch_request repo body =
    if ltb max_batch_bytes (length body)
    then err (bad_request body_too_long)
    else ok (lfs_batch repo body)

unfoldable pub dispatch :
    Config → Attempt → Bytes → Bytes → Bytes → Repos → Repos → Reply Target × Repos
dispatch config attempt method path body locked s = elim (sanitize path) [
  | err e ↦ (err e, s)
  | ok u ↦
      if bytes_eq method (codes "POST")
      then elim (strip_suffix batch_suffix path) [
        | some repo ↦ (batch_request repo body, s)
        | none ↦ git_request config attempt path locked s
      ]
      else git_request config attempt path locked s
]
