-- ===== src/Git/Tests.antt =====
-- The path checks and the output of crates/xetcasd/src/routes/git.rs on small inputs.
use xetcas.Prelude.{
  ◌≡◌, ◌↔◌, refl, true, false, none, List, [], ◌∷◌, Bytes, bytes_eq, codes, ok, fail_if, All,
}
use xetcas.Contracts.Validate.Fields.{all_bytes}
use xetcas.HttpRange.{strip_prefix}
use xetcas.State.{Config}
use xetcas.Git.{
  split, join, strip_suffix, ends_with, is_path_byte, check_component, check_components, sanitize,
  split_parts, split_repo, is_absolute, path_join, visible, components_of, is_prefix, starts_with,
  Repos, repo_is_ready, Attempt, built, autocreate, http_backend, create_repo, ready_repo,
  git_request, dispatch,
}
use xetcas.Git.Paths.{IsComponent, sanitize-IsComponent}
use xetcas.Git.Safe.{Reaches, dispatch-Reaches}
use xetcas.Git.Cgi.{
  begins, position, earlier, find_header_end, read_header, cut, concat, split_output,
}
use xetcas.Git.Cgi.Ends.{first_end}
use xetcas.Git.Cgi.Chunks.{split_output-cut}

abbrev config : Config
config = record {
  public_url = codes "http://localhost:8080";
  git_root = codes "./data/git";
  git_autocreate = true;
  token = none;
}

abbrev attempt : Attempt
attempt = record {
  staging = true;
  init = true;
  config = true;
  parent = true;
  rename = true;
  other_won = false;
}

abbrev path : Bytes
path = codes "t/x.git/info/refs"

abbrev no_repos : Repos
no_repos = record { ready = []; repos_created = 0 }

abbrev one_repo : Repos
one_repo = record { ready = codes "./data/git/t/x.git" ∷ []; repos_created = 1 }

dispatched :
    dispatch config attempt (codes "GET") path [] no_repos no_repos
    ≡ (ok (http_backend path), one_repo)
unfolding dispatch sanitize check_components check_component fail_if all_bytes is_path_byte split
    bytes_eq git_request split_repo split_parts ends_with strip_suffix join path_join is_absolute
    starts_with is_prefix components_of visible ready_repo repo_is_ready create_repo autocreate
    built
dispatched = refl

dispatch-Reaches_example : Reaches config path path one_repo
dispatch-Reaches_example =
    dispatch-Reaches config attempt (codes "GET") path [] path no_repos no_repos one_repo dispatched

sanitize-IsComponent_example :
    (sanitize path ≡ ok tt)
    ↔ ((w : Bytes) × (ws : List Bytes) × (path ≡ join (w ∷ ws)) × All IsComponent (w ∷ ws))
sanitize-IsComponent_example = sanitize-IsComponent path

abbrev chunks : List Bytes
chunks = codes "Status: 404" ∷ (13 ∷ 10 ∷ 13 ∷ []) ∷ (10 ∷ codes "no") ∷ codes "pe" ∷ []

split_output_test : split_output chunks ≡ (codes "Status: 404", codes "nope")
unfolding split_output read_header find_header_end position begins strip_prefix earlier cut concat
split_output_test = refl

split_output-cut_example : split_output chunks ≡ cut (first_end (concat chunks)) (concat chunks)
split_output-cut_example = split_output-cut chunks
