-- ===== src/State/Tests.antt =====
-- The static token of crates/xetcasd/src/state.rs on one header.
use xetcas.Prelude.{ℕ, ◌≡◌, ◌↔◌, ◌⊎◌, true, none, some, Bytes, codes, ok}
use xetcas.Headers.{Header, value}
use xetcas.State.{Config, authorize}
use xetcas.State.Token.{Carries, authorize-Carries}

abbrev config : Config
config = record {
  public_url = codes "http://localhost:8080";
  git_root = codes "./xetcas-data/git";
  git_autocreate = true;
  token = some (codes "secret");
}

abbrev header : Header
header = value (codes "Bearer  secret ")

authorize-Carries_example : (authorize {M = ℕ} config header ≡ ok tt) ↔ (
    (config.token ≡ none)
    ⊎ ((expected : Bytes) × (config.token ≡ some expected) × Carries header expected))
authorize-Carries_example = authorize-Carries ℕ config header
