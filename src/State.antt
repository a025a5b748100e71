-- ===== src/State.antt =====
-- crates/xetcasd/src/config.rs and crates/xetcasd/src/state.rs: the settings that the handlers read, and the
-- check of the static token. `--listen` is left to the wiring.
pub mod Token
mod Tests
use xetcas.Prelude.{
  Bool, true, false, ◌==◌, List, [], ◌∷◌, Option, none, some, Bytes, bytes_eq, codes, Result, ok,
  err, if◌then◌else◌,
}
use xetcas.Errors.{AppError, unauthorized}
use xetcas.Headers.{Header, to_str}
use xetcas.HttpRange.{◌>>=◌, trim, strip_prefix}

pub record Config : Type 0 where
  pub public_url : Bytes
  pub git_root : Bytes
  pub git_autocreate : Bool
  pub token : Option Bytes

-- `trim_end_matches('/')`
unfoldable pub public_base : Bytes → Bytes
public_base [] = []
public_base (c ∷ s) = elim (public_base s) [
  | [] ↦ if c == b'/' then [] else c ∷ []
  | d ∷ rest ↦ c ∷ d ∷ rest
]

-- The token that is handed out.
unfoldable pub advertised_token : Config → Bytes
advertised_token config = elim config.token [ none ↦ codes "anonymous" | some token ↦ token ]

unfoldable pub presented : Header → Option Bytes
presented authorization = do
  v ← to_str authorization
  rest ← strip_prefix (codes "Bearer ") v
  some (trim rest)

module _ {M : Type 0} where
  unfoldable pub authorize : Config → Header → Result (AppError M) (Unit {0})
  authorize config authorization = elim config.token [
    | none ↦ ok tt
    | some expected ↦ elim (presented authorization) [
      | none ↦ err unauthorized
      | some token ↦ if bytes_eq token expected then ok tt else err unauthorized
    ]
  ]
