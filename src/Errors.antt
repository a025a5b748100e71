-- ===== src/Errors.antt =====
-- crates/xetcasd/src/error.rs: what a handler fails with, and the status that answers it. `M` is the
-- type of the messages, of which the client reads nothing.
use xetcas.Prelude.{ℕ}

pub data AppError (M : Type 0) : Type 0 where
  not_found : AppError M
  range_not_satisfiable : AppError M
  bad_request : M → AppError M
  unauthorized : AppError M
  internal : M → AppError M

-- The status of `into_response`.
unfoldable pub status : {M : Type 0} → AppError M → ℕ
status not_found = 404
status range_not_satisfiable = 416
status (bad_request m) = 400
status unauthorized = 401
status (internal m) = 500
