-- ===== src/Headers.antt =====
-- A header of a request, as the handlers of crates/xetcasd/src/routes read it: `HeaderMap::get` and then
-- `HeaderValue::to_str`. It is there or not, and reads as visible ASCII or not.
use xetcas.Prelude.{Option, none, some, Bytes}

pub data Header : Type 0 where
  absent : Header
  unreadable : Header
  value : Bytes → Header

-- `headers.get(..).and_then(|v| v.to_str().ok())`
abbrev pub to_str : Header → Option Bytes
to_str absent = none
to_str unreadable = none
to_str (value s) = some s
