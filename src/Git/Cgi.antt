-- ===== src/Git/Cgi.antt =====
-- `cgi` of crates/xetcasd/src/routes/git.rs: how the output of `git http-backend` becomes a response. The
-- output comes in the chunks that the reads before its end return; the checks of the crate http on a header
-- are an argument. The header block is taken as ASCII.
pub mod Ends
pub mod Chunks
use xetcas.Prelude.{
  ℕ, zero, suc, ◌+◌, ◌≤◌, Bool, true, false, not, ◌&&◌, ◌||◌, Option, none, some, List, [], ◌∷◌,
  ◌++◌, Bytes, bytes_eq, codes, take, drop, ltb, leb, ◌==◌, if◌then◌else◌,
}
use xetcas.HttpRange.{◌>>=◌, is_space, trim, trim_start, strip_prefix, split_once, parse_u64}
use xetcas.Contracts.Validate.Fields.{is_empty}

unfoldable pub begins : Bytes → Bytes → Bool
begins pattern s = elim (strip_prefix pattern s) [ none ↦ false | some rest ↦ true ]

-- `windows(n).position(..)` for a pattern of n bytes.
unfoldable pub position : Bytes → Bytes → Option ℕ
position pattern [] = none
position pattern (c ∷ s) =
    let rest = position pattern s in
    if begins pattern (c ∷ s) then some 0 else elim rest [ none ↦ none | some i ↦ some (suc i) ]

abbrev pub crlf_crlf : Bytes
crlf_crlf = 13 ∷ 10 ∷ 13 ∷ 10 ∷ []

abbrev pub lf_lf : Bytes
lf_lf = 10 ∷ 10 ∷ []

-- Of two ends the one that starts earlier.
unfoldable pub earlier : Option ℕ → Option ℕ → Option (ℕ × ℕ)
earlier none none = none
earlier none (some b) = some (b, b + 2)
earlier (some a) none = some (a, a + 4)
earlier (some a) (some b) = if leb a b then some (a, a + 4) else some (b, b + 2)

unfoldable pub find_header_end : Bytes → Option (ℕ × ℕ)
find_header_end buf = earlier (position crlf_crlf buf) (position lf_lf buf)

-- The loop that reads until the end of the header block is there: what it found, what it read, and what
-- is left to read.
unfoldable pub read_header : List Bytes → Bytes → Option (ℕ × ℕ) × Bytes × List Bytes
read_header [] buffered = (find_header_end buffered, buffered, [])
read_header (chunk ∷ chunks) buffered =
    let rest = read_header chunks (buffered ++ chunk) in
    elim (find_header_end buffered) [ none ↦ rest | some at ↦ (some at, buffered, chunk ∷ chunks) ]

unfoldable pub cut : Option (ℕ × ℕ) → Bytes → Bytes × Bytes
cut none buffered = (buffered, [])
cut (some (end, body_at)) buffered = (take end buffered, drop body_at buffered)

unfoldable pub concat : List Bytes → Bytes
concat [] = []
concat (chunk ∷ chunks) = chunk ++ concat chunks

-- The header block and the whole body that is sent: the rest of what was read, then the stream.
unfoldable pub split_output : List Bytes → Bytes × Bytes
split_output chunks =
    let (at, buffered, left) = read_header chunks [] in
    let parts = cut at buffered in (parts.0, parts.1 ++ concat left)

abbrev push_front : ℕ → List Bytes → List Bytes
push_front c [] = (c ∷ []) ∷ []
push_front c (w ∷ ws) = (c ∷ w) ∷ ws

-- `str::lines`
unfoldable pub lines : Bytes → List Bytes
lines [] = []
lines (c ∷ s) =
    let rest = lines s in
    if c == 10
    then [] ∷ rest
    else (if (c == 13) && begins (10 ∷ []) s then rest else push_front c rest)

unfoldable pub to_lower : Bytes → Bytes
to_lower [] = []
to_lower (c ∷ s) = (if leb b'A' c && leb c b'Z' then c + 32 else c) ∷ to_lower s

unfoldable pub until_space : Bytes → Bytes
until_space [] = []
until_space (c ∷ s) = let rest = until_space s in if is_space c then [] else c ∷ rest

-- `split_whitespace().next()`
unfoldable pub first_word : Bytes → Option Bytes
first_word s = elim (until_space (trim_start s)) [ [] ↦ none | c ∷ w ↦ some (c ∷ w) ]

-- `StatusCode::from_u16` takes 100 to 999.
unfoldable pub status_of : Bytes → ℕ
status_of value = elim (parse_u64 (elim (first_word value) [ none ↦ codes "200" | some w ↦ w ])) [
  | none ↦ 200
  | some c ↦ if leb 100 c && leb c 999 then c else 200
]

-- The response builder: a header that the crate http refuses makes the response an error.
pub record Builder : Type 0 where
  pub status : ℕ
  pub headers : List (Bytes × Bytes)
  pub broken : Bool

unfoldable pub add_line : (Bytes → Bytes → Bool) → Bytes → Builder → Builder
add_line valid line b = elim (split_once b':' line) [
  | none ↦ b
  | some (name, value) ↦
      if bytes_eq (to_lower (trim name)) (codes "status")
      then record { status = status_of (trim value); headers = b.headers; broken = b.broken }
      else record {
        status = b.status;
        headers = b.headers ++ (trim name, trim value) ∷ [];
        broken = b.broken || not (valid (trim name) (trim value));
      }
]

unfoldable pub add_lines : (Bytes → Bytes → Bool) → List Bytes → Builder → Builder
add_lines valid [] b = b
add_lines valid (line ∷ rest) b = add_lines valid rest (add_line valid line b)

pub record CgiResponse : Type 0 where
  pub status : ℕ
  pub headers : List (Bytes × Bytes)
  pub body : Bytes

-- `none` is the error "build git response".
unfoldable pub cgi_response : (Bytes → Bytes → Bool) → List Bytes → Option CgiResponse
cgi_response valid chunks =
    let (head, body) = split_output chunks in
    let b = add_lines valid (lines head) (record { status = 200; headers = []; broken = false }) in
    if b.broken then none else some (record { status = b.status; headers = b.headers; body = body })
