-- ===== src/Contracts/Validate/Accepts.antt =====
-- What it means that a validator accepts, and how acceptance composes: the building blocks of
-- crates/xetcas-contracts/src/v1/validate.rs.
use Prim.Native.String.{String}
use xetcas.Prelude.{
  ℕ, ◌≤◌, ◌≡◌, ◌≢◌, refl, ◌↔◌, ◌⊎◌, inl, inr, Bool, true, false, not, ◌&&◌, ◌||◌, Option, none,
  some, List, [], ◌∷◌, Bytes, ok, err, ◌>>=◌, ◌>>◌, fail_if, ltb, length, arith, All, ◌==◌, ==_iff,
}
use xetcas.Contracts.Validate.Fields.{
  Checked, is_empty, all_bytes, is_hex_byte, is_hash_hex, require_hash_hex, require_non_empty,
  require_present, validate_each, require_hash_hex_keys,
}

abbrev pub Accepts : Checked → Type 0 → Type 0
Accepts m P = (m ≡ ok tt) ↔ P

abbrev pub IsHexDigit : ℕ → Type 0
IsHexDigit c = ((b'0' ≤ c) × (c ≤ b'9')) ⊎ ((b'a' ≤ c) × (c ≤ b'f'))

-- 64 lowercase hexadecimal digits.
abbrev pub IsHashHex : Bytes → Type 0
IsHashHex s = (length s ≡ 64) × All IsHexDigit s

-- The value is there and satisfies `P`.
abbrev pub Present {ℓ} : {A : Type ℓ} → (A → Type 0) → Option A → Type 0
Present P none = ⊥
Present P (some a) = P a

-- The value satisfies `P` if it is there.
abbrev pub IfPresent {ℓ} : {A : Type ℓ} → (A → Type 0) → Option A → Type 0
IfPresent P none = Unit
IfPresent P (some a) = P a

pub accepts-then :
    (m k : Checked) {P Q : Type 0} → Accepts m P → Accepts k Q → Accepts (m >> k) (P × Q)
accepts-then (ok u) k hm hk = (λ e. (hm.0 refl, hk.0 e), λ p. hk.1 p.1)
accepts-then (err e) k hm hk = (λ h. cc, λ p. cc (hm.1 p.0))

pub accepts-fail_if : (b : Bool) (e : _) {P : Type 0} → ((b ≡ false) ↔ P) → Accepts (fail_if b e) P
unfolding fail_if
accepts-fail_if true e h = (λ x. cc, λ p. cc (h.1 p))
accepts-fail_if false e h = (λ x. h.0 refl, λ p. refl)

pub accepts-unless :
    (b : Bool) (e : _) {P : Type 0} → ((b ≡ true) ↔ P) → Accepts (fail_if (not b) e) P
unfolding fail_if
accepts-unless true e h = (λ x. h.0 refl, λ p. refl)
accepts-unless false e h = (λ x. cc, λ p. cc (h.1 p))

pub accepts-ltb : (a b : ℕ) → (ltb a b ≡ false) ↔ (b ≤ a)
accepts-ltb a b = ground arith

pub accepts-Present {ℓ} :
    {A : Type ℓ} (m f : String) (o : Option A) (check : A → Checked) {P : A → Type 0}
    → ((a : A) → Accepts (check a) (P a))
    → Accepts (require_present m f o >>= check) (Present P o)
unfolding require_present
accepts-Present m f none check h = (λ x. cc, λ p. absurd p)
accepts-Present m f (some a) check h = h a

pub accepts-Present_then {ℓ} :
    {A : Type ℓ} (m f : String) (o : Option A) (check : A → Checked) (k : Checked) {P : A → Type 0}
    {Q : Type 0}
    → ((a : A) → Accepts (check a) (P a))
    → Accepts k Q
    → Accepts (require_present m f o >>= λ a. check a >> k) (Present P o × Q)
unfolding require_present
accepts-Present_then m f none check k h hk = (λ x. cc, λ p. absurd p.0)
accepts-Present_then m f (some a) check k h hk = accepts-then (check a) k (h a) hk

pub accepts-IfPresent {ℓ} :
    {A : Type ℓ} (o : Option A) (check : A → Checked) {P : A → Type 0}
    → ((a : A) → Accepts (check a) (P a))
    → Accepts (elim o [ none ↦ ok tt | some a ↦ check a ]) (IfPresent P o)
accepts-IfPresent none check h = (λ x. tt, λ p. refl)
accepts-IfPresent (some a) check h = h a

pub accepts-each {ℓ} :
    {A : Type ℓ} (check : A → Checked) {P : A → Type 0} (xs : List A)
    → ((a : A) → Accepts (check a) (P a))
    → Accepts (validate_each check xs) (All P xs)
unfolding validate_each
accepts-each check [] h = (λ x. tt, λ p. refl)
accepts-each check (x ∷ xs) h = accepts-then (check x) _ (h x) (accepts-each check xs h)

pub &&_iff :
    (a b : Bool) {P Q : Type 0} → ((a ≡ true) ↔ P) → ((b ≡ true) ↔ Q) → ((a && b) ≡ true) ↔ (P × Q)
&&_iff true b h k = (λ e. (h.0 refl, k.0 e), λ p. k.1 p.1)
&&_iff false b h k = (λ e. cc, λ p. h.1 p.0)

pub ||_iff :
    (a b : Bool) {P Q : Type 0} → ((a ≡ true) ↔ P) → ((b ≡ true) ↔ Q) → ((a || b) ≡ true) ↔ (P ⊎ Q)
||_iff true b h k = (λ e. inl (h.0 refl), λ p. refl)
||_iff false b h k = (λ e. inr (k.0 e), λ p. elim p [ inl x ↦ cc (h.1 x) | inr y ↦ k.1 y ])

pub is_empty_iff {ℓ} : {A : Type ℓ} (xs : List A) → (is_empty xs ≡ true) ↔ (xs ≡ [])
is_empty_iff [] = (λ e. refl, λ e. refl)
is_empty_iff (x ∷ xs) = (λ e. cc, λ e. cc)

is_hex_byte_iff : (c : ℕ) → (is_hex_byte c ≡ true) ↔ IsHexDigit c
unfolding is_hex_byte
is_hex_byte_iff c = ground arith

all_bytes-All : (s : Bytes) → (all_bytes is_hex_byte s ≡ true) ↔ All IsHexDigit s
unfolding all_bytes
all_bytes-All [] = (λ x. tt, λ p. refl)
all_bytes-All (c ∷ s) = &&_iff (is_hex_byte c) _ (is_hex_byte_iff c) (all_bytes-All s)

pub is_hash_hex_iff : (s : Bytes) → (is_hash_hex s ≡ true) ↔ IsHashHex s
unfolding is_hash_hex
is_hash_hex_iff s = &&_iff (length s == 64) _ (==_iff (length s) 64) (all_bytes-All s)

pub accepts-IsHashHex : (m f : String) (s : Bytes) → Accepts (require_hash_hex m f s) (IsHashHex s)
unfolding require_hash_hex
accepts-IsHashHex m f s =
    (λ e. (is_hash_hex_iff s).0 (ground arith), λ p. rw ((is_hash_hex_iff s).1 p))

pub accepts-non_empty : (m f : String) (s : Bytes) → Accepts (require_non_empty m f s) (s ≢ [])
unfolding require_non_empty
accepts-non_empty m f [] = (λ e. cc, λ p. absurd (p refl))
accepts-non_empty m f (c ∷ s) = (λ e. λ q. cc, λ p. refl)

pub accepts-IsHashHex_keys {ℓ} :
    {V : Type ℓ} (m f : String) (es : List (Bytes × V))
    → Accepts (require_hash_hex_keys m f es) (All (λ e. IsHashHex e.0) es)
unfolding require_hash_hex_keys
accepts-IsHashHex_keys m f es = accepts-each _ es (λ e. accepts-IsHashHex m f e.0)
