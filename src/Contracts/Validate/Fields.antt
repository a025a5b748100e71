-- ===== src/Contracts/Validate/Fields.antt =====
-- crates/xetcas-contracts/src/v1/validate.rs: the error, and the checks on one field.
use Prim.Native.String.{String}
use xetcas.Prelude.{
  ℕ, Bool, true, false, ◌&&◌, ◌||◌, Option, List, [], ◌∷◌, Bytes, Result, ok, err, ◌>>◌, ok_or, leb,
  ◌==◌, length, if◌then◌else◌,
}
use xetcas.Contracts.Constants.{hash_hex_len}

-- A violated rule: the message, the field ("" for the whole message) and the predicate.
pub record ValidationError : Type 0 where
  pub message : String
  pub field : String
  pub predicate : String

-- How a validator ends early: it returns the error, or an `expect` of it panics.
pub data Failure : Type 0 where
  invalid : ValidationError → Failure
  panicked : Failure

-- `ValidationError::new`.
abbrev pub violation : String → String → String → Failure
violation m f p = invalid (record { message = m; field = f; predicate = p })

abbrev pub Checked : Type 0
Checked = Result Failure (Unit {0})

abbrev pub is_empty {ℓ} : {A : Type ℓ} → List A → Bool
is_empty [] = true
is_empty (x ∷ xs) = false

unfoldable pub all_bytes : (ℕ → Bool) → Bytes → Bool
all_bytes p [] = true
all_bytes p (c ∷ s) = p c && all_bytes p s

-- `byte.is_ascii_digit() || (b'a'..=b'f').contains(&byte)`
unfoldable pub is_hex_byte : ℕ → Bool
is_hex_byte byte = (leb b'0' byte && leb byte b'9') || (leb b'a' byte && leb byte b'f')

unfoldable pub is_hash_hex : Bytes → Bool
is_hash_hex value = (length value == hash_hex_len) && all_bytes is_hex_byte value

abbrev pub hash_hex_predicate : String
hash_hex_predicate = "len(this) == 64 && matches(this, \"^[0-9a-f]{64}$\")"

abbrev pub non_empty_predicate : String
non_empty_predicate = "len(this) >= 1"

abbrev pub present_predicate : String
present_predicate = "message field is present"

unfoldable pub require_hash_hex : String → String → Bytes → Checked
require_hash_hex message field value =
    if is_hash_hex value then ok tt else err (violation message field hash_hex_predicate)

unfoldable pub require_non_empty : String → String → Bytes → Checked
require_non_empty message field value =
    if is_empty value then err (violation message field non_empty_predicate) else ok tt

unfoldable pub require_present {ℓ} : {A : Type ℓ} → String → String → Option A → Result Failure A
require_present message field value = ok_or value (violation message field present_predicate)

-- `for entry in list { check(entry)?; }`
unfoldable pub validate_each {ℓ} : {A : Type ℓ} → (A → Checked) → List A → Checked
validate_each check [] = ok tt
validate_each check (x ∷ xs) = check x >> validate_each check xs

unfoldable pub require_hash_hex_keys {ℓ} :
    {V : Type ℓ} → String → String → List (Bytes × V) → Checked
unfolding validate_each
require_hash_hex_keys message field m = validate_each (λ e. require_hash_hex message field e.0) m
