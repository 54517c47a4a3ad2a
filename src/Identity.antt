-- ===== src/Identity.antt =====
-- The validated name of a client: src/identity.rs. The laws of `parse` are in `Identity.Rule`.
pub mod Rule
use symbolon.Prelude.{
  ℕ, ◌+◌, Bool, not, ◌&&◌, ◌||◌, Option, none, some, [], ◌∷◌, leb, ltb, ◌==◌, if◌then◌else◌, length,
  Bytes, Result, ok, err,
}

pub data IdentityError : Type 0 where
  bad_len : ℕ → IdentityError
  bad_charset : ℕ → ℕ → IdentityError

pub record Identity : Type 0 where
  pub text : Bytes

abbrev pub max_len : ℕ
max_len = 64

-- `u8::is_ascii_alphanumeric`
abbrev is_ascii_alphanumeric : ℕ → Bool
is_ascii_alphanumeric b =
    leb b'0' b && leb b b'9' || leb b'A' b && leb b b'Z' || leb b'a' b && leb b b'z'

unfoldable pub in_charset : ℕ → Bool
in_charset b = is_ascii_alphanumeric b || b == b'.' || b == b'_' || b == b'-'

-- `bytes.iter().enumerate().find(..)`: the first byte outside the charset, with its offset
unfoldable pub find_bad : ℕ → Bytes → Option (ℕ × ℕ)
find_bad i [] = none
find_bad i (b ∷ bs) = if not (in_charset b) then some (i, b) else find_bad (i + 1) bs

unfoldable pub parse : Bytes → Result Identity IdentityError
parse bytes =
    if length bytes == 0 || ltb max_len (length bytes)
    then err (bad_len (length bytes))
    else elim (find_bad 0 bytes) [
      | some (offset, byte) ↦ err (bad_charset offset byte)
      | none ↦ ok (record { text = bytes })
    ]
