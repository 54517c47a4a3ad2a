-- ===== src/Transport/Tlv.antt =====
-- The identity TLV, the payload of the first handshake message: src/transport.rs.
pub mod RoundTrip
use symbolon.Prelude.{
  ℕ, zero, suc, ◌+◌, ◌-◌, ◌%◌, min, not, ◌||◌, none, some, [], ◌∷◌, ◌++◌, ltb, leb, ◌==◌,
  if◌then◌else◌, length, take, Bytes, bytes_eq, Result, ok, err, ◌>>=◌, map_err,
}
use symbolon.Identity
use symbolon.Identity.{Identity, IdentityError, bad_len, bad_charset, max_len}
use symbolon.Utf8.{invalid_at}

abbrev pub tlv_magic : Bytes
tlv_magic = b'S' ∷ b'B' ∷ b'L' ∷ b'N' ∷ []

abbrev pub tlv_version : ℕ
tlv_version = 0x02

pub data TlvError : Type 0 where
  incomplete : ℕ → TlvError
  bad_magic : Bytes → TlvError
  bad_version : ℕ → TlvError
  bad_identity_len : ℕ → TlvError
  invalid_charset : ℕ → ℕ → TlvError
  trailing_bytes : ℕ → TlvError

-- `From<IdentityError> for TlvError`
unfoldable pub from_identity_error : IdentityError → TlvError
from_identity_error (bad_len got) = bad_identity_len (min got 255 % 256)
from_identity_error (bad_charset offset byte) = invalid_charset offset byte

unfoldable pub identity_tlv_size : ℕ → ℕ
identity_tlv_size identity_len = 6 + identity_len

unfoldable pub encode_identity_tlv : Identity → Bytes
encode_identity_tlv identity =
    tlv_magic ++ tlv_version ∷ (length identity.text % 256) ∷ identity.text

unfoldable pub parse_tlv_head : Bytes → ℕ → ℕ → Result ℕ TlvError
parse_tlv_head magic version id_len =
    if not (bytes_eq magic tlv_magic)
    then err (bad_magic magic)
    else if not (version == tlv_version)
    then err (bad_version version)
    else if id_len == 0 || ltb max_len id_len
    then err (bad_identity_len id_len)
    else ok id_len

-- `body[offset]`; the offset is below the length (`RoundTrip.invalid_at-lt-length`)
abbrev pub byte_at : Bytes → ℕ → ℕ
byte_at [] i = 0
byte_at (b ∷ bs) zero = b
byte_at (b ∷ bs) (suc i) = byte_at bs i

unfoldable pub parse_tlv_body : Bytes → Result Identity TlvError
parse_tlv_body body = elim (invalid_at body) [
  | none ↦ map_err from_identity_error (Identity.parse body)
  | some offset ↦ err (invalid_charset offset (byte_at body offset))
]

-- `input.get(6..total)`, of what stands behind the head
unfoldable pub tlv_body : ℕ → Bytes → Result Bytes TlvError
tlv_body id_len rest =
    if leb id_len (length rest)
    then ok (take id_len rest)
    else err (incomplete (identity_tlv_size id_len - (6 + length rest)))

unfoldable pub parse_identity_tlv : Bytes → Result (Identity × ℕ) TlvError
unfolding tlv_body identity_tlv_size
parse_identity_tlv (m0 ∷ m1 ∷ m2 ∷ m3 ∷ version ∷ id_len ∷ rest) = do
  id_len ← parse_tlv_head (m0 ∷ m1 ∷ m2 ∷ m3 ∷ []) version id_len
  body ← tlv_body id_len rest
  identity ← parse_tlv_body body
  ok (identity, identity_tlv_size id_len)
parse_identity_tlv input = err (incomplete (6 - length input))
