-- ===== src/Transport/Frame.antt =====
-- Length-prefixed frames: src/transport.rs.
use symbolon.Prelude.{
  ℕ, ◌+◌, ◌*◌, ◌/◌, ◌%◌, ◌^◌, ◌≤◌, ◌<◌, ◌≡◌, ◌⊎◌, inl, inr, [], ◌∷◌, ◌++◌, arith, ltb,
  if◌then◌else◌, Bool-cases, length, Bytes, Result, ok, err,
}
use symbolon.Transport.Errors.{TransportError, oversized_frame}

abbrev pub max_message_size : ℕ
max_message_size = 65535

-- `len.to_be_bytes()`, for `len = payload.len() as u16`
unfoldable pub to_be_bytes : ℕ → Bytes
to_be_bytes n = (n / 256 % 256) ∷ (n % 256) ∷ []

-- `u16::from_be_bytes`
unfoldable pub from_be_bytes : ℕ → ℕ → ℕ
from_be_bytes hi lo = hi * 256 + lo

unfoldable pub frame : {S : Type 0} → Bytes → Result Bytes (TransportError S)
unfolding to_be_bytes
frame payload =
    if ltb max_message_size (length payload)
    then err (oversized_frame (length payload))
    else ok (to_be_bytes (length payload % 2 ^ 16) ++ payload)

unfoldable pub read_frame_length : {S : Type 0} → ℕ → ℕ → Result ℕ (TransportError S)
unfolding from_be_bytes
read_frame_length hi lo =
    let len = from_be_bytes hi lo in
    if ltb max_message_size len then err (oversized_frame len) else ok len

-- Two bytes never announce more than a frame may hold: the length check is never taken.
pub read_frame_length_total :
    {S : Type 0} (hi lo : ℕ)
    → hi < 256
    → lo < 256
    → (n : ℕ) × (read_frame_length {S = S} hi lo ≡ ok n) × (n ≤ max_message_size)
unfolding read_frame_length
read_frame_length_total hi lo h l = (hi * 256 + lo, ground arith, omega arith)

-- A payload that fits is framed, the prefix is two bytes, and reading it gives the payload's length;
-- any other payload is refused with its length.
pub frame_lem :
    {S : Type 0} (payload : Bytes)
    → ((length payload ≤ max_message_size)
        × ((hi lo : ℕ) × (frame {S = S} payload ≡ ok (hi ∷ lo ∷ payload))
            × (read_frame_length {S = S} hi lo ≡ ok (length payload))
            × (hi < 256)
            × (lo < 256)))
      ⊎ ((max_message_size < length payload)
          × (frame {S = S} payload ≡ err (oversized_frame (length payload))))
unfolding frame read_frame_length
frame_lem payload = elim (Bool-cases (ltb max_message_size (length payload))) [
  | inl big ↦ inr (ground arith, ground arith)
  | inr fits ↦
      let n : ℕ = length payload in
      inl (
        ground arith,
        (
          n % 2 ^ 16 / 256 % 256,
          n % 2 ^ 16 % 256,
          ground arith,
          ground arith,
          omega arith,
          omega arith,
        ),
      )
]
