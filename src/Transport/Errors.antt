-- ===== src/Transport/Errors.antt =====
-- The errors of src/transport.rs, over the Noise library's error, and how they are lifted.
use Prim.Native.String.{String}
use symbolon.Prelude.{ℕ, Bytes}
use symbolon.Transport.Tlv.{
  TlvError, incomplete, bad_magic, bad_version, bad_identity_len, invalid_charset, trailing_bytes,
}

pub data TransportError (S : Type 0) : Type 0 where
  params : S → TransportError S
  handshake_read : S → TransportError S
  handshake_write : S → TransportError S
  transition : S → TransportError S
  transport_read : S → TransportError S
  transport_write : S → TransportError S
  oversized_frame : ℕ → TransportError S

-- `SessionError`, over the Noise library's error
pub data SessionError (S : Type 0) : Type 0 where
  tlv_bad_magic : Bytes → SessionError S
  tlv_bad_version : ℕ → SessionError S
  tlv_bad_identity_len : ℕ → SessionError S
  tlv_invalid_charset : ℕ → ℕ → SessionError S
  tlv_trailing_bytes : ℕ → SessionError S
  tlv_incomplete : ℕ → SessionError S
  handshake_read : S → SessionError S
  handshake_write : S → SessionError S
  into_transport : S → SessionError S
  transport_read : S → SessionError S
  transport_write : S → SessionError S
  frame_too_big : ℕ → SessionError S
  recv_len : ℕ → ℕ → SessionError S
  wrong_state : String → String → SessionError S

module _ {S : Type 0} where
  -- `From<TlvError> for SessionError`
  unfoldable pub from_tlv_error : TlvError → SessionError S
  from_tlv_error (incomplete needed) = tlv_incomplete needed
  from_tlv_error (bad_magic got) = tlv_bad_magic got
  from_tlv_error (bad_version got) = tlv_bad_version got
  from_tlv_error (bad_identity_len got) = tlv_bad_identity_len got
  from_tlv_error (invalid_charset offset byte) = tlv_invalid_charset offset byte
  from_tlv_error (trailing_bytes extra) = tlv_trailing_bytes extra

  -- `From<TransportError> for SessionError`
  unfoldable pub from_transport_error : TransportError S → SessionError S
  from_transport_error (oversized_frame got) = frame_too_big got
  from_transport_error (TransportError.handshake_read s) = SessionError.handshake_read s
  from_transport_error (TransportError.handshake_write s) = SessionError.handshake_write s
  from_transport_error (transition s) = into_transport s
  from_transport_error (TransportError.transport_read s) = SessionError.transport_read s
  from_transport_error (TransportError.transport_write s) = SessionError.transport_write s
  from_transport_error (params s) = SessionError.handshake_read s
