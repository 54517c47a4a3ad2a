-- ===== src/Helper/Straight.antt =====
-- The exchange of the credential helper with the broker, written out without a session.
use symbolon.Prelude.{ℕ, [], ◌∷◌, Bytes, Result, ok, ◌>>=◌, map_err, ok_or}
use symbolon.Identity.{Identity}
use symbolon.Psk.{Psk}
use symbolon.BrokerKey.{BrokerPublicKey}
use symbolon.Transport.Noise
use symbolon.Transport.Noise.{Noise}
use symbolon.Transport.Errors.{TransportError, from_transport_error}
use symbolon.Transport.Frame.{frame, read_frame_length}
use symbolon.Transport.Tlv.{encode_identity_tlv}
use symbolon.Helper.{
  ClientError, session, read_handshake, write_handshake, Stream, read_exact, write_all,
}

-- the length in a prefix of two bytes
abbrev pub frame_len : {S : Type 0} → Bytes → Result ℕ (TransportError S)
frame_len (hi ∷ lo ∷ []) = read_frame_length hi lo
frame_len _ = ok 0

-- a call of the Noise library or of the frames, within the helper
abbrev pub lift : {A S : Type 0} → Result A (TransportError S) → Result A (ClientError S)
lift r = map_err (λ e. session (from_transport_error e)) r

-- a frame that comes: a length, then as many bytes
abbrev pub take_frame : {S : Type 0} → Stream → Result (Bytes × Stream) (ClientError S)
take_frame s = ok_or (read_exact 2 s) read_handshake >>= λ r.
    lift (frame_len r.0) >>= λ n. ok_or (read_exact n r.1) read_handshake

module _ (noise : Noise) where
  -- the helper's part from the answer of the broker on
  abbrev pub answered : noise.TransportState → Stream → Result Bytes (ClientError noise.Error)
  answered ts s = take_frame s >>= λ r. lift (Noise.transport_read noise ts r.0) >>= λ a. ok a.1

  -- its part from the second message of the handshake on
  abbrev pub shaken : noise.HandshakeState → Bytes → Stream → Result Bytes (ClientError noise.Error)
  shaken hs request s = take_frame s >>= λ r. lift (Noise.handshake_read noise hs r.0) >>= λ a.
      lift (Noise.into_transport noise a.0) >>= λ ts.
      lift (Noise.transport_write noise ts request) >>= λ b.
      lift (frame b.1) >>= λ out. ok_or (write_all r.1) write_handshake >>= λ s. answered b.0 s

  -- The exchange without a session: the first message of the handshake, which is ready before the
  -- stream is there, then the rest.
  unfoldable pub straight :
      Identity → Psk → BrokerPublicKey → Bytes → Stream → Result Bytes (ClientError noise.Error)
  straight identity psk broker_pub request s = lift (Noise.initiator noise psk broker_pub) >>= λ hs.
      lift (Noise.handshake_write noise hs (encode_identity_tlv identity)) >>= λ a.
      lift (frame {S = noise.Error} a.1) >>= λ msg1.
      ok_or (write_all s) write_handshake >>= λ s. shaken a.0 request s
