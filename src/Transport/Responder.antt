-- ===== src/Transport/Responder.antt =====
-- The broker's side of a session, `Responder`: src/transport.rs.
pub mod Order
use Prim.Native.String.{String}
use symbolon.Prelude.{
  ℕ, ◌-◌, [], ◌==◌, if◌then◌else◌, length, Bytes, Result, ok, err, ◌>>=◌, ◌>>◌, map_err,
}
use symbolon.Identity.{Identity}
use symbolon.Psk.{Psk}
use symbolon.BrokerKey.{BrokerPrivateKey}
use symbolon.Transport.Noise
use symbolon.Transport.Noise.{Noise}
use symbolon.Transport.Tlv.{parse_identity_tlv}
use symbolon.Transport.Frame.{frame, read_frame_length}
use symbolon.Transport.Errors.{
  SessionError, tlv_trailing_bytes, wrong_state, from_tlv_error, from_transport_error,
}
use symbolon.Transport.Session.{
  Step, read_exact, write, request, Phase, check_recv_len, recv_chunk, settle,
}

-- over the handshake and transport states of the Noise library
pub data RState (H T : Type 0) : Type 0 where
  failed : RState H T
  need_psk : H → Identity → RState H T
  awaiting_psk : H → RState H T
  want_hs_len : H → RState H T
  want_hs_body : H → ℕ → RState H T
  write_hs : H → Bytes → RState H T
  wrote_hs_pending : H → RState H T
  want_req_len : T → RState H T
  want_req_body : T → ℕ → RState H T
  have_request : T → Bytes → RState H T
  awaiting_response : T → RState H T
  write_resp : Bytes → RState H T
  wrote_resp_pending : RState H T
  done : RState H T

module _ {H T : Type 0} where
  unfoldable pub phase : RState H T → Phase
  phase (want_hs_len _) = Phase.msg1
  phase (want_hs_body _ _) = Phase.msg1
  phase (need_psk _ _) = Phase.awaiting_psk
  phase (awaiting_psk _) = Phase.awaiting_psk
  phase (write_hs _ _) = Phase.handshake
  phase (wrote_hs_pending _) = Phase.handshake
  phase (want_req_len _) = Phase.transport
  phase (want_req_body _ _) = Phase.transport
  phase (have_request _ _) = Phase.transport
  phase (awaiting_response _) = Phase.transport
  phase (write_resp _) = Phase.transport
  phase wrote_resp_pending = Phase.transport
  phase done = Phase.done
  phase failed = Phase.done

  -- `IntoStaticStr`, in snake case
  unfoldable pub state_name : RState H T → String
  state_name failed = "failed"
  state_name (need_psk _ _) = "need_psk"
  state_name (awaiting_psk _) = "awaiting_psk"
  state_name (want_hs_len _) = "want_hs_len"
  state_name (want_hs_body _ _) = "want_hs_body"
  state_name (write_hs _ _) = "write_hs"
  state_name (wrote_hs_pending _) = "wrote_hs_pending"
  state_name (want_req_len _) = "want_req_len"
  state_name (want_req_body _ _) = "want_req_body"
  state_name (have_request _ _) = "have_request"
  state_name (awaiting_response _) = "awaiting_response"
  state_name (write_resp _) = "write_resp"
  state_name wrote_resp_pending = "wrote_resp_pending"
  state_name done = "done"

module _ (noise : Noise) where
  open noise use {HandshakeState, TransportState, Error}

  abbrev pub Responder : Type 0
  Responder = RState HandshakeState TransportState

  abbrev pub Reply : Type 0 → Type 0
  Reply A = Responder × Result A (SessionError Error)

  -- `self.state = other` and the error
  unfoldable pub refuse : {A : Type 0} → String → Responder → Reply A
  unfolding state_name
  refuse method other = (other, err (wrong_state method (state_name other)))

  unfoldable pub new : BrokerPrivateKey → Result Responder (SessionError Error)
  unfolding from_transport_error Noise.responder
  new broker_key = do
    hs ← map_err from_transport_error (Noise.responder noise broker_key)
    ok (want_hs_len hs)

  unfoldable pub step : Responder → Reply Step
  unfolding refuse
  step (need_psk hs identity) = (awaiting_psk hs, ok (Step.need_psk identity))
  step (want_hs_len hs) = (want_hs_len hs, ok (read_exact 2))
  step (want_hs_body hs body_len) = (want_hs_body hs body_len, ok (read_exact body_len))
  step (write_hs hs out) = (wrote_hs_pending hs, ok (write out))
  step (want_req_len ts) = (want_req_len ts, ok (read_exact 2))
  step (want_req_body ts body_len) = (want_req_body ts body_len, ok (read_exact body_len))
  step (have_request ts plaintext) = (awaiting_response ts, ok (request plaintext))
  step (write_resp out) = (wrote_resp_pending, ok (write out))
  step done = (done, ok Step.done)
  step other = refuse "step" other

  -- the arms of `recv` that read a length
  unfoldable pub recv_len : Bytes → Result ℕ (SessionError Error)
  unfolding recv_chunk read_frame_length from_transport_error
  recv_len bytes = do
    (hi, lo) ← recv_chunk bytes
    map_err from_transport_error (read_frame_length hi lo)

  -- the `WantHsBody` arm of `recv`
  unfoldable pub recv_hs_body : HandshakeState → ℕ → Bytes → Result Responder (SessionError Error)
  unfolding check_recv_len from_tlv_error from_transport_error Noise.handshake_read
  recv_hs_body hs body_len bytes = do
    check_recv_len body_len (length bytes)
    (hs, payload) ← map_err from_transport_error (Noise.handshake_read noise hs bytes)
    (identity, consumed) ← map_err from_tlv_error (parse_identity_tlv payload)
    if consumed == length payload
        then ok (need_psk hs identity)
        else err (tlv_trailing_bytes (length payload - consumed))

  -- the `WantReqBody` arm of `recv`
  unfoldable pub recv_req_body : TransportState → ℕ → Bytes → Result Responder (SessionError Error)
  unfolding check_recv_len from_transport_error Noise.transport_read
  recv_req_body ts body_len bytes = do
    check_recv_len body_len (length bytes)
    (ts, plaintext) ← map_err from_transport_error (Noise.transport_read noise ts bytes)
    ok (have_request ts plaintext)

  unfoldable pub recv : Responder → Bytes → Reply (Unit {0})
  unfolding recv_len recv_hs_body recv_req_body settle refuse
  recv (want_hs_len hs) bytes =
      settle failed (do body_len ← recv_len bytes; ok (want_hs_body hs body_len))
  recv (want_hs_body hs body_len) bytes = settle failed (recv_hs_body hs body_len bytes)
  recv (want_req_len ts) bytes =
      settle failed (do body_len ← recv_len bytes; ok (want_req_body ts body_len))
  recv (want_req_body ts body_len) bytes = settle failed (recv_req_body ts body_len bytes)
  recv other bytes = refuse "recv" other

  -- the `AwaitingPsk` arm of `set_psk`
  unfoldable pub write_msg2 : HandshakeState → Psk → Result Responder (SessionError Error)
  unfolding from_transport_error Noise.handshake_write frame
  write_msg2 hs psk = do
    hs ← map_err SessionError.handshake_write (noise.set_psk hs psk)
    (hs, msg) ← map_err from_transport_error (Noise.handshake_write noise hs [])
    out ← map_err from_transport_error (frame msg)
    ok (write_hs hs out)

  unfoldable pub set_psk : Responder → Psk → Reply (Unit {0})
  unfolding write_msg2 settle refuse
  set_psk (awaiting_psk hs) psk = settle failed (write_msg2 hs psk)
  set_psk other psk = refuse "set_psk" other

  unfoldable pub wrote : Responder → Reply (Unit {0})
  unfolding from_transport_error Noise.into_transport settle refuse
  wrote (wrote_hs_pending hs) =
      settle failed
        (do ts ← map_err from_transport_error (Noise.into_transport noise hs); ok (want_req_len ts))
  wrote wrote_resp_pending = (done, ok tt)
  wrote other = refuse "wrote" other

  -- the `AwaitingResponse` arm of `set_response`
  unfoldable pub encrypt_response : TransportState → Bytes → Result Responder (SessionError Error)
  unfolding from_transport_error Noise.transport_write frame
  encrypt_response ts plaintext = do
    (ts, msg) ← map_err from_transport_error (Noise.transport_write noise ts plaintext)
    out ← map_err from_transport_error (frame msg)
    ok (write_resp out)

  unfoldable pub set_response : Responder → Bytes → Reply (Unit {0})
  unfolding encrypt_response settle refuse
  set_response (awaiting_response ts) plaintext = settle failed (encrypt_response ts plaintext)
  set_response other plaintext = refuse "set_response" other
