-- ===== src/Transport/Initiator.antt =====
-- The client's side of a session, `Initiator`: src/transport.rs.
use Prim.Native.String.{String}
use symbolon.Prelude.{ℕ, length, Bytes, Result, ok, err, ◌>>=◌, ◌>>◌, map_err}
use symbolon.Identity.{Identity}
use symbolon.Psk.{Psk}
use symbolon.BrokerKey.{BrokerPublicKey}
use symbolon.Transport.Noise
use symbolon.Transport.Noise.{Noise}
use symbolon.Transport.Tlv.{encode_identity_tlv}
use symbolon.Transport.Frame.{frame, read_frame_length}
use symbolon.Transport.Errors.{SessionError, wrong_state, from_transport_error}
use symbolon.Transport.Session.{Step, read_exact, write, Phase, check_recv_len, recv_chunk, settle}

-- over the handshake and transport states of the Noise library
pub data IState (H T : Type 0) : Type 0 where
  failed : IState H T
  write_hs1 : H → Bytes → Bytes → IState H T
  wrote_hs1_pending : H → Bytes → IState H T
  want_hs2_len : H → Bytes → IState H T
  want_hs2_body : H → ℕ → Bytes → IState H T
  write_req : T → Bytes → IState H T
  wrote_req_pending : T → IState H T
  want_resp_len : T → IState H T
  want_resp_body : T → ℕ → IState H T
  done : Bytes → IState H T
  drained : IState H T

module _ {H T : Type 0} where
  unfoldable pub phase : IState H T → Phase
  phase (write_hs1 _ _ _) = Phase.msg1
  phase (wrote_hs1_pending _ _) = Phase.msg1
  phase (want_hs2_len _ _) = Phase.handshake
  phase (want_hs2_body _ _ _) = Phase.handshake
  phase (write_req _ _) = Phase.transport
  phase (wrote_req_pending _) = Phase.transport
  phase (want_resp_len _) = Phase.transport
  phase (want_resp_body _ _) = Phase.transport
  phase (done _) = Phase.done
  phase drained = Phase.done
  phase failed = Phase.done

  unfoldable pub state_name : IState H T → String
  state_name failed = "failed"
  state_name (write_hs1 _ _ _) = "write_hs1"
  state_name (wrote_hs1_pending _ _) = "wrote_hs1_pending"
  state_name (want_hs2_len _ _) = "want_hs2_len"
  state_name (want_hs2_body _ _ _) = "want_hs2_body"
  state_name (write_req _ _) = "write_req"
  state_name (wrote_req_pending _) = "wrote_req_pending"
  state_name (want_resp_len _) = "want_resp_len"
  state_name (want_resp_body _ _) = "want_resp_body"
  state_name (done _) = "done"
  state_name drained = "drained"

module _ (noise : Noise) where
  open noise use {HandshakeState, TransportState, Error}

  abbrev pub Initiator : Type 0
  Initiator = IState HandshakeState TransportState

  abbrev pub Reply : Type 0 → Type 0
  Reply A = Initiator × Result A (SessionError Error)

  unfoldable pub refuse : {A : Type 0} → String → Initiator → Reply A
  unfolding state_name
  refuse method other = (other, err (wrong_state method (state_name other)))

  unfoldable pub new :
      Identity → Psk → BrokerPublicKey → Bytes → Result Initiator (SessionError Error)
  unfolding from_transport_error Noise.initiator Noise.handshake_write frame
  new identity psk broker_pub request = do
    hs ← map_err from_transport_error (Noise.initiator noise psk broker_pub)
    (hs, msg) ←
        map_err from_transport_error (Noise.handshake_write noise hs (encode_identity_tlv identity))
    msg1 ← map_err from_transport_error (frame msg)
    ok (write_hs1 hs msg1 request)

  unfoldable pub step : Initiator → Reply Step
  unfolding refuse
  step (write_hs1 hs msg1 request) = (wrote_hs1_pending hs request, ok (write msg1))
  step (want_hs2_len hs request) = (want_hs2_len hs request, ok (read_exact 2))
  step (want_hs2_body hs body_len request) =
      (want_hs2_body hs body_len request, ok (read_exact body_len))
  step (write_req ts out) = (wrote_req_pending ts, ok (write out))
  step (want_resp_len ts) = (want_resp_len ts, ok (read_exact 2))
  step (want_resp_body ts body_len) = (want_resp_body ts body_len, ok (read_exact body_len))
  step (done plaintext) = (done plaintext, ok Step.done)
  step other = refuse "step" other

  unfoldable pub recv_len : Bytes → Result ℕ (SessionError Error)
  unfolding recv_chunk read_frame_length from_transport_error
  recv_len bytes = do
    (hi, lo) ← recv_chunk bytes
    map_err from_transport_error (read_frame_length hi lo)

  -- the `WantHs2Body` arm of `recv`
  unfoldable pub recv_hs2_body :
      HandshakeState → ℕ → Bytes → Bytes → Result Initiator (SessionError Error)
  unfolding check_recv_len from_transport_error frame Noise.handshake_read Noise.into_transport
      Noise.transport_write
  recv_hs2_body hs body_len request bytes = do
    check_recv_len body_len (length bytes)
    (hs, _) ← map_err from_transport_error (Noise.handshake_read noise hs bytes)
    ts ← map_err from_transport_error (Noise.into_transport noise hs)
    (ts, msg) ← map_err from_transport_error (Noise.transport_write noise ts request)
    out ← map_err from_transport_error (frame msg)
    ok (write_req ts out)

  -- the `WantRespBody` arm of `recv`
  unfoldable pub recv_resp_body : TransportState → ℕ → Bytes → Result Initiator (SessionError Error)
  unfolding check_recv_len from_transport_error Noise.transport_read
  recv_resp_body ts body_len bytes = do
    check_recv_len body_len (length bytes)
    (_, plaintext) ← map_err from_transport_error (Noise.transport_read noise ts bytes)
    ok (done plaintext)

  unfoldable pub recv : Initiator → Bytes → Reply (Unit {0})
  unfolding recv_len recv_hs2_body recv_resp_body settle refuse
  recv (want_hs2_len hs request) bytes =
      settle failed (do body_len ← recv_len bytes; ok (want_hs2_body hs body_len request))
  recv (want_hs2_body hs body_len request) bytes =
      settle failed (recv_hs2_body hs body_len request bytes)
  recv (want_resp_len ts) bytes =
      settle failed (do body_len ← recv_len bytes; ok (want_resp_body ts body_len))
  recv (want_resp_body ts body_len) bytes = settle failed (recv_resp_body ts body_len bytes)
  recv other bytes = refuse "recv" other

  unfoldable pub wrote : Initiator → Reply (Unit {0})
  unfolding refuse
  wrote (wrote_hs1_pending hs request) = (want_hs2_len hs request, ok tt)
  wrote (wrote_req_pending ts) = (want_resp_len ts, ok tt)
  wrote other = refuse "wrote" other

  -- consumes the session: there is no state to return
  unfoldable pub take_response : Initiator → Result Bytes (SessionError Error)
  unfolding state_name
  take_response (done plaintext) = ok plaintext
  take_response other = err (wrong_state "take_response" (state_name other))
