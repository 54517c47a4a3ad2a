-- ===== src/Transport/Delivery/Run.antt =====
-- An honest session delivers the identity, the request and the response.
use symbolon.Prelude.{
  ℕ, ◌/◌, ◌%◌, ◌^◌, ◌≤◌, ◌≡◌, refl, ap, ◌∙◌, [], ◌∷◌, append-nil, arith, length, take_all, drop_all,
  Bytes, ok,
}
use symbolon.Identity.{Identity}
use symbolon.Identity.Rule.{IsIdentity}
use symbolon.Psk.{Psk}
use symbolon.BrokerKey.{BrokerPrivateKey, BrokerPublicKey}
use symbolon.Transport.Noise.{Noise}
use symbolon.Transport.Frame.{max_message_size, frame, read_frame_length}
use symbolon.Transport.Tlv.{encode_identity_tlv}
use symbolon.Transport.Tlv.RoundTrip.{parse-encode}
use symbolon.Transport.Initiator
use symbolon.Transport.Initiator.{Initiator}
use symbolon.Transport.Responder
use symbolon.Transport.Responder.{RState, Responder}
use symbolon.Transport.Delivery.{Link, client_turn, broker_turn, rounds}

-- The Noise library's part of a session between a client that holds `psk` and the broker's public
-- key, and a broker that holds the private key and is given `psk`: each side reads what the other
-- wrote, and what is written fits a frame.
pub record Transcript (noise : Noise) (private : BrokerPrivateKey) (public : BrokerPublicKey)
    (psk : Psk) (tlv query reply : Bytes) : Type 0 where
  pub c0 : noise.HandshakeState
  pub c1 : noise.HandshakeState
  pub c2 : noise.HandshakeState
  pub b0 : noise.HandshakeState
  pub b1 : noise.HandshakeState
  pub b2 : noise.HandshakeState
  pub b3 : noise.HandshakeState
  pub ct0 : noise.TransportState
  pub ct1 : noise.TransportState
  pub ct2 : noise.TransportState
  pub bt0 : noise.TransportState
  pub bt1 : noise.TransportState
  pub bt2 : noise.TransportState
  pub m1 : Bytes
  pub m2 : Bytes
  pub m3 : Bytes
  pub m4 : Bytes
  pub client_built : noise.build_initiator psk public ≡ ok c0
  pub broker_built : noise.build_responder private ≡ ok b0
  pub client_writes1 : noise.write_message c0 tlv ≡ ok (c1, m1)
  pub broker_reads1 : noise.read_message b0 m1 ≡ ok (b1, tlv)
  pub broker_keyed : noise.set_psk b1 psk ≡ ok b2
  pub broker_writes2 : noise.write_message b2 [] ≡ ok (b3, m2)
  pub client_reads2 : noise.read_message c1 m2 ≡ ok (c2, [])
  pub client_transport : noise.into_transport_mode c2 ≡ ok ct0
  pub broker_transport : noise.into_transport_mode b3 ≡ ok bt0
  pub client_encrypts : noise.encrypt ct0 query ≡ ok (ct1, m3)
  pub broker_decrypts : noise.decrypt bt0 m3 ≡ ok (bt1, query)
  pub broker_encrypts : noise.encrypt bt1 reply ≡ ok (bt2, m4)
  pub client_decrypts : noise.decrypt ct1 m4 ≡ ok (ct2, reply)
  pub fits1 : length m1 ≤ max_message_size
  pub fits2 : length m2 ≤ max_message_size
  pub fits3 : length m3 ≤ max_message_size
  pub fits4 : length m4 ≤ max_message_size

-- A message on the wire, when it fits a frame.
abbrev high : Bytes → ℕ
high m = length m % 2 ^ 16 / 256 % 256

abbrev low : Bytes → ℕ
low m = length m % 2 ^ 16 % 256

abbrev wire : Bytes → Bytes
wire m = high m ∷ low m ∷ m

frame-wire : {S : Type 0} (m : Bytes) → length m ≤ max_message_size → frame {S = S} m ≡ ok (wire m)
unfolding frame
frame-wire m h = ground arith

read_frame_length-wire :
    {S : Type 0} (m : Bytes)
    → length m ≤ max_message_size
    → read_frame_length {S = S} (high m) (low m) ≡ ok (length m)
unfolding read_frame_length
read_frame_length-wire m h = ground arith

module _ (noise : Noise) (private : BrokerPrivateKey) (public : BrokerPublicKey)
    (psk_of : Identity → Psk) (answer : Bytes → Bytes) (id : Identity) (valid : IsIdentity id.text)
    (query : Bytes)
    (t : Transcript noise private public
      (psk_of id)
      (encode_identity_tlv id)
      query
      (answer query)) where
  abbrev link : Initiator noise → Responder noise → Bytes → Bytes → Link noise
  link c b up down = record { client = c; broker = b; up = up; down = down }

  abbrev turn : Link noise → Link noise
  turn l = broker_turn noise psk_of answer (client_turn noise l)

  client_starts :
      Initiator.new noise id (psk_of id) public query
      ≡ ok (Initiator.write_hs1 t.c1 (wire t.m1) query)
  unfolding Initiator.new
  client_starts =
      ground (arith, t.client_built, t.client_writes1, frame-wire {S = noise.Error} t.m1 t.fits1)

  broker_starts : Responder.new noise private ≡ ok (RState.want_hs_len t.b0)
  unfolding Responder.new
  broker_starts = ground (arith, t.broker_built)

  turn1 :
      turn (link (Initiator.write_hs1 t.c1 (wire t.m1) query) (RState.want_hs_len t.b0) [] [])
      ≡ link (Initiator.want_hs2_len t.c1 query) (RState.want_hs_body t.b0 (length t.m1)) t.m1 []
  unfolding client_turn broker_turn Initiator.step Initiator.wrote Responder.step Responder.recv
  turn1 = ground (arith, read_frame_length-wire {S = noise.Error} t.m1 t.fits1)

  turn2 :
      turn
        (link (Initiator.want_hs2_len t.c1 query) (RState.want_hs_body t.b0 (length t.m1)) t.m1 [])
      ≡ link (Initiator.want_hs2_len t.c1 query) (RState.need_psk t.b1 id) [] []
  unfolding client_turn broker_turn Initiator.step Initiator.wrote Responder.step Responder.recv
  turn2 = ground (
    arith,
    t.broker_reads1,
    take_all t.m1,
    drop_all t.m1,
    parse-encode id [] valid,
    append-nil (encode_identity_tlv id),
  )

  turn3 :
      turn (link (Initiator.want_hs2_len t.c1 query) (RState.need_psk t.b1 id) [] [])
      ≡ link (Initiator.want_hs2_len t.c1 query) (RState.write_hs t.b3 (wire t.m2)) [] []
  unfolding client_turn broker_turn Initiator.step Initiator.wrote Initiator.recv Responder.step
      Responder.recv Responder.set_psk Responder.wrote Responder.set_response
  turn3 =
      ground (arith, t.broker_keyed, t.broker_writes2, frame-wire {S = noise.Error} t.m2 t.fits2)

  turn4 :
      turn (link (Initiator.want_hs2_len t.c1 query) (RState.write_hs t.b3 (wire t.m2)) [] [])
      ≡ link (Initiator.want_hs2_len t.c1 query) (RState.want_req_len t.bt0) [] (wire t.m2)
  unfolding client_turn broker_turn Initiator.step Initiator.wrote Initiator.recv Responder.step
      Responder.recv Responder.set_psk Responder.wrote Responder.set_response
  turn4 = ground (arith, t.broker_transport)

  turn5 :
      turn (link (Initiator.want_hs2_len t.c1 query) (RState.want_req_len t.bt0) [] (wire t.m2))
      ≡ link (Initiator.want_hs2_body t.c1 (length t.m2) query) (RState.want_req_len t.bt0) [] t.m2
  unfolding client_turn broker_turn Initiator.step Initiator.wrote Initiator.recv Responder.step
      Responder.recv Responder.set_psk Responder.wrote Responder.set_response
  turn5 = ground (arith, read_frame_length-wire {S = noise.Error} t.m2 t.fits2)

  turn6 :
      turn (
        link (Initiator.want_hs2_body t.c1 (length t.m2) query) (RState.want_req_len t.bt0) [] t.m2)
      ≡ link (Initiator.write_req t.ct1 (wire t.m3)) (RState.want_req_len t.bt0) [] []
  unfolding client_turn broker_turn Initiator.step Initiator.wrote Initiator.recv Responder.step
      Responder.recv Responder.set_psk Responder.wrote Responder.set_response
  turn6 = ground (
    arith,
    t.client_reads2,
    t.client_transport,
    t.client_encrypts,
    take_all t.m2,
    drop_all t.m2,
    frame-wire {S = noise.Error} t.m3 t.fits3,
  )

  turn7 :
      turn (link (Initiator.write_req t.ct1 (wire t.m3)) (RState.want_req_len t.bt0) [] [])
      ≡ link (Initiator.want_resp_len t.ct1) (RState.want_req_body t.bt0 (length t.m3)) t.m3 []
  unfolding client_turn broker_turn Initiator.step Initiator.wrote Initiator.recv Responder.step
      Responder.recv Responder.set_psk Responder.wrote Responder.set_response
  turn7 = ground (arith, read_frame_length-wire {S = noise.Error} t.m3 t.fits3)

  turn8 :
      turn (link (Initiator.want_resp_len t.ct1) (RState.want_req_body t.bt0 (length t.m3)) t.m3 [])
      ≡ link (Initiator.want_resp_len t.ct1) (RState.have_request t.bt1 query) [] []
  unfolding client_turn broker_turn Initiator.step Initiator.wrote Initiator.recv Responder.step
      Responder.recv Responder.set_psk Responder.wrote Responder.set_response
  turn8 = ground (arith, t.broker_decrypts, take_all t.m3, drop_all t.m3)

  turn9 :
      turn (link (Initiator.want_resp_len t.ct1) (RState.have_request t.bt1 query) [] [])
      ≡ link (Initiator.want_resp_len t.ct1) (RState.write_resp (wire t.m4)) [] []
  unfolding client_turn broker_turn Initiator.step Initiator.wrote Initiator.recv Responder.step
      Responder.recv Responder.set_psk Responder.wrote Responder.set_response
  turn9 = ground (arith, t.broker_encrypts, frame-wire {S = noise.Error} t.m4 t.fits4)

  turn10 :
      turn (link (Initiator.want_resp_len t.ct1) (RState.write_resp (wire t.m4)) [] [])
      ≡ link (Initiator.want_resp_len t.ct1) (RState.done) [] (wire t.m4)
  unfolding client_turn broker_turn Initiator.step Initiator.wrote Initiator.recv Responder.step
      Responder.recv Responder.set_psk Responder.wrote Responder.set_response
  turn10 = ground (arith)

  turn11 :
      turn (link (Initiator.want_resp_len t.ct1) (RState.done) [] (wire t.m4))
      ≡ link (Initiator.want_resp_body t.ct1 (length t.m4)) (RState.done) [] t.m4
  unfolding client_turn broker_turn Initiator.step Initiator.wrote Initiator.recv Responder.step
      Responder.recv Responder.set_psk Responder.wrote Responder.set_response
  turn11 = ground (arith, read_frame_length-wire {S = noise.Error} t.m4 t.fits4)

  turn12 :
      turn (link (Initiator.want_resp_body t.ct1 (length t.m4)) (RState.done) [] t.m4)
      ≡ link (Initiator.done (answer query)) (RState.done) [] []
  unfolding client_turn broker_turn Initiator.step Initiator.wrote Initiator.recv Responder.step
      Responder.recv Responder.set_psk Responder.wrote Responder.set_response
  turn12 = ground (arith, t.client_decrypts, take_all t.m4, drop_all t.m4)

  delivered :
      rounds noise psk_of answer 12
        (link (Initiator.write_hs1 t.c1 (wire t.m1) query) (RState.want_hs_len t.b0) [] [])
      ≡ link (Initiator.done (answer query)) RState.done [] []
  unfolding rounds
  delivered =
      ap (λ l. turn (turn (turn (turn (turn (turn (turn (turn (turn (turn (turn l))))))))))) turn1
      ∙ ap (λ l. turn (turn (turn (turn (turn (turn (turn (turn (turn (turn l)))))))))) turn2
      ∙ ap (λ l. turn (turn (turn (turn (turn (turn (turn (turn (turn l))))))))) turn3
      ∙ ap (λ l. turn (turn (turn (turn (turn (turn (turn (turn l)))))))) turn4
      ∙ ap (λ l. turn (turn (turn (turn (turn (turn (turn l))))))) turn5
      ∙ ap (λ l. turn (turn (turn (turn (turn (turn l)))))) turn6
      ∙ ap (λ l. turn (turn (turn (turn (turn l))))) turn7
      ∙ ap (λ l. turn (turn (turn (turn l)))) turn8
      ∙ ap (λ l. turn (turn (turn l))) turn9
      ∙ ap (λ l. turn (turn l)) turn10
      ∙ ap (λ l. turn l) turn11
      ∙ turn12

  -- Between a client that holds the PSK of its identity and a broker that looks it up, over a Noise
  -- library that lets each side read what the other wrote: both machines start, and after twelve
  -- turns of each the broker is done, the client returns the broker's answer to its query, and no
  -- byte is left under way.
  pub session_delivers :
      (c : Initiator noise) × (b : Responder noise) × (Initiator.new noise id
          (psk_of id)
          public
          query
        ≡ ok c)
      × (Responder.new noise private ≡ ok b)
      × (let l =
            rounds noise psk_of answer 12 (record { client = c; broker = b; up = []; down = [] }) in
          (l.broker ≡ RState.done)
          × (Initiator.take_response noise l.client ≡ ok (answer query))
          × (l.up ≡ [])
          × (l.down ≡ []))
  unfolding Initiator.take_response
  session_delivers = (
    Initiator.write_hs1 t.c1 (wire t.m1) query,
    RState.want_hs_len t.b0,
    client_starts,
    broker_starts,
    rw delivered (refl, refl, refl, refl),
  )
