-- ===== src/Tests/Protocol.antt =====
-- Runs of the theorems on identities, frames, sessions and requests.
use symbolon.Prelude.{
  ℕ, ◌≤◌, ◌<◌, ◌≡◌, refl, ◌↔◌, ◌⊎◌, List, [], ◌∷◌, ◌++◌, arith, length, take, Bytes, ok, err,
}
use symbolon.Identity
use symbolon.Identity.{Identity, IdentityError, bad_len, bad_charset, find_bad, in_charset}
use symbolon.Identity.Rule.{IsIdentity, parse-eq-ok_iff}
use symbolon.Psk.{Psk}
use symbolon.BrokerKey.{BrokerPrivateKey, BrokerPublicKey}
use symbolon.Transport.Frame.{max_message_size, frame, read_frame_length}
use symbolon.Transport.Frame.{frame_lem}
use symbolon.Transport.Errors.{oversized_frame}
use symbolon.Transport.Tlv.{encode_identity_tlv, parse_identity_tlv}
use symbolon.Transport.Tlv.RoundTrip.{parse_identity_tlv-eq-ok_iff}
use symbolon.Transport.Initiator
use symbolon.Transport.Initiator.{Initiator}
use symbolon.Transport.Responder
use symbolon.Transport.Responder.{RState, Responder, failed, want_hs_len}
use symbolon.Transport.Responder.Order.{Call, script, stage, run, run-script}
use symbolon.Transport.Delivery.{rounds}
use symbolon.Transport.Delivery.Run.{Transcript, session_delivers}
use symbolon.Tests.Values.{toy_noise, alice, alice-IsIdentity, key_of}

parse-eq-ok_iff_example :
    (Identity.parse alice.text ≡ ok alice) ↔ ((alice.text ≡ alice.text) × IsIdentity alice.text)
parse-eq-ok_iff_example = parse-eq-ok_iff alice.text alice

-- "a b" has a space at its second place
parse_identity_tlv-eq-ok_iff_example :
    (parse_identity_tlv (encode_identity_tlv alice) ≡ ok (alice, 8)) ↔ (
      IsIdentity alice.text
      × (8 ≡ length (encode_identity_tlv alice))
      × ((rest : Bytes) × (encode_identity_tlv alice ≡ encode_identity_tlv alice ++ rest)))
parse_identity_tlv-eq-ok_iff_example =
    parse_identity_tlv-eq-ok_iff (encode_identity_tlv alice) alice 8

abbrev message : Bytes
message = 1 ∷ 2 ∷ 3 ∷ []

frame_lem_example :
    ((length message ≤ max_message_size)
      × ((hi lo : ℕ) × (frame {S = ℕ} message ≡ ok (hi ∷ lo ∷ message))
          × (read_frame_length {S = ℕ} hi lo ≡ ok (length message))
          × (hi < 256)
          × (lo < 256)))
    ⊎ ((max_message_size < length message)
        × (frame {S = ℕ} message ≡ err (oversized_frame (length message))))
frame_lem_example = frame_lem message

abbrev calls : List Call
calls = Call.recv (0 ∷ 1 ∷ []) ∷ Call.step ∷ Call.recv (7 ∷ []) ∷ []

run-script_example :
    (k : ℕ) × (k ≤ 12)
    × ((run toy_noise calls (want_hs_len 0)).1 ≡ take k script)
    × (((run toy_noise calls (want_hs_len 0)).0 ≡ failed)
        ⊎ (stage (run toy_noise calls (want_hs_len 0)).0 ≡ k))
run-script_example = run-script toy_noise 0 calls

abbrev private : BrokerPrivateKey
private = record { bytes = [] }

abbrev public : BrokerPublicKey
public = record { bytes = [] }

abbrev psk_of : Identity → Psk
psk_of id = key_of 7

abbrev answer : Bytes → Bytes
answer query = b'!' ∷ query

toy-Transcript :
    Transcript toy_noise private public
      (key_of 7)
      (encode_identity_tlv alice)
      message
      (answer message)
unfolding encode_identity_tlv
toy-Transcript = record {
  c0 = 0;
  c1 = 1;
  c2 = 2;
  b0 = 0;
  b1 = 1;
  b2 = 1;
  b3 = 2;
  ct0 = 2;
  ct1 = 3;
  ct2 = 4;
  bt0 = 2;
  bt1 = 3;
  bt2 = 4;
  m1 = encode_identity_tlv alice;
  m2 = [];
  m3 = message;
  m4 = answer message;
  client_built = refl;
  broker_built = refl;
  client_writes1 = refl;
  broker_reads1 = refl;
  broker_keyed = refl;
  broker_writes2 = refl;
  client_reads2 = refl;
  client_transport = refl;
  broker_transport = refl;
  client_encrypts = refl;
  broker_decrypts = refl;
  broker_encrypts = refl;
  client_decrypts = refl;
  fits1 = omega arith;
  fits2 = omega arith;
  fits3 = omega arith;
  fits4 = omega arith;
}

session_delivers_example :
    (c : Initiator toy_noise) × (b : Responder toy_noise) × (Initiator.new toy_noise alice
        (key_of 7)
        public
        message
      ≡ ok c)
    × (Responder.new toy_noise private ≡ ok b)
    × (let l =
          rounds toy_noise psk_of answer 12
            (record { client = c; broker = b; up = []; down = [] }) in
        (l.broker ≡ RState.done)
        × (Initiator.take_response toy_noise l.client ≡ ok (answer message))
        × (l.up ≡ [])
        × (l.down ≡ []))
session_delivers_example =
    session_delivers toy_noise private public psk_of answer alice alice-IsIdentity message
      toy-Transcript
