-- ===== src/Transport/Delivery.antt =====
-- A client and a broker joined by a wire: `drive` of src/bin/git_credential_symbolon.rs and the loop
-- that the documentation of `Responder` in src/transport.rs prescribes, each turn by turn.
pub mod Run
use symbolon.Prelude.{
  ℕ, zero, suc, ◌+◌, ◌++◌, leb, if◌then◌else◌, length, take, drop, Bytes, ok, err,
}
use symbolon.Identity.{Identity}
use symbolon.Psk.{Psk}
use symbolon.Transport.Noise.{Noise}
use symbolon.Transport.Session.{Step, read_exact}
use symbolon.Transport.Initiator
use symbolon.Transport.Initiator.{Initiator}
use symbolon.Transport.Responder
use symbolon.Transport.Responder.{Responder}

-- The two machines, and the bytes under way in each direction.
pub record Link (noise : Noise) : Type 0 where
  pub client : Initiator noise
  pub broker : Responder noise
  pub up : Bytes
  pub down : Bytes

module _ (noise : Noise) where
  -- one pass of the loop of `drive`; a read that lacks bytes waits
  unfoldable pub client_act : Step → Link noise → Link noise
  client_act (read_exact n) l =
      if leb n (length l.down)
      then record l {
        client = (Initiator.recv noise l.client (take n l.down)).0;
        down = drop n l.down;
      }
      else l
  client_act (Step.write bytes) l = record l {
    client = (Initiator.wrote noise l.client).0;
    up = l.up ++ bytes;
  }
  client_act _ l = l

  unfoldable pub client_turn : Link noise → Link noise
  unfolding client_act
  client_turn l =
      let (s, r) = Initiator.step noise l.client in
      elim r [ ok st ↦ client_act st (record l { client = s }) | err e ↦ record l { client = s } ]

  module _ (psk_of : Identity → Psk) (answer : Bytes → Bytes) where
    unfoldable pub broker_act : Step → Link noise → Link noise
    broker_act (read_exact n) l =
        if leb n (length l.up)
        then record l { broker = (Responder.recv noise l.broker (take n l.up)).0; up = drop n l.up }
        else l
    broker_act (Step.need_psk identity) l = record l {
      broker = (Responder.set_psk noise l.broker (psk_of identity)).0;
    }
    broker_act (Step.write bytes) l = record l {
      broker = (Responder.wrote noise l.broker).0;
      down = l.down ++ bytes;
    }
    broker_act (Step.request plaintext) l = record l {
      broker = (Responder.set_response noise l.broker (answer plaintext)).0;
    }
    broker_act Step.done l = l

    unfoldable pub broker_turn : Link noise → Link noise
    unfolding broker_act
    broker_turn l =
        let (s, r) = Responder.step noise l.broker in
        elim r [ ok st ↦ broker_act st (record l { broker = s }) | err e ↦ record l { broker = s } ]

    -- a turn of each side, `n` times
    unfoldable pub rounds : ℕ → Link noise → Link noise
    rounds zero l = l
    rounds (suc n) l = rounds n (broker_turn (client_turn l))
