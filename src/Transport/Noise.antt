-- ===== src/Transport/Noise.antt =====
-- The Noise library (`snow`), which src/transport.rs calls: its types and calls are parameters. A
-- call that takes `&mut` returns the new state beside the bytes that it wrote to the buffer.
use symbolon.Prelude.{Bytes, Result, map_err}
use symbolon.Psk.{Psk}
use symbolon.BrokerKey.{BrokerPrivateKey, BrokerPublicKey}
use symbolon.Transport.Errors.{TransportError, params, transition}

pub record Noise : Type 1 where
  pub HandshakeState : Type 0
  pub TransportState : Type 0
  pub Error : Type 0
  -- `Builder::build_responder` with the broker's private key
  pub build_responder : BrokerPrivateKey → Result HandshakeState Error
  -- `Builder::build_initiator` with the PSK and the broker's public key
  pub build_initiator : Psk → BrokerPublicKey → Result HandshakeState Error
  pub set_psk : HandshakeState → Psk → Result HandshakeState Error
  pub read_message : HandshakeState → Bytes → Result (HandshakeState × Bytes) Error
  pub write_message : HandshakeState → Bytes → Result (HandshakeState × Bytes) Error
  pub into_transport_mode : HandshakeState → Result TransportState Error
  pub decrypt : TransportState → Bytes → Result (TransportState × Bytes) Error
  pub encrypt : TransportState → Bytes → Result (TransportState × Bytes) Error

module _ (noise : Noise) where
  open noise use {HandshakeState, TransportState, Error}

  unfoldable pub responder : BrokerPrivateKey → Result HandshakeState (TransportError Error)
  responder broker_key = map_err params (noise.build_responder broker_key)

  unfoldable pub initiator : Psk → BrokerPublicKey → Result HandshakeState (TransportError Error)
  initiator psk broker_pub = map_err params (noise.build_initiator psk broker_pub)

  unfoldable pub into_transport : HandshakeState → Result TransportState (TransportError Error)
  into_transport hs = map_err transition (noise.into_transport_mode hs)

  unfoldable pub handshake_read :
      HandshakeState → Bytes → Result (HandshakeState × Bytes) (TransportError Error)
  handshake_read hs msg = map_err TransportError.handshake_read (noise.read_message hs msg)

  unfoldable pub handshake_write :
      HandshakeState → Bytes → Result (HandshakeState × Bytes) (TransportError Error)
  handshake_write hs payload =
      map_err TransportError.handshake_write (noise.write_message hs payload)

  unfoldable pub transport_read :
      TransportState → Bytes → Result (TransportState × Bytes) (TransportError Error)
  transport_read ts ciphertext = map_err TransportError.transport_read (noise.decrypt ts ciphertext)

  unfoldable pub transport_write :
      TransportState → Bytes → Result (TransportState × Bytes) (TransportError Error)
  transport_write ts plaintext = map_err TransportError.transport_write (noise.encrypt ts plaintext)
