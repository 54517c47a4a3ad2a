-- ===== src/BrokerKey.antt =====
-- The broker's static key pair: src/broker_key.rs.
use symbolon.Prelude.{Bytes}

pub record BrokerPrivateKey : Type 0 where
  pub bytes : Bytes

pub record BrokerPublicKey : Type 0 where
  pub bytes : Bytes
