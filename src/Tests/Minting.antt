-- ===== src/Tests/Minting.antt =====
-- A connection that mints.
use symbolon.Prelude.{◌≡◌, refl, true, none, some, List, [], ◌∷◌, All, Bytes, ok}
use symbolon.Strings.{codes}
use symbolon.Identity.{Identity}
use symbolon.BrokerKey.{BrokerPrivateKey}
use symbolon.PskStore.{identity_eq}
use symbolon.RateLimit.{TokenBucket}
use symbolon.GitCredential.{Response, since_epoch}
use symbolon.GitCredential.Fields.{IsPath}
use symbolon.SharedState.{SharedState, github}
use symbolon.Transport.Responder
use symbolon.Transport.Responder.{Responder, want_hs_len}
use symbolon.Connection.{World, Conn, open_session}
use symbolon.Connection.Arms.{mint_calls}
use symbolon.Connection.Authorized.{Seen, run, run-Seen}
use symbolon.Tests.Values.{toy_noise, alice, key_of}

abbrev shared : SharedState
shared = record {
  clients = (alice, record { providers = github ∷ []; enrolled_at = 0; note = none }) ∷ [];
  psks = record { entries = (alice, key_of 7) ∷ [] };
  psk_file = record { target = none; synced = true; named = true; temporaries = [] };
  clients_file = record { target = none; synced = true; named = true; temporaries = [] };
}

abbrev token : Response
token = record {
  username = b'u' ∷ [];
  password = b'p' ∷ [];
  password_expiry_utc = since_epoch 120 0;
}

abbrev reading : Bytes → World × SharedState
reading bytes = (
  record { read = some bytes; write_ok = true; random = none; now = 0; mint = λ path. ok token },
  shared,
)

-- the frame of alice's hello, then that of a request
abbrev turns : List (World × SharedState)
turns =
    reading (0 ∷ 8 ∷ [])
    ∷ reading (b'S' ∷ b'B' ∷ b'L' ∷ b'N' ∷ 2 ∷ 2 ∷ alice.text)
    ∷ reading []
    ∷ reading []
    ∷ reading (0 ∷ 31 ∷ [])
    ∷ reading (codes "protocol=https\nhost=h\npath=a/b\n")
    ∷ reading []
    ∷ []

abbrev bucket : TokenBucket
bucket = record { refill_interval = 1; burst_tolerance = 0; tat = 0; suppressed = 0 }

abbrev broker_key : BrokerPrivateKey
broker_key = record { bytes = [] }

abbrev conn : Conn toy_noise
conn = record { sess = want_hs_len 0; client_name = none; mint_record = none }

opens : open_session toy_noise broker_key ≡ ok conn
unfolding open_session Responder.new
opens = refl

run-Seen_example :
    All
      (λ (p : Identity × Bytes). Seen p.0 turns × IsPath p.1)
      (mint_calls (run toy_noise ((b'h' ∷ []) ∷ []) turns bucket conn))
run-Seen_example = run-Seen toy_noise ((b'h' ∷ []) ∷ []) broker_key conn turns bucket opens
