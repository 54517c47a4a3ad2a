-- ===== src/Helper.antt =====
-- The client's credential helper: src/bin/git_credential_symbolon.rs.
pub mod Straight
pub mod Drive
pub mod KeyFile
use symbolon.Prelude.{
  ℕ, zero, suc, Bool, true, false, not, Option, none, some, List, [], ◌∷◌, leb, if◌then◌else◌,
  length, take, drop, Bytes, Result, ok, err, ◌>>=◌, ◌>>◌, map_err, ok_or,
}
use Prim.Native.String.{String}
use symbolon.Strings.{split_once, trim}
use symbolon.Identity
use symbolon.Identity.{Identity, IdentityError}
use symbolon.Psk.{Psk}
use symbolon.PskStore.{Hex}
use symbolon.BrokerKey.{BrokerPublicKey}
use symbolon.Transport.Noise.{Noise}
use symbolon.Transport.Errors.{SessionError, wrong_state}
use symbolon.Transport.Session.{Step}
use symbolon.Transport.Initiator
use symbolon.Transport.Initiator.{Initiator}

-- `ClientError`, without the errors of the system that it carries; `S` is the error of the Noise library
pub data ClientError (S : Type 0) : Type 0 where
  read_key_file : ClientError S
  bad_key_file : String → ClientError S
  resolve : ClientError S
  connect : ClientError S
  set_timeout : ClientError S
  read_stdin : ClientError S
  write_stdout : ClientError S
  write_handshake : ClientError S
  read_handshake : ClientError S
  session : SessionError S → ClientError S
  bad_identity : Bytes → IdentityError → ClientError S

-- The stream: the bytes that still come before its end, and whether each of the next writes succeeds.
pub record Stream : Type 0 where
  pub incoming : Bytes
  pub writes : List Bool

-- `read_exact`
unfoldable pub read_exact : ℕ → Stream → Option (Bytes × Stream)
read_exact n s =
    if leb n (length s.incoming)
    then some (take n s.incoming, record s { incoming = drop n s.incoming })
    else none

-- `write_all`: the stream behind it, if it succeeds
unfoldable pub write_all : Stream → Option Stream
write_all s = elim s.writes [
  | [] ↦ some s
  | true ∷ rest ↦ some (record s { writes = rest })
  | false ∷ rest ↦ none
]

module _ (noise : Noise) where
  abbrev pub Driven : Type 0
  Driven = Option (Result Bytes (ClientError noise.Error))

  -- the end of an arm that called a method of the session
  unfoldable pub go_on :
      (Initiator noise → Driven)
      → Initiator noise × Result (Unit {0}) (SessionError noise.Error)
      → Driven
  go_on loop (sess, ok _) = loop sess
  go_on loop (sess, err e) = some (err (session e))

  -- the loop of `drive`, at most `fuel` rounds of it; `None` if these are not enough
  unfoldable pub drive : ℕ → Stream → Initiator noise → Driven
  unfolding Initiator.step Initiator.recv Initiator.wrote Initiator.take_response read_exact
      write_all go_on
  drive zero s sess = none
  drive (suc fuel) s sess =
      let (sess, r) = Initiator.step noise sess in
      elim r [
        | err e ↦ some (err (session e))
        | ok (Step.read_exact n) ↦ elim (read_exact n s) [
          | none ↦ some (err read_handshake)
          | some (buf, s) ↦ go_on (drive fuel s) (Initiator.recv noise sess buf)
        ]
        | ok (Step.write bytes) ↦ elim (write_all s) [
          | none ↦ some (err write_handshake)
          | some s ↦ go_on (drive fuel s) (Initiator.wrote noise sess)
        ]
        | ok Step.done ↦ some (map_err session (Initiator.take_response noise sess))
        | ok (Step.need_psk _) ↦
            some (err (session (wrong_state "drive" "unexpected_initiator_step")))
        | ok (Step.request _) ↦
            some (err (session (wrong_state "drive" "unexpected_initiator_step")))
      ]

  -- `load_key_file`, of what `read_to_string` returns
  unfoldable pub load_key_file :
      (hex : Hex) → Option Bytes → Result (BrokerPublicKey × Psk) (ClientError noise.Error)
  unfolding split_once trim
  load_key_file hex text = do
    text ← ok_or text read_key_file
    halves ← ok_or (split_once b':' (trim text)) (bad_key_file "expected `broker_pub_hex:psk_hex`")
    broker_pub ←
        map_err (λ _. bad_key_file "broker public key half is not 64 hex chars")
          (hex.decode halves.0)
    psk ← map_err (λ _. bad_key_file "PSK half is not 64 hex chars") (hex.decode halves.1)
    ok (record { bytes = broker_pub }, record { bytes = psk })

  -- What the world answers to `run`: the key file, the standard input, the stream or the error of
  -- `connect` and of its timeouts, and whether the answer can be written.
  pub record World : Type 0 where
    pub key_file : Option Bytes
    pub stdin : Option Bytes
    pub stream : Result Stream (ClientError noise.Error)
    pub stdout_ok : Bool

  -- `run`, with `fuel` rounds of `drive`; the answer is what is written to the standard output
  unfoldable pub run : (hex : Hex) → ℕ → World → Bytes → Driven
  unfolding load_key_file drive Initiator.new
  run hex fuel w raw =
      let start : Result (Stream × Initiator noise) (ClientError noise.Error) = (do
        identity ← map_err (bad_identity raw) (Identity.parse raw)
        keys ← load_key_file hex w.key_file
        request ← ok_or w.stdin read_stdin
        sess ← map_err session (Initiator.new noise identity keys.1 keys.0 request)
        stream ← w.stream
        ok (stream, sess)) in
      elim start [
        | err e ↦ some (err e)
        | ok (stream, sess) ↦ elim (drive fuel stream sess) [
          | none ↦ none
          | some (err e) ↦ some (err e)
          | some (ok response) ↦ some (if w.stdout_ok then ok response else err write_stdout)
        ]
      ]
