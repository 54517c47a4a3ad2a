-- ===== src/Connection.antt =====
-- The driver of one connection, `handle_connection` of src/daemon.rs, turn by turn, and the events
-- that it logs.
pub mod Arms
pub mod Authorized
mod Events
pub use Events.{
  EventKind, accept, mint, mint_denied, identity_invalid, identity_unknown, handshake_failed,
  provider_error, cache_invalidated, LogEvent, event, detailed, ProviderError, unauthorized,
  forbidden, repo_not_found, rate_limited, unexpected_status, malformed_path, transport_failed,
  malformed_response, timeout, cancelled, internal,
}
unfoldable pub use Events.{log_session_failure, log_phase_eof, log_mint_error}
use Prim.Native.String.{String}
use symbolon.Prelude.{
  ℕ, ◌+◌, ◌*◌, Bool, true, false, Option, none, some, List, [], ◌∷◌, ◌++◌, ltb, if◌then◌else◌,
  length, Bytes, bytes_eq, Result, ok, err,
}
use symbolon.Prelude.Assoc
use symbolon.Prelude.Assoc.{Eq}
use symbolon.Identity.{Identity}
use symbolon.Psk.{Psk}
use symbolon.PskStore
use symbolon.PskStore.{identity_eq}
use symbolon.BrokerKey.{BrokerPrivateKey}
use symbolon.RateLimit.{TokenBucket, try_acquire}
use symbolon.GitCredential
use symbolon.GitCredential.{Response, Request}
use symbolon.SharedState.{SharedState}
use symbolon.Transport.Noise.{Noise}
use symbolon.Transport.Errors.{SessionError}
use symbolon.Transport.Session.{Step, Phase}
use symbolon.Transport.Responder
use symbolon.Transport.Responder.{Responder}

-- What one turn of the loop does to the world: the bytes it writes, the events it logs, and the
-- calls of `provider.mint`, with the client they are for.
pub data Effect : Type 0 where
  logs : LogEvent → Effect
  writes : Bytes → Effect
  mints : Identity → Bytes → Effect

-- What the world answers in one turn: to a read (`None` is the end of file or an error), to a write,
-- to `Psk::random`, to the clock, and to `provider.mint`.
pub record World : Type 0 where
  pub read : Option Bytes
  pub write_ok : Bool
  pub random : Option Psk
  pub now : ℕ
  pub mint : Bytes → Result Response ProviderError

abbrev pub wire_read_budget : ℕ
wire_read_budget = 8 * 1024

-- `providers.values().find(|p| p.host() == request.host)`, of the providers' hosts
unfoldable pub has_host : Bytes → List Bytes → Bool
has_host host [] = false
has_host host (h ∷ hosts) = if bytes_eq h host then true else has_host host hosts

-- The arm `NeedPsk` up to `set_psk`: the client's name if it is authorized, the key to go on with,
-- the bucket of the warnings and the events.
unfoldable pub choose_psk :
    World
    → SharedState
    → TokenBucket
    → Identity
    → Option Identity × Option Psk × TokenBucket × List Effect
unfolding PskStore.lookup try_acquire
choose_psk w shared bucket identity = elim (PskStore.lookup identity shared.psks) [
  | some psk ↦
      if Assoc.contains_key identity shared.clients
      then (some identity, some psk, bucket, logs (event accept "") ∷ [])
      else (none, w.random, bucket, logs (event mint_denied "client_metadata_missing") ∷ [])
  | none ↦
      let (after, suppressed) = try_acquire w.now bucket in
      (
        none,
        w.random,
        after,
        elim suppressed [ some n ↦ logs (event identity_unknown "") ∷ [] | none ↦ [] ],
      )
]

-- The variables of the loop: the session, `client_name`, and host and path of `mint_record`.
pub record Conn (noise : Noise) : Type 0 where
  pub sess : Responder noise
  pub client_name : Option Identity
  pub mint_record : Option (Bytes × Bytes)

-- Behind a turn: the loop's variables, or none if the connection is over; the bucket; what it did.
pub record Turn (noise : Noise) : Type 0 where
  pub next : Option (Conn noise)
  pub bucket : TokenBucket
  pub effects : List Effect

module _ (noise : Noise) where
  abbrev stop : TokenBucket → List Effect → Turn noise
  stop bucket effects = record { next = none; bucket = bucket; effects = effects }

  -- the end of an arm that called a method of the session: an error of it is logged
  unfoldable pub go_on :
      TokenBucket
      → List Effect
      → Phase
      → Conn noise
      → Result (Unit {0}) (SessionError noise.Error)
      → Turn noise
  unfolding log_session_failure
  go_on bucket effects phase c (ok _) = record { next = some c; bucket = bucket; effects = effects }
  go_on bucket effects phase c (err e) =
      stop bucket (effects ++ logs (log_session_failure phase e) ∷ [])

  unfoldable pub on_read_exact : World → TokenBucket → Conn noise → Turn noise
  unfolding go_on Responder.recv Responder.phase log_phase_eof
  on_read_exact w bucket c =
      let phase = Responder.phase c.sess in
      elim w.read [
        | none ↦ stop bucket (logs (log_phase_eof phase) ∷ [])
        | some bytes ↦
            let (sess, r) = Responder.recv noise c.sess bytes in
            go_on bucket [] phase (record c { sess = sess }) r
      ]

  unfoldable pub on_need_psk :
      World → SharedState → TokenBucket → Identity → Conn noise → Turn noise
  unfolding go_on choose_psk Responder.set_psk Responder.phase
  on_need_psk w shared bucket identity c =
      let (name, psk, bucket, effects) = choose_psk w shared bucket identity in
      let c1 : Conn noise = elim name [ none ↦ c | some id ↦ record c { client_name = some id } ] in
      elim psk [
        | none ↦ stop bucket (effects ++ logs (event handshake_failed "rng_unavailable") ∷ [])
        | some psk ↦
            let (sess, r) = Responder.set_psk noise c1.sess psk in
            go_on bucket effects (Responder.phase sess) (record c1 { sess = sess }) r
      ]

  unfoldable pub on_write : World → TokenBucket → Bytes → Conn noise → Turn noise
  unfolding go_on Responder.wrote Responder.phase
  on_write w bucket bytes c =
      if w.write_ok
      then (let (sess, r) = Responder.wrote noise c.sess in
          go_on bucket (writes bytes ∷ []) (Responder.phase sess) (record c { sess = sess }) r)
      else stop bucket (logs (event handshake_failed "handshake_write_io") ∷ [])

  -- the arm `Request` behind the call of `provider.mint`, which answered with `outcome`
  unfoldable pub on_minted :
      TokenBucket → Effect → Request → Result Response ProviderError → Conn noise → Turn noise
  unfolding go_on Responder.set_response Responder.phase GitCredential.encode log_mint_error
  on_minted bucket minted request (err repo_not_found) c =
      stop bucket
        (minted ∷ logs (event cache_invalidated "") ∷ logs (log_mint_error repo_not_found) ∷ [])
  on_minted bucket minted request (err e) c = stop bucket (minted ∷ logs (log_mint_error e) ∷ [])
  on_minted bucket minted request (ok response) c =
      elim (GitCredential.encode response [] request.client_supports_authtype) [
        | none ↦ stop bucket (minted ∷ [])
        | some response_bytes ↦
            let (sess, r) = Responder.set_response noise c.sess response_bytes in
            go_on bucket (minted ∷ []) (Responder.phase sess)
              (record c { sess = sess; mint_record = some (request.host, request.path) }) r
      ]

  unfoldable pub on_request : World → List Bytes → TokenBucket → Bytes → Conn noise → Turn noise
  unfolding on_minted GitCredential.parse has_host
  on_request w hosts bucket request_bytes c = elim c.client_name [
    | none ↦
        stop bucket
          (logs (detailed mint_denied "client_unknown" "request_from_unauthorized_session") ∷ [])
    | some client ↦
        if ltb wire_read_budget (length request_bytes)
        then stop bucket
            (logs (detailed mint_denied "malformed_request" "request_exceeds_cap") ∷ [])
        else elim (GitCredential.parse request_bytes) [
          | err e ↦ stop bucket (logs (event mint_denied "malformed_request") ∷ [])
          | ok request ↦
              if has_host request.host hosts
              then on_minted bucket (mints client request.path) request (w.mint request.path) c
              else stop bucket (logs (event mint_denied "unknown_host") ∷ [])
        ]
  ]

  unfoldable pub on_done : TokenBucket → Conn noise → Turn noise
  on_done bucket c = elim c.client_name [
    | none ↦ stop bucket []
    | some client ↦ elim c.mint_record [
      | none ↦ stop bucket []
      | some rec ↦ stop bucket (logs (event mint "") ∷ [])
    ]
  ]

  -- the `match` on what the session asks for
  unfoldable pub on_step :
      World → SharedState → List Bytes → TokenBucket → Step → Conn noise → Turn noise
  unfolding on_read_exact on_need_psk on_write on_request on_done
  on_step w shared hosts bucket (Step.read_exact n) c = on_read_exact w bucket c
  on_step w shared hosts bucket (Step.need_psk identity) c = on_need_psk w shared bucket identity c
  on_step w shared hosts bucket (Step.write bytes) c = on_write w bucket bytes c
  on_step w shared hosts bucket (Step.request bytes) c = on_request w hosts bucket bytes c
  on_step w shared hosts bucket Step.done c = on_done bucket c

  -- one turn of the loop
  unfoldable pub turn : World → SharedState → List Bytes → TokenBucket → Conn noise → Turn noise
  unfolding on_step Responder.step Responder.phase log_session_failure
  turn w shared hosts bucket c =
      let phase_at_entry = Responder.phase c.sess in
      let (sess, r) = Responder.step noise c.sess in
      elim r [
        | err e ↦ stop bucket (logs (log_session_failure phase_at_entry e) ∷ [])
        | ok step ↦ on_step w shared hosts bucket step (record c { sess = sess })
      ]

  -- the variables before the first turn
  unfoldable pub open_session : BrokerPrivateKey → Result (Conn noise) LogEvent
  unfolding Responder.new
  open_session broker_key = elim (Responder.new noise broker_key) [
    | err e ↦ err (event handshake_failed "responder_init")
    | ok sess ↦ ok (record { sess = sess; client_name = none; mint_record = none })
  ]
