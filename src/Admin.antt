-- ===== src/Admin.antt =====
-- The admin protocol: src/admin.rs. Requests and responses stand parsed; `serde_json` turns them into
-- lines.
pub mod ReadLine
pub mod Dispatch
pub mod Cli
pub mod Talk
use symbolon.Prelude.{
  ℕ, ◌+◌, ◌*◌, Bool, true, false, not, Option, none, some, List, [], ◌∷◌, ◌++◌, leb, ◌==◌,
  if◌then◌else◌, length, Bytes, Result, ok, err,
}
use symbolon.Prelude.Assoc
use symbolon.Identity.{Identity}
use symbolon.Psk.{Psk}
use symbolon.PskStore.{Hex, identity_eq}
use symbolon.AtomicFs.{Faults}
use symbolon.GitCredential.{Response}
use symbolon.GitCredential
use symbolon.Connection.{ProviderError, LogEvent, event}
use symbolon.Connection
use symbolon.SharedState.{
  ProviderKind, github, ResolvedClient, Json, SharedState, StateMutationError, unknown_client,
  enroll_client, revoke_client,
}

pub data Request : Type 0 where
  status : Request
  list : Request
  pubkey : Request
  enroll : ProviderKind → Identity → Psk → Option Bytes → Request
  revoke : ProviderKind → Identity → Request
  mint : ProviderKind → Identity → Bytes → Request
  selfcheck : ProviderKind → Request

pub record ListEntry : Type 0 where
  pub name : Identity
  pub providers : List ProviderKind
  pub enrolled_at : ℕ
  pub note : Option Bytes

-- The successful responses; that of `mint` without the ids of the request, that of `selfcheck` without
-- its report.
pub data Reply : Type 0 where
  status_response : ℕ → List ProviderKind → ℕ → Reply
  list_response : List ListEntry → Reply
  pubkey_response : Bytes → Reply
  ack : Reply
  mint_response : Bytes → Bytes → ℕ → Reply
  selfcheck_outcome : Reply

-- `ErrorResponse`, by what its text is made of; the last is that of a panic
pub data ErrorResponse (E J : Type 0) : Type 0 where
  unknown_provider : ProviderKind → ErrorResponse E J
  state_mutation : StateMutationError E J → ErrorResponse E J
  provider_failed : ProviderError → ErrorResponse E J
  panicked : ErrorResponse E J

-- What the world answers to a request: the time since the start and of the enrollment, the broker's
-- public key in hex, the faults of the two writes, and what the configured providers answer.
pub record AdminWorld (E : Type 0) : Type 0 where
  pub uptime_sec : ℕ
  pub now : ℕ
  pub broker_public : Bytes
  pub psk_faults : Faults E
  pub clients_faults : Faults E
  pub providers : List ProviderKind
  pub mint : Bytes → Result Response ProviderError
  pub selfcheck : Result (Unit {0}) ProviderError

abbrev pub same_kind : ProviderKind → ProviderKind → Bool
same_kind github github = true

-- `lookup_provider`, whether there is one
unfoldable pub lookup_provider : ProviderKind → List ProviderKind → Bool
lookup_provider kind [] = false
lookup_provider kind (k ∷ ks) = if same_kind k kind then true else lookup_provider kind ks

unfoldable pub list_entries : List (Identity × ResolvedClient) → List ListEntry
list_entries [] = []
list_entries ((id, c) ∷ rest) =
    record { name = id; providers = c.providers; enrolled_at = c.enrolled_at; note = c.note }
    ∷ list_entries rest

module _ (hex : Hex) (json : Json) {E : Type 0} where
  unfoldable pub handle_status : AdminWorld E → SharedState → Reply
  handle_status w s = status_response w.uptime_sec w.providers (length s.clients)

  unfoldable pub handle_enroll :
      AdminWorld E
      → ProviderKind
      → Identity
      → Option Bytes
      → Psk
      → SharedState
      → SharedState × Result Reply (ErrorResponse E json.Error)
  unfolding enroll_client
  handle_enroll w provider client note psk s =
      let (t, r) =
        enroll_client hex json w.psk_faults w.clients_faults w.now client psk provider note s in
      (t, elim r [ ok _ ↦ ok ack | err e ↦ err (state_mutation e) ])

  unfoldable pub handle_revoke :
      AdminWorld E
      → ProviderKind
      → Identity
      → SharedState
      → SharedState × Result Reply (ErrorResponse E json.Error)
  unfolding lookup_provider revoke_client
  handle_revoke w provider client s =
      if not (lookup_provider provider w.providers)
      then (s, err (unknown_provider provider))
      else let (t, r) = revoke_client hex json w.clients_faults w.psk_faults client s in
        (t, elim r [ ok _ ↦ ok ack | err e ↦ err (state_mutation e) ])

  -- `MintResponse` of what the provider returned; a panic of `password_expiry_unix_secs` is an error
  -- of its own here
  unfoldable pub minted : Response → Result Reply (ErrorResponse E json.Error)
  unfolding GitCredential.password_expiry_unix_secs
  minted response = elim (GitCredential.password_expiry_unix_secs response) [
    | none ↦ err panicked
    | some secs ↦ ok (mint_response response.username response.password secs)
  ]

  unfoldable pub handle_mint :
      AdminWorld E
      → ProviderKind
      → Identity
      → Bytes
      → SharedState
      → Result Reply (ErrorResponse E json.Error)
  unfolding lookup_provider minted
  handle_mint w provider client path s =
      if not (Assoc.contains_key client s.clients)
      then err (state_mutation (unknown_client client.text))
      else if not (lookup_provider provider w.providers)
      then err (unknown_provider provider)
      else elim (w.mint path) [ err e ↦ err (provider_failed e) | ok response ↦ minted response ]

  unfoldable pub handle_selfcheck :
      AdminWorld E → ProviderKind → Result Reply (ErrorResponse E json.Error)
  unfolding lookup_provider
  handle_selfcheck w provider =
      if not (lookup_provider provider w.providers)
      then err (unknown_provider provider)
      else elim w.selfcheck [ err e ↦ err (provider_failed e) | ok _ ↦ ok selfcheck_outcome ]

  -- `dispatch_and_write`, up to the write
  unfoldable pub dispatch :
      AdminWorld E → Request → SharedState → SharedState × Result Reply (ErrorResponse E json.Error)
  unfolding handle_status list_entries handle_enroll handle_revoke handle_mint handle_selfcheck
  dispatch w status s = (s, ok (handle_status w s))
  dispatch w list s = (s, ok (list_response (list_entries s.clients)))
  dispatch w pubkey s = (s, ok (pubkey_response w.broker_public))
  dispatch w (enroll provider client psk note) s = handle_enroll w provider client note psk s
  dispatch w (revoke provider client) s = handle_revoke w provider client s
  dispatch w (mint provider client path) s = (s, handle_mint w provider client path s)
  dispatch w (selfcheck provider) s = (s, handle_selfcheck w provider)

-- What `read_line` returns for an error.
pub data ReadError : Type 0 where
  exceeds_cap : ReadError
  closed_mid_request : ReadError
  read_failed : ReadError

abbrev pub line_budget : ℕ
line_budget = 64 * 1024

-- `iter().position(|&b| b == b'\n')`, and `truncate` there
unfoldable pub up_to_lf : Bytes → Option Bytes
up_to_lf [] = none
up_to_lf (b ∷ bs) =
    let rest = up_to_lf bs in
    if b == b'\n' then some [] else elim rest [ none ↦ none | some l ↦ some (b ∷ l) ]

-- the tests of the loop of `read_line` before it reads
unfoldable pub line_done : Bytes → Option (Result Bytes ReadError)
unfolding up_to_lf
line_done accumulated = elim (up_to_lf accumulated) [
  | some line ↦ some (ok line)
  | none ↦ if leb line_budget (length accumulated) then some (err exceeds_cap) else none
]

-- `read_line` behind the bytes `accumulated`: each read returns a chunk, none for an error, and a chunk
-- without bytes for the end of file; a result of `none` waits for more
unfoldable pub read_line : Bytes → List (Option Bytes) → Option (Result Bytes ReadError)
unfolding line_done
read_line accumulated [] = line_done accumulated
read_line accumulated (none ∷ rest) = elim (line_done accumulated) [
  | some r ↦ some r
  | none ↦ some (err read_failed)
]
read_line accumulated (some [] ∷ rest) = elim (line_done accumulated) [
  | some r ↦ some r
  | none ↦ some (err closed_mid_request)
]
read_line accumulated (some (b ∷ chunk) ∷ rest) = elim (line_done accumulated) [
  | some r ↦ some r
  | none ↦ read_line (accumulated ++ b ∷ chunk) rest
]
