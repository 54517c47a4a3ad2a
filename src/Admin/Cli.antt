-- ===== src/Admin/Cli.antt =====
-- A conversation of the admin protocol: `handle_admin`, `CliCommand` and `cli_dispatch` of src/admin.rs.
use symbolon.Prelude.{
  ℕ, Bool, Option, none, some, List, [], ◌∷◌, ◌++◌, if◌then◌else◌, Bytes, bytes_eq, Result, ok, err,
  ◌>>=◌, ok_or,
}
use symbolon.Identity.{Identity}
use symbolon.Psk.{Psk}
use symbolon.PskStore
use symbolon.PskStore.{Hex}
use symbolon.SharedState.{github, Json, SharedState}
use symbolon.Admin
use symbolon.Admin.{Request, Reply, ErrorResponse, AdminWorld, dispatch, read_line, line_budget}

pub data CliCommand : Type 0 where
  status : CliCommand
  list : CliCommand
  pubkey : CliCommand
  github_enroll : Identity → Option Bytes → Psk → CliCommand
  github_revoke : Identity → CliCommand
  github_mint : Identity → Bytes → CliCommand
  github_selfcheck : CliCommand

unfoldable pub to_request : CliCommand → Request
to_request status = Admin.status
to_request list = Admin.list
to_request pubkey = Admin.pubkey
to_request (github_enroll client note psk) = Admin.enroll github client psk note
to_request (github_revoke client) = Admin.revoke github client
to_request (github_mint client path) = Admin.mint github client path
to_request github_selfcheck = Admin.selfcheck github

-- What `serde_json` makes of requests, responses, the refusal of a line that is no request, the field
-- `ok` of a response, and the line with the key of an enrollment; none for an error.
pub record AdminJson (E J : Type 0) : Type 0 where
  pub request_to_vec : Request → Option Bytes
  pub request_from : Bytes → Option Request
  pub response_to_vec : Result Reply (ErrorResponse E J) → Option Bytes
  pub refusal : Bytes → Option Bytes
  pub ok_field : Bytes → Option Bool
  pub psk_envelope : Bytes → Option Bytes

pub data AdminError : Type 0 where
  io : AdminError
  request_parse : AdminError
  response_parse : AdminError

-- The exit code, and what is written to standard output and to standard error.
pub record Outcome : Type 0 where
  pub code : ℕ
  pub stdout : Bytes
  pub stderr : Bytes

abbrev pub line_of : Bytes → Bytes
line_of bytes = bytes ++ b'\n' ∷ []

-- `write_response`: nothing, if the response cannot be written as JSON
unfoldable pub write_response : Option Bytes → Bytes
write_response none = []
write_response (some payload) = line_of payload

module _ (hex : Hex) (json : Json) {E : Type 0} (wire : AdminJson E json.Error) where
  -- behind `read_line`
  unfoldable pub handle_line : AdminWorld E → Bytes → SharedState → SharedState × Bytes
  unfolding dispatch write_response
  handle_line w raw s = elim (wire.request_from raw) [
    | none ↦ (s, write_response (wire.refusal raw))
    | some request ↦
        let (t, r) = dispatch hex json w request s in (t, write_response (wire.response_to_vec r))
  ]

  -- the state behind the connection, and what is written to it
  unfoldable pub handle_admin :
      AdminWorld E → List (Option Bytes) → SharedState → SharedState × Bytes
  unfolding read_line handle_line
  handle_admin w reads s = elim (read_line [] reads) [
    | none ↦ (s, [])
    | some (err _) ↦ (s, [])
    | some (ok raw) ↦ if bytes_eq raw [] then (s, []) else handle_line w raw s
  ]

  -- what `cli_dispatch` sends
  unfoldable pub cli_payload : CliCommand → Result Bytes AdminError
  unfolding to_request
  cli_payload command = do
    payload ← ok_or (wire.request_to_vec (to_request command)) request_parse
    ok (line_of payload)

  -- what it prints of a success
  unfoldable pub cli_success : CliCommand → Bytes → Result Outcome AdminError
  unfolding PskStore.lower_hex
  cli_success (github_enroll _ _ psk) response = do
    synth ← ok_or (wire.psk_envelope (PskStore.lower_hex hex psk)) response_parse
    ok (record { code = 0; stdout = line_of synth; stderr = [] })
  cli_success _ response = ok (record { code = 0; stdout = line_of response; stderr = [] })

  -- what it makes of the line that comes back
  unfoldable pub cli_line : CliCommand → Bytes → Result Outcome AdminError
  unfolding cli_success
  cli_line command response = do
    is_ok ← ok_or (wire.ok_field response) response_parse
    if is_ok
        then cli_success command response
        else ok (record { code = 1; stdout = []; stderr = line_of response })

  -- `cli_dispatch` behind the connection, by what it reads; none if it waits for more
  unfoldable pub cli_dispatch :
      CliCommand → List (Option Bytes) → Option (Result Outcome AdminError)
  unfolding read_line cli_line
  cli_dispatch command reads = elim (read_line [] reads) [
    | none ↦ none
    | some (err _) ↦ some (err io)
    | some (ok response) ↦ some (cli_line command response)
  ]
