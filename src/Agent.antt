-- ===== src/Agent.antt =====
-- The signing agent and the broker's side of it: src/providers/agent.rs and
-- src/providers/agent_backend.rs. The key is the parameter `sign_rs256`, an error of it its text.
pub mod Exchange
use symbolon.Prelude.{
  ℕ, ◌+◌, Bool, List, [], ◌∷◌, ◌++◌, ◌==◌, if◌then◌else◌, length, take, Bytes, Result, ok, err,
  ◌>>=◌, ◌>>◌, map_err,
}
use symbolon.Strings.{codes}
use symbolon.JwtBackend.{JwtClaims, JwtBackendError, backend_dead, io, protocol, rejected}
use symbolon.AgentProtocol.{
  AgentRequest, sign_jwt, ping, AgentResponse, jwt, pong, error_response, max_message, error, Json,
  encode,
}

abbrev pub Signer : Type 0
Signer = JwtClaims → Result Bytes Bytes

module _ (json : Json) (sign_rs256 : Signer) where
  unfoldable pub handle : Bytes → AgentResponse
  unfolding error
  handle bytes = elim (json.request_from bytes) [
    | err e ↦ error e
    | ok ping ↦ pong
    | ok (sign_jwt claims) ↦ elim (sign_rs256 claims) [
      | ok token ↦ jwt token
      | err e ↦ error (codes "sign: " ++ e)
    ]
  ]

  -- `handle`, `encode` and what is sent
  unfoldable pub answer : Bytes → Result Bytes ℕ
  unfolding handle encode
  answer bytes = encode (json.response_to_vec (handle bytes))

-- What `recv` returns: a datagram, none of its bytes for the end of file, or the number of an error.
pub data Received : Type 0 where
  datagram : Bytes → Received
  failed : ℕ → Received

-- How the loop of the agent ends: at the end of file, at an error of `recv`, at a response that is too
-- long, at an error of `send`, or it waits for more.
pub data ServeEnd : Type 0 where
  closed : ServeEnd
  recv_failed : ℕ → ServeEnd
  too_long : ℕ → ServeEnd
  send_failed : ServeEnd
  waiting : ServeEnd

abbrev pub eintr : ℕ
eintr = 4

module _ (json : Json) (sign_rs256 : Signer) where
  -- `serve_loop`, by what `recv` returns, with whether the `send` of the answer succeeds; the
  -- datagrams sent
  unfoldable pub serve_loop : List (Received × Bool) → List Bytes × ServeEnd
  unfolding answer
  serve_loop [] = ([], waiting)
  serve_loop ((failed e, sent) ∷ rest) =
      let after = serve_loop rest in if e == eintr then after else ([], recv_failed e)
  serve_loop ((datagram bytes, sent) ∷ rest) =
      let (more, end) = serve_loop rest in
      if length bytes == 0
      then ([], closed)
      else elim (answer json sign_rs256 (take max_message bytes)) [
        | err n ↦ ([], too_long n)
        | ok reply ↦ if sent then (reply ∷ more, end) else ([], send_failed)
      ]

module _ (json : Json) where
  -- `AgentBackend::round_trip`: `exchange` is what the actor does with the datagram
  unfoldable pub round_trip :
      (Bytes → Result Bytes JwtBackendError) → AgentRequest → Result AgentResponse JwtBackendError
  unfolding encode
  round_trip exchange request = do
    bytes ← map_err (λ n. protocol []) (encode (json.request_to_vec request))
    response_bytes ← exchange bytes
    map_err protocol (json.response_from response_bytes)

  -- `AgentBackend::sign`
  unfoldable pub sign :
      (Bytes → Result Bytes JwtBackendError) → JwtClaims → Result Bytes JwtBackendError
  unfolding round_trip
  sign exchange claims = round_trip exchange (sign_jwt claims) >>= λ response. elim response [
    | jwt token ↦ ok token
    | error_response msg ↦ err (rejected msg)
    | pong ↦ err (protocol (codes "expected Jwt, got Pong"))
  ]

  -- `AgentBackend::self_check`
  unfoldable pub self_check :
      (Bytes → Result Bytes JwtBackendError) → Result (Unit {0}) JwtBackendError
  unfolding round_trip
  self_check exchange = round_trip exchange ping >>= λ response. elim response [
    | pong ↦ ok tt
    | error_response msg ↦ err (rejected msg)
    | jwt _ ↦ err (protocol (codes "expected Pong, got Jwt"))
  ]

-- `round_trip` of the actor, over what `send` and `recv` do; an answer without bytes is the end of file
unfoldable pub exchange_by :
    (Bytes → Result Bytes JwtBackendError) → Bytes → Result Bytes JwtBackendError
exchange_by channel request = do
  reply ← channel request
  if length reply == 0 then err backend_dead else ok (take max_message reply)
