-- ===== src/Github/Calls.antt =====
-- One outbound call of src/providers/github.rs, and the requests it is made for.
use symbolon.Prelude.{
  ℕ, Bool, true, Option, none, some, List, [], ◌∷◌, ◌++◌, if◌then◌else◌, Bytes, Result, ok, err,
  ◌>>=◌, map_err,
}
use Prim.Native.String.{String}
use symbolon.Strings.{codes, decimal}
use symbolon.GitCredential.{SystemTime}
use symbolon.JwtBackend
use symbolon.JwtBackend.{JwtClaims, JwtBackendError}
use symbolon.Github.Errors.{GithubError, jwt_sign, http, timeout, cancelled}
use symbolon.Github.RepoPath.{RepoPath}
use symbolon.Github.Responses.{HttpResponse}

-- the fields of `GitHubProvider` that the calls read; the timeout in seconds
pub record Config : Type 0 where
  pub api_base : Bytes
  pub client_id : Bytes
  pub installation_id : ℕ
  pub request_timeout : ℕ
  pub selfcheck_timeout : ℕ

pub data Method : Type 0 where
  get post delete : Method

-- A request, without the headers that are the same for all.
pub record HttpRequest : Type 0 where
  pub method : Method
  pub url : Bytes
  pub bearer : Bytes
  pub body : Option Bytes

-- What comes of a call first: the shutdown or the timeout, each with whether the request has been sent
-- by then, an error of the HTTP library, or a response. A shutdown that is there at the start comes
-- before the request.
pub data Reply : Type 0 where
  shut_down : Bool → Reply
  timed_out : Bool → Reply
  send_failed : Reply
  answered : HttpResponse → Reply

-- What the world answers to a call: the clock, the signing backend, the HTTP library's check of a
-- request (its address and header values), and the reply.
pub record CallWorld : Type 0 where
  pub clock : SystemTime
  pub sign : JwtClaims → Result Bytes JwtBackendError
  pub accepts : HttpRequest → Bool
  pub reply : Reply

-- What a call does: its event, the request handed to the HTTP library, unless the call is cut off
-- before, and the event of its end, with status, request id and error.
pub data Effect : Type 0 where
  provider_call : String → Effect
  sends : HttpRequest → Effect
  provider_call_done : ℕ → Option Bytes → Option GithubError → Effect

unfoldable pub race : ℕ → Result HttpRequest GithubError → Reply → Result HttpResponse GithubError
race limit build (shut_down _) = err cancelled
race limit build (timed_out _) = err (timeout limit)
race limit build send_failed = build >>= λ _. err http
race limit build (answered resp) = build >>= λ _. ok resp

-- whether a request that could be built has been sent
unfoldable pub was_sent : Reply → Bool
was_sent (shut_down b) = b
was_sent (timed_out b) = b
was_sent send_failed = true
was_sent (answered _) = true

abbrev pub sent : Result HttpRequest GithubError → Bool → List Effect
sent (ok request) b = if b then sends request ∷ [] else []
sent (err _) b = []

unfoldable pub run_call :
    {T : Type 0}
    → String
    → ℕ
    → Result HttpRequest GithubError
    → Reply
    → (HttpResponse → Result T GithubError)
    → Result T GithubError × List Effect
unfolding race was_sent
run_call endpoint limit build reply handle = elim (race limit build reply) [
  | ok resp ↦ (
    handle resp,
    provider_call endpoint ∷ sent build (was_sent reply)
        ++ provider_call_done resp.status resp.request_id none ∷ [],
  )
  | err e ↦ (
    err e,
    provider_call endpoint ∷ sent build (was_sent reply) ++ provider_call_done 0 none (some e) ∷ [],
  )
]

unfoldable pub sign_jwt_now : Config → CallWorld → Result Bytes GithubError
unfolding JwtBackend.new
sign_jwt_now cfg w = map_err jwt_sign (w.sign (JwtBackend.new w.clock cfg.client_id))

-- `apply_standard_headers` and what is built around it
unfoldable pub built : CallWorld → HttpRequest → Result HttpRequest GithubError
built w request = if w.accepts request then ok request else err http

abbrev pub access_tokens_url : Config → Bytes
access_tokens_url cfg =
    cfg.api_base
    ++ (codes "/app/installations/" ++ (decimal cfg.installation_id ++ codes "/access_tokens"))

unfoldable pub selfcheck_request : Config → Bytes → HttpRequest
selfcheck_request cfg jwt = record {
  method = get;
  url = cfg.api_base ++ codes "/app";
  bearer = jwt;
  body = none;
}

unfoldable pub repo_request : Config → Bytes → RepoPath → HttpRequest
repo_request cfg install_token p = record {
  method = get;
  url = cfg.api_base ++ (codes "/repos/" ++ (p.owner ++ b'/' ∷ p.repo));
  bearer = install_token;
  body = none;
}

unfoldable pub metadata_request : Config → Bytes → HttpRequest
metadata_request cfg jwt = record {
  method = post;
  url = access_tokens_url cfg;
  bearer = jwt;
  body = some (codes "{\"permissions\":{\"metadata\":\"read\"}}");
}

unfoldable pub token_request : Config → Bytes → ℕ → HttpRequest
token_request cfg jwt repo_id = record {
  method = post;
  url = access_tokens_url cfg;
  bearer = jwt;
  body = some (
      codes "{\"repository_ids\":["
      ++ (decimal repo_id
          ++ codes "],\"permissions\":{\"contents\":\"write\",\"metadata\":\"read\"}}"));
}

unfoldable pub revoke_request : Config → Bytes → HttpRequest
revoke_request cfg token = record {
  method = delete;
  url = cfg.api_base ++ codes "/installation/token";
  bearer = token;
  body = none;
}
