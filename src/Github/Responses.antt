-- ===== src/Github/Responses.antt =====
-- What the endpoints of src/providers/github.rs make of a response.
use symbolon.Prelude.{
  ℕ, ◌+◌, ◌-◌, ◌*◌, ◌^◌, Bool, ◌&&◌, ◌||◌, Option, none, some, [], ◌∷◌, ltb, leb, ◌==◌,
  if◌then◌else◌, Bytes, bytes_eq, Result, ok, err, ◌>>=◌, map_err, ok_or,
}
use symbolon.Strings.{codes}
use symbolon.GitCredential
use symbolon.GitCredential.{Response, SystemTime, since_epoch}
use symbolon.Github.Errors.{
  GithubError, parse_response, client_id_mismatch, repo_not_found, http, Decode, from_common_status,
}

-- A response: its status, the texts of the headers `retry-after` and `x-github-request-id`, none if
-- absent or not text, and its body, none if it cannot be read.
pub record HttpResponse : Type 0 where
  pub status : ℕ
  pub retry_after : Option Bytes
  pub request_id : Option Bytes
  pub body : Option Bytes

-- `MintOutcome`, without the ids of the request
pub record MintOutcome : Type 0 where
  pub response : Response
  pub provider_req_id : Option Bytes

abbrev pub is_space : ℕ → Bool
is_space b = b == b' ' || leb 9 b && leb b 13

unfoldable pub trim_start : Bytes → Bytes
trim_start [] = []
trim_start (b ∷ bs) = let rest = trim_start bs in if is_space b then rest else b ∷ bs

unfoldable pub trim_end : Bytes → Bytes
trim_end [] = []
trim_end (b ∷ bs) =
    let rest = trim_end bs in if is_space b && bytes_eq rest [] then [] else b ∷ rest

-- the digits of `parse::<u64>()`, behind the number `n` that is read already
unfoldable pub parse_digits : ℕ → Bytes → Option ℕ
parse_digits n [] = some n
parse_digits n (b ∷ bs) =
    if leb b'0' b && leb b b'9' && ltb (n * 10 + (b - b'0')) (2 ^ 64)
    then parse_digits (n * 10 + (b - b'0')) bs
    else none

-- `parse::<u64>()`: digits, at least one, behind a `+` or none
unfoldable pub parse_u64 : Bytes → Option ℕ
unfolding parse_digits
parse_u64 [] = none
parse_u64 (b ∷ bs) =
    if b == b'+'
    then (if bytes_eq bs [] then none else parse_digits 0 bs)
    else parse_digits 0 (b ∷ bs)

unfoldable pub read_retry_after : HttpResponse → Option ℕ
unfolding trim_start trim_end parse_u64
read_retry_after resp = elim resp.retry_after [
  | none ↦ none
  | some s ↦ parse_u64 (trim_start (trim_end s))
]

unfoldable pub parse_mint_response : Decode → Bytes → Result (Bytes × SystemTime) GithubError
parse_mint_response d bytes = elim (d.minted bytes) [
  | none ↦ err (parse_response "mint" "json")
  | some (token, expires_at) ↦ elim (d.rfc3339 expires_at) [
    | none ↦ err (parse_response "mint" "bad expires_at")
    | some secs ↦ ok (token, since_epoch secs 0)
  ]
]

unfoldable pub check_app_identity : Decode → Bytes → Bytes → Result (Unit {0}) GithubError
check_app_identity d body expected = elim (d.app body) [
  | none ↦ err (parse_response "selfcheck" "json")
  | some client_id ↦
      if bytes_eq client_id expected then ok tt else err (client_id_mismatch expected client_id)
]

-- `resp.bytes().await?`
abbrev pub read_body : HttpResponse → Result Bytes GithubError
read_body resp = ok_or resp.body http

-- the closure of `selfcheck`, without its report
unfoldable pub on_selfcheck : Decode → Bytes → HttpResponse → Result (Unit {0}) GithubError
unfolding check_app_identity from_common_status read_retry_after
on_selfcheck d client_id resp = do
  body ← read_body resp
  if resp.status == 200
      then check_app_identity d body client_id
      else err (from_common_status d resp.status body (read_retry_after resp))

-- the closure of `resolve_repo_id`
unfoldable pub on_repo : Decode → HttpResponse → Result ℕ GithubError
unfolding from_common_status read_retry_after
on_repo d resp = do
  body ← read_body resp
  if resp.status == 200
      then ok_or (d.repo body) (parse_response "repo" "json")
      else if resp.status == 404
      then err repo_not_found
      else err (from_common_status d resp.status body (read_retry_after resp))

-- the closure of `mint_metadata_token`
unfoldable pub on_metadata_token : Decode → HttpResponse → Result (Bytes × SystemTime) GithubError
unfolding parse_mint_response from_common_status read_retry_after
on_metadata_token d resp = do
  body ← read_body resp
  if resp.status == 201
      then parse_mint_response d body
      else err (from_common_status d resp.status body (read_retry_after resp))

-- `Response::new` of the token, in `mint_token`
unfoldable pub into_outcome : HttpResponse → Bytes → SystemTime → Result MintOutcome GithubError
unfolding GitCredential.new
into_outcome resp token expires_at = do
  response ←
      map_err (λ _. parse_response "mint" "invalid token or expiry from GitHub")
        (GitCredential.new (codes "x-access-token") token expires_at)
  ok (record { response = response; provider_req_id = resp.request_id })

-- the closure of `mint_token`
unfoldable pub on_token : Decode → HttpResponse → Result MintOutcome GithubError
unfolding parse_mint_response into_outcome from_common_status read_retry_after
on_token d resp = do
  body ← read_body resp
  if resp.status == 201
      then (do minted ← parse_mint_response d body; into_outcome resp minted.0 minted.1)
      else if resp.status == 404
      then err repo_not_found
      else err (from_common_status d resp.status body (read_retry_after resp))

-- the closure of `revoke_install_token`
unfoldable pub on_revoked : Decode → HttpResponse → Result (Unit {0}) GithubError
unfolding from_common_status read_retry_after
on_revoked d resp =
    if resp.status == 204
    then ok tt
    else err (
        from_common_status d resp.status (elim resp.body [ none ↦ [] | some body ↦ body ])
          (read_retry_after resp))
