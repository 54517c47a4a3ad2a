-- ===== src/Github/Minting.antt =====
-- The calls of a mint, as a list of effects, and those of one endpoint.
use symbolon.Prelude.{
  ℕ, true, ◌≢◌, ◌≡◌, refl, sym, subst, ◌⊎◌, inl, inr, Option, none, some, List, [], ◌∷◌, ◌++◌,
  arith, Bool-cases, Bytes, Result, ok, err, ◌>>=◌, bind-eq-ok, Result-cases,
}
use Prim.Native.String.{String}
use symbolon.Strings.{codes, decimal}
use symbolon.JwtBackend
use symbolon.JwtBackend.{JwtClaims}
use symbolon.GitCredential.{SystemTime}
use symbolon.Github.Errors.{GithubError, Decode}
use symbolon.Github.RepoPath.{RepoPath}
use symbolon.Github.Responses.{HttpResponse}
use symbolon.Github.Calls.{
  Config, CallWorld, Effect, provider_call, sends, provider_call_done, HttpRequest, get, post,
  delete, Reply, shut_down, timed_out, send_failed, answered, was_sent, race, run_call,
  sign_jwt_now, built, repo_request, metadata_request, token_request, revoke_request,
}
use symbolon.Github.Mint.{MintWorld, mint_metadata_token, resolve_repo_id}

-- The effects of one call of an endpoint: its event, one request, which satisfies `P`, and the event of
-- its end, or, with an error at the end, no request.
pub data Call (endpoint : String) (P : HttpRequest → Type 0) : List Effect → Type 0 where
  unsent :
      (e : GithubError)
      → Call endpoint P (provider_call endpoint ∷ provider_call_done 0 none (some e) ∷ [])
  whole :
      (request : HttpRequest) (status : ℕ) (id : Option Bytes) (e : Option GithubError)
      → P request
      → Call endpoint P
          (provider_call endpoint ∷ sends request ∷ provider_call_done status id e ∷ [])

-- The request for a token of one repository: exactly this body.
pub record AsksToken (cfg : Config) (repo_id : ℕ) (r : HttpRequest) : Type 0 where
  pub posts : r.method ≡ post
  pub url :
      r.url
      ≡ cfg.api_base
        ++ (codes "/app/installations/" ++ (decimal cfg.installation_id ++ codes "/access_tokens"))
  pub body :
      r.body
      ≡ some (
          codes "{\"repository_ids\":["
          ++ (decimal repo_id
              ++ codes "],\"permissions\":{\"contents\":\"write\",\"metadata\":\"read\"}}"))

-- The request for a token that reads metadata.
pub record AsksMetadata (cfg : Config) (r : HttpRequest) : Type 0 where
  pub posts : r.method ≡ post
  pub url :
      r.url
      ≡ cfg.api_base
        ++ (codes "/app/installations/" ++ (decimal cfg.installation_id ++ codes "/access_tokens"))
  pub body : r.body ≡ some (codes "{\"permissions\":{\"metadata\":\"read\"}}")

-- The lookup of a repository with a token.
pub record LooksUp (cfg : Config) (token : Bytes) (p : RepoPath) (r : HttpRequest) : Type 0 where
  pub gets : r.method ≡ get
  pub url : r.url ≡ cfg.api_base ++ (codes "/repos/" ++ (p.owner ++ (codes "/" ++ p.repo)))
  pub bearer : r.bearer ≡ token
  pub body : r.body ≡ none

-- The revocation of a token.
pub record Revokes (cfg : Config) (token : Bytes) (r : HttpRequest) : Type 0 where
  pub deletes : r.method ≡ delete
  pub url : r.url ≡ cfg.api_base ++ codes "/installation/token"
  pub bearer : r.bearer ≡ token
  pub body : r.body ≡ none

-- The bearer is a token that the signing backend made of claims of the client, issued by the clock.
abbrev pub SignedBy : Config → CallWorld → HttpRequest → Type 0
SignedBy cfg w r =
    (claims : JwtClaims) × (claims.iss ≡ cfg.client_id) × (w.sign claims ≡ ok r.bearer)

-- The calls of one mint of a repository: none; that of the token alone, for one repository id; the
-- call for a metadata token that fails; or this call and, with the token it got, the lookup and
-- the revocation, and behind them no call or that of the token for the id that was found.
pub data Minting (cfg : Config) (d : Decode) (w : MintWorld) (p : RepoPath)
    : List Effect → Type 0 where
  quiet : Minting cfg d w p []
  minting :
      {token : List Effect} (repo_id : ℕ)
      → Call "mint_token" (λ r. AsksToken cfg repo_id r × SignedBy cfg w.token r) token
      → Minting cfg d w p token
  refused :
      {metadata : List Effect} (e : GithubError)
      → (mint_metadata_token cfg d w.metadata).0 ≡ err e
      → Call "mint_metadata_token" (λ r. AsksMetadata cfg r × SignedBy cfg w.metadata r) metadata
      → Minting cfg d w p metadata
  looking_up :
      {metadata repo revoke token : List Effect} (scratch : Bytes) (expires : SystemTime)
      (repo_id : ℕ)
      → (mint_metadata_token cfg d w.metadata).0 ≡ ok (scratch, expires)
      → Call "mint_metadata_token" (λ r. AsksMetadata cfg r × SignedBy cfg w.metadata r) metadata
      → Call "resolve_repo_id" (LooksUp cfg scratch p) repo
      → Call "revoke_install_token" (Revokes cfg scratch) revoke
      → (token ≡ [])
        ⊎ (((resolve_repo_id cfg d w.repo scratch p).0 ≡ ok repo_id)
            × Call "mint_token" (λ r. AsksToken cfg repo_id r × SignedBy cfg w.token r) token)
      → Minting cfg d w p ((metadata ++ (repo ++ revoke)) ++ token)

-- An answer comes only to a request that was built and sent.
race-was_sent :
    (limit : ℕ) (build : Result HttpRequest GithubError) (reply : Reply) (resp : HttpResponse)
    → race limit build reply ≡ ok resp
    → (was_sent reply ≡ true) × ((b : GithubError) → build ≢ err b)
unfolding race was_sent
race-was_sent limit build (shut_down b) resp h = absurd (ground arith)
race-was_sent limit build (timed_out b) resp h = absurd (ground arith)
race-was_sent limit build send_failed resp h = (refl, λ b q. ground arith)
race-was_sent limit build (answered r) resp h = (refl, λ b q. ground arith)

pub run_call-Call :
    {T : Type 0} (P : HttpRequest → Type 0) (endpoint : String) (limit : ℕ)
    (build : Result HttpRequest GithubError) (reply : Reply)
    (handle : HttpResponse → Result T GithubError)
    → ((request : HttpRequest) → build ≡ ok request → P request)
    → Call endpoint P (run_call endpoint limit build reply handle).1
unfolding run_call
run_call-Call P endpoint limit (ok request) reply handle p =
    elim (Result-cases (race limit (ok request) reply)) [
      | inl (resp, came) ↦
          rw (came, (race-was_sent limit (ok request) reply resp came).0, run_call)
            (whole request resp.status resp.request_id none (p request refl))
      | inr (e, failed) ↦ elim (Bool-cases (was_sent reply)) [
        | inl out ↦ rw (failed, out, run_call) (whole request 0 none (some e) (p request refl))
        | inr kept ↦ rw (failed, kept, run_call) (unsent e)
      ]
    ]
run_call-Call P endpoint limit (err b) reply handle p =
    elim (Result-cases (race limit (err b) reply)) [
      | inl (resp, came) ↦ absurd ((race-was_sent limit (err b) reply resp came).1 b refl)
      | inr (e, failed) ↦ rw (failed, run_call) (unsent e)
    ]

built-eq-ok : (w : CallWorld) (request r : HttpRequest) → built w request ≡ ok r → r ≡ request
unfolding built
built-eq-ok w request r h = ground arith

-- A request made of a token that is signed now.
signed-eq-ok :
    (cfg : Config) (w : CallWorld) (make : Bytes → HttpRequest) (r : HttpRequest)
    → (sign_jwt_now cfg w >>= λ jwt. built w (make jwt)) ≡ ok r
    → (jwt : Bytes) × (r ≡ make jwt)
      × ((claims : JwtClaims) × (claims.iss ≡ cfg.client_id) × (w.sign claims ≡ ok jwt))
unfolding sign_jwt_now JwtBackend.new
signed-eq-ok cfg w make r h =
    let (jwt, signed, made) = bind-eq-ok (sign_jwt_now cfg w) (λ jwt. built w (make jwt)) h in
    let claims = JwtBackend.new w.clock cfg.client_id in
    let by : w.sign claims ≡ ok jwt = elim (Result-cases (w.sign claims)) [
      | inl (t, made) ↦ ground arith
      | inr (e, failed) ↦ absurd (ground arith)
    ] in
    (jwt, built-eq-ok w (make jwt) r made, (claims, refl, by))

pub token-AsksToken :
    (cfg : Config) (w : CallWorld) (repo_id : ℕ) (r : HttpRequest)
    → (sign_jwt_now cfg w >>= λ jwt. built w (token_request cfg jwt repo_id)) ≡ ok r
    → AsksToken cfg repo_id r × SignedBy cfg w r
unfolding token_request
token-AsksToken cfg w repo_id r h =
    let (jwt, same, signed) = signed-eq-ok cfg w (λ jwt. token_request cfg jwt repo_id) r h in
    subst (λ r. AsksToken cfg repo_id r × SignedBy cfg w r) (sym same)
      (record { posts = refl; url = refl; body = refl }, signed)

pub metadata-AsksMetadata :
    (cfg : Config) (w : CallWorld) (r : HttpRequest)
    → (sign_jwt_now cfg w >>= λ jwt. built w (metadata_request cfg jwt)) ≡ ok r
    → AsksMetadata cfg r × SignedBy cfg w r
unfolding metadata_request
metadata-AsksMetadata cfg w r h =
    let (jwt, same, signed) = signed-eq-ok cfg w (λ jwt. metadata_request cfg jwt) r h in
    subst (λ r. AsksMetadata cfg r × SignedBy cfg w r) (sym same)
      (record { posts = refl; url = refl; body = refl }, signed)

pub repo-LooksUp :
    (cfg : Config) (w : CallWorld) (token : Bytes) (p : RepoPath) (r : HttpRequest)
    → built w (repo_request cfg token p) ≡ ok r
    → LooksUp cfg token p r
unfolding repo_request
repo-LooksUp cfg w token p r h =
    subst (LooksUp cfg token p) (sym (built-eq-ok w (repo_request cfg token p) r h))
      (record { gets = refl; url = refl; bearer = refl; body = refl })

pub revoke-Revokes :
    (cfg : Config) (w : CallWorld) (token : Bytes) (r : HttpRequest)
    → built w (revoke_request cfg token) ≡ ok r
    → Revokes cfg token r
unfolding revoke_request
revoke-Revokes cfg w token r h =
    subst (Revokes cfg token) (sym (built-eq-ok w (revoke_request cfg token) r h))
      (record { deletes = refl; url = refl; bearer = refl; body = refl })
