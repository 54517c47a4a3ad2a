-- ===== src/Github/Tokens.antt =====
-- The tokens that the provider caches: each passes `Response::new` again.
use symbolon.Prelude.{
  ℕ, ◌≡◌, ap, subst, inl, inr, arith, ◌==◌, Bool-cases, Option-cases, Bytes, ok, ◌>>=◌,
  Result-cases,
}
use symbolon.GitCredential
use symbolon.GitCredential.{Response, SystemTime, since_epoch, is_pre_epoch}
use symbolon.GitCredential.Emit.{Plain, new-eq-ok_iff}
use symbolon.Github.Errors.{Decode}
use symbolon.Github.Responses.{
  HttpResponse, MintOutcome, parse_mint_response, into_outcome, on_token,
}
use symbolon.Github.Calls.{Config, CallWorld, race, run_call, sign_jwt_now, built, token_request}
use symbolon.Github.Caches.{text_eq, access_token_user}
use symbolon.Github.Mint.{mint_token}

-- A response of a token: its user name is the provider's, its password has no NUL, CR and LF, and its
-- expiry is a whole second behind the epoch.
pub record IsTokenResponse (r : Response) : Type 0 where
  pub user : r.username ≡ access_token_user
  pub plain : Plain r.password
  pub secs : ℕ
  pub whole : r.password_expiry_utc ≡ since_epoch secs 0

into_outcome-IsTokenResponse :
    (resp : HttpResponse) (token : Bytes) (secs : ℕ) (o : MintOutcome)
    → into_outcome resp token (since_epoch secs 0) ≡ ok o
    → IsTokenResponse o.response
unfolding into_outcome
into_outcome-IsTokenResponse resp token secs o h =
    elim (Result-cases (GitCredential.new access_token_user token (since_epoch secs 0))) [
      | inr (e, refused) ↦ absurd (ground arith)
      | inl (r, made) ↦
          let parts = (new-eq-ok_iff access_token_user token (since_epoch secs 0) r).0 made in
          let same : r ≡ o.response = ground arith in
          subst IsTokenResponse same (record {
            user = ap (λ (x : Response). x.username) parts.3;
            plain = rw (parts.3) parts.1;
            secs = secs;
            whole = ap (λ (x : Response). x.password_expiry_utc) parts.3;
          })
    ]

module _ (d : Decode) where
  parse_mint_response-whole :
      (bytes : Bytes) (m : Bytes × SystemTime)
      → parse_mint_response d bytes ≡ ok m
      → (secs : ℕ) × (m.1 ≡ since_epoch secs 0)
  unfolding parse_mint_response
  parse_mint_response-whole bytes m h = elim (Option-cases (d.minted bytes)) [
    | inl none_read ↦ absurd (ground arith)
    | inr ((token, expires_at), read) ↦ elim (Option-cases (d.rfc3339 expires_at)) [
      | inl bad ↦ absurd (ground arith)
      | inr (secs, good) ↦ (secs, ground arith)
    ]
  ]

  pub on_token-IsTokenResponse :
      (resp : HttpResponse) (o : MintOutcome) → on_token d resp ≡ ok o → IsTokenResponse o.response
  unfolding on_token
  on_token-IsTokenResponse resp o h = elim (Option-cases resp.body) [
    | inl unread ↦ absurd (ground arith)
    | inr (body, read) ↦ elim (Bool-cases (resp.status == 201)) [
      | inr other ↦ absurd (elim (Bool-cases (resp.status == 404)) [
        | inl gone ↦ ground arith
        | inr _ ↦ ground arith
      ])
      | inl created ↦ elim (Result-cases (parse_mint_response d body)) [
        | inr (e, bad) ↦ absurd (ground arith)
        | inl (m, good) ↦
            let (secs, whole) = parse_mint_response-whole body m good in
            into_outcome-IsTokenResponse resp m.0 secs o (ground arith)
      ]
    ]
  ]

  -- A token that `mint_token` returns comes from a response.
  pub mint_token-IsTokenResponse :
      (cfg : Config) (w : CallWorld) (repo_id : ℕ) (o : MintOutcome)
      → (mint_token cfg d w repo_id).0 ≡ ok o
      → IsTokenResponse o.response
  unfolding mint_token run_call
  mint_token-IsTokenResponse cfg w repo_id o h =
      elim (Result-cases (
        race cfg.request_timeout
          (sign_jwt_now cfg w >>= λ jwt. built w (token_request cfg jwt repo_id)) w.reply)) [
            | inr (e, failed) ↦ absurd (ground arith)
            | inl (resp, came) ↦ on_token-IsTokenResponse resp o (ground arith)
          ]
