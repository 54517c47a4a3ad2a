-- ===== src/Github/Mint.antt =====
-- `GitHubProvider::mint` and the calls it makes: src/providers/github.rs.
use symbolon.Prelude.{ℕ, none, List, [], ◌++◌, Bytes, Result, ok, err, ◌>>=◌}
use symbolon.GitCredential.{SystemTime}
use symbolon.Singleflight.{Event, hit, wait, resolve}
use symbolon.Github.Errors.{GithubError, Decode}
use symbolon.Github.RepoPath
use symbolon.Github.RepoPath.{RepoPath, cache_key}
use symbolon.Github.Responses.{
  MintOutcome, on_selfcheck, on_repo, on_metadata_token, on_token, on_revoked,
}
use symbolon.Github.Calls.{
  Config, CallWorld, Effect, run_call, sign_jwt_now, built, selfcheck_request, repo_request,
  metadata_request, token_request, revoke_request,
}
use symbolon.Github.Caches.{Caches, cached, panics, missed, look, claim_repo, resolved, settle}

module _ (cfg : Config) (d : Decode) where
  unfoldable pub selfcheck : CallWorld → Result (Unit {0}) GithubError × List Effect
  unfolding run_call sign_jwt_now built selfcheck_request on_selfcheck
  selfcheck w =
      run_call "selfcheck" cfg.selfcheck_timeout
        (sign_jwt_now cfg w >>= λ jwt. built w (selfcheck_request cfg jwt)) w.reply
        (on_selfcheck d cfg.client_id)

  unfoldable pub resolve_repo_id : CallWorld → Bytes → RepoPath → Result ℕ GithubError × List Effect
  unfolding run_call built repo_request on_repo
  resolve_repo_id w install_token p =
      run_call "resolve_repo_id" cfg.request_timeout (built w (repo_request cfg install_token p))
        w.reply (on_repo d)

  unfoldable pub mint_metadata_token :
      CallWorld → Result (Bytes × SystemTime) GithubError × List Effect
  unfolding run_call sign_jwt_now built metadata_request on_metadata_token
  mint_metadata_token w =
      run_call "mint_metadata_token" cfg.request_timeout
        (sign_jwt_now cfg w >>= λ jwt. built w (metadata_request cfg jwt)) w.reply
        (on_metadata_token d)

  unfoldable pub mint_token : CallWorld → ℕ → Result MintOutcome GithubError × List Effect
  unfolding run_call sign_jwt_now built token_request on_token
  mint_token w repo_id =
      run_call "mint_token" cfg.request_timeout
        (sign_jwt_now cfg w >>= λ jwt. built w (token_request cfg jwt repo_id)) w.reply (on_token d)

  unfoldable pub revoke_install_token :
      CallWorld → Bytes → Result (Unit {0}) GithubError × List Effect
  unfolding run_call built revoke_request on_revoked
  revoke_install_token w token =
      run_call "revoke_install_token" cfg.request_timeout (built w (revoke_request cfg token))
        w.reply (on_revoked d)

  -- `metadata` answers the call that mints the token, `revoke` the one that revokes it.
  unfoldable pub with_metadata_token :
      {T : Type 0}
      → CallWorld
      → CallWorld
      → (Bytes → Result T GithubError × List Effect)
      → Result T GithubError × List Effect
  unfolding mint_metadata_token revoke_install_token
  with_metadata_token metadata revoke work =
      let (minted, effects) = mint_metadata_token metadata in
      elim minted [
        | err e ↦ (err e, effects)
        | ok (token, expires) ↦
            let (result, used) = work token in
            let (ignored, revoked) = revoke_install_token revoke token in
            (result, effects ++ (used ++ revoked))
      ]

-- What the world answers to a mint: the clock at the lookup, the four calls, the clock at the end.
pub record MintWorld : Type 0 where
  pub looked_at : ℕ
  pub metadata : CallWorld
  pub repo : CallWorld
  pub revoke : CallWorld
  pub token : CallWorld
  pub settled_at : ℕ

-- A mint answers, or it waits for another that resolves the same repository, or it panics.
pub data MintEnd : Type 0 where
  answers : Result MintOutcome GithubError → MintEnd
  waits : Event → MintEnd
  stops : MintEnd

module _ (cfg : Config) (d : Decode) (w : MintWorld) where
  -- the closure that `mint` hands to `repo_ids.with`
  unfoldable pub resolve_id : RepoPath → Result ℕ GithubError × List Effect
  unfolding with_metadata_token resolve_repo_id
  resolve_id p =
      with_metadata_token cfg d w.metadata w.revoke (λ t. resolve_repo_id cfg d w.repo t p)

  -- `mint` from the id of the repository on
  unfoldable pub mint_repo : Bytes → ℕ → Caches → Caches × MintEnd × List Effect
  unfolding mint_token settle
  mint_repo key repo_id c =
      let (outcome, effects) = mint_token cfg d w.token repo_id in
      (settle w.settled_at key outcome c, answers outcome, effects)

  -- `mint` of a task that resolves the repository
  unfoldable pub mint_resolved : Bytes → RepoPath → Event → Caches → Caches × MintEnd × List Effect
  unfolding resolve_id resolved mint_repo
  mint_resolved key p ev c =
      let (found, effects) = resolve_id p in
      let c1 = resolved key ev found c in
      elim found [
        | err e ↦ (c1, answers (err e), effects)
        | ok repo_id ↦ let (c2, end, more) = mint_repo key repo_id c1 in (c2, end, effects ++ more)
      ]

  -- `mint` behind a miss of the token cache
  unfoldable pub mint_missed : Bytes → RepoPath → Caches → Caches × MintEnd × List Effect
  unfolding claim_repo mint_repo mint_resolved
  mint_missed key p c =
      let (c1, claimed) = claim_repo key c in
      elim claimed [
        | hit repo_id ↦ mint_repo key repo_id c1
        | wait ev ↦ (c1, waits ev, [])
        | resolve ev ↦ mint_resolved key p ev c1
      ]

  -- `mint` while no other task touches the caches
  unfoldable pub mint : Bytes → Caches → Caches × MintEnd × List Effect
  unfolding RepoPath.parse cache_key look mint_missed
  mint path c = elim (RepoPath.parse path) [
    | err e ↦ (c, answers (err e), [])
    | ok p ↦
        let key = cache_key p in
        let (c1, looked) = look w.looked_at key c in
        elim looked [
          | cached response ↦
              (c1, answers (ok (record { response = response; provider_req_id = none })), [])
          | panics ↦ (c1, stops, [])
          | missed ↦ mint_missed key p c1
        ]
  ]
