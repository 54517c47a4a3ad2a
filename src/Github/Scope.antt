-- ===== src/Github/Scope.antt =====
-- Which calls a mint makes, in which order, and what each asks for.
use symbolon.Prelude.{
  ℕ, ◌≡◌, refl, sym, ◌∙◌, subst, ◌⊎◌, inl, inr, List, [], ◌++◌, append-nil, arith, Bytes, ok, err,
  Result-cases,
}
use symbolon.GitCredential.{SystemTime}
use symbolon.Singleflight.{Claim, hit, wait, resolve}
use symbolon.Github.Errors.{GithubError, Decode}
use symbolon.Github.RepoPath
use symbolon.Github.RepoPath.{RepoPath, cache_key}
use symbolon.Github.Calls.{Config, Effect}
use symbolon.Github.Caches.{Caches, Looked, cached, panics, missed, look, claim_repo, resolved}
use symbolon.Github.Mint.{
  MintWorld, mint_metadata_token, resolve_repo_id, revoke_install_token, mint_token,
  with_metadata_token, resolve_id, mint_repo, mint_resolved, mint_missed, mint,
}
use symbolon.Github.Minting.{
  Call, Minting, quiet, minting, refused, looking_up, run_call-Call, AsksToken, AsksMetadata,
  LooksUp, Revokes, SignedBy, token-AsksToken, metadata-AsksMetadata, repo-LooksUp, revoke-Revokes,
}

module _ (cfg : Config) (d : Decode) (w : MintWorld) where
  mint_repo-Minting :
      (key : Bytes) (repo_id : ℕ) (c : Caches)
      → Call "mint_token"
          (λ r. AsksToken cfg repo_id r × SignedBy cfg w.token r)
          (mint_repo cfg d w key repo_id c).2
  unfolding mint_repo mint_token
  mint_repo-Minting key repo_id c =
      run_call-Call _ _ _ _ _ _ (λ r. token-AsksToken cfg w.token repo_id r)

  -- The lookup of the repository: the call for the metadata token alone, or with it the lookup and
  -- the revocation.
  record LookedUp (effects metadata repo revoke : List Effect) (scratch : Bytes) (p : RepoPath)
      : Type 0 where
    expires : SystemTime
    got : (mint_metadata_token cfg d w.metadata).0 ≡ ok (scratch, expires)
    same : (resolve_id cfg d w p).0 ≡ (resolve_repo_id cfg d w.repo scratch p).0
    all : effects ≡ metadata ++ (repo ++ revoke)
    minted :
        Call "mint_metadata_token" (λ r. AsksMetadata cfg r × SignedBy cfg w.metadata r) metadata
    found : Call "resolve_repo_id" (LooksUp cfg scratch p) repo
    revoked : Call "revoke_install_token" (Revokes cfg scratch) revoke

  metadata-Call :
      Call "mint_metadata_token"
        (λ r. AsksMetadata cfg r × SignedBy cfg w.metadata r)
        (mint_metadata_token cfg d w.metadata).1
  unfolding mint_metadata_token
  metadata-Call = run_call-Call _ _ _ _ _ _ (λ r. metadata-AsksMetadata cfg w.metadata r)

  resolve_id-cases :
      (p : RepoPath)
      → ((e : GithubError) × ((resolve_id cfg d w p).0 ≡ err e)
          × ((mint_metadata_token cfg d w.metadata).0 ≡ err e)
          × ((resolve_id cfg d w p).1 ≡ (mint_metadata_token cfg d w.metadata).1))
        ⊎ ((repo : List Effect) × (revoke : List Effect) × (scratch : Bytes) × LookedUp
              (resolve_id cfg d w p).1
              (mint_metadata_token cfg d w.metadata).1
              repo
              revoke
              scratch
              p)
  unfolding resolve_id with_metadata_token resolve_repo_id revoke_install_token
  resolve_id-cases p = elim (Result-cases (mint_metadata_token cfg d w.metadata).0) [
    | inr (e, failed) ↦ inl (
      e,
      rw (failed, resolve_id, with_metadata_token) refl,
      failed,
      rw (failed, resolve_id, with_metadata_token) refl,
    )
    | inl ((scratch, expires), made) ↦ inr (
      (resolve_repo_id cfg d w.repo scratch p).1,
      (revoke_install_token cfg d w.revoke scratch).1,
      scratch,
      record {
        expires = expires;
        got = made;
        same = rw (made, resolve_id, with_metadata_token) refl;
        all = rw (made, resolve_id, with_metadata_token) refl;
        minted = metadata-Call;
        found = run_call-Call _ _ _ _ _ _ (λ r. repo-LooksUp cfg w.repo scratch p r);
        revoked = run_call-Call _ _ _ _ _ _ (λ r. revoke-Revokes cfg w.revoke scratch r);
      },
    )
  ]

  -- The calls of a lookup that ended, and behind them those of the token.
  looked_up-Minting :
      (p : RepoPath) (repo_id : ℕ) (token : List Effect)
      → (token ≡ [])
        ⊎ (((resolve_id cfg d w p).0 ≡ ok repo_id)
            × Call "mint_token" (λ r. AsksToken cfg repo_id r × SignedBy cfg w.token r) token)
      → Minting cfg d w p ((resolve_id cfg d w p).1 ++ token)
  looked_up-Minting p repo_id token behind = elim (resolve_id-cases p) [
    | inl (e, failed, no_token, alone) ↦ elim behind [
      | inl nothing ↦
          rw (alone, nothing, append-nil (mint_metadata_token cfg d w.metadata).1)
            (refused e no_token metadata-Call)
      | inr (found, more) ↦ absurd (ground arith)
    ]
    | inr (repo, revoke, scratch, l) ↦ rw (l.all) (
        looking_up scratch l.expires repo_id l.got l.minted l.found l.revoked (elim behind [
          | inl nothing ↦ inl nothing
          | inr (found, more) ↦ inr (sym l.same ∙ found, more)
        ]))
  ]

  mint_resolved-Minting :
      (key : Bytes) (p : RepoPath) (ev : ℕ) (c : Caches)
      → Minting cfg d w p (mint_resolved cfg d w key p ev c).2
  unfolding mint_resolved
  mint_resolved-Minting key p ev c = elim (Result-cases (resolve_id cfg d w p).0) [
    | inl (repo_id, found) ↦
        rw (found, mint_resolved)
          (looked_up-Minting p repo_id _ (
            inr
              (found, mint_repo-Minting key repo_id (resolved key ev (resolve_id cfg d w p).0 c))))
    | inr (e, failed) ↦
        rw (failed, mint_resolved)
          (subst (Minting cfg d w p) (append-nil _) (looked_up-Minting p 0 [] (inl refl)))
  ]

  mint_missed-Minting :
      (key : Bytes) (p : RepoPath) (c : Caches) → Minting cfg d w p (mint_missed cfg d w key p c).2
  unfolding mint_missed
  mint_missed-Minting key p c = go (claim_repo key c).1 refl
    where
      go :
          (r : Claim ℕ)
          → (claim_repo key c).1 ≡ r
          → Minting cfg d w p (mint_missed cfg d w key p c).2
      go (hit repo_id) q =
          rw (q, mint_missed) (minting repo_id (mint_repo-Minting key repo_id (claim_repo key c).0))
      go (wait ev) q = rw (q, mint_missed) quiet
      go (resolve ev) q = rw (q, mint_missed) (mint_resolved-Minting key p ev (claim_repo key c).0)

  -- Whatever the provider, the signing backend and the caches answer, a mint of a path `owner/repo`
  -- makes the calls that `Minting` lists and no others, of each at most one: the token is asked for
  -- with a body of exactly one repository id, that of the lookup if there was one, and the permissions
  -- `contents: write` and `metadata: read`; a metadata token that it gets, of a request for
  -- `metadata: read` alone, is the bearer of the lookup of this owner and repository, and then of its
  -- own revocation, however the lookup ends. The bearers of the requests for tokens are what the
  -- signing backend made of claims of the client.
  pub mint-Minting :
      (path : Bytes) (p : RepoPath) (c : Caches)
      → RepoPath.parse path ≡ ok p
      → Minting cfg d w p (mint cfg d w path c).2
  unfolding mint
  mint-Minting path p c parsed = go (look w.looked_at (cache_key p) c).1 refl
    where
      go :
          (r : Looked)
          → (look w.looked_at (cache_key p) c).1 ≡ r
          → Minting cfg d w p (mint cfg d w path c).2
      go (cached response) q = rw (parsed, q, mint) quiet
      go panics q = rw (parsed, q, mint) quiet
      go missed q =
          rw (parsed, q, mint)
            (mint_missed-Minting (cache_key p) p (look w.looked_at (cache_key p) c).0)
