-- ===== src/Github/After.antt =====
-- What a mint leaves in the provider's caches, and what the next one makes of it.
use symbolon.Prelude.{
  ℕ, ◌≡◌, refl, sym, ap, ap₂, ◌∙◌, subst, ◌⊎◌, inl, inr, none, some, List, arith, Option-cases,
  Bytes, bytes_eq_refl, ok, err, Result-cases,
}
use symbolon.Prelude.Assoc
use symbolon.Prelude.Assoc.{lookup-remove, beq_refl}
use symbolon.TtlCache
use symbolon.TtlCache.{TtlCache, get_with_expiry}
use symbolon.TtlCache.Refines.{lookup-insert_key}
use symbolon.Singleflight
use symbolon.Singleflight.{Event, Claim, hit, wait, resolve, claim}
use symbolon.GitCredential.{Response, since_epoch}
use symbolon.GitCredential.Emit.{Plain}
use symbolon.Github.Errors.{GithubError, Decode, repo_not_found}
use symbolon.Github.RepoPath
use symbolon.Github.RepoPath.{RepoPath, cache_key}
use symbolon.Github.Calls.{Config}
use symbolon.Github.Caches.{
  text_eq, text_le, Caches, to_nanos, from_nanos, access_token_user, missed, reuse, look,
  claim_repo, resolved, forget, keep, settle,
}
use symbolon.Github.Mint.{
  MintWorld, MintEnd, answers, mint_token, resolve_id, mint_repo, mint_resolved, mint_missed, mint,
}
use symbolon.Github.Tokens.{IsTokenResponse, mint_token-IsTokenResponse}
use symbolon.Github.Cached.{
  IsSound, resolved-token_cache, Reach, Reach-IsSound, get_with_expiry-IsSound, insert-IsSound,
  reuse-some,
}

-- The token cache holds the token of the response.
pub record HasToken (key : Bytes) (c : Caches) (r : Response) : Type 0 where
  pub sound : IsSound c.token_cache
  pub held :
      Assoc.lookup key c.token_cache.entries ≡ some (r.password, to_nanos r.password_expiry_utc)
  pub same : r ≡ record {
    username = access_token_user;
    password = r.password;
    password_expiry_utc = from_nanos (to_nanos r.password_expiry_utc);
  }
  pub plain : Plain r.password

-- Neither cache knows the repository.
pub record IsForgotten (key : Bytes) (c : Caches) : Type 0 where
  pub no_id : Assoc.lookup key c.repo_ids.entries ≡ none
  pub no_token : Assoc.lookup key c.token_cache.entries ≡ none

-- What is so behind a mint, by its end.
unfoldable pub After : Bytes → Caches → MintEnd → Type 0
After key c (answers (ok outcome)) = HasToken key c outcome.response
After key c (answers (err repo_not_found)) = IsForgotten key c
After key c _ = Unit

to_nanos-from_nanos : (t : ℕ) → to_nanos (from_nanos t) ≡ t
unfolding to_nanos from_nanos
to_nanos-from_nanos t = omega arith

from_nanos-to_nanos : (secs : ℕ) → from_nanos (to_nanos (since_epoch secs 0)) ≡ since_epoch secs 0
unfolding to_nanos from_nanos
from_nanos-to_nanos secs = ap₂ since_epoch (omega arith) (omega arith)

lookup-remove_self :
    {V : Type 0} (key : Bytes) (m : List (Bytes × V)) → Assoc.lookup key (Assoc.remove key m) ≡ none
lookup-remove_self key m = ground (arith, lookup-remove key key m, bytes_eq_refl key)

forget-IsForgotten : (key : Bytes) (c : Caches) → IsForgotten key (forget key c)
unfolding forget Singleflight.invalidate TtlCache.invalidate
forget-IsForgotten key c = record {
  no_id = lookup-remove_self key c.repo_ids.entries;
  no_token = lookup-remove_self key c.token_cache.entries;
}

keep-HasToken :
    (now : ℕ) (key : Bytes) (r : Response) (c : Caches)
    → IsSound c.token_cache
    → IsTokenResponse r
    → HasToken key (keep now key r c) r
unfolding keep
keep-HasToken now key r c sound is =
    let expiry : r.password_expiry_utc ≡ from_nanos (to_nanos r.password_expiry_utc) =
      rw (is.whole) (sym (from_nanos-to_nanos is.secs)) in
    record {
      sound =
          insert-IsSound c.token_cache sound now key r.password (to_nanos r.password_expiry_utc)
            is.plain;
      held = ground (
        arith,
        lookup-insert_key c.token_cache sound.valid text_le now key r.password
            (to_nanos r.password_expiry_utc) key,
        bytes_eq_refl key,
      );
      same = λ i. record {
        username = is.user i;
        password = r.password;
        password_expiry_utc = expiry i;
      };
      plain = is.plain;
    }

settle-err-After :
    (now : ℕ) (key : Bytes) (e : GithubError) (c : Caches)
    → After key (settle now key (err e) c) (answers (err e))
unfolding After settle
settle-err-After now key repo_not_found c = forget-IsForgotten key c
settle-err-After now key _ c = tt

-- What a lookup finds stays in the cache; it is a token to use again.
look-cases :
    (now : ℕ) (key : Bytes) (c : Caches)
    → IsSound c.token_cache
    → ((Assoc.lookup key (look now key c).0.token_cache.entries ≡ none)
        × ((look now key c).1 ≡ missed))
      ⊎ ((token : Bytes) × (t : ℕ) × (Assoc.lookup key (look now key c).0.token_cache.entries
            ≡ some (token, t))
          × Plain token
          × ((look now key c).1 ≡ reuse (some (token, t))))
unfolding look get_with_expiry
look-cases now key c sound =
    let after = get_with_expiry-IsSound c.token_cache sound now key in
    elim (Option-cases (Assoc.lookup key (get_with_expiry now key c.token_cache).0.entries)) [
      | inl absent ↦ inl (absent, rw absent (unfold reuse in refl))
      | inr ((token, t), found) ↦
          inr (token, t, found, after.plain key token t found, ap reuse found)
    ]

resolved-After :
    (key : Bytes) (ev : Event) (e : GithubError) (c : Caches)
    → Assoc.lookup key c.token_cache.entries ≡ none
    → After key (resolved key ev (err e) c) (answers (err e))
unfolding After resolved Singleflight.drop_guard Singleflight.guard_new Singleflight.release_failed
resolved-After key ev repo_not_found c absent = record {
  no_id = lookup-remove_self key c.repo_ids.entries;
  no_token = absent;
}
resolved-After key ev _ c absent = tt

module _ (cfg : Config) (d : Decode) (w : MintWorld) where
  mint_repo-After :
      (key : Bytes) (repo_id : ℕ) (c : Caches)
      → IsSound c.token_cache
      → let (c1, end, effects) = mint_repo cfg d w key repo_id c in After key c1 end
  unfolding mint_repo
  mint_repo-After key repo_id c sound = elim (Result-cases (mint_token cfg d w.token repo_id).0) [
    | inl (o, minted) ↦ rw (minted) (
        unfold After settle in
        keep-HasToken w.settled_at key o.response c sound
          (mint_token-IsTokenResponse d cfg w.token repo_id o minted))
    | inr (e, failed) ↦ rw failed (settle-err-After w.settled_at key e c)
  ]

  mint_resolved-After :
      (key : Bytes) (p : RepoPath) (ev : Event) (c : Caches)
      → IsSound c.token_cache
      → Assoc.lookup key c.token_cache.entries ≡ none
      → let (c1, end, effects) = mint_resolved cfg d w key p ev c in After key c1 end
  unfolding mint_resolved
  mint_resolved-After key p ev c sound absent = elim (Result-cases (resolve_id cfg d w p).0) [
    | inl (repo_id, found) ↦
        let after = resolved key ev (resolve_id cfg d w p).0 c in
        let kept : after.token_cache ≡ c.token_cache =
          resolved-token_cache key ev (resolve_id cfg d w p).0 c in
        rw (found, mint_resolved)
          (mint_repo-After key repo_id after (subst IsSound (sym kept) sound))
    | inr (e, failed) ↦
        rw (failed, mint_resolved)
          (subst (λ r. After key (resolved key ev r c) (answers (err e))) (sym failed)
            (resolved-After key ev e c absent))
  ]

  mint_missed-After :
      (key : Bytes) (p : RepoPath) (c : Caches)
      → IsSound c.token_cache
      → Assoc.lookup key c.token_cache.entries ≡ none
      → let (c1, end, effects) = mint_missed cfg d w key p c in After key c1 end
  unfolding mint_missed claim_repo
  mint_missed-After key p c sound absent = go (claim key c.repo_ids).1 refl
    where
      go :
          (r : Claim ℕ)
          → (claim key c.repo_ids).1 ≡ r
          → let (c1, end, effects) = mint_missed cfg d w key p c in After key c1 end
      go (hit repo_id) q = rw (q, mint_missed) (mint_repo-After key repo_id _ sound)
      go (wait ev) q = rw (q, mint_missed) (unfold After in tt)
      go (resolve ev) q = rw (q, mint_missed) (mint_resolved-After key p ev _ sound absent)

  -- A mint that no other disturbs, over caches as tasks make them: one that returns a token leaves it
  -- in the token cache, with its expiry, and one that ends in `RepoNotFound` leaves no id and no token
  -- of the repository.
  pub mint-After :
      (path : Bytes) (p : RepoPath) (c : Caches)
      → RepoPath.parse path ≡ ok p
      → Reach cfg d c
      → let (c1, end, effects) = mint cfg d w path c in After (cache_key p) c1 end
  unfolding mint
  mint-After path p c parsed reached =
      let sound = Reach-IsSound cfg d c reached in
      let key = cache_key p in
      let after = get_with_expiry-IsSound c.token_cache sound w.looked_at key in
      elim (look-cases w.looked_at key c sound) [
        | inl (absent, miss) ↦
            rw (parsed, miss, mint)
              (mint_missed-After key p (look w.looked_at key c).0 (unfold look in after) absent)
        | inr (token, t, found, plain, reused) ↦
            rw (parsed, reused ∙ reuse-some token t plain, mint)
              (unfold After in
                record {
                  sound = unfold look in after;
                  held = found ∙ ap (λ u. some (token, u)) (sym (to_nanos-from_nanos t));
                  same =
                      ap
                        (λ u. record {
                          username = access_token_user;
                          password = token;
                          password_expiry_utc = from_nanos u;
                        })
                        (sym (to_nanos-from_nanos t));
                  plain = plain;
                })
      ]
