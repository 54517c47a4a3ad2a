-- ===== src/Github/Again.antt =====
-- Two mints of one repository, one behind the other.
use symbolon.Prelude.{ℕ, ◌<◌, ◌≡◌, refl, sym, ap, ◌∙◌, subst, none, some, [], arith, Bytes, ok}
use symbolon.TtlCache.{get_with_expiry}
use symbolon.TtlCache.Refines.{live, get_with_expiry_lem}
use symbolon.GitCredential.{Response}
use symbolon.Github.Errors.{Decode}
use symbolon.Github.RepoPath
use symbolon.Github.RepoPath.{RepoPath, cache_key}
use symbolon.Github.Responses.{MintOutcome}
use symbolon.Github.Calls.{Config}
use symbolon.Github.Caches.{text_eq, Caches, to_nanos, cached, reuse, look}
use symbolon.Github.Mint.{MintWorld, answers, mint}
use symbolon.Github.Cached.{Reach, reuse-some}
use symbolon.Github.After.{After, HasToken, mint-After}

-- A held token that has not expired is found.
look-cached :
    (now : ℕ) (key : Bytes) (c : Caches) (r : Response)
    → HasToken key c r
    → now < to_nanos r.password_expiry_utc
    → (look now key c).1 ≡ cached r
unfolding look
look-cached now key c r has fresh =
    let g = get_with_expiry_lem c.token_cache has.sound.valid now key in
    let t = to_nanos r.password_expiry_utc in
    let found : (get_with_expiry now key c.token_cache).1 ≡ some (r.password, t) =
      g.0 ∙ ap (live now) has.held ∙ ground arith in
    ap reuse found ∙ reuse-some r.password t has.plain ∙ ap cached (sym has.same)

module _ (cfg : Config) (d : Decode) where
  -- A mint behind another of the same repository, which may be written in other case, answers with the
  -- same response and makes no call, as long as the token has not expired.
  pub mint-again :
      (w w2 : MintWorld) (path path2 : Bytes) (p p2 : RepoPath) (c : Caches) (o : MintOutcome)
      → RepoPath.parse path ≡ ok p
      → RepoPath.parse path2 ≡ ok p2
      → cache_key p ≡ cache_key p2
      → Reach cfg d c
      → (mint cfg d w path c).1 ≡ answers (ok o)
      → w2.looked_at < to_nanos o.response.password_expiry_utc
      → let (c2, end, calls) = mint cfg d w2 path2 (mint cfg d w path c).0 in
        (end ≡ answers (ok (record { response = o.response; provider_req_id = none })))
        × (calls ≡ [])
  unfolding After mint
  mint-again w w2 path path2 p p2 c o parsed parsed2 same reached minted fresh =
      let after = mint-After cfg d w path p c parsed reached in
      let c1 = (mint cfg d w path c).0 in
      let has : HasToken (cache_key p) c1 o.response =
        subst (After (cache_key p) c1) minted after in
      let found = look-cached w2.looked_at (cache_key p) c1 o.response has fresh in
      let found2 : (look w2.looked_at (cache_key p2) c1).1 ≡ cached o.response =
        subst (λ k. (look w2.looked_at k c1).1 ≡ cached o.response) same found in
      rw (parsed2, found2, mint) (refl, refl)
