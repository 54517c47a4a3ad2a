-- ===== src/Github/Cached.antt =====
-- Tasks that share the provider's caches: whatever they do, the token cache holds tokens that
-- `Response::new` accepts.
use symbolon.Prelude.{
  ℕ, ◌≡◌, refl, sym, ◌∙◌, subst, ◌≢◌, ◌⊎◌, inl, inr, Option, none, some, [], arith, Bool-cases,
  Bytes, bytes_eq, Result, ok, err, Result-cases,
}
use symbolon.Prelude.Assoc
use symbolon.Prelude.Assoc.{lookup-remove}
use symbolon.TtlCache
use symbolon.TtlCache.{TtlCache, get_with_expiry}
use symbolon.TtlCache.Refines.{
  IsCache, live, get_with_expiry_lem, lookup-insert_key, insert-IsCache, invalidate-IsCache,
}
use symbolon.Singleflight.{Event}
use symbolon.GitCredential
use symbolon.GitCredential.{Response, SystemTime, since_epoch}
use symbolon.GitCredential.Emit.{Plain, new-eq-ok_iff}
use symbolon.Github.Errors.{GithubError, Decode, repo_not_found}
use symbolon.Github.Calls.{Config, CallWorld}
use symbolon.Github.Caches.{
  text_eq, text_le, Caches, no_caches, to_nanos, from_nanos, access_token_user, cached, panics,
  reuse, look, claim_repo, resolved, forget, keep, settle,
}
use symbolon.Github.Mint.{mint_token}
use symbolon.Github.Tokens.{mint_token-IsTokenResponse}

-- The token cache is a cache of tokens without NUL, CR and LF.
pub record IsSound (c : TtlCache Bytes Bytes) : Type 0 where
  pub valid : IsCache c
  pub plain : (k token : Bytes) (t : ℕ) → Assoc.lookup k c.entries ≡ some (token, t) → Plain token

live-some :
    {V : Type 0} (now : ℕ) (o : Option (V × ℕ)) (x : V × ℕ) → live now o ≡ some x → o ≡ some x
live-some now none x h = h
live-some now (some (v, t)) x h = ground arith

user_response : Bytes → ℕ → Response
user_response token t = record {
  username = access_token_user;
  password = token;
  password_expiry_utc = from_nanos t;
}

user-Plain : Plain access_token_user
unfolding GitCredential.new from_nanos user_response
user-Plain = ((new-eq-ok_iff access_token_user [] (from_nanos 0) (user_response [] 0)).0 refl).0

-- A plain token can be used again, until the instant it is cached for.
pub reuse-some :
    (token : Bytes) (t : ℕ)
    → Plain token
    → reuse (some (token, t))
      ≡ cached (record {
        username = access_token_user;
        password = token;
        password_expiry_utc = from_nanos t;
      })
unfolding reuse from_nanos
reuse-some token t fine =
    let r : Response = record {
      username = access_token_user;
      password = token;
      password_expiry_utc = from_nanos t;
    } in
    let accepted : GitCredential.new access_token_user token (from_nanos t) ≡ ok r =
      (new-eq-ok_iff access_token_user token (from_nanos t) r).1 (user-Plain, fine, refl, refl) in
    rw (reuse, accepted) refl

reuse-Answers :
    (o : Option (Bytes × ℕ))
    → ((token : Bytes) (t : ℕ) → o ≡ some (token, t) → Plain token)
    → reuse o ≢ panics
unfolding reuse
reuse-Answers none plain = λ h. ground arith
reuse-Answers (some (token, t)) plain = λ h. cc (reuse-some token t (plain token t refl), h)

module _ (c : TtlCache Bytes Bytes) (sound : IsSound c) where
  pub get_with_expiry-IsSound : (now : ℕ) (key : Bytes) → IsSound (get_with_expiry now key c).0
  get_with_expiry-IsSound now key =
      let g = get_with_expiry_lem c sound.valid now key in
      record {
        valid = g.3;
        plain = λ k token t h.
            sound.plain k token t
              (live-some now (Assoc.lookup k c.entries) (token, t) (sym (g.1 k) ∙ h));
      }

  pub insert-IsSound :
      (now : ℕ) (key token : Bytes) (t : ℕ)
      → Plain token
      → IsSound (TtlCache.insert text_le now key token t c)
  insert-IsSound now key token t fine = record {
    valid = insert-IsCache c sound.valid text_le now key token t;
    plain = λ k v u h.
        let found = sym (lookup-insert_key c sound.valid text_le now key token t k) ∙ h in
        elim (Bool-cases (bytes_eq key k)) [
          | inl same ↦
              let put : ◌≡◌ {A = Option (Bytes × ℕ)} (some (token, t)) (some (v, u)) =
                rw same at found in
              let eq : token ≡ v = ground arith in subst Plain eq fine
          | inr other ↦
              sound.plain k v u
                (live-some now (Assoc.lookup k c.entries) (v, u) (rw other at found))
        ];
  }

  pub invalidate-IsSound : (key : Bytes) → IsSound (TtlCache.invalidate key c)
  unfolding TtlCache.invalidate
  invalidate-IsSound key = record {
    valid = unfold TtlCache.invalidate in invalidate-IsCache c sound.valid key;
    plain = λ k v u h. sound.plain k v u (ground (arith, lookup-remove key k c.entries));
  }

-- An error of `mint_token` makes `mint` forget the repository, or leaves the caches.
pub settle-err :
    (now : ℕ) (key : Bytes) (e : GithubError) (c : Caches)
    → (settle now key (err e) c ≡ forget key c) ⊎ (settle now key (err e) c ≡ c)
unfolding settle
settle-err now key repo_not_found c = inl refl
settle-err now key _ c = inr refl

-- The end of a resolver leaves the tokens.
pub resolved-token_cache :
    (key : Bytes) (ev : Event) (found : Result ℕ GithubError) (c : Caches)
    → (resolved key ev found c).token_cache ≡ c.token_cache
unfolding resolved
resolved-token_cache key ev (ok repo_id) c = refl
resolved-token_cache key ev (err e) c = refl

module _ (cfg : Config) (d : Decode) where
  -- A task looks a key up, claims it, ends its resolver, or ends with what `mint_token` returned.
  pub data Step (c : Caches) : Caches → Type 0 where
    looks : (now : ℕ) (key : Bytes) → Step c (look now key c).0
    claims : (key : Bytes) → Step c (claim_repo key c).0
    resolves :
        (key : Bytes) (ev : Event) (found : Result ℕ GithubError) → Step c (resolved key ev found c)
    settles :
        (now : ℕ) (key : Bytes) (w : CallWorld) (repo_id : ℕ)
        → Step c (settle now key (mint_token cfg d w repo_id).0 c)

  pub data Reach : Caches → Type 0 where
    start : Reach no_caches
    next : {b c : Caches} → Reach b → Step b c → Reach c

  settle-IsSound :
      (now : ℕ) (key : Bytes) (w : CallWorld) (repo_id : ℕ) (c : Caches)
      → IsSound c.token_cache
      → IsSound (settle now key (mint_token cfg d w repo_id).0 c).token_cache
  unfolding settle keep forget
  settle-IsSound now key w repo_id c sound = elim (Result-cases (mint_token cfg d w repo_id).0) [
    | inl (o, minted) ↦
        let r = mint_token-IsTokenResponse d cfg w repo_id o minted in
        rw (minted) (
          insert-IsSound c.token_cache sound now key o.response.password
            (to_nanos o.response.password_expiry_utc) r.plain)
    | inr (e, failed) ↦ rw failed (elim (settle-err now key e c) [
      | inl forgotten ↦ rw forgotten (invalidate-IsSound c.token_cache sound key)
      | inr same ↦ rw same sound
    ])
  ]

  Step-IsSound : (b c : Caches) → Step b c → IsSound b.token_cache → IsSound c.token_cache
  unfolding look claim_repo
  Step-IsSound b c (looks now key) sound = get_with_expiry-IsSound b.token_cache sound now key
  Step-IsSound b c (claims key) sound = sound
  Step-IsSound b c (resolves key ev found) sound =
      subst IsSound (sym (resolved-token_cache key ev found b)) sound
  Step-IsSound b c (settles now key w repo_id) sound = settle-IsSound now key w repo_id b sound

  pub Reach-IsSound : (c : Caches) → Reach c → IsSound c.token_cache
  unfolding no_caches TtlCache.new Assoc.lookup
  Reach-IsSound c start = record {
    valid = record { sorted = tt; queued = λ k v t h. absurd (ground arith) };
    plain = λ k v t h. absurd (ground arith);
  }
  Reach-IsSound c (next {b} reached step) = Step-IsSound b c step (Reach-IsSound b reached)

  -- However tasks that mint interleave, and whatever the provider answers them: the response made of
  -- a cached token passes `Response::new`, so the lookup of a mint never panics.
  pub look-Answers : (c : Caches) (now : ℕ) (key : Bytes) → Reach c → (look now key c).1 ≢ panics
  unfolding look get_with_expiry
  look-Answers c now key reached =
      let sound = get_with_expiry-IsSound c.token_cache (Reach-IsSound c reached) now key in
      reuse-Answers (get_with_expiry now key c.token_cache).1
        (λ token t h. sound.plain key token t h)
