-- ===== src/Github/Caches.antt =====
-- The two caches of the GitHub provider, and what `mint` of src/providers/github.rs does to them
-- between the points where it waits.
use symbolon.Prelude.{
  ℕ, ◌+◌, ◌*◌, ◌/◌, ◌%◌, Bool, true, false, ◌&&◌, ◌||◌, Option, none, some, [], ◌∷◌, ltb, ◌==◌,
  Bytes, bytes_eq, bytes_eq_iff, Result, ok, err,
}
use symbolon.Prelude.Assoc.{Eq}
use symbolon.Strings.{codes}
use symbolon.TtlCache
use symbolon.TtlCache.{TtlCache, get_with_expiry}
use symbolon.Singleflight
use symbolon.Singleflight.{
  SingleflightCache, Claim, Event, claim, guard_new, drop_guard, commit_done,
}
use symbolon.GitCredential
use symbolon.GitCredential.{Response, SystemTime, since_epoch, before_epoch}
use symbolon.Github.Errors.{GithubError, repo_not_found}
use symbolon.Github.Responses.{MintOutcome}

instance abbrev pub text_eq : Eq Bytes
text_eq = record { beq = bytes_eq; beq_iff = bytes_eq_iff }

-- the order of strings
abbrev pub text_le : Bytes → Bytes → Bool
text_le [] b = true
text_le (x ∷ a) [] = false
text_le (x ∷ a) (y ∷ b) = ltb x y || x == y && text_le a b

-- the fields `repo_ids` and `token_cache`; instants are nanoseconds since the epoch
pub record Caches : Type 0 where
  pub repo_ids : SingleflightCache Bytes ℕ
  pub token_cache : TtlCache Bytes Bytes

unfoldable pub no_caches : Caches
unfolding Singleflight.default TtlCache.new
no_caches = record { repo_ids = Singleflight.default; token_cache = TtlCache.new }

abbrev pub nanos_per_sec : ℕ
nanos_per_sec = 1000000000

-- An instant before the epoch stands as the epoch; no token has such an expiry.
unfoldable pub to_nanos : SystemTime → ℕ
to_nanos (since_epoch secs nanos) = secs * nanos_per_sec + nanos
to_nanos (before_epoch _ _) = 0

unfoldable pub from_nanos : ℕ → SystemTime
from_nanos t = since_epoch (t / nanos_per_sec) (t % nanos_per_sec)

abbrev pub access_token_user : Bytes
access_token_user = codes "x-access-token"

-- What the token cache knew: the response to answer with, a token that `Response::new` refuses, on
-- which `expect` panics, or nothing.
pub data Looked : Type 0 where
  cached : Response → Looked
  panics : Looked
  missed : Looked

unfoldable pub reuse : Option (Bytes × ℕ) → Looked
unfolding GitCredential.new from_nanos
reuse none = missed
reuse (some (token, expires_at)) =
    elim (GitCredential.new access_token_user token (from_nanos expires_at)) [
      | ok response ↦ cached response
      | err _ ↦ panics
    ]

-- `token_cache.get_with_expiry(&key)`, and what is made of its answer
unfoldable pub look : ℕ → Bytes → Caches → Caches × Looked
unfolding get_with_expiry reuse
look now key c =
    let (after, found) = get_with_expiry now key c.token_cache in
    (record c { token_cache = after }, reuse found)

-- one round of the loop of `repo_ids.with(&key, ..)`
unfoldable pub claim_repo : Bytes → Caches → Caches × Claim ℕ
unfolding claim
claim_repo key c = let (after, r) = claim key c.repo_ids in (record c { repo_ids = after }, r)

-- the end of the resolver in `repo_ids.with(&key, ..)`
unfoldable pub resolved : Bytes → Event → Result ℕ GithubError → Caches → Caches
unfolding guard_new commit_done drop_guard
resolved key ev (ok repo_id) c = record c {
  repo_ids = commit_done (guard_new key ev) repo_id c.repo_ids;
}
resolved key ev (err _) c = record c { repo_ids = drop_guard (guard_new key ev) c.repo_ids }

unfoldable pub forget : Bytes → Caches → Caches
unfolding Singleflight.invalidate TtlCache.invalidate
forget key c = record {
  repo_ids = Singleflight.invalidate key c.repo_ids;
  token_cache = TtlCache.invalidate key c.token_cache;
}

unfoldable pub keep : ℕ → Bytes → Response → Caches → Caches
unfolding TtlCache.insert to_nanos
keep now key response c = record c {
  token_cache =
      TtlCache.insert text_le now key response.password (to_nanos response.password_expiry_utc)
        c.token_cache;
}

-- what `mint` does to the caches behind `mint_token`
unfoldable pub settle : ℕ → Bytes → Result MintOutcome GithubError → Caches → Caches
unfolding forget keep
settle now key (ok outcome) c = keep now key outcome.response c
settle now key (err repo_not_found) c = forget key c
settle now key (err _) c = c
