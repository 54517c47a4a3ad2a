-- ===== src/Tests/Github.antt =====
-- Runs of the GitHub provider.
use symbolon.Prelude.{
  ℕ, ◌<◌, ◌≡◌, refl, ◌≢◌, ◌↔◌, true, none, some, [], ◌∷◌, ◌++◌, arith, Bytes, ok, err,
}
use symbolon.Strings.{codes, split_once}
use symbolon.GitCredential
use symbolon.GitCredential.{Response, SystemTime, since_epoch}
use symbolon.TtlCache
use symbolon.TtlCache.{get_with_expiry, sweep, sweep_loop, evict, push}
use symbolon.Singleflight
use symbolon.Singleflight.{start, guard_new, commit_done, drop_guard, release_done, claim}
use symbolon.Prelude.Assoc
use symbolon.Connection.{log_mint_error}
use symbolon.Github.Errors.{GithubError, Decode, into_provider_error}
use symbolon.Github.RepoPath
use symbolon.Github.RepoPath.{
  RepoPath, IsName, all_valid, is_valid_byte, cache_key, to_ascii_lowercase,
}
use symbolon.Github.Responses.{
  HttpResponse, MintOutcome, on_repo, on_token, on_metadata_token, parse_mint_response,
  into_outcome,
}
use symbolon.Github.Calls.{Config, CallWorld, answered, race, run_call, sign_jwt_now, built}
use symbolon.Github.Caches.{Caches, settle, no_caches, panics, look, reuse, claim_repo, to_nanos}
use symbolon.Github.Mint.{
  MintWorld, answers, mint, mint_missed, mint_resolved, mint_repo, resolve_id, with_metadata_token,
  mint_metadata_token, resolve_repo_id, revoke_install_token, mint_token,
}
use symbolon.Github.Cached.{Reach, look-Answers}
use symbolon.Github.Cached
use symbolon.Github.After.{After, mint-After}
use symbolon.Github.Again.{mint-again}
use symbolon.Github.Minting.{Minting}
use symbolon.Github.Scope.{mint-Minting}
use symbolon.Github.Status.{status_event, refusal_event}

abbrev cfg : Config
cfg = record {
  api_base = codes "https://api.github.com";
  client_id = codes "Iv1";
  installation_id = 7;
  request_timeout = 10;
  selfcheck_timeout = 5;
}

-- Every body is a token, an id and no message.
abbrev d : Decode
d = record {
  envelope = λ body. none;
  repo = λ body. some 42;
  minted = λ body. some (codes "ghs", codes "later");
  app = λ body. none;
  rfc3339 = λ text. some 1000;
}

abbrev says : ℕ → HttpResponse
says status = record { status = status; retry_after = none; request_id = none; body = some [] }

abbrev call : ℕ → CallWorld
call status = record {
  clock = since_epoch 100 0;
  sign = λ claims. ok (codes "jwt");
  accepts = λ request. true;
  reply = answered (says status);
}

-- The token is minted at second 100 and expires at second 1000.
abbrev w : MintWorld
w = record {
  looked_at = 100000000000;
  metadata = call 201;
  repo = call 200;
  revoke = call 204;
  token = call 201;
  settled_at = 100000000000;
}

abbrev path : Bytes
path = codes "Ann/x"

abbrev repo_path : RepoPath
repo_path = record { owner = codes "Ann"; repo = b'x' ∷ [] }

abbrev lower_path : RepoPath
lower_path = record { owner = codes "ann"; repo = b'X' ∷ [] }

parses : RepoPath.parse path ≡ ok repo_path
unfolding RepoPath.parse split_once all_valid is_valid_byte
parses = refl

parses_lower : RepoPath.parse (codes "ann/X") ≡ ok lower_path
unfolding RepoPath.parse split_once all_valid is_valid_byte
parses_lower = refl

mint-Minting_example : Minting cfg d w repo_path (mint cfg d w path no_caches).2
mint-Minting_example = mint-Minting cfg d w path repo_path no_caches parses

-- the caches after a mint has kept its token
abbrev one_kept : Caches
one_kept = settle 100000000000 (cache_key repo_path) (mint_token cfg d (call 201) 7).0 no_caches

reached : Reach cfg d one_kept
reached = Cached.next Cached.start (Cached.settles 100000000000 (cache_key repo_path) (call 201) 7)

look-Answers_example : (look 100000000001 (cache_key repo_path) one_kept).1 ≢ panics
look-Answers_example = look-Answers cfg d one_kept 100000000001 (cache_key repo_path) reached

mint-After_example :
    After (cache_key repo_path) (mint cfg d w path no_caches).0 (mint cfg d w path no_caches).1
mint-After_example = mint-After cfg d w path repo_path no_caches parses Cached.start

same_key : cache_key repo_path ≡ cache_key lower_path
unfolding cache_key to_ascii_lowercase
same_key = refl

abbrev outcome : MintOutcome
outcome = record {
  response = record {
    username = codes "x-access-token";
    password = codes "ghs";
    password_expiry_utc = since_epoch 1000 0;
  };
  provider_req_id = none;
}

minted : (mint cfg d w path no_caches).1 ≡ answers (ok outcome)
unfolding mint mint_missed mint_resolved mint_repo resolve_id with_metadata_token
    mint_metadata_token resolve_repo_id revoke_install_token mint_token run_call race sign_jwt_now
    built on_repo on_token on_metadata_token parse_mint_response into_outcome look reuse
    get_with_expiry sweep sweep_loop claim_repo claim start no_caches cache_key RepoPath.parse
    split_once all_valid is_valid_byte GitCredential.new TtlCache.new Singleflight.default
    Assoc.lookup
minted = refl

fresh : 200000000000 < to_nanos outcome.response.password_expiry_utc
unfolding to_nanos
fresh = omega arith

abbrev w2 : MintWorld
w2 = record w { looked_at = 200000000000 }

mint-again_example :
    let (c2, end, calls) = mint cfg d w2 (codes "ann/X") (mint cfg d w path no_caches).0 in
    (end ≡ answers (ok (record { response = outcome.response; provider_req_id = none })))
    × (calls ≡ [])
mint-again_example =
    mint-again cfg d w w2 path (codes "ann/X") repo_path lower_path no_caches outcome parses
      parses_lower same_key Cached.start minted fresh

refusal_event_example :
    (((says 429).status ≢ 200)
      → (e : GithubError) × (on_repo d (says 429) ≡ err e)
        × (log_mint_error (into_provider_error e) ≡ status_event (says 429).status))
    × (((says 429).status ≢ 201)
        → (e : GithubError) × (on_token d (says 429) ≡ err e)
          × (log_mint_error (into_provider_error e) ≡ status_event (says 429).status))
refusal_event_example = refusal_event d (says 429) [] refl

parse-IsName_iff_example : (RepoPath.parse path ≡ ok repo_path) ↔ (
    (path ≡ repo_path.owner ++ b'/' ∷ repo_path.repo)
    × IsName repo_path.owner
    × IsName repo_path.repo)
parse-IsName_iff_example = RepoPath.parse-IsName_iff path repo_path
