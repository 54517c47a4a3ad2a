-- ===== src/Github/Errors.antt =====
-- The errors of the GitHub provider, and what is read of an error's body: `GithubError` of
-- src/providers/github.rs.
use symbolon.Prelude.{
  ℕ, zero, suc, ◌+◌, Bool, ◌&&◌, Option, none, some, [], ◌∷◌, ◌++◌, ltb, leb, ◌==◌, if◌then◌else◌,
  take, Bytes,
}
use Prim.Native.String.{String}
use symbolon.Strings.{codes}
use symbolon.Utf8.{invalid_at}
use symbolon.JwtBackend.{JwtBackendError}
use symbolon.Connection.{ProviderError}
use symbolon.Connection

-- `Http` stands without the foreign error it carries. Durations are seconds.
pub data GithubError : Type 0 where
  jwt_sign : JwtBackendError → GithubError
  http : GithubError
  parse_response : String → String → GithubError
  malformed_path : Bytes → GithubError
  unauthorized : Bytes → GithubError
  forbidden : Bytes → GithubError
  repo_not_found : GithubError
  rate_limited : Option ℕ → GithubError
  other_status : ℕ → GithubError
  client_id_mismatch : Bytes → Bytes → GithubError
  timeout : ℕ → GithubError
  cancelled : GithubError

-- What the crates `serde_json` and `time` read: the `message` of an error envelope, the id of a
-- repository, token and `expires_at` of a mint, the `client_id` of an app, and the Unix time of a
-- RFC 3339 text, none if it is before the epoch. `None` is a failure; a `null` or missing `message`
-- is `some none`.
pub record Decode : Type 0 where
  pub envelope : Bytes → Option (Option Bytes)
  pub repo : Bytes → Option ℕ
  pub minted : Bytes → Option (Bytes × Bytes)
  pub app : Bytes → Option Bytes
  pub rfc3339 : Bytes → Option ℕ

-- a byte that goes on with a character
abbrev pub is_continuation : ℕ → Bool
is_continuation b = leb 0x80 b && ltb b 0xc0

-- `char_indices().nth(n)`: where the `n`-th character starts, counted from `i`
unfoldable pub nth_char : ℕ → ℕ → Bytes → Option ℕ
nth_char n i [] = none
nth_char zero i (b ∷ bs) = if is_continuation b then nth_char zero (i + 1) bs else some i
nth_char (suc n) i (b ∷ bs) =
    if is_continuation b then nth_char (suc n) (i + 1) bs else nth_char n (i + 1) bs

abbrev pub max_chars : ℕ
max_chars = 200

-- a text of at most `max_chars` characters, or its start and the character `…`
unfoldable pub clip : Bytes → Bytes
unfolding nth_char
clip text = elim (nth_char max_chars 0 text) [
  | some cut ↦ take cut text ++ 0xe2 ∷ 0x80 ∷ 0xa6 ∷ []
  | none ↦ text
]

-- the excerpt of a body that is not an envelope with a message
unfoldable pub raw_prefix : Bytes → Bytes
unfolding clip
raw_prefix body = elim (invalid_at body) [
  | none ↦ clip body
  | some _ ↦ clip (codes "(non-utf8 body)")
]

unfoldable pub message_from_body : Decode → Bytes → Bytes
unfolding raw_prefix
message_from_body d body = elim (d.envelope body) [ some (some m) ↦ m | _ ↦ raw_prefix body ]

unfoldable pub from_common_status : Decode → ℕ → Bytes → Option ℕ → GithubError
unfolding message_from_body
from_common_status d status body retry_after =
    if status == 401
    then unauthorized (message_from_body d body)
    else if status == 403
    then forbidden (message_from_body d body)
    else if status == 429
    then rate_limited retry_after
    else other_status status

-- `From<GithubError> for ProviderError`
unfoldable pub into_provider_error : GithubError → ProviderError
into_provider_error http = Connection.transport_failed
into_provider_error (unauthorized body) = Connection.unauthorized body
into_provider_error (forbidden body) = Connection.forbidden body
into_provider_error repo_not_found = Connection.repo_not_found
into_provider_error (rate_limited retry_after) = Connection.rate_limited retry_after
into_provider_error (other_status s) = Connection.unexpected_status s
into_provider_error (malformed_path p) = Connection.malformed_path p
into_provider_error (parse_response context detail) = Connection.malformed_response
into_provider_error (timeout d) = Connection.timeout
into_provider_error cancelled = Connection.cancelled
into_provider_error (jwt_sign _) = Connection.internal
into_provider_error (client_id_mismatch _ _) = Connection.internal
