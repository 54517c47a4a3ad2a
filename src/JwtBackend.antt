-- ===== src/JwtBackend.antt =====
-- What the signing backends share: src/providers/jwt_backend.rs.
use symbolon.Prelude.{ℕ, ◌+◌, ◌-◌, ◌^◌, ◌≤◌, ◌<◌, ◌≡◌, refl, arith, ltb, if◌then◌else◌, Bytes}
use symbolon.GitCredential.{SystemTime, since_epoch, before_epoch}

pub record JwtClaims : Type 0 where
  pub iss : Bytes
  pub iat : ℕ
  pub exp : ℕ

-- The texts stand as bytes.
pub data JwtBackendError : Type 0 where
  backend_dead : JwtBackendError
  io : Bytes → JwtBackendError
  protocol : Bytes → JwtBackendError
  rejected : Bytes → JwtBackendError
  backend : Bytes → JwtBackendError
  construct : Bytes → JwtBackendError

abbrev pub leeway_past_secs : ℕ
leeway_past_secs = 60

abbrev pub lifetime_secs : ℕ
lifetime_secs = 540

-- `u64::saturating_add`
abbrev pub saturating_add : ℕ → ℕ → ℕ
saturating_add a b = if ltb (a + b) (2 ^ 64) then a + b else 2 ^ 64 - 1

-- `duration_since(UNIX_EPOCH).unwrap_or_default().as_secs()`
unfoldable pub unix_secs : SystemTime → ℕ
unix_secs (since_epoch secs _) = secs
unix_secs (before_epoch _ _) = 0

unfoldable pub new : SystemTime → Bytes → JwtClaims
unfolding unix_secs
new now client_id =
    let unix = unix_secs now in
    record {
      iss = client_id;
      iat = unix - leeway_past_secs;
      exp = saturating_add unix lifetime_secs;
    }

-- The claims are those of the client; they are valid at the moment of signing, and expire at most ten
-- minutes behind the moment they claim to be issued, which is the longest the provider admits. While
-- the clock is at least a minute behind the epoch and the sum fits, it is ten minutes exactly.
pub new-Valid :
    (now : SystemTime) (client_id : Bytes)
    → unix_secs now < 2 ^ 64
    → ((new now client_id).iss ≡ client_id)
      × ((new now client_id).iat ≤ unix_secs now)
      × (unix_secs now ≤ (new now client_id).exp)
      × ((new now client_id).exp < 2 ^ 64)
      × ((new now client_id).exp ≤ (new now client_id).iat + 600)
      × (60 ≤ unix_secs now
          → unix_secs now + 540 < 2 ^ 64
          → (new now client_id).exp ≡ (new now client_id).iat + 600)
unfolding new
new-Valid now client_id fits =
    let u = unix_secs now in
    (refl, ground arith, ground arith, ground arith, ground arith, λ past small. ground arith)
