-- ===== src/AgentProtocol.antt =====
-- The messages between the broker and its signing agent: src/providers/agent_protocol.rs. The crate
-- `serde_json` is the parameter `Json`.
pub mod Clip
use symbolon.Prelude.{
  ℕ, zero, suc, ◌*◌, Bool, true, ◌||◌, [], ◌∷◌, ltb, leb, ◌==◌, if◌then◌else◌, length, take, drop,
  Bytes, Result, ok, err,
}
use symbolon.JwtBackend.{JwtClaims}

pub data AgentRequest : Type 0 where
  sign_jwt : JwtClaims → AgentRequest
  ping : AgentRequest

pub data AgentResponse : Type 0 where
  jwt : Bytes → AgentResponse
  pong : AgentResponse
  error_response : Bytes → AgentResponse

abbrev pub max_error_len : ℕ
max_error_len = 1024

abbrev pub max_message : ℕ
max_message = 8 * 1024

-- `is_char_boundary`: the ends of the text, and the bytes that start a character
unfoldable pub is_char_boundary : ℕ → Bytes → Bool
is_char_boundary index s =
    if index == 0
    then true
    else elim (drop index s) [ [] ↦ index == length s | b ∷ _ ↦ ltb b 0x80 || leb 0xc0 b ]

-- the loop of `error`, from `end` down
unfoldable pub floor_boundary : ℕ → Bytes → ℕ
unfolding is_char_boundary
floor_boundary zero s = zero
floor_boundary (suc n) s =
    let rest = floor_boundary n s in if is_char_boundary (suc n) s then suc n else rest

-- the text that `error` keeps
unfoldable pub clip_error : Bytes → Bytes
unfolding floor_boundary
clip_error s = if ltb max_error_len (length s) then take (floor_boundary max_error_len s) s else s

-- `AgentResponse::error`
unfoldable pub error : Bytes → AgentResponse
unfolding clip_error
error msg = error_response (clip_error msg)

-- Serialization and parsing of both messages; an error is its text.
pub record Json : Type 0 where
  pub request_to_vec : AgentRequest → Bytes
  pub request_from : Bytes → Result AgentRequest Bytes
  pub response_to_vec : AgentResponse → Bytes
  pub response_from : Bytes → Result AgentResponse Bytes

-- `encode`, behind the serialization; its error is the length that is too large
unfoldable pub encode : Bytes → Result Bytes ℕ
encode bytes = if ltb max_message (length bytes) then err (length bytes) else ok bytes
