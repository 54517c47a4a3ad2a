-- ===== src/Tests/Agent.antt =====
-- Runs of the signing agent, the TPM and the credential helper.
use symbolon.Prelude.{
  ℕ, zero, suc, ◌≤◌, ◌<◌, ◌≡◌, refl, subst, true, none, some, [], ◌∷◌, ◌++◌, arith, ◌==◌,
  if◌then◌else◌, length, take, replicate, All, Bytes, Result, ok, err,
}
use symbolon.Strings.{codes}
use symbolon.Utf8.{invalid_at, invalid_from, next_byte, first_byte, char_start}
use symbolon.JwtBackend.{JwtClaims, rejected}
use symbolon.AgentProtocol.{
  AgentRequest, sign_jwt, ping, AgentResponse, jwt, pong, error_response, Json, clip_error,
  is_char_boundary,
}
use symbolon.AgentProtocol.Clip.{clip_error-longest}
use symbolon.Agent.{Signer, sign, self_check, exchange_by}
use symbolon.Agent.Exchange.{IsJson, channel, sign-agent}
use symbolon.TpmWire.{
  TpmResponses, success, response_ok, not_rsa, symmetric_alg, not_rsa2048, tpm_alg_rsa,
  tpm_alg_null, verify_rsa2048_signing_key,
}
use symbolon.TpmWire.Layout.{be16, public_part, verify_rsa2048_signing_key-public}
use symbolon.BrokerKey.{BrokerPublicKey}
use symbolon.Transport.Noise
use symbolon.Transport.Noise.{Noise}
use symbolon.Transport.Frame.{frame}
use symbolon.Transport.Tlv.{encode_identity_tlv}
use symbolon.Transport.Initiator
use symbolon.Transport.Initiator.{Initiator, write_hs1}
use symbolon.Helper.{Stream, drive, load_key_file}
use symbolon.Helper.Straight.{straight}
use symbolon.Helper.Drive.{drive-straight}
use symbolon.Helper.KeyFile.{load_key_file-text}
use symbolon.Tests.Values.{toy_noise, alice, key_of, toy_hex, toy_hex-HexLaws}

-- A codec with one byte for the kind of a message.
abbrev pub request_to_vec : AgentRequest → Bytes
request_to_vec (sign_jwt c) = 0 ∷ c.iat ∷ c.exp ∷ c.iss
request_to_vec ping = 1 ∷ []

abbrev request_from : Bytes → Result AgentRequest Bytes
request_from (zero ∷ iat ∷ exp ∷ iss) = ok (sign_jwt (record { iss = iss; iat = iat; exp = exp }))
request_from (suc zero ∷ []) = ok ping
request_from _ = err (codes "request")

abbrev pub response_to_vec : AgentResponse → Bytes
response_to_vec (jwt t) = 0 ∷ t
response_to_vec pong = 1 ∷ []
response_to_vec (error_response t) = 2 ∷ t

abbrev response_from : Bytes → Result AgentResponse Bytes
response_from (zero ∷ t) = ok (jwt t)
response_from (suc zero ∷ []) = ok pong
response_from (suc (suc zero) ∷ t) = ok (error_response t)
response_from _ = err (codes "response")

abbrev pub toy_json : Json
toy_json = record {
  request_to_vec = request_to_vec;
  request_from = request_from;
  response_to_vec = response_to_vec;
  response_from = response_from;
}

pub toy_json-IsJson : IsJson toy_json
toy_json-IsJson = record {
  request_back = request_back;
  response_back = response_back;
  ping_length = omega arith;
  sign_length = λ c. omega arith;
  pong_length = omega arith;
  jwt_length = λ t. omega arith;
  error_length = λ t. omega arith;
  request_some = request_some;
  response_some = response_some;
}
  where
    request_back : (r : AgentRequest) → request_from (request_to_vec r) ≡ ok r
    request_back (sign_jwt c) = refl
    request_back ping = refl

    response_back : (r : AgentResponse) → response_from (response_to_vec r) ≡ ok r
    response_back (jwt t) = refl
    response_back pong = refl
    response_back (error_response t) = refl

    request_some : (r : AgentRequest) → 1 ≤ length (request_to_vec r)
    request_some (sign_jwt c) = omega arith
    request_some ping = omega arith

    response_some : (r : AgentResponse) → 1 ≤ length (response_to_vec r)
    response_some (jwt t) = omega arith
    response_some pong = omega arith
    response_some (error_response t) = omega arith

-- The token is the client id.
abbrev signer : Signer
signer claims = ok claims.iss

abbrev pub claims : JwtClaims
claims = record { iss = codes "Iv1"; iat = 40; exp = 640 }

token_short : (token : Bytes) → signer claims ≡ ok token → length token ≤ 1024
token_short token q =
    let same : claims.iss ≡ token = ground arith in
    subst (λ (t : Bytes). length t ≤ 1024) same (omega arith)

sign-agent_example :
    (sign toy_json (exchange_by (channel toy_json signer)) claims ≡ elim (signer claims) [
      | ok token ↦ ok token
      | err e ↦ err (rejected (clip_error (codes "sign: " ++ e)))
    ])
    × (self_check toy_json (exchange_by (channel toy_json signer)) ≡ ok tt)
sign-agent_example = sign-agent toy_json signer toy_json-IsJson claims (omega arith) token_short

long_text : Bytes
long_text = replicate 1023 b'a' ++ 0xc3 ∷ 0xa9 ∷ []

long_text-utf8 : invalid_at long_text ≡ none
unfolding invalid_at invalid_from next_byte first_byte char_start long_text
long_text-utf8 = refl

clip_error-longest_example :
    (k : ℕ) × (clip_error long_text ≡ take k long_text)
    × (length (clip_error long_text) ≤ 1024)
    × (invalid_at (clip_error long_text) ≡ none)
    × ((m : ℕ) → m ≤ 1024 → m ≤ length long_text → is_char_boundary m long_text ≡ true → m ≤ k)
clip_error-longest_example = clip_error-longest long_text long_text-utf8

abbrev header : Bytes
header = replicate 10 0

abbrev accepts : TpmResponses
accepts = record { TpmResponse = Bytes; cast = λ resp. ok resp; rc = λ r. ok success }

abbrev public : Bytes
public = public_part 1 11 0 [] 16 20 11 1024 []

verify_rsa2048_signing_key-public_example :
    verify_rsa2048_signing_key accepts (header ++ (be16 (length public) ++ (public ++ []))) ≡ (
      if 1 == tpm_alg_rsa
      then (if 16 == tpm_alg_null
          then (if 1024 == 2048 then ok tt else err (not_rsa2048 1024))
          else err (symmetric_alg 16))
      else err (not_rsa 1))
unfolding response_ok
verify_rsa2048_signing_key-public_example =
    verify_rsa2048_signing_key-public accepts header [] 1 11 0 [] 16 20 11 1024 [] refl refl

abbrev broker_public : BrokerPublicKey
broker_public = record { bytes = replicate 32 5 }

abbrev session : Initiator toy_noise
session = write_hs1 1 (0 ∷ 8 ∷ b'S' ∷ b'B' ∷ b'L' ∷ b'N' ∷ 2 ∷ 2 ∷ alice.text) (b'q' ∷ [])

session_starts : Initiator.new toy_noise alice (key_of 7) broker_public (b'q' ∷ []) ≡ ok session
unfolding Initiator.new Noise.initiator Noise.handshake_write encode_identity_tlv frame
session_starts = refl

-- The broker's second message of the handshake, then its answer, of one byte.
abbrev stream : Stream
stream = record { incoming = 0 ∷ 0 ∷ 0 ∷ 1 ∷ b'r' ∷ []; writes = true ∷ [] }

drive-straight_example :
    drive toy_noise 7 stream session
    ≡ some (straight toy_noise alice (key_of 7) broker_public (b'q' ∷ []) stream)
drive-straight_example =
    drive-straight toy_noise alice (key_of 7) broker_public (b'q' ∷ []) session stream
      session_starts

all_small : (n b : ℕ) → b < 256 → All (λ c. c < 256) (replicate n b)
all_small zero b h = tt
all_small (suc n) b h = (h, all_small n b h)

load_key_file-text_example :
    load_key_file toy_noise toy_hex (
      some (
        (toy_hex.encode broker_public.bytes ++ b':' ∷ toy_hex.encode (key_of 7).bytes)
        ++ replicate 1 b'\n'))
    ≡ ok (broker_public, key_of 7)
load_key_file-text_example =
    load_key_file-text toy_noise toy_hex toy_hex-HexLaws broker_public (key_of 7) 1
      (record { size = refl; bytes = all_small 32 5 (omega arith) })
      (record { size = refl; bytes = all_small 32 7 (omega arith) })
