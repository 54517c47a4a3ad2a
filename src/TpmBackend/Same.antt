-- ===== src/TpmBackend/Same.antt =====
-- The two signing backends make the same token: a TPM and the agent that holds the key.
use symbolon.Prelude.{
  ℕ, ◌≤◌, ◌≡◌, refl, sym, ap, ◌∙◌, subst, false, some, [], ◌∷◌, ◌++◌, arith, ◌==◌, length,
  length-append, Bytes, Result, ok, map_err,
}
use symbolon.JwtBackend.{JwtClaims, JwtBackendError}
use symbolon.JwtRs256.{JwtLib, signing_input, assemble_jwt, to_string, sign_rs256, header_b64}
use symbolon.AgentProtocol.{Json}
use symbolon.Agent
use symbolon.Agent.{Signer, exchange_by}
use symbolon.Agent.Exchange.{IsJson, channel, sign-agent, take_fits}
use symbolon.TpmWire.{TpmResponses, response_ok, tpm_alg_rsassa}
use symbolon.TpmWire.Layout.{sign_response, parse_sign-response}
use symbolon.TpmBackend.{
  TpmLib, rsassa, sha256, hash_check_null, sign_command, sign, transact_by, tpm_io_buf,
}

-- `sign_rs256` of the agent's key, an error as its text
abbrev pub signer : (jwt : JwtLib) → jwt.Key → Signer
signer jwt key claims = map_err to_string (sign_rs256 jwt key claims)

-- A device signs a digest: the libraries build the command for the handle, with the scheme RSASSA and
-- SHA-256, an empty null ticket and a session of the empty password, and the device answers with a
-- successful response to a signing, which carries the signature and fits the buffer.
pub record Signs (lib : TpmLib) (responses : TpmResponses)
    (device : Bytes → Result Bytes JwtBackendError) (handle : ℕ) (digest signature : Bytes)
    : Type 0 where
  pub command : Bytes
  pub checked : lib.tpm2b_digest digest ≡ ok digest
  pub built :
      lib.marshal_sign (record {
        handle = handle;
        digest = digest;
        scheme = rsassa;
        hash_alg = sha256;
        ticket = hash_check_null;
        ticket_digest = [];
        session_handle = 0x40000009;
      })
      ≡ ok command
  pub header : Bytes
  pub ten : length header ≡ 10
  pub size : ℕ
  pub hash : ℕ
  pub auth : Bytes
  pub answers : device command ≡ ok (sign_response header size tpm_alg_rsassa hash signature auth)
  pub success :
      response_ok responses (sign_response header size tpm_alg_rsassa hash signature auth) ≡ ok tt
  pub fits : length (sign_response header size tpm_alg_rsassa hash signature auth) ≤ tpm_io_buf

-- The token of a payload and a key: header, payload and the signature of both, in base64url.
abbrev pub token_of : (jwt : JwtLib) → jwt.Key → Bytes → Bytes
token_of jwt key payload =
    let input = header_b64 ++ b'.' ∷ jwt.encode_string payload in
    input ++ b'.' ∷ jwt.encode_string (jwt.sign key input)

sign_rs256-token :
    (jwt : JwtLib) (key : jwt.Key) (claims : JwtClaims) (payload : Bytes)
    → jwt.claims_to_vec claims ≡ some payload
    → sign_rs256 jwt key claims ≡ ok (token_of jwt key payload)
unfolding sign_rs256 signing_input assemble_jwt
sign_rs256-token jwt key claims payload read = rw (sign_rs256, signing_input, read) refl

not_empty : (header rest : Bytes) → length header ≡ 10 → (length (header ++ rest) == 0) ≡ false
not_empty header rest ten = let sum = length-append header rest in ground arith

module _ (lib : TpmLib) (responses : TpmResponses) (device : Bytes → Result Bytes JwtBackendError)
    (handle : ℕ) where
  transact-sign :
      (digest signature : Bytes) (s : Signs lib responses device handle digest signature)
      → transact_by device s.command
        ≡ ok (sign_response s.header s.size tpm_alg_rsassa s.hash signature s.auth)
  unfolding transact_by
  transact-sign digest signature s =
      let response = sign_response s.header s.size tpm_alg_rsassa s.hash signature s.auth in
      let long : (length response == 0) ≡ false = not_empty s.header _ s.ten in
      rw (transact_by, s.answers, long, take_fits tpm_io_buf response s.fits) refl

  tpm-token :
      (jwt : JwtLib) (key : jwt.Key) (claims : JwtClaims) (payload : Bytes)
      → jwt.claims_to_vec claims ≡ some payload
      → (let input = header_b64 ++ b'.' ∷ jwt.encode_string payload in
          Signs lib responses device handle (lib.digest input) (jwt.sign key input))
      → sign jwt lib responses (transact_by device) handle claims ≡ ok (token_of jwt key payload)
  unfolding sign sign_command signing_input assemble_jwt
  tpm-token jwt key claims payload read s =
      let input = header_b64 ++ b'.' ∷ jwt.encode_string payload in
      let parsed =
        parse_sign-response responses s.header (jwt.sign key input) s.auth s.size tpm_alg_rsassa
          s.hash s.ten s.success in
      rw
        (
          sign,
          signing_input,
          read,
          sign_command,
          s.checked,
          s.built,
          transact-sign (lib.digest input) (jwt.sign key input) s,
          parsed,
        )
        refl

  -- A TPM that signs the digest of a message as the key signs the message, when it is asked with its
  -- handle for RSASSA over SHA-256, and an agent that holds this key, give the broker the same token
  -- for the same claims: the header, the claims and the signature of both in base64url, joined by
  -- points. The claims can be written as JSON, and their issuer and the token have at most 1024 bytes.
  pub tpm-agent :
      (jwt : JwtLib) (json : Json) (key : jwt.Key)
      → IsJson json
      → ((message : Bytes)
          → Signs lib responses device handle (lib.digest message) (jwt.sign key message))
      → (claims : JwtClaims) (payload : Bytes) → jwt.claims_to_vec claims ≡ some payload
      → length claims.iss ≤ 1024
      → length (token_of jwt key payload) ≤ 1024
      → (sign jwt lib responses (transact_by device) handle claims
          ≡ Agent.sign json (exchange_by (channel json (signer jwt key))) claims)
        × (sign jwt lib responses (transact_by device) handle claims
            ≡ ok (token_of jwt key payload))
  tpm-agent jwt json key laws signs claims payload read iss short =
      let token = token_of jwt key payload in
      let input = header_b64 ++ b'.' ∷ jwt.encode_string payload in
      let by_tpm = tpm-token jwt key claims payload read (signs input) in
      let signed : signer jwt key claims ≡ ok token =
        ap (map_err to_string) (sign_rs256-token jwt key claims payload read) in
      let agent =
        (sign-agent json (signer jwt key) laws claims iss (λ t h.
          let same : token ≡ t = ground arith in subst (λ t. length t ≤ 1024) same short)).0 in
      let by_agent : Agent.sign json (exchange_by (channel json (signer jwt key))) claims
          ≡ ok token =
        agent ∙ rw signed refl in
      (by_tpm ∙ sym by_agent, by_tpm)
