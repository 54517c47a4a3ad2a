-- ===== src/TpmBackend.antt =====
-- The signing backend of a TPM: src/providers/tpm_backend.rs, and the commands that
-- src/providers/tpm_backend/wire.rs builds for it.
pub mod Same
use symbolon.Prelude.{
  ℕ, ◌+◌, ◌-◌, ◌/◌, ◌%◌, ◌^◌, not, [], ◌∷◌, ◌++◌, ltb, ◌==◌, if◌then◌else◌, length, take, Bytes,
  Result, ok, err, ◌>>=◌, ◌>>◌, map_err,
}
use symbolon.Strings.{codes, decimal}
use symbolon.JwtBackend.{JwtClaims, JwtBackendError, backend_dead, backend}
use symbolon.JwtRs256.{JwtLib, signing_input, assemble_jwt, to_string}
use symbolon.TpmWire.{
  TpmResponses, TpmError, truncated_u16, truncated_u32, truncated_tpm2b, bad_response, no_body,
  unexpected_signature_alg, not_rsa, symmetric_alg, not_rsa2048, parse_sign,
  verify_rsa2048_signing_key,
}

-- the algorithms of the commands
pub data TpmAlgId : Type 0 where
  rsassa : TpmAlgId
  sha256 : TpmAlgId

-- the tag and the hierarchy of the ticket
pub data Ticket : Type 0 where
  hash_check_null : Ticket

-- `TpmSignCommand` and the session it is authorized by: handle, digest, scheme and hash, the ticket and
-- its digest, and the session's handle, whose nonce, attributes and hmac are the defaults.
pub record SignCommand : Type 0 where
  pub handle : ℕ
  pub digest : Bytes
  pub scheme : TpmAlgId
  pub hash_alg : TpmAlgId
  pub ticket : Ticket
  pub ticket_digest : Bytes
  pub session_handle : ℕ

-- What the crates `tpm2_protocol` and `sha2` give: the check of a digest and the bytes of the commands
-- in a buffer of 4096, with an error's text, and the hash.
pub record TpmLib : Type 0 where
  pub tpm2b_digest : Bytes → Result Bytes Bytes
  pub marshal_sign : SignCommand → Result Bytes Bytes
  pub marshal_read_public : ℕ → Result Bytes Bytes
  pub digest : Bytes → Bytes

abbrev pub tpm_rs_pw : ℕ
tpm_rs_pw = 0x40000009

abbrev pub tpm_io_buf : ℕ
tpm_io_buf = 4096

-- `transact` of the actor: `device` is what the device answers to a command
unfoldable pub transact_by :
    (Bytes → Result Bytes JwtBackendError) → Bytes → Result Bytes JwtBackendError
transact_by device command = do
  buf ← device command
  if length buf == 0 then err backend_dead else ok (take tpm_io_buf buf)

module _ (lib : TpmLib) where
  unfoldable pub read_public_command : ℕ → Result Bytes Bytes
  read_public_command handle =
      map_err (λ e. codes "marshal: " ++ e) (lib.marshal_read_public handle)

  unfoldable pub sign_command : ℕ → Bytes → Result Bytes Bytes
  sign_command handle digest = do
    digest ← map_err (λ e. codes "digest: " ++ e) (lib.tpm2b_digest digest)
    map_err (λ e. codes "marshal: " ++ e)
        (lib.marshal_sign (record {
          handle = handle;
          digest = digest;
          scheme = rsassa;
          hash_alg = sha256;
          ticket = hash_check_null;
          ticket_digest = [];
          session_handle = tpm_rs_pw;
        }))

abbrev pub hex_digit : ℕ → ℕ
hex_digit n = if ltb n 10 then b'0' + n else b'a' + (n - 10)

-- `0x{:04x}` of a u16
abbrev pub hex4 : ℕ → Bytes
hex4 n =
    codes "0x"
    ++ (hex_digit (n / 16 ^ 3 % 16)
        ∷ hex_digit (n / 16 ^ 2 % 16)
        ∷ hex_digit (n / 16 % 16)
        ∷ hex_digit (n % 16)
        ∷ [])

-- the texts of the errors of src/providers/tpm_backend/wire.rs
unfoldable pub describe : TpmError → Bytes
unfolding decimal
describe (bad_response text) = text
describe no_body = codes "no body"
describe truncated_u16 = codes "truncated u16"
describe truncated_u32 = codes "truncated u32"
describe truncated_tpm2b = codes "truncated TPM2B"
describe (unexpected_signature_alg alg) = codes "unexpected signature alg " ++ hex4 alg
describe (not_rsa type) = codes "key is not RSA (type " ++ (hex4 type ++ codes ")")
describe (symmetric_alg alg) =
    codes "key symmetric alg " ++ (hex4 alg ++ codes " != NULL (not an unrestricted signing key)")
describe (not_rsa2048 bits) = codes "key is RSA-" ++ (decimal bits ++ codes ", expected RSA-2048")

module _ (jwt : JwtLib) (lib : TpmLib) (responses : TpmResponses)
    (transact : Bytes → Result Bytes JwtBackendError) (persistent_handle : ℕ) where
  -- `TpmBackend::sign`
  unfoldable pub sign : JwtClaims → Result Bytes JwtBackendError
  unfolding signing_input sign_command parse_sign assemble_jwt to_string describe
  sign claims = do
    input ← map_err (λ e. backend (to_string e)) (signing_input jwt claims)
    command ←
        map_err (λ e. backend (codes "build sign: " ++ e))
          (sign_command lib persistent_handle (lib.digest input))
    response ← transact command
    signature ←
        map_err (λ e. backend (codes "sign: " ++ describe e)) (parse_sign responses response)
    ok (assemble_jwt jwt input signature)

  -- `TpmBackend::self_check`
  unfoldable pub self_check : Result (Unit {0}) JwtBackendError
  unfolding read_public_command verify_rsa2048_signing_key describe
  self_check = do
    command ←
        map_err (λ e. backend (codes "build read_public: " ++ e))
          (read_public_command lib persistent_handle)
    response ← transact command
    map_err (λ e. backend (codes "read_public: " ++ describe e))
        (verify_rsa2048_signing_key responses response)
