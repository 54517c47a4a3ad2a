-- ===== src/JwtRs256.antt =====
-- The tokens of the signing key: src/providers/jwt_rs256.rs.
use symbolon.Prelude.{Option, none, some, ◌∷◌, ◌++◌, Bytes, Result, ok, err, ◌>>=◌, ok_or}
use symbolon.Strings.{codes}
use symbolon.Utf8.{invalid_at}
use symbolon.JwtBackend.{JwtClaims}

pub data JwtError : Type 0 where
  pem_utf8 : JwtError
  pem_parse : JwtError
  serialize_claims : JwtError

-- `to_string`
unfoldable pub to_string : JwtError → Bytes
to_string pem_utf8 = codes "PEM is not valid UTF-8"
to_string pem_parse = codes "PEM parse failed — not a recognised PKCS#1 or PKCS#8 RSA private key"
to_string serialize_claims = codes "claims serialization failed"

-- What the libraries `serde_json`, `base64` and `rsa` give: the JSON of claims, none for an error;
-- base64url without padding; the two readers of a key; and the signature of a message.
pub record JwtLib : Type 1 where
  pub Key : Type 0
  pub claims_to_vec : JwtClaims → Option Bytes
  pub encode_string : Bytes → Bytes
  pub from_pkcs8_pem : Bytes → Option Key
  pub from_pkcs1_pem : Bytes → Option Key
  pub sign : Key → Bytes → Bytes

abbrev pub header_b64 : Bytes
header_b64 = codes "eyJ0eXAiOiJKV1QiLCJhbGciOiJSUzI1NiJ9"

module _ (lib : JwtLib) where
  -- `JwtSigningKey::from_pem`
  unfoldable pub from_pem : Bytes → Result lib.Key JwtError
  from_pem pem_bytes = elim (invalid_at pem_bytes) [
    | some _ ↦ err pem_utf8
    | none ↦ elim (lib.from_pkcs8_pem pem_bytes) [
      | some key ↦ ok key
      | none ↦ ok_or (lib.from_pkcs1_pem pem_bytes) pem_parse
    ]
  ]

  unfoldable pub signing_input : JwtClaims → Result Bytes JwtError
  signing_input claims = do
    payload_json ← ok_or (lib.claims_to_vec claims) serialize_claims
    ok (header_b64 ++ b'.' ∷ lib.encode_string payload_json)

  unfoldable pub assemble_jwt : Bytes → Bytes → Bytes
  assemble_jwt input signature = input ++ b'.' ∷ lib.encode_string signature

  -- `JwtSigningKey::sign_rs256`
  unfoldable pub sign_rs256 : lib.Key → JwtClaims → Result Bytes JwtError
  unfolding signing_input assemble_jwt
  sign_rs256 key claims = do
    input ← signing_input claims
    ok (assemble_jwt input (lib.sign key input))
