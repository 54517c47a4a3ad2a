-- ===== src/Tests/Signing.antt =====
-- A run of the two signing backends.
use symbolon.Prelude.{
  ℕ, ◌%◌, ◌≡◌, refl, none, some, [], ◌∷◌, arith, length, replicate, Bytes, Result, ok,
}
use symbolon.Strings.{codes}
use symbolon.JwtBackend.{JwtBackendError}
use symbolon.JwtRs256.{JwtLib}
use symbolon.Agent
use symbolon.Agent.{exchange_by}
use symbolon.Agent.Exchange.{channel}
use symbolon.TpmWire.{TpmResponses, success, response_ok, tpm_alg_rsassa}
use symbolon.TpmWire.Layout.{sign_response}
use symbolon.TpmBackend.{TpmLib, sign, transact_by}
use symbolon.TpmBackend.Same.{signer, token_of, Signs, tpm-agent}
use symbolon.Tests.Agent.{toy_json, toy_json-IsJson, claims}

-- The hash is the length; a key is a byte, put before the hash.
abbrev hash_of : Bytes → Bytes
hash_of m = length m % 256 ∷ []

abbrev toy_jwt : JwtLib
toy_jwt = record {
  Key = ℕ;
  claims_to_vec = λ c. some c.iss;
  encode_string = λ b. b;
  from_pkcs8_pem = λ pem. none;
  from_pkcs1_pem = λ pem. none;
  sign = λ key m. key ∷ hash_of m;
}

abbrev toy_tpm : TpmLib
toy_tpm = record {
  tpm2b_digest = λ d. ok d;
  marshal_sign = λ c. ok c.digest;
  marshal_read_public = λ handle. ok [];
  digest = hash_of;
}

abbrev header : Bytes
header = replicate 10 0

-- the device with the key 5
abbrev device : Bytes → Result Bytes JwtBackendError
device command = ok (sign_response header 0 tpm_alg_rsassa 11 (5 ∷ command) [])

abbrev responses : TpmResponses
responses = record { TpmResponse = Bytes; cast = λ resp. ok resp; rc = λ r. ok success }

signs : (m : Bytes) → Signs toy_tpm responses device 1 (hash_of m) (5 ∷ hash_of m)
unfolding response_ok
signs m = record {
  command = hash_of m;
  checked = refl;
  built = refl;
  header = header;
  ten = refl;
  size = 0;
  hash = 11;
  auth = [];
  answers = refl;
  success = refl;
  fits = omega arith;
}

tpm-agent_example :
    (sign toy_jwt toy_tpm responses (transact_by device) 1 claims
      ≡ Agent.sign toy_json (exchange_by (channel toy_json (signer toy_jwt 5))) claims)
    × (sign toy_jwt toy_tpm responses (transact_by device) 1 claims
        ≡ ok (token_of toy_jwt 5 (codes "Iv1")))
tpm-agent_example =
    tpm-agent toy_tpm responses device 1 toy_jwt toy_json 5 toy_json-IsJson signs claims
      (codes "Iv1") refl (omega arith) (omega arith)
