-- ===== src/TpmWire.antt =====
-- The responses of the TPM that the broker reads: src/providers/tpm_backend/wire.rs.
pub mod Layout
use symbolon.Prelude.{
  ℕ, suc, ◌+◌, ◌*◌, [], ◌∷◌, ◌++◌, leb, ◌==◌, if◌then◌else◌, length, take, drop, Bytes, Result, ok,
  err, ◌>>=◌, ◌>>◌, map_err,
}
use symbolon.Strings.{codes}

-- The texts of the errors, by their kind; `bad_response` is that of the crate `tpm2-protocol`.
pub data TpmError : Type 0 where
  bad_response : Bytes → TpmError
  no_body : TpmError
  truncated_u16 : TpmError
  truncated_u32 : TpmError
  truncated_tpm2b : TpmError
  unexpected_signature_alg : ℕ → TpmError
  not_rsa : ℕ → TpmError
  symmetric_alg : ℕ → TpmError
  not_rsa2048 : ℕ → TpmError

abbrev pub tpm_alg_rsa : ℕ
tpm_alg_rsa = 0x0001

abbrev pub tpm_alg_null : ℕ
tpm_alg_null = 0x0010

abbrev pub tpm_alg_rsassa : ℕ
tpm_alg_rsassa = 0x0014

-- `Cursor`: the bytes and the position of the next
pub record Cursor : Type 0 where
  pub b : Bytes
  pub i : ℕ

unfoldable pub new : Bytes → Cursor
new b = record { b = b; i = 0 }

-- `self.b.get(self.i..self.i + n)` and the step behind it
unfoldable pub advance : ℕ → TpmError → Cursor → Result (Bytes × Cursor) TpmError
advance n truncated c =
    if leb (c.i + n) (length c.b)
    then ok (take n (drop c.i c.b), record { b = c.b; i = c.i + n })
    else err truncated

-- `from_be_bytes`
abbrev pub from_be : ℕ → Bytes → ℕ
from_be n [] = n
from_be n (b ∷ bs) = from_be (n * 256 + b) bs

unfoldable pub u16 : Cursor → Result (ℕ × Cursor) TpmError
unfolding advance
u16 c = do read ← advance 2 truncated_u16 c; ok (from_be 0 read.0, read.1)

unfoldable pub u32 : Cursor → Result (ℕ × Cursor) TpmError
unfolding advance
u32 c = do read ← advance 4 truncated_u32 c; ok (from_be 0 read.0, read.1)

unfoldable pub tpm2b : Cursor → Result (Bytes × Cursor) TpmError
unfolding u16 advance
tpm2b c = do size ← u16 c; advance size.0 truncated_tpm2b size.1

-- `resp.get(10..)`
unfoldable pub body_of : Bytes → Result Bytes TpmError
body_of resp = if leb 10 (length resp) then ok (drop 10 resp) else err no_body

-- the scheme, with its hash algorithm unless it is `NULL`, and the bits of the key
unfoldable pub verify_scheme : Cursor → Result (Unit {0}) TpmError
unfolding u16
verify_scheme c = do
  scheme ← u16 c
  c ← (if scheme.0 == tpm_alg_null then ok scheme.1 else (do hash ← u16 scheme.1; ok hash.1))
  key_bits ← u16 c
  if key_bits.0 == 2048 then ok tt else err (not_rsa2048 key_bits.0)

unfoldable pub verify_public : Bytes → Result (Unit {0}) TpmError
unfolding new u16 u32 tpm2b verify_scheme
verify_public public = do
  obj_type ← u16 (new public)
  if obj_type.0 == tpm_alg_rsa
      then (do
        name_alg ← u16 obj_type.1
        attrs ← u32 name_alg.1
        auth_policy ← tpm2b attrs.1
        sym_alg ← u16 auth_policy.1
        if sym_alg.0 == tpm_alg_null
            then verify_scheme sym_alg.1
            else err (symmetric_alg sym_alg.0))
      else err (not_rsa obj_type.0)

-- The response code: success, or another by its text.
pub data TpmRc : Type 0 where
  success : TpmRc
  failure : Bytes → TpmRc

-- `TpmResponse::cast` and `rc` of the crate `tpm2_protocol`, an error as its text.
pub record TpmResponses : Type 1 where
  pub TpmResponse : Type 0
  pub cast : Bytes → Result TpmResponse Bytes
  pub rc : TpmResponse → Result TpmRc Bytes

module _ (responses : TpmResponses) where
  unfoldable pub response_ok : Bytes → Result (Unit {0}) TpmError
  response_ok resp = do
    response ← map_err (λ e. bad_response (codes "bad response: " ++ e)) (responses.cast resp)
    rc ← map_err (λ e. bad_response (codes "bad rc: " ++ e)) (responses.rc response)
    elim rc [ success ↦ ok tt | failure text ↦ err (bad_response (codes "TPM returned " ++ text)) ]

  unfoldable pub parse_sign : Bytes → Result Bytes TpmError
  unfolding response_ok body_of new u16 u32 tpm2b
  parse_sign resp = do
    response_ok resp
    body ← body_of resp
    param_size ← u32 (new body)
    sig_alg ← u16 param_size.1
    if sig_alg.0 == tpm_alg_rsassa
        then (do hash_alg ← u16 sig_alg.1; sig ← tpm2b hash_alg.1; ok sig.0)
        else err (unexpected_signature_alg sig_alg.0)

  unfoldable pub verify_rsa2048_signing_key : Bytes → Result (Unit {0}) TpmError
  unfolding response_ok body_of new tpm2b verify_public
  verify_rsa2048_signing_key resp = do
    response_ok resp
    body ← body_of resp
    public ← tpm2b (new body)
    verify_public public.0
