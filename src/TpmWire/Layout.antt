-- ===== src/TpmWire/Layout.antt =====
-- What the readers make of the structures that a TPM sends.
use symbolon.Prelude.{
  ℕ, zero, suc, ◌+◌, ◌-◌, ◌/◌, ◌%◌, ◌^◌, ◌≤◌, ◌≡◌, refl, sym, ap, ◌∙◌, inl, inr, true, [], ◌∷◌,
  ◌++◌, arith, leb, ◌==◌, if◌then◌else◌, le→leb, Bool-cases, length, length-append, drop,
  take-append_self, Bytes, ok, err,
}
use symbolon.TpmWire.{
  TpmResponses, response_ok, TpmError, unexpected_signature_alg, not_rsa, symmetric_alg,
  not_rsa2048, tpm_alg_rsa, tpm_alg_null, tpm_alg_rsassa, Cursor, new, advance, u16, u32, tpm2b,
  from_be, body_of, parse_sign, verify_scheme, verify_public, verify_rsa2048_signing_key,
}

drop-length : (i : ℕ) (b : Bytes) → length (drop i b) ≡ length b - i
drop-length zero b = omega arith
drop-length (suc i) [] = omega arith
drop-length (suc i) (x ∷ b) = drop-length i b ∙ omega arith

drop_nil : (n : ℕ) → drop {A = ℕ} n [] ≡ []
drop_nil zero = refl
drop_nil (suc n) = refl

suc_add : (i n : ℕ) → suc i + n ≡ suc (i + n)
suc_add i n = omega arith

drop-drop : (i n : ℕ) (b : Bytes) → drop (i + n) b ≡ drop n (drop i b)
drop-drop zero n b = ap (λ m. drop m b) (omega arith)
drop-drop (suc i) n [] = ap (λ m. drop m []) (suc_add i n) ∙ sym (drop_nil n)
drop-drop (suc i) n (x ∷ b) = ap (λ m. drop m (x ∷ b)) (suc_add i n) ∙ drop-drop i n b

drop-append : (s t : Bytes) → drop (length s) (s ++ t) ≡ t
drop-append [] t = refl
drop-append (x ∷ s) t = drop-append s t

-- The cursor stands before `rest`.
record At (c : Cursor) (rest : Bytes) : Type 0 where
  within : c.i ≤ length c.b
  there : drop c.i c.b ≡ rest

At-new : (b : Bytes) → At (new b) b
unfolding new
At-new b = record { within = omega arith; there = refl }

-- A step over bytes that are there reads them.
advance-At :
    (s rest : Bytes) (e : TpmError) (c : Cursor)
    → At c (s ++ rest)
    → (c' : Cursor) × (advance (length s) e c ≡ ok (s, c')) × At c' rest
unfolding advance
advance-At s rest e c at =
    let count = drop-length c.i c.b in
    let total = ap length (at.there) ∙ length-append s rest in
    let w = at.within in
    let fits : c.i + length s ≤ length c.b = omega arith in
    let test : leb (c.i + length s) (length c.b) ≡ true =
      le→leb (c.i + length s) (length c.b) fits in
    let c' : Cursor = record { b = c.b; i = c.i + length s } in
    (
      c',
      rw (advance, test, at.there, take-append_self s rest) refl,
      record {
        within = fits;
        there = drop-drop c.i (length s) c.b ∙ ap (drop (length s)) at.there ∙ drop-append s rest;
      },
    )

-- the bytes of a 16 bit and of a 32 bit number
abbrev pub be16 : ℕ → Bytes
be16 n = n / 256 ∷ n % 256 ∷ []

abbrev pub be32 : ℕ → Bytes
be32 n = n / 2 ^ 24 ∷ n / 2 ^ 16 % 256 ∷ n / 256 % 256 ∷ n % 256 ∷ []

u16-At :
    (n : ℕ) (rest : Bytes) (c : Cursor)
    → At c (be16 n ++ rest)
    → (c' : Cursor) × (u16 c ≡ ok (n, c')) × At c' rest
unfolding u16
u16-At n rest c at =
    let (c', read, next) = advance-At (be16 n) rest TpmError.truncated_u16 c at in
    let value : from_be 0 (be16 n) ≡ n = omega arith in (c', rw (u16, read, value) refl, next)

u32-At :
    (n : ℕ) (rest : Bytes) (c : Cursor)
    → At c (be32 n ++ rest)
    → (c' : Cursor) × (u32 c ≡ ok (n, c')) × At c' rest
unfolding u32
u32-At n rest c at =
    let (c', read, next) = advance-At (be32 n) rest TpmError.truncated_u32 c at in
    let value : from_be 0 (be32 n) ≡ n = omega arith in (c', rw (u32, read, value) refl, next)

-- a `TPM2B`: the length and the bytes
abbrev pub sized : Bytes → Bytes
sized s = be16 (length s) ++ s

tpm2b-At :
    (s rest : Bytes) (c : Cursor)
    → At c (be16 (length s) ++ (s ++ rest))
    → (c' : Cursor) × (tpm2b c ≡ ok (s, c')) × At c' rest
unfolding tpm2b
tpm2b-At s rest c at =
    let (c1, size, behind) = u16-At (length s) (s ++ rest) c at in
    let (c2, read, next) = advance-At s rest TpmError.truncated_tpm2b c1 behind in
    (c2, rw (tpm2b, size, read) refl, next)

-- The response to a signing: ten bytes of header, the size of the parameters, the algorithms, the
-- signature, and what follows.
abbrev pub sign_response : Bytes → ℕ → ℕ → ℕ → Bytes → Bytes → Bytes
sign_response header size alg hash sig auth =
    header ++ (be32 size ++ (be16 alg ++ (be16 hash ++ (be16 (length sig) ++ (sig ++ auth)))))

body_of-append : (header body : Bytes) → length header ≡ 10 → body_of (header ++ body) ≡ ok body
unfolding body_of
body_of-append header body ten =
    let behind : drop 10 (header ++ body) ≡ body =
      ap (λ n. drop n (header ++ body)) (sym ten) ∙ drop-append header body in
    let long : leb 10 (length (header ++ body)) ≡ true =
      le→leb 10 (length (header ++ body)) (omega (arith, length-append header body)) in
    rw (body_of, long, behind) refl

-- the scheme of a key, with its hash algorithm unless it is `NULL`, and the bits
abbrev pub scheme_part : ℕ → ℕ → ℕ → Bytes → Bytes
scheme_part scheme hash bits rest =
    be16 scheme
    ++ (if scheme == tpm_alg_null then be16 bits ++ rest else be16 hash ++ (be16 bits ++ rest))

-- the public part of a key, as `TPMT_PUBLIC`
abbrev pub public_part : ℕ → ℕ → ℕ → Bytes → ℕ → ℕ → ℕ → ℕ → Bytes → Bytes
public_part type name attrs policy sym_alg scheme hash bits rest =
    be16 type
    ++ (be16 name
        ++ (be32 attrs
            ++ (be16 (length policy)
                ++ (policy ++ (be16 sym_alg ++ scheme_part scheme hash bits rest)))))

verify_scheme-At :
    (scheme hash bits : ℕ) (rest : Bytes) (c : Cursor)
    → At c (scheme_part scheme hash bits rest)
    → verify_scheme c ≡ (if bits == 2048 then ok tt else err (not_rsa2048 bits))
unfolding verify_scheme
verify_scheme-At scheme hash bits rest c at =
    let (c1, r1, at1) = u16-At scheme _ c at in
    elim (Bool-cases (scheme == tpm_alg_null)) [
      | inl bare ↦
          let (c2, r2, at2) = u16-At bits rest c1 (rw bare at at1) in
          rw (verify_scheme, r1, bare, r2) refl
      | inr hashed ↦
          let (c2, r2, at2) = u16-At hash (be16 bits ++ rest) c1 (rw hashed at at1) in
          let (c3, r3, at3) = u16-At bits rest c2 at2 in rw (verify_scheme, r1, hashed, r2, r3) refl
    ]

verify_public-part :
    (type name attrs : ℕ) (policy : Bytes) (sym_alg scheme hash bits : ℕ) (rest : Bytes)
    → verify_public (public_part type name attrs policy sym_alg scheme hash bits rest) ≡ (
        if type == tpm_alg_rsa
        then (if sym_alg == tpm_alg_null
            then (if bits == 2048 then ok tt else err (not_rsa2048 bits))
            else err (symmetric_alg sym_alg))
        else err (not_rsa type))
unfolding verify_public
verify_public-part type name attrs policy sym_alg scheme hash bits rest =
    let public = public_part type name attrs policy sym_alg scheme hash bits rest in
    let (c1, r1, at1) = u16-At type _ (new public) (At-new public) in
    let (c2, r2, at2) = u16-At name _ c1 at1 in
    let (c3, r3, at3) = u32-At attrs _ c2 at2 in
    let (c4, r4, at4) = tpm2b-At policy _ c3 at3 in
    let (c5, r5, at5) = u16-At sym_alg _ c4 at4 in
    rw (verify_public, r1, r2, r3, r4, r5, verify_scheme-At scheme hash bits rest c5 at5) refl

module _ (responses : TpmResponses) where
  -- A signing that the TPM calls a success returns the signature that the response carries, whatever
  -- the parameters' size, the hash algorithm and the bytes behind it say, if its algorithm is RSASSA,
  -- and is refused with the algorithm otherwise.
  pub parse_sign-response :
      (header sig auth : Bytes) (size alg hash : ℕ)
      → length header ≡ 10
      → response_ok responses (sign_response header size alg hash sig auth) ≡ ok tt
      → parse_sign responses (sign_response header size alg hash sig auth)
        ≡ (if alg == tpm_alg_rsassa then ok sig else err (unexpected_signature_alg alg))
  unfolding parse_sign
  parse_sign-response header sig auth size alg hash ten success =
      let body = be32 size ++ (be16 alg ++ (be16 hash ++ (be16 (length sig) ++ (sig ++ auth)))) in
      let (c1, r1, at1) = u32-At size _ (new body) (At-new body) in
      let (c2, r2, at2) = u16-At alg _ c1 at1 in
      let (c3, r3, at3) = u16-At hash _ c2 at2 in
      let (c4, r4, at4) = tpm2b-At sig auth c3 at3 in
      rw (parse_sign, success, body_of-append header body ten, r1, r2, r3, r4) refl

  -- A key that the TPM reads out passes the check at startup exactly if it is an RSA key, has no
  -- symmetric algorithm, as a key that only signs, and has 2048 bits, with any policy and any scheme,
  -- also one that does not fit RSASSA; the error of any other key names the first of these that fails.
  pub verify_rsa2048_signing_key-public :
      (header names : Bytes) (type name attrs : ℕ) (policy : Bytes) (sym_alg scheme hash bits : ℕ)
      (rest : Bytes)
      → let public = public_part type name attrs policy sym_alg scheme hash bits rest in
        length header ≡ 10
        → response_ok responses (header ++ (be16 (length public) ++ (public ++ names))) ≡ ok tt
        → verify_rsa2048_signing_key responses
            (header ++ (be16 (length public) ++ (public ++ names)))
          ≡ (if type == tpm_alg_rsa
              then (if sym_alg == tpm_alg_null
                  then (if bits == 2048 then ok tt else err (not_rsa2048 bits))
                  else err (symmetric_alg sym_alg))
              else err (not_rsa type))
  unfolding verify_rsa2048_signing_key
  verify_rsa2048_signing_key-public header names type name attrs policy sym_alg scheme hash bits
        rest ten success =
      let public = public_part type name attrs policy sym_alg scheme hash bits rest in
      let body = be16 (length public) ++ (public ++ names) in
      let (c1, r1, at1) = tpm2b-At public names (new body) (At-new body) in
      rw
        (
          verify_rsa2048_signing_key,
          success,
          body_of-append header body ten,
          r1,
          verify_public-part type name attrs policy sym_alg scheme hash bits rest,
        )
        refl
