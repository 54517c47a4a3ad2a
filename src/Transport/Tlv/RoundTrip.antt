-- ===== src/Transport/Tlv/RoundTrip.antt =====
-- Parsing inverts encoding, and accepts nothing else.
use symbolon.Prelude.{
  ℕ, ◌+◌, ◌%◌, ◌≤◌, ◌<◌, ◌≡◌, refl, sym, ap, ◌∙◌, subst, ◌↔◌, ◌⊎◌, inl, inr, some, [], ◌∷◌, ◌++◌,
  arith, Option-cases, length, length-append, take, drop, take-append-drop, length-take,
  take-append_self, All-imp, Bytes, bytes_eq_iff, ok, bind-eq-ok,
}
use symbolon.Identity.{Identity}
use symbolon.Identity.Rule.{IsIdentity, Good, Good-ne, parse-eq-ok_iff}
use symbolon.Utf8.{Expect, fresh, more, next_byte, invalid_from, invalid_at, invalid_at_ascii}
use symbolon.Transport.Tlv.{
  tlv_magic, tlv_version, encode_identity_tlv, parse_tlv_head, parse_tlv_body, tlv_body,
  parse_identity_tlv,
}

invalid_from-lt :
    (x : Expect) (start i : ℕ) (bs : Bytes) (n : ℕ)
    → invalid_from x start i bs ≡ some n
    → (x ≡ fresh) ⊎ (start < i)
    → n < i + length bs
unfolding invalid_from
invalid_from-lt fresh start i [] n h b = cc
invalid_from-lt (more k lo hi) start i [] n h b = ground arith
invalid_from-lt fresh start i (c ∷ bs) n h b = elim (Option-cases (next_byte fresh c)) [
  | inl e ↦ ground arith
  | inr (y, e) ↦ ground (arith, invalid_from-lt y i (i + 1) bs n)
]
invalid_from-lt (more k lo hi) start i (c ∷ bs) n h b =
    elim (Option-cases (next_byte (more k lo hi) c)) [
      | inl e ↦ ground arith
      | inr (y, e) ↦ ground (arith, invalid_from-lt y start (i + 1) bs n)
    ]

-- The offset that a UTF-8 error reports lies in the text, so reading the byte there is safe.
pub invalid_at-lt-length : (bs : Bytes) (n : ℕ) → invalid_at bs ≡ some n → n < length bs
unfolding invalid_at
invalid_at-lt-length bs n h = omega (arith, invalid_from-lt fresh 0 0 bs n h (inl refl))

-- A body that parses is an identity, and the returned one.
parse_tlv_body-eq-ok_iff :
    (body : Bytes) (id : Identity)
    → (parse_tlv_body body ≡ ok id) ↔ ((id.text ≡ body) × IsIdentity body)
unfolding parse_tlv_body
parse_tlv_body-eq-ok_iff body id = (
  λ h. (parse-eq-ok_iff body id).0 (elim (Option-cases (invalid_at body)) [
    | inl e ↦ ground arith
    | inr (n, e) ↦ absurd (ground arith)
  ]),
  λ (e, v).
      let fine =
        invalid_at_ascii body (All-imp Good (λ b. b < 128) (λ b g. (Good-ne b g).0) body v.good) in
      ground (arith, fine, (parse-eq-ok_iff body id).1 (e, v)),
)

-- An identity's body is read back from its encoding.
pub parse-encode :
    (id : Identity) (rest : Bytes)
    → IsIdentity id.text
    → parse_identity_tlv (encode_identity_tlv id ++ rest) ≡ ok (id, length (encode_identity_tlv id))
unfolding parse_identity_tlv parse_tlv_head encode_identity_tlv
parse-encode id rest v = ground (
  arith,
  v.nonempty,
  v.short,
  length-append id.text rest,
  take-append_self id.text rest,
  (parse_tlv_body-eq-ok_iff id.text id).1 (refl, v),
)

parse_tlv_head-eq-ok :
    (magic : Bytes) (version len l : ℕ)
    → parse_tlv_head magic version len ≡ ok l
    → (magic ≡ tlv_magic) × (version ≡ tlv_version) × (l ≡ len)
unfolding parse_tlv_head
parse_tlv_head-eq-ok magic version len l h = ground (arith, bytes_eq_iff magic tlv_magic)

tlv_body-eq-ok :
    (l : ℕ) (rest body : Bytes)
    → tlv_body l rest ≡ ok body
    → (l ≤ length rest) × (body ≡ take l rest)
unfolding tlv_body
tlv_body-eq-ok l rest body h = ground arith

-- What an accepted input looks like, behind its six bytes of head.
abbrev Accepts : Bytes → ℕ → ℕ → Bytes → Identity → ℕ → Type 0
Accepts magic version len rest id n =
    (magic ≡ tlv_magic)
    × (version ≡ tlv_version)
    × (len ≡ length id.text)
    × (n ≡ 6 + len)
    × (id.text ≡ take len rest)
    × (len ≤ length rest)
    × IsIdentity id.text

parse-Accepts :
    (m0 m1 m2 m3 version len : ℕ) (rest : Bytes) (id : Identity) (n : ℕ)
    → parse_identity_tlv (m0 ∷ m1 ∷ m2 ∷ m3 ∷ version ∷ len ∷ rest) ≡ ok (id, n)
    → Accepts (m0 ∷ m1 ∷ m2 ∷ m3 ∷ []) version len rest id n
unfolding parse_identity_tlv
parse-Accepts m0 m1 m2 m3 version len rest id n h =
    let magic = m0 ∷ m1 ∷ m2 ∷ m3 ∷ [] in
    let (l, head, h1) = bind-eq-ok (parse_tlv_head magic version len) _ h in
    let (body, cut, h2) = bind-eq-ok (tlv_body l rest) _ h1 in
    let (j, parsed, h3) = bind-eq-ok (parse_tlv_body body) _ h2 in
    let same : j ≡ id = ground arith in
    let (text, valid) = (parse_tlv_body-eq-ok_iff body id).0 (rw same at parsed) in
    let (is_magic, is_version, l_len) = parse_tlv_head-eq-ok magic version len l head in
    let (fits, body_take) = tlv_body-eq-ok l rest body cut in
    let long = length-take l rest fits in
    let text_take : id.text ≡ take l rest = text ∙ body_take in
    let len_text : len ≡ length id.text = sym l_len ∙ sym long ∙ ap length (sym text_take) in
    (
      is_magic,
      is_version,
      len_text,
      ground arith,
      rw l_len at text_take,
      rw l_len at fits,
      subst IsIdentity (sym text) valid,
    )

accepted_rest :
    (m0 m1 m2 m3 version len : ℕ) (rest : Bytes) (id : Identity) (n : ℕ)
    → Accepts (m0 ∷ m1 ∷ m2 ∷ m3 ∷ []) version len rest id n
    → (m0 ∷ m1 ∷ m2 ∷ m3 ∷ version ∷ len ∷ rest) ≡ encode_identity_tlv id ++ drop len rest
unfolding encode_identity_tlv
accepted_rest m0 m1 m2 m3 version len rest id n
      (is_magic, is_version, len_text, size, text, fits, v) =
    let small : length id.text % 256 ≡ len = omega (arith, v.short) in
    ground (arith, small, take-append-drop len rest, is_magic)

parse-accepted :
    (input : Bytes) (id : Identity) (n : ℕ)
    → parse_identity_tlv input ≡ ok (id, n)
    → IsIdentity id.text
      × (n ≡ length (encode_identity_tlv id))
      × ((rest : Bytes) × (input ≡ encode_identity_tlv id ++ rest))
unfolding parse_identity_tlv encode_identity_tlv
parse-accepted (m0 ∷ m1 ∷ m2 ∷ m3 ∷ version ∷ len ∷ rest) id n h =
    let a = parse-Accepts m0 m1 m2 m3 version len rest id n h in
    let (_, _, len_text, size, _, _, v) = a in
    (v, omega arith, (drop len rest, accepted_rest m0 m1 m2 m3 version len rest id n a))
parse-accepted _ id n h = cc

-- `parse_identity_tlv` accepts exactly the inputs that begin with the encoding of an identity; it
-- returns that identity and the length of its encoding, and leaves what follows.
pub parse_identity_tlv-eq-ok_iff :
    (input : Bytes) (id : Identity) (n : ℕ)
    → (parse_identity_tlv input ≡ ok (id, n)) ↔ (
        IsIdentity id.text
        × (n ≡ length (encode_identity_tlv id))
        × ((rest : Bytes) × (input ≡ encode_identity_tlv id ++ rest)))
parse_identity_tlv-eq-ok_iff input id n =
    (parse-accepted input id n, λ (v, e, r). rw (r.1, e) (parse-encode id r.0 v))
