-- ===== src/Identity/Rule.antt =====
-- The rule that `Identity::parse` enforces, and what an error of it says.
use symbolon.Prelude.{
  ℕ, suc, ◌+◌, ◌≤◌, ◌<◌, ◌≡◌, refl, ap, ◌≢◌, ◌↔◌, ◌⊎◌, inl, inr, true, false, none, some, [], ◌∷◌,
  ◌++◌, arith, Bool-cases, Option-cases, length, All, Bytes, ok, err,
}
use symbolon.Identity.{
  Identity, IdentityError, bad_len, bad_charset, max_len, in_charset, find_bad, parse,
}

-- The bytes of a name: digits, letters, full stop, underscore and hyphen, by their codes.
abbrev pub Good : ℕ → Type 0
Good b =
    ((48 ≤ b) × (b ≤ 57))
    ⊎ (((65 ≤ b) × (b ≤ 90)) ⊎ (((97 ≤ b) × (b ≤ 122)) ⊎ ((b ≡ 46) ⊎ ((b ≡ 95) ⊎ (b ≡ 45)))))

in_charset-Good : (b : ℕ) → (in_charset b ≡ true) ↔ Good b
unfolding in_charset
in_charset-Good b = (λ h. ground arith, λ h. ground arith)

-- 1 to 64 such bytes
pub record IsIdentity (s : Bytes) : Type 0 where
  pub nonempty : 1 ≤ length s
  pub short : length s ≤ 64
  pub good : All Good s

find_bad-none : (i : ℕ) (s : Bytes) → find_bad i s ≡ none → All Good s
unfolding find_bad
find_bad-none i [] h = tt
find_bad-none i (b ∷ s) h = elim (Bool-cases (in_charset b)) [
  | inl g ↦ ((in_charset-Good b).0 g, find_bad-none (i + 1) s (rw g at h))
  | inr g ↦ cc (rw g at h)
]

pub find_bad-Good : (i : ℕ) (s : Bytes) → All Good s → find_bad i s ≡ none
unfolding find_bad
find_bad-Good i [] h = refl
find_bad-Good i (b ∷ s) h = rw ((in_charset-Good b).1 h.0) (find_bad-Good (i + 1) s h.1)

-- `s` has its first byte outside the charset, `c`, behind `pre`.
pub record FirstBad (s : Bytes) (i c : ℕ) : Type 0 where
  pub pre : Bytes
  pub post : Bytes
  pub splits : s ≡ pre ++ c ∷ post
  pub offset : i ≡ length pre
  pub good : All Good pre
  pub bad : in_charset c ≡ false

find_bad-some :
    (i : ℕ) (s : Bytes) {j c : ℕ}
    → find_bad i s ≡ some (j, c)
    → (k : ℕ) × (j ≡ i + k) × FirstBad s k c
unfolding find_bad
find_bad-some i [] h = cc
find_bad-some i (b ∷ s) {j} {c} h = elim (Bool-cases (in_charset b)) [
  | inl g ↦
      let (k, e, f) = find_bad-some (i + 1) s {j = j} {c = c} (rw g at h) in
      (
        suc k,
        omega arith,
        record {
          pre = b ∷ f.pre;
          post = f.post;
          splits = ap (◌∷◌ b) f.splits;
          offset = ap suc f.offset;
          good = ((in_charset-Good b).0 g, f.good);
          bad = f.bad;
        },
      )
  | inr g ↦ (
    0,
    ground arith,
    record {
      pre = [];
      post = s;
      splits = ground arith;
      offset = refl;
      good = tt;
      bad = ground arith;
    },
  )
]

-- `parse` accepts a text exactly when it has 1 to 64 bytes, each a digit, a letter, a full stop, an
-- underscore or a hyphen, and then returns the text itself.
pub parse-eq-ok_iff :
    (s : Bytes) (id : Identity) → (parse s ≡ ok id) ↔ ((id.text ≡ s) × IsIdentity s)
unfolding parse
parse-eq-ok_iff s id = (
  λ h. elim (Option-cases (find_bad 0 s)) [
    | inl n ↦ (
      ground arith,
      record { nonempty = ground arith; short = ground arith; good = find_bad-none 0 s n },
    )
    | inr (x, n) ↦ absurd (ground arith)
  ],
  λ (e, v). ground (arith, find_bad-Good 0 s v.good),
)

-- Each error of `parse` says what is wrong: a length out of range, or the first byte outside the
-- charset with its offset.
abbrev pub Explains : Bytes → IdentityError → Type 0
Explains s (bad_len n) = (n ≡ length s) × ((n ≡ 0) ⊎ (max_len < n))
Explains s (bad_charset i c) = (1 ≤ length s) × (length s ≤ max_len) × FirstBad s i c

-- What an error of `parse` says is so.
pub parse-Explains : (s : Bytes) (e : IdentityError) → parse s ≡ err e → Explains s e
unfolding parse
parse-Explains s (bad_len n) h = elim (Option-cases (find_bad 0 s)) [
  | inl m ↦ ground arith
  | inr (x, m) ↦ ground arith
]
parse-Explains s (bad_charset i c) h =
    let found : find_bad 0 s ≡ some (i, c) = ground arith in
    let (k, e, f) = find_bad-some 0 s found in
    (ground arith, ground arith, rw (← (let q : k ≡ i = omega arith in q)) f)

-- No byte of an identity can be mistaken for a separator of the formats that carry it.
pub Good-ne :
    (b : ℕ)
    → Good b
    → (b < 128) × (b ≢ b':') × (b ≢ b'\n') × (b ≢ b'\r') × (b ≢ 0) × (b ≢ b' ') × (b ≢ b'=')
Good-ne b h = (
  ground arith,
  λ q. ground arith,
  λ q. ground arith,
  λ q. ground arith,
  λ q. ground arith,
  λ q. ground arith,
  λ q. ground arith,
)
