-- ===== src/Strings/Lemmas.antt =====
-- Splitting and joining strings.
use symbolon.Prelude.{
  ℕ, zero, suc, ◌+◌, ◌-◌, ◌*◌, ◌/◌, ◌%◌, ◌≤◌, ◌<◌, ◌≡◌, refl, sym, ap, ◌∙◌, subst, ◌≢◌, inl, inr,
  Bool, true, not, ◌&&◌, Option, some, List, [], ◌∷◌, ◌++◌, arith, ltb, ◌==◌, Bool-cases,
  Option-cases, All, Bytes,
}
use symbolon.Strings.{split_once, split, push_front, digits_from, decimal}

-- No byte of the string is `c`.
abbrev pub Free : ℕ → Bytes → Type 0
Free c s = All (λ b. b ≢ c) s

-- A string without `c` ends where the first `c` stands.
pub split_once-append : (c : ℕ) (s t : Bytes) → Free c s → split_once c (s ++ c ∷ t) ≡ some (s, t)
unfolding split_once
split_once-append c [] t h = ground arith
split_once-append c (b ∷ s) t h = ground (arith, split_once-append c s t h.1)

-- The two parts are made of bytes of the string.
pub split_once-All {κ} :
    (P : ℕ → Type κ) (c : ℕ) (s before after : Bytes)
    → split_once c s ≡ some (before, after)
    → All P s
    → All P before × All P after
unfolding split_once
split_once-All P c [] before after h all = absurd (ground arith)
split_once-All P c (b ∷ s) before after h all = elim (Bool-cases (b == c)) [
  | inl here ↦
      let r : ◌≡◌ {A = Option (Bytes × Bytes)} (some ([], s)) (some (before, after)) =
        rw here at h in
      let b0 : ◌≡◌ {A = Bytes} [] before = ground arith in
      let a0 : s ≡ after = ground arith in (subst (All P) b0 tt, subst (All P) a0 all.1)
  | inr later ↦ elim (Option-cases (split_once c s)) [
    | inl absent ↦ absurd (ground arith)
    | inr ((b1, a1), found) ↦
        let ih = split_once-All P c s b1 a1 found all.1 in
        let b0 : b ∷ b1 ≡ before = ground arith in
        let a0 : a1 ≡ after = ground arith in
        (subst (All P) b0 (all.0, ih.0), subst (All P) a0 ih.1)
  ]
]

pub split-append : (c : ℕ) (s t : Bytes) → Free c s → split c (s ++ c ∷ t) ≡ s ∷ split c t
unfolding split
split-append c [] t h = ground arith
split-append c (b ∷ s) t h = ground (arith, split-append c s t h.1)

pub split_whole : (c : ℕ) (s : Bytes) → Free c s → split c s ≡ s ∷ []
unfolding split
split_whole c [] h = refl
split_whole c (b ∷ s) h = ground (arith, split_whole c s h.1)

push_front-Free :
    (c b : ℕ) (l : List Bytes) → b ≢ c → All (Free c) l → All (Free c) (push_front b l)
push_front-Free c b [] ne h = ((ne, tt), tt)
push_front-Free c b (line ∷ lines) ne h = ((ne, h.0), h.1)

-- The pieces of a split hold no separator.
pub split-Free : (c : ℕ) (s : Bytes) → All (Free c) (split c s)
unfolding split
split-Free c [] = (tt, tt)
split-Free c (b ∷ s) = elim (Bool-cases (b == c)) [
  | inl here ↦ rw here (tt, split-Free c s)
  | inr later ↦ rw later (push_front-Free c b (split c s) (λ q. ground arith) (split-Free c s))
]

digits_from-Free :
    (c fuel n : ℕ) (acc : Bytes) → c < b'0' → Free c acc → Free c (digits_from fuel n acc)
unfolding digits_from
digits_from-Free c zero n acc lt h = h
digits_from-Free c (suc fuel) n acc lt h = elim (Bool-cases (ltb n 10)) [
  | inl one ↦ rw one ((λ (q : b'0' + n ≡ c). omega arith), h)
  | inr more ↦ rw more (
      digits_from-Free c fuel (n / 10) ((b'0' + n % 10) ∷ acc) lt
        ((λ (q : b'0' + n % 10 ≡ c). omega arith), h))
]

-- A decimal numeral holds no byte below the digits.
pub decimal-Free : (c n : ℕ) → c < b'0' → Free c (decimal n)
unfolding decimal
decimal-Free c n lt = digits_from-Free c (suc n) n [] lt tt

abbrev pub IsDigit : ℕ → Type 0
IsDigit b = (b'0' ≤ b) × (b < b'0' + 10)

digits_from-IsDigit :
    (fuel n : ℕ) (acc : Bytes) → All IsDigit acc → All IsDigit (digits_from fuel n acc)
unfolding digits_from
digits_from-IsDigit zero n acc h = h
digits_from-IsDigit (suc fuel) n acc h = elim (Bool-cases (ltb n 10)) [
  | inl one ↦ (let small : n < 10 = ground arith in rw one ((omega arith, omega arith), h))
  | inr more ↦
      rw more
        (digits_from-IsDigit fuel (n / 10) ((b'0' + n % 10) ∷ acc) ((omega arith, omega arith), h))
]

-- A decimal numeral is made of digits.
pub decimal-IsDigit : (n : ℕ) → All IsDigit (decimal n)
unfolding decimal
decimal-IsDigit n = digits_from-IsDigit (suc n) n [] tt

digits_from-starts :
    (fuel n b : ℕ) (acc : Bytes) → (c : ℕ) × (s : Bytes) × (digits_from fuel n (b ∷ acc) ≡ c ∷ s)
unfolding digits_from
digits_from-starts zero n b acc = (b, acc, refl)
digits_from-starts (suc fuel) n b acc = elim (Bool-cases (ltb n 10)) [
  | inl one ↦ (b'0' + n, b ∷ acc, rw one refl)
  | inr more ↦
      let (c, s, q) = digits_from-starts fuel (n / 10) (b'0' + n % 10) (b ∷ acc) in
      (c, s, rw more q)
]

-- A decimal numeral is not empty.
pub decimal-starts : (n : ℕ) → (c : ℕ) × (s : Bytes) × (decimal n ≡ c ∷ s)
unfolding decimal digits_from
decimal-starts n = elim (Bool-cases (ltb n 10)) [
  | inl one ↦ (b'0' + n, [], rw one refl)
  | inr more ↦ let (c, s, q) = digits_from-starts n (n / 10) (b'0' + n % 10) [] in (c, s, rw more q)
]

-- the number that digits write behind the number `n`
abbrev pub read_from : ℕ → Bytes → ℕ
read_from n [] = n
read_from n (b ∷ bs) = read_from (n * 10 + (b - b'0')) bs

read_from-digits_from :
    (fuel n : ℕ) (acc : Bytes) → n < fuel → read_from 0 (digits_from fuel n acc) ≡ read_from n acc
unfolding digits_from
read_from-digits_from zero n acc lt = absurd (omega arith)
read_from-digits_from (suc fuel) n acc lt = elim (Bool-cases (ltb n 10)) [
  | inl one ↦ rw one (ap (λ m. read_from m acc) (omega arith))
  | inr more ↦
      let big : 10 ≤ n = ground arith in
      rw more (
        read_from-digits_from fuel (n / 10) ((b'0' + n % 10) ∷ acc) (omega arith)
        ∙ ap (λ m. read_from m acc) (omega arith))
]

-- A decimal numeral reads back as its number.
pub read_from-decimal : (n : ℕ) → read_from 0 (decimal n) ≡ n
unfolding decimal
read_from-decimal n = read_from-digits_from (suc n) n [] (omega arith)

-- the test that no byte of a string is `c`
abbrev pub lacks : ℕ → Bytes → Bool
lacks c [] = true
lacks c (b ∷ bs) = not (b == c) && lacks c bs

pub lacks-Free : (c : ℕ) (s : Bytes) → lacks c s ≡ true → Free c s
lacks-Free c [] h = tt
lacks-Free c (b ∷ s) h = ((λ q. ground arith), lacks-Free c s (ground arith))

-- The two parts and the separator make up the string.
pub split_once-joins :
    (c : ℕ) (s before after : Bytes)
    → split_once c s ≡ some (before, after)
    → s ≡ before ++ c ∷ after
unfolding split_once
split_once-joins c [] before after h = absurd (ground arith)
split_once-joins c (b ∷ s) before after h = elim (Bool-cases (b == c)) [
  | inl here ↦
      let r : ◌≡◌ {A = Option (Bytes × Bytes)} (some ([], s)) (some (before, after)) =
        rw here at h in
      let b0 : ◌≡◌ {A = Bytes} [] before = ground arith in
      let a0 : s ≡ after = ground arith in
      let same : b ≡ c = ground arith in rw (sym b0, sym a0, same) refl
  | inr later ↦ elim (Option-cases (split_once c s)) [
    | inl absent ↦ absurd (ground arith)
    | inr ((b1, a1), found) ↦
        let ih = split_once-joins c s b1 a1 found in
        let b0 : b ∷ b1 ≡ before = ground arith in
        let a0 : a1 ≡ after = ground arith in cc (ih, b0, a0)
  ]
]
