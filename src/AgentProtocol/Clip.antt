-- ===== src/AgentProtocol/Clip.antt =====
-- The text of an agent's error is cut at a character.
use symbolon.Prelude.{
  ℕ, zero, suc, ◌+◌, ◌≤◌, ◌≡◌, refl, sym, ap, ◌∙◌, subst, ◌≢◌, ◌⊎◌, inl, inr, Bool, true, false,
  ◌||◌, Option, none, some, [], ◌∷◌, arith, ltb, leb, ◌==◌, if◌then◌else◌, Bool-cases, Option-cases,
  length, take, drop, length-take, take_all, Bytes,
}
use symbolon.Utf8.{Expect, fresh, more, first_byte, next_byte, char_start, invalid_from, invalid_at}
use symbolon.AgentProtocol.{is_char_boundary, floor_boundary, max_error_len, clip_error}

floor_here :
    (n : ℕ) (s : Bytes) → is_char_boundary (suc n) s ≡ true → floor_boundary (suc n) s ≡ suc n
unfolding floor_boundary
floor_here n s h = rw (h, floor_boundary) refl

floor_below :
    (n : ℕ) (s : Bytes)
    → is_char_boundary (suc n) s ≡ false
    → floor_boundary (suc n) s ≡ floor_boundary n s
unfolding floor_boundary
floor_below n s h = rw (h, floor_boundary) refl

-- The loop ends at the last boundary that is not behind its start.
floor_boundary-last :
    (n : ℕ) (s : Bytes)
    → (floor_boundary n s ≤ n)
      × (is_char_boundary (floor_boundary n s) s ≡ true)
      × ((m : ℕ) → m ≤ n → is_char_boundary m s ≡ true → m ≤ floor_boundary n s)
floor_boundary-last zero s =
    unfold floor_boundary is_char_boundary in (omega arith, refl, λ m le at. le)
floor_boundary-last (suc n) s = elim (Bool-cases (is_char_boundary (suc n) s)) [
  | inl here ↦ rw (floor_here n s here) (omega arith, here, λ m le at. le)
  | inr inside ↦
      let ih = floor_boundary-last n s in
      rw (floor_below n s inside) (
        (let r = ih.0 in omega arith),
        ih.1,
        λ m le at.
            ih.2 m
              (elim (Bool-cases (m == suc n)) [
                | inl same ↦ absurd (
                    let q : m ≡ suc n = ground arith in
                    cc (ap (λ j. is_char_boundary j s) q, at, inside))
                | inr other ↦ (let ne : m ≢ suc n = (λ q. ground arith) in omega arith)
              ])
              at,
      )
]

-- The bytes that go on with a character lie in 0x80..=0xbf, and at least one is missing.
abbrev IsExpect : Expect → Type 0
IsExpect fresh = Unit
IsExpect (more n lo hi) = (1 ≤ n) × (0x80 ≤ lo) × (hi ≤ 0xbf)

none-IsExpect : (y : Expect) → ◌≡◌ {A = Option Expect} none (some y) → IsExpect y
none-IsExpect y q = absurd (ground arith)

first-IsExpect :
    (c : Bool) (x y : Expect) (rest : Option Expect)
    → IsExpect x
    → (rest ≡ some y → IsExpect y)
    → (if c then some x else rest) ≡ some y
    → IsExpect y
first-IsExpect true x y rest h other q = (let same : x ≡ y = ground arith in subst IsExpect same h)
first-IsExpect false x y rest h other q = other q

first_byte-IsExpect : (y : Expect) (b : ℕ) → first_byte b ≡ some y → IsExpect y
unfolding first_byte
first_byte-IsExpect y b = first-IsExpect _ _ y _ tt (
    first-IsExpect _ (more 1 0x80 0xbf) y _ (omega arith, omega arith, omega arith)
      (first-IsExpect _ (more 2 0xa0 0xbf) y _ (omega arith, omega arith, omega arith)
        (first-IsExpect _ (more 2 0x80 0x9f) y _ (omega arith, omega arith, omega arith)
          (first-IsExpect _ (more 2 0x80 0xbf) y _ (omega arith, omega arith, omega arith)
            (first-IsExpect _ (more 3 0x90 0xbf) y _ (omega arith, omega arith, omega arith)
              (first-IsExpect _ (more 3 0x80 0xbf) y _ (omega arith, omega arith, omega arith)
                (first-IsExpect _ (more 3 0x80 0x8f) y _ (omega arith, omega arith, omega arith)
                  (none-IsExpect y))))))))

next_byte-IsExpect : (x y : Expect) (b : ℕ) → IsExpect x → next_byte x b ≡ some y → IsExpect y
unfolding next_byte
next_byte-IsExpect fresh y b h q = first_byte-IsExpect y b q
next_byte-IsExpect (more zero lo hi) y b h q = first_byte-IsExpect y b q
next_byte-IsExpect (more (suc zero) lo hi) y b h q =
    first-IsExpect _ fresh y _ tt (none-IsExpect y) q
next_byte-IsExpect (more (suc (suc n)) lo hi) y b h q =
    first-IsExpect _ (more (suc n) 0x80 0xbf) y _ (omega arith, omega arith, omega arith)
      (none-IsExpect y) q

-- A byte at which a character starts does not go on with one.
abbrev starts : ℕ → Bool
starts b = ltb b 0x80 || leb 0xc0 b

inside-next :
    (x : Expect) (b : ℕ) → IsExpect x → starts b ≡ true → (x ≡ fresh) ⊎ (next_byte x b ≡ none)
unfolding next_byte
inside-next fresh b h at = inl refl
inside-next (more zero lo hi) b h at = absurd (omega (arith, h.0))
inside-next (more (suc zero) lo hi) b h at = inr (ground arith)
inside-next (more (suc (suc n)) lo hi) b h at = inr (ground arith)

-- The same test as `is_char_boundary`, but for the start of the text.
abbrev at_boundary : ℕ → Bytes → Bool
at_boundary zero [] = true
at_boundary zero (b ∷ s) = starts b
at_boundary (suc k) [] = false
at_boundary (suc k) (b ∷ s) = at_boundary k s

boundary_of : ℕ → ℕ → Bytes → Bool
boundary_of k n [] = k == n
boundary_of k n (b ∷ _) = starts b

boundary_of-suc : (k n : ℕ) (d : Bytes) → boundary_of (suc k) (suc n) d ≡ boundary_of k n d
unfolding boundary_of
boundary_of-suc k n [] = ground arith
boundary_of-suc k n (b ∷ d) = refl

boundary_of-at : (k : ℕ) (s : Bytes) → boundary_of k (length s) (drop k s) ≡ at_boundary k s
unfolding boundary_of
boundary_of-at zero [] = refl
boundary_of-at zero (b ∷ s) = refl
boundary_of-at (suc k) [] = ground arith
boundary_of-at (suc k) (b ∷ s) = boundary_of-suc k (length s) (drop k s) ∙ boundary_of-at k s

is_char_boundary-at :
    (n : ℕ) (s : Bytes) → is_char_boundary (suc n) s ≡ true → at_boundary (suc n) s ≡ true
unfolding is_char_boundary
is_char_boundary-at n s h = sym (boundary_of-at (suc n) s) ∙ go (drop (suc n) s) refl
  where
    positive : (suc n == 0) ≡ false
    positive = ground arith

    go : (d : Bytes) → drop (suc n) s ≡ d → boundary_of (suc n) (length s) d ≡ true
    go [] q =
        unfold boundary_of in
        (let r : (suc n == length s) ≡ true = rw (is_char_boundary, q, positive) at h in r)
    go (b ∷ d) q =
        unfold boundary_of in
        (let r : starts b ≡ true = rw (is_char_boundary, q, positive) at h in r)

-- Text that is UTF-8 is so up to any character.
invalid_from-take :
    (k : ℕ) (x : Expect) (start i : ℕ) (s : Bytes)
    → IsExpect x
    → invalid_from x start i s ≡ none
    → at_boundary k s ≡ true
    → invalid_from x start i (take k s) ≡ none
unfolding invalid_from
invalid_from-take zero x start i [] h utf8 at = utf8
invalid_from-take zero fresh start i (b ∷ s) h utf8 at = refl
invalid_from-take zero (more n lo hi) start i (b ∷ s) h utf8 at =
    elim (inside-next (more n lo hi) b h at) [
      | inl same ↦ absurd (ground arith)
      | inr refused ↦ absurd (ground arith)
    ]
invalid_from-take (suc k) x start i [] h utf8 at = utf8
invalid_from-take (suc k) x start i (b ∷ s) h utf8 at = elim (Option-cases (next_byte x b)) [
  | inl refused ↦ absurd (ground arith)
  | inr (y, goes_on) ↦
      let rest : invalid_from y (char_start x start i) (i + 1) s ≡ none = ground arith in
      let ih =
        invalid_from-take k y (char_start x start i) (i + 1) s (next_byte-IsExpect x y b h goes_on)
          rest at in
      ground arith
]

prefix :
    (k : ℕ) (s : Bytes)
    → is_char_boundary k s ≡ true
    → invalid_at s ≡ none
    → invalid_at (take k s) ≡ none
unfolding invalid_at invalid_from
prefix zero s at utf8 = refl
prefix (suc k) s at utf8 =
    invalid_from-take (suc k) fresh 0 0 s tt utf8 (is_char_boundary-at k s at)

below_long : (n k : ℕ) → ltb max_error_len n ≡ true → k ≤ max_error_len → k ≤ n
below_long n k long le = ground arith

-- What is kept has at most 1024 bytes.
pub clip_error-length : (s : Bytes) → length (clip_error s) ≤ 1024
unfolding clip_error
clip_error-length s = elim (Bool-cases (ltb max_error_len (length s))) [
  | inr short ↦ rw (short, clip_error) (ground arith)
  | inl long ↦
      let le = (floor_boundary-last max_error_len s).0 in
      rw
        (
          long,
          clip_error,
          length-take (floor_boundary max_error_len s) s
              (below_long (length s) (floor_boundary max_error_len s) long le),
        )
        le
]

-- The text of an agent's error is a prefix of what was given, the longest of at most 1024 bytes that
-- ends between two characters: the loop reaches such an end, and what it keeps of UTF-8 is UTF-8.
pub clip_error-longest :
    (s : Bytes)
    → invalid_at s ≡ none
    → (k : ℕ) × (clip_error s ≡ take k s)
      × (length (clip_error s) ≤ 1024)
      × (invalid_at (clip_error s) ≡ none)
      × ((m : ℕ) → m ≤ 1024 → m ≤ length s → is_char_boundary m s ≡ true → m ≤ k)
unfolding clip_error
clip_error-longest s utf8 = elim (Bool-cases (ltb max_error_len (length s))) [
  | inr short ↦
      rw (short, clip_error) (length s, sym (take_all s), ground arith, utf8, λ m le le2 at. le2)
  | inl long ↦
      let k = floor_boundary max_error_len s in
      let last = floor_boundary-last max_error_len s in
      let fits : k ≤ length s = below_long (length s) k long last.0 in
      let kept = length-take k s fits in
      rw (long, clip_error)
        (k, refl, rw kept (last.0), prefix k s (last.1) utf8, λ m le le2 at. last.2 m le at)
]
