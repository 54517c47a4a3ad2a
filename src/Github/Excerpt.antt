-- ===== src/Github/Excerpt.antt =====
-- The excerpt of an error's body is short: `message_from_body` of src/providers/github.rs.
use symbolon.Prelude.{
  ℕ, zero, suc, ◌+◌, ◌≤◌, ◌<◌, ◌≡◌, refl, ap, ◌∙◌, ◌⊎◌, inl, inr, none, some, [], ◌∷◌, ◌++◌, arith,
  if◌then◌else◌, Bool-cases, Option-cases, take, Bytes,
}
use symbolon.Utf8.{invalid_at}
use symbolon.Strings.{codes}
use symbolon.Github.Errors.{
  Decode, is_continuation, nth_char, max_chars, clip, raw_prefix, message_from_body,
}

-- The number of characters of UTF-8 text: the bytes that do not go on with one.
abbrev pub chars : Bytes → ℕ
chars [] = 0
chars (b ∷ bs) = let rest = chars bs in if is_continuation b then rest else suc rest

chars-append : (s t : Bytes) → chars (s ++ t) ≡ chars s + chars t
chars-append [] t = omega arith
chars-append (b ∷ s) t = ground (arith, chars-append s t)

-- Before the character that `nth_char` finds stand as many as it was asked to skip.
nth_char-take :
    (n i : ℕ) (s : Bytes) (cut : ℕ)
    → nth_char n i s ≡ some cut
    → (k : ℕ) × (cut ≡ i + k) × (chars (take k s) ≡ n) × (n < chars s)
unfolding nth_char
nth_char-take n i [] cut h = absurd (ground arith)
nth_char-take zero i (b ∷ s) cut h = elim (Bool-cases (is_continuation b)) [
  | inl inside ↦
      let (k, at, count, more) = nth_char-take zero (i + 1) s cut (rw (inside, nth_char) at h) in
      (suc k, omega arith, rw inside count, rw inside more)
  | inr starts ↦ (0, ground arith, refl, rw starts (omega arith))
]
nth_char-take (suc n) i (b ∷ s) cut h = elim (Bool-cases (is_continuation b)) [
  | inl inside ↦
      let (k, at, count, more) = nth_char-take (suc n) (i + 1) s cut (rw (inside, nth_char) at h) in
      (suc k, omega arith, rw inside count, rw inside more)
  | inr starts ↦
      let (k, at, count, more) = nth_char-take n (i + 1) s cut (rw (starts, nth_char) at h) in
      (suc k, omega arith, rw starts (ap suc count), rw starts (omega arith))
]

nth_char-none : (n i : ℕ) (s : Bytes) → nth_char n i s ≡ none → chars s ≤ n
unfolding nth_char
nth_char-none n i [] h = omega arith
nth_char-none zero i (b ∷ s) h = ground (arith, nth_char-none zero (i + 1) s)
nth_char-none (suc n) i (b ∷ s) h =
    ground (arith, nth_char-none (suc n) (i + 1) s, nth_char-none n (i + 1) s)

clip-short : (s : Bytes) → chars (clip s) ≤ 201
unfolding clip
clip-short s = elim (Option-cases (nth_char max_chars 0 s)) [
  | inl whole ↦
      let few = nth_char-none max_chars 0 s whole in
      rw (whole, clip) (let r : chars s ≤ 201 = omega (arith, few) in r)
  | inr (cut, found) ↦
      let (k, at, count, more) = nth_char-take max_chars 0 s cut found in
      let same : chars (take cut s) ≡ 200 = ap (λ j. chars (take j s)) (omega arith) ∙ count in
      rw (found, clip, chars-append (take cut s) (0xe2 ∷ 0x80 ∷ 0xa6 ∷ []), same) (omega arith)
]

clip_whole : (s : Bytes) → chars s ≤ 200 → clip s ≡ s
unfolding clip
clip_whole s few = elim (Option-cases (nth_char max_chars 0 s)) [
  | inl whole ↦ rw (whole, clip) refl
  | inr (cut, found) ↦
      let (k, at, count, more) = nth_char-take max_chars 0 s cut found in absurd (omega arith)
]

raw_prefix-short : (body : Bytes) → chars (raw_prefix body) ≤ 201
unfolding raw_prefix
raw_prefix-short body = elim (Option-cases (invalid_at body)) [
  | inl utf8 ↦ rw (utf8, raw_prefix) (clip-short body)
  | inr (at, other) ↦ rw (other, raw_prefix) (clip-short (codes "(non-utf8 body)"))
]

-- Unless the body is an envelope with a message, the excerpt has at most 200 characters and the one
-- that stands for what is cut off; a body of UTF-8 of at most 200 characters is its own excerpt.
pub message_from_body-short :
    (d : Decode) (body : Bytes)
    → (((m : Bytes) × (d.envelope body ≡ some (some m)) × (message_from_body d body ≡ m))
        ⊎ (chars (message_from_body d body) ≤ 201))
      × (d.envelope body ≡ none
          → invalid_at body ≡ none
          → chars body ≤ 200
          → message_from_body d body ≡ body)
unfolding message_from_body raw_prefix
message_from_body-short d body = (
  elim (Option-cases (d.envelope body)) [
    | inl unread ↦ inr (rw (unread, message_from_body) (raw_prefix-short body))
    | inr (some m, read) ↦ inl (m, read, rw (read, message_from_body) refl)
    | inr (none, read) ↦ inr (rw (read, message_from_body) (raw_prefix-short body))
  ],
  λ unread utf8 few. rw (unread, utf8, message_from_body, raw_prefix) (clip_whole body few),
)
