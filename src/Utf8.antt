-- ===== src/Utf8.antt =====
-- `std::str::from_utf8`: the check that bytes are UTF-8, with the offset `valid_up_to` of an error.
use symbolon.Prelude.{
  ℕ, zero, suc, ◌+◌, ◌<◌, ◌≡◌, refl, ◌&&◌, Option, none, some, [], ◌∷◌, arith, ltb, leb, ◌==◌,
  if◌then◌else◌, All, Bytes,
}

-- What may follow: a new character, or `left` more bytes of the one that began at `start`, the next
-- of them in `lo..=hi`.
pub data Expect : Type 0 where
  fresh : Expect
  more : ℕ → ℕ → ℕ → Expect

-- the second byte and the number of bytes behind a first byte
unfoldable pub first_byte : ℕ → Option Expect
first_byte b =
    if ltb b 0x80
    then some fresh
    else if leb 0xc2 b && leb b 0xdf
    then some (more 1 0x80 0xbf)
    else if b == 0xe0
    then some (more 2 0xa0 0xbf)
    else if b == 0xed
    then some (more 2 0x80 0x9f)
    else if leb 0xe1 b && leb b 0xef
    then some (more 2 0x80 0xbf)
    else if b == 0xf0
    then some (more 3 0x90 0xbf)
    else if leb 0xf1 b && leb b 0xf3
    then some (more 3 0x80 0xbf)
    else if b == 0xf4
    then some (more 3 0x80 0x8f)
    else none

unfoldable pub next_byte : Expect → ℕ → Option Expect
unfolding first_byte
next_byte fresh b = first_byte b
next_byte (more zero lo hi) b = first_byte b
next_byte (more (suc zero) lo hi) b = if leb lo b && leb b hi then some fresh else none
next_byte (more (suc (suc n)) lo hi) b =
    if leb lo b && leb b hi then some (more (suc n) 0x80 0xbf) else none

-- the start of the character that the next byte belongs to
unfoldable pub char_start : Expect → ℕ → ℕ → ℕ
char_start fresh start i = i
char_start (more _ _ _) start i = start

-- `None` if the bytes are UTF-8, else `Some(valid_up_to)`
unfoldable pub invalid_from : Expect → ℕ → ℕ → Bytes → Option ℕ
unfolding next_byte char_start
invalid_from fresh start i [] = none
invalid_from (more _ _ _) start i [] = some start
invalid_from x start i (b ∷ bs) = elim (next_byte x b) [
  | none ↦ some (char_start x start i)
  | some y ↦ invalid_from y (char_start x start i) (i + 1) bs
]

unfoldable pub invalid_at : Bytes → Option ℕ
unfolding invalid_from
invalid_at bs = invalid_from fresh 0 0 bs

ascii_from :
    (start i : ℕ) (bs : Bytes) → All (λ b. b < 128) bs → invalid_from fresh start i bs ≡ none
unfolding invalid_from
ascii_from start i [] h = refl
ascii_from start i (b ∷ bs) h = ground (arith, ascii_from i (i + 1) bs h.1)

-- ASCII is UTF-8.
pub invalid_at_ascii : (bs : Bytes) → All (λ b. b < 128) bs → invalid_at bs ≡ none
unfolding invalid_at
invalid_at_ascii bs h = ascii_from 0 0 bs h
