-- ===== src/Strings.antt =====
-- What the standard library does on bytes and strings: `split`, `split_once`, `strip_suffix`, and
-- the decimal form of a number.
pub mod Lemmas
use Prim.Native.Char.{code}
use Prim.Native.String.{String}
use symbolon.Prelude.{
  ℕ, zero, suc, ◌+◌, ◌-◌, ◌/◌, ◌%◌, Bool, ◌&&◌, ◌||◌, Option, none, some, List, [], ◌∷◌, ltb, leb,
  ◌==◌, if◌then◌else◌, length, take, drop, Bytes, bytes_eq,
}

-- `split_once(c)`: what stands before the first `c`, and behind it
unfoldable pub split_once : ℕ → Bytes → Option (Bytes × Bytes)
split_once c [] = none
split_once c (b ∷ bs) =
    if b == c
    then some ([], bs)
    else elim (split_once c bs) [ none ↦ none | some (before, after) ↦ some (b ∷ before, after) ]

abbrev pub push_front : ℕ → List Bytes → List Bytes
push_front b [] = (b ∷ []) ∷ []
push_front b (line ∷ lines) = (b ∷ line) ∷ lines

-- `split(c)`: the pieces between the `c`, at least one
unfoldable pub split : ℕ → Bytes → List Bytes
split c [] = [] ∷ []
split c (b ∷ bs) = let rest = split c bs in if b == c then [] ∷ rest else push_front b rest

-- `strip_suffix(suffix)`
unfoldable pub strip_suffix : Bytes → Bytes → Option Bytes
strip_suffix suffix s =
    if leb (length suffix) (length s) && bytes_eq (drop (length s - length suffix) s) suffix
    then some (take (length s - length suffix) s)
    else none

-- the decimal digits of a number behind those already printed; `fuel` bounds their number
unfoldable pub digits_from : ℕ → ℕ → Bytes → Bytes
digits_from zero n acc = acc
digits_from (suc fuel) n acc =
    if ltb n 10 then (b'0' + n) ∷ acc else digits_from fuel (n / 10) ((b'0' + n % 10) ∷ acc)

-- `format!("{n}")`; a number has at most as many digits as its successor counts
unfoldable pub decimal : ℕ → Bytes
unfolding digits_from
decimal n = digits_from (suc n) n []

-- the bytes of an ASCII text
abbrev pub codes : String → Bytes
codes String.[] = []
codes (String.◌∷◌ c s) = code c ∷ codes s

-- `char::is_whitespace`, of a character of one, two and three bytes
abbrev pub is_space1 : ℕ → Bool
is_space1 a = a == 32 || leb 9 a && leb a 13

abbrev pub is_space2 : ℕ → ℕ → Bool
is_space2 a b = a == 0xc2 && (b == 0x85 || b == 0xa0)

abbrev pub is_space3 : ℕ → ℕ → ℕ → Bool
is_space3 a b c =
    a == 0xe1 && b == 0x9a && c == 0x80
    || a == 0xe2 && b == 0x80 && (leb 0x80 c && leb c 0x8a || c == 0xa8 || c == 0xa9 || c == 0xaf)
    || a == 0xe2 && b == 0x81 && c == 0x9f
    || a == 0xe3 && b == 0x80 && c == 0x80

-- `trim_start` of UTF-8
unfoldable pub trim_start : Bytes → Bytes
trim_start [] = []
trim_start (a ∷ []) = if is_space1 a then [] else a ∷ []
trim_start (a ∷ b ∷ []) =
    let rest = trim_start (b ∷ []) in
    if is_space1 a then rest else if is_space2 a b then [] else a ∷ b ∷ []
trim_start (a ∷ b ∷ c ∷ s) =
    let rest1 = trim_start (b ∷ c ∷ s) in
    let rest2 = trim_start (c ∷ s) in
    let rest3 = trim_start s in
    if is_space1 a
    then rest1
    else if is_space2 a b
    then rest2
    else if is_space3 a b c
    then rest3
    else a ∷ b ∷ c ∷ s

-- `trim_end`: what follows is only white space, or it stays
unfoldable pub trim_end : Bytes → Bytes
unfolding trim_start
trim_end [] = []
trim_end (a ∷ s) =
    let rest = trim_end s in if length (trim_start (a ∷ s)) == 0 then [] else a ∷ rest

-- `trim`
unfoldable pub trim : Bytes → Bytes
unfolding trim_start trim_end
trim s = trim_end (trim_start s)
