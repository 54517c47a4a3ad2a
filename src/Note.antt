-- ===== src/Note.antt =====
-- The note on a client: src/note.rs.
use symbolon.Prelude.{
  ℕ, ◌+◌, ◌≤◌, ◌<◌, ◌≡◌, refl, sym, ap, subst, ◌↔◌, inl, inr, Bool, false, ◌&&◌, ◌||◌, Option, none,
  some, [], ◌∷◌, arith, ltb, leb, ◌==◌, if◌then◌else◌, Option-cases, length, Bytes, Result, ok, err,
}
use symbolon.Strings.Lemmas.{Free}

-- `BadControl` carries the offset and the code point.
pub data NoteError : Type 0 where
  bad_len : ℕ → NoteError
  bad_control : ℕ → ℕ → NoteError

pub record Note : Type 0 where
  pub text : Bytes

abbrev pub max_len : ℕ
max_len = 256

-- U+0000 to U+001F and U+007F
abbrev pub is_ascii_control : ℕ → Bool
is_ascii_control b = ltb b 0x20 || b == 0x7f

-- the second byte of U+0080 to U+009F, which begin with 0xc2
abbrev pub is_c1 : ℕ → ℕ → Bool
is_c1 b c = b == 0xc2 && (leb 0x80 c && ltb c 0xa0)

-- `char_indices().find(|(_, c)| c.is_control())` of a text at the offset `i`, by its bytes: a control
-- character is one byte, or 0xc2 and a byte that is also the code point
unfoldable pub find_control : ℕ → Bytes → Option (ℕ × ℕ)
find_control i [] = none
find_control i (b ∷ []) = if is_ascii_control b then some (i, b) else none
find_control i (b ∷ c ∷ s) =
    if is_ascii_control b
    then some (i, b)
    else if is_c1 b c
    then some (i, c)
    else find_control (i + 1) (c ∷ s)

unfoldable pub parse : Bytes → Result Note NoteError
unfolding find_control
parse s =
    if length s == 0 || ltb max_len (length s)
    then err (bad_len (length s))
    else elim (find_control 0 s) [
      | some (offset, ch) ↦ err (bad_control offset ch)
      | none ↦ ok (record { text = s })
    ]

-- No control character, as bytes.
abbrev pub Printable : Bytes → Type 0
Printable [] = Unit
Printable (b ∷ []) = is_ascii_control b ≡ false
Printable (b ∷ c ∷ s) = (is_ascii_control b ≡ false) × (is_c1 b c ≡ false) × Printable (c ∷ s)

find_control-Printable : (i : ℕ) (s : Bytes) → (find_control i s ≡ none) ↔ Printable s
unfolding find_control
find_control-Printable i [] = (λ h. tt, λ h. refl)
find_control-Printable i (b ∷ []) = ground arith
find_control-Printable i (b ∷ c ∷ s) = ground (arith, find_control-Printable (i + 1) (c ∷ s))

-- A printable text holds no byte of a control character.
Printable-Free : (k : ℕ) (s : Bytes) → k < 0x20 → Printable s → Free k s
Printable-Free k [] lt h = tt
Printable-Free k (b ∷ []) lt h = ((λ q. ground arith), tt)
Printable-Free k (b ∷ c ∷ s) lt h =
    ((λ q. let h0 = h.0 in ground arith), Printable-Free k (c ∷ s) lt h.2)

-- `parse` accepts a note exactly if it has 1 to 256 bytes and no control character, and returns the text
-- itself; so no accepted note can end a line or a C string.
pub parse-Printable_iff :
    (s : Bytes) (n : Note)
    → ((parse s ≡ ok n) ↔ ((n.text ≡ s) × (1 ≤ length s) × (length s ≤ 256) × Printable s))
      × (parse s ≡ ok n → Free 0 n.text × Free b'\n' n.text × Free b'\r' n.text)
unfolding parse
parse-Printable_iff s n = (
  both,
  λ h.
      let (same, some_bytes, short, clean) = both.0 h in
      (
        subst (Free 0) (sym same) (Printable-Free 0 s (omega arith) clean),
        subst (Free b'\n') (sym same) (Printable-Free b'\n' s (omega arith) clean),
        subst (Free b'\r') (sym same) (Printable-Free b'\r' s (omega arith) clean),
      ),
)
  where
    both : (parse s ≡ ok n) ↔ ((n.text ≡ s) × (1 ≤ length s) × (length s ≤ 256) × Printable s)
    both = (
      λ h. elim (Option-cases (find_control 0 s)) [
        | inl clean ↦
            (ground arith, ground arith, ground arith, (find_control-Printable 0 s).0 clean)
        | inr ((offset, ch), found) ↦ absurd (ground arith)
      ],
      λ (same, some_bytes, short, clean).
          let none_found = (find_control-Printable 0 s).1 clean in
          let len_ok : (length s == 0 || ltb max_len (length s)) ≡ false = ground arith in
          rw (parse, len_ok, none_found) (ap (λ t. ok (record { text = t })) (sym same)),
    )
