-- ===== src/GitCredential/Block.antt =====
-- How `Request::parse` cuts its input into lines.
use symbolon.Prelude.{
  ℕ, ◌+◌, ◌≡◌, refl, ap, ◌∙◌, ◌≢◌, true, false, none, some, List, [], ◌∷◌, ◌++◌, append-nil,
  append_assoc, arith, ltb, if◌then◌else◌, length, length-append, take-append_self, All, Bytes, ok,
  err, ◌>>=◌,
}
use symbolon.Strings.{split}
use symbolon.Strings.Lemmas.{Free, split-append, split_whole}
use symbolon.GitCredential.{
  request_too_large, parser_hard_max, lf, no_slots, find_blank, ends_with_lf, block_end,
  parse_lines, finish, parse,
}

-- A line that is not empty and holds no line feed.
abbrev pub IsLine : Bytes → Type 0
IsLine [] = ⊥
IsLine (b ∷ bs) = Free lf (b ∷ bs)

IsLine-Free : (s : Bytes) → IsLine s → Free lf s
IsLine-Free [] h = tt
IsLine-Free (b ∷ s) h = h

-- the lines behind the first, each behind a line feed
abbrev pub tails : List Bytes → Bytes
tails [] = []
tails (line ∷ lines) = lf ∷ line ++ tails lines

find_blank_other : (i a : ℕ) (t : Bytes) → a ≢ lf → find_blank i (a ∷ t) ≡ find_blank (i + 1) t
unfolding find_blank
find_blank_other i a [] ne = refl
find_blank_other i a (b ∷ t) ne = ground arith

find_blank-Free :
    (i : ℕ) (s t : Bytes) → Free lf s → find_blank i (s ++ t) ≡ find_blank (i + length s) t
find_blank-Free i [] t h = ap (λ n. find_blank n t) (omega arith)
find_blank-Free i (a ∷ s) t h =
    find_blank_other i a (s ++ t) h.0
    ∙ find_blank-Free (i + 1) s t h.1
    ∙ ap (λ n. find_blank n t) (omega arith)

find_blank-tails_eof :
    (lines : List Bytes) (i : ℕ) → All IsLine lines → find_blank i (tails lines ++ lf ∷ []) ≡ none
unfolding find_blank
find_blank-tails_eof [] i h = refl
find_blank-tails_eof ([] ∷ lines) i h = absurd h.0
find_blank-tails_eof ((a ∷ line) ∷ lines) i h =
    let step : find_blank i (lf ∷ a ∷ (line ++ tails lines) ++ lf ∷ [])
        ≡ find_blank (i + 1) (a ∷ (line ++ tails lines) ++ lf ∷ []) =
      ground (arith, h.0.0) in
    step
    ∙ ap (find_blank (i + 1)) (append_assoc (a ∷ line) (tails lines) (lf ∷ []))
    ∙ find_blank-Free (i + 1) (a ∷ line) (tails lines ++ lf ∷ []) h.0
    ∙ find_blank-tails_eof lines (i + 1 + length (a ∷ line)) h.1

find_blank-tails_blank :
    (lines : List Bytes) (i : ℕ)
    → All IsLine lines
    → find_blank i (tails lines ++ lf ∷ lf ∷ []) ≡ some (i + length (tails lines))
unfolding find_blank
find_blank-tails_blank [] i h = ap some (omega arith)
find_blank-tails_blank ([] ∷ lines) i h = absurd h.0
find_blank-tails_blank ((a ∷ line) ∷ lines) i h =
    let step : find_blank i (lf ∷ a ∷ (line ++ tails lines) ++ lf ∷ lf ∷ [])
        ≡ find_blank (i + 1) (a ∷ (line ++ tails lines) ++ lf ∷ lf ∷ []) =
      ground (arith, h.0.0) in
    step
    ∙ ap (find_blank (i + 1)) (append_assoc (a ∷ line) (tails lines) (lf ∷ lf ∷ []))
    ∙ find_blank-Free (i + 1) (a ∷ line) (tails lines ++ lf ∷ lf ∷ []) h.0
    ∙ find_blank-tails_blank lines (i + 1 + length (a ∷ line)) h.1
    ∙ ap some (omega (arith, length-append (a ∷ line) (tails lines)))

ends_with_lf-append : (s : Bytes) → ends_with_lf (s ++ lf ∷ []) ≡ true
ends_with_lf-append [] = refl
ends_with_lf-append (a ∷ []) = refl
ends_with_lf-append (a ∷ b ∷ s) = ends_with_lf-append (b ∷ s)

split-tails :
    (first : Bytes) (rest : List Bytes)
    → Free lf first
    → All IsLine rest
    → split lf (first ++ tails rest) ≡ first ∷ rest
split-tails first [] h hs = rw append-nil (split_whole lf first h)
split-tails first ([] ∷ rest) h hs = absurd hs.0
split-tails first ((a ∷ line) ∷ rest) h hs =
    split-append lf first ((a ∷ line) ++ tails rest) h
    ∙ ap (◌∷◌ first) (split-tails (a ∷ line) rest hs.0 hs.1)

-- the lines of a request, and what each of the two accepted ends adds to them
abbrev pub text_of : Bytes → List Bytes → Bytes
text_of first rest = first ++ tails rest

pub data IsEnd : Bytes → Type 0 where
  at_eof : IsEnd (lf ∷ [])
  at_blank : IsEnd (lf ∷ lf ∷ [])

block_end-text :
    (first : Bytes) (rest : List Bytes) (end : Bytes)
    → All IsLine (first ∷ rest)
    → IsEnd end
    → block_end (text_of first rest ++ end) ≡ ok (length (text_of first rest))
unfolding block_end
block_end-text [] rest end h e = absurd h.0
block_end-text (a ∷ s) rest _ h at_eof =
    let first : Bytes = a ∷ s in
    let blank : find_blank 0 (text_of first rest ++ lf ∷ []) ≡ none =
      ap (find_blank 0) (append_assoc first (tails rest) (lf ∷ []))
      ∙ find_blank-Free 0 first (tails rest ++ lf ∷ []) h.0
      ∙ find_blank-tails_eof rest (0 + length first) h.1 in
    rw (blank, ends_with_lf-append (text_of first rest))
      (ap ok (omega (arith, length-append (text_of first rest) (lf ∷ []))))
block_end-text (a ∷ s) rest _ h at_blank =
    let first : Bytes = a ∷ s in
    let blank : find_blank 0 (text_of first rest ++ lf ∷ lf ∷ [])
        ≡ some (length (text_of first rest)) =
      ap (find_blank 0) (append_assoc first (tails rest) (lf ∷ lf ∷ []))
      ∙ find_blank-Free 0 first (tails rest ++ lf ∷ lf ∷ []) h.0
      ∙ find_blank-tails_blank rest (0 + length first) h.1
      ∙ ap some (omega (arith, length-append first (tails rest))) in
    let long : ltb (length (text_of first rest) + 2) (length (text_of first rest ++ lf ∷ lf ∷ []))
        ≡ false =
      ground (arith, length-append (text_of first rest) (lf ∷ lf ∷ [])) in
    rw (blank, long) refl

-- A request of lines that are not empty is read line by line, in their order, whether it ends at
-- end of file or at a blank line, unless it is longer than 64 KiB.
pub parse-text :
    (first : Bytes) (rest : List Bytes) (end : Bytes)
    → All IsLine (first ∷ rest)
    → IsEnd end
    → parse (text_of first rest ++ end) ≡ (
        if ltb parser_hard_max (length (text_of first rest ++ end))
        then err (request_too_large parser_hard_max)
        else parse_lines 1 (first ∷ rest) no_slots >>= finish)
unfolding parse
parse-text first rest end h e =
    rw
      (
        block_end-text first rest end h e,
        take-append_self (text_of first rest) end,
        split-tails first rest (IsLine-Free first h.0) h.1,
      )
      refl
