-- ===== src/Admin/ReadLine.antt =====
-- Reading an admin request: `read_line` of src/admin.rs.
use symbolon.Prelude.{
  ◌<◌, ◌≡◌, refl, sym, ap, ◌∙◌, subst, ◌≢◌, ◌⊎◌, inl, inr, false, Option, none, some, List, [], ◌∷◌,
  ◌++◌, append-nil, append_assoc, arith, leb, length, length-append, All, All-append_left, Bytes,
  ok,
}
use symbolon.Strings.Lemmas.{Free}
use symbolon.Admin.{line_budget, up_to_lf, line_done, read_line}

-- Reads that return these chunks.
abbrev pub chunks : List Bytes → List (Option Bytes)
chunks [] = []
chunks (c ∷ cs) = some c ∷ chunks cs

-- The bytes of the chunks.
abbrev pub joined : List Bytes → Bytes
joined [] = []
joined (c ∷ cs) = c ++ joined cs

up_to_lf-append :
    (line rest : Bytes) → Free b'\n' line → up_to_lf (line ++ b'\n' ∷ rest) ≡ some line
unfolding up_to_lf
up_to_lf-append [] rest h = refl
up_to_lf-append (b ∷ line) rest h = ground (arith, up_to_lf-append line rest h.1)

up_to_lf-Free : (s : Bytes) → Free b'\n' s → up_to_lf s ≡ none
unfolding up_to_lf
up_to_lf-Free [] h = refl
up_to_lf-Free (b ∷ s) h = ground (arith, up_to_lf-Free s h.1)

-- Two ways to split a text: the first part holds the line and its end, or lies within the line.
split_at_line :
    (acc more line rest : Bytes)
    → acc ++ more ≡ line ++ b'\n' ∷ rest
    → ((tail : Bytes) × (acc ≡ line ++ b'\n' ∷ tail))
      ⊎ ((left : Bytes) × (line ≡ acc ++ left) × (more ≡ left ++ b'\n' ∷ rest))
split_at_line [] more line rest q = inr (line, refl, q)
split_at_line (b ∷ acc) more [] rest q =
    let b0 : b ≡ b'\n' = ground arith in inl (acc, ap (λ x. x ∷ acc) b0)
split_at_line (b ∷ acc) more (c ∷ line) rest q =
    let b0 : b ≡ c = ground arith in
    let tails : acc ++ more ≡ line ++ b'\n' ∷ rest = ground arith in
    elim (split_at_line acc more line rest tails) [
      | inl (tail, whole) ↦ inl (tail, cc (b0, whole))
      | inr (left, within, behind) ↦ inr (left, cc (b0, within), behind)
    ]

Free-left : (s t : Bytes) → Free b'\n' (s ++ t) → Free b'\n' s
Free-left s t h = All-append_left (λ b. b ≢ b'\n') s t h

module _ (line rest : Bytes) (free : Free b'\n' line) (short : length line < line_budget) where
  -- Within the line the loop goes on.
  line_done-within : (acc left : Bytes) → line ≡ acc ++ left → line_done acc ≡ none
  unfolding line_done
  line_done-within acc left q =
      let absent = up_to_lf-Free acc (Free-left acc left (subst (Free b'\n') q free)) in
      let small : leb line_budget (length acc) ≡ false =
        (let total = ap length q ∙ length-append acc left in
          let lt : length acc < line_budget = omega arith in ground arith) in
      rw (absent, small, line_done) refl

  line_done-whole : (tail : Bytes) → line_done (line ++ b'\n' ∷ tail) ≡ some (ok line)
  unfolding line_done
  line_done-whole tail = rw (up_to_lf-append line tail free, line_done) refl

  read_line-from :
      (acc : Bytes) (cs : List Bytes)
      → All (λ c. c ≢ []) cs
      → acc ++ joined cs ≡ line ++ b'\n' ∷ rest
      → read_line acc (chunks cs) ≡ some (ok line)
  unfolding read_line
  read_line-from acc [] some_bytes q = elim (split_at_line acc [] line rest q) [
    | inl (tail, whole) ↦ rw whole (line_done-whole tail)
    | inr (left, within, behind) ↦ absurd (nonempty left behind)
  ]
    where
      nonempty : (left : Bytes) → ◌≡◌ {A = Bytes} [] (left ++ b'\n' ∷ rest) → ⊥
      nonempty [] e = ground arith
      nonempty (b ∷ left) e = ground arith
  read_line-from acc ([] ∷ cs) some_bytes q = absurd (some_bytes.0 refl)
  read_line-from acc ((b ∷ c) ∷ cs) some_bytes q =
      elim (split_at_line acc (b ∷ c ++ joined cs) line rest q) [
        | inl (tail, whole) ↦
            let done : line_done acc ≡ some (ok line) = ap line_done whole ∙ line_done-whole tail in
            rw (read_line, done) refl
        | inr (left, within, behind) ↦
            rw (read_line, line_done-within acc left within)
              (read_line-from (acc ++ b ∷ c) cs some_bytes.1
                (append_assoc acc (b ∷ c) (joined cs) ∙ q))
      ]

-- However the stream cuts a request of less than 64 KiB into chunks, and whatever follows its line feed:
-- what is read is the line, which is what one read of the whole would give.
pub read_line-chunks :
    (line rest : Bytes) (cs : List Bytes)
    → Free b'\n' line
    → length line < line_budget
    → All (λ c. c ≢ []) cs
    → joined cs ≡ line ++ b'\n' ∷ rest
    → (read_line [] (chunks cs) ≡ some (ok line))
      × (read_line [] (chunks cs) ≡ read_line [] (chunks (joined cs ∷ [])))
read_line-chunks line rest cs free short some_bytes q =
    let cut = read_line-from line rest free short [] cs some_bytes q in
    let nonempty : joined cs ≢ [] = λ e. starts line (sym q ∙ e) in
    let at_once =
      read_line-from line rest free short [] (joined cs ∷ []) (nonempty, tt)
        (append-nil (joined cs) ∙ q) in
    (cut, cut ∙ sym at_once)
  where
    starts : (l : Bytes) → l ++ b'\n' ∷ rest ≡ [] → ⊥
    starts [] e = ground arith
    starts (b ∷ l) e = ground arith
