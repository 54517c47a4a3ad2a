-- ===== src/PskStore/RoundTrip.antt =====
-- A store that is rendered and parsed again is the same store.
use symbolon.Prelude.{
  ℕ, ◌+◌, ◌<◌, ◌≡◌, refl, sym, ap, ◌∙◌, ◌≢◌, inl, inr, true, false, ◌&&◌, ◌||◌, none, some, List,
  [], ◌∷◌, ◌++◌, map, append-nil, append_assoc, arith, leb, ◌==◌, Bool-cases, length, length-append,
  All, All-append, All-imp, Bytes, ok,
}
use symbolon.Prelude.Assoc
use symbolon.Prelude.Assoc.{Eq, contains_key-lookup, insert_absent, lookup-append_other}
use symbolon.Identity.{Identity, in_charset}
use symbolon.Identity.Rule.{IsIdentity, Good, parse-eq-ok_iff}
use symbolon.Psk.{Psk, len}
use symbolon.Strings.{split, split_once}
use symbolon.Strings.Lemmas.{split_once-append, split-append}
use symbolon.PskStore.{
  Hex, identity_eq, PskStore, strip_cr, lines_of, lines, trim_end, lower_hex, from_hex, parse_entry,
  parse_entries, parse, render_entries, render,
}

-- A digit of a hex form.
abbrev pub IsHexDigit : ℕ → Type 0
IsHexDigit b = (leb b'0' b && leb b b'9' || leb b'a' b && leb b b'f') ≡ true

-- 32 bytes
pub record IsPsk (psk : Psk) : Type 0 where
  pub size : length psk.bytes ≡ len
  pub bytes : All (λ b. b < 256) psk.bytes

-- What the `hex` crate documents: the form of bytes is made of lower-case digits and is read back.
pub record HexLaws (hex : Hex) : Type 0 where
  pub digits : (bs : Bytes) → All IsHexDigit (hex.encode bs)
  pub decode-encode :
      (bs : Bytes) → length bs ≡ len → All (λ b. b < 256) bs → hex.decode (hex.encode bs) ≡ ok bs

-- The keys are distinct.
abbrev pub Distinct : {V : Type 0} → List (Identity × V) → Type 0
Distinct [] = Unit
Distinct {V} ((k, v) ∷ m) = All (λ (p : Identity × V). k ≢ p.0) m × Distinct m

-- Identities and keys that `parse` accepts, each identity once.
pub record IsStore (s : PskStore) : Type 0 where
  pub entries : All (λ (p : Identity × Psk). IsIdentity p.0.text × IsPsk p.1) s.entries
  pub distinct : Distinct s.entries

-- Bytes that end no line and are no separator.
Inner : ℕ → Type 0
Inner b = (b ≢ 0x0a) × (b ≢ 0x0d) × (b ≢ b':')

Good-Inner : (b : ℕ) → Good b → (b ≢ 0x0a) × (b ≢ 0x0d) × (b ≢ b':')
unfolding in_charset
Good-Inner b g = (λ q. ground arith, λ q. ground arith, λ q. ground arith)

IsHexDigit-Inner : (b : ℕ) → IsHexDigit b → (b ≢ 0x0a) × (b ≢ 0x0d) × (b ≢ b':')
IsHexDigit-Inner b g = (λ q. ground arith, λ q. ground arith, λ q. ground arith)

-- neither CR nor LF
abbrev Solid : Bytes → Type 0
Solid s = All (λ b. (b ≢ 0x0a) × (b ≢ 0x0d)) s

strip_cr-Solid : (s : Bytes) → Solid s → strip_cr s ≡ s
strip_cr-Solid [] h = refl
strip_cr-Solid (a ∷ []) h = ground (arith, h.0.1)
strip_cr-Solid (a ∷ b ∷ s) h = ap (◌∷◌ a) (strip_cr-Solid (b ∷ s) h.1)

trim_end-Solid : (s : Bytes) → Solid s → trim_end s ≡ s
unfolding trim_end
trim_end-Solid [] h = refl
trim_end-Solid (a ∷ s) h = ground (arith, h.0.0, h.0.1, trim_end-Solid s h.1)

split-cons : (c : ℕ) (s : Bytes) → (a : Bytes) × (l : List Bytes) × (split c s ≡ a ∷ l)
unfolding split
split-cons c [] = ([], [], refl)
split-cons c (b ∷ s) = elim (Bool-cases (b == c)) [
  | inl here ↦ ([], split c s, rw here refl)
  | inr later ↦ let (a, l, e) = split-cons c s in (b ∷ a, l, rw (later, e) refl)
]

lines_of-split :
    (line s : Bytes) → Solid line → lines_of (line ∷ split 0x0a s) ≡ line ∷ lines_of (split 0x0a s)
lines_of-split line s h =
    let (a, l, e) = split-cons 0x0a s in
    rw e (ap (λ (x : Bytes). x ∷ lines_of (a ∷ l)) (strip_cr-Solid line h))

module _ (hex : Hex) (laws : HexLaws hex) where
  abbrev text_of : Identity × Psk → Bytes
  text_of p = p.0.text ++ b':' ∷ hex.encode p.1.bytes

  abbrev IsEntry : Identity × Psk → Type 0
  IsEntry p = IsIdentity p.0.text × IsPsk p.1

  text_of-Solid : (p : Identity × Psk) → IsEntry p → Solid (text_of p)
  text_of-Solid (k, v) (ik, iv) =
      All-append _ k.text (b':' ∷ hex.encode v.bytes)
        (All-imp Good _ (λ b g. let (x, y, z) = Good-Inner b g in (x, y)) k.text ik.good)
        (
          ((λ q. ground arith), (λ q. ground arith)),
          All-imp IsHexDigit _ (λ b g. let (x, y, z) = IsHexDigit-Inner b g in (x, y))
              (hex.encode v.bytes) (laws.digits v.bytes),
        )

  text_of-nonempty : (p : Identity × Psk) → (length (text_of p) == 0) ≡ false
  text_of-nonempty p = ground (arith, length-append p.0.text (b':' ∷ hex.encode p.1.bytes))

  lines-render :
      (entries : List (Identity × Psk))
      → All IsEntry entries
      → lines (render_entries hex entries) ≡ map text_of entries
  unfolding lines render_entries lower_hex split
  lines-render [] h = refl
  lines-render (p ∷ rest) h =
      let solid : Solid (text_of p) = text_of-Solid p h.0 in
      ap lines_of (
        split-append 0x0a (text_of p) (render_entries hex rest)
          (All-imp _ _ (λ b x. x.0) (text_of p) solid))
      ∙ lines_of-split (text_of p) (render_entries hex rest) solid
      ∙ ap (◌∷◌ (text_of p)) (lines-render rest h.1)

  parse_entry-text :
      (i : ℕ) (k : Identity) (v : Psk) (entries : List (Identity × Psk))
      → IsEntry (k, v)
      → Assoc.lookup k entries ≡ none
      → parse_entry hex i (text_of (k, v)) entries ≡ ok (entries ++ (k, v) ∷ [])
  unfolding parse_entry from_hex
  parse_entry-text i k v entries (ik, iv) absent =
      let parts : split_once b':' (text_of (k, v)) ≡ some (k.text, hex.encode v.bytes) =
        split_once-append b':' k.text (hex.encode v.bytes)
          (All-imp Good _ (λ b g. let (x, y, z) = Good-Inner b g in z) k.text ik.good) in
      rw
        (
          parts,
          (parse-eq-ok_iff k.text k).1 (refl, ik),
          laws.decode-encode v.bytes iv.size iv.bytes,
          (contains_key-lookup k entries).1 absent,
          insert_absent k v entries absent,
        )
        refl

  still_absent :
      (k : Identity) (v : Psk) (entries rest : List (Identity × Psk))
      → All (λ (p : Identity × Psk). k ≢ p.0) rest
      → All (λ (p : Identity × Psk). Assoc.lookup p.0 entries ≡ none) rest
      → All (λ (p : Identity × Psk). Assoc.lookup p.0 (entries ++ (k, v) ∷ []) ≡ none) rest
  still_absent k v entries [] d a = tt
  still_absent k v entries ((j, w) ∷ rest) d a =
      (lookup-append_other k j v entries d.0 ∙ a.0, still_absent k v entries rest d.1 a.1)

  parse_entries-texts :
      (i : ℕ) (rest entries : List (Identity × Psk))
      → All IsEntry rest
      → Distinct rest
      → All (λ (p : Identity × Psk). Assoc.lookup p.0 entries ≡ none) rest
      → parse_entries hex i (map text_of rest) entries ≡ ok (entries ++ rest)
  unfolding parse_entries
  parse_entries-texts i [] entries h d a = ap ok (sym (append-nil entries))
  parse_entries-texts i ((k, v) ∷ rest) entries h d a =
      rw
        (
          trim_end-Solid (text_of (k, v)) (text_of-Solid (k, v) h.0),
          text_of-nonempty (k, v),
          parse_entry-text i k v entries h.0 a.0,
        )
        (parse_entries-texts (i + 1) rest (entries ++ (k, v) ∷ []) h.1 d.1
            (still_absent k v entries rest d.0 a.1)
          ∙ ap ok (append_assoc entries ((k, v) ∷ []) rest))

  none_yet :
      (rest : List (Identity × Psk))
      → All (λ (p : Identity × Psk). Assoc.lookup {V = Psk} p.0 [] ≡ none) rest
  unfolding Assoc.lookup
  none_yet [] = tt
  none_yet (p ∷ rest) = (refl, none_yet rest)

  -- Over a hex codec with the documented laws: `parse` of what `render` writes is the store, for
  -- every store of identities and keys that are valid, each identity once.
  pub parse-render : (s : PskStore) → IsStore s → parse hex (render hex s) ≡ ok s
  unfolding parse render
  parse-render s is =
      rw
        (
          lines-render s.entries is.entries,
          parse_entries-texts 1 s.entries [] is.entries is.distinct (none_yet s.entries),
        )
        refl
