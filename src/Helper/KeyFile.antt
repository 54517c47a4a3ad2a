-- ===== src/Helper/KeyFile.antt =====
-- The key file of the credential helper: what the broker prints for a client is read back.
use symbolon.Prelude.{
  ℕ, zero, suc, ◌<◌, ◌≡◌, refl, ap, ◌∙◌, ◌≢◌, false, some, [], ◌∷◌, ◌++◌, arith, ◌==◌, length,
  replicate, All, All-append, All-imp, Bytes, ok,
}
use symbolon.Strings.{split_once, trim_start, trim_end, trim}
use symbolon.Strings.Lemmas.{split_once-append}
use symbolon.Psk.{Psk}
use symbolon.PskStore.{Hex}
use symbolon.PskStore.RoundTrip.{HexLaws, IsPsk, IsHexDigit}
use symbolon.BrokerKey.{BrokerPublicKey}
use symbolon.Transport.Noise.{Noise}
use symbolon.Helper.{load_key_file}

-- ASCII, and no white space.
abbrev pub Dark : ℕ → Type 0
Dark b = (32 < b) × (b < 128)

trim_start-Dark : (b : ℕ) (s : Bytes) → Dark b → trim_start (b ∷ s) ≡ b ∷ s
unfolding trim_start
trim_start-Dark b [] h = ground arith
trim_start-Dark b (c ∷ []) h = ground arith
trim_start-Dark b (c ∷ d ∷ s) h = ground arith

trim_start-newlines : (n : ℕ) → trim_start (replicate n b'\n') ≡ []
unfolding trim_start
trim_start-newlines zero = refl
trim_start-newlines (suc zero) = refl
trim_start-newlines (suc (suc zero)) = refl
trim_start-newlines (suc (suc (suc n))) = trim_start-newlines (suc (suc n))

trim_end-newlines : (n : ℕ) → trim_end (replicate n b'\n') ≡ []
unfolding trim_end
trim_end-newlines zero = refl
trim_end-newlines (suc n) = rw (trim_end, trim_start-newlines (suc n)) refl

trim_end-append : (s : Bytes) (n : ℕ) → All Dark s → trim_end (s ++ replicate n b'\n') ≡ s
unfolding trim_end
trim_end-append [] n h = trim_end-newlines n
trim_end-append (b ∷ s) n h =
    rw (trim_end, trim_start-Dark b (s ++ replicate n b'\n') h.0, trim_end-append s n h.1)
      (let some_bytes : (length (b ∷ s ++ replicate n b'\n') == 0) ≡ false = ground arith in
        rw some_bytes refl)

-- Text without white space loses only the line ends behind it.
trim-append :
    (b : ℕ) (s : Bytes) (n : ℕ) → All Dark (b ∷ s) → trim ((b ∷ s) ++ replicate n b'\n') ≡ b ∷ s
unfolding trim
trim-append b s n h =
    ap trim_end (trim_start-Dark b (s ++ replicate n b'\n') h.0) ∙ trim_end-append (b ∷ s) n h

digit-Dark : (b : ℕ) → IsHexDigit b → Dark b
digit-Dark b h = ground arith

digit-colon : (b : ℕ) → IsHexDigit b → b ≢ b':'
digit-colon b h = λ q. ground arith

module _ (noise : Noise) (hex : Hex) (laws : HexLaws hex) where
  -- The broker's public key and a client's key in hex, with a colon between them and any number of
  -- line ends behind, are read as these two keys.
  pub load_key_file-text :
      (public : BrokerPublicKey) (psk : Psk) (n : ℕ)
      → IsPsk (record { bytes = public.bytes })
      → IsPsk psk
      → load_key_file noise hex
          (some ((hex.encode public.bytes ++ b':' ∷ hex.encode psk.bytes) ++ replicate n b'\n'))
        ≡ ok (public, psk)
  unfolding load_key_file
  load_key_file-text public psk n is_public is_psk =
      let left = hex.encode public.bytes in
      let right = hex.encode psk.bytes in
      let dark : All Dark (left ++ b':' ∷ right) =
        All-append Dark left (b':' ∷ right)
          (All-imp IsHexDigit Dark digit-Dark left (laws.digits public.bytes))
          (
            (omega arith, omega arith),
            All-imp IsHexDigit Dark digit-Dark right (laws.digits psk.bytes),
          ) in
      let split : split_once b':' (left ++ b':' ∷ right) ≡ some (left, right) =
        split_once-append b':' left right
          (All-imp IsHexDigit _ digit-colon left (laws.digits public.bytes)) in
      rw
        (
          load_key_file,
          trimmed (left ++ b':' ∷ right) dark,
          split,
          laws.decode-encode public.bytes is_public.size is_public.bytes,
          laws.decode-encode psk.bytes is_psk.size is_psk.bytes,
        )
        refl
    where
      trimmed : (s : Bytes) → All Dark s → trim (s ++ replicate n b'\n') ≡ s
      trimmed [] h = unfold trim in ap trim_end (trim_start-newlines n)
      trimmed (b ∷ s) h = trim-append b s n h
