-- ===== src/Tests/Values.antt =====
-- Values that the runs share: a Noise library that passes everything on, a hex codec, identities.
use symbolon.Prelude.{
  ℕ, ◌+◌, ◌-◌, ◌*◌, ◌/◌, ◌%◌, ◌<◌, ◌≡◌, refl, ap, [], ◌∷◌, arith, ltb, ◌==◌, if◌then◌else◌, ==_iff,
  replicate, All, Bytes, Result, ok, err,
}
use symbolon.Prelude.Assoc.{Eq}
use symbolon.Identity.{Identity, in_charset}
use symbolon.Identity.Rule.{IsIdentity}
use symbolon.Psk.{Psk}
use symbolon.PskStore.{Hex}
use symbolon.PskStore.RoundTrip.{IsHexDigit, HexLaws}
use symbolon.Transport.Noise.{Noise}

instance abbrev pub nat_eq : Eq ℕ
nat_eq = record { beq = ◌==◌; beq_iff = ==_iff }

abbrev pub toy_noise : Noise
toy_noise = record {
  HandshakeState = ℕ;
  TransportState = ℕ;
  Error = Unit;
  build_responder = λ key. ok 0;
  build_initiator = λ psk key. ok 0;
  set_psk = λ hs psk. ok hs;
  read_message = λ hs m. ok (hs + 1, m);
  write_message = λ hs m. ok (hs + 1, m);
  into_transport_mode = λ hs. ok hs;
  decrypt = λ ts m. ok (ts + 1, m);
  encrypt = λ ts m. ok (ts + 1, m);
}

abbrev pub alice : Identity
alice = record { text = b'a' ∷ b'1' ∷ [] }

pub alice-IsIdentity : IsIdentity alice.text
unfolding in_charset
alice-IsIdentity = record {
  nonempty = omega arith;
  short = omega arith;
  good = (ground arith, (ground arith, tt));
}

abbrev pub key_of : ℕ → Psk
key_of b = record { bytes = replicate 32 b }

abbrev hex_digit : ℕ → ℕ
hex_digit n = if ltb n 10 then b'0' + n else 87 + n

abbrev digit_value : ℕ → ℕ
digit_value c = if ltb c 58 then c - b'0' else c - 87

abbrev hex_encode : Bytes → Bytes
hex_encode [] = []
hex_encode (b ∷ bs) = hex_digit (b / 16 % 16) ∷ hex_digit (b % 16) ∷ hex_encode bs

abbrev hex_decode : Bytes → Result Bytes (Unit {0})
hex_decode [] = ok []
hex_decode (a ∷ []) = err tt
hex_decode (a ∷ b ∷ rest) = elim (hex_decode rest) [
  | err e ↦ err e
  | ok bs ↦ ok ((digit_value a * 16 + digit_value b) ∷ bs)
]

abbrev pub toy_hex : Hex
toy_hex = record { FromHexError = Unit; encode = hex_encode; decode = hex_decode }

hex_digit-IsHexDigit : (n : ℕ) → n < 16 → IsHexDigit (hex_digit n)
hex_digit-IsHexDigit n lt = ground arith

hex_encode-digits : (bs : Bytes) → All IsHexDigit (hex_encode bs)
hex_encode-digits [] = tt
hex_encode-digits (b ∷ bs) = (
  hex_digit-IsHexDigit (b / 16 % 16) (omega arith),
  (hex_digit-IsHexDigit (b % 16) (omega arith), hex_encode-digits bs),
)

digit_value-hex_digit : (n : ℕ) → n < 16 → digit_value (hex_digit n) ≡ n
digit_value-hex_digit n lt = ground arith

hex_decode-encode : (bs : Bytes) → All (λ b. b < 256) bs → hex_decode (hex_encode bs) ≡ ok bs
hex_decode-encode [] h = refl
hex_decode-encode (b ∷ bs) h =
    rw
      (
        hex_decode-encode bs h.1,
        digit_value-hex_digit (b / 16 % 16) (omega arith),
        digit_value-hex_digit (b % 16) (omega arith),
      )
      (let small : b < 256 = h.0 in ap (λ (n : ℕ). ok (n ∷ bs)) (omega arith))

pub toy_hex-HexLaws : HexLaws toy_hex
toy_hex-HexLaws = record {
  digits = hex_encode-digits;
  decode-encode = λ bs size bytes. hex_decode-encode bs bytes;
}
