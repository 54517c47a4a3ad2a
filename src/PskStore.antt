-- ===== src/PskStore.antt =====
-- The store of pre-shared keys and its file format: src/psk_store.rs, and the hex forms of
-- src/psk.rs.
pub mod RoundTrip
use symbolon.Prelude.{
  ℕ, ◌+◌, ap, Bool, ◌&&◌, ◌||◌, Option, List, [], ◌∷◌, ◌++◌, ◌==◌, if◌then◌else◌, length, Bytes,
  bytes_eq, bytes_eq_iff, Result, ok, err, ◌>>=◌, ◌>>◌, map_err, ok_or,
}
use symbolon.Prelude.Assoc
use symbolon.Prelude.Assoc.{Eq}
use symbolon.Identity
use symbolon.Identity.{Identity, IdentityError}
use symbolon.Psk.{Psk}
use symbolon.Strings.{split, split_once}

-- Identities are compared by their text.
instance abbrev pub identity_eq : Eq Identity
identity_eq = record {
  beq = λ a b. bytes_eq a.text b.text;
  beq_iff = λ a b. (
    λ h. ap (λ t. record { text = t }) ((bytes_eq_iff a.text b.text).0 h),
    λ p. (bytes_eq_iff a.text b.text).1 (ap (λ i. i.text) p),
  );
}

-- The `hex` crate: `encode_to_slice`, and `decode_to_slice` into a buffer of 32 bytes.
pub record Hex : Type 1 where
  pub FromHexError : Type 0
  pub encode : Bytes → Bytes
  pub decode : Bytes → Result Bytes FromHexError

-- `Utf8` carries the offset up to which the file is valid; only the loading of the file raises it.
pub data PskStoreError (E : Type 0) : Type 0 where
  utf8 : ℕ → PskStoreError E
  missing_separator : ℕ → PskStoreError E
  bad_identity : ℕ → IdentityError → PskStoreError E
  bad_psk_hex : ℕ → E → PskStoreError E
  duplicate_identity : ℕ → Identity → PskStoreError E

pub record PskStore : Type 0 where
  pub entries : List (Identity × Psk)

unfoldable pub new : PskStore
new = record { entries = [] }

unfoldable pub lookup : Identity → PskStore → Option Psk
lookup identity s = Assoc.lookup identity s.entries

unfoldable pub insert : Identity → Psk → PskStore → PskStore
insert identity psk s = record { entries = Assoc.insert identity psk s.entries }

-- the store behind the removal, and whether anything was removed
unfoldable pub remove : Identity → PskStore → PskStore × Bool
remove identity s =
    (record { entries = Assoc.remove identity s.entries }, Assoc.contains_key identity s.entries)

-- a `\r` before the line feed goes with it
abbrev pub strip_cr : Bytes → Bytes
strip_cr [] = []
strip_cr (b ∷ []) = if b == 0x0d then [] else b ∷ []
strip_cr (b ∷ rest) = b ∷ strip_cr rest

-- the lines, from the pieces between the line feeds: an empty piece at the end is no line
abbrev pub lines_of : List Bytes → List Bytes
lines_of [] = []
lines_of (last ∷ []) = if length last == 0 then [] else last ∷ []
lines_of (line ∷ rest) = strip_cr line ∷ lines_of rest

-- `str::lines`
unfoldable pub lines : Bytes → List Bytes
lines text = lines_of (split 0x0a text)

-- `trim_end_matches(['\r', '\n'])`
unfoldable pub trim_end : Bytes → Bytes
trim_end [] = []
trim_end (b ∷ bs) =
    let rest = trim_end bs in if length rest == 0 && (b == 0x0d || b == 0x0a) then [] else b ∷ rest

module _ (hex : Hex) where
  -- `{psk:x}`
  unfoldable pub lower_hex : Psk → Bytes
  lower_hex psk = hex.encode psk.bytes

  unfoldable pub from_hex : Bytes → Result Psk hex.FromHexError
  from_hex text = do out ← hex.decode text; ok (record { bytes = out })

  -- one line that is not empty
  unfoldable pub parse_entry :
      ℕ
      → Bytes
      → List (Identity × Psk)
      → Result (List (Identity × Psk)) (PskStoreError hex.FromHexError)
  unfolding from_hex
  parse_entry line_no line entries = do
    parts ← ok_or (split_once b':' line) (missing_separator line_no)
    let (id_str, hex_psk) = parts
    id ← map_err (bad_identity line_no) (Identity.parse id_str)
    psk ← map_err (bad_psk_hex line_no) (from_hex hex_psk)
    if Assoc.contains_key id entries
        then err (duplicate_identity line_no id)
        else ok (Assoc.insert id psk entries)

  unfoldable pub parse_entries :
      ℕ
      → List Bytes
      → List (Identity × Psk)
      → Result (List (Identity × Psk)) (PskStoreError hex.FromHexError)
  unfolding parse_entry trim_end
  parse_entries line_no [] entries = ok entries
  parse_entries line_no (raw ∷ rest) entries =
      let line = trim_end raw in
      (if length line == 0 then ok entries else parse_entry line_no line entries)
      >>= parse_entries (line_no + 1) rest

  unfoldable pub parse : Bytes → Result PskStore (PskStoreError hex.FromHexError)
  unfolding parse_entries lines
  parse text = do entries ← parse_entries 1 (lines text) []; ok (record { entries = entries })

  unfoldable pub render_entries : List (Identity × Psk) → Bytes
  unfolding lower_hex
  render_entries [] = []
  render_entries ((k, psk) ∷ rest) = (k.text ++ b':' ∷ lower_hex psk) ++ 0x0a ∷ render_entries rest

  unfoldable pub render : PskStore → Bytes
  unfolding render_entries
  render s = render_entries s.entries
