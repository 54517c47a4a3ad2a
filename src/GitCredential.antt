-- ===== src/GitCredential.antt =====
-- The git-credential helper protocol: src/git_credential.rs.
mod Types
pub use Types.{
  Key, GitCredentialError, Request, SystemTime, Response, max_value_bytes, parser_hard_max,
  protocol_name, host_name, path_name, capability_name, authtype_name, dot_git, lf, cr,
  username_name, password_name, ephemeral_name, expiry_name, true_name, protocol_key, host_key,
  path_key, username_key, password_key, unterminated_block, trailing_bytes, missing_separator,
  empty_key, empty_value, duplicate_key, missing_required_key, control_byte_in_line, invalid_utf8,
  response_control_byte, pre_epoch_expiry, value_too_long, request_too_large, since_epoch,
  before_epoch,
}
pub mod Emit
pub mod Block
pub mod Fields
pub mod Written
use symbolon.Prelude.{
  ℕ, ◌+◌, ◌-◌, Bool, true, false, ◌&&◌, ◌||◌, Option, none, some, List, [], ◌∷◌, ◌++◌, ltb, ◌==◌,
  if◌then◌else◌, length, take, Bytes, bytes_eq, Result, ok, err, ◌>>=◌, ◌>>◌, ok_or,
}
use symbolon.Strings.{split_once, split, strip_suffix, decimal}
use symbolon.Utf8.{invalid_at}

-- the local variables of `parse`
pub record Slots : Type 0 where
  pub protocol : Option Bytes
  pub host : Option Bytes
  pub path : Option Bytes
  pub client_supports_authtype : Bool

abbrev pub no_slots : Slots
no_slots = record { protocol = none; host = none; path = none; client_supports_authtype = false }

unfoldable pub slot : Key → Slots → Option Bytes
slot protocol_key s = s.protocol
slot host_key s = s.host
slot path_key s = s.path
slot username_key s = none
slot password_key s = none

unfoldable pub set_slot : Key → Bytes → Slots → Slots
set_slot protocol_key v s = record s { protocol = some v }
set_slot host_key v s = record s { host = some v }
set_slot path_key v s = record s { path = some v }
set_slot username_key v s = s
set_slot password_key v s = s

-- `input.windows(2).position(|w| w == b"\n\n")`, from the offset `i`
unfoldable pub find_blank : ℕ → Bytes → Option ℕ
find_blank i (a ∷ b ∷ rest) = if a == lf && b == lf then some i else find_blank (i + 1) (b ∷ rest)
find_blank i _ = none

abbrev pub ends_with_lf : Bytes → Bool
ends_with_lf [] = false
ends_with_lf (b ∷ []) = b == lf
ends_with_lf (b ∷ rest) = ends_with_lf rest

unfoldable pub block_end : Bytes → Result ℕ GitCredentialError
unfolding find_blank
block_end input = elim (find_blank 0 input) [
  | some pos ↦ if ltb (pos + 2) (length input) then err trailing_bytes else ok pos
  | none ↦ if ends_with_lf input then ok (length input - 1) else err unterminated_block
]

-- the first NUL or CR of a line, with its offset
unfoldable pub find_control : ℕ → Bytes → Option (ℕ × ℕ)
find_control i [] = none
find_control i (b ∷ bs) = if b == 0 || b == cr then some (i, b) else find_control (i + 1) bs

-- the recognised keys that take a value
unfoldable pub value_key : Bytes → Option Key
value_key key_bytes =
    if bytes_eq key_bytes protocol_name
    then some protocol_key
    else if bytes_eq key_bytes host_name
    then some host_key
    else if bytes_eq key_bytes path_name
    then some path_key
    else none

unfoldable pub capability : Bytes → Bool → Bool
capability value_bytes old =
    if bytes_eq value_bytes []
    then false
    else if bytes_eq value_bytes authtype_name
    then true
    else old

-- what the loop does with the value of a recognised key
unfoldable pub fill_slot : Key → Bytes → Slots → Result Slots GitCredentialError
unfolding slot set_slot
fill_slot key value_bytes s = elim (slot key s) [
  | some _ ↦ err (duplicate_key key)
  | none ↦
      if ltb max_value_bytes (length value_bytes)
      then err (value_too_long key max_value_bytes)
      else if length value_bytes == 0
      then err (empty_value key)
      else elim (invalid_at value_bytes) [
        | some _ ↦ err (invalid_utf8 key)
        | none ↦ ok (set_slot key value_bytes s)
      ]
]

-- the dispatch on the key
unfoldable pub dispatch : ℕ → Bytes → Bytes → Slots → Result Slots GitCredentialError
unfolding fill_slot value_key capability
dispatch line_no key_bytes value_bytes s =
    if bytes_eq key_bytes []
    then err (empty_key line_no)
    else if bytes_eq key_bytes capability_name
    then ok
        (record s { client_supports_authtype = capability value_bytes s.client_supports_authtype })
    else elim (value_key key_bytes) [ none ↦ ok s | some key ↦ fill_slot key value_bytes s ]

-- one round of the loop over the lines
unfoldable pub parse_line : ℕ → Bytes → Slots → Result Slots GitCredentialError
unfolding find_control split_once dispatch
parse_line line_no line s = elim (find_control 0 line) [
  | some (offset, byte) ↦ err (control_byte_in_line line_no offset byte)
  | none ↦ elim (split_once b'=' line) [
    | none ↦ err (missing_separator line_no)
    | some (key_bytes, value_bytes) ↦ dispatch line_no key_bytes value_bytes s
  ]
]

unfoldable pub parse_lines : ℕ → List Bytes → Slots → Result Slots GitCredentialError
unfolding parse_line
parse_lines line_no [] s = ok s
parse_lines line_no (line ∷ lines) s = parse_line line_no line s >>= parse_lines (line_no + 1) lines

unfoldable pub strip_git : Bytes → Result Bytes GitCredentialError
unfolding strip_suffix
strip_git path_raw = elim (strip_suffix dot_git path_raw) [
  | none ↦ ok path_raw
  | some stripped ↦ if length stripped == 0 then err (empty_value path_key) else ok stripped
]

unfoldable pub finish : Slots → Result Request GitCredentialError
unfolding strip_git
finish s = do
  protocol ← ok_or s.protocol (missing_required_key protocol_key)
  host ← ok_or s.host (missing_required_key host_key)
  path_raw ← ok_or s.path (missing_required_key path_key)
  path ← strip_git path_raw
  ok (record {
    protocol = protocol;
    host = host;
    path = path;
    client_supports_authtype = s.client_supports_authtype;
  })

unfoldable pub parse : Bytes → Result Request GitCredentialError
unfolding block_end parse_lines finish
parse input =
    if ltb parser_hard_max (length input) then err (request_too_large parser_hard_max) else do
      stop ← block_end input
      slots ← parse_lines 1 (split lf (take stop input)) no_slots
      finish slots

unfoldable pub check_field : Key → Bytes → Result (Unit {0}) GitCredentialError
check_field field [] = ok tt
check_field field (b ∷ bs) =
    if b == 0 || b == cr || b == lf then err (response_control_byte field) else check_field field bs

-- `password_expiry_utc < UNIX_EPOCH`
abbrev pub is_pre_epoch : SystemTime → Bool
is_pre_epoch (since_epoch _ _) = false
is_pre_epoch (before_epoch _ _) = true

unfoldable pub new : Bytes → Bytes → SystemTime → Result Response GitCredentialError
unfolding check_field
new username password password_expiry_utc = do
  check_field username_key username
  check_field password_key password
  if is_pre_epoch password_expiry_utc
      then err pre_epoch_expiry
      else ok (record {
        username = username;
        password = password;
        password_expiry_utc = password_expiry_utc;
      })

-- `None` where `expect` panics
unfoldable pub password_expiry_unix_secs : Response → Option ℕ
password_expiry_unix_secs r = elim r.password_expiry_utc [
  | since_epoch secs nanos ↦ some secs
  | before_epoch _ _ ↦ none
]

-- a line `name=value` and its line feed
abbrev pub field_line : Bytes → Bytes → Bytes
field_line name value = name ++ b'=' ∷ value ++ lf ∷ []

-- what `encode` leaves in the buffer `out`; `None` where it panics
unfoldable pub encode : Response → Bytes → Bool → Option Bytes
unfolding password_expiry_unix_secs
encode r out client_supports_authtype = elim (password_expiry_unix_secs r) [
  | none ↦ none
  | some expiry_secs ↦
      let supports : Bool = client_supports_authtype in
      some (
        out
        ++ ((if supports then field_line capability_name authtype_name else [])
            ++ (field_line username_name r.username
                ++ (field_line password_name r.password
                    ++ ((if supports then field_line ephemeral_name true_name else [])
                        ++ (field_line expiry_name (decimal expiry_secs) ++ lf ∷ []))))))
]
