-- ===== src/GitCredential/Types.antt =====
-- The types and constants of src/git_credential.rs.
use symbolon.Prelude.{ℕ, ◌*◌, Bool, [], ◌∷◌, Bytes}

-- `&'static str` of an error: the name of a field
pub data Key : Type 0 where
  protocol_key : Key
  host_key : Key
  path_key : Key
  username_key : Key
  password_key : Key

pub data GitCredentialError : Type 0 where
  unterminated_block : GitCredentialError
  trailing_bytes : GitCredentialError
  missing_separator : ℕ → GitCredentialError
  empty_key : ℕ → GitCredentialError
  empty_value : Key → GitCredentialError
  duplicate_key : Key → GitCredentialError
  missing_required_key : Key → GitCredentialError
  control_byte_in_line : ℕ → ℕ → ℕ → GitCredentialError
  invalid_utf8 : Key → GitCredentialError
  response_control_byte : Key → GitCredentialError
  pre_epoch_expiry : GitCredentialError
  value_too_long : Key → ℕ → GitCredentialError
  request_too_large : ℕ → GitCredentialError

pub record Request : Type 0 where
  pub protocol : Bytes
  pub host : Bytes
  pub path : Bytes
  pub client_supports_authtype : Bool

-- `SystemTime`: seconds and nanoseconds since the UNIX epoch, or before it
pub data SystemTime : Type 0 where
  since_epoch : ℕ → ℕ → SystemTime
  before_epoch : ℕ → ℕ → SystemTime

pub record Response : Type 0 where
  pub username : Bytes
  pub password : Bytes
  pub password_expiry_utc : SystemTime

abbrev pub max_value_bytes : ℕ
max_value_bytes = 4 * 1024

abbrev pub parser_hard_max : ℕ
parser_hard_max = 64 * 1024

-- "protocol", "host", "path", "capability[]", "authtype", ".git"
abbrev pub protocol_name : Bytes
protocol_name = b'p' ∷ b'r' ∷ b'o' ∷ b't' ∷ b'o' ∷ b'c' ∷ b'o' ∷ b'l' ∷ []

abbrev pub host_name : Bytes
host_name = b'h' ∷ b'o' ∷ b's' ∷ b't' ∷ []

abbrev pub path_name : Bytes
path_name = b'p' ∷ b'a' ∷ b't' ∷ b'h' ∷ []

abbrev pub capability_name : Bytes
capability_name =
    b'c' ∷ b'a' ∷ b'p' ∷ b'a' ∷ b'b' ∷ b'i' ∷ b'l' ∷ b'i' ∷ b't' ∷ b'y' ∷ b'[' ∷ b']' ∷ []

abbrev pub authtype_name : Bytes
authtype_name = b'a' ∷ b'u' ∷ b't' ∷ b'h' ∷ b't' ∷ b'y' ∷ b'p' ∷ b'e' ∷ []

abbrev pub dot_git : Bytes
dot_git = b'.' ∷ b'g' ∷ b'i' ∷ b't' ∷ []

abbrev pub lf : ℕ
lf = 0x0a

abbrev pub cr : ℕ
cr = 0x0d

-- "username", "password", "ephemeral", "true", "password_expiry_utc"
abbrev pub username_name : Bytes
username_name = b'u' ∷ b's' ∷ b'e' ∷ b'r' ∷ b'n' ∷ b'a' ∷ b'm' ∷ b'e' ∷ []

abbrev pub password_name : Bytes
password_name = b'p' ∷ b'a' ∷ b's' ∷ b's' ∷ b'w' ∷ b'o' ∷ b'r' ∷ b'd' ∷ []

abbrev pub ephemeral_name : Bytes
ephemeral_name = b'e' ∷ b'p' ∷ b'h' ∷ b'e' ∷ b'm' ∷ b'e' ∷ b'r' ∷ b'a' ∷ b'l' ∷ []

abbrev pub expiry_name : Bytes
expiry_name =
    b'p' ∷ b'a' ∷ b's' ∷ b's' ∷ b'w' ∷ b'o' ∷ b'r' ∷ b'd' ∷ b'_' ∷ b'e' ∷ b'x' ∷ b'p' ∷ b'i' ∷ b'r'
    ∷ b'y' ∷ b'_' ∷ b'u' ∷ b't' ∷ b'c' ∷ []

abbrev pub true_name : Bytes
true_name = b't' ∷ b'r' ∷ b'u' ∷ b'e' ∷ []
