-- ===== src/Admin/Talk.antt =====
-- The command line and the broker, each at one end of the admin socket.
use symbolon.Prelude.{◌≡◌, ◌≢◌, Bool, true, false, some, [], Bytes, Result, ok, err}
use symbolon.Strings.Lemmas.{Free}
use symbolon.PskStore
use symbolon.SharedState.{SharedState}
use symbolon.Admin.{Request, Reply, ErrorResponse}
use symbolon.Admin.Cli.{AdminJson}

abbrev pub is_ok : {A B : Type 0} → Result A B → Bool
is_ok (ok _) = true
is_ok (err _) = false

-- What both ends rely on of `serde_json`: a request is read back, no line holds a line feed, none is
-- empty, the field `ok` of a response says whether it is one of success, and the line with a key can
-- be written.
pub record IsAdminJson {E J : Type 0} (wire : AdminJson E J) : Type 0 where
  pub request_back :
      (r : Request) (b : Bytes) → wire.request_to_vec r ≡ some b → wire.request_from b ≡ some r
  pub request_line :
      (r : Request) (b : Bytes) → wire.request_to_vec r ≡ some b → Free b'\n' b × (b ≢ [])
  pub response_line :
      (r : Result Reply (ErrorResponse E J)) (b : Bytes)
      → wire.response_to_vec r ≡ some b
      → Free b'\n' b × (wire.ok_field b ≡ some (is_ok r))
  pub psk_line : (b : Bytes) → (line : Bytes) × (wire.psk_envelope b ≡ some line)
