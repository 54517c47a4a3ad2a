-- ===== src/Tests/Talk.antt =====
-- A run of the command line and the broker.
use symbolon.Prelude.{
  ℕ, zero, suc, true, false, Option, none, some, List, [], ◌∷◌, if◌then◌else◌, Bytes, bytes_eq, ok,
  err,
}
use symbolon.Prelude.Assoc
use symbolon.PskStore.{identity_eq}
use symbolon.SharedState.{github}
use symbolon.Admin.{Request, status, revoke}
use symbolon.Admin.Cli.{AdminJson}
use symbolon.Tests.Values.{alice}

-- A codec for two requests, of one byte each.
abbrev to_vec : Request → Option Bytes
to_vec status = some (1 ∷ [])
to_vec (revoke github client) = if identity_eq.beq client alice then some (2 ∷ []) else none
to_vec _ = none

abbrev from_vec : Bytes → Option Request
from_vec (suc zero ∷ []) = some status
from_vec (suc (suc zero) ∷ []) = some (revoke github alice)
from_vec _ = none

abbrev wire : AdminJson ℕ ℕ
wire = record {
  request_to_vec = to_vec;
  request_from = from_vec;
  response_to_vec = λ r. elim r [ ok _ ↦ some (1 ∷ []) | err _ ↦ some (2 ∷ []) ];
  refusal = λ raw. some (3 ∷ []);
  ok_field = λ b. if bytes_eq b (1 ∷ []) then some true else some false;
  psk_envelope = λ b. some b;
}

-- the revocation, whose request comes in two chunks
abbrev asked : List Bytes
asked = (2 ∷ []) ∷ (b'\n' ∷ []) ∷ []

abbrev replied : List Bytes
replied = (1 ∷ b'\n' ∷ []) ∷ []
