-- ===== src/Transport/Session.antt =====
-- What the two session machines of src/transport.rs share: steps, phases, checks of what is read.
use symbolon.Prelude.{ℕ, [], ◌∷◌, ◌==◌, if◌then◌else◌, length, Bytes, Result, ok, err}
use symbolon.Identity.{Identity}
use symbolon.Transport.Errors.{SessionError, recv_len}

pub data Step : Type 0 where
  read_exact : ℕ → Step
  need_psk : Identity → Step
  write : Bytes → Step
  request : Bytes → Step
  done : Step

pub data Phase : Type 0 where
  msg1 awaiting_psk handshake transport done : Phase

module _ {S : Type 0} where
  unfoldable pub check_recv_len : ℕ → ℕ → Result (Unit {0}) (SessionError S)
  check_recv_len expected got = if expected == got then ok tt else err (recv_len expected got)

  -- `recv_chunk::<2>`
  unfoldable pub recv_chunk : Bytes → Result (ℕ × ℕ) (SessionError S)
  recv_chunk (hi ∷ lo ∷ []) = ok (hi, lo)
  recv_chunk bytes = err (recv_len 2 (length bytes))

-- A machine's method takes the state out and leaves `failed`, which an early return leaves there.
unfoldable pub settle :
    {St S : Type 0} → St → Result St (SessionError S) → St × Result (Unit {0}) (SessionError S)
settle failed (ok s) = (s, ok tt)
settle failed (err e) = (failed, err e)
