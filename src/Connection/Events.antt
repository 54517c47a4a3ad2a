-- ===== src/Connection/Events.antt =====
-- The events that a connection logs, by the errors that end it: src/daemon.rs, src/events.rs.
use Prim.Native.String.{String}
use symbolon.Prelude.{ℕ, Option, Bytes}
use symbolon.Transport.Errors.{SessionError}
use symbolon.Transport.Session.{Phase}

pub data EventKind : Type 0 where
  accept admin_request cache_invalidated drain_incomplete : EventKind
  enroll handshake_failed identity_invalid identity_unknown : EventKind
  mint mint_denied mlock mlock_required_failed : EventKind
  prepare provider_call provider_call_done provider_error : EventKind
  ready ready_pidfile_write_failed revoke run_failed : EventKind
  sandbox_applied sandbox_path_skipped selfcheck shutdown : EventKind
  signal_registration_failed startup token_cache_hit : EventKind

-- the fields `evt`, `reason` and `detail` of a log event
pub record LogEvent : Type 0 where
  pub evt : EventKind
  pub reason : String
  pub detail : String

abbrev pub event : EventKind → String → LogEvent
event evt reason = record { evt = evt; reason = reason; detail = "" }

abbrev pub detailed : EventKind → String → String → LogEvent
detailed evt reason detail = record { evt = evt; reason = reason; detail = detail }

-- `ProviderError`; the last five have no arm of their own in `log_mint_error`, and stand here without
-- what they carry
pub data ProviderError : Type 0 where
  unauthorized : Bytes → ProviderError
  forbidden : Bytes → ProviderError
  repo_not_found : ProviderError
  rate_limited : Option ℕ → ProviderError
  unexpected_status : ℕ → ProviderError
  malformed_path : Bytes → ProviderError
  transport_failed : ProviderError
  malformed_response : ProviderError
  timeout : ProviderError
  cancelled : ProviderError
  internal : ProviderError

unfoldable pub log_session_failure : {S : Type 0} → Phase → SessionError S → LogEvent
log_session_failure phase (SessionError.tlv_bad_magic _) = event identity_invalid "bad_magic"
log_session_failure phase (SessionError.tlv_bad_version _) = event identity_invalid "bad_version"
log_session_failure phase (SessionError.tlv_bad_identity_len _) =
    event identity_invalid "bad_identity_len"
log_session_failure phase (SessionError.tlv_invalid_charset _ _) =
    event identity_invalid "invalid_charset"
log_session_failure phase (SessionError.tlv_trailing_bytes _) =
    event identity_invalid "trailing_bytes"
log_session_failure phase (SessionError.tlv_incomplete _) = event identity_invalid "truncated"
log_session_failure phase (SessionError.handshake_read _) =
    event handshake_failed "handshake_read_failed"
log_session_failure phase (SessionError.handshake_write _) =
    event handshake_failed "handshake_write_failed"
log_session_failure phase (SessionError.into_transport _) =
    event handshake_failed "handshake_into_transport_failed"
log_session_failure phase (SessionError.transport_read _) =
    detailed mint_denied "transport_read" "decrypt_failed"
log_session_failure phase (SessionError.transport_write _) = event provider_error "response_write"
log_session_failure Phase.transport (SessionError.frame_too_big _) =
    detailed mint_denied "transport_read" "frame_too_big"
log_session_failure phase (SessionError.frame_too_big _) = event handshake_failed "frame_too_big"
log_session_failure phase (SessionError.recv_len _ _) = event handshake_failed "internal"
log_session_failure phase (SessionError.wrong_state _ _) = event handshake_failed "internal"

unfoldable pub log_phase_eof : Phase → LogEvent
log_phase_eof Phase.msg1 = event handshake_failed "eof_before_msg1"
log_phase_eof Phase.handshake = event handshake_failed "eof_during_handshake"
log_phase_eof Phase.transport = detailed mint_denied "transport_read" "eof"
log_phase_eof Phase.awaiting_psk = event handshake_failed "eof_unexpected_phase"
log_phase_eof Phase.done = event handshake_failed "eof_unexpected_phase"

unfoldable pub log_mint_error : ProviderError → LogEvent
log_mint_error repo_not_found = event mint_denied "repo_not_accessible"
log_mint_error (unauthorized _) = event mint_denied "provider_4xx"
log_mint_error (forbidden _) = event mint_denied "provider_4xx"
log_mint_error (rate_limited _) = event mint_denied "provider_4xx"
log_mint_error (malformed_path _) = event mint_denied "malformed_request"
log_mint_error _ = event provider_error ""
