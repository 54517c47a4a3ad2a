-- ===== src/Tests/Admin.antt =====
-- Runs of the admin protocol, the startup, the configuration and the drain.
use symbolon.Prelude.{
  ℕ, ◌≡◌, refl, subst, ◌↔◌, inr, true, false, Option, none, some, List, [], ◌∷◌, arith, Bytes,
  Result, ok,
}
use symbolon.Prelude.Assoc
use symbolon.PskStore
use symbolon.PskStore.{PskStore, identity_eq}
use symbolon.AtomicFs.{atomic_write, replace, sync_file, sync_parent}
use symbolon.GitCredential.{since_epoch}
use symbolon.SharedState.{
  ClientEntry, github, enroll_client, enroll_clients_file, insert_client, write_psk_file,
  write_clients_file, render_clients_doc, entries_of, ResolvedClient,
}
use symbolon.SharedState.Disk.{Synced, Coherent, CoherentState, Within}
use symbolon.Admin.{Request, list, enroll, AdminWorld, dispatch, handle_enroll, list_entries}
use symbolon.Admin.Dispatch.{run, run-Synced}
use symbolon.Startup.{load_clients, load_psk_store}
use symbolon.Startup.Restart.{read_of, restart-Coherent}
use symbolon.Config.{
  ProviderGithub, file_backend, validate_backend, Spawn, spawn_signing_backend, Agrees,
  validate_backend-ok_iff,
}
use symbolon.ConnectionTracker
use symbolon.ConnectionTracker.{System, DrainStats, ended, waits, Reach, Reach-drains}
use symbolon.Tests.Values.{toy_hex, toy_hex-HexLaws, alice, alice-IsIdentity, key_of}
use symbolon.Utf8.{invalid_at, invalid_from, next_byte, first_byte, char_start}
use symbolon.Identity.{Identity}
use symbolon.Tests.State.{
  enrolled-Synced, fine, toy_json, empty, empty-Synced, enrolled, store, store-IsStore,
}

abbrev pub admin_world : AdminWorld ℕ
admin_world = record {
  uptime_sec = 1;
  now = 3;
  broker_public = [];
  psk_faults = fine;
  clients_faults = fine;
  providers = github ∷ [];
  mint =
      λ path. ok (record { username = []; password = []; password_expiry_utc = since_epoch 9 0 });
  selfcheck = ok tt;
}

abbrev requests : List (AdminWorld ℕ × Request)
requests = (admin_world, enroll github alice (key_of 7) none) ∷ (admin_world, list) ∷ []

runs : run toy_hex toy_json requests empty ≡ some enrolled
unfolding run dispatch handle_enroll list_entries enroll_client enroll_clients_file insert_client
    write_psk_file write_clients_file atomic_write replace sync_file sync_parent render_clients_doc
    entries_of PskStore.insert Assoc.insert Assoc.contains_key
runs = refl

run-Synced_example :
    Synced toy_hex toy_json enrolled
    × ((w : AdminWorld ℕ) (request : Request)
        → CoherentState toy_hex toy_json (dispatch toy_hex toy_json w request enrolled).0)
run-Synced_example = run-Synced toy_hex toy_json requests empty enrolled empty-Synced runs

abbrev entries : List ClientEntry
entries = record { name = alice.text; providers = github ∷ []; enrolled_at = 3; note = none } ∷ []

abbrev from_str : Bytes → Option (List ClientEntry)
from_str bytes = some entries

abbrev held : List (Identity × ResolvedClient)
held = (alice, record { providers = github ∷ []; enrolled_at = 3; note = none }) ∷ []

files : Coherent toy_hex toy_json enrolled.psk_file enrolled.clients_file
unfolding render_clients_doc entries_of
files = record {
  held = held;
  stored = store.entries;
  clients = inr (alice.text, refl, refl);
  psks = inr refl;
  within = enrolled-Synced.memory;
}

utf8_name :
    (bytes : Bytes) → ◌≡◌ {A = Result Bytes ℕ} (ok alice.text) (ok bytes) → invalid_at bytes ≡ none
unfolding invalid_at invalid_from next_byte first_byte char_start
utf8_name bytes q =
    let same : alice.text ≡ bytes = ground arith in subst (λ b. invalid_at b ≡ none) same refl

restart-Coherent_example :
    (load_clients toy_hex from_str (read_of enrolled.clients_file) ≡ ok files.held)
    × (load_psk_store toy_hex (read_of enrolled.psk_file) ≡ ok (record { entries = files.stored }))
    × Within files.held files.stored
unfolding files render_clients_doc entries_of invalid_at invalid_from next_byte first_byte
    char_start
restart-Coherent_example =
    restart-Coherent toy_hex toy_hex-HexLaws toy_json from_str enrolled.psk_file
      enrolled.clients_file files
      (record { utf8 = λ bytes q. utf8_name bytes q; back = λ bytes q. refl })
      (record { identities = (alice-IsIdentity, tt); distinct = (tt, tt) }) store-IsStore
      (λ q. ground arith)

abbrev gh : ProviderGithub
gh = record { app_key_backend = file_backend; private_key_path = some (b'k' ∷ []); tpm = none }

validate_backend-ok_iff_example :
    (validate_backend gh ≡ ok tt)
    ↔ ((s : Spawn) × (spawn_signing_backend gh ≡ some s) × Agrees gh s)
validate_backend-ok_iff_example = validate_backend-ok_iff gh

-- One handler starts, the drain waits, the handler ends.
abbrev drain_waits : System
drain_waits = record {
  tracker = record { active = 0; listener = some true };
  handlers = 0;
  initial = 1;
  drain = waits;
}

drain_waits-Reach : Reach drain_waits
unfolding ConnectionTracker.new ConnectionTracker.spawn ConnectionTracker.round
    ConnectionTracker.drop_token
drain_waits-Reach =
    ConnectionTracker.next
      (ConnectionTracker.next
        (ConnectionTracker.next ConnectionTracker.start (ConnectionTracker.spawns refl))
        (ConnectionTracker.starts false refl))
      (ConnectionTracker.ends 0 refl)

Reach-drains_example :
    (drain_waits.drain ≡ waits
      → drain_waits.handlers ≡ 0
      → drain_waits.tracker.listener ≡ some true)
    × ((st : DrainStats)
        → drain_waits.drain ≡ ended st
        → st.drain_complete ≡ true
        → (drain_waits.handlers ≡ 0) × (st.inflight_drained ≡ drain_waits.initial))
Reach-drains_example = Reach-drains drain_waits drain_waits-Reach
