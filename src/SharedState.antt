-- ===== src/SharedState.antt =====
-- The state that connections and the admin share, and its mutations: `SharedState` of src/daemon.rs.
pub mod Disk
pub mod Crash
pub mod InSync
pub mod Rollback
use symbolon.Prelude.{
  ℕ, Bool, false, not, Option, none, some, List, [], ◌∷◌, if◌then◌else◌, Bytes, bytes_eq, Result,
  ok, err,
}
use symbolon.Prelude.Assoc
use symbolon.Prelude.Assoc.{Eq}
use symbolon.Identity.{Identity}
use symbolon.Psk.{Psk}
use symbolon.PskStore
use symbolon.PskStore.{PskStore, Hex, identity_eq}
use symbolon.AtomicFs.{File, Faults, atomic_write}

-- `providers::ProviderKind`
pub data ProviderKind : Type 0 where
  github : ProviderKind

-- The times are those of the clock, the notes their text.
pub record ResolvedClient : Type 0 where
  pub providers : List ProviderKind
  pub enrolled_at : ℕ
  pub note : Option Bytes

-- an entry of `clients.json`
pub record ClientEntry : Type 0 where
  pub name : Bytes
  pub providers : List ProviderKind
  pub enrolled_at : ℕ
  pub note : Option Bytes

-- `serde_json::to_vec_pretty` of a `ClientsFile`
pub record Json : Type 1 where
  pub Error : Type 0
  pub to_vec_pretty : List ClientEntry → Result Bytes Error

pub data StateMutationError (E J : Type 0) : Type 0 where
  client_already_enrolled : Identity → StateMutationError E J
  unknown_client : Bytes → StateMutationError E J
  write_psks : E → StateMutationError E J
  write_clients : E → StateMutationError E J
  encode_clients : J → StateMutationError E J

-- The tables in memory and the two files.
pub record SharedState : Type 0 where
  pub clients : List (Identity × ResolvedClient)
  pub psks : PskStore
  pub psk_file : File
  pub clients_file : File

abbrev pub entry : Identity → ResolvedClient → ClientEntry
entry id c = record {
  name = id.text;
  providers = c.providers;
  enrolled_at = c.enrolled_at;
  note = c.note;
}

-- `Some(id) == skip`
abbrev pub is_skipped : Identity → Option Identity → Bool
is_skipped id none = false
is_skipped id (some skip) = bytes_eq skip.text id.text

unfoldable pub entries_of : List (Identity × ResolvedClient) → Option Identity → List ClientEntry
entries_of [] skip = []
entries_of ((id, c) ∷ rest) skip =
    let entries = entries_of rest skip in
    if is_skipped id skip then entries else entry id c ∷ entries

-- `Drop for Rollback` while it holds the client
unfoldable pub rollback : Identity → SharedState → SharedState
unfolding PskStore.remove
rollback client s = record s {
  psks = (PskStore.remove client s.psks).0;
  clients = Assoc.remove client s.clients;
}

unfoldable pub render_clients_doc :
    (json : Json) → List (Identity × ResolvedClient) → Option Identity → Result Bytes json.Error
unfolding entries_of
render_clients_doc json clients skip = json.to_vec_pretty (entries_of clients skip)

-- the insertions into both tables
unfoldable pub insert_client : Identity → Psk → ResolvedClient → SharedState → SharedState
unfolding PskStore.insert
insert_client client psk c s = record s {
  psks = PskStore.insert client psk s.psks;
  clients = Assoc.insert client c s.clients;
}

module _ (hex : Hex) (json : Json) {E : Type 0} where
  -- `render` and `atomic_write` of the PSK file
  unfoldable pub write_psk_file : Faults E → SharedState → SharedState × Result (Unit {0}) E
  unfolding atomic_write PskStore.render
  write_psk_file fs s =
      let (file, r) = atomic_write fs (PskStore.render hex s.psks) s.psk_file in
      (record s { psk_file = file }, r)

  -- `atomic_write` of the clients file
  unfoldable pub write_clients_file :
      Faults E → Bytes → SharedState → SharedState × Result (Unit {0}) E
  unfolding atomic_write
  write_clients_file fs bytes s =
      let (file, r) = atomic_write fs bytes s.clients_file in (record s { clients_file = file }, r)

  -- the part of `enroll_client` behind the write of the PSK file, where an error rolls back
  unfoldable pub enroll_clients_file :
      Faults E
      → Identity
      → SharedState
      → SharedState × Result (Unit {0}) (StateMutationError E json.Error)
  unfolding render_clients_doc write_clients_file rollback
  enroll_clients_file fs client s = elim (render_clients_doc json s.clients none) [
    | err e ↦ (rollback client s, err (encode_clients e))
    | ok bytes ↦
        let (t, r) = write_clients_file fs bytes s in
        elim r [ err e ↦ (rollback client t, err (write_clients e)) | ok _ ↦ (t, ok tt) ]
  ]

  -- `enroll_client`, at the time `enrolled_at`; `psk_faults` and `clients_faults` are those of its
  -- two writes
  unfoldable pub enroll_client :
      Faults E
      → Faults E
      → ℕ
      → Identity
      → Psk
      → ProviderKind
      → Option Bytes
      → SharedState
      → SharedState × Result (Unit {0}) (StateMutationError E json.Error)
  unfolding enroll_clients_file insert_client write_psk_file rollback
  enroll_client psk_faults clients_faults enrolled_at client psk provider note s =
      let c : ResolvedClient = record {
        providers = provider ∷ [];
        enrolled_at = enrolled_at;
        note = note;
      } in
      if Assoc.contains_key client s.clients
      then (s, err (client_already_enrolled client))
      else let (t, r) = write_psk_file psk_faults (insert_client client psk c s) in
        elim r [
          | err e ↦ (rollback client t, err (write_psks e))
          | ok _ ↦ enroll_clients_file clients_faults client t
        ]

  -- the part of `revoke_client` behind the write of the clients file
  unfoldable pub revoke_psk :
      Faults E
      → Identity
      → SharedState
      → SharedState × Result (Unit {0}) (StateMutationError E json.Error)
  unfolding write_psk_file PskStore.remove
  revoke_psk fs client s =
      let (t, r) = write_psk_file fs (record s { psks = (PskStore.remove client s.psks).0 }) in
      elim r [
        | err e ↦ (t, err (write_psks e))
        | ok _ ↦ (record t { clients = Assoc.remove client t.clients }, ok tt)
      ]

  unfoldable pub revoke_client :
      Faults E
      → Faults E
      → Identity
      → SharedState
      → SharedState × Result (Unit {0}) (StateMutationError E json.Error)
  unfolding render_clients_doc write_clients_file revoke_psk
  revoke_client clients_faults psk_faults client s =
      if not (Assoc.contains_key client s.clients)
      then (s, err (unknown_client client.text))
      else elim (render_clients_doc json s.clients (some client)) [
        | err e ↦ (s, err (encode_clients e))
        | ok bytes ↦
            let (t, r) = write_clients_file clients_faults bytes s in
            elim r [ err e ↦ (t, err (write_clients e)) | ok _ ↦ revoke_psk psk_faults client t ]
      ]
