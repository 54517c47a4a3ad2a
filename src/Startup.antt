-- ===== src/Startup.antt =====
-- What the broker loads before it serves: the functions of src/daemon.rs that read its files.
pub mod Restart
use symbolon.Prelude.{
  ℕ, Bool, ◌&&◌, ◌||◌, Option, none, some, List, [], ◌∷◌, ◌==◌, if◌then◌else◌, length, Bytes,
  Result, ok, err, ◌>>=◌, ◌>>◌, map_err,
}
use symbolon.Prelude.Assoc
use symbolon.Identity
use symbolon.Identity.{Identity, IdentityError}
use symbolon.Utf8.{invalid_at}
use symbolon.BrokerKey.{BrokerPrivateKey}
use symbolon.PskStore
use symbolon.PskStore.{PskStore, PskStoreError, Hex, identity_eq}
use symbolon.SharedState.{ResolvedClient, ClientEntry}

-- What `fs::read` returns: the bytes, or that the file is not there, or another error.
pub data FileRead : Type 0 where
  contents : Bytes → FileRead
  not_found : FileRead
  failed : FileRead

-- `DaemonError`, those of these functions; `X` is the error of the hex crate
pub data DaemonError (X : Type 0) : Type 0 where
  psk_read : DaemonError X
  load_psks : PskStoreError X → DaemonError X
  broker_key_read : DaemonError X
  broker_key_parse : X → DaemonError X
  load_clients_failed : DaemonError X
  invalid_client_name : Bytes → IdentityError → DaemonError X
  duplicate_client_name : Identity → DaemonError X

-- the bytes that `trim_ascii` takes off: tab, line feed, form feed, carriage return and space
abbrev pub is_ascii_space : ℕ → Bool
is_ascii_space b = b == 9 || b == 10 || b == 12 || b == 13 || b == 32

unfoldable pub trim_ascii_start : Bytes → Bytes
trim_ascii_start [] = []
trim_ascii_start (b ∷ bs) =
    let rest = trim_ascii_start bs in if is_ascii_space b then rest else b ∷ bs

unfoldable pub trim_ascii_end : Bytes → Bytes
trim_ascii_end [] = []
trim_ascii_end (b ∷ bs) =
    let rest = trim_ascii_end bs in if is_ascii_space b && length rest == 0 then [] else b ∷ rest

module _ (hex : Hex) where
  unfoldable pub load_psk_store : FileRead → Result PskStore (DaemonError hex.FromHexError)
  unfolding PskStore.parse PskStore.new
  load_psk_store failed = err psk_read
  load_psk_store not_found = ok PskStore.new
  load_psk_store (contents bytes) = elim (invalid_at bytes) [
    | some valid_up_to ↦ err (load_psks (PskStore.utf8 valid_up_to))
    | none ↦ map_err load_psks (PskStore.parse hex bytes)
  ]

  unfoldable pub load_broker_key : FileRead → Result BrokerPrivateKey (DaemonError hex.FromHexError)
  unfolding trim_ascii_start trim_ascii_end
  load_broker_key (contents bytes) = elim (hex.decode (trim_ascii_end (trim_ascii_start bytes))) [
    | err e ↦ err (broker_key_parse e)
    | ok key ↦ ok (record { bytes = key })
  ]
  load_broker_key not_found = err broker_key_read
  load_broker_key failed = err broker_key_read

  -- `TryFrom<ClientsFile>`, behind the entries that are in the table already
  unfoldable pub table_from :
      List ClientEntry
      → List (Identity × ResolvedClient)
      → Result (List (Identity × ResolvedClient)) (DaemonError hex.FromHexError)
  table_from [] table = ok table
  table_from (entry ∷ rest) table = do
    key ← map_err (invalid_client_name entry.name) (Identity.parse entry.name)
    if Assoc.contains_key key table
        then err (duplicate_client_name key)
        else table_from rest (
            Assoc.insert key
              (record {
                providers = entry.providers;
                enrolled_at = entry.enrolled_at;
                note = entry.note;
              })
              table)

-- The tables and the key that `Acquired::acquire` returns, without the signing backend.
pub record Acquired : Type 0 where
  pub clients : List (Identity × ResolvedClient)
  pub psks : PskStore
  pub broker_key : BrokerPrivateKey

-- `ClientsFile::parse` of text is the parameter `from_str`, `None` its error.
module _ (hex : Hex) (from_str : Bytes → Option (List ClientEntry)) where
  -- `load_clients_file` and the table made of it
  unfoldable pub load_clients :
      FileRead → Result (List (Identity × ResolvedClient)) (DaemonError hex.FromHexError)
  unfolding table_from
  load_clients (contents bytes) = elim (invalid_at bytes) [
    | some valid_up_to ↦ err load_clients_failed
    | none ↦ elim (from_str bytes) [
      | none ↦ err load_clients_failed
      | some entries ↦ table_from hex entries []
    ]
  ]
  load_clients not_found = err load_clients_failed
  load_clients failed = err load_clients_failed

  -- `Acquired::acquire` up to the signing backend: the files of the clients, of the keys, and of the
  -- broker's key
  unfoldable pub acquire :
      FileRead → FileRead → FileRead → Result Acquired (DaemonError hex.FromHexError)
  unfolding load_clients load_psk_store load_broker_key
  acquire clients_file psk_file static_key_file = do
    clients ← load_clients clients_file
    psks ← load_psk_store hex psk_file
    broker_key ← load_broker_key hex static_key_file
    ok (record { clients = clients; psks = psks; broker_key = broker_key })
