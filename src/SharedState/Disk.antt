-- ===== src/SharedState/Disk.antt =====
-- What the two files hold while clients are enrolled and revoked.
use symbolon.Prelude.{◌≡◌, refl, ◌⊎◌, inl, inr, none, some, List, [], ◌∷◌, arith, Bytes, ok}
use symbolon.Prelude.Assoc
use symbolon.Prelude.Assoc.{Eq, lookup-insert, lookup-remove}
use symbolon.Identity.{Identity}
use symbolon.Psk.{Psk}
use symbolon.PskStore
use symbolon.PskStore.{PskStore, Hex, identity_eq}
use symbolon.AtomicFs.{File, Faults, atomic_write, atomic_write-content}
use symbolon.SharedState.{ResolvedClient, Json, SharedState, render_clients_doc, entries_of}

-- Every key of the first table is a key of the second.
abbrev pub Within : {A B : Type 0} → List (Identity × A) → List (Identity × B) → Type 0
Within a b = (j : Identity) → Assoc.lookup j b ≡ none → Assoc.lookup j a ≡ none

module _ {A B : Type 0} (a : List (Identity × A)) (b : List (Identity × B)) (w : Within a b)
    (k : Identity) where
  pub Within-insert : (x : A) (y : B) → Within (Assoc.insert k x a) (Assoc.insert k y b)
  Within-insert x y j h = ground (arith, w j, lookup-insert k j x a, lookup-insert k j y b)

  pub Within-insert_right : (y : B) → Within a (Assoc.insert k y b)
  Within-insert_right y j h = ground (arith, w j, lookup-insert k j y b)

  pub Within-remove : Within (Assoc.remove k a) (Assoc.remove k b)
  Within-remove j h = ground (arith, w j, lookup-remove k j a, lookup-remove k j b)

  pub Within-remove_left : Within (Assoc.remove k a) b
  Within-remove_left j h = ground (arith, w j, lookup-remove k j a)

-- Leaving an entry out of the document is leaving its client out of the table.
pub entries_of-remove :
    (client : Identity) (clients : List (Identity × ResolvedClient))
    → entries_of clients (some client) ≡ entries_of (Assoc.remove client clients) none
unfolding entries_of Assoc.remove
entries_of-remove client [] = refl
entries_of-remove client ((id, c) ∷ rest) = ground (
  arith,
  entries_of-remove client rest,
  identity_eq.beq_iff client id,
  identity_eq.beq_iff id client,
)

module _ (hex : Hex) (json : Json) where
  -- The clients file holds this table; if it is not there, the table is empty.
  abbrev pub HoldsClients : File → List (Identity × ResolvedClient) → Type 0
  HoldsClients f held =
      ((f.target ≡ none) × (held ≡ []))
      ⊎ ((bytes : Bytes) × (f.target ≡ some bytes) × (render_clients_doc json held none ≡ ok bytes))

  -- The same for the PSK file.
  abbrev pub HoldsPsks : File → List (Identity × Psk) → Type 0
  HoldsPsks f stored =
      ((f.target ≡ none) × (stored ≡ []))
      ⊎ (f.target ≡ some (PskStore.render hex (record { entries = stored })))

  -- Every client of the clients file has a key in the PSK file.
  pub record Coherent (psk_file clients_file : File) : Type 0 where
    pub held : List (Identity × ResolvedClient)
    pub stored : List (Identity × Psk)
    pub clients : HoldsClients clients_file held
    pub psks : HoldsPsks psk_file stored
    pub within : Within held stored

  abbrev pub CoherentState : SharedState → Type 0
  CoherentState s = Coherent s.psk_file s.clients_file

  -- The clients in memory and those on disk have keys, in memory and on disk.
  pub record Synced (s : SharedState) : Type 0 where
    pub held : List (Identity × ResolvedClient)
    pub stored : List (Identity × Psk)
    pub clients_file : HoldsClients s.clients_file held
    pub psk_file : HoldsPsks s.psk_file stored
    pub disk : Within held stored
    pub memory : Within s.clients s.psks.entries
    pub memory_disk : Within s.clients stored
    pub disk_memory : Within held s.psks.entries

  module _ {E : Type 0} where
    -- A write of the PSK file leaves what it held, or the table that is written.
    pub write-HoldsPsks :
        (fs : Faults E) (stored entries : List (Identity × Psk)) (f : File)
        → HoldsPsks f stored
        → HoldsPsks
            (atomic_write fs (PskStore.render hex (record { entries = entries })) f).0
            stored
          ⊎ HoldsPsks
              (atomic_write fs (PskStore.render hex (record { entries = entries })) f).0
              entries
    write-HoldsPsks fs stored entries f h =
        elim (atomic_write-content fs (PskStore.render hex (record { entries = entries })) f).0 [
          | inl old ↦ inl (rw old h)
          | inr new ↦ inr (inr new)
        ]

    pub write-HoldsClients :
        (fs : Faults E) (held clients : List (Identity × ResolvedClient)) (bytes : Bytes) (f : File)
        → render_clients_doc json clients none ≡ ok bytes
        → HoldsClients f held
        → HoldsClients (atomic_write fs bytes f).0 held
          ⊎ HoldsClients (atomic_write fs bytes f).0 clients
    write-HoldsClients fs held clients bytes f doc h = elim (atomic_write-content fs bytes f).0 [
      | inl old ↦ inl (rw old h)
      | inr new ↦ inr (inr (bytes, new, doc))
    ]
