-- ===== src/SharedState/Crash.antt =====
-- Enrollment and revocation keep the files coherent, whichever call of the file system fails.
use symbolon.Prelude.{
  ℕ, ◌≡◌, refl, sym, ap, ◌∙◌, ◌⊎◌, inl, inr, Option, none, some, List, [], ◌∷◌, arith, Bool-cases,
  Bytes, ok, Result-cases,
}
use symbolon.Prelude.Assoc
use symbolon.Prelude.Assoc.{Eq, contains_key-lookup}
use symbolon.Identity.{Identity}
use symbolon.Psk.{Psk}
use symbolon.PskStore
use symbolon.PskStore.{PskStore, Hex, identity_eq}
use symbolon.AtomicFs.{File, Faults, atomic_write, atomic_write-content}
use symbolon.SharedState.{
  ProviderKind, ResolvedClient, Json, SharedState, rollback, render_clients_doc, insert_client,
  enroll_client, enroll_clients_file, revoke_client, revoke_psk, write_psk_file, write_clients_file,
}
use symbolon.SharedState.Disk.{
  Within, Within-insert, Within-insert_right, Within-remove, Within-remove_left, HoldsClients,
  HoldsPsks, Coherent, CoherentState, Synced, write-HoldsPsks, write-HoldsClients,
  entries_of-remove,
}

module _ (hex : Hex) (json : Json) {E : Type 0} where
  -- what `enroll_clients_file` does to the files
  enroll_clients_file-files :
      (fs : Faults E) (client : Identity) (s : SharedState)
      → ((enroll_clients_file hex json fs client s).0.psk_file ≡ s.psk_file)
        × (((enroll_clients_file hex json fs client s).0.clients_file ≡ s.clients_file)
            ⊎ ((bytes : Bytes) × (render_clients_doc json s.clients none ≡ ok bytes)
                × ((enroll_clients_file hex json fs client s).0.clients_file
                    ≡ (atomic_write fs bytes s.clients_file).0)))
  unfolding enroll_clients_file write_clients_file rollback
  enroll_clients_file-files fs client s =
      elim (Result-cases (render_clients_doc json s.clients none)) [
        | inr (e, doc) ↦ ground arith
        | inl (bytes, doc) ↦ elim (Result-cases (atomic_write fs bytes s.clients_file).1) [
          | inr (e, r) ↦ (ground arith, inr (bytes, doc, ground arith))
          | inl (_, r) ↦ (ground arith, inr (bytes, doc, ground arith))
        ]
      ]

  -- The clients file is the old one, or that which a write of the table of `clients` leaves.
  abbrev Rewritten : Faults E → List (Identity × ResolvedClient) → File → File → Type 0
  Rewritten fs clients old new =
      (new ≡ old)
      ⊎ ((bytes : Bytes) × (render_clients_doc json clients none ≡ ok bytes)
          × (new ≡ (atomic_write fs bytes old).0))

  Rewritten-Coherent :
      (fs : Faults E) (held clients : List (Identity × ResolvedClient))
      (stored : List (Identity × Psk)) (psk_file old new : File)
      → HoldsPsks hex json psk_file stored
      → HoldsClients hex json old held
      → Within held stored
      → Within clients stored
      → Rewritten fs clients old new
      → Coherent hex json psk_file new
  Rewritten-Coherent fs held clients stored psk_file old new hp hc w v (inl same) =
      rw same (record { held = held; stored = stored; clients = hc; psks = hp; within = w })
  Rewritten-Coherent fs held clients stored psk_file old new hp hc w v (inr (bytes, doc, done)) =
      elim (write-HoldsClients hex json fs held clients bytes old doc hc) [
        | inl before ↦
            rw done
              (record { held = held; stored = stored; clients = before; psks = hp; within = w })
        | inr after ↦
            rw done
              (record { held = clients; stored = stored; clients = after; psks = hp; within = v })
      ]

  -- After an enrollment from a synced state, whichever calls of the file system failed in it, each
  -- client of the clients file has a key in the PSK file.
  pub enroll_client-Coherent :
      (psk_faults clients_faults : Faults E) (now : ℕ) (client : Identity) (psk : Psk)
      (provider : ProviderKind) (note : Option Bytes) (s : SharedState)
      → Synced hex json s
      → CoherentState hex json
          (enroll_client hex json psk_faults clients_faults now client psk provider note s).0
  unfolding enroll_client write_psk_file rollback insert_client PskStore.insert
  enroll_client-Coherent f1 f2 now client psk provider note s y =
      let c : ResolvedClient = record {
        providers = provider ∷ [];
        enrolled_at = now;
        note = note;
      } in
      let s1 : SharedState = insert_client client psk c s in
      let text : Bytes = PskStore.render hex s1.psks in
      let file : File = (atomic_write f1 text s.psk_file).0 in
      let held1 : Within y.held s1.psks.entries =
        Within-insert_right y.held s.psks.entries y.disk_memory client psk in
      elim (Bool-cases (Assoc.contains_key client s.clients)) [
        | inl there ↦
            rw (there, enroll_client)
              (record {
                held = y.held;
                stored = y.stored;
                clients = y.clients_file;
                psks = y.psk_file;
                within = y.disk;
              })
        | inr new ↦ elim (Result-cases (atomic_write f1 text s.psk_file).1) [
          | inr (e, r) ↦
              elim (write-HoldsPsks hex json f1 y.stored s1.psks.entries s.psk_file y.psk_file) [
                | inl before ↦
                    rw (new, r, enroll_client)
                      (record {
                        held = y.held;
                        stored = y.stored;
                        clients = y.clients_file;
                        psks = before;
                        within = y.disk;
                      })
                | inr after ↦
                    rw (new, r, enroll_client)
                      (record {
                        held = y.held;
                        stored = s1.psks.entries;
                        clients = y.clients_file;
                        psks = after;
                        within = held1;
                      })
              ]
          | inl (_, r) ↦
              let s2 : SharedState = record s1 { psk_file = file } in
              let written : HoldsPsks hex json file s1.psks.entries =
                inr ((atomic_write-content f1 text s.psk_file).1 r).0 in
              let (same, clients) = enroll_clients_file-files f2 client s2 in
              let done : enroll_client hex json f1 f2 now client psk provider note s
                  ≡ enroll_clients_file hex json f2 client s2 =
                rw (new, r, enroll_client) refl in
              rw (done, same)
                (Rewritten-Coherent f2 y.held s1.clients s1.psks.entries file s.clients_file _
                  written y.clients_file held1
                  (Within-insert s.clients s.psks.entries y.memory client c psk) clients)
        ]
      ]

  revoke_psk-files :
      (fs : Faults E) (client : Identity) (s : SharedState)
      → ((revoke_psk hex json fs client s).0.psk_file
          ≡ (atomic_write fs
              (PskStore.render hex (record { entries = Assoc.remove client s.psks.entries }))
              s.psk_file).0)
        × ((revoke_psk hex json fs client s).0.clients_file ≡ s.clients_file)
  unfolding revoke_psk write_psk_file PskStore.remove
  revoke_psk-files fs client s =
      elim (Result-cases
        (atomic_write fs
          (PskStore.render hex (record { entries = Assoc.remove client s.psks.entries }))
          s.psk_file).1) [
            | inr (e, r) ↦ (ground arith, ground arith)
            | inl (_, r) ↦ (ground arith, ground arith)
          ]

  -- After a revocation from a synced state, whichever calls of the file system failed in it, each
  -- client of the clients file has a key in the PSK file.
  pub revoke_client-Coherent :
      (clients_faults psk_faults : Faults E) (client : Identity) (s : SharedState)
      → Synced hex json s
      → CoherentState hex json (revoke_client hex json clients_faults psk_faults client s).0
  unfolding revoke_client write_clients_file revoke_psk write_psk_file render_clients_doc
      PskStore.remove
  revoke_client-Coherent f1 f2 client s y =
      let rest : List (Identity × ResolvedClient) = Assoc.remove client s.clients in
      let psks : List (Identity × Psk) = Assoc.remove client s.psks.entries in
      let text : Bytes = PskStore.render hex (record { entries = psks }) in
      let file : File = (atomic_write f2 text s.psk_file).0 in
      let stay : Coherent hex json s.psk_file s.clients_file = record {
        held = y.held;
        stored = y.stored;
        clients = y.clients_file;
        psks = y.psk_file;
        within = y.disk;
      } in
      elim (Bool-cases (Assoc.contains_key client s.clients)) [
        | inr unknown ↦ rw (unknown, revoke_client) stay
        | inl there ↦ elim (Result-cases (render_clients_doc json s.clients (some client))) [
          | inr (e, doc) ↦ rw (there, doc, revoke_client) stay
          | inl (bytes, doc) ↦
              let doc_rest : render_clients_doc json rest none ≡ ok bytes =
                ap json.to_vec_pretty (sym (entries_of-remove client s.clients)) ∙ doc in
              let clients_file : File = (atomic_write f1 bytes s.clients_file).0 in
              elim (Result-cases (atomic_write f1 bytes s.clients_file).1) [
                | inr (e, r) ↦
                    rw (there, doc, r, revoke_client)
                      (Rewritten-Coherent f1 y.held rest y.stored s.psk_file s.clients_file
                        clients_file y.psk_file y.clients_file y.disk
                        (Within-remove_left s.clients y.stored y.memory_disk client)
                        (inr (bytes, doc_rest, refl)))
                | inl (_, r) ↦
                    let held : HoldsClients hex json clients_file rest =
                      inr
                        (bytes, ((atomic_write-content f1 bytes s.clients_file).1 r).0, doc_rest) in
                    let s2 : SharedState = record s { clients_file = clients_file } in
                    let (psk_same, clients_same) = revoke_psk-files f2 client s2 in
                    let done : revoke_client hex json f1 f2 client s
                        ≡ revoke_psk hex json f2 client s2 =
                      rw (there, doc, r, revoke_client) refl in
                    rw (done, psk_same, clients_same)
                      (elim (write-HoldsPsks hex json f2 y.stored psks s.psk_file y.psk_file) [
                        | inl before ↦ record {
                          held = rest;
                          stored = y.stored;
                          clients = held;
                          psks = before;
                          within = Within-remove_left s.clients y.stored y.memory_disk client;
                        }
                        | inr after ↦ record {
                          held = rest;
                          stored = psks;
                          clients = held;
                          psks = after;
                          within = Within-remove s.clients s.psks.entries y.memory client;
                        }
                      ])
              ]
        ]
      ]
