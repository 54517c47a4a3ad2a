-- ===== src/SharedState/InSync.antt =====
-- Enrollment and revocation that succeed keep memory and the files in step.
use symbolon.Prelude.{
  ℕ, ◌≡◌, sym, ap, ◌∙◌, inl, inr, Option, none, some, List, [], ◌∷◌, arith, Bool-cases, Bytes, ok,
  Result-cases,
}
use symbolon.Prelude.Assoc
use symbolon.Prelude.Assoc.{Eq, contains_key-lookup}
use symbolon.Identity.{Identity}
use symbolon.Psk.{Psk}
use symbolon.PskStore
use symbolon.PskStore.{PskStore, Hex, identity_eq}
use symbolon.AtomicFs.{Faults, atomic_write, atomic_write-content}
use symbolon.SharedState.{
  ProviderKind, ResolvedClient, Json, SharedState, render_clients_doc, insert_client, enroll_client,
  enroll_clients_file, revoke_client, revoke_psk, write_psk_file, write_clients_file,
}
use symbolon.SharedState.Disk.{Within, Within-insert, Within-remove, Synced, entries_of-remove}

module _ (hex : Hex) (json : Json) {E : Type 0} where
  -- An enrollment that succeeds leaves a synced state from a synced state.
  pub enroll_client-Synced :
      (psk_faults clients_faults : Faults E) (now : ℕ) (client : Identity) (psk : Psk)
      (provider : ProviderKind) (note : Option Bytes) (s : SharedState)
      → Synced hex json s
      → (enroll_client hex json psk_faults clients_faults now client psk provider note s).1 ≡ ok tt
      → Synced hex json
          (enroll_client hex json psk_faults clients_faults now client psk provider note s).0
  unfolding enroll_client enroll_clients_file write_psk_file write_clients_file insert_client
      PskStore.insert
  enroll_client-Synced f1 f2 now client psk provider note s y h =
      let c : ResolvedClient = record {
        providers = provider ∷ [];
        enrolled_at = now;
        note = note;
      } in
      let s1 : SharedState = insert_client client psk c s in
      let text : Bytes = PskStore.render hex s1.psks in
      let within : Within s1.clients s1.psks.entries =
        Within-insert s.clients s.psks.entries y.memory client c psk in
      elim (Bool-cases (Assoc.contains_key client s.clients)) [
        | inl there ↦ absurd (ground arith)
        | inr new ↦ elim (Result-cases (atomic_write f1 text s.psk_file).1) [
          | inr (_, r) ↦ absurd (ground arith)
          | inl (_, r) ↦ elim (Result-cases (render_clients_doc json s1.clients none)) [
            | inr (_, doc) ↦ absurd (ground arith)
            | inl (bytes, doc) ↦ elim (Result-cases (atomic_write f2 bytes s.clients_file).1) [
              | inr (_, q) ↦ absurd (ground arith)
              | inl (_, q) ↦
                  rw (new, r, doc, q, enroll_client, enroll_clients_file)
                    (record {
                      held = s1.clients;
                      stored = s1.psks.entries;
                      clients_file =
                          inr (bytes, ((atomic_write-content f2 bytes s.clients_file).1 q).0, doc);
                      psk_file = inr ((atomic_write-content f1 text s.psk_file).1 r).0;
                      disk = within;
                      memory = within;
                      memory_disk = within;
                      disk_memory = within;
                    })
            ]
          ]
        ]
      ]

  -- A revocation that succeeds leaves a synced state from a synced state.
  pub revoke_client-Synced :
      (clients_faults psk_faults : Faults E) (client : Identity) (s : SharedState)
      → Synced hex json s
      → (revoke_client hex json clients_faults psk_faults client s).1 ≡ ok tt
      → Synced hex json (revoke_client hex json clients_faults psk_faults client s).0
  unfolding revoke_client revoke_psk write_psk_file write_clients_file PskStore.remove
      render_clients_doc
  revoke_client-Synced f1 f2 client s y h =
      let rest : List (Identity × ResolvedClient) = Assoc.remove client s.clients in
      let psks : List (Identity × Psk) = Assoc.remove client s.psks.entries in
      let text : Bytes = PskStore.render hex (record { entries = psks }) in
      let within : Within rest psks = Within-remove s.clients s.psks.entries y.memory client in
      elim (Bool-cases (Assoc.contains_key client s.clients)) [
        | inr unknown ↦ absurd (ground arith)
        | inl there ↦ elim (Result-cases (render_clients_doc json s.clients (some client))) [
          | inr (e, doc) ↦ absurd (ground arith)
          | inl (bytes, doc) ↦ elim (Result-cases (atomic_write f1 bytes s.clients_file).1) [
            | inr (e, r) ↦ absurd (ground arith)
            | inl (_, r) ↦ elim (Result-cases (atomic_write f2 text s.psk_file).1) [
              | inr (e, q) ↦ absurd (ground arith)
              | inl (_, q) ↦
                  let doc_rest : render_clients_doc json rest none ≡ ok bytes =
                    ap json.to_vec_pretty (sym (entries_of-remove client s.clients)) ∙ doc in
                  rw (there, doc, r, q, revoke_client, revoke_psk)
                    (record {
                      held = rest;
                      stored = psks;
                      clients_file =
                          inr (
                            bytes,
                            ((atomic_write-content f1 bytes s.clients_file).1 r).0,
                            doc_rest,
                          );
                      psk_file = inr ((atomic_write-content f2 text s.psk_file).1 q).0;
                      disk = within;
                      memory = within;
                      memory_disk = within;
                      disk_memory = within;
                    })
            ]
          ]
        ]
      ]
