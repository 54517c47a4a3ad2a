-- ===== src/SharedState/Rollback.antt =====
-- What enrollment and revocation leave in memory, when they succeed and when they fail.
use symbolon.Prelude.{
  ℕ, ◌≡◌, ◌≢◌, refl, ◌⊎◌, inl, inr, false, Option, none, some, List, [], ◌∷◌, arith, if◌then◌else◌,
  Bool-cases, Bytes, ok, err, Result-cases,
}
use symbolon.Prelude.Assoc
use symbolon.Prelude.Assoc.{Eq, contains_key-lookup, lookup-insert, lookup-remove, beq_refl}
use symbolon.Identity.{Identity}
use symbolon.Psk.{Psk}
use symbolon.PskStore
use symbolon.PskStore.{PskStore, Hex, identity_eq}
use symbolon.AtomicFs.{File, Faults, atomic_write}
use symbolon.SharedState.{
  ProviderKind, ResolvedClient, Json, StateMutationError, unknown_client, write_psks, write_clients,
  encode_clients, SharedState, rollback, render_clients_doc, insert_client, enroll_client,
  enroll_clients_file, revoke_client, revoke_psk, write_psk_file, write_clients_file,
}

-- Both states have the same clients.
abbrev pub SameClients : SharedState → SharedState → Type 0
SameClients t s = (j : Identity) → Assoc.lookup j t.clients ≡ Assoc.lookup j s.clients

-- Both states have the same keys of all identities but one.
abbrev pub SamePsksBut : Identity → SharedState → SharedState → Type 0
SamePsksBut client t s =
    (j : Identity)
    → identity_eq.beq client j ≡ false
    → PskStore.lookup j t.psks ≡ PskStore.lookup j s.psks

rollback_lem :
    (client : Identity) (psk : Psk) (c : ResolvedClient) (s : SharedState) (f g : File)
    → Assoc.contains_key client s.clients ≡ false
    → (let t =
          rollback client
            (record (insert_client client psk c s) { psk_file = f; clients_file = g }) in
        SameClients t s × SamePsksBut client t s × (PskStore.lookup client t.psks ≡ none))
unfolding rollback insert_client PskStore.remove PskStore.insert PskStore.lookup
rollback_lem client psk c s f g new = (
  λ j. ground (
    arith,
    (contains_key-lookup client s.clients).0 new,
    identity_eq.beq_iff client j,
    lookup-remove client j (Assoc.insert client c s.clients),
    lookup-insert client j c s.clients,
  ),
  λ j other. ground (
    arith,
    lookup-remove client j (Assoc.insert client psk s.psks.entries),
    lookup-insert client j psk s.psks.entries,
  ),
  ground (
    arith,
    beq_refl client,
    lookup-remove client client (Assoc.insert client psk s.psks.entries),
  ),
)

module _ (hex : Hex) (json : Json) {E : Type 0} where
  -- A failed enrollment leaves the clients in memory as they were, and the keys of all others. If the
  -- client is enrolled already, its key stays as it was too; if not, it has no key behind the failure,
  -- even where the store had one that belonged to no client.
  pub enroll_client-err :
      (psk_faults clients_faults : Faults E) (now : ℕ) (client : Identity) (psk : Psk)
      (provider : ProviderKind) (note : Option Bytes) (s : SharedState)
      (e : StateMutationError E json.Error)
      → (enroll_client hex json psk_faults clients_faults now client psk provider note s).1 ≡ err e
      → (SameClients
          (enroll_client hex json psk_faults clients_faults now client psk provider note s).0
          s)
        × (SamePsksBut client
            (enroll_client hex json psk_faults clients_faults now client psk provider note s).0
            s)
        × (PskStore.lookup client
              (enroll_client hex json psk_faults clients_faults now client psk provider note
                s).0.psks
            ≡ (if Assoc.contains_key client s.clients then PskStore.lookup client s.psks else none))
  unfolding enroll_client enroll_clients_file write_psk_file write_clients_file
  enroll_client-err f1 f2 now client psk provider note s e h =
      let c : ResolvedClient = record {
        providers = provider ∷ [];
        enrolled_at = now;
        note = note;
      } in
      let s1 : SharedState = insert_client client psk c s in
      let file : File = (atomic_write f1 (PskStore.render hex s1.psks) s.psk_file).0 in
      elim (Bool-cases (Assoc.contains_key client s.clients)) [
        | inl there ↦ rw (there, enroll_client) ((λ j. refl), (λ j _. refl), refl)
        | inr new ↦
            elim (Result-cases (atomic_write f1 (PskStore.render hex s1.psks) s.psk_file).1) [
              | inr (_, r) ↦
                  rw (new, r, enroll_client) (rollback_lem client psk c s file s.clients_file new)
              | inl (_, r) ↦ elim (Result-cases (render_clients_doc json s1.clients none)) [
                | inr (_, doc) ↦
                    rw (new, r, doc, enroll_client, enroll_clients_file)
                      (rollback_lem client psk c s file s.clients_file new)
                | inl (bytes, doc) ↦ elim (Result-cases (atomic_write f2 bytes s.clients_file).1) [
                  | inr (_, q) ↦
                      rw (new, r, doc, q, enroll_client, enroll_clients_file)
                        (rollback_lem client psk c s file (atomic_write f2 bytes s.clients_file).0
                          new)
                  | inl (_, q) ↦ absurd (ground arith)
                ]
              ]
            ]
      ]

  -- A revocation that succeeds removes the client and its key, and no others. One that fails at the
  -- write of the PSK file leaves all clients, the revoked one too, and has removed its key: the
  -- tables in memory no longer agree. A failure before that write, at which the client is unknown, the
  -- document cannot be made, or the clients file cannot be written, leaves both tables.
  pub revoke_client_lem :
      (clients_faults psk_faults : Faults E) (client j : Identity) (s : SharedState)
      → (let (t, r) = revoke_client hex json clients_faults psk_faults client s in
          ((r ≡ ok tt)
            × (Assoc.lookup j t.clients
                ≡ (if identity_eq.beq client j then none else Assoc.lookup j s.clients))
            × (PskStore.lookup j t.psks
                ≡ (if identity_eq.beq client j then none else PskStore.lookup j s.psks)))
          ⊎ (((e : E) × (r ≡ err (write_psks e))
                × (t.clients ≡ s.clients)
                × (PskStore.lookup j t.psks
                    ≡ (if identity_eq.beq client j then none else PskStore.lookup j s.psks)))
              ⊎ ((e : StateMutationError E json.Error) × (r ≡ err e)
                  × ((x : E) → e ≢ write_psks x)
                  × (t.clients ≡ s.clients)
                  × (t.psks ≡ s.psks))))
  unfolding revoke_client revoke_psk write_psk_file write_clients_file PskStore.remove
      PskStore.lookup
  revoke_client_lem f1 f2 client j s =
      let psks : List (Identity × Psk) = Assoc.remove client s.psks.entries in
      let text : Bytes = PskStore.render hex (record { entries = psks }) in
      elim (Bool-cases (Assoc.contains_key client s.clients)) [
        | inr unknown ↦
            rw (unknown, revoke_client)
              (inr (inr (unknown_client client.text, refl, (λ x q. ground arith), refl, refl)))
        | inl there ↦ elim (Result-cases (render_clients_doc json s.clients (some client))) [
          | inr (e, doc) ↦
              rw (there, doc, revoke_client)
                (inr (inr (encode_clients e, refl, (λ x q. ground arith), refl, refl)))
          | inl (bytes, doc) ↦ elim (Result-cases (atomic_write f1 bytes s.clients_file).1) [
            | inr (e, r) ↦
                rw (there, doc, r, revoke_client)
                  (inr (inr (write_clients e, refl, (λ x q. ground arith), refl, refl)))
            | inl (_, r) ↦ elim (Result-cases (atomic_write f2 text s.psk_file).1) [
              | inr (e, q) ↦
                  rw (there, doc, r, q, revoke_client, revoke_psk)
                    (inr (inl (e, refl, refl, lookup-remove client j s.psks.entries)))
              | inl (_, q) ↦
                  rw (there, doc, r, q, revoke_client, revoke_psk)
                    (inl (
                      refl,
                      lookup-remove client j s.clients,
                      lookup-remove client j s.psks.entries,
                    ))
            ]
          ]
        ]
      ]
