-- ===== src/Tests/State.antt =====
-- Runs of the theorems on the store, the files and the shared state.
use symbolon.Prelude.{
  ℕ, zero, suc, ◌<◌, ◌≡◌, refl, ap, subst, ◌≢◌, ◌⊎◌, inl, true, none, some, List, [], ◌∷◌, ◌++◌,
  arith, if◌then◌else◌, drop, replicate, All, Bytes, ok, err,
}
use symbolon.Prelude.Assoc
use symbolon.PskStore
use symbolon.PskStore.{PskStore, identity_eq}
use symbolon.PskStore.RoundTrip.{IsStore, parse-render}
use symbolon.AtomicFs.{
  File, Faults, atomic_write, atomic_write_lem, replace, sync_file, sync_parent,
}
use symbolon.SharedState.{
  SharedState, ClientEntry, Json, StateMutationError, write_psks, github, enroll_client,
  revoke_client, write_psk_file, write_clients_file, enroll_clients_file, insert_client,
  render_clients_doc, entries_of,
}
use symbolon.SharedState.Disk.{Synced, CoherentState}
use symbolon.SharedState.Crash.{enroll_client-Coherent, revoke_client-Coherent}
use symbolon.SharedState.InSync.{enroll_client-Synced}
use symbolon.SharedState.Rollback.{SameClients, SamePsksBut, enroll_client-err, revoke_client_lem}
use symbolon.Tests.Values.{toy_hex, toy_hex-HexLaws, alice, alice-IsIdentity, key_of}

abbrev pub store : PskStore
store = record { entries = (alice, key_of 7) ∷ [] }

replicate-All : (n : ℕ) → All (λ b. b < 256) (replicate n 7)
replicate-All zero = tt
replicate-All (suc n) = (omega arith, replicate-All n)

pub store-IsStore : IsStore store
store-IsStore = record {
  entries = ((alice-IsIdentity, record { size = refl; bytes = replicate-All 32 }), tt);
  distinct = (tt, tt);
}

parse-render_example : PskStore.parse toy_hex (PskStore.render toy_hex store) ≡ ok store
parse-render_example = parse-render toy_hex toy_hex-HexLaws store store-IsStore

abbrev pub fine : Faults ℕ
fine = record {
  path = none;
  open_file = none;
  write_all_at = none;
  sync_all = none;
  rename = none;
  remove_file = none;
  open_dir = none;
  sync_dir = none;
}

-- the directory cannot be synced
abbrev broken : Faults ℕ
broken = record fine { sync_dir = some 5 }

abbrev old_file : File
old_file = record { target = some (1 ∷ []); synced = true; named = true; temporaries = [] }

atomic_write_lem_example :
    let (t, r) = atomic_write broken (2 ∷ []) old_file in
    (((t.target ≡ old_file.target) × (t.synced ≡ old_file.synced) × (t.named ≡ old_file.named))
      ⊎ ((t.target ≡ some (2 ∷ [])) × (t.synced ≡ true)))
    × (r ≡ ok tt
        → (t.target ≡ some (2 ∷ []))
          × (t.synced ≡ true)
          × (t.named ≡ true)
          × (t.temporaries ≡ old_file.temporaries))
    × ((t.temporaries ≡ old_file.temporaries) ⊎ (drop 1 t.temporaries ≡ old_file.temporaries))
    × (broken.write_all_at ≡ none
        → broken.sync_all ≡ none
        → broken.remove_file ≡ none
        → t.temporaries ≡ old_file.temporaries)
atomic_write_lem_example = atomic_write_lem broken (2 ∷ []) old_file

abbrev names : List ClientEntry → Bytes
names [] = []
names (c ∷ cs) = c.name ++ names cs

abbrev pub toy_json : Json
toy_json = record { Error = ℕ; to_vec_pretty = λ entries. ok (names entries) }

abbrev pub empty : SharedState
empty = record {
  clients = [];
  psks = record { entries = [] };
  psk_file = record { target = none; synced = true; named = true; temporaries = [] };
  clients_file = record { target = none; synced = true; named = true; temporaries = [] };
}

pub empty-Synced : Synced toy_hex toy_json empty
unfolding Assoc.lookup
empty-Synced = record {
  held = [];
  stored = [];
  clients_file = inl (refl, refl);
  psk_file = inl (refl, refl);
  disk = λ j h. refl;
  memory = λ j h. refl;
  memory_disk = λ j h. refl;
  disk_memory = λ j h. refl;
}

enroll_client-Coherent_example :
    CoherentState toy_hex toy_json
      (enroll_client toy_hex toy_json fine broken 3 alice (key_of 7) github none empty).0
enroll_client-Coherent_example =
    enroll_client-Coherent toy_hex toy_json fine broken 3 alice (key_of 7) github none empty
      empty-Synced

abbrev pub enrolled : SharedState
enrolled = record {
  clients = (alice, record { providers = github ∷ []; enrolled_at = 3; note = none }) ∷ [];
  psks = store;
  psk_file = record {
    target = some (PskStore.render toy_hex store);
    synced = true;
    named = true;
    temporaries = [];
  };
  clients_file = record { target = some alice.text; synced = true; named = true; temporaries = [] };
}

pub enrolls :
    enroll_client toy_hex toy_json fine fine 3 alice (key_of 7) github none empty
    ≡ (enrolled, ok tt)
unfolding enroll_client enroll_clients_file insert_client write_psk_file write_clients_file
    atomic_write replace sync_file sync_parent render_clients_doc entries_of PskStore.insert
    Assoc.insert Assoc.contains_key
enrolls = refl

enrolls_ok :
    (enroll_client toy_hex toy_json fine fine 3 alice (key_of 7) github none empty).1 ≡ ok tt
enrolls_ok = ap (λ x. x.1) enrolls

pub enrolled-Synced : Synced toy_hex toy_json enrolled
enrolled-Synced = subst (Synced toy_hex toy_json) (ap (λ x. x.0) enrolls) (
    enroll_client-Synced toy_hex toy_json fine fine 3 alice (key_of 7) github none empty
      empty-Synced enrolls_ok)

revoke_client-Coherent_example :
    CoherentState toy_hex toy_json (revoke_client toy_hex toy_json fine broken alice enrolled).0
revoke_client-Coherent_example =
    revoke_client-Coherent toy_hex toy_json fine broken alice enrolled enrolled-Synced

enroll_fails :
    (enroll_client toy_hex toy_json broken fine 3 alice (key_of 7) github none empty).1
    ≡ err (write_psks 5)
unfolding enroll_client insert_client write_psk_file atomic_write replace sync_file sync_parent
    Assoc.contains_key
enroll_fails = refl

enroll_client-err_example :
    SameClients
      (enroll_client toy_hex toy_json broken fine 3 alice (key_of 7) github none empty).0
      empty
    × SamePsksBut alice
        (enroll_client toy_hex toy_json broken fine 3 alice (key_of 7) github none empty).0
        empty
    × (PskStore.lookup alice
          (enroll_client toy_hex toy_json broken fine 3 alice (key_of 7) github none empty).0.psks
        ≡ (if Assoc.contains_key alice empty.clients
            then PskStore.lookup alice empty.psks
            else none))
enroll_client-err_example =
    enroll_client-err toy_hex toy_json broken fine 3 alice (key_of 7) github none empty
      (write_psks 5) enroll_fails

revoke_client_lem_example :
    (let (t, r) = revoke_client toy_hex toy_json fine broken alice enrolled in
      ((r ≡ ok tt)
        × (Assoc.lookup alice t.clients
            ≡ (if identity_eq.beq alice alice then none else Assoc.lookup alice enrolled.clients))
        × (PskStore.lookup alice t.psks
            ≡ (if identity_eq.beq alice alice then none else PskStore.lookup alice enrolled.psks)))
      ⊎ (((e : ℕ) × (r ≡ err (write_psks e))
            × (t.clients ≡ enrolled.clients)
            × (PskStore.lookup alice t.psks ≡ (
                if identity_eq.beq alice alice then none else PskStore.lookup alice enrolled.psks)))
          ⊎ ((e : StateMutationError ℕ ℕ) × (r ≡ err e)
              × ((x : ℕ) → e ≢ write_psks x)
              × (t.clients ≡ enrolled.clients)
              × (t.psks ≡ enrolled.psks))))
revoke_client_lem_example = revoke_client_lem toy_hex toy_json fine broken alice alice enrolled
