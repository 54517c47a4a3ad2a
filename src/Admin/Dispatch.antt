-- ===== src/Admin/Dispatch.antt =====
-- What admin requests do to the shared state.
use symbolon.Prelude.{
  ℕ, ◌≡◌, refl, sym, ap, subst, inl, inr, true, Option, none, some, List, [], ◌∷◌, arith,
  Bool-cases, Option-cases, Bytes, Result, ok, err, Result-cases,
}
use symbolon.Prelude.Assoc
use symbolon.Identity.{Identity}
use symbolon.PskStore.{Hex, identity_eq}
use symbolon.GitCredential
use symbolon.GitCredential.{Response}
use symbolon.SharedState.{ProviderKind, Json, SharedState, StateMutationError}
use symbolon.SharedState.Disk.{Synced, CoherentState}
use symbolon.SharedState.Crash.{enroll_client-Coherent, revoke_client-Coherent}
use symbolon.SharedState.InSync.{enroll_client-Synced, revoke_client-Synced}
use symbolon.Admin.{
  Request, status, list, pubkey, enroll, revoke, mint, selfcheck, Reply, mint_response,
  ErrorResponse, AdminWorld, lookup_provider, handle_enroll, handle_revoke, handle_mint, minted,
  dispatch,
}

module _ (hex : Hex) (json : Json) where
  Synced-Coherent : (s : SharedState) → Synced hex json s → CoherentState hex json s
  Synced-Coherent s y = record {
    held = y.held;
    stored = y.stored;
    clients = y.clients_file;
    psks = y.psk_file;
    within = y.disk;
  }

module _ (hex : Hex) (json : Json) {E : Type 0} where
  -- What a request keeps of a synced state.
  record Keeps (t : SharedState) (r : Result Reply (ErrorResponse E json.Error)) : Type 0 where
    pub coherent : CoherentState hex json t
    pub synced : (reply : Reply) → r ≡ ok reply → Synced hex json t

  unchanged :
      (s : SharedState) (r : Result Reply (ErrorResponse E json.Error))
      → Synced hex json s
      → Keeps s r
  unchanged s r y = record { coherent = Synced-Coherent hex json s y; synced = λ reply q. y }

  -- The result of a mutation is `ok` where the reply to it is.
  replied :
      (r : Result (Unit {0}) (StateMutationError E json.Error)) (reply : Reply)
      → ◌≡◌ {A = Result Reply (ErrorResponse E json.Error)}
          (elim r [ ok _ ↦ ok Reply.ack | err e ↦ err (ErrorResponse.state_mutation e) ])
          (ok reply)
      → r ≡ ok tt
  replied (ok _) reply q = refl
  replied (err e) reply q = absurd (ground arith)

  dispatch-Keeps :
      (w : AdminWorld E) (request : Request) (s : SharedState)
      → Synced hex json s
      → let (t, r) = dispatch hex json w request s in Keeps t r
  unfolding dispatch handle_enroll handle_revoke
  dispatch-Keeps w status s y = unchanged s _ y
  dispatch-Keeps w list s y = unchanged s _ y
  dispatch-Keeps w pubkey s y = unchanged s _ y
  dispatch-Keeps w (enroll provider client psk note) s y = record {
    coherent =
        enroll_client-Coherent hex json w.psk_faults w.clients_faults w.now client psk provider note
          s y;
    synced = λ reply q.
        enroll_client-Synced hex json w.psk_faults w.clients_faults w.now client psk provider note s
          y (replied _ reply q);
  }
  dispatch-Keeps w (revoke provider client) s y =
      elim (Bool-cases (lookup_provider provider w.providers)) [
        | inr missing ↦ rw (missing, dispatch, handle_revoke) (unchanged s _ y)
        | inl found ↦
            rw (found, dispatch, handle_revoke)
              (record {
                coherent = revoke_client-Coherent hex json w.clients_faults w.psk_faults client s y;
                synced = λ reply q.
                    revoke_client-Synced hex json w.clients_faults w.psk_faults client s y
                      (replied _ reply q);
              })
      ]
  dispatch-Keeps w (mint provider client path) s y = unchanged s _ y
  dispatch-Keeps w (selfcheck provider) s y = unchanged s _ y

  -- The state behind requests that all succeed, none if one fails.
  unfoldable pub run : List (AdminWorld E × Request) → SharedState → Option SharedState
  unfolding dispatch
  run [] s = some s
  run ((w, request) ∷ requests) s =
      let (t, r) = dispatch hex json w request s in elim r [ err _ ↦ none | ok _ ↦ run requests t ]

  -- Admin requests that succeed, as many as there are, leave a synced state; and behind them a request
  -- that fails, whichever calls of the file system fail in it, leaves files in which each client has a
  -- key.
  pub run-Synced :
      (requests : List (AdminWorld E × Request)) (s t : SharedState)
      → Synced hex json s
      → run requests s ≡ some t
      → Synced hex json t
        × ((w : AdminWorld E) (request : Request)
            → CoherentState hex json (dispatch hex json w request t).0)
  unfolding run
  run-Synced [] s t y q =
      let same : s ≡ t = ground arith in
      let here : Synced hex json t = subst (Synced hex json) same y in
      (here, λ w request. (dispatch-Keeps w request t here).coherent)
  run-Synced ((w, request) ∷ requests) s t y q =
      elim (Result-cases (dispatch hex json w request s).1) [
        | inr (e, failed) ↦ absurd (nothing (rw (failed, run) at q))
        | inl (reply, done) ↦
            run-Synced requests (dispatch hex json w request s).0 t
              ((dispatch-Keeps w request s y).synced reply done) (rw (done, run) at q)
      ]
    where
      nothing : ◌≡◌ {A = Option SharedState} none (some t) → ⊥
      nothing e = ground arith

  -- The admin gets a token only for a client that is enrolled, and only the one that the provider
  -- returned for this path.
  pub dispatch-mint-ok :
      (w : AdminWorld E) (provider : ProviderKind) (client : Identity) (path : Bytes)
      (s t : SharedState) (reply : Reply)
      → dispatch hex json w (mint provider client path) s ≡ (t, ok reply)
      → (t ≡ s)
        × (Assoc.contains_key client s.clients ≡ true)
        × (lookup_provider provider w.providers ≡ true)
        × ((response : Response) × (secs : ℕ) × (w.mint path ≡ ok response)
            × (GitCredential.password_expiry_unix_secs response ≡ some secs)
            × (reply ≡ mint_response response.username response.password secs))
  unfolding dispatch handle_mint minted
  dispatch-mint-ok w provider client path s t reply h =
      let result = ap (λ x. x.1) h in
      elim (Bool-cases (Assoc.contains_key client s.clients)) [
        | inr stranger ↦ absurd (ground arith)
        | inl known ↦ elim (Bool-cases (lookup_provider provider w.providers)) [
          | inr missing ↦ absurd (ground arith)
          | inl found ↦ elim (Result-cases (w.mint path)) [
            | inr (e, failed) ↦ absurd (ground arith)
            | inl (response, made) ↦
                elim (Option-cases (GitCredential.password_expiry_unix_secs response)) [
                  | inl before ↦ absurd (ground arith)
                  | inr (secs, after) ↦ (
                    sym (ap (λ x. x.0) h),
                    known,
                    found,
                    (response, secs, made, after, ground arith),
                  )
                ]
          ]
        ]
      ]
