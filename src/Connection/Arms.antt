-- ===== src/Connection/Arms.antt =====
-- What each turn of a connection keeps: whom it serves, and for whom it mints.
use symbolon.Prelude.{
  ◌≡◌, refl, sym, ap, subst, ◌⊎◌, inl, inr, true, none, some, List, [], ◌∷◌, ◌++◌, arith, ltb,
  Bool-cases, Option-cases, length, All, All-append, Bytes, Result, ok, err, Result-cases,
}
use symbolon.Prelude.Assoc
use symbolon.Prelude.Assoc.{Eq}
use symbolon.Identity.{Identity}
use symbolon.Psk.{Psk}
use symbolon.PskStore
use symbolon.PskStore.{identity_eq}
use symbolon.RateLimit.{TokenBucket, try_acquire}
use symbolon.GitCredential
use symbolon.GitCredential.{Response, Request}
use symbolon.GitCredential.Fields.{IsPath, parse-IsValue}
use symbolon.SharedState.{SharedState}
use symbolon.Transport.Noise.{Noise}
use symbolon.Transport.Errors.{SessionError}
use symbolon.Transport.Session.{Step, Phase}
use symbolon.Transport.Responder
use symbolon.Transport.Responder.{Responder}
use symbolon.Connection.{
  ProviderError, repo_not_found, Effect, logs, writes, mints, World, wire_read_budget, has_host,
  choose_psk, Conn, Turn, go_on, on_read_exact, on_need_psk, on_write, on_minted, on_request,
  on_done, on_step, turn, log_session_failure,
}

-- the calls of `provider.mint`, with their clients
abbrev pub mint_calls : List Effect → List (Identity × Bytes)
mint_calls [] = []
mint_calls (mints client path ∷ es) = (client, path) ∷ mint_calls es
mint_calls (logs _ ∷ es) = mint_calls es
mint_calls (writes _ ∷ es) = mint_calls es

pub mint_calls-append :
    (xs ys : List Effect) → mint_calls (xs ++ ys) ≡ mint_calls xs ++ mint_calls ys
mint_calls-append [] ys = refl
mint_calls-append (mints client path ∷ xs) ys = ap (◌∷◌ (client, path)) (mint_calls-append xs ys)
mint_calls-append (logs _ ∷ xs) ys = mint_calls-append xs ys
mint_calls-append (writes _ ∷ xs) ys = mint_calls-append xs ys

-- Both tables have the identity.
abbrev pub Knows : SharedState → Identity → Type 0
Knows s id =
    ((psk : Psk) × (PskStore.lookup id s.psks ≡ some psk))
    × (Assoc.contains_key id s.clients ≡ true)

module _ (noise : Noise) (hosts : List Bytes) where
  module _ (P : Identity → Type 0) where
    abbrev pub Named : Conn noise → Type 0
    Named c = (id : Identity) → c.client_name ≡ some id → P id

    abbrev pub CallsOk : List Effect → Type 0
    CallsOk es = All (λ (p : Identity × Bytes). P p.0 × IsPath p.1) (mint_calls es)

    abbrev pub NextOk : SharedState → Turn noise → Type 0
    NextOk s t =
        (c : Conn noise)
        → t.next ≡ some c
        → (id : Identity) → c.client_name ≡ some id
        → P id ⊎ Knows s id

    abbrev pub TurnOk : SharedState → Turn noise → Type 0
    TurnOk s t = CallsOk t.effects × NextOk s t

    go_on-ok :
        (s : SharedState) (bucket : TokenBucket) (effects : List Effect) (phase : Phase)
        (c : Conn noise) (r : Result (Unit {0}) (SessionError noise.Error))
        → CallsOk effects
        → ((id : Identity) → c.client_name ≡ some id → P id ⊎ Knows s id)
        → TurnOk s (go_on noise bucket effects phase c r)
    unfolding go_on
    go_on-ok s bucket effects phase c (ok _) calls named =
        (calls, λ c1 q id h. named id (ground arith))
    go_on-ok s bucket effects phase c (err e) calls named = (
      subst (All _) (sym (mint_calls-append effects (logs (log_session_failure phase e) ∷ [])))
          (All-append _ _ _ calls tt),
      λ c1 q. absurd (ground arith),
    )

    read_exact-ok :
        (w : World) (s : SharedState) (bucket : TokenBucket) (c : Conn noise)
        → Named c
        → TurnOk s (on_read_exact noise w bucket c)
    unfolding on_read_exact
    read_exact-ok w s bucket c named = elim (Option-cases w.read) [
      | inl eof ↦ rw (eof, on_read_exact) (tt, λ c1 q. absurd (ground arith))
      | inr (bytes, got) ↦
          let (sess, r) = Responder.recv noise c.sess bytes in
          rw (got, on_read_exact)
            (go_on-ok s bucket [] (Responder.phase c.sess) (record c { sess = sess }) r tt
              (λ id h. inl (named id h)))
    ]

    write-ok :
        (w : World) (s : SharedState) (bucket : TokenBucket) (bytes : Bytes) (c : Conn noise)
        → Named c
        → TurnOk s (on_write noise w bucket bytes c)
    unfolding on_write
    write-ok w s bucket bytes c named = elim (Bool-cases w.write_ok) [
      | inr failed ↦ rw (failed, on_write) (tt, λ c1 q. absurd (ground arith))
      | inl written ↦
          let (sess, r) = Responder.wrote noise c.sess in
          rw (written, on_write)
            (go_on-ok s bucket (writes bytes ∷ []) (Responder.phase sess) (record c { sess = sess })
              r tt (λ id h. inl (named id h)))
    ]

    done-ok :
        (s : SharedState) (bucket : TokenBucket) (c : Conn noise)
        → TurnOk s (on_done noise bucket c)
    unfolding on_done
    done-ok s bucket c = elim (Option-cases c.client_name) [
      | inl nobody ↦ rw (nobody, on_done) (tt, λ c1 q. absurd (ground arith))
      | inr (id, named) ↦ elim (Option-cases c.mint_record) [
        | inl nothing ↦ rw (named, nothing, on_done) (tt, λ c1 q. absurd (ground arith))
        | inr (rec, minted) ↦ rw (named, minted, on_done) (tt, λ c1 q. absurd (ground arith))
      ]
    ]

    minted-ok :
        (s : SharedState) (bucket : TokenBucket) (client : Identity) (request : Request)
        (outcome : Result Response ProviderError) (c : Conn noise)
        → P client
        → IsPath request.path
        → Named c
        → TurnOk s (on_minted noise bucket (mints client request.path) request outcome c)
    unfolding on_minted
    minted-ok s bucket client request (err repo_not_found) c p path named =
        (((p, path), tt), λ c1 q. absurd (ground arith))
    minted-ok s bucket client request (err e) c p path named =
        (((p, path), tt), λ c1 q. absurd (ground arith))
    minted-ok s bucket client request (ok response) c p path named =
        elim (Option-cases (GitCredential.encode response [] request.client_supports_authtype)) [
          | inl panics ↦ rw (panics, on_minted) (((p, path), tt), λ c1 q. absurd (ground arith))
          | inr (bytes, encoded) ↦
              let (sess, r) = Responder.set_response noise c.sess bytes in
              rw (encoded, on_minted)
                (go_on-ok s bucket (mints client request.path ∷ []) (Responder.phase sess)
                  (record c { sess = sess; mint_record = some (request.host, request.path) }) r
                  ((p, path), tt) (λ id h. inl (named id h)))
        ]

    request-ok :
        (w : World) (s : SharedState) (bucket : TokenBucket) (bytes : Bytes) (c : Conn noise)
        → Named c
        → TurnOk s (on_request noise w hosts bucket bytes c)
    unfolding on_request
    request-ok w s bucket bytes c named = elim (Option-cases c.client_name) [
      | inl nobody ↦ rw (nobody, on_request) (tt, λ c1 q. absurd (ground arith))
      | inr (client, known) ↦ elim (Bool-cases (ltb wire_read_budget (length bytes))) [
        | inl large ↦ rw (known, large, on_request) (tt, λ c1 q. absurd (ground arith))
        | inr fits ↦ elim (Result-cases (GitCredential.parse bytes)) [
          | inr (e, bad) ↦ rw (known, fits, bad, on_request) (tt, λ c1 q. absurd (ground arith))
          | inl (request, good) ↦ elim (Bool-cases (has_host request.host hosts)) [
            | inr nowhere ↦
                rw (known, fits, good, nowhere, on_request) (tt, λ c1 q. absurd (ground arith))
            | inl there ↦
                rw (known, fits, good, there, on_request)
                  (minted-ok s bucket client request (w.mint request.path) c (named client known)
                    (let (_, _, path) = parse-IsValue bytes request good in path) named)
          ]
        ]
      ]
    ]

    choose_psk_lem :
        (w : World) (s : SharedState) (bucket : TokenBucket) (identity : Identity)
        → (let (name, psk, after, effects) = choose_psk w s bucket identity in
            (mint_calls effects ≡ [])
            × ((name ≡ none) ⊎ ((name ≡ some identity) × Knows s identity)))
    unfolding choose_psk
    choose_psk_lem w s bucket identity = elim (Option-cases (PskStore.lookup identity s.psks)) [
      | inl unknown ↦ elim (Option-cases (try_acquire w.now bucket).1) [
        | inl quiet ↦ rw (unknown, quiet, choose_psk) (refl, inl refl)
        | inr (n, loud) ↦ rw (unknown, loud, choose_psk) (refl, inl refl)
      ]
      | inr (psk, known) ↦ elim (Bool-cases (Assoc.contains_key identity s.clients)) [
        | inl there ↦ rw (known, there, choose_psk) (refl, inr (refl, ((psk, refl), refl)))
        | inr absent ↦ rw (known, absent, choose_psk) (refl, inl refl)
      ]
    ]

    need_psk-ok :
        (w : World) (s : SharedState) (bucket : TokenBucket) (identity : Identity) (c : Conn noise)
        → Named c
        → TurnOk s (on_need_psk noise w s bucket identity c)
    unfolding on_need_psk
    need_psk-ok w s bucket identity c named =
        let (name, psk, after, effects) = choose_psk w s bucket identity in
        let (silent, chosen) = choose_psk_lem w s bucket identity in
        let c1 : Conn noise = elim name [
          | none ↦ c
          | some id ↦ record c { client_name = some id }
        ] in
        let calls : CallsOk effects = subst (All _) (sym silent) tt in
        let named1 : (id : Identity) → c1.client_name ≡ some id → P id ⊎ Knows s id = λ id h.
          elim chosen [
            | inl nobody ↦ inl (named id (rw nobody at h))
            | inr (it, knows) ↦
                let same : identity ≡ id = ground (arith, it, rw it at h) in
                inr (subst (Knows s) same knows)
          ] in
        elim (Option-cases psk) [
          | inl no_rng ↦
              rw (no_rng, on_need_psk)
                (
                  subst (All _) (sym (mint_calls-append effects _)) (All-append _ _ _ calls tt),
                  λ c2 q. absurd (ground arith),
                )
          | inr (key, got) ↦
              let (sess, r) = Responder.set_psk noise c1.sess key in
              rw (got, on_need_psk)
                (go_on-ok s after effects (Responder.phase sess) (record c1 { sess = sess }) r calls
                  named1)
        ]

    pub turn-ok :
        (w : World) (s : SharedState) (bucket : TokenBucket) (c : Conn noise)
        → Named c
        → TurnOk s (turn noise w s hosts bucket c)
    unfolding turn on_step
    turn-ok w s bucket c named =
        let (sess, r) = Responder.step noise c.sess in
        let c1 : Conn noise = record c { sess = sess } in
        elim (Result-cases r) [
          | inr (e, failed) ↦ rw (failed, turn) (tt, λ c2 q. absurd (ground arith))
          | inl (step, asked) ↦ rw (asked, turn) (arm step c1 named)
        ]
      where
        arm :
            (step : Step) (c1 : Conn noise)
            → Named c1
            → TurnOk s (on_step noise w s hosts bucket step c1)
        arm (Step.read_exact n) c1 nm = read_exact-ok w s bucket c1 nm
        arm (Step.need_psk identity) c1 nm = need_psk-ok w s bucket identity c1 nm
        arm (Step.write bytes) c1 nm = write-ok w s bucket bytes c1 nm
        arm (Step.request bytes) c1 nm = request-ok w s bucket bytes c1 nm
        arm Step.done c1 nm = done-ok s bucket c1
