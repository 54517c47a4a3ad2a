-- ===== src/Connection/Authorized.antt =====
-- For whom a connection mints: only for a client that the broker knows.
use symbolon.Prelude.{
  ◌≡◌, sym, subst, ◌⊎◌, inl, inr, none, some, List, [], ◌∷◌, ◌++◌, arith, Option-cases, All,
  All-append, All-imp, Bytes, ok, Result-cases,
}
use symbolon.Identity.{Identity}
use symbolon.PskStore.{identity_eq}
use symbolon.BrokerKey.{BrokerPrivateKey}
use symbolon.RateLimit.{TokenBucket}
use symbolon.GitCredential.Fields.{IsPath}
use symbolon.SharedState.{SharedState}
use symbolon.Transport.Noise.{Noise}
use symbolon.Transport.Responder
use symbolon.Transport.Responder.{Responder}
use symbolon.Connection.{Effect, World, Conn, turn, open_session}
use symbolon.Connection.Arms.{mint_calls, mint_calls-append, Knows, turn-ok}

-- Some state of the turns knows the identity.
abbrev pub Seen : Identity → List (World × SharedState) → Type 0
Seen id [] = ⊥
Seen id ((w, s) ∷ ts) = Knows s id ⊎ Seen id ts

module _ (noise : Noise) (hosts : List Bytes) where
  -- what a connection does in turns whose answers and shared state are given
  pub run : List (World × SharedState) → TokenBucket → Conn noise → List Effect
  run [] bucket c = []
  run ((w, s) ∷ ts) bucket c =
      let t = turn noise w s hosts bucket c in
      t.effects ++ elim t.next [ none ↦ [] | some c1 ↦ run ts t.bucket c1 ]

  run-from :
      (P : Identity → Type 0) (ts : List (World × SharedState)) (bucket : TokenBucket)
      (c : Conn noise)
      → ((id : Identity) → c.client_name ≡ some id → P id)
      → All
          (λ (p : Identity × Bytes). (P p.0 ⊎ Seen p.0 ts) × IsPath p.1)
          (mint_calls (run ts bucket c))
  unfolding run
  run-from P [] bucket c named = tt
  run-from P ((w, s) ∷ ts) bucket c named =
      let t = turn noise w s hosts bucket c in
      let (calls, next) = turn-ok noise hosts P w s bucket c named in
      let later : List Effect = elim t.next [ none ↦ [] | some c1 ↦ run ts t.bucket c1 ] in
      let here =
        All-imp _ (λ (p : Identity × Bytes). (P p.0 ⊎ Seen p.0 ((w, s) ∷ ts)) × IsPath p.1)
          (λ p q. (inl q.0, q.1)) (mint_calls t.effects) calls in
      subst (All _) (sym (mint_calls-append t.effects later)) (
        All-append _ (mint_calls t.effects) (mint_calls later) here (elim (Option-cases t.next) [
          | inl over ↦ rw over tt
          | inr (c1, goes_on) ↦ rw goes_on (
              All-imp _ _
                (λ p q. (
                  elim q.0 [
                    | inl (inl x) ↦ inl x
                    | inl (inr k) ↦ inr (inl k)
                    | inr later_seen ↦ inr (inr later_seen)
                  ],
                  q.1,
                ))
                (mint_calls (run ts t.bucket c1))
                (run-from (λ id. P id ⊎ Knows s id) ts t.bucket c1 (next c1 goes_on)))
        ]))

  -- Whatever the peer sends, whatever the provider and the system answer, and whoever is enrolled and
  -- revoked meanwhile: a connection calls `mint` only for an identity that the clients and the keys
  -- both had in one of its turns, and only with a path that is not empty, has at most 4096 bytes and
  -- holds no NUL, CR and LF.
  pub run-Seen :
      (broker_key : BrokerPrivateKey) (c : Conn noise) (ts : List (World × SharedState))
      (bucket : TokenBucket)
      → open_session noise broker_key ≡ ok c
      → All (λ (p : Identity × Bytes). Seen p.0 ts × IsPath p.1) (mint_calls (run ts bucket c))
  unfolding open_session
  run-Seen broker_key c ts bucket opened =
      let nobody : c.client_name ≡ none = elim (Result-cases (Responder.new noise broker_key)) [
        | inr (e, failed) ↦ absurd (ground arith)
        | inl (sess, made) ↦ ground arith
      ] in
      All-imp _ _ (λ p q. (elim q.0 [ inl x ↦ absurd x | inr seen ↦ seen ], q.1))
        (mint_calls (run ts bucket c)) (run-from (λ _. ⊥) ts bucket c (λ id h. ground arith))
