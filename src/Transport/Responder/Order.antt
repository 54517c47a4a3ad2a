-- ===== src/Transport/Responder/Order.antt =====
-- The order in which `Responder` lets its driver act.
use symbolon.Prelude.{
  ℕ, suc, ◌≤◌, ◌≡◌, refl, sym, ap, ◌∙◌, ◌⊎◌, inl, inr, List, [], ◌∷◌, ◌++◌, append-nil,
  append_assoc, arith, take, Bytes, Result, ok, err,
}
use symbolon.Psk.{Psk}
use symbolon.Transport.Noise.{Noise}
use symbolon.Transport.Session.{Step, read_exact, settle}
use symbolon.Transport.Errors.{SessionError}
use symbolon.Transport.Responder
use symbolon.Transport.Responder.{
  RState, failed, awaiting_psk, want_hs_len, want_hs_body, write_hs, wrote_hs_pending, want_req_len,
  want_req_body, have_request, awaiting_response, write_resp, wrote_resp_pending, done, Responder,
}

-- A call of one of the machine's methods.
pub data Call : Type 0 where
  step : Call
  recv : Bytes → Call
  set_psk : Psk → Call
  wrote : Call
  set_response : Bytes → Call

-- What an accepted call did. `Call.step` at a reading state does nothing and counts for nothing.
pub data Move : Type 0 where
  got_bytes asked_psk got_psk emitted_write flushed emitted_request got_response : Move

-- The moves of a whole session, in order.
abbrev pub script : List Move
script =
    got_bytes ∷ got_bytes ∷ asked_psk ∷ got_psk ∷ emitted_write ∷ flushed ∷ got_bytes ∷ got_bytes
    ∷ emitted_request ∷ got_response ∷ emitted_write ∷ flushed ∷ []

-- The number of moves behind a state. (`failed` is reached from many.)
abbrev pub stage : {H T : Type 0} → RState H T → ℕ
stage failed = 0
stage (want_hs_len _) = 0
stage (want_hs_body _ _) = 1
stage (RState.need_psk _ _) = 2
stage (awaiting_psk _) = 3
stage (write_hs _ _) = 4
stage (wrote_hs_pending _) = 5
stage (want_req_len _) = 6
stage (want_req_body _ _) = 7
stage (have_request _ _) = 8
stage (awaiting_response _) = 9
stage (write_resp _) = 10
stage wrote_resp_pending = 11
stage done = 12

step_moves : Step → List Move
step_moves (read_exact _) = []
step_moves (Step.need_psk _) = asked_psk ∷ []
step_moves (Step.write _) = emitted_write ∷ []
step_moves (Step.request _) = emitted_request ∷ []
step_moves Step.done = []

when_ok : {S : Type 0} → Move → Result (Unit {0}) S → List Move
when_ok m (ok _) = m ∷ []
when_ok m (err _) = []

when_step : {S : Type 0} → Result Step S → List Move
unfolding step_moves
when_step (ok s) = step_moves s
when_step (err _) = []

module _ (noise : Noise) where
  -- the state behind a call, and the moves that it accepted
  pub call : Call → Responder noise → Responder noise × List Move
  unfolding when_ok when_step
  call Call.step s = let (t, r) = Responder.step noise s in (t, when_step r)
  call (Call.recv bytes) s = let (t, r) = Responder.recv noise s bytes in (t, when_ok got_bytes r)
  call (Call.set_psk psk) s = let (t, r) = Responder.set_psk noise s psk in (t, when_ok got_psk r)
  call Call.wrote s = let (t, r) = Responder.wrote noise s in (t, when_ok flushed r)
  call (Call.set_response p) s =
      let (t, r) = Responder.set_response noise s p in (t, when_ok got_response r)

  pub run : List Call → Responder noise → Responder noise × List Move
  run [] s = (s, [])
  run (c ∷ cs) s = let (t, moved) = call c s in let (u, later) = run cs t in (u, moved ++ later)

  -- A result of a call from stage `k`: a state at stage `j`, or a failed one, and the moves between.
  record Advances (k : ℕ) (r : Responder noise × List Move) : Type 0 where
    stage_behind : ℕ
    lands : (r.0 ≡ failed) ⊎ (stage r.0 ≡ stage_behind)
    moved : take k script ++ r.1 ≡ take stage_behind script
    bound : stage_behind ≤ 12

  settled :
      (r : Result (Responder noise) (SessionError noise.Error)) (m : Move) (k : ℕ)
      → take k script ++ m ∷ [] ≡ take (suc k) script
      → suc k ≤ 12
      → ((t : Responder noise) → r ≡ ok t → stage t ≡ suc k)
      → Advances k ((settle failed r).0, when_ok m (settle failed r).1)
  unfolding settle when_ok
  settled (ok t) m k e b h = record {
    stage_behind = suc k;
    lands = inr (h t refl);
    moved = e;
    bound = b;
  }
  settled (err x) m k e b h = record {
    stage_behind = k;
    lands = inl refl;
    moved = append-nil (take k script);
    bound = omega arith;
  }

  call-Advances : (s : Responder noise) (c : Call) → Advances (stage s) (call c s)
  unfolding call Responder.step Responder.recv Responder.set_psk Responder.wrote
      Responder.set_response
  call-Advances (want_hs_len hs) (Call.recv b) =
      settled _ got_bytes 0 refl (omega arith) (λ t e. ground arith)
  call-Advances (want_hs_body hs n) (Call.recv b) =
      settled _ got_bytes 1 refl (omega arith) (λ t e. ground arith)
  call-Advances (want_req_len ts) (Call.recv b) =
      settled _ got_bytes 6 refl (omega arith) (λ t e. ground arith)
  call-Advances (want_req_body ts n) (Call.recv b) =
      settled _ got_bytes 7 refl (omega arith) (λ t e. ground arith)
  call-Advances (awaiting_psk hs) (Call.set_psk psk) =
      settled _ got_psk 3 refl (omega arith) (λ t e. ground arith)
  call-Advances (wrote_hs_pending hs) Call.wrote =
      settled _ flushed 5 refl (omega arith) (λ t e. ground arith)
  call-Advances (awaiting_response ts) (Call.set_response p) =
      settled _ got_response 9 refl (omega arith) (λ t e. ground arith)
  call-Advances wrote_resp_pending Call.wrote = record {
    stage_behind = 12;
    lands = inr refl;
    moved = refl;
    bound = omega arith;
  }
  call-Advances (RState.need_psk hs id) Call.step = record {
    stage_behind = 3;
    lands = inr refl;
    moved = refl;
    bound = omega arith;
  }
  call-Advances (write_hs hs out) Call.step = record {
    stage_behind = 5;
    lands = inr refl;
    moved = refl;
    bound = omega arith;
  }
  call-Advances (have_request ts p) Call.step = record {
    stage_behind = 9;
    lands = inr refl;
    moved = refl;
    bound = omega arith;
  }
  call-Advances (write_resp out) Call.step = record {
    stage_behind = 11;
    lands = inr refl;
    moved = refl;
    bound = omega arith;
  }
  call-Advances failed Call.step = record {
    stage_behind = 0;
    lands = inr refl;
    moved = refl;
    bound = omega arith;
  }
  call-Advances done Call.step = record {
    stage_behind = 12;
    lands = inr refl;
    moved = refl;
    bound = omega arith;
  }
  call-Advances s c = record {
    stage_behind = stage s;
    lands = inr refl;
    moved = refl;
    bound = omega arith;
  }

  run_failed : (cs : List Call) → run cs failed ≡ (failed, [])
  unfolding run call Responder.step Responder.recv Responder.set_psk Responder.wrote
      Responder.set_response
  run_failed [] = refl
  run_failed (Call.step ∷ cs) = run_failed cs
  run_failed (c ∷ cs) = run_failed cs

  run-Advances :
      (cs : List Call) (s : Responder noise) → stage s ≤ 12 → Advances (stage s) (run cs s)
  unfolding run
  run-Advances [] s b = record {
    stage_behind = stage s;
    lands = inr refl;
    moved = append-nil _;
    bound = b;
  }
  run-Advances (c ∷ cs) s b = go (call c s) (call-Advances s c) (run-Advances cs (call c s).0)
    where
      go :
          (r : Responder noise × List Move)
          → Advances (stage s) r
          → (stage r.0 ≤ 12 → Advances (stage r.0) (run cs r.0))
          → Advances (stage s) ((run cs r.0).0, r.1 ++ (run cs r.0).1)
      go (t, l) a rest = elim a.lands [
        | inl dead ↦ record {
          stage_behind = a.stage_behind;
          lands = inl (rw dead (ap (λ r. r.0) (run_failed cs)));
          moved = rw dead (rw (run_failed cs) (rw append-nil a.moved));
          bound = a.bound;
        }
        | inr live ↦
            let x = rest (rw live a.bound) in
            let later = (run cs t).1 in
            record {
              stage_behind = x.stage_behind;
              lands = x.lands;
              moved =
                  sym (append_assoc (take (stage s) script) l later)
                  ∙ ap (λ (z : List Move). z ++ later) a.moved
                  ∙ ap (λ (n : ℕ). take n script ++ later) (sym live)
                  ∙ x.moved;
              bound = x.bound;
            }
      ]

  -- Whatever a driver calls, in whatever order and with whatever bytes, on a new session: the moves
  -- that the machine accepts are a prefix of the script, and unless it has failed, its state is the
  -- one behind exactly that prefix.
  pub run-script :
      (hs : noise.HandshakeState) (cs : List Call)
      → (k : ℕ) × (k ≤ 12)
        × ((run cs (want_hs_len hs)).1 ≡ take k script)
        × (((run cs (want_hs_len hs)).0 ≡ failed) ⊎ (stage (run cs (want_hs_len hs)).0 ≡ k))
  run-script hs cs =
      let a = run-Advances cs (want_hs_len hs) (omega arith) in
      (a.stage_behind, a.bound, a.moved, a.lands)
