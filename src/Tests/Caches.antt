-- ===== src/Tests/Caches.antt =====
-- Runs of the theorems on the caches and the token bucket.
use symbolon.Prelude.{
  ℕ, ◌+◌, ◌-◌, ◌*◌, ◌≤◌, min, ◌≡◌, refl, ◌⊎◌, none, some, List, [], ◌∷◌, arith, leb, length,
  replicate,
}
use symbolon.Prelude.Assoc
use symbolon.RateLimit.{TokenBucket}
use symbolon.RateLimit.Bounds.{run, run_rate, run_accounts, run_burst}
use symbolon.TtlCache.{TtlCache}
use symbolon.TtlCache
use symbolon.TtlCache.Trace.{Op, get, put, drop_key, replies, spec_replies, replies_refine}
use symbolon.Singleflight.{Event, InFlightGuard, in_flight, default}
use symbolon.Singleflight.Waiting.{In, Told}
use symbolon.Singleflight.Tasks.{System, finishes, Reach, Step, claims, Reach-served}
use symbolon.Singleflight.Exclusive.{Polite, resolvers, Polite-exclusive}
use symbolon.Tests.Values.{nat_eq}

abbrev bucket : TokenBucket
bucket = record { refill_interval = 10; burst_tolerance = 20; tat = 0; suppressed = 0 }

abbrev readings : List ℕ
readings = 3 ∷ 3 ∷ 3 ∷ 3 ∷ 15 ∷ []

run_rate_example : (run readings bucket).accepted * 10 ≤ (20 - 3) + 20 + 10
run_rate_example = run_rate 3 20 readings bucket (
  (omega arith, omega arith),
  (
    (omega arith, omega arith),
    ((omega arith, omega arith), ((omega arith, omega arith), ((omega arith, omega arith), tt))),
  ),
)

run_accounts_example :
    (run readings bucket).accepted
      + (run readings bucket).reported
      + (run readings bucket).bucket.suppressed
    ≡ length readings + 0
run_accounts_example = run_accounts readings bucket (omega arith)

run_burst_example : (run (replicate 7 3) bucket).accepted ≡ min 7 (2 + 1)
run_burst_example = run_burst 7 2 3 bucket (omega arith) refl (omega arith)

abbrev history : List (Op ℕ ℕ)
history = put 0 1 7 10 ∷ get 5 1 ∷ put 6 2 8 9 ∷ drop_key 1 ∷ put 7 1 9 30 ∷ get 20 1 ∷ []

replies_refine_example : replies leb history TtlCache.new ≡ spec_replies history (λ _. none)
replies_refine_example =
    replies_refine leb history 0
      (omega arith, (omega arith, (omega arith, (omega arith, (omega arith, tt)))))

abbrev started : System ℕ ℕ
started = record { cache = default; resolving = []; waiting = [] }

-- two tasks that ask for the key 4
two_ask : Reach (claims 4 (claims 4 started))
two_ask = Reach.next (Reach.next Reach.start (Step.asks 4)) (Step.asks 4)

Reach-served_example :
    let s = claims 4 (claims 4 started) in
    ((k : ℕ) (x : Event) → In (k, x) s.waiting → In (k, x) s.resolving ⊎ Told x s.cache.notified)
    × ((k : ℕ) (x : Event)
        → Assoc.lookup k s.cache.entries ≡ some (in_flight x)
        → In (k, x) s.resolving)
    × ((g : InFlightGuard ℕ ℕ) → Told g.event (finishes g s).cache.notified)
    × (s.resolving ≡ [] → (k : ℕ) (x : Event) → In (k, x) s.waiting → Told x s.cache.notified)
Reach-served_example = Reach-served (claims 4 (claims 4 started)) two_ask

Polite-exclusive_example : resolvers 4 (claims 4 (claims 4 started)).resolving ≤ 1
Polite-exclusive_example =
    Polite-exclusive (claims 4 (claims 4 started)) 4 (Polite.asks (Polite.asks Polite.start 4) 4)
