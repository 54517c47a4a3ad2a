-- ===== src/RateLimit/Bounds.antt =====
-- How many events the bucket admits, and that it accounts for those that it drops.
use symbolon.Prelude.{
  ℕ, zero, suc, ◌+◌, ◌-◌, ◌*◌, ◌≤◌, ◌<◌, min, max, ◌≡◌, refl, ◌⊎◌, inl, inr, Option, none, some,
  List, [], ◌∷◌, arith, leb, Bool-cases, length, All, replicate,
}
use symbolon.RateLimit.{TokenBucket, u64_max, try_acquire}

-- The bucket behind events at the given readings of the clock, the number of those admitted, and
-- the sum of the counts reported with them.
pub record Outcome : Type 0 where
  pub bucket : TokenBucket
  pub accepted : ℕ
  pub reported : ℕ

count_in : Option ℕ → Outcome → Outcome
count_in none o = o
count_in (some n) o = record o { accepted = o.accepted + 1; reported = o.reported + n }

pub run : List ℕ → TokenBucket → Outcome
unfolding count_in
run [] b = record { bucket = b; accepted = 0; reported = 0 }
run (now ∷ nows) b = let (b', r) = try_acquire now b in count_in r (run nows b')

abbrev pub Within : ℕ → ℕ → ℕ → Type 0
Within from to now = (from ≤ now) × (now ≤ to)

zero-or-pos : (n : ℕ) → (n ≡ 0) ⊎ (0 < n)
zero-or-pos zero = inl refl
zero-or-pos (suc n) = inr (omega arith)

abbrev admitted : ℕ → TokenBucket → TokenBucket
admitted now b = record b { tat = max b.tat now + b.refill_interval; suppressed = 0 }

abbrev dropped : TokenBucket → TokenBucket
dropped b = record b { suppressed = min (b.suppressed + 1) u64_max }

accepted_step :
    (now : ℕ) (nows : List ℕ) (b : TokenBucket)
    → ((b.tat ≤ now + b.burst_tolerance)
        × ((run (now ∷ nows) b).accepted ≡ (run nows (admitted now b)).accepted + 1))
      ⊎ ((now + b.burst_tolerance < b.tat)
          × ((run (now ∷ nows) b).accepted ≡ (run nows (dropped b)).accepted))
unfolding run try_acquire
accepted_step now nows b = elim (Bool-cases (leb b.tat (now + b.burst_tolerance))) [
  | inl fits ↦ inl (ground arith, rw fits)
  | inr full ↦ inr (ground arith, rw full)
]

run-window :
    (from to : ℕ) (nows : List ℕ) (b : TokenBucket)
    → All (Within from to) nows
    → 0 < (run nows b).accepted
    → max b.tat from + (run nows b).accepted * b.refill_interval
      ≤ to + b.burst_tolerance + b.refill_interval
unfolding run
run-window from to [] b w h = absurd (omega arith)
run-window from to (now ∷ nows) b w h =
    let inside : Within from to now = w.0 in
    elim (accepted_step now nows b) [
      | inl (fits, e) ↦
          let b1 = admitted now b in
          elim (zero-or-pos (run nows b1).accepted) [
            | inl none_later ↦ rw (e, none_later) (omega arith)
            | inr later ↦ rw e (omega (arith, run-window from to nows b1 w.1 later))
          ]
      | inr (full, e) ↦ rw e (run-window from to nows (dropped b) w.1 (omega arith))
    ]

window-nonempty :
    (from to : ℕ) (nows : List ℕ) (b : TokenBucket)
    → All (Within from to) nows
    → 0 < (run nows b).accepted
    → from ≤ to
unfolding run
window-nonempty from to [] b w h = absurd (omega arith)
window-nonempty from to (now ∷ nows) b w h = omega (arith, w.0)

-- Whatever the bucket's state: events that fall into a window from `from` to `to` are admitted at
-- most at the sustained rate, one for each refill interval of the window, plus the burst.
pub run_rate :
    (from to : ℕ) (nows : List ℕ) (b : TokenBucket)
    → All (Within from to) nows
    → (run nows b).accepted * b.refill_interval
      ≤ (to - from) + b.burst_tolerance + b.refill_interval
run_rate from to nows b w =
    ground (arith, run-window from to nows b w, window-nonempty from to nows b w)

-- No dropped event goes unreported: the events are those admitted, those reported as suppressed and
-- those still to be reported, unless the counter saturates.
pub run_accounts :
    (nows : List ℕ) (b : TokenBucket)
    → b.suppressed + length nows ≤ u64_max
    → (run nows b).accepted + (run nows b).reported + (run nows b).bucket.suppressed
      ≡ length nows + b.suppressed
unfolding run try_acquire
run_accounts [] b h = omega arith
run_accounts (now ∷ nows) b h = elim (Bool-cases (leb b.tat (now + b.burst_tolerance))) [
  | inl fits ↦ let b1 = admitted now b in ground (arith, run_accounts nows b1)
  | inr full ↦ let b1 = dropped b in ground (arith, run_accounts nows b1)
]

-- The loop of equal readings: `left` slots are left of the burst.
burst_left :
    (k now left : ℕ) (b : TokenBucket)
    → 0 < b.refill_interval
    → now ≤ b.tat
    → b.tat + left * b.refill_interval ≡ now + b.burst_tolerance + b.refill_interval
    → (run (replicate k now) b).accepted ≡ min k left
unfolding run try_acquire
burst_left zero now left b r t e = omega arith
burst_left (suc k) now zero b r t e = let b1 = dropped b in ground (arith, burst_left k now zero b1)
burst_left (suc k) now (suc left) b r t e =
    let b1 = admitted now b in ground (arith, burst_left k now left b1)

-- A bucket made for a burst of `n` that has been idle (its arrival time is past) admits, of any
-- number of events at one instant, the first `n` and no more.
pub run_burst :
    (k n now : ℕ) (b : TokenBucket)
    → 0 < b.refill_interval
    → b.burst_tolerance ≡ n * b.refill_interval
    → b.tat ≤ now
    → (run (replicate k now) b).accepted ≡ min k (n + 1)
unfolding run try_acquire
run_burst zero n now b r t i = omega arith
run_burst (suc k) n now b r t i = let b1 = admitted now b in ground (arith, burst_left k now n b1)
