-- ===== src/ConnectionTracker.antt =====
-- The count of open connections and the drain at shutdown: src/connection_tracker.rs. The event `empty`
-- stands as what `drain` sees of it: whether its listener was notified.
use symbolon.Prelude.{
  ℕ, ◌+◌, ◌-◌, ◌≤◌, ◌≡◌, refl, sym, ap, ◌∙◌, subst, ◌⊎◌, inl, inr, Bool, true, false, Option, none,
  some, arith, ◌==◌, if◌then◌else◌, Bool-cases,
}

pub record ConnectionTracker : Type 0 where
  pub active : ℕ
  -- the listener that is registered, with whether it was notified
  pub listener : Option Bool

pub record DrainStats : Type 0 where
  pub inflight_drained : ℕ
  pub drain_complete : Bool

unfoldable pub new : ConnectionTracker
new = record { active = 0; listener = none }

-- the count in `spawn`
unfoldable pub spawn : ConnectionTracker → ConnectionTracker
spawn t = record t { active = t.active + 1 }

-- `empty.notify`
abbrev pub notify : Option Bool → Option Bool
notify none = none
notify (some _) = some true

-- `Drop for Token`
unfoldable pub drop_token : ConnectionTracker → ConnectionTracker
drop_token t =
    let a = t.active - 1 in
    record { active = a; listener = if a == 0 then notify t.listener else t.listener }

-- `Drain::waits`: the loop waits for its listener; `ended`: it has left the loop
pub data Drain : Type 0 where
  serving : Drain
  waits : Drain
  ended : DrainStats → Drain

unfoldable pub stats : ℕ → Bool → ConnectionTracker → DrainStats
stats initial complete t = record {
  inflight_drained = initial - t.active;
  drain_complete = complete;
}

-- one round of the loop of `drain`, up to its wait: the listener, then the checks; `late` is whether
-- the deadline is past
unfoldable pub round : ℕ → Bool → ConnectionTracker → ConnectionTracker × Drain
unfolding stats
round initial late t =
    let t1 : ConnectionTracker = record t { listener = some false } in
    if t.active == 0
    then (t1, ended (stats initial true t1))
    else if late
    then (t1, ended (stats initial false t1))
    else (t1, waits)

-- The tracker, the handlers that run, and the drain with the count at its start.
pub record System : Type 0 where
  pub tracker : ConnectionTracker
  pub handlers : ℕ
  pub initial : ℕ
  pub drain : Drain

abbrev pub drained : ℕ → ConnectionTracker × Drain → System → System
drained initial (t, d) s = record s { tracker = t; initial = initial; drain = d }

-- A handler starts, while none drains; a handler ends, by whatever way; the drain starts, wakes or
-- gives up.
pub data Step (s : System) : System → Type 0 where
  spawns :
      s.drain ≡ serving → Step s (record s { tracker = spawn s.tracker; handlers = s.handlers + 1 })
  ends :
      (n : ℕ)
      → s.handlers ≡ n + 1
      → Step s (record s { tracker = drop_token s.tracker; handlers = n })
  starts :
      (late : Bool)
      → s.drain ≡ serving
      → Step s (drained s.tracker.active (round s.tracker.active late s.tracker) s)
  wakes :
      (late : Bool)
      → s.drain ≡ waits
      → s.tracker.listener ≡ some true
      → Step s (drained s.initial (round s.initial late s.tracker) s)
  times_out :
      s.drain ≡ waits → Step s (record s { drain = ended (stats s.initial false s.tracker) })

pub data Reach : System → Type 0 where
  start : Reach (record { tracker = new; handlers = 0; initial = 0; drain = serving })
  next : {s t : System} → Reach s → Step s t → Reach t

-- What is so of the drain.
abbrev Drains : System → Drain → Type 0
Drains s serving = Unit
Drains s waits =
    ((s.tracker.listener ≡ some true) ⊎ ((s.tracker.listener ≡ some false) × (1 ≤ s.handlers)))
    × (s.handlers ≤ s.initial)
Drains s (ended stats) =
    (stats.inflight_drained ≤ s.initial)
    × (stats.drain_complete ≡ true → (s.handlers ≡ 0) × (stats.inflight_drained ≡ s.initial))

-- The count is that of the handlers.
record Sound (s : System) : Type 0 where
  counts : s.tracker.active ≡ s.handlers
  drains : Drains s s.drain

round-Drains :
    (initial : ℕ) (late : Bool) (s : System)
    → s.tracker.active ≡ s.handlers
    → s.handlers ≤ initial
    → Sound (drained initial (round initial late s.tracker) s)
unfolding round stats
round-Drains initial late s counts le = elim (Bool-cases (s.tracker.active == 0)) [
  | inl idle ↦
      rw (idle, round)
        (record { counts = counts; drains = (omega arith, λ q. (ground arith, ground arith)) })
  | inr busy ↦ elim (Bool-cases late) [
    | inl over ↦
        rw (busy, over, round)
          (record { counts = counts; drains = (omega arith, λ q. absurd (ground arith)) })
    | inr early ↦
        rw (busy, early, round)
          (record { counts = counts; drains = (inr (refl, ground arith), le) })
  ]
]

ends-Drains :
    (s : System) (n : ℕ) (d : Drain)
    → s.drain ≡ d
    → s.tracker.active ≡ n + 1
    → s.handlers ≡ n + 1
    → Drains s d
    → Drains (record s { tracker = drop_token s.tracker; handlers = n }) d
unfolding drop_token
ends-Drains s n serving q a h y = tt
ends-Drains s n waits q a h (listens, le) = (
  elim (Bool-cases (s.tracker.active - 1 == 0)) [
    | inl last ↦ elim listens [
      | inl woken ↦ inl (rw (drop_token, last, woken) refl)
      | inr (asleep, some_left) ↦ inl (rw (drop_token, last, asleep) refl)
    ]
    | inr more ↦ elim listens [
      | inl woken ↦ inl (rw (drop_token, more, woken) refl)
      | inr (asleep, some_left) ↦ inr (rw (drop_token, more, asleep) refl, ground arith)
    ]
  ],
  omega arith,
)
ends-Drains s n (ended st) q a h (le, done) = (le, λ c. absurd (let z = (done c).0 in omega arith))

Step-Sound : (s t : System) → Step s t → Sound s → Sound t
unfolding spawn stats
Step-Sound s t (spawns q) y = record {
  counts = ap (λ n. n + 1) y.counts;
  drains =
      subst (λ d. Drains (record s { tracker = spawn s.tracker; handlers = s.handlers + 1 }) d)
        (sym q) tt;
}
Step-Sound s t (ends n h) y = record {
  counts = unfold drop_token in (let c = y.counts in omega arith);
  drains = ends-Drains s n s.drain refl (y.counts ∙ h) h y.drains;
}
Step-Sound s t (starts late q) y =
    round-Drains s.tracker.active late s y.counts (let c = y.counts in omega arith)
Step-Sound s t (wakes late q woken) y =
    round-Drains s.initial late s y.counts (subst (Drains s) q y.drains).1
Step-Sound s t (times_out q) y = record {
  counts = y.counts;
  drains = (omega arith, λ c. absurd (ground arith));
}

Reach-Sound : (s : System) → Reach s → Sound s
unfolding new
Reach-Sound s start = record { counts = refl; drains = tt }
Reach-Sound s (next {s = r} reached step) = Step-Sound r s step (Reach-Sound r reached)

-- Whatever handlers start and end when: a drain that waits while no handler runs any more has been
-- notified, so it wakes; and a drain that says it is complete is so, with every handler counted that
-- ran at its start.
pub Reach-drains :
    (s : System)
    → Reach s
    → (s.drain ≡ waits → s.handlers ≡ 0 → s.tracker.listener ≡ some true)
      × ((st : DrainStats)
          → s.drain ≡ ended st
          → st.drain_complete ≡ true
          → (s.handlers ≡ 0) × (st.inflight_drained ≡ s.initial))
Reach-drains s reached =
    let y = Reach-Sound s reached in
    (
      λ waiting idle. elim (subst (Drains s) waiting y.drains).0 [
        | inl woken ↦ woken
        | inr (asleep, some_left) ↦ absurd (omega arith)
      ],
      λ st over complete. (subst (Drains s) over y.drains).1 complete,
    )
