-- ===== src/Singleflight.antt =====
-- The cache that resolves each key at most once at a time: src/singleflight_cache.rs.
pub mod Waiting
pub mod Tasks
pub mod Exclusive
use symbolon.Prelude.{ℕ, ◌+◌, Option, none, some, List, [], ◌∷◌}
use symbolon.Prelude.Assoc
use symbolon.Prelude.Assoc.{Eq}

-- An `Rc<Event>` is the number under which it was made.
abbrev pub Event : Type 0
Event = ℕ

pub data StoreEntry (V : Type 0) : Type 0 where
  memo : V → StoreEntry V
  in_flight : Event → StoreEntry V

pub data Claim (V : Type 0) : Type 0 where
  hit : V → Claim V
  wait : Event → Claim V
  resolve : Event → Claim V

-- The store, the number of events made, and the events notified, the latest first.
pub record SingleflightCache (K V : Type 0) : Type 0 where
  pub entries : List (K × StoreEntry V)
  pub made : ℕ
  pub notified : List Event

-- `InFlightGuard`, without its reference to the store
pub record InFlightGuard (K V : Type 0) : Type 0 where
  pub key : K
  pub event : Event
  pub result : Option V

module _ {K V : Type 0} where
  unfoldable pub default : SingleflightCache K V
  default = record { entries = []; made = 0; notified = [] }

  unfoldable pub guard_new : K → Event → InFlightGuard K V
  guard_new key event = record { key = key; event = event; result = none }

module _ {K V : Type 0} ⦃e : Eq K⦄ where
  unfoldable pub invalidate : K → SingleflightCache K V → SingleflightCache K V
  invalidate key s = record s { entries = Assoc.remove key s.entries }

  -- `Event::new` and the insertion of the marker, in the `None` arm of `claim`
  unfoldable pub start : K → SingleflightCache K V → SingleflightCache K V × Claim V
  start key s = (
    record s { entries = Assoc.insert key (in_flight s.made) s.entries; made = s.made + 1 },
    resolve s.made,
  )

  unfoldable pub claim : K → SingleflightCache K V → SingleflightCache K V × Claim V
  unfolding start
  claim key s = elim (Assoc.lookup key s.entries) [
    | some (memo value) ↦ (s, hit value)
    | some (in_flight ev) ↦ (s, wait ev)
    | none ↦ start key s
  ]

  unfoldable pub release_done : K → V → Event → SingleflightCache K V → SingleflightCache K V
  release_done key value event s = record s {
    entries = Assoc.insert key (memo value) s.entries;
    notified = event ∷ s.notified;
  }

  unfoldable pub release_failed : K → Event → SingleflightCache K V → SingleflightCache K V
  release_failed key event s = record s {
    entries = Assoc.remove key s.entries;
    notified = event ∷ s.notified;
  }

  -- `Drop for InFlightGuard`
  unfoldable pub drop_guard : InFlightGuard K V → SingleflightCache K V → SingleflightCache K V
  unfolding release_done release_failed
  drop_guard g s = elim g.result [
    | some value ↦ release_done g.key value g.event s
    | none ↦ release_failed g.key g.event s
  ]

  -- `commit_done`: takes the guard, which is dropped at its end
  unfoldable pub commit_done : InFlightGuard K V → V → SingleflightCache K V → SingleflightCache K V
  unfolding drop_guard
  commit_done g value s = drop_guard (record g { result = some value }) s
