-- ===== src/Singleflight/Tasks.antt =====
-- Tasks that share the cache: the step relation of `with` and `invalidate`.
use symbolon.Prelude.{
  ◌+◌, ◌<◌, ◌≡◌, refl, sym, ◌∙◌, subst, ◌≢◌, ◌⊎◌, inl, inr, Option, none, some, List, [], ◌∷◌, ◌++◌,
  arith, ◌==◌, Bool-cases, Option-cases,
}
use symbolon.Prelude.Assoc
use symbolon.Prelude.Assoc.{Eq, lookup-insert, lookup-remove, beq_refl}
use symbolon.Singleflight.{
  Event, StoreEntry, memo, in_flight, Claim, hit, wait, resolve, SingleflightCache, InFlightGuard,
  default, invalidate, claim, drop_guard,
}
use symbolon.Singleflight.Waiting.{In, Told, without, In-append, pair_parts, In-without, without-In}

-- The cache, the guards that resolvers hold, and the keys and events that tasks wait for.
pub record System (K V : Type 0) : Type 0 where
  pub cache : SingleflightCache K V
  pub resolving : List (K × Event)
  pub waiting : List (K × Event)

module _ {K V : Type 0} ⦃e : Eq K⦄ where
  -- the arms of the `match` in `with`, up to its next wait
  unfoldable pub after_claim : K → Claim V → System K V → System K V
  after_claim k (hit v) s = s
  after_claim k (wait ev) s = record s { waiting = (k, ev) ∷ s.waiting }
  after_claim k (resolve ev) s = record s { resolving = (k, ev) ∷ s.resolving }

  unfoldable pub claims : K → System K V → System K V
  unfolding after_claim
  claims k s = let (c, r) = claim k s.cache in after_claim k r (record s { cache = c })

  -- a resolver ends with the value of its guard, which is dropped
  unfoldable pub finishes : InFlightGuard K V → System K V → System K V
  finishes g s = record {
    cache = drop_guard g s.cache;
    resolving = without g.event s.resolving;
    waiting = s.waiting;
  }

  -- A task asks for a key; or a resolver ends, committed or not; or a task whose event has been notified
  -- wakes and goes round the loop of `with`; or a key is invalidated.
  pub data Step (s : System K V) : System K V → Type 0 where
    asks : (k : K) → Step s (claims k s)
    ends : (g : InFlightGuard K V) → In (g.key, g.event) s.resolving → Step s (finishes g s)
    wakes :
        (k : K) (x : Event) (pre post : List (K × Event))
        → s.waiting ≡ pre ++ (k, x) ∷ post
        → Told x s.cache.notified
        → Step s (claims k (record s { waiting = pre ++ post }))
    invalidates : (k : K) → Step s (record s { cache = invalidate k s.cache })

  pub data Reach : System K V → Type 0 where
    start : Reach (record { cache = default; resolving = []; waiting = [] })
    next : {s t : System K V} → Reach s → Step s t → Reach t

  -- Every marker belongs to a resolver of the same key, and every waiter does, or has been notified;
  -- the resolvers' events are their own.
  record Sound (s : System K V) : Type 0 where
    marked :
        (k : K) (x : Event)
        → Assoc.lookup k s.cache.entries ≡ some (in_flight x)
        → In (k, x) s.resolving
    served :
        (k : K) (x : Event) → In (k, x) s.waiting → In (k, x) s.resolving ⊎ Told x s.cache.notified
    below : (k : K) (x : Event) → In (k, x) s.resolving → x < s.cache.made
    own : (k j : K) (x : Event) → In (k, x) s.resolving → In (j, x) s.resolving → k ≡ j

  abbrev pub started : K → System K V → System K V
  started k s = record {
    cache = record {
      entries = Assoc.insert k (in_flight s.cache.made) s.cache.entries;
      made = s.cache.made + 1;
      notified = s.cache.notified;
    };
    resolving = (k, s.cache.made) ∷ s.resolving;
    waiting = s.waiting;
  }

  pub claims-cases :
      (k : K) (s : System K V)
      → ((Assoc.lookup k s.cache.entries ≡ none) × (claims k s ≡ started k s))
        ⊎ ((claims k s ≡ s)
            ⊎ ((x : Event) × (Assoc.lookup k s.cache.entries ≡ some (in_flight x))
                × (claims k s ≡ record s { waiting = (k, x) ∷ s.waiting })))
  unfolding claims claim
  claims-cases k s = elim (Option-cases (Assoc.lookup k s.cache.entries)) [
    | inl absent ↦ inl (absent, rw (absent, claims, claim))
    | inr (memo v, found) ↦ inr (inl (rw (found, claims, claim)))
    | inr (in_flight x, found) ↦ inr (inr (x, found, rw (found, claims, claim)))
  ]

  started-Sound :
      (k : K) (s : System K V)
      → Assoc.lookup k s.cache.entries ≡ none
      → Sound s
      → Sound (started k s)
  started-Sound k s absent v = record {
    marked = λ j x h. elim (Bool-cases (e.beq k j)) [
      | inl same ↦
          let key : k ≡ j = (e.beq_iff k j).0 same in
          let new : ◌≡◌ {A = Option (StoreEntry V)} (some (in_flight s.cache.made))
              (some (in_flight x)) =
            ground (
              arith,
              lookup-insert {V = StoreEntry V} k j (in_flight s.cache.made) s.cache.entries,
            ) in
          let event : s.cache.made ≡ x = ground arith in inl (λ i. (sym key i, sym event i))
      | inr other ↦ inr (
          v.marked j x (
            ground (
              arith,
              lookup-insert {V = StoreEntry V} k j (in_flight s.cache.made) s.cache.entries,
            )))
    ];
    served = λ j x i. elim (v.served j x i) [ inl alive ↦ inl (inr alive) | inr told ↦ inr told ];
    below = λ j x i. elim i [
      | inl same ↦ omega (arith, (pair_parts same).1)
      | inr older ↦ omega (arith, v.below j x older)
    ];
    own = λ i j x p q. elim p [
      | inl a ↦ elim q [
        | inl b ↦ (pair_parts a).0 ∙ sym (pair_parts b).0
        | inr b ↦ absurd (omega (arith, v.below j x b, (pair_parts a).1))
      ]
      | inr a ↦ elim q [
        | inl b ↦ absurd (omega (arith, v.below i x a, (pair_parts b).1))
        | inr b ↦ v.own i j x a b
      ]
    ];
  }

  asks-Sound : (k : K) (s : System K V) → Sound s → Sound (claims k s)
  asks-Sound k s v = elim (claims-cases k s) [
    | inl (absent, e) ↦ rw e (started-Sound k s absent v)
    | inr (inl e) ↦ rw e v
    | inr (inr (x, found, e)) ↦ rw e (record {
      marked = v.marked;
      served = λ j y i. elim i [
        | inl same ↦ inl (subst (λ p. In p s.resolving) (sym same) (v.marked k x found))
        | inr older ↦ v.served j y older
      ];
      below = v.below;
      own = v.own;
    })
  ]

  lookup_behind :
      (g : InFlightGuard K V) (s : SingleflightCache K V) (j : K) (x : Event)
      → Assoc.lookup j (drop_guard g s).entries ≡ some (in_flight x)
      → (g.key ≢ j) × (Assoc.lookup j s.entries ≡ some (in_flight x))
  unfolding drop_guard
  lookup_behind g s j x h = elim (Bool-cases (e.beq g.key j)) [
    | inl same ↦ absurd (elim (Option-cases g.result) [
      | inl failed ↦ ground (arith, lookup-remove g.key j s.entries)
      | inr (v, done) ↦ ground (arith, lookup-insert g.key j (memo v) s.entries)
    ])
    | inr other ↦ (
      λ q. absurd (ground (arith, e.beq_iff g.key j)),
      elim (Option-cases g.result) [
        | inl failed ↦ ground (arith, lookup-remove g.key j s.entries)
        | inr (v, done) ↦ ground (arith, lookup-insert g.key j (memo v) s.entries)
      ],
    )
  ]

  made_behind : (g : InFlightGuard K V) (s : SingleflightCache K V) → (drop_guard g s).made ≡ s.made
  unfolding drop_guard
  made_behind g s = ground arith

  -- The guard notifies its event, whatever its value, and takes back no notification.
  Told-behind :
      (g : InFlightGuard K V) (s : SingleflightCache K V)
      → Told g.event (drop_guard g s).notified
        × ((x : Event) → Told x s.notified → Told x (drop_guard g s).notified)
  unfolding drop_guard
  Told-behind g s = elim (Option-cases g.result) [
    | inl failed ↦ rw (failed, drop_guard) (inl refl, λ x h. inr h)
    | inr (v, done) ↦ rw (done, drop_guard) (inl refl, λ x h. inr h)
  ]

  ends-Sound :
      (g : InFlightGuard K V) (s : System K V)
      → In (g.key, g.event) s.resolving
      → Sound s
      → Sound (finishes g s)
  unfolding finishes
  ends-Sound g s own v = record {
    marked = λ j x h.
        let (ne, old) = lookup_behind g s.cache j x h in
        let r = v.marked j x old in
        In-without j x g.event s.resolving r
          (λ q. ne (v.own g.key j g.event own (subst (λ z. In (j, z) s.resolving) q r)));
    served = λ j x i. elim (v.served j x i) [
      | inr told ↦ inr ((Told-behind g s.cache).1 x told)
      | inl alive ↦ elim (Bool-cases (x == g.event)) [
        | inl mine ↦
            let same : g.event ≡ x = ground arith in
            inr (subst (λ y. Told y (drop_guard g s.cache).notified) same (Told-behind g s.cache).0)
        | inr other ↦
            let ne : x ≢ g.event = λ (q : x ≡ g.event). absurd (ground arith) in
            inl (In-without j x g.event s.resolving alive ne)
      ]
    ];
    below = λ j x i. rw made_behind (v.below j x (without-In j x g.event s.resolving i).0);
    own = λ i j x p q.
        v.own i j x (without-In i x g.event s.resolving p).0
          (without-In j x g.event s.resolving q).0;
  }

  invalidates-Sound :
      (k : K) (s : System K V) → Sound s → Sound (record s { cache = invalidate k s.cache })
  unfolding invalidate
  invalidates-Sound k s v = record {
    marked = λ j x h. v.marked j x (ground (arith, lookup-remove k j s.cache.entries));
    served = v.served;
    below = v.below;
    own = v.own;
  }

  fewer-Sound :
      (k : K) (x : Event) (pre post : List (K × Event)) (s : System K V)
      → s.waiting ≡ pre ++ (k, x) ∷ post
      → Sound s
      → Sound (record s { waiting = pre ++ post })
  fewer-Sound k x pre post s q v = record {
    marked = v.marked;
    served = λ j y i. v.served j y (subst (In (j, y)) (sym q) (In-append (j, y) (k, x) pre post i));
    below = v.below;
    own = v.own;
  }

  Step-Sound : {s t : System K V} → Step s t → Sound s → Sound t
  Step-Sound {s} (asks k) v = asks-Sound k s v
  Step-Sound {s} (ends g own) v = ends-Sound g s own v
  Step-Sound {s} (wakes k x pre post q told) v =
      asks-Sound k (record s { waiting = pre ++ post }) (fewer-Sound k x pre post s q v)
  Step-Sound {s} (invalidates k) v = invalidates-Sound k s v

  Reach-Sound : {s : System K V} → Reach s → Sound s
  unfolding default Assoc.lookup
  Reach-Sound start = record {
    marked = λ k x h. cc;
    served = λ k x i. absurd i;
    below = λ k x i. absurd i;
    own = λ i j x p q. absurd p;
  }
  Reach-Sound (next r st) = Step-Sound st (Reach-Sound r)

  -- Whatever tasks do, and whatever is invalidated when: a task that waits has been notified, so it can
  -- go on, or waits for the event of a resolver of its own key that has not ended; a marker in the
  -- store belongs to such a resolver too; and a resolver that ends, committed or not, notifies its
  -- event. So when no resolver is left, every task that waits has been notified.
  pub Reach-served :
      (s : System K V)
      → Reach s
      → ((k : K) (x : Event)
          → In (k, x) s.waiting
          → In (k, x) s.resolving ⊎ Told x s.cache.notified)
        × ((k : K) (x : Event)
            → Assoc.lookup k s.cache.entries ≡ some (in_flight x)
            → In (k, x) s.resolving)
        × ((g : InFlightGuard K V) → Told g.event (finishes g s).cache.notified)
        × (s.resolving ≡ [] → (k : K) (x : Event) → In (k, x) s.waiting → Told x s.cache.notified)
  unfolding finishes
  Reach-served s reached =
      let v = Reach-Sound reached in
      (
        v.served,
        v.marked,
        λ g. (Told-behind g s.cache).0,
        λ none_left k x i. elim (v.served k x i) [
          | inl alive ↦ absurd (subst (In (k, x)) none_left alive)
          | inr told ↦ told
        ],
      )
