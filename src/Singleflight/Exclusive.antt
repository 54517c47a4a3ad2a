-- ===== src/Singleflight/Exclusive.antt =====
-- At most one resolver of a key at a time, as long as no key in flight is invalidated.
use symbolon.Prelude.{
  ℕ, suc, ◌≤◌, ◌≡◌, refl, ◌≢◌, inl, inr, none, some, List, [], ◌∷◌, ◌++◌, arith, ◌==◌,
  if◌then◌else◌, Bool-cases, Option-cases,
}
use symbolon.Prelude.Assoc
use symbolon.Prelude.Assoc.{Eq, lookup-insert, lookup-remove, beq_refl}
use symbolon.Singleflight.{
  Event, StoreEntry, memo, in_flight, InFlightGuard, default, invalidate, drop_guard,
}
use symbolon.Singleflight.Waiting.{In, Told, without, without-In, pair_parts}
use symbolon.Singleflight.Tasks.{System, claims, finishes, claims-cases, started}

module _ {K : Type 0} ⦃e : Eq K⦄ where
  -- the number of resolvers of a key
  abbrev pub resolvers : K → List (K × Event) → ℕ
  resolvers k [] = 0
  resolvers k ((j, x) ∷ l) = let n = resolvers k l in if e.beq k j then suc n else n

  resolvers_none :
      (k : K) (l : List (K × Event)) → ((x : Event) → In (k, x) l → ⊥) → resolvers k l ≡ 0
  resolvers_none k [] h = refl
  resolvers_none k ((j, y) ∷ l) h = elim (Bool-cases (e.beq k j)) [
    | inl same ↦ let key : k ≡ j = (e.beq_iff k j).0 same in absurd (h y (inl (λ i. (key i, y))))
    | inr other ↦ rw other (resolvers_none k l (λ x i. h x (inr i)))
  ]

  resolvers-without :
      (k : K) (ev : Event) (l : List (K × Event)) → resolvers k (without ev l) ≤ resolvers k l
  resolvers-without k ev [] = omega arith
  resolvers-without k ev ((j, y) ∷ l) =
      let ih = resolvers-without k ev l in
      elim (Bool-cases (y == ev)) [
        | inl gone ↦ elim (Bool-cases (e.beq k j)) [
          | inl same ↦ rw (gone, same) (omega arith)
          | inr other ↦ rw (gone, other) ih
        ]
        | inr kept ↦ elim (Bool-cases (e.beq k j)) [
          | inl same ↦ rw (kept, same) (omega arith)
          | inr other ↦ rw (kept, other) ih
        ]
      ]

module _ {K V : Type 0} ⦃e : Eq K⦄ where
  -- The systems that tasks reach when only keys that are not in flight are invalidated.
  pub data Polite : System K V → Type 0 where
    start : Polite (record { cache = default; resolving = []; waiting = [] })
    asks : {s : System K V} → Polite s → (k : K) → Polite (claims k s)
    ends :
        {s : System K V}
        → Polite s
        → (g : InFlightGuard K V) → In (g.key, g.event) s.resolving
        → Polite (finishes g s)
    wakes :
        {s : System K V}
        → Polite s
        → (k : K) (x : Event) (pre post : List (K × Event)) → s.waiting ≡ pre ++ (k, x) ∷ post
        → Told x s.cache.notified
        → Polite (claims k (record s { waiting = pre ++ post }))
    invalidates :
        {s : System K V}
        → Polite s
        → (k : K) → ((x : Event) → Assoc.lookup k s.cache.entries ≢ some (in_flight x))
        → Polite (record s { cache = invalidate k s.cache })

  -- The marker of each resolver is in the store.
  abbrev Held : System K V → Type 0
  Held s =
      (k : K) (x : Event)
      → In (k, x) s.resolving
      → Assoc.lookup k s.cache.entries ≡ some (in_flight x)

  started-Held :
      (k : K) (s : System K V) → Assoc.lookup k s.cache.entries ≡ none → Held s → Held (started k s)
  started-Held k s absent v j x (inl same) =
      let key : j ≡ k = (pair_parts same).0 in
      let event : x ≡ s.cache.made = (pair_parts same).1 in
      ground (
        arith,
        lookup-insert {V = StoreEntry V} k j (in_flight s.cache.made) s.cache.entries,
        beq_refl k,
      )
  started-Held k s absent v j x (inr older) = ground (
    arith,
    v j x older,
    lookup-insert {V = StoreEntry V} k j (in_flight s.cache.made) s.cache.entries,
    e.beq_iff k j,
  )

  ends-Held :
      (g : InFlightGuard K V) (s : System K V)
      → In (g.key, g.event) s.resolving
      → Held s
      → Held (finishes g s)
  unfolding finishes drop_guard
  ends-Held g s own v j x i =
      let (old, ne) = without-In j x g.event s.resolving i in
      let mine : Assoc.lookup g.key s.cache.entries ≡ some (in_flight g.event) =
        v g.key g.event own in
      let theirs : Assoc.lookup j s.cache.entries ≡ some (in_flight x) = v j x old in
      elim (Option-cases g.result) [
        | inl failed ↦ ground (arith, lookup-remove g.key j s.cache.entries, e.beq_iff g.key j)
        | inr (w, done) ↦
            ground (arith, lookup-insert g.key j (memo w) s.cache.entries, e.beq_iff g.key j)
      ]

  asks-Held : (k : K) (s : System K V) → Held s → Held (claims k s)
  asks-Held k s v = elim (claims-cases k s) [
    | inl (absent, q) ↦ rw q (started-Held k s absent v)
    | inr (inl q) ↦ rw q v
    | inr (inr (y, found, q)) ↦ rw q v
  ]

  Polite-Held : {s : System K V} → Polite s → Held s
  unfolding default invalidate
  Polite-Held start k x i = absurd i
  Polite-Held (asks {s} p k) j x i = asks-Held k s (Polite-Held p) j x i
  Polite-Held (wakes {s} p k y pre post q told) j x i =
      asks-Held k (record s { waiting = pre ++ post }) (Polite-Held p) j x i
  Polite-Held (ends {s} p g own) j x i = ends-Held g s own (Polite-Held p) j x i
  Polite-Held (invalidates {s} p k idle) j x i =
      let held : Assoc.lookup j s.cache.entries ≡ some (in_flight x) = Polite-Held p j x i in
      elim (Bool-cases (e.beq k j)) [
        | inl same ↦ absurd (idle x (ground (arith, e.beq_iff k j)))
        | inr other ↦ ground (arith, lookup-remove k j s.cache.entries)
      ]

  abbrev Once : System K V → Type 0
  Once s = (k : K) → resolvers k s.resolving ≤ 1

  asks-Once : (k : K) (s : System K V) → Held s → Once s → Once (claims k s)
  asks-Once k s held once = elim (claims-cases k s) [
    | inl (absent, q) ↦ rw q (λ j. elim (Bool-cases (e.beq j k)) [
      | inl same ↦
          let key : j ≡ k = (e.beq_iff j k).0 same in
          let free : resolvers j s.resolving ≡ 0 = resolvers_none j s.resolving (λ x i.
            let mine : Assoc.lookup j s.cache.entries ≡ some (in_flight x) = held j x i in
            let absent_j : Assoc.lookup j s.cache.entries ≡ none = rw key absent in ground arith) in
          rw (same, free) (omega arith)
      | inr other ↦ rw other (once j)
    ])
    | inr (inl q) ↦ rw q once
    | inr (inr (y, found, q)) ↦ rw q once
  ]

  Polite-Once : {s : System K V} → Polite s → Once s
  unfolding finishes
  Polite-Once start k = omega arith
  Polite-Once (asks {s} p k) j = asks-Once k s (Polite-Held p) (Polite-Once p) j
  Polite-Once (wakes {s} p k y pre post q told) j =
      asks-Once k (record s { waiting = pre ++ post }) (Polite-Held p) (Polite-Once p) j
  Polite-Once (ends {s} p g own) k =
      omega (arith, resolvers-without k g.event s.resolving, Polite-Once p k)
  Polite-Once (invalidates {s} p k idle) j = Polite-Once p j

  -- When no key in flight is invalidated, each key has at most one resolver.
  pub Polite-exclusive : (s : System K V) (k : K) → Polite s → resolvers k s.resolving ≤ 1
  Polite-exclusive s k p = Polite-Once p k
