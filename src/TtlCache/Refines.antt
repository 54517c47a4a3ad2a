-- ===== src/TtlCache/Refines.antt =====
-- The cache behaves as a map from which expired entries are gone.
use symbolon.Prelude.{
  ℕ, ◌+◌, ◌≤◌, ◌≡◌, refl, sym, ap, ◌∙◌, subst, ◌⊎◌, inl, inr, Bool, true, Option, none, some, List,
  [], ◌∷◌, arith, leb, ◌==◌, if◌then◌else◌, Bool-cases, Option-cases, All, All-imp,
}
use symbolon.Prelude.Assoc
use symbolon.Prelude.Assoc.{Eq, lookup-insert, lookup-remove, beq_refl}
use symbolon.TtlCache.{
  TtlCache, pair_le, push, evict, sweep_loop, get_with_expiry, insert, invalidate,
}

abbrev pub In : {A : Type 0} → A → List A → Type 0
In x [] = ⊥
In x (y ∷ ys) = (x ≡ y) ⊎ In x ys

-- Every queued instant from here on is at least `t`.
abbrev pub AtLeast : {K : Type 0} → ℕ → List (ℕ × K) → Type 0
AtLeast t heap = All (λ x. t ≤ x.0) heap

abbrev pub Sorted : {K : Type 0} → List (ℕ × K) → Type 0
Sorted [] = Unit
Sorted (x ∷ xs) = AtLeast x.0 xs × Sorted xs

-- The entry, unless it has expired.
abbrev pub live : {V : Type 0} → ℕ → Option (V × ℕ) → Option (V × ℕ)
live now none = none
live now (some (v, t)) = if leb t now then none else some (v, t)

abbrev drop_at : {V : Type 0} → ℕ → Option (V × ℕ) → Option (V × ℕ)
drop_at t none = none
drop_at t (some (v, u)) = if u == t then none else some (v, u)

In-AtLeast :
    {K : Type 0} (t : ℕ) (x : ℕ × K) (heap : List (ℕ × K)) → AtLeast t heap → In x heap → t ≤ x.0
In-AtLeast {K} t x [] a i = absurd i
In-AtLeast {K} t x (y ∷ heap) a (inl same) =
    let s : x.0 ≡ y.0 = ap (λ (p : ℕ × K). p.0) same in omega (arith, a.0)
In-AtLeast {K} t x (y ∷ heap) a (inr later) = In-AtLeast t x heap a.1 later

AtLeast-le : {K : Type 0} (s t : ℕ) (heap : List (ℕ × K)) → s ≤ t → AtLeast t heap → AtLeast s heap
AtLeast-le s t heap h a = All-imp (λ x. t ≤ x.0) (λ x. s ≤ x.0) (λ x g. omega arith) heap a

module _ {K V : Type 0} ⦃e : Eq K⦄ where
  abbrev pub Queued : List (K × (V × ℕ)) → List (ℕ × K) → Type 0
  Queued m heap = (k : K) (v : V) (t : ℕ) → Assoc.lookup k m ≡ some (v, t) → In (t, k) heap

  -- The heap is a heap, and every entry's expiry is queued.
  pub record IsCache (c : TtlCache K V) : Type 0 where
    pub sorted : Sorted c.expirations
    pub queued : Queued c.entries c.expirations

  lookup-evict :
      (t : ℕ) (k j : K) (m : List (K × (V × ℕ)))
      → Assoc.lookup j (evict t k m)
        ≡ (if e.beq k j then drop_at t (Assoc.lookup j m) else Assoc.lookup j m)
  unfolding evict
  lookup-evict t k j m = ground (arith, lookup-remove k j m, e.beq_iff k j)

  evict-Queued :
      (t : ℕ) (k : K) (m : List (K × (V × ℕ))) (heap : List (ℕ × K))
      → Queued m ((t, k) ∷ heap)
      → Queued (evict t k m) heap
  evict-Queued t k m heap q j v u h = elim (Bool-cases (e.beq k j)) [
    | inl same ↦
        let kept : drop_at t (Assoc.lookup j m) ≡ some (v, u) =
          ground (arith, lookup-evict t k j m) in
        let old : Assoc.lookup j m ≡ some (v, u) = ground arith in
        elim (q j v u old) [
          | inl x ↦ absurd (let y : u ≡ t = ap (λ (p : ℕ × K). p.0) x in ground arith)
          | inr later ↦ later
        ]
    | inr other ↦
        let old : Assoc.lookup j m ≡ some (v, u) = ground (arith, lookup-evict t k j m) in
        elim (q j v u old) [
          | inl x ↦
              absurd (let y : j ≡ k = ap (λ (p : ℕ × K). p.1) x in ground (arith, e.beq_iff k j))
          | inr later ↦ later
        ]
  ]

  Queued-live :
      (now : ℕ) (m : List (K × (V × ℕ))) (heap : List (ℕ × K))
      → AtLeast (now + 1) heap
      → Queued m heap
      → (j : K) → live now (Assoc.lookup j m) ≡ Assoc.lookup j m
  Queued-live now m heap a q j = elim (Option-cases (Assoc.lookup j m)) [
    | inl absent ↦ rw absent
    | inr ((v, t), found) ↦
        rw found (ground (arith, In-AtLeast (now + 1) (t, j) heap a (q j v t found)))
  ]

  live-evict :
      (now t : ℕ) (k j : K) (m : List (K × (V × ℕ)))
      → leb t now ≡ true
      → live now (Assoc.lookup j (evict t k m)) ≡ live now (Assoc.lookup j m)
  live-evict now t k j m old = rw (lookup-evict t k j m) (ground arith)

  -- What `sweep` leaves: a cache with the live entries, and nothing queued that has expired.
  record Swept (now : ℕ) (heap : List (ℕ × K)) (m : List (K × (V × ℕ))) : Type 0 where
    lookups : (j : K) → Assoc.lookup j (sweep_loop now heap m).entries ≡ live now (Assoc.lookup j m)
    valid : IsCache (sweep_loop now heap m)
    fresh : AtLeast (now + 1) (sweep_loop now heap m).expirations

  sweep_loop-Swept :
      (now : ℕ) (heap : List (ℕ × K)) (m : List (K × (V × ℕ)))
      → Sorted heap
      → Queued m heap
      → Swept now heap m
  unfolding sweep_loop
  sweep_loop-Swept now [] m s q = record {
    lookups = λ j. sym (Queued-live now m [] tt q j);
    valid = record { sorted = tt; queued = q };
    fresh = tt;
  }
  sweep_loop-Swept now ((t, k) ∷ heap) m s q = elim (Bool-cases (leb t now)) [
    | inl old ↦
        let r = sweep_loop-Swept now heap (evict t k m) s.1 (evict-Queued t k m heap q) in
        record {
          lookups = λ j. rw old (r.lookups j ∙ live-evict now t k j m old);
          valid = rw old r.valid;
          fresh = rw old r.fresh;
        }
    | inr later ↦
        let a : AtLeast (now + 1) ((t, k) ∷ heap) =
          (ground arith, AtLeast-le (now + 1) t heap (ground arith) s.0) in
        record {
          lookups = λ j. rw later (sym (Queued-live now m ((t, k) ∷ heap) a q j));
          valid = rw later (record { sorted = s; queued = q });
          fresh = rw later a;
        }
  ]

push-AtLeast :
    {K : Type 0} (key_le : K → K → Bool) (s : ℕ) (x : ℕ × K) (heap : List (ℕ × K))
    → s ≤ x.0
    → AtLeast s heap
    → AtLeast s (push key_le x heap)
unfolding push
push-AtLeast key_le s x [] h a = (h, tt)
push-AtLeast key_le s x (y ∷ heap) h a = elim (Bool-cases (pair_le key_le x y)) [
  | inl first ↦ rw first (h, a)
  | inr later ↦ rw later (a.0, push-AtLeast key_le s x heap h a.1)
]

push-Sorted :
    {K : Type 0} (key_le : K → K → Bool) (x : ℕ × K) (heap : List (ℕ × K))
    → Sorted heap
    → Sorted (push key_le x heap)
unfolding push
push-Sorted key_le x [] s = (tt, tt)
push-Sorted key_le (t, k) ((u, j) ∷ heap) s = elim (Bool-cases (pair_le key_le (t, k) (u, j))) [
  | inl first ↦
      let t-le : t ≤ u = ground arith in rw first ((t-le, AtLeast-le t u heap t-le s.0), s)
  | inr later ↦
      rw later
        (push-AtLeast key_le u (t, k) heap (ground arith) s.0, push-Sorted key_le (t, k) heap s.1)
]

In-push_self :
    {K : Type 0} (key_le : K → K → Bool) (x : ℕ × K) (heap : List (ℕ × K))
    → In x (push key_le x heap)
unfolding push
In-push_self key_le x [] = inl refl
In-push_self key_le x (y ∷ heap) = elim (Bool-cases (pair_le key_le x y)) [
  | inl first ↦ rw first (inl refl)
  | inr later ↦ rw later (inr (In-push_self key_le x heap))
]

In-push :
    {K : Type 0} (key_le : K → K → Bool) (x z : ℕ × K) (heap : List (ℕ × K))
    → In z heap
    → In z (push key_le x heap)
unfolding push
In-push key_le x z [] i = absurd i
In-push key_le x z (y ∷ heap) i = elim (Bool-cases (pair_le key_le x y)) [
  | inl first ↦ rw first (inr i)
  | inr later ↦
      rw later (elim i [ inl same ↦ inl same | inr i' ↦ inr (In-push key_le x z heap i') ])
]

module _ {K V : Type 0} ⦃e : Eq K⦄ (c : TtlCache K V) (valid : IsCache c) where
  swept : (now : ℕ) → Swept now c.expirations c.entries
  swept now = sweep_loop-Swept now c.expirations c.entries valid.sorted valid.queued

  -- `get_with_expiry` returns the entry of the key exactly if it has not expired, hides no entry of
  -- any key that is still live, and leaves a cache in which nothing expired is stored or queued.
  pub get_with_expiry_lem :
      (now : ℕ) (key : K)
      → ((get_with_expiry now key c).1 ≡ live now (Assoc.lookup key c.entries))
        × ((j : K)
            → Assoc.lookup j (get_with_expiry now key c).0.entries
              ≡ live now (Assoc.lookup j c.entries))
        × AtLeast (now + 1) (get_with_expiry now key c).0.expirations
        × IsCache (get_with_expiry now key c).0
  unfolding get_with_expiry
  get_with_expiry_lem now key = let s = swept now in (s.lookups key, s.lookups, s.fresh, s.valid)

  -- `insert` stores the value with its expiry, and keeps of the others what has not expired.
  pub lookup-insert_key :
      (key_le : K → K → Bool) (now : ℕ) (key : K) (value : V) (expires_at : ℕ) (j : K)
      → Assoc.lookup j (insert key_le now key value expires_at c).entries
        ≡ (if e.beq key j then some (value, expires_at) else live now (Assoc.lookup j c.entries))
  unfolding insert
  lookup-insert_key key_le now key value expires_at j =
      let s = swept now in
      let new : V × ℕ = (value, expires_at) in
      ground (
        arith,
        lookup-insert key j new (sweep_loop now c.expirations c.entries).entries,
        s.lookups j,
      )

  pub insert-IsCache :
      (key_le : K → K → Bool) (now : ℕ) (key : K) (value : V) (expires_at : ℕ)
      → IsCache (insert key_le now key value expires_at c)
  unfolding insert
  insert-IsCache key_le now key value expires_at =
      let s = swept now in
      let after = sweep_loop now c.expirations c.entries in
      record {
        sorted = push-Sorted key_le (expires_at, key) after.expirations s.valid.sorted;
        queued = λ j v t h. elim (Bool-cases (e.beq key j)) [
          | inl same ↦
              let found : ◌≡◌ {A = Option (V × ℕ)} (some (value, expires_at)) (some (v, t)) =
                ground (arith, lookup-insert key j (value, expires_at) after.entries) in
              let instant : expires_at ≡ t = ground arith in
              let k : key ≡ j = (e.beq_iff key j).0 same in
              let x : ◌≡◌ {A = ℕ × K} (expires_at, key) (t, j) = λ i. (instant i, k i) in
              subst (λ z. In z (push key_le (expires_at, key) after.expirations)) x
                (In-push_self key_le (expires_at, key) after.expirations)
          | inr other ↦
              let old : Assoc.lookup j after.entries ≡ some (v, t) =
                ground (arith, lookup-insert key j (value, expires_at) after.entries) in
              In-push key_le (expires_at, key) (t, j) after.expirations (s.valid.queued j v t old)
        ];
      }

  pub invalidate-IsCache : (key : K) → IsCache (invalidate key c)
  unfolding invalidate
  invalidate-IsCache key = record {
    sorted = valid.sorted;
    queued = λ j v t h. valid.queued j v t (ground (arith, lookup-remove key j c.entries));
  }
