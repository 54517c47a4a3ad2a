-- ===== src/TtlCache/Trace.antt =====
-- A whole history of calls of the cache, against a plain map that never sweeps.
use symbolon.Prelude.{
  ℕ, ◌≤◌, ◌≡◌, refl, ap, ap₂, ◌∙◌, Bool, Option, none, some, List, [], ◌∷◌, arith, if◌then◌else◌,
}
use symbolon.Prelude.Assoc
use symbolon.Prelude.Assoc.{Eq, lookup-remove}
use symbolon.TtlCache.{TtlCache, new, get_with_expiry, insert, invalidate}
use symbolon.TtlCache.Refines.{
  IsCache, live, get_with_expiry_lem, lookup-insert_key, insert-IsCache, invalidate-IsCache,
}

-- A call, with the clock's reading.
pub data Op (K V : Type 0) : Type 0 where
  get : ℕ → K → Op K V
  put : ℕ → K → V → ℕ → Op K V
  drop_key : K → Op K V

-- The clock never goes back.
abbrev pub Monotone : {K V : Type 0} → ℕ → List (Op K V) → Type 0
Monotone s [] = Unit
Monotone s (get now k ∷ ops) = (s ≤ now) × Monotone now ops
Monotone s (put now k v t ∷ ops) = (s ≤ now) × Monotone now ops
Monotone s (drop_key k ∷ ops) = Monotone s ops

-- A map as a function: what was put last and not dropped.
abbrev pub Spec : Type 0 → Type 0 → Type 0
Spec K V = K → Option (V × ℕ)

module _ {K V : Type 0} ⦃e : Eq K⦄ where
  -- what the calls of `get_with_expiry` return
  pub replies : (K → K → Bool) → List (Op K V) → TtlCache K V → List (Option (V × ℕ))
  replies key_le [] c = []
  replies key_le (get now k ∷ ops) c =
      (get_with_expiry now k c).1 ∷ replies key_le ops (get_with_expiry now k c).0
  replies key_le (put now k v t ∷ ops) c = replies key_le ops (insert key_le now k v t c)
  replies key_le (drop_key k ∷ ops) c = replies key_le ops (invalidate k c)

  pub spec_replies : List (Op K V) → Spec K V → List (Option (V × ℕ))
  spec_replies [] m = []
  spec_replies (get now k ∷ ops) m = live now (m k) ∷ spec_replies ops m
  spec_replies (put now k v t ∷ ops) m =
      spec_replies ops (λ j. if e.beq k j then some (v, t) else m j)
  spec_replies (drop_key k ∷ ops) m = spec_replies ops (λ j. if e.beq k j then none else m j)

  -- From instant `s` on, the cache and the map show the same.
  record Shows (s : ℕ) (c : TtlCache K V) (m : Spec K V) : Type 0 where
    valid : IsCache c
    same : (now : ℕ) (j : K) → s ≤ now → live now (Assoc.lookup j c.entries) ≡ live now (m j)

live-live :
    {V : Type 0} (s now : ℕ) (o : Option (V × ℕ)) → s ≤ now → live now (live s o) ≡ live now o
live-live s now o h = ground arith

module _ {K V : Type 0} ⦃e : Eq K⦄ (key_le : K → K → Bool) where
  Shows-get :
      (s now : ℕ) (k : K) (c : TtlCache K V) (m : Spec K V)
      → s ≤ now
      → Shows s c m
      → Shows now (get_with_expiry now k c).0 m
  Shows-get s now k c m h r =
      let g = get_with_expiry_lem c r.valid now k in
      record {
        valid = g.3;
        same = λ t j le.
            ap (live t) (g.1 j)
            ∙ live-live now t (Assoc.lookup j c.entries) le
            ∙ r.same t j (omega arith);
      }

  Shows-put :
      (s now : ℕ) (k : K) (v : V) (t : ℕ) (c : TtlCache K V) (m : Spec K V)
      → s ≤ now
      → Shows s c m
      → Shows now (insert key_le now k v t c) (λ j. if e.beq k j then some (v, t) else m j)
  Shows-put s now k v t c m h r = record {
    valid = insert-IsCache c r.valid key_le now k v t;
    same = λ u j le. ground (
      arith,
      lookup-insert_key c r.valid key_le now k v t j,
      live-live now u (Assoc.lookup j c.entries) le,
      r.same u j (let x : s ≤ u = omega arith in x),
    );
  }

  Shows-drop :
      (s : ℕ) (k : K) (c : TtlCache K V) (m : Spec K V)
      → Shows s c m
      → Shows s (invalidate k c) (λ j. if e.beq k j then none else m j)
  unfolding invalidate
  Shows-drop s k c m r = record {
    valid = unfold invalidate in invalidate-IsCache c r.valid k;
    same = λ u j le. ground (arith, lookup-remove k j c.entries, r.same u j le);
  }

  replies-Shows :
      (ops : List (Op K V)) (s : ℕ) (c : TtlCache K V) (m : Spec K V)
      → Monotone s ops
      → Shows s c m
      → replies key_le ops c ≡ spec_replies ops m
  unfolding replies spec_replies
  replies-Shows [] s c m h r = refl
  replies-Shows (get now k ∷ ops) s c m h r =
      ap₂ ◌∷◌ ((get_with_expiry_lem c r.valid now k).0 ∙ r.same now k h.0)
        (replies-Shows ops now (get_with_expiry now k c).0 m h.1 (Shows-get s now k c m h.0 r))
  replies-Shows (put now k v t ∷ ops) s c m h r =
      replies-Shows ops now (insert key_le now k v t c) _ h.1 (Shows-put s now k v t c m h.0 r)
  replies-Shows (drop_key k ∷ ops) s c m h r =
      replies-Shows ops s (invalidate k c) _ h (Shows-drop s k c m r)

  lookup_nil : (k : K) → Assoc.lookup {V = V × ℕ} k [] ≡ none
  unfolding Assoc.lookup
  lookup_nil k = refl

  nothing : (k : K) {x : V × ℕ} → Assoc.lookup k [] ≡ some x → ⊥
  nothing k h = cc (lookup_nil k)

  -- Over any history of calls with a clock that never goes back, a new cache answers each
  -- `get_with_expiry` as a plain map would that keeps everything and hides what has expired.
  pub replies_refine :
      (ops : List (Op K V)) (s : ℕ)
      → Monotone s ops
      → replies key_le ops new ≡ spec_replies ops (λ _. none)
  unfolding new
  replies_refine ops s h =
      replies-Shows ops s new (λ _. none) h
        (record {
          valid = record { sorted = tt; queued = λ k v t x. absurd (nothing k x) };
          same = λ now j le. ap (live now) (lookup_nil j);
        })
