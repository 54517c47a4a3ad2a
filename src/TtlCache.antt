-- ===== src/TtlCache.antt =====
-- The cache with expiry: src/ttl_cache.rs. The clock's reading is an argument of each call.
pub mod Refines
pub mod Trace
use symbolon.Prelude.{
  ℕ, Bool, ◌&&◌, ◌||◌, Option, none, some, List, [], ◌∷◌, ltb, leb, ◌==◌, if◌then◌else◌,
}
use symbolon.Prelude.Assoc
use symbolon.Prelude.Assoc.{Eq}

pub record TtlCache (K V : Type 0) : Type 0 where
  pub entries : List (K × (V × ℕ))
  -- the `BinaryHeap<Reverse<(T, K)>>`, the least element first
  pub expirations : List (ℕ × K)

module _ {K V : Type 0} where
  unfoldable pub new : TtlCache K V
  new = record { entries = []; expirations = [] }

-- `key_le` is the order of the keys, which breaks ties.
module _ {K : Type 0} (key_le : K → K → Bool) where
  -- the order of the pairs `(T, K)`
  abbrev pub pair_le : ℕ × K → ℕ × K → Bool
  pair_le (t, k) (u, j) = ltb t u || t == u && key_le k j

  -- `BinaryHeap::push`
  unfoldable pub push : ℕ × K → List (ℕ × K) → List (ℕ × K)
  push x [] = x ∷ []
  push x (y ∷ ys) = if pair_le x y then x ∷ y ∷ ys else y ∷ push x ys

module _ {K V : Type 0} ⦃e : Eq K⦄ where
  -- the body of the loop of `sweep`
  unfoldable pub evict : ℕ → K → List (K × (V × ℕ)) → List (K × (V × ℕ))
  evict expires_at k entries = elim (Assoc.lookup k entries) [
    | none ↦ entries
    | some (v, t) ↦ if t == expires_at then Assoc.remove k entries else entries
  ]

  unfoldable pub sweep_loop : ℕ → List (ℕ × K) → List (K × (V × ℕ)) → TtlCache K V
  sweep_loop now [] entries = record { entries = entries; expirations = [] }
  sweep_loop now ((t, k) ∷ heap) entries =
      if leb t now
      then sweep_loop now heap (evict t k entries)
      else record { entries = entries; expirations = (t, k) ∷ heap }

  unfoldable pub sweep : ℕ → TtlCache K V → TtlCache K V
  unfolding sweep_loop evict
  sweep now c = sweep_loop now c.expirations c.entries

  unfoldable pub get_with_expiry : ℕ → K → TtlCache K V → TtlCache K V × Option (V × ℕ)
  unfolding sweep
  get_with_expiry now key c = let c' = sweep now c in (c', Assoc.lookup key c'.entries)

  unfoldable pub insert : (K → K → Bool) → ℕ → K → V → ℕ → TtlCache K V → TtlCache K V
  unfolding sweep push
  insert key_le now key value expires_at c =
      let c' = sweep now c in
      record {
        entries = Assoc.insert key (value, expires_at) c'.entries;
        expirations = push key_le (expires_at, key) c'.expirations;
      }

  unfoldable pub invalidate : K → TtlCache K V → TtlCache K V
  invalidate key c = record c { entries = Assoc.remove key c.entries }
