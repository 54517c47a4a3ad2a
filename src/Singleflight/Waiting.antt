-- ===== src/Singleflight/Waiting.antt =====
-- The keys and events that tasks hold or wait for, as lists.
use symbolon.Prelude.{
  ◌≡◌, ap, ◌≢◌, ◌⊎◌, inl, inr, List, [], ◌∷◌, ◌++◌, arith, ◌==◌, if◌then◌else◌, Bool-cases,
}
use symbolon.Singleflight.{Event}

abbrev pub without : {K : Type 0} → Event → List (K × Event) → List (K × Event)
without ev [] = []
without ev ((k, x) ∷ l) = let rest = without ev l in if x == ev then rest else (k, x) ∷ rest

abbrev pub In : {K : Type 0} → K × Event → List (K × Event) → Type 0
In x [] = ⊥
In x (y ∷ ys) = (x ≡ y) ⊎ In x ys

-- The event has been notified.
abbrev pub Told : Event → List Event → Type 0
Told x [] = ⊥
Told x (y ∷ ys) = (x ≡ y) ⊎ Told x ys

pub In-append :
    {K : Type 0} (p q : K × Event) (pre post : List (K × Event))
    → In p (pre ++ post)
    → In p (pre ++ q ∷ post)
In-append p q [] post i = inr i
In-append p q (y ∷ pre) post (inl same) = inl same
In-append p q (y ∷ pre) post (inr later) = inr (In-append p q pre post later)

abbrev pub pair_parts :
    {K : Type 0} {k j : K} {x y : Event} → ◌≡◌ {A = K × Event} (k, x) (j, y) → (k ≡ j) × (x ≡ y)
pair_parts p = (λ i. (p i).0, λ i. (p i).1)

pub In-without :
    {K : Type 0} (k : K) (x ev : Event) (l : List (K × Event))
    → In (k, x) l
    → x ≢ ev
    → In (k, x) (without ev l)
In-without k x ev [] i ne = absurd i
In-without {K} k x ev ((j, y) ∷ l) (inl same) ne =
    let ev_eq : x ≡ y = ap (λ (p : K × Event). p.1) same in
    elim (Bool-cases (y == ev)) [
      | inl gone ↦ absurd (ne (ground arith))
      | inr kept ↦ rw kept (inl same)
    ]
In-without k x ev ((j, y) ∷ l) (inr later) ne = elim (Bool-cases (y == ev)) [
  | inl gone ↦ rw gone (In-without k x ev l later ne)
  | inr kept ↦ rw kept (inr (In-without k x ev l later ne))
]

pub without-In :
    {K : Type 0} (k : K) (x ev : Event) (l : List (K × Event))
    → In (k, x) (without ev l)
    → In (k, x) l × (x ≢ ev)
without-In k x ev [] i = absurd i
without-In {K} k x ev ((j, y) ∷ l) i = elim (Bool-cases (y == ev)) [
  | inl gone ↦ let r = without-In k x ev l (rw gone at i) in (inr r.0, r.1)
  | inr kept ↦
      let split : (◌≡◌ {A = K × Event} (k, x) (j, y)) ⊎ In (k, x) (without ev l) = rw kept at i in
      elim split [
        | inl same ↦
            let ev_eq : x ≡ y = ap (λ (p : K × Event). p.1) same in
            (inl same, λ (q : x ≡ ev). absurd (ground arith))
        | inr later ↦ let r = without-In k x ev l later in (inr r.0, r.1)
      ]
]
