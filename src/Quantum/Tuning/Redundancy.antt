-- ===== src/Quantum/Tuning/Redundancy.antt =====
-- What the redundancy of two rules counts.
use egreen_quanta_tes.Base.{
  ℕ, ◌<◌, ◌==◌, ◌&&◌, String, ◌≡◌, refl, inl, inr, false, Bool-cases, List, [], ◌∷◌, All, arith,
}
use egreen_quanta_tes.Detection.Number.{Numbers, null}
use egreen_quanta_tes.Quantum.Tuning.{
  LabelledEvent, present_in, add_hits, add_pairs, redundancy_from, redundancy,
}

-- Every place is above the ones after it.
abbrev pub IsFalling : List ℕ → Type 0
IsFalling [] = Unit
IsFalling (x ∷ xs) = All (λ y. y < x) xs × IsFalling xs

module _ (n : Numbers) (a b : ℕ) (up : a < b) (step : n.Float) where
  add_hits-none :
      (x : ℕ) (ys : List ℕ) (t : n.Float) → All (λ y. y < x) ys → add_hits n a b step x ys t ≡ t
  add_hits-none x [] t h = refl
  add_hits-none x (y ∷ ys) t h =
      let e : (x == a && y == b) ≡ false = ground (arith, up, h.0) in
      rw e (add_hits-none x ys t h.1)

  add_pairs-none : (xs : List ℕ) (t : n.Float) → IsFalling xs → add_pairs n a b step xs t ≡ t
  add_pairs-none [] t h = refl
  add_pairs-none (x ∷ xs) t h = rw (add_hits-none x xs t h.0) (add_pairs-none xs t h.1)

  redundancy_from-none :
      (rules : List String) (events : List LabelledEvent) (t : n.Float)
      → All (λ e. IsFalling (present_in rules e.fired)) events
      → redundancy_from n rules step a b events t ≡ t
  unfolding redundancy_from
  redundancy_from-none rules [] t h = refl
  redundancy_from-none rules (e ∷ es) t h = elim (Bool-cases e.malicious) [
    | inl m ↦
        rw m (
          rw (add_pairs-none (present_in rules e.fired) t h.0)
            (redundancy_from-none rules es t h.1))
    | inr m ↦ rw m (redundancy_from-none rules es t h.1)
  ]

-- Where the sets of all events yield their rules against the order of the rules, the redundancy of every
-- pair of rules that is read, first the one that comes first, is 0, however often the two fired
-- together.
pub redundancy-falling :
    (n : Numbers) (rules : List String) (events : List LabelledEvent) (a b : ℕ)
    → a < b
    → All (λ e. IsFalling (present_in rules e.fired)) events
    → redundancy n rules events a b ≡ null n
unfolding redundancy
redundancy-falling n rules events a b up h = redundancy_from-none n a b up _ rules events (null n) h
