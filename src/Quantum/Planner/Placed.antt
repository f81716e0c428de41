-- ===== src/Quantum/Planner/Placed.antt =====
-- A plan places every identity once or leaves it unassigned, and its default capacity is enough.
use egreen_quanta_tes.Base.{
  ℕ, zero, suc, ◌+◌, ◌-◌, ◌*◌, ◌/◌, ◌<◌, ◌≤◌, ◌==◌, String, ◌≡◌, refl, sym, ap, subst, ◌∙◌, Bool,
  Option, none, some, List, [], ◌∷◌, ◌++◌, All-find, map, length, arith, if◌then◌else◌,
}
use native.Mathlib.Nat.{suc-mul, lt-div-mul-add, mul-le-mul_right}
use egreen_quanta_tes.Detection.Number.{Numbers}
use egreen_quanta_tes.Quantum.Numeric.{Numpy, nth, range}
use egreen_quanta_tes.Quantum.Qubo.Built.{range-All}
use egreen_quanta_tes.Quantum.Annealer.{max}
use egreen_quanta_tes.Quantum.Annealer.Solve.{solve}
use egreen_quanta_tes.Quantum.Planner.{
  MigrationIdentity, MigrationPlan, Placement, enumerate, total, effort_of, capacity_of, append_at,
  first_wave, place, place_all, empty_waves,
}
use egreen_quanta_tes.Quantum.Planner.Plan.{plan_of, plan_with, plan_migration}
use egreen_quanta_tes.Quantum.Planner.Model.{plan_model-Builds}

-- How many names pass a test.
abbrev pub tally : (String → Bool) → List String → ℕ
tally q [] = 0
tally q (s ∷ ss) = (if q s then 1 else 0) + tally q ss

tally-append :
    (q : String → Bool) (xs ys : List String) → tally q (xs ++ ys) ≡ tally q xs + tally q ys
tally-append q [] ys = omega arith
tally-append q (x ∷ xs) ys = omega (arith, tally-append q xs ys)

module _ (n : Numbers) where
  abbrev pub names : List (MigrationIdentity n) → List String
  names xs = map (λ x. x.name) xs

  abbrev pub wave_tally : (String → Bool) → List (List (MigrationIdentity n)) → ℕ
  wave_tally q [] = 0
  wave_tally q (wave ∷ waves) = tally q (names wave) + wave_tally q waves

  names-append_one :
      (wave : List (MigrationIdentity n)) (x : MigrationIdentity n)
      → names (wave ++ x ∷ []) ≡ names wave ++ x.name ∷ []
  names-append_one [] x = refl
  names-append_one (y ∷ wave) x = ap (λ r. y.name ∷ r) (names-append_one wave x)

  length-append_at :
      (k : ℕ) (x : MigrationIdentity n) (waves : List (List (MigrationIdentity n)))
      → length (append_at n k x waves) ≡ length waves
  length-append_at k x [] = refl
  length-append_at zero x (wave ∷ waves) = refl
  length-append_at (suc k) x (wave ∷ waves) = ap suc (length-append_at k x waves)

  wave_tally-append_at :
      (q : String → Bool) (k : ℕ) (x : MigrationIdentity n)
      (waves : List (List (MigrationIdentity n)))
      → k < length waves
      → wave_tally q (append_at n k x waves) ≡ wave_tally q waves + tally q (x.name ∷ [])
  wave_tally-append_at q k x [] h = let no : ⊥ = omega (arith, h) in elim no [ ]
  wave_tally-append_at q zero x (wave ∷ waves) h =
      omega
        (arith, ap (tally q) (names-append_one wave x), tally-append q (names wave) (x.name ∷ []))
  wave_tally-append_at q (suc k) x (wave ∷ waves) h =
      omega (arith, wave_tally-append_at q k x waves (omega (arith, h)))

  -- What is placed and what is not, together.
  abbrev held : (String → Bool) → Placement n → ℕ
  held q p = wave_tally q p.waves + tally q p.unassigned

  place-held :
      (q : String → Bool) (o : Option ℕ) (x : MigrationIdentity n) (p : Placement n)
      → ((k : ℕ) → o ≡ some k → k < length p.waves)
      → (held q (place n o x p) ≡ held q p + tally q (x.name ∷ []))
        × (length (place n o x p).waves ≡ length p.waves)
  place-held q none x p h = (omega (arith, tally-append q p.unassigned (x.name ∷ [])), refl)
  place-held q (some k) x p h =
      (omega (arith, wave_tally-append_at q k x p.waves (h k refl)), length-append_at k x p.waves)

  first_wave-lt : (bits : List ℕ) (w i k : ℕ) → first_wave n bits w i ≡ some k → k < w
  first_wave-lt bits w i k e =
      (All-find (λ j. nth bits (i * w + j) == 1) (λ j. j < w) (range 0 w) k e
        (range-All 0 w w (omega arith))).0

  place_all-held :
      (q : String → Bool) (bits : List ℕ) (w i : ℕ) (xs : List (MigrationIdentity n))
      (p : Placement n)
      → length p.waves ≡ w
      → (held q (place_all n bits w (enumerate i xs) p) ≡ held q p + tally q (names xs))
        × (length (place_all n bits w (enumerate i xs) p).waves ≡ w)
  unfolding place_all
  place_all-held q bits w i [] p e = (omega arith, e)
  place_all-held q bits w i (x ∷ xs) p e =
      let one =
        place-held q (first_wave n bits w i) x p
          (λ k found. subst (λ s. k < s) (sym e) (first_wave-lt bits w i k found)) in
      let rest =
        place_all-held q bits w (suc i) xs (place n (first_wave n bits w i) x p) (one.1 ∙ e) in
      (omega (arith, one.0, rest.0), rest.1)

  length-empty_waves : (w : ℕ) → length (empty_waves n w) ≡ w
  length-empty_waves zero = refl
  length-empty_waves (suc w) = ap suc (length-empty_waves w)

  wave_tally-empty_waves : (q : String → Bool) (w : ℕ) → wave_tally q (empty_waves n w) ≡ 0
  wave_tally-empty_waves q zero = refl
  wave_tally-empty_waves q (suc w) = omega (arith, wave_tally-empty_waves q w)

max-pos : (w : ℕ) → 0 < max 1 w
max-pos w = ground arith

ceil-enough : (t w : ℕ) → 0 < w → t ≤ max 1 ((t + w - 1) / w) * w
ceil-enough t w h = omega (
  arith,
  h,
  lt-div-mul-add {a = t + w - 1} {b = w} h,
  mul-le-mul_right {m = (t + w - 1) / w} {n = max 1 ((t + w - 1) / w)} w (at_least _),
)
  where
    at_least : (x : ℕ) → x ≤ max 1 x
    at_least x = ground arith

capacity_of-enough :
    (n : Numbers) (xs : List (MigrationIdentity n)) (w : ℕ) (o : Option ℕ)
    → 0 < w
    → o ≡ none
    → total (map (effort_of n) xs) ≤ capacity_of n xs w o * w
capacity_of-enough n xs w none h e = ceil-enough (total (map (effort_of n) xs)) w h
capacity_of-enough n xs w (some c) h e = let no : ⊥ = ground (arith, e) in elim no [ ]

module _ (n : Numbers) (np : Numpy n) (x : MigrationIdentity n) (xs : List (MigrationIdentity n))
    (waves : ℕ) (wave_capacity : Option ℕ) (method : String) (seed : ℕ) (sweeps : Option ℕ) where
  -- A plan for at least one identity is returned. It has the waves that were asked for, one at least, and
  -- whichever names are counted, the waves and the unassigned ones hold as many of them as the
  -- identities. Without a capacity that is given, the capacity of the waves together is enough for all
  -- efforts.
  pub plan_migration-places :
      (plan : MigrationPlan n) × (plan_migration n np
          (x ∷ xs)
          waves
          wave_capacity
          method
          seed
          sweeps
        ≡ some plan)
      × (length plan.waves ≡ max 1 waves)
      × ((q : String → Bool)
          → wave_tally n q plan.waves + tally q plan.unassigned ≡ tally q (names n (x ∷ xs)))
      × (wave_capacity ≡ none
          → total (map (effort_of n) (x ∷ xs)) ≤ plan.wave_capacity * length plan.waves)
  unfolding plan_migration
  plan_migration-places =
      let w = max 1 waves in
      let cap = capacity_of n (x ∷ xs) w wave_capacity in
      let built =
        plan_model-Builds n w _ _ cap (x ∷ xs)
          (omega (arith, suc-mul (length xs) w, max-pos waves)) in
      let result = solve n np built.0 method seed sweeps 24 in
      let placed = λ (q : String → Bool).
        place_all-held n q result.best_bits w 0 (x ∷ xs)
          (record { waves = empty_waves n w; unassigned = [] }) (length-empty_waves n w) in
      (
        plan_of n np (x ∷ xs) w cap result,
        ap (plan_with n np (x ∷ xs) w cap method seed sweeps) built.1,
        (placed (λ s. Bool.true)).1,
        λ q. let p = (placed q).0 in omega (arith, p, wave_tally-empty_waves n q w),
        λ e.
            subst (λ k. total (map (effort_of n) (x ∷ xs)) ≤ cap * k)
              (sym (placed (λ s. Bool.true)).1)
              (capacity_of-enough n (x ∷ xs) w wave_capacity (max-pos waves) e),
      )
