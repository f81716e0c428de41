-- ===== src/Quantum/Planner/Model.antt =====
-- The scheduling model of a plan is built inside its bounds.
use egreen_quanta_tes.Base.{
  ℕ, suc, ◌+◌, ◌*◌, ◌<◌, ◌≤◌, ◌≡◌, refl, subst, List, [], ◌∷◌, All, length, arith,
}
use egreen_quanta_tes.Detection.Number.{Numbers}
use egreen_quanta_tes.Quantum.Numeric.{range}
use egreen_quanta_tes.Quantum.Qubo.{add_constant}
use egreen_quanta_tes.Quantum.Qubo.Built.{Builds, new_model-Builds, each-Builds, range-All}
use egreen_quanta_tes.Quantum.Qubo.Keeps.{
  index-lt, All-map, All-imp, Keeps, and_then-Builds, add_linear-Keeps, add_quadratic-Keeps,
  add_one_hot-Keeps,
}
use egreen_quanta_tes.Quantum.Planner.{
  MigrationIdentity, enumerate, add_identity, add_efforts, add_capacity, plan_model,
}

pub enumerate-All {ℓ} :
    {A : Type ℓ} (i size : ℕ) (xs : List A)
    → i + length xs ≤ size
    → All (λ e. e.0 < size) (enumerate i xs)
enumerate-All i size [] h = tt
enumerate-All i size (x ∷ xs) h =
    (omega (arith, h), enumerate-All (suc i) size xs (omega (arith, h)))

module _ (n : Numbers) (size w count : ℕ) (fits : count * w ≡ size) (lam mu : n.Float)
    (cap : ℕ) where
  inside : (i k : ℕ) → i < count → k < w → i * w + k < size
  inside i k hi hk = subst (λ s. i * w + k < s) fits (index-lt i k w count hi hk)

  add_identity-Keeps :
      (e : ℕ × MigrationIdentity n) → e.0 < count → Keeps n size (add_identity n w lam mu cap e)
  unfolding add_identity
  add_identity-Keeps e h m eq =
      let row = range-All 0 w w (omega arith) in
      and_then-Builds n size _ _
        (each-Builds n size _ (range 0 w) m
          (All-imp (λ k. k < w) _
            (λ k l. add_linear-Keeps n size (e.0 * w + k) _ (inside e.0 k h l)) (range 0 w) row)
          eq)
        (add_one_hot-Keeps n size _ lam (
          All-map (λ i. i < size) (λ k. e.0 * w + k) (range 0 w)
            (All-imp (λ k. k < w) _ (λ k l. inside e.0 k h l) (range 0 w) row)))

  add_efforts-Keeps :
      (k : ℕ) (xs : List (ℕ × MigrationIdentity n))
      → k < w
      → All (λ e. e.0 < count) xs
      → Keeps n size (add_efforts n w lam mu cap k xs)
  unfolding add_efforts
  add_efforts-Keeps k [] hk h m eq = (m, refl, eq)
  add_efforts-Keeps k (x ∷ xs) hk h m eq =
      and_then-Builds n size _ _
        (add_linear-Keeps n size (x.0 * w + k) _ (inside x.0 k h.0 hk) m eq)
        (λ m' eq'.
          and_then-Builds n size _ _
            (each-Builds n size _ xs m'
              (All-imp (λ y. y.0 < count) _
                (λ y l.
                  add_quadratic-Keeps n size (x.0 * w + k) (y.0 * w + k) _ (inside x.0 k h.0 hk)
                    (inside y.0 k l hk))
                xs h.1)
              eq')
            (add_efforts-Keeps k xs hk h.1))

  add_capacity-Keeps :
      (all : List (ℕ × MigrationIdentity n)) (k : ℕ)
      → All (λ e. e.0 < count) all
      → k < w
      → Keeps n size (add_capacity n w lam mu cap all k)
  unfolding add_capacity add_constant
  add_capacity-Keeps all k h hk m eq =
      and_then-Builds n size _ _ (add_efforts-Keeps k all hk h m eq) (λ m' eq'. (_, refl, eq'))

-- The model of a plan for at least one identity and one wave is built, with one variable for each identity
-- and wave.
pub plan_model-Builds :
    (n : Numbers) (w : ℕ) (lam mu : n.Float) (cap : ℕ) (identities : List (MigrationIdentity n))
    → 0 < length identities * w
    → Builds n (length identities * w) (plan_model n w lam mu cap identities)
unfolding plan_model
plan_model-Builds n w lam mu cap identities h =
    let count = length identities in
    let all = enumerate-All 0 count identities (omega arith) in
    and_then-Builds n (count * w) _ _ (new_model-Builds n (count * w) h) (λ m eq.
      and_then-Builds n (count * w) _ _
        (each-Builds n (count * w) _ (enumerate 0 identities) m
          (All-imp (λ e. e.0 < count) _
            (λ e l. add_identity-Keeps n (count * w) w count refl lam mu cap e l)
            (enumerate 0 identities) all)
          eq)
        (λ m' eq'.
          each-Builds n (count * w) _ (range 0 w) m'
            (All-imp (λ k. k < w) _
              (λ k l. add_capacity-Keeps n (count * w) w count refl lam mu cap _ k all l)
              (range 0 w) (range-All 0 w w (omega arith)))
            eq'))
