-- ===== src/Quantum/Planner.antt =====
-- backend/app/services/quantum/pq_risk.py: plan_migration, which orders identities into waves. A plan's
-- solver answer is the record itself, and its notes are the two tests that write them.
pub mod Model
pub mod Plan
pub mod Placed
mod Tests
use egreen_quanta_tes.Base.{
  ℕ, zero, suc, ◌+◌, ◌-◌, ◌*◌, ◌/◌, ◌==◌, String, Bool, true, false, not, Option, none, some, List,
  [], ◌∷◌, ◌++◌, map, length, any, find, ltb, leb, if◌then◌else◌,
}
use egreen_quanta_tes.Detection.Number.{Numbers, null, one}
use egreen_quanta_tes.Quantum.Numeric.{Numpy, of_nat, lt, larger, range, nth}
use egreen_quanta_tes.Quantum.Qubo.{
  QuboModel, and_then, new_model, add_linear, add_quadratic, add_constant, each, add_one_hot,
}
use egreen_quanta_tes.Quantum.Annealer.{AnnealResult, max, or_else}
use egreen_quanta_tes.Quantum.Annealer.Solve.{solve}

-- `MigrationIdentity`; the entries of a wave have the same fields.
pub record MigrationIdentity (nums : Numbers) : Type 0 where
  pub name : String
  pub qes : nums.Float
  pub criticality : ℕ
  pub effort : ℕ
  pub label : String

pub record MigrationPlan (nums : Numbers) : Type 0 where
  pub waves : List (List (MigrationIdentity nums))
  pub wave_capacity : ℕ
  pub total_waves : ℕ
  pub cumulative_exposure : nums.Float
  pub baseline_exposure : nums.Float
  pub improvement_pct : nums.Float
  pub solver : AnnealResult nums
  pub unassigned : List String
  pub notes_unplaced : Bool
  pub notes_capacity : Bool

-- `enumerate(xs, start)`
abbrev pub enumerate {ℓ} : {A : Type ℓ} → ℕ → List A → List (ℕ × A)
enumerate i [] = []
enumerate i (x ∷ xs) = (i, x) ∷ enumerate (suc i) xs

abbrev pub total : List ℕ → ℕ
total [] = 0
total (x ∷ xs) = x + total xs

module _ (n : Numbers) where
  -- `max(1, ident.effort)`
  abbrev pub effort_of : MigrationIdentity n → ℕ
  effort_of ident = max 1 ident.effort

  -- `wave_capacity or max(1, -(-total_effort // w))`
  abbrev pub capacity_of : List (MigrationIdentity n) → ℕ → Option ℕ → ℕ
  capacity_of identities w wave_capacity =
      or_else wave_capacity (max 1 ((total (map effort_of identities) + w - 1) / w))

  -- `max(1.0, max(i.qes for i in identities))`
  abbrev pub largest : n.Float → List (MigrationIdentity n) → n.Float
  largest best [] = best
  largest best (x ∷ xs) = largest (larger n best x.qes) xs

  abbrev pub weight_scale : List (MigrationIdentity n) → n.Float
  weight_scale [] = one n
  weight_scale (x ∷ xs) = larger n (one n) (largest x.qes xs)

  -- `np.clip(criticality, 1, 5)`
  abbrev pub clip_level : ℕ → ℕ
  clip_level c = if ltb c 1 then 1 else if ltb 5 c then 5 else c

  abbrev pub risk_of : MigrationIdentity n → n.Float
  risk_of ident =
      n.mul ident.qes
        (n.add (n.lit 60) (n.mul (n.lit 10) (of_nat n (clip_level ident.criticality))))

  module _ (w : ℕ) (lam mu : n.Float) (cap : ℕ) where
    -- The objective: one identity's linear terms and its one-hot penalty.
    unfoldable pub add_identity : ℕ × MigrationIdentity n → QuboModel n → Option (QuboModel n)
    add_identity e m =
        and_then n
          (each n (λ k. add_linear n (e.0 * w + k) (n.mul (risk_of e.1) (of_nat n (k + 1))))
            (range 0 w) m)
          (add_one_hot n (map (λ k. e.0 * w + k) (range 0 w)) lam)

    -- The capacity penalty of the wave k, over the identities from one on.
    abbrev pub own_weight : ℕ → n.Float
    own_weight e = n.mul mu (n.sub (of_nat n (e * e)) (of_nat n (2 * cap * e)))

    abbrev pub pair_weight : ℕ → ℕ → n.Float
    pair_weight e f = n.mul (n.mul (n.mul mu (n.lit 200)) (of_nat n e)) (of_nat n f)

    unfoldable pub add_efforts :
        ℕ → List (ℕ × MigrationIdentity n) → QuboModel n → Option (QuboModel n)
    add_efforts k [] m = some m
    add_efforts k (x ∷ xs) m =
        and_then n (add_linear n (x.0 * w + k) (own_weight (effort_of x.1)) m) (λ m'.
          and_then n
            (each n
              (λ y.
                add_quadratic n (x.0 * w + k) (y.0 * w + k)
                  (pair_weight (effort_of x.1) (effort_of y.1)))
              xs m')
            (add_efforts k xs))

    unfoldable pub add_capacity :
        List (ℕ × MigrationIdentity n) → ℕ → QuboModel n → Option (QuboModel n)
    add_capacity all k m =
        and_then n (add_efforts k all m)
          (λ m'. some (add_constant n (n.mul (n.mul mu (of_nat n cap)) (of_nat n cap)) m'))

    unfoldable pub plan_model : List (MigrationIdentity n) → Option (QuboModel n)
    plan_model identities =
        let all = enumerate 0 identities in
        and_then n (new_model n (length identities * w))
          (λ m. and_then n (each n add_identity all m) (each n (add_capacity all) (range 0 w)))

  -- `waves` and `unassigned` as they are filled.
  pub record Placement : Type 0 where
    pub waves : List (List (MigrationIdentity n))
    pub unassigned : List String

  -- `wave_lists[k].append(...)`, inside its bounds.
  abbrev pub append_at :
      ℕ
      → MigrationIdentity n
      → List (List (MigrationIdentity n))
      → List (List (MigrationIdentity n))
  append_at k ident [] = []
  append_at zero ident (wave ∷ waves) = (wave ++ ident ∷ []) ∷ waves
  append_at (suc k) ident (wave ∷ waves) = wave ∷ append_at k ident waves

  -- `np.where(bits[i] == 1)[0]`, its first entry if it has one.
  abbrev pub first_wave : List ℕ → ℕ → ℕ → Option ℕ
  first_wave bits w i = find (λ k. nth bits (i * w + k) == 1) (range 0 w)

  abbrev pub place : Option ℕ → MigrationIdentity n → Placement → Placement
  place none ident p = record p { unassigned = p.unassigned ++ ident.name ∷ [] }
  place (some k) ident p = record p { waves = append_at k ident p.waves }

  unfoldable pub place_all : List ℕ → ℕ → List (ℕ × MigrationIdentity n) → Placement → Placement
  place_all bits w [] p = p
  place_all bits w (e ∷ es) p = place_all bits w es (place (first_wave bits w e.0) e.1 p)

  abbrev pub empty_waves : ℕ → List (List (MigrationIdentity n))
  empty_waves zero = []
  empty_waves (suc w) = [] ∷ empty_waves w
