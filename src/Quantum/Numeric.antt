-- ===== src/Quantum/Numeric.antt =====
-- What backend/app/services/quantum takes from numpy and math: products, sums, series and the random
-- generator. A vector of length n is a function on the indices below n, a matrix one of two indices.
use egreen_quanta_tes.Base.{ℕ, zero, suc, ◌*◌, ◌==◌, Bool, not, List, [], ◌∷◌, if◌then◌else◌}
use egreen_quanta_tes.Detection.Number.{Numbers, null, one}

-- An entry of a vector of np.array([-1, 1]).
pub data Spin : Type 0 where
  up down : Spin

pub record Numpy (nums : Numbers) : Type 1 where
  -- `1e-k` and `np.inf`
  pub tiny : ℕ → nums.Float
  pub inf : nums.Float
  pub exp : nums.Float → nums.Float
  pub log : nums.Float → nums.Float
  pub tanh : nums.Float → nums.Float
  -- `x @ m @ x`, `m @ x`, `x @ y` and `x.sum()` at length n
  pub form : ℕ → (ℕ → ℕ → nums.Float) → (ℕ → nums.Float) → nums.Float
  pub matvec : ℕ → (ℕ → ℕ → nums.Float) → (ℕ → nums.Float) → ℕ → nums.Float
  pub dot : ℕ → (ℕ → nums.Float) → (ℕ → nums.Float) → nums.Float
  pub sum : ℕ → (ℕ → nums.Float) → nums.Float
  pub geomspace : nums.Float → nums.Float → ℕ → ℕ → nums.Float
  -- `np.percentile(x, k)`
  pub percentile : List nums.Float → ℕ → nums.Float
  pub linspace : nums.Float → nums.Float → ℕ → ℕ → nums.Float
  -- The generator: its state, `rng.choice([-1, 1], size=n)`, `rng.permutation(n)`, `rng.random()`.
  pub Rng : Type 0
  pub default_rng : ℕ → Rng
  pub choice : ℕ → Rng → (ℕ → Spin) × Rng
  pub permutation : ℕ → Rng → List ℕ × Rng
  pub random : Rng → nums.Float × Rng

module _ (n : Numbers) where
  -- `-x`
  abbrev pub neg : n.Float → n.Float
  neg x = n.sub (null n) x

  -- `float(k)`
  abbrev pub of_nat : ℕ → n.Float
  of_nat k = n.lit (100 * k)

  -- `a < b`, where neither is not-a-number.
  abbrev pub lt : n.Float → n.Float → Bool
  lt a b = not (n.le b a)

  -- `abs(x)`, and Python's `max(a, b)`.
  abbrev pub abs : n.Float → n.Float
  abs x = if n.le (null n) x then x else neg x

  abbrev pub larger : n.Float → n.Float → n.Float
  larger a b = if lt a b then b else a

  abbrev pub of_spin : Spin → n.Float
  of_spin Spin.up = one n
  of_spin Spin.down = neg (one n)

abbrev pub flip : Spin → Spin
flip Spin.up = Spin.down
flip Spin.down = Spin.up

abbrev pub bit_of : Spin → ℕ
bit_of Spin.up = 1
bit_of Spin.down = 0

-- `range(start, start + count)`
abbrev pub range : ℕ → ℕ → List ℕ
range start zero = []
range start (suc count) = start ∷ range (suc start) count

-- `x[i]` of a list of bits, inside its bounds.
abbrev pub nth : List ℕ → ℕ → ℕ
nth [] i = 0
nth (x ∷ xs) zero = x
nth (x ∷ xs) (suc i) = nth xs i

-- A vector with one entry replaced.
abbrev pub replaced {ℓ} : {A : Type ℓ} → ℕ → A → (ℕ → A) → ℕ → A
replaced i a v j = if j == i then a else v j
