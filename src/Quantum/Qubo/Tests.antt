-- ===== src/Quantum/Qubo/Tests.antt =====
-- The exact solver at two variables, with numbers that stand for their distance from -100.
use egreen_quanta_tes.Base.{
  ℕ, ◌+◌, ◌-◌, ◌==◌, ◌≡◌, refl, some, List, [], ◌∷◌, leb, le→leb, arith, if◌then◌else◌,
}
use egreen_quanta_tes.Detection.Number.{Numbers}
use egreen_quanta_tes.Quantum.Numeric.{Numpy, up, range}
use egreen_quanta_tes.Quantum.Qubo.{QuboModel, brute_force}
use egreen_quanta_tes.Quantum.Qubo.Optimal.{IsOrder}

abbrev pub shifted_add : ℕ → ℕ → ℕ
shifted_add a b = a + b - 100

abbrev pub shifted : Numbers
shifted = record {
  Float = ℕ;
  lit = λ k. k + 100;
  add = shifted_add;
  sub = λ a b. a + 100 - b;
  mul = λ a b. a;
  div = λ a b. a;
  round = λ a k. a;
  le = leb;
}

pub shifted-IsOrder : IsOrder shifted
shifted-IsOrder = record {
  le_refl = λ a. le→leb a a (omega arith);
  le_trans = λ a b c h k. ground arith;
  le_total = λ a b h. ground arith;
}

-- The sum of the coefficients whose row and column have a bit that is set.
abbrev pub row_sum : (ℕ → ℕ) → (ℕ → ℕ) → List ℕ → ℕ
row_sum w x [] = 100
row_sum w x (j ∷ js) =
    let rest = row_sum w x js in if x j == 200 then shifted_add (w j) rest else rest

abbrev pub quadratic_form : (ℕ → ℕ → ℕ) → (ℕ → ℕ) → List ℕ → List ℕ → ℕ
quadratic_form q x all [] = 100
quadratic_form q x all (i ∷ is) =
    let rest = quadratic_form q x all is in
    if x i == 200 then shifted_add (row_sum (q i) x all) rest else rest

-- Numbers as the generator's states: a draw adds one.
abbrev pub plain : Numpy shifted
plain = record {
  tiny = λ k. 100;
  inf = 1000000;
  exp = λ a. a;
  log = λ a. a;
  tanh = λ a. a;
  form = λ size q x. quadratic_form q x (range 0 size) (range 0 size);
  matvec = λ size m x i. row_sum (m i) x (range 0 size);
  dot = λ size x y. row_sum x y (range 0 size);
  sum = λ size x. row_sum x (λ i. 200) (range 0 size);
  geomspace = λ a b count k. a;
  linspace = λ a b count k. b;
  percentile = λ xs k. 100;
  Rng = ℕ;
  default_rng = λ seed. seed;
  choice = λ size rng. (λ i. up, rng + 1);
  permutation = λ size rng. (range 0 size, rng + 1);
  random = λ rng. (100, rng + 1);
}

-- `x1 = 1` or `x0 = 1` gains 2 and 1, and both together lose 4.
abbrev pub either_q : ℕ → ℕ → ℕ
either_q i j = if i == 0 then if j == 0 then 99 else 104 else if j == 0 then 100 else 98

abbrev pub either : QuboModel shifted
either = record { n = 2; q = either_q; offset = 100 }

brute_force_runs : brute_force shifted plain either ≡ some (0 ∷ 1 ∷ [], 98)
unfolding brute_force
brute_force_runs = refl
