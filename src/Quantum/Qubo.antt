-- ===== src/Quantum/Qubo.antt =====
-- backend/app/services/quantum/qubo.py: the construction of a QUBO, its energy, the exact minimum over
-- all bit vectors, and its Ising form. A matrix is a function of two indices below `n`; a write
-- outside raises IndexError, which is `none` here.
pub mod Optimal
pub mod Built
pub mod Keeps
pub mod Tests
use egreen_quanta_tes.Base.{
  ℕ, zero, suc, ◌+◌, ◌-◌, ◌*◌, ◌/◌, ◌%◌, ◌^◌, ◌==◌, Bool, not, ◌&&◌, Option, none, some, List, [],
  ◌∷◌, ltb, leb, if◌then◌else◌,
}
use egreen_quanta_tes.Detection.Number.{Numbers, null, one}
use egreen_quanta_tes.Quantum.Numeric.{Numpy, Spin, neg, of_nat, of_spin, nth}

-- `QUBOModel`, less its labels.
pub record QuboModel (nums : Numbers) : Type 0 where
  pub n : ℕ
  pub q : ℕ → ℕ → nums.Float
  pub offset : nums.Float

-- `_BRUTE_FORCE_MAX_N`
abbrev pub brute_force_max_n : ℕ
brute_force_max_n = 22

-- `m >> b`
abbrev pub shift_right : ℕ → ℕ → ℕ
shift_right m zero = m
shift_right m (suc b) = shift_right (m / 2) b

-- `[(mask >> b) & 1 for b in range(b, b + count)]`
abbrev pub bits_from : ℕ → ℕ → ℕ → List ℕ
bits_from b zero mask = []
bits_from b (suc count) mask = shift_right mask b % 2 ∷ bits_from (suc b) count mask

-- `np.zeros(n)`
abbrev pub zeros : ℕ → List ℕ
zeros zero = []
zeros (suc n) = 0 ∷ zeros n

module _ (n : Numbers) where
  -- `QUBOModel(n)`: none stands for the ValueError at zero.
  unfoldable pub new_model : ℕ → Option (QuboModel n)
  new_model size =
      if leb size 0 then none else some (record { n = size; q = λ i j. null n; offset = null n })

  -- A step after another that may raise.
  abbrev pub and_then :
      Option (QuboModel n) → (QuboModel n → Option (QuboModel n)) → Option (QuboModel n)
  and_then none f = none
  and_then (some m) f = f m

  -- `self.Q[i, j] += w`
  unfoldable pub add_at : ℕ → ℕ → n.Float → QuboModel n → Option (QuboModel n)
  add_at i j w m =
      if ltb i m.n && ltb j m.n
      then some (record {
        n = m.n;
        q = λ a b. if a == i && b == j then n.add (m.q a b) w else m.q a b;
        offset = m.offset;
      })
      else none

  unfoldable pub add_linear : ℕ → n.Float → QuboModel n → Option (QuboModel n)
  add_linear i w m = add_at i i w m

  unfoldable pub add_quadratic : ℕ → ℕ → n.Float → QuboModel n → Option (QuboModel n)
  add_quadratic i j w m =
      if i == j then add_at i i w m else if ltb i j then add_at i j w m else add_at j i w m

  unfoldable pub add_constant : n.Float → QuboModel n → QuboModel n
  add_constant c m = record { n = m.n; q = m.q; offset = n.add m.offset c }

  -- A loop whose body may raise: `for x in xs: m = f(x, m)`.
  unfoldable pub each {ℓ} :
      {A : Type ℓ}
      → (A → QuboModel n → Option (QuboModel n))
      → List A
      → QuboModel n
      → Option (QuboModel n)
  each f [] m = some m
  each f (x ∷ xs) m = elim (f x m) [ none ↦ none | some m' ↦ each f xs m' ]

  -- The pairs of the double loop over `indices` and `indices[a_idx + 1 :]`.
  unfoldable pub each_pair {ℓ} :
      {A : Type ℓ}
      → (A → A → QuboModel n → Option (QuboModel n))
      → List A
      → QuboModel n
      → Option (QuboModel n)
  each_pair f [] m = some m
  each_pair f (x ∷ xs) m = elim (each (f x) xs m) [ none ↦ none | some m' ↦ each_pair f xs m' ]

  -- `add_one_hot` with k = 1, as every caller has it: `1 - 2k` is -1 and `k * k` is 1.
  unfoldable pub add_one_hot : List ℕ → n.Float → QuboModel n → Option (QuboModel n)
  add_one_hot indices penalty m =
      elim (each (λ i. add_linear i (n.mul penalty (neg n (one n)))) indices m) [
        | none ↦ none
        | some m' ↦
            elim (each_pair (λ i j. add_quadratic i j (n.mul (n.lit 200) penalty)) indices m') [
              | none ↦ none
              | some m'' ↦ some (add_constant (n.mul (n.mul penalty (one n)) (one n)) m'')
            ]
      ]

module _ (n : Numbers) (np : Numpy n) where
  -- `energy`
  abbrev pub energy : QuboModel n → List ℕ → n.Float
  energy m x = n.add (np.form m.n m.q (λ i. of_nat n (nth x i))) m.offset

  -- One round of the loop: the best pair after the mask. `e < best_e` is `not (best_e <= e)`.
  abbrev pub improve : QuboModel n → ℕ → List ℕ × n.Float → List ℕ × n.Float
  improve m mask best =
      let x = bits_from 0 m.n mask in
      if not (n.le best.1 (energy m x)) then (x, energy m x) else best

  -- The loop over the masks `range(mask, mask + count)`.
  abbrev pub scan : QuboModel n → ℕ → ℕ → List ℕ × n.Float → List ℕ × n.Float
  scan m zero mask best = best
  scan m (suc count) mask best = scan m count (suc mask) (improve m mask best)

  -- `brute_force`: none stands for the ValueError.
  unfoldable pub brute_force : QuboModel n → Option (List ℕ × n.Float)
  brute_force m =
      if ltb brute_force_max_n m.n
      then none
      else some (scan m (2 ^ m.n - 1) 1 (zeros m.n, energy m (zeros m.n)))

-- `IsingModel`, less its labels.
pub record IsingModel (nums : Numbers) : Type 0 where
  pub n : ℕ
  pub h : ℕ → nums.Float
  pub j : ℕ → ℕ → nums.Float
  pub offset : nums.Float

module _ (n : Numbers) (np : Numpy n) where
  -- `np.triu(self.Q, k=1)`, and that with its transpose added.
  abbrev pub upper : QuboModel n → ℕ → ℕ → n.Float
  upper m a b = if ltb a b then m.q a b else null n

  abbrev pub u_sym : QuboModel n → ℕ → ℕ → n.Float
  u_sym m a b = n.add (upper m a b) (upper m b a)

  -- `to_ising` and `IsingModel.from_qubo`. `upper.sum()` is the sum of a matrix's entries in rows.
  unfoldable pub from_qubo : QuboModel n → IsingModel n
  from_qubo m = record {
    n = m.n;
    h = λ i.
        n.add (n.div (m.q i i) (n.lit 200)) (n.div (np.sum m.n (λ b. u_sym m i b)) (n.lit 400));
    j = λ a b. n.div (u_sym m a b) (n.lit 800);
    offset =
        n.add (n.add m.offset (n.div (np.sum m.n (λ i. m.q i i)) (n.lit 200)))
          (n.div (np.sum (m.n * m.n) (λ k. upper m (k / m.n) (k % m.n))) (n.lit 400));
  }

  -- `energy_spin`
  unfoldable pub energy_spin : IsingModel n → (ℕ → Spin) → n.Float
  energy_spin m s =
      let x = λ (i : ℕ). of_spin n (s i) in
      n.add (n.add (np.form m.n m.j x) (np.dot m.n m.h x)) m.offset

  -- `local_field`, as both annealers start their field.
  unfoldable pub local_field : IsingModel n → (ℕ → Spin) → ℕ → n.Float
  local_field m s i = n.add (n.mul (n.lit 200) (np.matvec m.n m.j (λ k. of_spin n (s k)) i)) (m.h i)
