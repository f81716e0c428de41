-- ===== src/Quantum/Qubo/Keeps.antt =====
-- Steps that keep the number of variables, and their compositions.
use egreen_quanta_tes.Base.{
  ℕ, suc, ◌+◌, ◌*◌, ◌<◌, ◌≡◌, sym, subst, Option, some, List, [], ◌∷◌, All, map, arith,
}
use native.Mathlib.Nat.{suc-mul, mul-le-mul_right}
use egreen_quanta_tes.Detection.Number.{Numbers, one}
use egreen_quanta_tes.Quantum.Numeric.{neg, range}
use egreen_quanta_tes.Quantum.Qubo.{
  QuboModel, and_then, add_linear, add_quadratic, add_constant, each, each_pair, add_one_hot,
}
use egreen_quanta_tes.Quantum.Qubo.Built.{
  Builds, add_linear-Builds, add_quadratic-Builds, each-Builds, each_pair-Builds, range-All,
}

-- `i * w + k` is a variable of the model.
pub index-lt : (i k w size : ℕ) → i < size → k < w → i * w + k < size * w
index-lt i k w size hi hk =
    omega (arith, hk, mul-le-mul_right {m = suc i} {n = size} w (omega (arith, hi)), suc-mul i w)

pub All-map {ℓ κ} :
    {A B : Type ℓ} (P : B → Type κ) (f : A → B) (xs : List A)
    → All (λ x. P (f x)) xs
    → All P (map f xs)
All-map P f [] h = tt
All-map P f (x ∷ xs) h = (h.0, All-map P f xs h.1)

pub All-imp {ℓ κ} :
    {A : Type ℓ} (P Q : A → Type κ) (f : (x : A) → P x → Q x) (xs : List A) → All P xs → All Q xs
All-imp P Q f [] h = tt
All-imp P Q f (x ∷ xs) h = (f x h.0, All-imp P Q f xs h.1)

module _ (n : Numbers) (size : ℕ) where
  -- A step that keeps the number of variables.
  abbrev pub Keeps : (QuboModel n → Option (QuboModel n)) → Type 0
  Keeps f = (m : QuboModel n) → m.n ≡ size → Builds n size (f m)

  pub and_then-Builds :
      (o : Option (QuboModel n)) (f : QuboModel n → Option (QuboModel n))
      → Builds n size o
      → Keeps f
      → Builds n size (and_then n o f)
  and_then-Builds o f b k = subst (λ o'. Builds n size (and_then n o' f)) (sym b.1) (k b.0 b.2)

  pub add_linear-Keeps : (i : ℕ) (v : n.Float) → i < size → Keeps (add_linear n i v)
  add_linear-Keeps i v h m e =
      subst (λ k. Builds n k (add_linear n i v m)) e
        (add_linear-Builds n i v m (subst (λ k. i < k) (sym e) h))

  pub add_quadratic-Keeps :
      (i j : ℕ) (v : n.Float) → i < size → j < size → Keeps (add_quadratic n i j v)
  add_quadratic-Keeps i j v hi hj m e =
      subst (λ k. Builds n k (add_quadratic n i j v m)) e
        (add_quadratic-Builds n i j v m (subst (λ k. i < k) (sym e) hi)
          (subst (λ k. j < k) (sym e) hj))

  pub each-range-Keeps :
      (count : ℕ) (f : ℕ → QuboModel n → Option (QuboModel n))
      → ((i : ℕ) → i < count → Keeps (f i))
      → Keeps (each n f (range 0 count))
  each-range-Keeps count f body m e =
      each-Builds n size f (range 0 count) m
        (All-imp (λ i. i < count) (λ i. Keeps (f i)) body (range 0 count)
          (range-All 0 count count (omega arith)))
        e

  add_one_hot-some :
      (indices : List ℕ) (penalty : n.Float) (m k l : QuboModel n)
      → each n (λ i. add_linear n i (n.mul penalty (neg n (one n)))) indices m ≡ some k
      → each_pair n (λ i j. add_quadratic n i j (n.mul (n.lit 200) penalty)) indices k ≡ some l
      → add_one_hot n indices penalty m
        ≡ some (add_constant n (n.mul (n.mul penalty (one n)) (one n)) l)
  unfolding add_one_hot
  add_one_hot-some indices penalty m k l e d = cc

  pub add_one_hot-Keeps :
      (indices : List ℕ) (penalty : n.Float)
      → All (λ i. i < size) indices
      → Keeps (add_one_hot n indices penalty)
  unfolding add_constant
  add_one_hot-Keeps indices penalty h m e =
      let first =
        each-Builds n size (λ i. add_linear n i (n.mul penalty (neg n (one n)))) indices m
          (All-imp (λ i. i < size) (λ i. Keeps (add_linear n i (n.mul penalty (neg n (one n)))))
            (λ i l. add_linear-Keeps i _ l) indices h)
          e in
      let second =
        each_pair-Builds n size (λ i. i < size)
          (λ i j. add_quadratic n i j (n.mul (n.lit 200) penalty))
          (λ i j hi hj. add_quadratic-Keeps i j _ hi hj) indices first.0 h first.2 in
      (_, add_one_hot-some indices penalty m first.0 second.0 first.1 second.1, second.2)
