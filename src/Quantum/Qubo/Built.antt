-- ===== src/Quantum/Qubo/Built.antt =====
-- Building a model inside its bounds does not raise and keeps the number of variables.
use egreen_quanta_tes.Base.{
  ℕ, zero, suc, ◌+◌, ◌==◌, ◌<◌, ◌≤◌, ◌≡◌, refl, sym, subst, inl, inr, true, false, Bool-cases,
  Option, some, List, [], ◌∷◌, All, arith, ltb, leb, ◌&&◌, if◌then◌else◌,
}
use egreen_quanta_tes.Detection.Number.{Numbers, null}
use egreen_quanta_tes.Quantum.Numeric.{range}
use egreen_quanta_tes.Quantum.Qubo.{
  QuboModel, new_model, add_at, add_linear, add_quadratic, each, each_pair,
}

module _ (n : Numbers) where
  -- A model of `size` variables comes out.
  abbrev pub Builds : ℕ → Option (QuboModel n) → Type 0
  Builds size o = (m : QuboModel n) × (o ≡ some m) × (m.n ≡ size)

  pub new_model-Builds : (size : ℕ) → 0 < size → Builds size (new_model n size)
  unfolding new_model
  new_model-Builds size h =
      let e : leb size 0 ≡ false = ground (arith, h) in
      rw e (record { n = size; q = λ i j. null n; offset = null n }, refl, refl)

  pub add_at-Builds :
      (i j : ℕ) (w : n.Float) (m : QuboModel n) → i < m.n → j < m.n → Builds m.n (add_at n i j w m)
  unfolding add_at
  add_at-Builds i j w m hi hj =
      let e : ltb i m.n ≡ true = ground (arith, hi) in
      let d : ltb j m.n ≡ true = ground (arith, hj) in
      rw e (
        rw d (
          record {
            n = m.n;
            q = λ a b. if a == i && b == j then n.add (m.q a b) w else m.q a b;
            offset = m.offset;
          },
          refl,
          refl,
        ))

  pub add_linear-Builds :
      (i : ℕ) (w : n.Float) (m : QuboModel n) → i < m.n → Builds m.n (add_linear n i w m)
  unfolding add_linear
  add_linear-Builds i w m h = add_at-Builds i i w m h h

  pub add_quadratic-Builds :
      (i j : ℕ) (w : n.Float) (m : QuboModel n)
      → i < m.n
      → j < m.n
      → Builds m.n (add_quadratic n i j w m)
  unfolding add_quadratic
  add_quadratic-Builds i j w m hi hj = elim (Bool-cases (i == j)) [
    | inl e ↦ rw e (add_at-Builds i i w m hi hi)
    | inr e ↦ rw e (elim (Bool-cases (ltb i j)) [
      | inl d ↦ rw d (add_at-Builds i j w m hi hj)
      | inr d ↦ rw d (add_at-Builds j i w m hj hi)
    ])
  ]

  -- A loop whose body builds, on every element below the size.
  module _ (size : ℕ) where
    abbrev Body {ℓ} : {A : Type ℓ} → (A → QuboModel n → Option (QuboModel n)) → A → Type 0
    Body f x = (m : QuboModel n) → m.n ≡ size → Builds size (f x m)

    each-next {ℓ} :
        {A : Type ℓ} (f : A → QuboModel n → Option (QuboModel n)) (x : A) (xs : List A)
        (m k : QuboModel n)
        → f x m ≡ some k
        → each n f (x ∷ xs) m ≡ each n f xs k
    unfolding each
    each-next f x xs m k e = cc

    pub each-Builds {ℓ} :
        {A : Type ℓ} (f : A → QuboModel n → Option (QuboModel n)) (xs : List A) (m : QuboModel n)
        → All (Body f) xs
        → m.n ≡ size
        → Builds size (each n f xs m)
    unfolding each
    each-Builds f [] m h e = (m, refl, e)
    each-Builds f (x ∷ xs) m h e =
        let step = h.0 m e in
        subst (Builds size) (sym (each-next f x xs m step.0 step.1))
          (each-Builds f xs step.0 h.1 step.2)

    each_pair-next {ℓ} :
        {A : Type ℓ} (f : A → A → QuboModel n → Option (QuboModel n)) (x : A) (xs : List A)
        (m k : QuboModel n)
        → each n (f x) xs m ≡ some k
        → each_pair n f (x ∷ xs) m ≡ each_pair n f xs k
    unfolding each_pair
    each_pair-next f x xs m k e = cc

    -- Every pair of elements with P builds.
    module _ {ℓ κ} {A : Type ℓ} (P : A → Type κ) (f : A → A → QuboModel n → Option (QuboModel n))
        (body : (x y : A) → P x → P y → Body (f x) y) where
      All-Body : (x : A) (xs : List A) → P x → All P xs → All (Body (f x)) xs
      All-Body x [] px h = tt
      All-Body x (y ∷ ys) px h = (body x y px h.0, All-Body x ys px h.1)

      pub each_pair-Builds :
          (xs : List A) (m : QuboModel n) → All P xs → m.n ≡ size → Builds size (each_pair n f xs m)
      unfolding each_pair
      each_pair-Builds [] m h e = (m, refl, e)
      each_pair-Builds (x ∷ xs) m h e =
          let row = each-Builds (f x) xs m (All-Body x xs h.0 h.1) e in
          subst (Builds size) (sym (each_pair-next f x xs m row.0 row.1))
            (each_pair-Builds xs row.0 h.1 row.2)

pub range-All :
    (start count size : ℕ) → start + count ≤ size → All (λ i. i < size) (range start count)
range-All start zero size h = tt
range-All start (suc count) size h =
    (omega (arith, h), range-All (suc start) count size (omega (arith, h)))
