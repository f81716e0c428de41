-- ===== src/Quantum/Groups/Linked.antt =====
-- The loops over the pairs end within their fuel, and join every pair that is linked.
use egreen_quanta_tes.Base.{
  ℕ, zero, suc, ◌+◌, ◌==◌, ◌<◌, ◌≤◌, ◌≡◌, refl, sym, subst, ◌∙◌, inl, inr, true, false, Bool-cases,
  Option, some, List, [], ◌∷◌, All, length, arith,
}
use egreen_quanta_tes.Detection.Number.{Numbers}
use egreen_quanta_tes.Quantum.Numeric.{range}
use egreen_quanta_tes.Quantum.Groups.{pairs, union, link_row, link_rows}
use egreen_quanta_tes.Quantum.Groups.Paths.{IsWithin-le, same}
use egreen_quanta_tes.Quantum.Groups.Unions.{AllWithin, IsJoined, Keeps, union-Joins}

module _ (n : Numbers) (sim : ℕ → ℕ → n.Float) (link : n.Float) where
  link_row-linked :
      (fuel i j : ℕ) (js : List ℕ) (p q : ℕ → ℕ)
      → n.le link (sim i j) ≡ true
      → union fuel i j p ≡ some q
      → link_row n sim link fuel i (j ∷ js) p ≡ link_row n sim link fuel i js q
  unfolding link_row
  link_row-linked fuel i j js p q e u = cc

  link_row-unlinked :
      (fuel i j : ℕ) (js : List ℕ) (p : ℕ → ℕ)
      → n.le link (sim i j) ≡ false
      → link_row n sim link fuel i (j ∷ js) p ≡ link_row n sim link fuel i js p
  unfolding link_row
  link_row-unlinked fuel i j js p e = cc

  -- The linked ones of some indices are together with `i`.
  abbrev pub Row : (ℕ → ℕ) → ℕ → List ℕ → Type 0
  Row q i js = All (λ j. n.le link (sim i j) ≡ true → IsJoined q i j) js

  Row-Keeps : (p q : ℕ → ℕ) (i : ℕ) (js : List ℕ) → Keeps p q → Row p i js → Row q i js
  Row-Keeps p q i [] k h = tt
  Row-Keeps p q i (j ∷ js) k h = (λ e. k i j (h.0 e), Row-Keeps p q i js k h.1)

  -- What a loop gives: parents within the bound, what was together, and the linked pairs.
  abbrev pub Links : ℕ → (ℕ → ℕ) → ((ℕ → ℕ) → Type 0) → Option (ℕ → ℕ) → Type 0
  Links e p P o = (q : ℕ → ℕ) × (o ≡ some q) × AllWithin e q × Keeps p q × P q

  link_row-Links :
      (fuel d e i : ℕ) (js : List ℕ) (p : ℕ → ℕ)
      → d + length js ≤ e
      → e < fuel
      → AllWithin d p
      → Links e p (λ q. Row q i js) (link_row n sim link fuel i js p)
  unfolding link_row
  link_row-Links fuel d e i [] p l k h =
      (p, refl, λ x. IsWithin-le d e p x (omega (arith, l)) (h x), λ x y j. j, tt)
  link_row-Links fuel d e i (j ∷ js) p l k h = elim (Bool-cases (n.le link (sim i j))) [
    | inl linked ↦
        let u = union-Joins fuel d i j p (omega (arith, l, k)) h in
        let rest = link_row-Links fuel (suc d) e i js u.0 (omega (arith, l)) k u.2 in
        (
          rest.0,
          link_row-linked fuel i j js p u.0 linked u.1 ∙ rest.1,
          rest.2,
          λ x y w. rest.3 x y (u.3 x y w),
          (λ w. rest.3 i j u.4, rest.4),
        )
    | inr unlinked ↦
        let rest = link_row-Links fuel d e i js p (omega (arith, l)) k h in
        (
          rest.0,
          link_row-unlinked fuel i j js p unlinked ∙ rest.1,
          rest.2,
          rest.3,
          (λ w. elim (clash (sym unlinked ∙ w)) [ ], rest.4),
        )
  ]
    where
      clash : false ≡ true → ⊥
      clash e = ground (arith, e)

  link_rows-next :
      (fuel i : ℕ) (is : List ℕ) (p q : ℕ → ℕ)
      → link_row n sim link fuel i is p ≡ some q
      → link_rows n sim link fuel (i ∷ is) p ≡ link_rows n sim link fuel is q
  unfolding link_rows
  link_rows-next fuel i is p q e = cc

  abbrev pub Rows : (ℕ → ℕ) → List ℕ → Type 0
  Rows q [] = Unit
  Rows q (i ∷ is) = Row q i is × Rows q is

  pub link_rows-Links :
      (fuel d e : ℕ) (is : List ℕ) (p : ℕ → ℕ)
      → d + pairs is ≤ e
      → e < fuel
      → AllWithin d p
      → Links e p (λ q. Rows q is) (link_rows n sim link fuel is p)
  unfolding link_rows
  link_rows-Links fuel d e [] p l k h =
      (p, refl, λ x. IsWithin-le d e p x (omega (arith, l)) (h x), λ x y j. j, tt)
  link_rows-Links fuel d e (i ∷ is) p l k h =
      let row =
        link_row-Links fuel d (d + length is) i is p (omega arith) (omega (arith, l, k)) h in
      let rest = link_rows-Links fuel (d + length is) e is row.0 (omega (arith, l)) k row.2 in
      (
        rest.0,
        link_rows-next fuel i is p row.0 row.1 ∙ rest.1,
        rest.2,
        λ x y w. rest.3 x y (row.3 x y w),
        (Row-Keeps row.0 rest.0 i is rest.3 row.4, rest.4),
      )

  Row-at :
      (q : ℕ → ℕ) (i start count j : ℕ)
      → Row q i (range start count)
      → start ≤ j
      → j < start + count
      → n.le link (sim i j) ≡ true
      → IsJoined q i j
  Row-at q i start zero j h l k e = let no : ⊥ = omega (arith, l, k) in elim no [ ]
  Row-at q i start (suc count) j h l k e = elim (Bool-cases (start == j)) [
    | inl d ↦
        subst (IsJoined q i) (same start j d)
          (h.0 (subst (λ b. n.le link (sim i b) ≡ true) (sym (same start j d)) e))
    | inr d ↦ Row-at q i (suc start) count j h.1 (ground (arith, l, d)) (omega (arith, k)) e
  ]

  -- The pairs of the loops are all pairs below the size.
  pub Rows-at :
      (q : ℕ → ℕ) (start count i j : ℕ)
      → Rows q (range start count)
      → start ≤ i
      → i < j
      → j < start + count
      → n.le link (sim i j) ≡ true
      → IsJoined q i j
  Rows-at q start zero i j h l k m e = let no : ⊥ = omega (arith, l, k, m) in elim no [ ]
  Rows-at q start (suc count) i j h l k m e = elim (Bool-cases (start == i)) [
    | inl d ↦
        Row-at q i (suc start) count j
          (subst (λ b. Row q b (range (suc start) count)) (same start i d) h.0)
          (ground (arith, k, d)) (omega (arith, m)) e
    | inr d ↦ Rows-at q (suc start) count i j h.1 (ground (arith, l, d)) k (omega (arith, m)) e
  ]
