-- ===== src/Quantum/Groups/Chained.antt =====
-- The parents of `_greedy_groups`, and the chains of links between an index and its root.
use egreen_quanta_tes.Base.{
  ℕ, zero, suc, ◌==◌, ◌≡◌, refl, sym, subst, inl, inr, Bool, true, false, Bool-cases, Option, none,
  some, List, [], ◌∷◌, All,
}
use egreen_quanta_tes.Detection.Number.{Numbers}
use egreen_quanta_tes.Quantum.Numeric.{replaced}
use egreen_quanta_tes.Quantum.Groups.{find_root, union, link_row, link_rows}
use egreen_quanta_tes.Quantum.Groups.Paths.{same, replaced-same, replaced-other}
use egreen_quanta_tes.Quantum.Groups.Ends.{find_root-yes, find_root-no}

-- Two indices that a chain of related ones connects, in either direction.
pub data Chained (R : ℕ → ℕ → Type 0) : ℕ → ℕ → Type 0 where
  linked : {i j : ℕ} → R i j → Chained R i j
  alone : {i : ℕ} → Chained R i i
  back : {i j : ℕ} → Chained R i j → Chained R j i
  onward : {i j k : ℕ} → Chained R i j → Chained R j k → Chained R i k

module _ (R : ℕ → ℕ → Type 0) where
  abbrev pub AllChained : (ℕ → ℕ) → Type 0
  AllChained p = (x : ℕ) → Chained R x (p x)

  AllChained-replaced :
      (a v : ℕ) (p : ℕ → ℕ) → Chained R a v → AllChained p → AllChained (replaced a v p)
  AllChained-replaced a v p c h x = elim (Bool-cases (x == a)) [
    | inl e ↦
        subst (λ b. Chained R b (replaced a v p b)) (sym (same x a e))
          (subst (Chained R a) (sym (replaced-same a v p)) c)
    | inr e ↦ subst (Chained R x) (sym (replaced-other a v x p e)) (h x)
  ]

  abbrev pub Found : ℕ → Option (ℕ × (ℕ → ℕ)) → Type 0
  Found a none = Unit
  Found a (some found) = Chained R a found.0 × AllChained found.1

  Found-back : (a b : ℕ) (o : Option (ℕ × (ℕ → ℕ))) → Chained R a b → Found b o → Found a o
  Found-back a b none c h = tt
  Found-back a b (some found) c h = (onward c h.0, h.1)

  pub find_root-Found : (fuel : ℕ) (p : ℕ → ℕ) (a : ℕ) → AllChained p → Found a (find_root fuel p a)
  unfolding find_root
  find_root-Found zero p a h = tt
  find_root-Found (suc fuel) p a h = elim (Bool-cases (p a == a)) [
    | inl e ↦ subst (Found a) (sym (find_root-yes fuel p a e)) (alone, h)
    | inr e ↦
        let grand = onward (h a) (h (p a)) in
        subst (Found a) (sym (find_root-no fuel p a e)) (
          Found-back a (p (p a)) _ grand (
            find_root-Found fuel (replaced a (p (p a)) p) (p (p a))
              (AllChained-replaced a (p (p a)) p grand h)))
  ]

  -- What a loop over parents leaves, if it ends.
  abbrev pub Left : Option (ℕ → ℕ) → Type 0
  Left none = Unit
  Left (some q) = AllChained q

  Left-next :
      (o : Option (ℕ → ℕ)) (f : (ℕ → ℕ) → Option (ℕ → ℕ))
      → Left o
      → ((q : ℕ → ℕ) → AllChained q → Left (f q))
      → Left (elim o [ none ↦ none | some q ↦ f q ])
  Left-next none f k later = tt
  Left-next (some q) f k later = later q k

  union-Left : (fuel i j : ℕ) (p : ℕ → ℕ) → Chained R i j → AllChained p → Left (union fuel i j p)
  unfolding union
  union-Left fuel i j p c h = from_j (find_root fuel p j) (find_root-Found fuel p j h)
    where
      joined :
          (rj : ℕ) (o : Option (ℕ × (ℕ → ℕ)))
          → Chained R j rj
          → Found i o
          → Left (elim o [ none ↦ none | some of_i ↦ some (replaced of_i.0 rj of_i.1) ])
      joined rj none d k = tt
      joined rj (some of_i) d k =
          AllChained-replaced of_i.0 rj of_i.1 (onward (back k.0) (onward c d)) k.1

      from_j :
          (o : Option (ℕ × (ℕ → ℕ)))
          → Found j o
          → Left (elim o [
            | none ↦ none
            | some of_j ↦ elim (find_root fuel of_j.1 i) [
              | none ↦ none
              | some of_i ↦ some (replaced of_i.0 of_j.0 of_i.1)
            ]
          ])
      from_j none k = tt
      from_j (some of_j) k =
          joined of_j.0 (find_root fuel of_j.1 i) k.0 (find_root-Found fuel of_j.1 i k.1)

  module _ (n : Numbers) (sim : ℕ → ℕ → n.Float) (link : n.Float) where
    -- The linked pairs of one row, and of all rows, are related.
    abbrev pub Related : ℕ → List ℕ → Type 0
    Related i js = All (λ j. n.le link (sim i j) ≡ true → R i j) js

    abbrev pub AllRelated : List ℕ → Type 0
    AllRelated [] = Unit
    AllRelated (i ∷ is) = Related i is × AllRelated is

    link_row-Left :
        (fuel i : ℕ) (js : List ℕ) (p : ℕ → ℕ)
        → Related i js
        → AllChained p
        → Left (link_row n sim link fuel i js p)
    unfolding link_row
    link_row-Left fuel i [] p r h = h
    link_row-Left fuel i (j ∷ js) p r h =
        at_j (n.le link (sim i j)) (λ e. union-Left fuel i j p (linked (r.0 e)) h)
          (λ q k. link_row-Left fuel i js q r.1 k)
      where
        at_j :
            (b : Bool)
            → (b ≡ true → Left (union fuel i j p))
            → ((q : ℕ → ℕ) → AllChained q → Left (link_row n sim link fuel i js q))
            → Left (elim b [
              | true ↦ elim (union fuel i j p) [
                | none ↦ none
                | some q ↦ link_row n sim link fuel i js q
              ]
              | false ↦ link_row n sim link fuel i js p
            ])
        at_j true u later =
            Left-next (union fuel i j p) (link_row n sim link fuel i js) (u refl) later
        at_j false u later = later p h

    pub link_rows-Left :
        (fuel : ℕ) (is : List ℕ) (p : ℕ → ℕ)
        → AllRelated is
        → AllChained p
        → Left (link_rows n sim link fuel is p)
    unfolding link_rows
    link_rows-Left fuel [] p r h = h
    link_rows-Left fuel (i ∷ is) p r h =
        Left-next (link_row n sim link fuel i is p) (link_rows n sim link fuel is)
          (link_row-Left fuel i is p r.0 h) (λ q k. link_rows-Left fuel is q r.1 k)
