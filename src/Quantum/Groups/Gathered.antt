-- ===== src/Quantum/Groups/Gathered.antt =====
-- The last loop of `_greedy_groups`, and the chains of links within its groups.
use egreen_quanta_tes.Base.{
  ℕ, zero, suc, ◌+◌, ◌==◌, ◌<◌, ◌≤◌, ◌≡◌, ◌++◌, sym, subst, inl, inr, true, Bool-cases, Option,
  none, some, List, [], ◌∷◌, All, arith,
}
use egreen_quanta_tes.Detection.Number.{Numbers}
use egreen_quanta_tes.Quantum.Numeric.{range}
use egreen_quanta_tes.Quantum.Groups.{find_root, append_to, collect}
use egreen_quanta_tes.Quantum.Groups.Counts.{count}
use egreen_quanta_tes.Quantum.Groups.Paths.{same}
use egreen_quanta_tes.Quantum.Groups.Collected.{AreTogether, members}
use egreen_quanta_tes.Quantum.Groups.Chained.{
  Chained, back, onward, AllChained, Found, find_root-Found, AllRelated, Related,
}

All-count : (P : ℕ → Type 0) (i : ℕ) (xs : List ℕ) → All P xs → 1 ≤ count i xs → P i
All-count P i [] h l = let no : ⊥ = omega (arith, l) in elim no [ ]
All-count P i (x ∷ xs) h l = elim (Bool-cases (x == i)) [
  | inl e ↦ subst P (same x i e) h.0
  | inr e ↦ All-count P i xs h.1 (ground (arith, l, e))
]

All-last : (P : ℕ → Type 0) (xs : List ℕ) (x : ℕ) → All P xs → P x → All P (xs ++ x ∷ [])
All-last P [] x h k = (k, tt)
All-last P (y ∷ xs) x h k = (h.0, All-last P xs x h.1 k)

module _ (R : ℕ → ℕ → Type 0) where
  abbrev IsGathered : ℕ × List ℕ → Type 0
  IsGathered g = All (λ x. Chained R x g.0) g.1

  append_to-IsGathered :
      (key i : ℕ) (gs : List (ℕ × List ℕ))
      → Chained R i key
      → All IsGathered gs
      → All IsGathered (append_to key i gs)
  unfolding append_to
  append_to-IsGathered key i [] c h = ((c, tt), tt)
  append_to-IsGathered key i (g ∷ gs) c h = elim (Bool-cases (g.0 == key)) [
    | inl e ↦ rw e (
      All-last (λ x. Chained R x g.0) g.1 i h.0 (subst (Chained R i) (sym (same g.0 key e)) c),
      h.1,
    )
    | inr e ↦ rw e (h.0, append_to-IsGathered key i gs c h.1)
  ]

  abbrev pub Gathered : Option (List (ℕ × List ℕ)) → Type 0
  Gathered none = Unit
  Gathered (some gs) = All IsGathered gs

  pub collect-Gathered :
      (fuel : ℕ) (p : ℕ → ℕ) (is : List ℕ) (gs : List (ℕ × List ℕ))
      → AllChained R p
      → All IsGathered gs
      → Gathered (collect fuel p is gs)
  unfolding collect
  collect-Gathered fuel p [] gs h k = k
  collect-Gathered fuel p (i ∷ is) gs h k =
      at_root (find_root fuel p i) (find_root-Found R fuel p i h) (λ r q c m.
        collect-Gathered fuel q is (append_to r i gs) m (append_to-IsGathered r i gs c k))
    where
      at_root :
          (o : Option (ℕ × (ℕ → ℕ)))
          → Found R i o
          → ((r : ℕ) (q : ℕ → ℕ)
              → Chained R i r
              → AllChained R q
              → Gathered (collect fuel q is (append_to r i gs)))
          → Gathered
              (elim o [ none ↦ none | some of_i ↦ collect fuel of_i.1 is (append_to of_i.0 i gs) ])
      at_root none m later = tt
      at_root (some of_i) m later = later of_i.0 of_i.1 m.0 m.1

  pub AreTogether-Chained :
      (i j : ℕ) (gs : List (ℕ × List ℕ))
      → All IsGathered gs
      → AreTogether i j (members gs)
      → Chained R i j
  AreTogether-Chained i j [] h k = elim k [ ]
  AreTogether-Chained i j (g ∷ gs) h (inl k) =
      onward (All-count (λ x. Chained R x g.0) i g.1 h.0 k.0)
        (back (All-count (λ x. Chained R x g.0) j g.1 h.0 k.1))
  AreTogether-Chained i j (g ∷ gs) h (inr k) = AreTogether-Chained i j gs h.1 k

-- A pair that the loops join.
abbrev pub IsLinked : (n : Numbers) → (ℕ → ℕ → n.Float) → n.Float → ℕ → ℕ → ℕ → Type 0
IsLinked n sim link size i j = (i < j) × (j < size) × (n.le link (sim i j) ≡ true)

module _ (n : Numbers) (sim : ℕ → ℕ → n.Float) (link : n.Float) (size : ℕ) where
  range-Related :
      (i start width : ℕ)
      → i < start
      → start + width ≤ size
      → Related (IsLinked n sim link size) n sim link i (range start width)
  range-Related i start zero l k = tt
  range-Related i start (suc width) l k = (
    λ e. (l, omega (arith, k), e),
    range-Related i (suc start) width (omega (arith, l)) (omega (arith, k)),
  )

  pub range-AllRelated :
      (start width : ℕ)
      → start + width ≤ size
      → AllRelated (IsLinked n sim link size) n sim link (range start width)
  range-AllRelated start zero k = tt
  range-AllRelated start (suc width) k = (
    range-Related start (suc start) width (omega arith) (omega (arith, k)),
    range-AllRelated (suc start) width (omega (arith, k)),
  )
