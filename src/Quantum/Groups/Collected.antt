-- ===== src/Quantum/Groups/Collected.antt =====
-- The last loop of `_greedy_groups`, on the roots that `find` gives.
use egreen_quanta_tes.Base.{
  ℕ, zero, suc, ◌+◌, ◌==◌, ◌<◌, ◌≤◌, ◌≡◌, refl, sym, subst, ◌∙◌, ◌⊎◌, inl, inr, Bool, true, false,
  Bool-cases, All, Option, some, List, [], ◌∷◌, ◌++◌, map, arith, if◌then◌else◌,
}
use egreen_quanta_tes.Quantum.Numeric.{range}
use egreen_quanta_tes.Quantum.Groups.{find_root, append_to, collect}
use egreen_quanta_tes.Quantum.Groups.Counts.{count, count_all, count-append}
use egreen_quanta_tes.Quantum.Groups.Paths.{same, Leads}
use egreen_quanta_tes.Quantum.Groups.Ends.{find_root-Finds}
use egreen_quanta_tes.Quantum.Groups.Unions.{AllWithin}

abbrev pub members : List (ℕ × List ℕ) → List (List ℕ)
members groups = map (λ g. g.1) groups

count_all-append_to :
    (i key k : ℕ) (gs : List (ℕ × List ℕ))
    → count_all i (members (append_to key k gs)) ≡ count i (k ∷ []) + count_all i (members gs)
unfolding append_to
count_all-append_to i key k [] = omega arith
count_all-append_to i key k (g ∷ gs) = elim (Bool-cases (g.0 == key)) [
  | inl e ↦ rw e (omega (arith, count-append i g.1 (k ∷ [])))
  | inr e ↦ rw e (omega (arith, count_all-append_to i key k gs))
]

-- The first group at a key, and what appending makes of it.
abbrev group_at : ℕ → List (ℕ × List ℕ) → List ℕ
group_at key [] = []
group_at key (g ∷ gs) = let rest = group_at key gs in if g.0 == key then g.1 else rest

count-append_le : (i k : ℕ) (xs : List ℕ) → count i xs ≤ count i (xs ++ k ∷ [])
count-append_le i k xs = omega (arith, count-append i xs (k ∷ []))

count-append_last : (k : ℕ) (xs : List ℕ) → 1 ≤ count k (xs ++ k ∷ [])
count-append_last k xs =
    let own : count k (k ∷ []) ≡ 1 = ground arith in omega (arith, own, count-append k xs (k ∷ []))

group_at-append_to_le :
    (i s key k : ℕ) (gs : List (ℕ × List ℕ))
    → count i (group_at s gs) ≤ count i (group_at s (append_to key k gs))
unfolding append_to
group_at-append_to_le i s key k [] = omega arith
group_at-append_to_le i s key k (g ∷ gs) = elim (Bool-cases (g.0 == key)) [
  | inl e ↦ rw e (elim (Bool-cases (g.0 == s)) [
    | inl d ↦ rw d (count-append_le i k g.1)
    | inr d ↦ rw d (omega arith)
  ])
  | inr e ↦ rw e (elim (Bool-cases (g.0 == s)) [
    | inl d ↦ rw d (omega arith)
    | inr d ↦ rw d (group_at-append_to_le i s key k gs)
  ])
]

group_at-append_to :
    (key k : ℕ) (gs : List (ℕ × List ℕ)) → 1 ≤ count k (group_at key (append_to key k gs))
unfolding append_to
group_at-append_to key k [] = ground arith
group_at-append_to key k (g ∷ gs) = elim (Bool-cases (g.0 == key)) [
  | inl e ↦ rw e (rw e (count-append_last k g.1))
  | inr e ↦ rw e (rw e (group_at-append_to key k gs))
]

-- What `collect` gives: groups that hold what they held and what was collected, which stands in the
-- group at the root it leads to.
abbrev pub Stands : (ℕ → ℕ) → List (ℕ × List ℕ) → ℕ → Type 0
Stands p found k = (d s : ℕ) → Leads d p k s → 1 ≤ count k (group_at s found)

abbrev Collects : (ℕ → ℕ) → List ℕ → List (ℕ × List ℕ) → Option (List (ℕ × List ℕ)) → Type 0
Collects p is groups o =
    (found : List (ℕ × List ℕ)) × (o ≡ some found)
    × ((i : ℕ) → count_all i (members found) ≡ count i is + count_all i (members groups))
    × ((i s : ℕ) → count i (group_at s groups) ≤ count i (group_at s found))
    × All (Stands p found) is

collect-next :
    (fuel : ℕ) (p q : ℕ → ℕ) (i r : ℕ) (is : List ℕ) (groups : List (ℕ × List ℕ))
    → find_root fuel p i ≡ some (r, q)
    → collect fuel p (i ∷ is) groups ≡ collect fuel q is (append_to r i groups)
unfolding collect
collect-next fuel p q i r is groups e = cc

All-Stands :
    (p q : ℕ → ℕ) (found : List (ℕ × List ℕ)) (is : List ℕ)
    → ((d x s : ℕ) → Leads d p x s → Leads d q x s)
    → All (Stands q found) is
    → All (Stands p found) is
All-Stands p q found [] k h = tt
All-Stands p q found (i ∷ is) k h = (λ d s w. h.0 d s (k d i s w), All-Stands p q found is k h.1)

pub collect-Collects :
    (fuel d : ℕ) (p : ℕ → ℕ) (is : List ℕ) (groups : List (ℕ × List ℕ))
    → d < fuel
    → AllWithin d p
    → Collects p is groups (collect fuel p is groups)
unfolding collect
collect-Collects fuel d p [] groups l h = (groups, refl, λ i. omega arith, λ i s. omega arith, tt)
collect-Collects fuel d p (k ∷ is) groups l h =
    let found = find_root-Finds fuel d p k l (h k) in
    let rest =
      collect-Collects fuel d found.1 is (append_to found.0 k groups) l (λ x. found.4 d x (h x)) in
    (
      rest.0,
      collect-next fuel p found.1 k found.0 is groups found.2 ∙ rest.1,
      λ i. let r = rest.2 i in omega (arith, r, count_all-append_to i found.0 k groups),
      λ i s. let r = rest.3 i s in omega (arith, r, group_at-append_to_le i s found.0 k groups),
      (
        λ e s w.
            let r = rest.3 k found.0 in
            subst (λ b. 1 ≤ count k (group_at b rest.0)) (sym (found.7 e s w))
              (omega (arith, r, group_at-append_to found.0 k groups)),
        All-Stands p found.1 rest.0 is found.6 rest.4,
      ),
    )

-- Some group holds both indices.
abbrev pub AreTogether : ℕ → ℕ → List (List ℕ) → Type 0
AreTogether i j [] = ⊥
AreTogether i j (g ∷ gs) = ((1 ≤ count i g) × (1 ≤ count j g)) ⊎ AreTogether i j gs

pub group_at-AreTogether :
    (i j s : ℕ) (gs : List (ℕ × List ℕ))
    → 1 ≤ count i (group_at s gs)
    → 1 ≤ count j (group_at s gs)
    → AreTogether i j (members gs)
group_at-AreTogether i j s [] h k = let no : ⊥ = omega (arith, h) in elim no [ ]
group_at-AreTogether i j s (g ∷ gs) h k = in_group (g.0 == s) (group_at-AreTogether i j s gs) h k
  where
    in_group :
        (b : Bool)
        → (1 ≤ count i (group_at s gs) → 1 ≤ count j (group_at s gs) → AreTogether i j (members gs))
        → 1 ≤ count i (if b then g.1 else group_at s gs)
        → 1 ≤ count j (if b then g.1 else group_at s gs)
        → AreTogether i j (members (g ∷ gs))
    in_group true later h k = inl (h, k)
    in_group false later h k = inr (later h k)

pub All-range :
    (P : ℕ → Type 0) (start size i : ℕ)
    → All P (range start size)
    → start ≤ i
    → i < start + size
    → P i
All-range P start zero i h l k = let no : ⊥ = omega (arith, l, k) in elim no [ ]
All-range P start (suc size) i h l k = elim (Bool-cases (start == i)) [
  | inl e ↦ subst P (same start i e) h.0
  | inr e ↦ All-range P (suc start) size i h.1 (ground (arith, l, e)) (omega (arith, k))
]
