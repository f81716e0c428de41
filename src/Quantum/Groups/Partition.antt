-- ===== src/Quantum/Groups/Partition.antt =====
-- `_greedy_groups` as a whole, on a similarity matrix of any size.
use egreen_quanta_tes.Base.{ℕ, suc, ◌<◌, ◌≡◌, refl, subst, some, List, [], arith}
use egreen_quanta_tes.Detection.Number.{Numbers}
use egreen_quanta_tes.Quantum.Numeric.{range}
use egreen_quanta_tes.Quantum.Groups.{pairs, collect, link_rows, greedy_groups}
use egreen_quanta_tes.Quantum.Groups.Chained.{Chained, Left, alone, link_rows-Left}
use egreen_quanta_tes.Quantum.Groups.Gathered.{
  Gathered, IsLinked, collect-Gathered, range-AllRelated, AreTogether-Chained,
}
use egreen_quanta_tes.Quantum.Groups.Collected.{
  members, Stands, collect-Collects, AreTogether, group_at-AreTogether, All-range,
}
use egreen_quanta_tes.Quantum.Groups.Counts.{count_all, count-range}
use egreen_quanta_tes.Quantum.Groups.Linked.{link_rows-Links, Rows-at}

greedy_groups-some :
    (n : Numbers) (sim : ℕ → ℕ → n.Float) (link : n.Float) (size : ℕ) (p : ℕ → ℕ)
    (found : List (ℕ × List ℕ))
    → link_rows n sim link (suc (pairs (range 0 size))) (range 0 size) (λ a. a) ≡ some p
    → collect (suc (pairs (range 0 size))) p (range 0 size) [] ≡ some found
    → greedy_groups n sim link size ≡ some (members found)
unfolding greedy_groups
greedy_groups-some n sim link size p found e d = cc

-- On a similarity matrix of any size, the grouping ends; each index below the size is in exactly one of
-- its groups, once; two of them whose similarity is at least the link are in one group; and a chain of
-- such pairs connects any two that are in one group.
pub greedy_groups-ends :
    (n : Numbers) (sim : ℕ → ℕ → n.Float) (link : n.Float) (size : ℕ)
    → (groups : List (List ℕ)) × (greedy_groups n sim link size ≡ some groups)
      × ((i : ℕ) → i < size → count_all i groups ≡ 1)
      × ((i j : ℕ) → IsLinked n sim link size i j → AreTogether i j groups)
      × ((i j : ℕ) → AreTogether i j groups → Chained (IsLinked n sim link size) i j)
greedy_groups-ends n sim link size =
    let all = range 0 size in
    let R = IsLinked n sim link size in
    let linked =
      link_rows-Links n sim link (suc (pairs all)) 0 (pairs all) all (λ a. a) (omega arith)
        (omega arith) (λ x. refl) in
    let found =
      collect-Collects (suc (pairs all)) (pairs all) linked.0 all [] (omega arith) linked.2 in
    let stands = λ (i : ℕ) (l : i < size).
      All-range (Stands linked.0 found.0) 0 size i found.4 (omega arith) (omega (arith, l)) in
    let chained = subst (Left R) linked.1 (
      link_rows-Left R n sim link (suc (pairs all)) all (λ a. a)
        (range-AllRelated n sim link size 0 size (omega arith)) (λ x. alone)) in
    let gathered =
      subst (Gathered R) found.1
        (collect-Gathered R (suc (pairs all)) linked.0 all [] chained tt) in
    (
      members found.0,
      greedy_groups-some n sim link size linked.0 found.0 linked.1 found.1,
      λ i l.
          let f = found.2 i in
          omega (arith, f, count-range i 0 size (omega arith) (omega (arith, l))),
      λ i j e.
          let together =
            Rows-at n sim link linked.0 0 size i j linked.4 (omega arith) e.0 (omega (arith, e.1))
              e.2 in
          group_at-AreTogether i j together.root found.0
            (stands i (omega (arith, e.0, e.1)) together.left together.root together.from_left)
            (stands j e.1 together.right together.root together.from_right),
      λ i j. AreTogether-Chained R i j found.0 gathered,
    )
