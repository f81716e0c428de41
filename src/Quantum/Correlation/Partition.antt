-- ===== src/Quantum/Correlation/Partition.antt =====
-- The clusters and the singletons are a partition of the events, and finding them does not raise.
use egreen_quanta_tes.Base.{
  ℕ, zero, suc, ◌+◌, ◌<◌, ◌≤◌, String, ◌≡◌, refl, sym, subst, inl, inr, true, false, Bool-cases,
  Option, some, List, [], ◌∷◌, ◌++◌, All, All-append, length, length-append, arith, ltb,
}
use egreen_quanta_tes.Detection.Number.{Numbers, null}
use egreen_quanta_tes.Quantum.Numeric.{Numpy, range}
use egreen_quanta_tes.Quantum.Qubo.{QuboModel, new_model, add_quadratic, each_pair}
use egreen_quanta_tes.Quantum.Qubo.Built.{
  Builds, new_model-Builds, add_quadratic-Builds, each_pair-Builds, range-All,
}
use egreen_quanta_tes.Quantum.Annealer.{AnnealResult}
use egreen_quanta_tes.Quantum.Groups.{greedy_groups}
use egreen_quanta_tes.Quantum.Groups.Counts.{count, count_all, count-range}
use egreen_quanta_tes.Quantum.Groups.Partition.{greedy_groups-ends}
use egreen_quanta_tes.Quantum.Correlation.Counts.{
  count-without, count_all-append_one, count-range_le,
}
use egreen_quanta_tes.Quantum.Correlation.{
  min_cluster, picked, CorrelationResult, Grouping, zero_diagonal, gamma_of, pair_weight,
  round_model, internal_of, taken, answered, extract, result_of, correlate_qubo,
}

module _ (n : Numbers) (np : Numpy n) (sim : ℕ → ℕ → n.Float) where
  round_model-next :
      (gamma : n.Float) (idx : List ℕ) (m : QuboModel n)
      → new_model n (length idx) ≡ some m
      → round_model n np sim gamma idx
        ≡ each_pair n
            (λ a b. add_quadratic n a b (pair_weight n np sim gamma idx a b))
            (range 0 (length idx))
            m
  unfolding round_model
  round_model-next gamma idx m e = cc

  round_model-Builds :
      (gamma : n.Float) (idx : List ℕ)
      → 0 < length idx
      → Builds n (length idx) (round_model n np sim gamma idx)
  round_model-Builds gamma idx h =
      let start = new_model-Builds n (length idx) h in
      subst (Builds n (length idx)) (sym (round_model-next gamma idx start.0 start.1)) (
        each_pair-Builds n (length idx) (λ a. a < length idx)
          (λ a b. add_quadratic n a b (pair_weight n np sim gamma idx a b))
          (λ a b ha hb m e.
            subst (λ k. Builds n k (add_quadratic n a b (pair_weight n np sim gamma idx a b) m)) e
              (add_quadratic-Builds n a b _ m (subst (λ k. a < k) (sym e) ha)
                (subst (λ k. b < k) (sym e) hb)))
          (range 0 (length idx)) start.0 (range-All 0 (length idx) (length idx) (omega arith))
          start.2)

  -- A cluster: two members at least, and more than nothing between them.
  abbrev pub IsCluster : List ℕ → Type 0
  IsCluster c = (2 ≤ length c) × (n.le (internal_of n np sim c) (null n) ≡ false)

  record Shares (size rounds : ℕ) (g : Grouping n np) : Type 0 where
    shared : (i : ℕ) → count_all i g.clusters + count i g.remaining ≡ count i (range 0 size)
    clusters : All IsCluster g.clusters
    few : length g.clusters + rounds ≤ 12

  taken-Shares :
      (size rounds : ℕ) (r : AnnealResult n) (g : Grouping n np)
      → Shares size (suc rounds) g
      → Shares size rounds (taken n np sim r g).1
  taken-Shares size rounds r g h = elim (Bool-cases (ltb (length chosen) min_cluster)) [
    | inl e ↦ rw e unchanged
    | inr e ↦ rw e (elim (Bool-cases (n.le (internal_of n np sim chosen) (null n))) [
      | inl d ↦ rw d unchanged
      | inr d ↦ rw d (record {
        shared = λ i.
            let once : count i g.remaining ≤ 1 =
              omega (arith, h.shared i, count-range_le i 0 size) in
            omega (
              arith,
              h.shared i,
              count_all-append_one i g.clusters chosen,
              count-without i g.remaining r.best_bits once,
            );
        clusters = All-append IsCluster g.clusters (chosen ∷ []) h.clusters ((at_least e, d), tt);
        few = let l = h.few in omega (arith, l, length-append g.clusters (chosen ∷ []));
      })
    ])
  ]
    where
      chosen : List ℕ
      chosen = picked g.remaining r.best_bits

      unchanged : Shares size rounds (record g { solver_runs = g.solver_runs ++ r ∷ [] })
      unchanged = record {
        shared = h.shared;
        clusters = h.clusters;
        few = let l = h.few in omega (arith, l);
      }

      at_least : ltb (length chosen) 2 ≡ false → 2 ≤ length chosen
      at_least e = ground (arith, e)

  module _ (gamma : n.Float) (method : String) (seed : ℕ) where
    -- The loop ends without raising, with what its state shares out.
    abbrev Extracts : ℕ → Option (Grouping n np) → Type 0
    Extracts size o = (g : Grouping n np) × (o ≡ some g) × Shares size 0 g

    Shares-fewer : (size rounds : ℕ) (g : Grouping n np) → Shares size rounds g → Shares size 0 g
    Shares-fewer size rounds g h = record {
      shared = h.shared;
      clusters = h.clusters;
      few = let l = h.few in omega (arith, l);
    }

    extract-few :
        (rounds : ℕ) (g : Grouping n np)
        → ltb (length g.remaining) 2 ≡ true
        → extract n np sim gamma method seed (suc rounds) g ≡ some g
    unfolding extract
    extract-few rounds g e = cc

    extract-last :
        (rounds : ℕ) (g : Grouping n np) (m : QuboModel n)
        → ltb (length g.remaining) 2 ≡ false
        → round_model n np sim gamma g.remaining ≡ some m
        → (answered n np sim gamma method seed g m).0 ≡ false
        → extract n np sim gamma method seed (suc rounds) g
          ≡ some (answered n np sim gamma method seed g m).1
    unfolding extract
    extract-last rounds g m e d f = rw (e, extract) (rw (d, extract) (rw (f, extract) refl))

    extract-next :
        (rounds : ℕ) (g : Grouping n np) (m : QuboModel n)
        → ltb (length g.remaining) 2 ≡ false
        → round_model n np sim gamma g.remaining ≡ some m
        → (answered n np sim gamma method seed g m).0 ≡ true
        → extract n np sim gamma method seed (suc rounds) g
          ≡ extract n np sim gamma method seed rounds (answered n np sim gamma method seed g m).1
    unfolding extract
    extract-next rounds g m e d f = rw (e, extract) (rw (d, extract) (rw (f, extract) refl))

    extract-Extracts :
        (size rounds : ℕ) (g : Grouping n np)
        → Shares size rounds g
        → Extracts size (extract n np sim gamma method seed rounds g)
    unfolding extract
    extract-Extracts size zero g h = (g, refl, h)
    extract-Extracts size (suc rounds) g h = elim (Bool-cases (ltb (length g.remaining) 2)) [
      | inl e ↦ (g, extract-few rounds g e, Shares-fewer size (suc rounds) g h)
      | inr e ↦
          let built = round_model-Builds gamma g.remaining (ground (arith, e)) in
          let after = answered n np sim gamma method seed g built.0 in
          let shares : Shares size rounds after.1 = taken-Shares size rounds _ g h in
          elim (Bool-cases after.0) [
            | inl more ↦
                subst (Extracts size) (sym (extract-next rounds g built.0 e built.1 more))
                  (extract-Extracts size rounds after.1 shares)
            | inr ended ↦ (
              after.1,
              extract-last rounds g built.0 e built.1 ended,
              Shares-fewer size rounds after.1 shares,
            )
          ]
    ]

correlate_qubo-some :
    (n : Numbers) (np : Numpy n) (given : ℕ → ℕ → n.Float) (size : ℕ) (gamma : Option n.Float)
    (method : String) (seed : ℕ) (g : Grouping n np) (baseline : List (List ℕ))
    → extract n np
        (zero_diagonal n np given)
        (gamma_of n np gamma (zero_diagonal n np given) size)
        method
        seed
        12
        (record { remaining = range 0 size; clusters = []; densities = []; solver_runs = [] })
      ≡ some g
    → greedy_groups n (zero_diagonal n np given) (n.lit 34) size ≡ some baseline
    → correlate_qubo n np given size gamma method seed
      ≡ some (result_of n np (zero_diagonal n np given) size g baseline)
unfolding correlate_qubo
correlate_qubo-some n np given size gamma method seed g baseline e d = cc

-- On a similarity matrix of any size, with any method, the correlation returns a result: it finds at
-- most twelve clusters, each of at least two events with a positive weight between them, and every
-- event is in exactly one cluster or is a singleton, once.
pub correlate_qubo-partition :
    (n : Numbers) (np : Numpy n) (given : ℕ → ℕ → n.Float) (size : ℕ) (gamma : Option n.Float)
    (method : String) (seed : ℕ)
    → (r : CorrelationResult n np) × (correlate_qubo n np given size gamma method seed ≡ some r)
      × ((i : ℕ) → i < size → count_all i r.clusters + count i r.singletons ≡ 1)
      × All (IsCluster n np (zero_diagonal n np given)) r.clusters
      × (length r.clusters ≤ 12)
correlate_qubo-partition n np given size gamma method seed =
    let sim = zero_diagonal n np given in
    let ended =
      extract-Extracts n np sim (gamma_of n np gamma sim size) method seed size 12
        (record { remaining = range 0 size; clusters = []; densities = []; solver_runs = [] })
        (record { shared = λ i. omega arith; clusters = tt; few = omega arith }) in
    let greedy = greedy_groups-ends n sim (n.lit 34) size in
    (
      result_of n np sim size ended.0 greedy.0,
      correlate_qubo-some n np given size gamma method seed ended.0 greedy.0 ended.1 greedy.1,
      λ i l.
          let s = ended.2.shared i in
          omega (arith, s, count-range i 0 size (omega arith) (omega (arith, l))),
      ended.2.clusters,
      let f = ended.2.few in omega (arith, f),
    )
