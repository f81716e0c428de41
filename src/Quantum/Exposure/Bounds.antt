-- ===== src/Quantum/Exposure/Bounds.antt =====
-- The exposure score is between 0 and 100, and a post-quantum algorithm is not exposed.
use egreen_quanta_tes.Base.{
  ℕ, String, ◌≡◌, refl, sym, subst, ◌∙◌, inl, inr, true, false, Bool-cases, Option, List, [], ◌∷◌,
  All, arith, str_eq,
}
use egreen_quanta_tes.Base.Text.{is_in, lower}
use egreen_quanta_tes.Detection.Number.{Numbers, null, one, hundred}
use egreen_quanta_tes.Quantum.Exposure.{
  Assumptions, QesInput, algo_norm, post_quantum, factors_of, clip, weight, mean_of, context_of,
  score_from, band_of, score_qes,
}
use egreen_quanta_tes.Quantum.Exposure.Factors.{
  IsRounded, NonNeg, IsUnit, lit-IsUnit, if-both, exposure_of-IsUnit, factors_of-IsUnit,
}

module _ (n : Numbers) (laws : IsRounded n) where
  abbrev pub AreNonNeg : List (String × n.Float) → Type 0
  AreNonNeg ws = All (λ w. NonNeg n laws w.1) ws

  pub clip-IsUnit : (x : n.Float) → IsUnit n laws (clip n x)
  clip-IsUnit x = elim (Bool-cases (n.le x (null n))) [
    | inl e ↦ rw e (lit-IsUnit n laws 0 (omega arith))
    | inr e ↦ rw e (elim (Bool-cases (n.le (one n) x)) [
      | inl d ↦ rw d (lit-IsUnit n laws 100 (omega arith))
      | inr d ↦ rw d (laws.le_total x _ e, laws.le_total (one n) x d)
    ])
  ]

  pub weight-NonNeg :
      (ws : List (String × n.Float)) (name : String) (default : ℕ)
      → AreNonNeg ws
      → NonNeg n laws (weight n ws name (n.lit default))
  weight-NonNeg [] name default h = laws.le_lit 0 default (omega arith)
  weight-NonNeg (w ∷ ws) name default h =
      if-both n laws (NonNeg n laws) (str_eq w.0 name) _ _ h.0 (weight-NonNeg ws name default h.1)

  mean_of-IsUnit :
      (num den : n.Float)
      → NonNeg n laws num
      → NonNeg n laws den
      → n.le num den ≡ true
      → IsUnit n laws (mean_of n num den)
  mean_of-IsUnit num den hn hd h = elim (Bool-cases (n.le den (null n))) [
    | inl e ↦ rw e (rw hd (lit-IsUnit n laws 0 (omega arith)))
    | inr e ↦ rw e (laws.div_nonneg num den hn e, laws.div_le_one num den h e)
  ]

  context_of-IsUnit :
      (ws : List (String × n.Float)) (s l e : n.Float)
      → AreNonNeg ws
      → IsUnit n laws s
      → IsUnit n laws l
      → IsUnit n laws e
      → IsUnit n laws (context_of n ws s l e)
  context_of-IsUnit ws s l e h us ul ue =
      let ws' = weight-NonNeg ws "strength" 90 h in
      let wl = weight-NonNeg ws "longevity" 80 h in
      let we = weight-NonNeg ws "exposure" 60 h in
      mean_of-IsUnit _ _
        (laws.add_nonneg _ _
          (laws.add_nonneg _ _ (laws.mul_nonneg _ s ws' us.0) (laws.mul_nonneg _ l wl ul.0))
          (laws.mul_nonneg _ e we ue.0))
        (laws.add_nonneg _ _ (laws.add_nonneg _ _ ws' wl) we)
        (laws.add_mono _ _ _ _
          (laws.add_mono _ _ _ _ (laws.mul_le _ s ws' us.1) (laws.mul_le _ l wl ul.1))
          (laws.mul_le _ e we ue.1))

  -- The last factor of the score.
  urgency-IsUnit :
      (c : n.Float) → IsUnit n laws c → IsUnit n laws (n.add (n.lit 20) (n.mul (n.lit 80) c))
  urgency-IsUnit c u =
      let eighty = laws.le_lit 0 80 (omega arith) in
      (
        laws.add_nonneg _ _ (laws.le_lit 0 20 (omega arith)) (laws.mul_nonneg _ c eighty u.0),
        laws.le_trans _ _ _
            (laws.add_mono (n.lit 20) (n.lit 20) _ (n.lit 80) (laws.le_refl _)
              (laws.mul_le (n.lit 80) c eighty u.1))
            laws.fifths,
      )

  -- A score is at most a hundred times its first factor.
  score_from-bounds :
      (f c : n.Float)
      → IsUnit n laws f
      → IsUnit n laws c
      → NonNeg n laws (score_from n f c)
        × (n.le (score_from n f c) (n.round (n.mul (hundred n) f) 1) ≡ true)
  score_from-bounds f c uf uc =
      let base = laws.mul_nonneg (hundred n) f (laws.le_lit 0 10000 (omega arith)) uf.0 in
      let u = urgency-IsUnit c uc in
      (
        subst (λ z. n.le z (score_from n f c) ≡ true) laws.round_null
            (laws.round_mono _ _ (laws.mul_nonneg _ _ base u.0)),
        laws.round_mono _ _ (laws.mul_le _ _ base u.1),
      )

  factor_null :
      (algo : String) (bits : Option ℕ) (curve : Option String)
      → is_in algo post_quantum ≡ true
      → (factors_of n algo bits curve).0 ≡ n.lit 0
  unfolding factors_of
  factor_null algo bits curve e = rw e refl

  abbrev Low : n.Float → Type 0
  Low f = n.le (n.round (n.mul (hundred n) f) 1) (n.lit 0) ≡ true

  null-Low : Low (n.lit 0)
  null-Low =
      subst (λ z. n.le (n.round (n.mul (hundred n) (n.lit 0)) 1) z ≡ true) laws.round_null
        (laws.round_mono _ _ laws.hundred_null)

  band_low : (qes : n.Float) → n.le qes (n.lit 0) ≡ true → band_of n qes ≡ "ok"
  unfolding band_of
  band_low qes h = elim (Bool-cases (n.le (n.lit 2500) qes)) [
    | inl e ↦
        elim (clash
          (sym (laws.lt_lit 0 2500 (omega arith) (omega arith)) ∙ laws.le_trans _ _ _ e h)) [ ]
    | inr e ↦ rw e refl
  ]
    where
      clash : false ≡ true → ⊥
      clash e = ground (arith, e)

  module _ (now_year qc_assumed : ℕ) (given : Assumptions n) (inp : QesInput n)
      (ok : AreNonNeg given.weights) where
    scored :
        let r = score_qes n now_year qc_assumed given inp in
        IsUnit n laws r.algo_factor
        × NonNeg n laws r.qes
        × (n.le r.qes (n.round (n.mul (hundred n) r.algo_factor) 1) ≡ true)
    unfolding score_qes
    scored =
        let algo = algo_norm inp.algo in
        let f = factors_of-IsUnit n laws algo inp.key_bits inp.curve in
        let c =
          context_of-IsUnit given.weights _ _ _ ok f.1 (clip-IsUnit _)
            (exposure_of-IsUnit n laws (lower inp.exposure)) in
        let s = score_from-bounds _ _ f.0 c in (f.0, s.0, s.1)

    -- Where no weight that the caller gives is negative, the exposure score of any input is between 0 and
    -- 100.
    pub score_qes-bounds :
        let r = score_qes n now_year qc_assumed given inp in
        (n.le (n.lit 0) r.qes ≡ true) × (n.le r.qes (n.lit 10000) ≡ true)
    score_qes-bounds =
        let r = score_qes n now_year qc_assumed given inp in
        (
          scored.1,
          laws.le_trans _ _ _ scored.2 (
              subst (λ z. n.le (n.round (n.mul (hundred n) r.algo_factor) 1) z ≡ true)
                laws.round_hundred
                (laws.round_mono _ _ (
                  laws.mul_le (hundred n) r.algo_factor (laws.le_lit 0 10000 (omega arith))
                    scored.0.1))),
        )

    -- Where no weight that the caller gives is negative, an algorithm whose normal form is in the
    -- post-quantum list has a score of at most 0 and the band `ok`, whatever the lifetime of its data, its
    -- exposure and its key.
    pub score_qes-post_quantum :
        is_in (algo_norm inp.algo) post_quantum ≡ true
        → let r = score_qes n now_year qc_assumed given inp in
          (n.le r.qes (n.lit 0) ≡ true) × (r.band ≡ "ok")
    unfolding score_qes
    score_qes-post_quantum e =
        let none = factor_null (algo_norm inp.algo) inp.key_bits inp.curve e in
        let low = laws.le_trans _ _ _ scored.2 (subst Low (sym none) null-Low) in
        (low, band_low _ low)
