-- ===== src/Detection/Score/Bounds.antt =====
-- The score is between 0 and 100, and a further finding never lowers it.
use egreen_quanta_tes.Base.{
  String, ◌≡◌, refl, sym, subst, Bool, true, false, Option, none, some, List, [], ◌∷◌, ◌++◌, All,
  inl, inr, Bool-cases, arith, str_eq, if◌then◌else◌,
}
use egreen_quanta_tes.Base.Text.{is_in}
use egreen_quanta_tes.Crypto.Types.{CryptoFinding}
use egreen_quanta_tes.Detection.Number.{Numbers, null, one, hundred, min, Laws}
use egreen_quanta_tes.Detection.Score.{
  weight_of, contribution, lowered, remaining_after, base_score, with_anomaly, risk_score,
}

module _ (n : Numbers) (laws : Laws n) where
  min-le_left : (a b : n.Float) → n.le (min n a b) a ≡ true
  min-le_left a b = elim (Bool-cases (n.le a b)) [
    | inl e ↦ rw e (laws.le_refl a)
    | inr e ↦ rw e (laws.le_total a b e)
  ]

  le-min : (a b c : n.Float) → n.le c a ≡ true → n.le c b ≡ true → n.le c (min n a b) ≡ true
  le-min a b c h k = elim (Bool-cases (n.le a b)) [ inl e ↦ rw e h | inr e ↦ rw e k ]

  abbrev pub NonNeg : n.Float → Type 0
  NonNeg a = n.le (null n) a ≡ true

  abbrev pub IsUnit : n.Float → Type 0
  IsUnit a = NonNeg a × (n.le a (one n) ≡ true)

  module _ (weights : List (String × n.Float)) where
    contribution-le : (f : CryptoFinding) → n.le (contribution n weights f) (one n) ≡ true
    unfolding contribution
    contribution-le f =
        laws.le_trans _ (n.lit 99) _ (min-le_left (n.lit 99) _) (laws.le_lit 99 100 (omega arith))

    remaining-IsUnit :
        (ok : (f : CryptoFinding) → NonNeg (contribution n weights f)) (disabled : List String)
        (r : n.Float) (fs : List CryptoFinding)
        → IsUnit r
        → IsUnit (remaining_after n weights disabled r fs)
    remaining-IsUnit ok disabled r [] h = h
    remaining-IsUnit ok disabled r (f ∷ fs) h =
        remaining-IsUnit ok disabled (lowered n weights disabled r f) fs
          (one_step (is_in f.code disabled))
      where
        one_step :
            (b : Bool)
            → IsUnit (if b then r else n.mul r (n.sub (one n) (contribution n weights f)))
        one_step true = h
        one_step false = (
          laws.mul_nonneg r _ h.0 (laws.sub_nonneg _ (contribution-le f)),
          laws.le_trans _ r _ (laws.mul_le r _ h.0 (laws.sub_le _ (ok f))) h.1,
        )

    weight_of-NonNeg :
        (all : All (λ w. NonNeg w.1) weights) (code : String) → NonNeg (weight_of n weights code)
    weight_of-NonNeg all code = go weights all
      where
        go :
            (ws : List (String × n.Float)) → All (λ w. NonNeg w.1) ws → NonNeg (weight_of n ws code)
        go [] h = laws.le_lit 0 _ (omega arith)
        go ((c, w) ∷ ws) h = pick (str_eq c code) (go ws h.1)
          where
            pick :
                (b : Bool)
                → NonNeg (weight_of n ws code)
                → NonNeg (if b then w else weight_of n ws code)
            pick true k = h.0
            pick false k = k

    contribution-NonNeg :
        All (λ w. NonNeg w.1) weights → (f : CryptoFinding) → NonNeg (contribution n weights f)
    unfolding contribution
    contribution-NonNeg all f = le-min (n.lit 99) _ (null n) (laws.le_lit 0 99 (omega arith)) (
        laws.mul_nonneg _ _ (laws.div_nonneg _ (laws.le_lit 0 _ (omega arith)))
          (weight_of-NonNeg all f.code))

    one-IsUnit : IsUnit (one n)
    one-IsUnit = (laws.le_lit 0 100 (omega arith), laws.le_refl (one n))

    base_score-bounds :
        (all : All (λ w. NonNeg w.1) weights) (disabled : List String) (fs : List CryptoFinding)
        → NonNeg (base_score n weights disabled fs)
          × (n.le (base_score n weights disabled fs) (hundred n) ≡ true)
    base_score-bounds all disabled fs =
        let r = remaining-IsUnit (contribution-NonNeg all) disabled (one n) fs one-IsUnit in
        (
          laws.mul_nonneg _ _ (laws.sub_nonneg _ r.1) (laws.le_lit 0 10000 (omega arith)),
          laws.percent_le _ (laws.sub_le _ r.0),
        )

    -- With weights, an anomaly score and its weight that are not negative, the risk score is between 0
    -- and 100.
    pub risk_score-bounds :
        (all : All (λ w. NonNeg w.1) weights) (disabled : List String) (fs : List CryptoFinding)
        (anomaly : Option n.Float) (weight : n.Float)
        → ((a : n.Float) → anomaly ≡ some a → NonNeg a)
        → NonNeg weight
        → NonNeg (risk_score n fs weights disabled anomaly weight)
          × (n.le (risk_score n fs weights disabled anomaly weight) (hundred n) ≡ true)
    unfolding risk_score
    risk_score-bounds all disabled fs anomaly weight pos wpos =
        let s = base_score-bounds all disabled fs in
        let (lo, hi) = blended anomaly _ pos s.0 s.1 in
        (
          laws.le_trans _ _ _ laws.round_null (laws.round_mono (null n) _ lo),
          laws.le_trans _ _ _ (laws.round_mono _ (hundred n) hi) laws.round_hundred,
        )
      where
        capped :
            (b : Bool) (score more : n.Float)
            → NonNeg score
            → n.le score (hundred n) ≡ true
            → NonNeg more
            → NonNeg (if b then score else min n (hundred n) more)
              × (n.le (if b then score else min n (hundred n) more) (hundred n) ≡ true)
        capped true score more lo hi m = (lo, hi)
        capped false score more lo hi m = (
          le-min (hundred n) more (null n) (laws.le_lit 0 10000 (omega arith)) m,
          min-le_left (hundred n) more,
        )

        blended :
            (anomaly : Option n.Float) (score : n.Float)
            → ((a : n.Float) → anomaly ≡ some a → NonNeg a)
            → NonNeg score
            → n.le score (hundred n) ≡ true
            → NonNeg (with_anomaly n anomaly weight score)
              × (n.le (with_anomaly n anomaly weight score) (hundred n) ≡ true)
        blended none score pos lo hi = (lo, hi)
        blended (some a) score pos lo hi = capped (n.le weight (null n)) score _ lo hi (
            laws.add_nonneg score _ lo (
              laws.mul_nonneg _ _ (laws.mul_nonneg weight a wpos (pos a refl))
                (laws.le_lit 0 10000 (omega arith))))

    remaining-append :
        (disabled : List String) (r : n.Float) (fs gs : List CryptoFinding)
        → remaining_after n weights disabled r (fs ++ gs)
          ≡ remaining_after n weights disabled (remaining_after n weights disabled r fs) gs
    remaining-append disabled r [] gs = refl
    remaining-append disabled r (f ∷ fs) gs =
        remaining-append disabled (lowered n weights disabled r f) fs gs

    -- With weights that are not negative and no anomaly score, a further finding never lowers the risk
    -- score.
    pub risk_score-append :
        (all : All (λ w. NonNeg w.1) weights) (disabled : List String) (fs : List CryptoFinding)
        (f : CryptoFinding) (weight : n.Float)
        → n.le
            (risk_score n fs weights disabled none weight)
            (risk_score n (fs ++ f ∷ []) weights disabled none weight)
          ≡ true
    unfolding risk_score
    risk_score-append all disabled fs f weight =
        let r = remaining_after n weights disabled (one n) fs in
        let unit = remaining-IsUnit (contribution-NonNeg all) disabled (one n) fs one-IsUnit in
        subst
          (λ q.
            n.le (n.round (n.mul (n.sub (one n) r) (hundred n)) 1)
              (n.round (n.mul (n.sub (one n) q) (hundred n)) 1)
            ≡ true)
          (sym (remaining-append disabled (one n) fs (f ∷ [])))
          (laws.round_mono _ _ (
            laws.mul_mono _ _ (hundred n) (laws.le_lit 0 10000 (omega arith))
              (laws.sub_anti _ r (lower (is_in f.code disabled) r unit.0))))
      where
        lower :
            (b : Bool) (r : n.Float)
            → NonNeg r
            → n.le (if b then r else n.mul r (n.sub (one n) (contribution n weights f))) r ≡ true
        lower true r h = laws.le_refl r
        lower false r h = laws.mul_le r _ h (laws.sub_le _ (contribution-NonNeg all f))
