-- ===== src/Identity/RateLimit/Bound.antt =====
-- How many requests of one client the limiter can let through.
use egreen_quanta_tes.Base.{
  ℕ, suc, ◌+◌, ◌-◌, ◌≤◌, ◌<◌, String, ◌≡◌, refl, Bool, true, false, List, [], ◌∷◌, arith, str_eq,
  leb, eq_iff, ap, ◌∙◌, All, Bool-cases, inl, inr, if◌then◌else◌,
}
use egreen_quanta_tes.Identity.RateLimit.{Window, Buckets, put, count_hit, hit}

-- One call of `hit`.
pub record Hit : Type 0 where
  pub key : String
  pub limit : ℕ
  pub window : ℕ
  pub now : ℕ

abbrev one_if : Bool → ℕ
one_if true = 1
one_if false = 0

-- How many calls for the key are answered with `True` when the calls are made in turn.
pub admitted : String → List Hit → Buckets → ℕ
admitted key [] buckets = 0
admitted key (h ∷ hs) buckets =
    let ((allowed, remaining), buckets') = hit h.key h.limit h.window h.now buckets in
    (if str_eq h.key key then one_if allowed else 0) + admitted key hs buckets'

-- The calls for the key have one specification and are made from the instant `from` on, and before a
-- whole window has passed.
abbrev pub IsWithin : String → ℕ → ℕ → ℕ → Hit → Type 0
IsWithin key limit window from h =
    str_eq h.key key ≡ true
    → (h.limit ≡ limit) × (h.window ≡ window) × (from ≤ h.now) × (h.now < from + window)

tally :
    (rest limit count n : ℕ)
    → n ≡ suc count
    → rest ≤ limit - suc count
    → one_if (leb n limit) + rest ≤ limit - count
tally rest limit count n e h = ground arith

tally_more :
    (rest limit count n : ℕ)
    → n ≡ suc count
    → rest ≤ (limit - suc count) + limit
    → one_if (leb n limit) + rest ≤ (limit - count) + limit
tally_more rest limit count n e h = ground arith

module _ (key : String) (limit window from : ℕ) where
  other_key :
      (h : Hit) (w : Window) (buckets : Buckets)
      → str_eq h.key key ≡ false
      → put h.key w buckets key ≡ buckets key
  other_key h w buckets e = rw e refl

  same_key :
      (h : Hit) (w : Window) (buckets : Buckets)
      → str_eq h.key key ≡ true
      → put h.key w buckets key ≡ w
  same_key h w buckets e = rw e refl

  bucket_of : (h : Hit) (buckets : Buckets) → str_eq h.key key ≡ true → buckets h.key ≡ buckets key
  bucket_of h buckets e = ap buckets ((eq_iff h.key key).0 e)

  -- In a window that has begun no earlier there is no reset.
  admitted-same_window :
      (hs : List Hit) (buckets : Buckets)
      → All (IsWithin key limit window from) hs
      → from ≤ (buckets key).start
      → admitted key hs buckets ≤ limit - (buckets key).count
  unfolding admitted hit count_hit
  admitted-same_window [] buckets within begun = omega arith
  admitted-same_window (h ∷ hs) buckets within begun =
      let w = count_hit h.window h.now (buckets h.key) in
      let buckets' = put h.key w buckets in
      elim (Bool-cases (str_eq h.key key)) [
        | inr other ↦
            let kept = other_key h w buckets other in
            rw other
              (ground (arith, kept, admitted-same_window hs buckets' within.1 (rw kept begun)))
        | inl own ↦
            let (same_limit, same_window, later, sooner) = within.0 own in
            let now_w = same_key h w buckets own in
            let counted : w
                ≡ record { start = (buckets key).start; count = suc (buckets key).count } =
              rw (bucket_of h buckets own) (rw same_window (ground arith)) in
            let next = now_w ∙ counted in
            let tail = admitted-same_window hs buckets' within.1 (rw next begun) in
            rw own (
              rw same_limit (
                tally (admitted key hs buckets') limit (buckets key).count w.count
                  (ap (λ v. v.count) counted) (rw (ap (λ v. v.count) next) at tail)))
      ]

  -- From any state: what is left of the window at hand, and one window more.
  admitted-any :
      (hs : List Hit) (buckets : Buckets)
      → All (IsWithin key limit window from) hs
      → admitted key hs buckets ≤ (limit - (buckets key).count) + limit
  unfolding admitted hit count_hit
  admitted-any [] buckets within = omega arith
  admitted-any (h ∷ hs) buckets within =
      let w = count_hit h.window h.now (buckets h.key) in
      let buckets' = put h.key w buckets in
      elim (Bool-cases (str_eq h.key key)) [
        | inr other ↦
            let kept = other_key h w buckets other in
            rw other (ground (arith, kept, admitted-any hs buckets' within.1))
        | inl own ↦
            let (same_limit, same_window, later, sooner) = within.0 own in
            let now_w = same_key h w buckets own in
            elim (Bool-cases (leb h.window (h.now - (buckets h.key).start))) [
              | inl resets ↦
                  let opened : w ≡ record { start = h.now; count = 1 } = rw resets refl in
                  let next = now_w ∙ opened in
                  let tail = admitted-same_window hs buckets' within.1 (rw next later) in
                  let bound =
                    tally (admitted key hs buckets') limit 0 w.count (ap (λ v. v.count) opened)
                      (rw (ap (λ v. v.count) next) at tail) in
                  rw own (rw same_limit (omega (arith, bound)))
              | inr stays ↦
                  let counted : w
                      ≡ record { start = (buckets key).start; count = suc (buckets key).count } =
                    rw stays (rw (bucket_of h buckets own) refl) in
                  let next = now_w ∙ counted in
                  let tail = admitted-any hs buckets' within.1 in
                  rw own (
                    rw same_limit (
                      tally_more (admitted key hs buckets') limit (buckets key).count w.count
                        (ap (λ v. v.count) counted) (rw (ap (λ v. v.count) next) at tail)))
            ]
      ]

  -- In any period of one window's length, whenever it begins, and whatever was counted before and is
  -- asked for other keys meanwhile, at most twice the limit of one key's calls are let through.
  pub admitted-le :
      (hs : List Hit) (buckets : Buckets)
      → All (IsWithin key limit window from) hs
      → admitted key hs buckets ≤ limit + limit
  admitted-le hs buckets within = omega (arith, admitted-any hs buckets within)
