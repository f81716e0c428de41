-- ===== src/Detection/Engine/Alerts.antt =====
-- What a run of the detection leaves behind.
use egreen_quanta_tes.Base.{
  ℕ, String, ◌≡◌, ◌≢◌, refl, Bool, true, false, not, ◌&&◌, ◌||◌, none, some, List, [], ◌∷◌, ◌++◌,
  inl, inr, any, keep, Bool-cases, keep-yes, keep-no, arith,
}
use egreen_quanta_tes.Base.Text.{is_in}
use egreen_quanta_tes.Crypto.Types.{CryptoFinding, critical}
use egreen_quanta_tes.Detection.Number.{Numbers}
use egreen_quanta_tes.Detection.Score.{alert_severity}
use egreen_quanta_tes.Detection.Models.{Alert}
use egreen_quanta_tes.Detection.Correlate.{has_incident}
use egreen_quanta_tes.Detection.Correlate.Counts.{AreCounted, correlate-AreCounted}
use egreen_quanta_tes.Detection.Engine.{
  Db, Call, further_findings, all_findings, score_of, recorded, alerted, opens_alert, disabled,
  is_critical, run_detection,
}

or-right : (a b : Bool) → b ≡ true → a || b ≡ true
or-right a b h = ground arith

alert_severity-critical :
    (fs : List CryptoFinding) → any is_critical fs ≡ true → alert_severity fs ≡ critical
unfolding alert_severity
alert_severity-critical fs h = rw h refl

any-kept :
    (p q : CryptoFinding → Bool) (xs ys : List CryptoFinding)
    → any (λ f. p f && q f) xs ≡ true
    → any p (keep q (xs ++ ys)) ≡ true
any-kept p q [] ys h = ground arith
any-kept p q (x ∷ xs) ys h = elim (Bool-cases (q x)) [
  | inl y ↦ rw (keep-yes q x (xs ++ ys) y) (head (p x) (q x) (λ k. any-kept p q xs ys k) h)
  | inr out ↦ rw (keep-no q x (xs ++ ys) out) (any-kept p q xs ys (tail (p x) (q x) out h))
]
  where
    tail :
        (a b : Bool)
        → b ≡ false
        → (a && b) || any (λ f. p f && q f) xs ≡ true
        → any (λ f. p f && q f) xs ≡ true
    tail a b e h = ground arith

    head :
        (a b : Bool)
        → (any (λ f. p f && q f) xs ≡ true → any p (keep q (xs ++ ys)) ≡ true)
        → (a && b) || any (λ f. p f && q f) xs ≡ true
        → a || any p (keep q (xs ++ ys)) ≡ true
    head true b later h = refl
    head false b later h = later h

module _ (n : Numbers) (date decimal : ℕ → String) where
  opens_alert-critical :
      (fs : List CryptoFinding) (score : n.Float)
      → any is_critical fs ≡ true
      → opens_alert n date decimal fs score ≡ true
  unfolding opens_alert
  opens_alert-critical [] score h = ground arith
  opens_alert-critical (f ∷ fs) score h = or-right _ (any is_critical (f ∷ fs)) h

  critical-kept :
      (c : Call n) (db : Db n)
      → any
          (λ f. is_critical f && not (is_in f.code (disabled n date decimal db.rules)))
          c.result.findings
        ≡ true
      → any is_critical (all_findings n date decimal c db) ≡ true
  unfolding all_findings
  critical-kept c db h =
      any-kept is_critical (λ f. not (is_in f.code (disabled n date decimal db.rules)))
        c.result.findings (further_findings n date decimal c db) h

  -- A verification with a critical finding of a rule that is not disabled always opens one alert, of
  -- severity critical, for its event, linked to the incident that the outcome names.
  pub run_detection-critical :
      (c : Call n) (db : Db n)
      → any
          (λ f. is_critical f && not (is_in f.code (disabled n date decimal db.rules)))
          c.result.findings
        ≡ true
      → let (outcome, db') = run_detection n date decimal c db in
        (alert : Alert n) × (db'.alerts ≡ db.alerts ++ alert ∷ [])
        × (outcome.alert ≡ some alert)
        × (alert.severity ≡ critical)
        × (alert.event_id ≡ outcome.event.id)
        × (alert.incident_id ≡ outcome.incident)
        × (outcome.incident ≢ none)
  unfolding run_detection
  run_detection-critical c db h =
      let found = critical-kept c db h in
      opened
        (opens_alert n date decimal (all_findings n date decimal c db)
          (score_of n date decimal c db))
        (opens_alert-critical _ _ found) found
    where
      opened :
          (b : Bool)
          → b ≡ true
          → any is_critical (all_findings n date decimal c db) ≡ true
          → let (outcome, db') =
              alerted n date decimal b c
                (all_findings n date decimal c db)
                (score_of n date decimal c db)
                (recorded n date decimal c db) in
            (alert : Alert n) × (db'.alerts ≡ db.alerts ++ alert ∷ [])
            × (outcome.alert ≡ some alert)
            × (alert.severity ≡ critical)
            × (alert.event_id ≡ outcome.event.id)
            × (alert.incident_id ≡ outcome.incident)
            × (outcome.incident ≢ none)
      opened false e found = ground arith
      opened true e found = (
        _,
        refl,
        refl,
        alert_severity-critical (all_findings n date decimal c db) found,
        refl,
        refl,
        λ e. ground arith,
      )

  -- A run whose incident id is new keeps the counts of all incidents right.
  pub run_detection-AreCounted :
      (c : Call n) (db : Db n)
      → AreCounted n db.incidents db.alerts
      → any (has_incident n c.incident_id) db.incidents ≡ false
      → let db' = (run_detection n date decimal c db).1 in AreCounted n db'.incidents db'.alerts
  unfolding run_detection
  run_detection-AreCounted c db counted fresh =
      by (
        opens_alert n date decimal (all_findings n date decimal c db)
          (score_of n date decimal c db))
    where
      by :
          (b : Bool)
          → let db' =
              (alerted n date decimal b c
                (all_findings n date decimal c db)
                (score_of n date decimal c db)
                (recorded n date decimal c db)).1 in
            AreCounted n db'.incidents db'.alerts
      by false = counted
      by true =
          correlate-AreCounted n c.incident_id c.now _ _ _ db.alerts db.incidents counted fresh _
            refl
