-- ===== src/Detection/Correlate/Counts.antt =====
-- The count that an incident keeps is the number of alerts that are linked to it.
use egreen_quanta_tes.Base.{
  ℕ, suc, String, ◌≡◌, refl, sym, ap, subst, ◌∙◌, Bool, true, false, not, ◌&&◌, Option, none, some,
  List, [], ◌∷◌, ◌++◌, inl, inr, All, All-append, any, Bool-cases, str_eq, eq_iff, eq_refl, arith,
  if◌then◌else◌,
}
use egreen_quanta_tes.Crypto.Errors.{never}
use egreen_quanta_tes.Crypto.Types.{Severity}
use egreen_quanta_tes.Detection.Number.{Numbers}
use egreen_quanta_tes.Detection.Models.{VerificationEvent, Alert, Incident}
use egreen_quanta_tes.Detection.History.{is_text}
use egreen_quanta_tes.Detection.Correlate.{
  has_incident, linked, better, best_of, recent, similar_to, event_of, bumped, bump, new_incident,
  place, correlate,
}

module _ (n : Numbers) where
  some-value : (s t : String) → some s ≡ some t → s ≡ t
  some-value s t e = cc

  str_eq-sym : (s t : String) → str_eq s t ≡ str_eq t s
  str_eq-sym s t = ground (arith, eq_iff s t, eq_iff t s)

  -- How many alerts are linked to an incident.
  abbrev pub links : String → List (Alert n) → ℕ
  links id [] = 0
  links id (a ∷ alerts) =
      let rest = links id alerts in if is_text a.incident_id id then suc rest else rest

  -- Each incident's count is that of its links, and each link goes to an incident.
  pub record AreCounted (incidents : List (Incident n)) (alerts : List (Alert n)) : Type 0 where
    pub counts : All (λ i. i.alert_count ≡ links i.id alerts) incidents
    pub closed : (id : String) → any (has_incident n id) incidents ≡ false → links id alerts ≡ 0

  any-append :
      (p : Incident n → Bool) (rows : List (Incident n)) (i : Incident n)
      → any p (rows ++ i ∷ []) ≡ false
      → (any p rows ≡ false) × (p i ≡ false)
  any-append p [] i h = (refl, ground arith)
  any-append p (r ∷ rows) i h = ground (arith, any-append p rows i)

  -- The incident chosen, if one is, is in the table.
  abbrev IsThere : List (Incident n) → Option (n.Float × String) → Type 0
  IsThere incidents none = Unit
  IsThere incidents (some (s, id)) = any (has_incident n id) incidents ≡ true

  links-append :
      (id : String) (alerts : List (Alert n)) (a : Alert n)
      → links id (alerts ++ a ∷ [])
        ≡ (if is_text a.incident_id id then suc (links id alerts) else links id alerts)
  links-append id [] a = refl
  links-append id (b ∷ alerts) a = ground (arith, links-append id alerts a)

  -- A further alert, linked to t, adds one to the links of t alone.
  links-one :
      (id t : String) (alerts : List (Alert n)) (a : Alert n)
      → a.incident_id ≡ some t
      → links id (alerts ++ a ∷ [])
        ≡ (if str_eq t id then suc (links id alerts) else links id alerts)
  links-one id t alerts a e =
      links-append id alerts a
      ∙ ap (λ o. if is_text o id then suc (links id alerts) else links id alerts) e

  module _ (t : String) (alerts : List (Alert n)) (a : Alert n) (to : a.incident_id ≡ some t) where
    counts-others :
        (rows : List (Incident n))
        → any (has_incident n t) rows ≡ false
        → All (λ i. i.alert_count ≡ links i.id alerts) rows
        → All (λ i. i.alert_count ≡ links i.id (alerts ++ a ∷ [])) rows
    counts-others [] out h = tt
    counts-others (i ∷ rows) out h = (
      h.0 ∙ sym (links-one i.id t alerts a to ∙ other i.id (is_other i out)),
      counts-others rows (ground arith) h.1,
    )
      where
        is_other :
            (i : Incident n) → any (has_incident n t) (i ∷ rows) ≡ false → str_eq t i.id ≡ false
        is_other i e = ground (arith, eq_iff t i.id, eq_iff i.id t)

        other :
            (id : String)
            → str_eq t id ≡ false
            → (if str_eq t id then suc (links id alerts) else links id alerts) ≡ links id alerts
        other id e = rw e refl

    counts-bump :
        (now : ℕ) (sim : n.Float) (severity : Severity) (rows : List (Incident n))
        → All (λ i. i.alert_count ≡ links i.id alerts) rows
        → All (λ i. i.alert_count ≡ links i.id (alerts ++ a ∷ [])) (bump n t now sim severity rows)
    counts-bump now sim severity [] h = tt
    counts-bump now sim severity (i ∷ rows) h =
        head (has_incident n t i) refl (counts-bump now sim severity rows h.1)
      where
        one_more :
            (id : String)
            → str_eq t id ≡ true
            → (if str_eq t id then suc (links id alerts) else links id alerts)
              ≡ suc (links id alerts)
        one_more id e = rw e refl

        no_more :
            (id : String)
            → str_eq t id ≡ false
            → (if str_eq t id then suc (links id alerts) else links id alerts) ≡ links id alerts
        no_more id e = rw e refl

        head :
            (b : Bool)
            → str_eq i.id t ≡ b
            → All
                (λ i. i.alert_count ≡ links i.id (alerts ++ a ∷ []))
                (bump n t now sim severity rows)
            → All
                (λ i. i.alert_count ≡ links i.id (alerts ++ a ∷ []))
                (if b
                  then bumped n now sim severity i ∷ bump n t now sim severity rows
                  else i ∷ bump n t now sim severity rows)
        head true e rest = (
          ap suc h.0 ∙ sym (links-one i.id t alerts a to ∙ one_more i.id (str_eq-sym t i.id ∙ e)),
          rest,
        )
        head false e rest =
            (h.0 ∙ sym (links-one i.id t alerts a to ∙ no_more i.id (str_eq-sym t i.id ∙ e)), rest)

    any-bump :
        (id : String) (now : ℕ) (sim : n.Float) (severity : Severity) (rows : List (Incident n))
        → any (has_incident n id) (bump n t now sim severity rows) ≡ any (has_incident n id) rows
    any-bump id now sim severity [] = refl
    any-bump id now sim severity (i ∷ rows) = ground (arith, any-bump id now sim severity rows)

  best-IsThere :
      (event : VerificationEvent n) (codes : List String) (events : List (VerificationEvent n))
      (incidents : List (Incident n)) (others : List (Alert n)) (best : Option (n.Float × String))
      → IsThere incidents best
      → IsThere incidents (best_of n event codes events incidents others best)
  best-IsThere event codes events incidents [] best h = h
  best-IsThere event codes events incidents (o ∷ others) best h =
      best-IsThere event codes events incidents others _
        (step (linked n o.incident_id incidents) best (linked-there o.incident_id) h)
    where
      linked-there :
          (l : Option String)
          → (id : String) → linked n l incidents ≡ some id
          → any (has_incident n id) incidents ≡ true
      linked-there none id e = ground arith
      linked-there (some j) id e = found (any (has_incident n j) incidents) refl e
        where
          found :
              (b : Bool)
              → any (has_incident n j) incidents ≡ b
              → (if b then some j else none) ≡ some id
              → any (has_incident n id) incidents ≡ true
          found true h e =
              subst (λ k. any (has_incident n k) incidents ≡ true) (some-value j id e) h
          found false h e = ground arith

      sim : n.Float
      sim = similar_to n event codes (event_of n o.event_id events) o.rule_codes

      step :
          (l : Option String) (best : Option (n.Float × String))
          → ((id : String) → l ≡ some id → any (has_incident n id) incidents ≡ true)
          → IsThere incidents best
          → IsThere incidents (better n sim l best)
      step none best there h = h
      step (some id) none there h = first (n.le (n.lit 34) sim)
        where
          first : (b : Bool) → IsThere incidents (if b then some (sim, id) else none)
          first true = there id refl
          first false = tt
      step (some id) (some (s, other)) there h = next (n.le (n.lit 34) sim && not (n.le sim s))
        where
          next : (b : Bool) → IsThere incidents (if b then some (sim, id) else some (s, other))
          next true = there id refl
          next false = h

  -- When the counts of all incidents are right, `correlate` keeps them right, the new alert being linked
  -- to the incident it returns, when a new incident's id is not in the table.
  pub correlate-AreCounted :
      (new : String) (now : ℕ) (alert : Alert n) (event : VerificationEvent n)
      (events : List (VerificationEvent n)) (alerts : List (Alert n))
      (incidents : List (Incident n))
      → AreCounted incidents alerts
      → any (has_incident n new) incidents ≡ false
      → let (id, incidents') = correlate n new now alert event events alerts incidents in
        (a : Alert n) → a.incident_id ≡ some id → AreCounted incidents' (alerts ++ a ∷ [])
  unfolding correlate
  correlate-AreCounted new now alert event events alerts incidents c fresh =
      placed
        (best_of n event alert.rule_codes events incidents (recent n now alert.id events alerts)
          none)
        (best-IsThere event alert.rule_codes events incidents (recent n now alert.id events alerts)
          none tt)
    where
      self :
          (id : String) (alerts : List (Alert n))
          → (if str_eq id id then suc (links id alerts) else links id alerts)
            ≡ suc (links id alerts)
      self id alerts = rw (eq_refl id) refl

      apart :
          (t id : String)
          → any (has_incident n t) incidents ≡ true
          → any (has_incident n id) incidents ≡ false
          → str_eq t id ≡ false
      apart t id there gone = elim (Bool-cases (str_eq t id)) [
        | inl e ↦
            elim (never (
              sym gone
              ∙ subst (λ k. any (has_incident n k) incidents ≡ true) ((eq_iff t id).0 e) there)) [ ]
        | inr e ↦ e
      ]

      not_other :
          (t id : String) (alerts : List (Alert n))
          → str_eq t id ≡ false
          → (if str_eq t id then suc (links id alerts) else links id alerts) ≡ links id alerts
      not_other t id alerts e = rw e refl

      placed :
          (best : Option (n.Float × String))
          → IsThere incidents best
          → (a : Alert n) → a.incident_id ≡ some (place n best new now alert event incidents).0
          → AreCounted (place n best new now alert event incidents).1 (alerts ++ a ∷ [])
      placed none h a to = record {
        counts =
            All-append (λ i. i.alert_count ≡ links i.id (alerts ++ a ∷ [])) incidents
              (new_incident n new now alert event ∷ [])
              (counts-others new alerts a to incidents fresh c.counts)
              (
                sym (links-one new new alerts a to ∙ self new alerts ∙ ap suc (c.closed new fresh)),
                tt,
              );
        closed = λ id e.
            let (inside, out) =
              any-append (has_incident n id) incidents (new_incident n new now alert event) e in
            links-one id new alerts a to ∙ not_other new id alerts out ∙ c.closed id inside;
      }
      placed (some (sim, t)) h a to = record {
        counts = counts-bump t alerts a to now sim alert.severity incidents c.counts;
        closed = λ id e.
            let inside = sym (any-bump t alerts a to id now sim alert.severity incidents) ∙ e in
            links-one id t alerts a to
            ∙ not_other t id alerts (apart t id h inside)
            ∙ c.closed id inside;
      }
