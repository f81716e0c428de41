-- ===== src/Detection/Triage/Steps.antt =====
-- All calls that change alerts and incidents, and the counts over every sequence of them.
use egreen_quanta_tes.Base.{
  ℕ, suc, String, ◌≡◌, refl, sym, ap, subst, ◌∙◌, Bool, true, false, Option, none, some, List, [],
  ◌∷◌, inl, inr, All, any, Bool-cases, arith, if◌then◌else◌,
}
use egreen_quanta_tes.Detection.Number.{Numbers}
use egreen_quanta_tes.Detection.Models.{Alert, Incident, IncidentStatus}
use egreen_quanta_tes.Detection.History.{is_text}
use egreen_quanta_tes.Detection.Correlate.{has_incident}
use egreen_quanta_tes.Detection.Correlate.Counts.{AreCounted, links}
use egreen_quanta_tes.Detection.Engine.{Db, Call, run_detection}
use egreen_quanta_tes.Detection.Engine.Alerts.{run_detection-AreCounted}
use egreen_quanta_tes.Detection.Triage.{
  AlertPatch, AlertNote, has_alert, patched_alert, patch_alerts, patch_alert, patch_incidents,
  patch_incident,
}

module _ (n : Numbers) (date decimal : ℕ → String) where
  -- The calls, on the alerts and the incidents; an incident's id is drawn new.
  pub data Step
      : List (Incident n) → List (Alert n) → List (Incident n) → List (Alert n) → Type 0 where
    detected :
        (c : Call n) (db : Db n)
        → any (has_incident n c.incident_id) db.incidents ≡ false
        → Step db.incidents db.alerts
            (run_detection n date decimal c db).1.incidents
            (run_detection n date decimal c db).1.alerts
    alert_patched :
        (id actor : String) (p : AlertPatch) (now : ℕ) (incidents : List (Incident n))
        (alerts alerts' : List (Alert n)) (notes notes' : List AlertNote)
        → patch_alert n id p actor now alerts notes ≡ some (alerts', notes')
        → Step incidents alerts incidents alerts'
    incident_patched :
        (id : String) (status : IncidentStatus) (incidents incidents' : List (Incident n))
        (alerts : List (Alert n))
        → patch_incident n id status incidents ≡ some incidents'
        → Step incidents alerts incidents' alerts

  pub data Reach : List (Incident n) → List (Alert n) → Type 0 where
    empty : Reach [] []
    step :
        (i i' : List (Incident n)) (a a' : List (Alert n))
        → Reach i a
        → Step i a i' a'
        → Reach i' a'

  links-patch :
      (key id actor : String) (p : AlertPatch) (now : ℕ) (alerts : List (Alert n))
      → links n key (patch_alerts n id p actor now alerts) ≡ links n key alerts
  links-patch key id actor p now [] = refl
  links-patch key id actor p now (a ∷ alerts) =
      head (has_alert n id a)
      ∙ ap (λ m. if is_text a.incident_id key then suc m else m)
          (links-patch key id actor p now alerts)
    where
      head :
          (b : Bool)
          → links n key (
              if b
              then patched_alert n p actor now a ∷ patch_alerts n id p actor now alerts
              else a ∷ patch_alerts n id p actor now alerts)
            ≡ (if is_text a.incident_id key
                then suc (links n key (patch_alerts n id p actor now alerts))
                else links n key (patch_alerts n id p actor now alerts))
      head true = refl
      head false = refl

  All-links :
      (rows : List (Incident n)) (alerts alerts' : List (Alert n))
      → ((key : String) → links n key alerts' ≡ links n key alerts)
      → All (λ i. i.alert_count ≡ links n i.id alerts) rows
      → All (λ i. i.alert_count ≡ links n i.id alerts') rows
  All-links [] alerts alerts' same h = tt
  All-links (i ∷ rows) alerts alerts' same h =
      (h.0 ∙ sym (same i.id), All-links rows alerts alerts' same h.1)

  All-patched :
      (id : String) (status : IncidentStatus) (rows : List (Incident n)) (alerts : List (Alert n))
      → All (λ i. i.alert_count ≡ links n i.id alerts) rows
      → All (λ i. i.alert_count ≡ links n i.id alerts) (patch_incidents n id status rows)
  All-patched id status [] alerts h = tt
  All-patched id status (i ∷ rows) alerts h = elim (Bool-cases (has_incident n id i)) [
    | inl e ↦ rw (e, patch_incidents) (h.0, All-patched id status rows alerts h.1)
    | inr e ↦ rw (e, patch_incidents) (h.0, All-patched id status rows alerts h.1)
  ]

  any-patched :
      (key id : String) (status : IncidentStatus) (rows : List (Incident n))
      → any (has_incident n key) (patch_incidents n id status rows) ≡ any (has_incident n key) rows
  any-patched key id status [] = refl
  any-patched key id status (i ∷ rows) = ground (arith, any-patched key id status rows)

  AreCounted-Step :
      (i : List (Incident n)) (a : List (Alert n)) (i' : List (Incident n)) (a' : List (Alert n))
      → Step i a i' a'
      → AreCounted n i a
      → AreCounted n i' a'
  unfolding patch_alert patch_incident
  AreCounted-Step i a i' a' (detected c db fresh) h =
      run_detection-AreCounted n date decimal c db h fresh
  AreCounted-Step i a i' a' (alert_patched id actor p now _ _ _ notes notes' e) h =
      found (any (has_alert n id) a) _ e
    where
      value : (x y : List (Alert n) × List AlertNote) → some x ≡ some y → x ≡ y
      value x y e = cc

      found :
          (b : Bool) (more : List AlertNote)
          → if◌then◌else◌ {A = Option (List (Alert n) × List AlertNote)} b
              (some (patch_alerts n id p actor now a, more))
              none
            ≡ some (a', notes')
          → AreCounted n i a'
      found true more e =
          subst (λ t. AreCounted n i t)
            (ap (λ t. t.0) (value (patch_alerts n id p actor now a, more) (a', notes') e))
            (record {
              counts =
                  All-links i a (patch_alerts n id p actor now a)
                    (λ key. links-patch key id actor p now a) h.counts;
              closed = λ key none_there. links-patch key id actor p now a ∙ h.closed key none_there;
            })
      found false more e = ground arith
  AreCounted-Step i a i' a' (incident_patched id status _ _ _ e) h =
      found (any (has_incident n id) i) e
    where
      value : (x y : List (Incident n)) → some x ≡ some y → x ≡ y
      value x y e = cc

      found :
          (b : Bool)
          → (if b then some (patch_incidents n id status i) else none) ≡ some i'
          → AreCounted n i' a
      found true e =
          subst (λ t. AreCounted n t a) (value (patch_incidents n id status i) i' e)
            (record {
              counts = All-patched id status i a h.counts;
              closed =
                  λ key none_there. h.closed key (sym (any-patched key id status i) ∙ none_there);
            })
      found false e = ground arith

  -- Over every sequence of verifications and patches from empty tables, the count of each incident is
  -- the number of alerts linked to it, and every link goes to an incident, when each new incident gets
  -- an id that no incident has. Events are not deleted in these sequences.
  pub Reach-AreCounted : (i : List (Incident n)) (a : List (Alert n)) → Reach i a → AreCounted n i a
  Reach-AreCounted i a empty = record { counts = tt; closed = λ key h. refl }
  Reach-AreCounted i a (step before _ alerts _ r s) =
      AreCounted-Step before alerts i a s (Reach-AreCounted before alerts r)
