-- ===== src/Detection/History/Laws.antt =====
-- When the history rules report.
use egreen_quanta_tes.Base.{
  ℕ, ◌≤◌, String, ◌≡◌, refl, sym, ap, subst, ◌∙◌, ◌↔◌, Bool, true, false, ◌&&◌, Option, some, List,
  [], ◌∷◌, inl, inr, keep, any, leb, arith, Bool-cases, leb→le, le→leb, keep-yes, keep-no,
  if◌then◌else◌,
}
use egreen_quanta_tes.Base.Text.{is_set}
use egreen_quanta_tes.Crypto.Types.{CryptoFinding}
use egreen_quanta_tes.Detection.Number.{Numbers}
use egreen_quanta_tes.Detection.Models.{VerificationEvent, RuleConfig}
use egreen_quanta_tes.Detection.History.{
  HistoryContext, is_invalid, same_text, replay_finding, replay_with, count_failures, burst_with,
  burst_finding, latest, replay_of, has_signature, replay, window_of, threshold_of, failure_burst,
}

module _ (n : Numbers) (date decimal : ℕ → String) where
  any-keep :
      (p : VerificationEvent n → Bool) (events : List (VerificationEvent n))
      → any p events ≡ false
      → keep p events ≡ []
  any-keep p [] h = refl
  any-keep p (e ∷ events) h = ground (arith, any-keep p events)

  keep-any :
      (p : VerificationEvent n → Bool) (events : List (VerificationEvent n))
      → any p events ≡ true
      → (e : VerificationEvent n) × (latest n date decimal (keep p events) ≡ some e)
  keep-any p [] h = ground arith
  keep-any p (e ∷ events) h = elim (Bool-cases (p e)) [
    | inl y ↦ rw (keep-yes p e events y) (_, refl)
    | inr out ↦ rw (keep-no p e events out) (keep-any p events (ground arith))
  ]

  replay_finding-code :
      (prior : VerificationEvent n) (payload : Option String)
      → (replay_finding n date decimal prior payload).code ≡ "T14"
  replay_finding-code prior payload = elim (Bool-cases (same_text prior.payload_sha256 payload)) [
    | inl e ↦ rw e refl
    | inr e ↦ rw e refl
  ]

  opened :
      (events : List (VerificationEvent n)) (ctx : HistoryContext) (s : String)
      → ctx.signature_sha256 ≡ some s
      → is_set s ≡ true
      → replay n date decimal events ctx
        ≡ replay_of n date decimal
            (latest n date decimal (keep (has_signature n date decimal s) events))
            ctx.payload_sha256
  unfolding replay
  opened events ctx s given filled =
      ap (λ o. replay_with n date decimal events o ctx.payload_sha256) given ∙ rw filled refl

  -- A verification with a signature is reported as a replay, by one finding with the code T14, exactly
  -- when an earlier event has that signature.
  pub replay_iff :
      (events : List (VerificationEvent n)) (ctx : HistoryContext) (s : String)
      → ctx.signature_sha256 ≡ some s
      → is_set s ≡ true
      → ((any (has_signature n date decimal s) events ≡ true)
          ↔ ((f : CryptoFinding) × (replay n date decimal events ctx ≡ f ∷ []) × (f.code ≡ "T14")))
  replay_iff events ctx s given filled = (
    (λ h.
        let (prior, found) = keep-any (has_signature n date decimal s) events h in
        (
          replay_finding n date decimal prior ctx.payload_sha256,
          opened events ctx s given filled
              ∙ ap (λ o. replay_of n date decimal o ctx.payload_sha256) found,
          replay_finding-code prior ctx.payload_sha256,
        )),
    λ (f, reported, code). elim (Bool-cases (any (has_signature n date decimal s) events)) [
      | inl h ↦ h
      | inr h ↦
          elim (no_finding f (
            sym (
              opened events ctx s given filled
              ∙ ap (λ es. replay_of n date decimal (latest n date decimal es) ctx.payload_sha256)
                  (any-keep (has_signature n date decimal s) events h))
            ∙ reported)) [ ]
    ],
  )
    where
      no_finding : (f : CryptoFinding) → [] ≡ f ∷ [] → ⊥
      no_finding f e = ground arith

  -- A verification from a source reports a burst exactly when it is invalid and the invalid ones from
  -- that source in the window, with it, reach the threshold.
  pub failure_burst_iff :
      (events : List (VerificationEvent n)) (ctx : HistoryContext) (config : RuleConfig)
      (ip : String)
      → ctx.submitter_ip_hash ≡ some ip
      → is_set ip ≡ true
      → let count =
          count_failures n date decimal events ip ctx.now (window_of n date decimal config) in
        let threshold = threshold_of n date decimal config in
        (failure_burst n date decimal events ctx config
          ≡ burst_finding n date decimal count (window_of n date decimal config) threshold ∷ [])
        ↔ ((is_invalid ctx.verdict ≡ true) × (threshold ≤ count))
  unfolding failure_burst
  failure_burst_iff events ctx config ip given filled =
      let count =
        count_failures n date decimal events ip ctx.now (window_of n date decimal config) in
      let threshold = threshold_of n date decimal config in
      subst
        (λ o.
          (burst_with n date decimal events o ctx.verdict ctx.now config
            ≡ burst_finding n date decimal count (window_of n date decimal config) threshold ∷ [])
          ↔ ((is_invalid ctx.verdict ≡ true) × (threshold ≤ count)))
        (sym given)
        (
          (λ h.
              let (a, c) = both (is_invalid ctx.verdict) (is_set ip) (leb threshold count) _ h in
              (a, leb→le threshold count c)),
          λ (a, b). rw (a, filled, le→leb threshold count b) refl,
        )
    where
      both :
          (a b c : Bool) (f : CryptoFinding)
          → (if a && b && c then f ∷ [] else []) ≡ f ∷ []
          → (a ≡ true) × (c ≡ true)
      both a b c f h = (ground arith, ground arith)
