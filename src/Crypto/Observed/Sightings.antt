-- ===== src/Crypto/Observed/Sightings.antt =====
-- How often a certificate was seen.
use egreen_quanta_tes.Base.{
  ℕ, ◌+◌, String, ◌≡◌, refl, ap, ◌∙◌, Bool, true, false, not, ◌&&◌, Option, none, some, List, [],
  ◌∷◌, arith, str_eq, eq_iff, eq_refl, any, keep, find-append, find-append_other, Option-cases, inl,
  inr,
}
use egreen_quanta_tes.Crypto.Types.{X509}
use egreen_quanta_tes.Crypto.Path.{spki_sha256, cert_info}
use egreen_quanta_tes.Crypto.WeakAlgo.Policy.{is_empty}
use egreen_quanta_tes.Crypto.Observed.{
  Certificate, by_fingerprint, touch, is_other_identity, reuse_findings, fingerprint, new_row,
  persist_certificate,
}

abbrev pub count_of : Option Certificate → ℕ
count_of none = 0
count_of (some r) = r.times_seen

-- The sightings that the table holds for a fingerprint.
abbrev pub sightings : String → List Certificate → ℕ
sightings fp rows = count_of (by_fingerprint fp rows)

abbrev pub is_absent : Option Certificate → Bool
is_absent none = true
is_absent (some r) = false

sightings-touch :
    (now : ℕ) (fp : String) (row : Certificate) (rows : List Certificate)
    → by_fingerprint fp rows ≡ some row
    → sightings fp (touch now fp rows) ≡ sightings fp rows + 1
unfolding touch
sightings-touch now fp row [] e = cc
sightings-touch now fp row (r ∷ rs) e = ground (arith, sightings-touch now fp row rs)

sightings-touch_other :
    (now : ℕ) (fp other : String) (rows : List Certificate)
    → str_eq fp other ≡ false
    → sightings other (touch now fp rows) ≡ sightings other rows
unfolding touch
sightings-touch_other now fp other [] e = refl
sightings-touch_other now fp other (r ∷ rs) e =
    ground (arith, sightings-touch_other now fp other rs e, eq_iff r.fingerprint_sha256 fp)

is_empty-reuse :
    (p : Certificate → Bool) (rows : List Certificate)
    → not (is_empty (reuse_findings (keep p rows))) ≡ any p rows
is_empty-reuse p [] = refl
is_empty-reuse p (r ∷ rs) = ground (arith, is_empty-reuse p rs)

module _ (x : X509) (now : ℕ) where
  -- Each call of `_persist_certificate` adds one to the sightings of the certificate's fingerprint and
  -- changes those of no other; and it reports a reused key exactly when the fingerprint is new and
  -- some row has the same key under another subject.
  pub persist_certificate-sightings :
      (c : x.Cert) (rows : List Certificate) (other : String)
      → let (findings, rows') = persist_certificate x now c rows in
        let fp = fingerprint x now c in
        (sightings fp rows' ≡ sightings fp rows + 1)
        × (str_eq fp other ≡ false → sightings other rows' ≡ sightings other rows)
        × (not (is_empty findings) ≡ (
            is_absent (by_fingerprint fp rows)
            && any (is_other_identity (spki_sha256 x c) (cert_info x c).subject) rows))
  unfolding persist_certificate new_row fingerprint
  persist_certificate-sightings c rows other =
      let fp = fingerprint x now c in
      elim (Option-cases (by_fingerprint fp rows)) [
        | inr (row, e) ↦
            rw (e, persist_certificate)
              (
                sightings-touch now fp row rows e ∙ ap (λ o. count_of o + 1) e,
                (λ d. sightings-touch_other now fp other rows d),
                refl,
              )
        | inl new ↦
            rw (new, persist_certificate)
              (
                ap count_of (
                    find-append (λ r. str_eq r.fingerprint_sha256 fp) rows (new_row x now c) new
                      (eq_refl fp)),
                (λ d. ap count_of (
                    find-append_other (λ r. str_eq r.fingerprint_sha256 other) rows
                      (new_row x now c) d)),
                is_empty-reuse (is_other_identity (spki_sha256 x c) (cert_info x c).subject) rows,
              )
      ]
