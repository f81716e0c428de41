-- ===== src/Crypto/TrustStore/Keys.antt =====
-- The keys of the trust anchors: distinct, readable, and out of use once switched off or deleted.
use egreen_quanta_tes.Base.{
  String, ◌≡◌, refl, sym, ap, ◌∙◌, Bool, true, false, not, Option, none, some, List, [], ◌∷◌, ◌++◌,
  ◌⊎◌, inl, inr, All, All-append, All-keep, All-find, keep-yes, keep-no, Bool-cases, find, keep,
  str_eq, eq_iff, arith, eq_refl, subst, if◌then◌else◌, find-some, find-no,
}
use egreen_quanta_tes.Crypto.Types.{X509}
use egreen_quanta_tes.Crypto.Errors.{CryptoError, ok-value}
use egreen_quanta_tes.Crypto.Path.{spki_sha256}
use egreen_quanta_tes.Crypto.TrustStore.{
  TrustAnchor, has_id, has_key, with_enabled, set_where, set_found, set_anchor_enabled,
  delete_found_anchor, load_enabled, delete_anchor, enabled_anchor_certs, new_anchor, add_unless,
  add_loaded, add_anchor, Step, added, switched, deleted, Reach, empty, step,
}

-- No two rows have one key.
abbrev pub Distinct : List TrustAnchor → Type 0
Distinct [] = Unit
Distinct (a ∷ rows) = All (λ r. str_eq a.spki r.spki ≡ false) rows × Distinct rows

other_than :
    (key : String) (rows : List TrustAnchor)
    → find (has_key key) rows ≡ none
    → All (λ r. has_key key r ≡ false) rows
other_than key [] h = tt
other_than key (a ∷ rows) h = (ground arith, other_than key rows (ground arith))

Distinct-append :
    (rows : List TrustAnchor) (a : TrustAnchor)
    → Distinct rows
    → All (λ r. has_key a.spki r ≡ false) rows
    → Distinct (rows ++ a ∷ [])
Distinct-append [] a d o = (tt, tt)
Distinct-append (r ∷ rows) a d o = (
  All-append (λ s. str_eq r.spki s.spki ≡ false) rows (a ∷ []) d.0 (o.0, tt),
  Distinct-append rows a d.1 o.1,
)

All-set :
    (key id : String) (enabled : Bool) (rows : List TrustAnchor)
    → All (λ r. str_eq key r.spki ≡ false) rows
    → All (λ r. str_eq key r.spki ≡ false) (set_where id enabled rows)
All-set key id enabled [] h = tt
All-set key id enabled (r ∷ rows) h = (h.0, All-set key id enabled rows h.1)

Distinct-set :
    (id : String) (enabled : Bool) (rows : List TrustAnchor)
    → Distinct rows
    → Distinct (set_where id enabled rows)
Distinct-set id enabled [] d = tt
Distinct-set id enabled (r ∷ rows) d =
    (All-set r.spki id enabled rows d.0, Distinct-set id enabled rows d.1)

Distinct-keep :
    (p : TrustAnchor → Bool) (rows : List TrustAnchor) → Distinct rows → Distinct (keep p rows)
Distinct-keep p [] d = tt
Distinct-keep p (r ∷ rows) d = elim (Bool-cases (p r)) [
  | inl e ↦
      rw (keep-yes p r rows e)
        (All-keep p (λ s. str_eq r.spki s.spki ≡ false) rows d.0, Distinct-keep p rows d.1)
  | inr e ↦ rw (keep-no p r rows e) (Distinct-keep p rows d.1)
]

-- What a row must satisfy for the key not to be in use, and that it does after the two operations.
abbrev IsOut : String → TrustAnchor → Type 0
IsOut key r = r.enabled ≡ true → str_eq r.spki key ≡ false

out-later :
    (key id : String) (rows : List TrustAnchor)
    → All (λ s. str_eq key s.spki ≡ false) rows
    → All (λ s. str_eq s.spki key ≡ false) rows
out-later key id [] h = tt
out-later key id (s ∷ rows) h =
    (ground (arith, eq_iff key s.spki, eq_iff s.spki key), out-later key id rows h.1)

All-IsOut :
    (key id : String) (rows : List TrustAnchor)
    → All (λ s. str_eq s.spki key ≡ false) rows
    → All (IsOut key) (set_where id false rows)
All-IsOut key id [] h = tt
All-IsOut key id (s ∷ rows) h = ((λ e. h.0), All-IsOut key id rows h.1)

off-head :
    (r : TrustAnchor) (rows : List TrustAnchor)
    → All (λ s. str_eq r.spki s.spki ≡ false) rows
    → All (IsOut r.spki) (set_where r.id false (r ∷ rows))
off-head r rows h = (
  (λ e. elim (true_false _ (eq_refl r.id) e) [ ]),
  All-IsOut r.spki r.id rows (out-later r.spki r.id rows h),
)
  where
    true_false : (b : Bool) → b ≡ true → (if b then false else r.enabled) ≡ true → ⊥
    true_false b h e = ground arith

off-set :
    (id : String) (rows : List TrustAnchor) (a : TrustAnchor)
    → Distinct rows
    → find (has_id id) rows ≡ some a
    → All (IsOut a.spki) (set_where a.id false rows)
off-set id [] a d h = tt
off-set id (r ∷ rows) a d h = elim (Bool-cases (has_id id r)) [
  | inl e ↦
      subst (λ s. All (IsOut s.spki) (set_where s.id false (r ∷ rows)))
        (find-some (has_id id) r a rows e h) (off-head r rows d.0)
  | inr e ↦
      let later = sym (find-no (has_id id) r rows e) ∙ h in
      (
        (λ on. (All-find (has_id id) (λ s. str_eq r.spki s.spki ≡ false) rows a later d.0).0),
        off-set id rows a d.1 later,
      )
]

gone-head :
    (r : TrustAnchor) (rows : List TrustAnchor)
    → All (λ s. str_eq r.spki s.spki ≡ false) rows
    → All (λ s. str_eq s.spki r.spki ≡ false) (keep (λ s. not (has_id r.id s)) (r ∷ rows))
gone-head r rows h = rw (keep-no (λ s. not (has_id r.id s)) r rows (ap not (eq_refl r.id))) (
    All-keep (λ s. not (has_id r.id s)) (λ s. str_eq s.spki r.spki ≡ false) rows
      (out-later r.spki r.id rows h))

gone-keep :
    (id : String) (rows : List TrustAnchor) (a : TrustAnchor)
    → Distinct rows
    → find (has_id id) rows ≡ some a
    → All (λ s. str_eq s.spki a.spki ≡ false) (keep (λ s. not (has_id a.id s)) rows)
gone-keep id [] a d h = tt
gone-keep id (r ∷ rows) a d h = elim (Bool-cases (has_id id r)) [
  | inl e ↦
      subst
        (λ s. All (λ t. str_eq t.spki s.spki ≡ false) (keep (λ t. not (has_id s.id t)) (r ∷ rows)))
        (find-some (has_id id) r a rows e h) (gone-head r rows d.0)
  | inr e ↦
      let later = sym (find-no (has_id id) r rows e) ∙ h in
      both r (All-find (has_id id) (λ s. str_eq r.spki s.spki ≡ false) rows a later d.0).0
        (gone-keep id rows a d.1 later)
]
  where
    both :
        (r : TrustAnchor)
        → str_eq r.spki a.spki ≡ false
        → All (λ s. str_eq s.spki a.spki ≡ false) (keep (λ s. not (has_id a.id s)) rows)
        → All (λ s. str_eq s.spki a.spki ≡ false) (keep (λ s. not (has_id a.id s)) (r ∷ rows))
    both r e h = elim (Bool-cases (not (has_id a.id r))) [
      | inl y ↦ rw (keep-yes (λ s. not (has_id a.id s)) r rows y) (e, h)
      | inr n ↦ rw (keep-no (λ s. not (has_id a.id s)) r rows n) h
    ]

module _ (x : X509) (load : String → CryptoError ⊎ x.Cert) where
  -- The stored PEM text loads to a certificate with the stored key.
  abbrev pub IsStored : TrustAnchor → Type 0
  IsStored r = (c : x.Cert) × (load r.pem ≡ inr c) × (spki_sha256 x c ≡ r.spki)

  pub record IsSound (rows : List TrustAnchor) : Type 0 where
    pub distinct : Distinct rows
    pub stored : All IsStored rows

  All-IsStored-set :
      (id : String) (enabled : Bool) (rows : List TrustAnchor)
      → All IsStored rows
      → All IsStored (set_where id enabled rows)
  All-IsStored-set id enabled [] h = tt
  All-IsStored-set id enabled (r ∷ rows) h = (h.0, All-IsStored-set id enabled rows h.1)

  module _ (round_trip : (c : x.Cert) → load (x.pem c) ≡ inr c) where
    IsSound-add :
        (id name by : String) (cert : CryptoError ⊎ x.Cert) (rows rows' : List TrustAnchor)
        (a : TrustAnchor)
        → add_loaded x load cert id name by rows ≡ inr (a, rows')
        → IsSound rows
        → IsSound rows'
    IsSound-add id name by (inl e) rows rows' a h s = ground arith
    IsSound-add id name by (inr cert) rows rows' a h s =
        unless (find (has_key (spki_sha256 x cert)) rows) refl h
      where
        unless :
            (dupe : Option TrustAnchor)
            → find (has_key (spki_sha256 x cert)) rows ≡ dupe
            → add_unless x load dupe (new_anchor x load id name cert by) rows ≡ inr (a, rows')
            → IsSound rows'
        unless (some d) e h = ground arith
        unless none e h =
            let new = new_anchor x load id name cert by in
            subst IsSound (ap (λ p. p.1) (ok-value _ _ h)) (record {
              distinct = Distinct-append rows new s.distinct (other_than _ rows e);
              stored =
                  All-append IsStored rows (new ∷ []) s.stored ((cert, round_trip cert, refl), tt);
            })

    IsSound-set :
        (enabled : Bool) (found : Option TrustAnchor) (rows rows' : List TrustAnchor)
        (a : TrustAnchor)
        → set_found found enabled rows ≡ inr (a, rows')
        → IsSound rows
        → IsSound rows'
    IsSound-set enabled none rows rows' a h s = ground arith
    IsSound-set enabled (some b) rows rows' a h s =
        subst IsSound (ap (λ p. p.1) (ok-value _ _ h)) (record {
          distinct = Distinct-set b.id enabled rows s.distinct;
          stored = All-IsStored-set b.id enabled rows s.stored;
        })

    IsSound-delete :
        (found : Option TrustAnchor) (rows rows' : List TrustAnchor)
        → delete_found_anchor found rows ≡ inr rows'
        → IsSound rows
        → IsSound rows'
    IsSound-delete none rows rows' h s = ground arith
    IsSound-delete (some b) rows rows' h s = subst IsSound (ok-value _ _ h) (record {
      distinct = Distinct-keep (λ r. not (has_id b.id r)) rows s.distinct;
      stored = All-keep (λ r. not (has_id b.id r)) IsStored rows s.stored;
    })

    IsSound-Step :
        (rows rows' : List TrustAnchor) → Step x load rows rows' → IsSound rows → IsSound rows'
    unfolding add_anchor set_anchor_enabled delete_anchor
    IsSound-Step rows rows' (added id name pem by _ a _ h) s =
        IsSound-add id name by (load pem) rows rows' a h s
    IsSound-Step rows rows' (switched id enabled _ a _ h) s =
        IsSound-set enabled (find (has_id id) rows) rows rows' a h s
    IsSound-Step rows rows' (deleted id _ _ h) s =
        IsSound-delete (find (has_id id) rows) rows rows' h s

    -- In every table that the calls of the service reach from an empty one, no two anchors have one key,
    -- and each stored text loads to a certificate with the stored key, when the texts the code writes
    -- load to the certificates they were written from.
    pub Reach-IsSound : (rows : List TrustAnchor) → Reach x load rows → IsSound rows
    Reach-IsSound rows empty = record { distinct = tt; stored = tt }
    Reach-IsSound rows (step before _ r s) = IsSound-Step before rows s (Reach-IsSound before r)

    certs_out :
        (key : String) (rows : List TrustAnchor)
        → All IsStored rows
        → All (IsOut key) rows
        → (certs : List x.Cert) × (enabled_anchor_certs x load rows ≡ inr certs)
          × All (λ c. str_eq (spki_sha256 x c) key ≡ false) certs
    certs_out key [] s o = ([], refl, tt)
    certs_out key (r ∷ rows) s o =
        let (certs, loads, out) = certs_out key rows s.1 o.1 in
        elim (Bool-cases r.enabled) [
          | inl on ↦ (
            s.0.0 ∷ certs,
            ap (λ b. load_enabled x load b (load r.pem) (enabled_anchor_certs x load rows)) on
                ∙ ap (λ c. load_enabled x load true c (enabled_anchor_certs x load rows)) s.0.1
                ∙ ap (λ cs. load_enabled x load true (inr s.0.0) cs) loads,
            (ap (λ k. str_eq k key) s.0.2 ∙ o.0 on, out),
          )
          | inr off ↦ (
            certs,
            ap (λ b. load_enabled x load b (load r.pem) (enabled_anchor_certs x load rows)) off
                ∙ loads,
            out,
          )
        ]

    -- Once an anchor of such a table is switched off or deleted, the enabled anchors load, and none of
    -- them has its key.
    pub enabled_anchor_certs-out :
        (rows rows' : List TrustAnchor) (id : String) (a : TrustAnchor)
        → Reach x load rows
        → find (has_id id) rows ≡ some a
        → (set_anchor_enabled id false rows ≡ inr (with_enabled false a, rows'))
          ⊎ (delete_anchor id rows ≡ inr rows')
        → (certs : List x.Cert) × (enabled_anchor_certs x load rows' ≡ inr certs)
          × All (λ c. str_eq (spki_sha256 x c) a.spki ≡ false) certs
    unfolding set_anchor_enabled delete_anchor
    enabled_anchor_certs-out rows rows' id a r found h =
        let s = Reach-IsSound rows r in
        elim h [
          | inl e ↦
              let same = ok-value _ _ (sym (ap (λ f. set_found f false rows) found) ∙ e) in
              out_of (set_where a.id false rows) rows' (ap (λ p. p.1) same)
                (All-IsStored-set a.id false rows s.stored) (off-set id rows a s.distinct found)
          | inr e ↦
              out_of (keep (λ t. not (has_id a.id t)) rows) rows'
                (ok-value _ _ (sym (ap (λ f. delete_found_anchor f rows) found) ∙ e))
                (All-keep (λ t. not (has_id a.id t)) IsStored rows s.stored)
                (All-weaken a.spki _ (gone-keep id rows a s.distinct found))
        ]
      where
        All-weaken :
            (key : String) (rows : List TrustAnchor)
            → All (λ t. str_eq t.spki key ≡ false) rows
            → All (IsOut key) rows
        All-weaken key [] h = tt
        All-weaken key (t ∷ rows) h = ((λ e. h.0), All-weaken key rows h.1)

        out_of :
            (now : List TrustAnchor) (after : List TrustAnchor)
            → now ≡ after
            → All IsStored now
            → All (IsOut a.spki) now
            → (certs : List x.Cert) × (enabled_anchor_certs x load after ≡ inr certs)
              × All (λ c. str_eq (spki_sha256 x c) a.spki ≡ false) certs
        out_of now after e st o =
            subst
              (λ t.
                (certs : List x.Cert) × (enabled_anchor_certs x load t ≡ inr certs)
                × All (λ c. str_eq (spki_sha256 x c) a.spki ≡ false) certs)
              e (certs_out a.spki now st o)
