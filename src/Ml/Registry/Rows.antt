-- ===== src/Ml/Registry/Rows.antt =====
-- Facts about the rows of the table of models: ids that differ, and how many are active.
use egreen_quanta_tes.Base.{
  ℕ, suc, ◌≤◌, String, ◌≡◌, refl, sym, subst, ◌∙◌, Bool, true, false, Option, some, List, [], ◌∷◌,
  ◌++◌, inl, inr, All, All-append, All-keep, All-find, find, keep, any, keep-yes, keep-no,
  find-some, find-no, Bool-cases, str_eq, eq_iff, arith, if◌then◌else◌,
}
use egreen_quanta_tes.Ml.Registry.{MlModel, switch_off, switch_on}

-- How many rows are active, and how many have an id.
abbrev pub count_active : List MlModel → ℕ
count_active [] = 0
count_active (r ∷ rows) = let rest = count_active rows in if r.is_active then suc rest else rest

abbrev pub Distinct : List MlModel → Type 0
Distinct [] = Unit
Distinct (r ∷ rows) = All (λ s. str_eq s.id r.id ≡ false) rows × Distinct rows

pub Distinct-keep :
    (p : MlModel → Bool) (rows : List MlModel) → Distinct rows → Distinct (keep p rows)
Distinct-keep p [] d = tt
Distinct-keep p (r ∷ rows) d = elim (Bool-cases (p r)) [
  | inl e ↦
      rw (keep-yes p r rows e)
        (All-keep p (λ s. str_eq s.id r.id ≡ false) rows d.0, Distinct-keep p rows d.1)
  | inr e ↦ rw (keep-no p r rows e) (Distinct-keep p rows d.1)
]

pub count-keep :
    (p : MlModel → Bool) (rows : List MlModel) → count_active (keep p rows) ≤ count_active rows
count-keep p [] = omega arith
count-keep p (r ∷ rows) = ground (arith, count-keep p rows)

pub count-append :
    (rows : List MlModel) (r : MlModel)
    → r.is_active ≡ false
    → count_active (rows ++ r ∷ []) ≡ count_active rows
count-append [] r e = rw e refl
count-append (s ∷ rows) r e = ground (arith, count-append rows r e)

pub Distinct-append :
    (rows : List MlModel) (r : MlModel)
    → any (λ s. str_eq s.id r.id) rows ≡ false
    → Distinct rows
    → Distinct (rows ++ r ∷ [])
Distinct-append [] r out d = (tt, tt)
Distinct-append (s ∷ rows) r out d = (
  All-append (λ t. str_eq t.id s.id ≡ false) rows (r ∷ []) d.0
      (ground (arith, eq_iff s.id r.id, eq_iff r.id s.id), tt),
  Distinct-append rows r (ground arith) d.1,
)

-- The rows of one id have one artifact.
pub same_artifact :
    (p : MlModel → Bool) (rows : List MlModel) (r : MlModel)
    → Distinct rows
    → find p rows ≡ some r
    → All (λ s. str_eq r.id s.id ≡ true → s.artifact_path ≡ r.artifact_path) rows
same_artifact p [] r d h = tt
same_artifact p (s ∷ rows) r d h = elim (Bool-cases (p s)) [
  | inl y ↦
      subst (λ t. All (λ s. str_eq t.id s.id ≡ true → s.artifact_path ≡ t.artifact_path) (s ∷ rows))
        (find-some p s r rows y h) ((λ e. refl), others s.id s.artifact_path rows d.0)
  | inr out ↦
      let later = sym (find-no p s rows out) ∙ h in
      (
        (λ e.
            elim (clash r.id s.id e
              (All-find p (λ t. str_eq t.id s.id ≡ false) rows r later d.0).0) [ ]),
        same_artifact p rows r d.1 later,
      )
]
  where
    clash : (a b : String) → str_eq a b ≡ true → str_eq a b ≡ false → ⊥
    clash a b e f = ground arith

    others :
        (id path : String) (ts : List MlModel)
        → All (λ t. str_eq t.id id ≡ false) ts
        → All (λ t. str_eq id t.id ≡ true → t.artifact_path ≡ path) ts
    others id path [] a = tt
    others id path (t ∷ ts) a = ((λ e. elim (apart id t.id e a.0) [ ]), others id path ts a.1)
      where
        apart : (i j : String) → str_eq i j ≡ true → str_eq j i ≡ false → ⊥
        apart i j e f = ground (arith, eq_iff i j, eq_iff j i)

module _ {ℓ} {T : Type ℓ} (version : ℕ) (read : String → Option (ℕ × T)) where
  All-on :
      (key id : String) (rows : List MlModel)
      → All (λ s. str_eq s.id key ≡ false) rows
      → All (λ s. str_eq s.id key ≡ false) (switch_on version read id rows)
  All-on key id [] h = tt
  All-on key id (r ∷ rows) h = (h.0, All-on key id rows h.1)

  pub Distinct-on :
      (id : String) (rows : List MlModel)
      → Distinct rows
      → Distinct (switch_on version read id rows)
  Distinct-on id [] d = tt
  Distinct-on id (r ∷ rows) d = (All-on r.id id rows d.0, Distinct-on id rows d.1)

  All-off :
      (key : String) (rows : List MlModel)
      → All (λ s. str_eq s.id key ≡ false) rows
      → All (λ s. str_eq s.id key ≡ false) (switch_off version read rows)
  All-off key [] h = tt
  All-off key (r ∷ rows) h = (h.0, All-off key rows h.1)

  pub Distinct-off : (rows : List MlModel) → Distinct rows → Distinct (switch_off version read rows)
  Distinct-off [] d = tt
  Distinct-off (r ∷ rows) d = (All-off r.id rows d.0, Distinct-off rows d.1)

  pub count-off : (rows : List MlModel) → count_active (switch_off version read rows) ≡ 0
  count-off [] = refl
  count-off (r ∷ rows) = count-off rows

  count-none :
      (id : String) (rows : List MlModel)
      → All (λ s. str_eq s.id id ≡ false) rows
      → count_active (switch_on version read id rows) ≡ 0
  count-none id [] h = refl
  count-none id (r ∷ rows) h = rw h.0 (count-none id rows h.1)

  pub count-on :
      (id : String) (rows : List MlModel)
      → Distinct rows
      → count_active (switch_on version read id rows) ≤ 1
  count-on id [] d = omega arith
  count-on id (r ∷ rows) d = elim (Bool-cases (str_eq r.id id)) [
    | inl e ↦ rw e (
        omega (
          arith,
          count-none id rows
              (subst (λ k. All (λ s. str_eq s.id k ≡ false) rows) ((eq_iff r.id id).0 e) d.0),
        ))
    | inr e ↦ rw e (count-on id rows d.1)
  ]
