-- ===== src/Quantum/Groups/Unions.antt =====
-- A union ends within its fuel, joins its two indices, and keeps together what is together.
use egreen_quanta_tes.Base.{
  ℕ, zero, suc, ◌==◌, ◌<◌, ◌≡◌, sym, subst, ◌∙◌, inl, inr, true, false, Bool-cases, Option, some,
  arith, if◌then◌else◌,
}
use egreen_quanta_tes.Quantum.Numeric.{replaced}
use egreen_quanta_tes.Quantum.Groups.{find_root, union}
use egreen_quanta_tes.Quantum.Groups.Paths.{
  IsWithin, IsWithin-le, same, replaced-same, replaced-other, Leads, IsWithin-Leads, root_of_joined,
  Leads-joined, Leads-apart,
}
use egreen_quanta_tes.Quantum.Groups.Ends.{Finds, find_root-Finds}

-- A union of two roots makes no path longer by more than one step.
module _ (p : ℕ → ℕ) (ri rj : ℕ) (hi : p ri ≡ ri) (hj : p rj ≡ rj) where
  joined_at : (d x : ℕ) → (x == ri) ≡ true → IsWithin (suc d) (replaced ri rj p) x
  joined_at d x e = inr (
      IsWithin-le 0 d (replaced ri rj p) _ (omega arith) (
        subst (λ b. replaced ri rj p (replaced ri rj p b) ≡ replaced ri rj p b) (sym (same x ri e))
          (subst (λ b. replaced ri rj p b ≡ b) (sym (replaced-same ri rj p))
            (root_of_joined p ri rj hi hj))))

  root_outside : (x : ℕ) → p x ≡ x → (x == ri) ≡ false → replaced ri rj p x ≡ x
  root_outside x h e = replaced-other ri rj x p e ∙ h

  IsWithin-joined : (d x : ℕ) → IsWithin d p x → IsWithin (suc d) (replaced ri rj p) x
  IsWithin-joined zero x h = elim (Bool-cases (x == ri)) [
    | inl e ↦ joined_at zero x e
    | inr e ↦ inl (root_outside x h e)
  ]
  IsWithin-joined (suc d) x (inl h) = elim (Bool-cases (x == ri)) [
    | inl e ↦ joined_at (suc d) x e
    | inr e ↦ inl (root_outside x h e)
  ]
  IsWithin-joined (suc d) x (inr h) = elim (Bool-cases (x == ri)) [
    | inl e ↦ joined_at (suc d) x e
    | inr e ↦ inr (
        subst (IsWithin (suc d) (replaced ri rj p)) (sym (replaced-other ri rj x p e))
          (IsWithin-joined d (p x) h))
  ]

abbrev pub AllWithin : ℕ → (ℕ → ℕ) → Type 0
AllWithin d p = (x : ℕ) → IsWithin d p x

-- Two indices that lead to one root.
pub record IsJoined (p : ℕ → ℕ) (x y : ℕ) : Type 0 where
  pub root : ℕ
  pub left : ℕ
  pub right : ℕ
  pub from_left : Leads left p x root
  pub from_right : Leads right p y root

abbrev pub Keeps : (ℕ → ℕ) → (ℕ → ℕ) → Type 0
Keeps p q = (x y : ℕ) → IsJoined p x y → IsJoined q x y

-- `find` keeps what is together.
Finds-Keeps : (p : ℕ → ℕ) (a : ℕ) (o : Option (ℕ × (ℕ → ℕ))) (f : Finds p a o) → Keeps p f.1
Finds-Keeps p a o f x y h = record {
  root = h.root;
  left = h.left;
  right = h.right;
  from_left = f.6 h.left x h.root h.from_left;
  from_right = f.6 h.right y h.root h.from_right;
}

module _ (p : ℕ → ℕ) (ri rj : ℕ) (hi : p ri ≡ ri) (hj : p rj ≡ rj) where
  -- Where a root leads after the union.
  after : ℕ → ℕ
  after s = if s == ri then rj else s

  Leads-after : (d x s : ℕ) → Leads d p x s → (e : ℕ) × Leads e (replaced ri rj p) x (after s)
  unfolding after
  Leads-after d x s h = elim (Bool-cases (s == ri)) [
    | inl e ↦ rw e (suc d, Leads-joined p ri rj hi hj d x (subst (Leads d p x) (same s ri e) h))
    | inr e ↦ rw e (d, Leads-apart p ri rj hi hj d x s e h)
  ]

  Keeps-joined : Keeps p (replaced ri rj p)
  Keeps-joined x y h =
      let l = Leads-after h.left x h.root h.from_left in
      let r = Leads-after h.right y h.root h.from_right in
      record { root = after h.root; left = l.0; right = r.0; from_left = l.1; from_right = r.1 }

  IsJoined-replaced :
      (d e x y : ℕ) → Leads d p x ri → Leads e p y rj → IsJoined (replaced ri rj p) x y
  unfolding after
  IsJoined-replaced d e x y hx hy =
      let r = Leads-after e y rj hy in
      record {
        root = rj;
        left = suc d;
        right = r.0;
        from_left = Leads-joined p ri rj hi hj d x hx;
        from_right = subst (Leads r.0 (replaced ri rj p) y) same_root r.1;
      }
    where
      same_root : after rj ≡ rj
      same_root = ground arith

-- What a loop over parents gives: no path longer than d, and what was together is.
abbrev pub Returns : ℕ → (ℕ → ℕ) → Option (ℕ → ℕ) → Type 0
Returns d p o = (q : ℕ → ℕ) × (o ≡ some q) × AllWithin d q × Keeps p q

abbrev pub Joins : ℕ → ℕ → ℕ → (ℕ → ℕ) → Option (ℕ → ℕ) → Type 0
Joins d i j p o = (q : ℕ → ℕ) × (o ≡ some q) × AllWithin d q × Keeps p q × IsJoined q i j

union-some :
    (fuel i j : ℕ) (p : ℕ → ℕ) (rj ri : ℕ) (q q' : ℕ → ℕ)
    → find_root fuel p j ≡ some (rj, q)
    → find_root fuel q i ≡ some (ri, q')
    → union fuel i j p ≡ some (replaced ri rj q')
unfolding union
union-some fuel i j p rj ri q q' e e' = cc

pub union-Joins :
    (fuel d i j : ℕ) (p : ℕ → ℕ) → d < fuel → AllWithin d p → Joins (suc d) i j p (union fuel i j p)
union-Joins fuel d i j p l h =
    let fj = find_root-Finds fuel d p j l (h j) in
    let hq = λ (x : ℕ). fj.4 d x (h x) in
    let fi = find_root-Finds fuel d fj.1 i l (hq i) in
    let root_j = fi.5 fj.0 fj.3 in
    let to_i = IsWithin-Leads d fj.1 i (hq i) in
    let to_j = IsWithin-Leads d p j (h j) in
    let i_leads = fi.6 d i fi.0 (subst (Leads d fj.1 i) (fi.7 d to_i.0 to_i.1) to_i.1) in
    let j_leads =
      fi.6 d j fj.0 (fj.6 d j fj.0 (subst (Leads d p j) (fj.7 d to_j.0 to_j.1) to_j.1)) in
    (
      replaced fi.0 fj.0 fi.1,
      union-some fuel i j p fj.0 fi.0 fj.1 fi.1 fj.2 fi.2,
      λ x. IsWithin-joined fi.1 fi.0 fj.0 fi.3 root_j d x (fi.4 d x (hq x)),
      λ x y k.
          Keeps-joined fi.1 fi.0 fj.0 fi.3 root_j x y
            (Finds-Keeps fj.1 i _ fi x y (Finds-Keeps p j _ fj x y k)),
      IsJoined-replaced fi.1 fi.0 fj.0 fi.3 root_j d d i j i_leads j_leads,
    )
