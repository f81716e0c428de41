-- ===== src/Quantum/Groups/Paths.antt =====
-- Paths to the roots of a union-find: their lengths, where they lead, and what a step of the path
-- halving and a union make of them.
use egreen_quanta_tes.Base.{
  ℕ, zero, suc, ◌==◌, ◌≤◌, ◌≡◌, refl, sym, ap, subst, ◌∙◌, ◌⊎◌, inl, inr, true, false, Bool-cases,
  arith,
}
use egreen_quanta_tes.Quantum.Numeric.{replaced}

-- A root is reached from `a` in at most `d` steps.
abbrev pub IsWithin : ℕ → (ℕ → ℕ) → ℕ → Type 0
IsWithin zero parent a = parent a ≡ a
IsWithin (suc d) parent a = (parent a ≡ a) ⊎ IsWithin d parent (parent a)

pub IsWithin-suc :
    (d : ℕ) (parent : ℕ → ℕ) (a : ℕ) → IsWithin d parent a → IsWithin (suc d) parent a
IsWithin-suc zero parent a h = inl h
IsWithin-suc (suc d) parent a (inl h) = inl h
IsWithin-suc (suc d) parent a (inr h) = inr (IsWithin-suc d parent (parent a) h)

pub IsWithin-le :
    (d e : ℕ) (parent : ℕ → ℕ) (a : ℕ) → d ≤ e → IsWithin d parent a → IsWithin e parent a
IsWithin-le d zero parent a l h =
    let e : d ≡ 0 = omega (arith, l) in subst (λ k. IsWithin k parent a) e h
IsWithin-le zero (suc e) parent a l h = inl h
IsWithin-le (suc d) (suc e) parent a l (inl h) = inl h
IsWithin-le (suc d) (suc e) parent a l (inr h) =
    inr (IsWithin-le d e parent (parent a) (omega (arith, l)) h)

pub same : (a b : ℕ) → (a == b) ≡ true → a ≡ b
same a b h = ground arith

pub replaced-same : (a v : ℕ) (f : ℕ → ℕ) → replaced a v f a ≡ v
replaced-same a v f = ground arith

pub replaced-other : (a v x : ℕ) (f : ℕ → ℕ) → (x == a) ≡ false → replaced a v f x ≡ f x
replaced-other a v x f h = rw h refl

pub IsWithin-next : (d : ℕ) (p : ℕ → ℕ) (y : ℕ) → IsWithin d p y → IsWithin d p (p y)
IsWithin-next zero p y h = ap p h
IsWithin-next (suc d) p y (inl h) = inl (ap p h)
IsWithin-next (suc d) p y (inr h) = IsWithin-suc d p (p y) h

-- A step of the path halving keeps the roots and makes no path longer.
module _ (p : ℕ → ℕ) where
  pub root-halved : (a x : ℕ) → p x ≡ x → replaced a (p (p a)) p x ≡ x
  root-halved a x h = elim (Bool-cases (x == a)) [
    | inl e ↦
        subst (λ b. replaced b (p (p b)) p x ≡ x) (same x a e)
          (replaced-same x (p (p x)) p ∙ ap p h ∙ h)
    | inr e ↦ replaced-other a (p (p a)) x p e ∙ h
  ]

  pub IsWithin-halved : (d a x : ℕ) → IsWithin d p x → IsWithin d (replaced a (p (p a)) p) x
  IsWithin-halved zero a x h = root-halved a x h
  IsWithin-halved (suc d) a x (inl h) = inl (root-halved a x h)
  IsWithin-halved (suc d) a x (inr h) = inr (elim (Bool-cases (x == a)) [
    | inl e ↦
        subst (λ b. IsWithin d (replaced b (p (p b)) p) (replaced b (p (p b)) p x)) (same x a e)
          (subst (IsWithin d (replaced x (p (p x)) p)) (sym (replaced-same x (p (p x)) p))
            (IsWithin-halved d x (p (p x)) (IsWithin-next d p (p x) h)))
    | inr e ↦
        subst (IsWithin d (replaced a (p (p a)) p)) (sym (replaced-other a (p (p a)) x p e))
          (IsWithin-halved d a (p x) h)
  ])

-- The path from `x` leads to the root `r`, in at most `d` steps.
abbrev pub Leads : ℕ → (ℕ → ℕ) → ℕ → ℕ → Type 0
Leads zero p x r = (x ≡ r) × (p r ≡ r)
Leads (suc d) p x r = ((x ≡ r) × (p r ≡ r)) ⊎ Leads d p (p x) r

Leads-suc : (d : ℕ) (p : ℕ → ℕ) (x r : ℕ) → Leads d p x r → Leads (suc d) p x r
Leads-suc zero p x r h = inl h
Leads-suc (suc d) p x r (inl h) = inl h
Leads-suc (suc d) p x r (inr h) = inr (Leads-suc d p (p x) r h)

at_root : (p : ℕ → ℕ) (x r : ℕ) → x ≡ r → p r ≡ r → p x ≡ r
at_root p x r e h = ap p e ∙ h

pub Leads-next : (d : ℕ) (p : ℕ → ℕ) (x r : ℕ) → Leads d p x r → Leads d p (p x) r
Leads-next zero p x r (e, h) = (at_root p x r e h, h)
Leads-next (suc d) p x r (inl (e, h)) = inl (at_root p x r e h, h)
Leads-next (suc d) p x r (inr h) = Leads-suc d p (p x) r h

pub root-Leads : (d : ℕ) (p : ℕ → ℕ) (x r : ℕ) → p x ≡ x → Leads d p x r → r ≡ x
root-Leads zero p x r h (e, k) = sym e
root-Leads (suc d) p x r h (inl (e, k)) = sym e
root-Leads (suc d) p x r h (inr k) = root-Leads d p x r h (subst (λ y. Leads d p y r) h k)

pub IsWithin-Leads : (d : ℕ) (p : ℕ → ℕ) (x : ℕ) → IsWithin d p x → (r : ℕ) × Leads d p x r
IsWithin-Leads zero p x h = (x, (refl, h))
IsWithin-Leads (suc d) p x (inl h) = (x, inl (refl, h))
IsWithin-Leads (suc d) p x (inr h) = let rest = IsWithin-Leads d p (p x) h in (rest.0, inr rest.1)

-- A step of the path halving leads every index where it was led.
module _ (p : ℕ → ℕ) (a r : ℕ) where
  pub Leads-halved : (d x : ℕ) → Leads d p x r → Leads d (replaced a (p (p a)) p) x r
  Leads-halved zero x (e, h) = (e, root-halved p a r h)
  Leads-halved (suc d) x (inl (e, h)) = inl (e, root-halved p a r h)
  Leads-halved (suc d) x (inr h) = inr (elim (Bool-cases (x == a)) [
    | inl e ↦
        subst (λ y. Leads d (replaced a (p (p a)) p) y r)
          (sym (
            subst (λ b. replaced b (p (p b)) p x ≡ p (p x)) (same x a e)
              (replaced-same x (p (p x)) p)))
          (Leads-halved d (p (p x)) (Leads-next d p (p x) r h))
    | inr e ↦
        subst (λ y. Leads d (replaced a (p (p a)) p) y r) (sym (replaced-other a (p (p a)) x p e))
          (Leads-halved d (p x) h)
  ])

-- A union leads the indices of the one root to the other, and the others where they were led.
module _ (p : ℕ → ℕ) (ri rj : ℕ) (hi : p ri ≡ ri) (hj : p rj ≡ rj) where
  pub root_of_joined : replaced ri rj p rj ≡ rj
  root_of_joined = elim (Bool-cases (rj == ri)) [
    | inl e ↦ subst (λ b. replaced b rj p rj ≡ rj) (same rj ri e) (replaced-same rj rj p)
    | inr e ↦ replaced-other ri rj rj p e ∙ hj
  ]

  joined_root : (d : ℕ) → Leads (suc d) (replaced ri rj p) ri rj
  joined_root zero = inr (replaced-same ri rj p, root_of_joined)
  joined_root (suc d) = Leads-suc (suc d) (replaced ri rj p) ri rj (joined_root d)

  pub Leads-joined : (d x : ℕ) → Leads d p x ri → Leads (suc d) (replaced ri rj p) x rj
  Leads-joined zero x (e, h) = subst (λ y. Leads 1 (replaced ri rj p) y rj) (sym e) (joined_root 0)
  Leads-joined (suc d) x (inl (e, h)) =
      subst (λ y. Leads (suc (suc d)) (replaced ri rj p) y rj) (sym e) (joined_root (suc d))
  Leads-joined (suc d) x (inr h) = elim (Bool-cases (x == ri)) [
    | inl e ↦
        subst (λ y. Leads (suc (suc d)) (replaced ri rj p) y rj) (sym (same x ri e))
          (joined_root (suc d))
    | inr e ↦ inr (
        subst (λ y. Leads (suc d) (replaced ri rj p) y rj) (sym (replaced-other ri rj x p e))
          (Leads-joined d (p x) h))
  ]

  pub Leads-apart : (d x s : ℕ) → (s == ri) ≡ false → Leads d p x s → Leads d (replaced ri rj p) x s
  Leads-apart zero x s n (e, h) = (e, replaced-other ri rj s p n ∙ h)
  Leads-apart (suc d) x s n (inl (e, h)) = inl (e, replaced-other ri rj s p n ∙ h)
  Leads-apart (suc d) x s n (inr h) = elim (Bool-cases (x == ri)) [
    | inl e ↦ elim (clash (root-Leads d p ri s hi (subst (λ y. Leads d p y s) (at_ri e) h))) [ ]
    | inr e ↦ inr (
        subst (λ y. Leads d (replaced ri rj p) y s) (sym (replaced-other ri rj x p e))
          (Leads-apart d (p x) s n h))
  ]
    where
      at_ri : (x == ri) ≡ true → p x ≡ ri
      at_ri e = at_root p x ri (same x ri e) hi

      clash : s ≡ ri → ⊥
      clash e = ground (arith, e, n)
