-- ===== src/Quantum/Groups/Ends.antt =====
-- `find` ends within its fuel, and what it gives.
use egreen_quanta_tes.Base.{
  ℕ, zero, suc, ◌==◌, ◌<◌, ◌≡◌, refl, sym, subst, inl, inr, true, false, Bool-cases, Option, some,
  arith,
}
use egreen_quanta_tes.Quantum.Numeric.{replaced}
use egreen_quanta_tes.Quantum.Groups.{find_root}
use egreen_quanta_tes.Quantum.Groups.Paths.{
  IsWithin, IsWithin-next, IsWithin-halved, same, replaced-same, root-halved, Leads, Leads-next,
  Leads-halved, root-Leads,
}

-- What a call of `find` gives: a root, and parents in which no path is longer.
-- It leads every index where it was led, and where `a` was led is that root.
abbrev pub Finds : (ℕ → ℕ) → ℕ → Option (ℕ × (ℕ → ℕ)) → Type 0
Finds p a o =
    (r : ℕ) × (q : ℕ → ℕ) × (o ≡ some (r, q))
    × (q r ≡ r)
    × ((d x : ℕ) → IsWithin d p x → IsWithin d q x)
    × ((x : ℕ) → p x ≡ x → q x ≡ x)
    × ((d x s : ℕ) → Leads d p x s → Leads d q x s)
    × ((d s : ℕ) → Leads d p a s → s ≡ r)

not_root : (a b : ℕ) → a ≡ b → (a == b) ≡ false → ⊥
not_root a b h e = ground (arith, h, e)

pub find_root-yes :
    (fuel : ℕ) (p : ℕ → ℕ) (a : ℕ) → (p a == a) ≡ true → find_root (suc fuel) p a ≡ some (a, p)
unfolding find_root
find_root-yes fuel p a e = rw (e, find_root) refl

pub find_root-no :
    (fuel : ℕ) (p : ℕ → ℕ) (a : ℕ)
    → (p a == a) ≡ false
    → find_root (suc fuel) p a ≡ find_root fuel (replaced a (p (p a)) p) (p (p a))
unfolding find_root
find_root-no fuel p a e = rw (e, find_root) refl

Finds-halved :
    (p : ℕ → ℕ) (a : ℕ) (o : Option (ℕ × (ℕ → ℕ)))
    → Finds (replaced a (p (p a)) p) (p (p a)) o
    → Finds p a o
Finds-halved p a o (r, q, e, root, keep, roots, leads, at) = (
  r,
  q,
  e,
  root,
  λ d x w. keep d x (IsWithin-halved p d a x w),
  λ x w. roots x (root-halved p a x w),
  λ d x s w. leads d x s (Leads-halved p a s d x w),
  λ d s w. at d s (
      subst (λ y. Leads d (replaced a (p (p a)) p) y s) (replaced-same a (p (p a)) p)
        (Leads-next d (replaced a (p (p a)) p) a s (Leads-halved p a s d a w))),
)

find_root-Finds_far :
    (fuel : ℕ)
    (rec : (d : ℕ) (p : ℕ → ℕ) (a : ℕ) → d < fuel → IsWithin d p a → Finds p a (find_root fuel p a))
    (d : ℕ) (p : ℕ → ℕ) (a : ℕ)
    → d < suc fuel
    → IsWithin d p a
    → (p a == a) ≡ false
    → Finds p a (find_root (suc fuel) p a)
find_root-Finds_far fuel rec zero p a l h e = elim (not_root (p a) a h e) [ ]
find_root-Finds_far fuel rec (suc d) p a l (inl h) e = elim (not_root (p a) a h e) [ ]
find_root-Finds_far fuel rec (suc d) p a l (inr h) e =
    subst (Finds p a) (sym (find_root-no fuel p a e)) (
      Finds-halved p a _ (
        rec d (replaced a (p (p a)) p) (p (p a)) (omega (arith, l))
          (IsWithin-halved p d a (p (p a)) (IsWithin-next d p (p a) h))))

pub find_root-Finds :
    (fuel d : ℕ) (p : ℕ → ℕ) (a : ℕ) → d < fuel → IsWithin d p a → Finds p a (find_root fuel p a)
find_root-Finds zero d p a l h = let no : ⊥ = omega (arith, l) in elim no [ ]
find_root-Finds (suc fuel) d p a l h = elim (Bool-cases (p a == a)) [
  | inl e ↦ subst (Finds p a) (sym (find_root-yes fuel p a e)) (
    a,
    p,
    refl,
    same (p a) a e,
    λ k x w. w,
    λ x w. w,
    λ k x s w. w,
    λ k s w. root-Leads k p a s (same (p a) a e) w,
  )
  | inr e ↦ find_root-Finds_far fuel (find_root-Finds fuel) d p a l h e
]
