-- ===== src/Base/Lists.antt =====
-- Lists measured by native numbers, under the library's names, and predicates on all elements.
use Prim.Native.Nat.{ℕ, zero, suc, ◌+◌}
use mathlib.Core.Path.{◌≡◌, refl, sym, subst, ◌∙◌}
use mathlib.Core.Logic.{inl, inr}
use egreen_quanta_tes.Base.Tests.{Bool-cases}
use mathlib.Core.Bool.{Bool, true, false, ◌||◌}
use mathlib.Core.List.{List, [], ◌∷◌, ◌++◌}
use mathlib.Core.Option.{Option, none, some}
use native.Mathlib.Omega.{arith}

module _ {ℓ} {A : Type ℓ} where
  abbrev pub length : List A → ℕ
  length [] = 0
  length (x ∷ xs) = suc (length xs)

  abbrev pub take : ℕ → List A → List A
  take zero xs = []
  take (suc n) [] = []
  take (suc n) (x ∷ xs) = x ∷ take n xs

  abbrev pub last? : List A → Option A
  last? [] = none
  last? (x ∷ []) = some x
  last? (x ∷ y ∷ ys) = last? (y ∷ ys)

  -- A list comprehension with a condition, `[x for x in xs if p(x)]`.
  abbrev pub keep : (A → Bool) → List A → List A
  keep p [] = []
  keep p (x ∷ xs) = let rest = keep p xs in elim (p x) [ true ↦ x ∷ rest | false ↦ rest ]

  -- The first element that passes the test: `scalar_one_or_none` over a unique column.
  abbrev pub find : (A → Bool) → List A → Option A
  find p [] = none
  find p (x ∷ xs) = let rest = find p xs in elim (p x) [ true ↦ some x | false ↦ rest ]

  -- Python's `any` and `all` over a generator.
  abbrev pub any : (A → Bool) → List A → Bool
  any p [] = false
  any p (x ∷ xs) = p x || any p xs

  abbrev pub All {κ} : (A → Type κ) → List A → Type κ
  All P [] = Unit
  All P (x ∷ xs) = P x × All P xs

module _ {ℓ} {A : Type ℓ} where
  pub length-append : (xs ys : List A) → length (xs ++ ys) ≡ length xs + length ys
  length-append [] ys = omega arith
  length-append (x ∷ xs) ys = omega (arith, length-append xs ys)

  pub last?-append_one : (xs : List A) (y : A) → last? (xs ++ y ∷ []) ≡ some y
  last?-append_one [] y = refl
  last?-append_one (x ∷ []) y = refl
  last?-append_one (x ∷ x' ∷ xs) y = last?-append_one (x' ∷ xs) y

  pub All-append {κ} : (P : A → Type κ) (xs ys : List A) → All P xs → All P ys → All P (xs ++ ys)
  All-append P [] ys hx hy = hy
  All-append P (x ∷ xs) ys hx hy = (hx.0, All-append P xs ys hx.1 hy)

pub find-append {ℓ} :
    {A : Type ℓ}
    → (p : A → Bool) (xs : List A) (a : A) → find p xs ≡ none
    → p a ≡ true
    → find p (xs ++ a ∷ []) ≡ some a
find-append p [] a h e = rw e refl
find-append p (x ∷ xs) a h e = ground (arith, find-append p xs a)

pub find-append_other {ℓ} :
    {A : Type ℓ}
    → (p : A → Bool) (xs : List A) (a : A) → p a ≡ false
    → find p (xs ++ a ∷ []) ≡ find p xs
find-append_other p [] a h = rw h refl
find-append_other p (x ∷ xs) a h = ground (arith, find-append_other p xs a)

-- What `keep` and `find` do at the head of a list, and predicates on what they return.
module _ {ℓ} {A : Type ℓ} (p : A → Bool) where
  pub keep-yes : (x : A) (xs : List A) → p x ≡ true → keep p (x ∷ xs) ≡ x ∷ keep p xs
  keep-yes x xs e = rw (e, keep) refl

  pub keep-no : (x : A) (xs : List A) → p x ≡ false → keep p (x ∷ xs) ≡ keep p xs
  keep-no x xs e = rw (e, keep) refl

  pub find-yes : (x : A) (xs : List A) → p x ≡ true → find p (x ∷ xs) ≡ some x
  find-yes x xs e = rw (e, find) refl

  pub find-no : (x : A) (xs : List A) → p x ≡ false → find p (x ∷ xs) ≡ find p xs
  find-no x xs e = rw (e, find) refl

  pub find-some : (x a : A) (xs : List A) → p x ≡ true → find p (x ∷ xs) ≡ some a → x ≡ a
  find-some x a xs e h = some-value (sym (find-yes x xs e) ∙ h)
    where
      some-value : some x ≡ some a → x ≡ a
      some-value e = cc

  pub All-keep {κ} : (P : A → Type κ) (xs : List A) → All P xs → All P (keep p xs)
  All-keep P [] h = tt
  All-keep P (x ∷ xs) h = elim (Bool-cases (p x)) [
    | inl e ↦ rw (keep-yes x xs e) (h.0, All-keep P xs h.1)
    | inr e ↦ rw (keep-no x xs e) (All-keep P xs h.1)
  ]

  pub All-find {κ} :
      (P : A → Type κ) (xs : List A) (a : A) → find p xs ≡ some a → All P xs → P a × (p a ≡ true)
  All-find P [] a h all = elim (none-some a h) [ ]
    where
      none-some : (a : A) → none ≡ some a → ⊥
      none-some a e = ground arith
  All-find P (x ∷ xs) a h all = elim (Bool-cases (p x)) [
    | inl e ↦ subst (λ s. P s × (p s ≡ true)) (find-some x a xs e h) (all.0, e)
    | inr e ↦ All-find P xs a (sym (find-no x xs e) ∙ h) all.1
  ]
