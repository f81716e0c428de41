-- ===== src/Identity/Tokens/Families.antt =====
-- At most one live token in a family, over every sequence of issues, rotations and revocations.
use egreen_quanta_tes.Base.{
  ℕ, ◌+◌, ◌≤◌, String, ◌≡◌, refl, Bool, true, false, ◌&&◌, some, List, [], ◌∷◌, ◌++◌, arith, str_eq,
  eq_refl, find,
}
use egreen_quanta_tes.Identity.Models.{RefreshToken, Db, is_null}
use egreen_quanta_tes.Identity.Tokens.{revoke_where, replace_token, revoke_token}

-- A token that is not revoked, of the family `f`.
abbrev pub is_live : String → RefreshToken → Bool
is_live f t = str_eq t.family_id f && is_null t.revoked_at

abbrev one_if : Bool → ℕ
one_if true = 1
one_if false = 0

-- How many live tokens the family has.
unfoldable pub live : String → List RefreshToken → ℕ
live f [] = 0
live f (t ∷ ts) = one_if (is_live f t) + live f ts

abbrev pub OnePerFamily : Db → Type 0
OnePerFamily db = (f : String) → live f db.refresh_tokens ≤ 1

pub live-append :
    (f : String) (xs : List RefreshToken) (t : RefreshToken)
    → live f (xs ++ t ∷ []) ≡ live f xs + one_if (is_live f t)
unfolding live
live-append f [] t = omega arith
live-append f (x ∷ xs) t = omega (arith, live-append f xs t)

-- Revoking never makes a token live.
pub live-revoke_where :
    (p : RefreshToken → Bool) (now : ℕ) (f : String) (ts : List RefreshToken)
    → live f (revoke_where p now ts) ≤ live f ts
unfolding live revoke_where
live-revoke_where p now f [] = omega arith
live-revoke_where p now f (t ∷ ts) = ground (arith, live-revoke_where p now f ts)

-- A family that is revoked has no live token.
pub live-revoke_family :
    (now : ℕ) (f : String) (ts : List RefreshToken)
    → live f (revoke_where (λ t. str_eq t.family_id f) now ts) ≡ 0
unfolding live revoke_where
live-revoke_family now f [] = refl
live-revoke_family now f (t ∷ ts) = ground (arith, live-revoke_family now f ts)

pub live-revoke_token :
    (now : ℕ) (id f : String) (ts : List RefreshToken) → live f (revoke_token now id ts) ≤ live f ts
unfolding live revoke_token
live-revoke_token now id f [] = omega arith
live-revoke_token now id f (t ∷ ts) = ground (arith, live-revoke_token now id f ts)

pub live-replace_token :
    (now : ℕ) (id h f : String) (ts : List RefreshToken)
    → live f (replace_token now id h ts) ≤ live f ts
unfolding live replace_token
live-replace_token now id h f [] = omega arith
live-replace_token now id h f (t ∷ ts) = ground (arith, live-replace_token now id h f ts)

-- A live token that is found and replaced leaves one live token less in its family.
pub live-replace_found :
    (now : ℕ) (hash h : String) (t : RefreshToken) (ts : List RefreshToken)
    → find (λ x. str_eq x.token_hash hash) ts ≡ some t
    → is_null t.revoked_at ≡ true
    → live t.family_id (replace_token now t.id h ts) + 1 ≤ live t.family_id ts
unfolding live replace_token
live-replace_found now hash h t [] e l = cc
live-replace_found now hash h t (x ∷ xs) e l = ground (
  arith,
  eq_refl t.id,
  eq_refl t.family_id,
  live-replace_found now hash h t xs,
  live-replace_token now t.id h t.family_id xs,
)
