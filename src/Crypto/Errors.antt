-- ===== src/Crypto/Errors.antt =====
-- backend/app/services/crypto/errors.py: what the cryptographic code raises. An exception that none of
-- it catches ends the request with an internal error: `unhandled`.
use egreen_quanta_tes.Base.{String, ◌≡◌, refl, ◌⊎◌, inl, inr, arith, true, false}

pub data CryptoError : Type 0 where
  unsupported_algorithm material_parse_error : String → CryptoError
  unhandled : CryptoError

-- The next step after one that may raise.
abbrev pub and_then {ℓ κ} :
    {A : Type ℓ} {B : Type κ} → CryptoError ⊎ A → (A → CryptoError ⊎ B) → CryptoError ⊎ B
and_then (inl e) f = inl e
and_then (inr a) f = f a

pub never : false ≡ true → ⊥
never e = ground arith

pub ok-value {ℓ κ} : {E : Type ℓ} {A : Type κ} → (a b : A) → ◌≡◌ {A = E ⊎ A} (inr a) (inr b) → a ≡ b
ok-value a b e = cc

pub and_then-ok {ℓ κ} :
    {A : Type ℓ} {B : Type κ}
    → (r : CryptoError ⊎ A) (f : A → CryptoError ⊎ B) (b : B) → and_then r f ≡ inr b
    → (a : A) × (r ≡ inr a) × (f a ≡ inr b)
and_then-ok (inl e) f b h = ground arith
and_then-ok (inr a) f b h = (a, refl, h)
