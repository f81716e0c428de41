-- ===== src/Crypto/WeakAlgo/Policy.antt =====
-- The policy that the findings enforce, described by itself, and what silence of the checks means.
use egreen_quanta_tes.Base.{
  ℕ, String, ◌≡◌, refl, Bool, true, false, not, ◌&&◌, ◌||◌, Option, none, some, List, [], ◌∷◌, ◌++◌,
  arith, str_eq, eq_iff, Bool-cases, inl, inr,
}
use egreen_quanta_tes.Crypto.Types.{CryptoFinding, KeyParams, when}
use egreen_quanta_tes.Crypto.WeakAlgo.{
  SignatureParams, has_weak_digest, is_below, is_small, is_weak_curve, is_named, is_false,
  size_findings, key_findings, optional_key, signature_findings,
}

-- No DSA; RSA of the recommended size with an exponent of three at least; an elliptic curve of the
-- approved set.
abbrev pub is_strong_key : KeyParams → Bool
is_strong_key key =
    not (str_eq key.key_type "dsa")
    && (not (str_eq key.key_type "rsa")
        || (not (is_below key.key_bits 3072) && not (is_small key.rsa_exponent)))
    && (not (str_eq key.key_type "ec") || not (is_weak_curve key.curve))

abbrev pub is_strong_optional : Option KeyParams → Bool
is_strong_optional none = true
is_strong_optional (some key) = is_strong_key key

abbrev pub meets_policy : SignatureParams → Option String → Bool
meets_policy params padding =
    not (has_weak_digest params.hash_alg)
    && is_strong_optional params.key
    && not (is_named params.padding "pkcs1v15" && is_named padding "pss")
    && not (is_false params.low_s)
    && not (is_false params.der_canonical)

abbrev pub is_empty : List CryptoFinding → Bool
is_empty [] = true
is_empty (f ∷ fs) = false

is_empty-append : (xs ys : List CryptoFinding) → is_empty (xs ++ ys) ≡ (is_empty xs && is_empty ys)
is_empty-append [] ys = refl
is_empty-append (x ∷ xs) ys = refl

is_empty-when : (b : Bool) (f : CryptoFinding) → is_empty (when b f) ≡ not b
is_empty-when true f = refl
is_empty-when false f = refl

only_one : (t a b : String) → str_eq a b ≡ false → str_eq t a ≡ true → str_eq t b ≡ false
only_one t a b differ same = rw ((eq_iff t a).0 same) (differ)

smaller : (bits : Option ℕ) → is_below bits 2048 ≡ true → is_below bits 3072 ≡ true
smaller none e = cc
smaller (some n) e = ground arith

module _ (decimal : ℕ → String) where
  is_empty-size_findings :
      (bits : Option ℕ) → is_empty (size_findings decimal bits) ≡ not (is_below bits 3072)
  is_empty-size_findings bits = elim (Bool-cases (is_below bits 2048)) [
    | inl small ↦ rw small (rw (smaller bits small) refl)
    | inr large ↦ rw large (is_empty-when (is_below bits 3072) _)
  ]

  is_empty-key_findings :
      (key : KeyParams) → is_empty (key_findings decimal key) ≡ is_strong_key key
  unfolding key_findings
  is_empty-key_findings key = elim (Bool-cases (str_eq key.key_type "rsa")) [
    | inl rsa ↦
        rw (rsa, key_findings)
          (rw (only_one key.key_type "rsa" "dsa" refl rsa) (
            rw (only_one key.key_type "rsa" "ec" refl rsa)
              (rw is_empty-append (rw is_empty-size_findings (rw is_empty-when (ground arith))))))
    | inr other ↦
        rw (other, key_findings)
          (elim (Bool-cases (str_eq key.key_type "dsa")) [
            | inl dsa ↦ rw dsa refl
            | inr sound ↦ rw sound (rw is_empty-when (ground arith))
          ])
  ]

  is_empty-optional_key :
      (key : Option KeyParams) → is_empty (optional_key decimal key) ≡ is_strong_optional key
  is_empty-optional_key none = refl
  is_empty-optional_key (some key) = is_empty-key_findings key

  -- `signature_findings` returns no finding exactly for the parameters that meet the policy: the
  -- digest is not weak, the key is strong, the padding is not PKCS#1 v1.5 where PSS is asked for,
  -- and neither the low-S form nor the DER encoding is reported as broken.
  pub signature_findings-meets_policy :
      (params : SignatureParams) (padding : Option String)
      → is_empty (signature_findings decimal params padding) ≡ meets_policy params padding
  unfolding signature_findings
  signature_findings-meets_policy params padding = rw is_empty-append (
      rw is_empty-append
        (rw is_empty-append (rw is_empty-append (rw is_empty-optional_key (ground (arith))))))
