-- ===== src/Crypto/Raw/Verified.antt =====
-- What an outcome "verified" of `verify_raw` stands on.
use egreen_quanta_tes.Base.{String, ◌≡◌, refl, ap, ◌∙◌, Bool, true, Option, none, some, inr, arith}
use egreen_quanta_tes.Base.Bytes.{Bytes}
use egreen_quanta_tes.Crypto.Errors.{and_then-ok, ok-value, never}
use egreen_quanta_tes.Crypto.WeakAlgo.{SignatureParams}
use egreen_quanta_tes.Crypto.Raw.{
  Keys, KeyKind, rsa, ecdsa, ed25519, ed448, other_key, Padding, RawVerifyOutcome, Signed, message,
  prehashed_digest, nothing, signed_parts, cryptography_hash, normal_hash, verify_keyed,
  verify_hashed, verify_raw, padding_of, by_kind, verify_eddsa, verify_padded, outcome_of,
}

-- The key's own check passed: on the message for an Edwards curve; else on the message or the digest
-- with a digest that the cryptography package supports, named by what the caller gave.
pub data IsChecked (keys : Keys) (key : keys.PublicKey) (signed : Signed) (signature : Bytes)
    : Option String → Type 0 where
  by_eddsa :
      (hash : Option String) (m : Bytes)
      → signed ≡ message m
      → keys.verify_ed key signature m ≡ true
      → IsChecked keys key signed signature hash
  by_rsa :
      (name norm hash : String) (m : Bytes) (is_digest : Bool) (pad : Padding)
      → normal_hash name ≡ inr norm
      → cryptography_hash norm ≡ inr hash
      → signed_parts signed ≡ inr (m, is_digest)
      → keys.verify_rsa key signature m pad norm is_digest ≡ true
      → IsChecked keys key signed signature (some name)
  by_ecdsa :
      (name norm hash : String) (m : Bytes) (is_digest : Bool)
      → normal_hash name ≡ inr norm
      → cryptography_hash norm ≡ inr hash
      → signed_parts signed ≡ inr (m, is_digest)
      → keys.verify_ec key signature m norm is_digest ≡ true
      → IsChecked keys key signed signature (some name)

module _ (keys : Keys) (key : keys.PublicKey) (signed : Signed) (signature : Bytes)
    (mode : Option String) (outcome : RawVerifyOutcome) where
  was_true :
      (ok : Bool) (params : SignatureParams)
      → outcome_of ok params ≡ outcome
      → outcome.verified ≡ true
      → ok ≡ true
  was_true ok params e v = ap (λ o. o.verified) e ∙ v

  padded :
      (padding : Option Padding) (name norm hash : String) (m : Bytes) (is_digest : Bool)
      → normal_hash name ≡ inr norm
      → cryptography_hash norm ≡ inr hash
      → signed_parts signed ≡ inr (m, is_digest)
      → verify_padded keys padding key norm m is_digest signature mode ≡ inr outcome
      → outcome.verified ≡ true
      → IsChecked keys key signed signature (some name)
  padded none name norm hash m is_digest a b c h v = ground arith
  padded (some pad) name norm hash m is_digest a b c h v =
      by_rsa name norm hash m is_digest pad a b c (was_true _ _ (ok-value _ _ h) v)

  keyed :
      (kind : KeyKind) (name norm hash : String) (m : Bytes) (is_digest : Bool)
      → normal_hash name ≡ inr norm
      → cryptography_hash norm ≡ inr hash
      → signed_parts signed ≡ inr (m, is_digest)
      → verify_keyed keys kind key norm m is_digest signature mode ≡ inr outcome
      → outcome.verified ≡ true
      → IsChecked keys key signed signature (some name)
  unfolding verify_keyed
  keyed rsa name norm hash m is_digest a b c h v =
      padded (padding_of mode) name norm hash m is_digest a b c h v
  keyed ecdsa name norm hash m is_digest a b c h v =
      by_ecdsa name norm hash m is_digest a b c (was_true _ _ (ok-value _ _ h) v)
  keyed ed25519 name norm hash m is_digest a b c h v = ground arith
  keyed ed448 name norm hash m is_digest a b c h v = ground arith
  keyed other_key name norm hash m is_digest a b c h v = ground arith

  hashed :
      (kind : KeyKind) (name : Option String)
      → verify_hashed keys kind key signed name signature mode ≡ inr outcome
      → outcome.verified ≡ true
      → IsChecked keys key signed signature name
  unfolding verify_hashed
  hashed kind none h v = ground arith
  hashed kind (some name) h v =
      let (norm, a, h1) = and_then-ok (normal_hash name) _ outcome h in
      let (hash, b, h2) = and_then-ok (cryptography_hash norm) _ outcome h1 in
      let (parts, c, h3) = and_then-ok (signed_parts signed) _ outcome h2 in
      keyed kind name norm hash parts.0 parts.1 a b c h3 v

  eddsa :
      (name : String) (s : Signed) (hash : Option String)
      → signed ≡ s
      → verify_eddsa keys key name s signature ≡ outcome
      → outcome.verified ≡ true
      → IsChecked keys key signed signature hash
  eddsa name (message m) hash e h v = by_eddsa hash m e (was_true _ _ h v)
  eddsa name (prehashed_digest m) hash e h v = elim (never (ap (λ o. o.verified) h ∙ v)) [ ]
  eddsa name nothing hash e h v = elim (never (ap (λ o. o.verified) h ∙ v)) [ ]

  -- When `verify_raw` returns an outcome that says verified, the key's own check passed.
  pub verify_raw-IsChecked :
      (hash_alg : Option String)
      → verify_raw keys key signed hash_alg signature mode ≡ inr outcome
      → outcome.verified ≡ true
      → IsChecked keys key signed signature hash_alg
  unfolding verify_raw
  verify_raw-IsChecked hash_alg h v = by (keys.kind key) refl h
    where
      by :
          (kind : KeyKind)
          → keys.kind key ≡ kind
          → by_kind keys kind key signed hash_alg signature mode ≡ inr outcome
          → IsChecked keys key signed signature hash_alg
      by rsa e h = hashed rsa hash_alg h v
      by ecdsa e h = hashed ecdsa hash_alg h v
      by ed25519 e h = eddsa "ed25519" signed hash_alg refl (ok-value _ _ h) v
      by ed448 e h = eddsa "ed448" signed hash_alg refl (ok-value _ _ h) v
      by other_key e h = hashed other_key hash_alg h v
