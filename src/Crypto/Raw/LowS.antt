-- ===== src/Crypto/Raw/LowS.antt =====
-- The test of an ECDSA signature for malleability: what it says of a signature and of its twin.
use egreen_quanta_tes.Base.{
  ℕ, ◌-◌, ◌%◌, ◌<◌, ◌^◌, String, ◌≡◌, refl, ap, Bool, true, not, some, List, [], ◌∷◌, arith, le→leb,
  All,
}
use egreen_quanta_tes.Base.Bytes.{Bytes}
use egreen_quanta_tes.Crypto.Raw.{
  Keys, curve_order, curve_orders, get, is_low, check_ecdsa_malleability,
}

is_low-twin : (n s : ℕ) → n % 2 ≡ 1 → 0 < s → s < n → is_low n (n - s) ≡ not (is_low n s)
unfolding is_low
is_low-twin n s odd pos below = ground arith

get-odd :
    (rows : List (String × ℕ)) (name : String) (n : ℕ)
    → All (λ r. r.1 % 2 ≡ 1) rows
    → get rows name ≡ some n
    → n % 2 ≡ 1
get-odd [] name n odd e = cc
get-odd ((k, m) ∷ rows) name n odd e = ground (arith, get-odd rows name n odd.1)

curve_order-odd : (name : String) (n : ℕ) → curve_order name ≡ some n → n % 2 ≡ 1
unfolding curve_order
curve_order-odd name n = get-odd curve_orders name n (refl, (refl, (refl, (refl, tt))))

-- Of an ECDSA signature with the second number s and its twin, with n - s for the order n that the
-- table gives for the curve, exactly one is called low, when 0 < s < n.
pub check_ecdsa_malleability-twin :
    (keys : Keys) (name : String) (n r s : ℕ) (signature twin : Bytes)
    → curve_order name ≡ some n
    → keys.decode_dss_signature signature ≡ some (r, s)
    → keys.decode_dss_signature twin ≡ some (r, n - s)
    → 0 < s
    → s < n
    → (low : Bool) × ((check_ecdsa_malleability keys signature name).0 ≡ some low)
      × ((check_ecdsa_malleability keys twin name).0 ≡ some (not low))
unfolding check_ecdsa_malleability
check_ecdsa_malleability-twin keys name n r s signature twin order read read' pos below = (
  is_low n s,
  rw (read, order) refl,
  rw (read', order) (ap some (is_low-twin n s (curve_order-odd name n order) pos below)),
)

-- A signature on the curve secp384r1 is called low whatever its second number is below 2^384, which
-- is above every number that the curve's group allows: no such signature is ever found malleable.
pub check_ecdsa_malleability-secp384r1 :
    (keys : Keys) (r s : ℕ) (signature : Bytes)
    → keys.decode_dss_signature signature ≡ some (r, s)
    → s < 2 ^ 384
    → (check_ecdsa_malleability keys signature "secp384r1").0 ≡ some true
unfolding check_ecdsa_malleability curve_order is_low
check_ecdsa_malleability-secp384r1 keys r s signature read below =
    rw read (ap some (le→leb s _ (omega arith)))
