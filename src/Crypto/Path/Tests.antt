-- ===== src/Crypto/Path/Tests.antt =====
-- A leaf, an intermediate CA and a root: the theorems about chains at this path.
use egreen_quanta_tes.Base.{ℕ, ◌≡◌, refl, ◌↔◌, String, true, some, none, List, [], ◌∷◌, map, ◌==◌}
use egreen_quanta_tes.Crypto.Types.{X509, trusted}
use egreen_quanta_tes.Crypto.Path.{
  spki_sha256, build_and_validate, walk, next_issuer, issues, conclude,
}
use egreen_quanta_tes.Crypto.Path.Linked.{IsPath, IsTrusted, build_and_validate-IsTrusted}
use egreen_quanta_tes.Crypto.Path.Sound.{AllMayIssue, AllInWindow, build_and_validate-AllMayIssue}

data Three : Type 0 where
  leaf sub root : Three

abbrev label : Three → String
label leaf = "leaf"
label sub = "sub"
label root = "root"

abbrev rank : Three → ℕ
rank leaf = 0
rank sub = 1
rank root = 2

abbrev parent : Three → Three
parent leaf = sub
parent sub = root
parent root = root

abbrev three : X509
three = record {
  Cert = Three;
  Name = Three;
  same_name = λ a b. rank a == rank b;
  rfc4514_string = label;
  subject = λ c. c;
  issuer = parent;
  public_bytes = label;
  der_bytes = label;
  sha256_hex = λ s. s;
  is_directly_issued_by = λ c i. rank (parent c) == rank i;
  basic_constraints = λ c. some (true, none);
  key_cert_sign = λ c. none;
  not_valid_before = λ c. 0;
  not_valid_after = λ c. 100;
  date = λ t. "d";
  decimal = λ n. "n";
  serial_hex = λ c. "1";
  sig_algo = λ c. "ecdsa-with-SHA256";
  key_params = λ c. record {
    key_type = "ec";
    key_bits = some 256;
    curve = some "secp256r1";
    rsa_exponent = none;
  };
  key_usage = λ c. [];
  ext_key_usage = λ c. [];
  san = λ c. [];
  pem = label;
}

leaf_is_trusted : (build_and_validate three leaf (sub ∷ []) (root ∷ []) 5).0.status ≡ trusted
unfolding build_and_validate walk next_issuer issues conclude spki_sha256
leaf_is_trusted = refl

build_and_validate-IsTrusted_example :
    IsTrusted three
      (map (spki_sha256 three) (root ∷ []))
      (sub ∷ root ∷ [])
      5
      leaf
      (build_and_validate three leaf (sub ∷ []) (root ∷ []) 5)
build_and_validate-IsTrusted_example =
    build_and_validate-IsTrusted three leaf (sub ∷ []) (root ∷ []) 5 leaf_is_trusted

build_and_validate-AllMayIssue_example :
    (rest : List Three) × IsPath three
      (map (spki_sha256 three) (root ∷ []))
      (sub ∷ root ∷ [])
      leaf
      rest
    × ((build_and_validate three leaf (sub ∷ []) (root ∷ []) 5).1 ≡ []
        ↔ (AllMayIssue three 0 rest × AllInWindow three 5 (leaf ∷ rest)))
build_and_validate-AllMayIssue_example =
    build_and_validate-AllMayIssue three leaf (sub ∷ []) (root ∷ []) 5 leaf_is_trusted
