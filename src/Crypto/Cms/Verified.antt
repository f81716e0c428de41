-- ===== src/Crypto/Cms/Verified.antt =====
-- What a CMS result "verified" stands on.
use egreen_quanta_tes.Base.{
  String, ◌≡◌, refl, sym, ap, ◌∙◌, Bool, true, false, Option, none, some, List, [], ◌∷◌, ◌++◌, ◌⊎◌,
  inl, inr, any, arith,
}
use egreen_quanta_tes.Base.Bytes.{Bytes}
use egreen_quanta_tes.Crypto.Types.{X509}
use egreen_quanta_tes.Crypto.Errors.{CryptoError, and_then-ok, ok-value, never}
use egreen_quanta_tes.Crypto.Cms.{
  SignedData, SignerInfo, SignedAttr, CmsTools, CmsResult, hash_name, message_digest_of, content_or,
  digest_matches, match_signer, signer_errors, pem_of, digest_errors, verify_primitive, attr_errors,
  candidates, check_candidates, check_signer, check_infos, load_signed_data, verify_cms,
}

module _ (x : X509) (tools : CmsTools x) where
  -- The signature of the first signer verifies under the certificate that was found for it, on bytes
  -- that stand for the content: on the content itself (or its canonical text) without signed
  -- attributes, else on the attributes, and their message digest, when they have one, is the content's.
  pub record IsSigned (blob : Bytes) (external : Option Bytes) (result : CmsResult) : Type 0 where
    pub signed_data : SignedData x
    pub loaded : load_signed_data x tools blob ≡ inr signed_data
    pub si : SignerInfo
    pub rest : List SignerInfo
    pub first : signed_data.signer_infos ≡ si ∷ rest
    pub signer : x.Cert
    pub found : match_signer x tools si.sid signed_data.certificates ≡ some signer
    pub pem : result.signer_cert_pem ≡ some (x.pem signer)
    pub content : Bytes
    pub given : content_or signed_data.encap_content external ≡ some content
    pub is_candidate :
        any
          (λ c.
            verify_primitive x tools signer c si.signature
              (hash_name si.digest_algorithm)
              si.signature_algorithm)
          (candidates x tools si.signed_attrs si.signed_attrs_dump (some content))
        ≡ true
    pub digest :
        (d : Bytes)
        → message_digest_of si.signed_attrs ≡ some d
        → digest_matches x tools d content (hash_name si.digest_algorithm) ≡ true

  was_checked :
      (signer : Option x.Cert) (errors : List String) (signed : List Bytes) (si : SignerInfo)
      → check_candidates x tools signer errors signed si ≡ true
      → (c : x.Cert) × (signer ≡ some c)
        × (errors ≡ [])
        × (any
              (λ b.
                verify_primitive x tools c b si.signature
                  (hash_name si.digest_algorithm)
                  si.signature_algorithm)
              signed
            ≡ true)
  was_checked none errors signed si h = ground arith
  was_checked (some c) (e ∷ errors) signed si h = ground arith
  was_checked (some c) [] signed si h = (c, refl, refl, h)

  right-empty : (xs ys : List String) → xs ++ ys ≡ [] → ys ≡ []
  right-empty [] ys h = h
  right-empty (z ∷ xs) ys h = cc

  had_content :
      (attrs : List SignedAttr) (content : Option Bytes) (hash : String)
      → attr_errors x tools attrs content hash ≡ []
      → (c : Bytes) × (content ≡ some c)
        × ((d : Bytes) → message_digest_of attrs ≡ some d → digest_matches x tools d c hash ≡ true)
  had_content [] none hash h = cc
  had_content (a ∷ attrs) none hash h = cc
  had_content [] (some c) hash h = (c, refl, λ d e. cc)
  had_content (a ∷ attrs) (some c) hash h =
      (c, refl, λ d e. no_error d (ap (λ m. digest_errors x tools m c hash) (sym e) ∙ h))
    where
      no_error :
          (d : Bytes)
          → digest_errors x tools (some d) c hash ≡ []
          → digest_matches x tools d c hash ≡ true
      no_error d h = ground arith

  by_info :
      (blob : Bytes) (external : Option Bytes) (data' : SignedData x) (infos : List SignerInfo)
      (result : CmsResult)
      → load_signed_data x tools blob ≡ inr data'
      → data'.signer_infos ≡ infos
      → check_infos x tools data' infos (content_or data'.encap_content external) ≡ result
      → result.verified ≡ true
      → IsSigned blob external result
  unfolding check_signer
  by_info blob external data' [] result loaded first e v =
      elim (never (ap (λ r. r.verified) e ∙ v)) [ ]
  by_info blob external data' (si ∷ rest) result loaded first e v =
      let (signer, found, clean, checked) =
        was_checked (match_signer x tools si.sid data'.certificates) _ _ si
          (ap (λ r. r.verified) e ∙ v) in
      let (content, given, digest) =
        had_content si.signed_attrs (content_or data'.encap_content external)
          (hash_name si.digest_algorithm)
          (right-empty (signer_errors x tools (match_signer x tools si.sid data'.certificates)) _
            clean) in
      record {
        signed_data = data';
        loaded = loaded;
        si = si;
        rest = rest;
        first = first;
        signer = signer;
        found = found;
        pem = sym (ap (λ r. r.signer_cert_pem) e) ∙ ap (pem_of x tools) found;
        content = content;
        given = given;
        is_candidate = rw given at checked;
        digest = digest;
      }

  -- When `verify_cms` says verified, the signature is one of the first signer, as the record says.
  pub verify_cms-IsSigned :
      (blob : Bytes) (external : Option Bytes) (result : CmsResult)
      → verify_cms x tools blob external ≡ inr result
      → result.verified ≡ true
      → IsSigned blob external result
  unfolding verify_cms
  verify_cms-IsSigned blob external result h v =
      let (found, loaded, h1) = and_then-ok (load_signed_data x tools blob) _ result h in
      by_info blob external found found.signer_infos result loaded refl (ok-value _ _ h1) v

  abbrev pub is_verified : CryptoError ⊎ CmsResult → Bool
  is_verified (inl e) = false
  is_verified (inr r) = r.verified

  no_digest_errors :
      (attrs : List SignedAttr) (c c' : Bytes) (hash : String)
      → message_digest_of attrs ≡ none
      → attr_errors x tools attrs (some c) hash ≡ attr_errors x tools attrs (some c') hash
  no_digest_errors [] c c' hash h = refl
  no_digest_errors (a ∷ attrs) c c' hash h =
      ap (λ m. digest_errors x tools m c hash) h ∙ sym (ap (λ m. digest_errors x tools m c' hash) h)

  same_candidates :
      (all : List SignedAttr) (dump c c' : Bytes) (a : SignedAttr) (attrs : List SignedAttr)
      → all ≡ a ∷ attrs
      → candidates x tools all dump (some c) ≡ candidates x tools all dump (some c')
  same_candidates [] dump c c' a attrs h = cc
  same_candidates (b ∷ all) dump c c' a attrs h = refl

  alike :
      (data' : SignedData x) (si : SignerInfo) (c c' : Bytes) (a : SignedAttr)
      (attrs : List SignedAttr)
      → si.signed_attrs ≡ a ∷ attrs
      → message_digest_of si.signed_attrs ≡ none
      → (check_signer x tools data' si
          (match_signer x tools si.sid data'.certificates)
          (some c)).verified
        ≡ (check_signer x tools data' si
            (match_signer x tools si.sid data'.certificates)
            (some c')).verified
  unfolding check_signer
  alike data' si c c' a attrs some_attrs no_digest =
      let signer = match_signer x tools si.sid data'.certificates in
      let answer : List String → List Bytes → Bool = λ errors signed.
        check_candidates x tools signer (signer_errors x tools signer ++ errors) signed si in
      ap (λ e. answer e (candidates x tools si.signed_attrs si.signed_attrs_dump (some c)))
        (no_digest_errors si.signed_attrs c c' (hash_name si.digest_algorithm) no_digest)
      ∙ ap (answer (attr_errors x tools si.signed_attrs (some c') (hash_name si.digest_algorithm)))
          (same_candidates si.signed_attrs si.signed_attrs_dump c c' a attrs some_attrs)

  -- A result "verified" of a signer with signed attributes but no message digest among them says
  -- nothing of the content: the answer is the same whatever content is supplied.
  pub verify_cms-any_content :
      (blob : Bytes) (data' : SignedData x) (si : SignerInfo) (rest : List SignerInfo)
      (a : SignedAttr) (attrs : List SignedAttr) (c c' : Bytes)
      → load_signed_data x tools blob ≡ inr data'
      → data'.signer_infos ≡ si ∷ rest
      → si.signed_attrs ≡ a ∷ attrs
      → message_digest_of si.signed_attrs ≡ none
      → data'.encap_content ≡ none
      → is_verified (verify_cms x tools blob (some c))
        ≡ is_verified (verify_cms x tools blob (some c'))
  unfolding verify_cms check_signer
  verify_cms-any_content blob data' si rest a attrs c c' loaded infos some_attrs no_digest
        detached =
      rw (loaded, infos, detached) (alike data' si c c' a attrs some_attrs no_digest)
