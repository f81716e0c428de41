-- ===== src/Crypto/Jws/Verified.antt =====
-- What a JWS result "verified" stands on.
use egreen_quanta_tes.Base.{
  String, ◌≡◌, refl, sym, ap, ◌∙◌, true, false, Option, none, some, inl, inr, Bool-cases, str_eq,
  ◌==◌, arith,
}
use egreen_quanta_tes.Base.Text.{strip}
use egreen_quanta_tes.Base.Bytes.{Bytes}
use egreen_quanta_tes.Crypto.Errors.{and_then-ok, ok-value, never}
use egreen_quanta_tes.Crypto.WeakAlgo.{SignatureParams}
use egreen_quanta_tes.Crypto.Raw.{Keys}
use egreen_quanta_tes.Crypto.Jws.{
  JwsHeader, JwsTools, JwsResult, Decoded, payload, invalid_signature, other_error, alg_or, decoded,
  with_params, check_header, params_of_alg, parse_header, verify_compact, count_dots,
}

module _ (keys : Keys) (tools : JwsTools keys) where
  -- The token has three segments. The algorithm that the header names is one of the table, not "none", and PyJWT decodes the token
  -- under the key by it, to the payload.
  pub record IsSigned (token : String) (key : keys.PublicKey) (result : JwsResult) : Type 0 where
    pub is_compact : (count_dots (strip token) == 2) ≡ true
    pub header : JwsHeader
    pub parsed : parse_header keys tools (strip token) ≡ inr header
    pub alg : String
    pub named : alg_or header.alg "" ≡ alg
    pub is_some_alg : str_eq alg "none" ≡ false
    pub params : Option String × Option String
    pub is_known : params_of_alg alg ≡ some params
    pub content : Bytes
    pub is_decoded : tools.decode (strip token) key alg ≡ payload content
    pub is_content : result.content ≡ some content

  decoded-payload :
      (d : Decoded) (alg : String) (params : SignatureParams) (header : JwsHeader)
      → (decoded keys tools d alg params header).verified ≡ true
      → (p : Bytes) × (d ≡ payload p) × ((decoded keys tools d alg params header).content ≡ some p)
  decoded-payload (payload p) alg params header v = (p, refl, refl)
  decoded-payload invalid_signature alg params header v = elim (never v) [ ]
  decoded-payload (other_error why) alg params header v = elim (never v) [ ]

  known-alg :
      (found : Option (Option String × Option String)) (alg token : String) (header : JwsHeader)
      (key : keys.PublicKey)
      → (with_params keys tools found alg token header key).verified ≡ true
      → (params : Option String × Option String) × (found ≡ some params)
        × (p : Bytes) × (tools.decode token key alg ≡ payload p)
        × ((with_params keys tools found alg token header key).content ≡ some p)
  known-alg none alg token header key v = elim (never v) [ ]
  known-alg (some params) alg token header key v =
      let (p, read, content) = decoded-payload (tools.decode token key alg) alg _ header v in
      (params, refl, p, read, content)

  not_none :
      (alg token : String) (header : JwsHeader) (key : keys.PublicKey)
      → (check_header keys tools alg token header key).verified ≡ true
      → (str_eq alg "none" ≡ false)
        × (check_header keys tools alg token header key
            ≡ with_params keys tools (params_of_alg alg) alg token header key)
  unfolding check_header
  not_none alg token header key v = elim (Bool-cases (str_eq alg "none")) [
    | inl e ↦ elim (never (rw e at v)) [ ]
    | inr e ↦ (e, rw e refl)
  ]

  -- When `verify_compact` says verified, PyJWT decoded the token under the key, by an algorithm of the
  -- table that the token's header names.
  pub verify_compact-IsSigned :
      (token : String) (key : keys.PublicKey) (result : JwsResult)
      → verify_compact keys tools token key ≡ inr result
      → result.verified ≡ true
      → IsSigned token key result
  unfolding verify_compact
  verify_compact-IsSigned token key result h v = elim (Bool-cases (count_dots (strip token) == 2)) [
    | inr e ↦ ground arith
    | inl e ↦
        let (header, parsed, h1) =
          and_then-ok (parse_header keys tools (strip token)) _ result (rw e at h) in
        let alg = alg_or header.alg "" in
        let same = ok-value _ _ h1 in
        let (some_alg, opened) =
          not_none alg (strip token) header key (ap (λ r. r.verified) same ∙ v) in
        let (params, known, p, read, content) =
          known-alg (params_of_alg alg) alg (strip token) header key
            (ap (λ r. r.verified) (sym opened ∙ same) ∙ v) in
        record {
          is_compact = e;
          header = header;
          parsed = parsed;
          alg = alg;
          named = refl;
          is_some_alg = some_alg;
          params = params;
          is_known = known;
          content = p;
          is_decoded = read;
          is_content = sym (ap (λ r. r.content) (sym opened ∙ same)) ∙ content;
        }
  ]

  -- The converse: such a token is verified under the key.
  pub IsSigned-verify_compact :
      (token : String) (key : keys.PublicKey) (result : JwsResult)
      → IsSigned token key result
      → (outcome : JwsResult) × (verify_compact keys tools token key ≡ inr outcome)
        × (outcome.verified ≡ true)
  unfolding verify_compact check_header
  IsSigned-verify_compact token key result signed = (
    check_header keys tools (alg_or signed.header.alg "") (strip token) signed.header key,
    rw signed.is_compact (rw signed.parsed refl),
    rw (signed.named, signed.is_some_alg, signed.is_known, signed.is_decoded) refl,
  )
