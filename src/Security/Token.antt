-- ===== src/Security/Token.antt =====
-- `Ed25519Verifier.Verify`.
use Prim.Native.String.{◌++◌}
use text.Mathlib.TextLemmas.{append_assoc}
use go_handbook_for_software.Base.{
  ℕ, ◌<◌, ◌≡◌, ◌≢◌, refl, sym, ap, ◌∙◌, subst, List, [], ◌∷◌, none, some, String, not, ite, str_dec,
  true, if◌then◌else◌, ltb, arith, ◌↔◌, Result, ok, err, lt_true, ltb→lt,
}
use go_handbook_for_software.Base.Guards.{
  ok-injective, err≢ok, guard_some, guard_ite, guard_ite_not, guard_if,
}
use go_handbook_for_software.Security.{
  Claims, Codec, Verifier, Unauthorized, unauthorized, cut_prefix, split, bearer, signed, check_sig,
  check_claims, check_payload, check_parts, verify,
}
use go_handbook_for_software.Security.Split.{cut_prefix_iff, join, join-split}

module _ (codec : Codec) (v : Verifier) (now : ℕ) where
  -- A token of three parts with all that `Verify` asks for: its payload holds unexpired claims of
  -- this issuer for this audience and of a named subject, and its signature is one of the key's on
  -- header and payload as they came.
  pub record Accepts (auth_header subject : String) : Type 0 where
    pub header : String
    pub payload : String
    pub sig : String
    pub claim_bytes : String
    pub sig_bytes : String
    pub claims : Claims
    pub text : auth_header ≡ bearer ++ (signed header payload ++ ("." ++ sig))
    pub parts : split (signed header payload ++ ("." ++ sig)) "." ≡ header ∷ payload ∷ sig ∷ []
    pub decoded : codec.decode payload ≡ some claim_bytes
    pub unmarshaled : codec.unmarshal claim_bytes ≡ some claims
    pub alive : now < claims.expires_at
    pub issued : claims.issuer ≡ v.issuer
    pub intended : claims.audience ≡ v.audience
    pub sig_decoded : codec.decode sig ≡ some sig_bytes
    pub sealed : codec.verify_sig v.key (signed header payload) sig_bytes ≡ true
    pub named : claims.subject ≡ subject
    pub nonempty : subject ≢ ""

  three :
      (subject : String) (ps : List String)
      → check_parts codec v now ps ≡ ok subject
      → (header : String) × (payload : String) × (sig : String) × (ps ≡ header ∷ payload ∷ sig ∷ [])
        × (check_payload codec v now header payload sig ≡ ok subject)
  unfolding check_parts
  three subject [] h = absurd (err≢ok unauthorized subject h)
  three subject (a ∷ []) h = absurd (err≢ok unauthorized subject h)
  three subject (a ∷ b ∷ []) h = absurd (err≢ok unauthorized subject h)
  three subject (a ∷ b ∷ c ∷ []) h = (a, b, c, refl, h)
  three subject (a ∷ b ∷ c ∷ d ∷ ps) h = absurd (err≢ok unauthorized subject h)

  -- the three parts make the token
  whole :
      (tok header payload sig : String)
      → split tok "." ≡ header ∷ payload ∷ sig ∷ []
      → tok ≡ signed header payload ++ ("." ++ sig)
  whole tok header payload sig e =
      sym (join-split tok "." (omega arith))
      ∙ (ap (join ".") e
          ∙ (ap (λ u. header ++ u) (sym (append_assoc "." payload ("." ++ sig)))
              ∙ sym (append_assoc header ("." ++ payload) ("." ++ sig))))

  module _ (subject : String) where
    check_sig_iff :
        (header payload sig : String) (claims : Claims)
        → (check_sig codec v now header payload sig claims ≡ ok subject) ↔ (
            (bytes : String) × (codec.decode sig ≡ some bytes)
            × (codec.verify_sig v.key (signed header payload) bytes ≡ true)
            × (claims.subject ≢ "")
            × (claims.subject ≡ subject))
    unfolding check_sig
    check_sig_iff header payload sig claims =
        let named : Result Unauthorized String =
          ite (str_dec claims.subject "") (err unauthorized) (ok claims.subject) in
        let sealed : String → Result Unauthorized String = λ bytes.
          if not (codec.verify_sig v.key (signed header payload) bytes)
          then err unauthorized
          else named in
        let at_decode = guard_some unauthorized subject (codec.decode sig) sealed in
        let at_sig = λ (bytes : String).
          guard_if unauthorized subject (codec.verify_sig v.key (signed header payload) bytes)
            named in
        let at_name =
          guard_ite_not unauthorized subject (str_dec claims.subject "") (ok claims.subject) in
        (
          λ e.
              let (bytes, d, e1) = at_decode.0 e in
              let (s, e2) = (at_sig bytes).0 e1 in
              let (n, e3) = at_name.0 e2 in (bytes, d, s, n, ok-injective e3),
          λ (bytes, d, s, n, q).
              at_decode.1 (bytes, d, (at_sig bytes).1 (s, at_name.1 (n, ap ok q))),
        )

    check_claims_iff :
        (header payload sig : String) (claims : Claims)
        → (check_claims codec v now header payload sig claims ≡ ok subject) ↔ (
            (now < claims.expires_at)
            × (claims.issuer ≡ v.issuer)
            × (claims.audience ≡ v.audience)
            × (check_sig codec v now header payload sig claims ≡ ok subject))
    unfolding check_claims
    check_claims_iff header payload sig claims =
        let rest = check_sig codec v now header payload sig claims in
        let intended : Result Unauthorized String =
          ite (str_dec claims.audience v.audience) rest (err unauthorized) in
        let issued : Result Unauthorized String =
          ite (str_dec claims.issuer v.issuer) intended (err unauthorized) in
        let at_time = guard_if unauthorized subject (ltb now claims.expires_at) issued in
        let at_issuer = guard_ite unauthorized subject (str_dec claims.issuer v.issuer) intended in
        let at_audience =
          guard_ite unauthorized subject (str_dec claims.audience v.audience) rest in
        (
          λ e.
              let (t, e1) = at_time.0 e in
              let (i, e2) = at_issuer.0 e1 in
              let (a, e3) = at_audience.0 e2 in (ltb→lt now claims.expires_at t, i, a, e3),
          λ (t, i, a, e).
              at_time.1 (lt_true now claims.expires_at t, at_issuer.1 (i, at_audience.1 (a, e))),
        )

    check_payload_iff :
        (header payload sig : String)
        → (check_payload codec v now header payload sig ≡ ok subject) ↔ (
            (bytes : String) × (codec.decode payload ≡ some bytes)
            × (claims : Claims) × (codec.unmarshal bytes ≡ some claims)
            × (check_claims codec v now header payload sig claims ≡ ok subject))
    unfolding check_payload
    check_payload_iff header payload sig =
        let read : Claims → Result Unauthorized String =
          check_claims codec v now header payload sig in
        let at_json =
          λ (bytes : String). guard_some unauthorized subject (codec.unmarshal bytes) read in
        let at_decode = guard_some unauthorized subject (codec.decode payload) (λ bytes.
          elim (codec.unmarshal bytes) [ none ↦ err unauthorized | some claims ↦ read claims ]) in
        (
          λ e.
              let (bytes, d, e1) = at_decode.0 e in
              let (claims, u, e2) = (at_json bytes).0 e1 in (bytes, d, claims, u, e2),
          λ (bytes, d, claims, u, e). at_decode.1 (bytes, d, (at_json bytes).1 (claims, u, e)),
        )

    at_cut :
        (auth_header : String)
        → (verify codec v now auth_header ≡ ok subject) ↔ (
            (tok : String) × (cut_prefix auth_header bearer ≡ some tok)
            × (check_parts codec v now (split tok ".") ≡ ok subject))
    unfolding verify
    at_cut auth_header =
        guard_some unauthorized subject (cut_prefix auth_header bearer)
          (λ tok. check_parts codec v now (split tok "."))

    -- `Verify` gives a subject exactly for the tokens that `Accepts` describes.
    pub verify_iff :
        (auth_header : String)
        → (verify codec v now auth_header ≡ ok subject) ↔ Accepts auth_header subject
    unfolding check_parts
    verify_iff auth_header = (
      λ e.
          let (tok, cut, e1) = (at_cut auth_header).0 e in
          let (header, payload, sig, parts, e2) = three subject (split tok ".") e1 in
          let (claim_bytes, decoded, claims, unmarshaled, e3) =
            (check_payload_iff header payload sig).0 e2 in
          let (alive, issued, intended, e4) = (check_claims_iff header payload sig claims).0 e3 in
          let (sig_bytes, sig_decoded, sealed, nonempty, named) =
            (check_sig_iff header payload sig claims).0 e4 in
          let form = whole tok header payload sig parts in
          record {
            header = header;
            payload = payload;
            sig = sig;
            claim_bytes = claim_bytes;
            sig_bytes = sig_bytes;
            claims = claims;
            text = (cut_prefix_iff auth_header bearer tok).0 cut ∙ ap (λ u. bearer ++ u) form;
            parts = subst (λ u. split u "." ≡ header ∷ payload ∷ sig ∷ []) form parts;
            decoded = decoded;
            unmarshaled = unmarshaled;
            alive = alive;
            issued = issued;
            intended = intended;
            sig_decoded = sig_decoded;
            sealed = sealed;
            named = named;
            nonempty = λ z. nonempty (named ∙ z);
          },
      λ a.
          let tok = signed a.header a.payload ++ ("." ++ a.sig) in
          let at_sig =
            (check_sig_iff a.header a.payload a.sig a.claims).1 (
              a.sig_bytes,
              a.sig_decoded,
              a.sealed,
              (λ z. a.nonempty (sym a.named ∙ z)),
              a.named,
            ) in
          let at_claims =
            (check_claims_iff a.header a.payload a.sig a.claims).1
              (a.alive, a.issued, a.intended, at_sig) in
          let at_payload =
            (check_payload_iff a.header a.payload a.sig).1
              (a.claim_bytes, a.decoded, a.claims, a.unmarshaled, at_claims) in
          (at_cut auth_header).1 (
            tok,
            (cut_prefix_iff auth_header bearer tok).1 a.text,
            ap (check_parts codec v now) a.parts ∙ at_payload,
          ),
    )
