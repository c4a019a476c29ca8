-- ===== src/Token/Issuer/Verify.antt =====
-- What the issuer verifies.
use image_factory.Prelude.{
  String, ◌≡◌, refl, ap, ◌∙◌, subst, Bool, true, false, some, List, [], ◌∷◌, ℤ, pos, ◌==◌,
  test_of_ne, is_empty, is_nodup, ok, err,
}
use image_factory.Strings.{join, fields}
use image_factory.Token.Errors.{missing_scope}
use image_factory.Token.Jose.{JwtClaims, Jose, IsJose}
use image_factory.Token.Scope.{Scope, lookup, api_mintable}
use image_factory.Token.Scopes.{parse_scopes, format_scopes}
use image_factory.Token.Scopes.RoundTrip.{parse_scopes-format_scopes}
use image_factory.Token.Verifier.{
  parse_issuable, sole_kid, claims_from, verify_scopes, verify_claims, verify_with, verify_parsed,
  verify,
}
use image_factory.Token.Issuer.{
  issuer_name, leeway, delegates_without_issue, issued_claims, issue_with_delegation, Issuer,
  ApiToken, Claims, Delegation,
}
use image_factory.Token.Issuer.Issue.{issue_with_delegation-IsMade, MayDelegate, signed_claims}
use image_factory.Token.Issuer.Keys.{IsIssuer}

-- A claim of some scopes is not the empty text, which parses to no scope.
format_scopes-some :
    (scopes : List Scope)
    → is_empty scopes ≡ false
    → parse_scopes (format_scopes scopes) ≡ ok scopes
    → (format_scopes scopes == "") ≡ false
unfolding parse_scopes fields
format_scopes-some scopes h k = test_of_ne λ e.
    let empty : parse_scopes (format_scopes scopes) ≡ err missing_scope = ap parse_scopes e in
    cc (k, empty)

parse_issuable-format_scopes :
    (scopes : List Scope)
    → is_nodup scopes ≡ true
    → api_mintable scopes ≡ true
    → parse_issuable (format_scopes scopes) ≡ ok scopes
unfolding parse_issuable
parse_issuable-format_scopes [] h k = unfold format_scopes join in refl
parse_issuable-format_scopes (s ∷ ss) h k =
    let parsed = parse_scopes-format_scopes (s ∷ ss) refl h k in
    rw (format_scopes-some (s ∷ ss) refl parsed) parsed

abbrev pub claims_for : String → List Scope → Delegation → Bool → String → Claims
claims_for subject scopes delegation stored jti = record {
  subject = subject;
  id = jti;
  scopes = scopes;
  issuable_scopes = delegation.issuable_scopes;
  stored = stored;
  any_subject = delegation.any_subject;
}

module _ {PrivateKey PublicKey SignedToken : Type 0}
    (jose : Jose PrivateKey PublicKey SignedToken) where
  open jose use {public_key, serialize, parse_signed, key_ids, claims_of, validate}

  verify_claims-issued :
      (subject : String) (scopes : List Scope) (delegation : Delegation) (stored : Bool) (ttl : ℤ)
      (jti : String) (now later : ℤ)
      → (subject == "") ≡ false
      → (jti == "") ≡ false
      → parse_scopes (format_scopes scopes) ≡ ok scopes
      → parse_issuable (format_scopes delegation.issuable_scopes) ≡ ok delegation.issuable_scopes
      → delegates_without_issue scopes delegation.issuable_scopes delegation.any_subject ≡ false
      → validate
          (issued_claims jose subject scopes delegation stored ttl jti now)
          issuer_name
          later
          leeway
        ≡ true
      → verify_claims jose (issued_claims jose subject scopes delegation stored ttl jti now) later
        ≡ ok (claims_for subject scopes delegation stored jti)
  unfolding verify_claims verify_scopes claims_from
  verify_claims-issued subject scopes delegation stored ttl jti now later h1 h2 h3 h4 h5 h6 =
      rw (h6, h1, h2, h3) (rw h4 (rw h5))

  verify-issued :
      (i : Issuer PrivateKey PublicKey) (c : JwtClaims) (text : String) (later : ℤ)
      → IsJose jose
      → IsIssuer jose i
      → (i.signing_kid == "") ≡ false
      → serialize i.signing_key i.signing_kid c ≡ some text
      → verify jose i text later ≡ verify_claims jose c later
  unfolding verify verify_parsed verify_with sole_kid
  verify-issued i c text later laws good named signs =
      let (tok, parses, one_key, opens) = laws.parses i.signing_key i.signing_kid c text signs in
      rw (parses, one_key, named, good.active, opens)

  -- The issuer verifies what it issued, with the claims that were asked for, as long as go-jose
  -- finds the claims that it signed current: go-jose reads back what it signs, the issuer is one that the
  -- constructor returned, and its active key, the token and its scopes have names (a scope list
  -- that names a scope twice would be read back without the second).
  pub verify-issue_with_delegation :
      (i : Issuer PrivateKey PublicKey) (subject : String) (scopes : List Scope)
      (delegation : Delegation) (stored : Bool) (requested : ℤ) (jti : String) (now later : ℤ)
      (token : ApiToken)
      → IsJose jose
      → IsIssuer jose i
      → (i.signing_kid == "") ≡ false
      → (jti == "") ≡ false
      → is_nodup scopes ≡ true
      → is_nodup delegation.issuable_scopes ≡ true
      → issue_with_delegation jose i subject scopes delegation stored requested jti now ≡ ok token
      → validate (signed_claims jose subject token) issuer_name later leeway ≡ true
      → verify jose i token.signed later ≡ ok (claims_for subject scopes delegation stored jti)
  verify-issue_with_delegation i subject scopes delegation stored requested jti now later token laws
        good named id nodup nodup_issuable issued current =
      let r =
        issue_with_delegation-IsMade jose i subject scopes delegation stored requested jti now token
          issued in
      verify-issued i (issued_claims jose subject scopes delegation stored r.ttl jti now)
        token.signed later laws good named r.signs
      ∙ verify_claims-issued subject scopes delegation stored r.ttl jti now later
          r.granted.has_subject id
          (parse_scopes-format_scopes scopes r.granted.some_scope nodup r.granted.known)
          (parse_issuable-format_scopes delegation.issuable_scopes nodup_issuable
            r.granted.known_issuable)
          r.granted.delegation_ok
          (subst (λ c. validate c issuer_name later leeway ≡ true)
            (ap (signed_claims jose subject) r.token_eq) current)

module _ {PrivateKey PublicKey SignedToken : Type 0}
    (jose : Jose PrivateKey PublicKey SignedToken) where
  open jose use {parse_signed, key_ids, claims_of, validate}

  -- What holds of the claims of every token that is verified: how they were read, and what they are.
  pub record IsVerified (i : Issuer PrivateKey PublicKey) (text : String) (now : ℤ) (c : Claims)
      : Type 0 where
    pub tok : SignedToken
    pub kid : String
    pub key : PublicKey
    pub read : JwtClaims
    pub parses : parse_signed text ≡ some tok
    pub one_key : key_ids tok ≡ kid ∷ []
    pub known_key : lookup kid i.verification_keys ≡ some key
    pub signed : claims_of tok key ≡ some read
    pub current : validate read "image-factory" now (pos 30000000000) ≡ true
    pub subject_eq : c.subject ≡ read.subject
    pub id_eq : c.id ≡ read.id
    pub any_subject_eq : c.any_subject ≡ read.any_subject
    pub stored_eq : read.stored ≡ some c.stored
    pub has_subject : (c.subject == "") ≡ false
    pub has_id : (c.id == "") ≡ false
    pub some_scope : is_empty c.scopes ≡ false
    pub known : api_mintable c.scopes ≡ true
    pub known_issuable : api_mintable c.issuable_scopes ≡ true
    pub delegation_ok : MayDelegate c.scopes c.issuable_scopes c.any_subject
