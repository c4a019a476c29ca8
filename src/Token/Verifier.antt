-- ===== src/Token/Verifier.antt =====
-- internal/apitoken/apitoken.go: the verification of a token.
use image_factory.Prelude.{
  String, Bool, not, Option, none, some, List, [], ◌∷◌, ℤ, ◌==◌, if◌then◌else◌, ◌>>=◌, ◌>>◌, guard,
  Result, ok, err,
}
use image_factory.Token.Errors.{
  TokenError, delegation_without_issue, not_a_token, ambiguous_key, unverified, not_current,
  unknown_key, missing_subject, missing_id, missing_stored,
}
use image_factory.Token.Jose.{JwtClaims, Jose}
use image_factory.Token.Scope.{Scope, lookup}
use image_factory.Token.Scopes.{parse_scopes}
use image_factory.Token.Issuer.{issuer_name, leeway, delegates_without_issue, Issuer, Claims}

-- `if parsed.IssuableScopes != "" { ... }`
unfoldable pub parse_issuable : String → Result TokenError (List Scope)
parse_issuable claim = if claim == "" then ok [] else parse_scopes claim

-- A Go lookup that fails with an error.
abbrev pub or_fail : {A : Type 0} → TokenError → Option A → Result TokenError A
or_fail e none = err e
or_fail e (some a) = ok a

-- The one `kid` of a token's headers.
unfoldable pub sole_kid : List String → Result TokenError String
sole_kid (kid ∷ []) = if kid == "" then err ambiguous_key else ok kid
sole_kid [] = err ambiguous_key
sole_kid (a ∷ b ∷ rest) = err ambiguous_key

-- The end of `Verify`, from the two lists of scopes.
unfoldable pub claims_from : JwtClaims → Bool → List Scope → List Scope → Result TokenError Claims
claims_from parsed stored scopes issuable = do
  guard (not (delegates_without_issue scopes issuable parsed.any_subject)) delegation_without_issue
  ok (record {
    subject = parsed.subject;
    id = parsed.id;
    scopes = scopes;
    issuable_scopes = issuable;
    stored = stored;
    any_subject = parsed.any_subject;
  })

abbrev pub verify_issuable : JwtClaims → Bool → List Scope → Result TokenError Claims
verify_issuable parsed stored scopes = do
  issuable ← parse_issuable parsed.issuable_scopes
  claims_from parsed stored scopes issuable

unfoldable pub verify_scopes : JwtClaims → Bool → Result TokenError Claims
verify_scopes parsed stored = do
  scopes ← parse_scopes parsed.scope
  verify_issuable parsed stored scopes

module _ {PrivateKey PublicKey SignedToken : Type 0}
    (jose : Jose PrivateKey PublicKey SignedToken) where
  open jose use {
    public_key, is_p256, thumbprint, new_signer, marshal, numeric_date, serialize, parse_signed,
    key_ids, claims_of, validate,
  }

  -- `Verify`, from the claims whose signature holds.
  unfoldable pub verify_claims : JwtClaims → ℤ → Result TokenError Claims
  verify_claims parsed now = do
    guard (validate parsed issuer_name now leeway) not_current
    guard (not (parsed.subject == "")) missing_subject
    guard (not (parsed.id == "")) missing_id
    stored ← or_fail missing_stored parsed.stored
    verify_scopes parsed stored

  -- `Verify`, from the `kid` of the one header.
  unfoldable pub verify_with :
      Issuer PrivateKey PublicKey → SignedToken → ℤ → String → Result TokenError Claims
  verify_with i tok now kid = do
    key ← or_fail (unknown_key kid) (lookup kid i.verification_keys)
    parsed ← or_fail unverified (claims_of tok key)
    verify_claims parsed now

  -- `Verify`, from a token that parses.
  unfoldable pub verify_parsed :
      Issuer PrivateKey PublicKey → ℤ → SignedToken → Result TokenError Claims
  verify_parsed i now tok = do kid ← sole_kid (key_ids tok); verify_with i tok now kid

  -- `Verify`
  unfoldable pub verify : Issuer PrivateKey PublicKey → String → ℤ → Result TokenError Claims
  verify i text now = do tok ← or_fail not_a_token (parse_signed text); verify_parsed i now tok
