-- ===== src/Examples/Issuing.antt =====
-- Runs of the issuer, with a library of signatures that knows one token.
use image_factory.Prelude.{
  ℕ, String, ◌≡◌, refl, sym, ap, subst, inl, inr, Bool, true, false, not, ◌&&◌, Option, none, some,
  [], ◌∷◌, arith, eq_iff, ◌+ℤ◌, leb_ℤ, ℤ, pos, negsuc, nat_eq, ◌==◌, if◌then◌else◌, nat_eq_iff,
  Bool-cases, ok,
}
use image_factory.Token.Scope.{scope_image_read, lookup, run}
use image_factory.Token.Scopes.{format_scopes}
use image_factory.Token.Jose.{JwtClaims, Jose, IsJose}
use image_factory.Token.Ttl.{resolve, resolve_ttl, Ttl, StorageTtl}
use image_factory.Token.Verifier.{verify}
use image_factory.Token.Issuer.{
  check_scopes, delegates_without_issue, accept, add_key, add_keys, assemble, new_issuer,
  sign_token, issue_with_delegation, Issuer, ApiToken, Delegation,
}
use image_factory.Token.Issuer.Keys.{new_issuer-IsIssuer, IsIssuer}
use image_factory.Token.Issuer.Issue.{issue_with_delegation-IsIssued, IsIssued}
use image_factory.Token.Issuer.Verify.{claims_for, verify-issue_with_delegation}
use image_factory.Strings.{join}

-- The one set of claims that is signed.
abbrev pub ci_claims : JwtClaims
ci_claims = record {
  id = "id";
  subject = "org";
  issuer = "image-factory";
  issued_at = pos 100;
  expiry = pos 3700;
  scope = "image:read";
  issuable_scopes = "";
  any_subject = false;
  stored = some true;
}

abbrev is_at : ℕ → ℤ → Bool
is_at instant (pos n) = nat_eq n instant
is_at instant (negsuc n) = false

abbrev is_yes : Option Bool → Bool
is_yes (some true) = true
is_yes (some false) = false
is_yes none = false

abbrev is_ci : JwtClaims → Bool
is_ci c =
    c.id == "id"
    && c.subject == "org"
    && c.issuer == "image-factory"
    && is_at 100 c.issued_at
    && is_at 3700 c.expiry
    && c.scope == "image:read"
    && c.issuable_scopes == ""
    && not c.any_subject
    && is_yes c.stored

instant_eq : (instant : ℕ) (a : ℤ) → is_at instant a ≡ true → a ≡ pos instant
instant_eq instant (pos n) h = ap pos ((nat_eq_iff n instant).0 h)
instant_eq instant (negsuc n) h = cc

yes_eq : (a : Option Bool) → is_yes a ≡ true → a ≡ some true
yes_eq (some true) h = refl
yes_eq (some false) h = cc
yes_eq none h = cc

-- Keys are numbers; the public half is the key itself, and "t" is the one text of a token.
abbrev pub toy_jose : Jose ℕ ℕ ℕ
toy_jose = record {
  public_key = λ key. key;
  is_p256 = λ key. true;
  thumbprint = λ key. some "kid";
  new_signer = λ key kid. true;
  marshal = λ keys. some "{}";
  numeric_date = λ instant. instant;
  serialize = λ key kid c. if is_ci c && kid == "kid" then some "t" else none;
  parse_signed = λ text. if text == "t" then some 1 else none;
  key_ids = λ tok. "kid" ∷ [];
  claims_of = λ tok key. some ci_claims;
  validate = λ c issuer now margin. c.issuer == issuer && leb_ℤ now (c.expiry +ℤ margin);
}

ci_eq : (c : JwtClaims) → is_ci c ≡ true → c ≡ ci_claims
ci_eq c h =
    let id_eq = (eq_iff c.id "id").0 (ground (arith, h)) in
    let subject_eq = (eq_iff c.subject "org").0 (ground (arith, h)) in
    let issuer_eq = (eq_iff c.issuer "image-factory").0 (ground (arith, h)) in
    let issued_eq = instant_eq 100 c.issued_at (ground (arith, h)) in
    let expiry_eq = instant_eq 3700 c.expiry (ground (arith, h)) in
    let scope_eq = (eq_iff c.scope "image:read").0 (ground (arith, h)) in
    let issuable_eq = (eq_iff c.issuable_scopes "").0 (ground (arith, h)) in
    let any_eq : c.any_subject ≡ false = ground (arith, h) in
    let stored_eq = yes_eq c.stored (ground (arith, h)) in
    λ i. record {
      id = id_eq i;
      subject = subject_eq i;
      issuer = issuer_eq i;
      issued_at = issued_eq i;
      expiry = expiry_eq i;
      scope = scope_eq i;
      issuable_scopes = issuable_eq i;
      any_subject = any_eq i;
      stored = stored_eq i;
    }

signed_ci :
    (c : JwtClaims) (kid text : String)
    → (if is_ci c && kid == "kid" then some "t" else none) ≡ some text
    → (is_ci c ≡ true) × (kid ≡ "kid") × ("t" ≡ text)
signed_ci c kid text h = elim (Bool-cases (is_ci c && kid == "kid")) [
  | inl signed ↦
      (ground (arith, signed), (eq_iff kid "kid").0 (ground (arith, signed)), cc (rw signed at h))
  | inr other ↦ cc (rw other at h)
]

toy_jose-IsJose : IsJose toy_jose
toy_jose-IsJose = record {
  parses = λ key kid c text h.
      let (is_c, is_kid, is_t) = signed_ci c kid text h in
      (
        1,
        subst (λ s. toy_jose.parse_signed s ≡ some 1) is_t refl,
        ap (λ k. k ∷ []) (sym is_kid),
        ap some (sym (ci_eq c is_c)),
      );
}

abbrev pub hour : Ttl
hour = record { default = pos 3600; min = pos 60; max = pos 86400 }

abbrev pub both : StorageTtl
both = record { stored = hour; ephemeral = hour }

abbrev pub toy_issuer : Issuer ℕ ℕ
toy_issuer = record {
  signing_key = 5;
  signing_kid = "kid";
  verification_keys = ("kid", 5) ∷ [];
  jwks_json = "{}";
  bootstrap = hour;
  storage = both;
}

abbrev no_delegation : Delegation
no_delegation = record { issuable_scopes = []; any_subject = false }

abbrev ci_token : ApiToken
ci_token = record {
  issued_at = pos 100;
  expires_at = pos 3700;
  signed = "t";
  id = "id";
  scopes = scope_image_read ∷ [];
  issuable_scopes = [];
  stored = true;
  any_subject = false;
}

toy_issuer-IsIssuer : IsIssuer toy_jose toy_issuer
unfolding new_issuer add_keys add_key lookup assemble
toy_issuer-IsIssuer = new_issuer-IsIssuer toy_jose (some 5) [] hour both toy_issuer refl

issue_with_delegation-IsIssued_example :
    IsIssued toy_jose toy_issuer "org"
      (scope_image_read ∷ [])
      no_delegation
      true
      (pos 0)
      "id"
      (pos 100)
      ci_token
unfolding issue_with_delegation run accept check_scopes delegates_without_issue resolve_ttl resolve
    sign_token format_scopes join ◌+ℤ◌
issue_with_delegation-IsIssued_example =
    issue_with_delegation-IsIssued toy_jose toy_issuer "org" (scope_image_read ∷ []) no_delegation
      true (pos 0) "id" (pos 100) ci_token refl

verify-issue_with_delegation_example :
    verify toy_jose toy_issuer "t" (pos 200)
    ≡ ok (claims_for "org" (scope_image_read ∷ []) no_delegation true "id")
unfolding issue_with_delegation run accept check_scopes delegates_without_issue resolve_ttl resolve
    sign_token format_scopes join ◌+ℤ◌
verify-issue_with_delegation_example =
    verify-issue_with_delegation toy_jose toy_issuer "org" (scope_image_read ∷ []) no_delegation
      true (pos 0) "id" (pos 100) (pos 200) ci_token toy_jose-IsJose toy_issuer-IsIssuer refl refl
      refl refl refl refl
