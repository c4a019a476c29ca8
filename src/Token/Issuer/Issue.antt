-- ===== src/Token/Issuer/Issue.antt =====
-- Which requests for a token the issuer grants, and what the token then holds.
use image_factory.Prelude.{
  String, ◌≡◌, refl, sym, ap, ◌∙◌, subst, ◌⊎◌, inl, inr, Bool, true, false, not, ◌&&◌, ◌||◌, some,
  List, [], ◌∷◌, arith, ◌+ℤ◌, ◌≤ℤ◌, ltb_ℤ, leb_ℤ, ℤ, pos, ◌==◌, leb→le, ltb→le, of_not-true,
  Bool-cases, Option-cases, is_empty, contains, ok-injective, >>=-eq-ok, guard-eq-ok, ok,
}
use image_factory.Token.Errors.{
  empty_subject, no_scopes, delegation_without_issue, unstorable_scope,
}
use image_factory.Token.Jose.{JwtClaims, Jose}
use image_factory.Token.Scope.{Scope, api_mintable, storable}
use image_factory.Token.Scopes.{format_scopes}
use image_factory.Token.Ttl.{is_zero_ttl, resolve, resolve_ttl, bounds, IsWithin, Ttl, StorageTtl}
use image_factory.Token.Issuer.{
  check_scopes, delegates_without_issue, accept, issued_claims, sign_token, issue_with_delegation,
  Issuer, ApiToken, Delegation,
}

pub check_scopes-eq-ok :
    (scopes : List Scope) → check_scopes scopes ≡ ok tt → api_mintable scopes ≡ true
unfolding check_scopes api_mintable
check_scopes-eq-ok [] h = refl
check_scopes-eq-ok (s ∷ ss) h = ground (arith, check_scopes-eq-ok ss)

module _ {PrivateKey PublicKey : Type 0} where
  -- What the guards of a granted request have let through.
  pub record IsGranted (i : Issuer PrivateKey PublicKey) (subject : String) (scopes : List Scope)
      (delegation : Delegation) (stored : Bool) (requested ttl : ℤ) : Type 0 where
    pub has_subject : (subject == "") ≡ false
    pub some_scope : is_empty scopes ≡ false
    pub known : api_mintable scopes ≡ true
    pub known_issuable : api_mintable delegation.issuable_scopes ≡ true
    pub delegation_ok :
        delegates_without_issue scopes delegation.issuable_scopes delegation.any_subject ≡ false
    pub stored_ok : (stored && delegation.any_subject) ≡ false
    pub lifetime :
        resolve_ttl i.bootstrap i.storage stored requested delegation.any_subject ≡ ok ttl

  accept-IsGranted :
      (i : Issuer PrivateKey PublicKey) (subject : String) (scopes : List Scope)
      (delegation : Delegation) (stored : Bool) (requested : ℤ) {ttl : ℤ}
      → accept i subject scopes delegation stored requested ≡ ok ttl
      → IsGranted i subject scopes delegation stored requested ttl
  unfolding accept
  accept-IsGranted i subject scopes delegation stored requested {ttl} h =
      let (has_subject, h1) = guard-eq-ok (not (subject == "")) empty_subject _ h in
      let (some_scope, h2) = guard-eq-ok (not (is_empty scopes)) no_scopes _ h1 in
      let (u, known, h3) = >>=-eq-ok (check_scopes scopes) _ h2 in
      let (v, known_issuable, h4) = >>=-eq-ok (check_scopes delegation.issuable_scopes) _ h3 in
      let (delegation_ok, h5) =
        guard-eq-ok
          (not (delegates_without_issue scopes delegation.issuable_scopes delegation.any_subject))
          delegation_without_issue _ h4 in
      let (stored_ok, lifetime) =
        guard-eq-ok (not (stored && (delegation.any_subject || not (storable scopes))))
          (unstorable_scope scopes) _ h5 in
      record {
        has_subject = of_not-true _ has_subject;
        some_scope = of_not-true _ some_scope;
        known = check_scopes-eq-ok scopes known;
        known_issuable = check_scopes-eq-ok delegation.issuable_scopes known_issuable;
        delegation_ok = of_not-true _ delegation_ok;
        stored_ok = ground arith;
        lifetime = lifetime;
      }

abbrev pub token_of : String → String → List Scope → Delegation → Bool → String → ℤ → ℤ → ApiToken
token_of text subject scopes delegation stored jti now ttl = record {
  issued_at = now;
  expires_at = now +ℤ ttl;
  signed = text;
  id = jti;
  scopes = scopes;
  issuable_scopes = delegation.issuable_scopes;
  stored = stored;
  any_subject = delegation.any_subject;
}

module _ {PrivateKey PublicKey SignedToken : Type 0}
    (jose : Jose PrivateKey PublicKey SignedToken) where
  -- A token, the lifetime that it was granted, and the text that was signed for it.
  pub record IsMade (i : Issuer PrivateKey PublicKey) (subject : String) (scopes : List Scope)
      (delegation : Delegation) (stored : Bool) (requested : ℤ) (jti : String) (now : ℤ)
      (token : ApiToken) : Type 0 where
    pub ttl : ℤ
    pub granted : IsGranted i subject scopes delegation stored requested ttl
    pub signs :
        jose.serialize i.signing_key i.signing_kid
          (issued_claims jose subject scopes delegation stored ttl jti now)
        ≡ some token.signed
    pub token_eq : token ≡ token_of token.signed subject scopes delegation stored jti now ttl

  sign_token-eq-ok :
      (i : Issuer PrivateKey PublicKey) (subject : String) (scopes : List Scope)
      (delegation : Delegation) (stored : Bool) (requested : ℤ) (jti : String) (now ttl : ℤ)
      (token : ApiToken)
      → IsGranted i subject scopes delegation stored requested ttl
      → sign_token jose i subject scopes delegation stored jti now ttl ≡ ok token
      → IsMade i subject scopes delegation stored requested jti now token
  unfolding sign_token
  sign_token-eq-ok i subject scopes delegation stored requested jti now ttl token granted h =
      elim (Option-cases (
        jose.serialize i.signing_key i.signing_kid
          (issued_claims jose subject scopes delegation stored ttl jti now))) [
            | inl failed ↦ cc (rw (failed, sign_token) at h)
            | inr (text, made) ↦
                let eq : token ≡ token_of text subject scopes delegation stored jti now ttl =
                  sym (ok-injective (rw (made, sign_token) at h)) in
                let same : text ≡ token.signed = ap (λ (t : ApiToken). t.signed) (sym eq) in
                record {
                  ttl = ttl;
                  granted = granted;
                  signs = made ∙ ap some same;
                  token_eq =
                      eq ∙ ap (λ s. token_of s subject scopes delegation stored jti now ttl) same;
                }
          ]

  pub issue_with_delegation-IsMade :
      (i : Issuer PrivateKey PublicKey) (subject : String) (scopes : List Scope)
      (delegation : Delegation) (stored : Bool) (requested : ℤ) (jti : String) (now : ℤ)
      (token : ApiToken)
      → issue_with_delegation jose i subject scopes delegation stored requested jti now ≡ ok token
      → IsMade i subject scopes delegation stored requested jti now token
  unfolding issue_with_delegation
  issue_with_delegation-IsMade i subject scopes delegation stored requested jti now token h =
      let (ttl, accepted, signed) =
        >>=-eq-ok (accept i subject scopes delegation stored requested)
          (sign_token jose i subject scopes delegation stored jti now) h in
      sign_token-eq-ok i subject scopes delegation stored requested jti now ttl token
        (accept-IsGranted i subject scopes delegation stored requested {ttl = ttl} accepted) signed

-- The lifetime of a token: the default of the bounds, or what was asked for within them.
abbrev pub IsLifetime : Ttl → ℤ → ℤ → Type 0
IsLifetime t requested ttl =
    ((requested ≤ℤ pos 0) × (ttl ≡ t.default)) ⊎ ((ttl ≡ requested) × IsWithin t requested)

-- Nothing is delegated, or the token may issue.
abbrev pub MayDelegate : List Scope → List Scope → Bool → Type 0
MayDelegate scopes issuable any_subject =
    ((issuable ≡ []) × (any_subject ≡ false)) ⊎ (contains scopes "token:issue" ≡ true)

is_empty-nil : (scopes : List Scope) → is_empty scopes ≡ true → scopes ≡ []
is_empty-nil [] h = refl
is_empty-nil (s ∷ scopes) h = cc

pub delegates-MayDelegate :
    (scopes issuable : List Scope) (any_subject : Bool)
    → delegates_without_issue scopes issuable any_subject ≡ false
    → MayDelegate scopes issuable any_subject
unfolding delegates_without_issue
delegates-MayDelegate scopes issuable any_subject h =
    elim (Bool-cases (contains scopes "token:issue")) [
      | inl issues ↦ inr issues
      | inr no_issue ↦
          inl (is_empty-nil issuable (ground (arith, h, no_issue)), ground (arith, h, no_issue))
    ]

resolve-IsLifetime :
    (t : Ttl) (requested : ℤ) {ttl : ℤ} → resolve t requested ≡ ok ttl → IsLifetime t requested ttl
unfolding resolve
resolve-IsLifetime t requested {ttl} h = elim (Bool-cases (leb_ℤ requested (pos 0))) [
  | inl unspecified ↦ inl (leb→le _ _ unspecified, sym (ok-injective (rw unspecified at h)))
  | inr specified ↦ elim (Bool-cases (ltb_ℤ requested t.min)) [
    | inl short ↦ cc (rw (specified, short) at h)
    | inr long_enough ↦ elim (Bool-cases (ltb_ℤ t.max requested)) [
      | inl long ↦ cc (rw (specified, long_enough, long) at h)
      | inr short_enough ↦ inr (
        sym (ok-injective (rw (specified, long_enough, short_enough) at h)),
        (ltb→le _ _ long_enough, ltb→le _ _ short_enough),
      )
    ]
  ]
]

resolve_ttl-IsLifetime :
    (bootstrap : Ttl) (storage : StorageTtl) (stored administrative : Bool) (requested : ℤ)
    {ttl : ℤ}
    → resolve_ttl bootstrap storage stored requested administrative ≡ ok ttl
    → IsLifetime (bounds bootstrap storage stored administrative) requested ttl
unfolding resolve_ttl
resolve_ttl-IsLifetime bootstrap storage stored true requested {ttl} h =
    elim (Bool-cases (is_zero_ttl bootstrap)) [
      | inl unset ↦ cc (rw unset at h)
      | inr set ↦ resolve-IsLifetime bootstrap requested {ttl = ttl} (rw set at h)
    ]
resolve_ttl-IsLifetime bootstrap storage true false requested {ttl} h =
    resolve-IsLifetime storage.stored requested {ttl = ttl} h
resolve_ttl-IsLifetime bootstrap storage false false requested {ttl} h =
    resolve-IsLifetime storage.ephemeral requested {ttl = ttl} h

module _ {PrivateKey PublicKey SignedToken : Type 0}
    (jose : Jose PrivateKey PublicKey SignedToken) where
  -- What is signed for a token.
  abbrev pub signed_claims : String → ApiToken → JwtClaims
  signed_claims subject token = record {
    id = token.id;
    subject = subject;
    issuer = "image-factory";
    issued_at = jose.numeric_date token.issued_at;
    expiry = jose.numeric_date token.expires_at;
    scope = format_scopes token.scopes;
    issuable_scopes = format_scopes token.issuable_scopes;
    any_subject = token.any_subject;
    stored = some token.stored;
  }

  -- A token, what it was granted for, and the text that was signed for it.
  pub record IsIssued (i : Issuer PrivateKey PublicKey) (subject : String) (scopes : List Scope)
      (delegation : Delegation) (stored : Bool) (requested : ℤ) (jti : String) (now : ℤ)
      (token : ApiToken) : Type 0 where
    pub has_subject : (subject == "") ≡ false
    pub some_scope : is_empty scopes ≡ false
    pub known : api_mintable scopes ≡ true
    pub known_issuable : api_mintable delegation.issuable_scopes ≡ true
    pub delegation_ok : MayDelegate scopes delegation.issuable_scopes delegation.any_subject
    pub stored_ok : (stored ≡ false) ⊎ (delegation.any_subject ≡ false)
    pub ttl : ℤ
    pub lifetime :
        IsLifetime (bounds i.bootstrap i.storage stored delegation.any_subject) requested ttl
    pub asked : token ≡ token_of token.signed subject scopes delegation stored jti now ttl
    pub signs :
        jose.serialize i.signing_key i.signing_kid (signed_claims subject token) ≡ some token.signed

  -- A token is issued only to a named subject, for scopes of the catalog, of which there is one;
  -- delegation asks for `token:issue`, a token that is recorded has no authority over other
  -- subjects, the lifetime is the default that the configuration has for such a token, or the
  -- one that was asked for, within its bounds; and what is signed is what was asked.
  pub issue_with_delegation-IsIssued :
      (i : Issuer PrivateKey PublicKey) (subject : String) (scopes : List Scope)
      (delegation : Delegation) (stored : Bool) (requested : ℤ) (jti : String) (now : ℤ)
      (token : ApiToken)
      → issue_with_delegation jose i subject scopes delegation stored requested jti now ≡ ok token
      → IsIssued i subject scopes delegation stored requested jti now token
  issue_with_delegation-IsIssued i subject scopes delegation stored requested jti now token h =
      let made =
        issue_with_delegation-IsMade jose i subject scopes delegation stored requested jti now token
          h in
      let granted = made.granted in
      record {
        has_subject = granted.has_subject;
        some_scope = granted.some_scope;
        known = granted.known;
        known_issuable = granted.known_issuable;
        delegation_ok =
            delegates-MayDelegate scopes delegation.issuable_scopes delegation.any_subject
              granted.delegation_ok;
        stored_ok = ground (arith, granted.stored_ok);
        ttl = made.ttl;
        lifetime =
            resolve_ttl-IsLifetime i.bootstrap i.storage stored delegation.any_subject requested
              {ttl = made.ttl} granted.lifetime;
        asked = made.token_eq;
        signs =
            subst (λ c. jose.serialize i.signing_key i.signing_kid c ≡ some token.signed)
              (sym (ap (signed_claims subject) made.token_eq)) made.signs;
      }
