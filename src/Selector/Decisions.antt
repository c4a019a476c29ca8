-- ===== src/Selector/Decisions.antt =====
-- Which requests a token authenticates.
use image_factory.Prelude.{
  ℕ, String, ◌≡◌, refl, sym, ap, ◌∙◌, ◌≢◌, inl, inr, Bool, true, false, not, ◌&&◌, Option, none,
  some, arith, ◌==◌, nat_eq_of_ne, Bool-cases, Option-cases, ne_of_test, Result, ok, err,
}
use image_factory.Strings.{has_prefix}
use image_factory.Token.Scope.{allows, url_safe}
use image_factory.Token.Scope.Requests.{allows-url_safe}
use image_factory.Token.Verifier.{verify}
use image_factory.Token.Issuer.{Claims}
use image_factory.Transport.Route.{access_public}
use image_factory.Selector.{
  new_principal, credential_of, token_session, mechanism_of, pass_claims, pass_verified,
  select_token, middleware, Principal, Request, Session, Decision, passed, fell_back, refused,
}

new_principal-eq :
    (username : String) (credential : ℕ) {p : Principal}
    → new_principal username credential ≡ some p
    → (username ≢ "") × (p ≡ record { username = username; credential = credential })
unfolding new_principal
new_principal-eq username credential {p} h = elim (Bool-cases (username == "")) [
  | inl unnamed ↦ ground (arith, h, unnamed)
  | inr named ↦ (ne_of_test named, ground (arith, h, named))
]

module _ {E : Type 0} where
  passed_or : Session → Decision E → Session
  passed_or d (passed s) = s
  passed_or d fell_back = d
  passed_or d (refused e) = d

  passed-injective : {s t : Session} → ◌≡◌ {A = Decision E} (passed s) (passed t) → s ≡ t
  unfolding passed_or
  passed-injective {s} h = ap (passed_or s) h

module _ {E : Type 0} (sets_username : Bool) where
  -- What holds of a session that a token has passed.
  pub record IsAuthenticated (verify : String → Result E (Option Claims)) (r : Request) (access : ℕ)
      (out : Session) : Type 0 where
    pub token : String
    pub from_query : Bool
    pub claims : Claims
    pub found : credential_of r access ≡ (token, from_query)
    pub verified : verify token ≡ ok (some claims)
    pub in_session : out.claims ≡ some claims
    pub allowed : allows claims.scopes r.method r.path ≡ true
    pub safe : from_query ≡ true → url_safe claims.scopes ≡ true
    pub named : claims.subject ≢ ""
    pub principal_eq :
        out.principal
        ≡ some (record {
          username = claims.subject;
          credential = mechanism_of from_query (url_safe claims.scopes);
        })

  pass_claims-IsAuthenticated :
      (verify : String → Result E (Option Claims)) (r : Request) (access : ℕ)
      (session out : Session) (token : String) (from_query : Bool) (c : Claims)
      → credential_of r access ≡ (token, from_query)
      → verify token ≡ ok (some c)
      → pass_claims {E = E} sets_username r session token from_query c ≡ passed out
      → IsAuthenticated verify r access out
  unfolding pass_claims token_session
  pass_claims-IsAuthenticated verify r access session out token from_query c found verified h =
      elim (Bool-cases (allows c.scopes r.method r.path)) [
        | inr refused_scope ↦ cc (rw refused_scope at h)
        | inl allowed ↦ elim (Bool-cases (from_query && not (url_safe c.scopes))) [
          | inl exposed ↦ cc (rw (allowed, exposed) at h)
          | inr safe ↦
              elim (Option-cases
                (new_principal c.subject (mechanism_of from_query (url_safe c.scopes)))) [
                  | inl missing ↦ cc (rw (allowed, safe, missing) at h)
                  | inr (p, made) ↦
                      let eq : token_session sets_username session token (url_safe c.scopes) c p
                          ≡ out =
                        passed-injective (rw (allowed, safe, made) at h) in
                      let (named, p_eq) = new_principal-eq c.subject _ {p = p} made in
                      record {
                        token = token;
                        from_query = from_query;
                        claims = c;
                        found = found;
                        verified = verified;
                        in_session = ap (λ (s : Session). s.claims) (sym eq);
                        allowed = allowed;
                        safe = λ q. ground (arith, safe, q);
                        named = named;
                        principal_eq = ap (λ (s : Session). s.principal) (sym eq) ∙ ap some p_eq;
                      }
                ]
        ]
      ]

  pass_verified-IsAuthenticated :
      (verify : String → Result E (Option Claims)) (r : Request) (access : ℕ)
      (session out : Session) (token : String) (from_query : Bool)
      (answer : Result E (Option Claims))
      → credential_of r access ≡ (token, from_query)
      → verify token ≡ answer
      → pass_verified sets_username r session token from_query answer ≡ passed out
      → IsAuthenticated verify r access out
  pass_verified-IsAuthenticated verify r access session out token from_query (err e) found v h = cc
  pass_verified-IsAuthenticated verify r access session out token from_query (ok none) found v h =
      cc
  pass_verified-IsAuthenticated verify r access session out token from_query (ok (some c)) found v
        h =
      pass_claims-IsAuthenticated verify r access session out token from_query c found v h

  -- A request of a route that is not public passes with a token only if the verifier accepts the
  -- token that the request carries, its scopes allow the request, they are safe for a query
  -- string if it was found there, and the principal is the token's subject.
  pub middleware-IsAuthenticated :
      (verify : String → Result E (Option Claims)) (access : ℕ) (r : Request)
      (session out : Session)
      → access ≢ access_public
      → middleware sets_username (some verify) access r session ≡ passed out
      → IsAuthenticated verify r access out
  unfolding middleware select_token
  middleware-IsAuthenticated verify access r session out guarded h =
      let (token, from_query) = credential_of r access in
      let selected : select_token sets_username (some verify) r session (credential_of r access)
          ≡ passed out =
        rw (nat_eq_of_ne access access_public guarded) at h in
      elim (Bool-cases (token == "")) [
        | inl absent ↦ cc (rw absent at selected)
        | inr present ↦
            pass_verified-IsAuthenticated verify r access session out token from_query
              (verify token) refl refl (rw present at selected)
      ]

  -- No token in a query string passes a request below "/tokens".
  pub middleware-query :
      (verify : String → Result E (Option Claims)) (access : ℕ) (r : Request)
      (session out : Session)
      → access ≢ access_public
      → (credential_of r access).1 ≡ true
      → middleware sets_username (some verify) access r session ≡ passed out
      → has_prefix r.path "/tokens" ≡ false
  middleware-query verify access r session out guarded query h =
      let a = middleware-IsAuthenticated verify access r session out guarded h in
      allows-url_safe r.method r.path a.claims.scopes
        (a.safe (ap (λ (p : String × Bool). p.1) (sym a.found) ∙ query)) a.allowed
