-- ===== src/Tokens/Manager.antt =====
-- enterprise/tokens/manager.go. Logging is left out. A check waits for one read of the registry, its
-- own or one that another check of the token has begun (`singleflight`): the read is an argument,
-- with the registry that it finds. Whether a caller's context ends before that is the environment's
-- choice.
use image_factory.Prelude.{
  String, ◌≡◌, ◌≢◌, Bool, true, not, Option, none, some, List, arith, ℤ, if◌then◌else◌, Result, ok,
  err,
}
use image_factory.Token.Errors.{TokenError}
use image_factory.Token.Jose.{Jose}
use image_factory.Token.Verifier.{verify}
use image_factory.Token.Issuer.{issue_with_delegation, Issuer, ApiToken, Claims, Delegation}
use image_factory.Tokens.Registry.{Registry, Record}
use image_factory.Tokens.Storage.{create, revoke, valid, Faults, StorageError}
use image_factory.Tokens.Storage.Revocation.{revoke-valid, Steps}
use image_factory.Token.Scope.{Scope}

pub data ManagerError : Type 0 where
  not_issued : TokenError → ManagerError
  not_stored : StorageError → ManagerError

-- `ctx.Err()` of a caller that stops waiting.
pub data ContextError : Type 0 where
  canceled deadline_exceeded : ContextError

-- The errors of `Verify`: the caller's own cancellation, and the one tagged `NotReadyTag`.
pub data VerifyError : Type 0 where
  gone not_ready : VerifyError

-- The read of the registry that a check waits for, in the flight of its token.
pub record Lookup : Type 0 where
  pub faults : Faults
  pub registry : Registry
  pub instant : ℤ

unfoldable pub record_for : ApiToken → String → Record
record_for token name = record {
  id = token.id;
  name = name;
  scopes = token.scopes;
  issuable_scopes = token.issuable_scopes;
  created_at = token.issued_at;
  expires_at = token.expires_at;
}

module _ {PrivateKey PublicKey SignedToken : Type 0} (jose : Jose PrivateKey PublicKey SignedToken)
    (org_path_component : String → String) (i : Issuer PrivateKey PublicKey) where
  abbrev pub kept :
      String
      → ApiToken
      → Registry × Option StorageError
      → Registry × Result ManagerError (Record × String)
  kept name token (reg', none) = (reg', ok (record_for token name, token.signed))
  kept name token (reg', some e) = (reg', err (not_stored e))

  abbrev pub keep_token :
      Faults
      → Registry
      → String
      → String
      → ApiToken
      → Registry × Result ManagerError (Record × String)
  keep_token f reg org name token =
      if not token.stored
      then (reg, ok (record_for token name, token.signed))
      else kept name token (create org_path_component f reg org (record_for token name))

  abbrev pub keep_issued :
      Faults
      → Registry
      → String
      → String
      → Result TokenError ApiToken
      → Registry × Result ManagerError (Record × String)
  keep_issued f reg org name (err e) = (reg, err (not_issued e))
  keep_issued f reg org name (ok token) = keep_token f reg org name token

  -- `Create`: the registry after it, the record and the signed token.
  unfoldable pub create_token :
      Faults
      → Registry
      → String
      → String
      → List Scope
      → Delegation
      → Bool
      → ℤ
      → String
      → ℤ
      → Registry × Result ManagerError (Record × String)
  create_token f reg org name scopes delegation stored requested jti now =
      keep_issued f reg org name
        (issue_with_delegation jose i org scopes delegation stored requested jti now)

  -- `valid`, with the way in which the caller's context ends, if it does.
  unfoldable pub still_valid :
      Lookup → Option ContextError → String → String → Result VerifyError Bool
  still_valid read (some canceled) org jti = err gone
  still_valid read (some deadline_exceeded) org jti = err not_ready
  still_valid read none org jti =
      elim (valid org_path_component read.faults read.registry org jti read.instant) [
        | err e ↦ err not_ready
        | ok b ↦ ok b
      ]

  abbrev admit : Claims → Result VerifyError Bool → Result VerifyError (Option Claims)
  admit claims (err e) = err e
  admit claims (ok b) = if not b then ok none else ok (some claims)

  -- `Verify`: `none` is a credential that is no valid API token.
  unfoldable pub verify_token :
      Lookup → Option ContextError → String → ℤ → Result VerifyError (Option Claims)
  verify_token read ended text now = elim (verify jose i text now) [
    | err e ↦ ok none
    | ok claims ↦
        if not claims.stored
        then ok (some claims)
        else admit claims (still_valid read ended claims.subject claims.id)
  ]

  -- Once a recorded token is revoked, and whatever happens to the registry in between, a check that
  -- waits for a read of the registry behind that never authenticates a credential with its claims.
  -- (A check that joins a read begun before the revocation waits for no such read.)
  pub revoke-verify_token :
      (f : Faults) (read : Lookup) (reg reg' : Registry) (ended : Option ContextError)
      (text : String) (now : ℤ) (c c' : Claims)
      → verify jose i text now ≡ ok c
      → c.stored ≡ true
      → revoke org_path_component f reg c.subject c.id ≡ (reg', none)
      → Steps org_path_component c.id reg' read.registry
      → verify_token read ended text now ≢ ok (some c')
  unfolding verify_token still_valid
  revoke-verify_token f read reg reg' none text now c c' verified stored gone_now steps admitted =
      let checked =
        revoke-valid org_path_component f read.faults reg reg' read.registry c.subject c.id
          read.instant gone_now steps in
      ground arith
  revoke-verify_token f read reg reg' (some canceled) text now c c' verified stored gone_now steps
        admitted =
      ground arith
  revoke-verify_token f read reg reg' (some deadline_exceeded) text now c c' verified stored
        gone_now steps admitted =
      ground arith
