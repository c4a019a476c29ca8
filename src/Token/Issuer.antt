-- ===== src/Token/Issuer.antt =====
-- internal/apitoken/apitoken.go: the issuer. A clock reading and a fresh UUID are arguments.
pub mod Keys
pub mod Issue
pub mod Verify
use image_factory.Prelude.{
  String, Bool, false, not, ◌&&◌, ◌||◌, Option, none, some, List, [], ◌∷◌, ◌++◌, ◌+ℤ◌, ℤ, pos, ◌==◌,
  if◌then◌else◌, is_empty, contains, ◌>>=◌, ◌>>◌, guard, Result, ok, err,
}
use image_factory.Token.Errors.{
  TokenError, empty_subject, no_scopes, delegation_without_issue, signing_failed, unknown_scope,
  unstorable_scope, signing_key_not_p256, verification_key_not_p256, no_thumbprint, no_signer,
  no_jwks, duplicate_key,
}
use image_factory.Token.Jose.{JwtClaims, Jose}
use image_factory.Token.Scope.{Scope, scope_token_issue, lookup, valid, storable}
use image_factory.Token.Scopes.{format_scopes}
use image_factory.Token.Ttl.{resolve_ttl, Ttl, StorageTtl}

abbrev pub issuer_name : String
issuer_name = "image-factory"

-- 30 seconds
abbrev pub leeway : ℤ
leeway = pos 30000000000

pub record Issuer (PrivateKey PublicKey : Type 0) : Type 0 where
  -- `signer`: the private key and the `kid` header that it writes
  pub signing_key : PrivateKey
  pub signing_kid : String
  pub verification_keys : List (String × PublicKey)
  pub jwks_json : String
  pub bootstrap : Ttl
  pub storage : StorageTtl

-- `Token`
pub record ApiToken : Type 0 where
  pub issued_at : ℤ
  pub expires_at : ℤ
  pub signed : String
  pub id : String
  pub scopes : List Scope
  pub issuable_scopes : List Scope
  pub stored : Bool
  pub any_subject : Bool

pub record Claims : Type 0 where
  pub subject : String
  pub id : String
  pub scopes : List Scope
  pub issuable_scopes : List Scope
  pub stored : Bool
  pub any_subject : Bool

pub record Delegation : Type 0 where
  pub issuable_scopes : List Scope
  pub any_subject : Bool

-- The test on every scope of a list, with the first one that is not of the catalog.
unfoldable pub check_scopes : List Scope → Result TokenError (Unit {0})
check_scopes [] = ok tt
check_scopes (scope ∷ scopes) =
    if not (valid scope) then err (unknown_scope scope) else check_scopes scopes

-- `(len(issuable) > 0 || anySubject) && !slices.Contains(scopes, "token:issue")`
unfoldable pub delegates_without_issue : List Scope → List Scope → Bool → Bool
delegates_without_issue scopes issuable any_subject =
    (not (is_empty issuable) || any_subject) && not (contains scopes scope_token_issue)

-- The guards of `IssueWithDelegation`, up to the lifetime that it resolves.
unfoldable pub accept :
    {PrivateKey PublicKey : Type 0}
    → Issuer PrivateKey PublicKey
    → String
    → List Scope
    → Delegation
    → Bool
    → ℤ
    → Result TokenError ℤ
accept i subject scopes delegation stored requested = do
  guard (not (subject == "")) empty_subject
  guard (not (is_empty scopes)) no_scopes
  check_scopes scopes
  check_scopes delegation.issuable_scopes
  guard (not (delegates_without_issue scopes delegation.issuable_scopes delegation.any_subject))
      delegation_without_issue
  guard (not (stored && (delegation.any_subject || not (storable scopes))))
      (unstorable_scope scopes)
  resolve_ttl i.bootstrap i.storage stored requested delegation.any_subject

module _ {PrivateKey PublicKey SignedToken : Type 0}
    (jose : Jose PrivateKey PublicKey SignedToken) where
  open jose use {
    public_key, is_p256, thumbprint, new_signer, marshal, numeric_date, serialize, parse_signed,
    key_ids, claims_of, validate,
  }

  -- One round of the loop over the keys, which are pointers and may be nil; `keys` are the keys so
  -- far in order. The source keeps them twice, as a slice and as a map by `kid`.
  unfoldable pub add_key :
      List (String × PublicKey) → Option PublicKey → Result TokenError (List (String × PublicKey))
  add_key keys none = err verification_key_not_p256
  add_key keys (some key) =
      if not (is_p256 key) then err verification_key_not_p256 else elim (thumbprint key) [
        | none ↦ err no_thumbprint
        | some kid ↦ elim (lookup kid keys) [
          | some old ↦ err (duplicate_key kid)
          | none ↦ ok (keys ++ (kid, key) ∷ [])
        ]
      ]

  unfoldable pub add_keys :
      List (String × PublicKey)
      → List (Option PublicKey)
      → Result TokenError (List (String × PublicKey))
  add_keys keys [] = ok keys
  add_keys keys (key ∷ rest) = do more ← add_key keys key; add_keys more rest

  -- The signer and the key set, once the keys are known; `publicKeys[0]` is the active key.
  unfoldable pub assemble :
      PrivateKey
      → Ttl
      → StorageTtl
      → List (String × PublicKey)
      → Result TokenError (Issuer PrivateKey PublicKey)
  assemble private_key bootstrap storage [] = err no_thumbprint
  assemble private_key bootstrap storage ((kid, key) ∷ keys) =
      if not (new_signer private_key kid)
      then err no_signer
      else elim (marshal ((kid, key) ∷ keys)) [
        | none ↦ err no_jwks
        | some json ↦ ok (record {
          signing_key = private_key;
          signing_kid = kid;
          verification_keys = (kid, key) ∷ keys;
          jwks_json = json;
          bootstrap = bootstrap;
          storage = storage;
        })
      ]

  -- `NewIssuerWithVerificationKeys`
  unfoldable pub new_issuer :
      Option PrivateKey
      → List (Option PublicKey)
      → Ttl
      → StorageTtl
      → Result TokenError (Issuer PrivateKey PublicKey)
  new_issuer none verification_keys bootstrap storage = err signing_key_not_p256
  new_issuer (some private_key) verification_keys bootstrap storage =
      if not (is_p256 (public_key private_key)) then err signing_key_not_p256 else (do
        keys ← add_keys [] (some (public_key private_key) ∷ verification_keys)
        assemble private_key bootstrap storage keys)

  -- The claims that `IssueWithDelegation` signs.
  abbrev pub issued_claims : String → List Scope → Delegation → Bool → ℤ → String → ℤ → JwtClaims
  issued_claims subject scopes delegation stored ttl jti now = record {
    id = jti;
    subject = subject;
    issuer = issuer_name;
    issued_at = numeric_date now;
    expiry = numeric_date (now +ℤ ttl);
    scope = format_scopes scopes;
    issuable_scopes = format_scopes delegation.issuable_scopes;
    any_subject = delegation.any_subject;
    stored = some stored;
  }

  -- Signing, once the request is accepted and its lifetime `ttl` is known.
  unfoldable pub sign_token :
      Issuer PrivateKey PublicKey
      → String
      → List Scope
      → Delegation
      → Bool
      → String
      → ℤ
      → ℤ
      → Result TokenError ApiToken
  sign_token i subject scopes delegation stored jti now ttl =
      elim (serialize i.signing_key i.signing_kid
        (issued_claims subject scopes delegation stored ttl jti now)) [
          | none ↦ err signing_failed
          | some text ↦ ok (record {
            issued_at = now;
            expires_at = now +ℤ ttl;
            signed = text;
            id = jti;
            scopes = scopes;
            issuable_scopes = delegation.issuable_scopes;
            stored = stored;
            any_subject = delegation.any_subject;
          })
        ]

  -- `IssueWithDelegation`
  unfoldable pub issue_with_delegation :
      Issuer PrivateKey PublicKey
      → String
      → List Scope
      → Delegation
      → Bool
      → ℤ
      → String
      → ℤ
      → Result TokenError ApiToken
  issue_with_delegation i subject scopes delegation stored requested jti now = do
    ttl ← accept i subject scopes delegation stored requested
    sign_token i subject scopes delegation stored jti now ttl

  -- `Issue`
  unfoldable pub issue :
      Issuer PrivateKey PublicKey
      → String
      → List Scope
      → Bool
      → ℤ
      → String
      → ℤ
      → Result TokenError ApiToken
  issue i subject scopes stored requested jti now =
      issue_with_delegation i subject scopes (record { issuable_scopes = []; any_subject = false })
        stored requested jti now
