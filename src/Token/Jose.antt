-- ===== src/Token/Jose.antt =====
-- What the token issuer uses of third-party code: go-jose (keys, signatures, claims), uuid and the
-- P-256 test of a key. The key and token types are parameters; the functions are the fields of a
-- record, and what go-jose documents of them is a record of laws beside it.
use image_factory.Prelude.{String, ◌≡◌, Bool, Option, some, List, [], ◌∷◌, ℤ}

-- The claims of `apitoken.claims`. `stored` is a pointer in the source.
pub record JwtClaims : Type 0 where
  pub id : String
  pub subject : String
  pub issuer : String
  pub issued_at : ℤ
  pub expiry : ℤ
  pub scope : String
  pub issuable_scopes : String
  pub any_subject : Bool
  pub stored : Option Bool

pub record Jose (PrivateKey PublicKey SignedToken : Type 0) : Type 0 where
  -- `privateKey.PublicKey`, and `key.Curve == elliptic.P256()`
  pub public_key : PrivateKey → PublicKey
  pub is_p256 : PublicKey → Bool
  -- the base64 text of `JSONWebKey.Thumbprint`
  pub thumbprint : PublicKey → Option String
  -- `jose.NewSigner` with a `kid` header
  pub new_signer : PrivateKey → String → Bool
  -- `json.Marshal` of a key set
  pub marshal : List (String × PublicKey) → Option String
  -- `jwt.NewNumericDate`
  pub numeric_date : ℤ → ℤ
  -- `jwt.Signed(signer).Claims(c).Serialize()`
  pub serialize : PrivateKey → String → JwtClaims → Option String
  -- `jwt.ParseSigned` for ES256
  pub parse_signed : String → Option SignedToken
  -- the `KeyID` of each of the token's headers
  pub key_ids : SignedToken → List String
  -- `tok.Claims(key, &parsed)`
  pub claims_of : SignedToken → PublicKey → Option JwtClaims
  -- `ValidateWithLeeway` for an issuer, at a time, with a leeway
  pub validate : JwtClaims → String → ℤ → ℤ → Bool

-- A serialized token parses, names the one key it was signed for, and gives its claims under the
-- public half of the signing key.
pub record IsJose {PrivateKey PublicKey SignedToken : Type 0}
    (jose : Jose PrivateKey PublicKey SignedToken) : Type 0 where
  pub parses :
      (key : PrivateKey) (kid : String) (c : JwtClaims) (text : String)
      → jose.serialize key kid c ≡ some text
      → (tok : SignedToken) × (jose.parse_signed text ≡ some tok)
        × (jose.key_ids tok ≡ kid ∷ [])
        × (jose.claims_of tok (jose.public_key key) ≡ some c)
