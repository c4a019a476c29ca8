-- ===== src/Selector.antt =====
-- internal/frontend/http/authentication/selector.go and internal/authn/principal.go: how a request
-- is authenticated.
pub mod Decisions
use image_factory.Prelude.{
  ℕ, ◌+◌, String, Bool, true, false, not, ◌&&◌, ◌||◌, Option, none, some, ltb, leb, nat_eq, ◌==◌,
  if◌then◌else◌, Result, ok, err,
}
use Prim.Native.Char.{code}
use image_factory.Strings.{cut}
use image_factory.Token.Verifier.{verify}
use image_factory.Token.Issuer.{Claims}
use image_factory.Token.Scope.{allows, url_safe}
use image_factory.Transport.Route.{access_public}

-- `Credential`: the constants of a type over `uint8`.
abbrev pub credential_anonymous : ℕ
credential_anonymous = 0

abbrev pub credential_provider : ℕ
credential_provider = 1

abbrev pub credential_api_token : ℕ
credential_api_token = 2

abbrev pub credential_image_download_token : ℕ
credential_image_download_token = 3

pub record Principal : Type 0 where
  pub username : String
  pub credential : ℕ

-- `NewPrincipal`; `none` is its error.
unfoldable pub new_principal : String → ℕ → Option Principal
new_principal username credential =
    if username == ""
    then none
    else if ltb credential credential_provider || ltb credential_image_download_token credential
    then none
    else some (record { username = username; credential = credential })

-- `Authenticated`
unfoldable pub is_authenticated : Principal → Bool
is_authenticated p = not (p.username == "") && not (nat_eq p.credential credential_anonymous)

-- What the selector reads of a request: `query_token` is the parameter `token` of its query, and
-- `basic_password` the password that `BasicAuth` finds.
pub record Request : Type 0 where
  pub method : String
  pub path : String
  pub query_token : String
  pub authorization : String
  pub basic_password : Option String

-- The values of a request's context.
pub record Session : Type 0 where
  pub principal : Option Principal
  pub username : Option String
  pub claims : Option Claims
  pub download_token : Option String

-- Whether two characters are equal but for the case of ASCII letters.
abbrev folded : ℕ → ℕ
folded c = if leb b'A' c && leb c b'Z' then c + 32 else c

-- `strings.EqualFold`, of a text with ASCII letters other than `k` and `s`.
unfoldable pub equal_fold : String → String → Bool
equal_fold String.[] String.[] = true
equal_fold String.[] (String.◌∷◌ d t) = false
equal_fold (String.◌∷◌ c s) String.[] = false
equal_fold (String.◌∷◌ c s) (String.◌∷◌ d t) =
    nat_eq (folded (code c)) (folded (code d)) && equal_fold s t

-- `strings.Cut` where the third result is not read.
abbrev pub before_after : String → Option (String × String) → String × String
before_after s (some parts) = parts
before_after s none = (s, "")

abbrev pub or_empty : Option String → String
or_empty (some password) = password
or_empty none = ""

-- `bearerOrBasicToken`
unfoldable pub bearer_or_basic_token : Request → String
bearer_or_basic_token r =
    let (scheme, value) = before_after r.authorization (cut r.authorization " ") in
    if equal_fold scheme "Bearer" then value else or_empty r.basic_password

-- `credential`
unfoldable pub credential_of : Request → ℕ → String × Bool
credential_of r access =
    if not (nat_eq access access_public)
      && (r.method == "GET" || r.method == "HEAD")
      && not (r.query_token == "")
    then (r.query_token, true)
    else (bearer_or_basic_token r, false)

-- How a request goes on: to the handler with a session; to the fallback, which is the provider's
-- middleware or, without a provider, the handler; or the verifier's error.
pub data Decision (E : Type 0) : Type 0 where
  passed : Session → Decision E
  fell_back : Decision E
  refused : E → Decision E

-- The session of a request that a token authenticates.
unfoldable pub token_session : Bool → Session → String → Bool → Claims → Principal → Session
token_session sets_username session token is_url_safe claims principal = record {
  principal = some principal;
  username = if sets_username then some claims.subject else session.username;
  claims = some claims;
  download_token = if is_url_safe then some token else session.download_token;
}

-- The mechanism of a token.
unfoldable pub mechanism_of : Bool → Bool → ℕ
mechanism_of from_query is_url_safe =
    if from_query && is_url_safe then credential_image_download_token else credential_api_token

-- `selector.verifier.Verify`, and whether the provider keeps a username in the context.
module _ {E : Type 0} (sets_username : Bool) where
  -- The end of the middleware, from the principal.
  abbrev pub pass_principal : Session → String → Bool → Claims → Option Principal → Decision E
  pass_principal session token is_url_safe claims none = fell_back
  pass_principal session token is_url_safe claims (some p) =
      passed (token_session sets_username session token is_url_safe claims p)

  -- The checks of a token that is valid.
  unfoldable pub pass_claims : Request → Session → String → Bool → Claims → Decision E
  pass_claims r session token from_query claims =
      if not (allows claims.scopes r.method r.path)
      then fell_back
      else if from_query && not (url_safe claims.scopes)
      then fell_back
      else pass_principal session token (url_safe claims.scopes) claims
          (new_principal claims.subject (mechanism_of from_query (url_safe claims.scopes)))

  abbrev pub pass_verified :
      Request → Session → String → Bool → Result E (Option Claims) → Decision E
  pass_verified r session token from_query (err e) = refused e
  pass_verified r session token from_query (ok none) = fell_back
  pass_verified r session token from_query (ok (some claims)) =
      pass_claims r session token from_query claims

  -- The handler that the middleware returns, for a verifier, if there is one.
  unfoldable pub select_token :
      Option (String → Result E (Option Claims)) → Request → Session → String × Bool → Decision E
  select_token none r session found = fell_back
  select_token (some verify) r session (token, from_query) =
      if token == "" then fell_back else pass_verified r session token from_query (verify token)

  -- `Middleware`
  unfoldable pub middleware :
      Option (String → Result E (Option Claims)) → ℕ → Request → Session → Decision E
  middleware verifier access r session =
      if nat_eq access access_public
      then passed session
      else select_token verifier r session (credential_of r access)
