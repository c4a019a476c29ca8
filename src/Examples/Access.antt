-- ===== src/Examples/Access.antt =====
-- Runs of the authentication selector.
use image_factory.Prelude.{
  ℕ, String, ◌≡◌, refl, true, false, Option, none, some, [], ◌∷◌, arith, Result, ok,
}
use image_factory.Strings.{cut_prefix, cut}
use image_factory.Token.Scope.{scope_image_read, run}
use image_factory.Token.Issuer.{Claims}
use image_factory.Transport.Route.{access_public, access_image_download}
use image_factory.Selector.{
  credential_image_download_token, new_principal, equal_fold, bearer_or_basic_token, credential_of,
  token_session, mechanism_of, pass_claims, select_token, middleware, Request, Session, passed,
}
use image_factory.Selector.Decisions.{middleware-IsAuthenticated, IsAuthenticated}

abbrev reader : Claims
reader = record {
  subject = "org";
  id = "id";
  scopes = scope_image_read ∷ [];
  issuable_scopes = [];
  stored = true;
  any_subject = false;
}

abbrev accept_all : String → Result ℕ (Option Claims)
accept_all token = ok (some reader)

abbrev download : Request
download = record {
  method = "GET";
  path = "/image/x";
  query_token = "t";
  authorization = "bearer u";
  basic_password = none;
}

abbrev empty_session : Session
empty_session = record { principal = none; username = none; claims = none; download_token = none }

abbrev reader_session : Session
reader_session = record {
  principal = some (record { username = "org"; credential = credential_image_download_token });
  username = some "org";
  claims = some reader;
  download_token = some "t";
}

download_passes :
    middleware true (some accept_all) access_image_download download empty_session
    ≡ passed reader_session
unfolding middleware select_token credential_of pass_claims run new_principal mechanism_of
    token_session
download_passes = refl

-- On a public route the scheme of the header is read, in any case.
bearer_is_read : credential_of download access_public ≡ ("u", false)
unfolding credential_of bearer_or_basic_token equal_fold cut cut_prefix
bearer_is_read = refl

middleware-IsAuthenticated_example :
    IsAuthenticated true accept_all download access_image_download reader_session
middleware-IsAuthenticated_example =
    middleware-IsAuthenticated true accept_all access_image_download download empty_session
      reader_session (λ e. omega (arith, e)) download_passes
