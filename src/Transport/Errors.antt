-- ===== src/Transport/Errors.antt =====
-- internal/frontend/http/transport/errors.go: how an error becomes a response.
pub mod Replies
use Prim.Native.String.{len}
use image_factory.Prelude.{
  ℕ, ◌+◌, String, Bool, true, false, not, ◌&&◌, Option, none, some, List, [], ◌∷◌, nat_eq, ◌==◌,
  ◌⧺◌, if◌then◌else◌, any,
}
use image_factory.Transport.Route.{protocol_browser_auth}

-- The tags that an error may carry, by the package that declares them.
pub data Tag : Type 0 where
  enterprise_responded enterprise_not_enabled enterprise_not_ready enterprise_invalid : Tag
  proxy_unavailable storage_not_found artifacts_not_found schematic_not_found : Tag
  registry_not_found route_not_found method_not_allowed profile_invalid schematic_invalid : Tag
  invalid_image invalid_request requires_authentication forbidden : Tag

pub data Level : Type 0 where
  info_level warn_level error_level : Level

-- `ErrorClassification`
pub record ErrorClassification : Type 0 where
  pub message : String
  pub status : ℕ
  pub level : Level
  pub is_rendered : Bool

-- `rendered`
unfoldable pub rendered : String → ℕ → ErrorClassification
rendered message status = record {
  message = message;
  status = status;
  level = warn_level;
  is_rendered = true;
}

abbrev pub silent : ℕ → Level → ErrorClassification
silent status level = record { message = ""; status = status; level = level; is_rendered = false }

abbrev pub not_found_tags : List Tag
not_found_tags =
    storage_not_found ∷ artifacts_not_found ∷ schematic_not_found ∷ registry_not_found
    ∷ route_not_found ∷ []

abbrev pub bad_request_tags : List Tag
bad_request_tags =
    profile_invalid ∷ schematic_invalid ∷ enterprise_invalid ∷ invalid_image ∷ invalid_request ∷ []

abbrev pub internal_error : ErrorClassification
internal_error = record {
  message = "internal server error";
  status = 500;
  level = error_level;
  is_rendered = true;
}

-- Go's errors: their text, `xerrors.TagIs`, and `errors.Is` with `context.Canceled`.
module _ {Err : Type 0} (text_of : Err → String) (tag_is : Err → Tag → Bool)
    (is_canceled : Err → Bool) where
  -- `ClassifyError`
  unfoldable pub classify_error : Option Err → ErrorClassification
  classify_error none = silent 200 info_level
  classify_error (some e) =
      if tag_is e enterprise_responded
      then silent 200 warn_level
      else if tag_is e enterprise_not_enabled
      then rendered (text_of e) 402
      else if tag_is e enterprise_not_ready
      then rendered "service temporarily unavailable" 503
      else if tag_is e proxy_unavailable
      then rendered (text_of e) 503
      else if any (tag_is e) not_found_tags
      then rendered (text_of e) 404
      else if tag_is e method_not_allowed
      then rendered (text_of e) 405
      else if any (tag_is e) bad_request_tags
      then rendered (text_of e) 400
      else if tag_is e requires_authentication
      then rendered "authentication required to access this schematic" 401
      else if tag_is e forbidden
      then rendered "access denied" 403
      else if is_canceled e
      then silent 499 info_level
      else internal_error

-- The response writer: the headers that the code reads or sets, the status, and the body. The
-- value of Content-Length is the number that `strconv.Itoa` prints; "" is a header that is unset.
pub record Writer : Type 0 where
  pub www_authenticate : String
  pub content_type : String
  pub content_type_options : String
  pub content_length : Option ℕ
  pub status : Option ℕ
  pub body : String

abbrev pub challenge : String
challenge = "Basic realm=\"Image Factory Enterprise\", charset=\"UTF-8\""

unfoldable pub with_challenge : ErrorClassification → ℕ → Writer → Writer
with_challenge c protocol w =
    if nat_eq c.status 401
      && not (nat_eq protocol protocol_browser_auth)
      && w.www_authenticate == ""
    then record {
      www_authenticate = challenge;
      content_type = w.content_type;
      content_type_options = w.content_type_options;
      content_length = w.content_length;
      status = w.status;
      body = w.body;
    }
    else w

-- The reply to HEAD.
unfoldable pub head_error : ErrorClassification → Writer → Writer
head_error c w = record {
  www_authenticate = w.www_authenticate;
  content_type = "text/plain; charset=utf-8";
  content_type_options = "nosniff";
  content_length = some (len c.message + 1);
  status = some c.status;
  body = w.body;
}

-- `http.Error`
unfoldable pub http_error : ErrorClassification → Writer → Writer
http_error c w = record {
  www_authenticate = w.www_authenticate;
  content_type = "text/plain; charset=utf-8";
  content_type_options = "nosniff";
  content_length = none;
  status = some c.status;
  body = w.body ⧺ c.message ⧺ "\n";
}

-- `RenderError`
unfoldable pub render_error : String → ℕ → ErrorClassification → Writer → Writer
render_error method protocol c w =
    if not c.is_rendered
    then w
    else if method == "HEAD"
    then head_error c (with_challenge c protocol w)
    else http_error c (with_challenge c protocol w)
