-- ===== src/Examples/Minting.antt =====
-- Runs of the manager and of the handlers of enterprise/tokens.
use image_factory.Prelude.{◌≡◌, refl, ◌≢◌, true, false, none, some, [], ◌∷◌, ◌+ℤ◌, pos, ok}
use image_factory.Strings.{join, fields}
use image_factory.Tokens.Requests.{decode_create_body, CreateParams}
use image_factory.Tokens.Frontend.{
  may_not_grant, bound_to_itself, mint_subject, answer_created, mint, mint_below_cap, create_with,
  handle_create, handle, Setting, created,
}
use image_factory.Tokens.Registry.{is_at, get, put, tags, Record}
use image_factory.Tokens.Storage.{
  sort, read_record, push_record, create, bury, revoke, read_tags, list,
}
use image_factory.Tokens.Storage.Revocation.{here}
use image_factory.Tokens.Manager.{
  record_for, create_token, verify_token, revoke-verify_token, Lookup,
}
use image_factory.Tokens.Frontend.Grants.{create_with-IsMinted, IsMinted}
use image_factory.Tokens.Frontend.Replies.{IsSettled, handle-unchanged}
use image_factory.Token.Scope.{scope_image_read, scope_token_issue, lookup, run}
use image_factory.Token.Scopes.{parse_scopes, format_scopes}
use image_factory.Token.Ttl.{is_zero_ttl, resolve, resolve_ttl}
use image_factory.Token.Verifier.{
  parse_issuable, sole_kid, claims_from, verify_scopes, verify_claims, verify_with, verify_parsed,
  verify,
}
use image_factory.Token.Issuer.{
  check_scopes, delegates_without_issue, accept, sign_token, issue_with_delegation, Claims,
}
use image_factory.Token.Issuer.Verify.{claims_for}
use image_factory.Examples.Tokens.{no_faults, one_path, with_ci}
use image_factory.Examples.Issuing.{toy_jose, toy_issuer}

abbrev ci_verified : Claims
ci_verified =
    claims_for "org" (scope_image_read ∷ []) (record { issuable_scopes = []; any_subject = false })
      true "id"

ci_verifies : verify toy_jose toy_issuer "t" (pos 150) ≡ ok ci_verified
unfolding verify verify_parsed sole_kid verify_with lookup verify_claims verify_scopes parse_scopes
    fields run parse_issuable claims_from delegates_without_issue ◌+ℤ◌
ci_verifies = refl

ci_is_revoked : revoke one_path no_faults (with_ci false) "org" "id" ≡ (with_ci true, none)
unfolding revoke read_record get is_at bury push_record put
ci_is_revoked = refl

abbrev late_read : Lookup
late_read = record { faults = no_faults; registry = with_ci true; instant = pos 150 }

revoke-verify_token_example :
    verify_token toy_jose one_path toy_issuer late_read none "t" (pos 150) ≢ ok (some ci_verified)
revoke-verify_token_example =
    revoke-verify_token toy_jose one_path toy_issuer no_faults late_read (with_ci false)
      (with_ci true) none "t" (pos 150) ci_verified ci_verified ci_verifies refl ci_is_revoked here

-- A caller whose token may issue `image:read`.
abbrev caller : Claims
caller = record {
  subject = "org";
  id = "parent";
  scopes = scope_token_issue ∷ [];
  issuable_scopes = scope_image_read ∷ [];
  stored = true;
  any_subject = false;
}

abbrev calm : Setting
calm = record {
  claims = some caller;
  listing = no_faults;
  writing = no_faults;
  jti = "id";
  now = pos 100;
}

abbrev ci_params : CreateParams
ci_params = record {
  name = "ci";
  subject = "";
  scopes = scope_image_read ∷ [];
  issuable_scopes = [];
  ttl = pos 0;
  stored = true;
}

abbrev minted_record : Record
minted_record = record {
  created_at = pos 100;
  expires_at = pos 3700;
  id = "id";
  name = "ci";
  scopes = scope_image_read ∷ [];
  issuable_scopes = [];
}

ci_is_created :
    (create_with toy_jose one_path toy_issuer 10 calm [] "org" ci_params).1
    ≡ created "t" "org" minted_record true
unfolding create_with run may_not_grant mint_subject mint_below_cap list read_tags tags sort mint
    answer_created create_token issue_with_delegation accept check_scopes delegates_without_issue
    resolve_ttl resolve sign_token ◌+ℤ◌ join format_scopes is_zero_ttl bound_to_itself record_for
    get is_at put create push_record read_record
ci_is_created = refl

create_with-IsMinted_example :
    IsMinted toy_jose one_path toy_issuer 10 calm [] "org" ci_params "org" "t" minted_record
      (create_with toy_jose one_path toy_issuer 10 calm [] "org" ci_params).0
create_with-IsMinted_example =
    create_with-IsMinted toy_jose one_path toy_issuer 10 calm [] "org" ci_params "t" "org"
      minted_record true ci_is_created

handle-unchanged_example : IsSettled toy_jose one_path toy_issuer 10 (with_ci false) (
    handle toy_jose one_path toy_issuer 10
      (λ text. none)
      calm
      (with_ci false)
      (some "org")
      "POST"
      none)
unfolding handle handle_create decode_create_body
handle-unchanged_example =
    handle-unchanged toy_jose one_path toy_issuer 10 (λ text. none) calm (with_ci false)
      (some "org") "POST" none refl
