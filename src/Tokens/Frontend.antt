-- ===== src/Tokens/Frontend.antt =====
-- enterprise/tokens/frontend_listcreate.go: the requests that create, list and revoke tokens. A
-- response is its status with what it reports.
pub mod Grants
pub mod Replies
pub mod Revoking
use image_factory.Prelude.{
  ℕ, String, Bool, true, false, not, ◌&&◌, ◌||◌, Option, none, some, List, ℤ, leb, ◌==◌,
  if◌then◌else◌, length, Result, ok, err,
}
use image_factory.Token.Errors.{TokenError, ttl_out_of_range, unknown_scope}
use image_factory.Token.Jose.{Jose}
use image_factory.Token.Issuer.{Issuer, Claims}
use image_factory.Tokens.Registry.{Registry, Record}
use image_factory.Tokens.Storage.{revoke, list, Faults, StorageError, not_found}
use image_factory.Tokens.Manager.{create_token, ManagerError, not_issued, not_stored}
use image_factory.Token.Scope.{can_grant}
use image_factory.Tokens.Requests.{decode_create_body, CreateRequest, CreateParams, Reason}

-- What the handlers answer: 400, 401, 403, 409, 404, 204, 200, or an error for the pipeline.
pub data Response : Type 0 where
  bad_request : Reason → Response
  bad_issue : TokenError → Response
  unauthorized scopes_forbidden subject_forbidden limit_reached token_not_found no_content :
      Response
  created : String → String → Record → Bool → Response
  listed : List Record → Response
  failed : ManagerError → Response

-- What a creation reads of its request and its surroundings: the claims of the token that
-- authenticated it, if one did, the failures of the registry, a fresh UUID and the clock.
pub record Setting : Type 0 where
  pub claims : Option Claims
  pub listing : Faults
  pub writing : Faults
  pub jti : String
  pub now : ℤ

-- `viaToken && (!CanGrant(...) || !CanGrant(...))`
unfoldable pub may_not_grant : Option Claims → CreateParams → Bool
may_not_grant none p = false
may_not_grant (some c) p =
    not (can_grant c.issuable_scopes p.scopes)
    || not (can_grant c.issuable_scopes p.issuable_scopes)

-- `!viaToken || !callerClaims.AnySubject`
unfoldable pub bound_to_itself : Option Claims → Bool
bound_to_itself none = true
bound_to_itself (some c) = not c.any_subject

-- The subject that the token is minted for; `none` is refused.
unfoldable pub mint_subject : Option Claims → String → String → Option String
mint_subject claims org requested =
    if not (requested == "") && not (requested == org)
    then (if bound_to_itself claims then none else some requested)
    else some org

module _ {PrivateKey PublicKey SignedToken : Type 0} (jose : Jose PrivateKey PublicKey SignedToken)
    (org_path_component : String → String) (i : Issuer PrivateKey PublicKey) (max_per_org : ℕ) where
  -- The answer to what the manager returned, with the registry after it.
  unfoldable pub answer_created :
      String → Bool → Registry × Result ManagerError (Record × String) → Registry × Response
  answer_created subject stored (reg, ok (r, text)) = (reg, created text subject r stored)
  answer_created subject stored (reg, err (not_issued ttl_out_of_range)) =
      (reg, bad_issue ttl_out_of_range)
  answer_created subject stored (reg, err (not_issued (unknown_scope s))) =
      (reg, bad_issue (unknown_scope s))
  answer_created subject stored (reg, err e) = (reg, failed e)

  unfoldable pub mint : Setting → Registry → String → CreateParams → Registry × Response
  mint e reg subject p = answer_created subject p.stored (
      create_token jose org_path_component i e.writing reg subject p.name p.scopes
        (record { issuable_scopes = p.issuable_scopes; any_subject = false }) p.stored p.ttl e.jti
        e.now)

  -- The cap on the tokens that are recorded for the subject.
  unfoldable pub mint_below_cap : Setting → Registry → String → CreateParams → Registry × Response
  mint_below_cap e reg subject p =
      if not p.stored
      then mint e reg subject p
      else elim (list org_path_component e.listing reg subject e.now) [
        | err x ↦ (reg, failed (not_stored x))
        | ok existing ↦
            if leb max_per_org (length existing) then (reg, limit_reached) else mint e reg subject p
      ]

  -- `create`, from the accepted parameters.
  unfoldable pub create_with : Setting → Registry → String → CreateParams → Registry × Response
  create_with e reg org p =
      if may_not_grant e.claims p
      then (reg, scopes_forbidden)
      else elim (mint_subject e.claims org p.subject) [
        | none ↦ (reg, subject_forbidden)
        | some subject ↦ mint_below_cap e reg subject p
      ]

  unfoldable pub handle_create :
      (String → Option ℤ) → Setting → Registry → String → Option CreateRequest → Registry × Response
  handle_create parse_duration e reg org body = elim (decode_create_body parse_duration body) [
    | err reason ↦ (reg, bad_request reason)
    | ok p ↦ create_with e reg org p
  ]

-- `RevokeFrontend.Handle`, from what the manager returned.
abbrev pub answer_revoked : Registry × Option StorageError → Registry × Response
answer_revoked (reg, none) = (reg, no_content)
answer_revoked (reg, some not_found) = (reg, token_not_found)
answer_revoked (reg, some e) = (reg, failed (not_stored e))

-- The two operations that mint nothing.
module _ (org_path_component : String → String) where
  unfoldable pub handle_list : Faults → Registry → String → ℤ → Response
  handle_list f reg org now = elim (list org_path_component f reg org now) [
    | err e ↦ failed (not_stored e)
    | ok rs ↦ listed rs
  ]

  -- `RevokeFrontend.Handle`; no organization is a 401.
  unfoldable pub handle_revoke : Faults → Registry → Option String → String → Registry × Response
  handle_revoke f reg none id = (reg, unauthorized)
  handle_revoke f reg (some org) id = answer_revoked (revoke org_path_component f reg org id)

module _ {PrivateKey PublicKey SignedToken : Type 0} (jose : Jose PrivateKey PublicKey SignedToken)
    (org_path_component : String → String) (i : Issuer PrivateKey PublicKey) (max_per_org : ℕ) where
  -- `ListCreateFrontend.Handle`, for the caller that the provider names, if it names one.
  unfoldable pub handle :
      (String → Option ℤ)
      → Setting
      → Registry
      → Option String
      → String
      → Option CreateRequest
      → Registry × Response
  handle parse_duration e reg none method body = (reg, unauthorized)
  handle parse_duration e reg (some org) method body =
      if method == "POST"
      then handle_create jose org_path_component i max_per_org parse_duration e reg org body
      else (reg, handle_list org_path_component e.listing reg org e.now)
