-- ===== src/Tokens/Requests.antt =====
-- enterprise/tokens/frontend_listcreate.go: the request for a creation. The JSON body is decoded by
-- `encoding/json`: `none` is a body that is no object of the type, or too long.
-- `time.ParseDuration` is a parameter.
use Prim.Native.String.{len}
use image_factory.Prelude.{
  ℕ, String, Bool, true, false, not, ◌&&◌, ◌||◌, Option, none, some, List, [], ◌∷◌, leb_ℤ, ℤ, pos,
  ltb, ◌==◌, if◌then◌else◌, is_empty, contains, ◌>>=◌, ◌>>◌, guard, Result, ok, err,
}
use image_factory.Strings.{contains_func, join, is_space, is_control, trim_space}
use image_factory.Token.Errors.{TokenError}
use image_factory.Token.Actors.{scopes_for_actor}
use image_factory.Token.Scopes.{parse_scopes}
use image_factory.Token.Scope.{Scope, scope_token_issue, api_mintable}

-- `createRequest`; a pointer is an `Option`.
pub record CreateRequest : Type 0 where
  pub stored : Option Bool
  pub scopes : Option (List String)
  pub issuable_scopes : Option (List String)
  pub name : String
  pub actor : String
  pub subject : String
  pub ttl : String

pub record CreateParams : Type 0 where
  pub name : String
  pub subject : String
  pub scopes : List Scope
  pub issuable_scopes : List Scope
  pub ttl : ℤ
  pub stored : Bool

-- The reasons for a 400, one constructor for each message.
pub data Reason : Type 0 where
  malformed actor_with_scopes unknown_actor scopes_required unknown_in_scopes : Reason
  issuable_without_issue name_required invalid_ttl invalid_subject : Reason
  bad_scopes : TokenError → Reason

abbrev pub max_subject_bytes : ℕ
max_subject_bytes = 256

unfoldable pub has_explicit_scopes : CreateRequest → Bool
has_explicit_scopes r = elim r.scopes [
  | some s ↦ true
  | none ↦ elim r.issuable_scopes [ some s ↦ true | none ↦ false ]
]

unfoldable pub valid_subject : String → Bool
valid_subject subject =
    if subject == "" || ltb max_subject_bytes (len subject)
    then false
    else not (contains_func (λ r. is_control r || is_space r) subject)

-- `ParseScopes`, its error being the reason.
abbrev parse_reason : String → Result Reason (List Scope)
parse_reason claim = elim (parse_scopes claim) [ err e ↦ err (bad_scopes e) | ok s ↦ ok s ]

-- The scopes of an actor's profile, or those of the body.
unfoldable pub chosen_scopes :
    String → Option (List String) → Result Reason (List Scope × List Scope)
chosen_scopes actor requested =
    if not (actor == "")
    then elim (scopes_for_actor actor) [ none ↦ err unknown_actor | some p ↦ ok p ]
    else elim requested [
      | none ↦ err scopes_required
      | some names ↦ if is_empty names then err scopes_required else (do
        scopes ← parse_reason (join " " names)
        guard (api_mintable scopes) unknown_in_scopes
        ok (scopes, []))
    ]

-- `body.IssuableScopes`, if it is given and not empty, replaces what the profile says.
unfoldable pub chosen_issuable :
    List Scope → List Scope → Option (List String) → Result Reason (List Scope)
chosen_issuable scopes issuable none = ok issuable
chosen_issuable scopes issuable (some []) = ok issuable
chosen_issuable scopes issuable (some (name ∷ names)) = do
  parsed ← parse_reason (join " " (name ∷ names))
  guard (contains scopes scope_token_issue) issuable_without_issue
  ok parsed

-- `body.Stored == nil || *body.Stored`
abbrev is_stored : Option Bool → Bool
is_stored none = true
is_stored (some b) = b

module _ (parse_duration : String → Option ℤ) where
  unfoldable pub parse_ttl : String → Option ℤ
  parse_ttl raw = if raw == "" then some (pos 0) else elim (parse_duration raw) [
    | none ↦ none
    | some ttl ↦ if leb_ℤ ttl (pos 0) then none else some ttl
  ]

  abbrev ttl_reason : String → Result Reason ℤ
  ttl_reason raw = elim (parse_ttl raw) [ none ↦ err invalid_ttl | some ttl ↦ ok ttl ]

  -- The rest of `decodeCreateBody`, once the scopes are known.
  unfoldable pub finish_params :
      CreateRequest → List Scope → List Scope → Result Reason CreateParams
  finish_params body scopes issuable = do
    guard (not (trim_space body.name == "" && is_stored body.stored)) name_required
    ttl ← ttl_reason body.ttl
    guard (trim_space body.subject == "" || valid_subject (trim_space body.subject)) invalid_subject
    ok (record {
      name = trim_space body.name;
      subject = trim_space body.subject;
      scopes = scopes;
      issuable_scopes = issuable;
      ttl = ttl;
      stored = is_stored body.stored;
    })

  abbrev pub issuable_params : CreateRequest → List Scope × List Scope → Result Reason CreateParams
  issuable_params body (scopes, preset) = do
    issuable ← chosen_issuable scopes preset body.issuable_scopes
    finish_params body scopes issuable

  -- `decodeCreateBody`
  unfoldable pub decode_create_body : Option CreateRequest → Result Reason CreateParams
  decode_create_body none = err malformed
  decode_create_body (some body) = do
    guard (not (not (trim_space body.actor == "") && has_explicit_scopes body)) actor_with_scopes
    chosen ← chosen_scopes (trim_space body.actor) body.scopes
    issuable_params body chosen
