-- ===== src/Token/Actors.antt =====
-- internal/apitoken/scope.go: the fixed profiles of the actors that the web UI offers.
pub mod Profiles
use image_factory.Prelude.{String, Option, none, some, List, [], ◌∷◌, map, ◌==◌, if◌then◌else◌}
use image_factory.Token.Scope.{
  Scope, scope_image_read, scope_report_read, scope_schematic_create, scope_schematic_read,
  scope_source_pull, scope_token_issue, scope_token_read, scope_token_revoke,
}

pub record ActorProfile : Type 0 where
  pub id : String
  pub scopes : List Scope
  pub issuable_scopes : List Scope

abbrev automation_scopes : List Scope
automation_scopes =
    scope_image_read ∷ scope_report_read ∷ scope_schematic_create ∷ scope_schematic_read
    ∷ scope_token_issue ∷ []

abbrev operator_scopes : List Scope
operator_scopes =
    scope_image_read ∷ scope_report_read ∷ scope_schematic_create ∷ scope_schematic_read
    ∷ scope_source_pull ∷ []

abbrev admin_scopes : List Scope
admin_scopes =
    scope_image_read ∷ scope_report_read ∷ scope_schematic_create ∷ scope_schematic_read
    ∷ scope_source_pull ∷ scope_token_issue ∷ scope_token_read ∷ scope_token_revoke ∷ []

-- `actorProfiles`; a nil slice of scopes is the empty list.
unfoldable pub actor_profiles : List ActorProfile
actor_profiles =
    record { id = "talos"; scopes = scope_image_read ∷ []; issuable_scopes = [] }
    ∷ record { id = "onprem"; scopes = scope_source_pull ∷ []; issuable_scopes = [] }
    ∷ record { id = "automation"; scopes = automation_scopes; issuable_scopes = automation_scopes }
    ∷ record { id = "operator"; scopes = operator_scopes; issuable_scopes = [] }
    ∷ record { id = "admin"; scopes = admin_scopes; issuable_scopes = admin_scopes }
    ∷ []

unfoldable pub actors : List String
unfolding actor_profiles
actors = map (λ profile. profile.id) actor_profiles

-- The loop of `ScopesForActor`.
find_profile : String → List ActorProfile → Option (List Scope × List Scope)
find_profile actor [] = none
find_profile actor (profile ∷ profiles) =
    if profile.id == actor
    then some (profile.scopes, profile.issuable_scopes)
    else find_profile actor profiles

unfoldable pub scopes_for_actor : String → Option (List Scope × List Scope)
unfolding find_profile
scopes_for_actor actor = find_profile actor actor_profiles
