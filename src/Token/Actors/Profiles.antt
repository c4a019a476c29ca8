-- ===== src/Token/Actors/Profiles.antt =====
-- The profiles of the catalog fit together.
use image_factory.Prelude.{
  String, ◌≡◌, refl, subst, ◌⊎◌, inl, inr, true, false, some, some-injective, List, [], ◌∷◌, ◌==◌,
  Bool-cases, is_empty, All, contains,
}
use image_factory.Token.Scope.{
  Scope, scope_image_read, scope_source_pull, scope_token_issue, can_grant, api_mintable, run,
}
use image_factory.Token.Actors.{
  actor_profiles, scopes_for_actor, ActorProfile, find_profile, automation_scopes, operator_scopes,
  admin_scopes,
}

-- What the issuer asks of a pair of executable and issuable scopes.
pub record IsIssuable (p : List Scope × List Scope) : Type 0 where
  pub some_scope : is_empty p.0 ≡ false
  pub known : api_mintable p.0 ≡ true
  pub known_issuable : api_mintable p.1 ≡ true
  pub within : can_grant p.0 p.1 ≡ true
  pub delegation : (is_empty p.1 ≡ true) ⊎ (contains p.0 scope_token_issue ≡ true)

find_profile-All :
    (P : List Scope × List Scope → Type 0) (actor : String) (profiles : List ActorProfile)
    {p : List Scope × List Scope}
    → All (λ profile. P (profile.scopes, profile.issuable_scopes)) profiles
    → find_profile actor profiles ≡ some p
    → P p
unfolding find_profile
find_profile-All P actor [] h found = cc
find_profile-All P actor (profile ∷ profiles) {p} (here, later) found =
    elim (Bool-cases (profile.id == actor)) [
      | inl same ↦ subst P (some-injective _ _ (rw same at found)) here
      | inr other ↦ find_profile-All P actor profiles later (rw other at found)
    ]

no_delegation :
    (scopes : List Scope)
    → is_empty scopes ≡ false
    → api_mintable scopes ≡ true
    → IsIssuable (scopes, [])
unfolding run
no_delegation scopes h k = record {
  some_scope = h;
  known = k;
  known_issuable = refl;
  within = refl;
  delegation = inl refl;
}

own_scopes :
    (scopes : List Scope)
    → is_empty scopes ≡ false
    → api_mintable scopes ≡ true
    → can_grant scopes scopes ≡ true
    → contains scopes scope_token_issue ≡ true
    → IsIssuable (scopes, scopes)
own_scopes scopes h k w i = record {
  some_scope = h;
  known = k;
  known_issuable = k;
  within = w;
  delegation = inr i;
}

profiles-IsIssuable :
    All (λ profile. IsIssuable (profile.scopes, profile.issuable_scopes)) actor_profiles
unfolding actor_profiles run
profiles-IsIssuable = (
  no_delegation (scope_image_read ∷ []) refl refl,
  (
    no_delegation (scope_source_pull ∷ []) refl refl,
    (
      own_scopes automation_scopes refl refl refl refl,
      (no_delegation operator_scopes refl refl, (own_scopes admin_scopes refl refl refl refl, tt)),
    ),
  ),
)

-- Whatever profile an actor has: its scopes are some and all known, what it may issue is known and
-- part of what it may do, and it may issue nothing unless it holds `token:issue`.
pub scopes_for_actor-IsIssuable :
    (actor : String) (p : List Scope × List Scope) → scopes_for_actor actor ≡ some p → IsIssuable p
unfolding scopes_for_actor
scopes_for_actor-IsIssuable actor p found =
    find_profile-All IsIssuable actor actor_profiles profiles-IsIssuable found
