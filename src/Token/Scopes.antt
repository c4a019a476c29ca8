-- ===== src/Token/Scopes.antt =====
-- internal/apitoken/apitoken.go: the scope claim as text, `ParseScopes` and `FormatScopes`.
pub mod RoundTrip
use image_factory.Prelude.{
  String, not, List, [], ◌∷◌, ◌++◌, if◌then◌else◌, is_empty, contains, Result, ok, err,
}
use image_factory.Strings.{join, fields}
use image_factory.Token.Errors.{TokenError, unknown_scope, missing_scope}
use image_factory.Token.Scope.{Scope, valid}

-- `if !slices.Contains(scopes, scope) { scopes = append(scopes, scope) }`
abbrev add_new : List Scope → Scope → List Scope
add_new scopes scope = if not (contains scopes scope) then scopes ++ scope ∷ [] else scopes

-- The loop of `ParseScopes`, over the scopes so far and the fields that are left.
collect : List Scope → List String → Result TokenError (List Scope)
collect scopes [] = ok scopes
collect scopes (field ∷ rest) =
    if not (valid field) then err (unknown_scope field) else collect (add_new scopes field) rest

unfoldable pub parse_scopes : String → Result TokenError (List Scope)
unfolding collect
parse_scopes claim =
    let found = fields claim in if is_empty found then err missing_scope else collect [] found

unfoldable pub format_scopes : List Scope → String
format_scopes scopes = join " " scopes
