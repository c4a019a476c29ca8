-- ===== src/Token/Scope.antt =====
-- internal/apitoken/scope.go: the catalog of scopes, and the requests that each one allows.
-- The Go map from scopes to predicates is the list of its entries; `Allows` looks the scope up.
pub mod Requests
pub mod Delegated
use image_factory.Prelude.{
  String, Bool, true, false, not, ◌&&◌, ◌||◌, Option, none, some, List, [], ◌∷◌, ◌==◌,
  if◌then◌else◌, contains,
}
use image_factory.Strings.{cut_prefix, has_prefix, cut_suffix, contains_rune}

-- `Scope` is an alias of `string` in the source.
abbrev pub Scope : Type 0
Scope = String

abbrev pub scope_image_read : Scope
scope_image_read = "image:read"

abbrev pub scope_report_read : Scope
scope_report_read = "report:read"

abbrev pub scope_schematic_create : Scope
scope_schematic_create = "schematic:create"

abbrev pub scope_schematic_read : Scope
scope_schematic_read = "schematic:read"

abbrev pub scope_source_pull : Scope
scope_source_pull = "source:pull"

abbrev pub scope_token_issue : Scope
scope_token_issue = "token:issue"

abbrev pub scope_token_read : Scope
scope_token_read = "token:read"

abbrev pub scope_token_revoke : Scope
scope_token_revoke = "token:revoke"

unfoldable pub read_only : String → Bool
read_only method = method == "GET" || method == "HEAD"

unfoldable pub registry_ping : String → Bool
registry_ping path = path == "/v2" || path == "/v2/"

unfoldable pub registry_path : String → Bool
registry_path path = registry_ping path || has_prefix path "/v2/"

unfoldable pub source_path : String → Bool
source_path path = has_prefix path "/v2/siderolabs/"

-- The test on what stands between `/tokens/` and `/revoke`.
unfoldable pub is_token_id : Option String → Bool
is_token_id none = false
is_token_id (some id) = not (id == "") && not (contains_rune b'/' id)

unfoldable pub token_revoke_path : String → Bool
token_revoke_path path = elim (cut_prefix path "/tokens/") [
  | none ↦ false
  | some id ↦ is_token_id (cut_suffix id "/revoke")
]

unfoldable pub allows_image_read : String → String → Bool
allows_image_read method path =
    if not (read_only method)
    then false
    else has_prefix path "/image/"
      || has_prefix path "/pxe/"
      || registry_path path && not (source_path path)

unfoldable pub allows_source_pull : String → String → Bool
allows_source_pull method path = read_only method && (registry_ping path || source_path path)

unfoldable pub allows_schematic_create : String → String → Bool
allows_schematic_create method path = method == "POST" && path == "/schematics"

unfoldable pub allows_schematic_read : String → String → Bool
allows_schematic_read method path = read_only method && has_prefix path "/schematics/"

unfoldable pub allows_report_read : String → String → Bool
allows_report_read method path =
    read_only method
    && (has_prefix path "/spdx/" || has_prefix path "/vex/" || has_prefix path "/scans/")

unfoldable pub allows_token_issue : String → String → Bool
allows_token_issue method path = method == "POST" && path == "/tokens"

unfoldable pub allows_token_read : String → String → Bool
allows_token_read method path = method == "GET" && path == "/tokens"

unfoldable pub allows_token_revoke : String → String → Bool
allows_token_revoke method path = method == "POST" && token_revoke_path path

-- `scopeRoutes`
unfoldable pub scope_routes : List (Scope × (String → String → Bool))
scope_routes =
    (scope_image_read, allows_image_read)
    ∷ (scope_source_pull, allows_source_pull)
    ∷ (scope_schematic_create, allows_schematic_create)
    ∷ (scope_schematic_read, allows_schematic_read)
    ∷ (scope_report_read, allows_report_read)
    ∷ (scope_token_issue, allows_token_issue)
    ∷ (scope_token_read, allows_token_read)
    ∷ (scope_token_revoke, allows_token_revoke)
    ∷ []

-- The lookup of a key in a Go map.
unfoldable pub lookup {ℓ} : {V : Type ℓ} → String → List (String × V) → Option V
lookup key [] = none
lookup key ((name, value) ∷ entries) = if name == key then some value else lookup key entries

unfoldable pub valid : String → Bool
valid scope = elim (lookup scope scope_routes) [ none ↦ false | some allow ↦ true ]

-- One round of the loop in `Allows`.
unfoldable pub scope_allows : Scope → String → String → Bool
scope_allows scope method path = elim (lookup scope scope_routes) [
  | none ↦ false
  | some allow ↦ allow method path
]

unfoldable pub allows : List Scope → String → String → Bool
allows [] method path = false
allows (scope ∷ scopes) method path = scope_allows scope method path || allows scopes method path

unfoldable pub covers : List Scope → List Scope → Bool
covers have [] = true
covers have (scope ∷ want) = if not (contains have scope) then false else covers have want

unfoldable pub can_grant : List Scope → List Scope → Bool
can_grant issuable want = covers issuable want

unfoldable pub api_mintable : List Scope → Bool
api_mintable [] = true
api_mintable (scope ∷ scopes) = if not (valid scope) then false else api_mintable scopes

unfoldable pub storable : List Scope → Bool
storable scopes = api_mintable scopes

unfoldable pub url_safe : List Scope → Bool
url_safe scopes =
    not (contains scopes scope_token_issue)
    && not (contains scopes scope_token_read)
    && not (contains scopes scope_token_revoke)

-- Unfolds every definition of the file, for runs at concrete inputs.
unfoldable pub run : Unit {0}
unfolding has_prefix cut_suffix contains_rune read_only registry_ping registry_path source_path
    is_token_id token_revoke_path allows_image_read allows_source_pull allows_schematic_create
    allows_schematic_read allows_report_read allows_token_issue allows_token_read
    allows_token_revoke scope_routes lookup valid scope_allows allows covers can_grant api_mintable
    storable url_safe
run = tt
