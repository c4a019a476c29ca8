-- ===== src/Oci.antt =====
-- internal/frontend/http/oci/handler.go: the routes below /v2/.
pub mod Routing
pub mod Targets
use image_factory.Prelude.{
  String, Bool, true, false, not, ◌&&◌, ◌||◌, Option, none, some, List, [], ◌∷◌, ◌==◌,
  if◌then◌else◌,
}
use image_factory.Strings.{split, join, trim}

-- `V2Target`
pub data V2Target : Type 0 where
  target_ping target_manifest target_blob target_referrers target_proxy : V2Target

pub record V2Route : Type 0 where
  pub image : String
  pub schematic : String
  pub resource : String
  pub reference : String
  pub target : V2Target

-- `V2Route{Target: V2TargetPing}`
abbrev pub ping_route : V2Route
ping_route = record {
  image = "";
  schematic = "";
  resource = "";
  reference = "";
  target = target_ping;
}

-- The switch on the resource of a proxied path.
unfoldable pub is_proxied : String → String → Bool
is_proxied resource reference =
    if resource == "manifests" || resource == "blobs"
    then true
    else if resource == "tags" && reference == "list"
    then true
    else resource == "referrers"

-- The proxy path, from the components behind `siderolabs`.
unfoldable pub proxy_route : List String → String → String → Option V2Route
proxy_route components resource reference =
    if not (is_proxied resource reference)
    then none
    else if join "/" components == ""
    then none
    else some (record {
      image = join "/" components;
      schematic = "";
      resource = resource;
      reference = reference;
      target = target_proxy;
    })

unfoldable pub target_of : String → V2Target
target_of resource =
    if resource == "blobs"
    then target_blob
    else if resource == "referrers"
    then target_referrers
    else target_manifest

-- `len(repo) != 2`
unfoldable pub schematic_route : List String → String → String → Option V2Route
schematic_route (image ∷ schematic ∷ []) resource reference =
    if not (resource == "manifests") && not (resource == "blobs") && not (resource == "referrers")
    then none
    else some (record {
      image = image;
      schematic = schematic;
      resource = resource;
      reference = reference;
      target = target_of resource;
    })
schematic_route _ resource reference = none

-- The repository's components, which are some.
unfoldable pub repo_route : List String → String → String → Option V2Route
repo_route [] resource reference = none
repo_route (first ∷ rest) resource reference =
    if first == "siderolabs"
    then proxy_route rest resource reference
    else schematic_route (first ∷ rest) resource reference

-- The last two of at least three segments; `none` stands for a shorter path.
unfoldable pub split_tail : List String → Option (List String × String × String)
split_tail [] = none
split_tail (a ∷ []) = none
split_tail (a ∷ b ∷ []) = none
split_tail (a ∷ b ∷ c ∷ []) = some (a ∷ [], b, c)
split_tail (a ∷ b ∷ c ∷ d ∷ rest) = elim (split_tail (b ∷ c ∷ d ∷ rest)) [
  | none ↦ none
  | some (repo, resource, reference) ↦ some (a ∷ repo, resource, reference)
]

-- The checks on the segments, once they are split.
abbrev pub route_tail : Option (List String × String × String) → Option V2Route
route_tail none = none
route_tail (some (repo, resource, reference)) =
    if reference == "" then none else repo_route repo resource reference

-- The route of a path without its outer slashes.
unfoldable pub route_trimmed : String → Option V2Route
route_trimmed trimmed =
    if trimmed == "" then some ping_route else route_tail (split_tail (split b'/' trimmed))

-- `RouteV2`; `none` is the error tagged `RouteNotFoundTag`.
unfoldable pub route_v2 : String → Option V2Route
route_v2 path = route_trimmed (trim b'/' path)

-- What `servePath` answers: the ping, an error, or the call of the handler's `serve` function, if
-- it has one.
pub data Served : Type 0 where
  empty_ok not_found : Served
  dispatched : V2Route → Served

unfoldable pub is_ping : V2Target → Bool
is_ping target_ping = true
is_ping _ = false

unfoldable pub serve_path : Bool → String → Served
serve_path has_serve path = elim (route_v2 path) [
  | none ↦ not_found
  | some route ↦
      if is_ping route.target then empty_ok else if has_serve then dispatched route else not_found
]
