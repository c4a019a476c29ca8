-- ===== src/Examples/Http.antt =====
-- Runs of the HTTP transport and of the OCI routes.

use image_factory.Prelude.{
  ℕ, suc, String, ◌≡◌, refl, ◌≢◌, ◌⊎◌, inl, true, false, Option, none, some, List, [], ◌∷◌, ◌++◌,
  arith, ◌==◌, if◌then◌else◌, ne_of_test, contains, is_nodup, Result, ok, err,
}
use image_factory.Strings.Cutting.{Lacks}
use image_factory.Strings.{
  cut_prefix, has_prefix, contains_func, contains_rune, split, join, trim_left, trim_right,
  trim_func, trim,
}
use image_factory.Oci.{
  target_of, schematic_route, repo_route, split_tail, route_trimmed, route_v2, V2Route,
  target_manifest,
}
use image_factory.Oci.Targets.{IsProxy, IsSchematic, route_v2-IsProxy}
use image_factory.Oci.Routing.{segments_of, IsSegment, route_v2-path_of}
use image_factory.Transport.Contract.{
  PathItem, dispatcher_path, runtime_contract_path, find_operation, runtime_operation,
  validate_runtime_operation, contract_paths, operation_ids, runtime_dispatcher_operation_ids,
  declare_all, all_in, compare_declared, validate_runtime_dispatcher, Contract,
}
use image_factory.Transport.Contract.Dispatcher.{validate_runtime_dispatcher-exact}
use image_factory.Transport.Route.{
  access_public, access_image_download, protocol_api, protocol_oci, validate_dispatched,
  validate_policy, validate_operation_ownership, is_nil, validate, validate_operations,
  validate_contract, Route, RouteError,
}
use image_factory.Transport.Route.Policy.{IsPolicy, IsOwned, validate-IsPolicy}
use image_factory.Transport.Registrar.{
  has_key, key_of, check_routes, builder_for, handler_of, build_routes, install_routes,
  new_registrar, publish, assemble, candidate, register, Pipeline, Registrar,
}
use image_factory.Transport.Registrar.Published.{
  routes_of, IsSound, new_registrar-IsSound, register-IsSound, register-atomic,
}
use image_factory.Transport.Errors.{ErrorClassification, Writer, warn_level}

abbrev installer_route : V2Route
installer_route = record {
  image = "installer";
  schematic = "376567";
  resource = "manifests";
  reference = "v1.9.0";
  target = target_manifest;
}

slashless : (s : String) → contains_rune b'/' s ≡ false → Lacks b'/' s
unfolding contains_rune contains_func
slashless String.[] h = tt
slashless (String.◌∷◌ c s) h =
    let rest : contains_rune b'/' s ≡ false = ground arith in
    (λ e. ground (arith, h, e), slashless s rest)

pub IsSegment-by : (s : String) → (s == "") ≡ false → contains_rune b'/' s ≡ false → IsSegment s
IsSegment-by s some_text no_slash = (ne_of_test some_text, slashless s no_slash)

installer_is_routed : route_v2 "/installer/376567/manifests/v1.9.0" ≡ some installer_route
unfolding route_v2 route_trimmed trim trim_func trim_left trim_right split split_tail repo_route
    schematic_route target_of
installer_is_routed = refl

route_v2-path_of_example : route_v2 "/installer/376567/manifests/v1.9.0" ≡ some installer_route
unfolding segments_of target_of contains_rune contains_func
route_v2-path_of_example =
    route_v2-path_of installer_route
      (
        IsSegment-by "installer" refl refl,
        (
          IsSegment-by "376567" refl refl,
          (IsSegment-by "manifests" refl refl, (IsSegment-by "v1.9.0" refl refl, tt)),
        ),
      )
      (ne_of_test refl) (inl (refl, refl))

route_v2-IsProxy_example :
    (installer_route.reference ≢ "")
    × (IsProxy ("installer" ∷ "376567" ∷ "manifests" ∷ "v1.9.0" ∷ []) installer_route
        ⊎ IsSchematic ("installer" ∷ "376567" ∷ "manifests" ∷ "v1.9.0" ∷ []) installer_route)
unfolding split trim
route_v2-IsProxy_example =
    route_v2-IsProxy "/installer/376567/manifests/v1.9.0" installer_route installer_is_routed
      (λ e. cc)

-- A document with the operations of the OCI protocol and one more.
abbrev oci_item : String → PathItem
oci_item id method = if method == "GET" then some id else none

abbrev example_contract : Contract
example_contract = record {
  paths = λ path.
      if path == "/v2/"
      then some (oci_item "a")
      else if path == "/v2/{name+}/manifests/{reference}"
      then some (oci_item "b")
      else if path == "/v2/{name+}/blobs/{digest}"
      then some (oci_item "c")
      else if path == "/v2/{name+}/tags/list"
      then some (oci_item "d")
      else if path == "/v2/{name+}/referrers/{digest}"
      then some (oci_item "e")
      else if path == "/image/{id}"
      then some (oci_item "image")
      else none;
}

abbrev oci_ids : List String
oci_ids = "b" ∷ "a" ∷ "c" ∷ "e" ∷ "d" ∷ []

validate_runtime_dispatcher-exact_example :
    (dispatcher_path ≡ "/v2/*path")
    × (◌≡◌ {A = String} "GET" "GET" ⊎ ◌≡◌ {A = String} "GET" "HEAD")
    × (is_nodup oci_ids ≡ true)
    × ((expected : List String) × (operation_ids example_contract "GET" contract_paths
          ≡ ok expected)
        × ((id : String) → contains oci_ids id ≡ contains expected id))
unfolding validate_runtime_dispatcher runtime_dispatcher_operation_ids operation_ids find_operation
    compare_declared declare_all all_in
validate_runtime_dispatcher-exact_example =
    validate_runtime_dispatcher-exact example_contract "GET" dispatcher_path oci_ids refl

abbrev image_route : Route ℕ
image_route = record {
  handler = some 7;
  method = "GET";
  path = "/image/:id";
  operation_id = "image";
  dispatched_operation_ids = [];
  access = access_image_download;
  protocol = protocol_api;
}

validate-IsPolicy_example :
    (is_nil image_route.handler ≡ false)
    × (has_prefix image_route.path "/" ≡ true)
    × IsPolicy image_route
    × ((image_route.protocol ≡ protocol_oci) → (image_route.access ≢ access_public))
    × IsOwned image_route
unfolding validate has_prefix validate_policy validate_operation_ownership
validate-IsPolicy_example = validate-IsPolicy image_route refl

-- The handle of a route is its handler here, and the router counts its routes.
abbrev plain : Route ℕ → Result RouteError (Option ℕ)
plain route = ok route.handler

abbrev example_pipeline : Pipeline ℕ ℕ
example_pipeline = record { application = plain; oci = plain; static_files = plain }

abbrev count_route : ℕ → String → String → ℕ → Option ℕ
count_route router method path handle = some (suc router)

abbrev first_registrar : Registrar ℕ ℕ ℕ
first_registrar = new_registrar 0 count_route example_contract example_pipeline

register-IsSound_example :
    IsSound 0 count_route (register 0 count_route first_registrar (image_route ∷ [])).1
register-IsSound_example =
    register-IsSound 0 count_route first_registrar (image_route ∷ [])
      (new_registrar-IsSound 0 count_route example_contract example_pipeline)

register-atomic_example :
    ((e : RouteError) × (register 0 count_route first_registrar (image_route ∷ [])
        ≡ (err e, first_registrar)))
    ⊎ (((register 0 count_route first_registrar (image_route ∷ [])).0 ≡ ok tt)
        × (routes_of (register 0 count_route first_registrar (image_route ∷ [])).1.installed
            ≡ routes_of first_registrar.installed ++ image_route ∷ []))
register-atomic_example =
    register-atomic 0 count_route first_registrar (image_route ∷ [])
      (new_registrar-IsSound 0 count_route example_contract example_pipeline)

-- The run itself: the route is registered.
register_route : (register 0 count_route first_registrar (image_route ∷ [])).0 ≡ ok tt
unfolding register candidate check_routes validate_contract validate has_prefix validate_policy
    validate_operation_ownership validate_operations validate_runtime_operation runtime_operation
    find_operation new_registrar runtime_contract_path join split has_key build_routes cut_prefix
    assemble builder_for handler_of install_routes key_of publish validate_dispatched
register_route = refl

abbrev new_writer : Writer
new_writer = record {
  www_authenticate = "";
  content_type = "";
  content_type_options = "";
  content_length = none;
  status = none;
  body = "";
}

abbrev unauthenticated : ErrorClassification
unauthenticated = record { message = "no"; status = 401; level = warn_level; is_rendered = true }
