-- ===== src/Transport/Registrar.antt =====
-- internal/frontend/http/transport/registrar.go and pipeline.go: the routes of the server.
pub mod Published
use image_factory.Prelude.{
  String, Bool, false, ◌&&◌, ◌||◌, Option, none, some, List, [], ◌∷◌, ◌++◌, nat_eq, ◌==◌,
  if◌then◌else◌, ◌>>=◌, Result, ok, err,
}
use image_factory.Transport.Contract.{Contract}
use image_factory.Transport.Route.{
  protocol_api, protocol_html, protocol_static, protocol_browser_auth, protocol_operational,
  protocol_oci, validate_contract, Route, RouteError, unsupported_protocol, duplicate_route,
  build_failed, conflicting_routes,
}

-- `routeKey`
pub record RouteKey : Type 0 where
  pub method : String
  pub path : String

unfoldable pub has_key : List RouteKey → RouteKey → Bool
has_key [] key = false
has_key (k ∷ ks) key = k.method == key.method && k.path == key.path || has_key ks key

module _ {Handler : Type 0} where
  unfoldable pub key_of : Route Handler → RouteKey
  key_of route = record { method = route.method; path = route.path }

  -- The loop that checks the new routes; it returns `seen`.
  unfoldable pub check_routes :
      Contract
      → List RouteKey
      → List RouteKey
      → List (Route Handler)
      → Result RouteError (List RouteKey)
  check_routes contract registered seen [] = ok seen
  check_routes contract registered seen (route ∷ routes) =
      let rest = check_routes contract registered (seen ++ key_of route ∷ []) routes in
      validate_contract contract route >>= λ _.
      if has_key registered (key_of route)
      then err duplicate_route
      else if has_key seen (key_of route)
      then err duplicate_route
      else rest

-- `Pipeline`: its three `HandlerBuilder`s; the option is the handle, which may be nil.
pub record Pipeline (Handler Handle : Type 0) : Type 0 where
  pub application : Route Handler → Result RouteError (Option Handle)
  pub oci : Route Handler → Result RouteError (Option Handle)
  pub static_files : Route Handler → Result RouteError (Option Handle)

pub record RegisteredRoute (Handler Handle : Type 0) : Type 0 where
  pub route : Route Handler
  pub handle : Handle

abbrev pub not_nil : {Handle : Type 0} → Option Handle → Result RouteError Handle
not_nil none = err build_failed
not_nil (some handle) = ok handle

module _ {Handler Handle : Type 0} where
  -- The switch on the protocol.
  unfoldable pub builder_for :
      Pipeline Handler Handle
      → Route Handler
      → Result RouteError (Route Handler → Result RouteError (Option Handle))
  builder_for pipeline route =
      if nat_eq route.protocol protocol_api
        || nat_eq route.protocol protocol_html
        || nat_eq route.protocol protocol_browser_auth
        || nat_eq route.protocol protocol_operational
      then ok pipeline.application
      else if nat_eq route.protocol protocol_oci
      then ok pipeline.oci
      else if nat_eq route.protocol protocol_static
      then ok pipeline.static_files
      else err unsupported_protocol

  -- `Pipeline.Handler`
  unfoldable pub handler_of : Pipeline Handler Handle → Route Handler → Result RouteError Handle
  handler_of pipeline route = builder_for pipeline route >>= λ builder. builder route >>= not_nil

  -- The loop that builds the handles.
  unfoldable pub build_routes :
      Pipeline Handler Handle
      → List (Route Handler)
      → Result RouteError (List (RegisteredRoute Handler Handle))
  build_routes pipeline [] = ok []
  build_routes pipeline (route ∷ routes) =
      let rest = build_routes pipeline routes in
      handler_of pipeline route >>= λ handle.
      rest >>= λ built. ok (record { route = route; handle = handle } ∷ built)

-- `Registrar`, with the router that it has published.
pub record Registrar (Handler Handle Router : Type 0) : Type 0 where
  pub contract : Contract
  pub pipeline : Pipeline Handler Handle
  pub published : Router
  pub registered : List RouteKey
  pub installed : List (RegisteredRoute Handler Handle)

abbrev pub Candidate : Type 0 → Type 0 → Type 0 → Type 0
Candidate Handler Handle Router = List RouteKey × List (RegisteredRoute Handler Handle) × Router

-- The router of httprouter: an empty one, and its `Handle`, whose panic is `none`.
module _ {Handler Handle Router : Type 0} (new_router : Router)
    (add_handle : Router → String → String → Handle → Option Router) where
  -- `installRoutes`, with its `recover`
  unfoldable pub install_routes :
      Router → List (RegisteredRoute Handler Handle) → Result RouteError Router
  install_routes router [] = ok router
  install_routes router (r ∷ rs) = elim (add_handle router r.route.method r.route.path r.handle) [
    | none ↦ err conflicting_routes
    | some next ↦ install_routes next rs
  ]

  -- `NewRegistrar`
  unfoldable pub new_registrar :
      Contract → Pipeline Handler Handle → Registrar Handler Handle Router
  new_registrar contract pipeline = record {
    contract = contract;
    pipeline = pipeline;
    published = new_router;
    registered = [];
    installed = [];
  }

  -- The stores at the end of `Register`.
  unfoldable pub publish :
      Registrar Handler Handle Router
      → List RouteKey
      → List (RegisteredRoute Handler Handle)
      → Router
      → Registrar Handler Handle Router
  publish registrar seen candidates router = record {
    contract = registrar.contract;
    pipeline = registrar.pipeline;
    published = router;
    registered = registrar.registered ++ seen;
    installed = candidates;
  }

  -- The candidate of `Register`, from the keys that were checked and the handles that were built.
  unfoldable pub assemble :
      Registrar Handler Handle Router
      → List RouteKey
      → List (RegisteredRoute Handler Handle)
      → Result RouteError (Candidate Handler Handle Router)
  assemble registrar seen built =
      install_routes new_router (registrar.installed ++ built) >>= λ router.
      ok (seen, registrar.installed ++ built, router)

  unfoldable pub candidate :
      Registrar Handler Handle Router
      → List (Route Handler)
      → Result RouteError (Candidate Handler Handle Router)
  candidate registrar routes =
      check_routes registrar.contract registrar.registered [] routes >>= λ seen.
      build_routes registrar.pipeline routes >>= assemble registrar seen

  -- The end of `Register`: its error, or the stores.
  abbrev pub settle :
      Registrar Handler Handle Router
      → Result RouteError (Candidate Handler Handle Router)
      → Result RouteError (Unit {0}) × Registrar Handler Handle Router
  settle registrar (err e) = (err e, registrar)
  settle registrar (ok (seen, candidates, router)) =
      (ok tt, publish registrar seen candidates router)

  -- `Register`: its error, and the registrar behind it.
  unfoldable pub register :
      Registrar Handler Handle Router
      → List (Route Handler)
      → Result RouteError (Unit {0}) × Registrar Handler Handle Router
  register registrar routes = settle registrar (candidate registrar routes)
