-- ===== src/Transport/Route.antt =====
-- internal/frontend/http/transport/route.go: the metadata of a route and its checks.
pub mod Policy
use image_factory.Prelude.{
  ℕ, String, Bool, true, false, not, ◌&&◌, ◌||◌, Option, none, some, List, [], ◌∷◌, ltb, nat_eq,
  ◌==◌, if◌then◌else◌, is_empty, contains, ◌>>◌, Result, ok, err,
}
use image_factory.Strings.{has_prefix}
use image_factory.Transport.Contract.{
  dispatcher_path, validate_runtime_operation, validate_runtime_dispatcher, Contract, ContractError,
}

-- `AccessPolicy`, `Protocol`: the constants of two types over `uint8`.
abbrev pub access_public : ℕ
access_public = 1

abbrev pub access_authenticated : ℕ
access_authenticated = 2

abbrev pub access_image_download : ℕ
access_image_download = 3

abbrev pub protocol_api : ℕ
protocol_api = 0

abbrev pub protocol_html : ℕ
protocol_html = 1

abbrev pub protocol_static : ℕ
protocol_static = 2

abbrev pub protocol_browser_auth : ℕ
protocol_browser_auth = 3

abbrev pub protocol_operational : ℕ
protocol_operational = 4

abbrev pub protocol_oci : ℕ
protocol_oci = 5

-- `Route`, over the type of handlers; `none` is the nil handler.
pub record Route (Handler : Type 0) : Type 0 where
  pub handler : Option Handler
  pub method : String
  pub path : String
  pub operation_id : String
  pub dispatched_operation_ids : List String
  pub access : ℕ
  pub protocol : ℕ

-- The errors of `Validate` and `ValidateContract`, and those of the registrar and the pipeline.
pub data RouteError : Type 0 where
  method_required path_required path_without_slash handler_required : RouteError
  unsupported_access unsupported_protocol must_be_public must_require_access : RouteError
  image_download_unsupported dispatcher_undeclared operation_required : RouteError
  dispatcher_misplaced single_operation dispatched_required dispatched_duplicate : RouteError
  duplicate_route build_failed conflicting_routes : RouteError
  contract_error : ContractError → RouteError

-- The loop over the dispatched operations.
unfoldable pub validate_dispatched : List String → List String → Result RouteError (Unit {0})
validate_dispatched seen [] = ok tt
validate_dispatched seen (id ∷ ids) =
    let rest = validate_dispatched (id ∷ seen) ids in
    if id == ""
    then err dispatched_required
    else if contains seen id
    then err dispatched_duplicate
    else rest

abbrev pub lift_contract : Result ContractError (Unit {0}) → Result RouteError (Unit {0})
lift_contract (ok u) = ok tt
lift_contract (err e) = err (contract_error e)

module _ {Handler : Type 0} where
  -- `validatePolicy`
  unfoldable pub validate_policy : Route Handler → Result RouteError (Unit {0})
  validate_policy route =
      if nat_eq route.protocol protocol_static
        || nat_eq route.protocol protocol_browser_auth
        || nat_eq route.protocol protocol_operational
      then if not (nat_eq route.access access_public) then err must_be_public else ok tt
      else if nat_eq route.protocol protocol_oci
      then if not (nat_eq route.access access_authenticated)
          && not (nat_eq route.access access_image_download)
        then err must_require_access
        else ok tt
      else if nat_eq route.protocol protocol_api || nat_eq route.protocol protocol_html
      then if nat_eq route.access access_image_download && not (nat_eq route.protocol protocol_api)
        then err image_download_unsupported
        else ok tt
      else ok tt

  -- `validateOperationOwnership`
  unfoldable pub validate_operation_ownership : Route Handler → Result RouteError (Unit {0})
  validate_operation_ownership route =
      let ids = route.dispatched_operation_ids in
      if route.path == dispatcher_path && is_empty ids
      then err dispatcher_undeclared
      else if is_empty ids
      then if route.operation_id == "" then err operation_required else ok tt
      else if not (route.path == dispatcher_path) || not (nat_eq route.protocol protocol_oci)
      then err dispatcher_misplaced
      else if not (route.operation_id == "")
      then err single_operation
      else validate_dispatched [] ids

  abbrev pub is_nil : Option Handler → Bool
  is_nil none = true
  is_nil (some handler) = false

  -- `Validate`
  unfoldable pub validate : Route Handler → Result RouteError (Unit {0})
  validate route =
      if route.method == ""
      then err method_required
      else if route.path == ""
      then err path_required
      else if not (has_prefix route.path "/")
      then err path_without_slash
      else if is_nil route.handler
      then err handler_required
      else if ltb route.access access_public || ltb access_image_download route.access
      then err unsupported_access
      else if ltb protocol_oci route.protocol
      then err unsupported_protocol
      else validate_policy route >> validate_operation_ownership route

  -- The check of a valid route against the contract.
  unfoldable pub validate_operations : Contract → Route Handler → Result RouteError (Unit {0})
  validate_operations contract route = lift_contract (
      if not (is_empty route.dispatched_operation_ids)
      then validate_runtime_dispatcher contract route.method route.path
          route.dispatched_operation_ids
      else validate_runtime_operation contract route.method route.path route.operation_id)

  -- `ValidateContract`, for the contract that a registrar always has
  unfoldable pub validate_contract : Contract → Route Handler → Result RouteError (Unit {0})
  validate_contract contract route = validate route >> validate_operations contract route
