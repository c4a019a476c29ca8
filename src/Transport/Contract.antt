-- ===== src/Transport/Contract.antt =====
-- api/openapi.go: the check of runtime routes against the OpenAPI document.
pub mod Dispatcher
use image_factory.Prelude.{
  String, not, ◌||◌, Option, none, some, List, [], ◌∷◌, ◌==◌, ◌⧺◌, if◌then◌else◌, contains, ◌>>=◌,
  ◌>>◌, guard, Result, ok, err,
}
use image_factory.Strings.{cut_prefix, split, join}

-- A path item of the document (kin-openapi), as the operation ID that its `GetOperation` finds.
abbrev pub PathItem : Type 0
PathItem = String → Option String

-- `Contract`: the paths of its document.
pub record Contract : Type 0 where
  pub paths : String → Option PathItem

pub data ContractError : Type 0 where
  needs_dispatcher not_declared not_a_dispatcher requires_operation : ContractError
  wrong_operation declared_twice missing_operation unexpected_operation : ContractError

abbrev pub dispatcher_path : String
dispatcher_path = "/v2/*path"

unfoldable contract_segment : String → String
contract_segment segment = elim (cut_prefix segment ":") [
  | some name ↦ "{" ⧺ name ⧺ "}"
  | none ↦ elim (cut_prefix segment "*") [ some name ↦ "{" ⧺ name ⧺ "+}" | none ↦ segment ]
]

contract_segments : List String → List String
unfolding contract_segment
contract_segments [] = []
contract_segments (s ∷ ss) = contract_segment s ∷ contract_segments ss

-- `runtimeContractPath`
unfoldable pub runtime_contract_path : String → String
unfolding contract_segments
runtime_contract_path runtime_path = join "/" (contract_segments (split b'/' runtime_path))

-- `GetOperation` of the path item, if there is one.
unfoldable pub find_operation : Contract → String → String → Option String
find_operation contract method path = elim (contract.paths path) [
  | none ↦ none
  | some item ↦ item method
]

-- `runtimeOperation`
unfoldable pub runtime_operation : Contract → String → String → Result ContractError String
runtime_operation contract method runtime_path =
    elim (find_operation contract method (runtime_contract_path runtime_path)) [
      | none ↦ err not_declared
      | some operation_id ↦ ok operation_id
    ]

-- `ValidateRuntimeOperation`
unfoldable pub validate_runtime_operation :
    Contract → String → String → String → Result ContractError (Unit {0})
validate_runtime_operation contract method runtime_path operation_id =
    if runtime_path == dispatcher_path
    then err needs_dispatcher
    else runtime_operation contract method runtime_path >>= λ found.
        guard (found == operation_id) wrong_operation

-- The paths of the document that the dispatcher serves.
abbrev pub contract_paths : List String
contract_paths =
    "/v2/" ∷ "/v2/{name+}/manifests/{reference}" ∷ "/v2/{name+}/blobs/{digest}"
    ∷ "/v2/{name+}/tags/list" ∷ "/v2/{name+}/referrers/{digest}" ∷ []

-- The loop over these paths.
unfoldable pub operation_ids : Contract → String → List String → Result ContractError (List String)
operation_ids contract method [] = ok []
operation_ids contract method (path ∷ paths) =
    let rest = operation_ids contract method paths in
    elim (find_operation contract method path) [
      | none ↦ err requires_operation
      | some operation_id ↦
          if operation_id == ""
          then err requires_operation
          else rest >>= λ ids. ok (operation_id ∷ ids)
    ]

-- `runtimeDispatcherOperationIDs`
unfoldable pub runtime_dispatcher_operation_ids :
    Contract → String → String → Result ContractError (List String)
runtime_dispatcher_operation_ids contract method runtime_path =
    if not (runtime_path == dispatcher_path)
    then err not_a_dispatcher
    else if method == "GET" || method == "HEAD"
    then operation_ids contract method contract_paths
    else err not_declared

-- The loop that fills `declared`.
unfoldable pub declare_all : List String → List String → Result ContractError (List String)
declare_all declared [] = ok declared
declare_all declared (id ∷ ids) =
    let rest = declare_all (id ∷ declared) ids in
    if contains declared id then err declared_twice else rest

-- The two loops that compare what is expected with what is declared.
unfoldable pub all_in : List String → ContractError → List String → Result ContractError (Unit {0})
all_in known e [] = ok tt
all_in known e (id ∷ ids) =
    let rest = all_in known e ids in if contains known id then rest else err e

-- The checks once the expected operations are known.
unfoldable pub compare_declared : List String → List String → Result ContractError (Unit {0})
compare_declared operation_ids expected = declare_all [] operation_ids >>= λ declared.
    all_in declared missing_operation expected >> all_in expected unexpected_operation operation_ids

-- `ValidateRuntimeDispatcher`
unfoldable pub validate_runtime_dispatcher :
    Contract → String → String → List String → Result ContractError (Unit {0})
validate_runtime_dispatcher contract method runtime_path operation_ids =
    runtime_dispatcher_operation_ids contract method runtime_path >>= compare_declared operation_ids
