-- ===== src/Schematics/Service.antt =====
-- internal/schematic/service.go: who may create and read a schematic. The repository is a parameter,
-- over the type of its states; `authn.PrincipalFromContext` reads a request's session.
pub mod Ownership
use image_factory.Prelude.{
  String, Bool, false, not, ◌&&◌, Option, none, some, ◌==◌, if◌then◌else◌, ◌>>=◌, Result, ok, err,
}
use image_factory.Selector.{is_authenticated, Principal, Session}
use image_factory.Schematics.{validate, Schematic, Error, requires_authentication, forbidden}

-- `PrincipalFromContext`, from internal/authn/principal.go.
unfoldable pub principal_from_context : Session → Option Principal
unfolding is_authenticated
principal_from_context session = elim session.principal [
  | none ↦ none
  | some p ↦ if is_authenticated p then some p else none
]

-- `Repository`. A `put` may find a configuration that it cannot store.
pub record Repository (R : Type 0) : Type 0 where
  pub put : R → Schematic → R × Result Error String
  pub get_raw : R → String → R × Result Error Schematic

-- The owner that `Create` writes into the configuration.
abbrev pub owned_by : Principal → Schematic → Schematic
owned_by p cfg = record cfg { owner = p.username }

abbrev authentication_required : Error
authentication_required = requires_authentication "authentication required"

-- The checks at the head of `Create`, and the configuration that they leave.
unfoldable pub claim_ownership : Option Principal → Schematic → Result Error Schematic
claim_ownership none cfg = err authentication_required
claim_ownership (some p) cfg =
    if not (cfg.owner == "") && not (cfg.owner == p.username)
    then err (forbidden "schematic owner does not match authenticated user")
    else ok (owned_by p cfg)

unfoldable pub configuration_of : Bool → Session → Schematic → Result Error Schematic
unfolding claim_ownership principal_from_context
configuration_of auth_enabled session cfg =
    if auth_enabled then claim_ownership (principal_from_context session) cfg else ok cfg

-- The checks at the end of `Get`.
unfoldable pub authorize : Bool → Option Principal → Schematic → Result Error Schematic
authorize auth_enabled principal cfg =
    if cfg.owner == "" && not auth_enabled then ok cfg else elim principal [
      | none ↦ err authentication_required
      | some p ↦ if not (p.username == cfg.owner) then err (forbidden "access denied") else ok cfg
    ]

abbrev lacks_principal : Bool → Option Principal → Bool
lacks_principal auth_enabled none = auth_enabled
lacks_principal auth_enabled (some p) = false

module _ {R : Type 0} (repository : Repository R) (auth_enabled enterprise_enabled : Bool) where
  abbrev put_validated : R → Schematic → Option Error → R × Result Error String
  put_validated r cfg (some e) = (r, err e)
  put_validated r cfg none = repository.put r cfg

  abbrev put_owned : R → Result Error Schematic → R × Result Error String
  put_owned r (err e) = (r, err e)
  put_owned r (ok cfg) = put_validated r cfg (validate cfg enterprise_enabled)

  -- `Create`
  unfoldable pub create : R → Session → Schematic → R × Result Error String
  unfolding configuration_of validate
  create r session cfg = put_owned r (configuration_of auth_enabled session cfg)

  -- `Get`, from the principal of the context.
  unfoldable pub get_as : R → String → Option Principal → R × Result Error Schematic
  unfolding authorize
  get_as r id principal =
      if lacks_principal auth_enabled principal
      then (r, err authentication_required)
      else let (r', found) = repository.get_raw r id in
        (r', found >>= authorize auth_enabled principal)

  unfoldable pub get : R → Session → String → R × Result Error Schematic
  unfolding get_as principal_from_context
  get r session id = get_as r id (principal_from_context session)
