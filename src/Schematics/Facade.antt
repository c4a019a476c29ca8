-- ===== src/Schematics/Facade.antt =====
-- internal/schematic/schematic.go: the factory as the repository of the service, and the facade
-- `Factory.Get` for contexts of authentication providers.
pub mod Sharing
use image_factory.Prelude.{String, Bool, true, false, Option, none, some, [], ◌∷◌, Result, ok, err}
use image_factory.Selector.{credential_provider, new_principal, Session}
use image_factory.Schematics.{Schematic, Codec, Error, failed}
use image_factory.Schematics.Storage.{Storage}
use image_factory.Schematics.Factory.{put, get_raw, Factory}
use image_factory.Schematics.Service.{principal_from_context, Repository, get as service_get}

-- The pointer that a value stands behind; a nil pointer would end the program.
abbrev pub dereferenced : Result Error (Option Schematic) → Result Error Schematic
dereferenced (err e) = err e
dereferenced (ok none) = err (failed "nil pointer dereference")
dereferenced (ok (some cfg)) = ok cfg

-- The session, with the principal that the name of a provider's context stands for.
unfoldable pub adopt_username : Session → Result Error Session
adopt_username session = elim session.username [
  | none ↦ ok session
  | some username ↦ elim (new_principal username credential_provider) [
    | none ↦ err (failed "invalid principal")
    | some p ↦ ok (record {
      principal = some p;
      username = session.username;
      claims = session.claims;
      download_token = session.download_token;
    })
  ]
]

-- The step in front of the service, with a provider or without.
unfoldable pub adapt : Bool → Session → Result Error Session
unfolding adopt_username principal_from_context
adapt false session = ok session
adapt true session = elim (principal_from_context session) [
  | some p ↦ ok session
  | none ↦ adopt_username session
]

module _ (codec : Codec) {S : Type 0} (storage : Storage S) where
  abbrev or_unfinished :
      Factory S → Option (Factory S × Result Error String) → Factory S × Result Error String
  or_unfinished f (some out) = out
  or_unfinished f none = (f, err (failed "unfinished"))

  -- The factory as a repository, for a call that leads its first flight.
  unfoldable pub repository : Repository (Factory S)
  repository = record {
    put = λ f cfg. or_unfinished f (put codec storage f cfg (none ∷ []));
    get_raw = λ f id. let (f', found) = get_raw codec storage f id none in (f', dereferenced found);
  }

  abbrev pub get_adapted :
      Bool → Factory S → String → Result Error Session → Factory S × Result Error Schematic
  get_adapted auth f id (err e) = (f, err e)
  get_adapted auth f id (ok session) = service_get repository auth false f session id

  -- `Factory.Get`
  unfoldable pub facade_get :
      Factory S → Session → String → Bool → Factory S × Result Error Schematic
  unfolding repository adapt
  facade_get f session id auth = get_adapted auth f id (adapt auth session)
