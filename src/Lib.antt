-- ===== src/Lib.antt =====
-- The image factory serves customised Talos Linux images over HTTP. This library models who may do
-- what (the API tokens with their scopes, issuer and storage, the users of an htpasswd file, the
-- checks of the runtime routes), how requests are routed (the OCI registry paths, the names of
-- assets, the OpenAPI contract, the response that is observed), and what is served: schematics and
-- their storage, the versions and extensions of Talos, profiles that are enhanced from a schematic,
-- and installers that are built, published and delivered.
--
-- Requests pass the transport, whose registrar holds one handler for each route. The token handlers
-- mint, list and revoke through the manager, which signs with the issuer and records with the
-- storage. A request for an installer is answered by the registry service: it reads the schematic,
-- whose storage is a cache in front of a registry, resolves the version, and delivers an index that
-- is found with its signature, or assembles it from enhanced profiles and publishes it.
--
-- Files, and the code they model:
-- - Prelude, Strings: lists, integers, results, and the functions of Go's `strings` and `unicode`
--   that the program uses, over code points.
-- - Token.Scope, Token.Actors: internal/apitoken/scope.go, the catalog `scopeRoutes` (an association
--   list), `Allows`, `CanGrant`, `URLSafe` and the actor profiles.
-- - Token.Scopes, Token.Ttl, Token.Issuer, Token.Verifier: internal/apitoken/apitoken.go, scope
--   claims, lifetimes, `NewIssuerWithVerificationKeys`, `IssueWithDelegation` and `Verify`.
--   Token.Jose holds what is used of go-jose, as parameters and their laws.
-- - Tokens.Registry, Tokens.Storage: enterprise/tokens/storage.go. The OCI registry is the
--   environment's state: a tag of a repository holds what was last pushed to it. Its failures are
--   chosen freely for each call (`Faults`); a push that fails may have moved its tag. `orgPathComponent` is a parameter, so that nothing
--   depends on its hashes being different.
-- - Tokens.Manager: enterprise/tokens/manager.go, `Create` and `Verify`. A check is given the read of
--   the registry that it waits for, its own or one that it joins (`Lookup`).
-- - Tokens.Requests, Tokens.Frontend: enterprise/tokens/frontend_listcreate.go, the decoding of a
--   creation and the handlers. A handler maps the registry to the registry behind it and an answer.
-- - Htpasswd: enterprise/auth/config.go and auth.go, the users of a file and the check of a password.
-- - Oci: internal/frontend/http/oci/handler.go, `RouteV2` and `servePath`.
-- - ImageProfile: internal/profile/profile.go, `ParseFromPath` and `InstallerProfile`; its child
--   Sidecars is artifact_path.go. The texts of the imager's formats, its disk size and its default
--   profiles are parameters; a profile has the fields that this code sets.
-- - Enhancement: the rest of profile.go, `EnhanceFromSchematic` and its variant with dependencies. A
--   value of `Work` carries the profile and the dependencies that were captured so far.
-- - Schematics: pkg/schematic/schematic.go. Schematics.Storage is the contract of a storage, a record
--   of operations with their laws; Schematics.Registry (storage/registry) and Schematics.Cache
--   (storage/cache) implement it. Schematics.Factory is `Put` and `Get` of
--   internal/schematic/schematic.go, Schematics.Facade its face to the service, and
--   Schematics.Service is service.go.
-- - Artifacts: internal/artifacts/versions.go and internal/talosversion; Artifacts.Listings are the
--   extractions of versions.go, Artifacts.Manager the merge of extensions in manager.go with
--   internal/cache/single_flight.go, and Artifacts.Fetching the lookups by version of manager.go.
-- - Publication, Installers: internal/registry/publication.go and service.go. Installers.Handler is
--   internal/frontend/http/oci/registry.go with the discovery of referrers, and takes a request from
--   its path to its answer.
-- - Transport.Route, Transport.Registrar, Transport.Errors, Transport.Response: route.go, registrar.go
--   with pipeline.go, errors.go and response.go in internal/frontend/http/transport. httprouter is a
--   parameter: an empty router and its `Handle`, whose panic is `none`.
-- - Selector: internal/frontend/http/authentication/selector.go and internal/authn/principal.go. The
--   verifier is a parameter; the fallback, to the provider's middleware or the bare handler, is a
--   constructor of the answer.
-- - Transport.Contract: api/openapi.go, the checks of runtime routes against a document.
-- - Examples: runs at concrete inputs.
--
-- State is passed explicitly; a Go function that returns an error returns a `Result`, and one that
-- returns `ok` an `Option`. Numbers are natural or integer and never overflow here: the only sum is
-- an instant plus a lifetime that the configuration bounds. Clock readings and fresh IDs are
-- arguments. Third-party code is a parameter: YAML and SHA-256, the registry client, ttlcache,
-- semver, retries, the signer and bcrypt.
--
-- Concurrency: a lock makes an operation one step. What a shared flight hands to a call that joins
-- it is an argument of that call; overlapping calls of the cache are steps of a relation, with
-- evictions as steps of the environment. Loops are structural recursion; the retry loop of a put
-- runs along the list of its rounds so far, in each of which it joins a flight or leads one. It has no
-- result while it goes on, and nothing bounds the rounds, as in the source.
--
-- Theorems on schematics take as hypotheses that the digest of texts has no collisions, as
-- SHA-256 is meant to.
--
-- Not modelled: JSON, logging, PEM files, contexts beyond the way they end, HTTP headers other than
-- those of errors and the pinned cache policy, `MergeOverlayProfile`, the assembly of the index by
-- the imager, the cache of assets, signatures themselves, the graph of evidence, what a pull does
-- to the files, and the start of the service.
pub mod Prelude
pub mod Strings
pub mod Token
pub mod Tokens
pub mod Oci
pub mod ImageProfile
pub mod Transport
pub mod Selector
pub mod Schematics
pub mod Artifacts
pub mod Enhancement
pub mod Publication
pub mod Installers
pub mod Htpasswd
pub mod Examples
