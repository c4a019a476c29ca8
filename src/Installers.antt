-- ===== src/Installers.antt =====
-- internal/registry/service.go: how a request for an image of an installer is answered.
pub mod Verified
pub mod Handler
use mathlib.Core.List.{reverse}
use image_factory.Prelude.{
  String, Bool, true, false, not, ◌&&◌, ◌||◌, Option, none, some, List, [], ◌∷◌, ◌==◌, ◌⧺◌,
  if◌then◌else◌, is_empty, Result, ok, err,
}
use image_factory.Strings.{cut_prefix, has_prefix, cut_suffix}
use image_factory.Artifacts.{sort_func, Semver}
use image_factory.Publication.{publish_installer_index, Calls, digest, PublishError}

pub record Request : Type 0 where
  pub image : String
  pub schematic : String
  pub reference : String
  pub resource : String

pub record Location : Type 0 where
  pub scheme : String
  pub host : String
  pub repository : String
  pub resource : String
  pub reference : String
  pub proxy : Bool

pub record RequestedImage : Type 0 where
  pub image_name : String
  pub platform : String
  pub secureboot : Bool

pub record ProxyImage : Type 0 where
  pub repository : String
  pub enterprise_only : Bool

-- What is read of a repository, and of the registry that is proxied: its namespace as `path`.
pub record Repository : Type 0 where
  pub scheme : String
  pub host : String
  pub path : String

pub record Options : Type 0 where
  pub internal_repository : Repository
  pub external_repository : Repository
  pub proxy_registry : Repository
  pub proxy_images : String → Option ProxyImage
  pub proxy_internal : Bool
  pub auth_enabled : Bool
  pub enterprise_enabled : Bool
  pub has_evidence_publisher : Bool

-- Errors of the service itself, of its calls and of the publication.
pub data ServiceError (E : Type 0) : Type 0 where
  invalid_image : String → ServiceError E
  invalid_version : String → ServiceError E
  unknown_image : String → ServiceError E
  proxy_unavailable : ServiceError E
  not_enabled : String → ServiceError E
  call_failed : E → ServiceError E
  invalid_subject : String → ServiceError E
  publication_failed : PublishError E → ServiceError E

abbrev suffixed : String → Option String → Option String → Option RequestedImage
suffixed image (some platform) plain =
    some (record { image_name = image; platform = platform; secureboot = true })
suffixed image none (some platform) =
    some (record { image_name = image; platform = platform; secureboot = false })
suffixed image none none = none

-- `getRequestedImage`
unfoldable pub get_requested_image : String → Option RequestedImage
get_requested_image image =
    if image == "installer"
    then some (record { image_name = image; platform = ""; secureboot = false })
    else if image == "installer-secureboot"
    then some (record { image_name = image; platform = ""; secureboot = true })
    else suffixed image (cut_suffix image "-installer-secureboot") (cut_suffix image "-installer")

-- `location`
unfoldable pub location : Options → String → String → String → String → Location
location options image schematic resource reference =
    let repository =
      if options.proxy_internal then options.internal_repository else options.external_repository in
    record {
      scheme = repository.scheme;
      host = repository.host;
      repository = repository.path ⧺ "/" ⧺ image ⧺ "/" ⧺ schematic;
      resource = resource;
      reference = reference;
      proxy = options.proxy_internal || options.auth_enabled;
    }

-- `Proxy`
unfoldable pub proxy : {E : Type 0} → Options → Request → Result (ServiceError E) Location
proxy options request =
    if not (options.proxy_registry.scheme == "http")
    then err proxy_unavailable
    else elim (options.proxy_images request.image) [
      | none ↦ err (unknown_image request.image)
      | some image ↦
          if image.enterprise_only && not options.enterprise_enabled
          then err (not_enabled request.image)
          else if image.repository == ""
          then err (unknown_image request.image)
          else ok (record {
            scheme = options.proxy_registry.scheme;
            host = options.proxy_registry.host;
            repository = options.proxy_registry.path ⧺ "/" ⧺ image.repository;
            resource = request.resource;
            reference = request.reference;
            proxy = true;
          })
    ]

-- The references to an index, and to its tag, below the internal repository; the name of its
-- registry, which all of them share, is left out.
abbrev pub repository_of : Options → String → String → String
repository_of options image schematic =
    options.internal_repository.path ⧺ "/" ⧺ image ⧺ "/" ⧺ schematic

abbrev pub digest_ref : String → String → String
digest_ref repository d = repository ⧺ "@" ⧺ d

abbrev pub tag_ref : String → String → String
tag_ref repository t = repository ⧺ ":" ⧺ t

-- What the service calls beside the publication: the schematics, the versions with their texts and
-- `semver.Parse`, `Puller.Head` with its test for 404 and 403, the assembly of the index in front
-- of the publication, whose value is its digest, and the context of the waiting call.
pub record Sources (W V E : Type 0) : Type 0 where
  pub check_schematic : W → String → Option E
  pub talos_versions : W → Result E (List V)
  pub version_text : V → String
  pub parse : String → Option V
  pub head_tag : W → String → Result E String
  pub is_missing : E → Bool
  pub assemble : RequestedImage → String → String → W → W × Result E String
  pub ended : Option E

module _ {W V E : Type 0} (semver : Semver V) (evidence_minimum : V) (calls : Calls W E)
    (sources : Sources W V E) (options : Options) where
  -- The first stable version; without one the text stays empty.
  unfoldable pub first_stable : List V → String
  first_stable [] = ""
  first_stable (v ∷ vs) =
      let rest = first_stable vs in
      if is_empty (semver.pre v) then "v" ⧺ sources.version_text v else rest

  -- `resolveLatest`
  unfoldable pub resolve_latest : W → Result (ServiceError E) String
  unfolding first_stable
  resolve_latest w = elim (sources.talos_versions w) [
    | err e ↦ err (call_failed e)
    | ok versions ↦ ok (first_stable (reverse (sort_func semver versions)))
  ]

  abbrev pub published : String → W × Option (PublishError E) → W × Result (ServiceError E) String
  published index (w, none) = (w, ok index)
  published index (w, some e) = (w, err (publication_failed e))

  abbrev pub publish_assembled :
      String → String → V → W × Result E String → W × Result (ServiceError E) String
  publish_assembled repository version_tag version (w, err e) = (w, err (call_failed e))
  publish_assembled repository version_tag version (w, ok index) = published index (
      publish_installer_index calls (digest_ref repository index) (tag_ref repository version_tag)
        (options.has_evidence_publisher && not (semver.lt version evidence_minimum)) w)

  -- `buildInstallImage`
  unfoldable pub build_install_image :
      RequestedImage → V → String → String → W → W × Result (ServiceError E) String
  build_install_image image version schematic version_tag w =
      publish_assembled (repository_of options image.image_name schematic) version_tag version
        (sources.assemble image schematic version_tag w)

  -- The end of the wait for the flight.
  abbrev pub deliver :
      RequestedImage
      → String
      → Option E
      → W × Result (ServiceError E) String
      → W × Result (ServiceError E) Location
  deliver image schematic (some e) (w, built) = (w, err (call_failed e))
  deliver image schematic none (w, err e) = (w, err e)
  deliver image schematic none (w, ok index) =
      (w, ok (location options image.image_name schematic "manifests" index))

  abbrev pub build_parsed :
      RequestedImage → String → String → Option V → W → W × Result (ServiceError E) Location
  build_parsed image schematic version_tag none w = (w, err (invalid_version version_tag))
  build_parsed image schematic version_tag (some version) w =
      deliver image schematic sources.ended
        (build_install_image image version schematic version_tag w)

  -- From the version on: the text without its first character is parsed.
  unfoldable pub build_tag :
      RequestedImage → String → String → W → W × Result (ServiceError E) Location
  unfolding build_install_image
  build_tag image schematic version_tag w =
      build_parsed image schematic version_tag
        (elim (cut_prefix version_tag "v") [ none ↦ none | some text ↦ sources.parse text ]) w

  abbrev pub reuse :
      RequestedImage
      → String
      → String
      → String
      → W × Option E
      → W × Result (ServiceError E) Location
  reuse image schematic version_tag index (w, none) =
      (w, ok (location options image.image_name schematic "manifests" index))
  reuse image schematic version_tag index (w, some e) = build_tag image schematic version_tag w

  abbrev pub after_head :
      RequestedImage → String → String → W → Result E String → W × Result (ServiceError E) Location
  after_head image schematic version_tag w (ok index) = reuse image schematic version_tag index (
      calls.verify_image
        (digest (digest_ref (repository_of options image.image_name schematic) index)) w)
  after_head image schematic version_tag w (err e) =
      if sources.is_missing e
      then build_tag image schematic version_tag w
      else (w, err (call_failed e))

  -- From the tag on. What is no version is looked up as it stands.
  unfoldable pub serve_tag :
      RequestedImage → String → W → String → W × Result (ServiceError E) Location
  unfolding build_tag
  serve_tag image schematic w version_tag =
      if has_prefix version_tag "sha256:" || not (has_prefix version_tag "v")
      then (w, ok (location options image.image_name schematic "manifests" version_tag))
      else after_head image schematic version_tag w (
          sources.head_tag w
            (tag_ref (repository_of options image.image_name schematic) version_tag))

  abbrev pub serve_resolved :
      RequestedImage
      → String
      → W
      → Result (ServiceError E) String
      → W × Result (ServiceError E) Location
  serve_resolved image schematic w (err e) = (w, err e)
  serve_resolved image schematic w (ok version_tag) = serve_tag image schematic w version_tag

  -- `if versionTag == "latest"`
  unfoldable pub tag_of : W → String → Result (ServiceError E) String
  unfolding resolve_latest
  tag_of w reference = if reference == "latest" then resolve_latest w else ok reference

  abbrev pub serve_image :
      Request → W → Option RequestedImage → W × Result (ServiceError E) Location
  serve_image request w none = (w, err (invalid_image request.image))
  serve_image request w (some image) =
      serve_resolved image request.schematic w (tag_of w request.reference)

  abbrev pub serve_checked : Request → W → Option E → W × Result (ServiceError E) Location
  serve_checked request w (some e) = (w, err (call_failed e))
  serve_checked request w none = serve_image request w (get_requested_image request.image)

  -- `Manifest`
  unfoldable pub manifest : W → Request → W × Result (ServiceError E) Location
  unfolding tag_of serve_tag get_requested_image
  manifest w request = serve_checked request w (sources.check_schematic w request.schematic)

  abbrev pub locate_blob : Request → Option RequestedImage → Result (ServiceError E) Location
  locate_blob request none = err (invalid_image request.image)
  locate_blob request (some image) =
      ok (location options image.image_name request.schematic "blobs" request.reference)

  -- `Blob`
  unfoldable pub blob : W → Request → Result (ServiceError E) Location
  unfolding get_requested_image
  blob w request = elim (sources.check_schematic w request.schematic) [
    | some e ↦ err (call_failed e)
    | none ↦ locate_blob request (get_requested_image request.image)
  ]
