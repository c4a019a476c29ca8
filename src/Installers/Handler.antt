-- ===== src/Installers/Handler.antt =====
-- internal/frontend/http/oci/registry.go: the answers to registry requests, from the router to the
-- registry service. A location is answered as it stands, without the URL that is joined of it.
pub mod Delivery
use image_factory.Prelude.{
  String, Bool, true, not, Option, none, some, ◌==◌, if◌then◌else◌, Result, ok, err,
}
use image_factory.Artifacts.{Semver}
use image_factory.Publication.{Calls}
use image_factory.Oci.{
  serve_path, V2Route, V2Target, target_ping, target_manifest, target_blob, target_referrers,
  target_proxy, Served, empty_ok, not_found, dispatched,
}
use image_factory.Installers.{
  get_requested_image, repository_of, digest_ref, manifest, blob, Request, Location, RequestedImage,
  Options, Sources, ServiceError, invalid_image, call_failed, invalid_subject, proxy,
}

pub record Referrers : Type 0 where
  pub subject_digest : String
  pub index : String

-- `header` tells whether the applied filter is reported.
pub data Reply (E : Type 0) : Type 0 where
  pinged : Reply E
  unknown_route : Reply E
  refused : ServiceError E → Reply E
  listed : Referrers → Bool → Reply E
  proxied : Location → Reply E
  redirected : Location → Reply E

-- `ApplyReferrersFilterHeader`
unfoldable pub applies_filter : String → Bool
applies_filter artifact_type = not (artifact_type == "")

abbrev pub request_of : V2Route → Request
request_of route = record {
  image = route.image;
  schematic = route.schematic;
  reference = route.reference;
  resource = route.resource;
}

-- The proxy or the redirect to a location.
unfoldable pub answer_at : {E : Type 0} → Result (ServiceError E) Location → Reply E
answer_at (err e) = refused e
answer_at (ok loc) = if loc.proxy then proxied loc else redirected loc

abbrev pub answer_listed : {E : Type 0} → String → Result (ServiceError E) Referrers → Reply E
answer_listed artifact_type (err e) = refused e
answer_listed artifact_type (ok found) = listed found (applies_filter artifact_type)

module _ {W V E : Type 0} (semver : Semver V) (evidence_minimum : V) (calls : Calls W E)
    (sources : Sources W V E) (options : Options) where
  -- `v1.NewHash`, and `ResolveInstallerReferrers` with its puller.
  module _ (is_hash : String → Bool) (resolve : W → String → String → Result E Referrers) where
    abbrev pub resolved : Result E Referrers → Result (ServiceError E) Referrers
    resolved (err e) = err (call_failed e)
    resolved (ok found) = ok found

    abbrev pub discover_of :
        W → Request → String → Option RequestedImage → Result (ServiceError E) Referrers
    discover_of w request artifact_type none = err (invalid_image request.image)
    discover_of w request artifact_type (some image) =
        if not (is_hash request.reference)
        then err (invalid_subject request.reference)
        else resolved (
            resolve w
              (digest_ref (repository_of options image.image_name request.schematic)
                request.reference)
              artifact_type)

    abbrev pub discover_checked :
        W → Request → String → Option E → Result (ServiceError E) Referrers
    discover_checked w request artifact_type (some e) = err (call_failed e)
    discover_checked w request artifact_type none =
        discover_of w request artifact_type (get_requested_image request.image)

    -- `DiscoverReferrers`
    unfoldable pub discover_referrers : W → Request → String → Result (ServiceError E) Referrers
    discover_referrers w request artifact_type =
        discover_checked w request artifact_type (sources.check_schematic w request.schematic)

    abbrev pub answer_located : W × Result (ServiceError E) Location → W × Reply E
    answer_located (w, found) = (w, answer_at found)

    abbrev pub serve_target : W → V2Route → String → V2Target → W × Reply E
    serve_target w route artifact_type target_ping = (w, pinged)
    serve_target w route artifact_type target_manifest =
        answer_located (manifest semver evidence_minimum calls sources options w (request_of route))
    serve_target w route artifact_type target_blob =
        (w, answer_at (blob semver evidence_minimum calls sources options w (request_of route)))
    serve_target w route artifact_type target_referrers =
        (w, answer_listed artifact_type (discover_referrers w (request_of route) artifact_type))
    serve_target w route artifact_type target_proxy =
        (w, answer_at (proxy options (request_of route)))

    -- The function that `NewRegistryHandler` binds.
    unfoldable pub serve : W → V2Route → String → W × Reply E
    unfolding answer_at discover_referrers applies_filter
    serve w route artifact_type = serve_target w route artifact_type route.target

    abbrev pub serve_dispatched : W → String → Served → W × Reply E
    serve_dispatched w artifact_type empty_ok = (w, pinged)
    serve_dispatched w artifact_type not_found = (w, unknown_route)
    serve_dispatched w artifact_type (dispatched route) = serve w route artifact_type

    -- A request below /v2/, from its path on.
    unfoldable pub serve_v2 : W → String → String → W × Reply E
    unfolding serve
    serve_v2 w path artifact_type = serve_dispatched w artifact_type (serve_path true path)
