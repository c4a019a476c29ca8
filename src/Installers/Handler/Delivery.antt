-- ===== src/Installers/Handler/Delivery.antt =====
-- What a request for an installer is answered with, from its path on.
use image_factory.Prelude.{
  String, ◌≡◌, refl, sym, ap, subst, ◌≢◌, inl, Bool, true, false, Option, some, ◌⧺◌, if◌then◌else◌,
  All, Result, ok, err,
}
use image_factory.Artifacts.{Semver}
use image_factory.Publication.{Calls}
use image_factory.Publication.Promotion.{RetriesUntil, LeaveTag}
use image_factory.Oci.{
  target_of, route_v2, is_ping, serve_path, V2Route, target_manifest, empty_ok, dispatched,
}
use image_factory.Oci.Routing.{segments_of, IsSegment, path_of, route_v2-path_of}
use image_factory.Installers.{tag_of, manifest, Request, Location, Options, Sources, ServiceError}
use image_factory.Installers.Verified.{is_version_tag, IsDelivered, manifest-IsDelivered}
use image_factory.Installers.Handler.{
  request_of, answer_at, serve, serve_dispatched, serve_v2, Referrers, Reply, refused, proxied,
  redirected,
}

module _ {W V E : Type 0} (semver : Semver V) (evidence_minimum : V) (calls : Calls W E)
    (sources : Sources W V E) (options : Options) (retries : RetriesUntil calls)
    (tagged : W → String → Option String) (leave : (final : String) → LeaveTag calls tagged final)
    (is_hash : String → Bool) (resolve : W → String → String → Result E Referrers) where
  -- Only errors and deliveries, by the way that the location is for.
  abbrev pub IsAnswered : W → Request → Reply E → Type 0
  IsAnswered w request (refused e) = Unit
  IsAnswered w request (proxied loc) =
      (loc.proxy ≡ true)
      × IsDelivered semver evidence_minimum calls sources options retries tagged leave w request loc
  IsAnswered w request (redirected loc) =
      (loc.proxy ≡ false)
      × IsDelivered semver evidence_minimum calls sources options retries tagged leave w request loc
  IsAnswered w request _ = ⊥

  sent-IsAnswered :
      (w : W) (request : Request) (loc : Location) (through_proxy : Bool)
      → loc.proxy ≡ through_proxy
      → IsDelivered semver evidence_minimum calls sources options retries tagged leave w request loc
      → IsAnswered w request (if through_proxy then proxied loc else redirected loc)
  sent-IsAnswered w request loc true there delivers = (there, delivers)
  sent-IsAnswered w request loc false here delivers = (here, delivers)

  located-IsAnswered :
      (w : W) (request : Request) (found : Result (ServiceError E) Location)
      → ((loc : Location)
          → found ≡ ok loc
          → IsDelivered semver evidence_minimum calls sources options retries tagged leave w request
              loc)
      → IsAnswered w request (answer_at found)
  unfolding answer_at
  located-IsAnswered w request (err e) delivers = tt
  located-IsAnswered w request (ok loc) delivers =
      sent-IsAnswered w request loc loc.proxy refl (delivers loc refl)

  manifest_route-IsAnswered :
      (w : W) (route : V2Route) (artifact_type version_tag : String)
      → route.target ≡ target_manifest
      → tag_of semver evidence_minimum calls sources options w route.reference ≡ ok version_tag
      → is_version_tag semver evidence_minimum calls sources options retries tagged leave
          version_tag
        ≡ true
      → IsAnswered w
          (request_of route)
          (serve semver evidence_minimum calls sources options is_hash resolve w route
            artifact_type).1
  unfolding serve
  manifest_route-IsAnswered w route artifact_type version_tag target resolves is = rw target (
      located-IsAnswered w (request_of route)
        (manifest semver evidence_minimum calls sources options w (request_of route)).1
        (λ loc found.
          manifest-IsDelivered semver evidence_minimum calls sources options retries tagged leave w
            (request_of route) version_tag resolves is found))

  routed-dispatched :
      (path : String) (route : V2Route)
      → route_v2 path ≡ some route
      → route.target ≡ target_manifest
      → serve_path true path ≡ dispatched route
  unfolding serve_path is_ping
  routed-dispatched path route routed target =
      rw (routed, serve_path) (ap (λ t. if is_ping t then empty_ok else dispatched route) target)

  -- A request for the manifest of an image, by a path of four proper segments and for what resolves
  -- to a version, is refused, or sent on, as the location says, to an index of this image whose
  -- signature has verified, and then its schematic may be read.
  pub serve_v2-IsAnswered :
      (w : W) (route : V2Route) (artifact_type version_tag : String)
      → All IsSegment (segments_of route)
      → route.image ≢ "siderolabs"
      → route.resource ≡ "manifests"
      → route.target ≡ target_manifest
      → tag_of semver evidence_minimum calls sources options w route.reference ≡ ok version_tag
      → is_version_tag semver evidence_minimum calls sources options retries tagged leave
          version_tag
        ≡ true
      → IsAnswered w
          (request_of route)
          (serve_v2 semver evidence_minimum calls sources options is_hash resolve w
            ("/" ⧺ path_of route)
            artifact_type).1
  unfolding serve_v2 target_of
  serve_v2-IsAnswered w route artifact_type version_tag segments other resource target resolves is =
      let routed : route_v2 ("/" ⧺ path_of route) ≡ some route =
        route_v2-path_of route segments other (inl (resource, target)) in
      subst
        (λ served.
          IsAnswered w (request_of route)
            (serve_dispatched semver evidence_minimum calls sources options is_hash resolve w
              artifact_type served).1)
        (sym (routed-dispatched _ route routed target))
        (manifest_route-IsAnswered w route artifact_type version_tag target resolves is)
