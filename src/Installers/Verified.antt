-- ===== src/Installers/Verified.antt =====
-- internal/registry/service.go: the signatures of the images that are delivered for a version, and
-- who is told where they are.
use image_factory.Prelude.{
  String, ◌≡◌, refl, sym, subst, inl, inr, Bool, true, false, not, ◌&&◌, ◌||◌, Option, none, some,
  arith, Bool-cases, ok-injective, Result, ok, err,
}
use image_factory.Strings.{has_prefix}
use image_factory.Artifacts.{Semver}
use image_factory.Publication.{publish_installer_index, Calls, digest, PublishError}
use image_factory.Publication.Promotion.{
  RetriesUntil, HasVerified, publish_installer_index-IsCareful, LeaveTag,
}
use image_factory.Installers.{
  get_requested_image, location, repository_of, digest_ref, tag_ref, published, publish_assembled,
  build_install_image, deliver, build_parsed, build_tag, reuse, after_head, serve_tag,
  serve_resolved, tag_of, serve_image, serve_checked, manifest, Request, Location, RequestedImage,
  Options, Sources, ServiceError,
}

module _ {W V E : Type 0} (semver : Semver V) (evidence_minimum : V) (calls : Calls W E)
    (sources : Sources W V E) (options : Options) (retries : RetriesUntil calls)
    (tagged : W → String → Option String)
    (leave : (final : String) → LeaveTag calls tagged final) where
  -- The signature of an index has been verified.
  abbrev pub HasSignature : String → Type 0
  HasSignature index = (before : W) × ((calls.verify_image (digest index) before).1 ≡ none)

  -- A location is that of an index with a signature.
  abbrev pub IsVerified : RequestedImage → String → Location → Type 0
  IsVerified image schematic loc =
      (index : String) × (loc ≡ location options image.image_name schematic "manifests" index)
      × HasSignature (digest_ref (repository_of options image.image_name schematic) index)

  published-HasSignature :
      (ref final index : String) (evidence : Bool) (w : W) (out : W × Option (PublishError E))
      {built : String}
      → (out.1 ≡ none → HasVerified calls ref evidence)
      → (published semver evidence_minimum calls sources options index out).1 ≡ ok built
      → (built ≡ index) × HasSignature ref
  published-HasSignature ref final index evidence w (v, none) success h =
      (sym (ok-injective h), (success refl).1)
  published-HasSignature ref final index evidence w (v, some e) success h = cc

  publish_assembled-HasSignature :
      (repository version_tag : String) (version : V) (assembled : W × Result E String)
      {index : String}
      → (publish_assembled semver evidence_minimum calls sources options repository version_tag
          version assembled).1
        ≡ ok index
      → HasSignature (digest_ref repository index)
  publish_assembled-HasSignature repository version_tag version (w, err e) h = cc
  publish_assembled-HasSignature repository version_tag version (w, ok d) {index} h =
      let ref = digest_ref repository d in
      let final = tag_ref repository version_tag in
      let evidence = options.has_evidence_publisher && not (semver.lt version evidence_minimum) in
      let careful =
        publish_installer_index-IsCareful calls retries tagged ref final (leave final) evidence w in
      let (same, signed) =
        published-HasSignature ref final d evidence w
          (publish_installer_index calls ref final evidence w) {built = index} careful.success h in
      subst (λ i. HasSignature (digest_ref repository i)) (sym same) signed

  deliver-IsVerified :
      (image : RequestedImage) (schematic : String) (ended : Option E)
      (built : W × Result (ServiceError E) String) {loc : Location}
      → ((index : String)
          → built.1 ≡ ok index
          → HasSignature (digest_ref (repository_of options image.image_name schematic) index))
      → (deliver semver evidence_minimum calls sources options image schematic ended built).1
        ≡ ok loc
      → IsVerified image schematic loc
  deliver-IsVerified image schematic (some e) (w, built) signed h = cc
  deliver-IsVerified image schematic none (w, err e) signed h = cc
  deliver-IsVerified image schematic none (w, ok index) signed h =
      (index, sym (ok-injective h), signed index refl)

  build_parsed-IsVerified :
      (image : RequestedImage) (schematic version_tag : String) (version : Option V) (w : W)
      {loc : Location}
      → (build_parsed semver evidence_minimum calls sources options image schematic version_tag
          version w).1
        ≡ ok loc
      → IsVerified image schematic loc
  unfolding build_install_image
  build_parsed-IsVerified image schematic version_tag none w h = cc
  build_parsed-IsVerified image schematic version_tag (some version) w h =
      let repository = repository_of options image.image_name schematic in
      deliver-IsVerified image schematic sources.ended
        (build_install_image semver evidence_minimum calls sources options image version schematic
          version_tag w)
        (λ index built.
          publish_assembled-HasSignature repository version_tag version
            (sources.assemble image schematic version_tag w) built)
        h

  build_tag-IsVerified :
      (image : RequestedImage) (schematic version_tag : String) (w : W) {loc : Location}
      → (build_tag semver evidence_minimum calls sources options image schematic version_tag w).1
        ≡ ok loc
      → IsVerified image schematic loc
  unfolding build_tag
  build_tag-IsVerified image schematic version_tag w h =
      build_parsed-IsVerified image schematic version_tag _ w h

  reuse-IsVerified :
      (image : RequestedImage) (schematic version_tag index : String) (w : W)
      (verified : W × Option E) {loc : Location}
      → calls.verify_image
          (digest (digest_ref (repository_of options image.image_name schematic) index))
          w
        ≡ verified
      → (reuse semver evidence_minimum calls sources options image schematic version_tag index
          verified).1
        ≡ ok loc
      → IsVerified image schematic loc
  reuse-IsVerified image schematic version_tag index w (v, none) e h =
      (index, sym (ok-injective h), (w, λ i. (e i).1))
  reuse-IsVerified image schematic version_tag index w (v, some x) e h =
      build_tag-IsVerified image schematic version_tag v h

  after_head-IsVerified :
      (image : RequestedImage) (schematic version_tag : String) (w : W) (found : Result E String)
      {loc : Location}
      → (after_head semver evidence_minimum calls sources options image schematic version_tag w
          found).1
        ≡ ok loc
      → IsVerified image schematic loc
  after_head-IsVerified image schematic version_tag w (ok index) h =
      reuse-IsVerified image schematic version_tag index w _ refl h
  after_head-IsVerified image schematic version_tag w (err e) h =
      elim (Bool-cases (sources.is_missing e)) [
        | inl missing ↦ build_tag-IsVerified image schematic version_tag w (rw missing at h)
        | inr other ↦ cc (rw other at h)
      ]

  -- A tag of a version, which is no digest.
  abbrev pub is_version_tag : String → Bool
  is_version_tag version_tag = not (has_prefix version_tag "sha256:") && has_prefix version_tag "v"

  serve_tag-IsVerified :
      (image : RequestedImage) (schematic : String) (w : W) (version_tag : String) {loc : Location}
      → is_version_tag version_tag ≡ true
      → (serve_tag semver evidence_minimum calls sources options image schematic w version_tag).1
        ≡ ok loc
      → IsVerified image schematic loc
  unfolding serve_tag
  serve_tag-IsVerified image schematic w version_tag {loc} is h =
      let goes_on : (has_prefix version_tag "sha256:" || not (has_prefix version_tag "v")) ≡ false =
        ground arith in
      after_head-IsVerified image schematic version_tag w _ {loc = loc} (rw goes_on at h)

  -- The image of a request that is answered for a version: its schematic may be read, and its index
  -- bears a signature that has been verified.
  abbrev pub IsDelivered : W → Request → Location → Type 0
  IsDelivered w request loc =
      (sources.check_schematic w request.schematic ≡ none)
      × ((image : RequestedImage) × (get_requested_image request.image ≡ some image)
          × IsVerified image request.schematic loc)

  serve_image-IsVerified :
      (w : W) (request : Request) (image : Option RequestedImage) (version_tag : String)
      {loc : Location}
      → tag_of semver evidence_minimum calls sources options w request.reference ≡ ok version_tag
      → is_version_tag version_tag ≡ true
      → (serve_image semver evidence_minimum calls sources options request w image).1 ≡ ok loc
      → (known : RequestedImage) × (image ≡ some known) × IsVerified known request.schematic loc
  serve_image-IsVerified w request none version_tag t is h = cc
  serve_image-IsVerified w request (some image) version_tag {loc} t is h = (
    image,
    refl,
    serve_tag-IsVerified image request.schematic w version_tag {loc = loc} is (
        subst
          (λ r.
            (serve_resolved semver evidence_minimum calls sources options image request.schematic w
              r).1
            ≡ ok loc)
          t h),
  )

  serve_checked-IsDelivered :
      (w : W) (request : Request) (checked : Option E) (version_tag : String) {loc : Location}
      → tag_of semver evidence_minimum calls sources options w request.reference ≡ ok version_tag
      → is_version_tag version_tag ≡ true
      → (serve_checked semver evidence_minimum calls sources options request w checked).1 ≡ ok loc
      → (checked ≡ none)
        × ((image : RequestedImage) × (get_requested_image request.image ≡ some image)
            × IsVerified image request.schematic loc)
  serve_checked-IsDelivered w request (some e) version_tag t is h = cc
  serve_checked-IsDelivered w request none version_tag t is h = (
    refl,
    serve_image-IsVerified w request (get_requested_image request.image) version_tag t is h,
  )

  -- A request for the manifest of a version is answered only if its schematic may be read, and with
  -- the index of its image whose signature has verified, whether it was found or built.
  pub manifest-IsDelivered :
      (w : W) (request : Request) (version_tag : String) {loc : Location}
      → tag_of semver evidence_minimum calls sources options w request.reference ≡ ok version_tag
      → is_version_tag version_tag ≡ true
      → (manifest semver evidence_minimum calls sources options w request).1 ≡ ok loc
      → IsDelivered w request loc
  unfolding manifest
  manifest-IsDelivered w request version_tag t is h =
      serve_checked-IsDelivered w request (sources.check_schematic w request.schematic) version_tag
        t is h
