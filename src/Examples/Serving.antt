-- ===== src/Examples/Serving.antt =====
-- Runs of the users of an htpasswd file, of a response, of the manager's lists, and of a request for
-- an installer.
use image_factory.Prelude.{
  ℕ, String, ◌≡◌, refl, true, false, Option, none, some, List, [], ◌∷◌, ltb, nat_eq, ◌==◌,
  ne_of_test, any, Result, ok, err,
}
use image_factory.Strings.{
  cut_prefix, has_prefix, cut_suffix, cut, contains_func, contains_rune, is_space, trim_left,
  trim_right, trim_func, trim_space,
}
use image_factory.Htpasswd.{
  Users, add_hash, check_entry, entry_of, load_lines, load_htpasswd, verify_credentials,
}
use image_factory.Htpasswd.Credentials.{entries_of, admits, verify_credentials-admits}
use image_factory.Transport.Response.{
  act_all, Exchange, write_header, write_body, set_cache_control,
}
use image_factory.Transport.Response.Pinned.{act_all-IsObserved, IsObserved}
use image_factory.Artifacts.{count, sort_func, Semver}
use image_factory.Artifacts.Listings.{ExtensionRef}
use image_factory.Artifacts.Manager.{
  overrides, not_overridden, merge_extensions, fetch_extensions, named,
}
use image_factory.Artifacts.Manager.Merging.{or_other, has_name, fetch_extensions-named}
use image_factory.Publication.{
  verify_published, sign_and_promote, with_evidence, publish_installer_index, Calls, Reference,
  digest, tag,
}
use image_factory.Publication.Promotion.{RetriesUntil, LeaveTag}
use image_factory.Installers.{
  get_requested_image, location, first_stable, resolve_latest, build_install_image, build_tag,
  serve_tag, tag_of, manifest, Request, Location, Repository, Options, Sources,
}
use image_factory.Oci.{V2Route, target_manifest}
use image_factory.Oci.Routing.{segments_of}
use image_factory.Installers.Handler.{serve_v2, Referrers}
use image_factory.Installers.Handler.Delivery.{IsAnswered, serve_v2-IsAnswered}
use image_factory.Examples.Http.{IsSegment-by}
use image_factory.Installers.Verified.{is_version_tag, IsDelivered, manifest-IsDelivered}

abbrev htpasswd : List String
htpasswd = "# users" ∷ "alice:$2y$05$a" ∷ " alice : $2y$05$b " ∷ []

abbrev alice : Users
alice = ("alice", "$2y$05$a" ∷ "$2y$05$b" ∷ []) ∷ []

loads_alice : load_htpasswd htpasswd false ≡ ok alice
unfolding load_htpasswd load_lines entry_of check_entry add_hash trim_space trim_func trim_left
    trim_right is_space has_prefix cut cut_prefix
loads_alice = refl

verify_credentials-admits_example :
    verify_credentials (λ hash password. hash == password) (some alice) "alice" "$2y$05$b"
    ≡ any (admits (λ hash password. hash == password) "alice" "$2y$05$b") (entries_of 1 htpasswd)
verify_credentials-admits_example =
    verify_credentials-admits (λ hash password. hash == password) "alice" "$2y$05$b" htpasswd false
      {out = alice} loads_alice

abbrev pinned_exchange : Exchange
pinned_exchange = record {
  state = record { pinned_cache_control = "no-store"; status = 0 };
  cache_control = "no-store" ∷ [];
  sent = none;
}

act_all-IsObserved_example : IsObserved "no-store" (
    act_all
      (set_cache_control ("public" ∷ []) ∷ write_header 103 ∷ write_header 404 ∷ write_body ∷ [])
      pinned_exchange)
act_all-IsObserved_example =
    act_all-IsObserved "no-store"
      (set_cache_control ("public" ∷ []) ∷ write_header 103 ∷ write_header 404 ∷ write_body ∷ [])
      pinned_exchange (ne_of_test refl) refl
      (record { recorded = refl; policy_kept = refl; pinned = tt })

abbrev extension_of : String → String → ExtensionRef String
extension_of name source = record {
  tagged_reference = name;
  digest = source;
  description = "";
  author = "";
  image_digest = "";
  pull_reference = name;
}

merges :
    fetch_extensions
      (λ t. t)
      (λ (e : String). false)
      (ok (extension_of "gvisor" "official" ∷ extension_of "kata" "official" ∷ []))
      (some (ok (extension_of "gvisor" "extra" ∷ [])))
    ≡ ok (extension_of "gvisor" "extra" ∷ extension_of "kata" "official" ∷ [])
unfolding fetch_extensions merge_extensions not_overridden overrides
merges = refl

fetch_extensions-named_example :
    (named (λ t. t) (extension_of "gvisor" "extra" ∷ extension_of "kata" "official" ∷ []) "gvisor"
      ≡ or_other (named (λ t. t) (extension_of "gvisor" "extra" ∷ []) "gvisor") (
          named
            (λ t. t)
            (extension_of "gvisor" "official" ∷ extension_of "kata" "official" ∷ [])
            "gvisor"))
    × (count
          (has_name (λ t. t) "gvisor")
          (extension_of "gvisor" "extra" ∷ extension_of "kata" "official" ∷ [])
        ≡ 1)
fetch_extensions-named_example =
    fetch_extensions-named (λ t. t) {E = String} (λ e. false) (extension_of "gvisor" "extra" ∷ [])
      (extension_of "gvisor" "official" ∷ extension_of "kata" "official" ∷ []) "gvisor"
      {out = extension_of "gvisor" "extra" ∷ extension_of "kata" "official" ∷ []} merges

-- A registry whose only state is what a tag stands for; all calls succeed.
abbrev push_tag : Reference → Option String → Option String
push_tag (digest index) w = w
push_tag (tag t) w = some t

abbrev one_tag : Calls (Option String) String
one_tag = record {
  push = λ r w. (push_tag r w, none);
  publish_evidence = λ w. (w, none);
  verify_evidence = λ w. (w, none);
  sign_image = λ r w. (w, none);
  verify_image = λ r w. (w, none);
  retry = λ verify w. verify w;
  context_error = λ w. none;
}

abbrev one_version : Semver ℕ
one_version = record {
  parse_tolerant = λ s. some 1;
  lt = ltb;
  eq = nat_eq;
  major = λ v. v;
  minor = λ v. 0;
  pre = λ v. [];
}

abbrev one_source : Sources (Option String) ℕ String
one_source = record {
  check_schematic = λ w id. none;
  talos_versions = λ w. ok (1 ∷ []);
  version_text = λ v. "1.13.0";
  parse = λ s. some 1;
  head_tag = λ w t. err "404";
  is_missing = λ e. e == "404";
  assemble = λ image schematic t w. (w, ok "sha256:ab");
  ended = none;
}

abbrev local : Repository
local = record { scheme = "http"; host = "registry"; path = "factory" }

abbrev plain_options : Options
plain_options = record {
  internal_repository = local;
  external_repository = local;
  proxy_registry = local;
  proxy_images = λ image. none;
  proxy_internal = false;
  auth_enabled = true;
  enterprise_enabled = true;
  has_evidence_publisher = true;
}

abbrev latest : Request
latest = record {
  image = "metal-installer-secureboot";
  schematic = "376567";
  reference = "latest";
  resource = "manifests";
}

abbrev delivered : Location
delivered = record {
  scheme = "http";
  host = "registry";
  repository = "factory/metal-installer-secureboot/376567";
  resource = "manifests";
  reference = "sha256:ab";
  proxy = true;
}

latest_tag : tag_of one_version 1 one_tag one_source plain_options none "latest" ≡ ok "v1.13.0"
unfolding tag_of resolve_latest first_stable sort_func
latest_tag = refl

delivers : (manifest one_version 1 one_tag one_source plain_options none latest).1 ≡ ok delivered
unfolding manifest get_requested_image tag_of resolve_latest first_stable sort_func serve_tag
    build_tag build_install_image publish_installer_index with_evidence sign_and_promote
    verify_published location has_prefix cut_prefix cut_suffix
delivers = refl

one_tag-RetriesUntil : RetriesUntil one_tag
one_tag-RetriesUntil verify w h = (w, h)

one_tag-LeaveTag : (final : String) → LeaveTag one_tag (λ w t. w) final
one_tag-LeaveTag final = record {
  push_digest = λ index w. refl;
  publish_evidence = λ w. refl;
  verify_evidence = λ w. refl;
  sign_image = λ index w. refl;
  verify_image = λ index w. refl;
  retry = λ verify w h. h w;
}

is_version :
    is_version_tag one_version 1 one_tag one_source plain_options one_tag-RetriesUntil
      (λ w t. w)
      one_tag-LeaveTag
      "v1.13.0"
    ≡ true
unfolding has_prefix cut_prefix
is_version = refl

manifest-IsDelivered_example :
    IsDelivered one_version 1 one_tag one_source plain_options one_tag-RetriesUntil
      (λ w t. w)
      one_tag-LeaveTag
      none
      latest
      delivered
manifest-IsDelivered_example =
    manifest-IsDelivered one_version 1 one_tag one_source plain_options one_tag-RetriesUntil
      (λ w t. w) one_tag-LeaveTag none latest "v1.13.0" {loc = delivered} latest_tag is_version
      delivers

abbrev latest_route : V2Route
latest_route = record {
  image = "metal-installer-secureboot";
  schematic = "376567";
  resource = "manifests";
  reference = "latest";
  target = target_manifest;
}

no_referrers : Option String → String → String → Result String Referrers
no_referrers w subject artifact_type = err "404"

serve_v2-IsAnswered_example :
    IsAnswered one_version 1 one_tag one_source plain_options one_tag-RetriesUntil
      (λ w t. w)
      one_tag-LeaveTag
      (λ d. true)
      no_referrers
      none
      latest
      (serve_v2 one_version 1 one_tag one_source plain_options
        (λ d. true)
        no_referrers
        none
        "/metal-installer-secureboot/376567/manifests/latest"
        "").1
unfolding segments_of contains_rune contains_func
serve_v2-IsAnswered_example =
    serve_v2-IsAnswered one_version 1 one_tag one_source plain_options one_tag-RetriesUntil
      (λ w t. w) one_tag-LeaveTag (λ d. true) no_referrers none latest_route "" "v1.13.0"
      (
        IsSegment-by "metal-installer-secureboot" refl refl,
        (
          IsSegment-by "376567" refl refl,
          (IsSegment-by "manifests" refl refl, (IsSegment-by "latest" refl refl, tt)),
        ),
      )
      (ne_of_test refl) refl refl latest_tag is_version
