-- ===== src/Examples/Versions.antt =====
-- Runs of the listings of versions, extensions and binaries, and of a publication.
use image_factory.Prelude.{
  ℕ, String, ◌≡◌, refl, ◌↔◌, inl, true, false, Option, none, some, List, [], ◌∷◌, arith, ltb,
  nat_eq, ◌==◌, if◌then◌else◌, is_empty, All, ok,
}
use image_factory.Strings.{cut_prefix, cut, is_space, trim_left, trim_right, trim_func, trim_space}
use image_factory.Artifacts.{
  parse_candidates, max_from, max_func, sort_func, allows_pre, is_offered, fetch_talos_versions,
  supports, features_for, Semver, IsOrder, Minimums, Fetched, listed, panicked, secure_boot_feature,
}
use image_factory.Artifacts.Offered.{
  Lists, fetch_talos_versions-Lists, fetch_talos_versions-panicked,
}
use image_factory.Artifacts.Features.{number_of, has}
use image_factory.Artifacts.Listings.{
  add_line, add_lines, digests_file, extension_file, extension_files, describe,
  extract_extension_list, extract_talosctl_tuples, TarFile, ExtensionRef, TalosctlTuple, Parsers,
}
use image_factory.Artifacts.Listings.Sources.{IsTagged, extract_extension_list-IsTagged}
use image_factory.Artifacts.Listings.Binaries.{extract_talosctl_tuples-names, IsBinary}
use image_factory.Publication.{publish_installer_index, Calls, Reference, digest, tag}
use image_factory.Publication.Promotion.{
  RetriesUntil, HasVerified, publish_installer_index-IsCareful, LeaveTag, IsCareful,
}

-- Versions that are numbers.
abbrev numbered : Semver ℕ
numbered = record {
  parse_tolerant = λ s. if s == "v1" then some 1 else if s == "v2" then some 2 else none;
  lt = ltb;
  eq = nat_eq;
  major = λ v. v;
  minor = λ v. 0;
  pre = λ v. [];
}

numbered-IsOrder : IsOrder numbered
numbered-IsOrder = record {
  lt_irrefl = λ v. ground arith;
  lt_trans = λ u v w h k. ground arith;
  ge_trans = λ u v w h k. ground arith;
}

fetched_two :
    ◌≡◌ {A = Fetched numbered String}
      (fetch_talos_versions numbered 0 [] (ok ("v2" ∷ "latest" ∷ "v1" ∷ [])))
      (listed (1 ∷ 2 ∷ []))
unfolding fetch_talos_versions parse_candidates max_func sort_func is_offered max_from allows_pre
fetched_two = refl

fetch_talos_versions-Lists_example :
    (max : ℕ) × (max_func numbered (parse_candidates numbered ("v2" ∷ "latest" ∷ "v1" ∷ []))
      ≡ some max)
    × Lists numbered numbered-IsOrder 0 []
        (parse_candidates numbered ("v2" ∷ "latest" ∷ "v1" ∷ []))
        max
        (1 ∷ 2 ∷ [])
fetch_talos_versions-Lists_example =
    fetch_talos_versions-Lists numbered numbered-IsOrder {E = String} 0 []
      ("v2" ∷ "latest" ∷ "v1" ∷ []) {out = 1 ∷ 2 ∷ []} fetched_two

fetch_talos_versions-panicked_example :
    (◌≡◌ {A = Fetched numbered String}
      (fetch_talos_versions numbered 0 [] (ok ("latest" ∷ [])))
      panicked)
    ↔ (parse_candidates numbered ("latest" ∷ []) ≡ [])
fetch_talos_versions-panicked_example =
    fetch_talos_versions-panicked numbered numbered-IsOrder {E = String} 0 [] ("latest" ∷ [])

abbrev minimums : Minimums numbered
minimums = record {
  secure_boot = 1;
  production_guide = 1;
  troubleshooting_guide = 2;
  bootloader_selection = 2;
  sbom = 2;
  vex = 3;
}

has_first :
    has (features_for numbered (λ v. false) (λ v. true) minimums 1) secure_boot_feature ≡ true
unfolding has features_for supports number_of
has_first = refl

abbrev texts : Parsers String
texts = record {
  new_tag = λ s. if s == "" then none else some s;
  repository_str = λ t. t;
  tag_str = λ t. t;
  pull = λ path tag. path;
  scan = λ content. (content ∷ [], false);
  decode_descriptions = λ descriptions content. some (λ line. some ("author", content));
  decode_overlays = λ content. some [];
}

abbrev archive : List TarFile
archive =
    record { name = "image-digests"; content = " siderolabs/gvisor:1@sha256:ab " }
    ∷ record { name = "descriptions.yaml"; content = "sandbox" }
    ∷ []

abbrev gvisor : ExtensionRef String
gvisor = record {
  tagged_reference = "siderolabs/gvisor:1";
  digest = "sha256:ab";
  description = "sandbox";
  author = "author";
  image_digest = "siderolabs/gvisor:1@sha256:ab";
  pull_reference = "siderolabs/gvisor:1";
}

extracted : extract_extension_list texts archive false ≡ ok (gvisor ∷ [])
unfolding extract_extension_list extension_files extension_file digests_file add_lines add_line
    describe trim_space trim_func trim_left trim_right is_space cut cut_prefix
extracted = refl

extract_extension_list-IsTagged_example :
    All (IsTagged texts archive) (gvisor ∷ []) × (is_empty (gvisor ∷ []) ≡ false)
extract_extension_list-IsTagged_example =
    extract_extension_list-IsTagged texts archive false {out = gvisor ∷ []} extracted

abbrev for_windows : TalosctlTuple
for_windows = record { os = "windows"; arch = "amd64"; ext = ".exe" }

for_windows-IsBinary : IsBinary for_windows
for_windows-IsBinary = record {
  os_plain = omega arith;
  arch_plain = omega arith;
  ext_known = inl refl;
}

extract_talosctl_tuples-names_example :
    extract_talosctl_tuples
      (record { name = "talosctl-windows-amd64.exe"; content = "MZ" } ∷ [])
      false
    ≡ ok (for_windows ∷ [])
extract_talosctl_tuples-names_example =
    extract_talosctl_tuples-names for_windows [] "MZ" (for_windows-IsBinary, tt)

-- A registry whose only state is the image of one tag; all calls succeed.
abbrev push_tag : Reference → Option String → Option String
push_tag (digest index) w = w
push_tag (tag t) w = some t

abbrev one_tag : Calls (Option String) String
one_tag = record {
  push = λ r w. (push_tag r w, none);
  publish_evidence = λ w. (w, none);
  verify_evidence = λ w. (w, none);
  sign_image = λ r w. (w, none);
  verify_image = λ r w. (w, none);
  retry = λ verify w. verify w;
  context_error = λ w. none;
}

one_tag-RetriesUntil : RetriesUntil one_tag
one_tag-RetriesUntil verify w h = (w, h)

one_tag-LeaveTag : LeaveTag one_tag (λ w t. w) "installer"
one_tag-LeaveTag = record {
  push_digest = λ index w. refl;
  publish_evidence = λ w. refl;
  verify_evidence = λ w. refl;
  sign_image = λ index w. refl;
  verify_image = λ index w. refl;
  retry = λ verify w h. h w;
}

publish_installer_index-IsCareful_example :
    IsCareful one_tag one_tag-RetriesUntil
      (λ w t. w)
      "sha256:ab"
      "installer"
      one_tag-LeaveTag
      (HasVerified one_tag "sha256:ab" true)
      none
      (publish_installer_index one_tag "sha256:ab" "installer" true none)
publish_installer_index-IsCareful_example =
    publish_installer_index-IsCareful one_tag one_tag-RetriesUntil (λ w t. w) "sha256:ab"
      "installer" one_tag-LeaveTag true none
