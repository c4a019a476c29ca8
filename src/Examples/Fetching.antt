-- ===== src/Examples/Fetching.antt =====
-- Runs of the list of versions and of the images that are pulled.
use image_factory.Prelude.{
  ℕ, String, ◌≡◌, refl, Bool, true, false, Option, none, List, [], ◌∷◌, eq_refl, nat_eq, ◌==◌, ◌⧺◌,
  if◌then◌else◌, Result, ok, err,
}
use image_factory.Artifacts.Fetching.{
  arch_text, is_recent, new_lists, refresh, get_talos_versions, run, validate_talos_version,
  parse_tag, get_stored, get_installer_image, Call, arm64,
}
use image_factory.Artifacts.Fetching.Served.{get_installer_image-IsServed, IsServed}

abbrev fetch_at : ℕ → Result String (List ℕ)
fetch_at t = ok (1 ∷ t ∷ [])

abbrev first_call : Call String
first_call = record { now = 0; finished = 2; ended = none }

abbrev second_call : Call String
second_call = record { now = 7; finished = 8; ended = none }

abbrev parse_number : String → Result String ℕ
parse_number text = if text == "2" then ok 2 else err "no version"

abbrev number_text : ℕ → String
number_text v = "2.0.0"

abbrev is_there : (String → Bool) → String → Bool
is_there files path = files path

abbrev pull_path : String → (String → Bool) → (String → Bool) × Option String
pull_path path files = (λ other. if other == path then true else files other, none)

pull_path-is_there :
    (path : String) (files : String → Bool)
    → (pull_path path files).1 ≡ none
    → is_there (pull_path path files).0 path ≡ true
pull_path-is_there path files h = rw (eq_refl path) refl

get_installer_image-IsServed_example :
    IsServed 10 fetch_at parse_number number_text nat_eq is_there pull_path second_call "2"
      (λ tag. arch_text arm64 ⧺ "-installer-" ⧺ tag)
      (get_installer_image 10 fetch_at parse_number number_text nat_eq is_there pull_path
        second_call none arm64 "2"
        (run 10 fetch_at (first_call ∷ []) (new_lists 10 fetch_at), λ path. false)).0.1
      "arm64-installer-v2.0.0"
unfolding run get_talos_versions refresh is_recent get_installer_image parse_tag
    validate_talos_version get_stored arch_text
get_installer_image-IsServed_example =
    get_installer_image-IsServed 10 fetch_at parse_number number_text nat_eq is_there pull_path
      (first_call ∷ []) second_call none arm64 "2" (λ path. false) {path = "arm64-installer-v2.0.0"}
      pull_path-is_there refl
