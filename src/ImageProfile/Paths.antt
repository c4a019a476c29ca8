-- ===== src/ImageProfile/Paths.antt =====
-- Names of assets that are read back: sidecars and installers.
use image_factory.Prelude.{
  ℕ, String, ◌≡◌, refl, sym, ap, ◌∙◌, subst, ◌≢◌, inl, inr, Bool, true, false, Option, none, some,
  List, ◌∷◌, arith, eq_iff, ◌==◌, ◌⧺◌, Bool-cases, contains,
}
use image_factory.Strings.{cut_prefix, cut_suffix}
use image_factory.Strings.Cutting.{cut_suffix-append, last_or, last_or-append, cut_suffix-none}
use image_factory.ImageProfile.Sidecars.{sidecars, or_sidecar, cut_sidecar, split_artifact_path}
use image_factory.ImageProfile.{
  parse_arch, cut_secureboot, with_arch, raw_of, metal_arch, cut_both, path_tests, first_test,
  parse_from_path, installer_profile, OutFormat, DiskFormat,
}
use image_factory.ImageProfile.Arches.{is_arch}

-- The last character of a text that ends in a given one.
cut_suffix-other :
    (path ending other : String)
    → ((k j : ℕ) → last_or k other ≢ last_or j ending)
    → cut_suffix (path ⧺ ending) other ≡ none
cut_suffix-other path ending other differ =
    cut_suffix-none (path ⧺ ending) other
      λ k e. differ k (last_or 0 path) (e ∙ last_or-append 0 path ending)

cut_sidecar-here :
    (sidecar path : String) (rest : List String)
    → cut_sidecar (sidecar ∷ rest) (path ⧺ sidecar) ≡ (path, sidecar)
unfolding cut_sidecar
cut_sidecar-here sidecar path rest =
    ap (λ m. or_sidecar sidecar m (cut_sidecar rest (path ⧺ sidecar)))
      (cut_suffix-append path sidecar)

cut_sidecar-there :
    (other sidecar path : String) (rest : List String)
    → ((k j : ℕ) → last_or k other ≢ last_or j sidecar)
    → cut_sidecar (other ∷ rest) (path ⧺ sidecar) ≡ cut_sidecar rest (path ⧺ sidecar)
unfolding cut_sidecar
cut_sidecar-there other sidecar path rest differ =
    ap (λ m. or_sidecar other m (cut_sidecar rest (path ⧺ sidecar)))
      (cut_suffix-other path sidecar other differ)

-- A sidecar behind any path is split off, and only it: `SplitArtifactPath` gives the path back.
pub split_artifact_path-append :
    (path sidecar : String)
    → contains sidecars sidecar ≡ true
    → split_artifact_path (path ⧺ sidecar) ≡ (path, sidecar)
unfolding split_artifact_path
split_artifact_path-append path sidecar known =
    let by = λ (s : String) (e : (s == sidecar) ≡ true).
      subst
        (λ t.
          cut_sidecar sidecars (path ⧺ s) ≡ (path, s) → cut_sidecar sidecars (path ⧺ t) ≡ (path, t))
        ((eq_iff s sidecar).0 e) (λ h. h) in
    elim (Bool-cases (".sigstore.json" == sidecar)) [
      | inl signed ↦ by ".sigstore.json" signed (cut_sidecar-here ".sigstore.json" path _)
      | inr not_signed ↦ elim (Bool-cases (".sha512" == sidecar)) [
        | inl long ↦ by ".sha512" long (
            cut_sidecar-there ".sigstore.json" ".sha512" path _ (λ k j e. omega (arith, e))
            ∙ cut_sidecar-here ".sha512" path _)
        | inr not_long ↦ by ".sha256" (ground (arith, known, not_signed, not_long)) (
            cut_sidecar-there ".sigstore.json" ".sha256" path _ (λ k j e. omega (arith, e))
            ∙ cut_sidecar-there ".sha512" ".sha256" path _ (λ k j e. omega (arith, e))
            ∙ cut_sidecar-here ".sha256" path _)
      ]
    ]

abbrev pub secureboot_text : Bool → String
secureboot_text true = "-secureboot"
secureboot_text false = ""

module _ (metal : String) (out_text : OutFormat → String) (disk_text : DiskFormat → String)
    (raw_disk_size : ℕ) (defaults : String → Option (ℕ × String)) where
  -- The claim at one architecture.
  abbrev IsInstallerName : Bool → String → Type 0
  IsInstallerName secureboot arch =
      parse_from_path metal out_text disk_text raw_disk_size defaults
        ("installer-" ⧺ arch ⧺ secureboot_text secureboot ⧺ ".tar")
      ≡ some (installer_profile metal out_text disk_text raw_disk_size defaults secureboot arch "")

  amd64-IsInstallerName : (secureboot : Bool) → IsInstallerName secureboot "amd64"
  unfolding parse_from_path first_test path_tests installer_profile cut_both metal_arch with_arch
      parse_arch raw_of cut_prefix cut_suffix cut_secureboot
  amd64-IsInstallerName true = refl
  amd64-IsInstallerName false = refl

  arm64-IsInstallerName : (secureboot : Bool) → IsInstallerName secureboot "arm64"
  unfolding parse_from_path first_test path_tests installer_profile cut_both metal_arch with_arch
      parse_arch raw_of cut_prefix cut_suffix cut_secureboot
  arm64-IsInstallerName true = refl
  arm64-IsInstallerName false = refl

  -- The name of an installer, `installer-<arch>[-secureboot].tar`, is parsed into the very profile
  -- that `InstallerProfile` gives for the architecture, without a platform.
  pub parse_from_path-installer_profile :
      (secureboot : Bool) (arch : String)
      → is_arch arch ≡ true
      → parse_from_path metal out_text disk_text raw_disk_size defaults
          ("installer-" ⧺ arch ⧺ secureboot_text secureboot ⧺ ".tar")
        ≡ some
            (installer_profile metal out_text disk_text raw_disk_size defaults secureboot arch "")
  parse_from_path-installer_profile secureboot arch known = elim (Bool-cases (arch == "amd64")) [
    | inl amd ↦
        subst (IsInstallerName secureboot) (sym ((eq_iff arch "amd64").0 amd))
          (amd64-IsInstallerName secureboot)
    | inr other ↦
        subst (IsInstallerName secureboot)
          (sym ((eq_iff arch "arm64").0 (ground (arith, known, other))))
          (arm64-IsInstallerName secureboot)
  ]
