-- ===== src/ImageProfile.antt =====
-- internal/profile/profile.go: from the name of an asset to what is built.
pub mod Sidecars
pub mod Paths
pub mod Arches
use image_factory.Prelude.{
  ℕ, String, Bool, true, false, ◌||◌, Option, none, some, List, [], ◌∷◌, nat_eq, ◌==◌, ◌⧺◌,
  if◌then◌else◌,
}
use image_factory.Strings.{cut_prefix, cut_suffix, cut}

-- The kinds and formats of the imager's profile (Talos); only their texts are parameters below.
pub data OutKind : Type 0 where
  kind_kernel kind_cmdline kind_initramfs kind_iso kind_uki kind_installer kind_image : OutKind

pub data OutFormat : Type 0 where
  format_raw format_tar format_gz format_xz format_zstd : OutFormat

pub data DiskFormat : Type 0 where
  disk_unknown disk_raw disk_qcow2 disk_vpc disk_ova : DiskFormat

pub record ImageOptions : Type 0 where
  pub disk_size : ℕ
  pub disk_format : DiskFormat
  pub disk_format_options : String

-- What the code sets of the imager's `Profile`; `secure_boot` is a pointer, nil or to `true`.
pub record Profile : Type 0 where
  pub kind : OutKind
  pub out_format : OutFormat
  pub platform : String
  pub arch : String
  pub secure_boot : Option Bool
  pub image_options : Option ImageOptions

-- `parseArch`; `none` is the error tagged `InvalidErrorTag`.
unfoldable pub parse_arch : String → Option String
parse_arch s =
    if s == "amd64" || s == "arm64"
    then some s
    else if s == "x86_64" || s == "i386"
    then some "amd64"
    else none

-- `strings.CutSuffix(s, "-secureboot")`, with what becomes of `SecureBoot`.
abbrev pub secureboot_of : String → Option String → String × Option Bool
secureboot_of s (some rest) = (rest, some true)
secureboot_of s none = (s, none)

unfoldable pub cut_secureboot : String → String × Option Bool
cut_secureboot s = secureboot_of s (cut_suffix s "-secureboot")

-- The special case of the platform with a dash.
unfoldable pub dashed_platform : String → String → String × String
dashed_platform platform rest =
    if platform == "digital"
    then elim (cut_prefix rest "ocean-") [
      | some arch ↦ ("digital-ocean", arch)
      | none ↦ (platform, rest)
    ]
    else (platform, rest)

-- The fields that `parsePlatformArch` sets.
pub record PlatformArch : Type 0 where
  pub platform : String
  pub arch : String
  pub secure_boot : Option Bool

-- The end of `parsePlatformArch`.
abbrev pub set_arch : Option Bool → String → Option String → Option PlatformArch
set_arch secure_boot platform none = none
set_arch secure_boot platform (some arch) =
    some (record { platform = platform; arch = arch; secure_boot = secure_boot })

unfoldable pub with_arch : Option Bool → String × String → Option PlatformArch
with_arch secure_boot (platform, rest) = set_arch secure_boot platform (parse_arch rest)

abbrev pub cut_platform : Option Bool → Option (String × String) → Option PlatformArch
cut_platform secure_boot none = none
cut_platform secure_boot (some (platform, rest)) =
    with_arch secure_boot (dashed_platform platform rest)

unfoldable pub platform_arch : String × Option Bool → Option PlatformArch
platform_arch (s, secure_boot) = cut_platform secure_boot (cut s "-")

-- `parsePlatformArch`
unfoldable pub parse_platform_arch : String → Option PlatformArch
parse_platform_arch s = platform_arch (cut_secureboot s)

-- A profile without image options, of the raw output format.
abbrev pub raw_profile : OutKind → PlatformArch → Profile
raw_profile kind p = record {
  kind = kind;
  out_format = format_raw;
  platform = p.platform;
  arch = p.arch;
  secure_boot = p.secure_boot;
  image_options = none;
}

unfoldable pub raw_of : OutKind → Option PlatformArch → Option Profile
raw_of kind none = none
raw_of kind (some p) = some (raw_profile kind p)

abbrev pub or_else : Option String → (String → Option Profile) → Option Profile → Option Profile
or_else none f next = next
or_else (some rest) f next = f rest

-- The names of the imager: its platform `metal`, the texts of its formats, the size of its raw
-- disks, and the disk size and format options of its default profile for a platform.
module _ (metal : String) (out_text : OutFormat → String) (disk_text : DiskFormat → String)
    (raw_disk_size : ℕ) (defaults : String → Option (ℕ × String)) where
  -- `kernel-<arch>`, `initramfs-<arch>.xz`, `installer-<arch>[-secureboot].tar`
  unfoldable pub metal_arch : String × Option Bool → Option PlatformArch
  metal_arch (s, secure_boot) = with_arch secure_boot (metal, s)

  -- The output format, and the path without it.
  unfoldable pub cut_format : List OutFormat → String → OutFormat × String
  cut_format [] path = (format_raw, path)
  cut_format (format ∷ formats) path = elim (cut_suffix path (out_text format)) [
    | some rest ↦ (format, rest)
    | none ↦ cut_format formats path
  ]

  -- The disk format, and the path without it; `disk_unknown` if there is none.
  unfoldable pub cut_disk : List DiskFormat → String → DiskFormat × String
  cut_disk [] path = (disk_unknown, path)
  cut_disk (format ∷ formats) path = elim (cut_suffix path ("." ⧺ disk_text format)) [
    | some rest ↦ (format, rest)
    | none ↦ cut_disk formats path
  ]

  abbrev pub format_options : DiskFormat → String
  format_options disk_qcow2 = "cluster_size=8k"
  format_options _ = ""

  abbrev pub is_unknown : DiskFormat → Bool
  is_unknown disk_unknown = true
  is_unknown _ = false

  -- The options of the platform's default profile, where they are set.
  unfoldable pub with_defaults : Option (ℕ × String) → ImageOptions → ImageOptions
  with_defaults none o = o
  with_defaults (some (size, options)) o = record {
    disk_size = if nat_eq size 0 then o.disk_size else size;
    disk_format = o.disk_format;
    disk_format_options = if options == "" then o.disk_format_options else options;
  }

  unfoldable pub image_profile : OutFormat → DiskFormat → Option PlatformArch → Option Profile
  image_profile out disk none = none
  image_profile out disk (some p) = some (record {
    kind = kind_image;
    out_format = out;
    platform = p.platform;
    arch = p.arch;
    secure_boot = p.secure_boot;
    image_options = some (
        with_defaults (defaults p.platform) (record {
          disk_size = raw_disk_size;
          disk_format = disk;
          disk_format_options = format_options disk;
        }));
  })

  unfoldable pub disk_image : OutFormat → DiskFormat × String → Option Profile
  disk_image out (disk, path) =
      if is_unknown disk then none else image_profile out disk (parse_platform_arch path)

  -- A disk image, from the end of its path.
  unfoldable pub parse_image : String → Option Profile
  parse_image path =
      let (out, rest) = cut_format (format_tar ∷ format_gz ∷ format_xz ∷ format_zstd ∷ []) path in
      disk_image out (cut_disk (disk_raw ∷ disk_qcow2 ∷ disk_vpc ∷ disk_ova ∷ []) rest)

  -- `strings.CutPrefix`, then `strings.CutSuffix`.
  unfoldable pub cut_both : String → String → String → Option String
  cut_both path prefix suffix = elim (cut_prefix path prefix) [
    | none ↦ none
    | some rest ↦ cut_suffix rest suffix
  ]

  -- The text around `-installer-`, of a path that ends in `.tar`, joined by a dash.
  unfoldable pub cut_installer : String → Option String
  cut_installer path = elim (cut path "-installer-") [
    | none ↦ none
    | some (platform, rest) ↦ elim (cut_suffix rest ".tar") [
      | none ↦ none
      | some arch ↦ some (platform ⧺ "-" ⧺ arch)
    ]
  ]

  -- The tests of `ParseFromPath` in their order, each with what it does with the text that is left.
  unfoldable pub path_tests : List ((String → Option String) × (String → Option Profile))
  path_tests =
      ((λ path. cut_prefix path "kernel-"), (λ s. raw_of kind_kernel (metal_arch (s, none))))
      ∷ ((λ path. cut_prefix path "cmdline-"), (λ s. raw_of kind_cmdline (parse_platform_arch s)))
      ∷ (
        (λ path. cut_both path "initramfs-" ".xz"),
        (λ s. raw_of kind_initramfs (metal_arch (s, none))),
      )
      ∷ ((λ path. cut_suffix path ".iso"), (λ s. raw_of kind_iso (parse_platform_arch s)))
      ∷ ((λ path. cut_suffix path "-uki.efi"), (λ s. raw_of kind_uki (parse_platform_arch s)))
      ∷ (
        (λ path. cut_both path "installer-" ".tar"),
        (λ s. raw_of kind_installer (metal_arch (cut_secureboot s))),
      )
      ∷ ((λ path. cut_installer path), (λ s. raw_of kind_installer (parse_platform_arch s)))
      ∷ []

  -- The first test that cuts the path decides; behind them all, it is a disk image.
  unfoldable pub first_test :
      List ((String → Option String) × (String → Option Profile)) → String → Option Profile
  first_test [] path = parse_image path
  first_test ((cut_off, build) ∷ tests) path =
      let next = first_test tests path in or_else (cut_off path) build next

  -- `ParseFromPath`
  unfoldable pub parse_from_path : String → Option Profile
  parse_from_path path = first_test path_tests path

  -- `InstallerProfile`
  unfoldable pub installer_profile : Bool → String → String → Profile
  installer_profile secureboot arch platform = raw_profile kind_installer (record {
    platform = if platform == "" then metal else platform;
    arch = arch;
    secure_boot = if secureboot then some true else none;
  })
