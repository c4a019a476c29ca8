-- ===== src/Examples/Images.antt =====
-- Runs of the parser of asset names.
use image_factory.Prelude.{ℕ, String, ◌≡◌, refl, true, Option, none, some}
use image_factory.Strings.{cut_prefix, cut_suffix, cut}
use image_factory.ImageProfile.{
  parse_arch, cut_secureboot, dashed_platform, with_arch, platform_arch, parse_platform_arch,
  cut_format, cut_disk, with_defaults, image_profile, disk_image, parse_image, cut_both,
  cut_installer, path_tests, first_test, parse_from_path, installer_profile, Profile, kind_image,
  OutFormat, format_raw, format_tar, format_gz, format_xz, format_zstd, DiskFormat, disk_unknown,
  disk_raw, disk_qcow2, disk_vpc, disk_ova,
}
use image_factory.ImageProfile.Paths.{parse_from_path-installer_profile}

abbrev out_names : OutFormat → String
out_names format_raw = ""
out_names format_tar = ".tar.gz"
out_names format_gz = ".gz"
out_names format_xz = ".xz"
out_names format_zstd = ".zst"

abbrev disk_names : DiskFormat → String
disk_names disk_unknown = "unknown"
disk_names disk_raw = "raw"
disk_names disk_qcow2 = "qcow2"
disk_names disk_vpc = "vhd"
disk_names disk_ova = "ova"

abbrev no_defaults : String → Option (ℕ × String)
no_defaults platform = none

abbrev parse_example : String → Option Profile
parse_example path = parse_from_path "metal" out_names disk_names 1306525696 no_defaults path

abbrev digital_ocean : Profile
digital_ocean = record {
  kind = kind_image;
  out_format = format_xz;
  platform = "digital-ocean";
  arch = "amd64";
  secure_boot = none;
  image_options =
      some (record { disk_size = 1306525696; disk_format = disk_raw; disk_format_options = "" });
}

-- A disk image of the platform with a dash.
digital_ocean_path : parse_example "digital-ocean-amd64.raw.xz" ≡ some digital_ocean
unfolding parse_from_path first_test path_tests parse_image cut_format cut_disk disk_image
    image_profile with_defaults parse_platform_arch platform_arch cut_secureboot dashed_platform
    with_arch parse_arch cut_both cut_installer cut_prefix cut_suffix cut
digital_ocean_path = refl

parse_from_path-installer_profile_example :
    parse_example "installer-arm64-secureboot.tar"
    ≡ some (installer_profile "metal" out_names disk_names 1306525696 no_defaults true "arm64" "")
parse_from_path-installer_profile_example =
    parse_from_path-installer_profile "metal" out_names disk_names 1306525696 no_defaults true
      "arm64" refl
