-- ===== src/Examples/Enhancing.antt =====
-- A run of the enhancement of a profile.
use image_factory.Prelude.{ℕ, String, ◌≡◌, refl, true, false, none, List, [], ◌∷◌, ok, err}
use image_factory.ImageProfile.{kind_installer, format_raw}
use image_factory.Schematics.{Schematic, no_fields}
use image_factory.Artifacts.Listings.{ExtensionRef}
use image_factory.Enhancement.{
  oci_asset, tarball_asset, capture, extension_name_alias, find_extension, resolve_extension,
  embed_config, should_auto_sign_installer, auto_sign, secure, check_overlay, add_installer,
  Enhanced, Dependency, Work, Producer, disabled,
}
use image_factory.Enhancement.Inputs.{
  add_extensions, add_official, add_schematic_extension, add_overlay, add_inputs, customize, finish,
  enhance_from_schematic, bind_installer, enhance_with_dependencies,
}
use image_factory.Enhancement.Dependencies.{IsDistinct, enhance_with_dependencies-IsDistinct}
use image_factory.Enhancement.Selection.{
  enhance_with_dependencies-base_installer, AreAvailable, enhance_from_schematic-AreAvailable,
}

abbrev gvisor : ExtensionRef String
gvisor = record {
  tagged_reference = "siderolabs/gvisor";
  digest = "sha256:ab";
  description = "";
  author = "";
  image_digest = "";
  pull_reference = "siderolabs/gvisor";
}

-- A producer without secure boot and overlays.
abbrev producing : Producer ℕ String String
producing = record {
  installer_image_name = λ version. "installer";
  installer = λ arch version. ok ("installer@sha256:cd", "/oci/installer");
  extension = λ arch e. ok (e.digest, "/oci/gvisor");
  overlay = λ arch o. err "no overlays";
  official_extensions = λ version. ok (gvisor ∷ []);
  official_overlays = λ version. ok [];
  schematic_extension = λ version s. ok "/tar/schematic";
  merge_overlay = λ p o. ok p;
  repository_str = λ t. t;
  has_secure_boot_service = false;
  secure_boot_assets = err disabled;
  include_well_known = λ a. a;
  enroll_keys = λ keys. none;
  quirks = λ version. record {
    supports_embedded_config = true;
    supports_overlay = true;
    supports_unified_installer = true;
    forces_lockdown = false;
  };
  host_arch = "amd64";
  bootloader_none = 0;
}

abbrev installer : Enhanced ℕ
installer = record {
  base = record {
    kind = kind_installer;
    out_format = format_raw;
    platform = "metal";
    arch = "arm64";
    secure_boot = none;
    image_options = none;
  };
  embedded_machine_configuration = "";
  extra_kernel_args = [];
  meta_contents = [];
  secure_boot_assets = none;
  base_installer = record { image_ref = ""; oci_path = ""; tarball_path = "" };
  system_extensions = [];
  overlay = none;
  overlay_installer = record { image_ref = ""; oci_path = ""; tarball_path = "" };
  iso_options = none;
  image_enroll_keys = 0;
  image_bootloader = 0;
  disk_sector_size = 0;
  version = "";
  name = "";
}

abbrev asked : Schematic
asked = record {
  owner = "";
  overlay = record { image = ""; name = ""; options = no_fields };
  customization = record {
    embedded_machine_configuration = "";
    extra_kernel_args = "console=ttyS0" ∷ [];
    meta = [];
    official_extensions = "siderolabs/gvisor" ∷ [];
    bootloader = 0;
    secure_boot = record { enroll_keys = ""; include_well_known_certificates = false };
    sector_size = 0;
  };
}

abbrev enhanced : Enhanced ℕ
enhanced = record {
  base = installer.base;
  embedded_machine_configuration = "";
  extra_kernel_args = "console=ttyS0" ∷ [];
  meta_contents = [];
  secure_boot_assets = none;
  base_installer = record {
    image_ref = "installer:v1.13.0";
    oci_path = "/oci/installer";
    tarball_path = "";
  };
  system_extensions = oci_asset "/oci/gvisor" ∷ tarball_asset "/tar/schematic" ∷ [];
  overlay = none;
  overlay_installer = record { image_ref = ""; oci_path = ""; tarball_path = "" };
  iso_options = none;
  image_enroll_keys = 0;
  image_bootloader = 0;
  disk_sector_size = 0;
  version = "v1.13.0";
  name = "Talos";
}

abbrev captured : List Dependency
captured =
    record {
      kind = "base-installer";
      arch = "arm64";
      ref = "installer@sha256:cd";
      oci_path = "/oci/installer";
    }
    ∷ record { kind = "extension"; arch = "arm64"; ref = "sha256:ab"; oci_path = "/oci/gvisor" }
    ∷ []

abbrev bound : Work ℕ
bound = record {
  profile = record enhanced {
    base_installer = record {
      image_ref = "installer@sha256:cd";
      oci_path = "/oci/installer";
      tarball_path = "";
    };
  };
  dependencies = captured;
}

enhances :
    enhance_from_schematic producing "Talos" "v1.13.0" asked
      (record { profile = installer; dependencies = [] })
    ≡ ok (record { profile = enhanced; dependencies = captured })
unfolding enhance_from_schematic embed_config auto_sign should_auto_sign_installer secure
    check_overlay add_installer add_inputs add_official add_extensions add_schematic_extension
    add_overlay resolve_extension find_extension extension_name_alias capture finish customize
enhances = refl

enhances_with_dependencies :
    enhance_with_dependencies producing "Talos" "v1.13.0" asked installer ≡ ok bound
unfolding enhance_with_dependencies enhance_from_schematic embed_config auto_sign
    should_auto_sign_installer secure check_overlay add_installer add_inputs add_official
    add_extensions add_schematic_extension add_overlay resolve_extension find_extension
    extension_name_alias capture finish customize bind_installer
enhances_with_dependencies = refl

enhance_with_dependencies-IsDistinct_example : IsDistinct bound.dependencies
enhance_with_dependencies-IsDistinct_example =
    enhance_with_dependencies-IsDistinct producing "Talos" "v1.13.0" asked installer {out = bound}
      enhances_with_dependencies

enhance_with_dependencies-base_installer_example :
    (found : String × String) × (producing.installer "arm64" "v1.13.0" ≡ ok found)
    × ("installer@sha256:cd" ≡ found.0)
enhance_with_dependencies-base_installer_example =
    enhance_with_dependencies-base_installer producing "Talos" "v1.13.0" asked installer
      {out = bound} refl enhances_with_dependencies

enhance_from_schematic-AreAvailable_example :
    AreAvailable producing "v1.13.0" ("siderolabs/gvisor" ∷ [])
enhance_from_schematic-AreAvailable_example =
    enhance_from_schematic-AreAvailable producing "Talos" "v1.13.0" asked
      (record { profile = installer; dependencies = [] })
      {out = record { profile = enhanced; dependencies = captured }} refl refl enhances
