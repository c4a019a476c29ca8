-- ===== src/Enhancement.antt =====
-- internal/profile/profile.go: the profile of an image, enhanced by a schematic, and the image
-- inputs that are selected for it.
pub mod Inputs
pub mod Stages
pub mod Dependencies
pub mod Selection
pub mod Customizing
use image_factory.Prelude.{
  ℕ, String, Bool, true, false, not, ◌&&◌, ◌||◌, Option, none, some, List, [], ◌∷◌, ◌++◌, map, ◌==◌,
  ◌⧺◌, if◌then◌else◌, contains, ◌>>=◌, Result, ok, err,
}
use image_factory.ImageProfile.{
  Profile, OutKind, kind_kernel, kind_cmdline, kind_initramfs, kind_iso, kind_uki, kind_installer,
  kind_image, disk_unknown,
}
use image_factory.Schematics.{MetaValue, Schematic, AnyFields}
use image_factory.Artifacts.Listings.{ExtensionRef, OverlayRef}

pub record ContainerAsset : Type 0 where
  pub image_ref : String
  pub oci_path : String
  pub tarball_path : String

abbrev pub oci_asset : String → ContainerAsset
oci_asset path = record { image_ref = ""; oci_path = path; tarball_path = "" }

abbrev pub tarball_asset : String → ContainerAsset
tarball_asset path = record { image_ref = ""; oci_path = ""; tarball_path = path }

pub record IsoOptions : Type 0 where
  pub enroll_keys : ℕ
  pub bootloader : ℕ

abbrev pub no_iso_options : IsoOptions
no_iso_options = record { enroll_keys = 0; bootloader = 0 }

pub record OverlayOptions : Type 0 where
  pub name : String
  pub image : ContainerAsset
  pub extra_options : AnyFields

-- The imager's profile: what `ImageProfile` has of it, and the fields that an enhancement sets. The
-- last three of a disk image's options stand beside `base.image_options`, zero where that is nil;
-- constants of other modules' enumerations are their numbers.
pub record Enhanced (A : Type 0) : Type 0 where
  pub base : Profile
  pub embedded_machine_configuration : String
  pub extra_kernel_args : List String
  pub meta_contents : List MetaValue
  pub secure_boot_assets : Option A
  pub base_installer : ContainerAsset
  pub system_extensions : List ContainerAsset
  pub overlay : Option OverlayOptions
  pub overlay_installer : ContainerAsset
  pub iso_options : Option IsoOptions
  pub image_enroll_keys : ℕ
  pub image_bootloader : ℕ
  pub disk_sector_size : ℕ
  pub version : String
  pub name : String

-- `ImageDependency` with the kind and the architecture under which it was captured.
pub record Dependency : Type 0 where
  pub kind : String
  pub arch : String
  pub ref : String
  pub oci_path : String

-- The profile and the captured dependencies.
pub record Work (A : Type 0) : Type 0 where
  pub profile : Enhanced A
  pub dependencies : List Dependency

-- Errors of the clients' input, and those of the calls.
pub data EnhanceError (E : Type 0) : Type 0 where
  invalid_input : String → EnhanceError E
  call_failed : E → EnhanceError E

-- `secureboot.ErrDisabled`, or another error.
pub data SecureBootError (E : Type 0) : Type 0 where
  disabled : SecureBootError E
  broken : E → SecureBootError E

-- Of the quirks of a version of Talos, those that the code asks for.
pub record Quirks : Type 0 where
  pub supports_embedded_config : Bool
  pub supports_overlay : Bool
  pub supports_unified_installer : Bool
  pub forces_lockdown : Bool

-- The artifact producer, the secure boot service, and what the code calls of other modules.
pub record Producer (A T E : Type 0) : Type 0 where
  pub installer_image_name : String → String
  -- `GetInstallerDependency`, `GetExtensionDependency`, `GetOverlayDependency`: reference and path
  pub installer : String → String → Result E (String × String)
  pub extension : String → ExtensionRef T → Result E (String × String)
  pub overlay : String → OverlayRef T → Result E (String × String)
  pub official_extensions : String → Result E (List (ExtensionRef T))
  pub official_overlays : String → Result E (List (OverlayRef T))
  pub schematic_extension : String → Schematic → Result E String
  -- `MergeOverlayProfile`, whose profile is a file of the overlay's artifact
  pub merge_overlay : Enhanced A → OverlayRef T → Result E (Enhanced A)
  pub repository_str : T → String
  pub has_secure_boot_service : Bool
  pub secure_boot_assets : Result (SecureBootError E) A
  pub include_well_known : A → A
  pub enroll_keys : String → Option ℕ
  pub quirks : String → Quirks
  pub host_arch : String
  pub bootloader_none : ℕ

-- The texts that identify a captured dependency.
abbrev pub dependency_key : Dependency → String
dependency_key d = d.kind ⧺ "|" ⧺ d.arch ⧺ "|" ⧺ d.ref

-- `capture`: a key is seen once.
unfoldable pub capture : Dependency → List Dependency → List Dependency
capture d dependencies =
    if contains (map dependency_key dependencies) (dependency_key d)
    then dependencies
    else dependencies ++ d ∷ []

abbrev pub is_kernel_or_cmdline : OutKind → Bool
is_kernel_or_cmdline kind_kernel = true
is_kernel_or_cmdline kind_cmdline = true
is_kernel_or_cmdline _ = false

abbrev pub is_installer : OutKind → Bool
is_installer kind_installer = true
is_installer _ = false

-- `SecureBootEnabled`, of the imager: the pointer is to `true`.
abbrev pub is_secure : Option Bool → Bool
is_secure none = false
is_secure (some enabled) = enabled

-- `ExtensionNameAlias`
unfoldable pub extension_name_alias : String → Option String
extension_name_alias name =
    if name == "siderolabs/v4l-uvc"
    then some "siderolabs/v4l-uvc-drivers"
    else if name == "siderolabs/usb-modem"
    then some "siderolabs/usb-modem-drivers"
    else if name == "siderolabs/gasket"
    then some "siderolabs/gasket-driver"
    else if name == "siderolabs/talos-vmtoolsd"
    then some "siderolabs/vmtoolsd-guest-agent"
    else if name == "siderolabs/xe-guest-utilities"
    then some "siderolabs/xen-guest-agent"
    else if name == "siderolabs/nvidia-container-toolkit"
    then some "siderolabs/nvidia-container-toolkit-lts"
    else if name == "siderolabs/nvidia-open-gpu-kernel-modules"
    then some "siderolabs/nvidia-open-gpu-kernel-modules-lts"
    else if name == "siderolabs/nonfree-kmod-nvidia"
    then some "siderolabs/nonfree-kmod-nvidia-lts"
    else if name == "siderolabs/nvidia-fabricmanager"
    then some "siderolabs/nvidia-fabric-manager-lts"
    else if name == "siderolabs/i915-ucode"
    then some "siderolabs/i915"
    else if name == "siderolabs/amdgpu-firmware"
    then some "siderolabs/amdgpu"
    else none

module _ {A T E : Type 0} (producer : Producer A T E) where
  -- An error of a call, passed on.
  abbrev pub calling : {X : Type 0} → Result E X → Result (EnhanceError E) X
  calling (ok x) = ok x
  calling (err e) = err (call_failed e)

  -- `findExtension`; the zero value is `none`.
  unfoldable pub find_extension : List (ExtensionRef T) → String → Option (ExtensionRef T)
  find_extension [] name = none
  find_extension (e ∷ es) name =
      if producer.repository_str e.tagged_reference == name then some e else find_extension es name

  abbrev pub or_alias :
      List (ExtensionRef T) → Option String → Option (ExtensionRef T) → Option (ExtensionRef T)
  or_alias available aliased (some e) = some e
  or_alias available none none = none
  or_alias available (some alias) none = find_extension available alias

  -- The extension of a name, or of its alias.
  unfoldable pub resolve_extension : List (ExtensionRef T) → String → Option (ExtensionRef T)
  unfolding find_extension extension_name_alias
  resolve_extension available name =
      or_alias available (extension_name_alias name) (find_extension available name)

  unfoldable pub find_overlay : List (OverlayRef T) → String → Option (OverlayRef T)
  find_overlay [] name = none
  find_overlay (o ∷ os) name = if o.name == name then some o else find_overlay os name

  -- The embedded configuration.
  unfoldable pub embed_config : String → Schematic → Work A → Result (EnhanceError E) (Work A)
  embed_config version s work =
      let config = s.customization.embedded_machine_configuration in
      if is_kernel_or_cmdline work.profile.base.kind || config == ""
      then ok work
      else if not (producer.quirks version).supports_embedded_config
      then err (invalid_input "embedding configuration is not supported")
      else ok (record work {
        profile = record (work.profile) { embedded_machine_configuration = config };
      })

  -- `shouldAutoSignInstaller`
  unfoldable pub should_auto_sign_installer : String → Enhanced A → Bool
  should_auto_sign_installer version p =
      not (is_secure p.base.secure_boot)
      && is_installer p.base.kind
      && (producer.quirks version).supports_unified_installer
      && not (producer.quirks version).forces_lockdown
      && producer.has_secure_boot_service

  abbrev pub sign_with : Work A → Result (SecureBootError E) A → Result (EnhanceError E) (Work A)
  sign_with work (ok assets) = ok (record work {
    profile = record (work.profile) {
      base = record (work.profile.base) { secure_boot = some true };
    };
  })
  sign_with work (err disabled) = ok work
  sign_with work (err (broken e)) = err (call_failed e)

  unfoldable pub auto_sign : String → Work A → Result (EnhanceError E) (Work A)
  unfolding should_auto_sign_installer
  auto_sign version work =
      if should_auto_sign_installer version work.profile
      then sign_with work producer.secure_boot_assets
      else ok work

  abbrev iso_or_new : Option IsoOptions → IsoOptions
  iso_or_new none = no_iso_options
  iso_or_new (some o) = o

  -- A nil pointer to the options of a disk image becomes one to zero options.
  abbrev with_image_options : Profile → Profile
  with_image_options p = record p {
    image_options = some (elim p.image_options [
      | some o ↦ o
      | none ↦ record { disk_size = 0; disk_format = disk_unknown; disk_format_options = "" }
    ]);
  }

  -- The enrollment of keys, by the kind of output.
  unfoldable pub set_enroll_keys : OutKind → ℕ → Enhanced A → Enhanced A
  set_enroll_keys kind_iso keys p = record p {
    iso_options = some (record (iso_or_new p.iso_options) { enroll_keys = keys });
  }
  set_enroll_keys kind_image keys p = record p {
    base = with_image_options p.base;
    image_enroll_keys = keys;
  }
  set_enroll_keys kind_kernel keys p = p
  set_enroll_keys kind_cmdline keys p = p
  set_enroll_keys kind_initramfs keys p = p
  set_enroll_keys kind_uki keys p = p
  set_enroll_keys kind_installer keys p = p

  abbrev enroll : Enhanced A → Option ℕ → Result (EnhanceError E) (Enhanced A)
  enroll p none = err (invalid_input "invalid secureboot enrollKeys value")
  enroll p (some keys) = ok (set_enroll_keys p.base.kind keys p)

  abbrev secured :
      Schematic → Enhanced A → Result (SecureBootError E) A → Result (EnhanceError E) (Enhanced A)
  secured s p (err disabled) = err (invalid_input "secure boot is disabled")
  secured s p (err (broken e)) = err (call_failed e)
  secured s p (ok assets) =
      let options = s.customization.secure_boot in
      let copy =
        if options.include_well_known_certificates
        then producer.include_well_known assets
        else assets in
      let with_assets = record p { secure_boot_assets = some copy } in
      if options.enroll_keys == ""
      then ok with_assets
      else enroll with_assets (producer.enroll_keys options.enroll_keys)

  unfoldable pub secure : Schematic → Work A → Result (EnhanceError E) (Work A)
  unfolding set_enroll_keys
  secure s work =
      if is_secure work.profile.base.secure_boot
      then (secured s work.profile producer.secure_boot_assets >>= λ p.
          ok (record work { profile = p }))
      else ok work

  unfoldable pub check_overlay : String → Schematic → Work A → Result (EnhanceError E) (Work A)
  check_overlay version s work =
      if not (s.overlay.name == "") && not (producer.quirks version).supports_overlay
      then err (invalid_input "overlay is not supported")
      else ok work

  unfoldable pub add_installer : String → Work A → Result (EnhanceError E) (Work A)
  unfolding capture
  add_installer version work =
      let arch = work.profile.base.arch in
      if is_installer work.profile.base.kind
      then (calling (producer.installer arch version) >>= λ found. ok (record {
        profile = record (work.profile) {
          base_installer = record {
            image_ref = producer.installer_image_name version ⧺ ":" ⧺ version;
            oci_path = found.1;
            tarball_path = work.profile.base_installer.tarball_path;
          };
        };
        dependencies =
            capture
              (record { kind = "base-installer"; arch = arch; ref = found.0; oci_path = found.1 })
              work.dependencies;
      }))
      else ok work
