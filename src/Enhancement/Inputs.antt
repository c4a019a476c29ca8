-- ===== src/Enhancement/Inputs.antt =====
-- internal/profile/profile.go: the extensions and the overlay of an enhanced profile, its
-- customizations, and the whole enhancement.
use image_factory.Prelude.{
  ℕ, String, Bool, true, false, ◌||◌, Option, none, some, List, [], ◌∷◌, ◌++◌, nat_eq, ◌==◌, ◌⧺◌,
  if◌then◌else◌, is_empty, ◌>>=◌, Result, ok, err,
}
use image_factory.ImageProfile.{
  OutKind, kind_kernel, kind_cmdline, kind_initramfs, kind_iso, kind_uki, kind_installer,
  kind_image,
}
use image_factory.Schematics.{Schematic}
use image_factory.Artifacts.Listings.{ExtensionRef, OverlayRef}
use image_factory.Enhancement.{
  oci_asset, tarball_asset, capture, is_kernel_or_cmdline, is_secure, calling, resolve_extension,
  find_overlay, embed_config, auto_sign, secure, check_overlay, add_installer, ContainerAsset,
  Enhanced, Dependency, Work, Producer, EnhanceError, invalid_input, iso_or_new, with_image_options,
}

-- `META` is supported, and kernel arguments are, of the kinds of output.
abbrev pub takes_meta : OutKind → Bool
takes_meta kind_initramfs = false
takes_meta kind_kernel = false
takes_meta kind_installer = false
takes_meta kind_uki = false
takes_meta _ = true

-- `SecureBootEnabled`, or a version with the unified installer.
abbrev pub takes_kernel_args : OutKind → Bool → Bool
takes_kernel_args kind_initramfs unified = false
takes_kernel_args kind_kernel unified = false
takes_kernel_args kind_installer unified = unified
takes_kernel_args kind_uki unified = unified
takes_kernel_args _ unified = true

module _ {A T E : Type 0} (producer : Producer A T E) where
  abbrev pub append_extension : ContainerAsset → Enhanced A → Enhanced A
  append_extension asset p = record p { system_extensions = p.system_extensions ++ asset ∷ [] }

  abbrev pub add_resolved :
      String → String → Option (ExtensionRef T) → Work A → Result (EnhanceError E) (Work A)
  add_resolved version name none work =
      err (invalid_input ("official extension " ⧺ name ⧺ " is not available"))
  add_resolved version name (some e) work =
      let arch = work.profile.base.arch in
      calling producer (producer.extension arch e) >>= λ found. ok (record {
        profile = append_extension (oci_asset found.1) work.profile;
        dependencies =
            capture (record { kind = "extension"; arch = arch; ref = found.0; oci_path = found.1 })
              work.dependencies;
      })

  -- The loop over the names of extensions.
  unfoldable pub add_extensions :
      String → List (ExtensionRef T) → List String → Work A → Result (EnhanceError E) (Work A)
  unfolding capture
  add_extensions version available [] work = ok work
  add_extensions version available (name ∷ names) work =
      add_resolved version name (resolve_extension producer available name) work
      >>= add_extensions version available names

  unfoldable pub add_official : String → Schematic → Work A → Result (EnhanceError E) (Work A)
  unfolding add_extensions
  add_official version s work =
      let names = s.customization.official_extensions in
      if is_empty names
      then ok work
      else (calling producer (producer.official_extensions version) >>= λ available.
          add_extensions version available names work)

  unfoldable pub add_schematic_extension :
      String → Schematic → Work A → Result (EnhanceError E) (Work A)
  add_schematic_extension version s work =
      calling producer (producer.schematic_extension version s) >>= λ path.
      ok (record work { profile = append_extension (tarball_asset path) work.profile })

  abbrev pub overlay_dependency : String → String × String → Dependency
  overlay_dependency arch found = record {
    kind = "overlay";
    arch = arch;
    ref = found.0;
    oci_path = found.1;
  }

  abbrev pub add_found_overlay :
      Schematic → Option (OverlayRef T) → Work A → Result (EnhanceError E) (Work A)
  add_found_overlay s none work = err (invalid_input "official overlay is not available")
  add_found_overlay s (some o) work =
      let arch = work.profile.base.arch in
      calling producer (producer.overlay producer.host_arch o) >>= λ native.
      calling producer (producer.overlay arch o) >>= λ target.
      calling producer (producer.merge_overlay work.profile o) >>= λ merged. ok (record {
        profile = record merged {
          overlay = some (record {
            name = s.overlay.name;
            image = oci_asset native.1;
            extra_options = s.overlay.options;
          });
          overlay_installer = oci_asset target.1;
        };
        dependencies =
            capture (overlay_dependency arch target)
              (capture (overlay_dependency producer.host_arch native) work.dependencies);
      })

  unfoldable pub add_overlay : String → Schematic → Work A → Result (EnhanceError E) (Work A)
  unfolding capture
  add_overlay version s work =
      if s.overlay.name == ""
      then ok work
      else (calling producer (producer.official_overlays version) >>= λ available.
          add_found_overlay s (find_overlay producer available s.overlay.name) work)

  -- The inputs of kinds other than the kernel and its command line.
  unfoldable pub add_inputs : String → Schematic → Work A → Result (EnhanceError E) (Work A)
  unfolding add_official add_schematic_extension add_overlay
  add_inputs version s work =
      if is_kernel_or_cmdline work.profile.base.kind
      then ok work
      else (add_official version s work
          >>= add_schematic_extension version s
          >>= add_overlay version s)

  -- `setKernelArgsAndMeta`
  unfoldable pub set_kernel_args_and_meta : Schematic → Enhanced A → Enhanced A
  set_kernel_args_and_meta s p = record p {
    extra_kernel_args = p.extra_kernel_args ++ s.customization.extra_kernel_args;
    meta_contents = p.meta_contents ++ s.customization.meta;
  }

  abbrev pub set_unified_args : Schematic → Bool → Enhanced A → Enhanced A
  set_unified_args s true p = record p {
    extra_kernel_args = p.extra_kernel_args ++ s.customization.extra_kernel_args;
  }
  set_unified_args s false p = p

  unfoldable pub set_iso_bootloader : ℕ → Enhanced A → Enhanced A
  set_iso_bootloader bootloader p =
      if nat_eq bootloader producer.bootloader_none then p else record p {
        iso_options = some (record (iso_or_new producer p.iso_options) { bootloader = bootloader });
      }

  unfoldable pub set_image_bootloader : ℕ → Enhanced A → Enhanced A
  set_image_bootloader bootloader p =
      if nat_eq bootloader producer.bootloader_none
      then p
      else record p { base = with_image_options producer p.base; image_bootloader = bootloader }

  unfoldable pub set_sector_size : ℕ → Enhanced A → Enhanced A
  set_sector_size size p =
      if nat_eq size 0
      then p
      else record p { base = with_image_options producer p.base; disk_sector_size = size }

  -- The switch over the kinds of output.
  unfoldable pub customize : OutKind → Bool → Schematic → Enhanced A → Enhanced A
  unfolding set_kernel_args_and_meta set_iso_bootloader set_image_bootloader set_sector_size
  customize kind_initramfs unified s p = p
  customize kind_kernel unified s p = p
  customize kind_installer unified s p = set_unified_args s unified p
  customize kind_uki unified s p = set_unified_args s unified p
  customize kind_iso unified s p =
      set_iso_bootloader s.customization.bootloader (set_kernel_args_and_meta s p)
  customize kind_image unified s p =
      set_sector_size s.customization.sector_size
        (set_image_bootloader s.customization.bootloader (set_kernel_args_and_meta s p))
  customize kind_cmdline unified s p = set_kernel_args_and_meta s p

  abbrev pub is_unified : String → Enhanced A → Bool
  is_unified version p =
      is_secure p.base.secure_boot || (producer.quirks version).supports_unified_installer

  -- `talos_name` is the name of the product.
  unfoldable pub finish : String → String → Schematic → Work A → Work A
  unfolding customize
  finish talos_name version s work =
      let p = work.profile in
      let customized = customize p.base.kind (is_unified version p) s p in
      record work { profile = record customized { version = version; name = talos_name } }

  -- `EnhanceFromSchematic`, by a producer that captures dependencies.
  unfoldable pub enhance_from_schematic :
      String → String → Schematic → Work A → Result (EnhanceError E) (Work A)
  unfolding embed_config auto_sign secure check_overlay add_installer add_inputs finish
  enhance_from_schematic talos_name version s work =
      embed_config producer version s work
      >>= auto_sign producer version
      >>= secure producer s
      >>= check_overlay producer version s
      >>= add_installer producer version
      >>= add_inputs version s
      >>= λ done. ok (finish talos_name version s done)

  -- The loop that binds the identity of the base installer.
  unfoldable pub bind_installer : List Dependency → Enhanced A → Enhanced A
  bind_installer [] p = p
  bind_installer (d ∷ ds) p =
      let rest = bind_installer ds p in
      if d.kind == "base-installer"
      then record p { base_installer = record (p.base_installer) { image_ref = d.ref } }
      else rest

  -- `EnhanceFromSchematicWithDependencies`
  unfoldable pub enhance_with_dependencies :
      String → String → Schematic → Enhanced A → Result (EnhanceError E) (Work A)
  unfolding enhance_from_schematic bind_installer
  enhance_with_dependencies talos_name version s p =
      enhance_from_schematic talos_name version s (record { profile = p; dependencies = [] })
      >>= λ work. ok (record work { profile = bind_installer work.dependencies work.profile })
