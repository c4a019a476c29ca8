-- ===== src/Enhancement/Selection.antt =====
-- internal/profile/profile.go: which installer and which extensions an enhancement selects.
use image_factory.Prelude.{
  String, ◌≡◌, refl, sym, ap, ◌∙◌, subst, ◌⊎◌, inl, inr, true, false, Option, none, some,
  some-injective, List, [], ◌∷◌, ◌++◌, map, eq_iff, ◌==◌, Bool-cases, is_empty, Among, All,
  contains, ◌>>=◌, ok-injective, >>=-eq-ok, ok,
}
use image_factory.ImageProfile.{kind_installer}
use image_factory.Schematics.{Schematic}
use image_factory.Artifacts.Listings.{ExtensionRef}
use image_factory.Enhancement.{
  dependency_key, capture, is_kernel_or_cmdline, is_installer, extension_name_alias, calling,
  find_extension, or_alias, resolve_extension, add_installer, Enhanced, Dependency, Work, Producer,
}
use image_factory.Enhancement.Inputs.{
  add_resolved, add_extensions, add_official, add_schematic_extension, add_overlay, add_inputs,
  finish, enhance_from_schematic, bind_installer, enhance_with_dependencies,
}
use image_factory.Enhancement.Dependencies.{CaptureKeeps, calling-ok, add_inputs-keeps, enhance-Run}

-- The first of the captured dependencies.
abbrev StartsWith : Dependency → List Dependency → Type 0
StartsWith d ds = (rest : List Dependency) × (ds ≡ d ∷ rest)

capture-StartsWith : (d : Dependency) → CaptureKeeps (StartsWith d)
unfolding capture
capture-StartsWith d e ds (rest, starts) =
    elim (Bool-cases (contains (map dependency_key ds) (dependency_key e))) [
      | inl seen ↦ rw seen (rest, starts)
      | inr fresh ↦ rw fresh (rest ++ e ∷ [], ap (λ xs. xs ++ e ∷ []) starts)
    ]

module _ {A T E : Type 0} (producer : Producer A T E) where
  add_installer-StartsWith :
      (version : String) (w : Work A) {out : Work A}
      → is_installer w.profile.base.kind ≡ true
      → w.dependencies ≡ []
      → add_installer producer version w ≡ ok out
      → (found : String × String) × (producer.installer w.profile.base.arch version ≡ ok found)
        × StartsWith
            (record {
              kind = "base-installer";
              arch = w.profile.base.arch;
              ref = found.0;
              oci_path = found.1;
            })
            out.dependencies
  unfolding add_installer capture
  add_installer-StartsWith version w {out} installs empty h =
      let (found, called, made) =
        >>=-eq-ok (calling producer (producer.installer w.profile.base.arch version)) _
          (rw installs at h) in
      let d : Dependency = record {
        kind = "base-installer";
        arch = w.profile.base.arch;
        ref = found.0;
        oci_path = found.1;
      } in
      (
        found,
        calling-ok producer (producer.installer w.profile.base.arch version) called,
        ([], ap (λ (x : Work A). x.dependencies) (sym (ok-injective made)) ∙ ap (capture d) empty),
      )

  bind_installer-StartsWith :
      (d : Dependency) (ds : List Dependency) (p : Enhanced A)
      → (d.kind == "base-installer") ≡ true
      → StartsWith d ds
      → (bind_installer producer ds p).base_installer.image_ref ≡ d.ref
  unfolding bind_installer
  bind_installer-StartsWith d ds p here (rest, starts) =
      rw starts (ap (λ (x : Enhanced A). x.base_installer.image_ref) (bound here))
    where
      bound :
          (d.kind == "base-installer") ≡ true
          → bind_installer producer (d ∷ rest) p
            ≡ record p { base_installer = record (p.base_installer) { image_ref = d.ref } }
      bound e = rw e refl

  -- The installer that an enhancement builds on is bound to the reference of the image that the
  -- producer selected for the architecture and the version.
  pub enhance_with_dependencies-base_installer :
      (talos_name version : String) (s : Schematic) (p : Enhanced A) {out : Work A}
      → p.base.kind ≡ kind_installer
      → enhance_with_dependencies producer talos_name version s p ≡ ok out
      → (found : String × String) × (producer.installer p.base.arch version ≡ ok found)
        × (out.profile.base_installer.image_ref ≡ found.0)
  unfolding enhance_with_dependencies finish
  enhance_with_dependencies-base_installer talos_name version s p {out} kind h =
      let start : Work A = record { profile = p; dependencies = [] } in
      let (w, enhanced, bound) =
        >>=-eq-ok (enhance_from_schematic producer talos_name version s start) _ h in
      let run = enhance-Run producer talos_name version s start {out = w} enhanced in
      let arch = run.preparation.arch_kept in
      let (found, called, starts) =
        add_installer-StartsWith version run.prepared {out = run.installed}
          (ap is_installer (run.preparation.kind_kept ∙ kind)) run.preparation.dependencies_kept
          run.installation in
      let d : Dependency = record {
        kind = "base-installer";
        arch = run.prepared.profile.base.arch;
        ref = found.0;
        oci_path = found.1;
      } in
      let equipped =
        add_inputs-keeps producer (StartsWith d) (capture-StartsWith d) version s run.installed
          {out = run.equipped} starts run.equipment in
      let finished = subst (λ (x : Work A). StartsWith d x.dependencies) run.finished equipped in
      (
        found,
        subst (λ a. producer.installer a version ≡ ok found) arch called,
        ap (λ (x : Work A). x.profile.base_installer.image_ref) (sym (ok-injective bound))
            ∙ bind_installer-StartsWith d w.dependencies w.profile refl finished,
      )

  -- An extension that is available under its name or under its alias.
  abbrev pub IsAvailable : List (ExtensionRef T) → String → Type 0
  IsAvailable available name =
      (e : ExtensionRef T) × Among e available
      × ((producer.repository_str e.tagged_reference ≡ name)
          ⊎ (extension_name_alias name ≡ some (producer.repository_str e.tagged_reference)))

  find_extension-Among :
      (available : List (ExtensionRef T)) (name : String) {e : ExtensionRef T}
      → find_extension producer available name ≡ some e
      → Among e available × (producer.repository_str e.tagged_reference ≡ name)
  unfolding find_extension
  find_extension-Among [] name h = cc
  find_extension-Among (x ∷ xs) name {e} h =
      elim (Bool-cases (producer.repository_str x.tagged_reference == name)) [
        | inl here ↦
            let same = some-injective _ _ (rw here at h) in
            (
              inl (sym same),
              subst (λ y. producer.repository_str y.tagged_reference ≡ name) same
                  ((eq_iff (producer.repository_str x.tagged_reference) name).0 here),
            )
        | inr other ↦
            let (there, named) = find_extension-Among xs name {e = e} (rw other at h) in
            (inr there, named)
      ]

  or_alias-IsAvailable :
      (available : List (ExtensionRef T)) (name : String) (aliased : Option String)
      (found : Option (ExtensionRef T)) {e : ExtensionRef T}
      → extension_name_alias name ≡ aliased
      → find_extension producer available name ≡ found
      → or_alias producer available aliased found ≡ some e
      → IsAvailable available name
  or_alias-IsAvailable available name aliased (some x) a f h =
      let (there, named) = find_extension-Among available name {e = x} f in (x, there, inl named)
  or_alias-IsAvailable available name none none a f h = cc
  or_alias-IsAvailable available name (some other) none {e} a f h =
      let (there, named) = find_extension-Among available other {e = e} h in
      (e, there, inr (a ∙ ap some (sym named)))

  add_resolved-IsAvailable :
      (version name : String) (available : List (ExtensionRef T)) (found : Option (ExtensionRef T))
      (w : Work A) {out : Work A}
      → resolve_extension producer available name ≡ found
      → add_resolved producer version name found w ≡ ok out
      → IsAvailable available name
  unfolding resolve_extension
  add_resolved-IsAvailable version name available none w e h = cc
  add_resolved-IsAvailable version name available (some x) w e h =
      or_alias-IsAvailable available name _ _ {e = x} refl refl e

  add_extensions-IsAvailable :
      (version : String) (available : List (ExtensionRef T)) (names : List String) (w : Work A)
      {out : Work A}
      → add_extensions producer version available names w ≡ ok out
      → All (IsAvailable available) names
  unfolding add_extensions
  add_extensions-IsAvailable version available [] w h = tt
  add_extensions-IsAvailable version available (name ∷ names) w {out} h =
      let found = resolve_extension producer available name in
      let (v, first, rest) =
        >>=-eq-ok (add_resolved producer version name found w)
          (add_extensions producer version available names) h in
      (
        add_resolved-IsAvailable version name available found w {out = v} refl first,
        add_extensions-IsAvailable version available names v {out = out} rest,
      )

  add_installer_kind :
      (version : String) (w : Work A) {out : Work A}
      → add_installer producer version w ≡ ok out
      → out.profile.base.kind ≡ w.profile.base.kind
  unfolding add_installer
  add_installer_kind version w h = elim (Bool-cases (is_installer w.profile.base.kind)) [
    | inl installs ↦
        let (found, called, made) =
          >>=-eq-ok (calling producer (producer.installer w.profile.base.arch version)) _
            (rw installs at h) in
        ap (λ (x : Work A). x.profile.base.kind) (sym (ok-injective made))
    | inr leaves ↦ ap (λ (x : Work A). x.profile.base.kind) (sym (ok-injective (rw leaves at h)))
  ]

  -- The extensions of a version are listed, and each named one is among them.
  abbrev pub AreAvailable : String → List String → Type 0
  AreAvailable version names =
      (available : List (ExtensionRef T)) × (producer.official_extensions version ≡ ok available)
      × All (IsAvailable available) names

  add_official-AreAvailable :
      (version : String) (s : Schematic) (w : Work A) {out : Work A}
      → is_empty s.customization.official_extensions ≡ false
      → add_official producer version s w ≡ ok out
      → AreAvailable version s.customization.official_extensions
  unfolding add_official
  add_official-AreAvailable version s w {out} named h =
      let names = s.customization.official_extensions in
      let listing = calling producer (producer.official_extensions version) in
      let (available, called, extended) =
        >>=-eq-ok listing (λ available. add_extensions producer version available names w)
          (rw named at h) in
      (
        available,
        calling-ok producer (producer.official_extensions version) {x = available} called,
        add_extensions-IsAvailable version available names w {out = out} extended,
      )

  add_inputs-AreAvailable :
      (version : String) (s : Schematic) (w : Work A) {out : Work A}
      → is_kernel_or_cmdline w.profile.base.kind ≡ false
      → is_empty s.customization.official_extensions ≡ false
      → add_inputs producer version s w ≡ ok out
      → AreAvailable version s.customization.official_extensions
  unfolding add_inputs
  add_inputs-AreAvailable version s w taken named h =
      let extended =
        add_official producer version s w >>= add_schematic_extension producer version s in
      let (v, early, last) = >>=-eq-ok extended (add_overlay producer version s) (rw taken at h) in
      let (u, official, middle) =
        >>=-eq-ok (add_official producer version s w) (add_schematic_extension producer version s)
          early in
      add_official-AreAvailable version s w {out = u} named official

  -- Unless a kernel or a command line is built, an enhancement that succeeds found each extension that
  -- the schematic names among those of the version, under its name or under its alias.
  pub enhance_from_schematic-AreAvailable :
      (talos_name version : String) (s : Schematic) (w : Work A) {out : Work A}
      → is_kernel_or_cmdline w.profile.base.kind ≡ false
      → is_empty s.customization.official_extensions ≡ false
      → enhance_from_schematic producer talos_name version s w ≡ ok out
      → AreAvailable version s.customization.official_extensions
  enhance_from_schematic-AreAvailable talos_name version s w {out} kind named h =
      let run = enhance-Run producer talos_name version s w {out = out} h in
      let kind_kept =
        add_installer_kind version run.prepared {out = run.installed} run.installation
        ∙ run.preparation.kind_kept in
      add_inputs-AreAvailable version s run.installed {out = run.equipped}
        (ap is_kernel_or_cmdline kind_kept ∙ kind) named run.equipment
