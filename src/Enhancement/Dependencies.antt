-- ===== src/Enhancement/Dependencies.antt =====
-- internal/profile/profile.go: the image inputs that an enhancement captures.
use image_factory.Prelude.{
  String, ◌≡◌, refl, sym, ap, subst, inl, inr, true, Option, none, some, List, [], ◌∷◌, ◌++◌, map,
  ◌==◌, Bool-cases, is_empty, contains, is_nodup, is_nodup-concat, ◌>>=◌, ok-injective, >>=-eq-ok,
  Result, ok, err,
}
use image_factory.Schematics.{Schematic}
use image_factory.Artifacts.Listings.{ExtensionRef, OverlayRef}
use image_factory.Enhancement.{
  dependency_key, capture, is_kernel_or_cmdline, is_installer, calling, resolve_extension,
  find_overlay, embed_config, auto_sign, secure, check_overlay, add_installer, Enhanced, Dependency,
  Work, Producer,
}
use image_factory.Enhancement.Inputs.{
  add_resolved, add_extensions, add_official, add_schematic_extension, add_found_overlay,
  add_overlay, add_inputs, finish, enhance_from_schematic, enhance_with_dependencies,
}
use image_factory.Enhancement.Stages.{
  IsPreparation-trans, embed_config-IsPreparation, auto_sign-IsPreparation, secure-IsPreparation,
  check_overlay-IsPreparation, IsPreparation,
}

-- A predicate that captures keep.
abbrev pub CaptureKeeps : (List Dependency → Type 0) → Type 0
CaptureKeeps Q = (d : Dependency) (ds : List Dependency) → Q ds → Q (capture d ds)

module _ {A T E : Type 0} (producer : Producer A T E) where
  pub calling-ok : {X : Type 0} (r : Result E X) {x : X} → calling producer r ≡ ok x → r ≡ ok x
  calling-ok (ok y) h = ap ok (ok-injective h)
  calling-ok (err e) h = cc

  -- A stage of the inputs keeps what captures keep.
  module _ (Q : List Dependency → Type 0) (keeps : CaptureKeeps Q) where
    add_resolved-keeps :
        (version name : String) (found : Option (ExtensionRef T)) (w : Work A) {out : Work A}
        → Q w.dependencies
        → add_resolved producer version name found w ≡ ok out
        → Q out.dependencies
    add_resolved-keeps version name none w q h = cc
    add_resolved-keeps version name (some e) w q h =
        let (got, called, made) =
          >>=-eq-ok (calling producer (producer.extension w.profile.base.arch e)) _ h in
        subst (λ (x : Work A). Q x.dependencies) (ok-injective made) (keeps _ w.dependencies q)

    add_extensions-keeps :
        (version : String) (available : List (ExtensionRef T)) (names : List String) (w : Work A)
        {out : Work A}
        → Q w.dependencies
        → add_extensions producer version available names w ≡ ok out
        → Q out.dependencies
    unfolding add_extensions
    add_extensions-keeps version available [] w q h =
        subst (λ (x : Work A). Q x.dependencies) (ok-injective h) q
    add_extensions-keeps version available (name ∷ names) w {out} q h =
        let found = resolve_extension producer available name in
        let (v, first, rest) =
          >>=-eq-ok (add_resolved producer version name found w)
            (add_extensions producer version available names) h in
        add_extensions-keeps version available names v {out = out}
          (add_resolved-keeps version name found w {out = v} q first) rest

    add_official-keeps :
        (version : String) (s : Schematic) (w : Work A) {out : Work A}
        → Q w.dependencies
        → add_official producer version s w ≡ ok out
        → Q out.dependencies
    unfolding add_official
    add_official-keeps version s w {out} q h =
        elim (Bool-cases (is_empty s.customization.official_extensions)) [
          | inl bare ↦ subst (λ (x : Work A). Q x.dependencies) (ok-injective (rw bare at h)) q
          | inr some_names ↦
              let (available, called, rest) =
                >>=-eq-ok (calling producer (producer.official_extensions version))
                  (λ available.
                    add_extensions producer version available s.customization.official_extensions w)
                  (rw some_names at h) in
              add_extensions-keeps version available s.customization.official_extensions w
                {out = out} q rest
        ]

    add_schematic_extension-keeps :
        (version : String) (s : Schematic) (w : Work A) {out : Work A}
        → Q w.dependencies
        → add_schematic_extension producer version s w ≡ ok out
        → Q out.dependencies
    unfolding add_schematic_extension
    add_schematic_extension-keeps version s w q h =
        let (path, called, made) =
          >>=-eq-ok (calling producer (producer.schematic_extension version s)) _ h in
        subst (λ (x : Work A). Q x.dependencies) (ok-injective made) q

    add_found_overlay-keeps :
        (s : Schematic) (found : Option (OverlayRef T)) (w : Work A) {out : Work A}
        → Q w.dependencies
        → add_found_overlay producer s found w ≡ ok out
        → Q out.dependencies
    add_found_overlay-keeps s none w q h = cc
    add_found_overlay-keeps s (some o) w q h =
        let (native, called, after) =
          >>=-eq-ok (calling producer (producer.overlay producer.host_arch o)) _ h in
        let (target, targeted, later) =
          >>=-eq-ok (calling producer (producer.overlay w.profile.base.arch o)) _ after in
        let (merged, merges, made) =
          >>=-eq-ok (calling producer (producer.merge_overlay w.profile o)) _ later in
        subst (λ (x : Work A). Q x.dependencies) (ok-injective made)
          (keeps _ _ (keeps _ w.dependencies q))

    add_overlay-keeps :
        (version : String) (s : Schematic) (w : Work A) {out : Work A}
        → Q w.dependencies
        → add_overlay producer version s w ≡ ok out
        → Q out.dependencies
    unfolding add_overlay
    add_overlay-keeps version s w {out} q h = elim (Bool-cases (s.overlay.name == "")) [
      | inl bare ↦ subst (λ (x : Work A). Q x.dependencies) (ok-injective (rw bare at h)) q
      | inr named ↦
          let (available, called, rest) =
            >>=-eq-ok (calling producer (producer.official_overlays version))
              (λ available.
                add_found_overlay producer s (find_overlay producer available s.overlay.name) w)
              (rw named at h) in
          add_found_overlay-keeps s (find_overlay producer available s.overlay.name) w {out = out} q
            rest
    ]

    pub add_inputs-keeps :
        (version : String) (s : Schematic) (w : Work A) {out : Work A}
        → Q w.dependencies
        → add_inputs producer version s w ≡ ok out
        → Q out.dependencies
    unfolding add_inputs
    add_inputs-keeps version s w {out} q h =
        elim (Bool-cases (is_kernel_or_cmdline w.profile.base.kind)) [
          | inl none_taken ↦
              subst (λ (x : Work A). Q x.dependencies) (ok-injective (rw none_taken at h)) q
          | inr taken ↦
              let (v, early, last) =
                >>=-eq-ok
                  (add_official producer version s w >>= add_schematic_extension producer version s)
                  (add_overlay producer version s) (rw taken at h) in
              let (u, official, middle) =
                >>=-eq-ok (add_official producer version s w)
                  (add_schematic_extension producer version s) early in
              add_overlay-keeps version s v {out = out}
                (add_schematic_extension-keeps version s u {out = v}
                  (add_official-keeps version s w {out = u} q official) middle)
                last
        ]

  -- The stages of an enhancement that succeeds.
  pub record Run (talos_name version : String) (s : Schematic) (start out : Work A) : Type 0 where
    pub prepared : Work A
    pub preparation : IsPreparation producer start prepared
    pub installed : Work A
    pub installation : add_installer producer version prepared ≡ ok installed
    pub equipped : Work A
    pub equipment : add_inputs producer version s installed ≡ ok equipped
    pub finished : finish producer talos_name version s equipped ≡ out

  pub enhance-Run :
      (talos_name version : String) (s : Schematic) (start : Work A) {out : Work A}
      → enhance_from_schematic producer talos_name version s start ≡ ok out
      → Run talos_name version s start out
  unfolding enhance_from_schematic
  enhance-Run talos_name version s start {out} h =
      let s1 = embed_config producer version s start in
      let s2 = s1 >>= auto_sign producer version in
      let s3 = s2 >>= secure producer s in
      let s4 = s3 >>= check_overlay producer version s in
      let s5 = s4 >>= add_installer producer version in
      let s6 = s5 >>= add_inputs producer version s in
      let (w6, h6, e7) = >>=-eq-ok s6 (λ done. ok (finish producer talos_name version s done)) h in
      let (w5, h5, e6) = >>=-eq-ok s5 (add_inputs producer version s) h6 in
      let (w4, h4, e5) = >>=-eq-ok s4 (add_installer producer version) h5 in
      let (w3, h3, e4) = >>=-eq-ok s3 (check_overlay producer version s) h4 in
      let (w2, h2, e3) = >>=-eq-ok s2 (secure producer s) h3 in
      let (w1, h1, e2) = >>=-eq-ok s1 (auto_sign producer version) h2 in
      record {
        prepared = w4;
        preparation =
            IsPreparation-trans producer {u = start} {v = w1} {w = w4}
              (embed_config-IsPreparation producer version s start {out = w1} h1)
              (IsPreparation-trans producer {u = w1} {v = w2} {w = w4}
                (auto_sign-IsPreparation producer version w1 {out = w2} e2)
                (IsPreparation-trans producer {u = w2} {v = w3} {w = w4}
                  (secure-IsPreparation producer s w2 {out = w3} e3)
                  (check_overlay-IsPreparation producer version s w3 {out = w4} e4)));
        installed = w5;
        installation = e5;
        equipped = w6;
        equipment = e6;
        finished = ok-injective e7;
      }

  add_installer-keeps :
      (Q : List Dependency → Type 0) (keeps : CaptureKeeps Q) (version : String) (w : Work A)
      {out : Work A}
      → Q w.dependencies
      → add_installer producer version w ≡ ok out
      → Q out.dependencies
  unfolding add_installer
  add_installer-keeps Q keeps version w q h = elim (Bool-cases (is_installer w.profile.base.kind)) [
    | inl installs ↦
        let (found, called, made) =
          >>=-eq-ok (calling producer (producer.installer w.profile.base.arch version)) _
            (rw installs at h) in
        subst (λ (x : Work A). Q x.dependencies) (ok-injective made) (keeps _ w.dependencies q)
    | inr leaves ↦ subst (λ (x : Work A). Q x.dependencies) (ok-injective (rw leaves at h)) q
  ]

  -- What captures keep holds of the dependencies of a whole enhancement.
  pub enhance_keeps :
      (Q : List Dependency → Type 0) (keeps : CaptureKeeps Q) (talos_name version : String)
      (s : Schematic) (p : Enhanced A) {out : Work A}
      → Q []
      → enhance_with_dependencies producer talos_name version s p ≡ ok out
      → Q out.dependencies
  unfolding enhance_with_dependencies finish
  enhance_keeps Q keeps talos_name version s p q h =
      let start : Work A = record { profile = p; dependencies = [] } in
      let (w, enhanced, bound) =
        >>=-eq-ok (enhance_from_schematic producer talos_name version s start) _ h in
      let run = enhance-Run talos_name version s start {out = w} enhanced in
      let kept = subst Q (sym run.preparation.dependencies_kept) q in
      let with_installer =
        add_installer-keeps Q keeps version run.prepared {out = run.installed} kept
          run.installation in
      let with_inputs =
        add_inputs-keeps Q keeps version s run.installed {out = run.equipped} with_installer
          run.equipment in
      subst (λ (x : Work A). Q x.dependencies) (ok-injective bound)
        (subst (λ (x : Work A). Q x.dependencies) run.finished with_inputs)

-- No image is captured twice in the same role.
abbrev pub IsDistinct : List Dependency → Type 0
IsDistinct ds = is_nodup (map dependency_key ds) ≡ true

map-append_key :
    (ds : List Dependency) (d : Dependency)
    → map dependency_key (ds ++ d ∷ []) ≡ map dependency_key ds ++ dependency_key d ∷ []
map-append_key [] d = refl
map-append_key (e ∷ ds) d = ap (λ ks. dependency_key e ∷ ks) (map-append_key ds d)

capture-IsDistinct : CaptureKeeps IsDistinct
unfolding capture
capture-IsDistinct d ds h =
    elim (Bool-cases (contains (map dependency_key ds) (dependency_key d))) [
      | inl seen ↦ rw seen h
      | inr fresh ↦
          rw (fresh, map-append_key ds d)
            (is_nodup-concat (map dependency_key ds) (dependency_key d) h fresh)
    ]

-- An enhancement that succeeds lists no image input twice: the texts of kind, architecture and
-- reference of its dependencies all differ.
pub enhance_with_dependencies-IsDistinct :
    {A T E : Type 0} (producer : Producer A T E) (talos_name version : String) (s : Schematic)
    (p : Enhanced A) {out : Work A}
    → enhance_with_dependencies producer talos_name version s p ≡ ok out
    → IsDistinct out.dependencies
enhance_with_dependencies-IsDistinct producer talos_name version s p {out} h =
    enhance_keeps producer IsDistinct capture-IsDistinct talos_name version s p {out = out} refl h
