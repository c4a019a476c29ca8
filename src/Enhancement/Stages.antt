-- ===== src/Enhancement/Stages.antt =====
-- internal/profile/profile.go: what the stages in front of the image inputs keep.
use image_factory.Prelude.{
  ℕ, String, ◌≡◌, refl, ◌∙◌, subst, inl, inr, ◌||◌, Option, none, some, ◌==◌, Bool-cases,
  ok-injective, >>=-eq-ok, unless-eq-ok, Result, ok, err,
}
use image_factory.ImageProfile.{
  OutKind, kind_kernel, kind_cmdline, kind_initramfs, kind_iso, kind_uki, kind_installer,
  kind_image,
}
use image_factory.Schematics.{Schematic}
use image_factory.Enhancement.{
  is_kernel_or_cmdline, is_secure, embed_config, should_auto_sign_installer, sign_with, auto_sign,
  set_enroll_keys, secure, check_overlay, Enhanced, Work, Producer, SecureBootError, disabled,
  broken, enroll, secured,
}

module _ {A T E : Type 0} (producer : Producer A T E) where
  -- What a stage in front of the inputs leaves alone.
  pub record IsPreparation (before after : Work A) : Type 0 where
    pub kind_kept : after.profile.base.kind ≡ before.profile.base.kind
    pub arch_kept : after.profile.base.arch ≡ before.profile.base.arch
    pub dependencies_kept : after.dependencies ≡ before.dependencies

  IsPreparation-refl : (w : Work A) → IsPreparation w w
  IsPreparation-refl w = record { kind_kept = refl; arch_kept = refl; dependencies_kept = refl }

  pub IsPreparation-trans :
      {u v w : Work A} → IsPreparation u v → IsPreparation v w → IsPreparation u w
  IsPreparation-trans h k = record {
    kind_kept = k.kind_kept ∙ h.kind_kept;
    arch_kept = k.arch_kept ∙ h.arch_kept;
    dependencies_kept = k.dependencies_kept ∙ h.dependencies_kept;
  }

  pub embed_config-IsPreparation :
      (version : String) (s : Schematic) (w : Work A) {out : Work A}
      → embed_config producer version s w ≡ ok out
      → IsPreparation w out
  unfolding embed_config
  embed_config-IsPreparation version s w {out} h =
      elim (Bool-cases (
        is_kernel_or_cmdline w.profile.base.kind
        || s.customization.embedded_machine_configuration == "")) [
          | inl skipped ↦
              subst (IsPreparation w) (ok-injective (rw skipped at h)) (IsPreparation-refl w)
          | inr taken ↦
              let (test, e) = unless-eq-ok _ _ _ (rw taken at h) in
              subst (IsPreparation w) (ok-injective e)
                (record { kind_kept = refl; arch_kept = refl; dependencies_kept = refl })
        ]

  sign_with-IsPreparation :
      (w : Work A) (assets : Result (SecureBootError E) A) {out : Work A}
      → sign_with producer w assets ≡ ok out
      → IsPreparation w out
  sign_with-IsPreparation w (ok assets) h =
      subst (IsPreparation w) (ok-injective h)
        (record { kind_kept = refl; arch_kept = refl; dependencies_kept = refl })
  sign_with-IsPreparation w (err disabled) h =
      subst (IsPreparation w) (ok-injective h) (IsPreparation-refl w)
  sign_with-IsPreparation w (err (broken e)) h = cc

  pub auto_sign-IsPreparation :
      (version : String) (w : Work A) {out : Work A}
      → auto_sign producer version w ≡ ok out
      → IsPreparation w out
  unfolding auto_sign
  auto_sign-IsPreparation version w {out} h =
      elim (Bool-cases (should_auto_sign_installer producer version w.profile)) [
        | inl signs ↦
            sign_with-IsPreparation w producer.secure_boot_assets {out = out} (rw signs at h)
        | inr leaves ↦
            subst (IsPreparation w) (ok-injective (rw leaves at h)) (IsPreparation-refl w)
      ]

  set_enroll_keys_base :
      (kind : OutKind) (keys : ℕ) (p : Enhanced A)
      → ((set_enroll_keys producer kind keys p).base.kind ≡ p.base.kind)
        × ((set_enroll_keys producer kind keys p).base.arch ≡ p.base.arch)
  unfolding set_enroll_keys
  set_enroll_keys_base kind_iso keys p = (refl, refl)
  set_enroll_keys_base kind_image keys p = (refl, refl)
  set_enroll_keys_base kind_kernel keys p = (refl, refl)
  set_enroll_keys_base kind_cmdline keys p = (refl, refl)
  set_enroll_keys_base kind_initramfs keys p = (refl, refl)
  set_enroll_keys_base kind_uki keys p = (refl, refl)
  set_enroll_keys_base kind_installer keys p = (refl, refl)

  -- The profile keeps its kind of output and its architecture.
  abbrev KeepsBase : Enhanced A → Enhanced A → Type 0
  KeepsBase p q = (q.base.kind ≡ p.base.kind) × (q.base.arch ≡ p.base.arch)

  enroll_base :
      (p : Enhanced A) (keys : Option ℕ) {q : Enhanced A}
      → enroll producer p keys ≡ ok q
      → KeepsBase p q
  enroll_base p none h = cc
  enroll_base p (some keys) h =
      subst (KeepsBase p) (ok-injective h) (set_enroll_keys_base p.base.kind keys p)

  secured_base :
      (s : Schematic) (p : Enhanced A) (assets : Result (SecureBootError E) A) {q : Enhanced A}
      → secured producer s p assets ≡ ok q
      → KeepsBase p q
  secured_base s p (err disabled) h = cc
  secured_base s p (err (broken e)) h = cc
  secured_base s p (ok assets) {q} h =
      let options = s.customization.secure_boot in
      elim (Bool-cases (options.enroll_keys == "")) [
        | inl plain ↦ subst (KeepsBase p) (ok-injective (rw plain at h)) (refl, refl)
        | inr given ↦
            enroll_base _ (producer.enroll_keys options.enroll_keys) {q = q} (rw given at h)
      ]

  pub secure-IsPreparation :
      (s : Schematic) (w : Work A) {out : Work A}
      → secure producer s w ≡ ok out
      → IsPreparation w out
  unfolding secure
  secure-IsPreparation s w {out} h = elim (Bool-cases (is_secure w.profile.base.secure_boot)) [
    | inl on ↦
        let (p, found, e) =
          >>=-eq-ok (secured producer s w.profile producer.secure_boot_assets)
            (λ p. ok (record w { profile = p })) (rw on at h) in
        let (kind, arch) = secured_base s w.profile producer.secure_boot_assets {q = p} found in
        subst (IsPreparation w) (ok-injective e)
          (record { kind_kept = kind; arch_kept = arch; dependencies_kept = refl })
    | inr off ↦ subst (IsPreparation w) (ok-injective (rw off at h)) (IsPreparation-refl w)
  ]

  pub check_overlay-IsPreparation :
      (version : String) (s : Schematic) (w : Work A) {out : Work A}
      → check_overlay producer version s w ≡ ok out
      → IsPreparation w out
  unfolding check_overlay
  check_overlay-IsPreparation version s w h =
      let (test, e) = unless-eq-ok _ _ _ h in
      subst (IsPreparation w) (ok-injective e) (IsPreparation-refl w)
