-- ===== src/Enhancement/Customizing.antt =====
-- internal/profile/profile.go: the customizations that each kind of output takes.
use image_factory.Prelude.{
  ℕ, String, ◌≡◌, refl, sym, ◌∙◌, inl, inr, Bool, true, false, List, [], ◌++◌, append-nil, nat_eq,
  Bool-cases,
}
use image_factory.ImageProfile.{
  OutKind, kind_kernel, kind_cmdline, kind_initramfs, kind_iso, kind_uki, kind_installer,
  kind_image,
}
use image_factory.Schematics.{Schematic}
use image_factory.Enhancement.{Enhanced, Work, Producer}
use image_factory.Enhancement.Inputs.{
  takes_meta, takes_kernel_args, set_kernel_args_and_meta, set_unified_args, set_iso_bootloader,
  set_image_bootloader, set_sector_size, customize, is_unified, finish,
}

abbrev pub if_taken : {X : Type 0} → Bool → List X → List X
if_taken true xs = xs
if_taken false xs = []

module _ {A T E : Type 0} (producer : Producer A T E) where
  set_sector_size-keeps :
      (size : ℕ) (p : Enhanced A)
      → ((set_sector_size producer size p).extra_kernel_args ≡ p.extra_kernel_args)
        × ((set_sector_size producer size p).meta_contents ≡ p.meta_contents)
  unfolding set_sector_size
  set_sector_size-keeps size p = elim (Bool-cases (nat_eq size 0)) [
    | inl zero_size ↦ rw zero_size (refl, refl)
    | inr given ↦ rw given (refl, refl)
  ]

  set_image_bootloader-keeps :
      (bootloader : ℕ) (p : Enhanced A)
      → ((set_image_bootloader producer bootloader p).extra_kernel_args ≡ p.extra_kernel_args)
        × ((set_image_bootloader producer bootloader p).meta_contents ≡ p.meta_contents)
  unfolding set_image_bootloader
  set_image_bootloader-keeps bootloader p =
      elim (Bool-cases (nat_eq bootloader producer.bootloader_none)) [
        | inl default ↦ rw default (refl, refl)
        | inr chosen ↦ rw chosen (refl, refl)
      ]

  set_iso_bootloader-keeps :
      (bootloader : ℕ) (p : Enhanced A)
      → ((set_iso_bootloader producer bootloader p).extra_kernel_args ≡ p.extra_kernel_args)
        × ((set_iso_bootloader producer bootloader p).meta_contents ≡ p.meta_contents)
  unfolding set_iso_bootloader
  set_iso_bootloader-keeps bootloader p =
      elim (Bool-cases (nat_eq bootloader producer.bootloader_none)) [
        | inl default ↦ rw default (refl, refl)
        | inr chosen ↦ rw chosen (refl, refl)
      ]

  -- The arguments and the contents that a profile gains.
  abbrev pub Gains : OutKind → Bool → Schematic → Enhanced A → Enhanced A → Type 0
  Gains kind unified s p q =
      (q.extra_kernel_args
        ≡ p.extra_kernel_args
          ++ if_taken (takes_kernel_args kind unified) s.customization.extra_kernel_args)
      × (q.meta_contents ≡ p.meta_contents ++ if_taken (takes_meta kind) s.customization.meta)

  set_unified_args-Gains :
      (unified : Bool) (s : Schematic) (p : Enhanced A)
      → Gains kind_installer unified s p (set_unified_args producer s unified p)
  set_unified_args-Gains true s p = (refl, sym (append-nil p.meta_contents))
  set_unified_args-Gains false s p =
      (sym (append-nil p.extra_kernel_args), sym (append-nil p.meta_contents))

  customize-Gains :
      (kind : OutKind) (unified : Bool) (s : Schematic) (p : Enhanced A)
      → Gains kind unified s p (customize producer kind unified s p)
  unfolding customize set_kernel_args_and_meta
  customize-Gains kind_initramfs unified s p =
      (sym (append-nil p.extra_kernel_args), sym (append-nil p.meta_contents))
  customize-Gains kind_kernel unified s p =
      (sym (append-nil p.extra_kernel_args), sym (append-nil p.meta_contents))
  customize-Gains kind_installer unified s p = set_unified_args-Gains unified s p
  customize-Gains kind_uki unified s p = set_unified_args-Gains unified s p
  customize-Gains kind_cmdline unified s p = (refl, refl)
  customize-Gains kind_iso unified s p =
      set_iso_bootloader-keeps s.customization.bootloader (set_kernel_args_and_meta producer s p)
  customize-Gains kind_image unified s p =
      let base = set_kernel_args_and_meta producer s p in
      let booted = set_image_bootloader producer s.customization.bootloader base in
      let (args, meta) = set_sector_size-keeps s.customization.sector_size booted in
      let (args', meta') = set_image_bootloader-keeps s.customization.bootloader base in
      (args ∙ args', meta ∙ meta')

  -- The end of an enhancement adds the kernel arguments and the META values of the schematic to a
  -- profile exactly where the kind of output takes them: arguments unless it is a kernel or an
  -- initramfs, nor an installer or a UKI without a unified image; META values in none of these.
  pub finish-Gains :
      (talos_name version : String) (s : Schematic) (w : Work A)
      → Gains w.profile.base.kind
          (is_unified producer version w.profile)
          s
          w.profile
          (finish producer talos_name version s w).profile
  unfolding finish
  finish-Gains talos_name version s w =
      customize-Gains w.profile.base.kind (is_unified producer version w.profile) s w.profile
