-- ===== src/ImageProfile/Arches.antt =====
-- The architectures of the profiles that are parsed from paths.
use image_factory.Prelude.{
  ℕ, String, ◌≡◌, refl, subst, ◌≢◌, inl, inr, Bool, true, false, ◌||◌, Option, none, some, List, [],
  ◌∷◌, arith, ◌==◌, Bool-cases, All,
}
use image_factory.Strings.{cut_suffix, cut}
use image_factory.ImageProfile.{
  parse_arch, secureboot_of, cut_secureboot, set_arch, with_arch, cut_platform, platform_arch,
  parse_platform_arch, raw_of, or_else, metal_arch, image_profile, disk_image, parse_image,
  path_tests, first_test, parse_from_path, Profile, PlatformArch, OutKind, kind_kernel,
  kind_cmdline, kind_initramfs, kind_iso, kind_uki, kind_installer, OutFormat, DiskFormat,
  disk_unknown, disk_raw, disk_qcow2, disk_vpc, disk_ova,
}

abbrev pub is_arch : String → Bool
is_arch arch = arch == "amd64" || arch == "arm64"

-- A profile, if there is one, is for a known architecture, and never disables secure boot by name.
abbrev pub HasArch : Option Profile → Type 0
HasArch none = Unit
HasArch (some p) = (is_arch p.arch ≡ true) × (p.secure_boot ≢ some false)

abbrev HasPlatformArch : Option PlatformArch → Type 0
HasPlatformArch none = Unit
HasPlatformArch (some p) = (is_arch p.arch ≡ true) × (p.secure_boot ≢ some false)

parse_arch-is_arch : (s a : String) → parse_arch s ≡ some a → is_arch a ≡ true
unfolding parse_arch
parse_arch-is_arch s a h = elim (Bool-cases (s == "amd64" || s == "arm64")) [
  | inl known ↦
      let same : s ≡ a = ground (arith, h, known) in subst (λ t. is_arch t ≡ true) same known
  | inr other ↦ elim (Bool-cases (s == "x86_64" || s == "i386")) [
    | inl ipxe ↦
        let same : "amd64" ≡ a = ground (arith, h, other, ipxe) in
        subst (λ t. is_arch t ≡ true) same refl
    | inr unknown ↦ ground (arith, h, other, unknown)
  ]
]

set_arch-HasPlatformArch :
    (b : Option Bool) (platform : String) (m : Option String)
    → b ≢ some false
    → ((a : String) → m ≡ some a → is_arch a ≡ true)
    → HasPlatformArch (set_arch b platform m)
set_arch-HasPlatformArch b platform none boot known = tt
set_arch-HasPlatformArch b platform (some a) boot known = (known a refl, boot)

with_arch-HasPlatformArch :
    (b : Option Bool) (p : String × String) → b ≢ some false → HasPlatformArch (with_arch b p)
unfolding with_arch
with_arch-HasPlatformArch b (platform, rest) boot =
    set_arch-HasPlatformArch b platform (parse_arch rest) boot (parse_arch-is_arch rest)

nil_boot : (b : Option Bool) → b ≡ none → b ≢ some false
nil_boot none h e = cc
nil_boot (some b) h e = cc

secureboot_of-boot : (s : String) (m : Option String) → (secureboot_of s m).1 ≢ some false
secureboot_of-boot s none e = cc
secureboot_of-boot s (some rest) e = cc

cut_platform-HasPlatformArch :
    (b : Option Bool) (m : Option (String × String))
    → b ≢ some false
    → HasPlatformArch (cut_platform b m)
cut_platform-HasPlatformArch b none boot = tt
cut_platform-HasPlatformArch b (some (platform, rest)) boot = with_arch-HasPlatformArch b _ boot

cut_secureboot-boot : (s : String) → (cut_secureboot s).1 ≢ some false
unfolding cut_secureboot
cut_secureboot-boot s = secureboot_of-boot s (cut_suffix s "-secureboot")

parse_platform_arch-HasPlatformArch : (s : String) → HasPlatformArch (parse_platform_arch s)
unfolding parse_platform_arch platform_arch
parse_platform_arch-HasPlatformArch s =
    cut_platform-HasPlatformArch (cut_secureboot s).1 (cut (cut_secureboot s).0 "-")
      (cut_secureboot-boot s)

raw_of-HasArch :
    (kind : OutKind) (p : Option PlatformArch) → HasPlatformArch p → HasArch (raw_of kind p)
unfolding raw_of
raw_of-HasArch kind none h = tt
raw_of-HasArch kind (some p) h = h

or_else-HasArch :
    (m : Option String) (f : String → Option Profile) (next : Option Profile)
    → ((s : String) → HasArch (f s))
    → HasArch next
    → HasArch (or_else m f next)
or_else-HasArch none f next h k = k
or_else-HasArch (some s) f next h k = h s

module _ (metal : String) (out_text : OutFormat → String) (disk_text : DiskFormat → String)
    (raw_disk_size : ℕ) (defaults : String → Option (ℕ × String)) where
  metal_arch-HasPlatformArch :
      (p : String × Option Bool)
      → p.1 ≢ some false
      → HasPlatformArch (metal_arch metal out_text disk_text raw_disk_size defaults p)
  unfolding metal_arch
  metal_arch-HasPlatformArch (s, b) boot = with_arch-HasPlatformArch b (metal, s) boot

  image_profile-HasArch :
      (out : OutFormat) (disk : DiskFormat) (p : Option PlatformArch)
      → HasPlatformArch p
      → HasArch (image_profile metal out_text disk_text raw_disk_size defaults out disk p)
  unfolding image_profile
  image_profile-HasArch out disk none h = tt
  image_profile-HasArch out disk (some p) h = h

  disk_image-HasArch :
      (out : OutFormat) (d : DiskFormat × String)
      → HasArch (disk_image metal out_text disk_text raw_disk_size defaults out d)
  unfolding disk_image
  disk_image-HasArch out (disk_unknown, path) = tt
  disk_image-HasArch out (disk_raw, path) =
      image_profile-HasArch out disk_raw _ (parse_platform_arch-HasPlatformArch path)
  disk_image-HasArch out (disk_qcow2, path) =
      image_profile-HasArch out disk_qcow2 _ (parse_platform_arch-HasPlatformArch path)
  disk_image-HasArch out (disk_vpc, path) =
      image_profile-HasArch out disk_vpc _ (parse_platform_arch-HasPlatformArch path)
  disk_image-HasArch out (disk_ova, path) =
      image_profile-HasArch out disk_ova _ (parse_platform_arch-HasPlatformArch path)

  -- What a test builds has a known architecture.
  abbrev BuildsArch : (String → Option String) × (String → Option Profile) → Type 0
  BuildsArch test = (s : String) → HasArch (test.1 s)

  first_test-HasArch :
      (tests : List ((String → Option String) × (String → Option Profile))) (path : String)
      → All BuildsArch tests
      → HasArch (first_test metal out_text disk_text raw_disk_size defaults tests path)
  unfolding first_test parse_image
  first_test-HasArch [] path h = disk_image-HasArch _ _
  first_test-HasArch ((cut_off, build) ∷ tests) path (h, hs) =
      or_else-HasArch (cut_off path) build
        (first_test metal out_text disk_text raw_disk_size defaults tests path) h
        (first_test-HasArch tests path hs)

  path_tests-BuildsArch :
      All BuildsArch (path_tests metal out_text disk_text raw_disk_size defaults)
  unfolding path_tests
  path_tests-BuildsArch =
      let on_metal = λ (k : OutKind) (s : String).
        raw_of-HasArch k _ (metal_arch-HasPlatformArch (s, none) (nil_boot none refl)) in
      let on_platform =
        λ (k : OutKind) (s : String). raw_of-HasArch k _ (parse_platform_arch-HasPlatformArch s) in
      (
        on_metal kind_kernel,
        (
          on_platform kind_cmdline,
          (
            on_metal kind_initramfs,
            (
              on_platform kind_iso,
              (
                on_platform kind_uki,
                (
                  (λ s.
                      raw_of-HasArch kind_installer _
                        (metal_arch-HasPlatformArch (cut_secureboot s) (cut_secureboot-boot s))),
                  (on_platform kind_installer, tt),
                ),
              ),
            ),
          ),
        ),
      )

  -- Whatever the name of an asset, the profile that is parsed from it, if any, is for `amd64` or
  -- `arm64` (the names of iPXE included), and its secure boot is either on or left unset.
  pub parse_from_path-HasArch :
      (path : String)
      → HasArch (parse_from_path metal out_text disk_text raw_disk_size defaults path)
  unfolding parse_from_path
  parse_from_path-HasArch path =
      first_test-HasArch (path_tests metal out_text disk_text raw_disk_size defaults) path
        path_tests-BuildsArch
