-- ===== src/Artifacts/Features.antt =====
-- internal/talosversion/talosversion.go: the features of older and newer versions.
use image_factory.Prelude.{
  ℕ, zero, suc, ◌≡◌, refl, sym, ap, ◌∙◌, inl, inr, Bool, true, false, ◌&&◌, List, [], ◌∷◌, arith,
  nat_eq, nat_eq_iff, Bool-cases, any,
}
use image_factory.Artifacts.{
  filter, feature_values, gte, supports, features_for, Semver, IsOrder, Minimums, Feature,
  secure_boot_feature, bootloader_selection, embedded_config, talosctl_download, local_test_cluster,
  sbom_feature, vex_feature, production_guide, troubleshooting_guide,
}

-- The number of a constant.
unfoldable pub number_of : Feature → ℕ
number_of secure_boot_feature = 0
number_of bootloader_selection = 1
number_of embedded_config = 2
number_of talosctl_download = 3
number_of local_test_cluster = 4
number_of sbom_feature = 5
number_of vex_feature = 6
number_of production_guide = 7
number_of troubleshooting_guide = 8

-- `Has`
unfoldable pub has : List Feature → Feature → Bool
unfolding number_of
has features feature = any (λ f. nat_eq (number_of f) (number_of feature)) features

-- The constant of a number.
feature_at : ℕ → List Feature → Feature
feature_at n [] = secure_boot_feature
feature_at zero (f ∷ fs) = f
feature_at (suc n) (f ∷ fs) = feature_at n fs

feature_at-number_of : (f : Feature) → feature_at (number_of f) feature_values ≡ f
unfolding feature_at number_of
feature_at-number_of secure_boot_feature = refl
feature_at-number_of bootloader_selection = refl
feature_at-number_of embedded_config = refl
feature_at-number_of talosctl_download = refl
feature_at-number_of local_test_cluster = refl
feature_at-number_of sbom_feature = refl
feature_at-number_of vex_feature = refl
feature_at-number_of production_guide = refl
feature_at-number_of troubleshooting_guide = refl

number_of-injective : (f g : Feature) → number_of f ≡ number_of g → f ≡ g
number_of-injective f g h =
    sym (feature_at-number_of f) ∙ ap (λ n. feature_at n feature_values) h ∙ feature_at-number_of g

any-filter :
    (q : Feature → Bool) (features : List Feature) (feature : Feature)
    → any (λ f. nat_eq (number_of f) (number_of feature)) (filter q features)
      ≡ (any (λ f. nat_eq (number_of f) (number_of feature)) features && q feature)
any-filter q [] feature = refl
any-filter q (f ∷ features) feature = elim (Bool-cases (nat_eq (number_of f) (number_of feature))) [
  | inl same ↦
      let equal : f ≡ feature =
        number_of-injective f feature ((nat_eq_iff (number_of f) (number_of feature)).0 same) in
      ground (arith, any-filter q features feature, ap q equal)
  | inr other ↦ ground (arith, any-filter q features feature)
]

any-feature_values :
    (feature : Feature) → any (λ f. nat_eq (number_of f) (number_of feature)) feature_values ≡ true
unfolding number_of
any-feature_values secure_boot_feature = refl
any-feature_values bootloader_selection = refl
any-feature_values embedded_config = refl
any-feature_values talosctl_download = refl
any-feature_values local_test_cluster = refl
any-feature_values sbom_feature = refl
any-feature_values vex_feature = refl
any-feature_values production_guide = refl
any-feature_values troubleshooting_guide = refl

module _ {V : Type 0} (semver : Semver V) (embeds_config serves_talosctl : V → Bool) where
  -- The list of features has what the table says, for each feature.
  has-features_for :
      (mins : Minimums semver) (v : V) (feature : Feature)
      → has (features_for semver embeds_config serves_talosctl mins v) feature
        ≡ supports semver embeds_config serves_talosctl mins v feature
  unfolding has features_for
  has-features_for mins v feature =
      rw (any-filter (supports semver embeds_config serves_talosctl mins v) feature_values feature)
        (ap (λ b. b && supports semver embeds_config serves_talosctl mins v feature)
          (any-feature_values feature))

  module _ (order : IsOrder semver)
      (embeds_mono : (v w : V)
        → semver.lt w v ≡ false
        → embeds_config v ≡ true
        → embeds_config w ≡ true)
      (serves_mono : (v w : V)
        → semver.lt w v ≡ false
        → serves_talosctl v ≡ true
        → serves_talosctl w ≡ true) where
    gte_mono :
        (min v w : V)
        → semver.lt w v ≡ false
        → gte semver embeds_config serves_talosctl v min ≡ true
        → gte semver embeds_config serves_talosctl w min ≡ true
    gte_mono min v w h k = ground (arith, order.ge_trans w v min)

    supports_mono :
        (mins : Minimums semver) (v w : V) (feature : Feature)
        → semver.lt w v ≡ false
        → supports semver embeds_config serves_talosctl mins v feature ≡ true
        → supports semver embeds_config serves_talosctl mins w feature ≡ true
    unfolding supports
    supports_mono mins v w secure_boot_feature h k = gte_mono mins.secure_boot v w h k
    supports_mono mins v w bootloader_selection h k = gte_mono mins.bootloader_selection v w h k
    supports_mono mins v w embedded_config h k = embeds_mono v w h k
    supports_mono mins v w talosctl_download h k = serves_mono v w h k
    supports_mono mins v w local_test_cluster h k = gte_mono mins.bootloader_selection v w h k
    supports_mono mins v w sbom_feature h k = gte_mono mins.sbom v w h k
    supports_mono mins v w vex_feature h k = gte_mono mins.vex v w h k
    supports_mono mins v w production_guide h k = gte_mono mins.production_guide v w h k
    supports_mono mins v w troubleshooting_guide h k = gte_mono mins.troubleshooting_guide v w h k

    -- A version has every feature that an older one has, if that is so of the two quirks of Talos.
    pub has_mono :
        (mins : Minimums semver) (v w : V) (feature : Feature)
        → semver.lt w v ≡ false
        → has (features_for semver embeds_config serves_talosctl mins v) feature ≡ true
        → has (features_for semver embeds_config serves_talosctl mins w) feature ≡ true
    has_mono mins v w feature h k =
        has-features_for mins w feature
        ∙ supports_mono mins v w feature h (sym (has-features_for mins v feature) ∙ k)
