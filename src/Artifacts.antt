-- ===== src/Artifacts.antt =====
-- internal/artifacts/versions.go and internal/talosversion/talosversion.go: the versions of Talos
-- that are offered, and what a version supports.
pub mod Offered
pub mod Features
pub mod Listings
pub mod Fetching
pub mod Manager
use image_factory.Prelude.{
  ℕ, ◌+◌, String, ◌≡◌, Bool, true, false, not, ◌&&◌, ◌||◌, Option, none, some, List, [], ◌∷◌,
  nat_eq, ◌==◌, if◌then◌else◌, any, is_empty, Result, ok, err,
}

-- A part of a version's pre-release, `semver.PRVersion`: its text, and `IsNumeric`.
pub record PreRelease : Type 0 where
  pub text : String
  pub is_numeric : Bool

-- What the program uses of the package `semver`, over its type of versions: `ParseTolerant`, `LT`,
-- `EQ` and the fields; `GTE` is the negation of `LT`.
pub record Semver (V : Type 0) : Type 0 where
  pub parse_tolerant : String → Option V
  pub lt : V → V → Bool
  pub eq : V → V → Bool
  pub major : V → ℕ
  pub minor : V → ℕ
  pub pre : V → List PreRelease

-- `Compare` orders all versions.
pub record IsOrder {V : Type 0} (semver : Semver V) : Type 0 where
  pub lt_irrefl : (v : V) → semver.lt v v ≡ false
  pub lt_trans : (u v w : V) → semver.lt u v ≡ true → semver.lt v w ≡ true → semver.lt u w ≡ true
  pub ge_trans : (u v w : V) → semver.lt u v ≡ false → semver.lt v w ≡ false → semver.lt u w ≡ false

-- The test of a list, `slices.ContainsFunc`, is `any`; `xslices.Filter` keeps the order.
module _ {A : Type 0} where
  abbrev pub filter : (A → Bool) → List A → List A
  filter p [] = []
  filter p (x ∷ xs) = let rest = filter p xs in if p x then x ∷ rest else rest

  -- How many members pass a test.
  abbrev pub count : (A → Bool) → List A → ℕ
  count p [] = 0
  count p (x ∷ xs) = (if p x then 1 else 0) + count p xs

module _ {V : Type 0} (semver : Semver V) where
  -- The first loop: what does not parse is ignored.
  abbrev pub cons_parsed : Option V → List V → List V
  cons_parsed none versions = versions
  cons_parsed (some v) versions = v ∷ versions

  unfoldable pub parse_candidates : List String → List V
  parse_candidates [] = []
  parse_candidates (candidate ∷ candidates) =
      cons_parsed (semver.parse_tolerant candidate) (parse_candidates candidates)

  -- `slices.MaxFunc`, which panics (`none`) on the empty list, and keeps the first of equal values.
  unfoldable pub max_from : V → List V → V
  max_from best [] = best
  max_from best (v ∷ versions) = max_from (if semver.lt best v then v else best) versions

  unfoldable pub max_func : List V → Option V
  unfolding max_from
  max_func [] = none
  max_func (v ∷ versions) = some (max_from v versions)

  -- `slices.SortFunc` with `Compare`.
  abbrev pub sort_in : V → List V → List V
  sort_in v [] = v ∷ []
  sort_in v (w ∷ ws) = let rest = sort_in v ws in if semver.lt w v then w ∷ rest else v ∷ w ∷ ws

  unfoldable pub sort_func : List V → List V
  sort_func [] = []
  sort_func (v ∷ vs) = sort_in v (sort_func vs)

  -- The tests on the parts of a pre-release.
  unfoldable pub allows_parts : List PreRelease → Bool
  allows_parts (kind ∷ number ∷ []) =
      (kind.text == "alpha" || kind.text == "beta" || kind.text == "rc") && number.is_numeric
  allows_parts [] = false
  allows_parts (kind ∷ []) = false
  allows_parts (kind ∷ number ∷ more ∷ rest) = false

  unfoldable pub allows_pre : V → V → Bool
  unfolding allows_parts
  allows_pre max version =
      if is_empty (semver.pre version)
      then true
      else nat_eq (semver.major version) (semver.major max)
        && nat_eq (semver.minor version) (semver.minor max)
        && allows_parts (semver.pre version)

  -- The test of the filter, for the options `MinVersion` and `BrokenVersions`.
  unfoldable pub is_offered : V → List V → V → V → Bool
  unfolding allows_pre
  is_offered min broken max version =
      not (semver.lt version min) && not (any (semver.eq version) broken) && allows_pre max version

  -- What the fetch leaves in `talosVersions`; the error is that of the listing.
  pub data Fetched (E : Type 0) : Type 0 where
    listed : List V → Fetched E
    failed : E → Fetched E
    panicked : Fetched E

  abbrev pub select_offered : {E : Type 0} → V → List V → List V → Option V → Fetched E
  select_offered min broken versions none = panicked
  select_offered min broken versions (some max) =
      listed (sort_func (filter (is_offered min broken max) versions))

  -- `fetchTalosVersions`, from the answer of `List`.
  unfoldable pub fetch_talos_versions :
      {E : Type 0} → V → List V → Result E (List String) → Fetched E
  unfolding parse_candidates max_func sort_func is_offered
  fetch_talos_versions min broken (err e) = failed e
  fetch_talos_versions min broken (ok candidates) =
      let versions = parse_candidates candidates in
      select_offered min broken versions (max_func versions)

  -- The oldest versions of `talosversion.go`.
  pub record Minimums : Type 0 where
    pub secure_boot : V
    pub production_guide : V
    pub troubleshooting_guide : V
    pub bootloader_selection : V
    pub sbom : V
    pub vex : V

-- `Feature`, in the order of its constants.
pub data Feature : Type 0 where
  secure_boot_feature : Feature
  bootloader_selection : Feature
  embedded_config : Feature
  talosctl_download : Feature
  local_test_cluster : Feature
  sbom_feature : Feature
  vex_feature : Feature
  production_guide : Feature
  troubleshooting_guide : Feature

-- `FeatureValues`, which is generated from the constants.
abbrev pub feature_values : List Feature
feature_values =
    secure_boot_feature ∷ bootloader_selection ∷ embedded_config ∷ talosctl_download
    ∷ local_test_cluster ∷ sbom_feature ∷ vex_feature ∷ production_guide ∷ troubleshooting_guide
    ∷ []

-- The quirks of Talos: `SupportsEmbeddedConfig` and `SupportsFactoryTalosctlDownload`.
module _ {V : Type 0} (semver : Semver V) (embeds_config serves_talosctl : V → Bool) where
  abbrev pub gte : V → V → Bool
  gte v w = not (semver.lt v w)

  -- The table `has` of `FeaturesFor`.
  unfoldable pub supports : Minimums semver → V → Feature → Bool
  supports mins v secure_boot_feature = gte v mins.secure_boot
  supports mins v bootloader_selection = gte v mins.bootloader_selection
  supports mins v embedded_config = embeds_config v
  supports mins v talosctl_download = serves_talosctl v
  supports mins v local_test_cluster = gte v mins.bootloader_selection
  supports mins v sbom_feature = gte v mins.sbom
  supports mins v vex_feature = gte v mins.vex
  supports mins v production_guide = gte v mins.production_guide
  supports mins v troubleshooting_guide = gte v mins.troubleshooting_guide

  -- `FeaturesFor`
  unfoldable pub features_for : Minimums semver → V → List Feature
  unfolding supports
  features_for mins v = filter (supports mins v) feature_values

-- `CloudPlatforms` and `Boards`: a zero minimum (`none`) is no bound.
module _ {V : Type 0} (semver : Semver V) {A : Type 0} (min_version : A → Option V) where
  abbrev pub is_at_least : V → Option V → Bool
  is_at_least v none = true
  is_at_least v (some min) = not (semver.lt v min)

  unfoldable pub supported_by : V → List A → List A
  supported_by v platforms = filter (λ p. is_at_least v (min_version p)) platforms
