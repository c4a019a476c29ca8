-- ===== src/Artifacts/Fetching.antt =====
-- internal/artifacts/manager.go: the list of versions, which is fetched again when it is old, and the
-- images that are pulled for a version.
pub mod Recent
pub mod Served
use image_factory.Prelude.{
  ℕ, ◌+◌, String, Bool, false, Option, none, some, List, [], ◌∷◌, ltb, ◌⧺◌, if◌then◌else◌, any,
  Result, ok, err,
}
use image_factory.Artifacts.Manager.{Table, get}

-- The list and the instant of its fetch; `none` is the zero time of a new manager.
pub record Lists (V : Type 0) : Type 0 where
  pub talos_versions : List V
  pub timestamp : Option ℕ

-- One call: the instant when it starts, the instant when its flight would end, and the error of a
-- context that ends before that.
pub record Call (E : Type 0) : Type 0 where
  pub now : ℕ
  pub finished : ℕ
  pub ended : Option E

-- The errors of a lookup by version.
pub data LookupError (E : Type 0) : Type 0 where
  unparsable : E → LookupError E
  unlisted : E → LookupError E
  not_available : String → LookupError E
  failed : E → LookupError E
  no_artifact : LookupError E

pub data Arch : Type 0 where
  amd64 : Arch
  arm64 : Arch

unfoldable pub arch_text : Arch → String
arch_text amd64 = "amd64"
arch_text arm64 = "arm64"

-- An error that is passed on as it is.
abbrev pub lookup_of : {X E : Type 0} → Result E X → Result (LookupError E) X
lookup_of (ok x) = ok x
lookup_of (err e) = err (failed e)

-- `time.Since(timestamp) < TalosVersionRecheckInterval`; a clock that went back counts as recent.
unfoldable pub is_recent : ℕ → ℕ → Option ℕ → Bool
is_recent interval now none = false
is_recent interval now (some t) = ltb now (t + interval)

module _ {V E : Type 0} (interval : ℕ) (fetch : ℕ → Result E (List V)) where
  -- `NewManager`: no list.
  abbrev pub new_lists : Lists V
  new_lists = record { talos_versions = []; timestamp = none }

  -- The end of `fetchTalosVersions`: `fetch` says what a fetch that ends at an instant lists.
  unfoldable pub refresh : ℕ → Result E (List V) → Lists V → Lists V
  refresh finished (ok versions) lists = record {
    talos_versions = versions;
    timestamp = some finished;
  }
  refresh finished (err e) lists = lists

  -- The wait for the flight, and the list that is read behind it.
  abbrev pub awaited_list : Option E → Result E (List V) → Lists V → Result E (List V)
  awaited_list (some e) fetched lists = err e
  awaited_list none (err e) lists = err e
  awaited_list none (ok versions) lists = ok lists.talos_versions

  -- `GetTalosVersions`
  unfoldable pub get_talos_versions : Call E → Lists V → Lists V × Result E (List V)
  unfolding refresh is_recent
  get_talos_versions call lists =
      if is_recent interval call.now lists.timestamp
      then (lists, ok lists.talos_versions)
      else (let lists' = refresh call.finished (fetch call.finished) lists in
          (lists', awaited_list call.ended (fetch call.finished) lists'))

  -- The lists behind a sequence of calls.
  unfoldable pub run : List (Call E) → Lists V → Lists V
  unfolding get_talos_versions
  run [] lists = lists
  run (call ∷ calls) lists = run calls (get_talos_versions call lists).0

  -- `semver.ParseTolerant`, the text of a version, and whether two versions are equal.
  module _ (parse_tolerant : String → Result E V) (version_text : V → String)
      (equals : V → V → Bool) where
    abbrev pub check_listed : V → Result E (List V) → Result (LookupError E) V
    check_listed version (err e) = err (unlisted e)
    check_listed version (ok versions) =
        if any (equals version) versions
        then ok version
        else err (not_available (version_text version))

    abbrev pub validate_parsed : Call E → Lists V → Result E V → Lists V × Result (LookupError E) V
    validate_parsed call lists (err e) = (lists, err (unparsable e))
    validate_parsed call lists (ok version) =
        let (lists', listed) = get_talos_versions call lists in
        (lists', check_listed version listed)

    -- The parsing of a version and `validateTalosVersion`.
    unfoldable pub validate_talos_version :
        Call E → Lists V → String → Lists V × Result (LookupError E) V
    validate_talos_version call lists text = validate_parsed call lists (parse_tolerant text)

    abbrev pub tag_of_version : Result (LookupError E) V → Result (LookupError E) String
    tag_of_version (err e) = err e
    tag_of_version (ok version) = ok ("v" ⧺ version_text version)

    -- `parseTag`
    unfoldable pub parse_tag : Call E → Lists V → String → Lists V × Result (LookupError E) String
    unfolding validate_talos_version
    parse_tag call lists text =
        let (lists', validated) = validate_talos_version call lists text in
        (lists', tag_of_version validated)

    abbrev pub get_listed :
        {X : Type 0}
        → (String → Result E X)
        → X
        → Option E
        → Table X
        → Lists V × Result (LookupError E) String
        → (Lists V × Table X) × Result (LookupError E) X
    get_listed fetch_item zero_value ended table (lists, err e) = ((lists, table), err e)
    get_listed fetch_item zero_value ended table (lists, ok tag) =
        let (table', found) = get fetch_item zero_value ended table tag in
        ((lists, table'), lookup_of found)

    -- `GetOfficialExtensions` and `GetOfficialOverlays`, each with the table of its cache.
    unfoldable pub get_official :
        {X : Type 0}
        → (String → Result E X)
        → X
        → Call E
        → Option E
        → String
        → Lists V × Table X
        → (Lists V × Table X) × Result (LookupError E) X
    unfolding parse_tag
    get_official fetch_item zero_value call ended text (lists, table) =
        get_listed fetch_item zero_value ended table (parse_tag call lists text)

    -- The files below the storage path: `os.Stat`, and the pull of an image by its path.
    module _ {W : Type 0} (stat : W → String → Bool) (pull : String → W → W × Option E) where
      abbrev pub awaited_path : Option E → String → W × Option E → W × Result (LookupError E) String
      awaited_path (some e) path (w, pulled) = (w, err (failed e))
      awaited_path none path (w, some e) = (w, err (failed e))
      awaited_path none path (w, none) = (w, ok path)

      -- An image that is stored already, or pulled in a flight for its path.
      unfoldable pub get_stored : Option E → String → W → W × Result (LookupError E) String
      get_stored ended path w =
          if stat w path then (w, ok path) else awaited_path ended path (pull path w)

      abbrev pub get_tagged :
          Option E
          → (String → String)
          → W
          → Lists V × Result (LookupError E) String
          → (Lists V × W) × Result (LookupError E) String
      get_tagged ended path_of w (lists, err e) = ((lists, w), err e)
      get_tagged ended path_of w (lists, ok tag) =
          let (w', stored) = get_stored ended (path_of tag) w in ((lists, w'), stored)

      -- `GetInstallerImage`; `ended` is for the second wait.
      unfoldable pub get_installer_image :
          Call E
          → Option E
          → Arch
          → String
          → Lists V × W
          → (Lists V × W) × Result (LookupError E) String
      unfolding parse_tag get_stored
      get_installer_image call ended arch text (lists, w) =
          get_tagged ended (λ tag. arch_text arch ⧺ "-installer-" ⧺ tag) w
            (parse_tag call lists text)

      -- `GetExtensionImage` and `GetOverlayImage`, by the digest of the reference.
      unfoldable pub get_image_by_digest :
          Option E → Arch → String → W → W × Result (LookupError E) String
      unfolding get_stored
      get_image_by_digest ended arch d w = get_stored ended (arch_text arch ⧺ "-" ⧺ d) w

      -- A pull that finds no image is a version that is not available.
      abbrev pub awaited_talosctl :
          (E → Bool) → String → Option E → String → W × Option E → W × Result (LookupError E) String
      awaited_talosctl is_not_found version (some e) path (w, pulled) = (w, err (failed e))
      awaited_talosctl is_not_found version none path (w, some e) =
          (w, err (if is_not_found e then not_available version else failed e))
      awaited_talosctl is_not_found version none path (w, none) = (w, ok path)

      abbrev pub get_talosctl :
          (E → Bool)
          → Option E
          → W
          → Lists V × Result (LookupError E) V
          → (Lists V × W) × Result (LookupError E) String
      get_talosctl is_not_found ended w (lists, err e) = ((lists, w), err e)
      get_talosctl is_not_found ended w (lists, ok version) =
          let path = "talosctl-all-v" ⧺ version_text version in
          if stat w path
          then ((lists, w), ok path)
          else (let (w', stored) =
                awaited_talosctl is_not_found (version_text version) ended path (pull path w) in
              ((lists, w'), stored))

      -- `GetTalosctlImage`
      unfoldable pub get_talosctl_image :
          (E → Bool)
          → Call E
          → Option E
          → String
          → Lists V × W
          → (Lists V × W) × Result (LookupError E) String
      unfolding validate_talos_version
      get_talosctl_image is_not_found call ended text (lists, w) =
          get_talosctl is_not_found ended w (validate_talos_version call lists text)

      abbrev pub find_artifact :
          Arch
          → String
          → String
          → W × Result (LookupError E) String
          → W × Result (LookupError E) String
      find_artifact arch kind tag (w, err e) = (w, err e)
      find_artifact arch kind tag (w, ok dir) =
          let path = dir ⧺ "/" ⧺ arch_text arch ⧺ "/" ⧺ kind in
          (w, if stat w path then ok path else err no_artifact)

      abbrev pub find_tagged :
          Option E
          → Arch
          → String
          → W
          → Lists V × Result (LookupError E) String
          → (Lists V × W) × Result (LookupError E) String
      find_tagged ended arch kind w (lists, err e) = ((lists, w), err e)
      find_tagged ended arch kind w (lists, ok tag) =
          let (w', found) = find_artifact arch kind tag (get_stored ended tag w) in
          ((lists, w'), found)

      -- `Get`: an artifact in the directory that the imager of a version is extracted to. Its
      -- parser is the strict one, `semver.Parse`, in place of `ParseTolerant`.
      unfoldable pub get_artifact :
          Call E
          → Option E
          → Arch
          → String
          → String
          → Lists V × W
          → (Lists V × W) × Result (LookupError E) String
      unfolding parse_tag get_stored
      get_artifact call ended arch kind text (lists, w) =
          find_tagged ended arch kind w (parse_tag call lists text)
