-- ===== src/Artifacts/Fetching/Served.antt =====
-- internal/artifacts/manager.go: which images are handed out.
use image_factory.Prelude.{
  ℕ, String, ◌≡◌, refl, sym, ap, ◌∙◌, subst, inl, inr, Bool, true, Option, none, some, List, ◌⧺◌,
  Bool-cases, any, ok-injective, Result, ok, err,
}
use image_factory.Artifacts.Fetching.{
  arch_text, new_lists, run, check_listed, validate_parsed, validate_talos_version, tag_of_version,
  parse_tag, awaited_path, get_stored, get_tagged, get_installer_image, Lists, Call, LookupError,
  Arch,
}
use image_factory.Artifacts.Fetching.Recent.{IsFetched, run-IsFetched, listed-IsRecent, IsRecent}

module _ {V E : Type 0} (interval : ℕ) (fetch : ℕ → Result E (List V)) where
  module _ (parse_tolerant : String → Result E V) (version_text : V → String)
      (equals : V → V → Bool) {W : Type 0} (stat : W → String → Bool)
      (pull : String → W → W × Option E) where
    -- A version that was asked for, that a recent list has, and whose image is stored.
    pub record IsServed (call : Call E) (text : String) (path_of : String → String) (w : W)
        (path : String) : Type 0 where
      pub version : V
      pub versions : List V
      pub parsed : parse_tolerant text ≡ ok version
      pub recent : IsRecent interval fetch call versions
      pub available : any (equals version) versions ≡ true
      pub placed : path ≡ path_of ("v" ⧺ version_text version)
      pub is_stored : stat w path ≡ true

    -- A parsed version that a recent list has.
    record IsAvailable (call : Call E) (text : String) (version : V) : Type 0 where
      available_versions : List V
      parsed_version : parse_tolerant text ≡ ok version
      recent_versions : IsRecent interval fetch call available_versions
      in_versions : any (equals version) available_versions ≡ true

    listed-IsAvailable :
        (call : Call E) (text : String) (version : V) (listed : Result E (List V)) {found : V}
        → parse_tolerant text ≡ ok version
        → ((versions : List V) → listed ≡ ok versions → IsRecent interval fetch call versions)
        → check_listed interval fetch parse_tolerant version_text equals version listed ≡ ok found
        → IsAvailable call text found
    listed-IsAvailable call text version (err e) p fresh h = cc
    listed-IsAvailable call text version (ok versions) {found} p fresh h =
        elim (Bool-cases (any (equals version) versions)) [
          | inl there ↦ subst (IsAvailable call text) (ok-injective (rw there at h)) (record {
            available_versions = versions;
            parsed_version = p;
            recent_versions = fresh versions refl;
            in_versions = there;
          })
          | inr missing ↦ cc (rw missing at h)
        ]

    parsed-IsAvailable :
        (call : Call E) (lists : Lists V) (text : String) (parsed : Result E V) {version : V}
        → IsFetched interval fetch lists.talos_versions lists.timestamp
        → parse_tolerant text ≡ parsed
        → (validate_parsed interval fetch parse_tolerant version_text equals call lists parsed).1
          ≡ ok version
        → IsAvailable call text version
    parsed-IsAvailable call lists text (err e) fresh p h = cc
    parsed-IsAvailable call lists text (ok version) fresh p h =
        listed-IsAvailable call text version _ p
          (λ versions e. listed-IsRecent interval fetch call lists fresh e) h

    awaited-is_stored :
        (ended : Option E) (path : String) (pulled : W × Option E) {out : String}
        → (pulled.1 ≡ none → stat pulled.0 path ≡ true)
        → (awaited_path interval fetch parse_tolerant version_text equals stat pull ended path
            pulled).1
          ≡ ok out
        → (out ≡ path)
          × (stat
                (awaited_path interval fetch parse_tolerant version_text equals stat pull ended path
                  pulled).0
                path
              ≡ true)
    awaited-is_stored (some e) path (w, pulled) pulls h = cc
    awaited-is_stored none path (w, some e) pulls h = cc
    awaited-is_stored none path (w, none) pulls h = (sym (ok-injective h), pulls refl)

    stored-is_stored :
        (ended : Option E) (path : String) (w : W) {out : String}
        → ((path : String) (w : W) → (pull path w).1 ≡ none → stat (pull path w).0 path ≡ true)
        → (get_stored interval fetch parse_tolerant version_text equals stat pull ended path w).1
          ≡ ok out
        → (out ≡ path)
          × (stat
                (get_stored interval fetch parse_tolerant version_text equals stat pull ended path
                  w).0
                path
              ≡ true)
    unfolding get_stored
    stored-is_stored ended path w {out} pulls h = elim (Bool-cases (stat w path)) [
      | inl there ↦ (sym (ok-injective (rw there at h)), rw there there)
      | inr missing ↦
          rw missing (awaited-is_stored ended path (pull path w) (pulls path w) (rw missing at h))
    ]

    tagged-IsServed :
        (call : Call E) (ended : Option E) (path_of : String → String) (lists : Lists V) (w : W)
        (validated : Result (LookupError E) V) {text out : String}
        → ((path : String) (w : W) → (pull path w).1 ≡ none → stat (pull path w).0 path ≡ true)
        → ((version : V) → validated ≡ ok version → IsAvailable call text version)
        → (get_tagged interval fetch parse_tolerant version_text equals stat pull ended path_of w
            (lists, tag_of_version interval fetch parse_tolerant version_text equals validated)).1
          ≡ ok out
        → IsServed call text path_of
            (get_tagged interval fetch parse_tolerant version_text equals stat pull ended path_of w
              (
                lists,
                tag_of_version interval fetch parse_tolerant version_text equals validated,
              )).0.1
            out
    tagged-IsServed call ended path_of lists w (err e) pulls found h = cc
    tagged-IsServed call ended path_of lists w (ok version) {text} {out} pulls found h =
        let (placed, there) =
          stored-is_stored ended (path_of ("v" ⧺ version_text version)) w pulls h in
        let available = found version refl in
        record {
          version = version;
          versions = available.available_versions;
          parsed = available.parsed_version;
          recent = available.recent_versions;
          available = available.in_versions;
          placed = placed;
          is_stored = ap (stat _) placed ∙ there;
        }

    -- After any calls for the list of versions, the image of an installer is handed out only if it is
    -- stored, for a version that a recent list has, provided that a pull without error stores what
    -- it pulls.
    pub get_installer_image-IsServed :
        (calls : List (Call E)) (call : Call E) (ended : Option E) (arch : Arch) (text : String)
        (w : W) {path : String}
        → ((path : String) (w : W) → (pull path w).1 ≡ none → stat (pull path w).0 path ≡ true)
        → (get_installer_image interval fetch parse_tolerant version_text equals stat pull call
            ended arch text
            (run interval fetch calls (new_lists interval fetch), w)).1
          ≡ ok path
        → IsServed call text
            (λ tag. arch_text arch ⧺ "-installer-" ⧺ tag)
            (get_installer_image interval fetch parse_tolerant version_text equals stat pull call
              ended arch text
              (run interval fetch calls (new_lists interval fetch), w)).0.1
            path
    unfolding get_installer_image parse_tag validate_talos_version
    get_installer_image-IsServed calls call ended arch text w pulls h =
        tagged-IsServed call ended _ _ w _ pulls
          (λ version e.
            parsed-IsAvailable call _ text (parse_tolerant text)
              (run-IsFetched interval fetch calls (new_lists interval fetch) tt) refl e)
          h
