-- ===== src/Artifacts/Manager.antt =====
-- internal/artifacts/manager.go and internal/cache/single_flight.go: the lists of a manager, which
-- are fetched once, and the merge of the extensions of two registries.
pub mod Merging
use image_factory.Prelude.{
  String, Bool, false, ◌||◌, Option, none, some, List, [], ◌∷◌, ◌++◌, ◌==◌, if◌then◌else◌, Result,
  ok, err,
}
use image_factory.Artifacts.Listings.{ExtensionRef}

-- The entries of a `SingleFlightCache`, by tag.
abbrev pub Table : Type 0 → Type 0
Table X = String → Option X

abbrev pub with_entry : {X : Type 0} → Table X → String → X → Table X
with_entry table tag item key = if key == tag then some item else table key

module _ {X E : Type 0} (fetch : String → Result E X) where
  -- The flight: a fetch that fails is not cached.
  abbrev pub fill : Table X → String → Result E X → Table X
  fill table tag (ok item) = with_entry table tag item
  fill table tag (err e) = table

  -- The wait for the flight, and the entry that is read behind it; a missing one is the zero value.
  abbrev pub read_back : X → Option E → Table X → String → Result E X → Result E X
  read_back zero_value (some ended) table tag fetched = err ended
  read_back zero_value none table tag (err e) = err e
  read_back zero_value none table tag (ok item) = elim (table tag) [
    | some entry ↦ ok entry
    | none ↦ ok zero_value
  ]

  abbrev pub get_entry : X → Option E → Table X → String → Option X → Table X × Result E X
  get_entry zero_value ended table tag (some entry) = (table, ok entry)
  get_entry zero_value ended table tag none =
      let table' = fill table tag (fetch tag) in
      (table', read_back zero_value ended table' tag (fetch tag))

  -- `SingleFlightCache.Get`, of a call that leads its flight; `ended` is the error of a context that
  -- ends before the fetch.
  unfoldable pub get : X → Option E → Table X → String → Table X × Result E X
  get zero_value ended table tag = get_entry zero_value ended table tag (table tag)

module _ {T : Type 0} (repository_str : T → String) where
  -- The inner loop of the merge.
  unfoldable pub overrides : List (ExtensionRef T) → ExtensionRef T → Bool
  overrides [] official = false
  overrides (extra ∷ extras) official =
      repository_str official.tagged_reference == repository_str extra.tagged_reference
      || overrides extras official

  -- The official extensions that no extra one overrides.
  unfoldable pub not_overridden :
      List (ExtensionRef T) → List (ExtensionRef T) → List (ExtensionRef T)
  not_overridden extras [] = []
  not_overridden extras (official ∷ officials) =
      let rest = not_overridden extras officials in
      if overrides extras official then rest else official ∷ rest

  -- The merge of the lists.
  unfoldable pub merge_extensions :
      List (ExtensionRef T) → List (ExtensionRef T) → List (ExtensionRef T)
  unfolding not_overridden overrides
  merge_extensions extras officials = extras ++ not_overridden extras officials

  abbrev pub merge_fetched :
      {E : Type 0}
      → (E → Bool)
      → List (ExtensionRef T)
      → Result E (List (ExtensionRef T))
      → Result E (List (ExtensionRef T))
  merge_fetched is_not_found officials (ok extras) = ok (merge_extensions extras officials)
  merge_fetched is_not_found officials (err e) = if is_not_found e then ok officials else err e

  -- The fetch of the extensions of a version; `none` is a manager without extra extensions.
  unfoldable pub fetch_extensions :
      {E : Type 0}
      → (E → Bool)
      → Result E (List (ExtensionRef T))
      → Option (Result E (List (ExtensionRef T)))
      → Result E (List (ExtensionRef T))
  unfolding merge_extensions
  fetch_extensions is_not_found (err e) extra = err e
  fetch_extensions is_not_found (ok officials) none = ok officials
  fetch_extensions is_not_found (ok officials) (some extra) =
      merge_fetched is_not_found officials extra

  -- The first extension of a repository.
  unfoldable pub named : List (ExtensionRef T) → String → Option (ExtensionRef T)
  named [] name = none
  named (e ∷ es) name = if repository_str e.tagged_reference == name then some e else named es name
