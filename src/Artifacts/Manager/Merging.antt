-- ===== src/Artifacts/Manager/Merging.antt =====
-- internal/artifacts/manager.go: which extension a name stands for after the merge.
use image_factory.Prelude.{
  ◌+◌, String, ◌≡◌, refl, sym, ap, ◌∙◌, Bool, true, false, Option, none, some, List, [], ◌∷◌, ◌++◌,
  arith, eq_iff, eq_refl, ◌==◌, if◌then◌else◌, any, ok-injective, Result, ok, err,
}
use image_factory.Artifacts.{count}
use image_factory.Artifacts.Listings.{ExtensionRef}
use image_factory.Artifacts.Manager.{
  Table, get_entry, get, overrides, not_overridden, merge_extensions, fetch_extensions, named,
}

-- The first of two.
abbrev pub or_other : {X : Type 0} → Option X → Option X → Option X
or_other (some x) other = some x
or_other none other = other

module _ {T : Type 0} (repository_str : T → String) where
  named-append :
      (xs ys : List (ExtensionRef T)) (name : String)
      → named repository_str (xs ++ ys) name
        ≡ or_other (named repository_str xs name) (named repository_str ys name)
  unfolding named
  named-append [] ys name = refl
  named-append (x ∷ xs) ys name = ground (arith, named-append xs ys name)

  -- An official extension is overridden exactly when an extra one has its name.
  overrides-named :
      (extras : List (ExtensionRef T)) (official : ExtensionRef T) (name : String)
      → (repository_str official.tagged_reference == name) ≡ true
      → named repository_str extras name ≡ none
      → overrides repository_str extras official ≡ false
  unfolding named overrides
  overrides-named [] official name same missing = refl
  overrides-named (extra ∷ extras) official name same missing = ground (
    arith,
    overrides-named extras official name,
    eq_iff (repository_str official.tagged_reference) name,
    eq_iff (repository_str official.tagged_reference) (repository_str extra.tagged_reference),
    eq_iff (repository_str extra.tagged_reference) name,
  )

  not_overridden-named :
      (extras officials : List (ExtensionRef T)) (name : String)
      → named repository_str extras name ≡ none
      → named repository_str (not_overridden repository_str extras officials) name
        ≡ named repository_str officials name
  unfolding named not_overridden
  not_overridden-named extras [] name missing = refl
  not_overridden-named extras (official ∷ officials) name missing = ground (
    arith,
    not_overridden-named extras officials name missing,
    overrides-named extras official name,
  )

  merge_extensions-named :
      (extras officials : List (ExtensionRef T)) (name : String)
      → named repository_str (merge_extensions repository_str extras officials) name
        ≡ or_other (named repository_str extras name) (named repository_str officials name)
  unfolding merge_extensions
  merge_extensions-named extras officials name = by_extra (named repository_str extras name) refl
    where
      by_extra :
          (found : Option (ExtensionRef T))
          → named repository_str extras name ≡ found
          → named repository_str (extras ++ not_overridden repository_str extras officials) name
            ≡ or_other found (named repository_str officials name)
      by_extra (some e) p =
          named-append extras (not_overridden repository_str extras officials) name
          ∙ ap
              (λ o.
                or_other o
                  (named repository_str (not_overridden repository_str extras officials) name))
              p
      by_extra none p =
          named-append extras (not_overridden repository_str extras officials) name
          ∙ ap
              (λ o.
                or_other o
                  (named repository_str (not_overridden repository_str extras officials) name))
              p
          ∙ not_overridden-named extras officials name p

  abbrev pub has_name : String → ExtensionRef T → Bool
  has_name name e = repository_str e.tagged_reference == name

  overrides-any :
      (extras : List (ExtensionRef T)) (official : ExtensionRef T) (name : String)
      → has_name name official ≡ true
      → overrides repository_str extras official ≡ any (has_name name) extras
  unfolding overrides
  overrides-any [] official name same = refl
  overrides-any (extra ∷ extras) official name same = ground (
    arith,
    overrides-any extras official name same,
    eq_iff (repository_str official.tagged_reference) name,
    eq_iff (repository_str official.tagged_reference) (repository_str extra.tagged_reference),
    eq_iff (repository_str extra.tagged_reference) name,
  )

  count-not_overridden :
      (extras officials : List (ExtensionRef T)) (name : String)
      → count (has_name name) (not_overridden repository_str extras officials)
        ≡ (if any (has_name name) extras then 0 else count (has_name name) officials)
  unfolding not_overridden
  count-not_overridden extras [] name = ground arith
  count-not_overridden extras (official ∷ officials) name =
      ground (arith, count-not_overridden extras officials name, overrides-any extras official name)

  count-none :
      (extras : List (ExtensionRef T)) (name : String)
      → any (has_name name) extras ≡ false
      → count (has_name name) extras ≡ 0
  count-none [] name h = refl
  count-none (extra ∷ extras) name h = ground (arith, count-none extras name)

  count-append :
      (p : ExtensionRef T → Bool) (xs ys : List (ExtensionRef T))
      → count p (xs ++ ys) ≡ count p xs + count p ys
  count-append p [] ys = omega arith
  count-append p (x ∷ xs) ys = omega (arith, count-append p xs ys)

  merge_extensions-count :
      (extras officials : List (ExtensionRef T)) (name : String)
      → count (has_name name) (merge_extensions repository_str extras officials) ≡ (
          if any (has_name name) extras
          then count (has_name name) extras
          else count (has_name name) officials)
  unfolding merge_extensions
  merge_extensions-count extras officials name = ground (
    arith,
    count-append (has_name name) extras (not_overridden repository_str extras officials),
    count-not_overridden extras officials name,
    count-none extras name,
  )

  -- Where both registries publish extensions, a name stands for the extra extension of that name, if
  -- there is one, and else for the official one; and as many extensions of a name are listed as there
  -- are extra ones, if there is one, and else as there are official ones.
  pub fetch_extensions-named :
      {E : Type 0} (is_not_found : E → Bool) (extras officials : List (ExtensionRef T))
      (name : String) {out : List (ExtensionRef T)}
      → fetch_extensions repository_str is_not_found (ok officials) (some (ok extras)) ≡ ok out
      → (named repository_str out name
          ≡ or_other (named repository_str extras name) (named repository_str officials name))
        × (count (has_name name) out ≡ (
            if any (has_name name) extras
            then count (has_name name) extras
            else count (has_name name) officials))
  unfolding fetch_extensions
  fetch_extensions-named is_not_found extras officials name h = (
    ap (λ es. named repository_str es name) (sym (ok-injective h))
        ∙ merge_extensions-named extras officials name,
    ap (count (has_name name)) (sym (ok-injective h))
        ∙ merge_extensions-count extras officials name,
  )

-- A list that was fetched once is never fetched again, whatever the fetch would now answer, and a
-- fetch that fails leaves the table as it was.
pub get-fetched :
    {X E : Type 0} (fetch later : String → Result E X) (zero_value : X) (table : Table X)
    (tag : String)
    → ((item : X)
        → fetch tag ≡ ok item
        → table tag ≡ none
        → get later zero_value none (get fetch zero_value none table tag).0 tag
          ≡ ((get fetch zero_value none table tag).0, ok item))
      × ((e : E) → fetch tag ≡ err e → (get fetch zero_value none table tag).0 ≡ table)
unfolding get
get-fetched {X} {E} fetch later zero_value table tag = (
  λ item fetched missing. rw missing (rw fetched (rw (eq_refl tag) refl)),
  λ e broken. by_entry (table tag) broken,
)
  where
    by_entry :
        (entry : Option X) {e : E}
        → fetch tag ≡ err e
        → (get_entry fetch zero_value none table tag entry).0 ≡ table
    by_entry (some x) broken = refl
    by_entry none broken = rw broken refl
