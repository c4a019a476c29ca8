-- ===== src/Artifacts/Listings/Binaries.antt =====
-- internal/artifacts/versions.go: the names of the binaries of talosctl.
use text.Mathlib.TextLemmas.{nil-append, cons-append, append-nil as text_append_nil}
use Prim.Native.Char.{code}
use image_factory.Prelude.{
  ℕ, String, ◌≡◌, refl, sym, ap, ◌∙◌, subst, ◌⊎◌, inl, inr, false, none, List, [], ◌∷◌, ◌++◌, map,
  append_assoc, append-nil, ◌⧺◌, if◌then◌else◌, nat_eq_of_ne, All, ◌>>=◌, ok, err,
}
use image_factory.Strings.{cut_prefix, cut_suffix, split}
use image_factory.Strings.Cutting.{cut_prefix-append, cut_suffix-append, Lacks}
use image_factory.Artifacts.Listings.{
  or_nothing, split_ext, tuple_of, talosctl_tuple, talosctl_files, extract_talosctl_tuples,
  TalosctlTuple, broken_archive, cons_tuple, add_binary,
}

-- The name of a binary.
abbrev pub binary_name : TalosctlTuple → String
binary_name t = "talosctl-" ⧺ (t.os ⧺ "-" ⧺ t.arch) ⧺ t.ext

-- Its operating system and architecture have no dash, and its extension is `.exe` or, on a name that
-- does not end so, none.
pub record IsBinary (t : TalosctlTuple) : Type 0 where
  pub os_plain : Lacks b'-' t.os
  pub arch_plain : Lacks b'-' t.arch
  pub ext_known :
      (t.ext ≡ ".exe") ⊎ ((t.ext ≡ "") × (cut_suffix (t.os ⧺ "-" ⧺ t.arch) ".exe" ≡ none))

split-Lacks : (k : ℕ) (s : String) → Lacks k s → split k s ≡ s ∷ []
unfolding split
split-Lacks k String.[] h = refl
split-Lacks k (String.◌∷◌ c s) (h, hs) = rw (nat_eq_of_ne (code c) k h, split-Lacks k s hs) refl

split-append : (s t : String) → Lacks b'-' s → Lacks b'-' t → split b'-' (s ⧺ "-" ⧺ t) ≡ s ∷ t ∷ []
unfolding split
split-append String.[] t h k =
    rw (nil-append ("-" ⧺ t), cons-append "-" "" t, nil-append t, split-Lacks b'-' t k) refl
split-append (String.◌∷◌ c s) t (h, hs) k =
    rw (cons-append c s ("-" ⧺ t), nat_eq_of_ne (code c) b'-' h, split-append s t hs k) refl

split_ext-append :
    (base ext : String)
    → (ext ≡ ".exe") ⊎ ((ext ≡ "") × (cut_suffix base ".exe" ≡ none))
    → split_ext (base ⧺ ext) (cut_suffix (base ⧺ ext) ".exe") ≡ (base, ext)
split_ext-append base ext (inl windows) =
    rw windows (ap (split_ext (base ⧺ ".exe")) (cut_suffix-append base ".exe"))
split_ext-append base ext (inr (bare, kept)) =
    rw (bare, text_append_nil base) (ap (split_ext base) kept)

talosctl_tuple-append :
    (name : String) (t : TalosctlTuple)
    → IsBinary t
    → talosctl_tuple name ((t.os ⧺ "-" ⧺ t.arch) ⧺ t.ext) ≡ ok t
unfolding talosctl_tuple
talosctl_tuple-append name t h =
    subst (λ x. tuple_of name x.1 (split b'-' x.0) ≡ ok t)
      (sym (split_ext-append (t.os ⧺ "-" ⧺ t.arch) t.ext h.ext_known))
      (ap (tuple_of name t.ext) (split-append t.os t.arch h.os_plain h.arch_plain))

add_binary-name :
    (t : TalosctlTuple) (found : List TalosctlTuple)
    → IsBinary t
    → add_binary (binary_name t) (cut_prefix (binary_name t) "talosctl-") found
      ≡ ok (found ++ t ∷ [])
unfolding add_binary
add_binary-name t found h =
    let rest = (t.os ⧺ "-" ⧺ t.arch) ⧺ t.ext in
    ap (λ cut_off. add_binary (binary_name t) cut_off found) (cut_prefix-append "talosctl-" rest)
    ∙ ap (λ r. r >>= cons_tuple found) (talosctl_tuple-append (binary_name t) t h)

talosctl_files-names :
    (ts found : List TalosctlTuple) (content : String)
    → All IsBinary ts
    → talosctl_files (map (λ t. record { name = binary_name t; content = content }) ts) found
      ≡ ok (found ++ ts)
unfolding talosctl_files
talosctl_files-names [] found content h = ap ok (sym (append-nil found))
talosctl_files-names (t ∷ ts) found content (ht, h) =
    ap
      (λ r. r >>= talosctl_files (map (λ t. record { name = binary_name t; content = content }) ts))
      (add_binary-name t found ht)
    ∙ talosctl_files-names ts (found ++ t ∷ []) content h
    ∙ ap ok (append_assoc found (t ∷ []) ts)

-- From an archive with the binaries of some platforms, whose reader ends well, these platforms are
-- extracted, in their order.
pub extract_talosctl_tuples-names :
    (t : TalosctlTuple) (ts : List TalosctlTuple) (content : String)
    → All IsBinary (t ∷ ts)
    → extract_talosctl_tuples
        (map (λ t. record { name = binary_name t; content = content }) (t ∷ ts))
        false
      ≡ ok (t ∷ ts)
unfolding extract_talosctl_tuples
extract_talosctl_tuples-names t ts content h =
    ap (λ r. (r >>= λ tuples. if false then err broken_archive else ok tuples) >>= or_nothing)
      (talosctl_files-names (t ∷ ts) [] content h)
