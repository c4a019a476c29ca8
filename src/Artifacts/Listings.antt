-- ===== src/Artifacts/Listings.antt =====
-- internal/artifacts/versions.go: the extensions, overlays and binaries that the files of an image
-- list. The tar format, YAML, the scanner of lines and the parser of references are parameters.
pub mod Sources
pub mod Binaries
use image_factory.Prelude.{
  String, Bool, true, false, Option, none, some, List, [], ◌∷◌, ◌++◌, map, ◌==◌, if◌then◌else◌,
  ◌>>=◌, Result, ok, err,
}
use image_factory.Strings.{cut_prefix, cut_suffix, cut, split, trim_space}

-- A file of an archive; an archive is read to its end, or to an error of its reader.
pub record TarFile : Type 0 where
  pub name : String
  pub content : String

pub data ListingError : Type 0 where
  broken_archive : ListingError
  broken_yaml : ListingError
  broken_tag : String → ListingError
  broken_lines : ListingError
  broken_name : String → ListingError
  nothing_found : ListingError

-- `ExtensionRef`, over the type of tags.
pub record ExtensionRef (T : Type 0) : Type 0 where
  pub tagged_reference : T
  pub digest : String
  pub description : String
  pub author : String
  pub image_digest : String
  pub pull_reference : T

pub record OverlayRef (T : Type 0) : Type 0 where
  pub name : String
  pub tagged_reference : T
  pub digest : String

pub record TalosctlTuple : Type 0 where
  pub os : String
  pub arch : String
  pub ext : String

pub record OverlayDescription : Type 0 where
  pub name : String
  pub image : String
  pub digest : String

-- `extensionsDescriptions`: author and description by the line of an image.
abbrev pub Descriptions : Type 0
Descriptions = String → Option (String × String)

-- `name.NewTag`, the parts of a tag, the tag `Repo(path).Tag(tag)` of the registry, the lines that
-- a scanner yields with whether it fails, and the decoders of the two YAML files; the decoder of
-- descriptions adds to the map that is there.
pub record Parsers (T : Type 0) : Type 0 where
  pub new_tag : String → Option T
  pub repository_str : T → String
  pub tag_str : T → String
  pub pull : String → String → T
  pub scan : String → List String × Bool
  pub decode_descriptions : Descriptions → String → Option Descriptions
  pub decode_overlays : String → Option (List OverlayDescription)

-- `if xs != nil { return xs, nil }` behind a loop that appends.
abbrev pub or_nothing : {A : Type 0} → List A → Result ListingError (List A)
or_nothing [] = err nothing_found
or_nothing (x ∷ xs) = ok (x ∷ xs)

module _ {T : Type 0} (parsers : Parsers T) where
  abbrev add_tagged :
      String
      → String
      → Option T
      → List (ExtensionRef T)
      → Result ListingError (List (ExtensionRef T))
  add_tagged line digest none extensions = err (broken_tag line)
  add_tagged line digest (some tagged) extensions = ok (
      extensions
      ++ record {
        tagged_reference = tagged;
        digest = digest;
        description = "";
        author = "";
        image_digest = line;
        pull_reference = parsers.pull (parsers.repository_str tagged) (parsers.tag_str tagged);
      }
        ∷ [])

  abbrev add_cut :
      String
      → Option (String × String)
      → List (ExtensionRef T)
      → Result ListingError (List (ExtensionRef T))
  add_cut line none extensions = ok extensions
  add_cut line (some (tagged, digest)) extensions =
      add_tagged line digest (parsers.new_tag tagged) extensions

  -- One line of the file of digests.
  unfoldable pub add_line :
      String → List (ExtensionRef T) → Result ListingError (List (ExtensionRef T))
  add_line text extensions = let line = trim_space text in add_cut line (cut line "@") extensions

  unfoldable pub add_lines :
      List String → List (ExtensionRef T) → Result ListingError (List (ExtensionRef T))
  unfolding add_line
  add_lines [] extensions = ok extensions
  add_lines (text ∷ texts) extensions = add_line text extensions >>= add_lines texts

  abbrev decoded :
      List (ExtensionRef T)
      → Option Descriptions
      → Result ListingError (Descriptions × List (ExtensionRef T))
  decoded extensions none = err broken_yaml
  decoded extensions (some descriptions) = ok (descriptions, extensions)

  abbrev scanned : Bool → List (ExtensionRef T) → Result ListingError (List (ExtensionRef T))
  scanned true extensions = err broken_lines
  scanned false extensions = ok extensions

  -- The file of digests.
  unfoldable pub digests_file :
      String
      → Descriptions × List (ExtensionRef T)
      → Result ListingError (Descriptions × List (ExtensionRef T))
  unfolding add_lines
  digests_file content (descriptions, extensions) =
      let (texts, fails) = parsers.scan content in
      add_lines texts extensions >>= scanned fails >>= λ more. ok (descriptions, more)

  -- One file of the archive.
  unfoldable pub extension_file :
      TarFile
      → Descriptions × List (ExtensionRef T)
      → Result ListingError (Descriptions × List (ExtensionRef T))
  unfolding digests_file
  extension_file file (descriptions, extensions) =
      if file.name == "descriptions.yaml"
      then decoded extensions (parsers.decode_descriptions descriptions file.content)
      else if file.name == "image-digests"
      then digests_file file.content (descriptions, extensions)
      else ok (descriptions, extensions)

  unfoldable pub extension_files :
      List TarFile
      → Descriptions × List (ExtensionRef T)
      → Result ListingError (Descriptions × List (ExtensionRef T))
  unfolding extension_file
  extension_files [] found = ok found
  extension_files (file ∷ files) found = extension_file file found >>= extension_files files

  abbrev pub with_description : ExtensionRef T → Option (String × String) → ExtensionRef T
  with_description e none = e
  with_description e (some (author, description)) = record e {
    author = author;
    description = description;
  }

  -- The loop that fills the descriptions in.
  unfoldable pub describe : Descriptions → List (ExtensionRef T) → List (ExtensionRef T)
  describe descriptions extensions =
      map (λ e. with_description e (descriptions e.image_digest)) extensions

  abbrev archive_end : {A : Type 0} → Bool → A → Result ListingError A
  archive_end true found = err broken_archive
  archive_end false found = ok found

  -- `extractExtensionList`, of an archive whose reader fails at its end or does not.
  unfoldable pub extract_extension_list :
      List TarFile → Bool → Result ListingError (List (ExtensionRef T))
  unfolding extension_files describe
  extract_extension_list files fails =
      extension_files files ((λ line. none), []) >>= archive_end fails >>= λ found.
      or_nothing found.1 >>= λ extensions. ok (describe found.0 extensions)

  abbrev add_overlay :
      OverlayDescription
      → Option T
      → List (OverlayRef T)
      → Result ListingError (List (OverlayRef T))
  add_overlay o none overlays = err (broken_tag o.image)
  add_overlay o (some tagged) overlays =
      ok (overlays ++ record { name = o.name; tagged_reference = tagged; digest = o.digest } ∷ [])

  unfoldable pub add_overlays :
      List OverlayDescription → List (OverlayRef T) → Result ListingError (List (OverlayRef T))
  add_overlays [] overlays = ok overlays
  add_overlays (o ∷ os) overlays =
      add_overlay o (parsers.new_tag o.image) overlays >>= add_overlays os

  abbrev add_decoded :
      Option (List OverlayDescription)
      → List (OverlayRef T)
      → Result ListingError (List (OverlayRef T))
  add_decoded none overlays = err broken_yaml
  add_decoded (some os) overlays = add_overlays os overlays

  unfoldable pub overlay_files :
      List TarFile → List (OverlayRef T) → Result ListingError (List (OverlayRef T))
  unfolding add_overlays
  overlay_files [] overlays = ok overlays
  overlay_files (file ∷ files) overlays =
      (if file.name == "overlays.yaml"
        then add_decoded (parsers.decode_overlays file.content) overlays
        else ok overlays)
      >>= overlay_files files

  -- `extractOverlayList`
  unfoldable pub extract_overlay_list :
      List TarFile → Bool → Result ListingError (List (OverlayRef T))
  unfolding overlay_files
  extract_overlay_list files fails = overlay_files files [] >>= archive_end fails >>= or_nothing

-- The rest of a name, with its extension.
abbrev pub split_ext : String → Option String → String × String
split_ext rest none = (rest, "")
split_ext rest (some base) = (base, ".exe")

abbrev pub tuple_of : String → String → List String → Result ListingError TalosctlTuple
tuple_of name ext (os ∷ arch ∷ []) = ok (record { os = os; arch = arch; ext = ext })
tuple_of name ext [] = err (broken_name name)
tuple_of name ext (os ∷ []) = err (broken_name name)
tuple_of name ext (os ∷ arch ∷ more ∷ parts) = err (broken_name name)

-- The file of a binary, by what stands behind `talosctl-`.
unfoldable pub talosctl_tuple : String → String → Result ListingError TalosctlTuple
talosctl_tuple name rest =
    let (base, ext) = split_ext rest (cut_suffix rest ".exe") in tuple_of name ext (split b'-' base)

abbrev cons_tuple : List TalosctlTuple → TalosctlTuple → Result ListingError (List TalosctlTuple)
cons_tuple tuples tuple = ok (tuples ++ tuple ∷ [])

abbrev add_binary :
    String → Option String → List TalosctlTuple → Result ListingError (List TalosctlTuple)
unfolding talosctl_tuple
add_binary name none tuples = ok tuples
add_binary name (some rest) tuples = talosctl_tuple name rest >>= cons_tuple tuples

unfoldable pub talosctl_files :
    List TarFile → List TalosctlTuple → Result ListingError (List TalosctlTuple)
unfolding add_binary
talosctl_files [] tuples = ok tuples
talosctl_files (file ∷ files) tuples =
    add_binary file.name (cut_prefix file.name "talosctl-") tuples >>= talosctl_files files

-- `extractTalosctlTuples`
unfoldable pub extract_talosctl_tuples :
    List TarFile → Bool → Result ListingError (List TalosctlTuple)
unfolding talosctl_files
extract_talosctl_tuples files fails =
    talosctl_files files []
    >>= (λ tuples. if fails then err broken_archive else ok tuples)
    >>= or_nothing
