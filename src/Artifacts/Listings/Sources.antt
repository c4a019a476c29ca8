-- ===== src/Artifacts/Listings/Sources.antt =====
-- internal/artifacts/versions.go: where what is listed comes from.
use image_factory.Prelude.{
  String, ◌≡◌, refl, sym, ap, ◌∙◌, subst, inl, inr, Bool, true, false, Option, none, some, List, [],
  ◌∷◌, eq_iff, ◌==◌, Bool-cases, is_empty, Among, All, All-append, ◌>>=◌, ok-injective, >>=-eq-ok,
  ok,
}
use image_factory.Strings.{cut, trim_space}
use image_factory.Artifacts.Listings.{
  Descriptions, or_nothing, add_line, add_lines, digests_file, extension_file, extension_files,
  with_description, describe, extract_extension_list, TarFile, ExtensionRef, Parsers, scanned,
  decoded, archive_end, add_tagged, add_cut,
}

module _ {T : Type 0} (parsers : Parsers T) where
  -- A line of a file of digests in the archive, without the space around it.
  abbrev pub IsLine : List TarFile → String → Type 0
  IsLine files line =
      (file : TarFile) × Among file files
      × (file.name ≡ "image-digests")
      × ((text : String) × Among text (parsers.scan file.content).0 × (line ≡ trim_space text))

  -- The line of an extension stands in the archive; it is its tag, a sign and its digest, and the
  -- reference is its tag's.
  abbrev pub IsTagged : List TarFile → ExtensionRef T → Type 0
  IsTagged files e =
      IsLine files e.image_digest
      × ((tag : String) × (cut e.image_digest "@" ≡ some (tag, e.digest))
          × (parsers.new_tag tag ≡ some e.tagged_reference))

  module _ (all_files : List TarFile) where
    add_cut-IsTagged :
        (line : String) (parts : Option (String × String)) (extensions : List (ExtensionRef T))
        {out : List (ExtensionRef T)}
        → IsLine all_files line
        → cut line "@" ≡ parts
        → All (IsTagged all_files) extensions
        → add_cut parsers line parts extensions ≡ ok out
        → All (IsTagged all_files) out
    add_cut-IsTagged line none extensions at_line e h r =
        subst (All (IsTagged all_files)) (ok-injective r) h
    add_cut-IsTagged line (some (tag, digest)) extensions {out} at_line e h r =
        by_tag (parsers.new_tag tag) refl r
      where
        by_tag :
            (parsed : Option T)
            → parsers.new_tag tag ≡ parsed
            → add_tagged parsers line digest parsed extensions ≡ ok out
            → All (IsTagged all_files) out
        by_tag none p k = cc
        by_tag (some t) p k =
            subst (All (IsTagged all_files)) (ok-injective k)
              (All-append (IsTagged all_files) extensions _ h ((at_line, (tag, e, p)), tt))

    add_lines-IsTagged :
        (file : TarFile) (texts : List String) (extensions : List (ExtensionRef T))
        {out : List (ExtensionRef T)}
        → Among file all_files
        → file.name ≡ "image-digests"
        → ((text : String) → Among text texts → Among text (parsers.scan file.content).0)
        → All (IsTagged all_files) extensions
        → add_lines parsers texts extensions ≡ ok out
        → All (IsTagged all_files) out
    unfolding add_lines add_line
    add_lines-IsTagged file [] extensions there named inside h r =
        subst (All (IsTagged all_files)) (ok-injective r) h
    add_lines-IsTagged file (text ∷ texts) extensions {out} there named inside h r =
        let (more, first, rest) =
          >>=-eq-ok (add_line parsers text extensions) (add_lines parsers texts) r in
        add_lines-IsTagged file texts more {out = out} there named
          (λ line among. inside line (inr among))
          (add_cut-IsTagged (trim_space text) (cut (trim_space text) "@") extensions {out = more}
            (file, there, named, (text, inside text (inl refl), refl)) refl h first)
          rest

    scanned-ok :
        (fails : Bool) (more : List (ExtensionRef T)) {out : List (ExtensionRef T)}
        → scanned parsers fails more ≡ ok out
        → more ≡ out
    scanned-ok true more h = cc
    scanned-ok false more h = ok-injective h

    digests_file-IsTagged :
        (file : TarFile) (found : Descriptions × List (ExtensionRef T))
        {out : Descriptions × List (ExtensionRef T)}
        → Among file all_files
        → file.name ≡ "image-digests"
        → All (IsTagged all_files) found.1
        → digests_file parsers file.content found ≡ ok out
        → All (IsTagged all_files) out.1
    unfolding digests_file
    digests_file-IsTagged file (descriptions, extensions) {out} there named h r =
        let (more, scans, ends) =
          >>=-eq-ok
            (add_lines parsers (parsers.scan file.content).0 extensions
              >>= scanned parsers (parsers.scan file.content).1)
            _ r in
        let (added, adds, scan) =
          >>=-eq-ok (add_lines parsers (parsers.scan file.content).0 extensions)
            (scanned parsers (parsers.scan file.content).1) scans in
        subst (All (IsTagged all_files))
          (scanned-ok (parsers.scan file.content).1 added scan
            ∙ ap (λ (x : Descriptions × List (ExtensionRef T)). x.1) (ok-injective ends))
          (add_lines-IsTagged file (parsers.scan file.content).0 extensions {out = added} there
            named (λ text among. among) h adds)

    decoded-IsTagged :
        (extensions : List (ExtensionRef T)) (descriptions : Option Descriptions)
        {out : Descriptions × List (ExtensionRef T)}
        → All (IsTagged all_files) extensions
        → decoded parsers extensions descriptions ≡ ok out
        → All (IsTagged all_files) out.1
    decoded-IsTagged extensions none h r = cc
    decoded-IsTagged extensions (some d) h r =
        subst (λ x. All (IsTagged all_files) x.1) (ok-injective r) h

    extension_file-IsTagged :
        (file : TarFile) (found : Descriptions × List (ExtensionRef T))
        {out : Descriptions × List (ExtensionRef T)}
        → Among file all_files
        → All (IsTagged all_files) found.1
        → extension_file parsers file found ≡ ok out
        → All (IsTagged all_files) out.1
    unfolding extension_file
    extension_file-IsTagged file (descriptions, extensions) {out} there h r =
        elim (Bool-cases (file.name == "descriptions.yaml")) [
          | inl here ↦ decoded-IsTagged extensions _ {out = out} h (rw here at r)
          | inr other ↦ elim (Bool-cases (file.name == "image-digests")) [
            | inl here ↦
                digests_file-IsTagged file (descriptions, extensions) {out = out} there
                  ((eq_iff file.name "image-digests").0 here) h (rw (other, here) at r)
            | inr neither ↦
                subst (λ x. All (IsTagged all_files) x.1) (ok-injective (rw (other, neither) at r))
                  h
          ]
        ]

    extension_files-IsTagged :
        (files : List TarFile) (found : Descriptions × List (ExtensionRef T))
        {out : Descriptions × List (ExtensionRef T)}
        → ((file : TarFile) → Among file files → Among file all_files)
        → All (IsTagged all_files) found.1
        → extension_files parsers files found ≡ ok out
        → All (IsTagged all_files) out.1
    unfolding extension_files
    extension_files-IsTagged [] found inside h r =
        subst (λ x. All (IsTagged all_files) x.1) (ok-injective r) h
    extension_files-IsTagged (file ∷ files) found {out} inside h r =
        let (more, first, rest) =
          >>=-eq-ok (extension_file parsers file found) (extension_files parsers files) r in
        extension_files-IsTagged files more {out = out} (λ other among. inside other (inr among))
          (extension_file-IsTagged file found {out = more} (inside file (inl refl)) h first) rest

    with_description-IsTagged :
        (e : ExtensionRef T) (d : Option (String × String))
        → IsTagged all_files e
        → IsTagged all_files (with_description parsers e d)
    with_description-IsTagged e none h = h
    with_description-IsTagged e (some (author, description)) h = h

    describe-IsTagged :
        (descriptions : Descriptions) (extensions : List (ExtensionRef T))
        → All (IsTagged all_files) extensions
        → All (IsTagged all_files) (describe parsers descriptions extensions)
    unfolding describe
    describe-IsTagged descriptions [] h = tt
    describe-IsTagged descriptions (e ∷ es) (he, h) = (
      with_description-IsTagged e (descriptions e.image_digest) he,
      describe-IsTagged descriptions es h,
    )

  archive_end-ok :
      {A : Type 0} (fails : Bool) (found : A) {out : A}
      → archive_end parsers fails found ≡ ok out
      → found ≡ out
  archive_end-ok true found h = cc
  archive_end-ok false found h = ok-injective h

  or_nothing-ok :
      {A : Type 0} (xs : List A) {out : List A}
      → or_nothing xs ≡ ok out
      → (xs ≡ out) × (is_empty out ≡ false)
  or_nothing-ok [] h = cc
  or_nothing-ok (x ∷ xs) h = (ok-injective h, ap is_empty (sym (ok-injective h)))

  is_empty-describe :
      (descriptions : Descriptions) (es : List (ExtensionRef T))
      → is_empty (describe parsers descriptions es) ≡ is_empty es
  unfolding describe
  is_empty-describe descriptions [] = refl
  is_empty-describe descriptions (e ∷ es) = refl

  -- The extensions that are extracted stand in the lines of the archive's files of digests, each under
  -- the reference and the digest of its line, whatever the descriptions say; and there is at least one.
  pub extract_extension_list-IsTagged :
      (files : List TarFile) (fails : Bool) {out : List (ExtensionRef T)}
      → extract_extension_list parsers files fails ≡ ok out
      → All (IsTagged files) out × (is_empty out ≡ false)
  unfolding extract_extension_list
  extract_extension_list-IsTagged files fails {out} r =
      let start : Descriptions × List (ExtensionRef T) = ((λ line. none), []) in
      let (found, reads, ends) =
        >>=-eq-ok (extension_files parsers files start >>= archive_end parsers fails) _ r in
      let (every, all_read, ended) =
        >>=-eq-ok (extension_files parsers files start) (archive_end parsers fails) reads in
      let (some_found, nonempty, described) = >>=-eq-ok (or_nothing found.1) _ ends in
      let (same, full) = or_nothing-ok found.1 nonempty in
      let tagged =
        subst (λ x. All (IsTagged files) x.1) (archive_end-ok fails every ended)
          (extension_files-IsTagged files files start {out = every} (λ file among. among) tt
            all_read) in
      (
        subst (All (IsTagged files)) (ok-injective described)
            (describe-IsTagged files found.0 some_found (subst (All (IsTagged files)) same tagged)),
        ap is_empty (sym (ok-injective described)) ∙ is_empty-describe found.0 some_found ∙ full,
      )
