-- ===== src/ImageProfile/Sidecars.antt =====
-- internal/profile/artifact_path.go: the checksum or signature that a path asks for.
use image_factory.Prelude.{ℕ, String, Bool, ◌||◌, Option, none, some, List, [], ◌∷◌, ◌==◌}
use image_factory.Strings.{cut_suffix}
use image_factory.ImageProfile.{parse_from_path, Profile, OutFormat, DiskFormat}

-- `ArtifactSidecar`
abbrev pub sidecars : List String
sidecars = ".sigstore.json" ∷ ".sha512" ∷ ".sha256" ∷ []

abbrev pub or_sidecar : String → Option String → String × String → String × String
or_sidecar sidecar (some base) next = (base, sidecar)
or_sidecar sidecar none next = next

-- The loop of `SplitArtifactPath`.
unfoldable pub cut_sidecar : List String → String → String × String
cut_sidecar [] path = (path, "")
cut_sidecar (sidecar ∷ rest) path =
    let next = cut_sidecar rest path in or_sidecar sidecar (cut_suffix path sidecar) next

-- `SplitArtifactPath`
unfoldable pub split_artifact_path : String → String × String
split_artifact_path path = cut_sidecar sidecars path

-- `IsChecksum`
unfoldable pub is_checksum : String → Bool
is_checksum sidecar = sidecar == ".sha256" || sidecar == ".sha512"

module _ (metal : String) (out_text : OutFormat → String) (disk_text : DiskFormat → String)
    (raw_disk_size : ℕ) (defaults : String → Option (ℕ × String)) where
  -- `ParseArtifactPath`
  unfoldable pub parse_artifact_path : String → Option Profile
  parse_artifact_path path =
      parse_from_path metal out_text disk_text raw_disk_size defaults (split_artifact_path path).0
