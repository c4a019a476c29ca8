-- ===== src/Tokens/Frontend/Revoking.antt =====
-- What the reply to a revocation says about the registry.
use image_factory.Prelude.{String, ◌≡◌, Option, some}
use image_factory.Tokens.Registry.{Registry}
use image_factory.Tokens.Storage.Revocation.{Revoked}

module _ (org_path_component : String → String) where
  -- The caller's own live record that was found under the ID is replaced by its tombstone.
  abbrev pub HasRevoked : Registry → Option String → String → Registry → Type 0
  HasRevoked reg caller id reg' =
      (org : String) × (caller ≡ some org) × Revoked org_path_component reg org id reg'
