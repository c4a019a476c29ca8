-- ===== src/Schematics.antt =====
-- pkg/schematic/schematic.go: the customization of an image that a client asks for, its checks and
-- its identifier. YAML and SHA-256 are parameters; a text stands for a slice of bytes.
pub mod Storage
pub mod Registry
pub mod Cache
pub mod Factory
pub mod Service
pub mod Facade
use image_factory.Prelude.{
  ℕ, String, Bool, true, false, not, Option, none, some, List, ℤ, ◌==◌, if◌then◌else◌, ◌>>=◌,
  Result, ok, err,
}

-- A value of the YAML language, for `map[string]any`.
mutual
  pub data Any : Type 0 where
    null : Any
    truth : Bool → Any
    number : ℤ → Any
    text : String → Any
    sequence : AnyList → Any
    mapping : AnyFields → Any

  pub data AnyList : Type 0 where
    no_items : AnyList
    item : Any → AnyList → AnyList

  pub data AnyFields : Type 0 where
    no_fields : AnyFields
    field : String → Any → AnyFields → AnyFields

pub record MetaValue : Type 0 where
  -- a `uint8`
  pub key : ℕ
  pub value : String

pub record Overlay : Type 0 where
  pub image : String
  pub name : String
  pub options : AnyFields

pub record SecureBootCustomization : Type 0 where
  pub enroll_keys : String
  pub include_well_known_certificates : Bool

-- `bootloader` is the number of a constant of another module's enumeration; `system_extensions`
-- and `disk_image` have one field each, `officialExtensions` and `sectorSize`.
pub record Customization : Type 0 where
  pub embedded_machine_configuration : String
  pub extra_kernel_args : List String
  pub meta : List MetaValue
  pub official_extensions : List String
  pub bootloader : ℕ
  pub secure_boot : SecureBootCustomization
  pub sector_size : ℕ

pub record Schematic : Type 0 where
  pub owner : String
  pub overlay : Overlay
  pub customization : Customization

-- The errors of the schematic packages: by their tags, the context's, and any other.
pub data Error : Type 0 where
  invalid : String → Error
  requires_authentication : String → Error
  forbidden : String → Error
  storage_not_found : String → Error
  not_found : Error → Error
  canceled : Error
  failed : String → Error

-- `xerrors.TagIs[storage.ErrNotFoundTag]`, which looks through the tags round an error.
unfoldable pub is_storage_not_found : Error → Bool
is_storage_not_found (storage_not_found message) = true
is_storage_not_found (not_found cause) = is_storage_not_found cause
is_storage_not_found (invalid message) = false
is_storage_not_found (requires_authentication message) = false
is_storage_not_found (forbidden message) = false
is_storage_not_found canceled = false
is_storage_not_found (failed message) = false

-- `errors.Is(err, context.Canceled)`
unfoldable pub is_canceled : Error → Bool
is_canceled canceled = true
is_canceled (not_found cause) = is_canceled cause
is_canceled (storage_not_found message) = false
is_canceled (invalid message) = false
is_canceled (requires_authentication message) = false
is_canceled (forbidden message) = false
is_canceled (failed message) = false

-- `validate`; `none` is a nil error.
unfoldable pub validate_community : Schematic → Option Error
validate_community s =
    if not (s.owner == "")
    then some (invalid "owner field is only supported in Enterprise edition")
    else none

-- `validateEnterprise`
unfoldable pub validate_enterprise : Schematic → Option Error
validate_enterprise s = none

-- `Validate`
unfoldable pub validate : Schematic → Bool → Option Error
unfolding validate_community validate_enterprise
validate s enterprise = if enterprise then validate_enterprise s else validate_community s

-- `yaml.Marshal`, `yaml.Decoder` with known fields, and the hexadecimal form of SHA-256.
pub record Codec : Type 0 where
  pub encode : Schematic → Result Error String
  pub decode : String → Option Schematic
  pub digest : String → String

module _ (codec : Codec) where
  -- `Marshal`
  unfoldable pub marshal : Schematic → Result Error String
  marshal s = codec.encode s

  -- `Unmarshal`
  unfoldable pub unmarshal : String → Result Error Schematic
  unmarshal bytes = elim (codec.decode bytes) [
    | some s ↦ ok s
    | none ↦ err (invalid "malformed schematic")
  ]

  -- `ID`
  unfoldable pub id_of : Schematic → Result Error String
  unfolding marshal
  id_of s = marshal s >>= λ bytes. ok (codec.digest bytes)
