-- ===== src/Schematics/Storage.antt =====
-- internal/schematic/storage/storage.go: the interface of a storage of schematics, over the type of
-- its states, and what it promises.
use image_factory.Prelude.{String, ◌≡◌, ◌⊎◌, Bool, false, Option, none, some, Result, ok, err}
use image_factory.Schematics.{is_storage_not_found, Error}

-- `none` is a nil error. The factory calls it with contexts that never end.
pub record Storage (S : Type 0) : Type 0 where
  pub head : S → String → S × Option Error
  pub get : S → String → S × Result Error String
  pub put : S → String → String → S × Option Error

-- The contract. `content` is what a state holds under an identifier, `Valid` an invariant, and
-- `Denies` says of which identifiers a state answers that they are missing without looking.
pub record IsStorage {S : Type 0} (storage : Storage S) (content : S → String → Option String)
    (Valid : S → Type 0) (denies : S → String → Bool) : Type 0 where
  pub head_keeps : (s : S) (id : String) → Valid s → Valid (storage.head s id).0
  pub head_content : (s : S) (id key : String) → content (storage.head s id).0 key ≡ content s key
  pub head_found :
      (s : S) (id : String)
      → Valid s
      → (storage.head s id).1 ≡ none
      → (bytes : String) × (content s id ≡ some bytes) × (denies (storage.head s id).0 id ≡ false)
  pub get_keeps : (s : S) (id : String) → Valid s → Valid (storage.get s id).0
  pub get_content : (s : S) (id key : String) → content (storage.get s id).0 key ≡ content s key
  pub get_found :
      (s : S) (id : String) {bytes : String}
      → Valid s
      → (storage.get s id).1 ≡ ok bytes
      → (content s id ≡ some bytes) × (denies (storage.get s id).0 id ≡ false)
  pub get_held :
      (s : S) (id : String) {bytes : String} {e : Error}
      → Valid s
      → content s id ≡ some bytes
      → denies s id ≡ false
      → (storage.get s id).1 ≡ err e
      → is_storage_not_found e ≡ false
  pub put_keeps :
      (s : S) (id bytes : String)
      → Valid s
      → (content s id ≡ none) ⊎ (content s id ≡ some bytes)
      → Valid (storage.put s id bytes).0
  pub put_content :
      (s : S) (id bytes key : String)
      → (content (storage.put s id bytes).0 key ≡ content s key)
        ⊎ ((key ≡ id) × (content (storage.put s id bytes).0 key ≡ some bytes))
  pub put_stored :
      (s : S) (id bytes : String)
      → (storage.put s id bytes).1 ≡ none
      → (content (storage.put s id bytes).0 id ≡ some bytes)
        × (denies (storage.put s id bytes).0 id ≡ false)
  pub head_serves :
      (s : S) (id key : String) {bytes : String}
      → Valid s
      → content s key ≡ some bytes
      → denies s key ≡ false
      → denies (storage.head s id).0 key ≡ false
  pub get_serves :
      (s : S) (id key : String) {bytes : String}
      → Valid s
      → content s key ≡ some bytes
      → denies s key ≡ false
      → denies (storage.get s id).0 key ≡ false
  pub put_serves :
      (s : S) (id bytes key : String)
      → denies s key ≡ false
      → denies (storage.put s id bytes).0 key ≡ false
