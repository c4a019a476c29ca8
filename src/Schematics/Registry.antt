-- ===== src/Schematics/Registry.antt =====
-- internal/schematic/storage/registry/registry.go: schematics as blobs of an OCI registry.
use image_factory.Prelude.{
  String, ◌≡◌, refl, ap, ◌⊎◌, Bool, true, false, not, Option, none, some, arith, if◌then◌else◌,
  unless-eq-ok, Result, ok, err,
}
use image_factory.Schematics.{is_storage_not_found, Error, storage_not_found}
use image_factory.Schematics.Storage.{Storage, IsStorage}

-- What the program calls of go-containerregistry, over the states of the registry: the test of
-- `NewHash`; for the digest of an identifier, the errors of `Puller.Layer`, of the layer's `Size`
-- and `Compressed`, and what `ReadAll` yields; `Pusher.Push` of an image with one layer; and
-- `IsStatusCodeError(err, 404)`.
pub record Remote (R : Type 0) : Type 0 where
  pub is_hash : String → Bool
  pub layer : R → String → Option Error
  pub size : R → String → Option Error
  pub compressed : R → String → Option Error
  pub read_all : R → String → Result Error String
  pub push : R → String → String → R × Option Error
  pub is_missing : Error → Bool

-- A registry keeps the blobs that it has accepted, and accepts them under a valid digest only. Its
-- errors bear no tag of this program, and it has a 404 for what it does not hold only.
pub record IsRemote {R : Type 0} (remote : Remote R) (blobs : R → String → Option String)
    : Type 0 where
  pub size_held :
      (r : R) (id : String)
      → remote.size r id ≡ none
      → (bytes : String) × (blobs r id ≡ some bytes) × (remote.is_hash id ≡ true)
  pub read_held :
      (r : R) (id : String) {bytes : String}
      → remote.read_all r id ≡ ok bytes
      → blobs r id ≡ some bytes
  pub layer_untagged :
      (r : R) (id : String) {e : Error}
      → remote.layer r id ≡ some e
      → is_storage_not_found e ≡ false
  pub compressed_untagged :
      (r : R) (id : String) {e : Error}
      → remote.compressed r id ≡ some e
      → is_storage_not_found e ≡ false
  pub read_untagged :
      (r : R) (id : String) {e : Error}
      → remote.read_all r id ≡ err e
      → is_storage_not_found e ≡ false
  pub layer_missing :
      (r : R) (id : String) {e : Error} {bytes : String}
      → blobs r id ≡ some bytes
      → remote.layer r id ≡ some e
      → remote.is_missing e ≡ false
  pub compressed_missing :
      (r : R) (id : String) {e : Error} {bytes : String}
      → blobs r id ≡ some bytes
      → remote.compressed r id ≡ some e
      → remote.is_missing e ≡ false
  pub push_content :
      (r : R) (id bytes key : String)
      → (blobs (remote.push r id bytes).0 key ≡ blobs r key)
        ⊎ ((key ≡ id) × (blobs (remote.push r id bytes).0 key ≡ some bytes))
  pub push_stored :
      (r : R) (id bytes : String)
      → (remote.push r id bytes).1 ≡ none
      → (blobs (remote.push r id bytes).0 id ≡ some bytes) × (remote.is_hash id ≡ true)

unless-none :
    (b : Bool) (e : Error) {rest : Option Error}
    → ◌≡◌ {A = Option Error} (if b then some e else rest) none
    → rest ≡ none
unless-none true e h = cc
unless-none false e h = h

module _ {R : Type 0} (remote : Remote R) where
  abbrev not_found_or : String → Error → Error
  not_found_or id e = if remote.is_missing e then storage_not_found id else e

  abbrev sized : String → Option Error → Option Error
  sized id none = none
  sized id (some e) = some (not_found_or id e)

  abbrev sized_layer : R → String → Option Error → Option Error
  sized_layer r id (some e) = some e
  sized_layer r id none = sized id (remote.size r id)

  -- `Head`
  unfoldable pub head : R → String → R × Option Error
  head r id = (
    r,
    if not (remote.is_hash id)
        then some (storage_not_found id)
        else sized_layer r id (remote.layer r id),
  )

  abbrev read_compressed : R → String → Option Error → Result Error String
  read_compressed r id (some e) = err (not_found_or id e)
  read_compressed r id none = remote.read_all r id

  abbrev pull_layer : R → String → Option Error → Result Error String
  pull_layer r id (some e) = err (not_found_or id e)
  pull_layer r id none = read_compressed r id (remote.compressed r id)

  -- `Get`
  unfoldable pub get : R → String → R × Result Error String
  get r id = (
    r,
    if not (remote.is_hash id)
        then err (storage_not_found id)
        else pull_layer r id (remote.layer r id),
  )

  -- `Put`, whose image has the text as its one layer.
  unfoldable pub put : R → String → String → R × Option Error
  put r id bytes = remote.push r id bytes

  unfoldable pub registry : Storage R
  unfolding head get put
  registry = record { head = head; get = get; put = put }

  -- What is no digest is denied.
  abbrev pub registry_denies : R → String → Bool
  registry_denies r id = not (remote.is_hash id)

  module _ (blobs : R → String → Option String) (is : IsRemote remote blobs) where
    sized_layer_held :
        (r : R) (id : String) (layer : Option Error)
        → sized_layer r id layer ≡ none
        → (bytes : String) × (blobs r id ≡ some bytes) × (registry_denies r id ≡ false)
    sized_layer_held r id (some e) h = cc
    sized_layer_held r id none h = by_size (remote.size r id) refl h
      where
        by_size :
            (size : Option Error)
            → remote.size r id ≡ size
            → sized id size ≡ none
            → (bytes : String) × (blobs r id ≡ some bytes) × (registry_denies r id ≡ false)
        by_size (some e) q k = cc
        by_size none q k = let (b, held, hash) = is.size_held r id q in (b, held, ap not hash)

    pull_layer_held :
        (r : R) (id : String) (layer : Option Error) {bytes : String}
        → pull_layer r id layer ≡ ok bytes
        → blobs r id ≡ some bytes
    pull_layer_held r id (some e) h = cc
    pull_layer_held r id none {bytes} h = by_compressed (remote.compressed r id) h
      where
        by_compressed :
            (compressed : Option Error)
            → read_compressed r id compressed ≡ ok bytes
            → blobs r id ≡ some bytes
        by_compressed (some e) k = cc
        by_compressed none k = is.read_held r id k

    pull_layer_err :
        (r : R) (id : String) (layer : Option Error) {bytes : String} {e : Error}
        → remote.layer r id ≡ layer
        → blobs r id ≡ some bytes
        → pull_layer r id layer ≡ err e
        → is_storage_not_found e ≡ false
    pull_layer_err r id (some x) q held h =
        ground (arith, is.layer_missing r id held q, is.layer_untagged r id q)
    pull_layer_err r id none {bytes} {e} q held h = by_compressed (remote.compressed r id) refl h
      where
        by_compressed :
            (compressed : Option Error)
            → remote.compressed r id ≡ compressed
            → read_compressed r id compressed ≡ err e
            → is_storage_not_found e ≡ false
        by_compressed (some x) p k =
            ground (arith, is.compressed_missing r id held p, is.compressed_untagged r id p)
        by_compressed none p k = is.read_untagged r id k

    -- The registry keeps the contract of a storage.
    pub registry-IsStorage : IsStorage registry blobs (λ r. Unit {0}) registry_denies
    unfolding registry
    registry-IsStorage = record {
      head_keeps = λ r id h. tt;
      head_content = λ r id key. refl;
      head_found = λ r id h k.
          sized_layer_held r id (remote.layer r id) (unless-none (not (remote.is_hash id)) _ k);
      get_keeps = λ r id h. tt;
      get_content = λ r id key. refl;
      get_found = λ r id h k.
          let (hash, e) = unless-eq-ok (not (remote.is_hash id)) _ _ k in
          (pull_layer_held r id (remote.layer r id) e, hash);
      get_held =
          λ r id h held hash k. pull_layer_err r id (remote.layer r id) refl held (rw hash at k);
      put_keeps = λ r id bytes h fits. tt;
      put_content = is.push_content;
      put_stored =
          λ r id bytes k. let (held, hash) = is.push_stored r id bytes k in (held, ap not hash);
      head_serves = λ r id key h held d. d;
      get_serves = λ r id key h held d. d;
      put_serves = λ r id bytes key d. d;
    }
