-- ===== src/Schematics/Cache.antt =====
-- internal/schematic/storage/cache/cache.go: the cache in memory in front of a storage. The table
-- `ttlcache` is a function from identifiers to the entries that are there and not expired.
pub mod Entries
pub mod Refinement
pub mod Interleaving
use image_factory.Prelude.{String, Option, none, some, ◌==◌, if◌then◌else◌, Result, ok, err}
use image_factory.Schematics.{is_storage_not_found, Error, storage_not_found}
use image_factory.Schematics.Storage.{Storage}

-- An entry, present or negative.
abbrev pub Entries : Type 0
Entries = String → Option (Option String)

-- `ttlcache`'s `Set`.
unfoldable pub set_entry : Entries → String → Option String → Entries
set_entry entries id value key = if key == id then some value else entries key

-- The value of an entry that is there, and the other value if none is.
abbrev pub entry_or : Option String → Option (Option String) → Option String
entry_or value none = value
entry_or value (some present) = present

-- `ttlcache`'s `GetOrSet`: an entry that is there stays.
unfoldable pub get_or_set : Entries → String → Option String → Entries × Option String
unfolding set_entry
get_or_set entries id value =
    (set_entry entries id (entry_or value (entries id)), entry_or value (entries id))

abbrev pub value_or : Option String → String → String
value_or (some bytes) other = bytes
value_or none other = other

-- The reply that an entry gives at once.
unfoldable pub reply_of : String → Option String → Result Error String
reply_of id (some bytes) = ok bytes
reply_of id none = err (storage_not_found id)

-- What the flight of a `Get` does with the answer of the storage below.
unfoldable pub record_answer :
    Entries → String → Result Error String → Entries × Result Error String
unfolding get_or_set
record_answer entries id (ok bytes) =
    let (entries', value) = get_or_set entries id (some bytes) in
    (entries', ok (value_or value bytes))
record_answer entries id (err e) =
    if is_storage_not_found e then ((get_or_set entries id none).0, err e) else (entries, err e)

pub record Cached (S : Type 0) : Type 0 where
  pub entries : Entries
  pub underlying : S

-- How the wait for a flight ends: by its answer, or by the context of the caller (`ctx.Done`).
abbrev pub awaited : {A : Type 0} → Option Error → Result Error A → Result Error A
awaited none answer = answer
awaited (some e) answer = err e

-- `err` of `_, err := ...`
abbrev pub error_of : {A : Type 0} → Result Error A → Option Error
error_of (ok a) = none
error_of (err e) = some e

module _ {S : Type 0} (below : Storage S) where
  -- The flight, from the storage below to the table.
  unfoldable pub fly : Cached S → String → Cached S × Result Error String
  unfolding record_answer
  fly c id =
      let (s, answer) = below.get c.underlying id in
      let (entries', reply) = record_answer c.entries id answer in
      (record { entries = entries'; underlying = s }, reply)

  abbrev pub get_entry :
      Option Error → Cached S → String → Option (Option String) → Cached S × Result Error String
  get_entry ended c id (some value) = (c, reply_of id value)
  get_entry ended c id none = ((fly c id).0, awaited ended (fly c id).1)

  -- `Get`
  unfoldable pub get : Option Error → Cached S → String → Cached S × Result Error String
  unfolding fly reply_of
  get ended c id = get_entry ended c id (c.entries id)

  abbrev pub head_entry :
      Option Error → Cached S → String → Option (Option String) → Cached S × Option Error
  head_entry ended c id (some value) = (c, error_of (reply_of id value))
  head_entry ended c id none = let (c', reply) = get ended c id in (c', error_of reply)

  -- `Head`
  unfoldable pub head : Option Error → Cached S → String → Cached S × Option Error
  unfolding get
  head ended c id = head_entry ended c id (c.entries id)

  abbrev pub settle_put : Entries → String → String → S × Option Error → Cached S × Option Error
  settle_put entries id bytes (s, some e) = (record { entries = entries; underlying = s }, some e)
  settle_put entries id bytes (s, none) =
      (record { entries = set_entry entries id (some bytes); underlying = s }, none)

  -- `Put`
  unfoldable pub put : Cached S → String → String → Cached S × Option Error
  unfolding set_entry
  put c id bytes = settle_put c.entries id bytes (below.put c.underlying id bytes)

  -- The cache is a storage.
  unfoldable pub cached : Storage (Cached S)
  unfolding head get put
  cached = record { head = head none; get = get none; put = put }
