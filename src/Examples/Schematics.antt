-- ===== src/Examples/Schematics.antt =====
-- Runs of the schematic packages over a registry in memory.
use image_factory.Prelude.{
  String, ◌≡◌, refl, sym, ap, inl, inr, true, false, Option, none, some, [], ◌∷◌, arith, eq_iff,
  eq_refl, ◌==◌, if◌then◌else◌, Bool-cases, ok-injective, Result, ok, err,
}
use image_factory.Selector.{is_authenticated, Principal, Session}
use image_factory.Schematics.{
  is_storage_not_found, is_canceled, validate_enterprise, validate, marshal, unmarshal, id_of,
  Schematic, Codec, no_fields, Error, storage_not_found, failed,
}
use image_factory.Schematics.Storage.{IsStorage}
use image_factory.Schematics.Registry.{
  registry, registry_denies, registry-IsStorage, Remote, IsRemote, get as registry_get,
  put as registry_put, head as registry_head,
}
use image_factory.Schematics.Cache.Refinement.{
  cached_content, cached_denies, cached-IsStorage, IsCoherent,
}
use image_factory.Schematics.Cache.Interleaving.{
  at_key, Machine, IsFaithful, reads, records, writes, settles, here, next, Reach,
}
use image_factory.Schematics.Cache.Interleaving.Negatives.{
  IsServed, NotUnderFlight, Reach-AreServed,
}
use image_factory.Schematics.Factory.{
  Joined, judge, put_flight, put_rounds, put, get_flight, get, get_raw, Factory, Reply,
}
use image_factory.Schematics.Cache.{set_entry, record_answer, cached, Cached}
use image_factory.Schematics.Factory.Rounds.{put_rounds_end}
use image_factory.Schematics.Factory.Storing.{
  IsCollisionFree, put-Serves, IsSound, Serves, flown_get,
}
use image_factory.Schematics.Service.{
  principal_from_context, claim_ownership, configuration_of, authorize, create, get_as,
  get as service_get,
}
use image_factory.Schematics.Service.Ownership.{get-owned}
use image_factory.Schematics.Facade.{repository}
use image_factory.Schematics.Facade.Sharing.{Reads, get-create}

abbrev Blobs : Type 0
Blobs = String → Option String

abbrev missing_blob : Error
missing_blob = failed "404"

abbrev push_blob : Blobs → String → String → Blobs
push_blob r id bytes key = if key == id then some bytes else r key

abbrev size_of : Option String → Option Error
size_of none = some missing_blob
size_of (some bytes) = none

abbrev bytes_of : Option String → Result Error String
bytes_of none = err missing_blob
bytes_of (some bytes) = ok bytes

-- A registry that never fails.
abbrev memory : Remote Blobs
memory = record {
  is_hash = λ id. true;
  layer = λ r id. none;
  size = λ r id. size_of (r id);
  compressed = λ r id. size_of (r id);
  read_all = λ r id. bytes_of (r id);
  push = λ r id bytes. (push_blob r id bytes, none);
  is_missing = λ e. true;
}

abbrev contents : Blobs → String → Option String
contents r id = r id

size_of-none : (o : Option String) → size_of o ≡ none → (bytes : String) × (o ≡ some bytes)
size_of-none none h = cc
size_of-none (some bytes) h = (bytes, refl)

bytes_of-ok : (o : Option String) {bytes : String} → bytes_of o ≡ ok bytes → o ≡ some bytes
bytes_of-ok none h = cc
bytes_of-ok (some bytes) h = ap some (ok-injective h)

bytes_of-err : (o : Option String) {e : Error} → bytes_of o ≡ err e → is_storage_not_found e ≡ false
unfolding is_storage_not_found
bytes_of-err none h = ground arith
bytes_of-err (some bytes) h = cc

size_of-some : (o : Option String) {e : Error} → size_of o ≡ some e → is_storage_not_found e ≡ false
unfolding is_storage_not_found
size_of-some none h = ground arith
size_of-some (some bytes) h = cc

size_of_held :
    (o : Option String) {bytes : String} {e : Error}
    → o ≡ some bytes
    → size_of o ≡ some e
    → true ≡ false
size_of_held none held h = cc
size_of_held (some b) held h = cc

memory-IsRemote : IsRemote memory contents
memory-IsRemote = record {
  size_held = λ r id h. let (bytes, held) = size_of-none (r id) h in (bytes, held, refl);
  read_held = λ r id h. bytes_of-ok (r id) h;
  layer_untagged = λ r id h. cc;
  compressed_untagged = λ r id h. size_of-some (r id) h;
  read_untagged = λ r id h. bytes_of-err (r id) h;
  layer_missing = λ r id held h. cc;
  compressed_missing = λ r id held h. size_of_held (r id) held h;
  push_content = λ r id bytes key. elim (Bool-cases (key == id)) [
    | inl same ↦ inr ((eq_iff key id).0 same, rw same refl)
    | inr other ↦ inl (rw other refl)
  ];
  push_stored = λ r id bytes h. (rw (eq_refl id) refl, refl);
}

abbrev AnyBlobs : Blobs → Type 0
AnyBlobs r = Unit {0}

memory-IsStorage : IsStorage (registry memory) contents AnyBlobs (registry_denies memory)
memory-IsStorage = registry-IsStorage memory contents memory-IsRemote

registry-IsStorage_example : IsStorage (registry memory) contents AnyBlobs (registry_denies memory)
registry-IsStorage_example = registry-IsStorage memory contents memory-IsRemote

abbrev CoherentBlobs : Cached Blobs → Type 0
CoherentBlobs =
    IsCoherent (registry memory) contents AnyBlobs (registry_denies memory) memory-IsStorage

cached-IsStorage_example :
    IsStorage
      (cached (registry memory))
      (cached_content (registry memory) contents AnyBlobs (registry_denies memory) memory-IsStorage)
      CoherentBlobs
      (cached_denies (registry memory) contents AnyBlobs (registry_denies memory) memory-IsStorage)
cached-IsStorage_example =
    cached-IsStorage (registry memory) contents AnyBlobs (registry_denies memory) memory-IsStorage

-- A flight that misses "a" is overtaken by a put of "a": its negative answer is not recorded.
abbrev idle : Machine Blobs
idle = record {
  entries = λ id. none;
  underlying = λ id. none;
  reading = λ id. none;
  writing = λ id. none;
  stored = λ id. none;
}

abbrev has_read : Machine Blobs
has_read = record idle {
  underlying = ((registry memory).get idle.underlying "a").0;
  reading = at_key idle.reading "a" (some ((registry memory).get idle.underlying "a").1);
}

abbrev has_written : Machine Blobs
has_written = record has_read {
  underlying = ((registry memory).put has_read.underlying "a" "x").0;
  writing = at_key has_read.writing "a" (some "x");
}

abbrev has_settled : Machine Blobs
has_settled = record has_written {
  entries = set_entry has_written.entries "a" (some "x");
  writing = at_key has_written.writing "a" none;
  stored = at_key has_written.stored "a" (some "x");
}

abbrev has_recorded : Machine Blobs
has_recorded = record has_settled {
  entries = (record_answer has_settled.entries "a" (err (storage_not_found "a"))).0;
  reading = at_key has_settled.reading "a" none;
}

overlap :
    Reach
      (registry memory)
      contents
      AnyBlobs
      (registry_denies memory)
      (NotUnderFlight (registry memory) contents AnyBlobs (registry_denies memory) memory-IsStorage)
      idle
      has_recorded
unfolding registry registry_get registry_put
overlap =
    next
      (next (next (next here (reads idle "a" refl)) (writes has_read "a" "x" (inl refl) refl))
        (settles has_written "a" "x" refl))
      (records has_settled "a" (err (storage_not_found "a")) refl)

idle-IsFaithful : IsFaithful (registry memory) contents AnyBlobs (registry_denies memory) idle
idle-IsFaithful = record {
  valid = tt;
  entry_held = λ id bytes h. cc;
  reading_held = λ id bytes h. cc;
  writing_held = λ id bytes h. cc;
  stored_held = λ id bytes h. cc;
}

Reach-AreServed_example : IsServed (has_recorded.entries "a") (has_recorded.reading "a") "x"
Reach-AreServed_example =
    Reach-AreServed (registry memory) contents AnyBlobs (registry_denies memory) memory-IsStorage
      idle-IsFaithful (λ key bytes h. cc) overlap "a" "x" refl

-- A schematic, its text by its owner, and identifiers that are the texts.
abbrev plain : Schematic
plain = record {
  owner = "";
  overlay = record { image = ""; name = ""; options = no_fields };
  customization = record {
    embedded_machine_configuration = "";
    extra_kernel_args = "console=ttyS0" ∷ [];
    meta = [];
    official_extensions = "siderolabs/gvisor" ∷ [];
    bootloader = 0;
    secure_boot = record { enroll_keys = ""; include_well_known_certificates = false };
    sector_size = 0;
  };
}

abbrev by_owner : Codec
by_owner = record {
  encode = λ cfg. ok cfg.owner;
  decode = λ bytes. some (record plain { owner = bytes });
  digest = λ bytes. bytes;
}

abbrev memory_factory : Factory Blobs
memory_factory = record {
  state = λ id. none;
  metric_get = 0;
  metric_create = 0;
  metric_duplicate = 0;
}

by_owner-IsCollisionFree : IsCollisionFree by_owner
by_owner-IsCollisionFree a b h = h

abbrev SoundFactory : Factory Blobs → Type 0
SoundFactory =
    IsSound by_owner (registry memory) contents AnyBlobs (registry_denies memory) memory-IsStorage
      by_owner-IsCollisionFree

memory_factory-IsSound : SoundFactory memory_factory
memory_factory-IsSound = record { valid = tt; addressed = λ id bytes h. cc }

-- A put that joins a failed read, and then leads.
abbrev failed_read : Joined Blobs
failed_read = get_flight by_owner (registry memory) memory_factory "alice"

abbrev timed_out : Reply
timed_out = record { result = none; error = some (failed "timeout") }

abbrev alice_put : Reply
alice_put = record { result = some (some (record plain { owner = "alice" })); error = none }

put_rounds_end_example :
    (put_rounds by_owner
        (registry memory)
        memory_factory
        "alice"
        (record plain { owner = "alice" })
        (some (memory_factory, timed_out) ∷ [])
      ≡ none)
    × (put_rounds by_owner
          (registry memory)
          memory_factory
          "alice"
          (record plain { owner = "alice" })
          (some (memory_factory, timed_out) ∷ some (memory_factory, alice_put) ∷ [])
        ≡ some (memory_factory, none))
    × (put_rounds by_owner
          (registry memory)
          memory_factory
          "alice"
          (record plain { owner = "alice" })
          (some (memory_factory, timed_out) ∷ none ∷ [])
        ≡ some (
          (put_flight by_owner
              (registry memory)
              memory_factory
              "alice"
              (record plain { owner = "alice" })).0,
          (put_flight by_owner
              (registry memory)
              memory_factory
              "alice"
              (record plain { owner = "alice" })).1.error,
        ))
unfolding is_canceled
put_rounds_end_example =
    put_rounds_end by_owner (registry memory) memory_factory "alice"
      (record plain { owner = "alice" }) ((memory_factory, timed_out) ∷ []) [] memory_factory
      alice_put none ((refl, (failed "timeout", refl, refl)), tt)
      (inl (some (record plain { owner = "alice" }), refl, refl))

abbrev stored_alice : Factory Blobs
stored_alice = record {
  state = push_blob (λ id. none) "alice" "alice";
  metric_get = 0;
  metric_create = 1;
  metric_duplicate = 0;
}

put_alice :
    put by_owner
      (registry memory)
      memory_factory
      (record plain { owner = "alice" })
      (some failed_read ∷ none ∷ [])
    ≡ some (stored_alice, ok "alice")
unfolding put put_rounds put_flight get_flight id_of marshal judge is_canceled registry registry_get
    registry_put registry_head
put_alice = refl

put-Serves_example :
    (bytes : String) × (marshal by_owner (record plain { owner = "alice" }) ≡ ok bytes)
    × (bytes ≡ "alice")
    × Serves by_owner
        (registry memory)
        contents
        AnyBlobs
        (registry_denies memory)
        memory-IsStorage
        by_owner-IsCollisionFree
        stored_alice
        "alice"
        bytes
put-Serves_example =
    put-Serves by_owner (registry memory) contents AnyBlobs (registry_denies memory)
      memory-IsStorage by_owner-IsCollisionFree memory_factory (record plain { owner = "alice" })
      (some failed_read ∷ none ∷ []) {out = stored_alice} {id = "alice"} memory_factory-IsSound
      (flown_get memory_factory memory_factory-IsSound, (tt, tt)) put_alice

abbrev session_of : String → Session
session_of name = record {
  principal = some (record { username = name; credential = 1 });
  username = none;
  claims = none;
  download_token = none;
}

create_alice :
    create
      (repository by_owner (registry memory))
      true
      true
      memory_factory
      (session_of "alice")
      plain
    ≡ (stored_alice, ok "alice")
unfolding create configuration_of claim_ownership principal_from_context is_authenticated validate
    validate_enterprise repository put put_rounds put_flight id_of marshal judge registry
    registry_get registry_put registry_head
create_alice = refl

principal_bob :
    principal_from_context (session_of "bob") ≡ some (record { username = "bob"; credential = 1 })
unfolding principal_from_context is_authenticated
principal_bob = refl

get-create_example :
    (p : Principal) × (principal_from_context (session_of "alice") ≡ some p)
    × Reads p
        (record { username = "bob"; credential = 1 })
        plain
        (service_get
          (repository by_owner (registry memory))
          true
          true
          stored_alice
          (session_of "bob")
          "alice").1
get-create_example =
    get-create by_owner (registry memory) contents AnyBlobs (registry_denies memory)
      memory-IsStorage by_owner-IsCollisionFree true memory_factory (session_of "alice") plain
      (session_of "bob") (record { username = "bob"; credential = 1 }) {out = stored_alice}
      {id = "alice"}
      (λ p bytes h. ap (λ b. some (record plain { owner = b })) (sym (ok-injective h)))
      memory_factory-IsSound create_alice principal_bob

get_alice :
    (service_get
      (repository by_owner (registry memory))
      true
      true
      stored_alice
      (session_of "alice")
      "alice").1
    ≡ ok (record plain { owner = "alice" })
unfolding service_get get_as authorize repository get_raw get get_flight unmarshal
    principal_from_context is_authenticated registry registry_get registry_put registry_head
get_alice = refl

get-owned_example :
    (p : Principal) × (principal_from_context (session_of "alice") ≡ some p)
    × (((repository by_owner (registry memory)).get_raw stored_alice "alice").1
        ≡ ok (record plain { owner = "alice" }))
    × ("alice" ≡ p.username)
get-owned_example =
    get-owned (repository by_owner (registry memory)) true stored_alice (session_of "alice") "alice"
      get_alice
