-- ===== src/Schematics/Factory.antt =====
-- internal/schematic/schematic.go: the factory of schematics. Calls for one identifier share a
-- flight (`singleflight`): a call leads a flight, or joins one that another call leads.
pub mod Rounds
pub mod Storing
use image_factory.Prelude.{
  ℕ, ◌+◌, String, Option, none, some, List, [], ◌∷◌, if◌then◌else◌, Result, ok, err,
}
use image_factory.Schematics.{
  is_storage_not_found, is_canceled, marshal, unmarshal, id_of, Schematic, Codec, Error, not_found,
  failed,
}
use image_factory.Schematics.Storage.{Storage}

-- The state of the storage, and the counters.
pub record Factory (S : Type 0) : Type 0 where
  pub state : S
  pub metric_get : ℕ
  pub metric_create : ℕ
  pub metric_duplicate : ℕ

-- The two results of a flight. `none` is the nil interface, `some none` a nil pointer to a schematic.
pub record Reply : Type 0 where
  pub result : Option (Option Schematic)
  pub error : Option Error

abbrev pub Joined : Type 0 → Type 0
Joined S = Factory S × Reply

-- How a round of the loop of `put` ends: with its error, or by another round.
pub data Round : Type 0 where
  returns : Option Error → Round
  again : Round

abbrev again_unless_canceled : Error → Round
again_unless_canceled e = if is_canceled e then returns (some e) else again

-- The tests on the results of a flight, whose values are schematics.
unfoldable pub judge : Option (Option Schematic) → Option Error → Round
judge none none = returns (some (failed "unexpected singleflight result type"))
judge none (some e) = again_unless_canceled e
judge (some s) error = returns error

module _ (codec : Codec) {S : Type 0} (storage : Storage S) where
  abbrev stored : Factory S → Schematic → S × Option Error → Joined S
  stored f cfg (s, some e) =
      (record f { state = s }, record { result = some (some cfg); error = some e })
  stored f cfg (s, none) = (
    record f { state = s; metric_create = f.metric_create + 1 },
    record { result = some (some cfg); error = none },
  )

  abbrev write_marshalled : Factory S → String → Schematic → Result Error String → Joined S
  write_marshalled f id cfg (err e) = (f, record { result = some (some cfg); error = some e })
  write_marshalled f id cfg (ok bytes) = stored f cfg (storage.put f.state id bytes)

  abbrev write_unless : Factory S → String → Schematic → S × Option Error → Joined S
  write_unless f id cfg (s, none) = (
    record f { state = s; metric_duplicate = f.metric_duplicate + 1 },
    record { result = some (some cfg); error = none },
  )
  write_unless f id cfg (s, some e) =
      write_marshalled (record f { state = s }) id cfg (marshal codec cfg)

  -- The flight that a `put` leads.
  unfoldable pub put_flight : Factory S → String → Schematic → Joined S
  unfolding marshal
  put_flight f id cfg = write_unless f id cfg (storage.head f.state id)

  abbrev pub next_round :
      Factory S → Option (Factory S × Option Error) → Round → Option (Factory S × Option Error)
  next_round f rest (returns e) = some (f, e)
  next_round f rest again = rest

  -- The loop of `put`, over its rounds: in each the call joins a flight, or leads one (`none`). No
  -- bound on the rounds is in the source: the list is what has happened so far, and without a result
  -- the loop goes on behind it.
  unfoldable pub put_rounds :
      Factory S → String → Schematic → List (Option (Joined S)) → Option (Factory S × Option Error)
  unfolding put_flight judge
  put_rounds f id cfg [] = none
  put_rounds f id cfg (none ∷ rounds) =
      let (f', reply) = put_flight f id cfg in
      next_round f' (put_rounds f' id cfg rounds) (judge reply.result reply.error)
  put_rounds f id cfg (some (f', reply) ∷ rounds) =
      next_round f' (put_rounds f' id cfg rounds) (judge reply.result reply.error)

  abbrev put_identified :
      Factory S
      → Schematic
      → List (Option (Joined S))
      → Result Error String
      → Option (Factory S × Result Error String)
  put_identified f cfg rounds (err e) = some (f, err e)
  put_identified f cfg rounds (ok id) = elim (put_rounds f id cfg rounds) [
    | none ↦ none
    | some (f', some e) ↦ some (f', err e)
    | some (f', none) ↦ some (f', ok id)
  ]

  -- `Put`; the identifier that stands beside an error is left out.
  unfoldable pub put :
      Factory S → Schematic → List (Option (Joined S)) → Option (Factory S × Result Error String)
  unfolding put_rounds id_of
  put f cfg rounds = put_identified f cfg rounds (id_of codec cfg)

  -- The results of `Unmarshal`, whose pointer is never the nil interface.
  abbrev unmarshalled : Result Error Schematic → Reply
  unmarshalled (ok s) = record { result = some (some s); error = none }
  unmarshalled (err e) = record { result = some none; error = some e }

  abbrev read_state : Factory S → S × Result Error String → Joined S
  read_state f (s, err e) = (record f { state = s }, record { result = none; error = some e })
  read_state f (s, ok bytes) =
      (record f { state = s; metric_get = f.metric_get + 1 }, unmarshalled (unmarshal codec bytes))

  -- The flight that a `get` leads.
  unfoldable pub get_flight : Factory S → String → Joined S
  unfolding unmarshal
  get_flight f id = read_state f (storage.get f.state id)

  abbrev pub pointed : Option (Option Schematic) → Option Error → Result Error (Option Schematic)
  pointed result (some e) = err e
  pointed none none = err (failed "unexpected singleflight result type")
  pointed (some pointer) none = ok pointer

  -- `get`, which may join a flight. The value is a pointer.
  unfoldable pub get :
      Factory S → String → Option (Joined S) → Factory S × Result Error (Option Schematic)
  unfolding get_flight
  get f id (some (f', reply)) = (f', pointed reply.result reply.error)
  get f id none = let (f', reply) = get_flight f id in (f', pointed reply.result reply.error)

  abbrev pub tagged : Result Error (Option Schematic) → Result Error (Option Schematic)
  tagged (ok pointer) = ok pointer
  tagged (err e) = err (if is_storage_not_found e then not_found e else e)

  -- `GetRaw`
  unfoldable pub get_raw :
      Factory S → String → Option (Joined S) → Factory S × Result Error (Option Schematic)
  unfolding get
  get_raw f id join = let (f', r) = get f id join in (f', tagged r)
