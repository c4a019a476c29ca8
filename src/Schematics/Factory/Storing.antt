-- ===== src/Schematics/Factory/Storing.antt =====
-- internal/schematic/schematic.go: what a put leaves in the storage, and what a get finds there.
use image_factory.Prelude.{
  String, ◌≡◌, refl, sym, ap, ◌∙◌, subst, ◌⊎◌, inl, inr, Bool, false, Option, none, some,
  some-injective, List, [], ◌∷◌, arith, Option-cases, All, ok-injective, >>=-eq-ok, Result, ok, err,
}
use image_factory.Schematics.{
  is_storage_not_found, marshal, unmarshal, id_of, Schematic, Codec, Error,
}
use image_factory.Schematics.Storage.{Storage, IsStorage}
use image_factory.Schematics.Factory.{
  Joined, judge, put_flight, next_round, put_rounds, put, get_flight, pointed, get, tagged, get_raw,
  Factory, Round, returns, again, read_state, put_identified, write_marshalled, stored,
  write_unless, unmarshalled,
}
use image_factory.Schematics.Factory.Rounds.{judge-returns}

-- No two texts share a digest.
abbrev pub IsCollisionFree : Codec → Type 0
IsCollisionFree codec = (a b : String) → codec.digest a ≡ codec.digest b → a ≡ b

-- What a factory needs to hold: a valid storage, whose identifiers are digests.
module _ (codec : Codec) {S : Type 0} (storage : Storage S) (content : S → String → Option String)
    (Valid : S → Type 0) (denies : S → String → Bool) (is : IsStorage storage content Valid denies)
    (collision_free : IsCollisionFree codec) where
  pub record IsSound (f : Factory S) : Type 0 where
    pub valid : Valid f.state
    pub addressed : (id bytes : String) → content f.state id ≡ some bytes → codec.digest bytes ≡ id

  -- A text is held and will be found.
  pub record Serves (f : Factory S) (id bytes : String) : Type 0 where
    pub held : content f.state id ≡ some bytes
    pub served : denies f.state id ≡ false

  -- The flights that a call for an identifier can join, as they stand when they have ended.
  pub data Flown (id : String) : Joined S → Type 0 where
    flown_put :
        (f : Factory S) (cfg : Schematic)
        → IsSound f
        → id_of codec cfg ≡ ok id
        → Flown id (put_flight codec storage f id cfg)
    flown_get : (f : Factory S) → IsSound f → Flown id (get_flight codec storage f id)

  -- A round that leads a flight, or joins one of those.
  abbrev pub FlownRound : String → Option (Joined S) → Type 0
  FlownRound id none = Unit
  FlownRound id (some joined) = Flown id joined

  held_bytes :
      (f : Factory S) (id bytes b : String)
      → IsSound f
      → codec.digest bytes ≡ id
      → content f.state id ≡ some b
      → b ≡ bytes
  held_bytes f id bytes b sound at held =
      collision_free b bytes (sound.addressed id b held ∙ sym at)

  id_of-ok :
      (cfg : Schematic) {id : String}
      → id_of codec cfg ≡ ok id
      → (bytes : String) × (marshal codec cfg ≡ ok bytes) × (codec.digest bytes ≡ id)
  unfolding id_of
  id_of-ok cfg h =
      let (bytes, made, at) = >>=-eq-ok (marshal codec cfg) (λ b. ok (codec.digest b)) h in
      (bytes, made, ok-injective at)

  stored-Serves :
      (g : Factory S) (cfg : Schematic) (id bytes : String) (r : S × Option Error)
      → (r.1 ≡ none → (content r.0 id ≡ some bytes) × (denies r.0 id ≡ false))
      → (stored codec storage g cfg r).1.error ≡ none
      → Serves (stored codec storage g cfg r).0 id bytes
  stored-Serves g cfg id bytes (s, some e) put_stored h = cc
  stored-Serves g cfg id bytes (s, none) put_stored h = record {
    held = (put_stored refl).0;
    served = (put_stored refl).1;
  }

  write_unless-Serves :
      (f : Factory S) (id : String) (cfg : Schematic) (bytes : String) (r : S × Option Error)
      → marshal codec cfg ≡ ok bytes
      → (r.1 ≡ none → (content r.0 id ≡ some bytes) × (denies r.0 id ≡ false))
      → (write_unless codec storage f id cfg r).1.error ≡ none
      → Serves (write_unless codec storage f id cfg r).0 id bytes
  write_unless-Serves f id cfg bytes (s, none) made found h = record {
    held = (found refl).0;
    served = (found refl).1;
  }
  write_unless-Serves f id cfg bytes (s, some e) made found h =
      let g = record f { state = s } in
      subst
        (λ m.
          (write_marshalled codec storage g id cfg m).1.error ≡ none
          → Serves (write_marshalled codec storage g id cfg m).0 id bytes)
        (sym made)
        (stored-Serves g cfg id bytes (storage.put s id bytes) (is.put_stored s id bytes)) h

  put_flight-Serves :
      (f : Factory S) (id : String) (cfg : Schematic) (bytes : String)
      → IsSound f
      → marshal codec cfg ≡ ok bytes
      → codec.digest bytes ≡ id
      → (put_flight codec storage f id cfg).1.error ≡ none
      → Serves (put_flight codec storage f id cfg).0 id bytes
  unfolding put_flight
  put_flight-Serves f id cfg bytes sound made at h =
      write_unless-Serves f id cfg bytes (storage.head f.state id) made found h
    where
      found :
          (storage.head f.state id).1 ≡ none
          → (content (storage.head f.state id).0 id ≡ some bytes)
            × (denies (storage.head f.state id).0 id ≡ false)
      found r =
          let (b, held, served) = is.head_found f.state id sound.valid r in
          (
            is.head_content f.state id id ∙ held ∙ ap some (held_bytes f id bytes b sound at held),
            served,
          )

  read_state-Serves :
      (f : Factory S) (id bytes : String) (r : S × Result Error String)
      → ((b : String) → r.1 ≡ ok b → (content r.0 id ≡ some bytes) × (denies r.0 id ≡ false))
      → (read_state codec storage f r).1.error ≡ none
      → Serves (read_state codec storage f r).0 id bytes
  read_state-Serves f id bytes (s, err e) found h = cc
  read_state-Serves f id bytes (s, ok b) found h = record {
    held = (found b refl).0;
    served = (found b refl).1;
  }

  get_flight-Serves :
      (f : Factory S) (id bytes : String)
      → IsSound f
      → codec.digest bytes ≡ id
      → (get_flight codec storage f id).1.error ≡ none
      → Serves (get_flight codec storage f id).0 id bytes
  unfolding get_flight
  get_flight-Serves f id bytes sound at h =
      read_state-Serves f id bytes (storage.get f.state id) found h
    where
      found :
          (b : String)
          → (storage.get f.state id).1 ≡ ok b
          → (content (storage.get f.state id).0 id ≡ some bytes)
            × (denies (storage.get f.state id).0 id ≡ false)
      found b r =
          let (held, served) = is.get_found f.state id sound.valid r in
          (
            is.get_content f.state id id ∙ held ∙ ap some (held_bytes f id bytes b sound at held),
            served,
          )

  -- Whichever flight a call joins, an identifier of which it says no error is held and found.
  Flown-Serves :
      {id : String} {joined : Joined S} (bytes : String)
      → codec.digest bytes ≡ id
      → Flown id joined
      → joined.1.error ≡ none
      → Serves joined.0 id bytes
  Flown-Serves {id} bytes at (flown_get f sound) h = get_flight-Serves f id bytes sound at h
  Flown-Serves {id} bytes at (flown_put f cfg sound named) h =
      let (b, made, b_at) = id_of-ok cfg named in
      subst (λ t. Serves (put_flight codec storage f id cfg).0 id t)
        (collision_free b bytes (b_at ∙ sym at)) (put_flight-Serves f id cfg b sound made b_at h)

  next_round-Serves :
      (f : Factory S) (error : Option Error) (result : Option (Option Schematic))
      (id bytes : String) {rest : Option (Factory S × Option Error)} {out : Factory S}
      → (error ≡ none → Serves f id bytes)
      → (rest ≡ some (out, none) → Serves out id bytes)
      → next_round codec storage f rest (judge result error) ≡ some (out, none)
      → Serves out id bytes
  next_round-Serves f error result id bytes {rest} {out} now later h =
      by_round (judge result error) refl h
    where
      by_round :
          (round : Round)
          → judge result error ≡ round
          → next_round codec storage f rest round ≡ some (out, none)
          → Serves out id bytes
      by_round again e k = later k
      by_round (returns x) e k =
          let same = some-injective _ _ k in
          subst (λ g. Serves g id bytes) (λ i. (same i).0)
            (now (judge-returns result error (e ∙ ap returns (λ i. (same i).1))))

  -- A state of the storage with the factory's invariant.
  record IsSoundState (s : S) : Type 0 where
    pub valid : Valid s
    pub addressed : (id bytes : String) → content s id ≡ some bytes → codec.digest bytes ≡ id

  fits :
      (s : S) (id bytes : String)
      → IsSoundState s
      → codec.digest bytes ≡ id
      → (content s id ≡ none) ⊎ (content s id ≡ some bytes)
  fits s id bytes sound at = elim (Option-cases (content s id)) [
    | inl missing ↦ inl missing
    | inr (b, held) ↦
        inr (held ∙ ap some (collision_free b bytes (sound.addressed id b held ∙ sym at)))
  ]

  put-IsSoundState :
      (s : S) (id bytes : String)
      → IsSoundState s
      → codec.digest bytes ≡ id
      → IsSoundState (storage.put s id bytes).0
  put-IsSoundState s id bytes sound at = record {
    valid = is.put_keeps s id bytes sound.valid (fits s id bytes sound at);
    addressed = λ key b held. elim (is.put_content s id bytes key) [
      | inl same ↦ sound.addressed key b (sym same ∙ held)
      | inr (here, now) ↦ ap codec.digest (some-injective _ _ (sym held ∙ now)) ∙ at ∙ sym here
    ];
  }

  stored-IsSound :
      (g : Factory S) (cfg : Schematic) (r : S × Option Error)
      → IsSoundState r.0
      → IsSound (stored codec storage g cfg r).0
  stored-IsSound g cfg (s, some e) h = record { valid = h.valid; addressed = h.addressed }
  stored-IsSound g cfg (s, none) h = record { valid = h.valid; addressed = h.addressed }

  write_unless-IsSound :
      (f : Factory S) (id : String) (cfg : Schematic) (bytes : String) (r : S × Option Error)
      → marshal codec cfg ≡ ok bytes
      → codec.digest bytes ≡ id
      → IsSoundState r.0
      → IsSound (write_unless codec storage f id cfg r).0
  write_unless-IsSound f id cfg bytes (s, none) made at h = record {
    valid = h.valid;
    addressed = h.addressed;
  }
  write_unless-IsSound f id cfg bytes (s, some e) made at h =
      let g = record f { state = s } in
      subst (λ m. IsSound (write_marshalled codec storage g id cfg m).0) (sym made)
        (stored-IsSound g cfg (storage.put s id bytes) (put-IsSoundState s id bytes h at))

  -- A put's flight keeps the invariant.
  pub put_flight-IsSound :
      (f : Factory S) (id : String) (cfg : Schematic)
      → IsSound f
      → id_of codec cfg ≡ ok id
      → IsSound (put_flight codec storage f id cfg).0
  unfolding put_flight
  put_flight-IsSound f id cfg sound named =
      let (bytes, made, at) = id_of-ok cfg named in
      write_unless-IsSound f id cfg bytes (storage.head f.state id) made at (record {
        valid = is.head_keeps f.state id sound.valid;
        addressed =
            λ key b held. sound.addressed key b (sym (is.head_content f.state id key) ∙ held);
      })

  read_state-IsSound :
      (f : Factory S) (r : S × Result Error String)
      → IsSoundState r.0
      → IsSound (read_state codec storage f r).0
  read_state-IsSound f (s, ok b) h = record { valid = h.valid; addressed = h.addressed }
  read_state-IsSound f (s, err e) h = record { valid = h.valid; addressed = h.addressed }

  -- A get's flight keeps the invariant.
  pub get_flight-IsSound :
      (f : Factory S) (id : String) → IsSound f → IsSound (get_flight codec storage f id).0
  unfolding get_flight
  get_flight-IsSound f id sound = read_state-IsSound f (storage.get f.state id) (record {
    valid = is.get_keeps f.state id sound.valid;
    addressed = λ key b held. sound.addressed key b (sym (is.get_content f.state id key) ∙ held);
  })

  Flown-IsSound : {id : String} {joined : Joined S} → Flown id joined → IsSound joined.0
  Flown-IsSound {id} (flown_put f cfg sound named) = put_flight-IsSound f id cfg sound named
  Flown-IsSound {id} (flown_get f sound) = get_flight-IsSound f id sound

  id_of-named :
      (cfg : Schematic) {id bytes : String}
      → marshal codec cfg ≡ ok bytes
      → codec.digest bytes ≡ id
      → id_of codec cfg ≡ ok id
  unfolding id_of
  id_of-named cfg made at = rw made (ap ok at)

  put_rounds-Serves :
      (f : Factory S) (id : String) (cfg : Schematic) (rounds : List (Option (Joined S)))
      (bytes : String) {out : Factory S}
      → IsSound f
      → All (FlownRound id) rounds
      → marshal codec cfg ≡ ok bytes
      → codec.digest bytes ≡ id
      → put_rounds codec storage f id cfg rounds ≡ some (out, none)
      → Serves out id bytes
  unfolding put_rounds
  put_rounds-Serves f id cfg [] bytes sound flown made at h = cc
  put_rounds-Serves f id cfg (none ∷ rounds) bytes sound (led, later) made at h =
      let (g, reply) = put_flight codec storage f id cfg in
      next_round-Serves g reply.error reply.result id bytes
        (put_flight-Serves f id cfg bytes sound made at)
        (put_rounds-Serves g id cfg rounds bytes
          (put_flight-IsSound f id cfg sound (id_of-named cfg made at)) later made at)
        h
  put_rounds-Serves f id cfg (some (g, reply) ∷ rounds) bytes sound (flown, later) made at h =
      next_round-Serves g reply.error reply.result id bytes (Flown-Serves bytes at flown)
        (put_rounds-Serves g id cfg rounds bytes (Flown-IsSound flown) later made at) h

  put_identified-ok :
      (f : Factory S) (cfg : Schematic) (rounds : List (Option (Joined S)))
      (named : Result Error String) {out : Factory S} {id : String}
      → put_identified codec storage f cfg rounds named ≡ some (out, ok id)
      → (named ≡ ok id) × (put_rounds codec storage f id cfg rounds ≡ some (out, none))
  put_identified-ok f cfg rounds (err e) h = ground arith
  put_identified-ok f cfg rounds (ok key) h = ground (arith)

  next_round-IsSound :
      (f : Factory S) (round : Round) {rest : Option (Factory S × Option Error)}
      {out : Factory S × Option Error}
      → IsSound f
      → (rest ≡ some out → IsSound out.0)
      → next_round codec storage f rest round ≡ some out
      → IsSound out.0
  next_round-IsSound f again now later h = later h
  next_round-IsSound f (returns e) now later h = subst (λ t. IsSound t.0) (some-injective _ _ h) now

  put_rounds-IsSound :
      (f : Factory S) (id : String) (cfg : Schematic) (rounds : List (Option (Joined S)))
      {out : Factory S × Option Error}
      → IsSound f
      → All (FlownRound id) rounds
      → id_of codec cfg ≡ ok id
      → put_rounds codec storage f id cfg rounds ≡ some out
      → IsSound out.0
  unfolding put_rounds
  put_rounds-IsSound f id cfg [] {out} sound flown named h = cc
  put_rounds-IsSound f id cfg (none ∷ rounds) {out} sound (led, later) named h =
      let (g, reply) = put_flight codec storage f id cfg in
      let after = put_flight-IsSound f id cfg sound named in
      next_round-IsSound g (judge reply.result reply.error) {out = out} after
        (put_rounds-IsSound g id cfg rounds {out = out} after later named) h
  put_rounds-IsSound f id cfg (some (g, reply) ∷ rounds) {out} sound (flown, later) named h =
      next_round-IsSound g (judge reply.result reply.error) {out = out} (Flown-IsSound flown)
        (put_rounds-IsSound g id cfg rounds {out = out} (Flown-IsSound flown) later named) h

  -- A put that succeeds keeps the invariant.
  pub put-IsSound :
      (f : Factory S) (cfg : Schematic) (rounds : List (Option (Joined S))) {out : Factory S}
      {id : String}
      → IsSound f
      → All (FlownRound id) rounds
      → put codec storage f cfg rounds ≡ some (out, ok id)
      → IsSound out
  unfolding put
  put-IsSound f cfg rounds {out} {id} sound flown h =
      let (named, ends) =
        put_identified-ok f cfg rounds (id_of codec cfg) {out = out} {id = id} h in
      put_rounds-IsSound f id cfg rounds {out = (out, none)} sound flown named ends

  -- When a put succeeds, whatever flights it has joined, the text of its schematic is held under
  -- the schematic's identifier, and will be found there.
  pub put-Serves :
      (f : Factory S) (cfg : Schematic) (rounds : List (Option (Joined S))) {out : Factory S}
      {id : String}
      → IsSound f
      → All (FlownRound id) rounds
      → put codec storage f cfg rounds ≡ some (out, ok id)
      → (bytes : String) × (marshal codec cfg ≡ ok bytes)
        × (codec.digest bytes ≡ id)
        × Serves out id bytes
  unfolding put
  put-Serves f cfg rounds {out} {id} sound flown h =
      let (named, ends) =
        put_identified-ok f cfg rounds (id_of codec cfg) {out = out} {id = id} h in
      let (bytes, made, at) = id_of-ok cfg named in
      (bytes, made, at, put_rounds-Serves f id cfg rounds bytes sound flown made at ends)

  -- What a get finds of a text that decodes: its schematic, or an error, but never that it is missing.
  abbrev pub Finds : Schematic → Result Error (Option Schematic) → Type 0
  Finds cfg r = (r ≡ ok (some cfg)) ⊎ ((e : Error) × (r ≡ err e) × (is_storage_not_found e ≡ false))

  unmarshal-ok :
      (bytes : String) (cfg : Schematic)
      → codec.decode bytes ≡ some cfg
      → unmarshal codec bytes ≡ ok cfg
  unfolding unmarshal
  unmarshal-ok bytes cfg h = ground arith

  read_state-Finds :
      (f : Factory S) (cfg : Schematic) (bytes : String) (r : S × Result Error String)
      → codec.decode bytes ≡ some cfg
      → ((b : String) → r.1 ≡ ok b → b ≡ bytes)
      → ((e : Error) → r.1 ≡ err e → is_storage_not_found e ≡ false)
      → Finds cfg (
          tagged codec storage (
            pointed codec storage
              (read_state codec storage f r).1.result
              (read_state codec storage f r).1.error))
  read_state-Finds f cfg bytes (s, err e) decodes same other =
      inr (e, rw (other e refl), other e refl)
  read_state-Finds f cfg bytes (s, ok b) decodes same other =
      subst
        (λ m. Finds cfg (
          tagged codec storage (
            pointed codec storage (unmarshalled codec storage m).result
              (unmarshalled codec storage m).error)))
        (sym (ap (unmarshal codec) (same b refl) ∙ unmarshal-ok bytes cfg decodes)) (inl refl)

  -- A text that is held and will be found is found, by a get that leads its flight.
  pub get_raw-Finds :
      (f : Factory S) (id bytes : String) (cfg : Schematic)
      → IsSound f
      → Serves f id bytes
      → codec.decode bytes ≡ some cfg
      → Finds cfg (get_raw codec storage f id none).1
  unfolding get_raw get get_flight
  get_raw-Finds f id bytes cfg sound serves decodes =
      read_state-Finds f cfg bytes (storage.get f.state id) decodes
        (λ b r. some-injective _ _ (sym (is.get_found f.state id sound.valid r).0 ∙ serves.held))
        (λ e r. is.get_held f.state id {bytes = bytes} sound.valid serves.held serves.served r)
