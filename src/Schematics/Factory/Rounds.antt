-- ===== src/Schematics/Factory/Rounds.antt =====
-- internal/schematic/schematic.go: the end of the loop of `put`.
use image_factory.Prelude.{
  String, ◌≡◌, refl, ◌⊎◌, inl, inr, true, false, Option, none, some, List, [], ◌∷◌, arith, All,
  Result, ok, err,
}
use image_factory.Schematics.{is_canceled, marshal, Schematic, Codec, Error, failed}
use image_factory.Schematics.Storage.{Storage}
use image_factory.Schematics.Factory.{
  Joined, judge, put_flight, put_rounds, Factory, Reply, returns, again, write_marshalled, stored,
  write_unless,
}

-- The first round whose flight a put does not share with a failed read ends its loop.
judge-again :
    (result : Option (Option Schematic)) (error : Option Error)
    → judge result error ≡ again
    → result ≡ none
unfolding judge
judge-again none error h = refl
judge-again (some s) error h = cc

pub judge-returns :
    (result : Option (Option Schematic)) (error : Option Error)
    → judge result error ≡ returns none
    → error ≡ none
unfolding judge
judge-returns none none h = refl
judge-returns none (some e) h = ground arith
judge-returns (some s) none h = refl
judge-returns (some s) (some e) h = cc

module _ (codec : Codec) {S : Type 0} (storage : Storage S) where
  -- A flight of a put has a schematic among its results.
  put_flight-result :
      (f : Factory S) (id : String) (cfg : Schematic)
      → (put_flight codec storage f id cfg).1.result ≡ some (some cfg)
  unfolding put_flight marshal
  put_flight-result f id cfg = by_head (storage.head f.state id)
    where
      by_put :
          (g : Factory S) (r : S × Option Error)
          → (stored codec storage g cfg r).1.result ≡ some (some cfg)
      by_put g (s, some e) = refl
      by_put g (s, none) = refl

      by_bytes :
          (g : Factory S) (r : Result Error String)
          → (write_marshalled codec storage g id cfg r).1.result ≡ some (some cfg)
      by_bytes g (err e) = refl
      by_bytes g (ok bytes) = by_put g (storage.put g.state id bytes)

      by_head :
          (r : S × Option Error)
          → (write_unless codec storage f id cfg r).1.result ≡ some (some cfg)
      by_head (s, none) = refl
      by_head (s, some e) = by_bytes (record f { state = s }) (marshal codec cfg)

  -- A flight that read, failed, and was not cancelled.
  abbrev pub IsFailedRead : Joined S → Type 0
  IsFailedRead (f, reply) =
      (reply.result ≡ none) × ((e : Error) × (reply.error ≡ some e) × (is_canceled e ≡ false))

  -- What the other flights are for a call that joins them.
  abbrev pub EndsWith : Reply → Option Error → Type 0
  EndsWith reply outcome =
      ((s : Option Schematic) × (reply.result ≡ some s) × (outcome ≡ reply.error))
      ⊎ (((e : Error) × (reply.result ≡ none)
            × (reply.error ≡ some e)
            × (is_canceled e ≡ true)
            × (outcome ≡ some e))
          ⊎ ((reply.result ≡ none)
              × (reply.error ≡ none)
              × (outcome ≡ some (failed "unexpected singleflight result type"))))

  judge-EndsWith :
      (reply : Reply) (outcome : Option Error)
      → EndsWith reply outcome
      → judge reply.result reply.error ≡ returns outcome
  unfolding judge
  judge-EndsWith reply outcome (inl (s, shared, same)) = rw (shared, same) refl
  judge-EndsWith reply outcome (inr (inl (e, read, fails, gone, same))) =
      rw (read, fails, same, gone) refl
  judge-EndsWith reply outcome (inr (inr (read, works, same))) = rw (read, works, same) refl

  judge-IsFailedRead : (x : Joined S) → IsFailedRead x → judge x.1.result x.1.error ≡ again
  unfolding judge
  judge-IsFailedRead (f, reply) (read, (e, fails, goes_on)) = rw (read, fails, goes_on) refl

  -- The factory behind some flights.
  abbrev pub behind : Factory S → List (Joined S) → Factory S
  behind f [] = f
  behind f ((f', reply) ∷ joins) = behind f' joins

  -- The rounds that join some flights, in front of others.
  abbrev pub joining : List (Joined S) → List (Option (Joined S)) → List (Option (Joined S))
  joining [] rounds = rounds
  joining (joined ∷ joins) rounds = some joined ∷ joining joins rounds

  -- A put that has joined failed reads only goes on, without a result so far: it returns the outcome
  -- of the next flight if it joins one that is no failed read, whatever comes later, and that of its
  -- own flight if it leads one.
  pub put_rounds_end :
      (f : Factory S) (id : String) (cfg : Schematic) (before : List (Joined S))
      (after : List (Option (Joined S))) (f' : Factory S) (reply : Reply) (outcome : Option Error)
      → All IsFailedRead before
      → EndsWith reply outcome
      → (put_rounds codec storage f id cfg (joining before []) ≡ none)
        × (put_rounds codec storage f id cfg (joining before (some (f', reply) ∷ after))
            ≡ some (f', outcome))
        × (put_rounds codec storage f id cfg (joining before (none ∷ after))
            ≡ some (
              (put_flight codec storage (behind f before) id cfg).0,
              (put_flight codec storage (behind f before) id cfg).1.error,
            ))
  unfolding put_rounds
  put_rounds_end f id cfg [] after f' reply outcome reads ends = (
    refl,
    rw (judge-EndsWith reply outcome ends) refl,
    rw
        (judge-EndsWith (put_flight codec storage f id cfg).1 _
          (inl (some cfg, put_flight-result f id cfg, refl)))
        refl,
  )
  put_rounds_end f id cfg ((g, r) ∷ before) after f' reply outcome (read, reads) ends =
      let (open_yet, joined, led) =
        put_rounds_end g id cfg before after f' reply outcome reads ends in
      let again_now = judge-IsFailedRead (g, r) read in
      (rw again_now open_yet, rw again_now joined, rw again_now led)
