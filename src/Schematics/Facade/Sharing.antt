-- ===== src/Schematics/Facade/Sharing.antt =====
-- Who reads what a principal creates, through the service, the factory and the storage below it.
use image_factory.Prelude.{
  String, ◌≡◌, refl, ap, ◌≢◌, ◌⊎◌, inl, inr, Bool, true, false, Option, none, some, [], ◌∷◌, arith,
  eq_iff, test_of_ne, ◌>>=◌, Result, ok, err,
}
use image_factory.Selector.{Principal, Session}
use image_factory.Schematics.{is_storage_not_found, marshal, Schematic, Codec, Error, forbidden}
use image_factory.Schematics.Storage.{Storage, IsStorage}
use image_factory.Schematics.Factory.{put, Factory}
use image_factory.Schematics.Factory.Storing.{
  IsCollisionFree, put-IsSound, put-Serves, get_raw-Finds, IsSound,
}
use image_factory.Schematics.Service.{
  principal_from_context, owned_by, authorize, create, get_as, get as service_get,
}
use image_factory.Schematics.Service.Ownership.{create-owned_by}
use image_factory.Schematics.Facade.{dereferenced, repository, or_unfinished}

-- Decoding undoes encoding, of a schematic.
abbrev pub IsLossless : Codec → Schematic → Type 0
IsLossless codec cfg =
    (bytes : String) → codec.encode cfg ≡ ok bytes → codec.decode bytes ≡ some cfg

-- What a reader is told: the owner the schematic, or an error that does not say that it is missing;
-- anyone else an error.
abbrev pub Reads : Principal → Principal → Schematic → Result Error Schematic → Type 0
Reads owner reader cfg r =
    (reader.username ≡ owner.username
      → (r ≡ ok (owned_by owner cfg))
        ⊎ ((e : Error) × (r ≡ err e) × (is_storage_not_found e ≡ false)))
    × (reader.username ≢ owner.username → (e : Error) × (r ≡ err e))

authorize-Reads :
    (p q : Principal) (cfg : Schematic) → Reads p q cfg (authorize true (some q) (owned_by p cfg))
unfolding authorize
authorize-Reads p q cfg = (
  (λ same. ground (arith, eq_iff q.username p.username)),
  λ other. (forbidden "access denied", ground (arith, test_of_ne other)),
)

Finds-Reads :
    (p q : Principal) (cfg : Schematic) (found : Result Error (Option Schematic))
    → (found ≡ ok (some (owned_by p cfg)))
      ⊎ ((e : Error) × (found ≡ err e) × (is_storage_not_found e ≡ false))
    → Reads p q cfg (dereferenced found >>= authorize true (some q))
Finds-Reads p q cfg found (inl e) = rw e (authorize-Reads p q cfg)
Finds-Reads p q cfg found (inr (e, r, other)) =
    rw r (λ same. inr (e, refl, other), λ differ. (e, refl))

module _ (codec : Codec) {S : Type 0} (storage : Storage S) (content : S → String → Option String)
    (Valid : S → Type 0) (denies : S → String → Bool) (is : IsStorage storage content Valid denies)
    (collision_free : IsCollisionFree codec) where
  or_unfinished-ok :
      (f : Factory S) (r : Option (Factory S × Result Error String)) {out : Factory S} {id : String}
      → or_unfinished codec storage f r ≡ (out, ok id)
      → r ≡ some (out, ok id)
  or_unfinished-ok f (some x) h = ap some h
  or_unfinished-ok f none h = absurd (err≢ok λ i. (h i).1)
    where
      err≢ok : {x : Error} {y : String} → ◌≡◌ {A = Result Error String} (err x) (ok y) → ⊥
      err≢ok p = cc

  -- With authentication, what `Create` stores for one principal, `Get` returns to that principal,
  -- or an error that does not say that the schematic is missing, and to no other principal.
  pub get-create :
      (enterprise : Bool) (f : Factory S) (session : Session) (cfg : Schematic) (reader : Session)
      (q : Principal) {out : Factory S} {id : String}
      → ((p : Principal) → IsLossless codec (owned_by p cfg))
      → IsSound codec storage content Valid denies is collision_free f
      → create (repository codec storage) true enterprise f session cfg ≡ (out, ok id)
      → principal_from_context reader ≡ some q
      → (p : Principal) × (principal_from_context session ≡ some p)
        × Reads p q cfg (service_get (repository codec storage) true enterprise out reader id).1
  unfolding repository service_get get_as marshal
  get-create enterprise f session cfg reader q {out} {id} lossless sound created found =
      let (p, by, stored) =
        create-owned_by (repository codec storage) enterprise f session cfg {out = out} {id = id}
          created in
      let puts =
        or_unfinished-ok f (put codec storage f (owned_by p cfg) (none ∷ [])) {out = out} {id = id}
          stored in
      let kept =
        put-IsSound codec storage content Valid denies is collision_free f (owned_by p cfg)
          (none ∷ []) {out = out} {id = id} sound (tt, tt) puts in
      let (bytes, made, at, serves) =
        put-Serves codec storage content Valid denies is collision_free f (owned_by p cfg)
          (none ∷ []) {out = out} {id = id} sound (tt, tt) puts in
      let finds =
        get_raw-Finds codec storage content Valid denies is collision_free out id bytes
          (owned_by p cfg) kept serves (lossless p bytes made) in
      (p, by, rw found (Finds-Reads p q cfg _ finds))
