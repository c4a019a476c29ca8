-- ===== src/Schematics/Service/Ownership.antt =====
-- internal/schematic/service.go: whose a schematic is.
use image_factory.Prelude.{
  String, ◌≡◌, refl, sym, ap, ◌∙◌, subst, Bool, true, Option, none, some, some-injective, arith,
  eq_iff, >>=-eq-ok, Result, ok, err,
}
use image_factory.Selector.{Principal, Session}
use image_factory.Schematics.{validate, Schematic, Error}
use image_factory.Schematics.Service.{
  principal_from_context, owned_by, claim_ownership, configuration_of, authorize, create, get_as,
  get, Repository, put_owned, put_validated,
}

claim_ownership-ok :
    (principal : Option Principal) (cfg : Schematic) {owned : Schematic}
    → claim_ownership principal cfg ≡ ok owned
    → (p : Principal) × (principal ≡ some p) × (owned ≡ owned_by p cfg)
unfolding claim_ownership
claim_ownership-ok none cfg h = cc
claim_ownership-ok (some p) cfg {owned} h = (p, refl, ground (arith))

authorize-ok :
    (principal : Option Principal) (cfg : Schematic) {out : Schematic}
    → authorize true principal cfg ≡ ok out
    → (p : Principal) × (principal ≡ some p) × (out ≡ cfg) × (cfg.owner ≡ p.username)
unfolding authorize
authorize-ok none cfg h = ground arith
authorize-ok (some p) cfg h = (p, refl, ground arith, ground (arith, eq_iff p.username cfg.owner))

module _ {R : Type 0} (repository : Repository R) (enterprise : Bool) where
  put_validated-ok :
      (auth : Bool) (r : R) (cfg : Schematic) (error : Option Error) {out : R} {id : String}
      → put_validated repository auth enterprise r cfg error ≡ (out, ok id)
      → repository.put r cfg ≡ (out, ok id)
  put_validated-ok auth r cfg (some e) h = absurd (err≢ok λ i. (h i).1)
    where
      err≢ok : {x : Error} {y : String} → ◌≡◌ {A = Result Error String} (err x) (ok y) → ⊥
      err≢ok p = cc
  put_validated-ok auth r cfg none h = h

  put_owned-ok :
      (auth : Bool) (r : R) (owned : Result Error Schematic) {out : R} {id : String}
      → put_owned repository auth enterprise r owned ≡ (out, ok id)
      → (cfg : Schematic) × (owned ≡ ok cfg) × (repository.put r cfg ≡ (out, ok id))
  put_owned-ok auth r (err e) h = absurd (err≢ok λ i. (h i).1)
    where
      err≢ok : {x : Error} {y : String} → ◌≡◌ {A = Result Error String} (err x) (ok y) → ⊥
      err≢ok p = cc
  put_owned-ok auth r (ok cfg) {out} {id} h =
      (cfg, refl, put_validated-ok auth r cfg (validate cfg enterprise) {out = out} {id = id} h)

  -- With authentication, a schematic that `Create` stores belongs to the principal of the request.
  pub create-owned_by :
      (r : R) (session : Session) (cfg : Schematic) {out : R} {id : String}
      → create repository true enterprise r session cfg ≡ (out, ok id)
      → (p : Principal) × (principal_from_context session ≡ some p)
        × (repository.put r (owned_by p cfg) ≡ (out, ok id))
  unfolding create configuration_of
  create-owned_by r session cfg {out} {id} h =
      let (owned, claimed, stored) =
        put_owned-ok true r (configuration_of true session cfg) {out = out} {id = id} h in
      let (p, found, named) = claim_ownership-ok (principal_from_context session) cfg claimed in
      (p, found, subst (λ c. repository.put r c ≡ (out, ok id)) named stored)

  get_as-owned :
      (r : R) (id : String) (principal : Option Principal) {cfg : Schematic}
      → (get_as repository true enterprise r id principal).1 ≡ ok cfg
      → (p : Principal) × (principal ≡ some p)
        × ((repository.get_raw r id).1 ≡ ok cfg)
        × (cfg.owner ≡ p.username)
  unfolding get_as
  get_as-owned r id none h = cc
  get_as-owned r id (some p) {cfg} h =
      let (c, found, done) = >>=-eq-ok (repository.get_raw r id).1 (authorize true (some p)) h in
      let (q, same, out, owner) = authorize-ok (some p) c done in
      (
        p,
        refl,
        found ∙ ap ok (sym out),
        ap (λ (x : Schematic). x.owner) out
            ∙ owner
            ∙ ap (λ (x : Principal). x.username) (sym (some-injective _ _ same)),
      )

  -- With authentication, `Get` returns a schematic to its owner alone.
  pub get-owned :
      (r : R) (session : Session) (id : String) {cfg : Schematic}
      → (get repository true enterprise r session id).1 ≡ ok cfg
      → (p : Principal) × (principal_from_context session ≡ some p)
        × ((repository.get_raw r id).1 ≡ ok cfg)
        × (cfg.owner ≡ p.username)
  unfolding get
  get-owned r session id h = get_as-owned r id (principal_from_context session) h
