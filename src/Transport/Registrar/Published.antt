-- ===== src/Transport/Registrar/Published.antt =====
-- What the registrar keeps about the router that serves the requests.
use image_factory.Prelude.{
  String, ◌≡◌, refl, sym, ap, ◌∙◌, subst, ◌⊎◌, inl, inr, Bool, true, false, not, ◌&&◌, ◌||◌, Option,
  List, [], ◌∷◌, ◌++◌, arith, eq_iff, All, All-append, Result-cases, ok-injective, >>=-eq-ok,
  unless-eq-ok, Result, ok, err,
}
use mathlib.Core.List.{append_assoc, append-nil}
use image_factory.Transport.Contract.{Contract}
use image_factory.Transport.Route.{validate_contract, Route, RouteError, duplicate_route}
use image_factory.Transport.Registrar.{
  has_key, key_of, check_routes, handler_of, build_routes, Candidate, install_routes, new_registrar,
  publish, assemble, candidate, settle, register, RouteKey, Pipeline, RegisteredRoute, Registrar,
}

-- No key stands twice in the list.
abbrev pub is_distinct : List RouteKey → Bool
is_distinct [] = true
is_distinct (k ∷ ks) = not (has_key ks k) && is_distinct ks

-- The methods and paths that the key stands for are equal.
has_key-append :
    (xs ys : List RouteKey) (k : RouteKey) → has_key (xs ++ ys) k ≡ (has_key xs k || has_key ys k)
unfolding has_key
has_key-append [] ys k = refl
has_key-append (x ∷ xs) ys k = ground (arith, has_key-append xs ys k)

is_distinct-concat :
    (xs : List RouteKey) (k : RouteKey)
    → is_distinct xs ≡ true
    → has_key xs k ≡ false
    → is_distinct (xs ++ k ∷ []) ≡ true
unfolding has_key
is_distinct-concat [] k h f = refl
is_distinct-concat (x ∷ xs) k h f = ground (
  arith,
  has_key-append xs (k ∷ []) x,
  is_distinct-concat xs k,
  eq_iff x.method k.method,
  eq_iff k.method x.method,
  eq_iff x.path k.path,
  eq_iff k.path x.path,
)

module _ {Handler : Type 0} where
  abbrev pub keys_of : List (Route Handler) → List RouteKey
  keys_of [] = []
  keys_of (r ∷ rs) = key_of r ∷ keys_of rs

  -- Each route meets the contract.
  abbrev pub AllValid : Contract → List (Route Handler) → Type 0
  AllValid contract = All (λ r. validate_contract contract r ≡ ok tt)

  unfoldable IsChecked :
      Contract → List RouteKey → List RouteKey → List (Route Handler) → List RouteKey → Type 0
  IsChecked contract registered seen routes seen' =
      (seen' ≡ seen ++ keys_of routes)
      × AllValid contract routes
      × (is_distinct (registered ++ seen) ≡ true → is_distinct (registered ++ seen') ≡ true)

  check_routes-IsChecked :
      (contract : Contract) (registered seen : List RouteKey) (routes : List (Route Handler))
      {seen' : List RouteKey}
      → check_routes contract registered seen routes ≡ ok seen'
      → IsChecked contract registered seen routes seen'
  unfolding check_routes IsChecked
  check_routes-IsChecked contract registered seen [] {seen'} h =
      let same : seen ≡ seen' = ok-injective h in
      (sym same ∙ sym (append-nil seen), tt, λ distinct. rw (sym same) distinct)
  check_routes-IsChecked contract registered seen (route ∷ routes) {seen'} h =
      let (u, valid, tests) = >>=-eq-ok (validate_contract contract route) (λ _. _) h in
      let (new, tests') =
        unless-eq-ok (has_key registered (key_of route)) duplicate_route _ tests in
      let (fresh, rest) = unless-eq-ok (has_key seen (key_of route)) duplicate_route _ tests' in
      let (all_seen, all_valid, keeps) =
        check_routes-IsChecked contract registered (seen ++ key_of route ∷ []) routes
          {seen' = seen'} rest in
      (
        all_seen ∙ append_assoc seen (key_of route ∷ []) (keys_of routes),
        (valid, all_valid),
        λ distinct. keeps (
            rw (sym (append_assoc registered seen (key_of route ∷ []))) (
              is_distinct-concat (registered ++ seen) (key_of route) distinct
                (rw (has_key-append, new, fresh)))),
      )

module _ {Handler : Type 0} where
  keys_of-append : (xs ys : List (Route Handler)) → keys_of (xs ++ ys) ≡ keys_of xs ++ keys_of ys
  keys_of-append [] ys = refl
  keys_of-append (x ∷ xs) ys = ap (λ l. key_of x ∷ l) (keys_of-append xs ys)

module _ {Handler Handle : Type 0} where
  abbrev pub routes_of : List (RegisteredRoute Handler Handle) → List (Route Handler)
  routes_of [] = []
  routes_of (r ∷ rs) = r.route ∷ routes_of rs

  -- The handle that the pipeline builds for the route.
  abbrev pub IsBuilt : Pipeline Handler Handle → RegisteredRoute Handler Handle → Type 0
  IsBuilt pipeline r = handler_of pipeline r.route ≡ ok r.handle

  routes_of-append :
      (xs ys : List (RegisteredRoute Handler Handle))
      → routes_of (xs ++ ys) ≡ routes_of xs ++ routes_of ys
  routes_of-append [] ys = refl
  routes_of-append (x ∷ xs) ys = ap (λ l. x.route ∷ l) (routes_of-append xs ys)

  build_routes-IsBuilt :
      (pipeline : Pipeline Handler Handle) (routes : List (Route Handler))
      {built : List (RegisteredRoute Handler Handle)}
      → build_routes pipeline routes ≡ ok built
      → (routes_of built ≡ routes) × All (IsBuilt pipeline) built
  unfolding build_routes
  build_routes-IsBuilt pipeline [] {built} h =
      let none_built : [] ≡ built = ok-injective h in
      subst (λ b. (routes_of b ≡ []) × All (IsBuilt pipeline) b) none_built (refl, tt)
  build_routes-IsBuilt pipeline (route ∷ routes) {built} h =
      let (handle, made, then_rest) = >>=-eq-ok (handler_of pipeline route) (λ _. _) h in
      let (others, rest, joined) = >>=-eq-ok (build_routes pipeline routes) (λ _. _) then_rest in
      let (same, all_built) = build_routes-IsBuilt pipeline routes {built = others} rest in
      subst (λ b. (routes_of b ≡ route ∷ routes) × All (IsBuilt pipeline) b) (ok-injective joined)
        (ap (λ l. route ∷ l) same, (made, all_built))

module _ {Handler Handle Router : Type 0} (new_router : Router)
    (add_handle : Router → String → String → Handle → Option Router) where
  -- The registered keys are those of the installed routes, none twice; each installed route meets
  -- the contract and has the handle of its pipeline; the published router holds these routes.
  unfoldable pub IsSound : Registrar Handler Handle Router → Type 0
  IsSound registrar =
      (registrar.registered ≡ keys_of (routes_of registrar.installed))
      × (is_distinct registrar.registered ≡ true)
      × AllValid registrar.contract (routes_of registrar.installed)
      × All (IsBuilt registrar.pipeline) registrar.installed
      × (install_routes new_router add_handle new_router registrar.installed
          ≡ ok registrar.published)

  pub new_registrar-IsSound :
      (contract : Contract) (pipeline : Pipeline Handler Handle)
      → IsSound (new_registrar new_router add_handle contract pipeline)
  unfolding IsSound new_registrar install_routes
  new_registrar-IsSound contract pipeline = (refl, refl, tt, tt, refl)

  -- What a candidate is made of.
  candidate-cases :
      (registrar : Registrar Handler Handle Router) (routes : List (Route Handler))
      {c : Candidate Handler Handle Router}
      → candidate new_router add_handle registrar routes ≡ ok c
      → (built : List (RegisteredRoute Handler Handle)) × (check_routes registrar.contract
            registrar.registered [] routes
          ≡ ok c.0)
        × (build_routes registrar.pipeline routes ≡ ok built)
        × (c.1 ≡ registrar.installed ++ built)
        × (install_routes new_router add_handle new_router (registrar.installed ++ built) ≡ ok c.2)
  unfolding candidate assemble
  candidate-cases registrar routes {c} h =
      let (seen, checked, building) =
        >>=-eq-ok (check_routes registrar.contract registrar.registered [] routes) (λ _. _) h in
      let (built, made, installing) =
        >>=-eq-ok (build_routes registrar.pipeline routes) (λ _. _) building in
      let (router, installs, joined) =
        >>=-eq-ok (install_routes new_router add_handle new_router (registrar.installed ++ built))
          (λ _. _) installing in
      let whole : (seen, registrar.installed ++ built, router) ≡ c = ok-injective joined in
      subst
        (λ d.
          (b : List (RegisteredRoute Handler Handle)) × (check_routes registrar.contract
              registrar.registered [] routes
            ≡ ok d.0)
          × (build_routes registrar.pipeline routes ≡ ok b)
          × (d.1 ≡ registrar.installed ++ b)
          × (install_routes new_router add_handle new_router (registrar.installed ++ b) ≡ ok d.2))
        whole (built, checked, made, refl, installs)

  -- A candidate that is published makes a sound registrar.
  publish-IsSound :
      (registrar : Registrar Handler Handle Router) (routes : List (Route Handler))
      (c : Candidate Handler Handle Router)
      → IsSound registrar
      → candidate new_router add_handle registrar routes ≡ ok c
      → IsSound (publish new_router add_handle registrar c.0 c.1 c.2)
        × (routes_of c.1 ≡ routes_of registrar.installed ++ routes)
  unfolding IsSound IsChecked publish
  publish-IsSound registrar routes c (keys, distinct, valid, built, serves) h =
      let (news, checked, made, appended, installs) = candidate-cases registrar routes {c = c} h in
      let (seen, valid', keeps) =
        check_routes-IsChecked registrar.contract registrar.registered [] routes {seen' = c.0}
          checked in
      let (same, built') = build_routes-IsBuilt registrar.pipeline routes {built = news} made in
      let listed : routes_of c.1 ≡ routes_of registrar.installed ++ routes =
        ap routes_of appended
        ∙ routes_of-append registrar.installed news
        ∙ ap (λ l. routes_of registrar.installed ++ l) same in
      (
        (
          ap (λ l. l ++ c.0) keys
              ∙ ap (λ l. keys_of (routes_of registrar.installed) ++ l) seen
              ∙ sym (keys_of-append (routes_of registrar.installed) routes)
              ∙ sym (ap keys_of listed),
          keeps (ap is_distinct (append-nil registrar.registered) ∙ distinct),
          subst (AllValid registrar.contract) (sym listed)
              (All-append _ (routes_of registrar.installed) routes valid valid'),
          subst (All (IsBuilt registrar.pipeline)) (sym appended)
              (All-append _ registrar.installed news built built'),
          ap (install_routes new_router add_handle new_router) appended ∙ installs,
        ),
        listed,
      )

  register-by :
      (registrar : Registrar Handler Handle Router) (routes : List (Route Handler))
      {r : Result RouteError (Candidate Handler Handle Router)}
      → candidate new_router add_handle registrar routes ≡ r
      → register new_router add_handle registrar routes ≡ settle new_router add_handle registrar r
  unfolding register
  register-by registrar routes h = ap (settle new_router add_handle registrar) h

  -- `register` keeps a registrar sound whatever it answers: every
  -- installed route meets the contract and has the handle of its pipeline, no method and path
  -- stand twice, and the published router is the one that these routes build.
  pub register-IsSound :
      (registrar : Registrar Handler Handle Router) (routes : List (Route Handler))
      → IsSound registrar
      → IsSound (register new_router add_handle registrar routes).1
  register-IsSound registrar routes sound =
      elim (Result-cases (candidate new_router add_handle registrar routes)) [
        | inl (c, made) ↦
            subst (λ r. IsSound r.1) (sym (register-by registrar routes made))
              (publish-IsSound registrar routes c sound made).0
        | inr (e, failed) ↦
            subst (λ r. IsSound r.1) (sym (register-by registrar routes failed)) sound
      ]

  -- `register` of a sound registrar is atomic: it reports an error and leaves the registrar as it
  -- was, or it reports none and the installed routes are those from before, then all the new ones.
  pub register-atomic :
      (registrar : Registrar Handler Handle Router) (routes : List (Route Handler))
      → IsSound registrar
      → ((e : RouteError) × (register new_router add_handle registrar routes ≡ (err e, registrar)))
        ⊎ (((register new_router add_handle registrar routes).0 ≡ ok tt)
            × (routes_of (register new_router add_handle registrar routes).1.installed
                ≡ routes_of registrar.installed ++ routes))
  unfolding publish
  register-atomic registrar routes sound =
      elim (Result-cases (candidate new_router add_handle registrar routes)) [
        | inl (c, made) ↦ inr (
            subst
              (λ r.
                (r.0 ≡ ok tt) × (routes_of r.1.installed ≡ routes_of registrar.installed ++ routes))
              (sym (register-by registrar routes made))
              (refl, (publish-IsSound registrar routes c sound made).1))
        | inr (e, failed) ↦ inl (e, register-by registrar routes failed)
      ]
