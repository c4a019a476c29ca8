-- ===== src/Transport/Route/Policy.antt =====
-- What the metadata of a valid route is sure of.
use image_factory.Prelude.{
  String, ◌≡◌, refl, ◌≢◌, ◌⊎◌, inl, inr, true, false, not, ◌&&◌, ◌||◌, List, [], ◌∷◌, arith, eq_iff,
  ltb, leb, nat_eq, ◌==◌, nat_eq_iff, Bool-cases, ne_of_test, is_empty, contains, >>=-eq-ok,
  unless-eq-ok, ok,
}
use image_factory.Strings.{has_prefix}
use image_factory.Transport.Contract.{dispatcher_path}
use image_factory.Transport.Route.{
  access_public, access_authenticated, access_image_download, protocol_api, protocol_html,
  protocol_oci, validate_dispatched, validate_policy, validate_operation_ownership, is_nil,
  validate, Route, method_required, path_required, path_without_slash, handler_required,
  unsupported_access, unsupported_protocol, dispatcher_undeclared, dispatched_required,
  dispatched_duplicate,
}

is_empty-eq {ℓ} : {A : Type ℓ} (xs : List A) → is_empty xs ≡ true → xs ≡ []
is_empty-eq [] h = refl
is_empty-eq (x ∷ xs) h = cc

validate_dispatched-texts :
    (seen ids : List String) → validate_dispatched seen ids ≡ ok tt → contains ids "" ≡ false
unfolding validate_dispatched
validate_dispatched-texts seen [] h = refl
validate_dispatched-texts seen (id ∷ ids) h =
    let (text, h1) = unless-eq-ok (id == "") dispatched_required _ h in
    let (new, rest) = unless-eq-ok (contains seen id) dispatched_duplicate _ h1 in
    let later : contains ids "" ≡ false = validate_dispatched-texts (id ∷ seen) ids rest in
    ground (arith, text, later)

module _ {Handler : Type 0} where
  -- The access policy that the protocol asks for.
  abbrev pub IsPolicy : Route Handler → Type 0
  IsPolicy r =
      (r.access ≡ access_public)
      ⊎ ((r.access ≡ access_authenticated)
          × ((r.protocol ≡ protocol_api)
              ⊎ (r.protocol ≡ protocol_html)
              ⊎ (r.protocol ≡ protocol_oci)))
      ⊎ ((r.access ≡ access_image_download)
          × ((r.protocol ≡ protocol_api) ⊎ (r.protocol ≡ protocol_oci)))

  validate-steps :
      (r : Route Handler)
      → validate r ≡ ok tt
      → (has_prefix r.path "/" ≡ true)
        × (is_nil r.handler ≡ false)
        × (leb access_public r.access ≡ true)
        × (leb r.access access_image_download ≡ true)
        × (leb r.protocol protocol_oci ≡ true)
        × (validate_policy r ≡ ok tt)
        × (validate_operation_ownership r ≡ ok tt)
  unfolding validate
  validate-steps r h =
      let (m, h1) = unless-eq-ok (r.method == "") method_required _ h in
      let (p, h2) = unless-eq-ok (r.path == "") path_required _ h1 in
      let (slash, h3) = unless-eq-ok (not (has_prefix r.path "/")) path_without_slash _ h2 in
      let (handler, h4) = unless-eq-ok (is_nil r.handler) handler_required _ h3 in
      let (access, h5) =
        unless-eq-ok (ltb r.access access_public || ltb access_image_download r.access)
          unsupported_access _ h4 in
      let (known, h6) = unless-eq-ok (ltb protocol_oci r.protocol) unsupported_protocol _ h5 in
      let (u, policy, ownership) =
        >>=-eq-ok (validate_policy r) (λ _. validate_operation_ownership r) h6 in
      (
        ground (arith, slash),
        handler,
        ground (arith, access),
        ground (arith, access),
        ground (arith, known),
        policy,
        ownership,
      )

  validate_policy-IsPolicy :
      (r : Route Handler)
      → leb access_public r.access ≡ true
      → leb r.access access_image_download ≡ true
      → leb r.protocol protocol_oci ≡ true
      → validate_policy r ≡ ok tt
      → IsPolicy r × ((r.protocol ≡ protocol_oci) → (r.access ≢ access_public))
  unfolding validate_policy
  validate_policy-IsPolicy r low high known h = ground arith

  -- Who owns the route's operations: one operation, or, for the dispatcher of the OCI protocol,
  -- several with distinct IDs that are some text.
  abbrev pub IsOwned : Route Handler → Type 0
  IsOwned r =
      ((r.dispatched_operation_ids ≡ []) × (r.path ≢ dispatcher_path) × (r.operation_id ≢ ""))
      ⊎ ((r.path ≡ dispatcher_path)
          × (r.protocol ≡ protocol_oci)
          × (r.operation_id ≡ "")
          × (r.dispatched_operation_ids ≢ [])
          × (contains r.dispatched_operation_ids "" ≡ false))

  ownership-IsOwned : (r : Route Handler) → validate_operation_ownership r ≡ ok tt → IsOwned r
  unfolding validate_operation_ownership
  ownership-IsOwned r h = elim (Bool-cases (is_empty r.dispatched_operation_ids)) [
    | inl single ↦
        let (other_path, h1) =
          unless-eq-ok (r.path == dispatcher_path && is_empty r.dispatched_operation_ids)
            dispatcher_undeclared _ h in
        inl (
          is_empty-eq r.dispatched_operation_ids single,
          ne_of_test (ground (arith, other_path, single)),
          ne_of_test (ground (arith, h1, single)),
        )
    | inr several ↦
        let dispatched : ((r.path == dispatcher_path) ≡ true)
            × (nat_eq r.protocol protocol_oci ≡ true)
            × ((r.operation_id == "") ≡ true)
            × (validate_dispatched [] r.dispatched_operation_ids ≡ ok tt) =
          ground (arith, h, several) in
        inr (
          (eq_iff _ _).0 dispatched.0,
          (nat_eq_iff _ _).0 dispatched.1,
          (eq_iff _ _).0 dispatched.2,
          (λ none_left. ground (arith, several, none_left)),
          validate_dispatched-texts [] r.dispatched_operation_ids dispatched.3,
        )
  ]

  -- A route that `validate` accepts has a handler and a path that starts with a slash. Its access
  -- is public; or authenticated, for the API, HTML and OCI protocols; or the download of images,
  -- for the API and OCI protocols; an OCI route is never public. It names its one operation, or
  -- is the dispatcher at `/v2/*path`, of the OCI protocol, with some operations that have a name.
  pub validate-IsPolicy :
      (r : Route Handler)
      → validate r ≡ ok tt
      → (is_nil r.handler ≡ false)
        × (has_prefix r.path "/" ≡ true)
        × IsPolicy r
        × ((r.protocol ≡ protocol_oci) → (r.access ≢ access_public))
        × IsOwned r
  validate-IsPolicy r h =
      let (slash, handler, low, high, known, policy, ownership) = validate-steps r h in
      let (access, guarded) = validate_policy-IsPolicy r low high known policy in
      (handler, slash, access, guarded, ownership-IsOwned r ownership)
