-- ===== src/Transport/Contract/Dispatcher.antt =====
-- What the dispatcher of the OCI routes must declare.
use image_factory.Prelude.{
  String, ◌≡◌, refl, sym, ◌∙◌, subst, ◌⊎◌, inl, inr, true, false, ◌||◌, List, [], ◌∷◌, arith,
  eq_iff, eq_refl, ◌==◌, Bool-cases, contains, is_nodup, ok-injective, >>=-eq-ok, unless-eq-ok, ok,
}
use image_factory.Transport.Contract.{
  dispatcher_path, contract_paths, operation_ids, runtime_dispatcher_operation_ids, declare_all,
  all_in, compare_declared, validate_runtime_dispatcher, Contract, ContractError, declared_twice,
  missing_operation, unexpected_operation,
}

declare_all-nodup :
    (declared ids : List String) {all_ids : List String}
    → declare_all declared ids ≡ ok all_ids
    → (is_nodup ids ≡ true)
      × ((id : String) → contains ids id ≡ true → contains declared id ≡ false)
      × ((id : String) → contains all_ids id ≡ (contains declared id || contains ids id))
unfolding declare_all
declare_all-nodup declared [] {all_ids} h =
    let same : declared ≡ all_ids = ok-injective h in
    (
      refl,
      λ id stands. ground (arith, stands),
      λ id. subst (λ l. contains l id ≡ (contains declared id || false)) same (ground arith),
    )
declare_all-nodup declared (i ∷ ids) {all_ids} h =
    let (new, rest) = unless-eq-ok (contains declared i) declared_twice _ h in
    let (nodup, fresh, same) = declare_all-nodup (i ∷ declared) ids {all_ids = all_ids} rest in
    (
      ground (arith, nodup, fresh i, eq_refl i),
      λ id stands. ground (arith, stands, new, fresh id, eq_iff i id),
      λ id. ground (arith, same id),
    )

all_in-contains :
    (known : List String) (e : ContractError) (ids : List String)
    → all_in known e ids ≡ ok tt
    → (id : String) → contains ids id ≡ true
    → contains known id ≡ true
unfolding all_in
all_in-contains known e [] h id stands = ground (arith, stands)
all_in-contains known e (i ∷ ids) h id stands = elim (Bool-cases (contains known i)) [
  | inl found ↦
      let rest : all_in known e ids ≡ ok tt = ground (arith, h, found) in
      let later : contains ids id ≡ true → contains known id ≡ true =
        all_in-contains known e ids rest id in
      elim (Bool-cases (i == id)) [
        | inl same ↦ subst (λ s. contains known s ≡ true) ((eq_iff i id).0 same) found
        | inr other ↦ later (ground (arith, stands, other))
      ]
  | inr missing ↦ ground (arith, h, missing)
]

-- Lists with the same members, from the two inclusions.
same_members :
    (xs ys : List String) (id : String)
    → (contains xs id ≡ true → contains ys id ≡ true)
    → (contains ys id ≡ true → contains xs id ≡ true)
    → contains xs id ≡ contains ys id
same_members xs ys id f g = ground (arith, f, g)

dispatcher_ids-method :
    (contract : Contract) (method path : String) {expected : List String}
    → runtime_dispatcher_operation_ids contract method path ≡ ok expected
    → (path ≡ dispatcher_path)
      × ((method ≡ "GET") ⊎ (method ≡ "HEAD"))
      × (operation_ids contract method contract_paths ≡ ok expected)
unfolding runtime_dispatcher_operation_ids
dispatcher_ids-method contract method path {expected} h =
    ground (arith, eq_iff path dispatcher_path, eq_iff method "GET", eq_iff method "HEAD")

-- A dispatcher that is accepted stands at `/v2/*path` with GET or HEAD, and declares, none twice,
-- exactly the operations that the document has at the paths of the OCI protocol.
pub validate_runtime_dispatcher-exact :
    (contract : Contract) (method path : String) (ids : List String)
    → validate_runtime_dispatcher contract method path ids ≡ ok tt
    → (path ≡ dispatcher_path)
      × ((method ≡ "GET") ⊎ (method ≡ "HEAD"))
      × (is_nodup ids ≡ true)
      × ((expected : List String) × (operation_ids contract method contract_paths ≡ ok expected)
          × ((id : String) → contains ids id ≡ contains expected id))
unfolding validate_runtime_dispatcher compare_declared
validate_runtime_dispatcher-exact contract method path ids h =
    let (expected, found, compared) =
      >>=-eq-ok (runtime_dispatcher_operation_ids contract method path) (compare_declared ids) h in
    let (declared, declares, checks) = >>=-eq-ok (declare_all [] ids) (λ _. _) compared in
    let (u, none_missing, none_unexpected) =
      >>=-eq-ok (all_in declared missing_operation expected) (λ _. _) checks in
    let (nodup, fresh, same) = declare_all-nodup [] ids {all_ids = declared} declares in
    let (at_path, by_method, operations) = dispatcher_ids-method contract method path found in
    (
      at_path,
      by_method,
      nodup,
      (
        expected,
        operations,
        λ id.
            same_members ids expected id
              (all_in-contains expected unexpected_operation ids none_unexpected id)
              (λ stands.
                sym (same id)
                ∙ all_in-contains declared missing_operation expected none_missing id stands),
      ),
    )
