-- ===== src/Token/Scopes/RoundTrip.antt =====
-- Formatting and parsing of a scope claim.
use image_factory.Prelude.{
  String, ◌≡◌, refl, ap, ◌∙◌, subst, inl, inr, true, false, some, List, [], ◌∷◌, ◌++◌, append_assoc,
  append-nil, arith, eq_iff, ◌==◌, Bool-cases, Option-cases, ne_of_test, is_empty, All, contains,
  is_nodup, contains-nodup, is_nodup-concat, ok,
}
use image_factory.Strings.{contains_func, is_space, fields}
use image_factory.Strings.Fields.{IsWord, fields-join}
use image_factory.Token.Scope.{
  Scope, scope_image_read, scope_report_read, scope_schematic_create, scope_schematic_read,
  scope_source_pull, scope_token_issue, scope_token_read, scope_token_revoke, scope_routes, lookup,
  valid, api_mintable,
}
use image_factory.Token.Scopes.{parse_scopes, format_scopes, add_new, collect}

lookup-All {ℓ κ} :
    {V : Type ℓ} (P : String → Type κ) (k : String) (m : List (String × V)) {v : V}
    → All (λ e. P e.0) m
    → lookup k m ≡ some v
    → P k
unfolding lookup
lookup-All P k [] h found = cc
lookup-All P k ((j, w) ∷ m) {v} (here, later) found = elim (Bool-cases (j == k)) [
  | inl same ↦ subst P ((eq_iff j k).0 same) here
  | inr other ↦ lookup-All P k m {v = v} later (rw other at found)
]

word : (s : String) → (s == "") ≡ false → contains_func is_space s ≡ false → IsWord s
word s h k = (ne_of_test h, k)

routes-IsWord : All (λ e. IsWord e.0) scope_routes
unfolding scope_routes contains_func is_space
routes-IsWord = (
  word scope_image_read refl refl,
  (
    word scope_source_pull refl refl,
    (
      word scope_schematic_create refl refl,
      (
        word scope_schematic_read refl refl,
        (
          word scope_report_read refl refl,
          (
            word scope_token_issue refl refl,
            (word scope_token_read refl refl, (word scope_token_revoke refl refl, tt)),
          ),
        ),
      ),
    ),
  ),
)

valid-IsWord : (s : String) → valid s ≡ true → IsWord s
unfolding valid
valid-IsWord s h = elim (Option-cases (lookup s scope_routes)) [
  | inl missing ↦ cc (rw (missing, valid) at h)
  | inr (allow, found) ↦ lookup-All IsWord s scope_routes routes-IsWord found
]

api_mintable-All : (scopes : List Scope) → api_mintable scopes ≡ true → All IsWord scopes
unfolding api_mintable
api_mintable-All [] h = tt
api_mintable-All (s ∷ ss) h = (valid-IsWord s (ground arith), api_mintable-All ss (ground arith))

-- The scopes so far, and those to come, of which none is twice in the whole list.
collect-new :
    (scopes rest : List Scope)
    → is_nodup (scopes ++ rest) ≡ true
    → api_mintable rest ≡ true
    → collect scopes rest ≡ ok (scopes ++ rest)
unfolding collect api_mintable
collect-new scopes [] h k = rw append-nil
collect-new scopes (s ∷ rest) h k =
    let known : valid s ≡ true = ground arith in
    let more = collect-new (scopes ++ s ∷ []) rest (rw append_assoc h) (ground arith) in
    rw (known, contains-nodup scopes s rest h, collect)
      (more ∙ ap ok (append_assoc scopes (s ∷ []) rest))

-- A claim that the issuer writes is read back as it was, unless a scope stood in it twice.
pub parse_scopes-format_scopes :
    (scopes : List Scope)
    → is_empty scopes ≡ false
    → is_nodup scopes ≡ true
    → api_mintable scopes ≡ true
    → parse_scopes (format_scopes scopes) ≡ ok scopes
unfolding parse_scopes format_scopes
parse_scopes-format_scopes scopes some_scope h k =
    rw (fields-join scopes (api_mintable-All scopes k), some_scope) (collect-new [] scopes h k)

api_mintable-concat :
    (scopes : List Scope) (s : Scope)
    → api_mintable scopes ≡ true
    → valid s ≡ true
    → api_mintable (scopes ++ s ∷ []) ≡ true
unfolding api_mintable
api_mintable-concat [] s h k = rw k
api_mintable-concat (t ∷ ts) s h k = ground (arith, api_mintable-concat ts s)

add_new-some :
    (scopes : List Scope) (s : Scope)
    → is_empty scopes ≡ false
    → is_empty (add_new scopes s) ≡ false
add_new-some [] s h = cc
add_new-some (t ∷ ts) s h = ground arith

-- What the loop keeps: the scopes so far are known, and none is there twice.
collect_sound :
    (scopes rest : List Scope) {found : List Scope}
    → is_nodup scopes ≡ true
    → api_mintable scopes ≡ true
    → collect scopes rest ≡ ok found
    → (is_nodup found ≡ true) × (api_mintable found ≡ true)
unfolding collect
collect_sound scopes [] h k e = ground arith
collect_sound scopes (s ∷ rest) {found} h k e = elim (Bool-cases (valid s)) [
  | inr unknown ↦ cc (rw unknown at e)
  | inl known ↦ elim (Bool-cases (contains scopes s)) [
    | inl old ↦ collect_sound scopes rest {found = found} h k (rw (known, old) at e)
    | inr new ↦
        collect_sound (scopes ++ s ∷ []) rest {found = found} (is_nodup-concat scopes s h new)
          (api_mintable-concat scopes s k known) (rw (known, new) at e)
  ]
]

-- The loop keeps what it has.
collect-grows :
    (scopes rest : List Scope) {found : List Scope}
    → is_empty scopes ≡ false
    → collect scopes rest ≡ ok found
    → is_empty found ≡ false
unfolding collect
collect-grows scopes [] h e = ground arith
collect-grows scopes (s ∷ rest) {found} h e = elim (Bool-cases (valid s)) [
  | inr unknown ↦ cc (rw unknown at e)
  | inl known ↦
      collect-grows (add_new scopes s) rest {found = found} (add_new-some scopes s h)
        (rw known at e)
]

-- The first field is there in the end.
collect-some :
    (rest : List Scope) {found : List Scope}
    → is_empty rest ≡ false
    → collect [] rest ≡ ok found
    → is_empty found ≡ false
unfolding collect
collect-some [] h e = cc
collect-some (s ∷ rest) {found} h e = elim (Bool-cases (valid s)) [
  | inr unknown ↦ cc (rw unknown at e)
  | inl known ↦ collect-grows (s ∷ []) rest {found = found} refl (rw known at e)
]

-- What `ParseScopes` accepts: at least one scope, each of the catalog, none of them twice.
pub parse_scopes_sound :
    (claim : String) (scopes : List Scope)
    → parse_scopes claim ≡ ok scopes
    → (is_empty scopes ≡ false) × (is_nodup scopes ≡ true) × (api_mintable scopes ≡ true)
unfolding parse_scopes
parse_scopes_sound claim scopes e = elim (Bool-cases (is_empty (fields claim))) [
  | inl none_there ↦ cc (rw none_there at e)
  | inr some_there ↦
      let collected : collect [] (fields claim) ≡ ok scopes = rw some_there at e in
      let sound =
        collect_sound [] (fields claim) {found = scopes} refl (unfold api_mintable in refl)
          collected in
      (collect-some (fields claim) {found = scopes} some_there collected, sound.0, sound.1)
]
