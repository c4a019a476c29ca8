-- ===== src/Token/Scope/Delegated.antt =====
-- `Covers` and `CanGrant`: inclusion of sets of scopes, and what it means for requests.
use image_factory.Prelude.{
  String, ◌≡◌, refl, ◌↔◌, inl, inr, true, List, [], ◌∷◌, arith, eq_iff, ◌==◌, Bool-cases, All,
  contains,
}
use image_factory.Token.Scope.{Scope, scope_allows, allows, covers, can_grant}

-- The independent description of `Covers`: whatever is wanted is held.
abbrev pub Includes : List Scope → List Scope → Type 0
Includes have want = All (λ scope. contains have scope ≡ true) want

covers→Includes : (have want : List Scope) → covers have want ≡ true → Includes have want
unfolding covers
covers→Includes have [] h = tt
covers→Includes have (scope ∷ want) h = (ground arith, covers→Includes have want (ground arith))

Includes→covers : (have want : List Scope) → Includes have want → covers have want ≡ true
unfolding covers
Includes→covers have [] h = refl
Includes→covers have (scope ∷ want) (here, later) = rw here (Includes→covers have want later)

-- `CanGrant` accepts exactly the sets of scopes that the ceiling includes.
pub can_grant_iff :
    (issuable want : List Scope) → (can_grant issuable want ≡ true) ↔ Includes issuable want
unfolding can_grant
can_grant_iff issuable want = (covers→Includes issuable want, Includes→covers issuable want)

Includes-contains :
    (have want : List Scope) (scope : Scope)
    → Includes have want
    → contains want scope ≡ true
    → contains have scope ≡ true
Includes-contains have [] scope h k = cc
Includes-contains have (s ∷ want) scope (here, later) k = elim (Bool-cases (s == scope)) [
  | inl same ↦ rw (← (eq_iff s scope).0 same) here
  | inr other ↦ Includes-contains have want scope later (rw other at k)
]

allows-contains :
    (scopes : List Scope) (scope method path : String)
    → contains scopes scope ≡ true
    → scope_allows scope method path ≡ true
    → allows scopes method path ≡ true
unfolding allows
allows-contains [] scope method path h k = cc
allows-contains (s ∷ ss) scope method path h k = elim (Bool-cases (s == scope)) [
  | inl same ↦ rw ((eq_iff s scope).0 same) (rw k)
  | inr other ↦ ground (arith, allows-contains ss scope method path)
]

allows-Includes :
    (issuable want : List Scope) (method path : String)
    → Includes issuable want
    → allows want method path ≡ true
    → allows issuable method path ≡ true
unfolding allows
allows-Includes issuable [] method path h k = cc
allows-Includes issuable (scope ∷ want) method path (here, later) k =
    elim (Bool-cases (scope_allows scope method path)) [
      | inl now ↦ allows-contains issuable scope method path here now
      | inr not_now ↦ allows-Includes issuable want method path later (rw not_now at k)
    ]

-- A child token authenticates no request that its parent's ceiling would not authenticate.
pub allows-can_grant :
    (issuable want : List Scope) (method path : String)
    → can_grant issuable want ≡ true
    → allows want method path ≡ true
    → allows issuable method path ≡ true
allows-can_grant issuable want method path granted =
    allows-Includes issuable want method path ((can_grant_iff issuable want).0 granted)

-- Ceilings only shrink along a chain of tokens.
pub can_grant_trans :
    (a b c : List Scope) → can_grant a b ≡ true → can_grant b c ≡ true → can_grant a c ≡ true
can_grant_trans a b c h k = (can_grant_iff a c).1 (go c ((can_grant_iff b c).0 k))
  where
    go : (ws : List Scope) → Includes b ws → Includes a ws
    go [] _ = tt
    go (w ∷ ws) (here, later) =
        (Includes-contains a b w ((can_grant_iff a b).0 h) here, go ws later)
