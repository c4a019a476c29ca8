-- ===== src/Token/Ttl.antt =====
-- internal/apitoken/apitoken.go: the lifetimes that the configuration grants. Durations are signed
-- numbers of nanoseconds; they are compared and never added here, so no overflow arises.
use image_factory.Prelude.{
  ◌≡◌, subst, inl, inr, Bool, true, false, ◌&&◌, ◌||◌, ◌≤ℤ◌, ltb_ℤ, leb_ℤ, ℤ, pos, if◌then◌else◌,
  ltb→le, Bool-cases, ok-injective, Result, ok, err,
}
use image_factory.Token.Errors.{TokenError, ttl_out_of_range, no_administrative_ttl}

pub record Ttl : Type 0 where
  pub default : ℤ
  pub min : ℤ
  pub max : ℤ

pub record StorageTtl : Type 0 where
  pub stored : Ttl
  pub ephemeral : Ttl

abbrev eq_ℤ : ℤ → ℤ → Bool
eq_ℤ a b = leb_ℤ a b && leb_ℤ b a

-- `i.bootstrap == (TTL{})`
unfoldable pub is_zero_ttl : Ttl → Bool
is_zero_ttl t = eq_ℤ t.default (pos 0) && eq_ℤ t.min (pos 0) && eq_ℤ t.max (pos 0)

unfoldable pub resolve : Ttl → ℤ → Result TokenError ℤ
resolve t requested =
    if leb_ℤ requested (pos 0)
    then ok t.default
    else if ltb_ℤ requested t.min || ltb_ℤ t.max requested
    then err ttl_out_of_range
    else ok requested

-- `resolveTTL`, over the two configurations that the issuer holds.
unfoldable pub resolve_ttl : Ttl → StorageTtl → Bool → ℤ → Bool → Result TokenError ℤ
resolve_ttl bootstrap storage stored requested administrative =
    if administrative
    then (if is_zero_ttl bootstrap then err no_administrative_ttl else resolve bootstrap requested)
    else resolve (if stored then storage.stored else storage.ephemeral) requested

-- The bounds that rule a request.
abbrev pub bounds : Ttl → StorageTtl → Bool → Bool → Ttl
bounds bootstrap storage stored administrative =
    if administrative then bootstrap else if stored then storage.stored else storage.ephemeral

abbrev pub IsWithin : Ttl → ℤ → Type 0
IsWithin t d = (t.min ≤ℤ d) × (d ≤ℤ t.max)

resolve-IsWithin :
    (t : Ttl) (requested : ℤ) {d : ℤ}
    → IsWithin t t.default
    → resolve t requested ≡ ok d
    → IsWithin t d
unfolding resolve
resolve-IsWithin t requested {d} h e = elim (Bool-cases (leb_ℤ requested (pos 0))) [
  | inl unspecified ↦ subst (IsWithin t) (ok-injective (rw unspecified at e)) h
  | inr specified ↦ elim (Bool-cases (ltb_ℤ requested t.min)) [
    | inl short ↦ cc (rw (specified, short) at e)
    | inr long_enough ↦ elim (Bool-cases (ltb_ℤ t.max requested)) [
      | inl long ↦ cc (rw (specified, long_enough, long) at e)
      | inr short_enough ↦
          subst (IsWithin t) (ok-injective (rw (specified, long_enough, short_enough) at e))
            (ltb→le _ _ long_enough, ltb→le _ _ short_enough)
    ]
  ]
]

-- A granted lifetime lies within the bounds that rule the request, if their default does.
pub resolve_ttl-bounds :
    (bootstrap : Ttl) (storage : StorageTtl) (stored administrative : Bool) (requested : ℤ) {d : ℤ}
    → IsWithin
        (bounds bootstrap storage stored administrative)
        (bounds bootstrap storage stored administrative).default
    → resolve_ttl bootstrap storage stored requested administrative ≡ ok d
    → IsWithin (bounds bootstrap storage stored administrative) d
unfolding resolve_ttl
resolve_ttl-bounds bootstrap storage stored true requested {d} h e =
    elim (Bool-cases (is_zero_ttl bootstrap)) [
      | inl unset ↦ cc (rw unset at e)
      | inr set ↦ resolve-IsWithin bootstrap requested {d = d} h (rw set at e)
    ]
resolve_ttl-bounds bootstrap storage true false requested {d} h e =
    resolve-IsWithin storage.stored requested {d = d} h e
resolve_ttl-bounds bootstrap storage false false requested {d} h e =
    resolve-IsWithin storage.ephemeral requested {d = d} h e
