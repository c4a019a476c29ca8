-- ===== src/Prelude/Lists.antt =====
-- Lists measured by native numbers, and the membership tests of the Go package `slices` on texts.
use Prim.Native.Nat.{ℕ, suc, ◌+◌}
use Prim.Native.String.{String}
use mathlib.Core.Path.{◌≡◌, refl}
use mathlib.Core.Bool.{Bool, true, false, not, ◌&&◌, ◌||◌}
use mathlib.Core.Logic.{◌⊎◌}
use mathlib.Core.List.{List, [], ◌∷◌, ◌++◌}
use native.Mathlib.Omega.{arith}
use text.Mathlib.TextEquality.{eq_iff}
use image_factory.Prelude.Tests.{◌==◌}

module _ {ℓ} {A : Type ℓ} where
  abbrev pub length : List A → ℕ
  length [] = 0
  length (x ∷ xs) = suc (length xs)

  pub length-append : (xs ys : List A) → length (xs ++ ys) ≡ length xs + length ys
  length-append [] ys = omega arith
  length-append (x ∷ xs) ys = omega (arith, length-append xs ys)

  abbrev pub all : (A → Bool) → List A → Bool
  all p [] = true
  all p (x ∷ xs) = p x && all p xs

  abbrev pub any : (A → Bool) → List A → Bool
  any p [] = false
  any p (x ∷ xs) = p x || any p xs

  abbrev pub is_empty : List A → Bool
  is_empty [] = true
  is_empty (x ∷ xs) = false

-- Membership.
abbrev pub Among : {A : Type 0} → A → List A → Type 0
Among a [] = ⊥
Among a (x ∷ xs) = (a ≡ x) ⊎ Among a xs

module _ {ℓ κ} {A : Type ℓ} where
  abbrev pub All : (A → Type κ) → List A → Type κ
  All P [] = Unit
  All P (x ∷ xs) = P x × All P xs

  pub All-append : (P : A → Type κ) (xs ys : List A) → All P xs → All P ys → All P (xs ++ ys)
  All-append P [] ys h k = k
  All-append P (x ∷ xs) ys (p, h) k = (p, All-append P xs ys h k)

-- `slices.Contains` on strings.
abbrev pub contains : List String → String → Bool
contains [] s = false
contains (t ∷ ts) s = t == s || contains ts s

pub contains-append :
    (xs ys : List String) (s : String) → contains (xs ++ ys) s ≡ (contains xs s || contains ys s)
contains-append [] ys s = refl
contains-append (x ∷ xs) ys s = ground (arith, contains-append xs ys s)

-- No text stands twice in the list.
abbrev pub is_nodup : List String → Bool
is_nodup [] = true
is_nodup (x ∷ xs) = not (contains xs x) && is_nodup xs

-- In a list with no text twice, what stands behind does not stand before.
pub contains-nodup :
    (xs : List String) (s : String) (ys : List String)
    → is_nodup (xs ++ s ∷ ys) ≡ true
    → contains xs s ≡ false
contains-nodup [] s ys h = refl
contains-nodup (x ∷ xs) s ys h =
    ground (arith, contains-append xs (s ∷ ys) x, contains-nodup xs s ys, eq_iff x s, eq_iff s x)

pub is_nodup-concat :
    (xs : List String) (s : String)
    → is_nodup xs ≡ true
    → contains xs s ≡ false
    → is_nodup (xs ++ s ∷ []) ≡ true
is_nodup-concat [] s h k = refl
is_nodup-concat (x ∷ xs) s h k =
    ground (arith, contains-append xs (s ∷ []) x, is_nodup-concat xs s, eq_iff x s, eq_iff s x)
