-- ===== src/Strings/Trimming.antt =====
-- `strings.Trim` keeps a text that starts and ends with other characters.
use Prim.Native.Char.{Char, code}
use text.Mathlib.TextLemmas.{nil-append, cons-append, cons-ne-nil, append_assoc}
use image_factory.Prelude.{
  ℕ, String, ◌≡◌, refl, sym, ap, ◌∙◌, ◌≢◌, Bool, true, false, arith, nat_eq, ◌⧺◌, nat_eq_of_ne,
}
use image_factory.Strings.{trim_left, cons_unless, trim_right, trim_func, trim}
use image_factory.Strings.Cutting.{Lacks}

cons_unless-append :
    (b : Bool) (c : Char) (s : String) → s ≢ "" → cons_unless b c s ≡ String.◌∷◌ c s
cons_unless-append true c String.[] h = absurd (h refl)
cons_unless-append true c (String.◌∷◌ d s) h = refl
cons_unless-append false c s h = refl

trim_right-Lacks : (d : ℕ) (s : String) → Lacks d s → trim_right (nat_eq d) s ≡ s
unfolding trim_right
trim_right-Lacks d String.[] h = refl
trim_right-Lacks d (String.◌∷◌ c s) (h, hs) =
    rw (nat_eq_of_ne d (code c) (λ e. h (sym e)), trim_right-Lacks d s hs) refl

pub append-ne-nil : (s t : String) → t ≢ "" → s ⧺ t ≢ ""
append-ne-nil String.[] t h e = h (sym (nil-append t) ∙ e)
append-ne-nil (String.◌∷◌ c s) t h e = cons-ne-nil c (s ⧺ t) (sym (cons-append c s t) ∙ e)

trim_right-append :
    (d : ℕ) (s t : String) → Lacks d t → t ≢ "" → trim_right (nat_eq d) (s ⧺ t) ≡ s ⧺ t
unfolding trim_right
trim_right-append d String.[] t h k = rw nil-append (trim_right-Lacks d t h)
trim_right-append d (String.◌∷◌ c s) t h k =
    rw (cons-append c s t, trim_right-append d s t h k)
      (cons_unless-append (nat_eq d (code c)) c (s ⧺ t) (append-ne-nil s t k))

trim_left-append :
    (d : ℕ) (s t : String) → Lacks d s → s ≢ "" → trim_left (nat_eq d) (s ⧺ t) ≡ s ⧺ t
unfolding trim_left
trim_left-append d String.[] t h k = absurd (k refl)
trim_left-append d (String.◌∷◌ c s) t (h, hs) k =
    rw (cons-append c s t, nat_eq_of_ne d (code c) (λ e. h (sym e))) refl

pub trim-append :
    (d : ℕ) (s t u : String)
    → Lacks d s
    → s ≢ ""
    → Lacks d u
    → u ≢ ""
    → trim d (s ⧺ t ⧺ u) ≡ s ⧺ t ⧺ u
unfolding trim trim_func
trim-append d s t u hs ks hu ku =
    ap (trim_right (nat_eq d)) (trim_left-append d s (t ⧺ u) hs ks)
    ∙ ap (trim_right (nat_eq d)) (sym (append_assoc s t u))
    ∙ trim_right-append d (s ⧺ t) u hu ku
    ∙ append_assoc s t u

-- A separator in front is cut off.
pub trim-cons : (c : Char) (s : String) → trim (code c) (String.◌∷◌ c s) ≡ trim (code c) s
unfolding trim trim_func trim_left
trim-cons c s = ground arith
