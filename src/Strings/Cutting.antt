-- ===== src/Strings/Cutting.antt =====
-- Prefixes, suffixes and separators: cutting undoes joining.
use Prim.Native.Char.{Char, code}
use text.Mathlib.TextEquality.{Char-path}
use text.Mathlib.TextLemmas.{nil-append, cons-append, append_cancel_right, cons-ne-nil}
use image_factory.Prelude.{
  ℕ, zero, suc, String, ◌≡◌, refl, sym, ap, ◌∙◌, ◌≢◌, ◌↔◌, inl, inr, true, false, false≢true, none,
  some, arith, eq_iff, eq_refl, nat_eq, ◌==◌, ◌⧺◌, nat_eq_iff, nat_eq_of_ne, Bool-cases,
  Option-cases, test_of_ne,
}
use image_factory.Strings.{cons, cut_prefix, has_prefix, cut_suffix, cut}

pub cut_prefix-append : (p s : String) → cut_prefix (p ⧺ s) p ≡ some s
unfolding cut_prefix
cut_prefix-append String.[] s = rw nil-append
cut_prefix-append (String.◌∷◌ c p) s = rw cons-append (ground (arith, cut_prefix-append p s))

-- A cut that succeeds takes the text apart.
pub append-cut_prefix : (s p : String) {r : String} → cut_prefix s p ≡ some r → s ≡ p ⧺ r
unfolding cut_prefix
append-cut_prefix s String.[] h = rw nil-append (cc)
append-cut_prefix String.[] (String.◌∷◌ d p) h = cc
append-cut_prefix (String.◌∷◌ c s) (String.◌∷◌ d p) {r} h =
    elim (Bool-cases (nat_eq (code c) (code d))) [
      | inl same ↦
          let c≡d = Char-path c d ((nat_eq_iff _ _).0 same) in
          rw cons-append (cc (c≡d, append-cut_prefix s p {r = r} (rw same at h)))
      | inr other ↦ cc (rw other at h)
    ]

pub has_prefix_iff : (s p : String) → (has_prefix s p ≡ true) ↔ ((r : String) × (s ≡ p ⧺ r))
unfolding has_prefix
has_prefix_iff s p = (to, λ (r, e). rw (e, has_prefix, cut_prefix-append))
  where
    to : has_prefix s p ≡ true → (r : String) × (s ≡ p ⧺ r)
    to h = elim (Option-cases (cut_prefix s p)) [
      | inl missing ↦ cc (rw (missing, has_prefix) at h)
      | inr (r, found) ↦ (r, append-cut_prefix s p found)
    ]

cut_suffix_self : (p : String) → cut_suffix p p ≡ some ""
unfolding cut_suffix
cut_suffix_self String.[] = refl
cut_suffix_self (String.◌∷◌ c s) = rw eq_refl

pub cut_suffix-append : (s p : String) → cut_suffix (s ⧺ p) p ≡ some s
unfolding cut_suffix
cut_suffix-append String.[] p = rw (nil-append p) (cut_suffix_self p)
cut_suffix-append (String.◌∷◌ c s) p =
    let longer : (String.◌∷◌ c (s ⧺ p) == p) ≡ false = test_of_ne λ e.
      cons-ne-nil c s
        (append_cancel_right (String.◌∷◌ c s) "" p (rw (cons-append, nil-append) e)) in
    rw cons-append (rw (longer, cut_suffix-append s p))

pub append-cut_suffix : (s p : String) {r : String} → cut_suffix s p ≡ some r → s ≡ r ⧺ p
unfolding cut_suffix
append-cut_suffix String.[] p {r} h =
    let fits : ("" == p) ≡ true = ground arith in
    let whole : "" ≡ p = (eq_iff "" p).0 fits in
    let left : r ≡ "" = ground arith in rw (left, nil-append) whole
append-cut_suffix (String.◌∷◌ c s) p {r} h = elim (Bool-cases (String.◌∷◌ c s == p)) [
  | inl whole ↦
      let left : r ≡ "" = ground (arith, whole) in rw (left, nil-append) ((eq_iff _ p).0 whole)
  | inr longer ↦ elim (Option-cases (cut_suffix s p)) [
    | inl missing ↦ ground (arith, longer, missing)
    | inr (q, found) ↦
        let left : r ≡ String.◌∷◌ c q = ground (arith, longer, found) in
        rw (left, cons-append) (ap (cons c) (append-cut_suffix s p found))
  ]
]

-- The last code point of a text, and `k` of the empty text.
abbrev pub last_or : ℕ → String → ℕ
last_or k String.[] = k
last_or k (String.◌∷◌ c s) = last_or (code c) s

pub last_or-append : (k : ℕ) (s t : String) → last_or k (s ⧺ t) ≡ last_or (last_or k s) t
last_or-append k String.[] t = rw nil-append
last_or-append k (String.◌∷◌ c s) t = rw cons-append (last_or-append (code c) s t)

-- A suffix with another last character is not cut.
pub cut_suffix-none : (s p : String) → ((k : ℕ) → last_or k p ≢ last_or 0 s) → cut_suffix s p ≡ none
cut_suffix-none s p h = elim (Option-cases (cut_suffix s p)) [
  | inl missing ↦ missing
  | inr (r, found) ↦
      absurd (h (last_or 0 r) (rw (append-cut_suffix s p found) (sym (last_or-append 0 r p))))
]

-- A text in which the character does not stand.
abbrev pub Lacks : ℕ → String → Type 0
Lacks k String.[] = Unit
Lacks k (String.◌∷◌ c s) = (code c ≢ k) × Lacks k s

cut_prefix_ne :
    (c d : Char) (s p : String)
    → code c ≢ code d
    → cut_prefix (String.◌∷◌ c s) (String.◌∷◌ d p) ≡ none
unfolding cut_prefix
cut_prefix_ne c d s p h = rw (nat_eq_of_ne (code c) (code d) h)

cut_prefix_same :
    (c d : Char) (s p : String)
    → nat_eq (code c) (code d) ≡ true
    → cut_prefix (String.◌∷◌ c s) (String.◌∷◌ d p) ≡ cut_prefix s p
unfolding cut_prefix
cut_prefix_same c d s p h = rw h

-- The first separator is found behind a text in which its first character does not stand.
module _ (d : Char) (p : String) where
  pub cut_behind :
      (s t : String) {b a : String}
      → Lacks (code d) s
      → cut t (String.◌∷◌ d p) ≡ some (b, a)
      → cut (s ⧺ t) (String.◌∷◌ d p) ≡ some (s ⧺ b, a)
  unfolding cut
  cut_behind String.[] t {b} h found = rw (nil-append t, nil-append b) found
  cut_behind (String.◌∷◌ c s) t {b} {a} (h, hs) found =
      rw (cons-append c s t, cons-append c s b, cut_prefix_ne c d (s ⧺ t) p h, cut)
        (rw (cut_behind s t {b = b} {a = a} hs found))

  pub cut_behind-none :
      (s t : String)
      → Lacks (code d) s
      → cut t (String.◌∷◌ d p) ≡ none
      → cut (s ⧺ t) (String.◌∷◌ d p) ≡ none
  unfolding cut
  cut_behind-none String.[] t h missing = rw (nil-append t) missing
  cut_behind-none (String.◌∷◌ c s) t (h, hs) missing =
      rw (cons-append c s t, cut_prefix_ne c d (s ⧺ t) p h, cut)
        (rw (cut_behind-none s t hs missing))

-- A prefix that ends in the separator is the text before the separator.
pub cut_prefix-eq :
    (s t w : String) (d : Char) {r : String}
    → Lacks (code d) s
    → Lacks (code d) w
    → cut_prefix (s ⧺ String.◌∷◌ d t) (w ⧺ String.◌∷◌ d "") ≡ some r
    → s ≡ w
cut_prefix-eq String.[] t String.[] d h k found = refl
cut_prefix-eq String.[] t (String.◌∷◌ e w) d h (k, ks) found = cc (
    rw
      (
        nil-append (String.◌∷◌ d t),
        cons-append e w (String.◌∷◌ d ""),
        cut_prefix_ne d e t (w ⧺ String.◌∷◌ d "") (λ q. k (sym q)),
      )
      at found)
cut_prefix-eq (String.◌∷◌ c s) t String.[] d (h, hs) k found = cc (
    rw
      (
        nil-append (String.◌∷◌ d ""),
        cons-append c s (String.◌∷◌ d t),
        cut_prefix_ne c d (s ⧺ String.◌∷◌ d t) "" h,
      )
      at found)
cut_prefix-eq (String.◌∷◌ c s) t (String.◌∷◌ e w) d {r} (h, hs) (k, ks) found =
    let opened : cut_prefix (String.◌∷◌ c (s ⧺ String.◌∷◌ d t)) (String.◌∷◌ e (w ⧺ String.◌∷◌ d ""))
        ≡ some r =
      rw (cons-append c s (String.◌∷◌ d t), cons-append e w (String.◌∷◌ d "")) at found in
    elim (Bool-cases (nat_eq (code c) (code e))) [
      | inl same ↦
          let rest : s ≡ w =
            cut_prefix-eq s t w d {r = r} hs ks (
              rw (cut_prefix_same c e (s ⧺ String.◌∷◌ d t) (w ⧺ String.◌∷◌ d "") same) at opened) in
          cc (Char-path c e ((nat_eq_iff _ _).0 same), rest)
      | inr other ↦
          let differ = λ (q : code c ≡ code e). false≢true (sym other ∙ (nat_eq_iff _ _).1 q) in
          cc (rw (cut_prefix_ne c e (s ⧺ String.◌∷◌ d t) (w ⧺ String.◌∷◌ d "") differ) at opened)
    ]

-- The code point at a position, 0 past the end.
abbrev pub code_at : ℕ → String → ℕ
code_at i String.[] = 0
code_at zero (String.◌∷◌ c s) = code c
code_at (suc i) (String.◌∷◌ c s) = code_at i s

-- A text agrees with its prefix wherever the prefix has a character.
pub code_at-prefix :
    (i : ℕ) (s p : String) → has_prefix s p ≡ true → code_at i p ≢ 0 → code_at i s ≡ code_at i p
unfolding has_prefix cut_prefix
code_at-prefix i s String.[] h k = absurd (k refl)
code_at-prefix i String.[] (String.◌∷◌ d p) h k = cc
code_at-prefix zero (String.◌∷◌ c s) (String.◌∷◌ d p) h k = ground arith
code_at-prefix (suc i) (String.◌∷◌ c s) (String.◌∷◌ d p) h k = code_at-prefix i s p (ground arith) k

pub code_at-eq : (i : ℕ) (s t : String) → (s == t) ≡ true → code_at i s ≡ code_at i t
code_at-eq i s t h = ap (code_at i) ((eq_iff s t).0 h)
