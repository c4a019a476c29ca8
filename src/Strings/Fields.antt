-- ===== src/Strings/Fields.antt =====
-- Splitting a text into its words undoes joining them by a space.
use Prim.Native.Char.{code}
use text.Mathlib.TextLemmas.{nil-append, append-nil, cons-append, cons-ne-nil}
use image_factory.Prelude.{
  String, ◌≡◌, refl, sym, ap, ◌∙◌, ◌≢◌, inl, inr, false, some, List, [], ◌∷◌, arith, ◌⧺◌,
  Bool-cases, All,
}
use image_factory.Strings.{
  cut_suffix, cut, contains_func, split, join, is_space, fields, trim_space, trim, nonempty,
  words_of, word_step,
}

-- A text with no white space that is not empty.
abbrev pub IsWord : String → Type 0
IsWord s = (s ≢ "") × (contains_func is_space s ≡ false)

words_of-append :
    (w t : String)
    → contains_func is_space w ≡ false
    → words_of (w ⧺ t) ≡ (w ⧺ (words_of t).0, (words_of t).1)
unfolding words_of contains_func
words_of-append String.[] t h = rw (nil-append t, nil-append (words_of t).0)
words_of-append (String.◌∷◌ c w) t h =
    let solid : is_space (code c) ≡ false = ground arith in
    rw
      (cons-append c w t, cons-append c w (words_of t).0, words_of-append w t (ground arith), solid)

nonempty-word : (w : String) (ts : List String) → w ≢ "" → nonempty w ts ≡ w ∷ ts
nonempty-word String.[] ts h = absurd (h refl)
nonempty-word (String.◌∷◌ c w) ts h = refl

fields-append :
    (w t : String) → IsWord w → (words_of t).0 ≡ "" → fields (w ⧺ t) ≡ w ∷ (words_of t).1
unfolding fields
fields-append w t (some_text, solid) ended =
    rw (words_of-append w t solid, ended, append-nil w) (nonempty-word w (words_of t).1 some_text)

fields-word : (w : String) → IsWord w → fields w ≡ w ∷ []
unfolding words_of
fields-word w h = ap fields (sym (append-nil w)) ∙ fields-append w "" h refl

words_of-space : (t : String) → words_of (" " ⧺ t) ≡ ("", fields t)
unfolding fields words_of
words_of-space t = rw (cons-append, nil-append)

fields-append-space : (w t : String) → IsWord w → fields (w ⧺ " " ⧺ t) ≡ w ∷ fields t
fields-append-space w t h =
    fields-append w (" " ⧺ t) h (ap (λ p. p.0) (words_of-space t))
    ∙ ap (λ (p : String × List String). w ∷ p.1) (words_of-space t)

-- The fields of words that are joined by a space are the words.
pub fields-join : (ws : List String) → All IsWord ws → fields (join " " ws) ≡ ws
unfolding join
fields-join [] h = unfold fields words_of in refl
fields-join (w ∷ []) (h, _) = fields-word w h
fields-join (w ∷ v ∷ ws) (h, hs) =
    fields-append-space w (join " " (v ∷ ws)) h ∙ ap (λ ts. w ∷ ts) (fields-join (v ∷ ws) hs)

AreWords : String × List String → Type 0
AreWords (w, ws) = (contains_func is_space w ≡ false) × All IsWord ws

nonempty-All :
    (w : String) (ws : List String)
    → contains_func is_space w ≡ false
    → All IsWord ws
    → All IsWord (nonempty w ws)
nonempty-All String.[] ws h hs = hs
nonempty-All (String.◌∷◌ c w) ws h hs = ((cons-ne-nil c w, h), hs)

words_of-AreWords : (s : String) → AreWords (words_of s)
unfolding AreWords words_of contains_func
words_of-AreWords String.[] = (refl, tt)
words_of-AreWords (String.◌∷◌ c s) =
    let (here, later) = words_of-AreWords s in
    elim (Bool-cases (is_space (code c))) [
      | inl space ↦
          rw (space, word_step) (refl, nonempty-All (words_of s).0 (words_of s).1 here later)
      | inr solid ↦ rw (solid, word_step) (rw (solid, contains_func) here, later)
    ]

-- Every field is a word.
pub fields-All : (s : String) → All IsWord (fields s)
unfolding fields AreWords
fields-All s =
    nonempty-All (words_of s).0 (words_of s).1 (words_of-AreWords s).0 (words_of-AreWords s).1

cutting_tests :
    (fields " a  bc " ≡ "a" ∷ "bc" ∷ [])
    × (trim_space " a b " ≡ "a b")
    × (cut "a-b-c" "-" ≡ some ("a", "b-c"))
unfolding fields trim_space cut
cutting_tests = (refl, refl, refl)

joining_tests :
    (cut_suffix "a.xz" ".xz" ≡ some "a")
    × (split b'/' "a//b" ≡ "a" ∷ "" ∷ "b" ∷ [])
    × (join " " ("a" ∷ "b" ∷ []) ≡ "a b")
    × (trim b'/' "//a/b/" ≡ "a/b")
unfolding cut_suffix split join trim
joining_tests = (refl, refl, refl, refl)
