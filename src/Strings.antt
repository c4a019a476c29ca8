-- ===== src/Strings.antt =====
-- The functions of Go's `strings` and `unicode` packages that the program calls, over texts as
-- sequences of code points. A separator or an affix of the program is ASCII, so cutting by code
-- points and by bytes is the same. A second result `ok` is an `Option`.
pub mod Cutting
pub mod Fields
pub mod Trimming
use Prim.Native.Char.{Char, code}
use mathlib.Core.Option
use image_factory.Prelude.{
  ℕ, String, Bool, true, false, ◌&&◌, ◌||◌, Option, none, some, List, [], ◌∷◌, leb, nat_eq, ◌==◌,
  ◌⧺◌, if◌then◌else◌,
}

abbrev pub cons : Char → String → String
cons c s = String.◌∷◌ c s

-- `strings.CutPrefix`: what stands behind the prefix.
unfoldable pub cut_prefix : String → String → Option String
cut_prefix s String.[] = some s
cut_prefix String.[] (String.◌∷◌ d p) = none
cut_prefix (String.◌∷◌ c s) (String.◌∷◌ d p) =
    if nat_eq (code c) (code d) then cut_prefix s p else none

-- `strings.HasPrefix`
unfoldable pub has_prefix : String → String → Bool
unfolding cut_prefix
has_prefix s p = elim (cut_prefix s p) [ none ↦ false | some r ↦ true ]

-- `strings.CutSuffix`: what stands before the suffix.
unfoldable pub cut_suffix : String → String → Option String
cut_suffix String.[] p = if "" == p then some "" else none
cut_suffix (String.◌∷◌ c s) p =
    if String.◌∷◌ c s == p then some "" else Option.map (cons c) (cut_suffix s p)

-- One more character before the separator.
abbrev cons_before : Char → String × String → String × String
cons_before c (before, after) = (cons c before, after)

-- `strings.Cut`: what stands before and behind the first occurrence of the separator.
unfoldable pub cut : String → String → Option (String × String)
unfolding cut_prefix
cut String.[] sep = Option.map (λ r. ("", r)) (cut_prefix "" sep)
cut (String.◌∷◌ c s) sep = elim (cut_prefix (String.◌∷◌ c s) sep) [
  | some r ↦ some ("", r)
  | none ↦ Option.map (cons_before c) (cut s sep)
]

-- `strings.ContainsFunc`, with a test on code points
unfoldable pub contains_func : (ℕ → Bool) → String → Bool
contains_func f String.[] = false
contains_func f (String.◌∷◌ c s) = f (code c) || contains_func f s

-- `strings.ContainsRune`
unfoldable pub contains_rune : ℕ → String → Bool
unfolding contains_func
contains_rune r = contains_func (nat_eq r)

-- One more character at the head of the first part.
abbrev onto_first : Char → List String → List String
onto_first c [] = cons c "" ∷ []
onto_first c (part ∷ parts) = cons c part ∷ parts

-- `strings.Split` at a separator of one character
unfoldable pub split : ℕ → String → List String
split sep String.[] = "" ∷ []
split sep (String.◌∷◌ c s) =
    if nat_eq (code c) sep then "" ∷ split sep s else onto_first c (split sep s)

-- `strings.Join`
unfoldable pub join : String → List String → String
join sep [] = ""
join sep (s ∷ []) = s
join sep (s ∷ t ∷ ts) = s ⧺ sep ⧺ join sep (t ∷ ts)

-- `unicode.IsSpace`
unfoldable pub is_space : ℕ → Bool
is_space c =
    leb 9 c && leb c 13
    || nat_eq c 32
    || nat_eq c 0x85
    || nat_eq c 0xA0
    || nat_eq c 0x1680
    || leb 0x2000 c && leb c 0x200a
    || nat_eq c 0x2028
    || nat_eq c 0x2029
    || nat_eq c 0x202f
    || nat_eq c 0x205f
    || nat_eq c 0x3000

-- `unicode.IsControl`
unfoldable pub is_control : ℕ → Bool
is_control c = leb c 31 || leb 127 c && leb c 159

abbrev nonempty : String → List String → List String
nonempty String.[] ts = ts
nonempty (String.◌∷◌ c s) ts = String.◌∷◌ c s ∷ ts

-- The characters of the word that is being read, and the words that stand behind it.
word_step : Char → String × List String → String × List String
unfolding is_space
word_step c (word, words) =
    if is_space (code c) then ("", nonempty word words) else (cons c word, words)

words_of : String → String × List String
unfolding word_step
words_of String.[] = ("", [])
words_of (String.◌∷◌ c s) = word_step c (words_of s)

-- `strings.Fields`: the maximal runs of characters that are no space.
unfoldable pub fields : String → List String
unfolding words_of
fields s = let (word, words) = words_of s in nonempty word words

-- `strings.TrimLeftFunc`, `strings.TrimRightFunc`, with a test on code points
unfoldable pub trim_left : (ℕ → Bool) → String → String
trim_left f String.[] = ""
trim_left f (String.◌∷◌ c s) = let rest = trim_left f s in if f (code c) then rest else cons c s

abbrev pub cons_unless : Bool → Char → String → String
cons_unless true c String.[] = ""
cons_unless b c s = cons c s

unfoldable pub trim_right : (ℕ → Bool) → String → String
trim_right f String.[] = ""
trim_right f (String.◌∷◌ c s) = cons_unless (f (code c)) c (trim_right f s)

-- `strings.TrimFunc`
unfoldable pub trim_func : (ℕ → Bool) → String → String
unfolding trim_left trim_right
trim_func f s = trim_right f (trim_left f s)

-- `strings.TrimSpace`
unfoldable pub trim_space : String → String
unfolding trim_func is_space
trim_space = trim_func is_space

-- `strings.Trim` with a cutset of one character
unfoldable pub trim : ℕ → String → String
unfolding trim_func
trim c = trim_func (nat_eq c)
