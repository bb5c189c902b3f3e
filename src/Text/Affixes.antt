-- ===== src/Text/Affixes.antt =====
-- What Rust's `str` has for the ends and the lines of a text, as the engines use it.
use Prim.Native.Char.{Char, code}
use Prim.Native.String.{◌++◌ as append}
use text.Mathlib.TextLemmas.{cons-append, nil-append, append_cancel_right}
use beemesh.Prelude.{
  ℕ, ◌+◌, ◌≡◌, ◌≢◌, refl, sym, ◌∙◌, String, Bool, true, false, ◌&&◌, ◌||◌, Bool-cases, inl, inr,
  Option, none, some, List, [], ◌∷◌, map, arith, leb, ◌==◌, str_eq, eq_iff, if◌then◌else◌,
  unwrap_or, is_some,
}
use beemesh.Text.{starts_with, is_whitespace, split, codes}

-- `contains`, on code points
unfoldable pub contains : (needle text : List ℕ) → Bool
unfolding starts_with
contains needle [] = starts_with needle []
contains needle (c ∷ cs) = starts_with needle (c ∷ cs) || contains needle cs

abbrev lower : ℕ → ℕ
lower c = if leb 65 c && leb c 90 then c + 32 else c

unfoldable pub to_ascii_lowercase : List ℕ → List ℕ
to_ascii_lowercase = map lower

unfoldable pub strip_prefix : (front text : String) → Option String
strip_prefix String.[] text = some text
strip_prefix (String.◌∷◌ p ps) String.[] = none
strip_prefix (String.◌∷◌ p ps) (String.◌∷◌ c cs) =
    if code p == code c then strip_prefix ps cs else none

abbrev with_head : Char → Option String → Option String
with_head c none = none
with_head c (some s) = some (String.◌∷◌ c s)

unfoldable pub strip_suffix : (back text : String) → Option String
strip_suffix back String.[] = if str_eq "" back then some "" else none
strip_suffix back (String.◌∷◌ c cs) =
    let further = with_head c (strip_suffix back cs) in
    if str_eq (String.◌∷◌ c cs) back then some "" else further

unfoldable pub ends_with : (back text : String) → Bool
unfolding strip_suffix
ends_with back text = is_some (strip_suffix back text)

unfoldable pub trim_start : String → String
unfolding is_whitespace
trim_start String.[] = ""
trim_start (String.◌∷◌ c cs) =
    let further = trim_start cs in if is_whitespace (code c) then further else String.◌∷◌ c cs

unfoldable pub trim_end : String → String
unfolding is_whitespace
trim_end String.[] = ""
trim_end (String.◌∷◌ c cs) =
    let rest = trim_end cs in
    if str_eq rest "" && is_whitespace (code c) then "" else String.◌∷◌ c rest

unfoldable pub trim : String → String
unfolding trim_start trim_end
trim s = trim_end (trim_start s)

-- what `split` at line feeds leaves: nothing behind the last one is no line, and a line that is
-- ended loses its carriage return
unfoldable pub ended_lines : List String → List String
unfolding strip_suffix
ended_lines [] = []
ended_lines (last ∷ []) = if str_eq last "" then [] else last ∷ []
ended_lines (line ∷ next ∷ more) =
    unwrap_or (strip_suffix "\r" line) line ∷ ended_lines (next ∷ more)

unfoldable pub text_lines : String → List String
unfolding ended_lines split
text_lines s = ended_lines (split 10 s)

-- what stands behind the first occurrence of a text, and before it: `split` at a text has the one
-- before the other
unfoldable pub after : (needle text : String) → Option String
unfolding strip_prefix
after needle String.[] = strip_prefix needle ""
after needle (String.◌∷◌ c cs) =
    let further = after needle cs in
    elim (strip_prefix needle (String.◌∷◌ c cs)) [ none ↦ further | some rest ↦ some rest ]

unfoldable pub before : (needle text : String) → String
unfolding strip_prefix
before needle String.[] = ""
before needle (String.◌∷◌ c cs) =
    let further = String.◌∷◌ c (before needle cs) in
    if is_some (strip_prefix needle (String.◌∷◌ c cs)) then "" else further

pub strip_prefix-append : (front text : String) → strip_prefix front (append front text) ≡ some text
unfolding strip_prefix
strip_prefix-append String.[] text = rw nil-append refl
strip_prefix-append (String.◌∷◌ p ps) text =
    rw cons-append (ground (arith, strip_prefix-append ps text))

longer-ne : (c : Char) (s back : String) → String.◌∷◌ c (append s back) ≢ back
longer-ne c s back same =
    let cut =
      append_cancel_right (String.◌∷◌ c s) "" back
        (cons-append c s back ∙ same ∙ sym (nil-append back)) in
    cc cut

strip_suffix_self : (back : String) → strip_suffix back back ≡ some ""
unfolding strip_suffix
strip_suffix_self String.[] = refl
strip_suffix_self (String.◌∷◌ c cs) = rw ((eq_iff (String.◌∷◌ c cs) (String.◌∷◌ c cs)).1 refl) refl

strip_suffix-cons :
    (c : Char) (text back rest : String)
    → str_eq (String.◌∷◌ c text) back ≡ false
    → strip_suffix back text ≡ some rest
    → strip_suffix back (String.◌∷◌ c text) ≡ some (String.◌∷◌ c rest)
unfolding strip_suffix
strip_suffix-cons c text back rest part found = rw (part, found) refl

pub strip_suffix-append : (text back : String) → strip_suffix back (append text back) ≡ some text
strip_suffix-append String.[] back = rw nil-append (strip_suffix_self back)
strip_suffix-append (String.◌∷◌ c cs) back =
    rw cons-append (elim (Bool-cases (str_eq (String.◌∷◌ c (append cs back)) back)) [
      | inl whole ↦ absurd (longer-ne c cs back ((eq_iff _ back).0 whole))
      | inr part ↦ strip_suffix-cons c (append cs back) back cs part (strip_suffix-append cs back)
    ])

affixes_test :
    (strip_suffix "-pod" "a-pod" ≡ some "a")
    × (trim " a b\n" ≡ "a b")
    × (text_lines "a\r\nb\n" ≡ "a" ∷ "b" ∷ [])
    × (contains (codes "no such") (to_ascii_lowercase (codes "Error: No Such")) ≡ true)
unfolding strip_suffix trim text_lines contains to_ascii_lowercase
affixes_test = (refl, refl, refl, refl)
