-- ===== src/Text.antt =====
-- The part of Rust's `str` that the machine plane uses to read `/proc` files, command output and
-- metadata. A text is the list of its code points.
pub mod Affixes
use Prim.Native.Char.{Char, code}
use Prim.Native.String.{◌++◌ as append}
use beemesh.Prelude.{
  zero, suc, ◌/◌, ◌%◌, ℕ, ◌+◌, ◌*◌, ◌-◌, ◌≤◌, ◌≡◌, refl, String, Bool, true, false, not, ◌&&◌, ◌||◌,
  Option, none, some, List, [], ◌∷◌, ◌++◌, arith, leb, ◌==◌, if◌then◌else◌, filter, is_empty,
  get_elem?, unwrap_or, Bool-cases, inl, inr,
}

abbrev pub codes : String → List ℕ
codes String.[] = []
codes (String.◌∷◌ c s) = code c ∷ codes s

unfoldable pub starts_with : List ℕ → List ℕ → Bool
starts_with [] text = true
starts_with (p ∷ ps) [] = false
starts_with (p ∷ ps) (c ∷ cs) = p == c && starts_with ps cs

-- The line without the carriage return at its end.
strip_cr : List ℕ → List ℕ
strip_cr [] = []
strip_cr (c ∷ []) = if c == 13 then [] else c ∷ []
strip_cr (c ∷ d ∷ cs) = c ∷ strip_cr (d ∷ cs)

-- `lines()`: `line` is what has been read of the current line. A text that ends in a line feed has
-- no empty line behind it, and only a line that a line feed ends loses its carriage return.
lines_from : List ℕ → List ℕ → List (List ℕ)
lines_from line [] = if is_empty line then [] else line ∷ []
lines_from line (c ∷ cs) =
    let ended = strip_cr line ∷ lines_from [] cs in
    let further = lines_from (line ++ c ∷ []) cs in if c == 10 then ended else further

unfoldable pub lines : List ℕ → List (List ℕ)
unfolding lines_from strip_cr
lines text = lines_from [] text

-- Unicode's `White_Space`
unfoldable pub is_whitespace : ℕ → Bool
is_whitespace c =
    leb 9 c && leb c 13
    || c == 32
    || c == 0x85
    || c == 0xa0
    || c == 0x1680
    || leb 0x2000 c && leb c 0x200a
    || c == 0x2028
    || c == 0x2029
    || c == 0x202f
    || c == 0x205f
    || c == 0x3000

words_from : List ℕ → List ℕ → List (List ℕ)
words_from word [] = word ∷ []
words_from word (c ∷ cs) =
    let ended = word ∷ words_from [] cs in
    let further = words_from (word ++ c ∷ []) cs in if is_whitespace c then ended else further

unfoldable pub split_whitespace : List ℕ → List (List ℕ)
unfolding words_from is_whitespace
split_whitespace text = filter (λ word. not (is_empty word)) (words_from [] text)

digits_value : (bound value : ℕ) → List ℕ → Option ℕ
digits_value bound value [] = some value
digits_value bound value (c ∷ cs) =
    let v = value * 10 + (c - 48) in
    let rest = digits_value bound v cs in
    if leb 48 c && leb c 57 then (if leb v bound then rest else none) else none

-- `str::parse` at an unsigned type whose largest value is `bound`
unfoldable pub parse_unsigned : (bound : ℕ) → List ℕ → Option ℕ
unfolding digits_value
parse_unsigned bound [] = none
parse_unsigned bound (c ∷ []) = if c == b'+' then none else digits_value bound 0 (c ∷ [])
parse_unsigned bound (c ∷ d ∷ cs) =
    if c == b'+' then digits_value bound 0 (d ∷ cs) else digits_value bound 0 (c ∷ d ∷ cs)

digits_value-le :
    (bound value : ℕ) (cs : List ℕ) (n : ℕ)
    → value ≤ bound
    → digits_value bound value cs ≡ some n
    → n ≤ bound
unfolding digits_value
digits_value-le bound value [] n h e = ground arith
digits_value-le bound value (c ∷ cs) n h e =
    ground (arith, digits_value-le bound (value * 10 + (c - 48)) cs n)

pub parse_unsigned-le :
    (bound : ℕ) (cs : List ℕ) (n : ℕ) → parse_unsigned bound cs ≡ some n → n ≤ bound
unfolding parse_unsigned
parse_unsigned-le bound [] n e = ground arith
parse_unsigned-le bound (c ∷ []) n e = ground (arith, digits_value-le bound 0 (c ∷ []) n)
parse_unsigned-le bound (c ∷ d ∷ cs) n e =
    ground (arith, digits_value-le bound 0 (d ∷ cs) n, digits_value-le bound 0 (c ∷ d ∷ cs) n)

text_test :
    (parse_unsigned 255 (codes "+255") ≡ some 255) × (parse_unsigned 255 (codes "256") ≡ none)
unfolding parse_unsigned
text_test = (refl, refl)

lines_test : lines (codes "a b\n c \n") ≡ codes "a b" ∷ codes " c " ∷ []
unfolding lines
lines_test = refl

words_test : split_whitespace (codes " a  bc ") ≡ codes "a" ∷ codes "bc" ∷ []
unfolding split_whitespace
words_test = refl

-- `join`
unfoldable pub join : (sep : String) → List String → String
join sep [] = ""
join sep (s ∷ []) = s
join sep (s ∷ t ∷ ts) = append s (append sep (join sep (t ∷ ts)))

digits : List String
digits = "0" ∷ "1" ∷ "2" ∷ "3" ∷ "4" ∷ "5" ∷ "6" ∷ "7" ∷ "8" ∷ "9" ∷ []

-- the last digit of `n` before `tail`, and the digits left of it
decimal_from : (fuel : ℕ) → ℕ → (tail : String) → String
unfolding digits
decimal_from zero n tail = tail
decimal_from (suc f) n tail =
    let tail = append (unwrap_or (get_elem? digits (n % 10)) "") tail in
    let more = decimal_from f (n / 10) tail in if n / 10 == 0 then tail else more

-- More fuel than the value makes no difference.
decimal_from_enough :
    (f g n : ℕ) (tail : String)
    → n ≤ f
    → n ≤ g
    → decimal_from (suc f) n tail ≡ decimal_from (suc g) n tail
unfolding decimal_from
decimal_from_enough zero g n tail few more = let last : n / 10 ≡ 0 = omega arith in rw last refl
decimal_from_enough (suc f) zero n tail more few =
    let last : n / 10 ≡ 0 = omega arith in rw last refl
decimal_from_enough (suc f) (suc g) n tail more much = elim (Bool-cases (n / 10 == 0)) [
  | inl last ↦ rw last refl
  | inr rest ↦ rw rest (decimal_from_enough f g (n / 10) _ (ground arith) (ground arith))
]

-- `to_string` of an unsigned integer, which has no more digits than its value and one
unfoldable pub to_decimal : ℕ → String
unfolding decimal_from
to_decimal n = decimal_from (suc n) n ""

to_decimal_enough : (f n : ℕ) → n ≤ f → decimal_from (suc f) n "" ≡ to_decimal n
unfolding to_decimal
to_decimal_enough f n more = decimal_from_enough f n n "" more (omega arith)

-- the first part gets another first character
unfoldable pub with_first : Char → List String → List String
with_first c [] = String.◌∷◌ c "" ∷ []
with_first c (part ∷ parts) = String.◌∷◌ c part ∷ parts

-- `split` at a character
unfoldable pub split : (sep : ℕ) → String → List String
unfolding with_first
split sep String.[] = "" ∷ []
split sep (String.◌∷◌ c s) =
    let parts = split sep s in if code c == sep then "" ∷ parts else with_first c parts
