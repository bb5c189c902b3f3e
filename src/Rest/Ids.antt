-- ===== src/Rest/Ids.antt =====
-- Manifest ids from hashes: machineplane/machine/src/restapi/mod.rs and the `machine` module of
-- machineplane/protocol/src/lib.rs print a hash as `{:x}`, machineplane/cli/src/lib.rs as `{:016x}`,
-- and all take the first sixteen digits. A printed number is the list of its digits.
use native.Mathlib.Nat.{add-zero}
use beemesh.Prelude.{
  ap, ℕ, zero, suc, ◌+◌, ◌-◌, ◌*◌, ◌/◌, ◌%◌, ◌^◌, ◌≤◌, ◌<◌, ◌≡◌, ◌↔◌, refl, Bytes, String, true,
  false, Option, none, some, List, [], ◌∷◌, ◌++◌, arith, ltb, leb, ltb→lt, leb→le, ◌==◌,
  if◌then◌else◌, unwrap_or, get_elem?, length, length-append, take, is_some, Bool-cases, inl, inr,
}
use beemesh.Text.{join, split}
use beemesh.Text.Affixes.{trim, text_lines, strip_prefix}
use beemesh.Node.{Libraries}

hex_digits : List String
hex_digits =
    "0" ∷ "1" ∷ "2" ∷ "3" ∷ "4" ∷ "5" ∷ "6" ∷ "7" ∷ "8" ∷ "9" ∷ "a" ∷ "b" ∷ "c" ∷ "d" ∷ "e" ∷ "f"
    ∷ []

unfoldable pub hex_from : (fuel : ℕ) → ℕ → (tail : List String) → List String
unfolding hex_digits
hex_from zero n tail = tail
hex_from (suc f) n tail =
    let tail = unwrap_or (get_elem? hex_digits (n % 16)) "" ∷ tail in
    let more = hex_from f (n / 16) tail in if n / 16 == 0 then tail else more

-- `{:x}` of a `u64`, which has sixteen digits at most
unfoldable pub hex : (n : ℕ) → List String
unfolding hex_from
hex n = hex_from 16 n []

abbrev zeros : ℕ → List String
zeros zero = []
zeros (suc n) = "0" ∷ zeros n

-- `{:016x}`
unfoldable pub hex_padded : (n : ℕ) → List String
unfolding hex
hex_padded n = zeros (16 - length (hex n)) ++ hex n

-- `[..16]`, which panics if there are fewer
unfoldable pub first_sixteen : List String → Option String
unfolding join
first_sixteen digits = if ltb (length digits) 16 then none else some (join "" (take 16 digits))

-- `format!("{:x}", hasher.finish())[..16]`
unfoldable pub hash_id : (hash : ℕ) → Option String
unfolding first_sixteen hex
hash_id hash = first_sixteen (hex hash)

-- `format!("{:016x}", hasher.finish())[..16]`
unfoldable pub cli_hash_id : (hash : ℕ) → Option String
unfolding first_sixteen hex_padded
cli_hash_id hash = first_sixteen (hex_padded hash)

-- the first line that begins with `name:`
unfoldable pub name_in : (lines : List String) → Option String
unfolding trim split strip_prefix
name_in [] = none
name_in (line ∷ lines) =
    let rest = name_in lines in
    if is_some (strip_prefix "name:" (trim line))
    then some (trim (unwrap_or (get_elem? (split b':' (trim line)) 1) ""))
    else rest

unfoldable pub extract_manifest_name : {Y : Type 0} → Libraries Y → Bytes → Option String
unfolding name_in text_lines
extract_manifest_name lib manifest_data = elim (lib.from_utf8 manifest_data) [
  | none ↦ none
  | some manifest_str ↦ name_in (text_lines manifest_str)
]

-- how many digits are printed
width : (fuel : ℕ) → ℕ → ℕ
width zero n = 0
width (suc f) n = let more = suc (width f (n / 16)) in if n / 16 == 0 then 1 else more

length-hex_from :
    (f n : ℕ) (tail : List String) → length (hex_from f n tail) ≡ width f n + length tail
unfolding hex_from width
length-hex_from zero n tail = omega arith
length-hex_from (suc f) n tail =
    ground (arith, length-hex_from f (n / 16) (unwrap_or (get_elem? hex_digits (n % 16)) "" ∷ tail))

-- one digit more for sixteen times the numbers
width_step :
    (f k p : ℕ)
    → 0 < p
    → ((n : ℕ) → (width f n ≤ k) ↔ (n < p))
    → (n : ℕ) → (width (suc f) n ≤ suc k) ↔ (n < 16 * p)
unfolding width
width_step f k p pos h n = elim (Bool-cases (n / 16 == 0)) [
  | inl low ↦ rw low (λ _. ground arith, λ _. omega arith)
  | inr high ↦ rw high (
    λ short. (let below = (h (n / 16)).0 (omega arith) in omega arith),
    λ small. (let short = (h (n / 16)).1 (omega arith) in omega arith),
  )
]

abbrev power : ℕ → ℕ
power zero = 1
power (suc i) = 16 * power i

power_pos : (i : ℕ) → 0 < power i
power_pos zero = omega arith
power_pos (suc i) = omega (arith, power_pos i)

-- More fuel than digits makes no difference.
hex_from_enough :
    (i f n : ℕ) (tail : List String)
    → i ≤ f
    → n < 16 * power i
    → hex_from (suc f) n tail ≡ hex_from (suc i) n tail
unfolding hex_from
hex_from_enough zero f n tail more small = let last : n / 16 ≡ 0 = omega arith in rw last refl
hex_from_enough (suc i) zero n tail more small = ground arith
hex_from_enough (suc i) (suc f) n tail more small = elim (Bool-cases (n / 16 == 0)) [
  | inl last ↦ rw last refl
  | inr rest ↦ rw rest (hex_from_enough i f (n / 16) _ (omega arith) (omega arith))
]

-- Sixteen digits are enough for a hash of 64 bits.
hex_enough : (f n : ℕ) → 15 ≤ f → n < 2 ^ 64 → hex_from (suc f) n [] ≡ hex n
unfolding hex
hex_enough f n more small = hex_from_enough 15 f n [] more small

width_two : (f n : ℕ) → (width (suc (suc f)) n ≤ 1) ↔ (n < 16)
unfolding width
width_two f n = elim (Bool-cases (n / 16 == 0)) [
  | inl low ↦ rw low (λ _. ground arith, λ _. omega arith)
  | inr high ↦ rw high (λ short. ground arith, λ small. ground arith)
]

width_iff : (i n : ℕ) → (width (suc (suc i)) n ≤ suc i) ↔ (n < 16 * power i)
width_iff zero n = width_two 0 n
width_iff (suc i) n =
    width_step (suc (suc i)) (suc i) (16 * power i) (omega (arith, power_pos i))
      (λ m. width_iff i m) n

sixteen_digits : (n : ℕ) → (length (hex n) ≤ 15) ↔ (n < 2 ^ 60)
unfolding hex
sixteen_digits n = rw (length-hex_from 16 n []) (rw (add-zero (width 16 n)) (width_iff 14 n))

length-zeros : (n : ℕ) → length (zeros n) ≡ n
length-zeros zero = refl
length-zeros (suc n) = ap suc (length-zeros n)

first_sixteen_total :
    (digits : List String) → 16 ≤ length digits → is_some (first_sixteen digits) ≡ true
unfolding first_sixteen
first_sixteen_total digits h = ground arith

first_sixteen_panics : (digits : List String) → length digits ≤ 15 → first_sixteen digits ≡ none
unfolding first_sixteen
first_sixteen_panics digits h = ground arith

hex_padded_full : (n : ℕ) → 16 ≤ length (hex n) → hex_padded n ≡ hex n
unfolding hex_padded
hex_padded_full n h =
    let none_missing : 16 - length (hex n) ≡ 0 = omega arith in rw none_missing refl

length-hex_padded : (n : ℕ) → 16 ≤ length (hex_padded n)
unfolding hex_padded
length-hex_padded n =
    omega (
      arith,
      length-append (zeros (16 - length (hex n))) (hex n),
      length-zeros (16 - length (hex n)),
    )

at_least : (digits n bound : ℕ) → (digits ≤ 15 → n < bound) → ltb n bound ≡ false → 16 ≤ digits
at_least digits n bound few large = elim (Bool-cases (leb digits 15)) [
  | inl short ↦ (let small = few (leb→le digits 15 short) in ground arith)
  | inr long ↦ ground arith
]

-- The machine panics on every hash below 2^60, one in sixteen, and makes the command line's id of
-- every other. The command line has an id for each hash.
pub hash_id-cli_hash_id :
    (hash : ℕ)
    → (hash_id hash ≡ (if ltb hash (2 ^ 60) then none else cli_hash_id hash))
      × (is_some (cli_hash_id hash) ≡ true)
unfolding hash_id cli_hash_id
hash_id-cli_hash_id hash = (
  elim (Bool-cases (ltb hash (2 ^ 60))) [
    | inl small ↦
        rw small
          (first_sixteen_panics (hex hash) ((sixteen_digits hash).1 (ltb→lt hash (2 ^ 60) small)))
    | inr large ↦
        let full : 16 ≤ length (hex hash) =
          at_least (length (hex hash)) hash (2 ^ 60) (sixteen_digits hash).0 large in
        rw (large, hex_padded_full hash full) refl
  ],
  first_sixteen_total (hex_padded hash) (length-hex_padded hash),
)

hash_id_test :
    (hash_id 255 ≡ none)
    × (cli_hash_id 255 ≡ some "00000000000000ff")
    × (hash_id 0xfedcba9876543210 ≡ some "fedcba9876543210")
unfolding hash_id cli_hash_id
hash_id_test = (refl, refl, refl)
