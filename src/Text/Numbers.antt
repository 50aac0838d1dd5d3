-- ===== src/Text/Numbers.antt =====
-- `Long.parseLong` and `Long.toString` on ASCII digits.
pub mod Decimal
use Prim.Native.Char.{Char, code}
use Prim.Native.String
use Prim.Native.String.{[], ◌∷◌}
use web_socketaa_s.Prelude.{
  ℕ, zero, suc, ◌+◌, ◌-◌, ◌*◌, ◌/◌, ◌%◌, ◌^◌, String, ◌≡◌, refl, Option, none, some, Bool, ◌&&◌,
  ltb, leb, nat_eq, if◌then◌else◌, ℤ, pos, negsuc,
}

abbrev pub max_long : ℕ
max_long = 2 ^ 63 - 1

abbrev is_digit : Char → Bool
is_digit c = leb b'0' (code c) && leb (code c) b'9'

-- the value of a run of digits, after those read so far
unfoldable pub digits : ℕ → String → Option ℕ
digits n [] = some n
digits n (c ∷ s) =
    let rest = digits (n * 10 + (code c - b'0')) s in if is_digit c then rest else none

-- a sign must be followed by a digit
unfoldable pub some_digits : String → Option ℕ
unfolding digits
some_digits [] = none
some_digits (c ∷ s) = digits 0 (c ∷ s)

unfoldable pub within : ℕ → Option ℕ → Option ℕ
within most none = none
within most (some n) = if leb n most then some n else none

negated : Option ℕ → Option ℤ
negated none = none
negated (some zero) = some (pos 0)
negated (some (suc n)) = some (negsuc n)

unfoldable pub positive : Option ℕ → Option ℤ
positive none = none
positive (some n) = some (pos n)

-- `none` stands for `NumberFormatException`
unfoldable pub parse_long : String → Option ℤ
unfolding digits some_digits within negated positive
parse_long [] = none
parse_long (c ∷ s) =
    if nat_eq (code c) b'-'
    then negated (within (suc max_long) (some_digits s))
    else if nat_eq (code c) b'+'
    then positive (within max_long (some_digits s))
    else positive (within max_long (some_digits (c ∷ s)))

unfoldable pub digit : ℕ → Char
digit n =
    if nat_eq n 0
    then "0"
    else if nat_eq n 1
    then "1"
    else if nat_eq n 2
    then "2"
    else if nat_eq n 3
    then "3"
    else if nat_eq n 4
    then "4"
    else if nat_eq n 5
    then "5"
    else if nat_eq n 6
    then "6"
    else if nat_eq n 7
    then "7"
    else if nat_eq n 8
    then "8"
    else "9"

-- decimal digits in front of those written so far; a number has at most as many as it has bits
unfoldable pub print_from : ℕ → ℕ → String → String
unfolding digit
print_from zero n acc = acc
print_from (suc fuel) n acc =
    let written = digit (n % 10) ∷ acc in
    let more = print_from fuel (n / 10) written in if ltb n 10 then written else more

unfoldable pub long_to_string : ℤ → String
unfolding print_from
long_to_string (pos n) = print_from 64 n ""
long_to_string (negsuc n) = String.◌++◌ "-" (print_from 64 (suc n) "")

parse_tests :
    (parse_long "007" ≡ some (pos 7))
    × (parse_long "-12" ≡ some (negsuc 11))
    × (parse_long "" ≡ none)
    × (parse_long "+" ≡ none)
    × (parse_long "1x" ≡ none)
    × (parse_long "9223372036854775808" ≡ none)
    × (long_to_string (pos 120) ≡ "120")
unfolding parse_long long_to_string
parse_tests = (refl, refl, refl, refl, refl, refl, refl)
