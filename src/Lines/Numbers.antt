-- ===== src/Lines/Numbers.antt =====
-- The readers of numbers of src/parsers/base/safe_parsing.hpp, over `std::stoi` and `std::stol`.
use duck_hunt.Prelude.{
  ℕ, zero, suc, ◌+◌, ◌-◌, ◌*◌, ◌^◌, ◌==◌, leb, ltb, Bool, true, false, ◌&&◌, ◌||◌, Option, none,
  some, [], ◌∷◌, Text, is_empty, is_digit, drop_while, if◌then◌else◌,
}
use duck_hunt.Prelude.Int.{ℤ, pos, negsuc}

-- `isspace` in the "C" locale.
abbrev pub is_white : ℕ → Bool
is_white c = c == 32 || leb 9 c && leb c 13

-- The digits at the start of a text, behind a number.
abbrev pub digits : ℕ → Text → ℕ
digits n [] = n
digits n (c ∷ s) = let more = digits (n * 10 + (c - b'0')) s in if is_digit c then more else n

abbrev pub starts_with_digit : Text → Bool
starts_with_digit [] = false
starts_with_digit (c ∷ s) = is_digit c

abbrev pub minus : ℕ → ℤ
minus zero = pos 0
minus (suc n) = negsuc n

-- A number that a signed type of `2 * limit` values holds.
abbrev pub non_negative : ℕ → ℕ → Option ℤ
non_negative limit n = if ltb n limit then some (pos n) else none

abbrev pub negative : ℕ → ℕ → Option ℤ
negative limit n = if leb n limit then some (minus n) else none

abbrev pub unsigned : ℕ → Text → (ℕ → Option ℤ) → Option ℤ
unsigned limit s result = if starts_with_digit s then result (digits 0 s) else none

abbrev pub signed : ℕ → Text → Option ℤ
signed limit [] = none
signed limit (c ∷ s) =
    if c == b'-'
    then unsigned limit s (negative limit)
    else if c == b'+'
    then unsigned limit s (non_negative limit)
    else unsigned limit (c ∷ s) (non_negative limit)

-- `std::stoi` and `std::stol`: white space, a sign and digits; `none` is an exception.
unfoldable pub stoi : Text → Option ℤ
stoi s = signed (2 ^ 31) (drop_while is_white s)

unfoldable pub stol : Text → Option ℤ
stol s = signed (2 ^ 63) (drop_while is_white s)

abbrev pub or_default : ℤ → Option ℤ → ℤ
or_default default none = default
or_default default (some n) = n

unfoldable pub safe_stoi : Text → ℤ → ℤ
safe_stoi str default_value =
    if is_empty str then default_value else or_default default_value (stoi str)

unfoldable pub safe_stol : Text → ℤ → ℤ
safe_stol str default_value =
    if is_empty str then default_value else or_default default_value (stol str)

abbrev pub if_parsed : ℤ → Option ℤ → Bool × ℤ
if_parsed result none = (false, result)
if_parsed result (some n) = (true, n)

-- The success, and what the result then holds.
unfoldable pub try_stoi : Text → ℤ → Bool × ℤ
try_stoi str result = if is_empty str then (false, result) else if_parsed result (stoi str)

unfoldable pub try_stol : Text → ℤ → Bool × ℤ
try_stol str result = if is_empty str then (false, result) else if_parsed result (stol str)
