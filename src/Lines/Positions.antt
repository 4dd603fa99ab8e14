-- ===== src/Lines/Positions.antt =====
-- `ParseFileLineColumn` and `ParseCompilerDiagnostic` of src/parsers/base/safe_parsing.hpp, which take
-- lines apart without regular expressions.
use duck_hunt.Prelude.{
  ℕ, suc, ◌+◌, min, ◌==◌, leb, ltb, Bool, true, false, not, ◌&&◌, ◌||◌, Option, none, some, [], ◌∷◌,
  Text, codes, length, take, drop, drop_while, is_empty, any_of, is_alpha, is_blank, find_text,
  contains, if◌then◌else◌,
}
use duck_hunt.Prelude.Int.{ℤ, minus_one}
use duck_hunt.Lines.{split_at_delim}
use duck_hunt.Lines.Numbers.{stoi, starts_with_digit}

-- The result and the outputs.
pub record Position : Type 0 where
  pub found : Bool
  pub file : Text
  pub line_num : ℤ
  pub column : ℤ

abbrev pub no_position : Position
no_position = record { found = false; file = []; line_num = minus_one; column = minus_one }

abbrev pub max_file_path_length : ℕ
max_file_path_length = 500

abbrev pub colon : ℕ
colon = b':'

abbrev pub has_colon : Text → Bool
has_colon s = any_of (λ c. c == colon) s

-- The loop that looks for a colon before a digit, behind the position that it is given. No file's
-- name is empty, and the colon of a drive's letter is passed over.
unfoldable pub find_line_number : Bool → ℕ → Text → Option ℕ
find_line_number drive position [] = none
find_line_number drive position (c ∷ s) =
    let later = find_line_number drive (suc position) s in
    if not (c == colon)
    then later
    else if position == 0
    then none
    else if position == 1 && drive
    then later
    else if starts_with_digit s
    then some position
    else later

abbrev pub starts_with_letter : Text → Bool
starts_with_letter [] = false
starts_with_letter (c ∷ s) = is_alpha c

abbrev pub or_minus_one : Option ℤ → ℤ
or_minus_one none = minus_one
or_minus_one (some n) = n

-- The column behind the second colon, -1 where there is none.
unfoldable pub parse_column : Text → ℤ
parse_column rest =
    if starts_with_digit rest && has_colon rest
    then or_minus_one (stoi (split_at_delim colon rest).0)
    else minus_one

abbrev pub unnumbered : Text → Position
unnumbered file = record no_position { file = file }

abbrev pub with_line_num : Text → Text → Option ℤ → Position
with_line_num file rest none = unnumbered file
with_line_num file rest (some n) = record {
  found = true;
  file = file;
  line_num = n;
  column = parse_column rest;
}

-- The text of the line number, and what is behind its colon.
abbrev pub split_numbers : Text → Text × Text → Position
split_numbers file (line_str, rest) =
    if starts_with_digit line_str then with_line_num file rest (stoi line_str) else unnumbered file

-- The numbers behind the colon that was found.
unfoldable pub parse_numbers : Text → Text → Position
parse_numbers file behind =
    if has_colon behind then split_numbers file (split_at_delim colon behind) else unnumbered file

abbrev pub at_colon : Text → Option ℕ → Position
at_colon line none = no_position
at_colon line (some position) =
    if leb (min (length line) (max_file_path_length + 20)) position
    then no_position
    else if ltb max_file_path_length position
    then unnumbered (take position line)
    else parse_numbers (take position line) (drop (suc position) line)

unfoldable pub parse_file_line_column : Text → Position
parse_file_line_column line = at_colon line (find_line_number (starts_with_letter line) 0 line)

-- The text from the first occurrence of another on.
abbrev pub from_first : Text → Text → Option Text
from_first p s = elim (find_text p s) [ none ↦ none | some i ↦ some (drop i s) ]

pub record Diagnostic : Type 0 where
  pub position : Position
  pub severity : Text
  pub message : Text

-- A message that is blank is kept.
abbrev pub trim_leading : Text → Text
trim_leading s = if is_empty (drop_while is_blank s) then s else drop_while is_blank s

-- The message behind the colon of the marker; a marker has one.
abbrev pub diagnosed : Position → Text → Text → Diagnostic
diagnosed p severity marked = record {
  position = p;
  severity = severity;
  message = trim_leading (split_at_delim colon (drop 1 marked)).1;
}

abbrev pub first_marker : Position → Option Text → Option Text → Option Text → Option Diagnostic
first_marker p (some e) warning note_text = some (diagnosed p (codes "error") e)
first_marker p none (some w) note_text = some (diagnosed p (codes "warning") w)
first_marker p none none (some n) = some (diagnosed p (codes "note") n)
first_marker p none none none = none

-- `none` is a line that is no diagnostic.
unfoldable pub parse_compiler_diagnostic : Text → Option Diagnostic
parse_compiler_diagnostic line =
    let p = parse_file_line_column line in
    if p.found
    then first_marker p (from_first (codes " error:") line) (from_first (codes " warning:") line)
        (from_first (codes " note:") line)
    else none

-- A place of `.*` with more behind it than one byte.
abbrev pub more_behind : Option Text → Bool
more_behind none = false
more_behind (some s) = ltb 2 (length s)

unfoldable pub has_potential_backtracking : Text → Bool
has_potential_backtracking pattern =
    contains (codes "[^") pattern
      && (contains (codes "]+") pattern || contains (codes "]*") pattern)
    || contains (codes ")+)") pattern
    || contains (codes ")*)*") pattern
    || contains (codes "+)+") pattern
    || more_behind (from_first (codes ".*") pattern)
