-- ===== src/Lines.antt =====
-- Lines of a text: `std::getline`, the loops over it, and the line endings and the `SafeLineReader`
-- of src/parsers/base/safe_parsing.hpp.
pub mod Numbers
pub mod Positions
pub mod PositionRead
pub mod Split
pub mod Endings
pub mod Reader
use duck_hunt.Prelude.{
  ℕ, zero, suc, ◌+◌, ◌-◌, ◌%◌, ◌^◌, ◌==◌, ltb, Bool, true, false, ◌&&◌, Option, none, some, List,
  [], ◌∷◌, ◌++◌, Text, codes, length, take, if◌then◌else◌,
}

abbrev pub lf : ℕ
lf = 10

abbrev pub cr : ℕ
cr = 13

-- One `std::getline`: the bytes up to the delimiter, and what stays in the stream behind it.
unfoldable pub split_at_delim : ℕ → Text → Text × Text
split_at_delim d [] = ([], [])
split_at_delim d (c ∷ s) = let (l, r) = split_at_delim d s in if c == d then ([], s) else (c ∷ l, r)

-- The read fails exactly where nothing is left.
unfoldable pub getline : ℕ → Text → Option (Text × Text)
unfolding split_at_delim
getline d [] = none
getline d (c ∷ s) = some (split_at_delim d (c ∷ s))

-- `while (std::getline(stream, line, d)) lines.push_back(line);` with fuel.
pub getline_loop : ℕ → ℕ → Text → List Text
unfolding getline
getline_loop zero d s = []
getline_loop (suc f) d s = elim (getline d s) [ none ↦ [] | some (l, r) ↦ l ∷ getline_loop f d r ]

abbrev pub cons_first : ℕ → List Text → List Text
cons_first c [] = (c ∷ []) ∷ []
cons_first c (l ∷ ls) = (c ∷ l) ∷ ls

-- The lines that the loop reads, by recursion on the text.
unfoldable pub split_lines : ℕ → Text → List Text
split_lines d [] = []
split_lines d (c ∷ s) =
    let rest = split_lines d s in if c == d then [] ∷ rest else cons_first c rest

-- A `\r` becomes a `\n`, and takes a `\n` behind it along.
unfoldable pub normalize_line_endings : Text → Text
normalize_line_endings [] = []
normalize_line_endings (c ∷ []) = (if c == cr then lf else c) ∷ []
normalize_line_endings (c ∷ d ∷ s) =
    let past_next = lf ∷ normalize_line_endings s in
    let next = normalize_line_endings (d ∷ s) in
    if c == cr then (if d == lf then past_next else lf ∷ next) else c ∷ next

pub record LineEndings : Type 0 where
  pub has_cr : Bool
  pub has_lf : Bool
  pub has_crlf : Bool

-- The loop of `DetectLineEnding`, over the flags.
pub scan_line_endings : LineEndings → Text → LineEndings
scan_line_endings f [] = f
scan_line_endings f (c ∷ []) =
    if c == cr
    then record f { has_cr = true }
    else if c == lf
    then record f { has_lf = true }
    else f
scan_line_endings f (c ∷ d ∷ s) =
    let past_next = scan_line_endings (record f { has_crlf = true }) s in
    let lone = scan_line_endings (record f { has_cr = true }) (d ∷ s) in
    let line = scan_line_endings (record f { has_lf = true }) (d ∷ s) in
    let other = scan_line_endings f (d ∷ s) in
    if c == cr then (if d == lf then past_next else lone) else if c == lf then line else other

abbrev pub name_line_ending : LineEndings → Text
name_line_ending f =
    if f.has_crlf
    then codes "\\r\\n"
    else if f.has_lf
    then codes "\\n"
    else if f.has_cr
    then codes "\\r"
    else []

unfoldable pub detect_line_ending : Text → Text
unfolding scan_line_endings
detect_line_ending content =
    name_line_ending
      (scan_line_endings (record { has_cr = false; has_lf = false; has_crlf = false }) content)

abbrev pub max_regex_line_length : ℕ
max_regex_line_length = 2000

-- `a - b` on `size_t`.
abbrev pub size_sub : ℕ → ℕ → ℕ
size_sub a b = (a + 2 ^ 64 - b) % 2 ^ 64

-- `line_number` is an `int` in the source, whose increment is undefined behind 2 ^ 31 - 1 lines; here it
-- is unbounded.
pub record SafeLineReader : Type 0 where
  pub stream : Text
  pub max_length : ℕ
  pub line_number : ℕ
  pub was_truncated : Bool

unfoldable pub safe_line_reader : Text → ℕ → SafeLineReader
unfolding normalize_line_endings
safe_line_reader content max_line_length = record {
  stream = normalize_line_endings content;
  max_length = max_line_length;
  line_number = 0;
  was_truncated = false;
}

-- `if (!line.empty() && line.back() == '\r') line.pop_back();`
unfoldable pub pop_cr : Text → Text
pop_cr [] = []
pop_cr (c ∷ []) = if c == cr then [] else c ∷ []
pop_cr (c ∷ d ∷ s) = c ∷ pop_cr (d ∷ s)

unfoldable pub clip : ℕ → Text → Text
clip max_length line =
    if ltb max_length (length line) then take (size_sub max_length 3) line ++ codes "..." else line

-- `getLine`: the line and the state behind it, none at the end of the input.
unfoldable pub get_line : SafeLineReader → Option (Text × SafeLineReader)
unfolding getline pop_cr clip
get_line r = elim (getline lf r.stream) [
  | none ↦ none
  | some (l, rest) ↦
      let line = pop_cr l in
      some (
        clip r.max_length line,
        record r {
          stream = rest;
          line_number = r.line_number + 1;
          was_truncated = ltb r.max_length (length line);
        },
      )
]

-- `while (reader.getLine(line)) …` with fuel: the lines read and the last state.
pub read_all : ℕ → SafeLineReader → List Text × SafeLineReader
unfolding get_line
read_all zero r = ([], r)
read_all (suc f) r = elim (get_line r) [
  | none ↦ ([], r)
  | some (l, r') ↦ let (ls, last) = read_all f r' in (l ∷ ls, last)
]
