-- ===== src/Formats.antt =====
-- src/core/parse_content.cpp: the names of formats, as the caller writes them.
pub mod Distance
pub mod Names
pub mod Errors
pub mod Detection
pub mod Suggest
use duck_hunt.Prelude.{
  ℕ, zero, suc, ◌+◌, ◌-◌, ◌/◌, min, ◌==◌, ltb, leb, Bool, true, false, not, ◌&&◌, ◌||◌, Option,
  none, some, List, [], ◌∷◌, ◌++◌, map, Text, codes, text_eq, starts_with, contains, lower, trim,
  length, drop, is_empty, any_of, keep_if, if◌then◌else◌, find_if,
}
use duck_hunt.Lines.{split_lines}
use duck_hunt.Parser.{Parser}
use duck_hunt.Registry.Listing.{get_all_format_names}
use duck_hunt.Registry.{Registry, has_format, is_group, find_parser, deref}

abbrev pub comma : ℕ
comma = b','

-- The pieces between commas, without the blanks around them, the empty ones left out; no piece at
-- all where there is no comma.
unfoldable pub split_format_list : Text → List Text
split_format_list name =
    if any_of (λ c. c == comma) name
    then keep_if (λ t. not (is_empty t)) (map trim (split_lines comma name))
    else []

-- The cells of a row behind the first one: `diag` and `prev` are the row above from the cell before
-- on, `left` is the cell before.
unfoldable pub next_cells : ℕ → Text → ℕ → List ℕ → ℕ → List ℕ
next_cells x (c ∷ b) diag (up ∷ prev) left =
    let cost = if x == c then 0 else 1 in
    let cell = min (min (up + 1) (left + 1)) (diag + cost) in cell ∷ next_cells x b up prev cell
next_cells x _ diag _ left = []

unfoldable pub next_row : ℕ → Text → ℕ → List ℕ → List ℕ
next_row x b i [] = []
next_row x b i (diag ∷ prev) = (i + 1) ∷ next_cells x b diag prev (i + 1)

-- The rows from `i` on; the last one is left.
unfoldable pub edit_rows : Text → Text → ℕ → List ℕ → List ℕ
unfolding next_row
edit_rows [] b i row = row
edit_rows (x ∷ a) b i row = edit_rows a b (i + 1) (next_row x b i row)

abbrev pub count_up : ℕ → Text → List ℕ
count_up j [] = j ∷ []
count_up j (c ∷ b) = j ∷ count_up (j + 1) b

abbrev pub last_cell : List ℕ → ℕ
last_cell [] = 0
last_cell (x ∷ []) = x
last_cell (x ∷ y ∷ xs) = last_cell (y ∷ xs)

-- Row by row; of the table only the row above is needed.
unfoldable pub edit_distance : Text → Text → ℕ
unfolding edit_rows
edit_distance a b = last_cell (edit_rows a b 0 (count_up 0 b))

unfoldable pub shared_prefix : Text → Text → ℕ
shared_prefix (x ∷ a) (y ∷ b) = let rest = shared_prefix a b in if x == y then suc rest else 0
shared_prefix _ _ = 0

-- What the loop of `SuggestFormat` keeps; a distance starts as `npos`.
pub record Suggestion : Type 0 where
  pub match : Text
  pub distance : ℕ
  pub prefix : ℕ

abbrev pub npos : ℕ
npos = 18446744073709551615

abbrev pub no_suggestion : Suggestion
no_suggestion = record { match = []; distance = npos; prefix = 0 }

-- `d > p ? d - p : 0` is the subtraction that stops at 0.
abbrev pub score : ℕ → ℕ → ℕ
score d p = d - p

unfoldable pub consider : Text → Suggestion → Text → Suggestion
consider invalid best name =
    let dist = edit_distance invalid name in
    let prefix = shared_prefix invalid name in
    let s = score dist prefix in
    let best_score = score best.distance best.prefix in
    if ltb s best_score || (s == best_score && ltb dist best.distance)
    then record { match = name; distance = dist; prefix = prefix }
    else best

unfoldable pub consider_all : Text → Suggestion → List Text → Suggestion
consider_all invalid best [] = best
consider_all invalid best (n ∷ names) = consider_all invalid (consider invalid best n) names

-- `SuggestFormat` over the names that the registry lists.
unfoldable pub suggest_format : Text → List Text → Text
unfolding consider_all
suggest_format invalid names =
    let best = consider_all invalid no_suggestion names in
    if leb best.distance ((length invalid + 1) / 2) && not (is_empty best.match)
    then best.match
    else []

unfoldable pub is_config_file_path : Text → Bool
is_config_file_path name =
    if starts_with (codes "config:") name
    then true
    else if ltb 5 (length name) && text_eq (lower (drop (length name - 5) name)) (codes ".json")
    then true
    else (starts_with (codes "http://") name || starts_with (codes "https://") name)
      && contains (codes ".json") name

abbrev pub extract_config_path : Text → Text
extract_config_path name = if starts_with (codes "config:") name then drop 7 name else name

abbrev pub is_word : Text → Text → Bool
is_word word name = text_eq name word

-- Each entry of a list: no `auto`, no `unknown`, and a format by the call for one more level.
abbrev pub valid_entries : (Text → Bool) → List Text → Bool
valid_entries valid [] = true
valid_entries valid (f ∷ fs) =
    let rest = valid_entries valid fs in
    if is_word (codes "auto") f || is_word (codes "unknown") f
    then false
    else if not (valid f)
    then false
    else rest

-- `IsValidFormat` with fuel for its calls of itself.
unfoldable pub is_valid_format : ℕ → Registry → Text → Bool
is_valid_format zero r name = false
is_valid_format (suc f) r name =
    let formats = split_format_list name in
    let entries = valid_entries (is_valid_format f r) formats in
    if is_empty name || is_word (codes "unknown") name
    then false
    else if is_word (codes "auto") name
    then true
    else if not (is_empty formats)
    then entries
    else if is_config_file_path name
    then true
    else has_format name r || is_group name r

abbrev quoted : Text → Text
quoted t = codes "'" ++ t ++ codes "'"

-- The end of a message, with the suggestion for a name.
pub hint : Text → Registry → Text
hint name r =
    let suggestion = suggest_format name (get_all_format_names r) in
    if not (is_empty suggestion)
    then codes " Did you mean " ++ quoted suggestion ++ codes "?"
    else codes " Use 'auto' for auto-detection or see docs/formats.md for supported formats."

-- The entries that the message may blame.
abbrev pub is_bad_entry : Registry → Text → Bool
is_bad_entry r f =
    is_word (codes "auto") f || is_word (codes "unknown") f || not (is_valid_format 2 r f)

pub entry_error : Text → Text → Registry → Text
entry_error f name r =
    codes "Unknown format "
    ++ quoted f
    ++ codes " in format list "
    ++ quoted name
    ++ codes "."
    ++ hint f r

unfoldable pub blame : Text → Registry → Option Text → Text
blame name r (some f) = entry_error f name r
blame name r none = codes "Unknown format: " ++ quoted name ++ codes "." ++ hint name r

-- `FormatValidationError`; fuel 2 settles what `is_valid_format` answers.
unfoldable pub format_validation_error : Text → Registry → Text
format_validation_error name r = blame name r (find_if (is_bad_entry r) (split_format_list name))

abbrev pub named : Registry → Option Parser → Option (Text × Registry)
named r none = none
named r (some p) = some (p.format_name, r)

-- The name of what was found.
unfoldable pub name_found : Option (Option ℕ × Registry) → Option (Text × Registry)
name_found none = none
name_found (some (none, r)) = some ([], r)
name_found (some (some i, r)) = named r (deref r.parsers i)

-- `DetectFormat`, with the registry whose order it may have sorted.
unfoldable pub detect_format : Text → Registry → Option (Text × Registry)
detect_format content r = name_found (find_parser content r)
