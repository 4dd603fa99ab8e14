-- ===== src/Context.antt =====
-- src/core/context_extraction.cpp: the truncation of an event's log content, and the lines around an
-- event. The limit and the number of context lines are bound as numbers that are not negative; line
-- numbers are signed, and unbounded.
pub mod Bounds
pub mod Rows
use duck_hunt.Prelude.{
  ℕ, zero, suc, ◌+◌, ◌-◌, min, leb, ltb, Bool, true, false, ◌&&◌, Option, none, some, List, [], ◌∷◌,
  ◌++◌, Text, codes, length, get_elem?, take, is_empty, if◌then◌else◌,
}
use duck_hunt.Prelude.Int.{ℤ, pos, negsuc}
use duck_hunt.Lines.{lf, split_lines}

-- `nothing` is the source's `NONE`.
pub data ContentMode : Type 0 where
  full nothing limit smart : ContentMode

-- `content.substr(0, limit) + "..."`.
abbrev pub simple_truncation : Text → ℕ → Text
simple_truncation content n = take n content ++ codes "..."

abbrev pub is_positive : ℤ → Bool
is_positive (pos zero) = false
is_positive (pos (suc n)) = true
is_positive (negsuc n) = false

abbrev pub magnitude : ℤ → ℕ
magnitude (pos n) = n
magnitude (negsuc n) = 0

-- `lines[i]` for a count of positions; a position out of range adds nothing, and is not asked for.
unfoldable pub joined_lines : List Text → ℕ → ℕ → Text
joined_lines lines zero i = []
joined_lines lines (suc f) i =
    let rest = joined_lines lines f (i + 1) in
    elim (get_elem? lines i) [ none ↦ rest | some l ↦ l ++ lf ∷ rest ]

-- Two lines before the event, the event, and two behind, with dots for what is left out.
unfoldable pub around_event : Text → ℕ → ℕ → Text
around_event content first last =
    let lines = split_lines lf content in
    let start_line = first - 2 in
    let end_line = min (length lines) (last + 2) in
    (if ltb 0 start_line then codes "...\n" else [])
    ++ joined_lines lines (end_line - start_line) start_line
    ++ (if ltb end_line (length lines) then codes "..." else [])

abbrev pub last_line_of : ℤ → ℤ → ℕ
last_line_of start end = if is_positive end then magnitude end else magnitude start

unfoldable pub truncate_log_content : Text → ContentMode → ℕ → ℤ → ℤ → Text
truncate_log_content content full n start end = content
truncate_log_content content nothing n start end = []
truncate_log_content content limit n start end =
    if leb (length content) n then content else simple_truncation content n
truncate_log_content content smart n start end =
    let result = around_event content (magnitude start) (last_line_of start end) in
    if leb (length content) n
    then content
    else if is_positive start
    then (if ltb n (length result) then simple_truncation result n else result)
    else simple_truncation content n

-- A row of the context column.
pub record ContextLine : Type 0 where
  pub line_number : ℕ
  pub content : Text
  pub is_event : Bool

-- One round's row, before those of the later rounds.
abbrev pub row_before : ℕ → ℕ → ℕ → Option Text → List ContextLine → List ContextLine
row_before first last i none rest = rest
row_before first last i (some l) rest =
    (record { line_number = i + 1; content = l; is_event = leb first i && leb i last }) ∷ rest

-- The loop from position `i` on, for a count of rounds; `first` and `last` are the event's positions.
unfoldable pub context_rows : List Text → ℕ → ℕ → ℕ → ℕ → List ContextLine
context_rows lines first last zero i = []
context_rows lines first last (suc f) i =
    row_before first last i (get_elem? lines i) (context_rows lines first last f (i + 1))

-- `none` is NULL. The window is clamped to the lines there are; it is empty where the event stands
-- behind the last line.
unfoldable pub extract_context : List Text → ℤ → ℤ → ℕ → Option (List ContextLine)
extract_context lines start end context_lines =
    let first = magnitude start - 1 in
    let last = last_line_of start end - 1 in
    let context_start = first - context_lines in
    let context_end = min (length lines - 1) (last + context_lines) in
    if is_positive start
    then (if is_empty lines
        then none
        else some (context_rows lines first last (context_end + 1 - context_start) context_start))
    else none
