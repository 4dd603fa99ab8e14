-- ===== src/LineReader.antt =====
-- `LineReader` of src/core/file_utils.hpp and src/core/file_utils.cpp: a file line by line through a
-- buffer. The file system is a parameter: each read hands out as many bytes as it likes, at least
-- one while some are left, and at most the space that is offered.
pub mod Next
pub mod Lines
use duck_hunt.Prelude.{
  ℕ, zero, suc, ◌+◌, ◌-◌, min, max, ◌==◌, ltb, Bool, true, false, not, ◌&&◌, Option, none, some,
  List, [], ◌∷◌, ◌++◌, Text, length, take, drop, is_empty, any_of, if◌then◌else◌,
}
use duck_hunt.Lines.{lf, split_at_delim, pop_cr}

-- An open file: the bytes not read yet, and how many the next reads would hand out. When the list
-- of sizes is used up, a read fills the space.
pub record FileHandle : Type 0 where
  pub rest : Text
  pub sizes : List ℕ

abbrev pub read_size : List ℕ → ℕ → ℕ
read_size [] space = space
read_size (n ∷ ns) space = min (max 1 n) space

abbrev pub other_sizes : List ℕ → List ℕ
other_sizes [] = []
other_sizes (n ∷ ns) = ns

-- `FileHandle::Read` into `space` bytes.
abbrev pub read : FileHandle → ℕ → Text × FileHandle
read h space = (
  take (read_size h.sizes space) h.rest,
  record { rest = drop (read_size h.sizes space) h.rest; sizes = other_sizes h.sizes },
)

abbrev pub buffer_size : ℕ
buffer_size = 65536

-- `pending` is the part of the buffer from `buffer_pos_` to `buffer_end_`. `line_number` is an `int32_t`
-- in the source, whose increment is undefined behind 2 ^ 31 - 1 lines; here it is unbounded.
pub record LineReader : Type 0 where
  pub file_handle : FileHandle
  pub pending : Text
  pub line_number : ℕ
  pub eof : Bool

abbrev pub line_reader : FileHandle → LineReader
line_reader h = record { file_handle = h; pending = []; line_number = 0; eof = false }

-- What is pending moves to the front, and the space behind it is offered to a read.
unfoldable pub fill_buffer : LineReader → LineReader
fill_buffer r =
    let space = buffer_size - length r.pending in
    let (bytes, h) = read r.file_handle space in
    if r.eof
    then r
    else if ltb 0 space
    then (if is_empty bytes
        then record r { file_handle = h; eof = true }
        else record r { file_handle = h; pending = r.pending ++ bytes })
    else r

unfoldable pub has_next : LineReader → Bool × LineReader
has_next r =
    if not (is_empty r.pending)
    then (true, r)
    else (let r' = if r.eof then r else fill_buffer r in (not (is_empty r'.pending), r'))

-- The line at the end of the file.
abbrev pub last_line : Text → LineReader → Text × LineReader
last_line line r =
    if is_empty line then (line, r) else (pop_cr line, record r { line_number = r.line_number + 1 })

abbrev pub has_lf : Text → Bool
has_lf s = any_of (λ c. c == lf) s

abbrev pub emptied : LineReader → LineReader
emptied r = record r { pending = [] }

-- The loop of `NextLine` on fuel, `line` being what it has gathered; `none` is the end of the fuel.
pub next_line_loop : ℕ → Text → LineReader → Option (Text × LineReader)
next_line_loop zero line r = none
next_line_loop (suc f) line r =
    let (before, after) = split_at_delim lf r.pending in
    let filled = fill_buffer (emptied r) in
    let more = next_line_loop f (line ++ r.pending) filled in
    if has_lf r.pending
    then some
        (pop_cr (line ++ before), record r { pending = after; line_number = r.line_number + 1 })
    else if r.eof
    then some (last_line (line ++ r.pending) (emptied r))
    else if is_empty filled.pending && filled.eof
    then some (last_line (line ++ r.pending) filled)
    else more

abbrev pub next_line : ℕ → LineReader → Option (Text × LineReader)
next_line f r = next_line_loop f [] r

-- `while (reader.HasNext()) lines.push_back(reader.NextLine());` with fuel for each loop.
pub read_lines : ℕ → ℕ → LineReader → Option (List Text × LineReader)
read_lines g zero r = none
read_lines g (suc f) r =
    let (more, r') = has_next r in
    let rest : Option (List Text × LineReader) = elim (next_line g r') [
      | none ↦ none
      | some (l, r'') ↦ elim (read_lines g f r'') [
        | none ↦ none
        | some (ls, last) ↦ some (l ∷ ls, last)
      ]
    ] in
    if more then rest else some ([], r')
