-- ===== src/Files.antt =====
-- Files as src/core/file_utils.cpp reads them. The engine's file system is a parameter.

pub mod Content
use duck_hunt.Prelude.{
  ℕ, zero, suc, ◌+◌, ◌*◌, ◌-◌, ◌/◌, ◌%◌, ◌==◌, ltb, Bool, true, false, not, ◌&&◌, ◌||◌, Option,
  none, some, List, [], ◌∷◌, ◌++◌, Text, codes, text_eq, length, take, drop, is_empty, any_of,
  starts_with, contains, trim, if◌then◌else◌,
}
use duck_hunt.Parser.{Outcome, ok, io_exception, exception, ◌>>=◌, ends_with}
use duck_hunt.LineReader.{FileHandle, read}

-- What `OpenFile` gives: a handle, whether the size can be asked for, and the size it then has.
pub record OpenFile : Type 0 where
  pub handle : FileHandle
  pub can_get_size : Bool
  pub file_size : ℕ

-- `FileSystem`. A `none` is a `NotImplementedException`.
pub record FileSystem : Type 0 where
  pub open_file : Text → Outcome OpenFile
  pub file_exists : Text → Bool
  pub has_glob : Text → Option Bool
  pub glob_files : Text → Option (Outcome (List Text))
  pub join_path : Text → Text → Text

abbrev pub max_path_length : ℕ
max_path_length = 4096

abbrev pub max_file_size_bytes : ℕ
max_file_size_bytes = 104857600

abbrev pub sniff_buffer_size : ℕ
sniff_buffer_size = 8192

-- `path.rfind(p, path.length() - 3) == path.length() - 3` for a text of three bytes. For a path of two
-- bytes the subtraction wraps around to `npos`, which is what `rfind` gives then, so the comparison
-- holds; for one byte it wraps to another number.
abbrev ends_like : Text → Text → Bool
ends_like path p = length path == 2 || ends_with path p

abbrev parent_dir : Text
parent_dir = codes ".."

unfoldable pub is_traversal : Text → Bool
is_traversal path =
    contains (codes "../") path
    || contains (b'.' ∷ b'.' ∷ b'\\' ∷ []) path
    || text_eq path parent_dir
    || ends_like path (codes "/..")
    || ends_like path (b'\\' ∷ b'.' ∷ b'.' ∷ [])

unfoldable pub validate_path : Text → Bool
validate_path path =
    if is_empty path
    then false
    else if ltb max_path_length (length path)
    then false
    else if any_of (λ c. c == 0) path
    then false
    else if contains parent_dir path
    then not (is_traversal path)
    else true

-- Decimal digits, on fuel.
unfoldable pub to_decimal_from : ℕ → ℕ → Text → Text
to_decimal_from zero n out = out
to_decimal_from (suc f) n out =
    let more = to_decimal_from f (n / 10) ((b'0' + n % 10) ∷ out) in
    if ltb n 10 then (b'0' + n) ∷ out else more

abbrev pub to_decimal : ℕ → Text
to_decimal n = to_decimal_from (suc n) n []

abbrev megabytes : ℕ → Text
megabytes n = to_decimal (n / 1048576)

abbrev pub invalid_path : Text → Text
invalid_path source = codes "Invalid file path: '" ++ source ++ codes "'"

pub size_error : Text → Text → ℕ → Text
size_error source what n =
    codes "File '"
    ++ source
    ++ codes "' exceeds maximum size limit of "
    ++ megabytes max_file_size_bytes
    ++ codes " MB ("
    ++ what
    ++ codes ": "
    ++ megabytes n
    ++ codes " MB)"

abbrev pub zeros : ℕ → Text
zeros zero = []
zeros (suc n) = 0 ∷ zeros n

-- A buffer of `n` bytes that a read has filled as far as it came.
abbrev pub filled : ℕ → Text → Text
filled n bytes = bytes ++ zeros (n - length bytes)

abbrev pub chunk_size : ℕ
chunk_size = 65536

-- The loop over chunks, on fuel; `none` is the end of the fuel.
pub read_chunks : ℕ → Text → FileHandle → Text → Option (Outcome Text)
read_chunks zero source h content = none
read_chunks (suc f) source h content =
    let (bytes, h') = read h chunk_size in
    let content' = content ++ bytes in
    let more = read_chunks f source h' content' in
    if is_empty bytes
    then some (ok content)
    else if ltb max_file_size_bytes (length content')
    then some (exception (size_error source (codes "read so far") (length content')))
    else more

-- The fuel is one for each byte of the file.
abbrev pub chunks_or_fault : Text → FileHandle → Option (Outcome Text) → Outcome Text
chunks_or_fault source h none = ok []
chunks_or_fault source h (some o) = o

unfoldable pub read_opened : Text → OpenFile → Outcome Text
read_opened source f =
    let chunks =
      chunks_or_fault source f.handle
        (read_chunks (suc (length f.handle.rest)) source f.handle []) in
    if f.can_get_size
    then (if ltb 0 f.file_size
        then (if ltb max_file_size_bytes f.file_size
            then exception (size_error source (codes "actual") f.file_size)
            else ok (filled f.file_size (read f.handle f.file_size).0))
        else chunks)
    else chunks

module _ (fs : FileSystem) where
  open fs use {open_file, file_exists, has_glob, glob_files, join_path}

  unfoldable pub peek_content : Text → ℕ → Outcome Text
  peek_content source max_bytes = open_file source >>= λ f. ok (read f.handle max_bytes).0

  unfoldable pub read_content : Text → Outcome Text
  read_content source =
      if not (validate_path source)
      then exception (invalid_path source)
      else (open_file source >>= λ f. read_opened source f)

  -- Not a URL, or one of the local file system.
  abbrev pub is_local : Text → Bool
  is_local pattern = not (contains (codes "://") pattern) || starts_with (codes "file://") pattern

  -- An `IOException` of the globbing gives no files; other exceptions pass.
  abbrev pub glob_result : Option (Outcome (List Text)) → Outcome (List Text)
  glob_result none = ok []
  glob_result (some (ok files)) = ok files
  glob_result (some (io_exception e)) = ok []
  glob_result (some (exception e)) = exception e

  abbrev pub skips_glob : Text → Option Bool → Bool
  skips_glob pattern none = is_local pattern
  skips_glob pattern (some true) = false
  skips_glob pattern (some false) = is_local pattern

  unfoldable pub get_glob_files : Text → Outcome (List Text)
  get_glob_files pattern =
      if not (validate_path pattern)
      then exception (codes "Invalid glob pattern: '" ++ pattern ++ codes "'")
      else if skips_glob pattern (has_glob pattern)
      then ok []
      else glob_result (glob_files pattern)

  unfoldable pub glob_each : List Text → Outcome (List Text)
  glob_each [] = ok []
  glob_each (p ∷ ps) = get_glob_files p >>= λ files. glob_each ps >>= λ rest. ok (files ++ rest)

  abbrev pub directory_patterns : Text → List Text
  directory_patterns path =
      join_path path (codes "*.xml")
      ∷ join_path path (codes "*.json")
      ∷ join_path path (codes "*.txt")
      ∷ join_path path (codes "*.log")
      ∷ join_path path (codes "*.out")
      ∷ []

  -- A file that is there, or what the glob finds, or the files of a directory.
  unfoldable pub files_behind : Text → List Text → Outcome (List Text)
  files_behind path (f ∷ files) = ok (f ∷ files)
  files_behind path [] =
      if ends_with path (codes "/")
      then glob_each (directory_patterns path)
      else io_exception (codes "File or directory does not exist: " ++ path)

  unfoldable pub get_files_from_pattern : Text → Outcome (List Text)
  get_files_from_pattern path =
      if file_exists path
      then ok (path ∷ [])
      else (get_glob_files path >>= λ files. files_behind path files)

-- The names of environments, in the order they are looked for.
abbrev pub environments : List Text
environments =
    codes "dev"
    ∷ codes "development"
    ∷ codes "staging"
    ∷ codes "stage"
    ∷ codes "prod"
    ∷ codes "production"
    ∷ codes "test"
    ∷ codes "testing"
    ∷ []

abbrev pub has_segment : Text → Text → Bool
has_segment path env =
    contains (codes "/" ++ env ++ codes "/") path
    || contains (codes "-" ++ env ++ codes "-") path
    || contains (codes "_" ++ env ++ codes "_") path

unfoldable pub first_segment : List Text → Text → Text
first_segment [] path = []
first_segment (e ∷ es) path =
    let rest = first_segment es path in if has_segment path e then e else rest

pub extract_environment_from_path : Text → Text
extract_environment_from_path path = first_segment environments path
