-- ===== src/Registry.antt =====
-- `ParserRegistry` of src/core/parser_registry.hpp and src/core/parser_registry.cpp, and the two SQL
-- functions of src/config_parser_functions.cpp that change it.
-- A pointer to a parser is a number, the place of its entry among the registry's own parsers: a
-- pointer without an entry dangles, and `none` is the fault of going through one. The mutex makes
-- each operation one step; `std::call_once` runs `initialize_all_parsers` before the first of them.
pub mod Sort
pub mod Listing
pub mod Command
pub mod Keys
pub mod Detect
pub mod Valid
pub mod Remove
use duck_hunt.Prelude.{
  ℕ, ◌+◌, ◌==◌, Bool, true, false, not, ◌&&◌, ◌||◌, Option, none, some, List, [], ◌∷◌, ◌++◌, map,
  Text, text_eq, keep_if, any_of, find_if, if◌then◌else◌, lookup, assign, erase,
}
use duck_hunt.Prelude.Int.{ℤ}
use duck_hunt.Parser.{Parser, has_name}
use Sort.{stable_sort}

pub record Entry : Type 0 where
  pub id : ℕ
  pub parser : Parser

abbrev pub FormatMap : Type 0
FormatMap = List (Text × ℕ)

-- `format_map_` is a list of keys with pointers, `builtin_formats_` the list of its keys.
pub record Registry : Type 0 where
  pub parsers : List Entry
  pub format_map : FormatMap
  pub builtin_formats : List Text
  pub sorted_parsers : List ℕ
  pub needs_resort : Bool
  pub initialization_complete : Bool
  pub next_id : ℕ

abbrev pub empty_registry : Registry
empty_registry = record {
  parsers = [];
  format_map = [];
  builtin_formats = [];
  sorted_parsers = [];
  needs_resort = false;
  initialization_complete = false;
  next_id = 0;
}

-- The parser behind a pointer.
unfoldable pub deref : List Entry → ℕ → Option Parser
deref [] i = none
deref (e ∷ es) i = if e.id == i then some e.parser else deref es i

unfoldable pub assign_all : List Text → ℕ → FormatMap → FormatMap
unfolding assign
assign_all [] i m = m
assign_all (k ∷ ks) i m = assign_all ks i (assign k i m)

unfoldable pub erase_all : List Text → FormatMap → FormatMap
unfolding erase
erase_all [] m = m
erase_all (k ∷ ks) m = erase_all ks (erase k m)

-- The name first, then the aliases; while initialising, each is marked as built in.
unfoldable pub register_parser : Option Parser → Registry → Registry
unfolding assign_all
register_parser none r = r
register_parser (some p) r =
    let names = p.format_name ∷ p.aliases in
    record r {
      parsers = r.parsers ++ (record { id = r.next_id; parser = p }) ∷ [];
      format_map = assign_all names r.next_id r.format_map;
      builtin_formats =
          if r.initialization_complete then r.builtin_formats else names ++ r.builtin_formats;
      needs_resort = true;
      next_id = r.next_id + 1;
    }

abbrev pub mark_initialization_complete : Registry → Registry
mark_initialization_complete r = record r { initialization_complete = true }

-- The built-in parsers are those that the categories' registration functions create, in order.
pub initialize_all_parsers : List Parser → Registry → Registry
unfolding register_parser
initialize_all_parsers [] r = mark_initialization_complete r
initialize_all_parsers (p ∷ ps) r = initialize_all_parsers ps (register_parser (some p) r)

unfoldable pub get_parser : Text → Registry → Option ℕ
unfolding lookup
get_parser k r = lookup k r.format_map

unfoldable pub has_format : Text → Registry → Bool
unfolding lookup
has_format k r = elim (lookup k r.format_map) [ none ↦ false | some _ ↦ true ]

unfoldable pub is_built_in : Text → Registry → Bool
is_built_in k r = has_name k r.builtin_formats

abbrev pub clear : Registry → Registry
clear r = record r {
  parsers = [];
  sorted_parsers = [];
  format_map = [];
  builtin_formats = [];
  needs_resort = false;
  initialization_complete = false;
}

unfoldable pub remove_named : Text → List Entry → List Entry
remove_named name es = keep_if (λ e. not (text_eq e.parser.format_name name)) es

-- The name, the aliases, and every parser of that name are removed.
unfoldable pub drop_parser : Parser → Registry → Registry
unfolding erase_all remove_named
drop_parser p r = record r {
  format_map = erase_all (p.format_name ∷ p.aliases) r.format_map;
  parsers = remove_named p.format_name r.parsers;
  needs_resort = true;
}

unfoldable pub unregister_parser : Text → Registry → Option (Bool × Registry)
unfolding lookup is_built_in deref drop_parser
unregister_parser k r = elim (lookup k r.format_map) [
  | none ↦ some (false, r)
  | some i ↦
      (if is_built_in k r
        then some (false, r)
        else elim (deref r.parsers i) [ none ↦ none | some p ↦ some (true, drop_parser p r) ])
]

-- By descending priority, in the order of registration where priorities are equal.
unfoldable pub ensure_sorted_locked : Registry → Registry
unfolding stable_sort
ensure_sorted_locked r = if not r.needs_resort then r else record r {
  sorted_parsers = map (λ e. e.id) (stable_sort (λ (e : Entry). e.parser.priority) r.parsers);
  needs_resort = false;
}

unfoldable pub try_parsers : List Entry → Text → List ℕ → Option (Option ℕ)
unfolding deref
try_parsers es content [] = some none
try_parsers es content (i ∷ is) = elim (deref es i) [
  | none ↦ none
  | some p ↦ (if p.can_parse content then some (some i) else try_parsers es content is)
]

-- The sorted order is a cache: the registry comes back with it.
unfoldable pub find_parser : Text → Registry → Option (Option ℕ × Registry)
find_parser content r =
    let r' = ensure_sorted_locked r in
    elim (try_parsers r'.parsers content r'.sorted_parsers) [
      | none ↦ none
      | some found ↦ some (found, r')
    ]

unfoldable pub get_parsers_by_category : Text → Registry → List Entry
unfolding stable_sort
get_parsers_by_category c r =
    stable_sort (λ (e : Entry). e.parser.priority)
      (keep_if (λ e. text_eq e.parser.category c) r.parsers)

unfoldable pub get_parsers_by_group : Text → Registry → List Entry
unfolding stable_sort
get_parsers_by_group g r =
    stable_sort (λ (e : Entry). e.parser.priority)
      (keep_if (λ e. has_name g e.parser.groups) r.parsers)

unfoldable pub is_group : Text → Registry → Bool
is_group name r = any_of (λ e. has_name name e.parser.groups) r.parsers

-- `duck_hunt_load_parser_config`, from the parser that the configuration describes: `none` inside
-- is the exception that a built-in name raises.
unfoldable pub load_parser_config : Parser → Registry → Option (Option Registry)
unfolding has_format is_built_in unregister_parser register_parser
load_parser_config p r =
    if has_format p.format_name r
    then (if is_built_in p.format_name r
        then some none
        else elim (unregister_parser p.format_name r) [
          | none ↦ none
          | some (_, r') ↦ some (some (register_parser (some p) r'))
        ])
    else some (some (register_parser (some p) r))

-- `duck_hunt_unload_parser`; `none` inside is the exception.
unfoldable pub unload_parser : Text → Registry → Option (Option (Bool × Registry))
unfolding is_built_in unregister_parser
unload_parser name r =
    if is_built_in name r
    then some none
    else elim (unregister_parser name r) [ none ↦ none | some result ↦ some (some result) ]
