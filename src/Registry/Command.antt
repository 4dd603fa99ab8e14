-- ===== src/Registry/Command.antt =====
-- `findParserByCommand` of src/core/parser_registry.cpp: a parser for a command line. The regular
-- expressions of the standard library are a parameter; the cache of compiled patterns is not
-- modelled, since compiling a pattern again gives the same expression.
use duck_hunt.Prelude.{
  ℕ, ◌≡◌, refl, ap, ap₂, ◌∙◌, Bool, true, false, ◌==◌, ◌&&◌, ◌||◌, Bool-cases, inl, inr, Option,
  none, some, List, [], ◌∷◌, ◌++◌, Text, codes, text_eq, All, any_of, find_if, map, arith,
  if◌then◌else◌, find_char, take, drop, contains, Option-cases,
}
use duck_hunt.Prelude.Int.{ℤ, minus_one, ltb_ℤ, leb_ℤ, ◌≤ℤ◌}
use duck_hunt.Parser.{Parser, CommandPattern}
use duck_hunt.Registry.{Registry, Entry, deref, ensure_sorted_locked}
use duck_hunt.Registry.Sort.{
  stable_sort, first_max, find_if-stable_sort, IsDescending, stable_sort-IsDescending,
  All-stable_sort, IsFirstMax, first_max-none, first_max-IsFirstMax,
}
use duck_hunt.Registry.Valid.{IsValid}
use duck_hunt.Registry.Detect.{
  priority, pointer, ensure_sorted_locked-sorted, ensure_sorted_locked-IsValid,
}

-- `compile` takes the pattern with `std::regex::icase`; none is a `std::regex_error`.
pub record Regex : Type 1 where
  pub Compiled : Type 0
  pub compile : Text → Option Compiled
  pub regex_match : Compiled → Text → Bool
  pub regex_search : Compiled → Text → Bool

-- `.`, `^`, `$`, `+`, `?`, brackets, `|` and `\` are escaped, and `*` is not.
abbrev is_escaped : ℕ → Bool
is_escaped c =
    c == b'.'
    || c == b'^'
    || c == b'$'
    || c == b'+'
    || c == b'?'
    || c == b'('
    || c == b')'
    || c == b'['
    || c == b']'
    || c == b'{'
    || c == b'}'
    || c == b'|'
    || c == b'\\'

unfoldable pub like_pattern_to_regex : Text → Text
like_pattern_to_regex [] = []
like_pattern_to_regex (c ∷ s) =
    (if c == b'%'
      then codes ".*"
      else if c == b'_'
      then codes "."
      else if is_escaped c
      then b'\\' ∷ c ∷ []
      else c ∷ [])
    ++ like_pattern_to_regex s

-- What stands behind the last `/`.
unfoldable pub base_name : Text → Text
base_name [] = []
base_name (c ∷ s) =
    let rest = base_name s in
    if contains (b'/' ∷ []) s then rest else if c == b'/' then s else c ∷ s

-- The command without the path of its executable.
unfoldable pub normalize_command : Text → Text
unfolding base_name find_char
normalize_command command = elim (find_char b' ' command) [
  | none ↦ base_name command
  | some n ↦ base_name (take n command) ++ drop n command
]

module _ (re : Regex) where
  open re use {compile, regex_match, regex_search}

  match_like_pattern : Text → Text → Bool
  match_like_pattern s pattern = elim (compile (like_pattern_to_regex pattern)) [
    | none ↦ false
    | some c ↦ regex_match c s
  ]

  pub matches : Text → CommandPattern → Bool
  unfolding match_like_pattern
  matches normalized cp =
      if text_eq cp.pattern_type (codes "literal")
      then text_eq normalized cp.pattern
      else if text_eq cp.pattern_type (codes "like")
      then match_like_pattern normalized cp.pattern
      else if text_eq cp.pattern_type (codes "regexp")
      then elim (compile cp.pattern) [ none ↦ false | some c ↦ regex_search c normalized ]
      else false

  abbrev is_some : Option ℕ → Bool
  is_some none = false
  is_some (some _) = true

  -- One round of the loop over the parsers, on `best_match` and `best_priority`.
  pub improve : Text → ℕ → Parser → Option ℕ × ℤ → Option ℕ × ℤ
  improve normalized i p (best, best_priority) =
      if is_some best && leb_ℤ p.priority best_priority
      then (best, best_priority)
      else if any_of (matches normalized) p.command_patterns
      then (if ltb_ℤ best_priority p.priority then (some i, p.priority) else (best, best_priority))
      else (best, best_priority)

  pub scan_commands : List Entry → Text → List ℕ → Option ℕ × ℤ → Option (Option ℕ)
  scan_commands es normalized [] best = some best.0
  scan_commands es normalized (i ∷ is) best = elim (deref es i) [
    | none ↦ none
    | some p ↦ scan_commands es normalized is (improve normalized i p best)
  ]

  pub find_parser_by_command : Text → Registry → Option (Option ℕ × Registry)
  find_parser_by_command command r =
      let r' = ensure_sorted_locked r in
      elim (scan_commands r'.parsers (normalize_command command) r'.sorted_parsers
        (none, minus_one)) [ none ↦ none | some found ↦ some (found, r') ]

  -- A parser that a command may choose: one of its patterns fits, and its priority is not negative.
  abbrev pub fits : Text → Entry → Bool
  fits normalized e =
      any_of (matches normalized) e.parser.command_patterns && ltb_ℤ minus_one e.parser.priority

  improve_done :
      (s : Text) (i b : ℕ) (p : Parser) (z : ℤ)
      → p.priority ≤ℤ z
      → improve s i p (some b, z) ≡ (some b, z)
  unfolding improve
  improve_done s i b p z h = let t : leb_ℤ p.priority z ≡ true = ground arith in rw t

  improve_first :
      (s : Text) (e : Entry)
      → improve s e.id e.parser (none, minus_one)
        ≡ (if fits s e then (some e.id, priority e) else (none, minus_one))
  unfolding improve
  improve_first s e = elim (Bool-cases (any_of (matches s) e.parser.command_patterns)) [
    | inl t ↦ rw t
    | inr t ↦ rw t
  ]

  scan_commands_step :
      (es : List Entry) (s : Text) (e : Entry) (is : List ℕ) (best : Option ℕ × ℤ)
      → deref es e.id ≡ some e.parser
      → scan_commands es s (e.id ∷ is) best ≡ scan_commands es s is (improve s e.id e.parser best)
  unfolding scan_commands
  scan_commands_step es s e is best h = rw (h, scan_commands)

  -- Behind a match of the highest priority nothing changes any more.
  scan_commands_done :
      (es : List Entry) (s : Text) (l : List Entry) (i : ℕ) (z : ℤ)
      → All (λ e. deref es e.id ≡ some e.parser) l
      → All (λ e. priority e ≤ℤ z) l
      → scan_commands es s (map (λ e. e.id) l) (some i, z) ≡ some (some i)
  scan_commands_done es s [] i z h a = unfold scan_commands in refl
  scan_commands_done es s (e ∷ l) i z h a =
      scan_commands_step es s e (map (λ e. e.id) l) (some i, z) h.0
      ∙ ap (scan_commands es s (map (λ e. e.id) l)) (improve_done s e.id i e.parser z a.0)
      ∙ scan_commands_done es s l i z h.1 a.1

  scan_commands-find_if :
      (es : List Entry) (s : Text) (l : List Entry)
      → All (λ e. deref es e.id ≡ some e.parser) l
      → IsDescending priority l
      → scan_commands es s (map (λ e. e.id) l) (none, minus_one)
        ≡ some (pointer (find_if (fits s) l))
  scan_commands-find_if es s [] h d = unfold scan_commands in refl
  scan_commands-find_if es s (e ∷ l) h d =
      scan_commands_step es s e (map (λ e. e.id) l) (none, minus_one) h.0
      ∙ ap (scan_commands es s (map (λ e. e.id) l)) (improve_first s e)
      ∙ elim (Bool-cases (fits s e)) [
        | inl t ↦ rw t (scan_commands_done es s l e.id (priority e) h.1 d.0)
        | inr t ↦ rw t (scan_commands-find_if es s l h.1 d.1)
      ]

  find_parser_by_command_found :
      (command : Text) (r : Registry) (found : Option ℕ)
      → scan_commands
          (ensure_sorted_locked r).parsers
          (normalize_command command)
          (ensure_sorted_locked r).sorted_parsers
          (none, minus_one)
        ≡ some found
      → find_parser_by_command command r ≡ some (found, ensure_sorted_locked r)
  unfolding find_parser_by_command
  find_parser_by_command_found command r found h = rw (h, find_parser_by_command)

  -- What a command selects: nothing, where no parser fits it, or the first of the fitting parsers
  -- of the highest priority. A parser of negative priority never fits.
  abbrev pub Commanded : Text → Registry → Option ℕ → Type 0
  Commanded s r none = All (λ e. fits s e ≡ false) r.parsers
  Commanded s r (some i) = (e : Entry) × (e.id ≡ i) × IsFirstMax priority (fits s) r.parsers e

  Commanded-first_max :
      (s : Text) (r : Registry) → Commanded s r (pointer (first_max priority (fits s) r.parsers))
  Commanded-first_max s r = elim (Option-cases (first_max priority (fits s) r.parsers)) [
    | inl n ↦ rw n (first_max-none priority (fits s) r.parsers n)
    | inr (e, t) ↦ rw t (e, refl, first_max-IsFirstMax priority (fits s) r.parsers e t)
  ]

  -- The loop that keeps the best match finds the first match of the highest priority.
  pub find_parser_by_command-Commanded :
      (command : Text) (r : Registry)
      → IsValid r
      → (found : Option ℕ) × (r' : Registry) × (find_parser_by_command command r ≡ some (found, r'))
        × Commanded (normalize_command command) r found
        × IsValid r'
  find_parser_by_command-Commanded command r v =
      let (order, same) = ensure_sorted_locked-sorted r v in
      let s = normalize_command command in
      let sorted = stable_sort priority r.parsers in
      (
        pointer (first_max priority (fits s) r.parsers),
        ensure_sorted_locked r,
        find_parser_by_command_found command r _ (
            ap₂ (λ (es : List Entry) (is : List ℕ). scan_commands es s is (none, minus_one)) same
              order
            ∙ scan_commands-find_if r.parsers s sorted
                (All-stable_sort priority _ r.parsers v.own_ids)
                (stable_sort-IsDescending priority r.parsers)
            ∙ ap (λ (o : Option Entry). some (pointer o))
                (find_if-stable_sort priority (fits s) r.parsers)),
        Commanded-first_max s r,
        ensure_sorted_locked-IsValid r v,
      )
