-- ===== src/Patterns.antt =====
-- src/core/error_patterns.cpp: fingerprints, pattern numbers, similarity and root causes of events.
-- The regular expressions of the standard library and `std::hash` are parameters.
pub mod Similarity
pub mod Clusters
use duck_hunt.Prelude.{
  ℕ, zero, suc, ◌+◌, ◌*◌, ◌/◌, ◌%◌, min, max, ◌==◌, leb, ltb, Bool, true, false, not, ◌&&◌, ◌||◌,
  Option, none, some, List, [], ◌∷◌, ◌++◌, map, Text, codes, text_eq, lower, trim, is_empty, length,
  contains, any_of, lookup, if◌then◌else◌, ◌-◌,
}
use duck_hunt.Prelude.Int.{ℤ, pos, is_minus_one, negsuc}
use duck_hunt.Event.{ValidationEvent, ValidationEventType, Double, is_zero}

-- The expressions that the normalisation replaces, by their names in the source.
pub data Expression : Type 0 where
  re_file_ext re_unix_path re_win_path re_datetime re_time re_line_col : Expression
  re_line_num re_col_num re_hex_addr re_long_id re_single_quoted : Expression
  re_double_quoted re_decimal re_integer re_whitespace : Expression

-- What the code takes from the standard library: `std::regex_replace` and `std::hash`.
pub record Library : Type 0 where
  pub regex_replace : Expression → Text → Text → Text
  pub hash : Text → ℕ

unfoldable pub needs_normalization : Text → Bool
needs_normalization message =
    any_of
      (λ c.
        c == b'/'
        || c == b'\\'
        || c == b':'
        || c == 39
        || c == b'"'
        || (leb b'0' c && leb c b'9')
        || c == b'\t'
        || c == b'\n')
      message

-- Where every byte is blank the text stays.
abbrev trim_or_keep : Text → Text
trim_or_keep s = elim (trim s) [ [] ↦ s | c ∷ t ↦ c ∷ t ]

abbrev hex_digit : ℕ → ℕ
hex_digit d = if ltb d 10 then b'0' + d else b'a' + d - 10

-- `std::hex`; sixteen digits hold a `size_t`.
pub to_hex : ℕ → ℕ → Text → Text
to_hex zero n out = out
to_hex (suc f) n out =
    let more = to_hex f (n / 16) (hex_digit (n % 16) ∷ out) in
    if ltb n 16 then hex_digit n ∷ out else more

unfoldable pub count_common : Text → Text → ℕ
count_common (x ∷ xs) (y ∷ ys) = (if x == y then 1 else 0) + count_common xs ys
count_common _ _ = 0

abbrev keywords : List Text
keywords =
    codes "error"
    ∷ codes "warning"
    ∷ codes "failed"
    ∷ codes "exception"
    ∷ codes "timeout"
    ∷ codes "permission"
    ∷ codes "not found"
    ∷ []

unfoldable pub count_keywords : List Text → Text → Text → ℕ
unfolding contains
count_keywords [] a b = 0
count_keywords (k ∷ ks) a b =
    (if contains k a && contains k b then 1 else 0) + count_keywords ks a b

abbrev pub one : Double
one = record { num = 1; den = 1 }

-- `std::min(1.0, d)`.
abbrev at_most_one : Double → Double
at_most_one d = if ltb d.den d.num then one else d

-- `common / max_len + matches * 0.1`, over the common denominator.
abbrev pub overlap : Text → Text → Double
overlap a b =
    let max_len = max (length a) (length b) in
    record {
      num = 10 * count_common a b + count_keywords keywords a b * max_len;
      den = 10 * max_len;
    }

-- The similarity of normalised messages.
unfoldable pub similarity_of_normalized : Text → Text → Double
similarity_of_normalized a b =
    if is_empty a && is_empty b
    then one
    else if is_empty a || is_empty b
    then record { num = 0; den = 1 }
    else if text_eq a b
    then one
    else at_most_one (overlap a b)

-- The maps of the second pass, and the next number.
pub record PatternState : Type 0 where
  pub fingerprint_to_pattern_id : List (Text × ℕ)
  pub pattern_id_to_representative : List (ℕ × Text)
  pub next_pattern_id : ℕ

abbrev pub no_patterns : PatternState
no_patterns = record {
  fingerprint_to_pattern_id = [];
  pattern_id_to_representative = [];
  next_pattern_id = 1;
}

unfoldable pub representative : ℕ → List (ℕ × Text) → Option Text
representative n [] = none
representative n ((i, t) ∷ m) = if i == n then some t else representative n m

-- A pattern's number as a key; the events have no negative number but -1.
abbrev pub number : ℤ → ℕ
number (pos n) = n
number _ = 0

-- One round of the second pass: the event with its number, and the maps behind it.
unfoldable pub assign_pattern : PatternState → ValidationEvent → ValidationEvent × PatternState
unfolding lookup
assign_pattern st event = elim (lookup event.fingerprint st.fingerprint_to_pattern_id) [
  | some i ↦ (record event { pattern_id = pos i }, st)
  | none ↦ (
    record event { pattern_id = pos st.next_pattern_id },
    record {
      fingerprint_to_pattern_id =
          (event.fingerprint, st.next_pattern_id) ∷ st.fingerprint_to_pattern_id;
      pattern_id_to_representative =
          (st.next_pattern_id, event.message) ∷ st.pattern_id_to_representative;
      next_pattern_id = st.next_pattern_id + 1;
    },
  )
]

unfoldable pub assign_patterns :
    PatternState → List ValidationEvent → List ValidationEvent × PatternState
assign_patterns st [] = ([], st)
assign_patterns st (event ∷ events) =
    let (event', st') = assign_pattern st event in
    let (events', last) = assign_patterns st' events in (event' ∷ events', last)

abbrev is_syntax : ValidationEventType → Bool
is_syntax ValidationEventType.lint_issue = true
is_syntax ValidationEventType.type_error = true
is_syntax _ = false

abbrev is_build : ValidationEventType → Bool
is_build ValidationEventType.build_error = true
is_build _ = false

abbrev is_test : ValidationEventType → Bool
is_test ValidationEventType.test_result = true
is_test _ = false

abbrev says_any : List Text → Text → Bool
says_any words message = any_of (λ w. contains w message) words

-- `DetectRootCauseCategory`.
pub detect_root_cause_category : ValidationEvent → Text
detect_root_cause_category event =
    let message_lower = lower event.message in
    if says_any
      (codes "connection"
        ∷ codes "timeout"
        ∷ codes "unreachable"
        ∷ codes "network"
        ∷ codes "dns"
        ∷ [])
      message_lower
    then codes "network"
    else if says_any
        (codes "permission"
          ∷ codes "access denied"
          ∷ codes "unauthorized"
          ∷ codes "forbidden"
          ∷ codes "authentication"
          ∷ [])
        message_lower
    then codes "permission"
    else if says_any
        (codes "config"
          ∷ codes "invalid resource"
          ∷ codes "not found"
          ∷ codes "does not exist"
          ∷ codes "missing"
          ∷ [])
        message_lower
    then codes "configuration"
    else if says_any
        (codes "memory" ∷ codes "disk" ∷ codes "space" ∷ codes "quota" ∷ codes "limit" ∷ [])
        message_lower
    then codes "resource"
    else if says_any (codes "syntax" ∷ codes "parse" ∷ codes "invalid" ∷ codes "format" ∷ [])
          message_lower
        || is_syntax event.event_type
    then codes "syntax"
    else if says_any (codes "build" ∷ codes "compile" ∷ codes "dependency" ∷ codes "package" ∷ [])
          message_lower
        || is_build event.event_type
    then codes "build"
    else if is_test event.event_type
    then codes "test_logic"
    else codes "unknown"

module _ (lib : Library) where
  open lib use {regex_replace, hash}

  unfoldable pub normalize_error_message : Text → Text
  unfolding needs_normalization
  normalize_error_message [] = []
  normalize_error_message (c ∷ s) =
      let n₀ = lower (c ∷ s) in
      let n₁ = regex_replace re_file_ext (codes " <file> ") n₀ in
      let n₂ = regex_replace re_unix_path (codes "/<path>/") n₁ in
      let n₃ = regex_replace re_win_path (codes "\\<path>\\") n₂ in
      let n₄ = regex_replace re_datetime (codes "<timestamp>") n₃ in
      let n₅ = regex_replace re_time (codes "<time>") n₄ in
      let n₆ = regex_replace re_line_col (codes ":<line>:<col>:") n₅ in
      let n₇ = regex_replace re_line_num (codes "line <num>") n₆ in
      let n₈ = regex_replace re_col_num (codes "column <num>") n₇ in
      let n₉ = regex_replace re_hex_addr (codes "<addr>") n₈ in
      let n₁₀ = regex_replace re_long_id (codes "<id>") n₉ in
      let n₁₁ = regex_replace re_single_quoted (codes "'<var>'") n₁₀ in
      let n₁₂ = regex_replace re_double_quoted (codes "\"<var>\"") n₁₁ in
      let n₁₃ = regex_replace re_decimal (codes "<decimal>") n₁₂ in
      let n₁₄ = regex_replace re_integer (codes "<num>") n₁₃ in
      let n₁₅ = regex_replace re_whitespace (codes " ") n₁₄ in
      if not (needs_normalization n₀) then trim_or_keep n₀ else trim_or_keep n₁₅

  unfoldable pub generate_error_fingerprint : ValidationEvent → Text
  unfolding to_hex
  generate_error_fingerprint event =
      let normalized = normalize_error_message event.message in
      let source = event.tool_name ++ codes ":" ++ event.category ++ codes ":" ++ normalized in
      event.tool_name ++ codes "_" ++ event.category ++ codes "_" ++ to_hex 16 (hash source) []

  unfoldable pub calculate_message_similarity : Text → Text → Double
  calculate_message_similarity msg₁ msg₂ =
      similarity_of_normalized (normalize_error_message msg₁) (normalize_error_message msg₂)

  -- The third pass: the similarity to the representative of the event's pattern.
  unfoldable pub score_pattern : PatternState → ValidationEvent → ValidationEvent
  unfolding representative calculate_message_similarity
  score_pattern st event =
      if is_minus_one event.pattern_id
      then event
      else elim (representative (number event.pattern_id) st.pattern_id_to_representative) [
        | none ↦ event
        | some t ↦
            (if is_empty t
              then event
              else record event { similarity_score = calculate_message_similarity event.message t })
      ]

  abbrev pub fingerprinted : ValidationEvent → ValidationEvent
  fingerprinted event = record event { fingerprint = generate_error_fingerprint event }

  unfoldable pub process_error_patterns : List ValidationEvent → List ValidationEvent
  process_error_patterns events =
      let (numbered, last) = assign_patterns no_patterns (map fingerprinted events) in
      map (score_pattern last) numbered
