-- ===== src/Dispatch/Total.antt =====
-- In a valid registry a format's name always leads to an outcome, and a list of formats to the events
-- of the first entry that gives any.
use duck_hunt.Prelude.{
  ℕ, suc, ◌≡◌, refl, sym, ap, ◌∙◌, Bool-cases, Option-cases, inl, inr, false, not, none, some, List,
  [], ◌∷◌, All, Text, codes, is_empty, arith, if◌then◌else◌, ap₂, subst, All-map,
}
use duck_hunt.Parser.{Parser, Outcome, ok, io_exception, exception}
use duck_hunt.Registry.{Registry, Entry, get_parser, is_group, get_parsers_by_group}
use duck_hunt.Registry.Valid.{IsValid}
use duck_hunt.Registry.Remove.{get_parser-Finds}
use duck_hunt.Formats.{split_format_list, is_config_file_path, is_word}
use duck_hunt.Formats.Names.{
  NoComma, split_format_list-NoComma, split_format_list_entry, word_has_list,
}
use duck_hunt.Dispatch.{
  World, Events, Call, or_next, first_events, run_group, run_parser, deref_or_fault, with_parser,
  is_no_format, parse_content_single, parse_content, parse_file_single, parse_file,
  run_parser_on_file, parse_with_config, parse_file_with_config,
}

-- An outcome, and no fault.
abbrev pub Returns : Call Events → Type 0
Returns c = (o : Outcome Events) × (c ≡ some o)

or_next-Returns : (a b : Call Events) → Returns a → Returns b → Returns (or_next a b)
or_next-Returns none b (o, e) h = absurd (ground (arith, e))
or_next-Returns (some (ok [])) b g h = h
or_next-Returns (some (ok (e ∷ es))) b g h = (ok (e ∷ es), refl)
or_next-Returns (some (io_exception t)) b g h = (io_exception t, refl)
or_next-Returns (some (exception t)) b g h = (exception t, refl)

first_events-Returns :
    (call : Text → Call Events) (fs : List Text)
    → All (λ f. Returns (call f)) fs
    → Returns (first_events call fs)
unfolding first_events
first_events-Returns call [] h = (ok [], refl)
first_events-Returns call (f ∷ fs) h =
    or_next-Returns (call f) (first_events call fs) h.0 (first_events-Returns call fs h.1)

run_group-Returns : (es : List Entry) (content : Text) → Returns (run_group es content)
unfolding run_group
run_group-Returns [] content = (ok [], refl)
run_group-Returns (e ∷ es) content = elim (Bool-cases (e.parser.can_parse content)) [
  | inl t ↦
      rw t (or_next-Returns _ _ (run_parser e.parser content, refl) (run_group-Returns es content))
  | inr t ↦ rw t (run_group-Returns es content)
]

with_parser-Returns :
    (r : Registry) (name : Text) (use_parser : Parser → Outcome Events)
    → IsValid r
    → Returns (with_parser r (get_parser name r) use_parser)
with_parser-Returns r name use_parser v = elim (Option-cases (get_parser name r)) [
  | inl n ↦ rw n (ok [], refl)
  | inr (i, e) ↦
      let (p, d, _) = get_parser-Finds name i r v e in
      (
        use_parser p,
        ap (λ o. with_parser r o use_parser) e ∙ ap (λ o. deref_or_fault o use_parser) d,
      )
]

-- A list's events, or those of a single name.
abbrev by_list : Text → Call Events → Call Events → Call Events
by_list name each single =
    if is_no_format name
    then some (ok [])
    else if not (is_empty (split_format_list name))
    then each
    else single

by_list_entry :
    (t : Text) (a b c : Call Events) → split_format_list t ≡ [] → by_list t a c ≡ by_list t b c
by_list_entry t a b c h = rw h refl

has_list_nonempty :
    (name : Text) → is_empty (split_format_list name) ≡ false → is_empty name ≡ false
unfolding split_format_list
has_list_nonempty [] h = absurd (ground (arith, h))
has_list_nonempty (c ∷ name) h = refl

no_list_word :
    (word : Text)
    → NoComma word
    → (name : Text) → is_empty (split_format_list name) ≡ false
    → is_word word name ≡ false
no_list_word word n name h = word_has_list word name (split_format_list_entry word n) h

has_list-is_no_format :
    (name : Text) → is_empty (split_format_list name) ≡ false → is_no_format name ≡ false
has_list-is_no_format name h =
    rw
      (
        has_list_nonempty name h,
        no_list_word (codes "unknown") (ground arith) name h,
        no_list_word (codes "auto") (ground arith) name h,
      )
      refl

by_list_list :
    (name : Text) (each single : Call Events)
    → is_empty (split_format_list name) ≡ false
    → by_list name each single ≡ each
by_list_list name each single h = rw (has_list-is_no_format name h, h) refl

-- A call that takes a list apart by calling itself for the entries.
module _ (call : ℕ → Text → Call Events) (single : Text → Call Events)
    (step : (f : ℕ) (name : Text)
      → call (suc f) name
        ≡ by_list name (first_events (call f) (split_format_list name)) (single name)) where
  call_entry : (f : ℕ) (t : Text) → NoComma t → call (suc f) t ≡ call 1 t
  call_entry f t h =
      step f t ∙ by_list_entry t _ _ (single t) (split_format_list_entry t h) ∙ sym (step 0 t)

  first_events_entries :
      (f g : ℕ) (ts : List Text)
      → All NoComma ts
      → first_events (call (suc f)) ts ≡ first_events (call (suc g)) ts
  unfolding first_events
  first_events_entries f g [] h = refl
  first_events_entries f g (t ∷ ts) h =
      ap₂ or_next (call_entry f t h.0 ∙ sym (call_entry g t h.0)) (first_events_entries f g ts h.1)

  call_settled : (f : ℕ) (name : Text) → call (suc (suc f)) name ≡ call 2 name
  call_settled f name =
      step (suc f) name
      ∙ ap (λ e. by_list name e (single name))
          (first_events_entries f 0 (split_format_list name) (split_format_list-NoComma name))
      ∙ sym (step 1 name)

  call_list :
      (name : Text)
      → is_empty (split_format_list name) ≡ false
      → call 2 name ≡ first_events (call 2) (split_format_list name)
  call_list name h =
      step 1 name
      ∙ by_list_list name _ (single name) h
      ∙ first_events_entries 0 1 (split_format_list name) (split_format_list-NoComma name)

  by_list-Returns :
      (name : Text) (each : Call Events)
      → Returns each
      → Returns (single name)
      → Returns (by_list name each (single name))
  by_list-Returns name each h k = elim (Bool-cases (is_no_format name)) [
    | inl n ↦ rw n (ok [], refl)
    | inr n ↦ elim (Bool-cases (is_empty (split_format_list name))) [
      | inl e ↦ rw (n, e) k
      | inr e ↦ rw (n, e) h
    ]
  ]

  entry-Returns : ((t : Text) → Returns (single t)) → (t : Text) → NoComma t → Returns (call 1 t)
  entry-Returns s t h =
      subst Returns
        (sym (step 0 t ∙ by_list_entry t _ (some (ok [])) (single t) (split_format_list_entry t h)))
        (by_list-Returns t (some (ok [])) (ok [], refl) (s t))

  call-Returns : ((t : Text) → Returns (single t)) → (name : Text) → Returns (call 2 name)
  call-Returns s name = subst Returns (sym (step 1 name)) (
      by_list-Returns name _
        (first_events-Returns (call 1) (split_format_list name)
          (All-map (split_format_list name) (entry-Returns s) (split_format_list-NoComma name)))
        (s name))

parse_content_single-Returns :
    (w : World) (r : Registry) (content name : Text)
    → IsValid r
    → Returns (parse_content_single w r content name)
unfolding parse_content_single
parse_content_single-Returns w r content name v = elim (Bool-cases (is_config_file_path name)) [
  | inl c ↦ rw c (parse_with_config w name content, refl)
  | inr c ↦ elim (Bool-cases (is_group name r)) [
    | inl g ↦ rw (c, g) (run_group-Returns (get_parsers_by_group name r) content)
    | inr g ↦ rw (c, g) (with_parser-Returns r name (λ p. run_parser p content) v)
  ]
]

parse_file_single-Returns :
    (w : World) (r : Registry) (path name : Text)
    → IsValid r
    → Returns (parse_file_single w r path name)
unfolding parse_file_single
parse_file_single-Returns w r path name v = elim (Bool-cases (is_config_file_path name)) [
  | inl c ↦ rw c (parse_file_with_config w name path, refl)
  | inr c ↦ rw c (with_parser-Returns r name (λ p. run_parser_on_file w path p) v)
]

parse_content_step :
    (w : World) (r : Registry) (content : Text) (f : ℕ) (name : Text)
    → parse_content w (suc f) r content name
      ≡ by_list name
          (first_events (parse_content w f r content) (split_format_list name))
          (parse_content_single w r content name)
unfolding parse_content
parse_content_step w r content f name = refl

parse_file_step :
    (w : World) (r : Registry) (path : Text) (f : ℕ) (name : Text)
    → parse_file w (suc f) r path name
      ≡ by_list name
          (first_events (parse_file w f r path) (split_format_list name))
          (parse_file_single w r path name)
unfolding parse_file
parse_file_step w r path f name = refl

-- In a valid registry both `ParseContent` and `ParseFile` come to an outcome for every name, with
-- fuel 2 or more.
pub parse_content-Returns :
    (w : World) (r : Registry) (content name : Text) (f : ℕ)
    → IsValid r
    → Returns (parse_content w (suc (suc f)) r content name)
      × Returns (parse_file w (suc (suc f)) r content name)
parse_content-Returns w r content name f v = (
  subst Returns
      (sym (
        call_settled (λ g. parse_content w g r content) (parse_content_single w r content)
          (parse_content_step w r content) f name))
      (call-Returns (λ g. parse_content w g r content) (parse_content_single w r content)
        (parse_content_step w r content) (λ t. parse_content_single-Returns w r content t v) name),
  subst Returns
      (sym (
        call_settled (λ g. parse_file w g r content) (parse_file_single w r content)
          (parse_file_step w r content) f name))
      (call-Returns (λ g. parse_file w g r content) (parse_file_single w r content)
        (parse_file_step w r content) (λ t. parse_file_single-Returns w r content t v) name),
)

-- A list is taken apart once.
pub parse_content_entries :
    (w : World) (r : Registry) (content name : Text)
    → is_empty (split_format_list name) ≡ false
    → (parse_content w 2 r content name
        ≡ first_events (parse_content w 2 r content) (split_format_list name))
      × (parse_file w 2 r content name
          ≡ first_events (parse_file w 2 r content) (split_format_list name))
parse_content_entries w r content name h = (
  call_list (λ g. parse_content w g r content) (parse_content_single w r content)
      (parse_content_step w r content) name h,
  call_list (λ g. parse_file w g r content) (parse_file_single w r content)
      (parse_file_step w r content) name h,
)
