-- ===== src/Dispatch/FirstEntry.antt =====
-- Lists of formats in `ParseContent` and `ParseFile` of src/core/parse_content.cpp: which entry's
-- result a list has.
use duck_hunt.Prelude.{
  ◌≡◌, refl, ap, ◌∙◌, ◌⊎◌, inl, inr, false, none, some, List, [], ◌∷◌, ◌++◌, All, Text, is_empty,
  subst, sym, arith,
}
use duck_hunt.Parser.{ok, io_exception, exception}
use duck_hunt.Registry.{Registry}
use duck_hunt.Formats.{split_format_list}
use duck_hunt.Dispatch.{World, Events, Call, first_events, or_next, parse_content, parse_file}
use duck_hunt.Dispatch.Total.{parse_content_entries}

-- A call that returns no events.
abbrev pub GivesNone : Call Events → Type 0
GivesNone c = c ≡ some (ok [])

-- The entries, the one whose result counts, and those around it.
pub record Decided (call : Text → Call Events) (entries : List Text) (result : Call Events)
    : Type 0 where
  pub before : List Text
  pub entry : Text
  pub after : List Text
  pub splits : entries ≡ before ++ entry ∷ after
  pub skipped : All (λ t. GivesNone (call t)) before
  pub counts : result ≡ call entry
  pub gives : ¬ GivesNone result

-- The result is that of the first entry that gives events, an exception or a fault; where no entry
-- does, there are no events.
abbrev pub FirstOf : (Text → Call Events) → List Text → Call Events → Type 0
FirstOf call entries result =
    Decided call entries result ⊎ (All (λ t. GivesNone (call t)) entries × GivesNone result)

or_next_counts : (a b : Call Events) → ¬ GivesNone a → or_next a b ≡ a
or_next_counts none b n = refl
or_next_counts (some (ok [])) b n = absurd (n refl)
or_next_counts (some (ok (e ∷ es))) b n = refl
or_next_counts (some (io_exception t)) b n = refl
or_next_counts (some (exception t)) b n = refl

gives_none : (c : Call Events) → GivesNone c ⊎ (¬ GivesNone c)
gives_none none = inr (λ h. ground (arith, h))
gives_none (some (ok [])) = inl refl
gives_none (some (ok (e ∷ es))) = inr (λ h. ground (arith, h))
gives_none (some (io_exception t)) = inr (λ h. ground (arith, h))
gives_none (some (exception t)) = inr (λ h. ground (arith, h))

FirstOf-skipped :
    (call : Text → Call Events) (t : Text) (ts : List Text) (result : Call Events)
    → GivesNone (call t)
    → FirstOf call ts result
    → FirstOf call (t ∷ ts) result
FirstOf-skipped call t ts result g (inl d) = inl (record {
  before = t ∷ d.before;
  entry = d.entry;
  after = d.after;
  splits = ap (◌∷◌ t) d.splits;
  skipped = (g, d.skipped);
  counts = d.counts;
  gives = d.gives;
})
FirstOf-skipped call t ts result g (inr h) = inr ((g, h.0), h.1)

first_events-FirstOf :
    (call : Text → Call Events) (ts : List Text) → FirstOf call ts (first_events call ts)
unfolding first_events
first_events-FirstOf call [] = inr (tt, refl)
first_events-FirstOf call (t ∷ ts) = elim (gives_none (call t)) [
  | inl g ↦
      subst (FirstOf call (t ∷ ts)) (sym (ap (λ c. or_next c (first_events call ts)) g))
        (FirstOf-skipped call t ts (first_events call ts) g (first_events-FirstOf call ts))
  | inr n ↦
      let e = or_next_counts (call t) (first_events call ts) n in
      inl (record {
        before = [];
        entry = t;
        after = ts;
        splits = refl;
        skipped = tt;
        counts = e;
        gives = λ g. n (sym e ∙ g);
      })
]

-- For a name that is a list of formats, the result of `ParseContent`, and that of `ParseFile`, is that
-- of the first entry, taken alone, that gives events or throws; the entries before it give no events.
-- Where no entry gives events or throws, there are no events.
pub parse_content_list :
    (w : World) (r : Registry) (content name : Text)
    → is_empty (split_format_list name) ≡ false
    → FirstOf
        (parse_content w 2 r content)
        (split_format_list name)
        (parse_content w 2 r content name)
      × FirstOf (parse_file w 2 r content) (split_format_list name) (parse_file w 2 r content name)
parse_content_list w r content name h =
    let (by_content, by_file) = parse_content_entries w r content name h in
    (
      subst (FirstOf (parse_content w 2 r content) (split_format_list name)) (sym by_content)
          (first_events-FirstOf (parse_content w 2 r content) (split_format_list name)),
      subst (FirstOf (parse_file w 2 r content) (split_format_list name)) (sym by_file)
          (first_events-FirstOf (parse_file w 2 r content) (split_format_list name)),
    )
