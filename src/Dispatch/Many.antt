-- ===== src/Dispatch/Many.antt =====
-- `ProcessMultipleFiles` of src/core/file_utils.cpp: the events of several files, in order.
use duck_hunt.Prelude.{
  ◌≡◌, refl, sym, ap, ◌∙◌, Bool, Bool-cases, inl, inr, true, Option, none, some, List, [], ◌∷◌,
  ◌++◌, map, append-nil, append_assoc, All, All-map, All-append, Text, text_eq_refl, is_empty,
  arith, if◌then◌else◌, subst,
}
use duck_hunt.Event.{ValidationEvent}
use duck_hunt.Parser.{Outcome, ok, io_exception, exception, has_name}
use duck_hunt.Registry.{Registry}
use duck_hunt.Registry.Valid.{IsValid}
use duck_hunt.Formats.{detect_format}
use duck_hunt.Formats.Detection.{detect_format-Detected}
use duck_hunt.Files.{read_content, peek_content, sniff_buffer_size}
use duck_hunt.TestFormat.{TestResultFormat}
use duck_hunt.Dispatch.{World, Events, Call, is_auto, is_regexp, parse_content}
use duck_hunt.Dispatch.Total.{parse_content-Returns}

abbrev pub in_file : Text → ValidationEvent → ValidationEvent
in_file path e = record e { log_file = path }

abbrev pub all_in_file : Text → Call Events → Call Events
all_in_file path (some (ok es)) = some (ok (map (in_file path) es))
all_in_file path c = c

-- The events of content that was read; a user's pattern is not looked for in several files.
unfoldable pub parse_read :
    World → Registry → TestResultFormat → Text → Text → Outcome Text → Call Events
parse_read w r format name path (io_exception e) = some (io_exception e)
parse_read w r format name path (exception e) = some (exception e)
parse_read w r format name path (ok content) =
    if is_regexp format then some (ok []) else all_in_file path (parse_content w 2 r content name)

abbrev pub with_registry : Registry → Call Events → Option (Outcome Events × Registry)
with_registry r none = none
with_registry r (some o) = some (o, r)

abbrev pub read_and_parse :
    World → TestResultFormat → Text → Text → Registry → Option (Outcome Events × Registry)
read_and_parse w format name path r =
    with_registry r (parse_read w r format name path (read_content w.files path))

abbrev pub if_detected :
    World → TestResultFormat → Text → Option (Text × Registry) → Option (Outcome Events × Registry)
if_detected w format path none = none
if_detected w format path (some (name, r)) =
    if is_empty name then some (ok [], r) else read_and_parse w format name path r

abbrev pub sniff :
    World → TestResultFormat → Text → Registry → Outcome Text → Option (Outcome Events × Registry)
sniff w format path r (ok peeked) = if_detected w format path (detect_format peeked r)
sniff w format path r (io_exception e) = some (io_exception e, r)
sniff w format path r (exception e) = some (exception e, r)

-- One round of the loop, up to the handlers of its exceptions.
unfoldable pub process_file :
    World → TestResultFormat → Text → Registry → Text → Option (Outcome Events × Registry)
process_file w format name r path =
    if is_auto format
    then sniff w format path r (peek_content w.files path sniff_buffer_size)
    else read_and_parse w format name path r

-- The handlers: an `IOException` always skips the file, another exception where errors are ignored.
abbrev pub handle_errors : Bool → Outcome Events → Outcome Events
handle_errors ignore_errors (ok es) = ok es
handle_errors ignore_errors (io_exception e) = ok []
handle_errors ignore_errors (exception e) = if ignore_errors then ok [] else exception e

-- What a round leaves to the later ones.
abbrev pub after_file :
    (Events → Registry → Option (Outcome Events × Registry))
    → Events
    → Outcome Events
    → Registry
    → Option (Outcome Events × Registry)
after_file later events (ok es) r = later (events ++ es) r
after_file later events (io_exception e) r = some (io_exception e, r)
after_file later events (exception e) r = some (exception e, r)

abbrev pub handled :
    Bool
    → (Events → Registry → Option (Outcome Events × Registry))
    → Events
    → Option (Outcome Events × Registry)
    → Option (Outcome Events × Registry)
handled ignore_errors later events none = none
handled ignore_errors later events (some (o, r)) =
    after_file later events (handle_errors ignore_errors o) r

unfoldable pub process_multiple_files :
    World
    → TestResultFormat
    → Text
    → Bool
    → List Text
    → Events
    → Registry
    → Option (Outcome Events × Registry)
process_multiple_files w format name ignore_errors [] events r = some (ok events, r)
process_multiple_files w format name ignore_errors (path ∷ paths) events r =
    handled ignore_errors (process_multiple_files w format name ignore_errors paths) events
      (process_file w format name r path)

abbrev events_of : Outcome Events → Events
events_of (ok es) = es
events_of (io_exception e) = []
events_of (exception e) = []

abbrev Marked : Text → Events → Type 0
Marked path es = All (λ (e : ValidationEvent). e.log_file ≡ path) es

-- A call's outcome: events of the file, or an exception.
record Parsed (path : Text) (c : Call Events) : Type 0 where
  outcome : Outcome Events
  comes : c ≡ some outcome
  marked : Marked path (events_of outcome)

-- The same with a valid registry behind it.
record Round (path : Text) (result : Option (Outcome Events × Registry)) : Type 0 where
  outcome : Outcome Events
  registry : Registry
  comes : result ≡ some (outcome, registry)
  valid : IsValid registry
  marked : Marked path (events_of outcome)

map_in_file-Marked : (path : Text) (es : Events) → Marked path (map (in_file path) es)
map_in_file-Marked path [] = tt
map_in_file-Marked path (e ∷ es) = (refl, map_in_file-Marked path es)

all_in_file-Parsed : (path : Text) (o : Outcome Events) → Parsed path (all_in_file path (some o))
all_in_file-Parsed path (ok es) = record {
  outcome = ok (map (in_file path) es);
  comes = refl;
  marked = map_in_file-Marked path es;
}
all_in_file-Parsed path (io_exception e) = record {
  outcome = io_exception e;
  comes = refl;
  marked = tt;
}
all_in_file-Parsed path (exception e) = record { outcome = exception e; comes = refl; marked = tt }

parse_read-Parsed :
    (w : World) (r : Registry) (format : TestResultFormat) (name path : Text) (o : Outcome Text)
    → IsValid r
    → Parsed path (parse_read w r format name path o)
unfolding parse_read
parse_read-Parsed w r format name path (io_exception e) v = record {
  outcome = io_exception e;
  comes = refl;
  marked = tt;
}
parse_read-Parsed w r format name path (exception e) v = record {
  outcome = exception e;
  comes = refl;
  marked = tt;
}
parse_read-Parsed w r format name path (ok content) v = elim (Bool-cases (is_regexp format)) [
  | inl x ↦ rw x (record { outcome = ok []; comes = refl; marked = tt })
  | inr x ↦
      let (o, e) = (parse_content-Returns w r content name 0 v).0 in
      rw (x, e) (all_in_file-Parsed path o)
]

with_registry-Round :
    (path : Text) (r : Registry) (c : Call Events)
    → IsValid r
    → Parsed path c
    → Round path (with_registry r c)
with_registry-Round path r c v p = record {
  outcome = p.outcome;
  registry = r;
  comes = ap (with_registry r) p.comes;
  valid = v;
  marked = p.marked;
}

read_and_parse-Round :
    (w : World) (format : TestResultFormat) (name path : Text) (r : Registry)
    → IsValid r
    → Round path (read_and_parse w format name path r)
read_and_parse-Round w format name path r v =
    with_registry-Round path r _ v
      (parse_read-Parsed w r format name path (read_content w.files path) v)

detected-Round :
    (w : World) (format : TestResultFormat) (name path : Text) (r : Registry)
    → IsValid r
    → Round path (if_detected w format path (some (name, r)))
detected-Round w format name path r v = elim (Bool-cases (is_empty name)) [
  | inl e ↦ rw e (record { outcome = ok []; registry = r; comes = refl; valid = v; marked = tt })
  | inr e ↦ rw e (read_and_parse-Round w format name path r v)
]

sniff-Round :
    (w : World) (format : TestResultFormat) (path : Text) (r : Registry) (o : Outcome Text)
    → IsValid r
    → Round path (sniff w format path r o)
sniff-Round w format path r (io_exception e) v = record {
  outcome = io_exception e;
  registry = r;
  comes = refl;
  valid = v;
  marked = tt;
}
sniff-Round w format path r (exception e) v = record {
  outcome = exception e;
  registry = r;
  comes = refl;
  valid = v;
  marked = tt;
}
sniff-Round w format path r (ok peeked) v =
    let (name, r', e, _, v') = detect_format-Detected peeked r v in
    subst (λ d. Round path (if_detected w format path d)) (sym e)
      (detected-Round w format name path r' v')

process_file-Round :
    (w : World) (format : TestResultFormat) (name : Text) (r : Registry) (path : Text)
    → IsValid r
    → Round path (process_file w format name r path)
unfolding process_file
process_file-Round w format name r path v = elim (Bool-cases (is_auto format)) [
  | inl a ↦ rw a (sniff-Round w format path r (peek_content w.files path sniff_buffer_size) v)
  | inr a ↦ rw a (read_and_parse-Round w format name path r v)
]

abbrev pub From : List Text → Events → Type 0
From paths es = All (λ (e : ValidationEvent). has_name e.log_file paths ≡ true) es

From-first :
    (path : Text) (paths : List Text) (es : Events) → Marked path es → From (path ∷ paths) es
From-first path paths es m =
    All-map es (λ (e : ValidationEvent) h. rw h (rw (text_eq_refl path) refl)) m

From-later :
    (path : Text) (paths : List Text) (es : Events) → From paths es → From (path ∷ paths) es
From-later path paths es m = All-map es (λ (e : ValidationEvent) h. ground (arith, h)) m

-- The handlers' outcome where errors are ignored.
ignored : (o : Outcome Events) → handle_errors true o ≡ ok (events_of o)
ignored (ok es) = refl
ignored (io_exception e) = refl
ignored (exception e) = refl

-- Where errors are ignored, `ProcessMultipleFiles` in a valid registry raises nothing and keeps the
-- registry valid. It appends to the events that it is given, and each event that it adds names one of
-- the files as its log file.
pub process_multiple_files-From :
    (w : World) (format : TestResultFormat) (name : Text) (paths : List Text) (events : Events)
    (r : Registry)
    → IsValid r
    → (es : Events) × (r' : Registry) × (process_multiple_files w format name true paths events r
        ≡ some (ok (events ++ es), r'))
      × From paths es
      × IsValid r'
unfolding process_multiple_files
process_multiple_files-From w format name [] events r v =
    ([], r, ap (λ es. some (ok es, r)) (sym (append-nil events)), tt, v)
process_multiple_files-From w format name (path ∷ paths) events r v =
    let round = process_file-Round w format name r path v in
    let found = events_of round.outcome in
    let (es, r', e, f, v') =
      process_multiple_files-From w format name paths (events ++ found) round.registry
        round.valid in
    let later = process_multiple_files w format name true paths in
    (
      found ++ es,
      r',
      ap (handled true later events) round.comes
          ∙ ap (λ o. after_file later events o round.registry) (ignored round.outcome)
          ∙ e
          ∙ ap (λ t. some (ok t, r')) (append_assoc events found es),
      All-append _ found es (From-first path paths found round.marked) (From-later path paths es f),
      v',
    )
