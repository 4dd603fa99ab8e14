-- ===== src/Diagnosis/Listed.antt =====
-- The entries of a diagnosis.
use duck_hunt.Prelude.{
  ℕ, ◌≡◌, Bool, true, false, Option, none, some, List, All, Text, text_eq, length,
}
use duck_hunt.Event.{ValidationEvent}
use duck_hunt.Parser.{Parser, Outcome, ok, io_exception, exception}
use duck_hunt.Registry.{Registry, get_parser, deref}
use duck_hunt.Registry.Listing.{ParserInfo}
use duck_hunt.Diagnosis.{EmitFilter, DiagnosisEntry, includes}

-- What an entry says of a parser, from the parser's own answers: it can parse where `canParse` holds
-- and `parse` returns, and has the events returned; else it cannot, and has none.
abbrev pub Diagnosed : Bool → Outcome (List ValidationEvent) → DiagnosisEntry → Type 0
Diagnosed true (ok es) e = (e.can_parse ≡ true) × (e.events_produced ≡ length es)
Diagnosed true (io_exception t) e = (e.can_parse ≡ false) × (e.events_produced ≡ 0)
Diagnosed true (exception t) e = (e.can_parse ≡ false) × (e.events_produced ≡ 0)
Diagnosed false o e = (e.can_parse ≡ false) × (e.events_produced ≡ 0)

-- The entry of a diagnosis: the filter lets it through, its name finds a parser of the registry, it
-- tells what that parser makes of the content, and whether it is the detected one.
pub record Listed (filter : EmitFilter) (content selected_format : Text) (r : Registry)
    (e : DiagnosisEntry) : Type 0 where
  pub included : includes filter e ≡ true
  pub id : ℕ
  pub parser : Parser
  pub is_found : get_parser e.format_name r ≡ some id
  pub is_behind : deref r.parsers id ≡ some parser
  pub diagnosed : Diagnosed (parser.can_parse content) (parser.parse content) e
  pub selected : e.is_selected ≡ text_eq e.format_name selected_format

abbrev undiagnosed : Text → ParserInfo → DiagnosisEntry
undiagnosed selected_format info = record {
  format_name = info.format_name;
  priority = info.priority;
  can_parse = false;
  events_produced = 0;
  is_selected = text_eq info.format_name selected_format;
}

module _ (filter : EmitFilter) (content selected_format : Text) (r : Registry) where
  abbrev AllListed : List DiagnosisEntry → Type 0
  AllListed es = All (Listed filter content selected_format r) es

  -- The entries where there are some.
  abbrev EachListed : Option (List DiagnosisEntry) → Type 0
  EachListed none = Unit
  EachListed (some es) = AllListed es
