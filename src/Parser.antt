-- ===== src/Parser.antt =====
-- src/parsers/base/parser_interface.hpp and src/parsers/base/base_parser.hpp: the interface that
-- each log parser implements, as a record of what its methods return.
use duck_hunt.Prelude.{
  Bool, false, List, [], ◌∷◌, Text, codes, text_eq, any_of, reverse, starts_with, if◌then◌else◌, ℕ,
}
use duck_hunt.Prelude.Int.{ℤ}
use duck_hunt.Event.{ValidationEvent, ValidationEventType, ValidationEventStatus, new_event}

-- What a call that may throw returns: an `IOException` or another exception, with its text.
pub data Outcome {ℓ} (A : Type ℓ) : Type ℓ where
  ok : A → Outcome A
  io_exception : Text → Outcome A
  exception : Text → Outcome A

module _ {ℓ κ} {A : Type ℓ} {B : Type κ} where
  infixl 5 ◌>>=◌
  abbrev pub ◌>>=◌ : Outcome A → (A → Outcome B) → Outcome B
  ok a >>= f = f a
  io_exception e >>= f = io_exception e
  exception e >>= f = exception e

pub data ContentFamily : Type 0 where
  text json xml : ContentFamily

pub record CommandPattern : Type 0 where
  pub pattern : Text
  pub pattern_type : Text

abbrev pub literal : Text → CommandPattern
literal p = record { pattern = p; pattern_type = codes "literal" }

abbrev pub like : Text → CommandPattern
like p = record { pattern = p; pattern_type = codes "like" }

abbrev pub regexp : Text → CommandPattern
regexp p = record { pattern = p; pattern_type = codes "regexp" }

-- `IParser`. The client context is the fixed world that the methods run in.
pub record Parser : Type 0 where
  pub format_name : Text
  pub name : Text
  pub priority : ℤ
  pub category : Text
  pub description : Text
  pub aliases : List Text
  pub required_extension : Text
  pub command_patterns : List CommandPattern
  pub groups : List Text
  pub content_family : ContentFamily
  pub requires_context : Bool
  pub supports_file_parsing : Bool
  pub can_parse : Text → Bool
  pub parse : Text → Outcome (List ValidationEvent)
  pub parse_with_context : Text → Outcome (List ValidationEvent)
  pub parse_file : Text → Outcome (List ValidationEvent)
  pub supports_streaming : Bool
  pub parse_line : Text → ℕ → ℤ → Outcome (List ValidationEvent × ℤ)

-- `StringUtil::EndsWith`.
abbrev pub ends_with : Text → Text → Bool
ends_with s suffix = starts_with (reverse suffix) (reverse s)

-- The family that the interface infers from a format's name.
unfoldable pub default_content_family : Text → ContentFamily
default_content_family name =
    if ends_with name (codes "_json")
    then json
    else if ends_with name (codes "_xml")
    then xml
    else text

-- `BaseParser`, with the defaults of the interface for what it does not override.
unfoldable pub base_parser :
    Text → Text → Text → Text → ℤ → (Text → Bool) → (Text → Outcome (List ValidationEvent)) → Parser
unfolding default_content_family
base_parser format_name name category description priority can_parse parse = record {
  format_name = format_name;
  name = name;
  priority = priority;
  category = category;
  description = description;
  aliases = [];
  required_extension = [];
  command_patterns = [];
  groups = [];
  content_family = default_content_family format_name;
  requires_context = false;
  supports_file_parsing = false;
  can_parse = can_parse;
  parse = parse;
  parse_with_context = parse;
  parse_file = λ _. ok [];
  supports_streaming = false;
  parse_line = λ _ _ event_id. ok ([], event_id);
}

abbrev pub create_event : ValidationEventType → ValidationEventStatus → Parser → ValidationEvent
create_event t s p = record (new_event t s) { tool_name = p.format_name; category = p.category }

-- Does a list of names hold a name? `std::find` over a vector of strings.
abbrev pub has_name : Text → List Text → Bool
has_name k names = any_of (λ n. text_eq n k) names

-- Is this the parser's own name, or one of its aliases?
abbrev pub answers_to : Parser → Text → Bool
answers_to p k = has_name k (p.format_name ∷ p.aliases)
