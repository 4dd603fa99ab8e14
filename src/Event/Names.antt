-- ===== src/Event/Names.antt =====
-- The enumerations and their names: what survives a trip through text.
use duck_hunt.Prelude.{◌≡◌, refl, ◌⊎◌, text_eq, text_eq_iff, Text, codes, arith}
use duck_hunt.Event.{
  ValidationEventStatus, ValidationEventType, SeverityLevel, validation_event_status_to_string,
  validation_event_type_to_string, string_to_validation_event_status,
  string_to_validation_event_type, string_to_severity_level, severity_level_to_string,
  severity_string_to_level,
}

-- Each status is read back from its name.
pub string_to_validation_event_status-to_string :
    (s : ValidationEventStatus)
    → string_to_validation_event_status (validation_event_status_to_string s) ≡ s
unfolding string_to_validation_event_status validation_event_status_to_string text_eq
string_to_validation_event_status-to_string ValidationEventStatus.pass = refl
string_to_validation_event_status-to_string _ = refl

-- Each event type is read back from its name.
pub string_to_validation_event_type-to_string :
    (t : ValidationEventType)
    → string_to_validation_event_type (validation_event_type_to_string t) ≡ t
unfolding string_to_validation_event_type validation_event_type_to_string text_eq
string_to_validation_event_type-to_string ValidationEventType.test_result = refl
string_to_validation_event_type-to_string _ = refl

-- Both readers of a severity read each level back from its name.
pub string_to_severity_level-to_string :
    (l : SeverityLevel)
    → (string_to_severity_level (severity_level_to_string l) ≡ l)
      × (severity_string_to_level (severity_level_to_string l) ≡ l)
unfolding string_to_severity_level severity_string_to_level severity_level_to_string text_eq
string_to_severity_level-to_string SeverityLevel.debug = (refl, refl)
string_to_severity_level-to_string _ = (refl, refl)

-- The two readers of a severity agree on every text but "all", "trace" and "fatal".
pub severity_string_to_level-eq :
    (s : Text)
    → (severity_string_to_level s ≡ string_to_severity_level s)
      ⊎ ((s ≡ codes "all") ⊎ ((s ≡ codes "trace") ⊎ (s ≡ codes "fatal")))
unfolding string_to_severity_level severity_string_to_level
severity_string_to_level-eq s = ground (
  arith,
  text_eq_iff s (codes "all"),
  text_eq_iff s (codes "trace"),
  text_eq_iff s (codes "warn"),
  text_eq_iff s (codes "fatal"),
  text_eq_iff s (codes "debug"),
  text_eq_iff s (codes "info"),
  text_eq_iff s (codes "warning"),
  text_eq_iff s (codes "error"),
  text_eq_iff s (codes "critical"),
)
