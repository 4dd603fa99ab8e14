-- ===== src/Event/Threshold.antt =====
-- The severity filter: which events pass a threshold.
use duck_hunt.Prelude.{◌≡◌, true, ◌≤◌, leb, Text, arith}
use duck_hunt.Event.{
  SeverityLevel, severity_level_to_int, severity_level_to_string, should_emit_event,
}
use duck_hunt.Event.Names.{string_to_severity_level-to_string}

-- A lower threshold lets through whatever a higher one does.
pub should_emit_event_antitone :
    (sev : Text) (low high : SeverityLevel)
    → severity_level_to_int low ≤ severity_level_to_int high
    → should_emit_event sev high ≡ true
    → should_emit_event sev low ≡ true
unfolding should_emit_event
should_emit_event_antitone sev low high h e = ground arith

-- An event whose severity is a level's own name passes exactly the thresholds up to that level.
pub should_emit_event-to_string :
    (l t : SeverityLevel)
    → should_emit_event (severity_level_to_string l) t
      ≡ leb (severity_level_to_int t) (severity_level_to_int l)
unfolding should_emit_event
should_emit_event-to_string l t = rw ((string_to_severity_level-to_string l).1)
