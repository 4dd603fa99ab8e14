-- ===== src/StatusBadge.antt =====
-- src/status_badge_function.cpp: the badge for a status or for counts.
use duck_hunt.Prelude.{
  not, ◌&&◌, ◌≡◌, refl, Bool, [], ◌∷◌, Text, codes, text_eq, lower, arith, if◌then◌else◌,
}
use duck_hunt.Prelude.Int.{ℤ, pos, ltb_ℤ, leb_ℤ}
use duck_hunt.Event.{ValidationEventStatus, validation_event_status_to_string}
use duck_hunt.Parser.{has_name}

abbrev pub badge_ok : Text
badge_ok = codes "[ OK ]"

abbrev badge_fail : Text
badge_fail = codes "[FAIL]"

abbrev badge_warn : Text
badge_warn = codes "[WARN]"

abbrev badge_running : Text
badge_running = codes "[ .. ]"

abbrev badge_unknown : Text
badge_unknown = codes "[ ?? ]"

abbrev badge_of_lower : Text → Text
badge_of_lower s =
    if has_name s (codes "ok" ∷ codes "pass" ∷ codes "passed" ∷ codes "success" ∷ [])
    then badge_ok
    else if has_name s (codes "fail" ∷ codes "failed" ∷ codes "error" ∷ [])
    then badge_fail
    else if has_name s (codes "warn" ∷ codes "warning" ∷ [])
    then badge_warn
    else if has_name s (codes "running" ∷ codes "pending" ∷ codes "in_progress" ∷ [])
    then badge_running
    else badge_unknown

unfoldable pub status_badge_from_string : Text → Text
status_badge_from_string status = badge_of_lower (lower status)

unfoldable pub status_badge_from_counts : ℤ → ℤ → Bool → Text
status_badge_from_counts error_count warning_count is_running =
    if is_running
    then badge_running
    else if ltb_ℤ (pos 0) error_count
    then badge_fail
    else if ltb_ℤ (pos 0) warning_count
    then badge_warn
    else badge_ok

unfoldable pub status_badge_from_counts_no_running : ℤ → ℤ → Text
status_badge_from_counts_no_running error_count warning_count =
    if ltb_ℤ (pos 0) error_count
    then badge_fail
    else if ltb_ℤ (pos 0) warning_count
    then badge_warn
    else badge_ok

-- Which badge an event's status has by its name: skipped and informational events have no badge of
-- their own.
abbrev pub badge_of_status : ValidationEventStatus → Text
badge_of_status ValidationEventStatus.pass = badge_ok
badge_of_status ValidationEventStatus.fail = badge_fail
badge_of_status ValidationEventStatus.skip = badge_unknown
badge_of_status ValidationEventStatus.error = badge_fail
badge_of_status ValidationEventStatus.warning = badge_warn
badge_of_status ValidationEventStatus.info = badge_unknown

-- The badge of the name of an event's status is the one for passed, failed, and warning events, and
-- the unknown one for skipped and informational events.
pub status_badge_from_string-to_string :
    (s : ValidationEventStatus)
    → status_badge_from_string (validation_event_status_to_string s) ≡ badge_of_status s
unfolding status_badge_from_string validation_event_status_to_string text_eq
status_badge_from_string-to_string ValidationEventStatus.pass = refl
status_badge_from_string-to_string _ = refl

-- The badge of counts is the one for success exactly where nothing runs and no count is positive,
-- with or without the overload that has no running flag.
pub status_badge_from_counts-ok :
    (e w : ℤ) (running : Bool)
    → (text_eq (status_badge_from_counts e w running) badge_ok
        ≡ (not running && leb_ℤ e (pos 0) && leb_ℤ w (pos 0)))
      × (text_eq (status_badge_from_counts_no_running e w) badge_ok
          ≡ (leb_ℤ e (pos 0) && leb_ℤ w (pos 0)))
unfolding status_badge_from_counts status_badge_from_counts_no_running text_eq
status_badge_from_counts-ok e w running = ground arith
