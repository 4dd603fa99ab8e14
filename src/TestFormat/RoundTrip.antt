-- ===== src/TestFormat/RoundTrip.antt =====
-- The canonical names are read back.
use duck_hunt.Prelude.{◌≡◌, refl, Bool, true, false, if◌then◌else◌, lookup, text_eq, starts_with}
use duck_hunt.TestFormat.{TestResultFormat, unknown, auto, regexp}
use duck_hunt.TestFormat.Table.{string_to_test_result_format}
use duck_hunt.TestFormat.Canonical.{get_canonical_format_name}

-- The formats that no parser of the registry stands for by name.
abbrev pub is_dynamic : TestResultFormat → Bool
is_dynamic unknown = true
is_dynamic auto = true
is_dynamic regexp = true
is_dynamic _ = false

-- The canonical name of a format is read back as that format; the formats without one, which are
-- `unknown`, `auto` and `regexp`, are read back as `unknown`.
pub string_to_test_result_format-get_canonical_format_name :
    (f : TestResultFormat)
    → string_to_test_result_format (get_canonical_format_name f)
      ≡ (if is_dynamic f then unknown else f)
unfolding string_to_test_result_format get_canonical_format_name lookup text_eq starts_with
string_to_test_result_format-get_canonical_format_name unknown = refl
string_to_test_result_format-get_canonical_format_name _ = refl
