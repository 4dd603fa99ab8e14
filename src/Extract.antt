-- ===== src/Extract.antt =====
-- src/core/content_extraction_helpers.cpp: the JSON or XML section of a log.
pub mod Sections
pub mod First
use duck_hunt.Prelude.{
  ℕ, ◌==◌, ◌≡◌, refl, sym, ◌∙◌, ap, leb, Bool, Bool-cases, inl, inr, true, false, ◌&&◌, ◌||◌,
  Option, none, some, List, [], ◌∷◌, Text, codes, is_digit, is_alpha, drop, drop_while, starts_with,
  find_text, if◌then◌else◌, arith,
}
use duck_hunt.Lines.{lf, cr}
use duck_hunt.Parser.{ContentFamily, text, json, xml}

abbrev pub is_line_end : ℕ → Bool
is_line_end c = c == lf || c == cr

abbrev pub is_space : ℕ → Bool
is_space c = c == b' ' || c == b'\t' || is_line_end c

abbrev pub opens_json : ℕ → Bool
opens_json c = c == b'[' || c == b'{'

-- Can this byte follow the opening bracket?
abbrev follows_bracket : ℕ → Bool
follows_bracket c = c == b'"' || opens_json c || c == b']' || c == b'}' || is_space c || is_digit c

abbrev pub json_behind : Text → Bool
json_behind [] = true
json_behind (c ∷ s) = follows_bracket c

-- The scan for a section, from a position on: is it the start of a line, which bytes open a
-- section, and which text may follow; `none` where no position serves.
unfoldable pub scan_section : (ℕ → Bool) → (Text → Bool) → Bool → Text → Option Text
scan_section opens behind at_start [] = none
scan_section opens behind at_start (c ∷ s) =
    let later = scan_section opens behind (is_line_end c) s in
    if opens c && (at_start && behind s) then some (c ∷ s) else later

abbrev pub section_or : Text → Option Text → Text
section_or content none = content
section_or content (some s) = s

unfoldable pub scan_json : Text → Text
scan_json content = section_or content (scan_section opens_json json_behind true content)

-- The section, from the text behind its leading spaces: JSON at its start leaves it whole.
unfoldable pub json_section : Text → Text → Text
json_section content [] = content
json_section content (c ∷ _) = if opens_json c then content else scan_json content

unfoldable pub extract_json_section : Text → Text
extract_json_section content = json_section content (drop_while is_space content)

abbrev pub opens_xml : ℕ → Bool
opens_xml c = c == b'<'

abbrev pub xml_behind : Text → Bool
xml_behind [] = false
xml_behind (c ∷ s) = is_alpha c

-- The section, from the position of an XML declaration.
unfoldable pub xml_section : Text → Option ℕ → Text
xml_section content (some i) = drop i content
xml_section content none = section_or content (scan_section opens_xml xml_behind true content)

unfoldable pub extract_xml_section : Text → Text
extract_xml_section content = xml_section content (find_text (codes "<?xml") content)

pub maybe_extract_content : Text → ContentFamily → Text
unfolding extract_json_section extract_xml_section
maybe_extract_content content json = extract_json_section content
maybe_extract_content content xml = extract_xml_section content
maybe_extract_content content text = content
