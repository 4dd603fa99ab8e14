-- ===== src/Extract/First.antt =====
-- Which part of a log `MaybeExtractContent` of src/core/content_extraction_helpers.cpp gives: the
-- scan's result by positions.
use duck_hunt.Prelude.{
  ℕ, zero, suc, ◌<◌, ◌≡◌, refl, ap, ◌∙◌, sym, subst, ◌⊎◌, Bool, Bool-cases, inl, inr, true, false,
  ◌&&◌, Option, none, some, [], ◌∷◌, Text, codes, take, drop, drop_while, find_text, arith,
  if◌then◌else◌,
}
use duck_hunt.Parser.{ContentFamily, text, json, xml}
use duck_hunt.Extract.{
  is_space, is_line_end, opens_json, json_behind, opens_xml, xml_behind, section_or, scan_section,
  extract_json_section, extract_xml_section, maybe_extract_content, json_section, xml_section,
  scan_json,
}
use duck_hunt.Extract.Sections.{maybe_extract_content_idempotent}

-- Whether the last byte ends a line; `initial` for no bytes.
abbrev pub ends_line : Bool → Text → Bool
ends_line initial [] = initial
ends_line initial (c ∷ s) = ends_line (is_line_end c) s

module _ (opens : ℕ → Bool) (behind : Text → Bool) where
  abbrev pub opens_text : Text → Bool
  opens_text [] = false
  opens_text (c ∷ s) = opens c && behind s

  -- A section may begin at the position: a line begins there, and the text from there on opens one.
  abbrev pub begins : Bool → Text → ℕ → Bool
  begins initial s i = ends_line initial (take i s) && opens_text (drop i s)

  -- No position serves, or the section is the text from the first one that does.
  abbrev pub Scanned : Bool → Text → Option Text → Type 0
  Scanned initial s none = (i : ℕ) → begins initial s i ≡ false
  Scanned initial s (some t) =
      (n : ℕ) × (t ≡ drop n s)
      × (begins initial s n ≡ true)
      × ((i : ℕ) → i < n → begins initial s i ≡ false)

  begins_nil : (initial : Bool) (i : ℕ) → begins initial [] i ≡ false
  begins_nil true zero = refl
  begins_nil false zero = refl
  begins_nil true (suc i) = refl
  begins_nil false (suc i) = refl

  begins_zero :
      (initial : Bool) (c : ℕ) (s : Text)
      → (opens c && (initial && behind s)) ≡ begins initial (c ∷ s) 0
  begins_zero initial c s = ground arith

  -- The positions behind one that does not serve.
  Scanned-later :
      (initial : Bool) (c : ℕ) (s : Text) (found : Option Text)
      → begins initial (c ∷ s) 0 ≡ false
      → Scanned (is_line_end c) s found
      → Scanned initial (c ∷ s) found
  Scanned-later initial c s none h k = none_later
    where
      none_later : (i : ℕ) → begins initial (c ∷ s) i ≡ false
      none_later zero = h
      none_later (suc i) = k i
  Scanned-later initial c s (some t) h (n, e, b, first) = (suc n, e, b, before)
    where
      before : (i : ℕ) → i < suc n → begins initial (c ∷ s) i ≡ false
      before zero l = h
      before (suc i) l = first i (omega (arith, l))

  scan_section-Scanned :
      (initial : Bool) (s : Text) → Scanned initial s (scan_section opens behind initial s)
  unfolding scan_section
  scan_section-Scanned initial [] = begins_nil initial
  scan_section-Scanned initial (c ∷ s) = elim (Bool-cases (opens c && (initial && behind s))) [
    | inl t ↦
        subst (Scanned initial (c ∷ s))
          (sym (
            ap
              (λ (b : Bool).
                if b then some (c ∷ s) else scan_section opens behind (is_line_end c) s)
              t))
          (0, refl, sym (begins_zero initial c s) ∙ t, λ i l. absurd (omega (arith, l)))
    | inr t ↦
        subst (Scanned initial (c ∷ s))
          (sym (
            ap
              (λ (b : Bool).
                if b then some (c ∷ s) else scan_section opens behind (is_line_end c) s)
              t))
          (Scanned-later initial c s _ (sym (begins_zero initial c s) ∙ t)
            (scan_section-Scanned (is_line_end c) s))
  ]

  -- The section of a text: the text from the first position where one may begin, or all of it.
  abbrev pub IsSection : Text → Text → Type 0
  IsSection content section =
      ((n : ℕ) × (section ≡ drop n content)
        × (begins true content n ≡ true)
        × ((i : ℕ) → i < n → begins true content i ≡ false))
      ⊎ ((section ≡ content) × ((i : ℕ) → begins true content i ≡ false))

  section_or-IsSection :
      (content : Text) (found : Option Text)
      → Scanned true content found
      → IsSection content (section_or content found)
  section_or-IsSection content none h = inr (refl, h)
  section_or-IsSection content (some t) h = inl h

-- Nothing but space, or JSON behind it.
abbrev pub is_json_already : Text → Bool
is_json_already [] = true
is_json_already (c ∷ s) = opens_json c

-- What each family takes for the section of a content.
abbrev pub SectionOf : ContentFamily → Text → Text → Type 0
SectionOf text content section = section ≡ content
SectionOf json content section =
    ((is_json_already (drop_while is_space content) ≡ true) × (section ≡ content))
    ⊎ ((is_json_already (drop_while is_space content) ≡ false)
        × IsSection opens_json json_behind content section)
SectionOf xml content section =
    ((i : ℕ) × (find_text (codes "<?xml") content ≡ some i) × (section ≡ drop i content))
    ⊎ ((find_text (codes "<?xml") content ≡ none) × IsSection opens_xml xml_behind content section)

scan_json-IsSection :
    (content : Text) → IsSection opens_json json_behind content (scan_json content)
unfolding scan_json
scan_json-IsSection content =
    section_or-IsSection opens_json json_behind content _
      (scan_section-Scanned opens_json json_behind true content)

json_section-SectionOf :
    (content behind_space : Text)
    → ((is_json_already behind_space ≡ true) × (json_section content behind_space ≡ content))
      ⊎ ((is_json_already behind_space ≡ false)
          × IsSection opens_json json_behind content (json_section content behind_space))
unfolding json_section
json_section-SectionOf content [] = inl (refl, refl)
json_section-SectionOf content (c ∷ s) = elim (Bool-cases (opens_json c)) [
  | inl t ↦ inl (t, ap (λ (b : Bool). if b then content else scan_json content) t)
  | inr t ↦ inr (
    t,
    subst (IsSection opens_json json_behind content)
        (sym (ap (λ (b : Bool). if b then content else scan_json content) t))
        (scan_json-IsSection content),
  )
]

xml_section-SectionOf :
    (content : Text) (found : Option ℕ)
    → ((i : ℕ) × (found ≡ some i) × (xml_section content found ≡ drop i content))
      ⊎ ((found ≡ none) × IsSection opens_xml xml_behind content (xml_section content found))
unfolding xml_section
xml_section-SectionOf content (some i) = inl (i, refl, refl)
xml_section-SectionOf content none = inr (
  refl,
  section_or-IsSection opens_xml xml_behind content _
      (scan_section-Scanned opens_xml xml_behind true content),
)

maybe_extract_content-section :
    (content : Text) (family : ContentFamily)
    → SectionOf family content (maybe_extract_content content family)
unfolding maybe_extract_content extract_json_section extract_xml_section
maybe_extract_content-section content text = refl
maybe_extract_content-section content json =
    json_section-SectionOf content (drop_while is_space content)
maybe_extract_content-section content xml =
    xml_section-SectionOf content (find_text (codes "<?xml") content)

-- `MaybeExtractContent` leaves a content of the text family as it is. For JSON it leaves a content
-- that is blank, or has a bracket first behind its spaces, as it is; any other is cut to begin at the
-- first position where a line begins and a bracket stands that ends the text or that a fitting byte
-- follows, and stays whole where there is no such position. For XML the content is cut to begin at
-- its first declaration; without one, at the first position where a line begins and an angle bracket
-- stands with a letter behind it, and it stays whole where there is none. What was extracted is
-- extracted again as it is.
pub maybe_extract_content-SectionOf :
    (content : Text) (family : ContentFamily)
    → SectionOf family content (maybe_extract_content content family)
      × (maybe_extract_content (maybe_extract_content content family) family
          ≡ maybe_extract_content content family)
maybe_extract_content-SectionOf content family =
    (maybe_extract_content-section content family, maybe_extract_content_idempotent content family)
