-- ===== src/Extract/Sections.antt =====
-- A section, once extracted, is extracted again as it is.
use duck_hunt.Prelude.{
  ℕ, ◌≡◌, refl, sym, ◌∙◌, ap, ◌⊎◌, Bool, Bool-cases, Option-cases, inl, inr, true, false, ◌&&◌,
  none, some, [], ◌∷◌, Text, codes, drop, drop_while, starts_with, find_text, arith, subst,
}
use mathlib.Core.Option.{some-injective}
use duck_hunt.Parser.{ContentFamily, text, json, xml}
use duck_hunt.Extract.{
  is_space, is_line_end, opens_json, json_behind, opens_xml, xml_behind, section_or, scan_section,
  scan_json, extract_json_section, extract_xml_section, maybe_extract_content, json_section,
  xml_section,
}

find_text-tail : (p : Text) (c : ℕ) (s : Text) → find_text p (c ∷ s) ≡ none → find_text p s ≡ none
unfolding find_text
find_text-tail p c s h = ground (arith, h)

-- A text that a scan found: it opens as asked.
record Opened (opens : ℕ → Bool) (behind : Text → Bool) (t : Text) : Type 0 where
  first : ℕ
  later : Text
  shape : t ≡ first ∷ later
  opens_it : opens first ≡ true
  follows : behind later ≡ true

module _ (opens : ℕ → Bool) (behind : Text → Bool) where
  scan_section_here :
      (c : ℕ) (s t : Text)
      → (opens c && (true && behind s)) ≡ true
      → c ∷ s ≡ t
      → Opened opens behind t
  scan_section_here c s t h e = record {
    first = c;
    later = s;
    shape = sym e;
    opens_it = ground (arith, h);
    follows = ground (arith, h);
  }

  scan_section-Opened :
      (b : Bool) (s t : Text) → scan_section opens behind b s ≡ some t → Opened opens behind t
  unfolding scan_section
  scan_section-Opened b [] t h = absurd (ground (arith, h))
  scan_section-Opened b (c ∷ s) t h = elim (Bool-cases (opens c && (b && behind s))) [
    | inl e ↦ scan_section_here c s t (ground (arith, e)) (some-injective _ _ (rw e at h))
    | inr e ↦ scan_section-Opened (is_line_end c) s t (rw e at h)
  ]

  scan_section-found :
      (t : Text) → Opened opens behind t → scan_section opens behind true t ≡ some t
  unfolding scan_section
  scan_section-found t o = rw (o.shape, o.opens_it, o.follows) refl

  -- A text that stands nowhere in the whole stands nowhere in the section.
  find_text-scan_section :
      (p : Text) (b : Bool) (s t : Text)
      → find_text p s ≡ none
      → scan_section opens behind b s ≡ some t
      → find_text p t ≡ none
  unfolding scan_section
  find_text-scan_section p b [] t n h = absurd (ground (arith, h))
  find_text-scan_section p b (c ∷ s) t n h = elim (Bool-cases (opens c && (b && behind s))) [
    | inl e ↦ subst (λ u. find_text p u ≡ none) (some-injective _ _ (rw e at h)) n
    | inr e ↦ find_text-scan_section p (is_line_end c) s t (find_text-tail p c s n) (rw e at h)
  ]

find_text-drop : (p s : Text) (i : ℕ) → find_text p s ≡ some i → find_text p (drop i s) ≡ some 0
unfolding find_text
find_text-drop p [] i h = elim (Bool-cases (starts_with p [])) [
  | inl e ↦
      subst (λ j. find_text p (drop j []) ≡ some 0) (some-injective _ _ (rw e at h)) (rw e refl)
  | inr e ↦ absurd (ground (arith, rw e at h))
]
find_text-drop p (c ∷ s) i h = elim (Bool-cases (starts_with p (c ∷ s))) [
  | inl e ↦
      subst (λ j. find_text p (drop j (c ∷ s)) ≡ some 0) (some-injective _ _ (rw e at h))
        (rw e refl)
  | inr e ↦ elim (Option-cases (find_text p s)) [
    | inl n ↦ absurd (ground (arith, rw (e, n) at h))
    | inr found ↦
        subst (λ j. find_text p (drop j (c ∷ s)) ≡ some 0)
          (some-injective _ _ (rw (e, found.1) at h)) (find_text-drop p s found.0 found.1)
  ]
]

section_or-cases :
    (opens : ℕ → Bool) (behind : Text → Bool) (content : Text)
    → (section_or content (scan_section opens behind true content) ≡ content)
      ⊎ Opened opens behind (section_or content (scan_section opens behind true content))
section_or-cases opens behind content =
    elim (Option-cases (scan_section opens behind true content)) [
      | inl n ↦ inl (rw n refl)
      | inr found ↦ inr (rw found.1 (scan_section-Opened opens behind true content found.0 found.1))
    ]

json_section-cases :
    (content d : Text)
    → (json_section content d ≡ content) ⊎ Opened opens_json json_behind (json_section content d)
unfolding json_section scan_json
json_section-cases content [] = inl refl
json_section-cases content (c ∷ d) = elim (Bool-cases (opens_json c)) [
  | inl e ↦ inl (rw e refl)
  | inr e ↦ rw e (section_or-cases opens_json json_behind content)
]

-- An extraction of JSON leaves the text as it is, or gives a text that opens JSON.
extract_json_section-cases :
    (content : Text)
    → (extract_json_section content ≡ content)
      ⊎ Opened opens_json json_behind (extract_json_section content)
unfolding extract_json_section
extract_json_section-cases content = json_section-cases content (drop_while is_space content)

opens_json-is_space : (c : ℕ) → opens_json c ≡ true → is_space c ≡ false
opens_json-is_space c h = ground (arith, h)

drop_while_here : (p : ℕ → Bool) (c : ℕ) (s : Text) → p c ≡ false → drop_while p (c ∷ s) ≡ c ∷ s
unfolding drop_while
drop_while_here p c s h = rw h refl

json_section_here :
    (content : Text) (c : ℕ) (s : Text)
    → opens_json c ≡ true
    → json_section content (c ∷ s) ≡ content
unfolding json_section
json_section_here content c s h = rw h refl

extract_json_section_here :
    (c : ℕ) (s : Text) → opens_json c ≡ true → extract_json_section (c ∷ s) ≡ c ∷ s
unfolding extract_json_section
extract_json_section_here c s h =
    ap (json_section (c ∷ s)) (drop_while_here is_space c s (opens_json-is_space c h))
    ∙ json_section_here (c ∷ s) c s h

extract_json_section-Opened :
    (t : Text) → Opened opens_json json_behind t → extract_json_section t ≡ t
extract_json_section-Opened t o = rw o.shape (extract_json_section_here o.first o.later o.opens_it)

extract_json_section_idempotent :
    (content : Text)
    → extract_json_section (extract_json_section content) ≡ extract_json_section content
extract_json_section_idempotent content = elim (extract_json_section-cases content) [
  | inl e ↦ ap extract_json_section e
  | inr o ↦ extract_json_section-Opened _ o
]

extract_xml_section_declared :
    (s : Text) (i : ℕ) → find_text (codes "<?xml") s ≡ some i → extract_xml_section s ≡ drop i s
unfolding extract_xml_section xml_section
extract_xml_section_declared s i h = ap (xml_section s) h

extract_xml_section_scanned :
    (s : Text)
    → find_text (codes "<?xml") s ≡ none
    → extract_xml_section s ≡ section_or s (scan_section opens_xml xml_behind true s)
unfolding extract_xml_section xml_section
extract_xml_section_scanned s h = ap (xml_section s) h

scanned_again :
    (s : Text)
    → find_text (codes "<?xml") s ≡ none
    → extract_xml_section (section_or s (scan_section opens_xml xml_behind true s))
      ≡ section_or s (scan_section opens_xml xml_behind true s)
scanned_again s n = elim (Option-cases (scan_section opens_xml xml_behind true s)) [
  | inl m ↦ rw m (extract_xml_section_scanned s n ∙ (rw m refl))
  | inr found ↦ rw found.1 (
      extract_xml_section_scanned found.0
        (find_text-scan_section opens_xml xml_behind (codes "<?xml") true s found.0 n found.1)
      ∙ (rw
          (scan_section-found opens_xml xml_behind found.0
            (scan_section-Opened opens_xml xml_behind true s found.0 found.1))
          refl))
]

extract_xml_section_idempotent :
    (content : Text)
    → extract_xml_section (extract_xml_section content) ≡ extract_xml_section content
extract_xml_section_idempotent content = elim (Option-cases (find_text (codes "<?xml") content)) [
  | inl n ↦ rw (extract_xml_section_scanned content n) (scanned_again content n)
  | inr found ↦ rw (extract_xml_section_declared content found.0 found.1) (
      extract_xml_section_declared (drop found.0 content) 0
        (find_text-drop (codes "<?xml") content found.0 found.1))
]

-- For every family, the section of a section is the section itself.
pub maybe_extract_content_idempotent :
    (content : Text) (family : ContentFamily)
    → maybe_extract_content (maybe_extract_content content family) family
      ≡ maybe_extract_content content family
unfolding maybe_extract_content
maybe_extract_content_idempotent content json = extract_json_section_idempotent content
maybe_extract_content_idempotent content xml = extract_xml_section_idempotent content
maybe_extract_content_idempotent content text = refl
