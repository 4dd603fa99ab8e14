-- ===== src/Diagnosis/Names.antt =====
-- Which formats of the registry a diagnosis has an entry for.
use duck_hunt.Prelude.{
  ℕ, ◌≡◌, refl, sym, ap, ap₂, ◌∙◌, Option-cases, Bool, Bool-cases, inl, inr, true, false, not, ◌&&◌,
  Option, none, some, List, [], ◌∷◌, map, Text, text_eq, arith, if◌then◌else◌,
}
use duck_hunt.Event.{ValidationEvent}
use duck_hunt.Parser.{Parser, Outcome, ok, io_exception, exception}
use duck_hunt.Registry.{Registry, get_parser, deref}
use duck_hunt.Registry.Listing.{ParserInfo}
use duck_hunt.Registry.Valid.{IsValid}
use duck_hunt.Registry.Remove.{get_parser-Finds}
use duck_hunt.Diagnosis.{
  EmitFilter, all, valid, invalid, DiagnosisEntry, includes, with_events, diagnose, add_entry,
  add_diagnosed, add_found, diagnose_all,
}

abbrev returns : Outcome (List ValidationEvent) → Bool
returns (ok es) = true
returns (io_exception t) = false
returns (exception t) = false

-- The parser accepts the content and parses it without an exception.
abbrev pub answers : Text → Parser → Bool
answers content p = p.can_parse content && returns (p.parse content)

-- Which parsers the filter asks for, by whether they answer.
abbrev pub asks : EmitFilter → Bool → Bool
asks all b = true
asks valid b = b
asks invalid b = not b

abbrev pub entry_name : DiagnosisEntry → Text
entry_name e = e.format_name

diagnose_outcome :
    (e : DiagnosisEntry) (o : Outcome (List ValidationEvent))
    → e.can_parse ≡ false
    → ((with_events e o).can_parse ≡ returns o)
      × ((with_events e o).format_name ≡ e.format_name)
      × ((with_events e o).is_selected ≡ e.is_selected)
diagnose_outcome e (ok es) h = (refl, refl, refl)
diagnose_outcome e (io_exception t) h = (h, refl, refl)
diagnose_outcome e (exception t) h = (h, refl, refl)

pub diagnose_lem :
    (content selected_format : Text) (info : ParserInfo) (p : Parser)
    → ((diagnose content selected_format info p).can_parse ≡ answers content p)
      × ((diagnose content selected_format info p).format_name ≡ info.format_name)
      × ((diagnose content selected_format info p).is_selected
          ≡ text_eq info.format_name selected_format)
unfolding diagnose
diagnose_lem content selected_format info p = elim (Bool-cases (p.can_parse content)) [
  | inl t ↦ rw t (diagnose_outcome _ (p.parse content) refl)
  | inr t ↦ rw t (refl, refl, refl)
]

includes-asks :
    (filter : EmitFilter) (e : DiagnosisEntry) (b : Bool)
    → e.can_parse ≡ b
    → includes filter e ≡ asks filter b
includes-asks all e b h = refl
includes-asks valid e b h = h
includes-asks invalid e b h = ap not h

names_with :
    (b c : Bool) (e : DiagnosisEntry) (n : Text) (es : List DiagnosisEntry) (names : List Text)
    → b ≡ c
    → e.format_name ≡ n
    → map entry_name es ≡ names
    → map entry_name (if b then e ∷ es else es) ≡ (if c then n ∷ names else names)
names_with true true e n es names h k t = ap₂ (◌∷◌) k t
names_with true false e n es names h k t = absurd (ground (arith, h))
names_with false true e n es names h k t = absurd (ground (arith, h))
names_with false false e n es names h k t = t

module _ (filter : EmitFilter) (content : Text) (r : Registry) where
  abbrev is_asked_behind : Option Parser → Bool
  is_asked_behind none = false
  is_asked_behind (some p) = asks filter (answers content p)

  -- A parser stands behind the pointer, and the filter asks for it.
  abbrev pub is_asked : Option ℕ → Bool
  is_asked none = false
  is_asked (some i) = is_asked_behind (deref r.parsers i)

  -- The formats whose names find a parser that the filter asks for.
  abbrev pub asked_names : List ParserInfo → List Text
  asked_names [] = []
  asked_names (info ∷ infos) =
      if is_asked (get_parser info.format_name r)
      then info.format_name ∷ asked_names infos
      else asked_names infos

  -- In a valid registry the loop has an entry for each of these formats, in order.
  pub diagnose_all-asked_names :
      (selected_format : Text) (infos : List ParserInfo)
      → IsValid r
      → (es : List DiagnosisEntry) × (diagnose_all filter content selected_format r infos ≡ some es)
        × (map entry_name es ≡ asked_names infos)
  unfolding diagnose_all
  diagnose_all-asked_names selected_format [] v = ([], refl, refl)
  diagnose_all-asked_names selected_format (info ∷ infos) v =
      let (es, h, names) = diagnose_all-asked_names selected_format infos v in
      let rest = diagnose_all filter content selected_format r infos in
      elim (Option-cases (get_parser info.format_name r)) [
        | inl n ↦ (
          es,
          ap (λ o. add_found filter content selected_format r info o rest) n ∙ h,
          names
              ∙ sym (
                  ap
                    (λ (o : Option ℕ).
                      if is_asked o
                      then info.format_name ∷ asked_names infos
                      else asked_names infos)
                    n),
        )
        | inr (i, e) ↦
            let (p, d, _) = get_parser-Finds info.format_name i r v e in
            let entry = diagnose content selected_format info p in
            let (answer, named, _) = diagnose_lem content selected_format info p in
            (
              if includes filter entry then entry ∷ es else es,
              ap (λ o. add_found filter content selected_format r info o rest) e
                  ∙ ap (λ q. add_diagnosed filter content selected_format info q rest) d
                  ∙ ap (add_entry filter entry) h,
              names_with (includes filter entry) (is_asked (get_parser info.format_name r)) entry
                  info.format_name es (asked_names infos)
                  (includes-asks filter entry (answers content p) answer
                    ∙ sym (ap is_asked e ∙ ap is_asked_behind d))
                  named names,
            )
      ]
