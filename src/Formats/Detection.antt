-- ===== src/Formats/Detection.antt =====
-- What `DetectFormat` names.
use duck_hunt.Prelude.{
  ◌≡◌, refl, ◌⊎◌, inl, inr, Option-cases, false, none, some, List, [], ◌∷◌, ◌++◌, Text, All, subst,
  ℕ, ap, ◌∙◌,
}
use duck_hunt.Registry.{Registry, Entry, find_parser, deref, ensure_sorted_locked}
use duck_hunt.Parser.{Parser}
use duck_hunt.Registry.Valid.{IsValid}
use duck_hunt.Registry.Sort.{first_max, first_max-none, first_max-IsFirstMax, IsFirstMax}
use duck_hunt.Registry.Detect.{
  priority, can_parse, find_parser-first_max, ensure_sorted_locked-sorted,
  ensure_sorted_locked-IsValid,
}
use duck_hunt.Formats.{detect_format, named, name_found}

module _ {ℓ κ} {A : Type ℓ} (P : A → Type κ) where
  All-middle : (before after : List A) (x : A) → All P (before ++ x ∷ after) → P x
  All-middle [] after x h = h.0
  All-middle (y ∷ before) after x h = All-middle before after x h.1

detect_format_found :
    (content : Text) (r r' : Registry) (i : ℕ) (p : Parser)
    → find_parser content r ≡ some (some i, r')
    → deref r'.parsers i ≡ some p
    → detect_format content r ≡ some (p.format_name, r')
unfolding detect_format name_found
detect_format_found content r r' i p h d = ap name_found h ∙ ap (named r') d

detect_format-none :
    (content : Text) (r r' : Registry)
    → find_parser content r ≡ some (none, r')
    → detect_format content r ≡ some ([], r')
unfolding detect_format name_found
detect_format-none content r r' h = ap name_found h

-- The name is empty where no parser can parse the content, else the chosen parser's own.
abbrev pub Detected : Text → Registry → Text → Type 0
Detected content r name =
    (All (λ e. can_parse content e ≡ false) r.parsers × (name ≡ []))
    ⊎ ((e : Entry) × (name ≡ e.parser.format_name)
        × IsFirstMax priority (can_parse content) r.parsers e)

behind :
    (content : Text) (r : Registry) (e : Entry)
    → IsValid r
    → IsFirstMax priority (can_parse content) r.parsers e
    → deref (ensure_sorted_locked r).parsers e.id ≡ some e.parser
behind content r e v m = rw ((ensure_sorted_locked-sorted r v).1) (
    All-middle (λ x. deref r.parsers x.id ≡ some x.parser) m.before m.after e
      (subst (All (λ x. deref r.parsers x.id ≡ some x.parser)) m.splits v.own_ids))

-- In a valid registry `DetectFormat` goes through no dangling pointer and leaves a valid registry.
-- It names the first registered of the highest-priority parsers that can parse the content, and
-- gives the empty name where none can.
pub detect_format-Detected :
    (content : Text) (r : Registry)
    → IsValid r
    → (name : Text) × (r' : Registry) × (detect_format content r ≡ some (name, r'))
      × Detected content r name
      × IsValid r'
detect_format-Detected content r v =
    elim (Option-cases (first_max priority (can_parse content) r.parsers)) [
      | inl n ↦ (
        [],
        ensure_sorted_locked r,
        detect_format-none content r (ensure_sorted_locked r)
            (rw n at (find_parser-first_max content r v)),
        inl (first_max-none priority (can_parse content) r.parsers n, refl),
        ensure_sorted_locked-IsValid r v,
      )
      | inr (e, s) ↦
          let m = first_max-IsFirstMax priority (can_parse content) r.parsers e s in
          (
            e.parser.format_name,
            ensure_sorted_locked r,
            detect_format_found content r (ensure_sorted_locked r) e.id e.parser
                (rw s at (find_parser-first_max content r v)) (behind content r e v m),
            inr (e, refl, m),
            ensure_sorted_locked-IsValid r v,
          )
    ]
