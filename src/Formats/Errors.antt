-- ===== src/Formats/Errors.antt =====
-- What `FormatValidationError` blames.
use duck_hunt.Prelude.{
  ◌≡◌, refl, ap, Option-cases, inl, inr, false, not, ◌||◌, none, some, List, [], ◌∷◌, Text, codes,
  is_empty, any_of, find_if, arith,
}
use duck_hunt.Registry.{Registry}
use duck_hunt.Formats.{
  split_format_list, is_valid_format, is_word, is_bad_entry, entry_error, blame,
  format_validation_error,
}
use duck_hunt.Formats.Names.{is_valid_format_list}

find_if-none :
    (r : Registry) (ts : List Text)
    → find_if (is_bad_entry r) ts ≡ none
    → any_of (λ t. is_word (codes "auto") t || not (is_valid_format 2 r t)) ts ≡ false
find_if-none r [] h = refl
find_if-none r (t ∷ ts) h = ground (arith, find_if-none r ts)

-- For a list that is not valid the message blames the first entry that alone is no valid format,
-- or that is `auto` or `unknown`, and there is one.
pub format_validation_error_list :
    (r : Registry) (name : Text)
    → is_empty (split_format_list name) ≡ false
    → is_valid_format 2 r name ≡ false
    → (f : Text) × (find_if (is_bad_entry r) (split_format_list name) ≡ some f)
      × (format_validation_error name r ≡ entry_error f name r)
unfolding format_validation_error blame
format_validation_error_list r name h v =
    elim (Option-cases (find_if (is_bad_entry r) (split_format_list name))) [
      | inl n ↦ absurd (
          ground
            (arith, v, is_valid_format_list r name h, find_if-none r (split_format_list name) n))
      | inr found ↦ (found.0, found.1, ap (blame name r) found.1)
    ]
