-- ===== src/Formats/Names.antt =====
-- `SplitFormatList`, and that `IsValidFormat` calls itself no deeper than for one list.
use duck_hunt.Prelude.{
  ℕ, suc, ◌≡◌, ◌≢◌, refl, sym, ◌∙◌, ◌==◌, Bool-cases, inl, inr, Bool, true, false, not, List, [],
  ◌∷◌, map, Text, All, All-keep_if, is_empty, any_of, drop_while, drop_end, trim, is_blank, arith,
  if◌then◌else◌, ==_iff, codes, ◌||◌, ap, text_eq_iff,
}
use duck_hunt.Lines.{split_lines}
use duck_hunt.Lines.Split.{FreeOf, split_lines-FreeOf}
use duck_hunt.Registry.{Registry, has_format, is_group}
use duck_hunt.Formats.{
  comma, split_format_list, valid_entries, is_valid_format, is_word, is_config_file_path,
}

abbrev pub NoComma : Text → Type 0
NoComma t = FreeOf comma t

module _ {κ} (P : ℕ → Type κ) (p : ℕ → Bool) where
  drop_while-All : (s : Text) → All P s → All P (drop_while p s)
  unfolding drop_while
  drop_while-All [] h = h
  drop_while-All (c ∷ s) h = elim (Bool-cases (p c)) [
    | inl e ↦ rw e (drop_while-All s h.1)
    | inr e ↦ rw e h
  ]

  drop_end_step :
      (c : ℕ) (r : Text)
      → P c
      → All P r
      → All P (elim r [ [] ↦ (if p c then [] else c ∷ []) | x ∷ r' ↦ c ∷ x ∷ r' ])
  drop_end_step c [] h k = elim (Bool-cases (p c)) [ inl e ↦ rw e tt | inr e ↦ rw e (h, tt) ]
  drop_end_step c (x ∷ r) h k = (h, k)

  drop_end-All : (s : Text) → All P s → All P (drop_end p s)
  unfolding drop_end
  drop_end-All [] h = h
  drop_end-All (c ∷ s) h = drop_end_step c (drop_end p s) h.0 (drop_end-All s h.1)

trim-NoComma : (t : Text) → NoComma t → NoComma (trim t)
unfolding trim
trim-NoComma t h =
    drop_end-All (λ c. c ≢ comma) is_blank _ (drop_while-All (λ c. c ≢ comma) is_blank t h)

map-trim-NoComma : (ts : List Text) → All NoComma ts → All NoComma (map trim ts)
map-trim-NoComma [] h = tt
map-trim-NoComma (t ∷ ts) h = (trim-NoComma t h.0, map-trim-NoComma ts h.1)

pub split_format_list-NoComma : (name : Text) → All NoComma (split_format_list name)
unfolding split_format_list
split_format_list-NoComma name = elim (Bool-cases (any_of (λ c. c == comma) name)) [
  | inl e ↦ rw e (
      All-keep_if (λ t. not (is_empty t)) NoComma (map trim (split_lines comma name))
        (map-trim-NoComma _ (split_lines-FreeOf comma name)))
  | inr e ↦ rw e tt
]

NoComma-any_of : (t : Text) → NoComma t → any_of (λ c. c == comma) t ≡ false
NoComma-any_of [] h = refl
NoComma-any_of (c ∷ t) h = ground (arith, NoComma-any_of t h.1, h.0, ==_iff c comma)

pub split_format_list_entry : (t : Text) → NoComma t → split_format_list t ≡ []
unfolding split_format_list
split_format_list_entry t h = rw (NoComma-any_of t h) refl

is_valid_format_entry :
    (f : ℕ) (r : Registry) (t : Text)
    → split_format_list t ≡ []
    → is_valid_format (suc f) r t ≡ is_valid_format 1 r t
unfolding is_valid_format
is_valid_format_entry f r t h = (rw h)

valid_entries_settled :
    (f : ℕ) (r : Registry) (ts : List Text)
    → All NoComma ts
    → valid_entries (is_valid_format (suc f) r) ts ≡ valid_entries (is_valid_format 1 r) ts
valid_entries_settled f r [] h = refl
valid_entries_settled f r (t ∷ ts) h =
    rw
      (
        is_valid_format_entry f r t (split_format_list_entry t h.0),
        valid_entries_settled f r ts h.1,
      )
      refl

abbrev valid_with : Bool → Registry → Text → Bool
valid_with entries r name =
    if is_empty name || is_word (codes "unknown") name
    then false
    else if is_word (codes "auto") name
    then true
    else if not (is_empty (split_format_list name))
    then entries
    else if is_config_file_path name
    then true
    else has_format name r || is_group name r

is_valid_format_step :
    (f : ℕ) (r : Registry) (name : Text)
    → is_valid_format (suc f) r name
      ≡ valid_with (valid_entries (is_valid_format f r) (split_format_list name)) r name
unfolding is_valid_format
is_valid_format_step f r name = refl

-- Whatever the name is, the answer with fuel 2 or more is the answer with fuel 2: an entry of a
-- list of formats is never a list.
pub is_valid_format_settled :
    (f : ℕ) (r : Registry) (name : Text)
    → is_valid_format (suc (suc f)) r name ≡ is_valid_format 2 r name
is_valid_format_settled f r name =
    is_valid_format_step (suc f) r name
    ∙ ap (λ b. valid_with b r name)
        (valid_entries_settled f r (split_format_list name) (split_format_list-NoComma name))
    ∙ sym (is_valid_format_step 1 r name)

pub word_has_list :
    (word name : Text)
    → split_format_list word ≡ []
    → is_empty (split_format_list name) ≡ false
    → is_word word name ≡ false
word_has_list word name e h = elim (Bool-cases (is_word word name)) [
  | inl w ↦
      absurd (
        ground
          (arith, h, e, ap (λ t. is_empty (split_format_list t)) ((text_eq_iff name word).0 w)))
  | inr w ↦ w
]

pub nonempty_name :
    (entries : Bool) (name : Text)
    → is_empty (split_format_list name) ≡ false
    → (if is_empty name || false then false else entries) ≡ entries
unfolding split_format_list
nonempty_name entries [] h = absurd (ground (arith, h))
nonempty_name entries (c ∷ name) h = refl

valid_with_list :
    (entries : Bool) (r : Registry) (name : Text)
    → is_empty (split_format_list name) ≡ false
    → valid_with entries r name ≡ entries
valid_with_list entries r name h =
    rw
      (
        word_has_list (codes "unknown") name (split_format_list_entry _ (ground arith)) h,
        word_has_list (codes "auto") name (split_format_list_entry _ (ground arith)) h,
        h,
      )
      (nonempty_name entries name h)

is_valid_format_unknown :
    (r : Registry) (t : Text) → is_word (codes "unknown") t ≡ true → is_valid_format 1 r t ≡ false
is_valid_format_unknown r [] h = is_valid_format_step 0 r []
is_valid_format_unknown r (c ∷ t) h = is_valid_format_step 0 r (c ∷ t) ∙ (rw h)

valid_entries-any_of :
    (r : Registry) (ts : List Text)
    → All NoComma ts
    → valid_entries (is_valid_format 1 r) ts
      ≡ not (any_of (λ t. is_word (codes "auto") t || not (is_valid_format 2 r t)) ts)
valid_entries-any_of r [] h = refl
valid_entries-any_of r (t ∷ ts) h =
    rw (is_valid_format_entry 1 r t (split_format_list_entry t h.0), valid_entries-any_of r ts h.1)
      (ground (arith, is_valid_format_unknown r t))

-- A list of formats is valid exactly where each of its entries alone is, and none is `auto`.
pub is_valid_format_list :
    (r : Registry) (name : Text)
    → is_empty (split_format_list name) ≡ false
    → is_valid_format 2 r name
      ≡ not (
          any_of
            (λ t. is_word (codes "auto") t || not (is_valid_format 2 r t))
            (split_format_list name))
is_valid_format_list r name h =
    is_valid_format_step 1 r name
    ∙ valid_with_list _ r name h
    ∙ valid_entries-any_of r (split_format_list name) (split_format_list-NoComma name)
