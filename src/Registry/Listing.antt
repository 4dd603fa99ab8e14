-- ===== src/Registry/Listing.antt =====
-- The listings of src/core/parser_registry.cpp: groups, categories, names and formats, sorted.
use duck_hunt.Prelude.{
  ◌≡◌, refl, ◌∙◌, Bool, Bool-cases, inl, inr, true, false, ◌||◌, ◌&&◌, not, ltb, ◌==◌, List, [],
  ◌∷◌, ◌++◌, map, Text, text_eq, text_eq_iff, any_of, arith, if◌then◌else◌, none, some, lookup,
  subst,
}
use duck_hunt.Prelude.Int.{ℤ}
use duck_hunt.Parser.{Parser, CommandPattern, has_name}
use duck_hunt.Registry.{Registry, Entry, is_group, has_format, FormatMap}

-- `operator<` of texts.
unfoldable pub text_ltb : Text → Text → Bool
text_ltb a [] = false
text_ltb [] (y ∷ b) = true
text_ltb (x ∷ a) (y ∷ b) = ltb x y || (x == y && text_ltb a b)

module _ {ℓ} {A : Type ℓ} (before : A → A → Bool) where
  unfoldable pub insert_sorted : A → List A → List A
  insert_sorted x [] = x ∷ []
  insert_sorted x (y ∷ ys) =
      let rest = insert_sorted x ys in if before y x then y ∷ rest else x ∷ y ∷ ys

  -- `std::sort`.
  unfoldable pub sort : List A → List A
  sort [] = []
  sort (x ∷ xs) = insert_sorted x (sort xs)

-- The names that are new to those before them, in order.
unfoldable pub first_seen : List Text → List Text → List Text
first_seen seen [] = []
first_seen seen (n ∷ ns) =
    let old = first_seen seen ns in
    let new = first_seen (n ∷ seen) ns in if has_name n seen then old else n ∷ new

abbrev all_groups : List Entry → List Text
all_groups [] = []
all_groups (e ∷ es) = e.parser.groups ++ all_groups es

unfoldable pub get_groups : Registry → List Text
get_groups r = sort text_ltb (first_seen [] (all_groups r.parsers))

pub get_categories : Registry → List Text
get_categories r = sort text_ltb (first_seen [] (map (λ (e : Entry). e.parser.category) r.parsers))

abbrev keys : FormatMap → List Text
keys [] = []
keys ((k, i) ∷ m) = k ∷ keys m

unfoldable pub get_all_format_names : Registry → List Text
get_all_format_names r = sort text_ltb (keys r.format_map)

pub record ParserInfo : Type 0 where
  pub format_name : Text
  pub description : Text
  pub category : Text
  pub required_extension : Text
  pub priority : ℤ
  pub command_patterns : List CommandPattern
  pub groups : List Text

abbrev info_of : Parser → ParserInfo
info_of p = record {
  format_name = p.format_name;
  description = p.description;
  category = p.category;
  required_extension = p.required_extension;
  priority = p.priority;
  command_patterns = p.command_patterns;
  groups = p.groups;
}

abbrev info_before : ParserInfo → ParserInfo → Bool
info_before a b =
    if not (text_eq a.category b.category)
    then text_ltb a.category b.category
    else text_ltb a.format_name b.format_name

pub get_all_formats : Registry → List ParserInfo
get_all_formats r = sort info_before (map (λ (e : Entry). info_of e.parser) r.parsers)

has_name-insert_sorted :
    (k x : Text) (l : List Text)
    → has_name k (insert_sorted text_ltb x l) ≡ (text_eq x k || has_name k l)
unfolding insert_sorted
has_name-insert_sorted k x [] = refl
has_name-insert_sorted k x (y ∷ l) = ground (arith, has_name-insert_sorted k x l)

has_name-sort : (k : Text) (l : List Text) → has_name k (sort text_ltb l) ≡ has_name k l
unfolding sort
has_name-sort k [] = refl
has_name-sort k (x ∷ l) =
    has_name-insert_sorted k x (sort text_ltb l) ∙ (rw (has_name-sort k l) refl)

has_name-append :
    (k : Text) (a b : List Text) → has_name k (a ++ b) ≡ (has_name k a || has_name k b)
has_name-append k [] b = refl
has_name-append k (x ∷ a) b = ground (arith, has_name-append k a b)

seen_already :
    (k n : Text) (seen : List Text)
    → has_name n seen ≡ true
    → text_eq n k ≡ true
    → has_name k seen ≡ true
seen_already k n seen h e = subst (λ t. has_name t seen ≡ true) ((text_eq_iff n k).0 e) h

has_name-first_seen :
    (k : Text) (seen l : List Text)
    → (has_name k seen || has_name k (first_seen seen l)) ≡ (has_name k seen || has_name k l)
unfolding first_seen
has_name-first_seen k seen [] = refl
has_name-first_seen k seen (n ∷ l) = elim (Bool-cases (has_name n seen)) [
  | inl h ↦ rw h (ground (arith, has_name-first_seen k seen l, seen_already k n seen h))
  | inr h ↦ rw h (ground (arith, has_name-first_seen k (n ∷ seen) l))
]

has_name-all_groups :
    (k : Text) (es : List Entry)
    → has_name k (all_groups es) ≡ any_of (λ (e : Entry). has_name k e.parser.groups) es
has_name-all_groups k [] = refl
has_name-all_groups k (e ∷ es) =
    has_name-append k e.parser.groups (all_groups es) ∙ (rw (has_name-all_groups k es) refl)

has_name-keys :
    (k : Text) (m : FormatMap)
    → has_name k (keys m) ≡ (elim (lookup k m) [ none ↦ false | some _ ↦ true ])
unfolding lookup
has_name-keys k [] = refl
has_name-keys k ((j, i) ∷ m) = ground (arith, has_name-keys k m)

-- The groups that are listed are the names that `isGroup` knows.
pub has_name-get_groups : (k : Text) (r : Registry) → has_name k (get_groups r) ≡ is_group k r
unfolding get_groups is_group
has_name-get_groups k r =
    has_name-sort k (first_seen [] (all_groups r.parsers))
    ∙ has_name-first_seen k [] (all_groups r.parsers)
    ∙ has_name-all_groups k r.parsers

-- The names that are listed are those that `hasFormat` knows.
pub has_name-get_all_format_names :
    (k : Text) (r : Registry) → has_name k (get_all_format_names r) ≡ has_format k r
unfolding get_all_format_names has_format
has_name-get_all_format_names k r =
    has_name-sort k (keys r.format_map) ∙ has_name-keys k r.format_map
