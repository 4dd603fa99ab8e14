-- ===== src/Registry/Detect.antt =====
-- Auto-detection: which parser `findParser` chooses, and the lists by category and group.
use mathlib.Core.List.{Perm, perm_middle}
use mathlib.Core.List.Perm
use duck_hunt.Prelude.Int.{ℤ}
use duck_hunt.Prelude.{
  ℕ, ◌≡◌, refl, sym, ap, ◌∙◌, Bool, true, false, not, Bool-cases, Option-cases, inl, inr, Option,
  none, some, List, [], ◌∷◌, ◌++◌, Text, All, All-map, All-keep_if_passes, keep_if, any_of, find_if,
  is_empty, map, arith, ap₂,
}
use duck_hunt.Parser.{has_name}
use duck_hunt.Registry.{
  Registry, Entry, deref, ensure_sorted_locked, try_parsers, find_parser, get_parsers_by_group,
  is_group,
}
use duck_hunt.Registry.Sort.{
  stable_sort-Perm, stable_sort, first_max, find_if-stable_sort, first_max-none,
  first_max-IsFirstMax, IsFirstMax, IsDescending, stable_sort-IsDescending, All-stable_sort, insert,
}
use duck_hunt.Registry.Valid.{IsValid}

abbrev pub priority : Entry → ℤ
priority e = e.parser.priority

abbrev pub can_parse : Text → Entry → Bool
can_parse content e = e.parser.can_parse content

abbrev pub pointer : Option Entry → Option ℕ
pointer none = none
pointer (some e) = some e.id

try_parsers-find_if :
    (es : List Entry) (content : Text) (l : List Entry)
    → All (λ e. deref es e.id ≡ some e.parser) l
    → try_parsers es content (map (λ e. e.id) l) ≡ some (pointer (find_if (can_parse content) l))
unfolding try_parsers
try_parsers-find_if es content [] h = refl
try_parsers-find_if es content (e ∷ l) h = elim (Bool-cases (can_parse content e)) [
  | inl t ↦ rw (h.0, try_parsers) (rw t)
  | inr t ↦ rw (h.0, try_parsers) (rw t (try_parsers-find_if es content l h.1))
]

-- Sorting leaves the parsers alone, and the order is up to date behind it.
pub ensure_sorted_locked-sorted :
    (r : Registry)
    → IsValid r
    → ((ensure_sorted_locked r).sorted_parsers ≡ map (λ e. e.id) (stable_sort priority r.parsers))
      × ((ensure_sorted_locked r).parsers ≡ r.parsers)
unfolding ensure_sorted_locked
ensure_sorted_locked-sorted r v = elim (Bool-cases r.needs_resort) [
  | inl t ↦ rw t (refl, refl)
  | inr t ↦ rw t (v.sorted t, refl)
]

pub ensure_sorted_locked-IsValid : (r : Registry) → IsValid r → IsValid (ensure_sorted_locked r)
unfolding ensure_sorted_locked
ensure_sorted_locked-IsValid r v = elim (Bool-cases r.needs_resort) [
  | inl t ↦ rw t (record {
    own_ids = v.own_ids;
    old_ids = v.old_ids;
    names_find = v.names_find;
    distinct = v.distinct;
    sorted = λ _. refl;
  })
  | inr t ↦ simp t v
]

find_parser_found :
    (content : Text) (r : Registry) (found : Option ℕ)
    → try_parsers (ensure_sorted_locked r).parsers content (ensure_sorted_locked r).sorted_parsers
      ≡ some found
    → find_parser content r ≡ some (found, ensure_sorted_locked r)
unfolding find_parser
find_parser_found content r found h = rw (h, find_parser)

pub find_parser-first_max :
    (content : Text) (r : Registry)
    → IsValid r
    → find_parser content r
      ≡ some (pointer (first_max priority (can_parse content) r.parsers), ensure_sorted_locked r)
find_parser-first_max content r v =
    let (order, same) = ensure_sorted_locked-sorted r v in
    let sorted = stable_sort priority r.parsers in
    find_parser_found content r _ (
      ap₂ (λ (es : List Entry) (is : List ℕ). try_parsers es content is) same order
      ∙ try_parsers-find_if r.parsers content sorted
          (All-stable_sort priority _ r.parsers v.own_ids)
      ∙ ap (λ (o : Option Entry). some (pointer o))
          (find_if-stable_sort priority (can_parse content) r.parsers))

-- What `findParser` may answer: nothing, where no parser accepts the content, or the first of the
-- accepting parsers of the highest priority, in the order of registration.
abbrev pub Selected : Text → Registry → Option ℕ → Type 0
Selected content r none = All (λ e. can_parse content e ≡ false) r.parsers
Selected content r (some i) =
    (e : Entry) × (e.id ≡ i) × IsFirstMax priority (can_parse content) r.parsers e

Selected-first_max :
    (content : Text) (r : Registry)
    → Selected content r (pointer (first_max priority (can_parse content) r.parsers))
Selected-first_max content r =
    elim (Option-cases (first_max priority (can_parse content) r.parsers)) [
      | inl n ↦ rw n (first_max-none priority (can_parse content) r.parsers n)
      | inr (e, s) ↦ rw s (e, refl, first_max-IsFirstMax priority (can_parse content) r.parsers e s)
    ]

-- In a valid registry `findParser` goes through no dangling pointer, selects so, and leaves a valid
-- registry.
pub find_parser-Selected :
    (content : Text) (r : Registry)
    → IsValid r
    → (found : Option ℕ) × (r' : Registry) × (find_parser content r ≡ some (found, r'))
      × Selected content r found
      × IsValid r'
find_parser-Selected content r v = (
  pointer (first_max priority (can_parse content) r.parsers),
  ensure_sorted_locked r,
  find_parser-first_max content r v,
  Selected-first_max content r,
  ensure_sorted_locked-IsValid r v,
)

any_of-keep_if : (f : Entry → Bool) (l : List Entry) → any_of f l ≡ not (is_empty (keep_if f l))
any_of-keep_if f [] = refl
any_of-keep_if f (e ∷ l) = ground (arith, any_of-keep_if f l)

is_empty-insert : (e : Entry) (l : List Entry) → is_empty (insert priority e l) ≡ false
unfolding insert
is_empty-insert e [] = refl
is_empty-insert e (x ∷ l) = ground arith

is_empty-stable_sort : (l : List Entry) → is_empty (stable_sort priority l) ≡ is_empty l
unfolding stable_sort
is_empty-stable_sort [] = refl
is_empty-stable_sort (e ∷ l) = is_empty-insert e (stable_sort priority l)

not-true : (b : Bool) → not b ≡ true → b ≡ false
not-true b h = ground (arith, h)

-- What a test keeps, and what it drops, make up the list.
keep_if-Perm :
    (p : Entry → Bool) (l : List Entry) → Perm (keep_if p l ++ keep_if (λ e. not (p e)) l) l
keep_if-Perm p [] = Perm.refl []
keep_if-Perm p (x ∷ l) = elim (Bool-cases (p x)) [
  | inl t ↦ rw t (Perm.cons x (keep_if-Perm p l))
  | inr t ↦ rw t (
      Perm.trans (perm_middle (keep_if p l) (keep_if (λ e. not (p e)) l))
        (Perm.cons x (keep_if-Perm p l)))
]

abbrev members : Text → Registry → List Entry
members g r = keep_if (λ e. has_name g e.parser.groups) r.parsers

abbrev others : Text → Registry → List Entry
others g r = keep_if (λ e. not (has_name g e.parser.groups)) r.parsers

-- A group's parsers are its members, by descending priority: they and parsers that are no members are
-- a permutation of the registry's parsers. There are some exactly for a group.
pub get_parsers_by_group_lem :
    (g : Text) (r : Registry)
    → ((rest : List Entry) × Perm (get_parsers_by_group g r ++ rest) r.parsers
        × All (λ e. has_name g e.parser.groups ≡ false) rest)
      × All (λ e. has_name g e.parser.groups ≡ true) (get_parsers_by_group g r)
      × IsDescending priority (get_parsers_by_group g r)
      × (is_group g r ≡ not (is_empty (get_parsers_by_group g r)))
unfolding get_parsers_by_group is_group
get_parsers_by_group_lem g r = (
  (
    others g r,
    Perm.trans (Perm.append_right (others g r) (stable_sort-Perm priority (members g r)))
        (keep_if-Perm (λ (e : Entry). has_name g e.parser.groups) r.parsers),
    All-map _ (λ (e : Entry) h. not-true (has_name g e.parser.groups) h)
        (All-keep_if_passes (λ (e : Entry). not (has_name g e.parser.groups)) r.parsers),
  ),
  All-stable_sort priority _ (members g r)
      (All-keep_if_passes (λ (e : Entry). has_name g e.parser.groups) r.parsers),
  stable_sort-IsDescending priority (members g r),
  any_of-keep_if _ r.parsers ∙ ap not (sym (is_empty-stable_sort (members g r))),
)
