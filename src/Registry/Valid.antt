-- ===== src/Registry/Valid.antt =====
-- The registry's invariant: no pointer dangles, each name finds a parser that goes by it, and the
-- sorted order is up to date unless it is marked to be rebuilt.
use duck_hunt.Prelude.{
  ℕ, ◌<◌, ◌≡◌, refl, subst, ◌∙◌, ◌==◌, Bool, true, false, not, Bool-cases, inl, inr, some, List, [],
  ◌∷◌, ◌++◌, Text, text_eq, text_eq_refl, text_eq_comm, keep_if, All, All-append, arith, map,
  All-map, All-of, All-both, All-keep_if, All-keep_if_passes, assign, erase,
}
use duck_hunt.Parser.{Parser, has_name, answers_to}
use duck_hunt.Registry.{
  Entry, FormatMap, Registry, assign_all, erase_all, register_parser, deref, drop_parser,
  remove_named, empty_registry,
}
use duck_hunt.Registry.Sort.{stable_sort}

-- The pointer leads to a parser that goes by the name.
abbrev pub Finds : List Entry → Text × ℕ → Type 0
Finds es b = (p : Parser) × (deref es b.1 ≡ some p) × (answers_to p b.0 ≡ true)

-- No two entries are for parsers of one name.
abbrev pub DistinctNames : List Entry → Type 0
DistinctNames [] = Unit
DistinctNames (e ∷ es) =
    All (λ x. text_eq x.parser.format_name e.parser.format_name ≡ false) es × DistinctNames es

pub record IsValid (r : Registry) : Type 0 where
  pub own_ids : All (λ e. deref r.parsers e.id ≡ some e.parser) r.parsers
  pub old_ids : All (λ e. e.id < r.next_id) r.parsers
  pub names_find : All (Finds r.parsers) r.format_map
  pub distinct : DistinctNames r.parsers
  pub sorted :
      r.needs_resort ≡ false
      → r.sorted_parsers
        ≡ map (λ e. e.id) (stable_sort (λ (e : Entry). e.parser.priority) r.parsers)

pub empty-IsValid : IsValid empty_registry
empty-IsValid = record {
  own_ids = tt;
  old_ids = tt;
  names_find = tt;
  distinct = tt;
  sorted = λ _. unfold stable_sort in refl;
}

abbrev entry : ℕ → Parser → Entry
entry i p = record { id = i; parser = p }

deref-append :
    (es fs : List Entry) (i : ℕ) (p : Parser) → deref es i ≡ some p → deref (es ++ fs) i ≡ some p
unfolding deref
deref-append [] fs i p h = cc
deref-append (e ∷ es) fs i p h = ground (arith, deref-append es fs i p)

deref-append_new :
    (es : List Entry) (i : ℕ) (p : Parser)
    → All (λ e. e.id < i) es
    → deref (es ++ entry i p ∷ []) i ≡ some p
unfolding deref
deref-append_new [] i p h = ground arith
deref-append_new (e ∷ es) i p h = ground (arith, h.0, deref-append_new es i p h.1)

DistinctNames-append :
    (es : List Entry) (e : Entry)
    → DistinctNames es
    → All (λ x. text_eq x.parser.format_name e.parser.format_name ≡ false) es
    → DistinctNames (es ++ e ∷ [])
DistinctNames-append [] e d h = (tt, tt)
DistinctNames-append (x ∷ es) e d h = (
  All-append _ es (e ∷ []) d.0 (text_eq_comm e.parser.format_name x.parser.format_name ∙ h.0, tt),
  DistinctNames-append es e d.1 h.1,
)

module _ {κ} (P : Text × ℕ → Type κ) where
  All-assign : (k : Text) (i : ℕ) (m : FormatMap) → P (k, i) → All P m → All P (assign k i m)
  unfolding assign
  All-assign k i [] h a = (h, tt)
  All-assign k i ((j, n) ∷ m) h a = elim (Bool-cases (text_eq j k)) [
    | inl e ↦ rw e (h, a.1)
    | inr e ↦ rw e (a.0, All-assign k i m h a.1)
  ]

  All-assign_all :
      (ks : List Text) (i : ℕ) (m : FormatMap)
      → All (λ k. P (k, i)) ks
      → All P m
      → All P (assign_all ks i m)
  unfolding assign_all
  All-assign_all [] i m h a = a
  All-assign_all (k ∷ ks) i m h a = All-assign_all ks i (assign k i m) h.1 (All-assign k i m h.0 a)

  All-erase_all : (ks : List Text) (m : FormatMap) → All P m → All P (erase_all ks m)
  unfolding erase_all
  All-erase_all [] m a = a
  All-erase_all (k ∷ ks) m a = All-erase_all ks (erase k m) (All-keep_if _ P m a)

has_name_self : (ks : List Text) → All (λ k. has_name k ks ≡ true) ks
has_name_self [] = tt
has_name_self (k ∷ ks) =
    (ground (arith, text_eq_refl k), All-map ks (λ j h. ground arith) (has_name_self ks))

-- What is left behind an erasure has none of the erased names.
erase_all-has_name :
    (ks : List Text) (m : FormatMap) → All (λ b. has_name b.0 ks ≡ false) (erase_all ks m)
unfolding erase_all
erase_all-has_name [] m = All-of m (λ b. refl)
erase_all-has_name (k ∷ ks) m =
    All-map (erase_all ks (erase k m)) (λ b h. ground (arith, h.0, h.1, text_eq_comm b.0 k))
      (All-both (λ b. not (text_eq b.0 k) ≡ true) (λ b. has_name b.0 ks ≡ false)
        (erase_all ks (erase k m))
        (All-erase_all (λ b. not (text_eq b.0 k) ≡ true) ks (erase k m)
          (unfold erase in All-keep_if_passes (λ (b : Text × ℕ). not (text_eq b.0 k)) m))
        (erase_all-has_name ks (erase k m)))

pub deref-register_parser :
    (p : Parser) (r : Registry)
    → All (λ e. e.id < r.next_id) r.parsers
    → deref (register_parser (some p) r).parsers r.next_id ≡ some p
unfolding register_parser
deref-register_parser p r h = deref-append_new r.parsers r.next_id p h

-- A registration under a name that no parser has keeps the invariant.
pub register_parser-IsValid :
    (p : Parser) (r : Registry)
    → IsValid r
    → All (λ e. text_eq e.parser.format_name p.format_name ≡ false) r.parsers
    → IsValid (register_parser (some p) r)
unfolding register_parser
register_parser-IsValid p r v new = record {
  own_ids =
      All-append _ r.parsers (entry r.next_id p ∷ [])
        (All-map r.parsers (λ e h. deref-append r.parsers _ e.id e.parser h) v.own_ids)
        (deref-append_new r.parsers r.next_id p v.old_ids, tt);
  old_ids =
      All-append _ r.parsers (entry r.next_id p ∷ [])
        (All-map r.parsers (λ e h. omega arith) v.old_ids) (omega arith, tt);
  names_find =
      All-assign_all (Finds (r.parsers ++ entry r.next_id p ∷ [])) (p.format_name ∷ p.aliases)
        r.next_id r.format_map
        (All-map (p.format_name ∷ p.aliases)
          (λ k h. (p, deref-append_new r.parsers r.next_id p v.old_ids, h))
          (has_name_self (p.format_name ∷ p.aliases)))
        (All-map r.format_map (λ b h. (h.0, deref-append r.parsers _ b.1 h.0 h.1, h.2))
          v.names_find);
  distinct = DistinctNames-append r.parsers (entry r.next_id p) v.distinct new;
  sorted = λ h. cc;
}

not-true : {b : Bool} → not b ≡ true → b ≡ false
not-true {b = true} h = cc
not-true {b = false} h = refl

contradicts : {b : Bool} → b ≡ true → b ≡ false → ⊥
contradicts h k = cc

deref-All {κ} :
    (P : Parser → Type κ) (es : List Entry) (i : ℕ) (p : Parser)
    → All (λ e. P e.parser) es
    → deref es i ≡ some p
    → P p
unfolding deref
deref-All P [] i p a d = cc
deref-All P (e ∷ es) i p a d = elim (Bool-cases (e.id == i)) [
  | inl t ↦ let q : some e.parser ≡ some p = (rw t at d) in subst P (cc) a.0
  | inr t ↦ deref-All P es i p a.1 (rw t at d)
]

clash :
    (e : Entry) (p q : Parser)
    → e.parser ≡ p
    → text_eq q.format_name e.parser.format_name ≡ false
    → text_eq q.format_name p.format_name ≡ true
    → ⊥
clash e p q h f t = cc

-- Where names are distinct, pointers to parsers of one name lead to one parser.
same_name :
    (es : List Entry) (i j : ℕ) (p q : Parser)
    → DistinctNames es
    → deref es i ≡ some p
    → deref es j ≡ some q
    → text_eq q.format_name p.format_name ≡ true
    → q ≡ p
unfolding deref
same_name [] i j p q d hp hq n = cc
same_name (e ∷ es) i j p q d hp hq n = elim (Bool-cases (e.id == i)) [
  | inl t ↦ elim (Bool-cases (e.id == j)) [
    | inl u ↦
        let a : some e.parser ≡ some p = (rw t at hp) in
        let b : some e.parser ≡ some q = (rw u at hq) in cc
    | inr u ↦
        let a : some e.parser ≡ some p = (rw t at hp) in
        absurd (clash e p q (cc) (deref-All _ es j q d.0 (rw u at hq)) n)
  ]
  | inr t ↦ elim (Bool-cases (e.id == j)) [
    | inl u ↦
        let b : some e.parser ≡ some q = (rw u at hq) in
        absurd (
          clash e q p (cc) (deref-All _ es i p d.0 (rw t at hp))
            (text_eq_comm p.format_name q.format_name ∙ n))
    | inr u ↦ same_name es i j p q d.1 (rw t at hp) (rw u at hq) n
  ]
]

deref-remove_named :
    (n : Text) (es : List Entry) (i : ℕ) (p : Parser)
    → deref es i ≡ some p
    → text_eq p.format_name n ≡ false
    → deref (remove_named n es) i ≡ some p
unfolding deref remove_named
deref-remove_named n [] i p d h = d
deref-remove_named n (e ∷ es) i p d h = ground (arith, deref-remove_named n es i p)

DistinctNames-keep_if :
    (f : Entry → Bool) (es : List Entry) → DistinctNames es → DistinctNames (keep_if f es)
DistinctNames-keep_if f [] d = tt
DistinctNames-keep_if f (e ∷ es) d = elim (Bool-cases (f e)) [
  | inl t ↦ rw t (
    All-keep_if f (λ x. text_eq x.parser.format_name e.parser.format_name ≡ false) es d.0,
    DistinctNames-keep_if f es d.1,
  )
  | inr t ↦ rw t (DistinctNames-keep_if f es d.1)
]

-- A name that is left finds a parser that is left.
Finds-drop_parser :
    (es : List Entry) (i : ℕ) (p : Parser) (b : Text × ℕ)
    → DistinctNames es
    → deref es i ≡ some p
    → has_name b.0 (p.format_name ∷ p.aliases) ≡ false
    → Finds es b
    → Finds (remove_named p.format_name es) b
Finds-drop_parser es i p b d hp gone (q, hq, answers) =
    elim (Bool-cases (text_eq q.format_name p.format_name)) [
      | inl t ↦
          let same = same_name es i b.1 p q d hp hq t in
          absurd (contradicts (subst (λ (x : Parser). answers_to x b.0 ≡ true) same answers) gone)
      | inr t ↦ (q, deref-remove_named p.format_name es b.1 q hq t, answers)
    ]

-- Dropping the parser behind a pointer keeps the invariant.
pub drop_parser-IsValid :
    (i : ℕ) (p : Parser) (r : Registry)
    → IsValid r
    → deref r.parsers i ≡ some p
    → IsValid (drop_parser p r)
unfolding drop_parser
drop_parser-IsValid i p r v d = record {
  own_ids =
      All-map (remove_named p.format_name r.parsers)
        (λ e h. deref-remove_named p.format_name r.parsers e.id e.parser h.0 (not-true h.1))
        (All-both _ _ (remove_named p.format_name r.parsers) (All-keep_if _ _ r.parsers v.own_ids) (
          All-keep_if_passes (λ (e : Entry). not (text_eq e.parser.format_name p.format_name))
            r.parsers));
  old_ids = All-keep_if _ _ r.parsers v.old_ids;
  names_find =
      All-map (erase_all (p.format_name ∷ p.aliases) r.format_map)
        (λ b h. Finds-drop_parser r.parsers i p b v.distinct d h.1 h.0)
        (All-both _ _ (erase_all (p.format_name ∷ p.aliases) r.format_map)
          (All-erase_all (Finds r.parsers) (p.format_name ∷ p.aliases) r.format_map v.names_find)
          (erase_all-has_name (p.format_name ∷ p.aliases) r.format_map));
  distinct = DistinctNames-keep_if _ r.parsers v.distinct;
  sorted = λ h. cc;
}
