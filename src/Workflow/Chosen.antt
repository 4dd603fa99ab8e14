-- ===== src/Workflow/Chosen.antt =====
-- The engine's parser that the registry finds for a content.
use duck_hunt.Prelude.{
  ◌≡◌, refl, sym, ap, subst, Bool, Bool-cases, inl, inr, true, false, Option, none, some, List, [],
  ◌∷◌, All, All-map, Text, find_if, arith, if◌then◌else◌,
}
use mathlib.Core.List.{Mem, Perm, mem-cons_self, mem-cons_of_mem}
use mathlib.Core.List.Perm
use duck_hunt.Prelude.Int.{ℤ, ◌≤ℤ◌}
use duck_hunt.Registry.Sort.{IsDescending}
use duck_hunt.Workflow.{WorkflowEngineParser, WorkflowEngineRegistry, ensure_sorted, find_engine}

abbrev priority : WorkflowEngineParser → ℤ
priority p = p.priority

-- What `std::sort` promises: the order, and a permutation of what it was given. The order of parsers
-- of equal priority is left open.
pub record Sorts (sort : List WorkflowEngineParser → List WorkflowEngineParser) : Type 1 where
  pub descends : (l : List WorkflowEngineParser) → IsDescending priority (sort l)
  pub permutes : (l : List WorkflowEngineParser) → Perm (sort l) l
  pub covers :
      (P : WorkflowEngineParser → Type 0) (l : List WorkflowEngineParser) → All P (sort l) → All P l

-- What was found stands in the list and fits the content, and no parser of the list that fits has a
-- greater priority; where nothing was found, no parser fits.
abbrev pub Fitting : Text → List WorkflowEngineParser → Option WorkflowEngineParser → Type 0
Fitting content l none = All (λ (q : WorkflowEngineParser). q.can_parse content ≡ false) l
Fitting content l (some p) =
    (p.can_parse content ≡ true)
    × Mem p l
    × All (λ (q : WorkflowEngineParser). q.can_parse content ≡ true → q.priority ≤ℤ p.priority) l

abbrev fits : Text → WorkflowEngineParser → Bool
fits content p = p.can_parse content

Fitting-later :
    (content : Text) (x : WorkflowEngineParser) (l : List WorkflowEngineParser)
    (found : Option WorkflowEngineParser)
    → x.can_parse content ≡ false
    → Fitting content l found
    → Fitting content (x ∷ l) found
Fitting-later content x l none h f = (h, f)
Fitting-later content x l (some p) h (t, m, above) =
    (t, mem-cons_of_mem x m, (λ e. absurd (cc), above))

find_if-Fitting :
    (content : Text) (l : List WorkflowEngineParser)
    → IsDescending priority l
    → Fitting content l (find_if (fits content) l)
find_if-Fitting content [] d = tt
find_if-Fitting content (x ∷ l) d = elim (Bool-cases (x.can_parse content)) [
  | inl t ↦
      subst (Fitting content (x ∷ l))
        (sym (ap (λ (b : Bool). if b then some x else find_if (fits content) l) t))
        (t, mem-cons_self, (λ e. omega arith, All-map l (λ (q : WorkflowEngineParser) h e. h) d.0))
  | inr t ↦
      subst (Fitting content (x ∷ l))
        (sym (ap (λ (b : Bool). if b then some x else find_if (fits content) l) t))
        (Fitting-later content x l (find_if (fits content) l) t (find_if-Fitting content l d.1))
]

-- The order of the parsers where the registry takes them for sorted.
abbrev pub Ordered : WorkflowEngineRegistry → Type 0
Ordered r = r.sorted ≡ true → IsDescending priority r.parsers

module _ (sort : List WorkflowEngineParser → List WorkflowEngineParser) (sorts : Sorts sort) where
  Fitting-covers :
      (content : Text) (l : List WorkflowEngineParser) (found : Option WorkflowEngineParser)
      → Fitting content (sort l) found
      → Fitting content l found
  Fitting-covers content l none f =
      sorts.covers (λ (q : WorkflowEngineParser). q.can_parse content ≡ false) l f
  Fitting-covers content l (some p) (t, m, above) = (
    t,
    (Perm.mem_iff (sorts.permutes l)).0 m,
    sorts.covers
        (λ (q : WorkflowEngineParser). q.can_parse content ≡ true → q.priority ≤ℤ p.priority) l
        above,
  )

  -- What the search in a sorted registry gives, for the parsers of another one.
  abbrev Answers : Text → WorkflowEngineRegistry → WorkflowEngineRegistry → Type 0
  Answers content r r' =
      Fitting content r.parsers (find_if (fits content) r'.parsers)
      × Perm r'.parsers r.parsers
      × Ordered r'
      × (r'.sorted ≡ true)

  ensure_sorted-done : (r : WorkflowEngineRegistry) → r.sorted ≡ true → ensure_sorted sort r ≡ r
  unfolding ensure_sorted
  ensure_sorted-done r t =
      ap (λ (b : Bool). if b then r else record { parsers = sort r.parsers; sorted = true }) t

  abbrev resorted : WorkflowEngineRegistry → WorkflowEngineRegistry
  resorted r = record { parsers = sort r.parsers; sorted = true }

  ensure_sorted-resorted :
      (r : WorkflowEngineRegistry) → r.sorted ≡ false → ensure_sorted sort r ≡ resorted r
  unfolding ensure_sorted
  ensure_sorted-resorted r t =
      ap (λ (b : Bool). if b then r else record { parsers = sort r.parsers; sorted = true }) t

  -- In a registry whose parsers stand in order where it takes them for sorted, `findParser` gives a
  -- parser of the registry that fits the content, none of greater priority fitting it, or nothing
  -- where no parser fits. The registry's parsers are then a permutation of what they were, and sorted.
  pub find_engine-Fitting :
      (content : Text) (r : WorkflowEngineRegistry)
      → Ordered r
      → Fitting content r.parsers (find_engine sort content r).0
        × Perm (find_engine sort content r).1.parsers r.parsers
        × Ordered (find_engine sort content r).1
        × ((find_engine sort content r).1.sorted ≡ true)
  unfolding find_engine
  find_engine-Fitting content r o = elim (Bool-cases r.sorted) [
    | inl t ↦
        subst (Answers content r) (sym (ensure_sorted-done r t))
          (find_if-Fitting content r.parsers (o t), Perm.refl r.parsers, o, t)
    | inr t ↦ subst (Answers content r) (sym (ensure_sorted-resorted r t)) (
      Fitting-covers content r.parsers _
          (find_if-Fitting content (sort r.parsers) (sorts.descends r.parsers)),
      sorts.permutes r.parsers,
      (λ e. sorts.descends r.parsers),
      refl,
    )
  ]
