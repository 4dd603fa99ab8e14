-- ===== src/Patterns/Clusters.antt =====
-- The numbers that `ProcessErrorPatterns` gives: one for each fingerprint.
use duck_hunt.Prelude.{
  ℕ, suc, ◌<◌, ◌≡◌, ◌↔◌, refl, sym, ap, ◌∙◌, Bool-cases, Option-cases, inl, inr, some, List, [],
  ◌∷◌, map, Text, text_eq_iff, All, lookup, get_elem?, arith, text_eq_refl, ap₂, zero, subst,
  is_empty,
}
use duck_hunt.Prelude.Int.{pos, minus_one, is_minus_one}
use duck_hunt.Event.{ValidationEvent, zero_point_zero, Double}
use duck_hunt.Patterns.{
  Library, PatternState, no_patterns, assign_pattern, assign_patterns, score_pattern, fingerprinted,
  process_error_patterns, generate_error_fingerprint, calculate_message_similarity, number,
  representative,
}

-- Distinct fingerprints have distinct numbers, below the next one.
record Numbering (st : PatternState) : Type 0 where
  injective :
      (f g : Text) (i : ℕ)
      → lookup f st.fingerprint_to_pattern_id ≡ some i
      → lookup g st.fingerprint_to_pattern_id ≡ some i
      → f ≡ g
  below :
      (f : Text) (i : ℕ) → lookup f st.fingerprint_to_pattern_id ≡ some i → i < st.next_pattern_id

no_patterns-Numbering : Numbering no_patterns
no_patterns-Numbering = unfold lookup in record { injective = λ f g i h k. cc; below = λ f i h. cc }

-- The number of the event is that of its fingerprint.
abbrev Numbered : PatternState → ValidationEvent → Type 0
Numbered st e =
    (n : ℕ) × (lookup e.fingerprint st.fingerprint_to_pattern_id ≡ some n) × (e.pattern_id ≡ pos n)

module _ (st : PatternState) (e : ValidationEvent) where
  assign_pattern-Numbered : Numbered (assign_pattern st e).1 (assign_pattern st e).0
  unfolding assign_pattern
  assign_pattern-Numbered =
      elim (Option-cases (lookup e.fingerprint st.fingerprint_to_pattern_id)) [
        | inl h ↦ rw (h, assign_pattern) (st.next_pattern_id, rw (text_eq_refl e.fingerprint), refl)
        | inr (i, h) ↦ rw (h, assign_pattern) (i, h, refl)
      ]

  assign_pattern-grows :
      (f : Text) (i : ℕ)
      → Numbering st
      → lookup f st.fingerprint_to_pattern_id ≡ some i
      → lookup f (assign_pattern st e).1.fingerprint_to_pattern_id ≡ some i
  unfolding assign_pattern
  assign_pattern-grows f i v h = ground (arith, text_eq_iff e.fingerprint f)

  assign_pattern-Numbering : Numbering st → Numbering (assign_pattern st e).1
  unfolding assign_pattern
  assign_pattern-Numbering v = record {
    injective = λ f g i h k. ground (
      arith,
      text_eq_iff e.fingerprint f,
      text_eq_iff e.fingerprint g,
      v.injective f g i,
      v.below f i,
      v.below g i,
    );
    below = λ f i h. ground (arith, text_eq_iff e.fingerprint f, v.below f i);
  }

  fingerprint-assign_pattern : (assign_pattern st e).0.fingerprint ≡ e.fingerprint
  unfolding assign_pattern
  fingerprint-assign_pattern = ground arith

-- What the marking leaves of an event.
abbrev pub unmarked : ValidationEvent → ValidationEvent
unmarked e = record e {
  fingerprint = [];
  similarity_score = zero_point_zero;
  pattern_id = minus_one;
}

unmarked-assign_pattern :
    (st : PatternState) (e : ValidationEvent) → unmarked (assign_pattern st e).0 ≡ unmarked e
unfolding assign_pattern
unmarked-assign_pattern st e =
    elim (Option-cases (lookup e.fingerprint st.fingerprint_to_pattern_id)) [
      | inl h ↦ rw (h, assign_pattern)
      | inr (i, h) ↦ rw (h, assign_pattern)
    ]

assign_patterns-grows :
    (es : List ValidationEvent) (st : PatternState) (f : Text) (i : ℕ)
    → Numbering st
    → lookup f st.fingerprint_to_pattern_id ≡ some i
    → lookup f (assign_patterns st es).1.fingerprint_to_pattern_id ≡ some i
unfolding assign_patterns
assign_patterns-grows [] st f i v h = h
assign_patterns-grows (e ∷ es) st f i v h =
    assign_patterns-grows es (assign_pattern st e).1 f i (assign_pattern-Numbering st e v)
      (assign_pattern-grows st e f i v h)

assign_patterns-Numbering :
    (es : List ValidationEvent) (st : PatternState)
    → Numbering st
    → Numbering (assign_patterns st es).1
unfolding assign_patterns
assign_patterns-Numbering [] st v = v
assign_patterns-Numbering (e ∷ es) st v =
    assign_patterns-Numbering es (assign_pattern st e).1 (assign_pattern-Numbering st e v)

assign_patterns-Numbered :
    (es : List ValidationEvent) (st : PatternState)
    → Numbering st
    → All (Numbered (assign_patterns st es).1) (assign_patterns st es).0
unfolding assign_patterns
assign_patterns-Numbered [] st v = tt
assign_patterns-Numbered (e ∷ es) st v =
    let w = assign_pattern-Numbering st e v in
    let (n, found, given) = assign_pattern-Numbered st e in
    (
      (n, assign_patterns-grows es (assign_pattern st e).1 _ n w found, given),
      assign_patterns-Numbered es (assign_pattern st e).1 w,
    )

unmarked-assign_patterns :
    (es : List ValidationEvent) (st : PatternState)
    → (map unmarked (assign_patterns st es).0 ≡ map unmarked es)
      × (map (λ e. e.fingerprint) (assign_patterns st es).0 ≡ map (λ e. e.fingerprint) es)
unfolding assign_patterns
unmarked-assign_patterns [] st = (refl, refl)
unmarked-assign_patterns (e ∷ es) st =
    let (same, fs) = unmarked-assign_patterns es (assign_pattern st e).1 in
    (ap₂ (◌∷◌) (unmarked-assign_pattern st e) same, ap₂ (◌∷◌) (fingerprint-assign_pattern st e) fs)

module _ (lib : Library) (st : PatternState) where
  score_pattern_cases :
      (e : ValidationEvent)
      → (d : Double) × (score_pattern lib st e ≡ record e { similarity_score = d })
  unfolding score_pattern
  score_pattern_cases e = elim (Bool-cases (is_minus_one e.pattern_id)) [
    | inl m ↦ (e.similarity_score, rw m)
    | inr m ↦
        elim (Option-cases (representative (number e.pattern_id) st.pattern_id_to_representative)) [
          | inl h ↦ (e.similarity_score, rw m (rw (h, score_pattern)))
          | inr (t, h) ↦ elim (Bool-cases (is_empty t)) [
            | inl k ↦ (e.similarity_score, rw m (rw (h, score_pattern) (rw k)))
            | inr k ↦
                (calculate_message_similarity lib e.message t, rw m (rw (h, score_pattern) (rw k)))
          ]
        ]
  ]

  score_pattern-Numbered :
      (last : PatternState) (e : ValidationEvent)
      → Numbered last e
      → Numbered last (score_pattern lib st e)
  score_pattern-Numbered last e (n, f, g) = let (d, h) = score_pattern_cases e in rw h (n, f, g)

  All-score_pattern :
      (last : PatternState) (es : List ValidationEvent)
      → All (Numbered last) es
      → All (Numbered last) (map (score_pattern lib st) es)
  All-score_pattern last [] a = tt
  All-score_pattern last (e ∷ es) a =
      (score_pattern-Numbered last e a.0, All-score_pattern last es a.1)

  map-score_pattern :
      (es : List ValidationEvent)
      → (map unmarked (map (score_pattern lib st) es) ≡ map unmarked es)
        × (map (λ e. e.fingerprint) (map (score_pattern lib st) es) ≡ map (λ e. e.fingerprint) es)
  map-score_pattern [] = (refl, refl)
  map-score_pattern (e ∷ es) =
      let (same, fs) = map-score_pattern es in
      let (d, h) = score_pattern_cases e in
      (ap₂ (◌∷◌) (ap unmarked h) same, ap₂ (◌∷◌) (ap (λ (x : ValidationEvent). x.fingerprint) h) fs)

All-get_elem? {κ} :
    (P : ValidationEvent → Type κ) (es : List ValidationEvent) (i : ℕ) (a : ValidationEvent)
    → All P es
    → get_elem? es i ≡ some a
    → P a
All-get_elem? P [] i a h e = cc
All-get_elem? P (x ∷ es) zero a h e = subst P (cc) h.0
All-get_elem? P (x ∷ es) (suc i) a h e = All-get_elem? P es i a h.1 e

Numbered-unique :
    (st : PatternState) (a b : ValidationEvent)
    → Numbering st
    → Numbered st a
    → Numbered st b
    → (a.fingerprint ≡ b.fingerprint) ↔ (a.pattern_id ≡ b.pattern_id)
Numbered-unique st a b v (n, f, p) (m, g, q) = (
  (λ h. let k : some n ≡ some m = sym f ∙ (rw h g) in cc),
  (λ h. let k : n ≡ m = (cc) in v.injective a.fingerprint b.fingerprint n f (rw k g)),
)

-- Two of the processed events have the same pattern number exactly where they have the same
-- fingerprint.
pub process_error_patterns-pattern_id :
    (lib : Library) (events : List ValidationEvent) (i j : ℕ) (a b : ValidationEvent)
    → get_elem? (process_error_patterns lib events) i ≡ some a
    → get_elem? (process_error_patterns lib events) j ≡ some b
    → (a.fingerprint ≡ b.fingerprint) ↔ (a.pattern_id ≡ b.pattern_id)
unfolding process_error_patterns
process_error_patterns-pattern_id lib events i j a b hi hj =
    let marked = map (fingerprinted lib) events in
    let last = (assign_patterns no_patterns marked).1 in
    let all =
      All-score_pattern lib last last (assign_patterns no_patterns marked).0
        (assign_patterns-Numbered marked no_patterns no_patterns-Numbering) in
    Numbered-unique last a b (assign_patterns-Numbering marked no_patterns no_patterns-Numbering)
      (All-get_elem? (Numbered last) _ i a all hi) (All-get_elem? (Numbered last) _ j b all hj)

map-fingerprinted :
    (lib : Library) (es : List ValidationEvent)
    → (map unmarked (map (fingerprinted lib) es) ≡ map unmarked es)
      × (map (λ e. e.fingerprint) (map (fingerprinted lib) es)
          ≡ map (generate_error_fingerprint lib) es)
map-fingerprinted lib [] = (refl, refl)
map-fingerprinted lib (e ∷ es) =
    let (a, b) = map-fingerprinted lib es in
    (ap (◌∷◌ (unmarked e)) a, ap (◌∷◌ (generate_error_fingerprint lib e)) b)

-- The processing keeps every event, in order, and changes its fingerprint, its similarity and its
-- pattern number alone; the fingerprint is the generated one.
pub process_error_patterns-unmarked :
    (lib : Library) (events : List ValidationEvent)
    → (map unmarked (process_error_patterns lib events) ≡ map unmarked events)
      × (map (λ e. e.fingerprint) (process_error_patterns lib events)
          ≡ map (generate_error_fingerprint lib) events)
unfolding process_error_patterns
process_error_patterns-unmarked lib events =
    let marked = map (fingerprinted lib) events in
    let (s, f) =
      map-score_pattern lib (assign_patterns no_patterns marked).1
        (assign_patterns no_patterns marked).0 in
    let (t, g) = unmarked-assign_patterns marked no_patterns in
    let (u, h) = map-fingerprinted lib events in (s ∙ t ∙ u, f ∙ g ∙ h)
