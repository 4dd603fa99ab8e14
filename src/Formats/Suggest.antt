-- ===== src/Formats/Suggest.antt =====
-- What `SuggestFormat` proposes.
use duck_hunt.Prelude.{
  ℕ, ◌+◌, ◌/◌, ◌≤◌, ◌≡◌, ◌⊎◌, inl, inr, refl, ◌==◌, ltb, leb, Bool-cases, Bool, true, false, ◌&&◌,
  ◌||◌, not, List, [], ◌∷◌, Text, All, length, is_empty, arith, leb→le, text_eq_refl, ◌∙◌, sym, ap,
}
use duck_hunt.Parser.{has_name}
use duck_hunt.Formats.{
  Suggestion, edit_distance, shared_prefix, no_suggestion, score, consider, consider_all,
  suggest_format,
}

abbrev best_score : Suggestion → ℕ
best_score b = score b.distance b.prefix

abbrev pub score_of : Text → Text → ℕ
score_of invalid name = score (edit_distance invalid name) (shared_prefix invalid name)

consider_score :
    (invalid : Text) (b : Suggestion) (n : Text)
    → (best_score (consider invalid b n) ≤ best_score b)
      × (best_score (consider invalid b n) ≤ score_of invalid n)
unfolding consider
consider_score invalid b n = ground arith

consider_all_score :
    (invalid : Text) (b : Suggestion) (ns : List Text)
    → (best_score (consider_all invalid b ns) ≤ best_score b)
      × All (λ n. best_score (consider_all invalid b ns) ≤ score_of invalid n) ns
unfolding consider_all
consider_all_score invalid b [] = ground arith
consider_all_score invalid b (n ∷ ns) =
    let first = consider_score invalid b n in
    let more = consider_all_score invalid (consider invalid b n) ns in
    (omega (arith, first.0, more.0), (omega (arith, first.1, more.0), more.1))

-- The kept suggestion is one of the names, measured.
record From (invalid : Text) (names : List Text) (b : Suggestion) : Type 0 where
  listed : has_name b.match names ≡ true
  distance : b.distance ≡ edit_distance invalid b.match
  prefix : b.prefix ≡ shared_prefix invalid b.match

consider-From :
    (invalid : Text) (b : Suggestion) (n : Text)
    → (consider invalid b n ≡ b) ⊎ From invalid (n ∷ []) (consider invalid b n)
unfolding consider
consider-From invalid b n =
    elim (Bool-cases (
      ltb (score_of invalid n) (best_score b)
      || (score_of invalid n == best_score b && ltb (edit_distance invalid n) b.distance))) [
        | inl h ↦
            rw h
              (inr (record { listed = rw (text_eq_refl n) refl; distance = refl; prefix = refl }))
        | inr h ↦ rw h (inl refl)
      ]

From-later :
    (invalid n : Text) (ns : List Text) (b : Suggestion)
    → From invalid ns b
    → From invalid (n ∷ ns) b
From-later invalid n ns b f = record {
  listed = ground (arith, f.listed);
  distance = f.distance;
  prefix = f.prefix;
}

From-first :
    (invalid n : Text) (ns : List Text) (b : Suggestion)
    → From invalid (n ∷ []) b
    → From invalid (n ∷ ns) b
From-first invalid n ns b f = record {
  listed = ground (arith, f.listed);
  distance = f.distance;
  prefix = f.prefix;
}

consider_all-From :
    (invalid : Text) (b : Suggestion) (ns : List Text)
    → (consider_all invalid b ns ≡ b) ⊎ From invalid ns (consider_all invalid b ns)
unfolding consider_all
consider_all-From invalid b [] = inl refl
consider_all-From invalid b (n ∷ ns) = elim (consider_all-From invalid (consider invalid b n) ns) [
  | inr f ↦ inr (From-later invalid n ns _ f)
  | inl same ↦ elim (consider-From invalid b n) [
    | inl kept ↦ inl (same ∙ kept)
    | inr f ↦ inr (From-first invalid n ns _ (rw same f))
  ]
]

&&-first : (a b : Bool) → (a && b) ≡ true → a ≡ true
&&-first a b h = ground (arith, h)

suggest_format_step :
    (invalid : Text) (names : List Text)
    → is_empty (suggest_format invalid names) ≡ false
    → (suggest_format invalid names ≡ (consider_all invalid no_suggestion names).match)
      × ((consider_all invalid no_suggestion names).distance ≤ (length invalid + 1) / 2)
unfolding suggest_format
suggest_format_step invalid names h =
    let best = consider_all invalid no_suggestion names in
    let near = leb best.distance ((length invalid + 1) / 2) in
    elim (Bool-cases (near && not (is_empty best.match))) [
      | inl g ↦ (rw g refl, leb→le best.distance _ (&&-first near _ g))
      | inr g ↦ absurd (ground (arith, rw g at h))
    ]

-- A suggestion that is made is one of the names, within half the length of the input, and no name
-- has a lower score, the distance less the shared prefix.
pub suggest_format-Suggested :
    (invalid : Text) (names : List Text)
    → is_empty (suggest_format invalid names) ≡ false
    → (has_name (suggest_format invalid names) names ≡ true)
      × ((edit_distance invalid (suggest_format invalid names) ≤ (length invalid + 1) / 2)
          × All (λ n. score_of invalid (suggest_format invalid names) ≤ score_of invalid n) names)
suggest_format-Suggested invalid names h =
    let (e, near) = suggest_format_step invalid names h in
    elim (consider_all-From invalid no_suggestion names) [
      | inl same ↦ absurd (ground (arith, h, e, ap (λ (b : Suggestion). is_empty b.match) same))
      | inr f ↦ rw e (
        f.listed,
        (
          rw (sym f.distance) near,
          rw (sym f.distance, sym f.prefix) (consider_all_score invalid no_suggestion names).1,
        ),
      )
    ]
