-- ===== src/Patterns/Similarity.antt =====
-- The similarity of two messages is a score from 0 to 1, and does not depend on their order.
use duck_hunt.Prelude.{
  ℕ, ◌≤◌, ◌<◌, ◌≡◌, refl, max, Bool-cases, inl, inr, List, [], ◌∷◌, Text, text_eq, text_eq_comm,
  text_eq_refl, length, arith,
}
use duck_hunt.Event.{Double}
use duck_hunt.Patterns.{
  Library, count_common, count_keywords, keywords, similarity_of_normalized, one, at_most_one,
  calculate_message_similarity, normalize_error_message, overlap,
}

count_common_comm : (a b : Text) → count_common a b ≡ count_common b a
unfolding count_common
count_common_comm [] [] = refl
count_common_comm [] (y ∷ b) = refl
count_common_comm (x ∷ a) [] = refl
count_common_comm (x ∷ a) (y ∷ b) = ground (arith, count_common_comm a b)

count_keywords_comm : (ks : List Text) (a b : Text) → count_keywords ks a b ≡ count_keywords ks b a
unfolding count_keywords
count_keywords_comm [] a b = refl
count_keywords_comm (k ∷ ks) a b = ground (arith, count_keywords_comm ks a b)

-- A score: a fraction from 0 to 1.
abbrev pub IsScore : Double → Type 0
IsScore d = (0 < d.den) × (d.num ≤ d.den)

at_most_one-IsScore : (d : Double) → 0 < d.den → IsScore (at_most_one d)
at_most_one-IsScore d h = ground arith

similarity_of_normalized-IsScore : (a b : Text) → IsScore (similarity_of_normalized a b)
unfolding similarity_of_normalized
similarity_of_normalized-IsScore [] [] = ground arith
similarity_of_normalized-IsScore [] (y ∷ b) = ground arith
similarity_of_normalized-IsScore (x ∷ a) [] = ground arith
similarity_of_normalized-IsScore (x ∷ a) (y ∷ b) = elim (Bool-cases (text_eq (x ∷ a) (y ∷ b))) [
  | inl t ↦ rw t (omega arith)
  | inr t ↦ rw t (at_most_one-IsScore (overlap (x ∷ a) (y ∷ b)) (omega arith))
]

max_comm : (m n : ℕ) → max m n ≡ max n m
max_comm m n = omega arith

similarity_of_normalized_comm :
    (a b : Text) → similarity_of_normalized a b ≡ similarity_of_normalized b a
unfolding similarity_of_normalized
similarity_of_normalized_comm [] [] = refl
similarity_of_normalized_comm [] (y ∷ b) = refl
similarity_of_normalized_comm (x ∷ a) [] = refl
similarity_of_normalized_comm (x ∷ a) (y ∷ b) = rw (
  text_eq_comm (x ∷ a) (y ∷ b),
  count_common_comm (x ∷ a) (y ∷ b),
  count_keywords_comm keywords (x ∷ a) (y ∷ b),
  max_comm (length (x ∷ a)) (length (y ∷ b)),
)

similarity_of_normalized_self : (a : Text) → similarity_of_normalized a a ≡ one
unfolding similarity_of_normalized
similarity_of_normalized_self [] = refl
similarity_of_normalized_self (x ∷ a) = rw (text_eq_refl (x ∷ a))

-- The similarity of two messages lies between 0 and 1, is the same the other way round, and is 1
-- for a message and itself.
pub calculate_message_similarity_lem :
    (lib : Library) (m n : Text)
    → IsScore (calculate_message_similarity lib m n)
      × (calculate_message_similarity lib m n ≡ calculate_message_similarity lib n m)
      × (calculate_message_similarity lib m m ≡ one)
unfolding calculate_message_similarity
calculate_message_similarity_lem lib m n =
    let a = normalize_error_message lib m in
    let b = normalize_error_message lib n in
    (
      similarity_of_normalized-IsScore a b,
      similarity_of_normalized_comm a b,
      similarity_of_normalized_self a,
    )
