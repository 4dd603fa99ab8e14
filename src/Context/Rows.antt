-- ===== src/Context/Rows.antt =====
-- The rows of the context are a slice of the log's lines.
use duck_hunt.Prelude.{
  ℕ, zero, suc, ◌+◌, ◌-◌, ◌≤◌, ◌≡◌, refl, ap, sym, ◌∙◌, leb, ◌&&◌, min, none, some, List, [], ◌∷◌,
  Text, length, get_elem?, take, drop, arith, ◌⊎◌, inl, inr, length-take, ◌≢◌,
}
use duck_hunt.Prelude.Int.{ℤ, pos}
use mathlib.Core.Option.{some-injective}
use duck_hunt.Context.{ContextLine, context_rows, extract_context, last_line_of, row_before}

-- The rows for lines that stand at position `i` and behind.
abbrev pub rows_of : ℕ → ℕ → ℕ → List Text → List ContextLine
rows_of first last i [] = []
rows_of first last i (l ∷ ls) =
    (record { line_number = i + 1; content = l; is_event = leb first i && leb i last })
    ∷ rows_of first last (i + 1) ls

abbrev Fetched : List Text → ℕ → Text → Type 0
Fetched lines i l = (get_elem? lines i ≡ some l) × (drop i lines ≡ l ∷ drop (suc i) lines)

fetch-cases :
    (lines : List Text) (i : ℕ)
    → ((get_elem? lines i ≡ none) × (drop i lines ≡ [])) ⊎ ((l : Text) × Fetched lines i l)
fetch-cases [] zero = inl (refl, refl)
fetch-cases [] (suc i) = inl (refl, refl)
fetch-cases (x ∷ xs) zero = inr (x, (refl, refl))
fetch-cases (x ∷ xs) (suc i) = fetch-cases xs i

plus_one : (n : ℕ) → n + 1 ≡ suc n
plus_one n = omega arith

drop_past : (lines : List Text) (i : ℕ) → drop i lines ≡ [] → drop (suc i) lines ≡ []
drop_past [] i h = refl
drop_past (x ∷ xs) zero h = absurd (ground (arith, h))
drop_past (x ∷ xs) (suc i) h = drop_past xs i h

context_rows_step :
    (lines : List Text) (first last f i : ℕ) (l : Text)
    → get_elem? lines i ≡ some l
    → context_rows lines first last (suc f) i
      ≡ (record { line_number = i + 1; content = l; is_event = leb first i && leb i last })
        ∷ context_rows lines first last f (i + 1)
unfolding context_rows
context_rows_step lines first last f i l h =
    ap (λ o. row_before first last i o (context_rows lines first last f (i + 1))) h

context_rows_past :
    (lines : List Text) (first last f i : ℕ)
    → get_elem? lines i ≡ none
    → context_rows lines first last (suc f) i ≡ context_rows lines first last f (i + 1)
unfolding context_rows
context_rows_past lines first last f i h =
    ap (λ o. row_before first last i o (context_rows lines first last f (i + 1))) h

take_nil : (n : ℕ) → take {A = Text} n [] ≡ []
take_nil zero = refl
take_nil (suc n) = refl

context_rows-eq-rows_of :
    (lines : List Text) (first last f i : ℕ)
    → context_rows lines first last f i ≡ rows_of first last i (take f (drop i lines))
context_rows-eq-rows_of lines first last zero i = unfold context_rows in refl
context_rows-eq-rows_of lines first last (suc f) i = elim (fetch-cases lines i) [
  | inl past ↦
      rw
        (
          past.1,
          context_rows_past lines first last f i past.0,
          context_rows-eq-rows_of lines first last f (i + 1),
          plus_one i,
          drop_past lines i past.1,
          take_nil f,
        )
        refl
  | inr found ↦
      rw
        (
          found.1.1,
          context_rows_step lines first last f i found.0 found.1.0,
          context_rows-eq-rows_of lines first last f (i + 1),
        )
        (ap
          (λ n.
            (record {
              line_number = i + 1;
              content = found.0;
              is_event = leb first i && leb i last;
            })
            ∷ rows_of first last (i + 1) (take f (drop n lines)))
          (plus_one i))
]

suc_pred : (k : ℕ) → suc k - 1 ≡ k
suc_pred k = omega arith

length-rows_of : (first last i : ℕ) (ls : List Text) → length (rows_of first last i ls) ≡ length ls
length-rows_of first last i [] = refl
length-rows_of first last i (l ∷ ls) = omega (arith, length-rows_of first last (i + 1) ls)

-- The event's last position, and the number of lines of the window.
abbrev pub event_end : ℕ → ℤ → ℕ
event_end k end = last_line_of (pos (suc k)) end - 1

abbrev pub window : List Text → ℕ → ℕ → ℕ → List Text
window lines k last c = take (min (length lines - 1) (last + c) + 1 - (k - c)) (drop (k - c) lines)

no_context :
    (k c : ℕ) (end : ℤ) (rows : List ContextLine)
    → extract_context [] (pos (suc k)) end c ≢ some rows
unfolding extract_context
no_context k c end rows h = ground (arith, h)

-- For an event that starts at line `k + 1` of a log that has lines, the context is the rows of a
-- slice of the log, which begins `c` lines before the event or at the log's first line, numbered
-- from there, with the event's own lines marked.
pub extract_context-eq-rows_of :
    (l : Text) (ls : List Text) (k c : ℕ) (end : ℤ)
    → extract_context (l ∷ ls) (pos (suc k)) end c
      ≡ some (rows_of k (event_end k end) (k - c) (window (l ∷ ls) k (event_end k end) c))
unfolding extract_context
extract_context-eq-rows_of l ls k c end =
    rw (suc_pred k)
      (ap (λ r. some r) (context_rows-eq-rows_of (l ∷ ls) k (event_end k end) _ (k - c)))

length-window :
    (lines : List Text) (k last c : ℕ) → length (window lines k last c) ≤ (last - k) + (1 + (c + c))
length-window lines k last c =
    omega
      (arith, length-take (min (length lines - 1) (last + c) + 1 - (k - c)) (drop (k - c) lines))

-- The context of an event that starts at line `k + 1` has at most the lines of the event and `c`
-- lines on either side.
pub length-extract_context :
    (lines : List Text) (k c : ℕ) (end : ℤ) (rows : List ContextLine)
    → extract_context lines (pos (suc k)) end c ≡ some rows
    → length rows ≤ (event_end k end - k) + (1 + (c + c))
length-extract_context [] k c end rows h = absurd (no_context k c end rows h)
length-extract_context (l ∷ ls) k c end rows h =
    let same = some-injective _ _ (sym (extract_context-eq-rows_of l ls k c end) ∙ h) in
    omega (
      arith,
      ap length same,
      length-rows_of k (event_end k end) (k - c) (window (l ∷ ls) k (event_end k end) c),
      length-window (l ∷ ls) k (event_end k end) c,
    )
