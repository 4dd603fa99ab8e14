-- ===== src/Formats/Distance.antt =====
-- The table of `EditDistance` against the recursion over the last characters, and that against the
-- edits that lead from one text to the other.
use duck_hunt.Prelude.{
  ℕ, suc, ◌+◌, ◌≤◌, min, ◌≡◌, refl, sym, ap, ◌==◌, Bool-cases, inl, inr, List, [], ◌∷◌, Text,
  reverse, length, arith, ==_iff, subst, if◌then◌else◌, ltb, ◌⊎◌,
}
use mathlib.Core.List.{reverse_aux}
use duck_hunt.Formats.{next_cells, next_row, edit_rows, count_up, last_cell, edit_distance}

-- The distance by recursion.
levenshtein : Text → Text → ℕ
levenshtein [] b = length b
levenshtein (x ∷ a) [] = suc (length a)
levenshtein (x ∷ a) (c ∷ b) =
    let up = levenshtein a (c ∷ b) in
    let left = levenshtein (x ∷ a) b in
    let diag = levenshtein a b in min (min (up + 1) (left + 1)) (diag + (if x == c then 0 else 1))

-- The row of the table for `ra`, behind the cell for `rb`; both are read backwards.
cells : Text → Text → Text → List ℕ
cells ra rb [] = []
cells ra rb (c ∷ b) = levenshtein ra (c ∷ rb) ∷ cells ra (c ∷ rb) b

next_cells_lem :
    (x : ℕ) (ra rb b : Text)
    → next_cells x b (levenshtein ra rb) (cells ra rb b) (levenshtein (x ∷ ra) rb)
      ≡ cells (x ∷ ra) rb b
unfolding next_cells cells levenshtein
next_cells_lem x ra rb [] = refl
next_cells_lem x ra rb (c ∷ b) =
    ap (◌∷◌ (levenshtein (x ∷ ra) (c ∷ rb))) (next_cells_lem x ra (c ∷ rb) b)

row_of : Text → Text → List ℕ
row_of ra b = levenshtein ra [] ∷ cells ra [] b

levenshtein_nil : (a : Text) → levenshtein a [] ≡ length a
unfolding levenshtein
levenshtein_nil [] = refl
levenshtein_nil (x ∷ a) = refl

first_cell : (x : ℕ) (ra : Text) → length ra + 1 ≡ levenshtein (x ∷ ra) []
unfolding levenshtein
first_cell x ra = omega arith

plus_one : (n : ℕ) → n + 1 ≡ suc n
plus_one n = omega arith

next_row_lem : (x : ℕ) (ra b : Text) → next_row x b (length ra) (row_of ra b) ≡ row_of (x ∷ ra) b
unfolding next_row row_of
next_row_lem x ra b =
    rw (first_cell x ra) (ap (◌∷◌ (levenshtein (x ∷ ra) [])) (next_cells_lem x ra [] b))

edit_rows_lem :
    (a ra b : Text) → edit_rows a b (length ra) (row_of ra b) ≡ row_of (reverse_aux a ra) b
unfolding edit_rows
edit_rows_lem [] ra b = refl
edit_rows_lem (x ∷ a) ra b =
    rw (next_row_lem x ra b, plus_one (length ra)) (edit_rows_lem a (x ∷ ra) b)

count_up_lem : (rb b : Text) → count_up (length rb) b ≡ length rb ∷ cells [] rb b
unfolding cells levenshtein
count_up_lem rb [] = refl
count_up_lem rb (c ∷ b) = rw (plus_one (length rb)) (ap (◌∷◌ (length rb)) (count_up_lem (c ∷ rb) b))

last_cell_lem :
    (ra rb b : Text)
    → last_cell (levenshtein ra rb ∷ cells ra rb b) ≡ levenshtein ra (reverse_aux b rb)
unfolding cells
last_cell_lem ra rb [] = refl
last_cell_lem ra rb (c ∷ b) = last_cell_lem ra (c ∷ rb) b

-- `Edits a b n`: `n` single-character changes, insertions and deletions lead from `a` to `b`.
pub data Edits : Text → Text → ℕ → Type 0 where
  same : Edits [] [] 0
  keep : (c : ℕ) (a b : Text) (n : ℕ) → Edits a b n → Edits (c ∷ a) (c ∷ b) n
  change : (x c : ℕ) (a b : Text) (n : ℕ) → Edits a b n → Edits (x ∷ a) (c ∷ b) (n + 1)
  delete : (x : ℕ) (a b : Text) (n : ℕ) → Edits a b n → Edits (x ∷ a) b (n + 1)
  insert : (c : ℕ) (a b : Text) (n : ℕ) → Edits a b n → Edits a (c ∷ b) (n + 1)

edit_distance-eq-levenshtein :
    (a b : Text) → edit_distance a b ≡ levenshtein (reverse a) (reverse b)
unfolding edit_distance row_of cells levenshtein
edit_distance-eq-levenshtein a b =
    rw (count_up_lem [] b, edit_rows_lem a [] b) (last_cell_lem (reverse a) [] b)

levenshtein_delete : (x : ℕ) (a b : Text) → levenshtein (x ∷ a) b ≤ levenshtein a b + 1
unfolding levenshtein
levenshtein_delete x a [] = omega (arith, levenshtein_nil a)
levenshtein_delete x a (c ∷ b) = omega arith

levenshtein_insert : (c : ℕ) (a b : Text) → levenshtein a (c ∷ b) ≤ levenshtein a b + 1
unfolding levenshtein
levenshtein_insert c [] b = omega arith
levenshtein_insert c (x ∷ a) b = omega arith

levenshtein_change : (x c : ℕ) (a b : Text) → levenshtein (x ∷ a) (c ∷ b) ≤ levenshtein a b + 1
unfolding levenshtein
levenshtein_change x c a b = ground arith

levenshtein_keep : (c : ℕ) (a b : Text) → levenshtein (c ∷ a) (c ∷ b) ≤ levenshtein a b
unfolding levenshtein
levenshtein_keep c a b = ground (arith, ==_iff c c)

levenshtein_least : (a b : Text) (n : ℕ) → Edits a b n → levenshtein a b ≤ n
unfolding levenshtein
levenshtein_least _ _ _ same = omega arith
levenshtein_least _ _ _ (keep c a b n e) =
    omega (arith, levenshtein_keep c a b, levenshtein_least a b n e)
levenshtein_least _ _ _ (change x c a b n e) =
    omega (arith, levenshtein_change x c a b, levenshtein_least a b n e)
levenshtein_least _ _ _ (delete x a b n e) =
    omega (arith, levenshtein_delete x a b, levenshtein_least a b n e)
levenshtein_least _ _ _ (insert c a b n e) =
    omega (arith, levenshtein_insert c a b, levenshtein_least a b n e)

min-cases : (p q : ℕ) → (min p q ≡ p) ⊎ (min p q ≡ q)
min-cases p q = elim (Bool-cases (ltb p q)) [
  | inl h ↦ inl (ground arith)
  | inr h ↦ inr (ground arith)
]

Edits-min : (a b : Text) (p q : ℕ) → Edits a b p → Edits a b q → Edits a b (min p q)
Edits-min a b p q e f = elim (min-cases p q) [ inl h ↦ rw h e | inr h ↦ rw h f ]

plus_zero : (n : ℕ) → n + 0 ≡ n
plus_zero n = omega arith

Edits-replace :
    (x c : ℕ) (a b : Text) (n : ℕ)
    → Edits a b n
    → Edits (x ∷ a) (c ∷ b) (n + (if x == c then 0 else 1))
Edits-replace x c a b n e = elim (Bool-cases (x == c)) [
  | inl h ↦
      rw (h, plus_zero n) (subst (λ d. Edits (x ∷ a) (d ∷ b) n) ((==_iff x c).0 h) (keep x a b n e))
  | inr h ↦ rw h (change x c a b n e)
]

levenshtein_reached : (a b : Text) → Edits a b (levenshtein a b)
unfolding levenshtein
levenshtein_reached [] [] = same
levenshtein_reached [] (c ∷ b) =
    rw (sym (plus_one (length b))) (insert c [] b _ (levenshtein_reached [] b))
levenshtein_reached (x ∷ a) [] =
    rw (sym (plus_one (length a)))
      (delete x a [] _ (rw (sym (levenshtein_nil a)) (levenshtein_reached a [])))
levenshtein_reached (x ∷ a) (c ∷ b) =
    Edits-min (x ∷ a) (c ∷ b) _ _
      (Edits-min (x ∷ a) (c ∷ b) _ _ (delete x a (c ∷ b) _ (levenshtein_reached a (c ∷ b)))
        (insert c (x ∷ a) b _ (levenshtein_reached (x ∷ a) b)))
      (Edits-replace x c a b _ (levenshtein_reached a b))

-- The table's last cell is a number of single-character changes, insertions and deletions that
-- lead from the one text to the other, aligned from their ends.
pub edit_distance-reached : (a b : Text) → Edits (reverse a) (reverse b) (edit_distance a b)
edit_distance-reached a b =
    rw (edit_distance-eq-levenshtein a b) (levenshtein_reached (reverse a) (reverse b))

-- No sequence of such edits, aligned from the ends, is shorter than the table's last cell.
pub edit_distance_least :
    (a b : Text) (n : ℕ) → Edits (reverse a) (reverse b) n → edit_distance a b ≤ n
edit_distance_least a b n e =
    rw (edit_distance-eq-levenshtein a b) (levenshtein_least (reverse a) (reverse b) n e)
