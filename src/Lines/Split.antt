-- ===== src/Lines/Split.antt =====
-- What the loops over `std::getline` read.
use duck_hunt.Prelude.{
  ℕ, zero, suc, ◌≤◌, ◌≡◌, ◌≢◌, refl, ap, sym, ◌∙◌, ◌⊎◌, inl, inr, ◌==◌, Bool-cases, false, List, [],
  ◌∷◌, ◌++◌, All, Text, length, arith, ==_iff,
}
use duck_hunt.Lines.{split_at_delim, getline_loop, split_lines, cons_first}

module _ (d : ℕ) where
  pub split_lines_cons :
      (c : ℕ) (s : Text)
      → split_lines d (c ∷ s)
        ≡ (split_at_delim d (c ∷ s)).0 ∷ split_lines d (split_at_delim d (c ∷ s)).1
  unfolding split_lines split_at_delim
  split_lines_cons c [] = ground arith
  split_lines_cons c (x ∷ s) = ground (arith, split_lines_cons x s)

  pub length-split_at_delim : (c : ℕ) (s : Text) → length (split_at_delim d (c ∷ s)).1 ≤ length s
  unfolding split_at_delim
  length-split_at_delim c [] = ground arith
  length-split_at_delim c (x ∷ s) = ground (arith, length-split_at_delim x s)

  -- With fuel for each byte the loop ends, and has read the lines.
  pub getline_loop-eq-split_lines :
      (f : ℕ) (s : Text) → length s ≤ f → getline_loop f d s ≡ split_lines d s
  unfolding getline_loop
  getline_loop-eq-split_lines zero [] h = unfold split_lines in refl
  getline_loop-eq-split_lines (suc f) [] h = unfold split_lines in refl
  getline_loop-eq-split_lines zero (c ∷ s) h = absurd (omega arith)
  getline_loop-eq-split_lines (suc f) (c ∷ s) h = rw (split_lines_cons c s) (
      rw (
        getline_loop-eq-split_lines f (split_at_delim d (c ∷ s)).1
          (omega (arith, length-split_at_delim c s))))

  abbrev pub FreeOf : Text → Type 0
  FreeOf l = All (λ c. c ≢ d) l

  All-cons_first : (c : ℕ) (ls : List Text) → c ≢ d → All FreeOf ls → All FreeOf (cons_first c ls)
  All-cons_first c [] n h = ((n, tt), tt)
  All-cons_first c (l ∷ ls) n h = ((n, h.0), h.1)

  -- No line holds the delimiter.
  pub split_lines-FreeOf : (s : Text) → All FreeOf (split_lines d s)
  unfolding split_lines
  split_lines-FreeOf [] = tt
  split_lines-FreeOf (c ∷ s) = elim (Bool-cases (c == d)) [
    | inl e ↦ rw e (tt, split_lines-FreeOf s)
    | inr e ↦ rw e (All-cons_first c (split_lines d s) (ground arith) (split_lines-FreeOf s))
  ]

  pub split_lines-append :
      (l rest : Text) → FreeOf l → split_lines d (l ++ d ∷ rest) ≡ l ∷ split_lines d rest
  unfolding split_lines
  split_lines-append [] rest h = ground arith
  split_lines-append (c ∷ l) rest h = ground (arith, split_lines-append l rest h.1)

  split_lines_step :
      (c : ℕ) (s : Text) → (c == d) ≡ false → split_lines d (c ∷ s) ≡ cons_first c (split_lines d s)
  unfolding split_lines
  split_lines_step c s e = rw e

  split_lines_other :
      (c x : ℕ) (s : Text)
      → (c == d) ≡ false
      → split_lines d (c ∷ x ∷ s)
        ≡ (c ∷ (split_at_delim d (x ∷ s)).0) ∷ split_lines d (split_at_delim d (x ∷ s)).1
  split_lines_other c x s e =
      split_lines_step c (x ∷ s) e ∙ ap (cons_first c) (split_lines_cons x s)

  -- Each line with the delimiter behind it.
  abbrev pub join_lines : List Text → Text
  join_lines [] = []
  join_lines (l ∷ ls) = l ++ d ∷ join_lines ls

  -- The last line gains a delimiter where it has none, and nothing else is lost.
  abbrev pub Rejoins : Text → List Text → Type 0
  Rejoins s ls = (join_lines ls ≡ s) ⊎ (join_lines ls ≡ s ++ d ∷ [])

  Rejoins-cons :
      (c : ℕ) (s l : Text) (ls : List Text) → Rejoins s (l ∷ ls) → Rejoins (c ∷ s) ((c ∷ l) ∷ ls)
  Rejoins-cons c s l ls (inl e) = inl (ap (◌∷◌ c) e)
  Rejoins-cons c s l ls (inr e) = inr (ap (◌∷◌ c) e)

  Rejoins-delim : (s : Text) (ls : List Text) → Rejoins s ls → Rejoins (d ∷ s) ([] ∷ ls)
  Rejoins-delim s ls (inl e) = inl (ap (◌∷◌ d) e)
  Rejoins-delim s ls (inr e) = inr (ap (◌∷◌ d) e)

  pub split_lines-Rejoins : (s : Text) → Rejoins s (split_lines d s)
  split_lines-Rejoins [] = unfold split_lines in inl refl
  split_lines-Rejoins (c ∷ []) = elim (Bool-cases (c == d)) [
    | inl e ↦ unfold split_lines in rw e (inl (ap (λ (x : ℕ). x ∷ []) (sym ((==_iff c d).0 e))))
    | inr e ↦ unfold split_lines in rw e (inr refl)
  ]
  split_lines-Rejoins (c ∷ x ∷ s) = elim (Bool-cases (c == d)) [
    | inl e ↦
        rw ((==_iff c d).0 e)
          (rw (split_lines-append [] (x ∷ s) tt) (Rejoins-delim _ _ (split_lines-Rejoins (x ∷ s))))
    | inr e ↦
        rw (split_lines_other c x s e)
          (Rejoins-cons c _ _ _ (rw (split_lines_cons x s) at (split_lines-Rejoins (x ∷ s))))
  ]

  -- Lines without the delimiter, each followed by one, are read back.
  pub split_lines-join_lines : (ls : List Text) → All FreeOf ls → split_lines d (join_lines ls) ≡ ls
  split_lines-join_lines [] h = unfold split_lines in refl
  split_lines-join_lines (l ∷ ls) h =
      rw (split_lines-append l (join_lines ls) h.0) (rw (split_lines-join_lines ls h.1))
