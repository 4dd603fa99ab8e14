-- ===== src/Registry/Sort.antt =====
-- `std::stable_sort` by descending priority, as `ParserRegistry` uses it (a stable sort has one
-- result), and the first element of the sorted list that passes a test.
use duck_hunt.Prelude.{
  ◌≡◌, refl, ap, sym, subst, ◌∙◌, ◌≢◌, ◌⊎◌, All-append, ltb→lt, ltb-false→le, Bool, true, false,
  Bool-cases, Option, none, some, List, [], ◌∷◌, ◌++◌, All, inl, inr, find_if, arith, if◌then◌else◌,
  Option-cases,
}
use mathlib.Core.List.{Perm}
use mathlib.Core.List.Perm
use duck_hunt.Prelude.Int.{ℤ, ltb_ℤ, ◌≤ℤ◌, ◌<ℤ◌}

module _ {ℓ} {A : Type ℓ} (key : A → ℤ) where
  -- `x` stood before all of the list, so it goes before its equals.
  unfoldable pub insert : A → List A → List A
  insert x [] = x ∷ []
  insert x (y ∷ ys) = if ltb_ℤ (key x) (key y) then y ∷ insert x ys else x ∷ y ∷ ys

  unfoldable pub stable_sort : List A → List A
  unfolding insert
  stable_sort [] = []
  stable_sort (x ∷ xs) = insert x (stable_sort xs)

  abbrev pub IsDescending : List A → Type 0
  IsDescending [] = Unit
  IsDescending (x ∷ xs) = All (λ y. key y ≤ℤ key x) xs × IsDescending xs

  All-insert {κ} : (P : A → Type κ) (x : A) (l : List A) → P x → All P l → All P (insert x l)
  unfolding insert
  All-insert P x [] px h = (px, tt)
  All-insert P x (y ∷ ys) px h = elim (Bool-cases (ltb_ℤ (key x) (key y))) [
    | inl e ↦ rw e (h.0, All-insert P x ys px h.1)
    | inr e ↦ rw e (px, h)
  ]

  pub All-stable_sort {κ} : (P : A → Type κ) (l : List A) → All P l → All P (stable_sort l)
  unfolding stable_sort
  All-stable_sort P [] h = tt
  All-stable_sort P (x ∷ l) h = All-insert P x (stable_sort l) h.0 (All-stable_sort P l h.1)

  insert-Perm : (x : A) (l : List A) → Perm (insert x l) (x ∷ l)
  unfolding insert
  insert-Perm x [] = Perm.refl (x ∷ [])
  insert-Perm x (y ∷ ys) = elim (Bool-cases (ltb_ℤ (key x) (key y))) [
    | inl e ↦ rw e (Perm.trans (Perm.cons y (insert-Perm x ys)) (Perm.swap x y ys))
    | inr e ↦ rw e (Perm.refl (x ∷ y ∷ ys))
  ]

  pub stable_sort-Perm : (l : List A) → Perm (stable_sort l) l
  unfolding stable_sort
  stable_sort-Perm [] = Perm.refl []
  stable_sort-Perm (x ∷ l) =
      Perm.trans (insert-Perm x (stable_sort l)) (Perm.cons x (stable_sort-Perm l))

  All-le_trans :
      (a b : A) (l : List A)
      → key a ≤ℤ key b
      → All (λ y. key y ≤ℤ key a) l
      → All (λ y. key y ≤ℤ key b) l
  All-le_trans a b [] h t = tt
  All-le_trans a b (y ∷ l) h t = (omega (arith, t.0), All-le_trans a b l h t.1)

  insert-IsDescending : (x : A) (l : List A) → IsDescending l → IsDescending (insert x l)
  unfolding insert
  insert-IsDescending x [] h = (tt, tt)
  insert-IsDescending x (y ∷ ys) h = elim (Bool-cases (ltb_ℤ (key x) (key y))) [
    | inl e ↦
        rw e
          (All-insert (λ z. key z ≤ℤ key y) x ys (ground arith) h.0, insert-IsDescending x ys h.1)
    | inr e ↦ rw e ((ground arith, All-le_trans y x ys (ground arith) h.0), h)
  ]

  pub stable_sort-IsDescending : (l : List A) → IsDescending (stable_sort l)
  unfolding stable_sort
  stable_sort-IsDescending [] = tt
  stable_sort-IsDescending (x ∷ l) =
      insert-IsDescending x (stable_sort l) (stable_sort-IsDescending l)

module _ {ℓ} {A : Type ℓ} (key : A → ℤ) (p : A → Bool) where
  -- The choice between an earlier element and what the rest of the list offers.
  abbrev pub prefer : A → Option A → Option A
  prefer x none = some x
  prefer x (some y) = if ltb_ℤ (key x) (key y) then some y else some x

  -- The first of the elements that pass and have the greatest key.
  abbrev pub first_max : List A → Option A
  first_max [] = none
  first_max (x ∷ xs) = if p x then prefer x (first_max xs) else first_max xs

  find_if-All {κ} : (P : A → Type κ) (l : List A) (z : A) → All P l → find_if p l ≡ some z → P z
  find_if-All P [] z h e = cc
  find_if-All P (x ∷ l) z h e = elim (Bool-cases (p x)) [
    | inl t ↦ let q : some x ≡ some z = (rw t at e) in subst P (cc) h.0
    | inr t ↦ find_if-All P l z h.1 (rw t at e)
  ]

  prefer-eq-some :
      (x : A) (o : Option A) → ((z : A) → o ≡ some z → key z ≤ℤ key x) → prefer x o ≡ some x
  prefer-eq-some x none h = refl
  prefer-eq-some x (some z) h = ground (arith, h z refl)

  find_if-insert :
      (x : A) (l : List A)
      → IsDescending key l
      → find_if p (insert key x l) ≡ (if p x then prefer x (find_if p l) else find_if p l)
  unfolding insert
  find_if-insert x [] h = ground arith
  find_if-insert x (y ∷ ys) h = elim (Bool-cases (ltb_ℤ (key x) (key y))) [
    | inl e ↦ rw e (ground (arith, find_if-insert x ys h.1))
    | inr e ↦ rw e (
        ap (λ (o : Option A). if p x then o else find_if p (y ∷ ys))
          (sym (
            prefer-eq-some x (find_if p (y ∷ ys)) (λ z t.
              find_if-All (λ w. key w ≤ℤ key x) (y ∷ ys) z
                (ground arith, All-le_trans key y x ys (ground arith) h.0) t))))
  ]

  -- The first element of the sorted list that passes is the first of the greatest that pass.
  pub find_if-stable_sort : (l : List A) → find_if p (stable_sort key l) ≡ first_max l
  unfolding stable_sort
  find_if-stable_sort [] = refl
  find_if-stable_sort (x ∷ l) =
      find_if-insert x (stable_sort key l) (stable_sort-IsDescending key l)
      ∙ rw (find_if-stable_sort l)

  -- `x` stands in the list and passes; what passes before it has a lower key, what passes behind
  -- it no higher one.
  pub record IsFirstMax (l : List A) (x : A) : Type ℓ where
    pub before : List A
    pub after : List A
    pub splits : l ≡ before ++ x ∷ after
    pub passes : p x ≡ true
    pub above_before : All (λ y. p y ≡ true → key y <ℤ key x) before
    pub above_after : All (λ y. p y ≡ true → key y ≤ℤ key x) after

  -- An element before the list, beaten by the list's choice.
  IsFirstMax-later :
      (x : A) (l : List A) (z : A)
      → (p x ≡ true → key x <ℤ key z)
      → IsFirstMax l z
      → IsFirstMax (x ∷ l) z
  IsFirstMax-later x l z h m = record {
    before = x ∷ m.before;
    after = m.after;
    splits = ap (◌∷◌ x) m.splits;
    passes = m.passes;
    above_before = (h, m.above_before);
    above_after = m.above_after;
  }

  prefer-ne-none : (x : A) (o : Option A) → prefer x o ≢ none
  prefer-ne-none x none = λ e. cc
  prefer-ne-none x (some y) = λ e. ground arith

  pub first_max-none : (l : List A) → first_max l ≡ none → All (λ y. p y ≡ false) l
  first_max-none [] e = tt
  first_max-none (x ∷ l) e = elim (Bool-cases (p x)) [
    | inl t ↦ absurd (prefer-ne-none x (first_max l) (rw t at e))
    | inr t ↦ (t, first_max-none l (rw t at e))
  ]

  All-weaken :
      (x z : A) (l : List A)
      → key z ≤ℤ key x
      → All (λ y. p y ≡ true → key y ≤ℤ key z) l
      → All (λ y. p y ≡ true → key y ≤ℤ key x) l
  All-weaken x z [] h a = tt
  All-weaken x z (y ∷ l) h a =
      ((λ t. let k : key y ≤ℤ key z = a.0 t in omega arith), All-weaken x z l h a.1)

  All-le_of_lt :
      (z : A) (l : List A)
      → All (λ y. p y ≡ true → key y <ℤ key z) l
      → All (λ y. p y ≡ true → key y ≤ℤ key z) l
  All-le_of_lt z [] a = tt
  All-le_of_lt z (y ∷ l) a =
      ((λ t. let k : key y <ℤ key z = a.0 t in omega arith), All-le_of_lt z l a.1)

  All-below_choice :
      (x : A) (l : List A) (z : A)
      → key z ≤ℤ key x
      → IsFirstMax l z
      → All (λ y. p y ≡ true → key y ≤ℤ key x) l
  All-below_choice x l z h m = rw (m.splits) (
      All-append (λ y. p y ≡ true → key y ≤ℤ key x) m.before (z ∷ m.after)
        (All-weaken x z m.before h (All-le_of_lt z m.before m.above_before))
        ((λ _. h), All-weaken x z m.after h m.above_after))

  All-none :
      (x : A) (l : List A) → All (λ y. p y ≡ false) l → All (λ y. p y ≡ true → key y ≤ℤ key x) l
  All-none x [] a = tt
  All-none x (y ∷ l) a = ((λ t. let n : p y ≡ false = a.0 in cc), All-none x l a.1)

  IsFirstMax-head :
      (x : A) (l : List A)
      → p x ≡ true
      → All (λ y. p y ≡ true → key y ≤ℤ key x) l
      → IsFirstMax (x ∷ l) x
  IsFirstMax-head x l t a = record {
    before = [];
    after = l;
    splits = refl;
    passes = t;
    above_before = tt;
    above_after = a;
  }

  prefer-some :
      (x y z : A)
      → prefer x (some y) ≡ some z
      → ((y ≡ z) × (key x <ℤ key y)) ⊎ ((x ≡ z) × (key y ≤ℤ key x))
  prefer-some x y z e = elim (Bool-cases (ltb_ℤ (key x) (key y))) [
    | inl t ↦ let q : some y ≡ some z = (rw t at e) in inl ((cc), ltb→lt _ _ t)
    | inr t ↦ let q : some x ≡ some z = (rw t at e) in inr ((cc), ltb-false→le _ _ t)
  ]

  pub first_max-IsFirstMax : (l : List A) (z : A) → first_max l ≡ some z → IsFirstMax l z
  first_max-IsFirstMax [] z e = cc
  first_max-IsFirstMax (x ∷ l) z e = elim (Bool-cases (p x)) [
    | inr t ↦ IsFirstMax-later x l z (λ u. cc) (first_max-IsFirstMax l z (rw t at e))
    | inl t ↦ elim (Option-cases (first_max l)) [
      | inl n ↦
          let q : some x ≡ some z = (rw (t, n) at e) in
          subst (IsFirstMax (x ∷ l)) (cc)
            (IsFirstMax-head x l t (All-none x l (first_max-none l n)))
      | inr (y, m) ↦ elim (prefer-some x y z (rw (t, m) at e)) [
        | inl (q, lt) ↦
            subst (IsFirstMax (x ∷ l)) q
              (IsFirstMax-later x l y (λ _. lt) (first_max-IsFirstMax l y m))
        | inr (q, le) ↦
            subst (IsFirstMax (x ∷ l)) q
              (IsFirstMax-head x l t (All-below_choice x l y le (first_max-IsFirstMax l y m)))
      ]
    ]
  ]
