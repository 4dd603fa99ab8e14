-- ===== src/LineReader/Next.antt =====
-- One call of `NextLine`: how the buffer is refilled, and which bytes the line takes.
use duck_hunt.Prelude.{
  ℕ, zero, suc, ◌+◌, ◌<◌, min, max, ◌≡◌, refl, sym, Bool, true, false, Bool-cases, inl, inr, Option,
  some, List, [], ◌∷◌, ◌++◌, Text, length, take, drop, is_empty, arith, append-nil, append_assoc,
  take-append-drop, length-drop, subst,
}
use duck_hunt.Lines.{lf, split_at_delim, pop_cr}
use duck_hunt.LineReader.{
  LineReader, read_size, fill_buffer, last_line, has_lf, next_line_loop, other_sizes,
}

-- The bytes that the reader has still to hand out.
pub record Holds (r : LineReader) (s : Text) : Type 0 where
  pub content : s ≡ r.pending ++ r.file_handle.rest
  pub at_end : r.eof ≡ true → r.file_handle.rest ≡ []

split_at_delim-append_found :
    (s t : Text)
    → has_lf s ≡ true
    → ((split_at_delim lf (s ++ t)).0 ≡ (split_at_delim lf s).0)
      × ((split_at_delim lf (s ++ t)).1 ≡ (split_at_delim lf s).1 ++ t)
unfolding split_at_delim
split_at_delim-append_found [] t h = cc
split_at_delim-append_found (c ∷ s) t h = ground (arith, split_at_delim-append_found s t)

split_at_delim-append :
    (s t : Text)
    → has_lf s ≡ false
    → ((split_at_delim lf (s ++ t)).0 ≡ s ++ (split_at_delim lf t).0)
      × ((split_at_delim lf (s ++ t)).1 ≡ (split_at_delim lf t).1)
unfolding split_at_delim
split_at_delim-append [] t h = (refl, refl)
split_at_delim-append (c ∷ s) t h = ground (arith, split_at_delim-append s t)

abbrev pub reader : Text → Text → List ℕ → ℕ → Bool → LineReader
reader p rest sizes n e = record {
  file_handle = record { rest = rest; sizes = sizes };
  pending = p;
  line_number = n;
  eof = e;
}

pub read_size_pos : (sizes : List ℕ) (space : ℕ) → 0 < space → 0 < read_size sizes space
read_size_pos [] space h = h
read_size_pos (n ∷ ns) space h = omega arith

pub pos_of : (n : ℕ) → 0 < n → (m : ℕ) × (n ≡ suc m)
pos_of zero h = absurd (omega (arith, h))
pos_of (suc m) h = (m, refl)

pub take_nil : (n : ℕ) → take {A = ℕ} n [] ≡ []
take_nil zero = refl
take_nil (suc n) = refl

pub drop_nil : (n : ℕ) → drop {A = ℕ} n [] ≡ []
drop_nil zero = refl
drop_nil (suc n) = refl

pub fill_buffer-end :
    (sizes : List ℕ) (n : ℕ)
    → fill_buffer (reader [] [] sizes n false) ≡ reader [] [] (other_sizes sizes) n true
unfolding fill_buffer
fill_buffer-end [] n = refl
fill_buffer-end (z ∷ sizes) n =
    (rw (take_nil (min (max 1 z) 65536), drop_nil (min (max 1 z) 65536)))

pub fill_buffer-more :
    (c : ℕ) (s : Text) (sizes : List ℕ) (n : ℕ)
    → (m : ℕ) × (fill_buffer (reader [] (c ∷ s) sizes n false)
        ≡ reader (c ∷ take m s) (drop m s) (other_sizes sizes) n false)
unfolding fill_buffer
fill_buffer-more c s sizes n =
    let (m, e) = pos_of (read_size sizes 65536) (read_size_pos sizes 65536 (omega arith)) in
    (m, (rw e))

-- What `next_line` hands out of `line ++ s` where a line is left, and the reader after it.
pub record LineGiven (line s : Text) (n : ℕ) (result : Option (Text × LineReader)) : Type 0 where
  pub next : LineReader
  pub given : result ≡ some (pop_cr (line ++ (split_at_delim lf s).0), next)
  pub holds : Holds next (split_at_delim lf s).1
  pub numbered : next.line_number ≡ n + 1

next_line_loop-found :
    (f : ℕ) (line p rest : Text) (sizes : List ℕ) (n : ℕ) (e : Bool)
    → has_lf p ≡ true
    → (e ≡ true → rest ≡ [])
    → LineGiven line (p ++ rest) n (next_line_loop (suc f) line (reader p rest sizes n e))
unfolding next_line_loop
next_line_loop-found f line p rest sizes n e h w =
    let (first, second) = split_at_delim-append_found p rest h in
    record {
      next = reader (split_at_delim lf p).1 rest sizes (n + 1) e;
      given = (rw (h, first));
      holds = record { content = second; at_end = w };
      numbered = refl;
    }

split_at_delim_none : (s : Text) → has_lf s ≡ false → split_at_delim lf s ≡ (s, [])
unfolding split_at_delim
split_at_delim_none [] h = refl
split_at_delim_none (c ∷ s) h = ground (arith, split_at_delim_none s)

last_line-LineGiven :
    (line p : Text) (sizes : List ℕ) (n : ℕ) (e : Bool)
    → has_lf p ≡ false
    → is_empty (line ++ p) ≡ false
    → LineGiven line p n (some (last_line (line ++ p) (reader [] [] sizes n e)))
last_line-LineGiven line p sizes n e h k = record {
  next = reader [] [] sizes (n + 1) e;
  given = (rw (k, split_at_delim_none p h));
  holds = record { content = (rw (split_at_delim_none p h)); at_end = λ q. refl };
  numbered = refl;
}

next_line_loop_end :
    (f : ℕ) (line p : Text) (sizes : List ℕ) (n : ℕ)
    → has_lf p ≡ false
    → next_line_loop (suc f) line (reader p [] sizes n true)
      ≡ some (last_line (line ++ p) (reader [] [] sizes n true))
unfolding next_line_loop
next_line_loop_end f line p sizes n h = (rw h)

next_line_loop_ending :
    (f : ℕ) (line p : Text) (sizes : List ℕ) (n : ℕ)
    → has_lf p ≡ false
    → next_line_loop (suc f) line (reader p [] sizes n false)
      ≡ some (last_line (line ++ p) (reader [] [] (other_sizes sizes) n true))
unfolding next_line_loop
next_line_loop_ending f line p sizes n h = (rw (h, fill_buffer-end sizes n))

next_line_loop_refill :
    (f : ℕ) (line p s q rest : Text) (sizes sizes' : List ℕ) (n c : ℕ)
    → has_lf p ≡ false
    → fill_buffer (reader [] s sizes n false) ≡ reader (c ∷ q) rest sizes' n false
    → next_line_loop (suc f) line (reader p s sizes n false)
      ≡ next_line_loop f (line ++ p) (reader (c ∷ q) rest sizes' n false)
unfolding next_line_loop
next_line_loop_refill f line p s q rest sizes sizes' n c h e = (rw (h, e))

-- What the loop gives where `p` was gathered before.
gathered :
    (line p s : Text) (n : ℕ) (x y : Option (Text × LineReader))
    → has_lf p ≡ false
    → x ≡ y
    → LineGiven (line ++ p) s n y
    → LineGiven line (p ++ s) n x
gathered line p s n x y h e g =
    let (first, second) = split_at_delim-append p s h in
    record {
      next = g.next;
      given = (rw (e, g.given, first, append_assoc line p (split_at_delim lf s).0));
      holds = subst (λ t. Holds g.next t) (sym second) g.holds;
      numbered = g.numbered;
    }

is_empty-append_cons : (xs : Text) (c : ℕ) (ys : Text) → is_empty (xs ++ c ∷ ys) ≡ false
is_empty-append_cons [] c ys = refl
is_empty-append_cons (x ∷ xs) c ys = refl

-- What the loop gives with fuel `f`.
abbrev pub Gives : ℕ → Type 0
Gives f =
    (line p rest : Text) (sizes : List ℕ) (n : ℕ) (e : Bool)
    → length rest < f
    → (e ≡ true → rest ≡ [])
    → is_empty (line ++ (p ++ rest)) ≡ false
    → LineGiven line (p ++ rest) n (next_line_loop f line (reader p rest sizes n e))

next_line_loop-missed :
    (f : ℕ) (line p rest : Text) (sizes : List ℕ) (n : ℕ) (e : Bool)
    → Gives f
    → length rest < suc f
    → (e ≡ true → rest ≡ [])
    → is_empty (line ++ (p ++ rest)) ≡ false
    → has_lf p ≡ false
    → LineGiven line (p ++ rest) n (next_line_loop (suc f) line (reader p rest sizes n e))
next_line_loop-missed f line p [] sizes n true i k w l h =
    rw (append-nil p, next_line_loop_end f line p sizes n h)
      (last_line-LineGiven line p sizes n true h (rw (append-nil p) at l))
next_line_loop-missed f line p (c ∷ s) sizes n true i k w l h = absurd (ground (arith, w refl))
next_line_loop-missed f line p [] sizes n false i k w l h =
    rw (append-nil p, next_line_loop_ending f line p sizes n h)
      (last_line-LineGiven line p (other_sizes sizes) n true h (rw (append-nil p) at l))
next_line_loop-missed f line p (c ∷ s) sizes n false i k w l h =
    let (m, e) = fill_buffer-more c s sizes n in
    let refilled = reader (c ∷ take m s) (drop m s) (other_sizes sizes) n false in
    let more =
      i (line ++ p) (c ∷ take m s) (drop m s) (other_sizes sizes) n false
        (omega (arith, k, length-drop m s)) (λ q. absurd (ground (arith, q)))
        (is_empty-append_cons (line ++ p) c _) in
    gathered line p (c ∷ s) n _ (next_line_loop f (line ++ p) refilled) h
      (next_line_loop_refill f line p (c ∷ s) (take m s) (drop m s) sizes (other_sizes sizes) n c h
        e)
      (subst (λ t. LineGiven (line ++ p) (c ∷ t) n (next_line_loop f (line ++ p) refilled))
        (take-append-drop m s) more)

pub next_line_loop-LineGiven : (f : ℕ) → Gives f
next_line_loop-LineGiven zero line p rest sizes n e k w l = absurd (omega (arith, k))
next_line_loop-LineGiven (suc f) line p rest sizes n e k w l = elim (Bool-cases (has_lf p)) [
  | inl h ↦ next_line_loop-found f line p rest sizes n e h w
  | inr h ↦ next_line_loop-missed f line p rest sizes n e (next_line_loop-LineGiven f) k w l h
]
