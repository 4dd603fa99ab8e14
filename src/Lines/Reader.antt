-- ===== src/Lines/Reader.antt =====
-- `SafeLineReader` reads every line of the normalised text once, in order, cut to its limit.
use duck_hunt.Prelude.{
  ℕ, zero, suc, ◌+◌, ◌-◌, ◌^◌, ◌≤◌, ◌<◌, ◌≡◌, refl, ap, ◌∙◌, ltb, if◌then◌else◌, ap₂, false, List,
  [], ◌∷◌, ◌++◌, All, map, Text, length, take, codes, arith, length-append, length-take,
}
use duck_hunt.Lines.{
  lf, cr, split_at_delim, split_lines, clip, pop_cr, size_sub, read_all, SafeLineReader,
  safe_line_reader, normalize_line_endings,
}
use duck_hunt.Lines.Split.{FreeOf, split_lines_cons, length-split_at_delim}
use duck_hunt.Lines.Endings.{normalize_line_endings-FreeOf, length-normalize_line_endings}

pop_cr-FreeOf : (l : Text) → FreeOf cr l → pop_cr l ≡ l
unfolding pop_cr
pop_cr-FreeOf [] h = refl
pop_cr-FreeOf (c ∷ []) h = ground arith
pop_cr-FreeOf (c ∷ d ∷ s) h = ap (◌∷◌ c) (pop_cr-FreeOf (d ∷ s) h.1)

split_at_delim-FreeOf :
    (b d : ℕ) (s : Text)
    → FreeOf b s
    → FreeOf b (split_at_delim d s).0 × FreeOf b (split_at_delim d s).1
unfolding split_at_delim
split_at_delim-FreeOf b d [] h = (tt, tt)
split_at_delim-FreeOf b d (c ∷ s) h = ground (arith, split_at_delim-FreeOf b d s h.1)

abbrev with_stream : SafeLineReader → Text → SafeLineReader
with_stream r s = record r { stream = s }

-- The state behind one line.
abbrev past : SafeLineReader → Text → SafeLineReader
past r s = record r {
  stream = (split_at_delim lf s).1;
  line_number = r.line_number + 1;
  was_truncated = ltb r.max_length (length (pop_cr (split_at_delim lf s).0));
}

abbrev first : SafeLineReader → Text → Text
first r s = clip r.max_length (pop_cr (split_at_delim lf s).0)

read_all_step :
    (f : ℕ) (r : SafeLineReader) (c : ℕ) (s : Text)
    → read_all (suc f) (with_stream r (c ∷ s))
      ≡ (first r (c ∷ s) ∷ (read_all f (past r (c ∷ s))).0, (read_all f (past r (c ∷ s))).1)
unfolding read_all
read_all_step f r c s = refl

pub read_all-split_lines :
    (f : ℕ) (r : SafeLineReader) (s : Text)
    → length s ≤ f
    → FreeOf cr s
    → ((read_all f (with_stream r s)).0 ≡ map (clip r.max_length) (split_lines lf s))
      × ((read_all f (with_stream r s)).1.line_number ≡ r.line_number + length (split_lines lf s))
read_all-split_lines zero r [] h n = unfold read_all split_lines in ground arith
read_all-split_lines (suc f) r [] h n = unfold read_all split_lines in ground arith
read_all-split_lines zero r (c ∷ s) h n = absurd (omega arith)
read_all-split_lines (suc f) r (c ∷ s) h n =
    let free = split_at_delim-FreeOf cr lf (c ∷ s) n in
    let rest = (split_at_delim lf (c ∷ s)).1 in
    let (lines, count) =
      read_all-split_lines f (past r (c ∷ s)) rest (omega (arith, length-split_at_delim lf c s))
        free.1 in
    rw (read_all_step f r c s) (
      rw (split_lines_cons lf c s) (
        ap₂ (λ (l : Text) (ls : List Text). clip r.max_length l ∷ ls) (pop_cr-FreeOf _ free.0)
            lines,
        omega (arith, count),
      ))

-- Reading to the end gives each line of the normalised content as `clip` cuts it, and counts them.
read_all-clip :
    (f m : ℕ) (content : Text)
    → length content ≤ f
    → ((read_all f (safe_line_reader content m)).0
        ≡ map (clip m) (split_lines lf (normalize_line_endings content)))
      × ((read_all f (safe_line_reader content m)).1.line_number
          ≡ length (split_lines lf (normalize_line_endings content)))
unfolding safe_line_reader
read_all-clip f m content h =
    let (lines, count) =
      read_all-split_lines f
        (record { stream = []; max_length = m; line_number = 0; was_truncated = false })
        (normalize_line_endings content) (omega (arith, length-normalize_line_endings content))
        (normalize_line_endings-FreeOf content) in
    (lines, omega (arith, count))

-- A line that is longer than the limit is cut three bytes short of it, and three dots follow.
abbrev pub shortened : ℕ → Text → Text
shortened m l = if ltb m (length l) then take (m - 3) l ++ codes "..." else l

-- A cut line keeps all but the last three places of the limit, and ends in three dots.
clip-take : (m : ℕ) (l : Text) → 3 ≤ m → m < 2 ^ 64 → clip m l ≡ shortened m l
unfolding clip
clip-take m l lo hi = let e : size_sub m 3 ≡ m - 3 = omega arith in rw e

length-clip : (m : ℕ) (l : Text) → 3 ≤ m → m < 2 ^ 64 → length (clip m l) ≤ m
length-clip m l lo hi =
    rw (clip-take m l lo hi)
      (ground (arith, length-append (take (m - 3) l) (codes "..."), length-take (m - 3) l))

All-length-clip :
    (m : ℕ) (ls : List Text) → 3 ≤ m → m < 2 ^ 64 → All (λ l. length l ≤ m) (map (clip m) ls)
All-length-clip m [] lo hi = tt
All-length-clip m (l ∷ ls) lo hi = (length-clip m l lo hi, All-length-clip m ls lo hi)

map-clip : (m : ℕ) (ls : List Text) → 3 ≤ m → m < 2 ^ 64 → map (clip m) ls ≡ map (shortened m) ls
map-clip m [] lo hi = refl
map-clip m (l ∷ ls) lo hi = ap₂ (◌∷◌) (clip-take m l lo hi) (map-clip m ls lo hi)

-- For a limit of three or more that a `size_t` holds, reading to the end gives the lines of the
-- normalised content in order: whole where they fit the limit, and otherwise all of the limit but
-- three bytes, followed by three dots. None is longer than the limit, and the reader's line number is
-- the number of the lines. A read for each byte of the content is enough.
pub read_all-safe_line_reader :
    (f m : ℕ) (content : Text)
    → length content ≤ f
    → 3 ≤ m
    → m < 2 ^ 64
    → ((read_all f (safe_line_reader content m)).0
        ≡ map (shortened m) (split_lines lf (normalize_line_endings content)))
      × All (λ l. length l ≤ m) (read_all f (safe_line_reader content m)).0
      × ((read_all f (safe_line_reader content m)).1.line_number
          ≡ length (split_lines lf (normalize_line_endings content)))
read_all-safe_line_reader f m content h lo hi =
    let (lines, count) = read_all-clip f m content h in
    (
      lines ∙ map-clip m (split_lines lf (normalize_line_endings content)) lo hi,
      rw lines (All-length-clip m (split_lines lf (normalize_line_endings content)) lo hi),
      count,
    )
