-- ===== src/LineReader/Lines.antt =====
-- The reader hands out the lines of the file, however the file system cuts the file into reads.
use duck_hunt.Prelude.{
  ℕ, zero, suc, ◌+◌, ◌<◌, ◌≡◌, refl, sym, ap, Bool, true, false, not, Option, some, List, [], ◌∷◌,
  ◌++◌, Text, map, length, take, drop, is_empty, arith, take-append-drop, length-append, subst,
}
use duck_hunt.Lines.{lf, split_at_delim, split_lines, pop_cr}
use duck_hunt.Lines.Split.{split_lines_cons, length-split_at_delim}
use duck_hunt.LineReader.{
  FileHandle, LineReader, line_reader, has_next, next_line, read_lines, other_sizes,
}
use duck_hunt.LineReader.Next.{
  Holds, LineGiven, reader, fill_buffer-end, fill_buffer-more, next_line_loop-LineGiven,
}

-- The reader before it looks whether there is a next line, and after it.
pub record HasNext (s : Text) (n : ℕ) (result : Bool × LineReader) : Type 0 where
  pub next : LineReader
  pub given : result ≡ (not (is_empty s), next)
  pub holds : Holds next s
  pub numbered : next.line_number ≡ n

has_next-HasNext :
    (p rest : Text) (sizes : List ℕ) (n : ℕ) (e : Bool)
    → (e ≡ true → rest ≡ [])
    → HasNext (p ++ rest) n (has_next (reader p rest sizes n e))
unfolding has_next
has_next-HasNext (c ∷ p) rest sizes n e w = record {
  next = reader (c ∷ p) rest sizes n e;
  given = refl;
  holds = record { content = refl; at_end = w };
  numbered = refl;
}
has_next-HasNext [] [] sizes n true w = record {
  next = reader [] [] sizes n true;
  given = refl;
  holds = record { content = refl; at_end = w };
  numbered = refl;
}
has_next-HasNext [] (c ∷ s) sizes n true w = absurd (ground (arith, w refl))
has_next-HasNext [] [] sizes n false w = record {
  next = reader [] [] (other_sizes sizes) n true;
  given = (rw (fill_buffer-end sizes n));
  holds = record { content = refl; at_end = λ q. refl };
  numbered = refl;
}
has_next-HasNext [] (c ∷ s) sizes n false w =
    let (m, e) = fill_buffer-more c s sizes n in
    record {
      next = reader (c ∷ take m s) (drop m s) (other_sizes sizes) n false;
      given = (rw e);
      holds = record {
        content = ap (λ t. c ∷ t) (sym (take-append-drop m s));
        at_end = λ q. absurd (ground (arith, q));
      };
      numbered = refl;
    }

-- What the loop over the lines reads.
record LinesRead (s : Text) (n : ℕ) (result : Option (List Text × LineReader)) : Type 0 where
  last : LineReader
  given : result ≡ some (map pop_cr (split_lines lf s), last)
  numbered : last.line_number ≡ length (split_lines lf s) + n

pub has_next-Holds : (r : LineReader) (s : Text) → Holds r s → HasNext s r.line_number (has_next r)
has_next-Holds r s h =
    subst (λ t. HasNext t r.line_number (has_next r)) (sym h.content)
      (has_next-HasNext r.pending r.file_handle.rest r.file_handle.sizes r.line_number r.eof
        h.at_end)

pub next_line-Holds :
    (g : ℕ) (r : LineReader) (s : Text)
    → Holds r s
    → length s < g
    → is_empty s ≡ false
    → LineGiven [] s r.line_number (next_line g r)
next_line-Holds g r s h k l =
    subst (λ t. LineGiven [] t r.line_number (next_line g r)) (sym h.content)
      (next_line_loop-LineGiven g [] r.pending r.file_handle.rest r.file_handle.sizes r.line_number
        r.eof (omega (arith, k, length-append r.pending r.file_handle.rest, ap length h.content))
        h.at_end (rw h.content at l))

read_lines_done :
    (g f : ℕ) (r r' : LineReader)
    → has_next r ≡ (false, r')
    → read_lines g (suc f) r ≡ some ([], r')
unfolding read_lines
read_lines_done g f r r' h = (rw h)

read_lines_more :
    (g f : ℕ) (r r' r'' last : LineReader) (l : Text) (ls : List Text)
    → has_next r ≡ (true, r')
    → next_line g r' ≡ some (l, r'')
    → read_lines g f r'' ≡ some (ls, last)
    → read_lines g (suc f) r ≡ some (l ∷ ls, last)
unfolding read_lines
read_lines_more g f r r' r'' last l ls h k m = (rw (h, k, m))

read_lines-LinesRead :
    (g f : ℕ) (r : LineReader) (s : Text)
    → Holds r s
    → length s < g
    → length s < f
    → LinesRead s r.line_number (read_lines g f r)
unfolding split_lines
read_lines-LinesRead g zero r s h k l = absurd (omega (arith, l))
read_lines-LinesRead g (suc f) r [] h k l =
    let asked = has_next-Holds r [] h in
    record {
      last = asked.next;
      given = read_lines_done g f r asked.next asked.given;
      numbered = omega (arith, asked.numbered);
    }
read_lines-LinesRead g (suc f) r (c ∷ s) h k l =
    let asked = has_next-Holds r (c ∷ s) h in
    let line = next_line-Holds g asked.next (c ∷ s) asked.holds k refl in
    let shorter = length-split_at_delim lf c s in
    let more =
      read_lines-LinesRead g f line.next (split_at_delim lf (c ∷ s)).1 line.holds
        (omega (arith, k, shorter)) (omega (arith, l, shorter)) in
    record {
      last = more.last;
      given = rw (split_lines_cons lf c s) (
          read_lines_more g f r asked.next line.next more.last _ _ asked.given line.given
            more.given);
      numbered =
          rw (split_lines_cons lf c s)
            (omega (arith, more.numbered, line.numbered, asked.numbered));
    }

-- With fuel for each byte of the file, the loop over `HasNext` and `NextLine` reads the pieces of
-- the content between line feeds, each without one carriage return at its end, whatever sizes the
-- reads of the file system have, and the reader's line number is the number of these lines.
pub read_lines-line_reader :
    (h : FileHandle)
    → (last : LineReader) × ((read_lines (suc (length h.rest)) (suc (length h.rest)) (line_reader h)
          ≡ some (map pop_cr (split_lines lf h.rest), last))
        × (last.line_number ≡ length (split_lines lf h.rest)))
read_lines-line_reader h =
    let holds : Holds (line_reader h) h.rest = record {
      content = refl;
      at_end = λ q. absurd (ground (arith, q));
    } in
    let result =
      read_lines-LinesRead (suc (length h.rest)) (suc (length h.rest)) (line_reader h) h.rest holds
        (omega arith) (omega arith) in
    (result.last, (result.given, omega (arith, result.numbered)))
