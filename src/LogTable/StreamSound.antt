-- ===== src/LogTable/StreamSound.antt =====
-- Files that are parsed line by line: the chunks hold the events of the lines.
use duck_hunt.Prelude.{
  ℕ, zero, suc, ◌+◌, ◌<◌, ◌≤◌, leb, ◌≡◌, refl, sym, ap, ◌∙◌, Bool, Bool-cases, inl, inr, ◌⊎◌, true,
  false, some, [], ◌∷◌, ◌++◌, map, Text, length, append_assoc, length-append, arith,
}
use duck_hunt.Prelude.Int.{ℤ}
use duck_hunt.Event.{ValidationEvent}
use duck_hunt.Parser.{Parser, ok}
use duck_hunt.Lines.{lf, split_at_delim, split_lines, pop_cr}
use duck_hunt.Lines.Split.{split_lines_cons, length-split_at_delim}
use duck_hunt.LineReader.{LineReader}
use duck_hunt.LineReader.Next.{Holds}
use duck_hunt.LineReader.Lines.{has_next-Holds, next_line-Holds}
use duck_hunt.Dispatch.{Events}
use duck_hunt.LogTable.Batch.{standard_vector_size}
use duck_hunt.LogTable.Stream.{Chunk, add_events, stream_chunk, if_next, line_fuel}
use duck_hunt.LogTable.Streamed.{
  OnePerLine, marked, streamed, streamed_line, length-marked, reading, lines, chunk_full,
  chunk_next, chunk_some,
}

module _ (pass : ValidationEvent → Bool) (path : Text) (p : Parser) where
  -- A chunk begun with the events `acc` where the reader holds the text `s`.
  pub record Chunked (acc : Events) (s : Text) (n : ℕ) (id : ℤ) (c : Chunk) : Type 0 where
    pub chunk : Events
    pub reader : LineReader
    pub next_id : ℤ
    pub left : Text
    pub comes : c ≡ some (ok (chunk, reading pass path p reader next_id))
    pub holds : Holds reader left
    pub splits :
        acc ++ streamed pass path p (lines pass path p s) n id
        ≡ chunk ++ streamed pass path p (lines pass path p left) reader.line_number next_id
    pub full_or_end : (leb standard_vector_size (length chunk) ≡ true) ⊎ (left ≡ [])
    pub small : length chunk ≤ standard_vector_size
    pub consumed : length chunk + length left ≤ length acc + length s

  Chunked-full :
      (f : ℕ) (acc : Events) (r : LineReader) (s : Text) (id : ℤ)
      → Holds r s
      → length acc ≤ standard_vector_size
      → leb standard_vector_size (length acc) ≡ true
      → Chunked acc s r.line_number id
          (stream_chunk pass path (suc f) acc (reading pass path p r id))
  Chunked-full f acc r s id h m full = record {
    chunk = acc;
    reader = r;
    next_id = id;
    left = s;
    comes = chunk_full pass path p f acc (reading pass path p r id) full;
    holds = h;
    splits = refl;
    full_or_end = inl full;
    small = m;
    consumed = omega arith;
  }

  Chunked-end :
      (f : ℕ) (acc : Events) (r : LineReader) (id : ℤ)
      → Holds r []
      → length acc ≤ standard_vector_size
      → leb standard_vector_size (length acc) ≡ false
      → Chunked acc [] r.line_number id
          (stream_chunk pass path (suc f) acc (reading pass path p r id))
  Chunked-end f acc r id h m space =
      let asked = has_next-Holds r [] h in
      record {
        chunk = acc;
        reader = asked.next;
        next_id = id;
        left = [];
        comes =
            chunk_next pass path p f acc (reading pass path p r id) space
            ∙ ap
                (if_next (stream_chunk pass path f) (add_events pass path acc) acc
                  (reading pass path p r id))
                asked.given;
        holds = asked.holds;
        splits = unfold streamed split_lines in refl;
        full_or_end = inr refl;
        small = m;
        consumed = omega arith;
      }

  -- The events of the lines where the first one is parsed to `es`.
  streamed_first :
      (c : ℕ) (t : Text) (acc es : Events) (n m : ℕ) (id id' : ℤ)
      → m ≡ n + 1
      → p.parse_line (pop_cr (split_at_delim lf (c ∷ t)).0) m id ≡ ok (es, id')
      → acc ++ streamed pass path p (lines pass path p (c ∷ t)) n id
        ≡ (acc ++ marked pass path p es)
          ++ streamed pass path p (lines pass path p (split_at_delim lf (c ∷ t)).1) m id'
  streamed_first c t acc es n m id id' number parsed =
      let first = pop_cr (split_at_delim lf (c ∷ t)).0 in
      let rest = lines pass path p (split_at_delim lf (c ∷ t)).1 in
      ap (λ ls. acc ++ streamed pass path p (map pop_cr ls) n id) (split_lines_cons lf c t)
      ∙ ap (λ es. acc ++ es)
          (streamed_line pass path p first rest n id id' es
            (ap (λ k. p.parse_line first k id) (sym number) ∙ parsed))
      ∙ sym (append_assoc acc (marked pass path p es) (streamed pass path p rest (n + 1) id'))
      ∙ ap (λ k. (acc ++ marked pass path p es) ++ streamed pass path p rest k id') (sym number)

  Chunked-line :
      (f : ℕ) (acc : Events) (r : LineReader) (c : ℕ) (t : Text) (id : ℤ)
      → OnePerLine p
      → Holds r (c ∷ t)
      → length (c ∷ t) < suc f
      → leb standard_vector_size (length acc) ≡ false
      → ((acc' : Events) (r' : LineReader) (s' : Text) (id' : ℤ)
          → Holds r' s'
          → length s' < f
          → length acc' ≤ standard_vector_size
          → Chunked acc' s' r'.line_number id'
              (stream_chunk pass path f acc' (reading pass path p r' id')))
      → Chunked acc
          (c ∷ t)
          r.line_number
          id
          (stream_chunk pass path (suc f) acc (reading pass path p r id))
  Chunked-line f acc r c t id one h k space again =
      let asked = has_next-Holds r (c ∷ t) h in
      let line =
        next_line-Holds (line_fuel asked.next) asked.next (c ∷ t) asked.holds
          (omega (arith, ap length asked.holds.content)) refl in
      let first = pop_cr (split_at_delim lf (c ∷ t)).0 in
      let shorter = length-split_at_delim lf c t in
      let (es, id', parsed, few) = one first line.next.line_number id in
      let number : line.next.line_number ≡ r.line_number + 1 =
        omega (arith, line.numbered, asked.numbered) in
      let added = length-append acc (marked pass path p es) in
      let fewer = length-marked pass path p es in
      let free : length acc < standard_vector_size = ground (arith, space) in
      let rest =
        again (acc ++ marked pass path p es) line.next (split_at_delim lf (c ∷ t)).1 id' line.holds
          (omega (arith, k, shorter)) (omega (arith, added, fewer, few, free)) in
      record {
        chunk = rest.chunk;
        reader = rest.reader;
        next_id = rest.next_id;
        left = rest.left;
        comes =
            chunk_some pass path p f acc es r asked.next line.next id id' first space asked.given
              line.given parsed few
            ∙ rest.comes;
        holds = rest.holds;
        splits =
            streamed_first c t acc es r.line_number line.next.line_number id id' number parsed
            ∙ rest.splits;
        full_or_end = rest.full_or_end;
        small = rest.small;
        consumed = omega (arith, rest.consumed, added, fewer, few, shorter);
      }

  -- For a parser that parses every line without an exception, to one event at most, with fuel for each
  -- byte that is left and a chunk begun with at most 2048 events, the loop that fills the chunk ends.
  -- The chunk has then at most 2048 events, it is full or the file at its end, and with the events of
  -- the lines that are left it makes up the events that there were to read.
  pub stream_chunk-Chunked :
      (f : ℕ) (acc : Events) (r : LineReader) (s : Text) (id : ℤ)
      → OnePerLine p
      → Holds r s
      → length s < f
      → length acc ≤ standard_vector_size
      → Chunked acc s r.line_number id (stream_chunk pass path f acc (reading pass path p r id))
  stream_chunk-Chunked zero acc r s id one h k m = absurd (omega (arith, k))
  stream_chunk-Chunked (suc f) acc r [] id one h k m =
      elim (Bool-cases (leb standard_vector_size (length acc))) [
        | inl full ↦ Chunked-full f acc r [] id h m full
        | inr space ↦ Chunked-end f acc r id h m space
      ]
  stream_chunk-Chunked (suc f) acc r (c ∷ t) id one h k m =
      elim (Bool-cases (leb standard_vector_size (length acc))) [
        | inl full ↦ Chunked-full f acc r (c ∷ t) id h m full
        | inr space ↦
            Chunked-line f acc r c t id one h k space
              (λ acc' r' s' id'. stream_chunk-Chunked f acc' r' s' id' one)
      ]
