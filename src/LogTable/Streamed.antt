-- ===== src/LogTable/Streamed.antt =====
-- Files that are parsed line by line: the events of the lines by one pass, and the steps of the loop
-- that fills a chunk.
use duck_hunt.Prelude.{
  ℕ, suc, ◌+◌, ◌≤◌, leb, ◌≡◌, refl, sym, ap, ◌∙◌, Bool, Bool-cases, inl, inr, true, false, some,
  List, [], ◌∷◌, ◌++◌, map, Text, length, keep_if, append-nil, arith,
}
use duck_hunt.Prelude.Int.{ℤ}
use duck_hunt.Event.{ValidationEvent}
use duck_hunt.Parser.{Parser, Outcome, ok, io_exception, exception}
use duck_hunt.Lines.{lf, split_lines, pop_cr}
use duck_hunt.LineReader.{LineReader, has_next, next_line}
use duck_hunt.Dispatch.{Events}
use duck_hunt.LogTable.Batch.{standard_vector_size}
use duck_hunt.LogTable.Stream.{
  Streaming, or_file, add_events, stream_chunk, if_next, with_line, after_line, line_fuel,
}

-- Every line is parsed, to at most one event.
abbrev pub OnePerLine : Parser → Type 0
OnePerLine p =
    (line : Text) (n : ℕ) (id : ℤ)
    → (es : Events) × (id' : ℤ) × (p.parse_line line n id ≡ ok (es, id')) × length es ≤ 1

abbrev parsed_or_none : ℤ → Outcome (Events × ℤ) → Events × ℤ
parsed_or_none id (ok p) = p
parsed_or_none id (io_exception e) = ([], id)
parsed_or_none id (exception e) = ([], id)

module _ (pass : ValidationEvent → Bool) (path : Text) (p : Parser) where
  abbrev pub marked : Events → Events
  marked es = map (or_file path) (keep_if pass es)

  -- The events of the lines behind a line number, by one pass over all lines.
  unfoldable pub streamed : List Text → ℕ → ℤ → Events
  streamed [] n id = []
  streamed (l ∷ ls) n id =
      let (es, id') = parsed_or_none id (p.parse_line l (n + 1) id) in
      marked es ++ streamed ls (n + 1) id'

  pub streamed_line :
      (l : Text) (ls : List Text) (n : ℕ) (id id' : ℤ) (es : Events)
      → p.parse_line l (n + 1) id ≡ ok (es, id')
      → streamed (l ∷ ls) n id ≡ marked es ++ streamed ls (n + 1) id'
  unfolding streamed
  streamed_line l ls n id id' es h =
      ap (λ o. marked (parsed_or_none id o).0 ++ streamed ls (n + 1) (parsed_or_none id o).1) h

  add_events_one :
      (acc es : Events) → length es ≤ 1 → add_events pass path acc es ≡ acc ++ marked es
  unfolding add_events
  add_events_one acc [] h = sym (append-nil acc)
  add_events_one acc (e ∷ []) h = elim (Bool-cases (pass e)) [
    | inr n ↦ rw n (sym (append-nil acc))
    | inl y ↦ elim (Bool-cases (leb standard_vector_size (length (acc ++ (or_file path e ∷ []))))) [
      | inl t ↦ rw (y, t) refl
      | inr t ↦ rw (y, t) refl
    ]
  ]
  add_events_one acc (e ∷ d ∷ es) h = absurd (omega (arith, h))

  pub length-marked : (es : Events) → length (marked es) ≤ length es
  length-marked [] = omega arith
  length-marked (e ∷ es) = ground (arith, length-marked es)

  abbrev pub reading : LineReader → ℤ → Streaming
  reading r id = record { line_reader = r; streaming_parser = p; streaming_event_id = id }

  abbrev pub lines : Text → List Text
  lines s = map pop_cr (split_lines lf s)

  pub chunk_full :
      (f : ℕ) (acc : Events) (st : Streaming)
      → leb standard_vector_size (length acc) ≡ true
      → stream_chunk pass path (suc f) acc st ≡ some (ok (acc, st))
  unfolding stream_chunk
  chunk_full f acc st h = rw h refl

  pub chunk_next :
      (f : ℕ) (acc : Events) (st : Streaming)
      → leb standard_vector_size (length acc) ≡ false
      → stream_chunk pass path (suc f) acc st
        ≡ if_next
            (stream_chunk pass path f)
            (add_events pass path acc)
            acc
            st
            (has_next st.line_reader)
  unfolding stream_chunk
  chunk_next f acc st h = rw h refl

  -- A line that is read and parsed.
  chunk_line :
      (f : ℕ) (acc es : Events) (r next : LineReader) (id id' : ℤ) (line : Text)
      → next_line (line_fuel r) r ≡ some (line, next)
      → p.parse_line line next.line_number id ≡ ok (es, id')
      → if_next (stream_chunk pass path f) (add_events pass path acc) acc (reading r id) (true, r)
        ≡ stream_chunk pass path f (add_events pass path acc es) (reading next id')
  chunk_line f acc es r next id id' line h k =
      ap (with_line (stream_chunk pass path f) (add_events pass path acc) (reading r id)) h
      ∙ ap (after_line (stream_chunk pass path f) (add_events pass path acc) (reading r id) next) k

  pub chunk_some :
      (f : ℕ) (acc es : Events) (r asked next : LineReader) (id id' : ℤ) (line : Text)
      → leb standard_vector_size (length acc) ≡ false
      → has_next r ≡ (true, asked)
      → next_line (line_fuel asked) asked ≡ some (line, next)
      → p.parse_line line next.line_number id ≡ ok (es, id')
      → length es ≤ 1
      → stream_chunk pass path (suc f) acc (reading r id)
        ≡ stream_chunk pass path f (acc ++ marked es) (reading next id')
  chunk_some f acc es r asked next id id' line full h k l one =
      chunk_next f acc (reading r id) full
      ∙ ap (if_next (stream_chunk pass path f) (add_events pass path acc) acc (reading r id)) h
      ∙ chunk_line f acc es asked next id id' line k l
      ∙ ap (λ a. stream_chunk pass path f a (reading next id')) (add_events_one acc es one)
