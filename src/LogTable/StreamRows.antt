-- ===== src/LogTable/StreamRows.antt =====
-- The rows that the operator of `read_duck_hunt_log` hands out for a file that it parses line by line.
use duck_hunt.Lines.{split_lines}
use duck_hunt.Prelude.{
  ℕ, zero, suc, ◌+◌, ◌-◌, ◌<◌, ◌≤◌, min, ◌≡◌, refl, sym, ap, ◌∙◌, Bool, inl, inr, ◌⊎◌, true, false,
  Option, none, some, List, [], ◌∷◌, ◌++◌, map, Text, length, take, arith, if◌then◌else◌, leb,
}
use duck_hunt.Prelude.Int.{ℤ}
use duck_hunt.Event.{ValidationEvent}
use duck_hunt.Parser.{Parser, Outcome, ok}
use duck_hunt.Registry.{Registry}
use duck_hunt.Patterns.{Library}
use duck_hunt.LineReader.{LineReader}
use duck_hunt.LineReader.Next.{Holds}
use duck_hunt.Dispatch.{World, Events}
use duck_hunt.LogTable.Rows.{Row, populate}
use duck_hunt.LogTable.Bind.{BindData}
use duck_hunt.LogTable.Run.{Run, continue, return, lift_call}
use duck_hunt.LogTable.Batch.{Input, Emitted, passes, standard_vector_size}
use duck_hunt.LogTable.Pull.{pull, gathered, after_call}
use duck_hunt.LogTable.Stream.{
  ReadState, Streaming, resume, read_in_out, read_row, emit_stream, stream_row, line_fuel,
  stream_chunk,
}
use duck_hunt.LogTable.Streamed.{OnePerLine, streamed, lines, reading}
use duck_hunt.LogTable.StreamSound.{stream_chunk-Chunked}

take_all {ℓ} : {A : Type ℓ} (n : ℕ) (l : List A) → length l ≤ n → take n l ≡ l
take_all zero [] h = refl
take_all zero (x ∷ l) h = absurd (omega (arith, h))
take_all (suc n) [] h = refl
take_all (suc n) (x ∷ l) h = ap (◌∷◌ x) (take_all n l (omega (arith, h)))

map_join {ℓ κ} :
    {A : Type ℓ} {B : Type κ} (f : A → B) (l m : List A) → map f l ++ map f m ≡ map f (l ++ m)
map_join f [] m = refl
map_join f (x ∷ l) m = ap (◌∷◌ (f x)) (map_join f l m)

populate_all :
    (row : ValidationEvent → Row) (es : Events) (n : ℕ)
    → length es ≤ n
    → populate row es 0 n ≡ map row es
unfolding populate
populate_all row es n h = ap (map row) (take_all (min n (length es - 0)) es (omega (arith, h)))

streamed_none :
    (pass : ValidationEvent → Bool) (path : Text) (p : Parser) (n : ℕ) (id : ℤ)
    → streamed pass path p (lines pass path p []) n id ≡ []
unfolding streamed split_lines
streamed_none pass path p n id = refl

module _ (w : World) (lib : Library) (b : BindData) where
  abbrev pub read_call : Input → ReadState → Run (Emitted ReadState)
  read_call input s = read_in_out w lib b input s

  abbrev pub passing : ValidationEvent → Bool
  passing = passes b.severity_threshold

  -- The rows of the lines of a text.
  abbrev pub rows_of_lines : Text → Parser → Text → ℕ → ℤ → List Row
  rows_of_lines path p t n id =
      map (stream_row w lib b) (streamed passing path p (lines passing path p t) n id)

  pub record Finished (rows : List Row) (r : Registry)
      (result : Option (Outcome (List Row × ReadState) × Registry)) : Type 0 where
    pub last : ReadState
    pub comes : result ≡ some (ok (rows, last), r)
    pub idle : last.batch.initialized ≡ false
    pub closed : last.streaming ≡ none

  pub resumed :
      (f : ℕ) (input : Input) (s : ReadState) (st : Streaming) (r : Registry)
      (c : Events × Streaming)
      → s.batch.initialized ≡ true
      → s.streaming ≡ some st
      → stream_chunk passing s.current_file_path (line_fuel st.line_reader) [] st ≡ some (ok c)
      → pull (read_call input) (suc f) s r
        ≡ after_call (pull (read_call input) f) (emit_stream w lib b s c) r
  unfolding pull read_in_out
  resumed f input s st r c h k e =
      ap
        (λ (t : Bool).
          continue (after_call (pull (read_call input) f))
            ((if t then resume w lib b s s.streaming else read_row w lib b input s) r))
        h
      ∙ ap (λ o. continue (after_call (pull (read_call input) f)) (resume w lib b s o r)) k
      ∙ ap
          (λ t.
            continue (after_call (pull (read_call input) f))
              (continue (λ c. return (emit_stream w lib b s c)) (lift_call t r)))
          e

  abbrev pub Later : ℕ → Input → Registry → Type 0
  Later f input r =
      (s : ReadState) (st : Streaming) (t : Text)
      → s.batch.initialized ≡ true
      → s.streaming ≡ some st
      → OnePerLine st.streaming_parser
      → Holds st.line_reader t
      → length t < f
      → Finished
          (rows_of_lines s.current_file_path st.streaming_parser t st.line_reader.line_number
            st.streaming_event_id)
          r (pull (read_call input) f s r)

  -- The state behind a chunk that has events.
  abbrev refilled : ReadState → Events → Streaming → ReadState
  refilled s es st = record s { batch = record (s.batch) { events = es }; streaming = some st }

  -- The state behind the end of the file.
  abbrev drained : ReadState → ReadState
  drained s = record s {
    batch = record (s.batch) { initialized = false; events = [] };
    streaming = none;
    current_file_path = [];
  }

  chunk_rows :
      (f : ℕ) (input : Input) (s : ReadState) (st : Streaming) (r : Registry) (t : Text)
      (chunk : Events) (reader : LineReader) (next_id : ℤ) (left : Text)
      → Later f input r
      → s.batch.initialized ≡ true
      → OnePerLine st.streaming_parser
      → length t < suc f
      → pull (read_call input) (suc f) s r
        ≡ after_call
            (pull (read_call input) f)
            (emit_stream w lib b s
              (chunk, reading passing s.current_file_path st.streaming_parser reader next_id))
            r
      → streamed passing s.current_file_path st.streaming_parser
          (lines passing s.current_file_path st.streaming_parser t)
          st.line_reader.line_number
          st.streaming_event_id
        ≡ chunk
          ++ streamed passing s.current_file_path st.streaming_parser
              (lines passing s.current_file_path st.streaming_parser left)
              reader.line_number
              next_id
      → Holds reader left
      → (leb standard_vector_size (length chunk) ≡ true) ⊎ (left ≡ [])
      → length chunk ≤ standard_vector_size
      → length chunk + length left ≤ length t
      → Finished
          (rows_of_lines s.current_file_path st.streaming_parser t st.line_reader.line_number
            st.streaming_event_id)
          r
          (pull (read_call input) (suc f) s r)
  unfolding emit_stream
  chunk_rows f input s st r t [] reader next_id left later h one n step splits holds (inl full)
        small less =
      absurd (ground (arith, full))
  chunk_rows f input s st r t [] reader next_id left later h one n step splits holds (inr end) small
        less =
      let path = s.current_file_path in
      let p = st.streaming_parser in
      record {
        last = drained s;
        comes =
            step
            ∙ ap (λ es. some (ok (map (stream_row w lib b) es, drained s), r))
                (sym (
                  splits
                  ∙ ap
                      (λ l.
                        streamed passing path p (lines passing path p l) reader.line_number next_id)
                      end
                  ∙ streamed_none passing path p reader.line_number next_id));
        idle = refl;
        closed = refl;
      }
  chunk_rows f input s st r t (e ∷ es) reader next_id left later h one n step splits holds full
        small less =
      let path = s.current_file_path in
      let p = st.streaming_parser in
      let st' = reading passing path p reader next_id in
      let rest =
        later (refilled s (e ∷ es) st') st' left h refl one holds (omega (arith, n, less)) in
      record {
        last = rest.last;
        comes =
            step
            ∙ ap
                (continue (λ q.
                  return
                    (gathered (populate (stream_row w lib b) (e ∷ es) 0 standard_vector_size) q)))
                rest.comes
            ∙ ap (λ rows. some (ok (rows, rest.last), r))
                (ap (λ l. l ++ rows_of_lines path p left reader.line_number next_id)
                    (populate_all (stream_row w lib b) (e ∷ es) standard_vector_size small)
                  ∙ map_join (stream_row w lib b) (e ∷ es) _
                  ∙ ap (map (stream_row w lib b)) (sym splits));
        idle = rest.idle;
        closed = rest.closed;
      }

  pub read_streamed :
      (f : ℕ) (input : Input) (s : ReadState) (st : Streaming) (r : Registry) (t : Text)
      → s.batch.initialized ≡ true
      → s.streaming ≡ some st
      → OnePerLine st.streaming_parser
      → Holds st.line_reader t
      → length t < f
      → Finished
          (rows_of_lines s.current_file_path st.streaming_parser t st.line_reader.line_number
            st.streaming_event_id)
          r
          (pull (read_call input) f s r)
  read_streamed zero input s st r t h k one holds n = absurd (omega (arith, n))
  read_streamed (suc f) input s st r t h k one holds n =
      let path = s.current_file_path in
      let p = st.streaming_parser in
      let c =
        stream_chunk-Chunked passing path p (line_fuel st.line_reader) [] st.line_reader t
          st.streaming_event_id one holds (omega (arith, ap length holds.content)) (omega arith) in
      chunk_rows f input s st r t c.chunk c.reader c.next_id c.left
        (λ s' st' t'. read_streamed f input s' st' r t') h one n
        (resumed f input s st r _ h k c.comes) c.splits c.holds c.full_or_end c.small
        (omega (arith, c.consumed))
