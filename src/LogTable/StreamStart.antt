-- ===== src/LogTable/StreamStart.antt =====
-- A file that `read_duck_hunt_log` opens to parse it line by line, from its path to its last row.
use duck_hunt.Prelude.{
  ℕ, zero, suc, ◌<◌, ◌≡◌, refl, ap, ◌∙◌, Bool, true, false, some, [], ◌∷◌, Text, length, arith,
  if◌then◌else◌,
}
use duck_hunt.Prelude.Int.{pos}
use duck_hunt.Parser.{Parser, ok}
use duck_hunt.Registry.{Registry}
use duck_hunt.Patterns.{Library}
use duck_hunt.Files.{OpenFile}
use duck_hunt.LineReader.{line_reader}
use duck_hunt.Dispatch.{World}
use duck_hunt.LogTable.Bind.{BindData}
use duck_hunt.LogTable.Run.{continue, ◌>>=◌, return, lift, unless_io_exception}
use duck_hunt.LogTable.Batch.{Input, Chosen, choose}
use duck_hunt.LogTable.Pull.{pull, after_call}
use duck_hunt.LogTable.Stream.{
  ReadState, no_read, read_in_out, read_row, start_read, read_single, sniff_format, find_streaming,
  can_stream, contains_glob_characters, start_reader, start_streaming, started, bound_chosen,
  read_or_none, batch_content,
}
use duck_hunt.LogTable.Streamed.{OnePerLine}
use duck_hunt.LogTable.StreamRows.{Finished, read_call, rows_of_lines, read_streamed}

module _ (w : World) (lib : Library) (b : BindData) where
  -- The state with a file that was just opened.
  abbrev opened : Text → Parser → OpenFile → ReadState
  opened path p file = record {
    batch = record { initialized = true; output_offset = 0; events = []; log_lines = [] };
    streaming = some (record {
      line_reader = line_reader file.handle;
      streaming_parser = p;
      streaming_event_id = pos 0;
    });
    current_file_path = path;
  }

  abbrev at_path : Text → ReadState
  at_path path = record no_read { current_file_path = path }

  start_read-Streams :
      (c : Chosen) (path name : Text) (p : Parser) (file : OpenFile) (r r' r'' : Registry)
      → contains_glob_characters path ≡ false
      → sniff_format w lib b c path r ≡ some (ok (some name), r')
      → find_streaming w lib b c name r' ≡ some (ok (some p), r'')
      → can_stream w lib b c (some p) ≡ true
      → w.files.open_file path ≡ ok file
      → start_read w lib b c path (at_path path) r ≡ some (ok (some (opened path p file)), r'')
  unfolding start_read read_single
  start_read-Streams c path name p file r r' r'' glob sniffed found streams open_ok = rw glob (
      ap (continue (read_single w lib b c path (at_path path))) sniffed
      ∙ ap
          (continue (λ q.
            if can_stream w lib b c q
            then start_streaming w lib b path (at_path path) q
            else (read_or_none w lib b path >>= batch_content w lib b c path name (at_path path))))
          found
      ∙ ap
          (λ (t : Bool).
            (if t
                then start_streaming w lib b path (at_path path) (some p)
                else (read_or_none w lib b path
                    >>= batch_content w lib b c path name (at_path path)))
              r'')
          streams
      ∙ ap
          (λ o.
            continue (λ f. return (start_reader w lib b (at_path path) p f))
              (lift (unless_io_exception o) r''))
          open_ok)

  -- An engine that calls `read_duck_hunt_log`'s operator on a file's path until it needs more input
  -- gets, where the operator streams the file and its parser parses every line to one event at most,
  -- the rows of the events of all the lines, numbered from 1, that pass the threshold, in their order,
  -- however the file is cut into reads and into chunks. The file is closed then and the operator ready
  -- for the next input. As many calls as the file has bytes, and one more, are enough.
  pub pull-streamed :
      (f : ℕ) (path name : Text) (columns : Input) (p : Parser) (file : OpenFile)
      (r r' r'' : Registry)
      → contains_glob_characters path ≡ false
      → sniff_format w lib b (choose columns (bound_chosen w lib b)) path r
        ≡ some (ok (some name), r')
      → find_streaming w lib b (choose columns (bound_chosen w lib b)) name r'
        ≡ some (ok (some p), r'')
      → can_stream w lib b (choose columns (bound_chosen w lib b)) (some p) ≡ true
      → w.files.open_file path ≡ ok file
      → OnePerLine p
      → length file.handle.rest < f
      → Finished w lib b
          (rows_of_lines w lib b path p file.handle.rest 0 (pos 0))
          r''
          (pull (read_call w lib b (some path ∷ columns)) f no_read r)
  unfolding pull read_in_out read_row
  pull-streamed zero path name columns p file r r' r'' glob sniffed found streams open_ok one n =
      absurd (omega (arith, n))
  pull-streamed (suc f) path name columns p file r r' r'' glob sniffed found streams open_ok one n =
      let rest =
        read_streamed w lib b (suc f) (some path ∷ columns) (opened path p file) _ r''
          file.handle.rest refl refl one
          (record { content = refl; at_end = λ e. absurd (ground (arith, e)) }) n in
      record {
        last = rest.last;
        comes =
            ap
              (λ t.
                continue (after_call (pull (read_call w lib b (some path ∷ columns)) f))
                  (continue (started w lib b (at_path path)) t))
              (start_read-Streams (choose columns (bound_chosen w lib b)) path name p file r r' r''
                glob sniffed found streams open_ok)
            ∙ rest.comes;
        idle = rest.idle;
        closed = rest.closed;
      }
