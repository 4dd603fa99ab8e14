-- ===== src/LogTable/InitSound.antt =====
-- The two forms of `parse_duck_hunt_log`, the scan over events that are gathered first and the operator
-- that is called for a row, hand out the same rows.
use duck_hunt.Prelude.{
  ℕ, zero, suc, ◌+◌, ◌-◌, ◌<◌, min, ◌≡◌, refl, ap, ◌∙◌, Option, none, some, List, [], ◌∷◌, ◌++◌,
  map, length, take, drop, is_empty, length-drop, length-take, arith, if◌then◌else◌,
}
use duck_hunt.Parser.{Outcome, ok, io_exception, exception}
use duck_hunt.Registry.{Registry}
use duck_hunt.Event.{ValidationEvent}
use duck_hunt.Patterns.{Library}
use duck_hunt.Dispatch.{World, Events}
use duck_hunt.LineReader.Next.{pos_of}
use duck_hunt.LogTable.Rows.{Row, populate}
use duck_hunt.LogTable.Bind.{BindData}
use duck_hunt.LogTable.Run.{Run, continue, ◌>>=◌, return}
use duck_hunt.LogTable.Batch.{
  no_batch, bound_format, parse_input, parse_as, parse_named, resolve_format, choose, post_process,
  cache_lines, row, standard_vector_size,
}
use duck_hunt.LogTable.Pull.{pull}
use duck_hunt.LogTable.Drain.{take_none, drop_add_eq, map_pieces, call, pull-parse_input}
use duck_hunt.LogTable.Init.{Scan, scan, scan_of, parse_init_global}

length-map {ℓ κ} : {A : Type ℓ} {B : Type κ} (f : A → B) (l : List A) → length (map f l) ≡ length l
length-map f [] = refl
length-map f (x ∷ l) = omega (arith, length-map f l)

continue_assoc :
    {A B C : Type 0} (f : A → Run B) (k : B → Run C) (o : Option (Outcome A × Registry))
    → continue (λ a. f a >>= k) o ≡ continue k (continue f o)
continue_assoc f k none = refl
continue_assoc f k (some (ok a, r)) = refl
continue_assoc f k (some (io_exception e, r)) = refl
continue_assoc f k (some (exception e, r)) = refl

abbrev before : List Row → Option (List Row) → Option (List Row)
before rows none = none
before rows (some more) = some (rows ++ more)

abbrev unless_done : Option (List Row) → List Row → Option (List Row)
unless_done more rows = if is_empty rows then some [] else before rows more

module _ (w : World) (lib : Library) (b : BindData) where
  -- The scan until a chunk is empty, on fuel.
  unfoldable pub scan_all : ℕ → Scan → Option (List Row)
  scan_all zero s = none
  scan_all (suc f) s = unless_done (scan_all f (scan w lib b s).1) (scan w lib b s).0

  rows_asked : Scan → ℕ
  rows_asked s = min standard_vector_size (length s.events - s.chunk_offset)

  scanned : Scan → List ValidationEvent → List Row
  scanned s l = map (row w lib b s.log_lines) (take (rows_asked s) l)

  scan_rows :
      (s : Scan) (l : Events)
      → drop s.chunk_offset s.events ≡ l
      → scan w lib b s
        ≡ (scanned s l, record s { chunk_offset = s.chunk_offset + length (scanned s l) })
  unfolding scan populate scanned rows_asked
  scan_rows s l e =
      ap
        (λ (t : Events). (
          map (row w lib b s.log_lines) (take (rows_asked s) t),
          record s {
            chunk_offset =
                s.chunk_offset + length (map (row w lib b s.log_lines) (take (rows_asked s) t));
          },
        ))
        e

  length-scanned :
      (s : Scan) (l : Events)
      → drop s.chunk_offset s.events ≡ l
      → length (scanned s l) ≡ rows_asked s
  unfolding scanned rows_asked
  length-scanned s l e =
      length-map (row w lib b s.log_lines) (take (rows_asked s) l)
      ∙ omega
          (arith, length-take (rows_asked s) l, length-drop s.chunk_offset s.events, ap length e)

  scan_all-drop :
      (f : ℕ) (s : Scan) (l : Events)
      → drop s.chunk_offset s.events ≡ l
      → length l < f
      → scan_all f s ≡ some (map (row w lib b s.log_lines) l)
  unfolding scan_all scanned rows_asked
  scan_all-drop zero s l e n = absurd (omega (arith, n))
  scan_all-drop (suc f) s [] e n =
      ap (λ (p : List Row × Scan). unless_done (scan_all f p.1) p.0) (scan_rows s [] e)
      ∙ ap
          (unless_done
            (scan_all f (record s { chunk_offset = s.chunk_offset + length (scanned s []) })))
          (ap (map (row w lib b s.log_lines)) (take_none (rows_asked s)))
  scan_all-drop (suc f) s (x ∷ l) e n =
      let size = rows_asked s in
      let counted = length-scanned s (x ∷ l) e in
      let (k, m) : (k : ℕ) × (rows_asked s ≡ suc k) =
        pos_of _ (omega (arith, length-drop s.chunk_offset s.events, ap length e)) in
      let later = record s { chunk_offset = s.chunk_offset + length (scanned s (x ∷ l)) } in
      ap (λ (p : List Row × Scan). unless_done (scan_all f p.1) p.0) (scan_rows s (x ∷ l) e)
      ∙ ap (λ t. unless_done t (scanned s (x ∷ l)))
          (scan_all-drop f later (drop size (x ∷ l))
            (drop_add_eq _ s.chunk_offset size s.events (ap (λ (j : ℕ). s.chunk_offset + j) counted)
              ∙ ap (drop size) e)
            (omega (arith, n, length-drop size (x ∷ l), m)))
      ∙ ap
          (λ t.
            if t
            then some []
            else some (scanned s (x ∷ l) ++ map (row w lib b s.log_lines) (drop size (x ∷ l))))
          (ap (λ (j : ℕ). is_empty (map (row w lib b s.log_lines) (take j (x ∷ l)))) m)
      ∙ ap some (map_pieces (row w lib b s.log_lines) size (x ∷ l))

  parse_init_global-parse_input :
      (es : Events) (r r' : Registry)
      → parse_input w lib b (choose [] (bound_format w lib b)) b.source [] r ≡ some (ok es, r')
      → parse_init_global w lib b r
        ≡ some (ok (scan_of w lib b es (cache_lines w lib b [] b.source [])), r')
  unfolding parse_init_global parse_input choose resolve_format
  parse_init_global-parse_input es r r' h =
      let k = λ (es : Events).
        return {A = Scan} (scan_of w lib b es (cache_lines w lib b [] b.source [])) in
      continue_assoc
        (parse_as w lib b [] (parse_named w lib b b.source) b.format b.regexp_pattern b.source) k
        (resolve_format (bound_format w lib b) b.source r)
      ∙ ap (continue k) h

  -- For content that parses, the scan of `parse_duck_hunt_log` over events gathered first and the
  -- operator that is called for the content's row hand out the same rows, however many chunks they
  -- fill.
  pub scan_all-pull :
      (f : ℕ) (es : Events) (r r' : Registry)
      → parse_input w lib b (choose [] (bound_format w lib b)) b.source [] r ≡ some (ok es, r')
      → length (post_process w lib b es) < f
      → (s : Scan) × (rows : List Row) × (parse_init_global w lib b r ≡ some (ok s, r'))
        × (scan_all f s ≡ some rows)
        × (pull (call w lib b (some b.source ∷ [])) f no_batch r ≡ some (ok (rows, no_batch), r'))
  scan_all-pull f es r r' h n =
      let lines = cache_lines w lib b [] b.source [] in
      (
        scan_of w lib b es lines,
        map (row w lib b lines) (post_process w lib b es),
        parse_init_global-parse_input es r r' h,
        scan_all-drop f (scan_of w lib b es lines) (post_process w lib b es) refl n,
        pull-parse_input w lib b f b.source [] es r r' h n,
      )
