-- ===== src/LogTable/Drain.antt =====
-- The chunks of the operator of `parse_duck_hunt_log`, as an engine that calls it until it needs more
-- input gathers them.
use duck_hunt.Prelude.{
  ℕ, zero, suc, ◌+◌, ◌-◌, ◌<◌, min, ◌≡◌, refl, ap, ◌∙◌, true, some, List, [], ◌∷◌, ◌++◌, map, Text,
  length, take, drop, length-drop, arith,
}
use duck_hunt.Parser.{ok}
use duck_hunt.Registry.{Registry}
use duck_hunt.Patterns.{Library}
use duck_hunt.Event.{ValidationEvent}
use duck_hunt.Dispatch.{World, Events}
use duck_hunt.LineReader.Next.{pos_of}
use duck_hunt.LogTable.Rows.{populate}
use duck_hunt.LogTable.Bind.{BindData}
use duck_hunt.LogTable.Pull.{pull, gathered, after_call}
use duck_hunt.LogTable.Run.{Run, continue, return}
use duck_hunt.LogTable.Batch.{
  Batch, no_batch, Input, Emitted, need_more_input, have_more_output, row, emit, output_size,
  parse_in_out, parse_row, parse_input, filled_batch, choose, bound_format, cache_lines,
  post_process,
}

module _ {ℓ} {A : Type ℓ} where
  pub take_none : (n : ℕ) → take {A = A} n [] ≡ []
  take_none zero = refl
  take_none (suc n) = refl

  drop_none : (n : ℕ) → drop {A = A} n [] ≡ []
  drop_none zero = refl
  drop_none (suc n) = refl

  pub drop_add_eq : (k m n : ℕ) (l : List A) → k ≡ m + n → drop k l ≡ drop n (drop m l)
  drop_add_eq k zero n l h = ap (λ (j : ℕ). drop j l) (omega (arith, h))
  drop_add_eq zero (suc m) n l h = absurd (omega (arith, h))
  drop_add_eq (suc k) (suc m) n [] h = rw (drop_none n) refl
  drop_add_eq (suc k) (suc m) n (x ∷ l) h = drop_add_eq k m n l (omega (arith, h))

  pub map_pieces {κ} :
      {B : Type κ} (f : A → B) (n : ℕ) (l : List A) → map f (take n l) ++ map f (drop n l) ≡ map f l
  map_pieces f zero l = refl
  map_pieces f (suc n) [] = refl
  map_pieces f (suc n) (x ∷ l) = ap (◌∷◌ (f x)) (map_pieces f n l)

module _ (w : World) (lib : Library) (b : BindData) where
  -- The operator for one row.
  abbrev pub call : Input → Batch → Run (Emitted Batch)
  call input s = parse_in_out w lib b input s

  capped :
      (s : Batch)
      → min (output_size w lib b s) (length s.events - s.output_offset) ≡ output_size w lib b s
  unfolding output_size
  capped s = omega arith

  output_size-suc :
      (s : Batch) (x : ValidationEvent) (l : Events)
      → drop s.output_offset s.events ≡ x ∷ l
      → (k : ℕ) × (output_size w lib b s ≡ suc k)
  unfolding output_size
  output_size-suc s x l e =
      pos_of _ (omega (arith, length-drop s.output_offset s.events, ap length e))

  emit_nil :
      (s : Batch)
      → drop s.output_offset s.events ≡ []
      → emit w lib b s ≡ (need_more_input, [], no_batch)
  unfolding emit populate
  emit_nil s e =
      rw (e, take_none (min (output_size w lib b s) (length s.events - s.output_offset))) refl

  emit_cons :
      (s : Batch) (x : ValidationEvent) (l : Events)
      → drop s.output_offset s.events ≡ x ∷ l
      → emit w lib b s ≡ (
        have_more_output,
        map (row w lib b s.log_lines) (take (output_size w lib b s) (x ∷ l)),
        record s { output_offset = s.output_offset + output_size w lib b s },
      )
  unfolding emit populate
  emit_cons s x l e = let (k, m) = output_size-suc s x l e in rw (e, capped s, m) refl

  -- A call of the operator on a state that holds events.
  called :
      (f : ℕ) (input : Input) (s : Batch) (r : Registry)
      → s.initialized ≡ true
      → pull (call input) (suc f) s r ≡ after_call (pull (call input) f) (emit w lib b s) r
  unfolding pull parse_in_out
  called f input s r h = rw h refl

  pull-drop :
      (f : ℕ) (input : Input) (s : Batch) (r : Registry) (l : Events)
      → s.initialized ≡ true
      → drop s.output_offset s.events ≡ l
      → length l < f
      → pull (call input) f s r ≡ some (ok (map (row w lib b s.log_lines) l, no_batch), r)
  pull-drop zero input s r l h e n = absurd (omega (arith, n))
  pull-drop (suc f) input s r [] h e n =
      called f input s r h ∙ ap (λ t. after_call (pull (call input) f) t r) (emit_nil s e)
  pull-drop (suc f) input s r (x ∷ l) h e n =
      let size = output_size w lib b s in
      let later = record s { output_offset = s.output_offset + size } in
      called f input s r h
      ∙ ap (λ t. after_call (pull (call input) f) t r) (emit_cons s x l e)
      ∙ ap (continue (λ p. return (gathered (map (row w lib b s.log_lines) (take size (x ∷ l))) p)))
          (pull-drop f input later r (drop size (x ∷ l)) h
            (drop_add_eq (s.output_offset + size) s.output_offset size s.events refl
              ∙ ap (drop size) e)
            (omega (arith, n, length-drop size (x ∷ l), (output_size-suc s x l e).1)))
      ∙ ap (λ rows. some (ok (rows, no_batch), r))
          (map_pieces (row w lib b s.log_lines) size (x ∷ l))

  first_call :
      (f : ℕ) (content : Text) (columns : Input) (es : Events) (r r' : Registry)
      → parse_input w lib b (choose columns (bound_format w lib b)) content [] r ≡ some (ok es, r')
      → pull (call (some content ∷ columns)) (suc f) no_batch r
        ≡ pull (call (some content ∷ columns)) (suc f) (filled_batch w lib b content no_batch es) r'
  unfolding pull parse_in_out parse_row
  first_call f content columns es r r' h =
      ap
        (λ c.
          continue (after_call (pull (call (some content ∷ columns)) f))
            (continue (λ es. return (emit w lib b (filled_batch w lib b content no_batch es))) c))
        h

  -- An engine that calls `parse_duck_hunt_log`'s operator on one row until it needs more input gets,
  -- for content that parses to events, one row for each of them that the error patterns' processing
  -- and the threshold leave, in their order and none twice, with the content's lines as context. The
  -- operator's state is then that before the first row, so that the next input starts afresh. As many
  -- calls as there are such events, and one more, are enough.
  pub pull-parse_input :
      (f : ℕ) (content : Text) (columns : Input) (es : Events) (r r' : Registry)
      → parse_input w lib b (choose columns (bound_format w lib b)) content [] r ≡ some (ok es, r')
      → length (post_process w lib b es) < f
      → pull (call (some content ∷ columns)) f no_batch r
        ≡ some (
          ok (
            map (row w lib b (cache_lines w lib b [] content [])) (post_process w lib b es),
            no_batch,
          ),
          r',
        )
  pull-parse_input zero content columns es r r' h n = absurd (omega (arith, n))
  pull-parse_input (suc f) content columns es r r' h n =
      first_call f content columns es r r' h
      ∙ pull-drop (suc f) (some content ∷ columns) (filled_batch w lib b content no_batch es) r'
          (post_process w lib b es) refl refl n
