-- ===== src/LogTable/Pull.antt =====
-- An engine that calls an operator of src/read_duck_hunt_log_function.cpp again until it asks for more
-- input, and gathers the rows.
use duck_hunt.Prelude.{ℕ, zero, suc, none, List, [], ◌++◌}
use duck_hunt.LogTable.Rows.{Row}
use duck_hunt.LogTable.Run.{Run, ◌>>=◌, return}
use duck_hunt.LogTable.Batch.{Emitted, need_more_input, have_more_output}

module _ {S : Type 0} where
  abbrev pub gathered : List Row → List Row × S → List Row × S
  gathered rows p = (rows ++ p.0, p.1)

  abbrev pub after_call : (S → Run (List Row × S)) → Emitted S → Run (List Row × S)
  after_call again (need_more_input, rows, s) = return ([], s)
  after_call again (have_more_output, rows, s) = again s >>= λ p. return (gathered rows p)

  -- The calls, on fuel.
  unfoldable pub pull : (S → Run (Emitted S)) → ℕ → S → Run (List Row × S)
  pull call zero s r = none
  pull call (suc f) s r = (call s >>= after_call (pull call f)) r
