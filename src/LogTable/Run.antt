-- ===== src/LogTable/Run.antt =====
-- Calls that may throw, fault and change the registry, as the functions of
-- src/read_duck_hunt_log_function.cpp chain them.
use duck_hunt.Prelude.{Option, none, some, Text}
use duck_hunt.Parser.{Outcome, ok, io_exception, exception}
use duck_hunt.Registry.{Registry}
use duck_hunt.Formats.{detect_format}

-- A call in a registry; `none` is a fault.
abbrev pub Run : Type 0 → Type 0
Run A = Registry → Option (Outcome A × Registry)

module _ {A B : Type 0} where
  abbrev pub continue : (A → Run B) → Option (Outcome A × Registry) → Option (Outcome B × Registry)
  continue k none = none
  continue k (some (ok a, r)) = k a r
  continue k (some (io_exception e, r)) = some (io_exception e, r)
  continue k (some (exception e, r)) = some (exception e, r)

  infixl 5 ◌>>=◌
  abbrev pub ◌>>=◌ : Run A → (A → Run B) → Run B
  m >>= k = λ r. continue k (m r)

module _ {A : Type 0} where
  abbrev pub return : A → Run A
  return a r = some (ok a, r)

  abbrev pub lift : Outcome A → Run A
  lift o r = some (o, r)

  -- A call that leaves the registry alone.
  abbrev pub lift_call : Option (Outcome A) → Run A
  lift_call none r = none
  lift_call (some o) r = some (o, r)

  -- `catch (const IOException &)` around a call, with `none` for its handler's early exit.
  abbrev pub unless_io_exception : Outcome A → Outcome (Option A)
  unless_io_exception (ok a) = ok (some a)
  unless_io_exception (io_exception e) = ok none
  unless_io_exception (exception e) = exception e

abbrev pub detected : Option (Text × Registry) → Option (Outcome Text × Registry)
detected none = none
detected (some (name, r)) = some (ok name, r)

abbrev pub detect : Text → Run Text
detect content r = detected (detect_format content r)
