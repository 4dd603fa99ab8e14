-- ===== src/LogTable/Typed.antt =====
-- The rows against the declared columns.
use duck_hunt.Prelude.{
  ℕ, ltb, ◌≡◌, refl, Bool, Bool-cases, inl, inr, true, false, Option, none, some, List, [], ◌∷◌,
  ◌++◌, Text, lookup, length, if◌then◌else◌, codes,
}
use duck_hunt.Prelude.Int.{ℤ, is_minus_one}
use duck_hunt.Event.{
  ValidationEvent, ValidationEventType, Double, is_zero, validation_event_status_to_string,
}
use duck_hunt.Context.{ContentMode, truncate_log_content, ContextLine, extract_context}
use duck_hunt.LogTable.Schema.{
  LogicalType, bigint, varchar, integer, double, context, event_types, return_types, column_names,
  event_names,
}
use duck_hunt.LogTable.Rows.{
  Value, null, of_bigint, of_integer, of_varchar, Row, LogLines, unless_minus_one, unless_empty,
  unless_zero, unless_unknown, is_nothing, content_value, of_lines, context_of, event_values,
  row_of, has_type, Fits,
}

null-has_type : (t : LogicalType) → has_type t null ≡ true
null-has_type bigint = refl
null-has_type _ = refl

unless_minus_one-has_type :
    (t : LogicalType) (z : ℤ) (v : Value)
    → has_type t v ≡ true
    → has_type t (unless_minus_one z v) ≡ true
unless_minus_one-has_type t z v h = elim (Bool-cases (is_minus_one z)) [
  | inl e ↦ rw e (null-has_type t)
  | inr e ↦ rw e h
]

unless_empty-has_type : (t : Text) → has_type varchar (unless_empty t) ≡ true
unless_empty-has_type [] = refl
unless_empty-has_type (c ∷ t) = refl

unless_zero-has_type : (d : Double) → has_type double (unless_zero d) ≡ true
unless_zero-has_type d = elim (Bool-cases (is_zero d)) [ inl e ↦ rw e refl | inr e ↦ rw e refl ]

unless_unknown-has_type :
    (k : ValidationEventType) (t : Text) → has_type varchar (unless_unknown k (of_varchar t)) ≡ true
unless_unknown-has_type ValidationEventType.unknown t = refl
unless_unknown-has_type _ t = refl

content_value-has_type :
    (mode : ContentMode) (limit : ℕ) (e : ValidationEvent)
    → has_type varchar (content_value mode limit e) ≡ true
unfolding content_value
content_value-has_type mode limit e = elim (Bool-cases (is_nothing mode)) [
  | inl n ↦ rw n refl
  | inr n ↦ rw n (
      unless_empty-has_type
        (truncate_log_content e.log_content mode limit e.log_line_start e.log_line_end))
]

event_values-Fits :
    (mode : ContentMode) (limit : ℕ) (e : ValidationEvent)
    → Fits event_types (event_values mode limit e)
event_values-Fits mode limit e = (
  refl,
  (
    refl,
    (
      refl,
      (
        refl,
        (
          unless_minus_one-has_type integer e.ref_line (of_integer e.ref_line) refl,
          (
            unless_minus_one-has_type integer e.ref_column (of_integer e.ref_column) refl,
            (
              refl,
              (
                unless_unknown-has_type e.event_type (validation_event_status_to_string e.status),
                (
                  unless_unknown-has_type e.event_type e.severity,
                  (
                    refl,
                    (
                      refl,
                      (
                        refl,
                        (
                          refl,
                          (
                            content_value-has_type mode limit e,
                            (
                              refl,
                              (
                                unless_minus_one-has_type integer e.log_line_start
                                    (of_integer e.log_line_start) refl,
                                (
                                  unless_minus_one-has_type integer e.log_line_end
                                      (of_integer e.log_line_end) refl,
                                  (
                                    unless_empty-has_type e.log_file,
                                    (
                                      refl,
                                      (
                                        refl,
                                        (
                                          unless_empty-has_type e.principal,
                                          (
                                            unless_empty-has_type e.origin,
                                            (
                                              unless_empty-has_type e.target,
                                              (
                                                unless_empty-has_type e.actor_type,
                                                (
                                                  unless_empty-has_type e.started_at,
                                                  (
                                                    unless_empty-has_type e.external_id,
                                                    (
                                                      unless_empty-has_type e.scope,
                                                      (
                                                        unless_empty-has_type e.scope_id,
                                                        (
                                                          unless_empty-has_type e.scope_status,
                                                          (
                                                            unless_empty-has_type e.group,
                                                            (
                                                            unless_empty-has_type e.group_id,
                                                            (
                                                            unless_empty-has_type e.group_status,
                                                            (
                                                            unless_empty-has_type e.unit,
                                                            (
                                                            unless_empty-has_type e.unit_id,
                                                            (
                                                            unless_empty-has_type e.unit_status,
                                                            (
                                                            unless_empty-has_type e.subunit,
                                                            (
                                                            unless_empty-has_type e.subunit_id,
                                                            (
                                                            unless_empty-has_type e.fingerprint,
                                                            (
                                                            unless_zero-has_type e.similarity_score,
                                                            (
                                                            unless_minus_one-has_type bigint
                                                            e.pattern_id (of_bigint e.pattern_id)
                                                            refl,
                                                            tt,
                                                            ),
                                                            ),
                                                            ),
                                                            ),
                                                            ),
                                                            ),
                                                            ),
                                                            ),
                                                            ),
                                                            ),
                                                          ),
                                                        ),
                                                      ),
                                                    ),
                                                  ),
                                                ),
                                              ),
                                            ),
                                          ),
                                        ),
                                      ),
                                    ),
                                  ),
                                ),
                              ),
                            ),
                          ),
                        ),
                      ),
                    ),
                  ),
                ),
              ),
            ),
          ),
        ),
      ),
    ),
  ),
)

Fits-append :
    (ts us : List LogicalType) (vs ws : Row) → Fits ts vs → Fits us ws → Fits (ts ++ us) (vs ++ ws)
Fits-append [] us [] ws h k = k
Fits-append [] us (v ∷ vs) ws h k = absurd h
Fits-append (t ∷ ts) us [] ws h k = absurd h
Fits-append (t ∷ ts) us (v ∷ vs) ws h k = (h.0, Fits-append ts us vs ws h.1 k)

of_lines-has_type : (o : Option (List ContextLine)) → has_type context (of_lines o) ≡ true
of_lines-has_type none = refl
of_lines-has_type (some ls) = refl

context_of-has_type :
    (e : ValidationEvent) (n : ℕ) (lines : Option (List Text))
    → has_type context (context_of e n lines) ≡ true
context_of-has_type e n none = refl
context_of-has_type e n (some lines) =
    of_lines-has_type (extract_context lines e.log_line_start e.log_line_end n)

abbrev context_value : ValidationEvent → ℕ → LogLines → Value
context_value e n log_lines = context_of e n (lookup e.log_file log_lines)

context_value-Fits :
    (e : ValidationEvent) (n : ℕ) (log_lines : LogLines)
    → Fits (context ∷ []) (context_value e n log_lines ∷ [])
context_value-Fits e n log_lines = (context_of-has_type e n (lookup e.log_file log_lines), tt)

abbrev extra_types : Bool → List LogicalType
extra_types asked = if asked then context ∷ [] else []

-- With the row's last part and the columns' last part on the same condition.
extended-Fits :
    (asked : Bool) (v : Value) (vs : Row)
    → Fits event_types vs
    → Fits (context ∷ []) (v ∷ [])
    → Fits (event_types ++ extra_types asked) (vs ++ (if asked then v ∷ [] else []))
extended-Fits true v vs h k = Fits-append event_types (context ∷ []) vs (v ∷ []) h k
extended-Fits false v vs h k = Fits-append event_types [] vs [] h tt

same_count :
    (asked : Bool)
    → length (event_names ++ (if asked then codes "context" ∷ [] else []))
      ≡ length (event_types ++ extra_types asked)
same_count true = refl
same_count false = refl

-- Every row that an event becomes has a value for each declared column, of the column's type or NULL,
-- and the declaration has a name for each type.
pub row_of-Fits :
    (mode : ContentMode) (limit context_lines : ℕ) (log_lines : LogLines) (e : ValidationEvent)
    → Fits (return_types context_lines) (row_of mode limit context_lines log_lines e)
      × (length (column_names context_lines) ≡ length (return_types context_lines))
unfolding row_of return_types column_names
row_of-Fits mode limit context_lines log_lines e = (
  extended-Fits (ltb 0 context_lines) (context_value e context_lines log_lines)
      (event_values mode limit e) (event_values-Fits mode limit e)
      (context_value-Fits e context_lines log_lines),
  same_count (ltb 0 context_lines),
)
