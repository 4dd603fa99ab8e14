-- ===== src/Lines/Endings.antt =====
-- Line endings after and before normalisation.
use duck_hunt.Prelude.{
  ◌≤◌, ◌≡◌, refl, ap, ◌==◌, Bool, true, false, ◌||◌, ◌&&◌, not, [], ◌∷◌, Text, length, arith,
  contains,
}
use duck_hunt.Lines.{
  cr, lf, normalize_line_endings, LineEndings, scan_line_endings, name_line_ending,
  detect_line_ending,
}
use duck_hunt.Lines.Split.{FreeOf}

-- No `\r` is left.
pub normalize_line_endings-FreeOf : (s : Text) → FreeOf cr (normalize_line_endings s)
unfolding normalize_line_endings
normalize_line_endings-FreeOf [] = tt
normalize_line_endings-FreeOf (c ∷ []) = ground arith
normalize_line_endings-FreeOf (c ∷ d ∷ s) =
    ground (arith, normalize_line_endings-FreeOf s, normalize_line_endings-FreeOf (d ∷ s))

-- A text without `\r` stays as it is.
pub normalize_line_endings_id : (s : Text) → FreeOf cr s → normalize_line_endings s ≡ s
unfolding normalize_line_endings
normalize_line_endings_id [] h = refl
normalize_line_endings_id (c ∷ []) h = ground arith
normalize_line_endings_id (c ∷ d ∷ s) h = ground (arith, normalize_line_endings_id (d ∷ s) h.1)

-- The normalised text is no longer than the text.
pub length-normalize_line_endings : (s : Text) → length (normalize_line_endings s) ≤ length s
unfolding normalize_line_endings
length-normalize_line_endings [] = omega arith
length-normalize_line_endings (c ∷ []) = ground arith
length-normalize_line_endings (c ∷ d ∷ s) =
    ground (arith, length-normalize_line_endings s, length-normalize_line_endings (d ∷ s))

-- Is there a `\r` with no `\n` behind it?
abbrev pub has_lone_cr : Text → Bool
has_lone_cr [] = false
has_lone_cr (c ∷ []) = c == cr
has_lone_cr (c ∷ d ∷ s) = (c == cr && not (d == lf)) || has_lone_cr (d ∷ s)

-- The same for a `\n` with no `\r` before it, where `after` tells that a `\r` stands before the text.
abbrev pub has_lone_lf : Bool → Text → Bool
has_lone_lf after [] = false
has_lone_lf after (c ∷ s) = (c == lf && not after) || has_lone_lf (c == cr) s

abbrev pub joined : LineEndings → Text → LineEndings
joined f s = record {
  has_cr = f.has_cr || has_lone_cr s;
  has_lf = f.has_lf || has_lone_lf false s;
  has_crlf = f.has_crlf || contains (cr ∷ lf ∷ []) s;
}

has_lone_cr-lf : (s : Text) → has_lone_cr (lf ∷ s) ≡ has_lone_cr s
has_lone_cr-lf [] = refl
has_lone_cr-lf (c ∷ s) = refl

-- The scan finds each kind of line ending exactly where the text has one.
pub scan_line_endings-eq-joined : (f : LineEndings) (s : Text) → scan_line_endings f s ≡ joined f s
unfolding scan_line_endings contains
scan_line_endings-eq-joined f [] = ground arith
scan_line_endings-eq-joined f (c ∷ []) = ground arith
scan_line_endings-eq-joined f (c ∷ d ∷ s) = ground (
  arith,
  scan_line_endings-eq-joined (record f { has_crlf = true }) s,
  scan_line_endings-eq-joined (record f { has_cr = true }) (d ∷ s),
  scan_line_endings-eq-joined (record f { has_lf = true }) (d ∷ s),
  scan_line_endings-eq-joined f (d ∷ s),
  has_lone_cr-lf s,
)

abbrev pub nothing_seen : LineEndings
nothing_seen = record { has_cr = false; has_lf = false; has_crlf = false }

-- The style that `DetectLineEnding` names: CRLF where one stands anywhere, else LF, else CR.
pub detect_line_ending-joined :
    (s : Text) → detect_line_ending s ≡ name_line_ending (joined nothing_seen s)
unfolding detect_line_ending
detect_line_ending-joined s = ap name_line_ending (scan_line_endings-eq-joined nothing_seen s)
