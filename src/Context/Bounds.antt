-- ===== src/Context/Bounds.antt =====
-- How long the truncated content may be.
use duck_hunt.Prelude.{
  refl, ℕ, ◌+◌, ◌≤◌, ◌≢◌, Text, codes, length, take, length-append, length-take, arith,
}
use duck_hunt.Prelude.Int.{ℤ}
use duck_hunt.Context.{
  ContentMode, full, nothing, limit, smart, simple_truncation, around_event, magnitude,
  last_line_of, truncate_log_content,
}

length-simple_truncation : (content : Text) (n : ℕ) → length (simple_truncation content n) ≤ n + 3
length-simple_truncation content n =
    omega (arith, length-append (take n content) (codes "..."), length-take n content)

-- In every mode but the full one the content that is left has at most the limit and three bytes.
pub length-truncate_log_content :
    (content : Text) (mode : ContentMode) (n : ℕ) (start end : ℤ)
    → mode ≢ full
    → length (truncate_log_content content mode n start end) ≤ n + 3
unfolding truncate_log_content
length-truncate_log_content content full n start end h = absurd (h refl)
length-truncate_log_content content nothing n start end h = omega arith
length-truncate_log_content content limit n start end h =
    ground (arith, length-simple_truncation content n)
length-truncate_log_content content smart n start end h = ground (
  arith,
  length-simple_truncation content n,
  length-simple_truncation (around_event content (magnitude start) (last_line_of start end)) n,
)
