-- ===== src/Chunker/Bounds.antt =====
-- Where a window ends and where the next one begins: each window moves on, stays in the page and
-- within the configured size, and leaves no gap.
use document_insight.Prelude.{ℕ, zero, suc, ◌+◌, ◌-◌, ◌/◌, ◌≤◌, ◌<◌, length, arith, min, max}
use document_insight.Chunker.Text.{Text}
use document_insight.Chunker.Window.{
  Chunker, break_from, preferred_break, back_from, next_start, window_end,
}

break_from_bounds :
    (text : Text) (end minimum rounds : ℕ)
    → minimum + rounds ≤ end
    → minimum < end
    → (minimum < break_from text end minimum rounds) × (break_from text end minimum rounds ≤ end)
unfolding break_from
break_from_bounds text end minimum zero h k = omega arith
break_from_bounds text end minimum (suc rounds) h k =
    ground (arith, break_from_bounds text end minimum rounds (omega arith) k)

preferred_break_bounds :
    (text : Text) (start end : ℕ)
    → start < end
    → (start < preferred_break text start end) × (preferred_break text start end ≤ end)
unfolding preferred_break
preferred_break_bounds text start end h =
    let minimum = start + (end - start) / 2 in
    omega (arith, break_from_bounds text end minimum (end - minimum) (omega arith) (omega arith))

-- A window that begins in the page takes at least one character, and at most `max_chars`.
pub window_end_bounds :
    (c : Chunker) (page : Text) (start : ℕ)
    → 0 < c.max_chars
    → start < length page
    → (start < window_end c page start)
      × (window_end c page start ≤ start + c.max_chars)
      × (window_end c page start ≤ length page)
unfolding window_end
window_end_bounds c page start pos inside = ground (
  arith,
  preferred_break_bounds page start (min (start + c.max_chars) (length page)) (omega arith),
)

back_from_bounds :
    (text : Text) (base rounds : ℕ)
    → (base ≤ back_from text base rounds) × (back_from text base rounds ≤ base + rounds)
unfolding back_from
back_from_bounds text base zero = omega arith
back_from_bounds text base (suc rounds) = ground (arith, back_from_bounds text base rounds)

-- The next window begins behind the start of this one and not behind its end.
pub next_start_bounds :
    (c : Chunker) (page : Text) (start end : ℕ)
    → start < end
    → (start < next_start c page start end) × (next_start c page start end ≤ end)
unfolding next_start
next_start_bounds c page start end h = omega (
  arith,
  back_from_bounds page (start + 1) (max (end - c.overlap_chars) (start + 1) - (start + 1)),
)
