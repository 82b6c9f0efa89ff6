-- ===== src/Tui/Grid.antt =====
-- internal/tui/grid.go: `computeGrid`. The sizes are of a terminal, at least 0, and small: no product
-- wraps.
pub mod Laws
mod Tests
use termcall.Prelude.{ℕ, zero, suc, ◌+◌, ◌-◌, ◌*◌, ◌/◌, Bool, ltb, leb, if◌then◌else◌}
use termcall.Ascii.Frame.{max_frame_width}

-- The five results, `box` for the cells' outer size and `inner` for the frame within.
pub record Layout : Type 0 where
  pub cols : ℕ
  pub box_w : ℕ
  pub box_h : ℕ
  pub inner_w : ℕ
  pub inner_h : ℕ

unfoldable pub at_least : ℕ → ℕ → ℕ
at_least low n = if ltb n low then low else n

unfoldable pub rows_for : ℕ → ℕ → ℕ
rows_for peer_count c = (peer_count + c - 1) / c

-- One margin around a cell, and the top bar.
unfoldable pub inner_w_of : ℕ → ℕ → ℕ
unfolding at_least
inner_w_of term_w c = at_least 10 (term_w / c - 2)

unfoldable pub inner_h_of : ℕ → ℕ → ℕ
unfolding at_least
inner_h_of term_h r = at_least 5 (term_h / r - 3)

score_of : ℕ → ℕ → ℕ
score_of w h = if leb max_frame_width w then w * h + 1000000 else w * h + w * 1000

unfoldable pub score : ℕ → ℕ → ℕ → ℕ → ℕ
unfolding score_of inner_w_of inner_h_of rows_for
score peer_count term_w term_h c =
    score_of (inner_w_of term_w c) (inner_h_of term_h (rows_for peer_count c))

-- `best`, the columns of the highest score so far, the first of those that share it. The loop begins
-- at two columns: one column beats the score of -1.
unfoldable pub search_from : ℕ → ℕ → ℕ → ℕ → ℕ → ℕ → ℕ
search_from peer_count term_w term_h best c zero = best
search_from peer_count term_w term_h best c (suc left) =
    let next = search_from peer_count term_w term_h c (c + 1) left in
    let same = search_from peer_count term_w term_h best (c + 1) left in
    if ltb (score peer_count term_w term_h best) (score peer_count term_w term_h c)
    then next
    else same

unfoldable pub best_cols : ℕ → ℕ → ℕ → ℕ
best_cols peer_count term_w term_h = search_from peer_count term_w term_h 1 2 (peer_count - 1)

layout_at : ℕ → ℕ → ℕ → ℕ → Layout
layout_at peer_count term_w term_h c = record {
  cols = c;
  box_w = term_w / c;
  box_h = term_h / rows_for peer_count c;
  inner_w = inner_w_of term_w c;
  inner_h = inner_h_of term_h (rows_for peer_count c);
}

unfoldable pub compute_grid : ℕ → ℕ → ℕ → Layout
unfolding layout_at
compute_grid zero term_w term_h = record {
  cols = 1;
  box_w = term_w;
  box_h = term_h;
  inner_w = 40;
  inner_h = 15;
}
compute_grid (suc n) term_w term_h =
    layout_at (suc n) term_w term_h (best_cols (suc n) term_w term_h)
