-- ===== src/Tui/Grid/Tests.antt =====
-- Three cells in a terminal of 120 columns and 40 rows.
use termcall.Prelude.{◌≡◌, refl, arith}
use termcall.Tui.Grid.{
  compute_grid, best_cols, rows_for, inner_w_of, inner_h_of, search_from, score,
}
use termcall.Tui.Grid.Laws.{Fits, compute_grid-Fits}

compute_grid-Fits_example : Fits 3 120 40 (compute_grid 3 120 40)
compute_grid-Fits_example = compute_grid-Fits 3 120 40 (omega arith)

three_cells :
    compute_grid 3 120 40
    ≡ record { cols = 1; box_w = 120; box_h = 13; inner_w = 118; inner_h = 10 }
unfolding compute_grid best_cols rows_for inner_w_of inner_h_of search_from score
three_cells = refl
