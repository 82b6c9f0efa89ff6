-- ===== src/Tui/Grid/Laws.antt =====
-- internal/tui/grid.go: the cells of the layout, the terminal, and other numbers of columns.
use mathlib.Core.Path.{subst}
use native.Mathlib.Omega.{div_any}
use native.Mathlib.Nat.{mod-lt}
use termcall.Prelude.{
  ℕ, zero, suc, ◌+◌, ◌-◌, ◌*◌, ◌/◌, ◌≤◌, ◌<◌, ◌≡◌, inl, inr, ltb, arith, Bool-cases,
}
use termcall.Tui.Grid.{
  Layout, at_least, rows_for, inner_w_of, inner_h_of, score, search_from, best_cols, layout_at,
  compute_grid,
}

module _ (n term_w term_h : ℕ) where
  -- c is one of the columns below `seen`, and none of them scores higher.
  pub record IsBest (seen c : ℕ) : Type 0 where
    pub low : 1 ≤ c
    pub high : c < seen
    pub best : (d : ℕ) → 1 ≤ d → d < seen → score n term_w term_h d ≤ score n term_w term_h c

  -- One more number of columns, and the better one.
  extend :
      (c old new : ℕ)
      → IsBest c old
      → 1 ≤ new
      → new < c + 1
      → score n term_w term_h old ≤ score n term_w term_h new
      → score n term_w term_h c ≤ score n term_w term_h new
      → IsBest (c + 1) new
  extend c old new h low high better beats = record {
    low = low;
    high = high;
    best = λ d h1 h2. elim (Bool-cases (ltb d c)) [
      | inl t ↦ omega (arith, h.best d h1 (ground arith), better)
      | inr t ↦
          subst (λ x. score n term_w term_h x ≤ score n term_w term_h new) (ground arith) beats
    ];
  }

  search_from-IsBest :
      (best c left : ℕ)
      → IsBest c best
      → IsBest (c + left) (search_from n term_w term_h best c left)
  unfolding search_from
  search_from-IsBest best c zero h = subst (λ e. IsBest e best) (omega arith) h
  search_from-IsBest best c (suc left) h =
      elim (Bool-cases (ltb (score n term_w term_h best) (score n term_w term_h c))) [
        | inl t ↦ rw t (
            subst (λ e. IsBest e (search_from n term_w term_h c (c + 1) left)) (omega arith)
              (search_from-IsBest c (c + 1) left (
                extend c best c h (omega (arith, h.low, h.high)) (omega arith) (ground arith)
                  (omega arith))))
        | inr t ↦ rw t (
            subst (λ e. IsBest e (search_from n term_w term_h best (c + 1) left)) (omega arith)
              (search_from-IsBest best (c + 1) left
                (extend c best best h h.low (omega (arith, h.high)) (omega arith) (ground arith))))
      ]

  first-IsBest : IsBest 2 1
  first-IsBest = record {
    low = omega arith;
    high = omega arith;
    best = λ d h1 h2.
        let same : 1 ≡ d = omega arith in
        subst (λ x. score n term_w term_h x ≤ score n term_w term_h 1) same (omega arith);
  }

quotient : (a c : ℕ) → 0 < c → (c * (a / c) ≤ a) × (a < c * (a / c) + c)
quotient a c h = (omega (arith, div_any a c), omega (arith, div_any a c, mod-lt a h))

-- A layout that holds n cells in a terminal of w columns and h rows of text.
pub record Fits (n w h : ℕ) (l : Layout) : Type 0 where
  pub columns : IsBest n w h (n + 1) l.cols
  pub rows : ℕ
  pub holds : n ≤ l.cols * rows
  pub within_w : l.cols * l.box_w ≤ w
  pub within_h : rows * l.box_h ≤ h
  pub inner_w_low : 10 ≤ l.inner_w
  pub inner_h_low : 5 ≤ l.inner_h
  pub inner_w_fits : 12 ≤ l.box_w → l.inner_w + 2 ≡ l.box_w
  pub inner_h_fits : 8 ≤ l.box_h → l.inner_h + 3 ≡ l.box_h

-- For at least one cell, the grid has a place for each, its boxes side by side are within the
-- terminal in both directions, the inner frame is at least 10 by 5 and leaves room for the margins
-- wherever the box has that room, and no other number of columns up to that of the cells scores
-- higher.
pub compute_grid-Fits : (n w h : ℕ) → 1 ≤ n → Fits n w h (compute_grid n w h)
unfolding compute_grid best_cols rows_for inner_w_of inner_h_of at_least layout_at
compute_grid-Fits zero w h pos = absurd (omega arith)
compute_grid-Fits (suc n) w h pos =
    let c : ℕ = best_cols (suc n) w h in
    let best : IsBest (suc n) w h (suc n + 1) c =
      subst (λ e. IsBest (suc n) w h e c) (omega arith)
        (search_from-IsBest (suc n) w h 1 2 (suc n - 1) (first-IsBest (suc n) w h)) in
    let (below, above) = quotient (suc n + c - 1) c best.low in
    let r : ℕ = rows_for (suc n) c in
    record {
      columns = best;
      rows = r;
      holds = omega (arith, above);
      within_w = omega (arith, div_any w c);
      within_h = omega (arith, div_any h r);
      inner_w_low = ground arith;
      inner_h_low = ground arith;
      inner_w_fits = λ e. ground arith;
      inner_h_fits = λ e. ground arith;
    }
