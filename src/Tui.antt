-- ===== src/Tui.antt =====
-- internal/tui: the grid of the call's video cells, the call and the screens around it.
pub mod Grid
pub mod Model
pub mod Call
pub mod App
