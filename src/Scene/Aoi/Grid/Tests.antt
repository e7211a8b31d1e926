-- ===== src/Scene/Aoi/Grid/Tests.antt =====
-- A concrete grid.
use mmorpg_game_server.Common.{ℕ, ◌<◌, ◌≡◌, refl, true, none, some, List, [], ◌∷◌, arith, length}
use mmorpg_game_server.Scene.Aoi.Grid.{
  AoiGrid, create, try_cell_of, outside, watch_row, watch_rows, watch_cells_around, fits_around,
  get_watch_cell_idx, visible,
}
use mmorpg_game_server.Scene.Aoi.Grid.Watch.{
  mem, IsGrid, visible-get_watch_cell_idx, get_watch_cell_idx-lt,
}

-- Four columns and three rows of cells of size ten, watched one cell wide.
abbrev small_grid : AoiGrid
small_grid = create 0 0 4 3 10 1

small_grid-IsGrid : IsGrid small_grid
unfolding create
small_grid-IsGrid = record {
  cols_lt = omega arith;
  cells_eq = refl;
  cells_le = omega arith;
  cols_fit = omega arith;
  rows_fit = omega arith;
}

-- The corner watches four cells.
watch_corner : get_watch_cell_idx small_grid 5 9 ≡ some (0 ∷ 1 ∷ 4 ∷ 5 ∷ [])
unfolding get_watch_cell_idx fits_around try_cell_of outside watch_cells_around watch_rows watch_row
    create
watch_corner = refl

visible-get_watch_cell_idx_example :
    (cells : List ℕ) × (get_watch_cell_idx small_grid 35 29 ≡ some cells)
    × ((b : ℕ) → visible small_grid 11 b ≡ some (mem b cells))
unfolding try_cell_of outside create
visible-get_watch_cell_idx_example =
    visible-get_watch_cell_idx small_grid 35 29 11 small_grid-IsGrid refl

get_watch_cell_idx-lt_example :
    (cells : List ℕ) × (get_watch_cell_idx small_grid 5 9 ≡ some cells)
    × ((b : ℕ) → mem b cells ≡ true → b < length small_grid.cells)
get_watch_cell_idx-lt_example = get_watch_cell_idx-lt small_grid 5 9 small_grid-IsGrid

-- A radius of 2 ^ 31 - 1, which the configuration allows: the sum overflows for the second column.
overflow : get_watch_cell_idx (create 0 0 4 3 1 2147483647) 1 0 ≡ none
unfolding get_watch_cell_idx fits_around try_cell_of outside create
overflow = refl
