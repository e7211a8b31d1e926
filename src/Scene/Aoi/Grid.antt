-- ===== src/Scene/Aoi/Grid.antt =====
-- The cells of the map (sceneServer/src-cpp/service/aoi/aoiGrid.h and aoiGrid.cc). `none` of
-- `get_watch_cell_idx` and `visible` stands for a number that does not fit into an int32_t, where
-- the source's cast changes it or its sum is undefined.
pub mod Watch
mod Tests
use mmorpg_game_server.Common.{
  ℕ, zero, suc, ◌+◌, ◌-◌, ◌*◌, ◌/◌, ◌%◌, ◌^◌, ◌≤◌, ◌<◌, min, ◌≡◌, refl, sym, ap, ◌∙◌, ◌≢◌, ◌⊎◌, inl,
  inr, ◌↔◌, Bool, true, false, ◌&&◌, ◌||◌, not, Option, none, some, List, [], ◌∷◌, ◌++◌, map,
  append-nil, append_assoc, arith, ltb, leb, ◌==◌, if◌then◌else◌, Bool-cases, Option-cases, ==-refl,
  ltb→lt, lt→ltb, le→not_ltb, not_ltb→le, ==→eq, length, get_or, take, drop, replicate, retain,
  length-append, length-take, length-drop, length-replicate, take_all, drop_all, take-length-append,
  drop-length-append, drop-drop, drop-take, take-take, take-append-drop, take-append_le,
  drop-append_le, length-retain-le, All, All-append,
}

pub record AoiCell : Type 0 where
  pub entities : List ℕ
  pub watchers : List ℕ

pub record AoiGrid : Type 0 where
  pub min_x : ℕ
  pub min_y : ℕ
  pub cols : ℕ
  pub rows : ℕ
  pub cell_size : ℕ
  pub view_radius : ℕ
  pub cells : List AoiCell

abbrev empty_cell : AoiCell
empty_cell = record { entities = []; watchers = [] }

pub create : ℕ → ℕ → ℕ → ℕ → ℕ → ℕ → AoiGrid
create min_x min_y cols rows cell_size radius = record {
  min_x = min_x;
  min_y = min_y;
  cols = cols;
  rows = rows;
  cell_size = cell_size;
  view_radius = radius;
  cells = if ltb 0 cols && ltb 0 rows then replicate (cols * rows) empty_cell else [];
}

-- The number of a cell, in 32 bits.
abbrev pub cell_at : AoiGrid → ℕ → ℕ → ℕ
cell_at g row col = (row * g.cols + col) % 2 ^ 32

pub outside : AoiGrid → ℕ → ℕ → Bool
outside g x y =
    ltb x g.min_x
    || (leb (g.min_x + g.cols * g.cell_size) x
        || (ltb y g.min_y || leb (g.min_y + g.rows * g.cell_size) y))

pub try_cell_of : AoiGrid → ℕ → ℕ → Option ℕ
unfolding outside
try_cell_of g x y =
    if g.cell_size == 0 || (g.cols == 0 || g.rows == 0)
    then none
    else if outside g x y
    then none
    else some (cell_at g ((y - g.min_y) / g.cell_size) ((x - g.min_x) / g.cell_size))

-- A number that an int32_t holds.
abbrev pub fits_int32 : ℕ → Bool
fits_int32 n = ltb n (2 ^ 31)

-- The first of the watched columns or rows, and how many there are, cut to the grid. These are
-- the source's numbers where `fits_around` holds.
abbrev pub first_of : ℕ → ℕ → ℕ
first_of center radius = center - radius

abbrev last_of : ℕ → ℕ → ℕ → ℕ
last_of center radius n = if leb n (center + radius) then n - 1 else center + radius

abbrev pub count_of : ℕ → ℕ → ℕ → ℕ
count_of center radius n = (last_of center radius n + 1) - first_of center radius

-- The inner and the outer loop, by how many columns and rows are left.
pub watch_row : AoiGrid → ℕ → ℕ → ℕ → List ℕ
watch_row g row col zero = []
watch_row g row col (suc n) = cell_at g row col ∷ watch_row g row (suc col) n

pub watch_rows : AoiGrid → ℕ → ℕ → ℕ → ℕ → List ℕ
unfolding watch_row
watch_rows g col width row zero = []
watch_rows g col width row (suc n) = watch_row g row col width ++ watch_rows g col width (suc row) n

pub watch_cells_around : AoiGrid → ℕ → List ℕ
unfolding watch_rows
watch_cells_around g cell =
    watch_rows g (first_of (cell % g.cols) g.view_radius)
      (count_of (cell % g.cols) g.view_radius g.cols) (first_of (cell / g.cols) g.view_radius)
      (count_of (cell / g.cols) g.view_radius g.rows)

-- The casts keep the numbers, and no sum overflows. (The differences are above - 2 ^ 31.)
pub fits_around : AoiGrid → ℕ → Bool
fits_around g cell =
    fits_int32 g.view_radius
    && (fits_int32 g.cols
        && (fits_int32 g.rows
            && (fits_int32 (cell % g.cols + g.view_radius)
                && fits_int32 (cell / g.cols + g.view_radius))))

pub get_watch_cell_idx : AoiGrid → ℕ → ℕ → Option (List ℕ)
unfolding fits_around
get_watch_cell_idx g x y = elim (try_cell_of g x y) [
  | none ↦ some []
  | some cell ↦ if fits_around g cell then some (watch_cells_around g cell) else none
]

abbrev pub distance : ℕ → ℕ → ℕ
distance a b = if ltb b a then a - b else b - a

-- The distance in columns and the one in rows are within the radius.
pub in_square : AoiGrid → ℕ → ℕ → Bool
in_square g a b =
    leb (distance (a % g.cols) (b % g.cols)) g.view_radius
    && leb (distance (a / g.cols) (b / g.cols)) g.view_radius

-- The casts keep the columns, the rows and the radius.
pub fits_pair : AoiGrid → ℕ → ℕ → Bool
fits_pair g a b =
    fits_int32 g.view_radius
    && (fits_int32 (a % g.cols)
        && (fits_int32 (b % g.cols) && (fits_int32 (a / g.cols) && fits_int32 (b / g.cols))))

pub visible : AoiGrid → ℕ → ℕ → Option Bool
unfolding in_square fits_pair
visible g a b =
    if leb (length g.cells) a || leb (length g.cells) b
    then some false
    else if fits_pair g a b
    then some (in_square g a b)
    else none

-- A cell replaced, where there is one.
at_cell : (AoiCell → AoiCell) → ℕ → List AoiCell → List AoiCell
at_cell f n [] = []
at_cell f zero (c ∷ cs) = f c ∷ cs
at_cell f (suc n) (c ∷ cs) = c ∷ at_cell f n cs

pub add_entity : AoiGrid → ℕ → ℕ → AoiGrid
unfolding at_cell
add_entity g entity cell = record g {
  cells = at_cell (λ c. record c { entities = c.entities ++ (entity ∷ []) }) cell g.cells;
}

pub remove_entity : AoiGrid → ℕ → ℕ → AoiGrid
unfolding at_cell
remove_entity g entity cell = record g {
  cells =
      at_cell (λ c. record c { entities = retain (λ e. not (e == entity)) c.entities }) cell
        g.cells;
}

pub add_watcher : AoiGrid → ℕ → ℕ → AoiGrid
unfolding at_cell
add_watcher g observer cell = record g {
  cells = at_cell (λ c. record c { watchers = c.watchers ++ (observer ∷ []) }) cell g.cells;
}

pub remove_watcher : AoiGrid → ℕ → ℕ → AoiGrid
unfolding at_cell
remove_watcher g observer cell = record g {
  cells =
      at_cell (λ c. record c { watchers = retain (λ e. not (e == observer)) c.watchers }) cell
        g.cells;
}

-- `entities` and `watchers`; out of range they are empty.
pub entities_of : AoiGrid → ℕ → List ℕ
entities_of g cell = (get_or g.cells cell empty_cell).entities

pub watchers_of : AoiGrid → ℕ → List ℕ
watchers_of g cell = (get_or g.cells cell empty_cell).watchers
