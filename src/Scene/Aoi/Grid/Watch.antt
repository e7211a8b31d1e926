-- ===== src/Scene/Aoi/Grid/Watch.antt =====
-- The watched cells and visibility (sceneServer/src-cpp/service/aoi/aoiGrid.cc).
use native.Mathlib.Nat.{
  mul-add-div_right, div-eq_of_lt, mod-lt, mod-eq_of_lt, div-add-mod', div-lt_iff_lt-mul,
  mul-le-mul_right, mul-add-mod_self_right, le-div_iff_mul-le,
}
use mmorpg_game_server.Common.{
  ℕ, zero, suc, ◌+◌, ◌-◌, ◌*◌, ◌/◌, ◌%◌, ◌^◌, ◌≤◌, ◌<◌, ◌≡◌, refl, sym, ◌∙◌, inl, inr, Bool, true,
  false, ◌&&◌, ◌||◌, some, List, [], ◌∷◌, ◌++◌, arith, ltb, leb, ◌==◌, Bool-cases, Option-cases,
  ==-refl, some-inj, lt→ltb, le→not_ltb, ==→eq, length, ap,
}
use mmorpg_game_server.Scene.Aoi.Grid.{
  AoiGrid, cell_at, try_cell_of, outside, first_of, count_of, watch_row, watch_rows,
  watch_cells_around, fits_around, get_watch_cell_idx, distance, in_square, fits_pair, visible,
}

abbrev pub mem : ℕ → List ℕ → Bool
mem b [] = false
mem b (x ∷ xs) = x == b || mem b xs

mem-append : (b : ℕ) (xs ys : List ℕ) → mem b (xs ++ ys) ≡ (mem b xs || mem b ys)
mem-append b [] ys = refl
mem-append b (x ∷ xs) ys = ground (arith, mem-append b xs ys)

-- A cell for every column and row, and numbers for all of them in 32 bits; the columns and the
-- rows are few enough beside the radius for int32_t.
pub record IsGrid (g : AoiGrid) : Type 0 where
  pub cols_lt : 0 < g.cols
  pub cells_eq : length g.cells ≡ g.rows * g.cols
  pub cells_le : g.rows * g.cols ≤ 2 ^ 32
  pub cols_fit : g.cols + g.view_radius < 2 ^ 31
  pub rows_fit : g.rows + g.view_radius < 2 ^ 31

cell-lt :
    (g : AoiGrid) (row col : ℕ) → row < g.rows → col < g.cols → row * g.cols + col < g.rows * g.cols
cell-lt g row col r c = omega (arith, mul-le-mul_right {m = suc row} {n = g.rows} g.cols r)

composed :
    (g : AoiGrid) (row col b : ℕ)
    → (b / g.cols == row) ≡ true
    → (b % g.cols == col) ≡ true
    → (row * g.cols + col == b) ≡ true
composed g row col b u w =
    rw (← ==→eq (b / g.cols) row u, ← ==→eq (b % g.cols) col w, div-add-mod' b g.cols) (==-refl b)

cell-eq :
    (g : AoiGrid) (row col b : ℕ)
    → IsGrid g
    → row < g.rows
    → col < g.cols
    → (cell_at g row col == b) ≡ (b / g.cols == row && b % g.cols == col)
cell-eq g row col b h r c =
    let small : cell_at g row col ≡ row * g.cols + col =
      mod-eq_of_lt (let l = cell-lt g row col r c in let k = h.cells_le in omega arith) in
    let quotient : (row * g.cols + col) / g.cols ≡ row =
      mul-add-div_right h.cols_lt row col ∙ (rw (div-eq_of_lt c) (omega arith)) in
    let rest : (row * g.cols + col) % g.cols ≡ col =
      mul-add-mod_self_right row g.cols col ∙ mod-eq_of_lt c in
    rw small (elim (Bool-cases (row * g.cols + col == b)) [
      | inl q ↦
          rw (q, ← ==→eq (row * g.cols + col) b q, quotient, rest, ==-refl row, ==-refl col) refl
      | inr q ↦ elim (Bool-cases (b / g.cols == row)) [
        | inr u ↦ rw (q, u) refl
        | inl u ↦ elim (Bool-cases (b % g.cols == col)) [
          | inr w ↦ rw (q, u, w) refl
          | inl w ↦ absurd (cc (q, composed g row col b u w))
        ]
      ]
    ])

axis :
    (center x radius n : ℕ)
    → center < n
    → x < n
    → leb (distance center x) radius ≡ (
        leb (first_of center radius) x && ltb x (first_of center radius + count_of center radius n))
axis center x radius n c l = ground arith

one_more :
    (q row col r n : ℕ)
    → ((q == row && r == col) || (q == row && (leb (suc col) r && ltb r (suc col + n))))
      ≡ (q == row && (leb col r && ltb r (col + suc n)))
one_more q row col r n = ground arith

one_row :
    (q row n : ℕ) (inside : Bool)
    → ((q == row && inside) || ((leb (suc row) q && ltb q (suc row + n)) && inside))
      ≡ ((leb row q && ltb q (row + suc n)) && inside)
one_row q row n true = ground arith
one_row q row n false = ground arith

mem-watch_row :
    (g : AoiGrid) (row col n b : ℕ)
    → IsGrid g
    → row < g.rows
    → col + n ≤ g.cols
    → mem b (watch_row g row col n)
      ≡ (b / g.cols == row && (leb col (b % g.cols) && ltb (b % g.cols) (col + n)))
unfolding watch_row
mem-watch_row g row col zero b h r c = ground arith
mem-watch_row g row col (suc n) b h r c =
    rw
      (
        watch_row,
        cell-eq g row col b h r (omega arith),
        mem-watch_row g row (suc col) n b h r (omega arith),
      )
      (one_more (b / g.cols) row col (b % g.cols) n)

mem-watch_rows :
    (g : AoiGrid) (col width row n b : ℕ)
    → IsGrid g
    → row + n ≤ g.rows
    → col + width ≤ g.cols
    → mem b (watch_rows g col width row n) ≡ (
        (leb row (b / g.cols) && ltb (b / g.cols) (row + n))
        && (leb col (b % g.cols) && ltb (b % g.cols) (col + width)))
unfolding watch_rows
mem-watch_rows g col width row zero b h r c = ground arith
mem-watch_rows g col width row (suc n) b h r c =
    rw
      (
        watch_rows,
        mem-append b (watch_row g row col width) (watch_rows g col width (suc row) n),
        mem-watch_row g row col width b h (omega arith) c,
        mem-watch_rows g col width (suc row) n b h (omega arith) c,
      )
      (one_row (b / g.cols) row n (leb col (b % g.cols) && ltb (b % g.cols) (col + width)))

-- The watched columns or rows stay in the grid.
range-le :
    (center radius n : ℕ) → center < n → first_of center radius + count_of center radius n ≤ n
range-le center radius n c = ground arith

quotient-lt : (g : AoiGrid) (b : ℕ) → IsGrid g → b < length g.cells → b / g.cols < g.rows
quotient-lt g b h l = (div-lt_iff_lt-mul h.cols_lt).1 (let e = h.cells_eq in omega arith)

-- A position inside the map has a cell.
try_cell_of-lt :
    (g : AoiGrid) (x y a : ℕ) → IsGrid g → try_cell_of g x y ≡ some a → a < length g.cells
unfolding try_cell_of outside
try_cell_of-lt g x y a h e = elim (Bool-cases (g.cell_size == 0 || (g.cols == 0 || g.rows == 0))) [
  | inl c ↦ absurd (cc (rw (try_cell_of, c) at e))
  | inr c ↦ elim (Bool-cases (outside g x y)) [
    | inl o ↦ absurd (cc (rw (try_cell_of, c, o) at e))
    | inr o ↦
        let size : 0 < g.cell_size = ground (arith, c) in
        let col : (x - g.min_x) / g.cell_size < g.cols =
          (div-lt_iff_lt-mul size).1 (ground (arith, o)) in
        let row : (y - g.min_y) / g.cell_size < g.rows =
          (div-lt_iff_lt-mul size).1 (ground (arith, o)) in
        let lt = cell-lt g ((y - g.min_y) / g.cell_size) ((x - g.min_x) / g.cell_size) row col in
        let small =
          mod-eq_of_lt {n = ((y - g.min_y) / g.cell_size) * g.cols + (x - g.min_x) / g.cell_size}
            {m = 2 ^ 32} (let k = h.cells_le in omega arith) in
        rw (h.cells_eq, ← some-inj (rw (try_cell_of, c, o) at e), small) lt
  ]
]

and_comm : (a b : Bool) → (a && b) ≡ (b && a)
and_comm true true = refl
and_comm true false = refl
and_comm false true = refl
and_comm false false = refl

and_false : (x c : Bool) → ((x && false) && c) ≡ false
and_false true c = refl
and_false false c = refl

abbrev within : ℕ → ℕ → ℕ → Bool
within first count x = leb first x && ltb x (first + count)

pair_fits :
    (g : AoiGrid) (a b : ℕ)
    → IsGrid g
    → a < length g.cells
    → b < length g.cells
    → fits_pair g a b ≡ true
unfolding fits_pair
pair_fits g a b h l k =
    let c1 = mod-lt a h.cols_lt in
    let c2 = mod-lt b h.cols_lt in
    let r1 = quotient-lt g a h l in
    let r2 = quotient-lt g b h k in
    let cf = h.cols_fit in
    let rf = h.rows_fit in
    rw
      (
        lt→ltb g.view_radius (2 ^ 31) (omega arith),
        lt→ltb (a % g.cols) (2 ^ 31) (omega arith),
        lt→ltb (b % g.cols) (2 ^ 31) (omega arith),
        lt→ltb (a / g.cols) (2 ^ 31) (omega arith),
        lt→ltb (b / g.cols) (2 ^ 31) (omega arith),
      )
      refl

around_fits : (g : AoiGrid) (a : ℕ) → IsGrid g → a < length g.cells → fits_around g a ≡ true
unfolding fits_around
around_fits g a h l =
    let c1 = mod-lt a h.cols_lt in
    let r1 = quotient-lt g a h l in
    let cf = h.cols_fit in
    let rf = h.rows_fit in
    rw
      (
        lt→ltb g.view_radius (2 ^ 31) (omega arith),
        lt→ltb g.cols (2 ^ 31) (omega arith),
        lt→ltb g.rows (2 ^ 31) (omega arith),
        lt→ltb (a % g.cols + g.view_radius) (2 ^ 31) (omega arith),
        lt→ltb (a / g.cols + g.view_radius) (2 ^ 31) (omega arith),
      )
      refl

around :
    (g : AoiGrid) (a b : ℕ)
    → IsGrid g
    → a < length g.cells
    → visible g a b ≡ some (mem b (watch_cells_around g a))
unfolding visible in_square watch_cells_around
around g a b h l =
    let own : leb (length g.cells) a ≡ false = ground arith in
    let cols : a % g.cols < g.cols = mod-lt a h.cols_lt in
    let rows : a / g.cols < g.rows = quotient-lt g a h l in
    let watched =
      mem-watch_rows g (first_of (a % g.cols) g.view_radius)
        (count_of (a % g.cols) g.view_radius g.cols) (first_of (a / g.cols) g.view_radius)
        (count_of (a / g.cols) g.view_radius g.rows) b h
        (range-le (a / g.cols) g.view_radius g.rows rows)
        (range-le (a % g.cols) g.view_radius g.cols cols) in
    elim (Bool-cases (leb (length g.cells) b)) [
      | inr k ↦
          rw
            (
              own,
              k,
              pair_fits g a b h l (ground (arith, k)),
              axis (a % g.cols) (b % g.cols) g.view_radius g.cols cols (mod-lt b h.cols_lt),
              axis (a / g.cols) (b / g.cols) g.view_radius g.rows rows
                  (quotient-lt g b h (ground (arith, k))),
            )
            (ap (λ c. some c)
              (and_comm
                  (within (first_of (a % g.cols) g.view_radius)
                    (count_of (a % g.cols) g.view_radius g.cols) (b % g.cols))
                  (within (first_of (a / g.cols) g.view_radius)
                    (count_of (a / g.cols) g.view_radius g.rows) (b / g.cols))
                ∙ sym watched))
      | inl k ↦
          let beyond : g.rows ≤ b / g.cols =
            (le-div_iff_mul-le h.cols_lt).1 (let e = h.cells_eq in ground (arith, k, e)) in
          let ends = range-le (a / g.cols) g.view_radius g.rows rows in
          let after : ltb (b / g.cols)
                (first_of (a / g.cols) g.view_radius + count_of (a / g.cols) g.view_radius g.rows)
              ≡ false =
            le→not_ltb _ _ (omega arith) in
          rw (own, k)
            (ap (λ c. some c)
              (sym (
                watched
                ∙ rw after (
                    and_false (leb (first_of (a / g.cols) g.view_radius) (b / g.cols)) (
                      within (first_of (a % g.cols) g.view_radius)
                        (count_of (a % g.cols) g.view_radius g.cols) (b % g.cols))))))
    ]

hidden : (g : AoiGrid) (a b : ℕ) → leb (length g.cells) b ≡ true → visible g a b ≡ some false
unfolding visible
hidden g a b k = elim (Bool-cases (leb (length g.cells) a)) [
  | inl c ↦ rw (visible, c) refl
  | inr c ↦ rw (visible, c, k) refl
]

-- On a sound grid, the watched cells of a position exist within int32_t, and a cell is visible
-- from the cell of the position exactly where it is one of them. The grid has a cell for every
-- column and row, whose numbers fit in 32 bits; the columns plus the radius and the rows plus the
-- radius are below 2 ^ 31; and the position lies in the grid.
pub visible-get_watch_cell_idx :
    (g : AoiGrid) (x y a : ℕ)
    → IsGrid g
    → try_cell_of g x y ≡ some a
    → (cells : List ℕ) × (get_watch_cell_idx g x y ≡ some cells)
      × ((b : ℕ) → visible g a b ≡ some (mem b cells))
unfolding get_watch_cell_idx
visible-get_watch_cell_idx g x y a h e =
    let l = try_cell_of-lt g x y a h e in
    (
      watch_cells_around g a,
      rw (get_watch_cell_idx, e, around_fits g a h l) refl,
      (λ b. around g a b h l),
    )

-- For every position, inside the map or not, the watched cells exist within int32_t, and all of
-- them are cells of the grid. The grid has a cell for every column and row, whose numbers fit in
-- 32 bits, and the columns plus the radius and the rows plus the radius are below 2 ^ 31.
pub get_watch_cell_idx-lt :
    (g : AoiGrid) (x y : ℕ)
    → IsGrid g
    → (cells : List ℕ) × (get_watch_cell_idx g x y ≡ some cells)
      × ((b : ℕ) → mem b cells ≡ true → b < length g.cells)
unfolding get_watch_cell_idx
get_watch_cell_idx-lt g x y h = elim (Option-cases (try_cell_of g x y)) [
  | inl e ↦ ([], rw (get_watch_cell_idx, e) refl, (λ b m. absurd (cc (m))))
  | inr (a, e) ↦
      let both = visible-get_watch_cell_idx g x y a h e in
      (
        both.0,
        both.1,
        (λ b m. elim (Bool-cases (leb (length g.cells) b)) [
          | inr k ↦ ground (arith, k)
          | inl k ↦ absurd (cc (m, some-inj (sym (both.2 b) ∙ hidden g a b k)))
        ]),
      )
]
