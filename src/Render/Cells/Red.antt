-- ===== src/Render/Cells/Red.antt =====
-- No hostage of the window is hidden on the text map of packages/fragview/render.go.
use native.Mathlib.Nat.{div-add-mod', mod-lt}
use zfs_slab_mobility.Prelude.{
  ℕ, zero, suc, ◌+◌, ◌-◌, ◌*◌, ◌/◌, ◌%◌, max, ◌≤◌, ◌<◌, ◌≡◌, refl, ap, ◌∙◌, Bool, true, false, ◌&&◌,
  ◌||◌, List, [], ◌∷◌, Option, none, some, arith, leb, ◌==◌, if_intro, take, drop, get_elem?,
  ceil_bounds, mul_mono, mul_lt, div_bounds,
}
use zfs_slab_mobility.Render.Summary.{BlockView}
use zfs_slab_mobility.Render.Cells.{
  CellSum, no_cells, add_view, cell_loop, Cell, red, cell_of, cell_for, cells_loop, rows_loop,
  block_map,
}

-- A valid block of the list is a hostage.
abbrev any_hostage : List BlockView → Bool
any_hostage [] = false
any_hostage (v ∷ vs) = (v.valid && v.hostage) || any_hostage vs

add_view-worst :
    (v : BlockView) (s : CellSum) → (add_view v s).worst.hostage ≡ (v.hostage || s.worst.hostage)
add_view-worst v s = ground arith

or_taken : (a v h w : Bool) → v ≡ true → (a || (h || w)) ≡ (((v && h) || a) || w)
or_taken a v h w e = ground arith

or_skipped : (a v h w : Bool) → v ≡ false → (a || w) ≡ (((v && h) || a) || w)
or_skipped a v h w e = ground arith

rest_of : (a v h : Bool) → v ≡ false → ((v && h) || a) ≡ true → a ≡ true
rest_of a v h e k = ground arith

-- The loop has a hostage for its worst if there is one, and has counted a block then.
cell_loop-worst :
    (vs : List BlockView) (s : CellSum)
    → ((cell_loop vs s).worst.hostage ≡ (any_hostage vs || s.worst.hostage))
      × (s.n ≤ (cell_loop vs s).n)
unfolding cell_loop
cell_loop-worst [] s = (refl, omega arith)
cell_loop-worst (v ∷ vs) s =
    if_intro
      (λ (r : CellSum).
        ((cell_loop vs r).worst.hostage ≡ (any_hostage (v ∷ vs) || s.worst.hostage))
        × (s.n ≤ (cell_loop vs r).n))
      v.valid (add_view v s) s
      (λ valid.
        let (worst, n) = cell_loop-worst vs (add_view v s) in
        (
          worst
              ∙ rw (add_view-worst v s)
                  (or_taken (any_hostage vs) v.valid v.hostage s.worst.hostage valid),
          omega (arith, n),
        ))
      (λ skipped.
        let (worst, n) = cell_loop-worst vs s in
        (worst ∙ or_skipped (any_hostage vs) v.valid v.hostage s.worst.hostage skipped, n))

-- With a hostage among them the loop has counted a block.
cell_loop-some :
    (vs : List BlockView) (s : CellSum) → any_hostage vs ≡ true → s.n < (cell_loop vs s).n
unfolding cell_loop
cell_loop-some [] s h = cc
cell_loop-some (v ∷ vs) s h =
    if_intro (λ (r : CellSum). s.n < (cell_loop vs r).n) v.valid (add_view v s) s
      (λ valid. omega (arith, (cell_loop-worst vs (add_view v s)).1))
      (λ skipped. cell_loop-some vs s (rest_of (any_hostage vs) v.valid v.hostage skipped h))

-- A cell with a hostage among its blocks is red.
abbrev pub IsRed : Option Cell → Type 0
IsRed none = ⊥
IsRed (some cell) = cell.colour ≡ red

module _ (level : List BlockView → ℕ) (by_class : Bool) where
  cell_of-IsRed :
      (s : CellSum) → 0 < s.n → s.worst.hostage ≡ true → IsRed (cell_of level by_class s)
  cell_of-IsRed s pos held =
      let some_blocks : (s.n == 0) ≡ false = ground arith in rw (some_blocks, held) refl

  cell_for-IsRed :
      (views : List BlockView) (from per : ℕ)
      → any_hostage (take per (drop from views)) ≡ true
      → IsRed (cell_for level by_class views from per)
  unfolding cell_for
  cell_for-IsRed views from per h =
      let vs = take per (drop from views) in
      cell_of-IsRed (cell_loop vs no_cells) (cell_loop-some vs no_cells h)
        ((cell_loop-worst vs no_cells).0 ∙ rw h refl)

  module _ (views : List BlockView) (view_to per : ℕ) where
    -- Where a row ends, as far as the window goes.
    cells_loop-end :
        (left idx : ℕ)
        → idx + left * per < view_to
        → (cells_loop level by_class views view_to per left idx).1 ≡ idx + left * per
    unfolding cells_loop
    cells_loop-end zero idx h = omega arith
    cells_loop-end (suc left) idx h =
        let on : leb view_to idx ≡ false = ground arith in
        rw on (omega (arith, cells_loop-end left (idx + per) (omega arith)))

    cells_loop-at :
        (left idx c : ℕ)
        → c < left
        → idx + c * per < view_to
        → get_elem? (cells_loop level by_class views view_to per left idx).0 c
          ≡ some (cell_for level by_class views (idx + c * per) per)
    unfolding cells_loop
    cells_loop-at zero idx c lt h = absurd (omega arith)
    cells_loop-at (suc left) idx zero lt h =
        let on : leb view_to idx ≡ false = ground arith in
        let e : idx + zero * per ≡ idx = omega arith in rw (on, e) refl
    cells_loop-at (suc left) idx (suc c) lt h =
        let on : leb view_to idx ≡ false = ground arith in
        let e : idx + suc c * per ≡ idx + per + c * per = omega arith in
        rw (on, e) (cells_loop-at left (idx + per) c (omega arith) (omega arith))

    rows_loop-at :
        (width left idx r : ℕ)
        → r < left
        → idx + r * (width * per) < view_to
        → get_elem? (rows_loop level by_class views view_to per width left idx) r
          ≡ some (cells_loop level by_class views view_to per width (idx + r * (width * per))).0
    unfolding rows_loop
    rows_loop-at width zero idx r lt h = absurd (omega arith)
    rows_loop-at width (suc left) idx zero lt h =
        let e : idx + zero * (width * per) ≡ idx = omega arith in rw e refl
    rows_loop-at width (suc left) idx (suc r) lt h =
        let at_end = cells_loop-end width idx (omega arith) in
        let e : idx + suc r * (width * per) ≡ idx + width * per + r * (width * per) = omega arith in
        rw (at_end, e) (rows_loop-at width left (idx + width * per) r (omega arith) (omega arith))

any_hostage-take :
    (vs : List BlockView) (k n : ℕ) (v : BlockView)
    → get_elem? vs k ≡ some v
    → (v.valid && v.hostage) ≡ true
    → k < n
    → any_hostage (take n vs) ≡ true
any_hostage-take [] k n v at held lt = cc
any_hostage-take (w ∷ vs) k zero v at held lt = absurd (omega arith)
any_hostage-take (w ∷ vs) zero (suc n) v at held lt = ground arith
any_hostage-take (w ∷ vs) (suc k) (suc n) v at held lt =
    ground (arith, any_hostage-take vs k n v at held)

get_elem?-drop :
    (vs : List BlockView) (from k : ℕ) → get_elem? (drop from vs) k ≡ get_elem? vs (from + k)
get_elem?-drop vs zero k = let e : 0 + k ≡ k = omega arith in rw e refl
get_elem?-drop [] (suc from) k = refl
get_elem?-drop (v ∷ vs) (suc from) k =
    let e : suc from + k ≡ suc (from + k) = omega arith in rw e (get_elem?-drop vs from k)

-- Blocks per cell, as many as the window needs.
abbrev per_cell : ℕ → ℕ → ℕ
per_cell span cells = max ((span + cells - 1) / cells) 1

-- The cells have room for the window.
cell_in_map :
    (span width map_rows k : ℕ)
    → 0 < width
    → 0 < map_rows
    → k < span
    → k / per_cell span (width * map_rows) / width < map_rows
cell_in_map span width map_rows k wide tall lt =
    let cells = width * map_rows in
    let per = per_cell span cells in
    let some_cells : 0 < cells = grind (arith, mul_mono 1 map_rows width) in
    let (room, _) = ceil_bounds span cells some_cells in
    let most = mul_mono ((span + cells - 1) / cells) per cells (omega arith) in
    let (q_lo, _) = div_bounds k per (omega arith) in
    let q_lt : k / per < cells = mul_lt (k / per) cells per (omega (arith, room, most)) in
    let (r_lo, _) = div_bounds (k / per) width wide in
    mul_lt (k / per / width) map_rows width (omega arith)

cell_start :
    (from q width per : ℕ) → from + q / width * (width * per) + q % width * per ≡ from + q * per
cell_start from q width per =
    let e = div-add-mod' q width in
    let whole : (q / width * width + q % width) * per ≡ q * per = ap (λ n. n * per) e in
    omega (arith, whole)

-- On the map drawn with text, the cell of a hostage in the window is red, however many blocks share
-- the cell: no hostage is hidden.
pub block_map-IsRed :
    (level : List BlockView → ℕ) (by_class : Bool) (views : List BlockView)
    (view_from view_to width map_rows blk : ℕ) (v : BlockView)
    → 0 < width
    → 0 < map_rows
    → view_from ≤ blk
    → blk < view_to
    → get_elem? views blk ≡ some v
    → (v.valid && v.hostage) ≡ true
    → let q = (blk - view_from) / per_cell (view_to - view_from) (width * map_rows) in
      (cells : List (Option Cell)) × (cell : Option Cell) × (get_elem?
          (block_map level by_class views view_from view_to width map_rows)
          (q / width)
        ≡ some cells)
      × (get_elem? cells (q % width) ≡ some cell)
      × IsRed cell
unfolding block_map
block_map-IsRed level by_class views view_from view_to width map_rows blk v wide tall lo hi found
      held =
    let span = view_to - view_from in
    let per = per_cell span (width * map_rows) in
    let k = blk - view_from in
    let q = k / per in
    let r = q / width in
    let c = q % width in
    let row = view_from + r * (width * per) in
    let (k_lo, k_hi) = div_bounds k per (omega arith) in
    let in_row : row + c * per ≡ view_from + q * per = cell_start view_from q width per in
    let back : row + c * per + (blk - (row + c * per)) ≡ blk = omega (arith, in_row) in
    (
      (cells_loop level by_class views view_to per width row).0,
      cell_for level by_class views (row + c * per) per,
      rows_loop-at level by_class views view_to per width map_rows view_from r
          (cell_in_map span width map_rows k wide tall (omega arith)) (omega (arith, in_row)),
      cells_loop-at level by_class views view_to per width row c (mod-lt q {m = width} wide)
          (omega (arith, in_row)),
      cell_for-IsRed level by_class views (row + c * per) per (
          any_hostage-take (drop (row + c * per) views) (blk - (row + c * per)) per v
            (get_elem?-drop views (row + c * per) (blk - (row + c * per)) ∙ rw back found) held
            (omega (arith, in_row))),
    )
