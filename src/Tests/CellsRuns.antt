-- ===== src/Tests/CellsRuns.antt =====
-- The text map of packages/fragview/render.go at small inputs.
use zfs_slab_mobility.Prelude.{ℕ, ◌≡◌, refl, arith, true, List, [], ◌∷◌, Option, some, get_elem?}
use zfs_slab_mobility.Render.Summary.{BlockView, no_view}
use zfs_slab_mobility.Render.Cells.{Cell, red, cell_for, block_map}
use zfs_slab_mobility.Render.Cells.Red.{IsRed, block_map-IsRed}

abbrev full_height : List BlockView → ℕ
full_height vs = 8

abbrev healthy : BlockView
healthy = record no_view { valid = true; used = 400; known = 512 }

abbrev held : BlockView
held = record no_view { valid = true; used = 10; known = 512; hostage = true }

-- Four blocks on two rows of one cell: two blocks to a cell.
abbrev four_blocks : List BlockView
four_blocks = healthy ∷ healthy ∷ healthy ∷ held ∷ []

block_map-IsRed_example :
    (cells : List (Option Cell)) × (cell : Option Cell) × (get_elem?
        (block_map full_height true four_blocks 0 4 1 2)
        1
      ≡ some cells)
    × (get_elem? cells 0 ≡ some cell)
    × IsRed cell
block_map-IsRed_example =
    block_map-IsRed full_height true four_blocks 0 4 1 2 3 held (omega arith) (omega arith)
      (omega arith) (omega arith) refl refl

-- A window of three blocks: its last cell is red for the block behind it.
red_past_window :
    block_map full_height true four_blocks 0 3 1 2
    ≡ (cell_for full_height true four_blocks 0 2 ∷ [])
      ∷ (some (record { colour = red; glyph = 8 }) ∷ [])
      ∷ []
unfolding block_map
red_past_window = refl
