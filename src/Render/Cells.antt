-- ===== src/Render/Cells.antt =====
-- packages/fragview/render.go: the map drawn with text, `cellFor` and the rows of `blockMap`.
--
-- `occ` is the fraction used / known of a view. `level` is `int(v.occ * 8.999)`, of the mean of the
-- fractions of some views; two fractions of sums of pages that differ do so as float64 too.
pub mod Red
use zfs_slab_mobility.Prelude.{
  ℕ, zero, suc, ◌+◌, ◌-◌, ◌*◌, ◌/◌, min, max, Bool, true, false, not, ◌&&◌, ◌||◌, List, [], ◌∷◌,
  ◌++◌, Option, none, some, ltb, leb, ◌==◌, if◌then◌else◌, take, drop,
}
use zfs_slab_mobility.Kpage.Classes.{Class, free, classes_from_free, Counts, no_pages, same_class}
use zfs_slab_mobility.Render.Summary.{BlockView, no_view}

-- The variables of the loop of `cellFor`; `summed` are the views that `sumOcc` adds up.
pub record CellSum : Type 0 where
  pub n : ℕ
  pub summed : List BlockView
  pub counted : Class → ℕ
  pub movable : ℕ
  pub worst : BlockView

abbrev pub no_cells : CellSum
no_cells = record { n = 0; summed = []; counted = no_pages; movable = 0; worst = no_view }

-- `v.occ < w.occ`.
abbrev pub less_used : BlockView → BlockView → Bool
less_used v w = ltb (v.used * w.known) (w.used * v.known)

abbrev pub add_view : BlockView → CellSum → CellSum
add_view v s = record {
  n = s.n + 1;
  summed = s.summed ++ v ∷ [];
  counted = λ k. if same_class v.pick k then s.counted k + 1 else s.counted k;
  movable = if v.movable then s.movable + 1 else s.movable;
  worst = if v.hostage && (not s.worst.hostage || less_used v s.worst) then v else s.worst;
}

unfoldable pub cell_loop : List BlockView → CellSum → CellSum
cell_loop [] s = s
cell_loop (v ∷ vs) s = cell_loop vs (if v.valid then add_view v s else s)

-- The class that was picked most often, the first of those.
unfoldable pub most_picked : (Class → ℕ) → List Class → Class → Class
most_picked counted [] pick = pick
most_picked counted (c ∷ cs) pick =
    most_picked counted cs (if ltb (counted pick) (counted c) then c else pick)

pub data Colour : Type 0 where
  red pin_free pin_movable pin_immovable : Colour
  of_class : Class → Colour

-- A glyph of `fillGlyph` in a colour.
pub record Cell : Type 0 where
  pub colour : Colour
  pub glyph : ℕ

abbrev any_used : List BlockView → Bool
any_used [] = false
any_used (v ∷ vs) = ltb 0 v.used || any_used vs

module _ (level : List BlockView → ℕ) (by_class : Bool) where
  abbrev glyph_of : List BlockView → ℕ
  glyph_of vs = min (if (level vs == 0) && any_used vs then 1 else level vs) 8

  abbrev plain_colour : Class → Bool → Colour
  plain_colour pick movable =
      if by_class
      then of_class pick
      else if same_class pick free
      then pin_free
      else if movable
      then pin_movable
      else pin_immovable

  -- What follows the loop; no cell is the blank.
  abbrev pub cell_of : CellSum → Option Cell
  cell_of s =
      let pick = most_picked s.counted classes_from_free free in
      let plain : Cell = record {
        colour = plain_colour pick (ltb s.n (s.movable * 2));
        glyph = glyph_of s.summed;
      } in
      let worst : Cell = record { colour = red; glyph = glyph_of (s.worst ∷ []) } in
      if s.n == 0 then none else if s.worst.hostage then some worst else some plain

  -- `cellFor`, of `per` blocks from `from` on, as many as there are.
  unfoldable pub cell_for : List BlockView → ℕ → ℕ → Option Cell
  unfolding cell_loop most_picked
  cell_for views from per = cell_of (cell_loop (take per (drop from views)) no_cells)

  module _ (views : List BlockView) (view_to per : ℕ) where
    -- The cells of one row, and `idx` after them.
    unfoldable pub cells_loop : ℕ → ℕ → List (Option Cell) × ℕ
    unfolding cell_for
    cells_loop zero idx = ([], idx)
    cells_loop (suc left) idx =
        let past = leb view_to idx in
        let (cells, idx') = cells_loop left (if past then idx else idx + per) in
        ((if past then none else cell_for views idx per) ∷ cells, idx')

    unfoldable pub rows_loop : ℕ → ℕ → ℕ → List (List (Option Cell))
    unfolding cells_loop
    rows_loop width zero idx = []
    rows_loop width (suc left) idx =
        let (cells, idx') = cells_loop width idx in cells ∷ rows_loop width left idx'

  -- The cells of `blockMap`, `width` to a row.
  unfoldable pub block_map : List BlockView → ℕ → ℕ → ℕ → ℕ → List (List (Option Cell))
  unfolding rows_loop
  block_map views view_from view_to width map_rows =
      let span = view_to - view_from in
      let per = max ((span + width * map_rows - 1) / (width * map_rows)) 1 in
      rows_loop views view_to per width map_rows view_from
