-- ===== src/Pixmap/Layout/Fits.antt =====
-- The layout of packages/fragview/pixmap.go has room for every block of the window.
use zfs_slab_mobility.Prelude.{
  ℕ, zero, suc, ◌+◌, ◌-◌, ◌*◌, ◌/◌, ◌≤◌, ◌<◌, ◌≡◌, ◌≢◌, ◌⊎◌, inl, inr, refl, true, false, arith,
  ltb, if_intro, ltb→lt, ltb→le, mul_mono, ceil_bounds, div_pos,
}
use native.Mathlib.Nat.{div_self, div-add-mod', mod-lt}
use native.Mathlib.Decide.{dec_le}
use zfs_slab_mobility.Pixmap.Layout.{
  PixLayout, share_out, at_row_span, settled, grow, bare_layout, with_inset, summed_layout,
  pix_layout_for,
}

-- A share covers what is shared out, and is the least that does, or one.
share_out-covers : (n d : ℕ) → 0 < d → n ≤ d * share_out n d
share_out-covers n d h =
    ground (arith, ceil_bounds n d h, mul_mono ((n + d - 1) / d) (share_out n d) d)

share_out_least : (n d k : ℕ) → 0 < d → 0 < k → n ≤ d * k → share_out n d ≤ k
share_out_least n d k h pos le = elim (dec_le ((n + d - 1) / d) k) [
  | yes fits ↦ omega arith
  | no over ↦
      absurd (omega (arith, ceil_bounds n d h, mul_mono (k + 1) ((n + d - 1) / d) d (omega arith)))
]

-- From one row span to the next the rows of tiles fall to a third at most.
rows_third : (m r : ℕ) → 0 < r → r + 1 ≤ m → m / r ≤ 3 * (m / (r + 1))
rows_third m r h le =
    let t = m / r in
    let t' = m / (r + 1) in
    let one = div_pos m (r + 1) (omega arith) le in
    elim (dec_le t (3 * t')) [
      | yes fits ↦ fits
      | no over ↦ absurd (
          omega (
            arith,
            mul_mono (3 * t' + 1) t r (omega arith),
            mul_mono 1 r t' h,
            div-add-mod' m r,
            div-add-mod' m (r + 1),
            mod-lt m {m = r + 1} (omega arith),
          ))
    ]

-- A row of tiles has room for its blocks, and every block at least one pixel column.
abbrev Roomy : ℕ → PixLayout → Type 0
Roomy span l =
    (span ≤ l.tile_rows * l.blocks_per_row)
    × (0 < l.blocks_per_row)
    × (l.blocks_per_row ≤ l.px_w)
    × (l.block_px ≡ l.px_w / l.blocks_per_row)
    × (0 < l.tile_rows)
    × (l.tile_rows * l.row_span ≤ l.map_rows)

at_row_span-Roomy :
    (span : ℕ) (l : PixLayout) (r : ℕ)
    → 0 < r
    → r ≤ l.map_rows
    → share_out span (l.map_rows / r) ≤ l.px_w
    → Roomy span (at_row_span span l r)
at_row_span-Roomy span l r h le fits =
    let tiles = div_pos l.map_rows r h le in
    (
      share_out-covers span (l.map_rows / r) tiles,
      omega arith,
      fits,
      refl,
      tiles,
      omega (arith, div-add-mod' l.map_rows r),
    )

settled_tall :
    (l : PixLayout)
    → settled l ≡ false
    → (2 * l.row_span * l.cell_h < l.block_px) × (l.tile_rows ≢ 1)
settled_tall l h = ground arith

-- If the loop goes on, the next row span still leaves each block a pixel.
next_fits :
    (span : ℕ) (l : PixLayout) (r : ℕ)
    → 0 < r
    → r + 1 ≤ l.map_rows
    → 0 < l.cell_h
    → share_out span (l.map_rows / r) ≤ l.px_w
    → settled (at_row_span span l r) ≡ false
    → share_out span (l.map_rows / (r + 1)) ≤ l.px_w
next_fits span l r h le tall fits going =
    let t = l.map_rows / r in
    let t' = l.map_rows / (r + 1) in
    let b = share_out span t in
    let (wide, _) = settled_tall (at_row_span span l r) going in
    let three : 3 ≤ l.px_w / b = omega (arith, mul_mono 1 r l.cell_h h) in
    let room : 3 * b ≤ l.px_w =
      omega (arith, mul_mono 3 (l.px_w / b) b three, div-add-mod' l.px_w b) in
    let covers = share_out-covers span t (div_pos l.map_rows r h (omega arith)) in
    let third = mul_mono t (3 * t') b (rows_third l.map_rows r h le) in
    let least =
      share_out_least span t' (3 * b) (div_pos l.map_rows (r + 1) (omega arith) le) (omega arith)
        (omega arith) in
    omega arith

-- Where the loop may stop: a roomy layout of the same picture that it does not leave.
abbrev IsEnd : ℕ → PixLayout → PixLayout → Type 0
IsEnd span l l' =
    Roomy span l'
    × (settled l' ≡ true)
    × (l'.px_w ≡ l.px_w)
    × (l'.map_rows ≡ l.map_rows)
    × (l'.per_col ≡ l.per_col)

one_row : (m r : ℕ) → 0 < r → r ≡ m → m / r ≡ 1
one_row m r h e = rw e (div_self (omega arith))

last_settled :
    (span : ℕ) (l : PixLayout) (r : ℕ)
    → 0 < r
    → r ≡ l.map_rows
    → settled (at_row_span span l r) ≡ true
last_settled span l r h e = ground (arith, one_row l.map_rows r h e)

-- From a row span at which each block has a pixel, the loop ends at such a row span.
grow-IsEnd :
    (left span : ℕ) (l : PixLayout) (r : ℕ)
    → 0 < r
    → r + left ≡ l.map_rows
    → 0 < l.cell_h
    → share_out span (l.map_rows / r) ≤ l.px_w
    → IsEnd span l (grow left span l r)
unfolding grow
grow-IsEnd zero span l r h e tall fits = (
  at_row_span-Roomy span l r h (omega arith) fits,
  last_settled span l r h (omega arith),
  refl,
  refl,
  refl,
)
grow-IsEnd (suc left) span l r h e tall fits =
    if_intro (IsEnd span l) (settled (at_row_span span l r)) (at_row_span span l r)
      (grow left span l (r + 1))
      (λ done. (at_row_span-Roomy span l r h (omega arith) fits, done, refl, refl, refl))
      (λ more.
        grow-IsEnd left span l (r + 1) (omega arith) (omega arith) tall
          (next_fits span l r h (omega arith) tall fits more))

-- A layout draws tiles: each block has at least one pixel column, and none are summed.
abbrev pub IsTiled : PixLayout → Type 0
IsTiled l =
    (l.block_px ≡ l.px_w / l.blocks_per_row)
    × (0 < l.block_px)
    × (l.blocks_per_row ≤ l.px_w)
    × (l.per_col ≡ 0)

-- A layout sums blocks: each pixel column stands for `per_col` of them.
abbrev pub IsSummed : PixLayout → Type 0
IsSummed l = (l.block_px ≡ 0) × (0 < l.per_col) × (l.blocks_per_row ≡ l.per_col * l.px_w)

abbrev IsFit : ℕ → ℕ → ℕ → PixLayout → Type 0
IsFit span px_w map_rows l =
    (span ≤ l.tile_rows * l.blocks_per_row)
    × (0 < l.blocks_per_row)
    × (l.tile_rows * l.row_span ≤ map_rows)
    × (l.px_w ≡ px_w)
    × (IsTiled l ⊎ IsSummed l)

summed-IsFit :
    (span px_w cell_w cell_h map_rows : ℕ)
    → 0 < px_w
    → 0 < map_rows
    → px_w < share_out span map_rows
    → IsFit span px_w map_rows
        (summed_layout (share_out span map_rows) (bare_layout px_w cell_w cell_h map_rows))
summed-IsFit span px_w cell_w cell_h map_rows wide some over =
    let per_row = share_out span map_rows in
    let per_col = (per_row + px_w - 1) / px_w in
    let (covers, _) = ceil_bounds per_row px_w wide in
    let pos : 0 < per_col = div_pos (per_row + px_w - 1) px_w wide (omega arith) in
    let total = share_out-covers span map_rows some in
    (
      omega (arith, mul_mono per_row (per_col * px_w) map_rows covers),
      omega (arith, covers),
      omega arith,
      refl,
      inr (refl, pos, refl),
    )

tiled-IsFit :
    (span px_w cell_w cell_h map_rows : ℕ)
    → 0 < px_w
    → 0 < cell_h
    → 0 < map_rows
    → share_out span map_rows ≤ px_w
    → IsFit span px_w map_rows
        (with_inset (grow (map_rows - 1) span (bare_layout px_w cell_w cell_h map_rows) 1))
tiled-IsFit span px_w cell_w cell_h map_rows wide tall some fits =
    let l = bare_layout px_w cell_w cell_h map_rows in
    let g = grow (map_rows - 1) span l 1 in
    let whole : map_rows / 1 ≡ map_rows = omega arith in
    let (roomy, _, w, m, c) =
      grow-IsEnd (map_rows - 1) span l 1 (omega arith) (omega arith) tall (rw whole fits) in
    let (covers, some_blocks, narrow, px, _, rows) = roomy in
    let pos : 0 < g.px_w / g.blocks_per_row = div_pos g.px_w g.blocks_per_row some_blocks narrow in
    (covers, some_blocks, omega arith, w, inl (px, omega arith, narrow, c))

-- On a map of at least one row, one pixel column and one pixel of cell height, the layout has a
-- place for every block of the window, its rows of tiles fit the rows of the map, and it is either
-- tiled or summed, never both and never neither.
pub pix_layout_for-fits :
    (span px_w cell_w cell_h map_rows : ℕ)
    → 0 < px_w
    → 0 < cell_h
    → 0 < map_rows
    → let l = pix_layout_for span px_w cell_w cell_h map_rows in
      (span ≤ l.tile_rows * l.blocks_per_row)
      × (0 < l.blocks_per_row)
      × (l.tile_rows * l.row_span ≤ map_rows)
      × (l.px_w ≡ px_w)
      × (IsTiled l ⊎ IsSummed l)
unfolding pix_layout_for
pix_layout_for-fits span px_w cell_w cell_h map_rows wide tall some =
    let l = bare_layout px_w cell_w cell_h map_rows in
    let per_row = share_out span map_rows in
    if_intro (IsFit span px_w map_rows) (ltb px_w per_row) (summed_layout per_row l)
      (with_inset (grow (map_rows - 1) span l 1))
      (λ over. summed-IsFit span px_w cell_w cell_h map_rows wide some (ltb→lt px_w per_row over))
      (λ fits.
        tiled-IsFit span px_w cell_w cell_h map_rows wide tall some (ltb→le px_w per_row fits))
