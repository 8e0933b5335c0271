-- ===== src/Pixmap/Paint/Whole.antt =====
-- The picture that `paintBlocks` of packages/fragview/pixmap.go paints, at every pixel of every tile.
use native.Mathlib.Decide.{dec_lt, ℕ_discrete}
use zfs_slab_mobility.Prelude.{
  ℕ, zero, suc, ◌+◌, ◌*◌, ◌≤◌, ◌<◌, ◌≡◌, ◌≢◌, ◌⊎◌, inl, inr, refl, ◌∙◌, subst, Bool, true, false,
  ◌&&◌, ◌||◌, arith, List, ltb, leb, if◌then◌else◌, if_intro, length, get_or, mul_mono,
}
use zfs_slab_mobility.Kpage.Blocks.{BlockMap}
use zfs_slab_mobility.Render.Summary.{BlockView}
use zfs_slab_mobility.Pixmap.Layout.{PixLayout}
use zfs_slab_mobility.Pixmap.Palette.{Rgba, clear}
use zfs_slab_mobility.Pixmap.Paint.{
  Canvas, blank, inside, block_at, paint_tile, paint_tiles, paint_tile_rows, paint_blocks,
}
use zfs_slab_mobility.Pixmap.Paint.Rows.{Sized, Sized-trans, inside-Sized}
use zfs_slab_mobility.Pixmap.Paint.Grid.{In, apart, inside_picture, span_start_next, row_top_next}
use zfs_slab_mobility.Pixmap.Paint.Tile.{tile_pixel, tile_pixel-elsewhere, paint_tile-pix}

-- The pixel at a point is as it was.
abbrev Keeps : ℕ → ℕ → Canvas → Canvas → Type 0
Keeps a b p q = Sized p q × (q.pix a b ≡ p.pix a b)

Keeps-trans : (a b : ℕ) (p q r : Canvas) → Keeps a b p q → Keeps a b q r → Keeps a b p r
Keeps-trans a b p q r (s, e) (s', e') = (Sized-trans p q r s s', e' ∙ e)

if_both : (c : Bool) (x y : Rgba) → x ≡ y → (if c then x else y) ≡ y
if_both c x y h = ground arith

module _ (scaled : List ℕ → ℕ → ℕ → ℕ → ℕ) (by_frac : List ℕ → ℕ → ℕ → List ℕ → List ℕ)
    (keeps : (s : List ℕ) (k h : ℕ) (xs : List ℕ) → length (by_frac s k h xs) ≡ length xs)
    (among : (s : List ℕ) (k h : ℕ) (xs : List ℕ) (i : ℕ)
      → i < length xs
      → (j : ℕ) × (j < length xs) × (get_or (by_frac s k h xs) i 0 ≡ get_or xs j 0))
    (m : BlockMap) (views : List BlockView) (l : PixLayout) (view_to : ℕ)
    (nonzero : 0 < l.blocks_per_row) (fits : l.blocks_per_row ≤ l.px_w) (spans : 0 < l.row_span)
    (tall : 0 < l.cell_h) (a b : ℕ) where
  abbrev Painted : ℕ → ℕ → Canvas → Canvas → Type 0
  Painted t j p q =
      Sized p q
      × (q.pix a b ≡ (
          if inside p a b
          then tile_pixel scaled by_frac m views l t j (block_at l t j) a b (p.pix a b)
          else p.pix a b))

  abbrev Shown : ℕ → ℕ → Type 0
  Shown t j = (block_at l t j < view_to) × (block_at l t j < length m.counts)

  goes_on :
      (t j : ℕ)
      → Shown t j
      → (leb view_to (block_at l t j) || leb (length m.counts) (block_at l t j)) ≡ false
  goes_on t j shown = ground arith

  on_screen :
      (t j : ℕ)
      → (leb view_to (block_at l t j) || leb (length m.counts) (block_at l t j)) ≡ false
      → Shown t j
  on_screen t j h = ground arith

  here :
      (t j : ℕ) (p : Canvas)
      → Painted t j p (paint_tile scaled by_frac m views l t j (block_at l t j) p)
  here t j p =
      paint_tile-pix scaled by_frac keeps among m views l t j (block_at l t j) p a b
        (omega (arith, span_start_next l j nonzero fits))
        (omega (arith, row_top_next l t spans tall))

  elsewhere :
      (t j : ℕ) (p : Canvas)
      → In l a b t j ≡ false
      → Keeps a b p (paint_tile scaled by_frac m views l t j (block_at l t j) p)
  elsewhere t j p out =
      let (sized, pix) = here t j p in
      (
        sized,
        pix
            ∙ if_both (inside p a b)
                (tile_pixel scaled by_frac m views l t j (block_at l t j) a b (p.pix a b))
                (p.pix a b)
                (tile_pixel-elsewhere scaled by_frac keeps among m views l t j (block_at l t j) a b
                  (p.pix a b) out),
      )

  tiles-elsewhere :
      (t j left : ℕ) (p : Canvas)
      → ((i : ℕ) → j ≤ i → Shown t i → In l a b t i ≡ false)
      → Keeps a b p (paint_tiles scaled by_frac m views l view_to t j left p).0
  unfolding paint_tiles
  tiles-elsewhere t j zero p out = ((refl, refl), refl)
  tiles-elsewhere t j (suc left) p out =
      let p' = paint_tile scaled by_frac m views l t j (block_at l t j) p in
      let rest = paint_tiles scaled by_frac m views l view_to t (j + 1) left p' in
      if_intro (λ (r : Canvas × Bool). Keeps a b p r.0)
        (leb view_to (block_at l t j) || leb (length m.counts) (block_at l t j)) (p, true) rest
        (λ _. ((refl, refl), refl))
        (λ on.
          Keeps-trans a b p p' rest.0 (elsewhere t j p (out j (omega arith) (on_screen t j on)))
            (tiles-elsewhere t (j + 1) left p' (λ i h. out i (omega arith))))

  rows-elsewhere :
      (t left : ℕ) (p : Canvas)
      → ((s : ℕ) → t ≤ s → (i : ℕ) → Shown s i → In l a b s i ≡ false)
      → Keeps a b p (paint_tile_rows scaled by_frac m views l view_to t left p)
  unfolding paint_tile_rows
  rows-elsewhere t zero p out = ((refl, refl), refl)
  rows-elsewhere t (suc left) p out =
      let (p', returned) = paint_tiles scaled by_frac m views l view_to t 0 l.blocks_per_row p in
      let row = tiles-elsewhere t 0 l.blocks_per_row p (λ i _. out t (omega arith) i) in
      let rest = paint_tile_rows scaled by_frac m views l view_to (t + 1) left p' in
      if_intro (Keeps a b p) returned p' rest (λ _. row)
        (λ _.
          Keeps-trans a b p p' rest row
            (rows-elsewhere (t + 1) left p' (λ s h. out s (omega arith))))

  Painted-after : (t j : ℕ) (p q r : Canvas) → Keeps a b p q → Painted t j q r → Painted t j p r
  Painted-after t j p q r (s, e) (s', e') =
      (Sized-trans p q r s s', e' ∙ rw (e, inside-Sized a b p q s) refl)

  Painted-before : (t j : ℕ) (p q r : Canvas) → Painted t j p q → Keeps a b q r → Painted t j p r
  Painted-before t j p q r (s, e) (s', e') = (Sized-trans p q r s s', e' ∙ e)

  tiles-at :
      (t j i left : ℕ) (p : Canvas)
      → i ≤ j
      → j < i + left
      → Shown t j
      → ((k : ℕ) → k ≢ j → In l a b t k ≡ false)
      → Painted t j p (paint_tiles scaled by_frac m views l view_to t i left p).0
  unfolding paint_tiles
  tiles-at t j i zero p le lt shown alone = absurd (omega arith)
  tiles-at t j i (suc left) p le lt shown alone =
      let p' = paint_tile scaled by_frac m views l t i (block_at l t i) p in
      let rest = paint_tiles scaled by_frac m views l view_to t (i + 1) left p' in
      rw (goes_on t i (omega (arith, shown.0), omega (arith, shown.1))) (elim (dec_lt i j) [
        | yes before ↦
            Painted-after t j p p' rest.0 (elsewhere t i p (alone i (omega arith)))
              (tiles-at t j (i + 1) left p' (omega arith) (omega arith) shown alone)
        | no now ↦
            let same =
              subst
                (λ k. Painted t j p (paint_tile scaled by_frac m views l t k (block_at l t k) p))
                (omega arith) (here t j p) in
            Painted-before t j p p' rest.0 same
              (tiles-elsewhere t (i + 1) left p' (λ k h _. alone k (omega arith)))
      ])

  tiles-on :
      (t i left : ℕ) (p : Canvas)
      → ((k : ℕ) → k < i + left → Shown t k)
      → (paint_tiles scaled by_frac m views l view_to t i left p).1 ≡ false
  unfolding paint_tiles
  tiles-on t i zero p shown = refl
  tiles-on t i (suc left) p shown = rw (goes_on t i (shown i (omega arith))) (
      tiles-on t (i + 1) left (paint_tile scaled by_frac m views l t i (block_at l t i) p)
        (λ k h. shown k (omega arith)))

  rows-at :
      (t j s left : ℕ) (p : Canvas)
      → s ≤ t
      → t < s + left
      → j < l.blocks_per_row
      → Shown t j
      → ((r k : ℕ) → (r ≢ t) ⊎ (k ≢ j) → In l a b r k ≡ false)
      → Painted t j p (paint_tile_rows scaled by_frac m views l view_to s left p)
  unfolding paint_tile_rows
  rows-at t j s zero p le lt inside_row shown alone = absurd (omega arith)
  rows-at t j s (suc left) p le lt inside_row shown alone =
      let (p', returned) = paint_tiles scaled by_frac m views l view_to s 0 l.blocks_per_row p in
      let rest = paint_tile_rows scaled by_frac m views l view_to (s + 1) left p' in
      elim (dec_lt s t) [
        | yes before ↦
            let on = tiles-on s 0 l.blocks_per_row p (λ k h.
              let le = mul_mono (s + 1) t l.blocks_per_row (omega arith) in
              (omega (arith, le, shown.0), omega (arith, le, shown.1))) in
            rw on (
              Painted-after t j p p' rest
                (tiles-elsewhere s 0 l.blocks_per_row p (λ k _ _. alone s k (inl (omega arith))))
                (rows-at t j (s + 1) left p' (omega arith) (omega arith) inside_row shown alone))
        | no now ↦
            let row =
              subst
                (λ r.
                  Painted t j p
                    (paint_tiles scaled by_frac m views l view_to r 0 l.blocks_per_row p).0)
                (omega arith)
                (tiles-at t j 0 l.blocks_per_row p (omega arith) (omega arith) shown
                  (λ k ne. alone t k (inr ne))) in
            if_intro (Painted t j p) returned p' rest (λ _. row)
              (λ _.
                Painted-before t j p p' rest row
                  (rows-elsewhere (s + 1) left p' (λ r h k _. alone r k (inl (omega arith)))))
      ]

  off_it :
      (t j r k : ℕ)
      → In l a b t j ≡ true
      → (ltb (block_at l t j) view_to && ltb (block_at l t j) (length m.counts)) ≡ false
      → Shown r k
      → In l a b r k ≡ false
  off_it t j r k here_in off on = elim (ℕ_discrete r t) [
    | no ne ↦ apart l nonzero fits spans tall a b t j r k here_in (inl ne)
    | yes row ↦ elim (ℕ_discrete k j) [
      | no ne ↦ apart l nonzero fits spans tall a b t j r k here_in (inr ne)
      | yes col ↦ absurd (not_shown t j off (subst (λ r'. Shown r' j) row (subst (Shown r) col on)))
    ]
  ]
    where
      not_shown :
          (t j : ℕ)
          → (ltb (block_at l t j) view_to && ltb (block_at l t j) (length m.counts)) ≡ false
          → Shown t j
          → ⊥
      not_shown t j off on = ground arith

  -- A pixel of the tile of a block shows what the block's tile shows there, if the window and the
  -- map have the block; otherwise it is clear.
  pub paint_blocks-pix :
      (t j : ℕ)
      → t < l.tile_rows
      → j < l.blocks_per_row
      → l.tile_rows * l.row_span ≤ l.map_rows
      → In l a b t j ≡ true
      → let blk = block_at l t j in
        let p = blank l.px_w (l.map_rows * l.cell_h) in
        let q = paint_blocks scaled by_frac m views l view_to p in
        Sized p q
        × (q.pix a b ≡ (
            if ltb blk view_to && ltb blk (length m.counts)
            then tile_pixel scaled by_frac m views l t j blk a b clear
            else clear))
  unfolding paint_blocks
  paint_blocks-pix t j t_in j_in rows_in here_in =
      let p = blank l.px_w (l.map_rows * l.cell_h) in
      let blk = block_at l t j in
      let q = paint_tile_rows scaled by_frac m views l view_to 0 l.tile_rows p in
      if_intro (λ (c : Rgba). Sized p q × (q.pix a b ≡ c))
        (ltb blk view_to && ltb blk (length m.counts))
        (tile_pixel scaled by_frac m views l t j blk a b clear) clear
        (λ shown.
          let (sized, pix) =
            rows-at t j 0 l.tile_rows p (omega arith) (omega arith) j_in (ground arith)
              (λ r k. apart l nonzero fits spans tall a b t j r k here_in) in
          (
            sized,
            pix
                ∙ rw (inside_picture l nonzero fits spans tall a b t j t_in j_in rows_in here_in)
                    refl,
          ))
        (λ off. rows-elsewhere 0 l.tile_rows p (λ r _ k on. off_it t j r k here_in off on))
