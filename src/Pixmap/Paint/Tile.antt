-- ===== src/Pixmap/Paint/Tile.antt =====
-- What one tile of packages/fragview/pixmap.go shows at each of its pixels.
use zfs_slab_mobility.Prelude.{
  ℕ, ◌+◌, ◌-◌, ◌≤◌, ◌<◌, ◌≡◌, inl, inr, refl, ◌∙◌, Bool, true, false, ◌&&◌, ◌||◌, arith, List, ltb,
  leb, ◌==◌, if◌then◌else◌, if_intro, Bool-cases, length, get_or, total_by,
}
use zfs_slab_mobility.Kpage.Classes.{Class, Counts, classes_from_free, sum_over}
use zfs_slab_mobility.Kpage.Blocks.{BlockMap}
use zfs_slab_mobility.Render.Summary.{BlockView}
use zfs_slab_mobility.Pixmap.Layout.{PixLayout, span_start}
use zfs_slab_mobility.Pixmap.Palette.{Rgba, class_rgb, hostage_px}
use zfs_slab_mobility.Pixmap.Bands.{height}
use zfs_slab_mobility.Pixmap.Bands.Sum.{band_heights-sum, length-band_heights, present-some}
use zfs_slab_mobility.Pixmap.Paint.{
  Canvas, opaque, inside, min_band, stack_order, stack_sums, heights, stack, paint_bands, box,
  row_top, row_bottom, span_end, counts_at, is_hostage, paint_tile,
}
use zfs_slab_mobility.Pixmap.Paint.Rows.{
  covers, Sized, class_at, inside-Sized, Sized-trans, paint_bands-pix, box-pix,
}

-- The rectangle between two corners, both in it.
abbrev pub within : ℕ → ℕ → ℕ → ℕ → ℕ → ℕ → Bool
within x0 x1 top bottom a b = (leb x0 a && leb a x1) && (leb top b && leb b bottom)

abbrev pub on_edge : ℕ → ℕ → ℕ → ℕ → ℕ → ℕ → Bool
on_edge x0 x1 top bottom a b =
    within x0 x1 top bottom a b && (((a == x0) || (a == x1)) || ((b == top) || (b == bottom)))

pub if_same : (b : Bool) (x : Rgba) → x ≡ (if b then x else x)
if_same b x = ground arith

pub if_inside :
    (w i : Bool) (x y : Rgba) → (if w && i then x else y) ≡ (if i then if w then x else y else y)
if_inside w i x y = ground arith

pub if_inside2 :
    (e w i : Bool) (x y z : Rgba)
    → (if e && i then x else if w && i then y else z)
      ≡ (if i then if e then x else if w then y else z else z)
if_inside2 e w i x y z = ground arith

if_none :
    (z h w e v : Bool) (x y old : Rgba)
    → w ≡ false
    → v ≡ false
    → (if z then old else if h && (w && e) then x else if v then y else old) ≡ old
if_none z h w e v x y old p q = ground arith

inner-out :
    (x0 x1 top bottom i a b : ℕ)
    → within x0 x1 top bottom a b ≡ false
    → within (x0 + i) (x1 - i) (top + i) (bottom - i) a b ≡ false
inner-out x0 x1 top bottom i a b h = ground arith

-- What the loops of a box cover.
pub edges :
    (x0 x1 top bottom a b : ℕ)
    → x0 ≤ x1
    → top ≤ bottom
    → ((((b == top) || (b == bottom)) && covers x0 (x1 + 1 - x0) a)
        || (((a == x0) || (a == x1)) && covers top (bottom + 1 - top) b))
      ≡ on_edge x0 x1 top bottom a b
edges x0 x1 top bottom a b h k = ground arith

within-empty :
    (x0 x1 top bottom a b : ℕ)
    → (((bottom + 1 - top) == 0) || ltb x1 x0) ≡ true
    → within x0 x1 top bottom a b ≡ false
within-empty x0 x1 top bottom a b h = ground arith

-- What the loops of a stack cover, if it is as high as its rectangle.
covered :
    (x0 x1 top bottom a b m : ℕ)
    → m ≡ bottom + 1 - top
    → (((bottom + 1 - top) == 0) || ltb x1 x0) ≡ false
    → (((leb top b && ltb b (bottom + 1)) && ltb (bottom - b) m) && covers x0 (x1 + 1 - x0) a)
      ≡ within x0 x1 top bottom a b
covered x0 x1 top bottom a b m e h = ground arith

-- The classes of a map are those of the stack.
total_by-stack_sums :
    (sum : Counts) → total_by (λ n. n) (stack_sums sum) ≡ sum_over classes_from_free sum
unfolding sum_over
total_by-stack_sums sum = omega arith

module _ (scaled : List ℕ → ℕ → ℕ → ℕ → ℕ) (by_frac : List ℕ → ℕ → ℕ → List ℕ → List ℕ) where
  -- The class that stands at a depth above the bottom of a stack of the height `h`.
  abbrev pub shown_class : Counts → ℕ → ℕ → Class
  shown_class sum h d =
      class_at (heights scaled by_frac (stack_sums sum) (sum_over classes_from_free sum) h)
        stack_order d

  -- What a tile shows at a point of the picture, `old` where it paints nothing.
  unfoldable pub tile_pixel :
      BlockMap → List BlockView → PixLayout → ℕ → ℕ → ℕ → ℕ → ℕ → Rgba → Rgba
  tile_pixel m views l t j blk a b old =
      let sum = counts_at m blk in
      let x0 = span_start l j in
      let x1 = span_end l j in
      let top = row_top l t in
      let bottom = row_bottom l t in
      let i = l.inset in
      let h = bottom - i + 1 - (top + i) in
      let shown = opaque (class_rgb (shown_class sum h (bottom - i - b))) in
      if sum_over classes_from_free sum == 0
      then old
      else if is_hostage views blk && on_edge x0 x1 top bottom a b
      then opaque hostage_px
      else if within (x0 + i) (x1 - i) (top + i) (bottom - i) a b
      then shown
      else old

module _ (scaled : List ℕ → ℕ → ℕ → ℕ → ℕ) (by_frac : List ℕ → ℕ → ℕ → List ℕ → List ℕ)
    (keeps : (s : List ℕ) (k h : ℕ) (xs : List ℕ) → length (by_frac s k h xs) ≡ length xs)
    (among : (s : List ℕ) (k h : ℕ) (xs : List ℕ) (i : ℕ)
      → i < length xs
      → (j : ℕ) × (j < length xs) × (get_or (by_frac s k h xs) i 0 ≡ get_or xs j 0)) where
  heights-fill :
      (sum : Counts) (h : ℕ)
      → 0 < sum_over classes_from_free sum
      → let known = sum_over classes_from_free sum in
        let ms = heights scaled by_frac (stack_sums sum) known h in
        (height ms ≡ h) × (length ms ≡ length stack_order)
  heights-fill sum h some_known =
      let known = sum_over classes_from_free sum in
      let sums = stack_sums sum in
      let low = min_band h in
      (
        band_heights-sum (by_frac sums known h) (scaled sums known h) h low sums
            (keeps sums known h) (among sums known h)
            (present-some 0 sums (omega (arith, total_by-stack_sums sum))),
        length-band_heights (by_frac sums known h) (scaled sums known h) h low sums,
      )

  -- The rectangle shows the classes by depth, and nothing outside it changes.
  pub stack-pix :
      (sum : Counts) (x0 x1 top bottom : ℕ) (p : Canvas) (a b : ℕ)
      → 0 < sum_over classes_from_free sum
      → let q = stack scaled by_frac sum (sum_over classes_from_free sum) x0 x1 top bottom p in
        Sized p q
        × (q.pix a b ≡ (
            if within x0 x1 top bottom a b && inside p a b
            then opaque (class_rgb (shown_class scaled by_frac sum (bottom + 1 - top) (bottom - b)))
            else p.pix a b))
  unfolding stack
  stack-pix sum x0 x1 top bottom p a b some_known =
      let known = sum_over classes_from_free sum in
      let h = bottom + 1 - top in
      let ms = heights scaled by_frac (stack_sums sum) known h in
      let n = x1 + 1 - x0 in
      let shown = opaque (class_rgb (shown_class scaled by_frac sum h (bottom - b))) in
      if_intro
        (λ (q : Canvas).
          Sized p q
          × (q.pix a b
              ≡ (if within x0 x1 top bottom a b && inside p a b then shown else p.pix a b)))
        ((h == 0) || ltb x1 x0) p (paint_bands x0 n top ms stack_order p (bottom + 1))
        (λ empty. ((refl, refl), rw (within-empty x0 x1 top bottom a b empty) refl))
        (λ there.
          let (filled, all) = heights-fill sum h some_known in
          let (sized, pix) =
            paint_bands-pix a b x0 n top ms stack_order p (bottom + 1) (ground arith) all in
          let same = covered x0 x1 top bottom a b (height ms) filled there in
          let e : bottom + 1 - 1 - b ≡ bottom - b = omega arith in (sized, pix ∙ rw (e, same) refl))

  module _ (m : BlockMap) (views : List BlockView) (l : PixLayout) where
    pub paint_tile-pix :
        (t j blk : ℕ) (p : Canvas) (a b : ℕ)
        → span_start l j ≤ span_end l j
        → row_top l t ≤ row_bottom l t
        → let q = paint_tile scaled by_frac m views l t j blk p in
          Sized p q
          × (q.pix a b ≡ (
              if inside p a b
              then tile_pixel scaled by_frac m views l t j blk a b (p.pix a b)
              else p.pix a b))
    unfolding paint_tile tile_pixel
    paint_tile-pix t j blk p a b wide high =
        let sum = counts_at m blk in
        let known = sum_over classes_from_free sum in
        let x0 = span_start l j in
        let x1 = span_end l j in
        let top = row_top l t in
        let bottom = row_bottom l t in
        let i = l.inset in
        let inner = within (x0 + i) (x1 - i) (top + i) (bottom - i) a b in
        let shown = opaque (
          class_rgb
            (shown_class scaled by_frac sum (bottom - i + 1 - (top + i)) (bottom - i - b))) in
        let filled = stack scaled by_frac sum known (x0 + i) (x1 - i) (top + i) (bottom - i) p in
        elim (Bool-cases (known == 0)) [
          | inl hole ↦ rw hole ((refl, refl), if_same (inside p a b) (p.pix a b))
          | inr some_known ↦
              let (sized, pix) =
                stack-pix sum (x0 + i) (x1 - i) (top + i) (bottom - i) p a b (ground arith) in
              let (sized', pix') = box-pix a b filled x0 x1 top bottom hostage_px in
              elim (Bool-cases (is_hostage views blk)) [
                | inr plain ↦
                    rw (some_known, plain)
                      (sized, pix ∙ if_inside inner (inside p a b) shown (p.pix a b))
                | inl held ↦
                    rw (some_known, held)
                      (
                        Sized-trans p filled (box filled x0 x1 top bottom hostage_px) sized sized',
                        pix'
                            ∙ rw
                                (
                                  edges x0 x1 top bottom a b wide high,
                                  inside-Sized a b p filled sized,
                                  pix,
                                )
                                (if_inside2 (on_edge x0 x1 top bottom a b) inner (inside p a b)
                                  (opaque hostage_px) shown (p.pix a b)),
                      )
              ]
        ]

    pub tile_pixel-elsewhere :
        (t j blk a b : ℕ) (old : Rgba)
        → within (span_start l j) (span_end l j) (row_top l t) (row_bottom l t) a b ≡ false
        → tile_pixel scaled by_frac m views l t j blk a b old ≡ old
    unfolding tile_pixel
    tile_pixel-elsewhere t j blk a b old out =
        let x0 = span_start l j in
        let x1 = span_end l j in
        let top = row_top l t in
        let bottom = row_bottom l t in
        let i = l.inset in
        let h = bottom - i + 1 - (top + i) in
        if_none (sum_over classes_from_free (counts_at m blk) == 0) (is_hostage views blk)
          (within x0 x1 top bottom a b) (((a == x0) || (a == x1)) || ((b == top) || (b == bottom)))
          (within (x0 + i) (x1 - i) (top + i) (bottom - i) a b) (opaque hostage_px)
          (opaque (class_rgb (shown_class scaled by_frac (counts_at m blk) h (bottom - i - b)))) old
          out (inner-out x0 x1 top bottom i a b out)
