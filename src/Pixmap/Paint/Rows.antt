-- ===== src/Pixmap/Paint/Rows.antt =====
-- What a row, a band, a stack of bands and a box of packages/fragview/pixmap.go leave at each pixel.
use zfs_slab_mobility.Prelude.{
  ℕ, zero, suc, ◌+◌, ◌-◌, min, ◌≤◌, ◌<◌, ◌≡◌, inl, inr, refl, ◌∙◌, Bool, false, ◌&&◌, ◌||◌, arith,
  List, [], ◌∷◌, ltb, leb, ◌==◌, if◌then◌else◌, Bool-cases, length, ltb→lt, ltb→le,
}
use zfs_slab_mobility.Kpage.Classes.{Class, absent}
use zfs_slab_mobility.Pixmap.Palette.{Rgba, class_rgb}
use zfs_slab_mobility.Pixmap.Bands.{height}
use zfs_slab_mobility.Pixmap.Paint.{
  Canvas, opaque, inside, set, paint_row, paint_band, paint_bands, box_rows, box_cols, box,
}

-- The pixels `x` to `x + n - 1`.
abbrev pub covers : ℕ → ℕ → ℕ → Bool
covers x n a = leb x a && ltb a (x + n)

-- Nothing changes the size of the picture.
abbrev pub Sized : Canvas → Canvas → Type 0
Sized p q = (q.w ≡ p.w) × (q.h ≡ p.h)

-- What a stack of bands shows at a depth, from the bottom up.
unfoldable pub class_at : List ℕ → List Class → ℕ → Class
class_at [] ks d = absent
class_at (m ∷ ms) [] d = absent
class_at (m ∷ ms) (k ∷ ks) d = let rest = class_at ms ks (d - m) in if ltb d m then k else rest

pub Sized-trans : (p q r : Canvas) → Sized p q → Sized q r → Sized p r
Sized-trans p q r (w, h) (w', h') = (w' ∙ w, h' ∙ h)

module _ (a b : ℕ) where
  pub set-pix :
      (p : Canvas) (x y : ℕ) (k : Rgba)
      → Sized p (set p x y k)
        × ((set p x y k).pix a b
            ≡ (if ((a == x) && (b == y)) && inside p a b then opaque k else p.pix a b))
  unfolding set
  set-pix p x y k = ground arith

  pub paint_row-pix :
      (p : Canvas) (y : ℕ) (k : Rgba) (x n : ℕ)
      → Sized p (paint_row p y k x n)
        × ((paint_row p y k x n).pix a b
            ≡ (if ((b == y) && covers x n a) && inside p a b then opaque k else p.pix a b))
  unfolding paint_row
  paint_row-pix p y k x zero = ground arith
  paint_row-pix p y k x (suc n) =
      ground (arith, set-pix p x y k, paint_row-pix (set p x y k) y k (x + 1) n)

  pub inside-Sized : (p q : Canvas) → Sized p q → inside q a b ≡ inside p a b
  inside-Sized p q (w, h) = rw (w, h) refl

  -- The rows from `y - min m (y - top)` to `y - 1`, and the next one above.
  rows : ℕ → ℕ → ℕ → Bool
  rows top m y = leb (y - min m (y - top)) b && ltb b y

  rows-suc : (top m y : ℕ) → top < y → rows top (suc m) y ≡ (rows top m (y - 1) || (b == y - 1))
  unfolding rows
  rows-suc top m y h = ground arith

  rows-none : (top m y : ℕ) → min m (y - top) ≡ 0 → rows top m y ≡ false
  unfolding rows
  rows-none top m y h = ground arith

  paint_band-Sized :
      (x0 n top : ℕ) (k : Rgba) (m : ℕ) (p : Canvas) (y : ℕ)
      → top ≤ y
      → let r = paint_band x0 n top k m p y in Sized p r.0 × (r.1 ≡ y - min m (y - top))
  unfolding paint_band
  paint_band-Sized x0 n top k zero p y h = ground arith
  paint_band-Sized x0 n top k (suc m) p y h = elim (Bool-cases (ltb top y)) [
    | inr full ↦ rw full (ground arith)
    | inl more ↦
        let p' = paint_row p (y - 1) k x0 n in
        let row = (paint_row-pix p (y - 1) k x0 n).0 in
        let above = paint_band-Sized x0 n top k m p' (y - 1) (ground arith) in
        rw more (omega (arith, row, above, ltb→lt top y more))
  ]

  if_or :
      (c d e i : Bool) (x y : Rgba)
      → (if (c && e) && i then x else if (d && e) && i then x else y)
        ≡ (if ((c || d) && e) && i then x else y)
  if_or c d e i x y = ground arith

  -- A band covers as many rows above `y` as it is high, and none above `top`.
  paint_band-pix :
      (x0 n top : ℕ) (k : Rgba) (m : ℕ) (p : Canvas) (y : ℕ)
      → top ≤ y
      → (paint_band x0 n top k m p y).0.pix a b
        ≡ (if (rows top m y && covers x0 n a) && inside p a b then opaque k else p.pix a b)
  unfolding paint_band
  paint_band-pix x0 n top k zero p y h =
      let none_left : rows top 0 y ≡ false = rows-none top 0 y (omega arith) in rw none_left refl
  paint_band-pix x0 n top k (suc m) p y h = elim (Bool-cases (ltb top y)) [
    | inr full ↦
        let none_left : rows top (suc m) y ≡ false =
          rows-none top (suc m) y (omega (arith, ltb→le top y full)) in
        rw (full, none_left) refl
    | inl more ↦
        let p' = paint_row p (y - 1) k x0 n in
        let (sized, row) = paint_row-pix p (y - 1) k x0 n in
        let more' = ltb→lt top y more in
        rw
          (
            more,
            paint_band-pix x0 n top k m p' (y - 1) (omega arith),
            row,
            inside-Sized p p' sized,
            rows-suc top m y more',
          )
          (if_or (rows top m (y - 1)) (b == y - 1) (covers x0 n a) (inside p a b) (opaque k)
            (p.pix a b))
  ]

  -- A stack shows at each depth the class that stands there, and leaves all else as it was.
  pub paint_bands-pix :
      (x0 n top : ℕ) (ms : List ℕ) (ks : List Class) (p : Canvas) (y : ℕ)
      → top ≤ y
      → length ms ≡ length ks
      → let q = paint_bands x0 n top ms ks p y in
        let d = y - 1 - b in
        Sized p q
        × (q.pix a b ≡ (
            if (((leb top b && ltb b y) && ltb d (height ms)) && covers x0 n a) && inside p a b
            then opaque (class_rgb (class_at ms ks d))
            else p.pix a b))
  unfolding paint_bands class_at rows
  paint_bands-pix x0 n top [] ks p y h e = ground arith
  paint_bands-pix x0 n top (m ∷ ms) [] p y h e = absurd (omega arith)
  paint_bands-pix x0 n top (m ∷ ms) (k ∷ ks) p y h e =
      let r = paint_band x0 n top (class_rgb k) m p y in
      let (sized, end) = paint_band-Sized x0 n top (class_rgb k) m p y h in
      let one = paint_band-pix x0 n top (class_rgb k) m p y h in
      let rest = paint_bands-pix x0 n top ms ks r.0 r.1 (omega (arith, end)) (omega arith) in
      let depth : r.1 ≡ y - m → ltb (y - 1 - b) m ≡ false → r.1 - 1 - b ≡ y - 1 - b - m =
        λ at past. ground arith in
      ground (arith, one, rest)

  box_rows-pix :
      (p : Canvas) (top bottom : ℕ) (k : Rgba) (x n : ℕ)
      → let q = box_rows p top bottom k x n in
        Sized p q
        × (q.pix a b ≡ (
            if (((b == top) || (b == bottom)) && covers x n a) && inside p a b
            then opaque k
            else p.pix a b))
  unfolding box_rows
  box_rows-pix p top bottom k x zero = ground arith
  box_rows-pix p top bottom k x (suc n) =
      let p' = set p x top k in
      ground (
        arith,
        set-pix p x top k,
        set-pix p' x bottom k,
        box_rows-pix (set p' x bottom k) top bottom k (x + 1) n,
      )

  box_cols-pix :
      (p : Canvas) (x0 x1 : ℕ) (k : Rgba) (y n : ℕ)
      → let q = box_cols p x0 x1 k y n in
        Sized p q
        × (q.pix a b ≡ (
            if (((a == x0) || (a == x1)) && covers y n b) && inside p a b
            then opaque k
            else p.pix a b))
  unfolding box_cols
  box_cols-pix p x0 x1 k y zero = ground arith
  box_cols-pix p x0 x1 k y (suc n) =
      let p' = set p x0 y k in
      ground
        (arith, set-pix p x0 y k, set-pix p' x1 y k, box_cols-pix (set p' x1 y k) x0 x1 k (y + 1) n)

  pub box-pix :
      (p : Canvas) (x0 x1 top bottom : ℕ) (k : Rgba)
      → let q = box p x0 x1 top bottom k in
        let across = covers x0 (x1 + 1 - x0) a in
        let down = covers top (bottom + 1 - top) b in
        Sized p q
        × (q.pix a b ≡ (
            if ((((b == top) || (b == bottom)) && across) || (((a == x0) || (a == x1)) && down))
              && inside p a b
            then opaque k
            else p.pix a b))
  unfolding box
  box-pix p x0 x1 top bottom k =
      let p' = box_rows p top bottom k x0 (x1 + 1 - x0) in
      ground (
        arith,
        box_rows-pix p top bottom k x0 (x1 + 1 - x0),
        box_cols-pix p' x0 x1 k top (bottom + 1 - top),
      )
