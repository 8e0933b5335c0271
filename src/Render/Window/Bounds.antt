-- ===== src/Render/Window/Bounds.antt =====
-- The window of packages/fragview/render.go stays inside the map.
use zfs_slab_mobility.Prelude.{◌<◌, ◌≡◌, refl, ap, ◌∙◌, ◌⊎◌, Bool-cases, inl, inr}
use zfs_slab_mobility.Prelude.Int.{
  ℤ, pos, pos_part, neg_part, ◌+ℤ◌, ◌-ℤ◌, ◌≤ℤ◌, ◌<ℤ◌, ltb_ℤ, lt→ltb_ℤ, int_laws,
}
use zfs_slab_mobility.Render.Window.{Frame, span_of, clamp, pan, limit_span, zoom_from, zoom}

-- The window lies inside the map.
pub record IsInside (f : Frame) : Type 0 where
  pub starts : pos 0 ≤ℤ f.view_from
  pub ordered : f.view_from ≤ℤ f.view_to
  pub ends : f.view_to ≤ℤ pos f.nblocks

pub clamp-IsInside :
    (f : Frame)
    → f.view_from ≤ℤ f.view_to
    → f.view_to ≤ℤ f.view_from +ℤ pos f.nblocks
    → IsInside (clamp f)
      × (span_of (clamp f) ≡ span_of f)
      × (((clamp f).view_from ≤ℤ f.view_from) ⊎ ((clamp f).view_from ≤ℤ pos 0))
      × ((f.view_to ≤ℤ (clamp f).view_to) ⊎ (pos f.nblocks ≤ℤ (clamp f).view_to))
unfolding clamp
clamp-IsInside f ordered fits =
    let span = span_of f in
    let n = pos f.nblocks in
    let back = n -ℤ span in
    elim (Bool-cases (ltb_ℤ f.view_from (pos 0))) [
      | inl low ↦ elim (Bool-cases (ltb_ℤ n (pos 0 +ℤ span))) [
        | inl over ↦ elim (Bool-cases (ltb_ℤ back (pos 0))) [
          | inl neg ↦ rw (low, over, neg) (omega int_laws)
          | inr ok ↦ rw (low, over, ok) (omega int_laws)
        ]
        | inr fits' ↦ rw (low, fits') (omega int_laws)
      ]
      | inr high ↦ elim (Bool-cases (ltb_ℤ n (f.view_from +ℤ span))) [
        | inl over ↦ elim (Bool-cases (ltb_ℤ back (pos 0))) [
          | inl neg ↦ rw (high, over, neg) (omega int_laws)
          | inr ok ↦ rw (high, over, ok) (omega int_laws)
        ]
        | inr fits' ↦ rw (high, fits') (omega int_laws)
      ]
    ]

-- Moving a window by any distance leaves it inside the map, as wide as it was.
pub pan-IsInside :
    (f : Frame) (by : ℤ) → IsInside f → IsInside (pan f by) × (span_of (pan f by) ≡ span_of f)
unfolding pan
pan-IsInside f by ok =
    let moved = record f { view_from = f.view_from +ℤ by; view_to = f.view_to +ℤ by } in
    let (inside, width, _, _) = clamp-IsInside moved (omega int_laws) (omega int_laws) in
    (inside, width ∙ omega int_laws)

limit_span_bounds :
    (f : Frame) (span : ℤ) → (pos 0 ≤ℤ limit_span f span) × (limit_span f span ≤ℤ pos f.nblocks)
limit_span_bounds f span = elim (Bool-cases (ltb_ℤ span (pos 32))) [
  | inl low ↦ elim (Bool-cases (ltb_ℤ (pos f.nblocks) (pos 32))) [
    | inl over ↦ rw (low, over) (omega int_laws)
    | inr fits ↦ rw (low, fits) (omega int_laws)
  ]
  | inr high ↦ elim (Bool-cases (ltb_ℤ (pos f.nblocks) span)) [
    | inl over ↦ rw (high, over) (omega int_laws)
    | inr fits ↦ rw (high, fits) (omega int_laws)
  ]
]

limit_span_pos : (f : Frame) (span : ℤ) → 0 < f.nblocks → pos 0 <ℤ limit_span f span
limit_span_pos f span h = elim (Bool-cases (ltb_ℤ span (pos 32))) [
  | inl low ↦ elim (Bool-cases (ltb_ℤ (pos f.nblocks) (pos 32))) [
    | inl over ↦ rw (low, over) (omega int_laws)
    | inr fits ↦ rw (low, fits) (omega int_laws)
  ]
  | inr high ↦ elim (Bool-cases (ltb_ℤ (pos f.nblocks) span)) [
    | inl over ↦ rw (high, over) (omega int_laws)
    | inr fits ↦ rw (high, fits) (omega int_laws)
  ]
]

module _ (scale : ℤ → ℤ → ℤ → ℤ) where
  -- Whatever the rounding of the scale, a zoom leaves a window inside the map, of the width asked
  -- for, brought between 32 blocks and the whole map.
  pub zoom-IsInside :
      (f : Frame) (wanted : ℤ)
      → IsInside (zoom scale f wanted) × (span_of (zoom scale f wanted) ≡ limit_span f wanted)
  unfolding zoom
  zoom-IsInside f wanted =
      let span = limit_span f wanted in
      let from = zoom_from scale f span in
      let (lo, hi) = limit_span_bounds f wanted in
      let moved = record f { view_from = from; view_to = from +ℤ span } in
      let (inside, width, _, _) = clamp-IsInside moved (omega int_laws) (omega int_laws) in
      (inside, width ∙ omega int_laws)

  zoom_lem :
      (f : Frame) (wanted : ℤ)
      → let span = limit_span f wanted in
        let from = zoom_from scale f span in
        zoom scale f wanted ≡ clamp (record f { view_from = from; view_to = from +ℤ span })
  unfolding zoom
  zoom_lem f wanted = refl

  zoom_from-pointer :
      (f : Frame) (span : ℤ)
      → f.hover_from <ℤ f.hover_to
      → pos 0 <ℤ span_of f
      → zoom_from scale f span
        ≡ f.hover_from -ℤ scale (f.hover_from -ℤ f.view_from) (span_of f) span
  unfolding zoom_from
  zoom_from-pointer f span some old =
      rw (lt→ltb_ℤ f.hover_from f.hover_to some, lt→ltb_ℤ (pos 0) (span_of f) old)

  -- A zoom keeps the block under the pointer in the window, if the pointer was on a block of the
  -- window and the scaled distance lies in the new window's width.
  pub zoom_keeps_pointer :
      (f : Frame) (wanted : ℤ)
      → IsInside f
      → f.view_from ≤ℤ f.hover_from
      → f.hover_from <ℤ f.view_to
      → f.hover_from <ℤ f.hover_to
      → ((d old span : ℤ)
          → pos 0 ≤ℤ d
          → d <ℤ old
          → pos 0 <ℤ span
          → (pos 0 ≤ℤ scale d old span) × (scale d old span <ℤ span))
      → let f' = zoom scale f wanted in
        (f'.view_from ≤ℤ f.hover_from) × (f.hover_from <ℤ f'.view_to)
  zoom_keeps_pointer f wanted ok lo hi some law =
      let span = limit_span f wanted in
      let from = zoom_from scale f span in
      let moved = record f { view_from = from; view_to = from +ℤ span } in
      let (low, high) = limit_span_bounds f wanted in
      let (inside, width, left, right) = clamp-IsInside moved (omega int_laws) (omega int_laws) in
      let (near, far) =
        law (f.hover_from -ℤ f.view_from) (span_of f) span (omega int_laws) (omega int_laws)
          (limit_span_pos f wanted (omega int_laws)) in
      let e = zoom_from-pointer f span some (omega int_laws) in
      rw (zoom_lem f wanted) (omega (int_laws, ap pos_part e, ap neg_part e))
