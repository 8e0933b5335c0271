-- ===== src/Tests/WindowRuns.antt =====
-- The window and the keys of packages/fragview at small inputs.
use zfs_slab_mobility.Prelude.{
  ℕ, ◌*◌, ◌≡◌, refl, div_bounds, mul_mono, mul_lt, ◌+◌, ◌/◌, ◌<◌, true, false, arith, List, [], ◌∷◌,
}
use zfs_slab_mobility.Prelude.Int.{ℤ, pos, negsuc, ◌+ℤ◌, ◌-ℤ◌, ltb_ℤ, ◌≤ℤ◌, ◌<ℤ◌}
use zfs_slab_mobility.Render.Window.{Frame, span_of, clamp, pan, limit_span, zoom_from, zoom}
use zfs_slab_mobility.Render.Window.Bounds.{
  IsInside, pan-IsInside, zoom-IsInside, zoom_keeps_pointer,
}
use zfs_slab_mobility.Model.Keys.{Key, key, keys_loop}
use zfs_slab_mobility.Model.Keys.Invariant.{IsSound, key-IsSound, keys_loop-IsSound}

-- A map of 1000 blocks, all of it in the window, the pointer on block 600.
abbrev pub whole : Frame
whole = record {
  nblocks = 1000;
  view_from = pos 0;
  view_to = pos 1000;
  hover_from = pos 600;
  hover_to = pos 601;
  box_from = pos 0;
  box_to = pos 0;
  row_blocks = 100;
  screen_blocks = 800;
  share = 8;
  paused = false;
  by_class = false;
  pixels = true;
  focus_slab = false;
  slab_sort = 3;
  slab_scroll = pos 0;
  slab_rows = 10;
  slab_total = 200;
}

whole-IsInside : IsInside whole
whole-IsInside = record { starts = omega arith; ordered = omega arith; ends = omega arith }

pub whole-IsSound : IsSound whole
whole-IsSound = record {
  window = whole-IsInside;
  share_pos = omega arith;
  share_max = omega arith;
  sort_known = omega arith;
}

-- The scale without rounding errors: the quotient of the exact product.
abbrev pub exact : ℤ → ℤ → ℤ → ℤ
exact (pos d) (pos old) (pos span) = pos (d * span / old)
exact _ _ _ = pos 0

below_span : (d old span : ℕ) → d < old → 0 < span → d * span / old < span
below_span d old span hi some =
    let (lo, _) = div_bounds (d * span) old (omega arith) in
    mul_lt (d * span / old) span old (omega (arith, mul_mono (d + 1) old span (omega arith)))

exact_law :
    (d old span : ℤ)
    → pos 0 ≤ℤ d
    → d <ℤ old
    → pos 0 <ℤ span
    → (pos 0 ≤ℤ exact d old span) × (exact d old span <ℤ span)
exact_law (pos d) (pos old) (pos span) lo hi some =
    (omega arith, omega (arith, below_span d old span (omega arith) (omega arith)))
exact_law (negsuc d) old span lo hi some = absurd (omega arith)
exact_law (pos d) (negsuc old) span lo hi some = absurd (omega arith)
exact_law (pos d) (pos old) (negsuc span) lo hi some = absurd (omega arith)

pan-IsInside_run : IsInside (pan whole (pos 100)) × (span_of (pan whole (pos 100)) ≡ span_of whole)
pan-IsInside_run = pan-IsInside whole (pos 100) whole-IsInside

zoom-IsInside_example :
    IsInside (zoom exact whole (pos 500))
    × (span_of (zoom exact whole (pos 500)) ≡ limit_span whole (pos 500))
zoom-IsInside_example = zoom-IsInside exact whole (pos 500)

zoom_keeps_pointer_example :
    ((zoom exact whole (pos 500)).view_from ≤ℤ pos 600)
    × (pos 600 <ℤ (zoom exact whole (pos 500)).view_to)
zoom_keeps_pointer_example =
    zoom_keeps_pointer exact whole (pos 500) whole-IsInside (omega arith) (omega arith)
      (omega arith) exact_law

-- Half the width around the pointer, then the sort order, then a page down in the list.
zoomed : (zoom exact whole (pos 500)).view_from ≡ pos 300
unfolding zoom zoom_from clamp ◌-ℤ◌ ◌+ℤ◌ ltb_ℤ
zoomed = refl

key-IsSound_example : IsSound (key exact true Key.z whole).0
key-IsSound_example = key-IsSound exact true Key.z whole whole-IsSound

abbrev strokes : List Key
strokes = Key.z ∷ Key.tab ∷ Key.o ∷ Key.pgdown ∷ Key.minus ∷ Key.q ∷ []

keys_loop-IsSound_example : IsSound (keys_loop exact true strokes whole (false, false)).0
keys_loop-IsSound_example = keys_loop-IsSound exact true strokes whole (false, false) whole-IsSound
