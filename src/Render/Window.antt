-- ===== src/Render/Window.antt =====
-- packages/fragview/render.go: the window onto the map, and how it is moved.
--
-- An `int` is an unbounded integer here; block numbers stay far below 2 ^ 63.
pub mod Bounds
use zfs_slab_mobility.Prelude.{
  ℕ, suc, ◌+◌, ◌*◌, ◌/◌, max, Bool, true, false, not, ◌&&◌, if◌then◌else◌,
}
use zfs_slab_mobility.Prelude.Int.{ℤ, pos, negsuc, ◌+ℤ◌, ◌-ℤ◌, ltb_ℤ}

-- The fields of `frame` that navigation reads and writes; `nblocks` is `f.m.nblocks`.
pub record Frame : Type 0 where
  pub nblocks : ℕ
  pub view_from : ℤ
  pub view_to : ℤ
  pub hover_from : ℤ
  pub hover_to : ℤ
  pub box_from : ℤ
  pub box_to : ℤ
  pub row_blocks : ℕ
  pub screen_blocks : ℕ
  pub share : ℕ
  pub paused : Bool
  pub by_class : Bool
  pub pixels : Bool
  pub focus_slab : Bool
  pub slab_sort : ℕ
  pub slab_scroll : ℤ
  pub slab_rows : ℕ
  pub slab_total : ℕ

abbrev pub span_of : Frame → ℤ
span_of f = f.view_to -ℤ f.view_from

-- A width pushed back into [0, nblocks], from the left first.
unfoldable pub clamp : Frame → Frame
clamp f =
    let span = span_of f in
    let from = if ltb_ℤ f.view_from (pos 0) then pos 0 else f.view_from in
    let to = from +ℤ span in
    let n = pos f.nblocks in
    let back = n -ℤ span in
    if ltb_ℤ n to
    then record f {
      box_from = pos 0;
      box_to = pos 0;
      view_from = if ltb_ℤ back (pos 0) then pos 0 else back;
      view_to = n;
    }
    else record f { box_from = pos 0; box_to = pos 0; view_from = from; view_to = to }

unfoldable pub pan : Frame → ℤ → Frame
unfolding clamp
pan f by = clamp (record f { view_from = f.view_from +ℤ by; view_to = f.view_to +ℤ by })

abbrev pub limit_span : Frame → ℤ → ℤ
limit_span f span =
    let wide = if ltb_ℤ span (pos 32) then pos 32 else span in
    if ltb_ℤ (pos f.nblocks) wide then pos f.nblocks else wide

-- Go's division and product of an `int` by 2.
abbrev pub half : ℤ → ℤ
half (pos n) = pos (n / 2)
half (negsuc n) = pos 0 -ℤ pos (suc n / 2)

abbrev pub double : ℤ → ℤ
double a = a +ℤ a

-- `scale d old span` stands for `int(float64(d) / float64(old) * float64(span))`.
module _ (scale : ℤ → ℤ → ℤ → ℤ) where
  -- Where the window starts after a zoom to `span`, before it is clamped.
  unfoldable pub zoom_from : Frame → ℤ → ℤ
  zoom_from f span =
      let old = span_of f in
      if ltb_ℤ f.hover_from f.hover_to && ltb_ℤ (pos 0) old
      then f.hover_from -ℤ scale (f.hover_from -ℤ f.view_from) old span
      else f.view_from

  unfoldable pub zoom : Frame → ℤ → Frame
  unfolding clamp zoom_from
  zoom f wanted =
      let span = limit_span f wanted in
      let from = zoom_from f span in clamp (record f { view_from = from; view_to = from +ℤ span })

  unfoldable pub wheel : Frame → Bool → Bool → Frame
  unfolding zoom pan
  wheel f down ctrl =
      let span = span_of f in
      let row = pos (max f.row_blocks 1) in
      let scroll = if down then f.slab_scroll +ℤ pos 3 else f.slab_scroll -ℤ pos 3 in
      if f.focus_slab
      then record f { slab_scroll = scroll }
      else if ctrl && down
      then zoom f (double span)
      else if ctrl
      then zoom f (half span)
      else if down
      then pan f row
      else pan f (pos 0 -ℤ row)
