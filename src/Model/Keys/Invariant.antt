-- ===== src/Model/Keys/Invariant.antt =====
-- What every keystroke of packages/fragview/main.go keeps true.
use zfs_slab_mobility.Prelude.{
  ℕ, ◌*◌, ◌≤◌, ◌<◌, ◌≡◌, refl, ◌∙◌, Bool, true, false, ◌||◌, arith, ◌==◌, if◌then◌else◌, Bool-cases,
  inl, inr, List, [], ◌∷◌,
}
use zfs_slab_mobility.Prelude.Int.{ℤ, pos, ◌+ℤ◌, ◌-ℤ◌, ◌≤ℤ◌, int_laws, ltb_ℤ}
use zfs_slab_mobility.Render.Window.{
  Frame, span_of, clamp, pan, half, double, limit_span, zoom_from, zoom,
}
use zfs_slab_mobility.Render.Window.Bounds.{IsInside, pan-IsInside, zoom-IsInside, clamp-IsInside}
use zfs_slab_mobility.Model.Keys.{
  Key, KeyVerdict, quit, compact, carry_on, settle, verdict_of, is_quit, is_compact, scroll_key,
  mode_key, map_key, sort_orders, key, keys_loop,
}

-- The window is inside the map, the sweep takes at least one frame and at most 510, and the sort
-- order is one of the four.
pub record IsSound (f : Frame) : Type 0 where
  pub window : IsInside f
  pub share_pos : 0 < f.share
  pub share_max : f.share ≤ 510
  pub sort_known : f.slab_sort < sort_orders

scroll_key-IsSound : (stroke : Key) (f : Frame) → IsSound f → IsSound (scroll_key stroke f)
unfolding scroll_key
scroll_key-IsSound Key.down f ok = omega arith
scroll_key-IsSound _ f ok = omega arith

mode_key-IsSound :
    (kitty : Bool) (stroke : Key) (f : Frame) → IsSound f → IsSound (mode_key kitty stroke f)
unfolding mode_key
mode_key-IsSound kitty Key.space f ok = omega arith
mode_key-IsSound kitty _ f ok = omega arith

clamp_rest : (f : Frame) → ((clamp f).share ≡ f.share) × ((clamp f).slab_sort ≡ f.slab_sort)
unfolding clamp
clamp_rest f =
    elim (Bool-cases (
      ltb_ℤ (pos f.nblocks)
        ((if ltb_ℤ f.view_from (pos 0) then pos 0 else f.view_from) +ℤ span_of f))) [
          | inl over ↦ rw over (refl, refl)
          | inr fits ↦ rw fits (refl, refl)
        ]

clamp-IsSound : (f : Frame) → IsSound f → IsSound (clamp f)
clamp-IsSound f ok =
    let (share, sort) = clamp_rest f in
    let w = ok.window in
    record {
      window = (clamp-IsInside f w.ordered (omega int_laws)).0;
      share_pos = omega arith;
      share_max = omega arith;
      sort_known = omega arith;
    }

-- A clamped window of a sound frame.
moved-IsSound :
    (f v : Frame)
    → IsSound f
    → IsInside (clamp v)
    → v.share ≡ f.share
    → v.slab_sort ≡ f.slab_sort
    → IsSound (clamp v)
moved-IsSound f v ok inside e1 e2 =
    let (share, sort) = clamp_rest v in
    record {
      window = inside;
      share_pos = omega arith;
      share_max = omega arith;
      sort_known = omega arith;
    }

pub pan-IsSound : (f : Frame) (by : ℤ) → IsSound f → IsSound (pan f by)
unfolding pan
pan-IsSound f by ok =
    moved-IsSound f (record f { view_from = f.view_from +ℤ by; view_to = f.view_to +ℤ by }) ok
      (pan-IsInside f by ok.window).0 refl refl

whole-IsSound :
    (f : Frame)
    → IsSound f
    → IsSound (clamp (record f { view_from = pos 0; view_to = pos f.nblocks }))
whole-IsSound f ok =
    clamp-IsSound (record f { view_from = pos 0; view_to = pos f.nblocks })
      (record {
        window = omega int_laws;
        share_pos = ok.share_pos;
        share_max = ok.share_max;
        sort_known = ok.sort_known;
      })

bottom-IsSound :
    (f : Frame) (span : ℤ)
    → pos 0 ≤ℤ span
    → span ≤ℤ pos f.nblocks
    → IsSound f
    → IsSound (clamp (record f { view_from = pos f.nblocks -ℤ span; view_to = pos f.nblocks }))
bottom-IsSound f span lo hi ok =
    clamp-IsSound (record f { view_from = pos f.nblocks -ℤ span; view_to = pos f.nblocks })
      (record {
        window = omega int_laws;
        share_pos = ok.share_pos;
        share_max = ok.share_max;
        sort_known = ok.sort_known;
      })

pub if-IsSound : (b : Bool) {x y : Frame} → IsSound x → IsSound y → IsSound (if b then x else y)
if-IsSound true p q = p
if-IsSound false p q = q

settle-IsSound :
    (v : KeyVerdict) {early late : Frame}
    → IsSound early
    → IsSound late
    → IsSound (settle v early late).0
settle-IsSound quit p q = p
settle-IsSound compact p q = p
settle-IsSound carry_on p q = q

module _ (scale : ℤ → ℤ → ℤ → ℤ) where
  pub zoom-IsSound : (f : Frame) (span : ℤ) → IsSound f → IsSound (zoom scale f span)
  unfolding zoom
  zoom-IsSound f wanted ok =
      let span = limit_span f wanted in
      let from = zoom_from scale f span in
      moved-IsSound f (record f { view_from = from; view_to = from +ℤ span }) ok
        (zoom-IsInside scale f wanted).0 refl refl

  map_key-IsSound :
      (span : ℤ) (row screen : ℕ) (stroke : Key) (f : Frame)
      → pos 0 ≤ℤ span
      → span ≤ℤ pos f.nblocks
      → IsSound f
      → IsSound (map_key scale span row screen stroke f)
  unfolding map_key
  map_key-IsSound span row screen Key.z f lo hi ok = zoom-IsSound f (half span) ok
  map_key-IsSound span row screen Key.upper_z f lo hi ok = zoom-IsSound f (double span) ok
  map_key-IsSound span row screen Key.down f lo hi ok = pan-IsSound f (pos row) ok
  map_key-IsSound span row screen Key.j f lo hi ok = pan-IsSound f (pos row) ok
  map_key-IsSound span row screen Key.up f lo hi ok = pan-IsSound f (pos 0 -ℤ pos row) ok
  map_key-IsSound span row screen Key.k f lo hi ok = pan-IsSound f (pos 0 -ℤ pos row) ok
  map_key-IsSound span row screen Key.pgdown f lo hi ok = pan-IsSound f (pos screen) ok
  map_key-IsSound span row screen Key.ctrl_d f lo hi ok = pan-IsSound f (pos screen) ok
  map_key-IsSound span row screen Key.pgup f lo hi ok = pan-IsSound f (pos 0 -ℤ pos screen) ok
  map_key-IsSound span row screen Key.ctrl_u f lo hi ok = pan-IsSound f (pos 0 -ℤ pos screen) ok
  map_key-IsSound span row screen Key.right f lo hi ok = pan-IsSound f _ ok
  map_key-IsSound span row screen Key.l f lo hi ok = pan-IsSound f _ ok
  map_key-IsSound span row screen Key.left f lo hi ok = pan-IsSound f _ ok
  map_key-IsSound span row screen Key.h f lo hi ok = pan-IsSound f _ ok
  map_key-IsSound span row screen Key.home f lo hi ok = whole-IsSound f ok
  map_key-IsSound span row screen Key.g f lo hi ok = whole-IsSound f ok
  map_key-IsSound span row screen Key.close f lo hi ok = bottom-IsSound f span lo hi ok
  map_key-IsSound span row screen Key.upper_g f lo hi ok = bottom-IsSound f span lo hi ok
  map_key-IsSound span row screen Key.plus f lo hi ok = ground arith
  map_key-IsSound span row screen Key.equals f lo hi ok = ground arith
  map_key-IsSound span row screen Key.minus f lo hi ok = ground arith
  map_key-IsSound span row screen _ f lo hi ok = ok

  focused-IsSound :
      (stroke : Key) (f : Frame)
      → IsSound f
      → IsSound (if f.focus_slab then scroll_key stroke f else f)
  focused-IsSound stroke f ok = if-IsSound f.focus_slab (scroll_key-IsSound stroke f ok) ok

  focused-nblocks :
      (stroke : Key) (f : Frame)
      → (if f.focus_slab then scroll_key stroke f else f).nblocks ≡ f.nblocks
  unfolding scroll_key
  focused-nblocks Key.down f = ground arith
  focused-nblocks _ f = ground arith

  mode_key-nblocks :
      (kitty : Bool) (stroke : Key) (f : Frame) → (mode_key kitty stroke f).nblocks ≡ f.nblocks
  unfolding mode_key
  mode_key-nblocks kitty Key.space f = refl
  mode_key-nblocks kitty _ f = refl

  -- Every key leaves a sound frame, in either mode, whatever the rounding of the zoom.
  pub key-IsSound :
      (kitty : Bool) (stroke : Key) (f : Frame) → IsSound f → IsSound (key scale kitty stroke f).0
  unfolding key
  key-IsSound kitty stroke f ok =
      let w = ok.window in
      let row = if f.row_blocks == 0 then 512 else f.row_blocks in
      let screen = if f.screen_blocks == 0 then row * 8 else f.screen_blocks in
      let f1 = if f.focus_slab then scroll_key stroke f else f in
      let f2 = mode_key kitty stroke f1 in
      let n = mode_key-nblocks kitty stroke f1 ∙ focused-nblocks stroke f in
      let ok1 = focused-IsSound stroke f ok in
      let ok2 = mode_key-IsSound kitty stroke f1 ok1 in
      let ok3 =
        map_key-IsSound (span_of f) row screen stroke f2 (omega int_laws) (omega (int_laws, n))
          ok2 in
      settle-IsSound (verdict_of stroke) ok1 (if-IsSound f2.focus_slab ok2 ok3)

  -- A message of any number of keys leaves a sound frame sound.
  pub keys_loop-IsSound :
      (kitty : Bool) (strokes : List Key) (f : Frame) (flags : Bool × Bool)
      → IsSound f
      → IsSound (keys_loop scale kitty strokes f flags).0
  unfolding keys_loop
  keys_loop-IsSound kitty [] f (q, c) ok = ok
  keys_loop-IsSound kitty (stroke ∷ rest) f (q, c) ok =
      let r = key scale kitty stroke f in
      keys_loop-IsSound kitty rest r.0 (q || is_quit r.1, c || is_compact r.1)
        (key-IsSound kitty stroke f ok)
