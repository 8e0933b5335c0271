-- ===== src/Model/Keys.antt =====
-- packages/fragview/main.go: what one keystroke does.
pub mod Invariant
use zfs_slab_mobility.Prelude.{
  ℕ, suc, ◌+◌, ◌-◌, ◌*◌, ◌/◌, ◌%◌, max, Bool, true, false, not, ◌&&◌, ltb, ◌==◌, if◌then◌else◌,
  List, [], ◌∷◌, ◌||◌,
}
use zfs_slab_mobility.Prelude.Int.{ℤ, pos, negsuc, ◌+ℤ◌, ◌-ℤ◌}
use zfs_slab_mobility.Render.Window.{Frame, span_of, clamp, pan, half, double, zoom}

-- The strings that `key` tests for; `other` is any further one. `upper_z` is "Z", `close` is "end".
pub data Key : Type 0 where
  q ctrl_c esc space tab s o m p c z upper_z down j up k pgdown ctrl_d pgup ctrl_u right l left h :
      Key
  home g close upper_g plus equals minus other : Key

-- The first `switch`, reached only while the cache list has the focus.
scroll_key : Key → Frame → Frame
scroll_key down f = record f { slab_scroll = f.slab_scroll +ℤ pos 1 }
scroll_key j f = record f { slab_scroll = f.slab_scroll +ℤ pos 1 }
scroll_key up f = record f { slab_scroll = f.slab_scroll -ℤ pos 1 }
scroll_key k f = record f { slab_scroll = f.slab_scroll -ℤ pos 1 }
scroll_key pgdown f = record f { slab_scroll = f.slab_scroll +ℤ pos f.slab_rows }
scroll_key ctrl_d f = record f { slab_scroll = f.slab_scroll +ℤ pos f.slab_rows }
scroll_key pgup f = record f { slab_scroll = f.slab_scroll -ℤ pos f.slab_rows }
scroll_key ctrl_u f = record f { slab_scroll = f.slab_scroll -ℤ pos f.slab_rows }
scroll_key home f = record f { slab_scroll = pos 0 }
scroll_key g f = record f { slab_scroll = pos 0 }
scroll_key close f = record f { slab_scroll = pos f.slab_total }
scroll_key upper_g f = record f { slab_scroll = pos f.slab_total }
scroll_key _ f = f

-- `len(slabSorts)`.
abbrev pub sort_orders : ℕ
sort_orders = 4

-- The second `switch`, less the two cases that return; `kitty` is `kittyAvailable()`.
mode_key : Bool → Key → Frame → Frame
mode_key kitty space f = record f { paused = not f.paused }
mode_key kitty tab f = record f { focus_slab = not f.focus_slab }
mode_key kitty s f = record f { focus_slab = not f.focus_slab }
mode_key kitty o f = record f { slab_sort = (f.slab_sort + 1) % sort_orders; slab_scroll = pos 0 }
mode_key kitty m f = record f { by_class = not f.by_class }
mode_key kitty p f = record f { pixels = not f.pixels && kitty }
mode_key kitty _ f = f

-- The cases of the second `switch` that return: to quit, or to compact and sweep again.
pub data KeyVerdict : Type 0 where
  carry_on quit compact : KeyVerdict

abbrev pub is_quit : KeyVerdict → Bool
is_quit quit = true
is_quit _ = false

abbrev pub is_compact : KeyVerdict → Bool
is_compact compact = true
is_compact _ = false

abbrev pub verdict_of : Key → KeyVerdict
verdict_of q = quit
verdict_of ctrl_c = quit
verdict_of esc = quit
verdict_of c = compact
verdict_of _ = carry_on

-- A case that returns leaves what the later cases would do undone.
abbrev settle : KeyVerdict → Frame → Frame → Frame × KeyVerdict
settle quit early late = (early, quit)
settle compact early late = (early, compact)
settle carry_on early late = (late, carry_on)

module _ (scale : ℤ → ℤ → ℤ → ℤ) where
  -- The third `switch`. The span, the row and the screen are those from before the key.
  map_key : ℤ → ℕ → ℕ → Key → Frame → Frame
  map_key span row screen z f = zoom scale f (half span)
  map_key span row screen upper_z f = zoom scale f (double span)
  map_key span row screen down f = pan f (pos row)
  map_key span row screen j f = pan f (pos row)
  map_key span row screen up f = pan f (pos 0 -ℤ pos row)
  map_key span row screen k f = pan f (pos 0 -ℤ pos row)
  map_key span row screen pgdown f = pan f (pos screen)
  map_key span row screen ctrl_d f = pan f (pos screen)
  map_key span row screen pgup f = pan f (pos 0 -ℤ pos screen)
  map_key span row screen ctrl_u f = pan f (pos 0 -ℤ pos screen)
  map_key span row screen right f = pan f (pos (max (row / 4) 1))
  map_key span row screen l f = pan f (pos (max (row / 4) 1))
  map_key span row screen left f = pan f (pos 0 -ℤ pos (max (row / 4) 1))
  map_key span row screen h f = pan f (pos 0 -ℤ pos (max (row / 4) 1))
  map_key span row screen home f = clamp (record f { view_from = pos 0; view_to = pos f.nblocks })
  map_key span row screen g f = clamp (record f { view_from = pos 0; view_to = pos f.nblocks })
  map_key span row screen close f =
      clamp (record f { view_from = pos f.nblocks -ℤ span; view_to = pos f.nblocks })
  map_key span row screen upper_g f =
      clamp (record f { view_from = pos f.nblocks -ℤ span; view_to = pos f.nblocks })
  map_key span row screen plus f = if ltb 1 f.share then record f { share = f.share / 2 } else f
  map_key span row screen equals f = if ltb 1 f.share then record f { share = f.share / 2 } else f
  map_key span row screen minus f = if ltb f.share 256 then record f { share = f.share * 2 } else f
  map_key span row screen _ f = f

  -- `key`: the new frame, and whether to quit or to compact. A `compact` stands for the write to
  -- compact_memory too.
  unfoldable pub key : Bool → Key → Frame → Frame × KeyVerdict
  unfolding scroll_key mode_key map_key
  key kitty stroke f =
      let row = if f.row_blocks == 0 then 512 else f.row_blocks in
      let screen = if f.screen_blocks == 0 then row * 8 else f.screen_blocks in
      let f1 = if f.focus_slab then scroll_key stroke f else f in
      let f2 = mode_key kitty stroke f1 in
      let f3 = map_key (span_of f) row screen stroke f2 in
      settle (verdict_of stroke) f1 (if f2.focus_slab then f2 else f3)

  -- The keys of one message, in order: `---` is three of them. Quit and compact are remembered.
  unfoldable pub keys_loop : Bool → List Key → Frame → Bool × Bool → Frame × Bool × Bool
  unfolding key
  keys_loop kitty [] f (quit', compact') = (f, quit', compact')
  keys_loop kitty (stroke ∷ rest) f (quit', compact') =
      let (f', v) = key kitty stroke f in
      keys_loop kitty rest f' (quit' || is_quit v, compact' || is_compact v)
