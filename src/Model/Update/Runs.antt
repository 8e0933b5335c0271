-- ===== src/Model/Update/Runs.antt =====
-- What every run of packages/fragview/main.go keeps true.
use zfs_slab_mobility.Prelude.{
  ℕ, ◌+◌, ◌≡◌, refl, ◌∙◌, Bool, true, false, ◌&&◌, ◌||◌, List, ◌++◌, ◌==◌, if◌then◌else◌, arith,
  max, Bool-cases, inl, inr, if_intro,
}
use zfs_slab_mobility.Prelude.Int.{ℤ, pos, ltb_ℤ, same_ℤ, ◌+ℤ◌, ◌-ℤ◌, int_laws}
use zfs_slab_mobility.Render.Window.{Frame, span_of, half, double, wheel}
use zfs_slab_mobility.Kpage.Blocks.{ReadAt}
use zfs_slab_mobility.Model.Keys.{Key, keys_loop}
use zfs_slab_mobility.Model.Keys.Invariant.{
  IsSound, if-IsSound, zoom-IsSound, pan-IsSound, keys_loop-IsSound,
}
use zfs_slab_mobility.Model.Update.{
  App, Msg, resized, wheeled, pointed, hover_settled, scan_done, typed, Cmd, no_cmd, quit_program,
  catch_up, later_scan, later_settle, update, Drawn, redraw, System, deliver, init, IsInput, Step,
  input, settle_timer, draw, scan_ends, done_arrives, Run, here, step_on,
}

-- A frame with the same window, share and sort order.
like-IsSound :
    (f g : Frame)
    → IsSound f
    → g.nblocks ≡ f.nblocks
    → g.view_from ≡ f.view_from
    → g.view_to ≡ f.view_to
    → g.share ≡ f.share
    → g.slab_sort ≡ f.slab_sort
    → IsSound g
like-IsSound f g ok e1 e2 e3 e4 e5 = record {
  window = record {
    starts = rw e2 ok.window.starts;
    ordered = rw (e2, e3) ok.window.ordered;
    ends = rw (e1, e3) ok.window.ends;
  };
  share_pos = rw e4 ok.share_pos;
  share_max = rw e4 ok.share_max;
  sort_known = rw e5 ok.sort_known;
}

-- The window after a redraw.
redraw-IsSound : (d : Drawn) (f : Frame) → IsSound f → IsSound (redraw d f)
redraw-IsSound d f ok =
    let whole = record f { view_to = pos f.nblocks } in
    let open_end : IsSound whole = record {
      window = record { starts = ok.window.starts; ordered = omega int_laws; ends = omega arith };
      share_pos = ok.share_pos;
      share_max = ok.share_max;
      sort_known = ok.sort_known;
    } in
    if_intro (λ (t : ℤ). IsSound (record (redraw d f) { view_to = t }))
      (same_ℤ f.view_to (pos 0) || ltb_ℤ (pos f.nblocks) f.view_to) (pos f.nblocks) f.view_to
      (λ _. like-IsSound whole _ open_end refl refl refl refl refl)
      (λ _. like-IsSound f _ ok refl refl refl refl refl)

module _ (scale : ℤ → ℤ → ℤ → ℤ) (kitty : Bool) where
  wheel-IsSound : (f : Frame) (down ctrl : Bool) → IsSound f → IsSound (wheel scale f down ctrl)
  unfolding wheel
  wheel-IsSound f down ctrl ok =
      let row = pos (max f.row_blocks 1) in
      let scroll = if down then f.slab_scroll +ℤ pos 3 else f.slab_scroll -ℤ pos 3 in
      if-IsSound f.focus_slab
        (like-IsSound f (record f { slab_scroll = scroll }) ok refl refl refl refl refl)
        (if-IsSound (ctrl && down) (zoom-IsSound scale f (double (span_of f)) ok) (
          if-IsSound ctrl (zoom-IsSound scale f (half (span_of f)) ok)
            (if-IsSound down (pan-IsSound f row ok) (pan-IsSound f (pos 0 -ℤ row) ok))))

  -- No message leaves an unsound frame.
  update-IsSound : (a : App) (m : Msg) → IsSound a.frame → IsSound (update scale kitty a m).0.frame
  unfolding update
  update-IsSound a (resized h w) ok = ok
  update-IsSound a (wheeled down ctrl) ok = wheel-IsSound a.frame down ctrl ok
  update-IsSound a (pointed x y) ok =
      if_intro (λ (r : App × Cmd). IsSound r.0.frame) (same_ℤ a.hover_col x && same_ℤ a.hover_row y)
        _ _ (λ _. ok) (λ _. ok)
  update-IsSound a (hover_settled seq) ok =
      if_intro (λ (r : App). IsSound r.frame) (seq == a.hover_seq) _ _
        (λ _. like-IsSound a.frame _ ok refl refl refl refl refl) (λ _. ok)
  update-IsSound a scan_done ok = ok
  update-IsSound a (typed keys) ok = keys_loop-IsSound scale kitty keys a.frame (false, false) ok

  typed_scans :
      (s : System) (keys : List Key)
      → let t = deliver s (update scale kitty s.app (typed keys)) in
        (t.scans ≡ s.scans) × (t.dones ≡ s.dones)
  unfolding update
  typed_scans s keys = elim (Bool-cases (keys_loop scale kitty keys s.app.frame (false, false)).1) [
    | inl quit ↦ rw quit (refl, refl)
    | inr stay ↦ rw stay (refl, refl)
  ]

  -- Only the end of a scan schedules a scan.
  input_scans :
      (s : System) (m : Msg)
      → IsInput m
      → let t = deliver s (update scale kitty s.app m) in (t.scans ≡ s.scans) × (t.dones ≡ s.dones)
  unfolding update
  input_scans s (resized h w) ok = (refl, refl)
  input_scans s (wheeled down ctrl) ok = (refl, refl)
  input_scans s (pointed x y) ok =
      elim (Bool-cases (same_ℤ s.app.hover_col x && same_ℤ s.app.hover_row y)) [
        | inl same ↦ rw same (refl, refl)
        | inr moved ↦ rw moved (refl, refl)
      ]
  input_scans s (typed keys) ok = typed_scans s keys
  input_scans s (hover_settled seq) h = elim h [ ]
  input_scans s scan_done h = elim h [ ]

deliver-IsSound : (s : System) (r : App × Cmd) → IsSound r.0.frame → IsSound (deliver s r).app.frame
deliver-IsSound s (a, no_cmd) ok = ok
deliver-IsSound s (a, quit_program) ok = ok
deliver-IsSound s (a, catch_up) ok = ok
deliver-IsSound s (a, later_scan) ok = ok
deliver-IsSound s (a, later_settle seq) ok = ok

module _ (scale : ℤ → ℤ → ℤ → ℤ) (kitty : Bool) (read_at : ReadAt) (ppb : ℕ) where
  Step-scans :
      {s t : System} → Step scale kitty read_at ppb s t → t.scans + t.dones ≡ s.scans + s.dones
  unfolding update
  Step-scans {s = s} (input m h) = let (e, e') = input_scans scale kitty s m h in omega arith
  Step-scans (settle_timer before after seq e) = refl
  Step-scans (draw d) = refl
  Step-scans (scan_ends n r e run) = omega arith
  Step-scans (done_arrives n e) = omega arith

  Step-IsSound :
      {s t : System} → Step scale kitty read_at ppb s t → IsSound s.app.frame → IsSound t.app.frame
  unfolding update
  Step-IsSound {s = s} (input m h) ok =
      deliver-IsSound s (update scale kitty s.app m) (update-IsSound scale kitty s.app m ok)
  Step-IsSound {s = s} (settle_timer before after seq e) ok =
      deliver-IsSound (record s { timers = before ++ after })
        (update scale kitty s.app (hover_settled seq))
        (update-IsSound scale kitty s.app (hover_settled seq) ok)
  Step-IsSound {s = s} (draw d) ok = redraw-IsSound d s.app.frame ok
  Step-IsSound (scan_ends n r e run) ok = ok
  Step-IsSound (done_arrives n e) ok = ok

  Run-keeps :
      {s t : System}
      → IsSound s.app.frame
      → Run scale kitty read_at ppb s t
      → (t.scans + t.dones ≡ s.scans + s.dones) × IsSound t.app.frame
  Run-keeps ok here = (refl, ok)
  Run-keeps ok (step_on run step) =
      let (one, sound) = Run-keeps ok run in (Step-scans step ∙ one, Step-IsSound step sound)

  -- In every run of the program on a live map, exactly one scan is scheduled, running or just done
  -- at any moment; on a snapshot, none ever is. If the frame of the start is sound, so is every
  -- later one.
  pub Run-one_scan :
      (snapshot : Bool) (a : App) (t : System)
      → IsSound a.frame
      → Run scale kitty read_at ppb (init snapshot a) t
      → (t.scans + t.dones ≡ (if snapshot then 0 else 1)) × IsSound t.app.frame
  Run-one_scan true a t ok run = Run-keeps ok run
  Run-one_scan false a t ok run = Run-keeps ok run
