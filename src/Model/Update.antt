-- ===== src/Model/Update.antt =====
-- packages/fragview/main.go: what the program does with one message, and the runs of the program.
--
-- The runtime (bubbletea) is a relation: it hands messages to `Update` one after another and runs
-- each returned command once, so a scheduled scan ends in one `scanDoneMsg`. A `Step` is one such
-- event; the lock makes it atomic, except for a scan, which publishes when it ends. A catch-up
-- message changes nothing and only asks for a redraw, so it is not a message here.
pub mod Runs
use zfs_slab_mobility.Prelude.{
  ℕ, zero, suc, ◌+◌, ◌%◌, ◌^◌, ◌≡◌, ◌<◌, ◌≤◌, Bool, true, false, ◌&&◌, ◌||◌, Option, none, some,
  List, [], ◌∷◌, ◌++◌, ◌==◌, if◌then◌else◌,
}
use zfs_slab_mobility.Prelude.Int.{ℤ, pos, negsuc, ltb_ℤ, same_ℤ}
use zfs_slab_mobility.Render.Window.{Frame, wheel}
use zfs_slab_mobility.Kpage.Blocks.{ReadAt}
use zfs_slab_mobility.Model.Keys.{Key, keys_loop}
use zfs_slab_mobility.Model.Sweep.{Scanner, scan}

-- `model`: its frame, in two parts, and the fields that are not the scanner's.
pub record App : Type 0 where
  pub frame : Frame
  pub scanner : Scanner
  pub hover_col : ℤ
  pub hover_row : ℤ
  pub hover_seq : ℕ
  pub rows : ℕ
  pub cols : ℕ

pub data Msg : Type 0 where
  resized : ℕ → ℕ → Msg
  wheeled : Bool → Bool → Msg
  pointed : ℤ → ℤ → Msg
  hover_settled : ℕ → Msg
  scan_done : Msg
  typed : List Key → Msg

-- The commands of `Update`: `later_settle` is the batch of a catch-up and a settle timer.
pub data Cmd : Type 0 where
  no_cmd quit_program catch_up later_scan : Cmd
  later_settle : ℕ → Cmd

module _ (scale : ℤ → ℤ → ℤ → ℤ) (kitty : Bool) where
  -- The tail of the mouse case: `m.hoverSeq++`, a `uint64`.
  abbrev stirred : App → App × Cmd
  stirred a =
      let seq = (a.hover_seq + 1) % 2 ^ 64 in (record a { hover_seq = seq }, later_settle seq)

  unfoldable pub update : App → Msg → App × Cmd
  unfolding wheel keys_loop
  update a (resized h w) = (record a { rows = h; cols = w }, no_cmd)
  update a (wheeled down ctrl) = stirred (record a { frame = wheel scale a.frame down ctrl })
  update a (pointed x y) =
      if same_ℤ a.hover_col x && same_ℤ a.hover_row y
      then (a, no_cmd)
      else stirred (record a { hover_col = x; hover_row = y })
  update a (hover_settled seq) =
      let f = a.frame in
      let boxed = record a { frame = record f { box_from = f.hover_from; box_to = f.hover_to } } in
      ((if seq == a.hover_seq then boxed else a), no_cmd)
  update a scan_done = (a, later_scan)
  update a (typed keys) =
      let (frame, quit, compact) = keys_loop scale kitty keys a.frame (false, false) in
      let s = a.scanner in
      (
        record a { frame = frame; scanner = record s { want_full = s.want_full || compact } },
        if quit then quit_program else catch_up,
      )

-- What a redraw writes back for the keys to use, `f.render`; it widens an empty window to the map.
pub record Drawn : Type 0 where
  pub hover_from : ℤ
  pub hover_to : ℤ
  pub row_blocks : ℕ
  pub screen_blocks : ℕ
  pub slab_scroll : ℤ
  pub slab_rows : ℕ
  pub slab_total : ℕ

abbrev pub redraw : Drawn → Frame → Frame
redraw d f = record f {
  view_to =
      if same_ℤ f.view_to (pos 0) || ltb_ℤ (pos f.nblocks) f.view_to
      then pos f.nblocks
      else f.view_to;
  hover_from = d.hover_from;
  hover_to = d.hover_to;
  row_blocks = d.row_blocks;
  screen_blocks = d.screen_blocks;
  slab_scroll = d.slab_scroll;
  slab_rows = d.slab_rows;
  slab_total = d.slab_total;
}

-- A scan reads `paused` and `share` from the frame when it starts.
abbrev scan_start : App → Scanner
scan_start a = record a.scanner { paused = a.frame.paused; share = a.frame.share }

-- The program and what the runtime still owes it: the scans that are scheduled or running, the
-- `scanDoneMsg`s not yet delivered, and the timers of the pointer.
pub record System : Type 0 where
  pub app : App
  pub scans : ℕ
  pub dones : ℕ
  pub timers : List ℕ

-- The runtime takes a command.
abbrev launch : Cmd → System → System
launch no_cmd s = s
launch quit_program s = s
launch catch_up s = s
launch later_scan s = record s { scans = s.scans + 1 }
launch (later_settle seq) s = record s { timers = seq ∷ s.timers }

abbrev pub deliver : System → App × Cmd → System
deliver s r = launch r.1 (record s { app = r.0 })

-- `Init`: a live map starts with a full sweep, a snapshot with nothing.
abbrev pub init : Bool → App → System
init snapshot a =
    let s = a.scanner in
    if snapshot then record { app = a; scans = 0; dones = 0; timers = [] } else record {
      app = record a { scanner = record s { want_full = true } };
      scans = 1;
      dones = 0;
      timers = [];
    }

-- Messages that come from the terminal, not from a command.
pub data IsInput : Msg → Type 0 where
  resize_input : {h w : ℕ} → IsInput (resized h w)
  wheel_input : {down ctrl : Bool} → IsInput (wheeled down ctrl)
  point_input : {x y : ℤ} → IsInput (pointed x y)
  key_input : {keys : List Key} → IsInput (typed keys)

module _ (scale : ℤ → ℤ → ℤ → ℤ) (kitty : Bool) (read_at : ReadAt) (ppb : ℕ) where
  pub data Step : System → System → Type 0 where
    input : {s : System} (m : Msg) → IsInput m → Step s (deliver s (update scale kitty s.app m))
    settle_timer :
        {s : System} (before after : List ℕ) (seq : ℕ)
        → s.timers ≡ before ++ seq ∷ after
        → Step s (
            deliver
              (record s { timers = before ++ after })
              (update scale kitty s.app (hover_settled seq)))
    draw :
        {s : System} (d : Drawn)
        → Step s (record s { app = record s.app { frame = redraw d s.app.frame } })
    scan_ends :
        {s : System} (n : ℕ) (r : Scanner)
        → s.scans ≡ suc n
        → scan read_at ppb (scan_start s.app) ≡ some r
        → Step s (record s { app = record s.app { scanner = r }; scans = n; dones = s.dones + 1 })
    done_arrives :
        {s : System} (n : ℕ)
        → s.dones ≡ suc n
        → Step s (deliver (record s { dones = n }) (update scale kitty s.app scan_done))

  pub data Run : System → System → Type 0 where
    here : {s : System} → Run s s
    step_on : {s t u : System} → Run s t → Step t u → Run s u
