-- ===== src/Tests/UpdateRuns.antt =====
-- A run of packages/fragview/main.go.
use zfs_slab_mobility.Prelude.{◌+◌, ◌≡◌, true, false, [], ◌∷◌}
use zfs_slab_mobility.Prelude.Int.{negsuc}
use zfs_slab_mobility.Model.Keys.{Key}
use zfs_slab_mobility.Model.Keys.Invariant.{IsSound}
use zfs_slab_mobility.Model.Update.{
  App, typed, wheeled, update, System, deliver, init, key_input, wheel_input, input, here, step_on,
}
use zfs_slab_mobility.Model.Update.Runs.{Run-one_scan}
use zfs_slab_mobility.Tests.KpageRuns.{read_flags}
use zfs_slab_mobility.Tests.SweepRuns.{started}
use zfs_slab_mobility.Tests.WindowRuns.{whole, exact, whole-IsSound}

abbrev app : App
app = record {
  frame = whole;
  scanner = started;
  hover_col = negsuc 0;
  hover_row = negsuc 0;
  hover_seq = 0;
  rows = 40;
  cols = 120;
}

-- A zoom and a compaction, then a turn of the wheel.
abbrev typed_on : System
typed_on =
    deliver (init false app) (update exact true (init false app).app (typed (Key.z ∷ Key.c ∷ [])))

abbrev turned : System
turned = deliver typed_on (update exact true typed_on.app (wheeled true false))

Run-one_scan_example : (turned.scans + turned.dones ≡ 1) × IsSound turned.app.frame
Run-one_scan_example = Run-one_scan exact true read_flags 1 false app turned whole-IsSound (
    step_on (step_on here (input (typed (Key.z ∷ Key.c ∷ [])) key_input))
      (input (wheeled true false) wheel_input))
