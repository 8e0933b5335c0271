-- ===== src/Tests/SweepRuns.antt =====
-- The scanner of packages/fragview/main.go at a small input.
use zfs_slab_mobility.Prelude.{ℕ, ◌<◌, ◌≡◌, refl, true, false, arith, some, []}
use zfs_slab_mobility.Model.Sweep.{Scanner, scan, ticks}
use zfs_slab_mobility.Model.Sweep.Full.{scan_full}
use zfs_slab_mobility.Model.Sweep.Slice.{IsQuiet, IsFresh}
use zfs_slab_mobility.Model.Sweep.Round.{round_length, ticks_round}
use zfs_slab_mobility.Tests.KpageRuns.{read_flags, page_of, two_blocks, reads_hold, blocks_in_ram}

-- Two blocks of one page, one block to a tick.
abbrev pub started : Scanner
started = record {
  blocks = two_blocks;
  cursor = 0;
  want_full = false;
  ready = true;
  paused = false;
  share = 2;
  gen = 0;
  scratch = [];
  unseen = [];
}

started-IsQuiet : IsQuiet read_flags page_of 1 two_blocks
started-IsQuiet =
    (λ pfn pages h. reads_hold pfn pages (omega arith), λ b h. blocks_in_ram b (omega arith) h)

ticks_round_example :
    (t : Scanner) × (ticks read_flags 1 (round_length started) started ≡ some t)
    × (t.cursor ≡ 0)
    × (t.blocks.nblocks ≡ 2)
    × ((b : ℕ) → b < t.blocks.nblocks → IsFresh page_of 1 t.blocks b)
ticks_round_example =
    ticks_round read_flags page_of 1 started (omega arith) (omega arith) started-IsQuiet refl
      (omega arith) refl refl (omega arith) refl

abbrev asked : Scanner
asked = record started { want_full = true; paused = true; cursor = 1 }

scan_full_example :
    (t : Scanner) × (scan read_flags 1 asked ≡ some t)
    × (t.cursor ≡ 0)
    × (t.want_full ≡ false)
    × (t.ready ≡ true)
    × (t.blocks.nblocks ≡ 2)
    × ((b : ℕ) → b < t.blocks.nblocks → IsFresh page_of 1 t.blocks b)
scan_full_example =
    scan_full read_flags page_of 1 asked (omega arith) (omega arith) started-IsQuiet refl
      (omega arith) refl
