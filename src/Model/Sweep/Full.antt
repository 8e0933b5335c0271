-- ===== src/Model/Sweep/Full.antt =====
-- The full sweep of packages/fragview/main.go, which a live start and a compaction ask for.
use zfs_slab_mobility.Prelude.{ℕ, ◌^◌, ◌≤◌, ◌<◌, ◌≡◌, refl, true, false, arith, length, some}
use zfs_slab_mobility.Kpage.Blocks.{ReadAt}
use zfs_slab_mobility.Model.Sweep.{Scanner, scan_range, scan}
use zfs_slab_mobility.Model.Sweep.Slice.{IsQuiet, IsFresh, scan_range_exact}

-- If reads of the flags are whole and always the same and every block of the map starts in RAM
-- (`IsQuiet`), then a scan that was asked to sweep the whole map, which is not empty, gives every
-- block the tally of its own pages, even while paused and whatever the share, puts the cursor back to
-- 0, and has answered the request. A block has 1 to 2 ^ 17 pages, and the map a tally
-- for each block.
pub scan_full :
    (read_at : ReadAt) (page : ℕ → ℕ) (ppb : ℕ) (s : Scanner)
    → 0 < ppb
    → ppb ≤ 2 ^ 17
    → IsQuiet read_at page ppb s.blocks
    → length s.blocks.counts ≡ s.blocks.nblocks
    → 0 < s.blocks.nblocks
    → s.want_full ≡ true
    → (t : Scanner) × (scan read_at ppb s ≡ some t)
      × (t.cursor ≡ 0)
      × (t.want_full ≡ false)
      × (t.ready ≡ true)
      × (t.blocks.nblocks ≡ s.blocks.nblocks)
      × ((b : ℕ) → b < t.blocks.nblocks → IsFresh page ppb t.blocks b)
unfolding scan
scan_full read_at page ppb s some_pages small quiet len inside asked =
    let total = s.blocks.nblocks in
    let calm = record s { want_full = false } in
    let swept = scan_range read_at ppb 0 total calm in
    let (same, fresh, _) =
      scan_range_exact read_at page ppb some_pages small 0 total calm quiet len inside inside in
    let (_, e2, _, _, _, e6, _, _) = same in
    (
      record swept { cursor = 0; ready = true },
      simp asked,
      refl,
      e6,
      refl,
      e2,
      λ b lt. fresh b (omega arith) (omega arith),
    )
