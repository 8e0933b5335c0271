-- ===== src/Tests/HistogramRuns.antt =====
-- The histogram of packages/fragview/flagdump.go over a machine of two pages.
use zfs_slab_mobility.Prelude.{◌≡◌, arith, some}
use zfs_slab_mobility.Histogram.{dump_flags}
use zfs_slab_mobility.Histogram.Gathered.{stat_of, gathered, dump_flags-exact}
use zfs_slab_mobility.Tests.KpageRuns.{read_flags, page_of, two_blocks, reads_hold}

-- One page has the word 0x20; both files say 0x80 of the first frame and 0x20 of the second.
dump_flags-exact_example :
    let s = stat_of 0x20 (dump_flags read_flags (some read_flags) two_blocks) in
    (s.pages ≡ 1) × (s.ref_zero ≡ 0) × (s.ref_sum ≡ 0x20)
unfolding gathered
dump_flags-exact_example =
    dump_flags-exact page_of page_of 0x20 read_flags read_flags 2 reads_hold reads_hold two_blocks
      (omega arith, tt)
