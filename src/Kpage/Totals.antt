-- ===== src/Kpage/Totals.antt =====
-- The uint16 counters of packages/fragview/kpage.go: each page of a block is counted once.
use zfs_slab_mobility.Prelude.{ℕ, zero, suc, ◌+◌, ◌^◌, ◌<◌, ◌≡◌, List, ◌∷◌, arith}
use zfs_slab_mobility.Kpage.Classes.{Class, absent, classes_from_free, Counts, no_pages, sum_over}
use zfs_slab_mobility.Kpage.Flags.{classify}
use zfs_slab_mobility.Kpage.Blocks.{bump}
use zfs_slab_mobility.Kpage.Reads.{tally_pages}

abbrev pub all_classes : List Class
all_classes = absent ∷ classes_from_free

-- Below the range of a uint16 one more page adds one to the sum.
sum_over-bump :
    (c : Counts) (k : Class)
    → sum_over all_classes c + 1 < 2 ^ 16
    → sum_over all_classes (bump c k) ≡ sum_over all_classes c + 1
unfolding sum_over
sum_over-bump c absent h = ground arith
sum_over-bump c _ h = ground arith

sum_over-tally_pages :
    (page : ℕ → ℕ) (n pfn : ℕ) (c : Counts)
    → sum_over all_classes c + n < 2 ^ 16
    → sum_over all_classes (tally_pages page n pfn c) ≡ sum_over all_classes c + n
unfolding tally_pages
sum_over-tally_pages page zero pfn c h = omega arith
sum_over-tally_pages page (suc n) pfn c h =
    let e = sum_over-bump c (classify (page pfn)) (omega arith) in
    omega
      (arith, sum_over-tally_pages page n (pfn + 1) (bump c (classify (page pfn))) (omega arith))

-- The counters of a block of fewer than 2 ^ 16 pages do not wrap: they add up to its pages.
pub tally_pages_total :
    (page : ℕ → ℕ) (ppb pfn : ℕ)
    → ppb < 2 ^ 16
    → sum_over all_classes (tally_pages page ppb pfn no_pages) ≡ ppb
unfolding sum_over
tally_pages_total page ppb pfn h =
    omega (arith, sum_over-tally_pages page ppb pfn no_pages (omega arith))
