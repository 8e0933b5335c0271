-- ===== src/Tests/HostageRuns.antt =====
-- packages/fragview/hostage.go at a small map.
use zfs_slab_mobility.Prelude.{ℕ, ◌≡◌, refl, false, some, List, [], ◌∷◌, length, map}
use zfs_slab_mobility.Kpage.Classes.{free, slab, kernel, Counts}
use zfs_slab_mobility.Render.Summary.{summarise}
use zfs_slab_mobility.Hostage.{
  MapView, summarise_map, Report, empty_report, report_loop, ceiling_loop,
}
use zfs_slab_mobility.Hostage.Totals.{hostage_blocks, free_pages, summarise_map-exact}
use zfs_slab_mobility.Hostage.Sole.{report_loop-ceiling}

-- Nearly free blocks: one pinned by slab, one by slab and the kernel.
abbrev by_slab : Counts
by_slab free = 504
by_slab slab = 8
by_slab _ = 0

abbrev by_both : Counts
by_both free = 500
by_both slab = 8
by_both kernel = 4
by_both _ = 0

abbrev blocks : List Counts
blocks = by_slab ∷ by_both ∷ by_slab ∷ []

abbrev blank : MapView
blank = record { views = []; hostages = 7; hostage_free = 9; view_to = 0 }

summarise_map-exact_example :
    (g : MapView) × (summarise_map false 3 blocks blank ≡ some g)
    × (g.views ≡ map (summarise false) blocks)
    × (g.hostages ≡ length (hostage_blocks false blocks))
    × (g.hostage_free ≡ free_pages false (hostage_blocks false blocks))
summarise_map-exact_example = summarise_map-exact false 3 blocks blank refl

report_loop-ceiling_example :
    let views = map (summarise false) blocks in
    (r : Report) × (t : ℕ × ℕ) × (report_loop false blocks views empty_report ≡ some r)
    × (ceiling_loop false (slab ∷ []) blocks views (0, 0) ≡ some t)
    × (r.sole_class slab ≡ t.0)
report_loop-ceiling_example = report_loop-ceiling false blocks

-- Moving slab alone would free two of the three, with 1008 pages.
slab_ceiling :
    ceiling_loop false (slab ∷ []) blocks (map (summarise false) blocks) (0, 0) ≡ some (2, 1008)
unfolding ceiling_loop summarise
slab_ceiling = refl
