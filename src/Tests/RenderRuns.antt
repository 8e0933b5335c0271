-- ===== src/Tests/RenderRuns.antt =====
-- packages/fragview/render.go at small inputs.
use zfs_slab_mobility.Prelude.{◌-◌, ◌*◌, ◌≤◌, ◌<◌, ◌≡◌, ◌↔◌, refl, true, false, arith}
use zfs_slab_mobility.Kpage.Classes.{
  Class, free, abd, slab, classes_from_free, immovable, Counts, sum_over,
}
use zfs_slab_mobility.Render.Summary.{summarise}
use zfs_slab_mobility.Render.Summary.Verdict.{pinned_pages, summarise-hostage_iff}
use zfs_slab_mobility.Render.Summary.Pick.{summarise-pick_immovable}

-- 504 free pages and 8 of slab.
abbrev sparse : Counts
sparse free = 504
sparse slab = 8
sparse _ = 0

-- ARC pages and nothing else.
abbrev arc_only : Counts
arc_only abd = 512
arc_only _ = 0

sparse_is_hostage : (summarise true sparse).hostage ≡ true
unfolding summarise
sparse_is_hostage = refl

arc_only_runs : (summarise true arc_only).pick ≡ free
unfolding summarise
arc_only_runs = refl

summarise-hostage_iff_example : ((summarise true sparse).hostage ≡ true) ↔ (
    (0 < pinned_pages true sparse)
    × ((sum_over classes_from_free sparse - 504) * 8 < sum_over classes_from_free sparse))
summarise-hostage_iff_example = summarise-hostage_iff true sparse

summarise-pick_run :
    let pick = (summarise false sparse).pick in
    (immovable false pick ≡ true)
    × ((k : Class) → immovable false k ≡ true → sparse k ≤ sparse pick)
summarise-pick_run = summarise-pick_immovable false sparse (unfold sum_over in omega arith)
