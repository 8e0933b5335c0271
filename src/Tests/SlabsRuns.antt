-- ===== src/Tests/SlabsRuns.antt =====
-- The table of slab caches of packages/fragview/render.go with three caches.
use zfs_slab_mobility.Prelude.{
  ℕ, ◌*◌, ◌≡◌, refl, true, [], ◌∷◌, Option, some, Text, Dict, codes, total_by,
}
use zfs_slab_mobility.Prelude.Int.{pos, negsuc}
use zfs_slab_mobility.Stats.Counts.{SlabCache}
use zfs_slab_mobility.Stats.Who.{WhoStat}
use zfs_slab_mobility.Render.Slabs.{no_who, sorted_slabs, slab_window}
use zfs_slab_mobility.Render.Slabs.Ordered.{
  IsOrdered, times_shown, sorted_slabs-InOrder, length-slab_window,
}

abbrev cache : Text → SlabCache
cache name = record {
  name = name;
  active = 10;
  total = 20;
  obj_size = 64;
  pages_per_slab = 1;
  slabs = 2;
  active_slabs = 1;
}

abbrev dentry : SlabCache
dentry = cache (codes "dentry")

abbrev dnode : SlabCache
dnode = cache (codes "dnode_t")

abbrev idle : SlabCache
idle = cache (codes "idle")

abbrev who : Option (Dict WhoStat)
who = some (
    (codes "dentry", record no_who { blocks = 7 })
    ∷ (codes "dnode_t", record no_who { blocks = 3; hostage_pages = 40 })
    ∷ [])

-- By hostage pages; a cache in no block is left out.
order_run : sorted_slabs 0 who (dentry ∷ idle ∷ dnode ∷ []) ≡ dnode ∷ dentry ∷ []
unfolding sorted_slabs
order_run = refl

sorted_slabs-InOrder_example :
    IsOrdered 0 who (dnode ∷ dentry ∷ [])
    × ((w : SlabCache → ℕ)
        → total_by w (dnode ∷ dentry ∷ [])
          ≡ total_by (λ c. times_shown who c * w c) (dentry ∷ idle ∷ dnode ∷ []))
unfolding sorted_slabs
sorted_slabs-InOrder_example = sorted_slabs-InOrder 4 who (dentry ∷ idle ∷ dnode ∷ [])

-- Two rows of the table, above its start and past its end.
window_run :
    (slab_window 8 true (negsuc 9) (dentry ∷ idle ∷ dnode ∷ []) ≡ some (dentry ∷ idle ∷ []))
    × (slab_window 8 true (pos 5) (dentry ∷ idle ∷ dnode ∷ []) ≡ some (idle ∷ dnode ∷ []))
unfolding slab_window
window_run = (refl, refl)

length-slab_window_example :
    (slab_window 8 true (negsuc 9) (dentry ∷ idle ∷ dnode ∷ []) ≡ some (dentry ∷ idle ∷ []))
    × (◌≡◌ {A = ℕ} 2 2)
length-slab_window_example = length-slab_window 8 true (negsuc 9) (dentry ∷ idle ∷ dnode ∷ [])
