-- ===== src/Render/Slabs.antt =====
-- packages/fragview/render.go: the table of slab caches, `sortedSlabs` and the rows that
-- `slabFullPane` shows of it.
--
-- `who` is nothing if the module that counts blocks is not loaded; reading it gives zeros then.
pub mod Ordered
use zfs_slab_mobility.Prelude.{
  ℕ, ◌+◌, ◌-◌, ◌%◌, max, Bool, true, false, not, List, [], ◌∷◌, Option, none, some, Text, Dict,
  lookup, value_or, ltb, ◌==◌, if◌then◌else◌, length, take, drop,
}
use zfs_slab_mobility.Prelude.Int.{ℤ, pos, negsuc, ◌-ℤ◌, ltb_ℤ}
use zfs_slab_mobility.Stats.Counts.{SlabCache, cache_bytes, wasted}
use zfs_slab_mobility.Stats.Who.{WhoStat}

abbrev pub no_who : WhoStat
no_who = record { blocks = 0; hostage_blocks = 0; pages = 0; hostage_pages = 0; mobile = false }

abbrev pub who_at : Option (Dict WhoStat) → SlabCache → WhoStat
who_at none c = no_who
who_at (some who) c = value_or no_who (lookup c.name who)

-- By a number, and by another where that is the same; the larger comes first.
abbrev pub first_by : ℕ → ℕ → ℕ → ℕ → Bool
first_by a b a' b' = if a == b then ltb b' a' else ltb b a

-- `slabSorts`: hostage pages, blocks touched, least dense, size.
unfoldable pub less_by : ℕ → SlabCache → SlabCache → WhoStat → WhoStat → Bool
less_by n a b wa wb =
    if n == 0
    then first_by wa.hostage_pages wb.hostage_pages wa.blocks wb.blocks
    else if n == 1
    then first_by wa.blocks wb.blocks wa.hostage_pages wb.hostage_pages
    else if n == 2
    then ltb (wasted b) (wasted a)
    else ltb (cache_bytes b) (cache_bytes a)

-- `sort.SliceStable`, of any test that one element comes before another.
module _ {A : Type 0} (less : A → A → Bool) where
  unfoldable pub insert_stable : A → List A → List A
  insert_stable x [] = x ∷ []
  insert_stable x (y ∷ ys) =
      let rest = insert_stable x ys in if less y x then y ∷ rest else x ∷ y ∷ ys

  unfoldable pub sort_stable : List A → List A
  unfolding insert_stable
  sort_stable [] = []
  sort_stable (x ∷ xs) = insert_stable x (sort_stable xs)

-- A cache is listed unless it is known to have no blocks.
abbrev pub is_listed : Option (Dict WhoStat) → SlabCache → Bool
is_listed none c = true
is_listed (some who) c = not ((who_at (some who) c).blocks == 0)

unfoldable pub listed : Option (Dict WhoStat) → List SlabCache → List SlabCache
listed who [] = []
listed who (c ∷ cs) = let rest = listed who cs in if is_listed who c then c ∷ rest else rest

abbrev pub comes_first : ℕ → Option (Dict WhoStat) → SlabCache → SlabCache → Bool
comes_first slab_sort who a b = less_by (slab_sort % 4) a b (who_at who a) (who_at who b)

unfoldable pub sorted_slabs : ℕ → Option (Dict WhoStat) → List SlabCache → List SlabCache
unfolding less_by sort_stable listed
sorted_slabs slab_sort who slabs = sort_stable (comes_first slab_sort who) (listed who slabs)

-- Rows of the pane: two lines are the head, and four the legend if there are merged caches.
abbrev pub slab_rows : ℕ → Bool → ℕ
slab_rows rows merged = max (rows - 2 - (if merged then 3 + 1 else 0)) 1

-- `slabScroll` after both of its limits: the number of caches less the room for them, which is
-- negative if there is more room than that, and then 0.
abbrev pub scroll_within : ℤ → ℕ → ℕ → ℤ
scroll_within scroll room total =
    let last = pos total -ℤ pos room in
    let capped = if ltb_ℤ last scroll then last else scroll in
    if ltb_ℤ capped (pos 0) then pos 0 else capped

-- The loop over what fits the pane, from an index on; below 0 that is out of range, a panic.
abbrev pub shown_from : ℤ → ℕ → List SlabCache → Option (List SlabCache)
shown_from (negsuc d) room slabs = none
shown_from (pos i) room slabs = some (take room (drop i slabs))

-- The caches on screen.
unfoldable pub slab_window : ℕ → Bool → ℤ → List SlabCache → Option (List SlabCache)
unfolding ◌-ℤ◌ ltb_ℤ
slab_window rows merged scroll slabs =
    let room = slab_rows rows merged in
    shown_from (scroll_within scroll room (length slabs)) room slabs
