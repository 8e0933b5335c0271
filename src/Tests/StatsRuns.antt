-- ===== src/Tests/StatsRuns.antt =====
-- The parsers of /proc at small files.
use zfs_slab_mobility.Prelude.{
  ℕ, ◌⊎◌, none, ◌≤◌, ◌<◌, ◌≡◌, refl, true, Option, some, List, [], ◌∷◌, length, get_elem?, Text,
  codes, Dict, fields, cut, cut_prefix, parse_uint, parse_hex,
}
use zfs_slab_mobility.Prelude.Int.{pos, ◌-ℤ◌}
use zfs_slab_mobility.Kpage.Iomem.{read_ram_ranges}
use zfs_slab_mobility.Stats.{
  FreeLadder, read_buddyinfo, unusable_index, BlockTypes, add_counts, types_line, types_lines,
  read_pagetypeinfo,
}
use zfs_slab_mobility.Stats.Counts.{
  SlabCache, cache_of, slab_lines, slabdata_loop, read_slabinfo, read_meminfo,
}
use zfs_slab_mobility.Stats.Ladder.{smaller_pages, unusable_index-bounds}
use zfs_slab_mobility.Stats.Safe.{read_slabinfo-safe, read_pagetypeinfo-safe}
use zfs_slab_mobility.Stats.Who.{
  WhoStat, SiteStat, WhoTotals, read_slabwho, read_sites, read_slabwho-safe,
}

abbrev buddyinfo : List Text
buddyinfo =
    codes "Node 0, zone      DMA      1      0      2"
    ∷ codes "Node 0, zone   Normal     10      3      0      1"
    ∷ []

-- The zones are summed order by order.
buddyinfo_runs :
    read_buddyinfo (some buddyinfo)
    ≡ some (record { orders = 11 ∷ 3 ∷ 2 ∷ 1 ∷ []; max_order = pos 3 })
unfolding read_buddyinfo fields parse_uint ◌-ℤ◌
buddyinfo_runs = refl

abbrev ladder : FreeLadder
ladder = record { orders = 11 ∷ 3 ∷ 2 ∷ 1 ∷ []; max_order = pos 3 }

abbrev index : List (ℕ × ℕ)
index = (0, 33) ∷ (11, 33) ∷ (17, 33) ∷ (25, 33) ∷ []

ladder_runs : unusable_index ladder ≡ some index
unfolding unusable_index
ladder_runs = refl

unusable_index-bounds_example :
    ((smaller_pages ladder.orders 4 ≡ 0) × (unusable_index ladder ≡ none))
    ⊎ ((0 < smaller_pages ladder.orders 4)
        × (ix : List (ℕ × ℕ)) × (unusable_index ladder ≡ some ix)
        × (length ix ≡ 4)
        × ((i : ℕ)
            → i < 4
            → get_elem? ix i ≡ some (smaller_pages ladder.orders i, smaller_pages ladder.orders 4))
        × (◌≡◌ {A = ℕ} 0 0)
        × ((i j : ℕ)
            → i ≤ j
            → j ≤ 4
            → smaller_pages ladder.orders i ≤ smaller_pages ladder.orders j))
unusable_index-bounds_example = unusable_index-bounds ladder

abbrev slabinfo : List Text
slabinfo =
    codes "slabinfo - version: 2.1"
    ∷ codes "dnode_t 90 120 1024 8 2 : tunables 0 0 0 : slabdata 12 15 0"
    ∷ codes "short line"
    ∷ []

slabinfo_runs :
    slab_lines slabinfo
    ≡ some (
        record {
          name = codes "dnode_t";
          active = 90;
          total = 120;
          obj_size = 1024;
          pages_per_slab = 2;
          slabs = 15;
          active_slabs = 12;
        }
        ∷ [])
unfolding slab_lines cache_of slabdata_loop fields cut_prefix parse_uint
slabinfo_runs = refl

read_slabinfo-safe_run : (cs : List SlabCache) × (read_slabinfo (λ cs. cs) slabinfo ≡ some cs)
read_slabinfo-safe_run = read_slabinfo-safe (λ cs. cs) slabinfo

abbrev pagetypeinfo : List Text
pagetypeinfo =
    codes "Number of blocks type     Unmovable      Movable"
    ∷ codes "Node 0, zone      DMA            1            7"
    ∷ codes "Node 0, zone   Normal           20          512"
    ∷ []

pagetypeinfo_runs :
    read_pagetypeinfo pagetypeinfo
    ≡ some (record { names = codes "Unmovable" ∷ codes "Movable" ∷ []; counts = 21 ∷ 519 ∷ [] })
unfolding types_lines types_line add_counts fields cut_prefix parse_uint
pagetypeinfo_runs = refl

read_pagetypeinfo_result :
    (bt : BlockTypes) × (read_pagetypeinfo pagetypeinfo ≡ some bt)
    × (length bt.counts ≡ length bt.names)
read_pagetypeinfo_result = read_pagetypeinfo-safe pagetypeinfo

meminfo_runs :
    read_meminfo (some (codes "MemFree:  16 kB" ∷ codes "HugePages_Total: 5" ∷ codes "none" ∷ []))
    ≡ (codes "MemFree", 16384) ∷ (codes "HugePages_Total", 5) ∷ []
unfolding read_meminfo fields cut parse_uint
meminfo_runs = refl

iomem_runs :
    read_ram_ranges (
      some (
        codes "00001000-0009ffff : System RAM"
        ∷ codes "  00002000-00002fff : System RAM"
        ∷ codes "000a0000-000fffff : Reserved"
        ∷ codes "00100000-3FFFffff : System RAM"
        ∷ []))
    ≡ some (record { first = 1; last = 0x9f } ∷ record { first = 0x100; last = 0x3ffff } ∷ [])
unfolding read_ram_ranges cut cut_prefix parse_hex
iomem_runs = refl

abbrev slabwho : List Text
slabwho =
    codes "# blocks 100 hostage_blocks 7 hostage_free_pages 3000 walk_us 5"
    ∷ codes "dnode_t 50 20 8 3 1"
    ∷ []

slabwho_runs :
    read_slabwho (some slabwho)
    ≡ some (
      some (
          (
            codes "dnode_t",
            record {
              blocks = 20;
              hostage_blocks = 3;
              pages = 50;
              hostage_pages = 8;
              mobile = true;
            },
          )
          ∷ []),
      record { blocks = 100; hostage_blocks = 7; hostage_free_pages = 3000; walk_us = 5 },
      [],
    )
unfolding read_slabwho fields parse_uint
slabwho_runs = refl

abbrev sites : List Text
sites = codes "@ 12 3 dnode_t dnode_create dnode.c:414" ∷ []

read_slabwho-safe_example :
    ((r : Option (Dict WhoStat) × WhoTotals × Text) × (read_slabwho (some slabwho) ≡ some r))
    × ((ss : List SiteStat) × (read_sites sites ≡ some ss))
read_slabwho-safe_example = read_slabwho-safe (some slabwho) sites
