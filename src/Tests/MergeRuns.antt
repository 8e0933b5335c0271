-- ===== src/Tests/MergeRuns.antt =====
-- packages/fragview/merge.go on two merged caches.
use zfs_slab_mobility.Prelude.{
  ◌≤◌, ◌≡◌, refl, true, Option, some, List, [], ◌∷◌, length, Text, codes, Dict, fields,
}
use zfs_slab_mobility.Merge.{
  contains, Source, captured, load_cache_aliases, itoa, cache_label, alias_lines, alias_legend,
}
use zfs_slab_mobility.Merge.Members.{load_cache_aliases-members}
use zfs_slab_mobility.Merge.Lines.{alias_lines-length}

abbrev unsorted : List Text → List Text
unsorted xs = xs

abbrev slabmerge : Source
slabmerge = captured (
    some (
      codes "zswap_entry /sys/kernel/slab/:0000056"
      ∷ codes "dentry dentry extra"
      ∷ codes "ftrace_event_field ../:0000056"
      ∷ codes "inode :0000600"
      ∷ []))

abbrev merged : List Text
merged = codes "zswap_entry" ∷ codes "ftrace_event_field" ∷ []

abbrev both : Option (Dict (List Text))
both = some ((codes "zswap_entry", merged) ∷ (codes "ftrace_event_field", merged) ∷ [])

loaded : load_cache_aliases unsorted slabmerge ≡ both
unfolding load_cache_aliases fields
loaded = refl

load_cache_aliases-members_example :
    (contains merged (codes "ftrace_event_field") ≡ true) × (2 ≤ length merged)
unfolding load_cache_aliases fields
load_cache_aliases-members_example =
    load_cache_aliases-members unsorted (λ xs. refl) slabmerge (codes "ftrace_event_field")
      (codes "zswap_entry") (codes "ftrace_event_field" ∷ []) refl

alias_lines_run : length (alias_lines both 20 2 merged) ≤ 2
alias_lines_run = alias_lines-length both 20 2 merged

label_run : cache_label both (codes "zswap_entry") ≡ codes "zswap_entry+1"
unfolding cache_label
label_run = refl

itoa_run : itoa 4096 ≡ codes "4096"
unfolding itoa
itoa_run = refl

wrapped :
    alias_lines both 30 9 merged
    ≡ codes " zswap_entry+1 = zswap_entry" ∷ codes "      ftrace_event_field" ∷ []
unfolding alias_lines
wrapped = refl

empty_legend : alias_legend both (codes "dentry" ∷ []) ≡ []
unfolding alias_legend
empty_legend = refl
