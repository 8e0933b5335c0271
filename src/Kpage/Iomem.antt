-- ===== src/Kpage/Iomem.antt =====
-- packages/fragview/kpage.go: the ranges of RAM, from the lines of /proc/iomem.
use zfs_slab_mobility.Prelude.{
  ℕ, ◌/◌, not, ◌||◌, Option, none, some, List, [], ◌∷◌, if◌then◌else◌, Text, codes, has_prefix, cut,
  trim_space, has_suffix, parse_hex,
}
use zfs_slab_mobility.Kpage.Blocks.{RamRange, BlockMap, new_block_map}

abbrev pub page_size : ℕ
page_size = 4096

-- `strings.SplitN(s, " :", 2)[0]`.
abbrev before_colon : Text → Text
before_colon s = elim (cut (codes " :") s) [ none ↦ s | some (before, after) ↦ before ]

-- The two bounds around the dash, in bytes, as frames.
abbrev range_of : Text × Text → Option RamRange
range_of (lo, hi) = elim (parse_hex lo) [
  | none ↦ none
  | some first ↦ elim (parse_hex hi) [
    | none ↦ none
    | some last ↦ some (record { first = first / page_size; last = last / page_size })
  ]
]

-- One line: the range it adds, if it is a top-level line of System RAM.
unfoldable pub iomem_line : Text → Option RamRange
iomem_line line =
    let row = trim_space line in
    if not (has_suffix (codes "System RAM") row) || has_prefix (codes " ") line
    then none
    else elim (cut (codes "-") (before_colon row)) [ none ↦ none | some bounds ↦ range_of bounds ]

unfoldable pub iomem_lines : List Text → List RamRange
unfolding iomem_line
iomem_lines [] = []
iomem_lines (line ∷ lines) =
    let rest = iomem_lines lines in elim (iomem_line line) [ none ↦ rest | some r ↦ r ∷ rest ]

-- `none` is the error of a file that does not open, or has no such line.
unfoldable pub read_ram_ranges : Option (List Text) → Option (List RamRange)
unfolding iomem_lines
read_ram_ranges none = none
read_ram_ranges (some lines) = elim (iomem_lines lines) [ [] ↦ none | r ∷ rs ↦ some (r ∷ rs) ]

-- `newBlockMap` with the ranges it reads; the page flags file is taken to open.
unfoldable pub open_block_map : ℕ → Option (List Text) → Option BlockMap
unfolding read_ram_ranges new_block_map
open_block_map ppb iomem = elim (read_ram_ranges iomem) [
  | none ↦ none
  | some ranges ↦ new_block_map ppb ranges
]
