-- ===== src/Kpage/Blocks.antt =====
-- packages/fragview/kpage.go: the ranges that are RAM, the block map over them, and its scan.
use zfs_slab_mobility.Prelude.{
  ℕ, zero, suc, ◌+◌, ◌-◌, ◌*◌, ◌/◌, ◌%◌, ◌^◌, min, Bool, true, false, not, ◌&&◌, Option, none, some,
  List, [], ◌∷◌, ltb, leb, ◌==◌, if◌then◌else◌, length, set, drop, replicate,
}
use zfs_slab_mobility.Kpage.Classes.{Class, unknown, Counts, no_pages, same_class}
use zfs_slab_mobility.Kpage.Flags.{classify}
use zfs_slab_mobility.Kpage.Unseen.{Unseen, add_count}

pub record RamRange : Type 0 where
  pub first : ℕ
  pub last : ℕ

-- The open kpageflags file is no field: the scan takes it as an argument.
pub record BlockMap : Type 0 where
  pub first_pfn : ℕ
  pub nblocks : ℕ
  pub counts : List Counts
  pub ranges : List RamRange

last_of : RamRange → List RamRange → RamRange
last_of r [] = r
last_of r (s ∷ rs) = last_of s rs

-- `newBlockMap` after the ranges are read; no range at all is the error of `readRAMRanges`. The
-- subtraction wraps in uint64.
unfoldable pub new_block_map : ℕ → List RamRange → Option BlockMap
unfolding last_of
new_block_map ppb [] = none
new_block_map ppb (r ∷ rs) =
    let first = r.first in
    let last = (last_of r rs).last in
    let nb = (last + 2 ^ 64 - first) % 2 ^ 64 / ppb + 1 in
    some (record {
      first_pfn = first / ppb * ppb;
      nblocks = nb;
      counts = replicate nb no_pages;
      ranges = r ∷ rs;
    })

in_ranges : ℕ → List RamRange → Bool
in_ranges pfn [] = false
in_ranges pfn (r ∷ rs) = if leb r.first pfn && leb pfn r.last then true else in_ranges pfn rs

-- `blockMap.inRAM`.
unfoldable pub in_ram : BlockMap → ℕ → Bool
unfolding in_ranges
in_ram m pfn = in_ranges pfn m.ranges

-- `binary.LittleEndian.Uint64(buf[idx*8:])`.
unfoldable pub uint64_at : List ℕ → ℕ → ℕ
uint64_at buf idx = go 8 (drop (idx * 8) buf)
  where
    go : ℕ → List ℕ → ℕ
    go zero bs = 0
    go (suc n) [] = 0
    go (suc n) (b ∷ bs) = b + 256 * go n bs

-- `c[cl]++` on a uint16.
abbrev pub bump : Counts → Class → Counts
bump c k = λ j. if same_class k j then (c j + 1) % 2 ^ 16 else c j

unfoldable pub note : ℕ → Unseen → Class → Unseen
note f seen unknown = add_count f 1 seen
note f seen _ = seen

-- The loop over the pages of one block, from word `idx` of the buffer on; `got` words were read.
unfoldable pub tally : ℕ → ℕ → ℕ → List ℕ → Counts × Unseen → Counts × Unseen
unfolding uint64_at
tally zero idx got buf s = s
tally (suc n) idx got buf (c, seen) =
    let f = uint64_at buf idx in
    let k = classify f in
    elim (leb got idx) [
      | true ↦ (c, seen)
      | false ↦ tally n (idx + 1) got buf (bump c k, note f seen k)
    ]

-- The loop over the blocks of one read: `want` rounds, `i` done so far.
unfoldable pub fill_blocks :
    ℕ → ℕ → ℕ → ℕ → ℕ → List ℕ → List Counts × Unseen → List Counts × Unseen
unfolding tally
fill_blocks zero i at ppb got buf s = s
fill_blocks (suc want) i at ppb got buf (dst, seen) =
    let (c, seen') = tally ppb (i * ppb) got buf (no_pages, seen) in
    fill_blocks want (i + 1) at ppb got buf (set dst (at + i) c, seen')

-- How a scan ends: normally, with the error of a read that gave nothing, or with the panic of a
-- buffer smaller than a block.
pub data Ending : Type 0 where
  finished read_error panicked : Ending

pub record Scan : Type 0 where
  pub dst : List Counts
  pub seen : Unseen
  pub ending : Ending

-- A read at an offset: the bytes delivered, and whether an error came with them.
abbrev pub ReadAt : Type 0
ReadAt = ℕ → ℕ → List ℕ × Bool

-- Blocks per read: as many as the buffer holds, one at least, and none past the end.
abbrev pub want_at : ℕ → ℕ → ℕ → ℕ → ℕ
want_at ppb per_read to blk =
    let want = if per_read / ppb == 0 then 1 else per_read / ppb in
    if ltb (to - blk) want then to - blk else want

abbrev pub start_of : BlockMap → ℕ → ℕ → ℕ
start_of m ppb blk = m.first_pfn + blk * ppb

module _ (read_at : ReadAt) (m : BlockMap) (ppb per_read from to : ℕ) where
  -- The loop over the blocks; each round scans one at least, so `to - blk` rounds are enough.
  unfoldable pub refresh_loop : ℕ → ℕ → List Counts × Unseen → Scan
  unfolding in_ram fill_blocks
  refresh_loop zero blk (dst, seen) = record { dst = dst; seen = seen; ending = finished }
  refresh_loop (suc fuel) blk (dst, seen) =
      let start = start_of m ppb blk in
      let want = want_at ppb per_read to blk in
      let pages = want * ppb in
      let (bytes, failed) = read_at (start * 8) (pages * 8) in
      let skip = refresh_loop fuel (blk + 1) (set dst (blk - from) no_pages, seen) in
      let rest =
        refresh_loop fuel (blk + want)
          (fill_blocks want 0 (blk - from) ppb (length bytes / 8) bytes (dst, seen)) in
      if leb to blk
      then record { dst = dst; seen = seen; ending = finished }
      else if not (in_ram m start)
      then skip
      else if ltb per_read pages
      then record { dst = dst; seen = seen; ending = panicked }
      else if failed && length bytes == 0
      then record { dst = dst; seen = seen; ending = read_error }
      else rest

-- `refreshInto`, with the three limits on `to` first; `from` is a block number, so never below 0.
-- `seen` is what the deferred call merges into the table of unknown words.
unfoldable pub refresh_into : ReadAt → BlockMap → ℕ → ℕ → ℕ → List Counts → ℕ → Scan
unfolding refresh_loop
refresh_into read_at m from to ppb dst buf_len =
    let to' = min (min to m.nblocks) (from + length dst) in
    refresh_loop read_at m ppb (buf_len / 8) from to' (to' - from) from (dst, [])
