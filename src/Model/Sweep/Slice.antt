-- ===== src/Model/Sweep/Slice.antt =====
-- One slice of the scanner of packages/fragview/main.go.
use zfs_slab_mobility.Prelude.{
  ℕ, ◌+◌, ◌-◌, ◌*◌, ◌^◌, min, ◌≤◌, ◌<◌, ◌≡◌, refl, true, false, arith, ltb, leb, if◌then◌else◌,
  length, get_elem?, replicate, length-replicate, some, List, inl, mul_mono,
}
use zfs_slab_mobility.Kpage.Classes.{Counts, no_pages}
use zfs_slab_mobility.Kpage.Unseen.{merge_unknown}
use zfs_slab_mobility.Kpage.Blocks.{
  BlockMap, Scan, in_ram, start_of, finished, ReadAt, refresh_into,
}
use zfs_slab_mobility.Kpage.Reads.{Holds, tally_pages}
use zfs_slab_mobility.Kpage.Scan.{refresh_into_exact}
use zfs_slab_mobility.Model.Sweep.{Scanner, copy_at, read_buf, publish, scan_range}
use zfs_slab_mobility.Model.Sweep.Copy.{length-copy_at, copy_at_in, copy_at_out}

-- The machine stands still: reads are whole and give the words of `page`, and every block of the
-- map starts in RAM.
abbrev pub IsQuiet : ReadAt → (ℕ → ℕ) → ℕ → BlockMap → Type 0
IsQuiet read_at page ppb m =
    ((pfn pages : ℕ)
      → pfn + pages ≤ start_of m ppb m.nblocks
      → Holds page pfn pages (read_at (pfn * 8) (pages * 8)).0)
    × ((b : ℕ) → b < m.nblocks → in_ram m (start_of m ppb b) ≡ true)

-- Block `b` holds the tally of its own pages.
abbrev pub IsFresh : (ℕ → ℕ) → ℕ → BlockMap → ℕ → Type 0
IsFresh page ppb m b =
    get_elem? m.counts b ≡ some (tally_pages page ppb (start_of m ppb b) no_pages)

-- What a scan of blocks leaves alone.
abbrev Same : Scanner → Scanner → Type 0
Same s t =
    (t.blocks.first_pfn ≡ s.blocks.first_pfn)
    × (t.blocks.nblocks ≡ s.blocks.nblocks)
    × (t.blocks.ranges ≡ s.blocks.ranges)
    × (length t.blocks.counts ≡ length s.blocks.counts)
    × (t.cursor ≡ s.cursor)
    × (t.want_full ≡ s.want_full)
    × (t.paused ≡ s.paused)
    × (t.share ≡ s.share)

module _ (read_at : ReadAt) (page : ℕ → ℕ) (ppb : ℕ) (some_pages : 0 < ppb)
    (small : ppb ≤ 2 ^ 17) where
  scratch_of : ℕ → ℕ → Scanner → List Counts
  scratch_of from to s =
      if ltb (length s.scratch) (to - from) then replicate (to - from) no_pages else s.scratch

  scan_of : ℕ → ℕ → Scanner → Scan
  unfolding scratch_of
  scan_of from upto s =
      let to = min upto s.blocks.nblocks in
      refresh_into read_at s.blocks from to ppb (scratch_of from to s) read_buf

  scratch_long : (from to : ℕ) (s : Scanner) → to - from ≤ length (scratch_of from to s)
  unfolding scratch_of
  scratch_long from to s = ground (arith, length-replicate {A = Counts} (to - from) no_pages)

  scan_of_exact :
      (from upto : ℕ) (s : Scanner)
      → IsQuiet read_at page ppb s.blocks
      → from < s.blocks.nblocks
      → from < upto
      → let r = scan_of from upto s in
        (r.ending ≡ finished)
        × ((b : ℕ)
            → from ≤ b
            → b < min upto s.blocks.nblocks
            → get_elem? r.dst (b - from)
              ≡ some (tally_pages page ppb (start_of s.blocks ppb b) no_pages))
  unfolding scan_of
  scan_of_exact from upto s quiet inside some_blocks =
      let to = min upto s.blocks.nblocks in
      refresh_into_exact read_at s.blocks page from to ppb (scratch_of from to s) read_buf
        some_pages (omega arith) (omega arith) (omega arith) (omega (arith, scratch_long from to s))
        (λ pfn pages h.
          quiet.0 pfn pages (omega (arith, mul_mono to s.blocks.nblocks ppb (omega arith))))
        (λ b lo hi. quiet.1 b (omega arith))

  scan_range_lem :
      (from upto : ℕ) (s : Scanner)
      → IsQuiet read_at page ppb s.blocks
      → from < s.blocks.nblocks
      → from < upto
      → let r = scan_of from upto s in
        let to = min upto s.blocks.nblocks in
        scan_range read_at ppb from upto s ≡ record s {
          blocks = record s.blocks { counts = copy_at from (to - from) r.dst s.blocks.counts };
          gen = s.gen + 1;
          scratch = r.dst;
          unseen = merge_unknown s.unseen r.seen;
        }
  unfolding scan_range scan_of
  scan_range_lem from upto s quiet inside some_blocks =
      let e1 : leb (min upto s.blocks.nblocks) from ≡ false = ground arith in
      let e2 = (scan_of_exact from upto s quiet inside some_blocks).0 in rw (e1, e2, publish) refl

  pub scan_range_exact :
      (from upto : ℕ) (s : Scanner)
      → IsQuiet read_at page ppb s.blocks
      → length s.blocks.counts ≡ s.blocks.nblocks
      → from < s.blocks.nblocks
      → from < upto
      → let t = scan_range read_at ppb from upto s in
        Same s t
        × ((b : ℕ) → from ≤ b → b < min upto s.blocks.nblocks → IsFresh page ppb t.blocks b)
        × ((b : ℕ) → b < from → get_elem? t.blocks.counts b ≡ get_elem? s.blocks.counts b)
  unfolding copy_at
  scan_range_exact from upto s quiet len inside some_blocks =
      let to = min upto s.blocks.nblocks in
      let (ends, exact) = scan_of_exact from upto s quiet inside some_blocks in
      let r = scan_of from upto s in
      let dst = s.blocks.counts in
      rw (scan_range_lem from upto s quiet inside some_blocks) (
        (refl, refl, refl, length-copy_at from (to - from) r.dst dst, refl, refl, refl, refl),
        λ b lo hi.
            copy_at_in from (to - from) b r.dst dst _ lo (omega arith) (omega arith)
              (exact b lo hi),
        λ b lt. copy_at_out from (to - from) b r.dst dst (inl lt),
      )
