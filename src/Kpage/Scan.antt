-- ===== src/Kpage/Scan.antt =====
-- The scan of packages/fragview/kpage.go against a description that knows nothing of buffers: every
-- block is the tally of its own pages.
use zfs_slab_mobility.Prelude.{
  ℕ, zero, suc, ◌+◌, ◌-◌, ◌*◌, ◌/◌, min, ◌≤◌, ◌<◌, ◌≡◌, refl, ap, ◌∙◌, true, false, some, List, [],
  arith, ltb, leb, ◌==◌, length, get_elem?, mul_mono,
}
use native.Mathlib.Decide.{dec_lt}
use zfs_slab_mobility.Kpage.Classes.{Counts, no_pages}
use zfs_slab_mobility.Kpage.Unseen.{Unseen}
use zfs_slab_mobility.Kpage.Blocks.{
  BlockMap, in_ram, fill_blocks, finished, ReadAt, want_at, start_of, refresh_loop, refresh_into,
}
use zfs_slab_mobility.Kpage.Reads.{
  tally_pages, Holds, length-fill_blocks, fill_blocks_before, fill_blocks_at, want_fits, and_false,
}

module _ (read_at : ReadAt) (m : BlockMap) (page : ℕ → ℕ) (ppb per_read from to : ℕ)
    (some_pages : 0 < ppb) (roomy : ppb ≤ per_read)
    (reads : (pfn pages : ℕ)
      → pfn + pages ≤ start_of m ppb to
      → Holds page pfn pages (read_at (pfn * 8) (pages * 8)).0)
    (is_ram : (b : ℕ) → from ≤ b → b < to → in_ram m (start_of m ppb b) ≡ true) where
  -- What the scan should leave for block `b`.
  abbrev pub block_tally : ℕ → Counts
  block_tally b = tally_pages page ppb (m.first_pfn + b * ppb) no_pages

  -- The blocks in [from, blk) are done.
  abbrev Done : ℕ → List Counts → Type 0
  Done blk dst = (b : ℕ) → from ≤ b → b < blk → get_elem? dst (b - from) ≡ some (block_tally b)

  -- The pages of one read fit the buffer, and end no later than the range.
  pages_fit :
      (blk : ℕ)
      → blk < to
      → let want = want_at ppb per_read to blk in
        (want * ppb ≤ per_read) × (start_of m ppb blk + want * ppb ≤ start_of m ppb to)
  pages_fit blk h =
      let want = want_at ppb per_read to blk in
      let (_, ends, small) = want_fits ppb per_read to blk some_pages roomy h in
      (
        omega (arith, mul_mono want (per_read / ppb) ppb small),
        omega (arith, mul_mono (blk + want) to ppb ends),
      )

  bytes_of : ℕ → List ℕ
  bytes_of blk = (read_at (start_of m ppb blk * 8) (want_at ppb per_read to blk * ppb * 8)).0

  filled : ℕ → List Counts → Unseen → List Counts × Unseen
  unfolding bytes_of
  filled blk dst seen =
      fill_blocks (want_at ppb per_read to blk) 0 (blk - from) ppb (length (bytes_of blk) / 8)
        (bytes_of blk) (dst, seen)

  length-filled :
      (blk : ℕ) (dst : List Counts) (seen : Unseen) → length (filled blk dst seen).0 ≡ length dst
  unfolding filled
  length-filled blk dst seen =
      length-fill_blocks (want_at ppb per_read to blk) 0 (blk - from) ppb
        (length (bytes_of blk) / 8) (bytes_of blk) dst seen

  bytes_hold :
      (blk : ℕ)
      → blk < to
      → Holds page (start_of m ppb blk) (want_at ppb per_read to blk * ppb) (bytes_of blk)
  unfolding bytes_of
  bytes_hold blk h =
      reads (start_of m ppb blk) (want_at ppb per_read to blk * ppb) (pages_fit blk h).1

  filled-Done :
      (blk : ℕ) (dst : List Counts) (seen : Unseen)
      → from ≤ blk
      → blk < to
      → to - from ≤ length dst
      → Done blk dst
      → Done (blk + want_at ppb per_read to blk) (filled blk dst seen).0
  unfolding filled
  filled-Done blk dst seen lo h room d b fb lt = elim (dec_lt b blk) [
    | yes before ↦
        fill_blocks_before (want_at ppb per_read to blk) 0 (blk - from) ppb
          (length (bytes_of blk) / 8) (b - from) (bytes_of blk) dst seen (omega arith)
        ∙ d b fb before
    | no after ↦
        let want = want_at ppb per_read to blk in
        let e0 : blk + (b - blk) ≡ b = omega arith in
        let e1 : b - from ≡ blk - from + (b - blk) = omega arith in
        let e2 : start_of m ppb blk + (b - blk) * ppb ≡ m.first_pfn + b * ppb =
          omega (arith, ap (λ (t : ℕ). t * ppb) e0) in
        let (len, words) = bytes_hold blk h in
        let (_, ends, _) = want_fits ppb per_read to blk some_pages roomy h in
        rw e1 (
          fill_blocks_at page (start_of m ppb blk) want 0 (blk - from) ppb
            (length (bytes_of blk) / 8) (b - blk) (bytes_of blk) dst seen
            (λ n hn. words n (omega arith)) (omega arith) (omega arith) (omega arith) (omega arith)
          ∙ ap (λ (t : ℕ). some (tally_pages page ppb t no_pages)) e2)
  ]

  refresh_loop_step :
      (fuel blk : ℕ) (dst : List Counts) (seen : Unseen)
      → from ≤ blk
      → blk < to
      → refresh_loop read_at m ppb per_read from to (suc fuel) blk (dst, seen)
        ≡ refresh_loop read_at m ppb per_read from to fuel
            (blk + want_at ppb per_read to blk)
            (filled blk dst seen)
  unfolding refresh_loop filled bytes_of
  refresh_loop_step fuel blk dst seen lo h =
      let (len, _) = bytes_hold blk h in
      let (some_blocks, _, _) = want_fits ppb per_read to blk some_pages roomy h in
      let (fits, _) = pages_fit blk h in
      let pos : 1 * 1 ≤ want_at ppb per_read to blk * ppb = grind arith in
      let e1 : leb to blk ≡ false = ground arith in
      let e2 = is_ram blk lo h in
      let e3 : ltb per_read (want_at ppb per_read to blk * ppb) ≡ false = ground arith in
      let e4 : (length (bytes_of blk) == 0) ≡ false = ground arith in
      rw (e1, e2, e3, e4, and_false) refl

  refresh_loop-Done :
      (fuel blk : ℕ) (dst : List Counts) (seen : Unseen)
      → to - blk ≤ fuel
      → from ≤ blk
      → blk ≤ to
      → to - from ≤ length dst
      → Done blk dst
      → let s = refresh_loop read_at m ppb per_read from to fuel blk (dst, seen) in
        (s.ending ≡ finished) × Done to s.dst
  refresh_loop-Done zero blk dst seen le lo hi room d =
      let e : to ≡ blk = omega arith in unfold refresh_loop in (refl, rw e d)
  refresh_loop-Done (suc fuel) blk dst seen le lo hi room d = elim (dec_lt blk to) [
    | yes h ↦
        let (some_blocks, ends, _) = want_fits ppb per_read to blk some_pages roomy h in
        rw (refresh_loop_step fuel blk dst seen lo h) (
          refresh_loop-Done fuel (blk + want_at ppb per_read to blk) (filled blk dst seen).0
            (filled blk dst seen).1 (omega arith) (omega arith) ends
            (omega (arith, length-filled blk dst seen)) (filled-Done blk dst seen lo h room d))
    | no h ↦
        let e : to ≡ blk = omega arith in
        let e1 : leb to blk ≡ true = ground arith in unfold refresh_loop in rw e1 (refl, rw e d)
  ]

-- Where every block of the range starts in RAM, the file answers reads in full, and the buffer
-- holds at least one block, the scan finishes and gives each block the tally of its own pages,
-- whatever the size of the buffer.
pub refresh_into_exact :
    (read_at : ReadAt) (m : BlockMap) (page : ℕ → ℕ) (from to ppb : ℕ) (dst : List Counts)
    (buf_len : ℕ)
    → 0 < ppb
    → ppb ≤ buf_len / 8
    → from ≤ to
    → to ≤ m.nblocks
    → to ≤ from + length dst
    → ((pfn pages : ℕ)
        → pfn + pages ≤ start_of m ppb to
        → Holds page pfn pages (read_at (pfn * 8) (pages * 8)).0)
    → ((b : ℕ) → from ≤ b → b < to → in_ram m (start_of m ppb b) ≡ true)
    → let s = refresh_into read_at m from to ppb dst buf_len in
      (s.ending ≡ finished)
      × ((b : ℕ)
          → from ≤ b
          → b < to
          → get_elem? s.dst (b - from) ≡ some (tally_pages page ppb (start_of m ppb b) no_pages))
unfolding refresh_into
refresh_into_exact read_at m page from to ppb dst buf_len some_pages roomy le in_map room reads
      is_ram =
    let e : min (min to m.nblocks) (from + length dst) ≡ to = omega arith in
    rw e (
      refresh_loop-Done read_at m page ppb (buf_len / 8) from to some_pages roomy reads is_ram
        (to - from) from dst [] (omega arith) (omega arith) le (omega arith)
        (λ b lo hi. absurd (omega arith)))
