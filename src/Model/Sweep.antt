-- ===== src/Model/Sweep.antt =====
-- packages/fragview/main.go: the scanner, one slice of the map per tick or all of it on request.
--
-- Left out: the wall clock (`sweepMS`), the share of the map last scanned, which is only printed,
-- and `collect`, which reads other files and does not touch the map.
mod Copy
pub mod Slice
pub mod Full
pub mod Round
use zfs_slab_mobility.Prelude.{
  ℕ, suc, ◌+◌, ◌-◌, ◌/◌, ◌^◌, min, max, Bool, true, false, not, Option, none, some, List, [], ◌∷◌,
  ◌++◌, ltb, leb, ◌==◌, if◌then◌else◌, length, take, drop, replicate, zero,
}
use zfs_slab_mobility.Kpage.Classes.{Counts, no_pages}
use zfs_slab_mobility.Kpage.Unseen.{Unseen, merge_unknown}
use zfs_slab_mobility.Kpage.Blocks.{
  BlockMap, Scan, Ending, finished, read_error, panicked, ReadAt, refresh_into,
}

-- The scanner's part of `model` and of its frame, with the table of unknown words.
pub record Scanner : Type 0 where
  pub blocks : BlockMap
  pub cursor : ℕ
  pub want_full : Bool
  pub ready : Bool
  pub paused : Bool
  pub share : ℕ
  pub gen : ℕ
  pub scratch : List Counts
  pub unseen : Unseen

-- `copy(dst[at:at+n], src[:n])`.
unfoldable pub copy_at : ℕ → ℕ → List Counts → List Counts → List Counts
copy_at at n src [] = []
copy_at (suc at) n src (d ∷ dst) = d ∷ copy_at at n src dst
copy_at zero zero src (d ∷ dst) = d ∷ dst
copy_at zero (suc n) [] (d ∷ dst) = d ∷ dst
copy_at zero (suc n) (x ∷ src) (d ∷ dst) = x ∷ copy_at zero n src dst

-- `len(m.readBuf)`.
abbrev pub read_buf : ℕ
read_buf = 2 ^ 20

-- Blocks per tick, one at least.
abbrev pub chunk_of : Scanner → ℕ
chunk_of s = max (s.blocks.nblocks / s.share) 1

module _ (read_at : ReadAt) (ppb : ℕ) where
  -- The end of a scan of [from, to): only a scan that finished is published. A panic ends the
  -- program, so the state it leaves is never seen.
  publish : ℕ → ℕ → Scan → Ending → Scanner → Scanner
  unfolding copy_at
  publish from to r finished s = record s {
    blocks = record s.blocks { counts = copy_at from (to - from) r.dst s.blocks.counts };
    gen = s.gen + 1;
    scratch = r.dst;
    unseen = merge_unknown s.unseen r.seen;
  }
  publish from to r read_error s = record s {
    scratch = r.dst;
    unseen = merge_unknown s.unseen r.seen;
  }
  publish from to r panicked s = record s {
    scratch = r.dst;
    unseen = merge_unknown s.unseen r.seen;
  }

  -- `scanRange`; it never gets a negative block number.
  unfoldable pub scan_range : ℕ → ℕ → Scanner → Scanner
  unfolding publish
  scan_range from upto s =
      let to = min upto s.blocks.nblocks in
      let scratch =
        if ltb (length s.scratch) (to - from) then replicate (to - from) no_pages else s.scratch in
      let r = refresh_into read_at s.blocks from to ppb scratch read_buf in
      if leb to from then s else publish from to r r.ending s

  -- `scan`; `none` is the panic of the division by a share of zero.
  unfoldable pub scan : Scanner → Option Scanner
  unfolding scan_range
  scan s =
      let total = s.blocks.nblocks in
      let chunk = chunk_of s in
      let calm = record s { want_full = false } in
      let swept = scan_range 0 total calm in
      let slice = scan_range s.cursor (s.cursor + chunk) calm in
      if s.want_full
      then some (record swept { cursor = 0; ready = true })
      else if s.paused
      then some calm
      else if s.share == 0
      then none
      else some
          (record slice { cursor = if leb total (s.cursor + chunk) then 0 else s.cursor + chunk })

  -- `scanDoneMsg` schedules the next scan, so ticks follow one another.
  unfoldable pub ticks : ℕ → Scanner → Option Scanner
  unfolding scan
  ticks zero s = some s
  ticks (suc n) s = elim (scan s) [ none ↦ none | some s' ↦ ticks n s' ]
