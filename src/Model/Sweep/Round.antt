-- ===== src/Model/Sweep/Round.antt =====
-- One round of the scanner of packages/fragview/main.go rebuilds the whole map.
use zfs_slab_mobility.Prelude.{
  ℕ, zero, suc, ◌+◌, ◌-◌, ◌*◌, ◌/◌, ◌^◌, min, ◌≤◌, ◌<◌, ◌≡◌, refl, ap, sym, ◌∙◌, true, false, arith,
  leb, ◌==◌, if◌then◌else◌, length, get_elem?, some, mul_mono, ceil_bounds,
}
use native.Mathlib.Decide.{dec_lt}
use zfs_slab_mobility.Kpage.Blocks.{BlockMap, in_ram, start_of, ReadAt}
use zfs_slab_mobility.Model.Sweep.{Scanner, scan_range, chunk_of, scan, ticks}
use zfs_slab_mobility.Model.Sweep.Slice.{IsQuiet, IsFresh, scan_range_exact}

shared_test : (n : ℕ) → 0 < n → (n == 0) ≡ false
shared_test n h = ground arith

module _ (read_at : ReadAt) (page : ℕ → ℕ) (ppb : ℕ) (some_pages : 0 < ppb)
    (small : ppb ≤ 2 ^ 17) where
  -- The slices scanned so far: the cursor stands at the next one, and all blocks below are fresh.
  record Swept (s : Scanner) (done : ℕ) : Type 0 where
    quiet : IsQuiet read_at page ppb s.blocks
    len : length s.blocks.counts ≡ s.blocks.nblocks
    idle : s.want_full ≡ false
    awake : s.paused ≡ false
    shared : 0 < s.share
    below : (b : ℕ) → b < done → IsFresh page ppb s.blocks b

  in_ram-same :
      (m m' : BlockMap) (b : ℕ)
      → m'.first_pfn ≡ m.first_pfn
      → m'.ranges ≡ m.ranges
      → in_ram m (start_of m ppb b) ≡ true
      → in_ram m' (start_of m' ppb b) ≡ true
  unfolding in_ram
  in_ram-same m m' b e1 e3 h = cc

  IsQuiet-same :
      (m m' : BlockMap)
      → m'.first_pfn ≡ m.first_pfn
      → m'.nblocks ≡ m.nblocks
      → m'.ranges ≡ m.ranges
      → IsQuiet read_at page ppb m
      → IsQuiet read_at page ppb m'
  unfolding in_ram
  IsQuiet-same m m' e1 e2 e3 (reads, ram) = (
    λ pfn pages h. reads pfn pages (omega (arith, ap (λ (t : ℕ). t * ppb) e2)),
    λ b h. in_ram-same m m' b e1 e3 (ram b (omega arith)),
  )

  IsFresh-same :
      (m m' : BlockMap) (b : ℕ)
      → m'.first_pfn ≡ m.first_pfn
      → get_elem? m'.counts b ≡ get_elem? m.counts b
      → IsFresh page ppb m b
      → IsFresh page ppb m' b
  IsFresh-same m m' b e k fresh = cc

  -- One more tick at a cursor inside the map.
  scan_step :
      (s : Scanner)
      → Swept s s.cursor
      → s.cursor < s.blocks.nblocks
      → (t : Scanner) × (scan read_at ppb s ≡ some t)
        × Swept t (min (s.cursor + chunk_of s) s.blocks.nblocks)
        × (t.cursor
            ≡ (if leb s.blocks.nblocks (s.cursor + chunk_of s) then 0 else s.cursor + chunk_of s))
        × (t.blocks.nblocks ≡ s.blocks.nblocks)
        × (t.share ≡ s.share)
  unfolding scan
  scan_step s w inside =
      let upto = s.cursor + chunk_of s in
      let calm = record s { want_full = false } in
      let slice = scan_range read_at ppb s.cursor upto calm in
      let (same, fresh, kept) =
        scan_range_exact read_at page ppb some_pages small s.cursor upto calm w.quiet w.len inside
          (omega arith) in
      let (e1, e2, e3, e4, _, e6, e7, e8) = same in
      let stirring : (s.share == 0) ≡ false = shared_test s.share w.shared in
      (
        record slice { cursor = if leb s.blocks.nblocks upto then 0 else upto },
        simp (w.idle, w.awake, stirring),
        record {
          quiet = IsQuiet-same s.blocks slice.blocks e1 e2 e3 w.quiet;
          len = e4 ∙ w.len ∙ sym e2;
          idle = e6;
          awake = e7 ∙ w.awake;
          shared = omega (arith, e8, w.shared);
          below = λ b lt. elim (dec_lt b s.cursor) [
            | yes old ↦ IsFresh-same s.blocks slice.blocks b e1 (kept b old) (w.below b old)
            | no new ↦ fresh b (omega arith) lt
          ];
        },
        refl,
        e2,
        e8,
      )

  Swept-at : (s : Scanner) (a b : ℕ) → a ≡ b → Swept s a → Swept s b
  Swept-at s a b e w = rw (← e) w

  after_tick :
      (k : ℕ) (s t : Scanner)
      → scan read_at ppb s ≡ some t
      → ticks read_at ppb (suc k) s ≡ ticks read_at ppb k t
  unfolding ticks
  after_tick k s t e = rw (e, ticks) refl

  no_ticks : (k : ℕ) (t : Scanner) → k ≡ 0 → ticks read_at ppb k t ≡ some t
  unfolding ticks
  no_ticks k t e = rw e refl

  -- Once the last slice is scanned the cursor is back at 0.
  last_slice :
      (s t : Scanner) (k c : ℕ)
      → chunk_of s ≡ c
      → 0 < c
      → s.blocks.nblocks ≤ s.cursor + c
      → s.cursor + suc k * c < s.blocks.nblocks + c
      → t.cursor
        ≡ (if leb s.blocks.nblocks (s.cursor + chunk_of s) then 0 else s.cursor + chunk_of s)
      → (k ≡ 0) × (t.cursor ≡ 0)
  last_slice s t k c e pos hi lo cur =
      let test : leb s.blocks.nblocks (s.cursor + chunk_of s) ≡ true = ground arith in
      (
        elim (dec_lt 0 k) [
          | yes more ↦ absurd (omega (arith, mul_mono 1 k c more))
          | no none_left ↦ omega arith
        ],
        cur ∙ rw test refl,
      )

  -- `k` more slices reach the end of the map.
  round_from :
      (k c : ℕ) (s : Scanner)
      → chunk_of s ≡ c
      → 0 < c
      → Swept s s.cursor
      → s.cursor < s.blocks.nblocks
      → s.blocks.nblocks ≤ s.cursor + k * c
      → s.cursor + k * c < s.blocks.nblocks + c
      → (t : Scanner) × (ticks read_at ppb k s ≡ some t)
        × (t.cursor ≡ 0)
        × (t.blocks.nblocks ≡ s.blocks.nblocks)
        × ((b : ℕ) → b < t.blocks.nblocks → IsFresh page ppb t.blocks b)
  round_from zero c s e pos w inside lo hi = absurd (omega arith)
  round_from (suc k) c s e pos w inside lo hi =
      let (t, step, w', cur, n, share) = scan_step s w inside in
      elim (dec_lt (s.cursor + chunk_of s) s.blocks.nblocks) [
        | yes more ↦
            let test : leb s.blocks.nblocks (s.cursor + chunk_of s) ≡ false = ground arith in
            let next : t.cursor ≡ s.cursor + chunk_of s = cur ∙ rw test refl in
            let at : min (s.cursor + chunk_of s) s.blocks.nblocks ≡ t.cursor = omega arith in
            let chunk : chunk_of t ≡ c = cc in
            let (u, run, zero', n', fresh) =
              round_from k c t chunk pos (Swept-at t _ _ at w') (omega arith) (omega arith)
                (omega arith) in
            (u, after_tick k s t step ∙ run, zero', n' ∙ n, fresh)
        | no last ↦
            let (e0, zero') = last_slice s t k c e pos (omega arith) hi cur in
            (t, after_tick k s t step ∙ no_ticks k t e0, zero', n, λ b lt. w'.below b (omega arith))
      ]

-- Ticks that one round over the map takes.
abbrev pub round_length : Scanner → ℕ
round_length s = (s.blocks.nblocks + chunk_of s - 1) / chunk_of s

-- If reads of the flags are whole and always the same and every block of the map starts in RAM
-- (`IsQuiet`), then a scanner that stands at block 0, is not paused, has a share above 0 and is not
-- asked for a full sweep has, after one round of ticks, come back to block 0 with every block of the
-- map, which is not empty, holding the tally of its own pages. A block has 1 to 2 ^ 17 pages,
-- and the map a tally for each block.
pub ticks_round :
    (read_at : ReadAt) (page : ℕ → ℕ) (ppb : ℕ) (s : Scanner)
    → (some_pages : 0 < ppb) → (small : ppb ≤ 2 ^ 17) → IsQuiet read_at page ppb s.blocks
    → length s.blocks.counts ≡ s.blocks.nblocks
    → 0 < s.blocks.nblocks
    → s.want_full ≡ false
    → s.paused ≡ false
    → 0 < s.share
    → s.cursor ≡ 0
    → (t : Scanner) × (ticks read_at ppb (round_length s) s ≡ some t)
      × (t.cursor ≡ 0)
      × (t.blocks.nblocks ≡ s.blocks.nblocks)
      × ((b : ℕ) → b < t.blocks.nblocks → IsFresh page ppb t.blocks b)
ticks_round read_at page ppb s some_pages small quiet len inside idle awake shared start =
    let bounds = ceil_bounds s.blocks.nblocks (chunk_of s) (omega arith) in
    round_from read_at page ppb some_pages small (round_length s) (chunk_of s) s refl (omega arith)
      (record {
        quiet = quiet;
        len = len;
        idle = idle;
        awake = awake;
        shared = shared;
        below = λ b lt. absurd (omega arith);
      })
      (omega arith) (omega (arith, bounds)) (omega (arith, bounds))
