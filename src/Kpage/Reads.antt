-- ===== src/Kpage/Reads.antt =====
-- What one read of packages/fragview/kpage.go leaves: the tallies of its blocks, against the flag
-- words of their frames.
use zfs_slab_mobility.Prelude.{
  ℕ, zero, suc, ◌+◌, ◌*◌, ◌/◌, ◌≤◌, ◌<◌, ◌≡◌, refl, ap, ◌∙◌, Bool, true, false, ◌&&◌, some, List,
  arith, length, get_elem?, get_elem?-set_self, get_elem?-set_ne, length-set, set, div_pos,
}
use native.Mathlib.Decide.{dec_lt}
use zfs_slab_mobility.Kpage.Classes.{Counts, no_pages}
use zfs_slab_mobility.Kpage.Flags.{classify}
use zfs_slab_mobility.Kpage.Unseen.{Unseen}
use zfs_slab_mobility.Kpage.Blocks.{uint64_at, bump, note, tally, fill_blocks, want_at}

-- The classes of `n` pages from frame `pfn` on, `page` being the flag word of each frame.
unfoldable pub tally_pages : (ℕ → ℕ) → ℕ → ℕ → Counts → Counts
tally_pages page zero pfn c = c
tally_pages page (suc n) pfn c = tally_pages page n (pfn + 1) (bump c (classify (page pfn)))

-- The bytes of a read hold the flag words of the frames from `pfn` on.
abbrev pub Holds : (ℕ → ℕ) → ℕ → ℕ → List ℕ → Type 0
Holds page pfn pages bytes =
    (length bytes ≡ pages * 8) × ((i : ℕ) → i < pages → uint64_at bytes i ≡ page (pfn + i))

tally-tally_pages :
    (page : ℕ → ℕ) (pfn got n idx : ℕ) (buf : List ℕ) (c : Counts) (seen : Unseen)
    → ((i : ℕ) → i < got → uint64_at buf i ≡ page (pfn + i))
    → idx + n ≤ got
    → (tally n idx got buf (c, seen)).0 ≡ tally_pages page n (pfn + idx) c
unfolding tally tally_pages
tally-tally_pages page pfn got zero idx buf c seen h le = refl
tally-tally_pages page pfn got (suc n) idx buf c seen h le = ground (
  arith,
  h idx,
  tally-tally_pages page pfn got n (idx + 1) buf (bump c (classify (uint64_at buf idx)))
      (note (uint64_at buf idx) seen (classify (uint64_at buf idx))) h,
)

pub length-fill_blocks :
    (want i at ppb got : ℕ) (buf : List ℕ) (dst : List Counts) (seen : Unseen)
    → length (fill_blocks want i at ppb got buf (dst, seen)).0 ≡ length dst
unfolding fill_blocks
length-fill_blocks zero i at ppb got buf dst seen = refl
length-fill_blocks (suc want) i at ppb got buf dst seen =
    let (c, seen') = tally ppb (i * ppb) got buf (no_pages, seen) in
    length-fill_blocks want (i + 1) at ppb got buf (set dst (at + i) c) seen'
    ∙ length-set dst (at + i) c

pub fill_blocks_before :
    (want i at ppb got j : ℕ) (buf : List ℕ) (dst : List Counts) (seen : Unseen)
    → j < at + i
    → get_elem? (fill_blocks want i at ppb got buf (dst, seen)).0 j ≡ get_elem? dst j
unfolding fill_blocks
fill_blocks_before zero i at ppb got j buf dst seen h = refl
fill_blocks_before (suc want) i at ppb got j buf dst seen h =
    let (c, seen') = tally ppb (i * ppb) got buf (no_pages, seen) in
    fill_blocks_before want (i + 1) at ppb got j buf (set dst (at + i) c) seen' (omega arith)
    ∙ get_elem?-set_ne dst c (λ e. omega arith)

-- Round `k` of a read from frame `pfn` on writes the tally of the block's own pages.
pub fill_blocks_at :
    (page : ℕ → ℕ) (pfn want i at ppb got k : ℕ) (buf : List ℕ) (dst : List Counts) (seen : Unseen)
    → ((n : ℕ) → n < got → uint64_at buf n ≡ page (pfn + n))
    → (i + want) * ppb ≤ got
    → i ≤ k
    → k < i + want
    → at + i + want ≤ length dst
    → get_elem? (fill_blocks want i at ppb got buf (dst, seen)).0 (at + k)
      ≡ some (tally_pages page ppb (pfn + k * ppb) no_pages)
unfolding fill_blocks
fill_blocks_at page pfn zero i at ppb got k buf dst seen h le ik ki room = absurd (omega arith)
fill_blocks_at page pfn (suc want) i at ppb got k buf dst seen h le ik ki room =
    let (c, seen') = tally ppb (i * ppb) got buf (no_pages, seen) in
    elim (dec_lt i k) [
      | yes lt ↦
          fill_blocks_at page pfn want (i + 1) at ppb got k buf (set dst (at + i) c) seen' h
            (omega arith) (omega arith) (omega arith) (omega (arith, length-set dst (at + i) c))
      | no ge ↦
          let e : k ≡ i = omega arith in
          rw e (
            fill_blocks_before want (i + 1) at ppb got (at + i) buf (set dst (at + i) c) seen'
              (omega arith)
            ∙ get_elem?-set_self dst (at + i) c (omega arith)
            ∙ ap some
                (tally-tally_pages page pfn got ppb (i * ppb) buf no_pages seen h (omega arith)))
    ]

pub want_fits :
    (ppb per_read to blk : ℕ)
    → 0 < ppb
    → ppb ≤ per_read
    → blk < to
    → let want = want_at ppb per_read to blk in
      (0 < want) × (blk + want ≤ to) × (want ≤ per_read / ppb)
want_fits ppb per_read to blk p roomy h = ground (arith, div_pos per_read ppb p roomy)

pub and_false : (a : Bool) → (a && false) ≡ false
and_false true = refl
and_false false = refl
