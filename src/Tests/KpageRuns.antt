-- ===== src/Tests/KpageRuns.antt =====
-- packages/fragview/kpage.go at small inputs.
use zfs_slab_mobility.Prelude.{
  ℕ, zero, suc, ◌+◌, ◌-◌, ◌*◌, ◌%◌, ◌≤◌, ◌<◌, ◌≡◌, ◌≢◌, ◌↔◌, refl, Bool, true, false, ◌&&◌, ◌||◌,
  not, some, List, [], ◌∷◌, arith, length, get_elem?, map, ◌++◌, take, drop,
}
use zfs_slab_mobility.Kpage.Classes.{file, abd, slab, free, unknown, immovable, no_pages, sum_over}
use zfs_slab_mobility.Kpage.Kpf
use zfs_slab_mobility.Kpage.Flags.{test_bit, classify}
use zfs_slab_mobility.Kpage.Classify.{
  is_unused, is_kernel_owned, has_rule, classify-movable_iff, classify-unknown_iff,
  classify-abd_iff,
}
use zfs_slab_mobility.Kpage.Unseen.{
  Unseen, u64, has, count_of, total_of, max_unknown, merge_unknown, merge_unknown_bounded,
  merge_unknown_exact,
}
use zfs_slab_mobility.Kpage.Blocks.{
  RamRange, BlockMap, new_block_map, in_ram, uint64_at, start_of, finished, refresh_into,
}
use zfs_slab_mobility.Kpage.Coverage.{Covers, new_block_map-Covers_iff}
use zfs_slab_mobility.Kpage.Reads.{Holds, tally_pages}
use zfs_slab_mobility.Kpage.Scan.{refresh_into_exact}
use zfs_slab_mobility.Kpage.Totals.{all_classes, tally_pages_total}

-- Slab, buddy and plain LRU pages, a private page off the LRU, and one that is only locked.
classes_of_flags :
    map classify (0x80 ∷ 0x400 ∷ 0x20 ∷ 0x800000000 ∷ 0x1 ∷ [])
    ≡ slab ∷ free ∷ file ∷ abd ∷ unknown ∷ []
unfolding classify test_bit
classes_of_flags = refl

abbrev private_page : ℕ
private_page = 0x800000000

classify-movable_iff_example : (immovable true (classify private_page) ≡ false) ↔ (
    (is_unused private_page
      || (not (is_kernel_owned private_page)
          && (test_bit private_page Kpf.lru || (true && test_bit private_page Kpf.private))))
    ≡ true)
classify-movable_iff_example = classify-movable_iff true private_page

abbrev locked_page : ℕ
locked_page = 1

classify-unknown_run :
    (classify locked_page ≡ unknown) ↔ ((locked_page ≢ 0) × (has_rule locked_page ≡ false))
classify-unknown_run = classify-unknown_iff locked_page

classify-abd_run : (classify private_page ≡ abd) ↔ (
    (test_bit private_page Kpf.private
      && not
          (is_unused private_page || is_kernel_owned private_page || test_bit private_page Kpf.lru))
    ≡ true)
classify-abd_run = classify-abd_iff private_page

abbrev table : Unseen
table = (1, 5) ∷ (9, 2) ∷ []

abbrev more : Unseen
more = (9, 3) ∷ (4, 1) ∷ []

merge_unknown_run : length (merge_unknown table more) ≤ max_unknown
merge_unknown_run = merge_unknown_bounded table more (omega arith)

merge_unknown_exact_example :
    u64 (count_of 9 (merge_unknown table more)) ≡ u64 (count_of 9 table + total_of 9 more)
merge_unknown_exact_example = merge_unknown_exact table more 9 (unfold has in refl)

-- Four pages, one to a block: slab, buddy, LRU, nothing.
abbrev words : List ℕ
words = 0x80 ∷ 0x20 ∷ []

abbrev word_bytes : ℕ → List ℕ
word_bytes w = w ∷ 0 ∷ 0 ∷ 0 ∷ 0 ∷ 0 ∷ 0 ∷ 0 ∷ []

abbrev flag_file : List ℕ
flag_file = word_bytes 0x80 ++ word_bytes 0x20

abbrev pub read_flags : ℕ → ℕ → List ℕ × Bool
read_flags off len = (take len (drop off flag_file), false)

abbrev pub page_of : ℕ → ℕ
page_of zero = 0x80
page_of (suc n) = 0x20

abbrev pub two_blocks : BlockMap
two_blocks = record {
  first_pfn = 0;
  nblocks = 2;
  counts = no_pages ∷ no_pages ∷ [];
  ranges = (record { first = 0; last = 1 }) ∷ [];
}

pub reads_hold :
    (pfn pages : ℕ) → pfn + pages ≤ 2 → Holds page_of pfn pages (read_flags (pfn * 8) (pages * 8)).0
unfolding uint64_at
reads_hold zero zero le = (refl, λ i h. absurd (omega arith))
reads_hold zero (suc zero) le = (refl, first)
  where
    first : (i : ℕ) → i < 1 → uint64_at (word_bytes 0x80) i ≡ page_of (0 + i)
    first zero h = refl
    first (suc i) h = absurd (omega arith)
reads_hold zero (suc (suc zero)) le = (refl, both)
  where
    both : (i : ℕ) → i < 2 → uint64_at flag_file i ≡ page_of (0 + i)
    both zero h = refl
    both (suc zero) h = refl
    both (suc (suc i)) h = absurd (omega arith)
reads_hold zero (suc (suc (suc n))) le = absurd (omega arith)
reads_hold (suc zero) zero le = (refl, λ i h. absurd (omega arith))
reads_hold (suc zero) (suc zero) le = (refl, second)
  where
    second : (i : ℕ) → i < 1 → uint64_at (word_bytes 0x20) i ≡ page_of (1 + i)
    second zero h = refl
    second (suc i) h = absurd (omega arith)
reads_hold (suc zero) (suc (suc n)) le = absurd (omega arith)
reads_hold (suc (suc zero)) zero le = (refl, λ i h. absurd (omega arith))
reads_hold (suc (suc zero)) (suc n) le = absurd (omega arith)
reads_hold (suc (suc (suc m))) n le = absurd (omega arith)

pub blocks_in_ram : (b : ℕ) → 0 ≤ b → b < 2 → in_ram two_blocks (start_of two_blocks 1 b) ≡ true
unfolding in_ram
blocks_in_ram zero lo h = refl
blocks_in_ram (suc zero) lo h = refl
blocks_in_ram (suc (suc b)) lo h = absurd (omega arith)

refresh_into_exact_example :
    let s = refresh_into read_flags two_blocks 0 2 1 (no_pages ∷ no_pages ∷ []) 8 in
    (s.ending ≡ finished)
    × ((b : ℕ)
        → 0 ≤ b
        → b < 2
        → get_elem? s.dst (b - 0) ≡ some (tally_pages page_of 1 (start_of two_blocks 1 b) no_pages))
refresh_into_exact_example =
    refresh_into_exact read_flags two_blocks page_of 0 2 1 (no_pages ∷ no_pages ∷ []) 8
      (omega arith) (omega arith) (omega arith) (omega arith) (omega arith) reads_hold blocks_in_ram

tally_pages_run : sum_over all_classes (tally_pages page_of 2 0 no_pages) ≡ 2
tally_pages_run = tally_pages_total page_of 2 0 (omega arith)

-- Frames 1 to 1024 in blocks of 512: two blocks, and the last frame is not in them.
abbrev low_ram : RamRange
low_ram = record { first = 1; last = 1024 }

abbrev short_map : BlockMap
short_map = record {
  first_pfn = 0;
  nblocks = 2;
  counts = no_pages ∷ no_pages ∷ [];
  ranges = low_ram ∷ [];
}

new_block_map-Covers_iff_example :
    Covers short_map 512 1 × (Covers short_map 512 1024 ↔ (1 % 512 ≤ 1024 % 512))
unfolding new_block_map
new_block_map-Covers_iff_example =
    new_block_map-Covers_iff 512 low_ram short_map (omega arith) (omega arith) (omega arith) refl
