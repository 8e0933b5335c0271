-- ===== src/Histogram.antt =====
-- packages/fragview/flagdump.go: the histogram of flag words that `dumpFlags` makes.
--
-- The map of words is an association list. A read at an offset gives the bytes delivered and whether
-- an error came with them; one of kpagecount gives whole words.
pub mod Gathered
use zfs_slab_mobility.Prelude.{
  ℕ, zero, suc, ◌+◌, ◌-◌, ◌*◌, ◌/◌, ◌%◌, ◌^◌, Bool, ◌&&◌, List, [], ◌∷◌, Option, none, some, ltb,
  leb, ◌==◌, if◌then◌else◌, length,
}
use zfs_slab_mobility.Kpage.Blocks.{RamRange, BlockMap, ReadAt, uint64_at}

pub record FlagStat : Type 0 where
  pub pages : ℕ
  pub ref_zero : ℕ
  pub ref_sum : ℕ

abbrev pub no_stat : FlagStat
no_stat = record { pages = 0; ref_zero = 0; ref_sum = 0 }

abbrev pub word : ℕ
word = 2 ^ 64

abbrev pub Hist : Type 0
Hist = List (ℕ × FlagStat)

-- What one page adds; the count is missing past the end of what was read of kpagecount.
abbrev pub add_page : Option ℕ → FlagStat → FlagStat
add_page none s = record s { pages = (s.pages + 1) % word }
add_page (some c) s = record {
  pages = (s.pages + 1) % word;
  ref_zero = if c == 0 then (s.ref_zero + 1) % word else s.ref_zero;
  ref_sum = (s.ref_sum + c) % word;
}

-- `hist[f]`, made if it is missing.
unfoldable pub add_word : ℕ → Option ℕ → Hist → Hist
add_word f c [] = (f, add_page c no_stat) ∷ []
add_word f c ((g, s) ∷ hist) =
    let rest = add_word f c hist in if g == f then (g, add_page c s) ∷ hist else (g, s) ∷ rest

-- The count of word `i`, if the read of kpagecount got so far.
abbrev pub count_of : List ℕ → ℕ → Option ℕ
count_of cbytes i = if ltb (i * 8) (length cbytes) then some (uint64_at cbytes i) else none

-- `for i := 0; i < got/8; i++`: `left` words from word `i` on.
unfoldable pub words_loop : List ℕ → List ℕ → ℕ → ℕ → Hist → Hist
unfolding add_word
words_loop bytes cbytes zero i hist = hist
words_loop bytes cbytes (suc left) i hist =
    words_loop bytes cbytes left (i + 1) (add_word (uint64_at bytes i) (count_of cbytes i) hist)

-- The words that one read asks for.
abbrev pub words_at : ℕ → ℕ → ℕ
words_at pfn last = if ltb (last + 1) (pfn + 131072) then last + 1 - pfn else 131072

module _ (kpage : ReadAt) (counts : Option ReadAt) where
  -- kpagecount is not read if it could not be opened.
  abbrev pub counts_at : ℕ → ℕ → List ℕ
  counts_at off n = elim counts [ none ↦ [] | some read ↦ (read off n).0 ]

  -- `for pfn := r.first; pfn <= r.last`; a round takes one frame at least.
  unfoldable pub range_loop : ℕ → ℕ → ℕ → Hist → Hist
  unfolding words_loop
  range_loop zero pfn last hist = hist
  range_loop (suc fuel) pfn last hist =
      let n = words_at pfn last in
      let (bytes, failed) = kpage (pfn * 8) (n * 8) in
      let cbytes = counts_at (pfn * 8) (n * 8) in
      let rest =
        range_loop fuel (pfn + n) last (words_loop bytes cbytes (length bytes / 8) 0 hist) in
      if ltb last pfn then hist else if failed && length bytes == 0 then hist else rest

  unfoldable pub ranges_loop : List RamRange → Hist → Hist
  unfolding range_loop
  ranges_loop [] hist = hist
  ranges_loop (r ∷ rs) hist = ranges_loop rs (range_loop (r.last + 1 - r.first) r.first r.last hist)

  -- The histogram that `dumpFlags` sorts and prints.
  unfoldable pub dump_flags : BlockMap → Hist
  unfolding ranges_loop
  dump_flags m = ranges_loop m.ranges []
