-- ===== src/Histogram/Gathered.antt =====
-- The histogram of packages/fragview/flagdump.go against the pages of the machine.
use zfs_slab_mobility.Prelude.{
  ℕ, zero, suc, ◌+◌, ◌-◌, ◌*◌, ◌/◌, ◌%◌, ◌≤◌, ◌<◌, ◌≡◌, refl, ap, ◌∙◌, inl, inr, Bool, true, false,
  ◌&&◌, List, [], ◌∷◌, Option, some, arith, ltb, ◌==◌, if◌then◌else◌, length, Bool-cases, total_by,
}
use zfs_slab_mobility.Kpage.Blocks.{RamRange, BlockMap, ReadAt, uint64_at}
use zfs_slab_mobility.Kpage.Reads.{Holds}
use zfs_slab_mobility.Histogram.{
  FlagStat, no_stat, word, Hist, add_page, add_word, count_of, words_loop, words_at, range_loop,
  ranges_loop, dump_flags,
}

-- What the histogram has for a word, nothing if it has no entry.
unfoldable pub stat_of : ℕ → Hist → FlagStat
stat_of f [] = no_stat
stat_of f ((g, s) ∷ hist) = let rest = stat_of f hist in if g == f then s else rest

stat_of-add_word :
    (f g : ℕ) (c : Option ℕ) (hist : Hist)
    → stat_of f (add_word g c hist)
      ≡ (if g == f then add_page c (stat_of f hist) else stat_of f hist)
unfolding stat_of add_word
stat_of-add_word f g c [] = ground arith
stat_of-add_word f g c ((h, s) ∷ hist) = ground (arith, stat_of-add_word f g c hist)

words_at_lem :
    (pfn last : ℕ)
    → ltb last pfn ≡ false
    → (0 < words_at pfn last)
      × (words_at pfn last ≤ last + 1 - pfn)
      × (last + 1 - (pfn + words_at pfn last) ≡ last + 1 - pfn - words_at pfn last)
words_at_lem pfn last h = ground arith

not_empty : (bytes : List ℕ) (n : ℕ) → length bytes ≡ n * 8 → 0 < n → (length bytes == 0) ≡ false
not_empty bytes n e h = ground arith

and_false : (b : Bool) → (b && false) ≡ false
and_false b = ground arith

abbrev pub Below : ℕ → List RamRange → Type 0
Below end [] = Unit {0}
Below end (range ∷ rs) = (range.last < end) × Below end rs

assoc : (a b c : ℕ) → (a + b + c) % word ≡ (a + (b + c)) % word
assoc a b c = omega arith

-- What the frames from `pfn` on that have the word `f` add up to, each by a weight of how often the
-- frame is mapped.
module _ (page mapped : ℕ → ℕ) (f : ℕ) where
  unfoldable pub gathered : (ℕ → ℕ) → ℕ → ℕ → ℕ
  gathered w pfn zero = 0
  gathered w pfn (suc n) = (if page pfn == f then w (mapped pfn) else 0) + gathered w (pfn + 1) n

  gathered_split :
      (w : ℕ → ℕ) (pfn n k : ℕ) → gathered w pfn (n + k) ≡ gathered w pfn n + gathered w (pfn + n) k
  unfolding gathered
  gathered_split w pfn zero k =
      let e : 0 + k ≡ k = omega arith in
      let e' : pfn + 0 ≡ pfn = omega arith in rw (e, e') (omega arith)
  gathered_split w pfn (suc n) k =
      let e : suc n + k ≡ suc (n + k) = omega arith in
      let e' : pfn + suc n ≡ pfn + 1 + n = omega arith in
      rw (e, e') (omega (arith, gathered_split w (pfn + 1) n k))

  abbrev pub each : ℕ → ℕ
  each c = 1

  abbrev pub unmapped : ℕ → ℕ
  unmapped c = if c == 0 then 1 else 0

  abbrev pub times : ℕ → ℕ
  times c = c

  -- The entry of `f` has what was gathered, in 64 bits.
  abbrev Has : Hist → ℕ → ℕ → ℕ → Type 0
  Has hist p z r =
      let s = stat_of f hist in
      (s.pages ≡ p % word) × (s.ref_zero ≡ z % word) × (s.ref_sum ≡ r % word)

  add_word-Has :
      (pfn : ℕ) (hist : Hist) (p z r : ℕ)
      → Has hist p z r
      → Has
          (add_word (page pfn) (some (mapped pfn)) hist)
          (p + (if page pfn == f then 1 else 0))
          (z + (if page pfn == f then unmapped (mapped pfn) else 0))
          (r + (if page pfn == f then mapped pfn else 0))
  add_word-Has pfn hist p z r h =
      rw (stat_of-add_word f (page pfn) (some (mapped pfn)) hist) (ground arith)

  words_loop-Has :
      (pfn : ℕ) (bytes cbytes : List ℕ) (left i : ℕ) (hist : Hist) (p z r : ℕ)
      → ((k : ℕ) → k < i + left → uint64_at bytes k ≡ page (pfn + k))
      → ((k : ℕ) → k < i + left → count_of cbytes k ≡ some (mapped (pfn + k)))
      → Has hist p z r
      → Has
          (words_loop bytes cbytes left i hist)
          (p + gathered each (pfn + i) left)
          (z + gathered unmapped (pfn + i) left)
          (r + gathered times (pfn + i) left)
  unfolding words_loop gathered
  words_loop-Has pfn bytes cbytes zero i hist p z r words counts h = ground arith
  words_loop-Has pfn bytes cbytes (suc left) i hist p z r words counts h =
      let here = add_word-Has (pfn + i) hist p z r h in
      let next : pfn + (i + 1) ≡ pfn + i + 1 = omega arith in
      let rest =
        words_loop-Has pfn bytes cbytes left (i + 1)
          (add_word (page (pfn + i)) (some (mapped (pfn + i))) hist)
          (p + (if page (pfn + i) == f then 1 else 0))
          (z + (if page (pfn + i) == f then unmapped (mapped (pfn + i)) else 0))
          (r + (if page (pfn + i) == f then mapped (pfn + i) else 0))
          (λ k lt. words k (omega arith)) (λ k lt. counts k (omega arith)) here in
      let (a, b, c) = rw next at rest in
      rw (words i (omega arith), counts i (omega arith))
        (
          a ∙ assoc p (if page (pfn + i) == f then 1 else 0) (gathered each (pfn + i + 1) left),
          b
              ∙ assoc z (if page (pfn + i) == f then unmapped (mapped (pfn + i)) else 0)
                  (gathered unmapped (pfn + i + 1) left),
          c
              ∙ assoc r (if page (pfn + i) == f then mapped (pfn + i) else 0)
                  (gathered times (pfn + i + 1) left),
        )

  Has-none :
      (hist : Hist) (p z r pfn n : ℕ)
      → n ≡ 0
      → Has hist p z r
      → Has hist (p + gathered each pfn n) (z + gathered unmapped pfn n) (r + gathered times pfn n)
  unfolding gathered
  Has-none hist p z r pfn n e h = rw e (ground arith)

  -- The frames of one stretch after those of another.
  Has-split :
      (hist : Hist) (p z r pfn n m : ℕ)
      → n ≤ m
      → Has hist
          (p + gathered each pfn n + gathered each (pfn + n) (m - n))
          (z + gathered unmapped pfn n + gathered unmapped (pfn + n) (m - n))
          (r + gathered times pfn n + gathered times (pfn + n) (m - n))
      → Has hist (p + gathered each pfn m) (z + gathered unmapped pfn m) (r + gathered times pfn m)
  Has-split hist p z r pfn n m le (a, b, c) =
      let e : n + (m - n) ≡ m = omega arith in
      let all : (w : ℕ → ℕ) → gathered w pfn m ≡ gathered w pfn n + gathered w (pfn + n) (m - n) =
        λ w. rw e at (gathered_split w pfn n (m - n)) in
      rw (all each, all unmapped, all times)
        (
          a ∙ assoc p (gathered each pfn n) (gathered each (pfn + n) (m - n)),
          b ∙ assoc z (gathered unmapped pfn n) (gathered unmapped (pfn + n) (m - n)),
          c ∙ assoc r (gathered times pfn n) (gathered times (pfn + n) (m - n)),
        )

  nothing : Has [] 0 0 0
  unfolding stat_of
  nothing = (refl, refl, refl)

  abbrev pub of_range : (ℕ → ℕ) → RamRange → ℕ
  of_range w range = gathered w range.first (range.last + 1 - range.first)

  module _ (kpage count : ReadAt) (end : ℕ)
      (words_ok : (pfn n : ℕ) → pfn + n ≤ end → Holds page pfn n (kpage (pfn * 8) (n * 8)).0)
      (counts_ok : (pfn n : ℕ)
        → pfn + n ≤ end
        → Holds mapped pfn n (count (pfn * 8) (n * 8)).0) where
    one_read :
        (pfn n : ℕ) (hist : Hist) (p z r : ℕ)
        → pfn + n ≤ end
        → Has hist p z r
        → Has
            (words_loop
              (kpage (pfn * 8) (n * 8)).0
              (count (pfn * 8) (n * 8)).0
              (length (kpage (pfn * 8) (n * 8)).0 / 8)
              0
              hist)
            (p + gathered each pfn n)
            (z + gathered unmapped pfn n)
            (r + gathered times pfn n)
    one_read pfn n hist p z r fits h =
        let bytes = (kpage (pfn * 8) (n * 8)).0 in
        let cbytes = (count (pfn * 8) (n * 8)).0 in
        let (len, words) = words_ok pfn n fits in
        let (clen, counted) = counts_ok pfn n fits in
        let all : length bytes / 8 ≡ n = omega (arith, len) in
        let zero_th : pfn + 0 ≡ pfn = omega arith in
        let done =
          words_loop-Has pfn bytes cbytes n 0 hist p z r (λ k lt. words k (omega arith))
            (λ k lt.
              let there : ltb (k * 8) (length cbytes) ≡ true = ground (arith, clen) in
              rw (there, counted k (omega arith)) refl)
            h in
        rw all (rw zero_th at done)

    range_loop-Has :
        (fuel pfn last : ℕ) (hist : Hist) (p z r : ℕ)
        → last + 1 - pfn ≤ fuel
        → last < end
        → Has hist p z r
        → Has
            (range_loop kpage (some count) fuel pfn last hist)
            (p + gathered each pfn (last + 1 - pfn))
            (z + gathered unmapped pfn (last + 1 - pfn))
            (r + gathered times pfn (last + 1 - pfn))
    unfolding range_loop
    range_loop-Has zero pfn last hist p z r le fits h =
        Has-none hist p z r pfn (last + 1 - pfn) (omega arith) h
    range_loop-Has (suc fuel) pfn last hist p z r le fits h = elim (Bool-cases (ltb last pfn)) [
      | inl past ↦ rw past (Has-none hist p z r pfn (last + 1 - pfn) (ground arith) h)
      | inr more ↦
          let n = words_at pfn last in
          let bytes = (kpage (pfn * 8) (n * 8)).0 in
          let (some_words, inside, next) = words_at_lem pfn last more in
          let got = not_empty bytes n (words_ok pfn n (omega (arith, fits))).0 some_words in
          let here = one_read pfn n hist p z r (omega (arith, fits)) h in
          let rest =
            range_loop-Has fuel (pfn + n) last
              (words_loop bytes (count (pfn * 8) (n * 8)).0 (length bytes / 8) 0 hist)
              (p + gathered each pfn n) (z + gathered unmapped pfn n) (r + gathered times pfn n)
              (omega arith) fits here in
          rw (more, got, and_false)
            (Has-split
              (range_loop kpage (some count) fuel (pfn + n) last
                (words_loop bytes (count (pfn * 8) (n * 8)).0 (length bytes / 8) 0 hist))
              p z r pfn n (last + 1 - pfn) inside (rw next at rest))
    ]

    ranges_loop-Has :
        (rs : List RamRange) (hist : Hist) (p z r : ℕ)
        → Below end rs
        → Has hist p z r
        → Has
            (ranges_loop kpage (some count) rs hist)
            (p + total_by (of_range each) rs)
            (z + total_by (of_range unmapped) rs)
            (r + total_by (of_range times) rs)
    unfolding ranges_loop
    ranges_loop-Has [] hist p z r fit h = ground arith
    ranges_loop-Has (range ∷ rs) hist p z r (fits, fit) h =
        let n = range.last + 1 - range.first in
        let one = range_loop-Has n range.first range.last hist p z r (omega arith) fits h in
        let (a, b, c) =
          ranges_loop-Has rs (range_loop kpage (some count) n range.first range.last hist)
            (p + of_range each range) (z + of_range unmapped range) (r + of_range times range) fit
            one in
        (
          a ∙ assoc p (of_range each range) (total_by (of_range each) rs),
          b ∙ assoc z (of_range unmapped range) (total_by (of_range unmapped) rs),
          c ∙ assoc r (of_range times range) (total_by (of_range times) rs),
        )

    -- If kpageflags and kpagecount answer reads in full below `end`, where all of RAM lies, the entry
    -- of a word has the number of the pages of RAM that have it, how many of them nothing maps, and
    -- how often they are mapped together, each in 64 bits.
    pub dump_flags-exact :
        (m : BlockMap)
        → Below end m.ranges
        → let s = stat_of f (dump_flags kpage (some count) m) in
          (s.pages ≡ total_by (of_range each) m.ranges % word)
          × (s.ref_zero ≡ total_by (of_range unmapped) m.ranges % word)
          × (s.ref_sum ≡ total_by (of_range times) m.ranges % word)
    unfolding dump_flags
    dump_flags-exact m fit =
        let (a, b, c) = ranges_loop-Has m.ranges [] 0 0 0 fit nothing in
        let zero_plus : (n : ℕ) → 0 + n ≡ n = λ n. omega arith in
        (
          a ∙ ap (λ n. n % word) (zero_plus (total_by (of_range each) m.ranges)),
          b ∙ ap (λ n. n % word) (zero_plus (total_by (of_range unmapped) m.ranges)),
          c ∙ ap (λ n. n % word) (zero_plus (total_by (of_range times) m.ranges)),
        )
