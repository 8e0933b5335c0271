-- ===== src/Kpage/Unseen.antt =====
-- packages/fragview/kpage.go: the table of flag words that no rule of the classifier covers.
use zfs_slab_mobility.Prelude.{
  ℕ, suc, ◌+◌, ◌%◌, ◌^◌, ◌≤◌, ◌≡◌, refl, Bool, true, false, not, ◌&&◌, List, [], ◌∷◌, arith, leb,
  ◌==◌, if◌then◌else◌, length,
}

-- `map[uint64]uint64` from a flag word to the pages seen with it.
abbrev pub Unseen : Type 0
Unseen = List (ℕ × ℕ)

abbrev pub u64 : ℕ → ℕ
u64 n = n % 2 ^ 64

unfoldable pub has : ℕ → Unseen → Bool
has f [] = false
has f ((g, n) ∷ m) = if g == f then true else has f m

-- A word that is not in the map counts as zero.
pub count_of : ℕ → Unseen → ℕ
count_of f [] = 0
count_of f ((g, n) ∷ m) = if g == f then n else count_of f m

-- `m[f] += n`, which makes the entry if there is none.
pub add_count : ℕ → ℕ → Unseen → Unseen
add_count f n [] = (f, u64 n) ∷ []
add_count f n ((g, k) ∷ m) = if g == f then (g, u64 (k + n)) ∷ m else (g, k) ∷ add_count f n m

abbrev pub max_unknown : ℕ
max_unknown = 256

merge_one : ℕ → ℕ → Unseen → Unseen
merge_one f n m = if not (has f m) && leb max_unknown (length m) then m else add_count f n m

-- `mergeUnknown`: the entries of `seen` in the order in which the range statement delivers them.
unfoldable pub merge_unknown : Unseen → Unseen → Unseen
unfolding merge_one
merge_unknown m [] = m
merge_unknown m ((f, n) ∷ seen) = merge_unknown (merge_one f n m) seen

length-add_count :
    (f n : ℕ) (m : Unseen) → has f m ≡ false → length (add_count f n m) ≡ suc (length m)
unfolding has add_count
length-add_count f n [] h = refl
length-add_count f n ((g, k) ∷ m) h = ground (arith, length-add_count f n m)

length-add_count-has : (f n : ℕ) (m : Unseen) → has f m ≡ true → length (add_count f n m) ≡ length m
unfolding has add_count
length-add_count-has f n [] h = cc
length-add_count-has f n ((g, k) ∷ m) h = ground (arith, length-add_count-has f n m)

length-merge_one :
    (f n : ℕ) (m : Unseen) → length m ≤ max_unknown → length (merge_one f n m) ≤ max_unknown
unfolding merge_one
length-merge_one f n m h = ground (arith, length-add_count f n m, length-add_count-has f n m)

-- The table never grows past its cap, whatever is merged into it.
pub merge_unknown_bounded :
    (m seen : Unseen) → length m ≤ max_unknown → length (merge_unknown m seen) ≤ max_unknown
unfolding merge_unknown
merge_unknown_bounded m [] h = h
merge_unknown_bounded m ((f, n) ∷ seen) h =
    merge_unknown_bounded (merge_one f n m) seen (length-merge_one f n m h)

-- How often `seen` counts a word, over all its entries.
pub total_of : ℕ → Unseen → ℕ
total_of f [] = 0
total_of f ((g, n) ∷ m) = (if g == f then n else 0) + total_of f m

count_of-add_count :
    (f n k : ℕ) (m : Unseen)
    → u64 (count_of k (add_count f n m)) ≡ u64 (count_of k m + (if f == k then n else 0))
unfolding count_of add_count
count_of-add_count f n k [] = ground arith
count_of-add_count f n k ((g, c) ∷ m) = ground (arith, count_of-add_count f n k m)

has-add_count : (f n k : ℕ) (m : Unseen) → has k m ≡ true → has k (add_count f n m) ≡ true
unfolding has add_count
has-add_count f n k [] h = ground arith
has-add_count f n k ((g, c) ∷ m) h = ground (arith, has-add_count f n k m)

has-merge_one : (f n k : ℕ) (m : Unseen) → has k m ≡ true → has k (merge_one f n m) ≡ true
unfolding merge_one
has-merge_one f n k m h = ground (arith, has-add_count f n k m)

has_cong : (f k : ℕ) (m : Unseen) → (f == k) ≡ true → has f m ≡ has k m
has_cong f k m e = let p : f ≡ k = ground arith in rw p

count_of-merge_one :
    (f n k : ℕ) (m : Unseen)
    → has k m ≡ true
    → u64 (count_of k (merge_one f n m)) ≡ u64 (count_of k m + (if f == k then n else 0))
unfolding merge_one
count_of-merge_one f n k m h = ground (arith, count_of-add_count f n k m, has_cong f k m)

-- A word that already has its entry keeps an exact count, full table or not: it grows by all that
-- was seen of it (modulo 2 ^ 64).
pub merge_unknown_exact :
    (m seen : Unseen) (k : ℕ)
    → has k m ≡ true
    → u64 (count_of k (merge_unknown m seen)) ≡ u64 (count_of k m + total_of k seen)
unfolding merge_unknown total_of
merge_unknown_exact m [] k h = ground arith
merge_unknown_exact m ((f, n) ∷ seen) k h = ground (
  arith,
  merge_unknown_exact (merge_one f n m) seen k (has-merge_one f n k m h),
  count_of-merge_one f n k m h,
)
