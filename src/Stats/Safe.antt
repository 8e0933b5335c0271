-- ===== src/Stats/Safe.antt =====
-- The parsers of packages/fragview/stats.go never panic, whatever the kernel writes.
use zfs_slab_mobility.Prelude.{
  ℕ, zero, suc, ◌+◌, ◌-◌, ◌%◌, ◌^◌, ◌≤◌, ◌<◌, ◌≡◌, refl, ap, ◌∙◌, arith, Bool, true, false, not,
  ◌&&◌, ◌||◌, some, List, [], ◌∷◌, ltb, if◌then◌else◌, length, get_elem?, drop, Text, codes,
  same_text, fields, cut_prefix, has_prefix, parse_uint, Bool-cases, Option-cases, inl, inr,
}
use zfs_slab_mobility.Stats.{
  BlockTypes, add_counts, zeros, table_head, types_line, types_lines, read_pagetypeinfo,
}
use zfs_slab_mobility.Stats.Counts.{
  SlabCache, num, slabdata_loop, cache_of, is_skipped, slab_lines, read_slabinfo,
}

pub get_elem?-lt : (xs : List Text) (i : ℕ) → i < length xs → (x : Text) × (get_elem? xs i ≡ some x)
get_elem?-lt [] i h = absurd (omega arith)
get_elem?-lt (x ∷ xs) zero h = (x, refl)
get_elem?-lt (x ∷ xs) (suc i) h = get_elem?-lt xs i (omega arith)

pub num-lt : (fl : List Text) (i : ℕ) → i < length fl → (n : ℕ) × (num fl i ≡ some n)
num-lt fl i h = let (s, e) = get_elem?-lt fl i h in ((parse_uint s).0, rw (e, num) refl)

slabdata_loop-safe :
    (fl rest : List Text) (i : ℕ) (c : SlabCache)
    → (d : SlabCache) × (slabdata_loop fl rest i c ≡ some d)
unfolding slabdata_loop
slabdata_loop-safe fl [] i c = (c, refl)
slabdata_loop-safe fl (s ∷ rest) i c =
    elim (Bool-cases (same_text s (codes "slabdata") && ltb (i + 2) (length fl))) [
      | inr other ↦
          let (d, e) = slabdata_loop-safe fl rest (i + 1) c in (d, rw (other, slabdata_loop) e)
      | inl found ↦
          let (a, ea) = num-lt fl (i + 1) (ground arith) in
          let (n, en) = num-lt fl (i + 2) (ground arith) in
          let (d, e) =
            slabdata_loop-safe fl rest (i + 1) (record c { active_slabs = a; slabs = n }) in
          (d, rw (found, slabdata_loop, ea, en) e)
    ]

cache_of-safe : (fl : List Text) → 6 ≤ length fl → (c : SlabCache) × (cache_of fl ≡ some c)
unfolding cache_of
cache_of-safe fl h =
    let (name, e0) = get_elem?-lt fl 0 (omega arith) in
    let (active, e1) = num-lt fl 1 (omega arith) in
    let (total, e2) = num-lt fl 2 (omega arith) in
    let (size, e3) = num-lt fl 3 (omega arith) in
    let (pages, e5) = num-lt fl 5 (omega arith) in
    let c : SlabCache = record {
      name = name;
      active = active;
      total = total;
      obj_size = size;
      pages_per_slab = pages;
      slabs = 0;
      active_slabs = 0;
    } in
    let (d, e) = slabdata_loop-safe fl fl 0 c in (d, rw (cache_of, e0, e1, e2, e3, e5) e)

slab_lines-safe : (lines : List Text) → (cs : List SlabCache) × (slab_lines lines ≡ some cs)
unfolding slab_lines
slab_lines-safe [] = ([], refl)
slab_lines-safe (line ∷ lines) =
    let (cs, e) = slab_lines-safe lines in
    elim (Bool-cases (is_skipped line)) [
      | inl skip ↦ (cs, rw (skip, slab_lines) e)
      | inr kept ↦
          let (c, ec) = cache_of-safe (fields line) (ground arith) in
          (c ∷ cs, rw (kept, slab_lines, ec, e) refl)
    ]

-- Whatever the lines of slabinfo are, no access is out of range, and there is a list of caches.
pub read_slabinfo-safe :
    (sort : List SlabCache → List SlabCache) (lines : List Text)
    → (cs : List SlabCache) × (read_slabinfo sort lines ≡ some cs)
unfolding read_slabinfo
read_slabinfo-safe sort lines =
    let (cs, e) = slab_lines-safe lines in (sort cs, rw (read_slabinfo, e) refl)

length-zeros : (names : List Text) → length (zeros names) ≡ length names
length-zeros [] = refl
length-zeros (s ∷ names) = ap suc (length-zeros names)

length-drop : (xs : List Text) (n : ℕ) → length (drop n xs) ≡ length xs - n
length-drop xs zero = omega arith
length-drop [] (suc n) = omega arith
length-drop (x ∷ xs) (suc n) = omega (arith, length-drop xs n)

-- As many fields as counters, or fewer: none is out of range.
add_counts-safe :
    (fl : List Text) (counts : List ℕ)
    → length fl ≤ length counts
    → (after : List ℕ) × (add_counts fl counts ≡ some after) × (length after ≡ length counts)
unfolding add_counts
add_counts-safe [] counts h = (counts, refl, refl)
add_counts-safe (s ∷ fl) [] h = absurd (omega arith)
add_counts-safe (s ∷ fl) (c ∷ counts) h =
    let (rest, e, len) = add_counts-safe fl counts (omega arith) in
    (
      (if (parse_uint s).1 then c else (c + (parse_uint s).0) % 2 ^ 64) ∷ rest,
      rw (e, add_counts) refl,
      ap suc len,
    )

-- The table has a counter for each of its names.
IsTable : Bool × BlockTypes → Type 0
IsTable s = length s.1.counts ≡ length s.1.names

types_line-safe :
    (line : Text) (s : Bool × BlockTypes)
    → IsTable s
    → (t : Bool × BlockTypes) × (types_line line s ≡ some t) × IsTable t
unfolding types_line IsTable
types_line-safe line (in_table, bt) h = elim (Option-cases (cut_prefix table_head line)) [
  | inr (rest, e) ↦ (
    (true, record { names = fields rest; counts = zeros (fields rest) }),
    rw (e, types_line) refl,
    length-zeros (fields rest),
  )
  | inl e ↦
      let fl = fields line in
      elim (Bool-cases (
        not in_table
        || not (has_prefix (codes "Node") line)
        || ltb (length fl) (length bt.names))) [
          | inl skip ↦ ((in_table, bt), rw (e, types_line, skip) refl, h)
          | inr row ↦
              let start = length fl - length bt.names in
              let (after, added, len) =
                add_counts-safe (drop start fl) bt.counts (omega (arith, length-drop fl start)) in
              (
                (in_table, record bt { counts = after }),
                rw (e, types_line, row, added) refl,
                len ∙ h,
              )
        ]
]

types_lines-safe :
    (lines : List Text) (s : Bool × BlockTypes)
    → IsTable s
    → (bt : BlockTypes) × (types_lines lines s ≡ some bt) × (length bt.counts ≡ length bt.names)
unfolding types_lines IsTable
types_lines-safe [] (in_table, bt) h = (bt, refl, h)
types_lines-safe (line ∷ lines) s h =
    let (t, e, h') = types_line-safe line s h in
    let (bt, run, len) = types_lines-safe lines t h' in (bt, rw (e, types_lines) run, len)

-- Whatever the lines of pagetypeinfo are, no counter is out of range, and the table that is read
-- has one counter for each migrate type.
pub read_pagetypeinfo-safe :
    (lines : List Text)
    → (bt : BlockTypes) × (read_pagetypeinfo lines ≡ some bt) × (length bt.counts ≡ length bt.names)
read_pagetypeinfo-safe lines =
    types_lines-safe lines (false, record { names = []; counts = [] }) (unfold IsTable in refl)
