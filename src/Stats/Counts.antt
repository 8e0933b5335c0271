-- ===== src/Stats/Counts.antt =====
-- packages/fragview/stats.go: the slab caches, and the files of one number to a name.
use zfs_slab_mobility.Prelude.{
  ℕ, ◌+◌, ◌-◌, ◌*◌, ◌%◌, ◌^◌, Bool, true, false, not, ◌&&◌, ◌||◌, Option, none, some, List, [], ◌∷◌,
  ltb, ◌==◌, if◌then◌else◌, length, get_elem?, Text, codes, same_text, Dict, put, lookup, value_or,
  ◌>>=◌, fields, has_prefix, cut, parse_uint,
}

pub record SlabCache : Type 0 where
  pub name : Text
  pub active : ℕ
  pub total : ℕ
  pub obj_size : ℕ
  pub pages_per_slab : ℕ
  pub slabs : ℕ
  pub active_slabs : ℕ

abbrev pub cache_bytes : SlabCache → ℕ
cache_bytes c = c.total * c.obj_size % 2 ^ 64

abbrev pub live_bytes : SlabCache → ℕ
live_bytes c = c.active * c.obj_size % 2 ^ 64

-- `bytes() - liveBytes()`, a uint64.
abbrev pub wasted : SlabCache → ℕ
wasted c = (cache_bytes c + 2 ^ 64 - live_bytes c) % 2 ^ 64

-- `num(i)`: the number in a field, the error ignored.
abbrev pub num : List Text → ℕ → Option ℕ
num fl i = elim (get_elem? fl i) [ none ↦ none | some s ↦ some (parse_uint s).0 ]

-- The loop over the fields for `slabdata`, at field `i`.
unfoldable pub slabdata_loop : List Text → List Text → ℕ → SlabCache → Option SlabCache
slabdata_loop fl [] i c = some c
slabdata_loop fl (s ∷ rest) i c =
    let next = λ (d : SlabCache). slabdata_loop fl rest (i + 1) d in
    elim (same_text s (codes "slabdata") && ltb (i + 2) (length fl)) [
      | false ↦ next c
      | true ↦ elim (num fl (i + 1)) [
        | none ↦ none
        | some a ↦ elim (num fl (i + 2)) [
          | none ↦ none
          | some n ↦ next (record c { active_slabs = a; slabs = n })
        ]
      ]
    ]

-- A line that describes a cache; its fields are counted first.
unfoldable pub cache_of : List Text → Option SlabCache
unfolding slabdata_loop
cache_of fl = do
  name ← get_elem? fl 0
  active ← num fl 1
  total ← num fl 2
  obj_size ← num fl 3
  pages ← num fl 5
  slabdata_loop fl fl 0 (record {
    name = name;
    active = active;
    total = total;
    obj_size = obj_size;
    pages_per_slab = pages;
    slabs = 0;
    active_slabs = 0;
  })

abbrev pub is_skipped : Text → Bool
is_skipped line =
    has_prefix (codes "#") line
    || has_prefix (codes "slabinfo") line
    || ltb (length (fields line)) 6

unfoldable pub slab_lines : List Text → Option (List SlabCache)
unfolding cache_of
slab_lines [] = some []
slab_lines (line ∷ lines) =
    let rest = slab_lines lines in
    elim (is_skipped line) [
      | true ↦ rest
      | false ↦ do c ← cache_of (fields line); cs ← rest; some (c ∷ cs)
    ]

-- `sort` is `sort.Slice` by falling bytes.
unfoldable pub read_slabinfo :
    (List SlabCache → List SlabCache) → List Text → Option (List SlabCache)
unfolding slab_lines
read_slabinfo sort lines = do cs ← slab_lines lines; some (sort cs)

-- Whether the field behind the number is the unit of the file's sizes.
abbrev pub in_kilobytes : List Text → Bool
in_kilobytes [] = false
in_kilobytes (unit ∷ _) = same_text unit (codes "kB")

-- The number behind the colon, in bytes.
abbrev pub meminfo_value : List Text → Option ℕ
meminfo_value [] = none
meminfo_value (s ∷ rest) =
    let (n, bad) = parse_uint s in
    if bad then none else some (if in_kilobytes rest then n * 1024 % 2 ^ 64 else n)

unfoldable pub meminfo_lines : List Text → Dict ℕ → Dict ℕ
meminfo_lines [] m = m
meminfo_lines (line ∷ lines) m = meminfo_lines lines (elim (cut (codes ":") line) [
  | none ↦ m
  | some (k, v) ↦ elim (meminfo_value (fields v)) [ none ↦ m | some n ↦ put k n m ]
])

-- `readVmstat`, with two fields to a line, and `readKstat`, with three: the first names the number
-- in the last.
unfoldable pub named_lines : ℕ → List Text → Dict ℕ → Dict ℕ
named_lines width [] m = m
named_lines width (line ∷ lines) m =
    let fl = fields line in
    let (n, bad) = parse_uint (value_or [] (get_elem? fl (width - 1))) in
    let key = value_or [] (get_elem? fl 0) in
    named_lines width lines (if not (length fl == width) || bad then m else put key n m)

-- A file that does not open leaves the map empty.
abbrev pub lines_of : Option (List Text) → List Text
lines_of none = []
lines_of (some lines) = lines

unfoldable pub read_meminfo : Option (List Text) → Dict ℕ
unfolding meminfo_lines
read_meminfo file = meminfo_lines (lines_of file) []

unfoldable pub read_vmstat : Option (List Text) → Dict ℕ
unfolding named_lines
read_vmstat file = named_lines 2 (lines_of file) []

unfoldable pub read_kstat : Option (List Text) → Dict ℕ
unfolding named_lines
read_kstat file = named_lines 3 (lines_of file) []

-- `abdRelocationBuilt`, of the lines of abdstats.
abbrev pub abd_relocation_built : Option (List Text) → Bool
abd_relocation_built file = elim (lookup (codes "page_isolate_asked") (read_kstat file)) [
  | none ↦ false
  | some n ↦ true
]
