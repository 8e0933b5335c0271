-- ===== src/Stats.antt =====
-- packages/fragview/stats.go: the counters of /proc. A file is the list of its lines; `none` where
-- it does not open. An error of the scanner after the last line is left out: the callers ignore it.
--
-- An access out of range of a slice is a panic, `none`.
pub mod Counts
pub mod Ladder
pub mod Safe
pub mod Who
use zfs_slab_mobility.Prelude.{
  ℕ, zero, suc, ◌+◌, ◌-◌, ◌*◌, ◌%◌, ◌^◌, Bool, true, false, not, ◌&&◌, ◌||◌, Option, none, some,
  List, [], ◌∷◌, ◌++◌, ltb, leb, ◌==◌, if◌then◌else◌, length, get_elem?, drop, Text, codes,
  same_text, Dict, put, lookup, value_or, fields, cut_prefix, has_prefix, cut, parse_uint,
}
use zfs_slab_mobility.Prelude.Int.{ℤ, pos, ◌-ℤ◌}

-- `maxOrder` is -1 for a ladder without orders.
pub record FreeLadder : Type 0 where
  pub orders : List ℕ
  pub max_order : ℤ

-- The slice grown with zeros to hold index `i`, and `l.orders[i] += n`.
abbrev pub add_order : List ℕ → ℕ → ℕ → List ℕ
add_order [] zero n = n ∷ []
add_order [] (suc i) n = 0 ∷ add_order [] i n
add_order (o ∷ orders) zero n = (o + n) % 2 ^ 64 ∷ orders
add_order (o ∷ orders) (suc i) n = o ∷ add_order orders i n

-- The index behind the first field `zone` and the name that follows it.
abbrev pub zone_index : List Text → ℕ → Option ℕ
zone_index [] i = none
zone_index (s ∷ fl) i =
    let later = zone_index fl (i + 1) in if same_text s (codes "zone") then some (i + 2) else later

abbrev pub add_orders : List Text → ℕ → List ℕ → List ℕ
add_orders [] i orders = orders
add_orders (s ∷ fl) i orders =
    let (n, bad) = parse_uint s in
    add_orders fl (i + 1) (if bad then orders else add_order orders i n)

buddy_line : Text → List ℕ → List ℕ
buddy_line line orders =
    let fl = fields line in
    elim (zone_index fl 0) [
      | none ↦ orders
      | some idx ↦ if ltb (length fl) idx then orders else add_orders (drop idx fl) 0 orders
    ]

buddy_lines : List Text → List ℕ → List ℕ
unfolding buddy_line
buddy_lines [] orders = orders
buddy_lines (line ∷ lines) orders = buddy_lines lines (buddy_line line orders)

-- `none` is the error of a file that does not open.
unfoldable pub read_buddyinfo : Option (List Text) → Option FreeLadder
unfolding buddy_lines ◌-ℤ◌
read_buddyinfo none = none
read_buddyinfo (some lines) =
    let orders = buddy_lines lines [] in
    some (record { orders = orders; max_order = pos (length orders) -ℤ pos 1 })

-- Pages in the free blocks of each order from `o` on, less those of orders `want` and above. A
-- float64 sum of them is exact below 2 ^ 53 pages, so it is the number.
unfoldable pub pages_below : ℕ → List ℕ → ℕ → ℕ
pages_below o [] want = 0
pages_below o (n ∷ orders) want =
    (if ltb o want then n * (2 ^ o % 2 ^ 64) else 0) + pages_below (o + 1) orders want

-- `unusableIndex`: the fraction for each order, as its two numbers.
unfoldable pub index_loop : List ℕ → ℕ → ℕ → List ℕ → List (ℕ × ℕ)
unfolding pages_below
index_loop orders total want [] = []
index_loop orders total want (n ∷ rest) =
    (pages_below 0 orders want, total) ∷ index_loop orders total (want + 1) rest

unfoldable pub unusable_index : FreeLadder → Option (List (ℕ × ℕ))
unfolding index_loop pages_below
unusable_index l =
    let total = pages_below 0 l.orders (length l.orders) in
    if total == 0 then none else some (index_loop l.orders total 0 l.orders)

pub record BlockTypes : Type 0 where
  pub names : List Text
  pub counts : List ℕ

-- `bt.counts[i] += n` for each field that is a number.
unfoldable pub add_counts : List Text → List ℕ → Option (List ℕ)
add_counts [] counts = some counts
add_counts (s ∷ fl) [] = if (parse_uint s).1 then add_counts fl [] else none
add_counts (s ∷ fl) (c ∷ counts) =
    let (n, bad) = parse_uint s in
    elim (add_counts fl counts) [
      | none ↦ none
      | some rest ↦ some ((if bad then c else (c + n) % 2 ^ 64) ∷ rest)
    ]

abbrev pub zeros : List Text → List ℕ
zeros [] = []
zeros (s ∷ names) = 0 ∷ zeros names

abbrev pub table_head : Text
table_head = codes "Number of blocks type"

-- One line; the flag is `inTable`.
unfoldable pub types_line : Text → Bool × BlockTypes → Option (Bool × BlockTypes)
unfolding add_counts
types_line line (in_table, bt) = elim (cut_prefix table_head line) [
  | some rest ↦ some (true, record { names = fields rest; counts = zeros (fields rest) })
  | none ↦
      let fl = fields line in
      let start = length fl - length bt.names in
      if not in_table || not (has_prefix (codes "Node") line) || ltb (length fl) (length bt.names)
      then some (in_table, bt)
      else elim (add_counts (drop start fl) bt.counts) [
        | none ↦ none
        | some counts ↦ some (in_table, record bt { counts = counts })
      ]
]

unfoldable pub types_lines : List Text → Bool × BlockTypes → Option BlockTypes
unfolding types_line
types_lines [] (in_table, bt) = some bt
types_lines (line ∷ lines) s = elim (types_line line s) [
  | none ↦ none
  | some t ↦ types_lines lines t
]

-- What `readPagetypeinfo` makes of the lines of its file.
abbrev pub read_pagetypeinfo : List Text → Option BlockTypes
read_pagetypeinfo lines = types_lines lines (false, record { names = []; counts = [] })
