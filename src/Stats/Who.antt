-- ===== src/Stats/Who.antt =====
-- packages/fragview/main.go: the order of a pageblock, and the files of the slabwho module.
--
-- An access out of range of a slice is a panic, `none`.
use zfs_slab_mobility.Prelude.{
  ℕ, zero, suc, ◌+◌, ◌<◌, ◌≤◌, ◌≡◌, refl, arith, Bool, true, false, not, ◌||◌, Option, none, some,
  List, [], ◌∷◌, if◌then◌else◌, ltb, length, get_elem?, Text, codes, same_text, Dict, put, value_or,
  ◌>>=◌, fields, cut, trim_space, parse_uint, Bool-cases, inl, inr,
}
use zfs_slab_mobility.Stats.Counts.{num}
use zfs_slab_mobility.Stats.Safe.{get_elem?-lt, num-lt}

-- `readPageblockOrder`, of the lines of pagetypeinfo.
abbrev pub order_of : Text → Option ℕ
order_of line = elim (cut (codes "Page block order:") line) [
  | none ↦ none
  | some (before, v) ↦ let (n, bad) = parse_uint (trim_space v) in if bad then none else some n
]

unfoldable pub order_lines : List Text → ℕ
order_lines [] = 9
order_lines (line ∷ lines) =
    let rest = order_lines lines in elim (order_of line) [ none ↦ rest | some n ↦ n ]

unfoldable pub read_pageblock_order : Option (List Text) → ℕ
unfolding order_lines
read_pageblock_order none = 9
read_pageblock_order (some lines) = order_lines lines

pub record WhoStat : Type 0 where
  pub blocks : ℕ
  pub hostage_blocks : ℕ
  pub pages : ℕ
  pub hostage_pages : ℕ
  pub mobile : Bool

pub record SiteStat : Type 0 where
  pub cache : Text
  pub fn : Text
  pub file : Text
  pub objects : ℕ
  pub blocks : ℕ

pub record WhoTotals : Type 0 where
  pub blocks : ℕ
  pub hostage_blocks : ℕ
  pub hostage_free_pages : ℕ
  pub walk_us : ℕ

-- One pair of a name and a number on the line of totals.
abbrev pub set_total : Text → ℕ → WhoTotals → WhoTotals
set_total key n t =
    if same_text key (codes "blocks")
    then record t { blocks = n }
    else if same_text key (codes "hostage_blocks")
    then record t { hostage_blocks = n }
    else if same_text key (codes "hostage_free_pages")
    then record t { hostage_free_pages = n }
    else if same_text key (codes "walk_us")
    then record t { walk_us = n }
    else t

-- `for i := 1; i+1 < len(fl); i += 2`, from `i` on, for so many rounds at most; as many as there
-- are fields are enough.
unfoldable pub totals_loop : ℕ → List Text → ℕ → WhoTotals → Option WhoTotals
totals_loop zero fl i t = none
totals_loop (suc left) fl i t =
    let further = (do
      key ← get_elem? fl i
      n ← num fl (i + 1)
      totals_loop left fl (i + 2) (set_total key n t)) in
    if ltb (i + 1) (length fl) then further else some t

unfoldable pub who_of : List Text → Option (Text × WhoStat)
who_of fl = do
  name ← get_elem? fl 0
  pages ← num fl 1
  blocks ← num fl 2
  hostage_pages ← num fl 3
  hostage_blocks ← num fl 4
  mark ← get_elem? fl 5
  some (
    name,
    record {
      blocks = blocks;
      hostage_blocks = hostage_blocks;
      pages = pages;
      hostage_pages = hostage_pages;
      mobile = same_text mark (codes "1");
    },
  )

abbrev Who : Type 0
Who = Dict WhoStat × WhoTotals

-- One line, by its fields.
unfoldable pub who_line : List Text → Who → Option Who
unfolding totals_loop who_of
who_line [] (m, t) = some (m, t)
who_line (first ∷ rest) (m, t) =
    if same_text first (codes "#")
    then (totals_loop (length (first ∷ rest)) (first ∷ rest) 1 t >>= λ u. some (m, u))
    else if ltb (length (first ∷ rest)) 6
    then some (m, t)
    else who_of (first ∷ rest) >>= λ p. some (put p.0 p.1 m, t)

unfoldable pub who_lines : List Text → Who → Option Who
unfolding who_line
who_lines [] s = some s
who_lines (line ∷ lines) s = who_line (fields line) s >>= who_lines lines

abbrev no_totals : WhoTotals
no_totals = record { blocks = 0; hostage_blocks = 0; hostage_free_pages = 0; walk_us = 0 }

-- `readSlabwho`: the map, nil if the file does not open or names no cache, the totals and the
-- complaint.
unfoldable pub read_slabwho : Option (List Text) → Option (Option (Dict WhoStat) × WhoTotals × Text)
unfolding who_lines
read_slabwho none = some (none, no_totals, [])
read_slabwho (some lines) = elim (who_lines lines ([], no_totals)) [
  | none ↦ none
  | some ([], t) ↦ some (none, no_totals, codes "/proc/slabwho is empty")
  | some (w ∷ ws, t) ↦ some (some (w ∷ ws), t, [])
]

-- `readSites`.
unfoldable pub site_of : List Text → Option SiteStat
site_of fl = do
  objects ← num fl 1
  blocks ← num fl 2
  cache ← get_elem? fl 3
  fn ← get_elem? fl 4
  file ← get_elem? fl 5
  some (record { cache = cache; fn = fn; file = file; objects = objects; blocks = blocks })

abbrev pub is_site : List Text → Bool
is_site fl = not (ltb (length fl) 6 || not (same_text (value_or [] (get_elem? fl 0)) (codes "@")))

unfoldable pub read_sites : List Text → Option (List SiteStat)
unfolding site_of
read_sites [] = some []
read_sites (line ∷ lines) =
    let rest = read_sites lines in
    elim (is_site (fields line)) [
      | false ↦ rest
      | true ↦ site_of (fields line) >>= λ s. rest >>= λ ss. some (s ∷ ss)
    ]

who_of-safe : (fl : List Text) → 6 ≤ length fl → (p : Text × WhoStat) × (who_of fl ≡ some p)
unfolding who_of
who_of-safe fl h =
    let (name, e0) = get_elem?-lt fl 0 (omega arith) in
    let (pages, e1) = num-lt fl 1 (omega arith) in
    let (blocks, e2) = num-lt fl 2 (omega arith) in
    let (held_pages, e3) = num-lt fl 3 (omega arith) in
    let (held, e4) = num-lt fl 4 (omega arith) in
    let (mark, e5) = get_elem?-lt fl 5 (omega arith) in
    (
      (
        name,
        record {
          blocks = blocks;
          hostage_blocks = held;
          pages = pages;
          hostage_pages = held_pages;
          mobile = same_text mark (codes "1");
        },
      ),
      rw (who_of, e0, e1, e2, e3, e4, e5) refl,
    )

totals_loop-safe :
    (left : ℕ) (fl : List Text) (i : ℕ) (t : WhoTotals)
    → i ≤ length fl
    → length fl < left + i
    → (u : WhoTotals) × (totals_loop left fl i t ≡ some u)
unfolding totals_loop
totals_loop-safe zero fl i t le h = absurd (omega arith)
totals_loop-safe (suc left) fl i t le h = elim (Bool-cases (ltb (i + 1) (length fl))) [
  | inl more ↦
      let (key, e0) = get_elem?-lt fl i (ground arith) in
      let (n, e1) = num-lt fl (i + 1) (ground arith) in
      let (u, run) =
        totals_loop-safe left fl (i + 2) (set_total key n t) (ground arith) (omega arith) in
      (u, rw (more, totals_loop, e0, e1) run)
  | inr done ↦ (t, rw (done, totals_loop) refl)
]

who_line-safe : (fl : List Text) (s : Who) → (t : Who) × (who_line fl s ≡ some t)
unfolding who_line
who_line-safe [] (m, t) = ((m, t), refl)
who_line-safe (first ∷ rest) (m, t) = elim (Bool-cases (same_text first (codes "#"))) [
  | inl totals ↦
      let (u, run) =
        totals_loop-safe (length (first ∷ rest)) (first ∷ rest) 1 t (omega arith) (omega arith) in
      ((m, u), rw (totals, who_line, run) refl)
  | inr other ↦ elim (Bool-cases (ltb (length (first ∷ rest)) 6)) [
    | inl short ↦ ((m, t), rw (other, who_line, short) refl)
    | inr long ↦
        let (p, e) = who_of-safe (first ∷ rest) (ground arith) in
        ((put p.0 p.1 m, t), rw (other, who_line, long, e) refl)
  ]
]

who_lines-safe : (lines : List Text) (s : Who) → (t : Who) × (who_lines lines s ≡ some t)
unfolding who_lines
who_lines-safe [] s = (s, refl)
who_lines-safe (line ∷ lines) s =
    let (t, e) = who_line-safe (fields line) s in
    let (u, run) = who_lines-safe lines t in (u, rw (e, who_lines) run)

site_of-safe : (fl : List Text) → 6 ≤ length fl → (s : SiteStat) × (site_of fl ≡ some s)
unfolding site_of
site_of-safe fl h =
    let (objects, e1) = num-lt fl 1 (omega arith) in
    let (blocks, e2) = num-lt fl 2 (omega arith) in
    let (cache, e3) = get_elem?-lt fl 3 (omega arith) in
    let (fn, e4) = get_elem?-lt fl 4 (omega arith) in
    let (file, e5) = get_elem?-lt fl 5 (omega arith) in
    (
      record { cache = cache; fn = fn; file = file; objects = objects; blocks = blocks },
      rw (site_of, e1, e2, e3, e4, e5) refl,
    )

-- Whatever the lines of slabwho_sites are, no field is out of range.
read_sites-safe : (lines : List Text) → (ss : List SiteStat) × (read_sites lines ≡ some ss)
unfolding read_sites
read_sites-safe [] = ([], refl)
read_sites-safe (line ∷ lines) =
    let (ss, e) = read_sites-safe lines in
    elim (Bool-cases (is_site (fields line))) [
      | inr other ↦ (ss, rw (other, read_sites) e)
      | inl site ↦
          let (s, es) = site_of-safe (fields line) (ground arith) in
          (s ∷ ss, rw (site, read_sites, es, e) refl)
    ]

-- What `readSlabwho` makes of what it read.
answer : Who → Option (Dict WhoStat) × WhoTotals × Text
answer ([], t) = (none, no_totals, codes "/proc/slabwho is empty")
answer (w ∷ ws, t) = (some (w ∷ ws), t, [])

answered :
    (lines : List Text) (s : Who)
    → who_lines lines ([], no_totals) ≡ some s
    → read_slabwho (some lines) ≡ some (answer s)
unfolding read_slabwho answer
answered lines ([], t) e = rw (e, read_slabwho) refl
answered lines (w ∷ ws, t) e = rw (e, read_slabwho) refl

-- Whatever the lines of slabwho and of slabwho_sites are, no field is out of range.
pub read_slabwho-safe :
    (who : Option (List Text)) (sites : List Text)
    → ((r : Option (Dict WhoStat) × WhoTotals × Text) × (read_slabwho who ≡ some r))
      × ((ss : List SiteStat) × (read_sites sites ≡ some ss))
unfolding read_slabwho
read_slabwho-safe none sites = (((none, no_totals, []), refl), read_sites-safe sites)
read_slabwho-safe (some lines) sites =
    let (s, e) = who_lines-safe lines ([], no_totals) in
    ((answer s, answered lines s e), read_sites-safe sites)
