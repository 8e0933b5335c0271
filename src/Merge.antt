-- ===== src/Merge.antt =====
-- packages/fragview/merge.go: the names behind a merged slab cache.
--
-- `sort` is `sort.Strings`. A map is gone through in the order in which its keys were first set; Go
-- leaves that order open. A length is in bytes.
pub mod Members
pub mod Lines
use zfs_slab_mobility.Prelude.{
  ℕ, zero, suc, ◌+◌, ◌-◌, ◌/◌, ◌%◌, Bool, true, false, not, ◌&&◌, ◌||◌, Option, none, some, List,
  [], ◌∷◌, ◌++◌, ltb, leb, ◌==◌, if◌then◌else◌, length, Text, codes, same_text, Dict, put, lookup,
  value_or, fields,
}

-- `contains` of compare.go; here also the lookup in a set of names.
unfoldable pub contains : List Text → Text → Bool
contains [] s = false
contains (x ∷ xs) s = same_text x s || contains xs s

abbrev has_slash : Text → Bool
has_slash [] = false
has_slash (c ∷ s) = c == b'/' || has_slash s

abbrev trim_slashes : Text → Text
trim_slashes [] = []
trim_slashes (c ∷ s) = elim (trim_slashes s) [
  | [] ↦ if c == b'/' then [] else c ∷ []
  | d ∷ rest ↦ c ∷ d ∷ rest
]

abbrev last_part : Text → Text
last_part [] = []
last_part (c ∷ s) =
    let rest = last_part s in if has_slash s then rest else if c == b'/' then s else c ∷ s

-- `filepath.Base`.
unfoldable pub base : Text → Text
base [] = codes "."
base (c ∷ s) = elim (trim_slashes (c ∷ s)) [ [] ↦ codes "/" | d ∷ rest ↦ last_part (d ∷ rest) ]

-- An entry of the directory: its name, and what a symbolic link points to if it can be read.
pub record Entry : Type 0 where
  pub name : Text
  pub is_link : Bool
  pub target : Option Text

abbrev Groups : Type 0
Groups = Dict (List Text)

-- `byGroup[g] = append(byGroup[g], name)`.
abbrev pub add_member : Text → Text → Groups → Groups
add_member g name groups = put g (value_or [] (lookup g groups) ++ name ∷ []) groups

abbrev add_entry : Entry → Groups → Groups
unfolding base
add_entry e groups =
    if not e.is_link
    then groups
    else elim e.target [ none ↦ groups | some t ↦ add_member (base t) e.name groups ]

abbrev pub add_entries : List Entry → Groups → Groups
unfolding add_entry
add_entries [] groups = groups
add_entries (e ∷ es) groups = add_entries es (add_entry e groups)

abbrev add_line : List Text → Groups → Groups
unfolding base
add_line (name ∷ target ∷ []) groups = add_member (base target) name groups
add_line _ groups = groups

abbrev pub add_lines : List Text → Groups → Groups
unfolding add_line
add_lines [] groups = groups
add_lines (line ∷ lines) groups = add_lines lines (add_line (fields line) groups)

-- `out[m] = members`, for each of some names.
unfoldable pub set_all : List Text → List Text → Dict (List Text) → Dict (List Text)
set_all members [] out = out
set_all members (m ∷ ms) out = set_all members ms (put m members out)

-- Where the names come from: the directory of the running kernel, or the lines of a captured file;
-- `none` does not open.
pub data Source : Type 0 where
  directory : Option (List Entry) → Source
  captured : Option (List Text) → Source

module _ (sort : List Text → List Text) where
  unfoldable pub spread : Groups → Dict (List Text) → Dict (List Text)
  unfolding set_all
  spread [] out = out
  spread ((g, members) ∷ groups) out =
      spread groups
        (if ltb (length members) 2 then out else set_all (sort members) (sort members) out)

  abbrev pub aliases_of : Groups → Option (Dict (List Text))
  unfolding spread
  aliases_of groups = elim (spread groups []) [ [] ↦ none | a ∷ out ↦ some (a ∷ out) ]

  unfoldable pub load_cache_aliases : Source → Option (Dict (List Text))
  unfolding aliases_of add_entries add_lines
  load_cache_aliases (directory none) = none
  load_cache_aliases (directory (some es)) = aliases_of (add_entries es [])
  load_cache_aliases (captured none) = none
  load_cache_aliases (captured (some lines)) = aliases_of (add_lines lines [])

-- The loop of `itoa`, from the last digit on; an int has at most twenty.
unfoldable pub itoa_loop : ℕ → ℕ → Text → Text
itoa_loop zero n s = s
itoa_loop (suc fuel) n s =
    let rest = itoa_loop fuel (n / 10) ((b'0' + n % 10) ∷ s) in if n == 0 then s else rest

unfoldable pub itoa : ℕ → Text
unfolding itoa_loop
itoa n = if n == 0 then codes "0" else itoa_loop 20 n []

-- `cacheAliases[name]`, of a map that may be nil.
abbrev pub aliases : Option (Dict (List Text)) → Text → List Text
aliases none name = []
aliases (some m) name = value_or [] (lookup name m)

module _ (known : Option (Dict (List Text))) where
  unfoldable pub cache_label : Text → Text
  unfolding itoa
  cache_label name =
      let a = aliases known name in
      if ltb (length a) 2 then name else name ++ codes "+" ++ itoa (length a - 1)

module _ (known : Option (Dict (List Text))) (width most : ℕ) where
  -- The members of one set, behind what stands on the line; no line is left if the pane is full.
  unfoldable pub pack : List Text → List Text → Text → List Text × Option Text
  pack [] out line = (out, some line)
  pack (m ∷ ms) out line =
      let wraps = ltb width (length line + 1 + length m) in
      let out2 = if wraps then out ++ line ∷ [] else out in
      let rest = pack ms out2 ((if wraps then codes "     " else line) ++ codes " " ++ m) in
      if wraps && leb most (length out2) then (out2, none) else rest

  abbrev pub after_pack : (List Text → List Text) → List Text × Option Text → List Text
  after_pack go (out, none) = out
  after_pack go (out, some line) = go (out ++ line ∷ [])

  -- What one name adds, behind `line`: nothing if `skip` goes on at once, and else the lines of
  -- its set, from which `on` goes on.
  unfoldable pub one_set :
      Text
      → List Text
      → List Text
      → List Text
      → (Text → List Text → List Text)
      → List Text
      → List Text
  unfolding pack contains
  one_set line seen out skip on [] = skip
  one_set line seen out skip on (a ∷ []) = skip
  one_set line seen out skip on (a ∷ b ∷ more) =
      if contains seen a || leb most (length out)
      then skip
      else after_pack (on a) (pack (a ∷ b ∷ more) out line)

  unfoldable pub alias_loop : List Text → List Text → List Text → List Text
  unfolding one_set cache_label
  alias_loop [] seen out = out
  alias_loop (n ∷ ns) seen out =
      one_set (codes " " ++ cache_label known n ++ codes " =") seen out (alias_loop ns seen out)
        (λ a. alias_loop ns (a ∷ seen)) (aliases known n)

  -- `aliasLines`.
  unfoldable pub alias_lines : List Text → List Text
  unfolding alias_loop
  alias_lines shown = alias_loop shown [] []

abbrev pub join : Text → List Text → Text
join sep [] = []
join sep (x ∷ []) = x
join sep (x ∷ y ∷ xs) = x ++ sep ++ join sep (y ∷ xs)

abbrev legend_head : Text
legend_head =
    10 ∷ codes "merged caches, one kmem_cache each: which alias owns an object is"
    ++ codes " not recorded anywhere."
    ++ 10 ∷ codes "Boot with slab_nomerge to tell them apart."
    ++ 10 ∷ []

module _ (known : Option (Dict (List Text))) where
  unfoldable pub legend_loop : List Text → List Text → List Text
  unfolding cache_label contains
  legend_loop [] seen = []
  legend_loop (n ∷ ns) seen = elim (aliases known n) [
    | [] ↦ legend_loop ns seen
    | a ∷ [] ↦ legend_loop ns seen
    | a ∷ b ∷ more ↦
        if contains seen a
        then legend_loop ns seen
        else (codes "  " ++ cache_label known n ++ codes "  " ++ join (codes " ") (a ∷ b ∷ more))
          ∷ legend_loop ns (a ∷ seen)
  ]

  -- `aliasLegend`.
  unfoldable pub alias_legend : List Text → Text
  unfolding legend_loop
  alias_legend shown = elim (legend_loop shown []) [
    | [] ↦ []
    | l ∷ ls ↦ legend_head ++ join (10 ∷ []) (l ∷ ls) ++ 10 ∷ []
  ]
