-- ===== src/Compare/Groups.antt =====
-- packages/fragview/compare.go: `groupSnapshots`, the seeds of each build.
--
-- `read` stands for `readSnapshot` followed by `measure` and `fields`: the label of a snapshot and
-- its numbers by name, or nothing if the file cannot be read.
pub mod Piles
pub mod Kept
use zfs_slab_mobility.Prelude.{
  ℕ, Bool, true, false, not, List, [], ◌∷◌, ◌++◌, Option, none, some, Text, codes, same_text, Dict,
  lookup, put, value_or, cut, map, length, ◌==◌, ◌>>=◌, if◌then◌else◌,
}
use zfs_slab_mobility.Merge.{contains}
use zfs_slab_mobility.Compare.{FloatOps, Group, median}

-- What stands before the slash of a label.
abbrev pub name_of : Text → Text
name_of label = elim (cut (codes "/") label) [ none ↦ label | some (name, rest) ↦ name ]

module _ {F : Type 0} (read : Text → Option (Text × Dict F)) where
  -- `byLabel`, with the seeds of each group, and `seen`.
  abbrev pub Piles : Type 0
  Piles = Dict (List (Dict F)) × List Text

  abbrev pub add_seed : Text → Dict F → Piles → Piles
  add_seed name seed (by_name, seen) = elim (lookup name by_name) [
    | none ↦ (put name (seed ∷ []) by_name, seen ++ name ∷ [])
    | some seeds ↦ (put name (seeds ++ seed ∷ []) by_name, seen)
  ]

  -- The loop over the paths; a snapshot that cannot be read ends it.
  unfoldable pub group_loop : List Text → Piles → Option Piles
  group_loop [] piles = some piles
  group_loop (p ∷ ps) piles = elim (read p) [
    | none ↦ none
    | some (label, seed) ↦ group_loop ps (add_seed (name_of label) seed piles)
  ]

module _ {F : Type 0} (ops : FloatOps F) where
  abbrev pub number : Text → Dict F → F
  number key seed = value_or ops.zero_f (lookup key seed)

  -- The median of a number that the first seed has.
  unfoldable pub median_at : List (Dict F) → Text → F
  unfolding median
  median_at [] key = ops.zero_f
  median_at (seed ∷ seeds) key = elim (lookup key seed) [
    | none ↦ ops.zero_f
    | some x ↦ median ops (map (number key) (seed ∷ seeds))
  ]

  abbrev pub group_of : Text → List (Dict F) → Group F
  group_of name seeds = record {
    label = name;
    seeds = map (λ seed key. number key seed) seeds;
    median_of = median_at seeds;
  }

  -- The groups of the names in `order` that there are.
  unfoldable pub in_order : Dict (List (Dict F)) → List Text → List (Group F)
  unfolding median_at
  in_order by_name [] = []
  in_order by_name (name ∷ order) =
      let rest = in_order by_name order in
      elim (lookup name by_name) [ none ↦ rest | some seeds ↦ group_of name seeds ∷ rest ]

  -- The groups of the names seen that `order` does not have.
  unfoldable pub others : Dict (List (Dict F)) → List Text → List Text → List (Group F)
  unfolding median_at contains
  others by_name order [] = []
  others by_name order (name ∷ seen) =
      let rest = others by_name order seen in
      if contains order name then rest else group_of name (value_or [] (lookup name by_name)) ∷ rest

  unfoldable pub group_snapshots :
      (Text → Option (Text × Dict F)) → List Text → List Text → Option (List (Group F))
  unfolding group_loop in_order others
  group_snapshots read paths order = do
    (by_name, seen) ← group_loop read paths ([], [])
    let order' = if length order == 0 then seen else order
    some (in_order by_name order' ++ others by_name order' seen)
