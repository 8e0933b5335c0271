-- ===== src/Tests/GroupsRuns.antt =====
-- The grouping of packages/fragview/compare.go over three snapshots of two builds.
use zfs_slab_mobility.Prelude.{
  ℕ, ◌+◌, ◌/◌, ◌≡◌, refl, true, List, [], ◌∷◌, Option, none, some, Text, Dict, codes, cut, ltb, leb,
  ◌==◌,
}
use zfs_slab_mobility.Compare.{FloatOps, Group}
use zfs_slab_mobility.Compare.Groups.{group_of, group_snapshots}
use zfs_slab_mobility.Compare.Groups.Piles.{seeds_of, named}
use zfs_slab_mobility.Compare.Groups.Kept.{Drawn, has_group, group_snapshots-keeps}

abbrev naturals : FloatOps ℕ
naturals = record {
  zero_f = 0;
  lt_f = ltb;
  le_f = leb;
  is_zero = λ n. n == 0;
  div_f = λ a b. a / b;
  half_sum = λ a b. (a + b) / 2;
}

abbrev mixed : ℕ → Dict ℕ
mixed n = (codes "mixed", n) ∷ []

-- Files are told apart by the length of the name.
abbrev read_one : Text → Option (Text × Dict ℕ)
read_one [] = none
read_one (c ∷ []) = some (codes "stock/1", mixed 900)
read_one (c ∷ d ∷ []) = some (codes "patched", mixed 200)
read_one (c ∷ d ∷ e ∷ path) = some (codes "stock/2", mixed 700)

abbrev three_paths : List Text
three_paths = codes "a" ∷ codes "ab" ∷ codes "abc" ∷ []

-- The order lists one build, and a name that no snapshot has.
abbrev some_order : List Text
some_order = codes "patched" ∷ codes "gone" ∷ []

abbrev two_groups : List (Group ℕ)
two_groups =
    group_of naturals (codes "patched") (mixed 200 ∷ [])
    ∷ group_of naturals (codes "stock") (mixed 900 ∷ mixed 700 ∷ [])
    ∷ []

group_snapshots-keeps_example :
    Drawn naturals (λ name. seeds_of read_one name three_paths) two_groups
    × ((name : Text) → named read_one name three_paths ≡ true → has_group two_groups name ≡ true)
unfolding group_snapshots cut
group_snapshots-keeps_example =
    group_snapshots-keeps naturals read_one three_paths some_order {gs = two_groups} refl
