-- ===== src/Render/Summary.antt =====
-- packages/fragview/render.go: the verdict on one block, and on the whole map.
--
-- `occ` is the fraction used / known, kept as its two numbers: both are sums of twelve uint16, so
-- the uint64 additions do not wrap, the float64 quotient is within one part in 2 ^ 53, and the test
-- `occ < 0.125` is exactly `used * 8 < known`.
pub mod Verdict
pub mod Pick
use zfs_slab_mobility.Prelude.{
  ℕ, ◌+◌, ◌-◌, ◌*◌, Bool, true, false, not, ◌&&◌, ◌||◌, List, [], ◌∷◌, ltb, ◌==◌, if◌then◌else◌,
}
use zfs_slab_mobility.Kpage.Classes.{
  Class, absent, free, file, shmem, anon, classes_after_free, classes_from_free, immovable, Counts,
  sum_over,
}

pub record BlockView : Type 0 where
  pub valid : Bool
  pub used : ℕ
  pub known : ℕ
  pub pick : Class
  pub movable : Bool
  pub hostage : Bool

-- The zero value; the zero of `class` is `clNone`.
abbrev pub no_view : BlockView
no_view = record {
  valid = false;
  used = 0;
  known = 0;
  pick = absent;
  movable = false;
  hostage = false;
}

module _ (abd_movable : Bool) (c : Counts) where
  -- The loop over the classes above `clFree`: immovable pages so far, and the class picked.
  unfoldable pub pick_loop : List Class → ℕ × Class → ℕ × Class
  pick_loop [] s = s
  pick_loop (i ∷ is) (total, pick) = pick_loop is (
      if not (immovable abd_movable i) then (total, pick) else (
        total + c i,
        if ltb (c pick) (c i) || not (immovable abd_movable pick) then i else pick,
      ))

  -- The loop over the movable classes, for a block with no immovable page.
  unfoldable pub movable_loop : List Class → Class → Class
  movable_loop [] pick = pick
  movable_loop (m ∷ ms) pick = movable_loop ms (if ltb (c pick) (c m) then m else pick)

  abbrev pub movable_classes : List Class
  movable_classes = anon ∷ shmem ∷ file ∷ []

  -- The view of a block with these totals, once the classes are counted.
  unfoldable pub view_of : ℕ → ℕ → ℕ × Class → BlockView
  unfolding movable_loop
  view_of known used (total, pick) = if known == 0 then no_view else (record {
    valid = true;
    used = used;
    known = known;
    pick = if total == 0 then movable_loop movable_classes free else pick;
    movable = total == 0;
    hostage = ltb 0 total && ltb (used * 8) known;
  })

  unfoldable pub summarise : BlockView
  unfolding sum_over pick_loop view_of
  summarise =
      let known = sum_over classes_from_free c in
      view_of known (known - c free) (pick_loop classes_after_free (0, free))
