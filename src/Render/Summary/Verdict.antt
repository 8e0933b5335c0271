-- ===== src/Render/Summary/Verdict.antt =====
-- What `summarise` of packages/fragview/render.go says of a block.
use zfs_slab_mobility.Prelude.{ℕ, ◌-◌, ◌*◌, ◌<◌, ◌≡◌, ◌↔◌, Bool, true, false, List, [], ◌∷◌, arith}
use zfs_slab_mobility.Kpage.Classes.{
  Class, free, abd, slab, pgtab, compound, uncached, kernel, reserved, unknown, classes_after_free,
  classes_from_free, Counts, sum_over,
}
use zfs_slab_mobility.Render.Summary.{pick_loop, view_of, summarise}

-- Pages of the block that the allocator cannot move.
abbrev pub pinned_pages : Bool → Counts → ℕ
pinned_pages abd_movable c = sum_over (pinning abd_movable) c
  where
    pinning : Bool → List Class
    pinning true = slab ∷ pgtab ∷ compound ∷ uncached ∷ kernel ∷ reserved ∷ unknown ∷ []
    pinning false = abd ∷ slab ∷ pgtab ∷ compound ∷ uncached ∷ kernel ∷ reserved ∷ unknown ∷ []

pub pick_loop-total :
    (abd_movable : Bool) (c : Counts)
    → (pick_loop abd_movable c classes_after_free (0, free)).0 ≡ pinned_pages abd_movable c
unfolding pick_loop sum_over
pick_loop-total true c = ground arith
pick_loop-total false c = ground arith

view_of-hostage_iff :
    (abd_movable : Bool) (c : Counts) (known used : ℕ) (s : ℕ × Class)
    → ((view_of abd_movable c known used s).hostage ≡ true) ↔ ((0 < s.0) × (used * 8 < known))
unfolding view_of
view_of-hostage_iff abd_movable c known used (total, pick) = ground arith

-- A block is a hostage exactly when it holds an immovable page and less than an eighth of its
-- known pages are in use.
pub summarise-hostage_iff :
    (abd_movable : Bool) (c : Counts)
    → ((summarise abd_movable c).hostage ≡ true) ↔ (
        (0 < pinned_pages abd_movable c)
        × ((sum_over classes_from_free c - c free) * 8 < sum_over classes_from_free c))
unfolding summarise view_of
summarise-hostage_iff abd_movable c = rw (← pick_loop-total abd_movable c) (
    view_of-hostage_iff abd_movable c (sum_over classes_from_free c)
      (sum_over classes_from_free c - c free)
      (pick_loop abd_movable c classes_after_free (0, free)))
