-- ===== src/Render/Summary/Pick.antt =====
-- Which class `summarise` of packages/fragview/render.go picks to stand for a block.
use zfs_slab_mobility.Prelude.{
  ℕ, ◌+◌, ◌-◌, ◌≤◌, ◌<◌, ◌≡◌, refl, Bool, true, false, ◌||◌, List, [], ◌∷◌, arith,
}
use zfs_slab_mobility.Kpage.Classes.{
  Class, absent, free, classes_after_free, classes_from_free, immovable, Counts, sum_over,
}
use zfs_slab_mobility.Render.Summary.{pick_loop, view_of, summarise}
use zfs_slab_mobility.Render.Summary.Verdict.{pinned_pages, pick_loop-total}

module _ (abd_movable : Bool) (c : Counts) where
  -- `k` is immovable and has at least the pages of every immovable class of the list.
  abbrev Leads : List Class → Class → Type 0
  Leads [] k = Unit {0}
  Leads (i ∷ is) k = (immovable abd_movable i ≡ true → c i ≤ c k) × Leads is k

  -- From an immovable pick on, the loop keeps the leader.
  pick_loop-Leads :
      (is : List Class) (total : ℕ) (pick : Class)
      → immovable abd_movable pick ≡ true
      → let best = (pick_loop abd_movable c is (total, pick)).1 in
        (immovable abd_movable best ≡ true) × (c pick ≤ c best) × Leads is best
  unfolding pick_loop
  pick_loop-Leads [] total pick h = (h, omega arith, tt)
  pick_loop-Leads (i ∷ is) total pick h = ground (
    arith,
    pick_loop-Leads is (total + c i) i,
    pick_loop-Leads is (total + c i) pick,
    pick_loop-Leads is total pick,
  )

  abbrev any_immovable : List Class → Bool
  any_immovable [] = false
  any_immovable (i ∷ is) = immovable abd_movable i || any_immovable is

  -- From a movable pick on, the first immovable class takes over.
  pick_loop-Leads_start :
      (is : List Class) (total : ℕ) (pick : Class)
      → immovable abd_movable pick ≡ false
      → any_immovable is ≡ true
      → let best = (pick_loop abd_movable c is (total, pick)).1 in
        (immovable abd_movable best ≡ true) × Leads is best
  unfolding pick_loop
  pick_loop-Leads_start [] total pick h some = cc
  pick_loop-Leads_start (i ∷ is) total pick h some =
      ground (arith, pick_loop-Leads is (total + c i) i, pick_loop-Leads_start is total pick)

  Leads-all :
      (k : Class)
      → Leads classes_after_free k
      → (i : Class) → immovable abd_movable i ≡ true
      → c i ≤ c k
  Leads-all k h absent imm = cc
  Leads-all k h free imm = cc
  Leads-all k h i imm = ground arith

some_immovable :
    (abd_movable : Bool) (c : Counts) → any_immovable abd_movable c classes_after_free ≡ true
some_immovable true c = refl
some_immovable false c = refl

view_of-pick_pinned :
    (abd_movable : Bool) (c : Counts) (known used : ℕ) (s : ℕ × Class)
    → 0 < known
    → 0 < s.0
    → (view_of abd_movable c known used s).pick ≡ s.1
unfolding view_of
view_of-pick_pinned abd_movable c known used (total, pick) h t = ground arith

pinned_pages-le :
    (abd_movable : Bool) (c : Counts) → pinned_pages abd_movable c ≤ sum_over classes_from_free c
unfolding sum_over
pinned_pages-le true c = omega arith
pinned_pages-le false c = omega arith

-- The class picked for a pinned block is immovable and no other immovable class has more pages.
pub summarise-pick_immovable :
    (abd_movable : Bool) (c : Counts)
    → 0 < pinned_pages abd_movable c
    → let pick = (summarise abd_movable c).pick in
      (immovable abd_movable pick ≡ true)
      × ((k : Class) → immovable abd_movable k ≡ true → c k ≤ c pick)
unfolding summarise
summarise-pick_immovable abd_movable c h =
    let known = sum_over classes_from_free c in
    let s = pick_loop abd_movable c classes_after_free (0, free) in
    let e = pick_loop-total abd_movable c in
    let (imm, leads) =
      pick_loop-Leads_start abd_movable c classes_after_free 0 free refl
        (some_immovable abd_movable c) in
    rw
      (view_of-pick_pinned abd_movable c known (known - c free) s
        (omega (arith, pinned_pages-le abd_movable c)) (omega (arith, e)))
      (imm, Leads-all abd_movable c s.1 leads)
