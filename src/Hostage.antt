-- ===== src/Hostage.antt =====
-- packages/fragview/hostage.go and `frame.summarise` of packages/fragview/render.go: the whole map,
-- and what pins the blocks that cannot be handed out.
--
-- Left out: the printing, with the sort of its rows, and the tables by cache and by site. Counts of
-- blocks are an `int`, unbounded here; sums of pages are a uint64, which 2 ^ 48 blocks cannot wrap.
pub mod Totals
mod Owners
pub mod Sole
use zfs_slab_mobility.Prelude.{
  ℕ, suc, ◌+◌, Bool, true, false, not, ◌||◌, Option, none, some, List, [], ◌∷◌, ltb, ◌==◌,
  if◌then◌else◌, length, replicate, ◌&&◌,
}
use zfs_slab_mobility.Kpage.Classes.{
  Class, absent, free, slab, abd, kernel, classes_after_free, immovable, Counts, no_pages,
  same_class,
}
use zfs_slab_mobility.Render.Summary.{BlockView, no_view, summarise}

-- The summary fields of `frame`.
pub record MapView : Type 0 where
  pub views : List BlockView
  pub hostages : ℕ
  pub hostage_free : ℕ
  pub view_to : ℕ

module _ (abd_movable : Bool) where
  -- The loop over the counters: it overwrites the views from the first on. `none` is the panic of
  -- more counters than views.
  unfoldable pub views_loop : List Counts → List BlockView → ℕ × ℕ → Option (List BlockView × ℕ × ℕ)
  unfolding summarise
  views_loop [] old (n, sum) = some (old, n, sum)
  views_loop (c ∷ cs) [] totals = none
  views_loop (c ∷ cs) (o ∷ old) (n, sum) =
      let v = summarise abd_movable c in
      let totals = if v.hostage then (n + 1, sum + c free) else (n, sum) in
      elim (views_loop cs old totals) [
        | none ↦ none
        | some (vs, n', sum') ↦ some (v ∷ vs, n', sum')
      ]

  -- `frame.summarise`, of a map of `nblocks` blocks with these counters.
  unfoldable pub summarise_map : ℕ → List Counts → MapView → Option MapView
  unfolding views_loop
  summarise_map nblocks counts f =
      let views = if length f.views == nblocks then f.views else replicate nblocks no_view in
      let view_to = if f.view_to == 0 || ltb nblocks f.view_to then nblocks else f.view_to in
      elim (views_loop counts views (0, 0)) [
        | none ↦ none
        | some (vs, n, sum) ↦
            some (record { views = vs; hostages = n; hostage_free = sum; view_to = view_to })
      ]

-- An array indexed by class, one entry raised.
abbrev pub raise : (Class → ℕ) → Class → ℕ → Class → ℕ
raise a k by j = if same_class k j then a j + by else a j

-- What `hostageReport` counts.
pub record Report : Type 0 where
  pub by_class : Class → ℕ
  pub sole_class : Class → ℕ
  pub free_in : ℕ
  pub blocks : ℕ
  pub mixed : ℕ
  pub kinds : ℕ → ℕ

abbrev pub empty_report : Report
empty_report = record {
  by_class = no_pages;
  sole_class = no_pages;
  free_in = 0;
  blocks = 0;
  mixed = 0;
  kinds = λ n. 0;
}

-- The locals of one block: the pages by class so far, the owners seen, and the last of them.
pub record Found : Type 0 where
  pub pages : Class → ℕ
  pub n : ℕ
  pub only : Class

module _ (abd_movable : Bool) where
  -- An immovable class with pages in the block: one that the loops do not `continue` past.
  abbrev pub is_owner : Counts → Class → Bool
  is_owner c k = not (not (immovable abd_movable k) || c k == 0)

  unfoldable pub owners_loop : List Class → Counts → Found → Found
  owners_loop [] c o = o
  owners_loop (k ∷ ks) c o =
      owners_loop ks c (
        if is_owner c k then record { pages = raise o.pages k (c k); n = o.n + 1; only = k } else o)

  unfoldable pub report_block : Counts → Report → Report
  unfolding owners_loop
  report_block c r =
      let o =
        owners_loop classes_after_free c (record { pages = r.by_class; n = 0; only = absent }) in
      record {
        by_class = o.pages;
        sole_class = if o.n == 1 then raise r.sole_class o.only 1 else r.sole_class;
        free_in = r.free_in + c free;
        blocks = r.blocks + 1;
        mixed = if o.n == 1 then r.mixed else if ltb 1 o.n then r.mixed + 1 else r.mixed;
        kinds = λ j. if o.n == j then r.kinds j + 1 else r.kinds j;
      }

  -- The loop over the blocks, each with its view; `none` is the panic of too few views.
  unfoldable pub report_loop : List Counts → List BlockView → Report → Option Report
  unfolding report_block
  report_loop [] views r = some r
  report_loop (c ∷ cs) [] r = none
  report_loop (c ∷ cs) (v ∷ views) r =
      report_loop cs views (if v.hostage then report_block c r else r)

  abbrev pub in_set : Class → List Class → Bool
  in_set k [] = false
  in_set k (s ∷ set) = same_class s k || in_set k set

  -- Every owner of the block is in the set.
  unfoldable pub owned_by : List Class → List Class → Counts → Bool
  owned_by set [] c = true
  owned_by set (k ∷ ks) c = if is_owner c k && not (in_set k set) then false else owned_by set ks c

  -- The ceiling of one owner set: the blocks that moving its classes would free, and their free
  -- pages.
  unfoldable pub ceiling_loop : List Class → List Counts → List BlockView → ℕ × ℕ → Option (ℕ × ℕ)
  unfolding owned_by
  ceiling_loop set [] views t = some t
  ceiling_loop set (c ∷ cs) [] t = none
  ceiling_loop set (c ∷ cs) (v ∷ views) (n, freed) = ceiling_loop set cs views (
      if v.hostage && owned_by set classes_after_free c
      then (n + 1, freed + c free)
      else (n, freed))

  abbrev owner_sets : List (List Class)
  owner_sets = (slab ∷ []) ∷ (abd ∷ []) ∷ (slab ∷ abd ∷ []) ∷ (slab ∷ abd ∷ kernel ∷ []) ∷ []
