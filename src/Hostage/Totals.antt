-- ===== src/Hostage/Totals.antt =====
-- The summary of the whole map, packages/fragview/render.go.
use zfs_slab_mobility.Prelude.{
  ℕ, ◌+◌, ◌≡◌, ◌∙◌, refl, arith, Bool, ◌||◌, Option, some, List, [], ◌∷◌, ltb, ◌==◌, if◌then◌else◌,
  length, replicate, map, length-replicate, Bool-cases, inl, inr,
}
use zfs_slab_mobility.Kpage.Classes.{free, Counts}
use zfs_slab_mobility.Render.Summary.{BlockView, no_view, summarise}
use zfs_slab_mobility.Hostage.{MapView, views_loop, summarise_map}

module _ (abd_movable : Bool) where
  -- The blocks of the map that are hostages.
  abbrev pub hostage_blocks : List Counts → List Counts
  hostage_blocks [] = []
  hostage_blocks (c ∷ cs) =
      let rest = hostage_blocks cs in if (summarise abd_movable c).hostage then c ∷ rest else rest

  abbrev pub free_pages : List Counts → ℕ
  free_pages [] = 0
  free_pages (c ∷ cs) = c free + free_pages cs

  views_eq :
      {vs vs' : List BlockView} {n n' sum sum' : ℕ}
      → vs ≡ vs'
      → n ≡ n'
      → sum ≡ sum'
      → ◌≡◌ {A = Option (List BlockView × ℕ × ℕ)} (some (vs, n, sum)) (some (vs', n', sum'))
  views_eq e1 e2 e3 = rw (e1, e2, e3) refl

  views_loop_lem :
      (cs : List Counts) (old : List BlockView) (n sum : ℕ)
      → length old ≡ length cs
      → views_loop abd_movable cs old (n, sum)
        ≡ some (
          map (summarise abd_movable) cs,
          n + length (hostage_blocks cs),
          sum + free_pages (hostage_blocks cs),
        )
  unfolding views_loop
  views_loop_lem [] [] n sum e = views_eq refl (omega arith) (omega arith)
  views_loop_lem [] (o ∷ old) n sum e = absurd (omega arith)
  views_loop_lem (c ∷ cs) [] n sum e = absurd (omega arith)
  views_loop_lem (c ∷ cs) (o ∷ old) n sum e = elim (Bool-cases (summarise abd_movable c).hostage) [
    | inl held ↦
        rw (held, views_loop_lem cs old (n + 1) (sum + c free) (omega arith))
          (views_eq refl (omega arith) (omega arith))
    | inr loose ↦ rw (loose, views_loop_lem cs old n sum (omega arith)) refl
  ]

  fresh_length :
      (nblocks : ℕ) (counts : List Counts) (views : List BlockView)
      → length counts ≡ nblocks
      → length (if length views == nblocks then views else replicate nblocks no_view)
        ≡ length counts
  fresh_length nblocks counts views e =
      ground (arith, length-replicate {A = BlockView} nblocks no_view)

  -- The summary of a map with counters for each block has the view of every block, the number of
  -- its hostages and the free pages in them, whatever was summarised before.
  pub summarise_map-exact :
      (nblocks : ℕ) (counts : List Counts) (f : MapView)
      → length counts ≡ nblocks
      → (g : MapView) × (summarise_map abd_movable nblocks counts f ≡ some g)
        × (g.views ≡ map (summarise abd_movable) counts)
        × (g.hostages ≡ length (hostage_blocks counts))
        × (g.hostage_free ≡ free_pages (hostage_blocks counts))
  unfolding summarise_map
  summarise_map-exact nblocks counts f e =
      let fresh = if length f.views == nblocks then f.views else replicate nblocks no_view in
      let run =
        views_loop_lem counts fresh 0 0 (fresh_length nblocks counts f.views e)
        ∙ views_eq refl (omega arith) (omega arith) in
      (
        record {
          views = map (summarise abd_movable) counts;
          hostages = length (hostage_blocks counts);
          hostage_free = free_pages (hostage_blocks counts);
          view_to = if f.view_to == 0 || ltb nblocks f.view_to then nblocks else f.view_to;
        },
        rw (summarise_map, run) refl,
        refl,
        refl,
        refl,
      )
