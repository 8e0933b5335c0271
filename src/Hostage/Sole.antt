-- ===== src/Hostage/Sole.antt =====
-- The two ways packages/fragview/hostage.go counts the blocks that slab alone pins.
use zfs_slab_mobility.Prelude.{
  ℕ, ◌+◌, ◌≡◌, inl, inr, refl, ap, sym, ◌∙◌, arith, Bool, true, ◌&&◌, some, List, [], ◌∷◌, ◌==◌,
  if◌then◌else◌, Bool-cases, map,
}
use zfs_slab_mobility.Kpage.Classes.{absent, free, slab, classes_after_free, Counts, same_class}
use zfs_slab_mobility.Render.Summary.{summarise}
use zfs_slab_mobility.Hostage.{
  raise, Report, empty_report, Found, owners_loop, report_block, report_loop, owned_by,
  ceiling_loop,
}
use zfs_slab_mobility.Hostage.Owners.{slab_only, hostage_owners}

module _ (abd_movable : Bool) where
  same_verdict :
      (c : Counts) (o : Found)
      → (summarise abd_movable c).hostage ≡ true
      → o.n ≡ 0
      → let f = owners_loop abd_movable classes_after_free c o in
        ((f.n == 1) && same_class f.only slab) ≡ owned_by abd_movable slab_only classes_after_free c
  same_verdict c o h none_yet = elim (hostage_owners abd_movable c o h none_yet) [
    | inl (owned, one, only) ↦ rw (owned, one, only) refl
    | inr (owned, other) ↦ other ∙ sym owned
  ]

  -- What the report adds for slab alone, by the owners found.
  sole_of :
      (r : Report) (f : Found)
      → (if f.n == 1 then raise r.sole_class f.only 1 else r.sole_class) slab ≡ (
          if (f.n == 1) && same_class f.only slab then r.sole_class slab + 1 else r.sole_class slab)
  sole_of r f = ground arith

  -- The block adds one to the blocks of slab alone exactly if all its owners are slab.
  report_block-sole :
      (c : Counts) (r : Report)
      → (summarise abd_movable c).hostage ≡ true
      → (report_block abd_movable c r).sole_class slab ≡ (
          if owned_by abd_movable slab_only classes_after_free c
          then r.sole_class slab + 1
          else r.sole_class slab)
  unfolding report_block
  report_block-sole c r h =
      let o : Found = record { pages = r.by_class; n = 0; only = absent } in
      let f = owners_loop abd_movable classes_after_free c o in
      sole_of r f
      ∙ ap (λ (b : Bool). if b then r.sole_class slab + 1 else r.sole_class slab)
          (same_verdict c o h refl)

  -- The two loops over the same blocks and views.
  loops_agree :
      (cs : List Counts) (r : Report) (n freed : ℕ)
      → r.sole_class slab ≡ n
      → let views = map (summarise abd_movable) cs in
        (r' : Report) × (t : ℕ × ℕ) × (report_loop abd_movable cs views r ≡ some r')
        × (ceiling_loop abd_movable slab_only cs views (n, freed) ≡ some t)
        × (r'.sole_class slab ≡ t.0)
  unfolding report_loop ceiling_loop
  loops_agree [] r n freed e = (r, (n, freed), refl, refl, e)
  loops_agree (c ∷ cs) r n freed e = elim (Bool-cases (summarise abd_movable c).hostage) [
    | inr loose ↦ rw loose (loops_agree cs r n freed e)
    | inl held ↦
        let more = report_block-sole c r held in
        elim (Bool-cases (owned_by abd_movable slab_only classes_after_free c)) [
          | inl owned ↦
              rw (held, owned)
                (loops_agree cs (report_block abd_movable c r) (n + 1) (freed + c free)
                  ((more ∙ rw owned refl) ∙ ap (λ (k : ℕ). k + 1) e))
          | inr other ↦
              rw (held, other)
                (loops_agree cs (report_block abd_movable c r) n freed ((more ∙ rw other refl) ∙ e))
        ]
  ]

-- For every map, the report and its ceiling for the owner set of slab both come to an end, and the
-- blocks in which slab is alone, counted by the report, are the blocks that moving slab would free,
-- counted by the ceiling.
pub report_loop-ceiling :
    (abd_movable : Bool) (counts : List Counts)
    → let views = map (summarise abd_movable) counts in
      (r : Report) × (t : ℕ × ℕ) × (report_loop abd_movable counts views empty_report ≡ some r)
      × (ceiling_loop abd_movable (slab ∷ []) counts views (0, 0) ≡ some t)
      × (r.sole_class slab ≡ t.0)
report_loop-ceiling abd_movable counts = loops_agree abd_movable counts empty_report 0 0 refl
