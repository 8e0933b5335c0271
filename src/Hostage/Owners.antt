-- ===== src/Hostage/Owners.antt =====
-- The owners that the loops of packages/fragview/hostage.go find in one block.
use zfs_slab_mobility.Prelude.{
  ◌+◌, ◌≡◌, ◌⊎◌, inl, inr, refl, ap, ◌∙◌, arith, Bool, true, false, ◌||◌, ◌&&◌, List, [], ◌∷◌, ◌==◌,
  if◌then◌else◌, Bool-cases,
}
use zfs_slab_mobility.Kpage.Classes.{
  Class, slab, abd, pgtab, compound, uncached, kernel, reserved, unknown, classes_after_free,
  Counts, same_class, sum_over,
}
use zfs_slab_mobility.Render.Summary.{summarise}
use zfs_slab_mobility.Render.Summary.Verdict.{summarise-hostage_iff}
use zfs_slab_mobility.Hostage.{raise, Found, is_owner, owners_loop, in_set, owned_by}

abbrev pub slab_only : List Class
slab_only = slab ∷ []

-- The classes after slab.
abbrev rest : List Class
rest = pgtab ∷ compound ∷ uncached ∷ kernel ∷ reserved ∷ unknown ∷ []

same_class_comm : (j k : Class) → same_class j k ≡ same_class k j
same_class_comm j k = ground arith

or_false : (a b : Bool) → (a || b) ≡ false → (a ≡ false) × (b ≡ false)
or_false a b h = ground arith

-- A hostage without pages of slab or ARC has pages of one of the classes after them.
rest_pinned :
    (abd_movable : Bool) (c : Counts)
    → (summarise abd_movable c).hostage ≡ true
    → is_owner abd_movable c abd ≡ false
    → owned_by abd_movable slab_only rest c ≡ true
    → is_owner abd_movable c slab ≡ true
unfolding owned_by sum_over
rest_pinned true c h arc tail = ground (arith, (summarise-hostage_iff true c).0 h)
rest_pinned false c h arc tail = ground (arith, (summarise-hostage_iff false c).0 h)

module _ (abd_movable : Bool) where
  owners_loop-found :
      (ks : List Class) (k : Class) (c : Counts) (o : Found)
      → is_owner abd_movable c k ≡ true
      → owners_loop abd_movable (k ∷ ks) c o
        ≡ owners_loop abd_movable ks c
            (record { pages = raise o.pages k (c k); n = o.n + 1; only = k })
  unfolding owners_loop
  owners_loop-found ks k c o h = rw h refl

  owners_loop-skip :
      (ks : List Class) (k : Class) (c : Counts) (o : Found)
      → is_owner abd_movable c k ≡ false
      → owners_loop abd_movable (k ∷ ks) c o ≡ owners_loop abd_movable ks c o
  unfolding owners_loop
  owners_loop-skip ks k c o h = rw h refl

  owned_by-found :
      (ks : List Class) (k : Class) (c : Counts)
      → is_owner abd_movable c k ≡ true
      → same_class slab k ≡ false
      → owned_by abd_movable slab_only (k ∷ ks) c ≡ false
  unfolding owned_by
  owned_by-found ks k c h e = rw (h, e) refl

  owned_by-skip :
      (ks : List Class) (k : Class) (c : Counts)
      → is_owner abd_movable c k ≡ false
      → owned_by abd_movable slab_only (k ∷ ks) c ≡ owned_by abd_movable slab_only ks c
  unfolding owned_by
  owned_by-skip ks k c h = rw h refl

  -- Over classes other than slab: either none owns pages and nothing changes, or one does, and the
  -- last one found is not slab.
  owners_apart :
      (ks : List Class) (c : Counts) (o : Found)
      → in_set abd_movable slab ks ≡ false
      → ((owned_by abd_movable slab_only ks c ≡ true) × (owners_loop abd_movable ks c o ≡ o))
        ⊎ ((owned_by abd_movable slab_only ks c ≡ false)
            × (same_class (owners_loop abd_movable ks c o).only slab ≡ false))
  unfolding owners_loop owned_by
  owners_apart [] c o h = inl (refl, refl)
  owners_apart (k ∷ ks) c o h =
      let (other, apart) = or_false (same_class k slab) (in_set abd_movable slab ks) h in
      let other' = same_class_comm slab k ∙ other in
      elim (Bool-cases (is_owner abd_movable c k)) [
        | inl found ↦
            let o' : Found = record { pages = raise o.pages k (c k); n = o.n + 1; only = k } in
            let last : same_class (owners_loop abd_movable ks c o').only slab ≡ false =
              elim (owners_apart ks c o' apart) [
                | inl (none_left, e) ↦ ap (λ (f : Found). same_class f.only slab) e ∙ other
                | inr (more, e) ↦ e
              ] in
            inr (
              owned_by-found ks k c found other',
              ap (λ (f : Found). same_class f.only slab) (owners_loop-found ks k c o found) ∙ last,
            )
        | inr skip ↦ elim (owners_apart ks c o apart) [
          | inl (none_left, e) ↦
              inl (owned_by-skip ks k c skip ∙ none_left, owners_loop-skip ks k c o skip ∙ e)
          | inr (more, e) ↦ inr (
            owned_by-skip ks k c skip ∙ more,
            ap (λ (f : Found). same_class f.only slab) (owners_loop-skip ks k c o skip) ∙ e,
          )
        ]
      ]

  -- What one class of the loop does.
  abbrev step : Class → Counts → Found → Found
  step k c o =
      if is_owner abd_movable c k
      then record { pages = raise o.pages k (c k); n = o.n + 1; only = k }
      else o

  abbrev front : List Class → List Class
  front ks = Class.file ∷ Class.shmem ∷ Class.anon ∷ abd ∷ slab ∷ ks

  owners_loop-front :
      (ks : List Class) (c : Counts) (o : Found)
      → owners_loop abd_movable (front ks) c o
        ≡ owners_loop abd_movable ks c (step slab c (step abd c o))
  unfolding owners_loop
  owners_loop-front ks c o = refl

  owned_by-front :
      (ks : List Class) (c : Counts)
      → owned_by abd_movable slab_only (front ks) c
        ≡ (if is_owner abd_movable c abd then false else owned_by abd_movable slab_only ks c)
  unfolding owned_by
  owned_by-front ks c = ground arith

  steps_arc :
      (c : Counts) (o : Found)
      → is_owner abd_movable c abd ≡ true
      → o.n ≡ 0
      → let f = step slab c (step abd c o) in ((f.n == 1) && same_class f.only slab) ≡ false
  steps_arc c o found none_yet = elim (Bool-cases (is_owner abd_movable c slab)) [
    | inl more ↦ rw (found, more, none_yet) refl
    | inr skip ↦ rw (found, skip, none_yet) refl
  ]

  steps_slab :
      (c : Counts) (o : Found)
      → is_owner abd_movable c abd ≡ false
      → is_owner abd_movable c slab ≡ true
      → o.n ≡ 0
      → let f = step slab c (step abd c o) in (f.n ≡ 1) × (f.only ≡ slab)
  steps_slab c o skip found none_yet = rw (skip, found, none_yet) (refl, refl)

  and_false : (a b : Bool) → b ≡ false → (a && b) ≡ false
  and_false a b h = ground arith

  -- Which of a hostage's owners the loop ends with.
  pub hostage_owners :
      (c : Counts) (o : Found)
      → (summarise abd_movable c).hostage ≡ true
      → o.n ≡ 0
      → let f = owners_loop abd_movable classes_after_free c o in
        let owned = owned_by abd_movable slab_only classes_after_free c in
        ((owned ≡ true) × (f.n ≡ 1) × (f.only ≡ slab))
        ⊎ ((owned ≡ false) × ((f.n == 1) && same_class f.only slab) ≡ false)
  hostage_owners c o h none_yet =
      let f = owners_loop abd_movable rest c (step slab c (step abd c o)) in
      rw (owners_loop-front rest c o, owned_by-front rest c)
        (elim (owners_apart rest c (step slab c (step abd c o)) refl) [
          | inr (more, apart) ↦ elim (Bool-cases (is_owner abd_movable c abd)) [
            | inl arc ↦ inr (rw arc refl, and_false (f.n == 1) (same_class f.only slab) apart)
            | inr skip ↦ inr (rw skip more, and_false (f.n == 1) (same_class f.only slab) apart)
          ]
          | inl (tail, e) ↦ rw e (elim (Bool-cases (is_owner abd_movable c abd)) [
            | inl arc ↦ inr (rw arc refl, steps_arc c o arc none_yet)
            | inr skip ↦
                let (one, only) =
                  steps_slab c o skip (rest_pinned abd_movable c h skip tail) none_yet in
                inl (rw skip tail, one, only)
          ])
        ])
