-- ===== src/Compare/Groups/Kept.antt =====
-- Grouping the snapshots of packages/fragview/compare.go loses none and mixes none up.
use zfs_slab_mobility.Prelude.{
  ◌≡◌, inl, inr, refl, sym, ap, ◌∙◌, subst, Bool, true, false, List, [], ◌∷◌, ◌++◌, Option, some,
  arith, Text, same_text, eq_of-same_text, Dict, lookup, value_or, length, ◌==◌, ◌||◌,
  if◌then◌else◌, Bool-cases, Option-cases, some_injective, nothing_there,
}
use zfs_slab_mobility.Merge.{contains}
use zfs_slab_mobility.Compare.{FloatOps, Group}
use zfs_slab_mobility.Compare.Groups.{group_loop, group_of, in_order, others, group_snapshots}
use zfs_slab_mobility.Compare.Groups.Piles.{
  clash, or_true, seeds_of, named, has, group_loop-pile, group_loop-Known,
}

abbrev pub has_group : {F : Type 0} → List (Group F) → Text → Bool
has_group [] name = false
has_group (g ∷ gs) name = same_text g.label name || has_group gs name

has_group-append :
    {F : Type 0} (gs hs : List (Group F)) (name : Text)
    → has_group (gs ++ hs) name ≡ (has_group gs name || has_group hs name)
has_group-append [] hs name = refl
has_group-append (g ∷ gs) hs name = ground (arith, has_group-append gs hs name)

module _ {F : Type 0} (ops : FloatOps F) where
  -- Each group is the one of its label, of the seeds of that label.
  abbrev pub Drawn : (Text → List (Dict F)) → List (Group F) → Type 0
  Drawn seeds [] = Unit {0}
  Drawn seeds (g ∷ gs) = (g ≡ group_of ops g.label (seeds g.label)) × Drawn seeds gs

  Drawn-append :
      (seeds : Text → List (Dict F)) (gs hs : List (Group F))
      → Drawn seeds gs
      → Drawn seeds hs
      → Drawn seeds (gs ++ hs)
  Drawn-append seeds [] hs a b = b
  Drawn-append seeds (g ∷ gs) hs (e, a) b = (e, Drawn-append seeds gs hs a b)

  module _ (seeds : Text → List (Dict F)) (by_name : Dict (List (Dict F)))
      (all : (m : Text) → value_or [] (lookup m by_name) ≡ seeds m) where
    in_order-Drawn : (order : List Text) → Drawn seeds (in_order ops by_name order)
    unfolding in_order
    in_order-Drawn [] = tt
    in_order-Drawn (name ∷ order) = elim (Option-cases (lookup name by_name)) [
      | inl missing ↦ rw (missing, Drawn) (in_order-Drawn order)
      | inr (ss, there) ↦
          let e : ss ≡ seeds name = rw there at (all name) in
          rw (there, Drawn) (ap (group_of ops name) e, in_order-Drawn order)
    ]

    others-Drawn : (order seen : List Text) → Drawn seeds (others ops by_name order seen)
    unfolding others
    others-Drawn order [] = tt
    others-Drawn order (name ∷ seen) = elim (Bool-cases (contains order name)) [
      | inl listed ↦ rw listed (others-Drawn order seen)
      | inr not_listed ↦ rw not_listed (ap (group_of ops name) (all name), others-Drawn order seen)
    ]

  module _ (by_name : Dict (List (Dict F))) (name : Text) where
    in_order-has_group :
        (order : List Text) (ss : List (Dict F))
        → contains order name ≡ true
        → lookup name by_name ≡ some ss
        → has_group (in_order ops by_name order) name ≡ true
    unfolding in_order contains
    in_order-has_group [] ss h k = cc
    in_order-has_group (x ∷ order) ss h k = elim (Bool-cases (same_text x name)) [
      | inl same ↦
          let there =
            subst (λ y. lookup y by_name ≡ some ss) (sym (eq_of-same_text x name same)) k in
          rw (there, has_group, same) refl
      | inr other ↦
          let rest = in_order-has_group order ss (rw other at h) k in
          elim (Option-cases (lookup x by_name)) [
            | inl missing ↦ rw (missing, has_group) rest
            | inr (ss', there) ↦ rw (there, has_group, other) rest
          ]
    ]

    others-has_group :
        (order seen : List Text)
        → contains order name ≡ false
        → contains seen name ≡ true
        → has_group (others ops by_name order seen) name ≡ true
    unfolding others contains
    others-has_group order [] h k = cc
    others-has_group order (x ∷ seen) h k = elim (Bool-cases (same_text x name)) [
      | inl same ↦
          let not_listed : contains order x ≡ false =
            subst (λ y. contains order y ≡ false) (sym (eq_of-same_text x name same)) h in
          rw (not_listed, same) refl
      | inr other ↦
          let rest = others-has_group order seen h (rw other at k) in
          elim (Bool-cases (contains order x)) [
            | inl listed ↦ rw listed rest
            | inr not_listed ↦ rw (not_listed, other) rest
          ]
    ]

has-lookup :
    {F : Type 0} (read : Text → Option (Text × Dict F)) (m : Text) (d : Dict (List (Dict F)))
    → has read m d ≡ true
    → (ss : List (Dict F)) × (lookup m d ≡ some ss)
has-lookup read m d h = elim (Option-cases (lookup m d)) [
  | inl missing ↦ absurd (clash (sym (rw (has, missing) at h)))
  | inr there ↦ there
]

-- A name that has been seen is listed, whatever the order.
has_group-listed :
    {F : Type 0} (ops : FloatOps F) (by_name : Dict (List (Dict F))) (order seen : List Text)
    (name : Text) (ss : List (Dict F))
    → contains seen name ≡ true
    → lookup name by_name ≡ some ss
    → has_group (in_order ops by_name order ++ others ops by_name order seen) name ≡ true
has_group-listed ops by_name order seen name ss known there =
    rw (has_group-append (in_order ops by_name order) (others ops by_name order seen) name)
      (elim (Bool-cases (contains order name)) [
        | inl listed ↦ rw (in_order-has_group ops by_name name order ss listed there) refl
        | inr other ↦
            rw (others-has_group ops by_name name order seen other known)
              (or_true (has_group (in_order ops by_name order) name))
      ])

-- If the snapshots are grouped, each group has the seeds of all snapshots of its label, in the order
-- of the paths, and no others, with their medians, and the label of each snapshot has a group,
-- whether `order` lists it or not.
pub group_snapshots-keeps :
    {F : Type 0} (ops : FloatOps F) (read : Text → Option (Text × Dict F)) (paths order : List Text)
    {gs : List (Group F)}
    → group_snapshots ops read paths order ≡ some gs
    → Drawn ops (λ name. seeds_of read name paths) gs
      × ((name : Text) → named read name paths ≡ true → has_group gs name ≡ true)
unfolding group_snapshots
group_snapshots-keeps ops read paths order h =
    elim (Option-cases (group_loop read paths ([], []))) [
      | inl unread ↦ absurd (nothing_there (rw unread at h))
      | inr (r, done) ↦
          let order' = if length order == 0 then r.1 else order in
          let e = some_injective (rw done at h) in
          let (known, seen) = group_loop-Known read paths ([], []) r done (λ m no. cc) in
          let all : (m : Text) → value_or [] (lookup m r.0) ≡ seeds_of read m paths =
            λ m. group_loop-pile read m paths ([], []) r done in
          rw (sym e) (
            Drawn-append ops (λ name. seeds_of read name paths) (in_order ops r.0 order')
                (others ops r.0 order' r.1)
                (in_order-Drawn ops (λ name. seeds_of read name paths) r.0 all order')
                (others-Drawn ops (λ name. seeds_of read name paths) r.0 all order' r.1),
            λ name bears.
                let held : has read name r.0 ≡ true = known name ∙ rw bears refl in
                let (ss, there) = has-lookup read name r.0 held in
                has_group-listed ops r.0 order' r.1 name ss (seen name held) there,
          )
    ]
