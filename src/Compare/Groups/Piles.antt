-- ===== src/Compare/Groups/Piles.antt =====
-- What the loop of `groupSnapshots` of packages/fragview/compare.go keeps under each name.
use zfs_slab_mobility.Prelude.{
  ◌≡◌, ◌≢◌, inl, inr, refl, sym, ap, ◌∙◌, subst, Bool, true, false, List, [], ◌∷◌, ◌++◌, Option,
  none, some, arith, Text, same_text, same_text_refl, eq_of-same_text, Dict, lookup, put, value_or,
  ◌||◌, if◌then◌else◌, Bool-cases, Option-cases, some_injective, nothing_there,
}
use mathlib.Core.List.{append-nil, append_assoc}
use zfs_slab_mobility.Merge.{contains}
use zfs_slab_mobility.Compare.Groups.{name_of, Piles, add_seed, group_loop}

pub clash : true ≢ false
clash h = cc

unequal : (j k : Text) → j ≡ k → same_text j k ≡ false → ⊥
unequal j k e h = clash (sym (same_text_refl k) ∙ rw e at h)

append_if :
    {A : Type 0} (b : Bool) (x : A) (xs ys : List A)
    → (xs ++ (if b then x ∷ [] else [])) ++ ys ≡ xs ++ (if b then x ∷ ys else ys)
append_if true x xs ys = append_assoc xs (x ∷ []) ys
append_if false x xs ys = ap (λ zs. zs ++ ys) (append-nil xs)

pub or_true : (b : Bool) → (b || true) ≡ true
or_true b = ground arith

or_swap : (a b c : Bool) → (a || (b || c)) ≡ ((b || a) || c)
or_swap a b c = ground arith

either_seen : (s h c : Bool) → (s || h) ≡ true → (h ≡ true → c ≡ true) → (c || s) ≡ true
either_seen true h c e k = ground arith
either_seen false h c e k = rw (k e) refl

contains-append :
    (xs : List Text) (x m : Text) → contains (xs ++ x ∷ []) m ≡ (contains xs m || same_text x m)
unfolding contains
contains-append [] x m = ground arith
contains-append (y ∷ xs) x m = ground (arith, contains-append xs x m)

module _ {A : Type 0} where
  lookup-put :
      (m k : Text) (v : A) (d : Dict A)
      → lookup m (put k v d) ≡ (if same_text k m then some v else lookup m d)
  lookup-put m k v [] = refl
  lookup-put m k v ((j, w) ∷ d) = elim (Bool-cases (same_text j k)) [
    | inl same ↦
        let e = eq_of-same_text j k same in
        rw same (rw (sym e) (twice (same_text j m) (some v) (some w) (lookup m d)))
    | inr other ↦ rw other (rw (lookup-put m k v d) (swap_tests j k m w v d other))
  ]
    where
      twice :
          (b : Bool) (x y z : Option A)
          → (if b then x else z) ≡ (if b then x else if b then y else z)
      twice true x y z = refl
      twice false x y z = refl

      swap_tests :
          (j k m : Text) (w v : A) (d : Dict A)
          → same_text j k ≡ false
          → (if same_text j m then some w else if same_text k m then some v else lookup m d)
            ≡ (if same_text k m then some v else if same_text j m then some w else lookup m d)
      swap_tests j k m w v d other = elim (Bool-cases (same_text j m)) [
        | inr no_j ↦ rw no_j refl
        | inl yes_j ↦ elim (Bool-cases (same_text k m)) [
          | inr no_k ↦ rw (yes_j, no_k) refl
          | inl yes_k ↦
              let e = eq_of-same_text j m yes_j ∙ sym (eq_of-same_text k m yes_k) in
              absurd (unequal j k e other)
        ]
      ]

module _ {F : Type 0} (read : Text → Option (Text × Dict F)) where
  -- The seeds of the snapshots that bear a name, in the order of the paths.
  unfoldable pub seeds_of : Text → List Text → List (Dict F)
  seeds_of name [] = []
  seeds_of name (p ∷ ps) =
      let rest = seeds_of name ps in
      elim (read p) [
        | none ↦ rest
        | some (label, seed) ↦ if same_text (name_of label) name then seed ∷ rest else rest
      ]

  abbrev pub pile : Text → Piles read → List (Dict F)
  pile m piles = value_or [] (lookup m piles.0)

  add_seed-pile :
      (m name : Text) (seed : Dict F) (piles : Piles read)
      → pile m (add_seed read name seed piles)
        ≡ pile m piles ++ (if same_text name m then seed ∷ [] else [])
  add_seed-pile m name seed piles = elim (Option-cases (lookup name piles.0)) [
    | inl fresh ↦
        rw (fresh, add_seed, lookup-put m name (seed ∷ []) piles.0)
          (elim (Bool-cases (same_text name m)) [
            | inr other ↦ rw other (sym (append-nil (pile m piles)))
            | inl same ↦
                let none_yet : lookup m piles.0 ≡ none =
                  subst (λ k. lookup k piles.0 ≡ none) (eq_of-same_text name m same) fresh in
                rw (same, none_yet) refl
          ])
    | inr (seeds, old) ↦
        rw (old, add_seed, lookup-put m name (seeds ++ seed ∷ []) piles.0)
          (elim (Bool-cases (same_text name m)) [
            | inr other ↦ rw other (sym (append-nil (pile m piles)))
            | inl same ↦
                let some_yet : lookup m piles.0 ≡ some seeds =
                  subst (λ k. lookup k piles.0 ≡ some seeds) (eq_of-same_text name m same) old in
                rw (same, some_yet) refl
          ])
  ]

  pub group_loop-pile :
      (m : Text) (ps : List Text) (piles r : Piles read)
      → group_loop read ps piles ≡ some r
      → pile m r ≡ pile m piles ++ seeds_of m ps
  unfolding group_loop seeds_of
  group_loop-pile m [] piles r h =
      let e : piles ≡ r = some_injective h in rw (sym e) (sym (append-nil (pile m piles)))
  group_loop-pile m (p ∷ ps) piles r h = elim (Option-cases (read p)) [
    | inl unread ↦ absurd (nothing_there (rw (unread, group_loop) at h))
    | inr (entry, readable) ↦
        let name = name_of entry.0 in
        let rest =
          group_loop-pile m ps (add_seed read name entry.1 piles) r
            (rw (readable, group_loop) at h) in
        rw (readable, seeds_of)
          (rest
            ∙ rw (add_seed-pile m name entry.1 piles)
                (append_if (same_text name m) entry.1 (pile m piles) (seeds_of m ps)))
  ]

  -- A snapshot that can be read bears the name.
  unfoldable pub named : Text → List Text → Bool
  named name [] = false
  named name (p ∷ ps) =
      let rest = named name ps in
      elim (read p) [ none ↦ rest | some (label, seed) ↦ same_text (name_of label) name || rest ]

  abbrev pub has : Text → Dict (List (Dict F)) → Bool
  has m d = elim (lookup m d) [ none ↦ false | some seeds ↦ true ]

  has-put :
      (m k : Text) (v : List (Dict F)) (d : Dict (List (Dict F)))
      → has m (put k v d) ≡ (same_text k m || has m d)
  has-put m k v d = rw (has, lookup-put m k v d) (either (same_text k m) (lookup m d) v)
    where
      either :
          (b : Bool) (o : Option (List (Dict F))) (v : List (Dict F))
          → (elim (if b then some v else o) as (λ _. Bool) [ none ↦ false | some seeds ↦ true ])
            ≡ (b || (elim o as (λ _. Bool) [ none ↦ false | some seeds ↦ true ]))
      either true o v = refl
      either false o v = refl

  add_seed-has :
      (m name : Text) (seed : Dict F) (piles : Piles read)
      → has m (add_seed read name seed piles).0 ≡ (same_text name m || has m piles.0)
  add_seed-has m name seed piles = elim (Option-cases (lookup name piles.0)) [
    | inl fresh ↦ rw (fresh, add_seed) (has-put m name (seed ∷ []) piles.0)
    | inr (seeds, old) ↦ rw (old, add_seed) (has-put m name (seeds ++ seed ∷ []) piles.0)
  ]

  -- Every name of a group has been seen.
  abbrev pub Known : Piles read → Type 0
  Known piles = (m : Text) → has m piles.0 ≡ true → contains piles.1 m ≡ true

  add_seed-Known :
      (name : Text) (seed : Dict F) (piles : Piles read)
      → Known piles
      → Known (add_seed read name seed piles)
  add_seed-Known name seed piles known m h =
      let before : (same_text name m || has m piles.0) ≡ true =
        sym (add_seed-has m name seed piles) ∙ h in
      elim (Option-cases (lookup name piles.0)) [
        | inl fresh ↦
            rw (fresh, add_seed)
              (contains-append piles.1 name m
                ∙ either_seen (same_text name m) (has m piles.0) (contains piles.1 m) before
                    (known m))
        | inr (seeds, old) ↦
            rw (old, add_seed)
              (elim (Bool-cases (same_text name m)) [
                | inl same ↦
                    subst (λ k. contains piles.1 k ≡ true) (eq_of-same_text name m same)
                      (known name (rw (has, old) refl))
                | inr other ↦ known m (rw other at before)
              ])
      ]

  pub group_loop-Known :
      (ps : List Text) (piles r : Piles read)
      → group_loop read ps piles ≡ some r
      → Known piles
      → ((m : Text) → has m r.0 ≡ (named m ps || has m piles.0)) × Known r
  unfolding group_loop named
  group_loop-Known [] piles r h known =
      let e : piles ≡ r = some_injective h in rw (sym e) ((λ m. refl), known)
  group_loop-Known (p ∷ ps) piles r h known = elim (Option-cases (read p)) [
    | inl unread ↦ absurd (nothing_there (rw (unread, group_loop) at h))
    | inr (entry, readable) ↦
        let name = name_of entry.0 in
        let piles' = add_seed read name entry.1 piles in
        let (all, known') =
          group_loop-Known ps piles' r (rw (readable, group_loop) at h)
            (add_seed-Known name entry.1 piles known) in
        (
          λ m.
              rw (readable, named)
                (all m
                  ∙ rw (add_seed-has m name entry.1 piles)
                      (or_swap (named m ps) (same_text name m) (has m piles.0))),
          known',
        )
  ]
