-- ===== src/Merge/Members.antt =====
-- The members that packages/fragview/merge.go finds.
use zfs_slab_mobility.Prelude.{
  ◌≤◌, ◌≡◌, ◌≢◌, refl, ◌∙◌, ap, arith, ◌⊎◌, inl, inr, true, none, some, List, [], ◌∷◌, ltb, length,
  Text, same_text, same_text_refl, eq_of-same_text, Dict, put, lookup, value_or, Bool-cases,
  Option-cases, some_injective, nothing_there, if_intro, ltb→le,
}
use zfs_slab_mobility.Merge.{
  contains, set_all, spread, aliases_of, Source, directory, captured, load_cache_aliases, aliases,
  add_entries, add_lines,
}

module _ {ℓ} {A : Type ℓ} where
  lookup-put :
      (m k : Text) (v a : A) (d : Dict A)
      → lookup m (put k v d) ≡ some a
      → ((same_text k m ≡ true) × (v ≡ a)) ⊎ (lookup m d ≡ some a)
  lookup-put m k v a [] h = elim (Bool-cases (same_text k m)) [
    | inl same ↦ inl (same, some_injective (rw same at h))
    | inr other ↦ absurd (nothing_there (rw other at h))
  ]
  lookup-put m k v a ((j, w) ∷ d) h = elim (Bool-cases (same_text j k)) [
    | inl own ↦ elim (Bool-cases (same_text j m)) [
      | inl same ↦ inl (rw (← eq_of-same_text j k own) same, some_injective (rw (own, same) at h))
      | inr other ↦ inr (rw other (rw (own, other) at h))
    ]
    | inr foreign ↦ elim (Bool-cases (same_text j m)) [
      | inl same ↦ inr (rw same (rw (foreign, same) at h))
      | inr other ↦ elim (lookup-put m k v a d (rw (foreign, other) at h)) [
        | inl new ↦ inl new
        | inr old ↦ inr (rw other old)
      ]
    ]
  ]

-- Each name stands in the set that it leads to, with others.
abbrev pub AllMembers : Dict (List Text) → Type 0
AllMembers d =
    (m : Text) (a : List Text) → lookup m d ≡ some a → (contains a m ≡ true) × (2 ≤ length a)

contains-head : (xs : List Text) (x : Text) → contains (x ∷ xs) x ≡ true
unfolding contains
contains-head xs x = rw (same_text_refl x) refl

contains-tail : (xs : List Text) (x y : Text) → contains xs x ≡ true → contains (y ∷ xs) x ≡ true
unfolding contains
contains-tail xs x y h = ground arith

set_all-AllMembers :
    (members ms : List Text) (out : Dict (List Text))
    → 2 ≤ length members
    → ((m : Text) → contains ms m ≡ true → contains members m ≡ true)
    → AllMembers out
    → AllMembers (set_all members ms out)
unfolding set_all
set_all-AllMembers members [] out two sub h = h
set_all-AllMembers members (k ∷ ms) out two sub h =
    set_all-AllMembers members ms (put k members out) two
      (λ m inside. sub m (contains-tail ms m k inside))
      (λ m a found. elim (lookup-put m k members a out found) [
        | inl (same, e) ↦
            let k_inside = sub k (contains-head ms k) in
            (rw (← e, ← eq_of-same_text k m same) k_inside, rw (← e) two)
        | inr old ↦ h m a old
      ])

module _ (sort : List Text → List Text) where
  spread-AllMembers :
      ((xs : List Text) → length (sort xs) ≡ length xs)
      → (groups : Dict (List Text)) (out : Dict (List Text)) → AllMembers out
      → AllMembers (spread sort groups out)
  unfolding spread
  spread-AllMembers keeps [] out h = h
  spread-AllMembers keeps ((g, members) ∷ groups) out h = spread-AllMembers keeps groups _ (
      if_intro AllMembers (ltb (length members) 2) out _ (λ _. h)
        (λ enough.
          set_all-AllMembers (sort members) (sort members) out
            (omega (arith, keeps members, ltb→le (length members) 2 enough)) (λ m inside. inside)
            h))

  known_members :
      (d : Dict (List Text)) (m x : Text) (xs : List Text)
      → AllMembers d
      → value_or [] (lookup m d) ≡ x ∷ xs
      → (contains (x ∷ xs) m ≡ true) × (2 ≤ length (x ∷ xs))
  known_members d m x xs all h = elim (Option-cases (lookup m d)) [
    | inl missing ↦ absurd (nil_ne (rw missing at h))
    | inr (a, found) ↦ all m (x ∷ xs) (found ∙ ap some (rw found at h))
  ]
    where
      nil_ne : ◌≢◌ {A = List Text} [] (x ∷ xs)
      nil_ne e = cc

  aliases_of-members :
      ((xs : List Text) → length (sort xs) ≡ length xs)
      → (groups : Dict (List Text)) (m x : Text) (xs : List Text)
      → aliases (aliases_of sort groups) m ≡ x ∷ xs
      → (contains (x ∷ xs) m ≡ true) × (2 ≤ length (x ∷ xs))
  unfolding spread aliases_of
  aliases_of-members keeps groups m x xs h =
      known_members (spread sort groups []) m x xs
        (spread-AllMembers keeps groups [] (λ k a found. absurd (nothing_there found)))
        (same (spread sort groups []) ∙ h)
    where
      same :
          (d : Dict (List Text))
          → value_or [] (lookup m d) ≡ aliases (elim d [ [] ↦ none | a ∷ out ↦ some (a ∷ out) ]) m
      same [] = refl
      same (a ∷ out) = refl

  -- Whichever way the caches are read, and whatever stands there: a name that has aliases is one of
  -- them, and there are at least two. (Sorting keeps the number of names.)
  pub load_cache_aliases-members :
      ((xs : List Text) → length (sort xs) ≡ length xs)
      → (source : Source) (m x : Text) (xs : List Text)
      → aliases (load_cache_aliases sort source) m ≡ x ∷ xs
      → (contains (x ∷ xs) m ≡ true) × (2 ≤ length (x ∷ xs))
  unfolding load_cache_aliases aliases_of
  load_cache_aliases-members keeps (directory none) m x xs h = absurd cc
  load_cache_aliases-members keeps (directory (some es)) m x xs h =
      aliases_of-members keeps (add_entries es []) m x xs h
  load_cache_aliases-members keeps (captured none) m x xs h = absurd cc
  load_cache_aliases-members keeps (captured (some lines)) m x xs h =
      aliases_of-members keeps (add_lines lines []) m x xs h
