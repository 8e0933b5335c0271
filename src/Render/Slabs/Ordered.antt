-- ===== src/Render/Slabs/Ordered.antt =====
-- The table of slab caches of packages/fragview/render.go is in order and fills its pane.
use zfs_slab_mobility.Prelude.{
  ap, ℕ, zero, suc, ◌+◌, ◌-◌, ◌*◌, ◌<◌, ◌⊎◌, inl, inr, ◌∙◌, none, some, lookup, if◌then◌else◌,
  Bool-cases, Option-cases, dec_lt, ◌%◌, min, ◌≤◌, ◌≡◌, refl, Bool, true, false, List, [], ◌∷◌,
  Option, Dict, arith, if_intro, length, take, drop, total_by,
}
use zfs_slab_mobility.Prelude.Int.{ℤ, pos, pos_part, eq_of_parts, ◌-ℤ◌, ltb_ℤ}
use zfs_slab_mobility.Stats.Counts.{SlabCache, cache_bytes, wasted}
use zfs_slab_mobility.Stats.Who.{WhoStat}
use zfs_slab_mobility.Render.Slabs.{
  who_at, first_by, is_listed, less_by, insert_stable, sort_stable, listed, comes_first,
  sorted_slabs, slab_rows, scroll_within, shown_from, slab_window,
}

module _ {A : Type 0} (less : A → A → Bool) where
  -- No element of the list comes before `x`.
  abbrev pub NoneBefore : A → List A → Type 0
  NoneBefore x [] = Unit {0}
  NoneBefore x (y ∷ ys) = (less y x ≡ false) × NoneBefore x ys

  -- No element comes before one that stands in front of it.
  abbrev pub InOrder : List A → Type 0
  InOrder [] = Unit {0}
  InOrder (x ∷ xs) = NoneBefore x xs × InOrder xs

  total_by-insert_stable :
      (w : A → ℕ) (x : A) (xs : List A) → total_by w (insert_stable less x xs) ≡ w x + total_by w xs
  unfolding insert_stable
  total_by-insert_stable w x [] = omega arith
  total_by-insert_stable w x (y ∷ ys) = ground (arith, total_by-insert_stable w x ys)

  total_by-sort_stable :
      (w : A → ℕ) (xs : List A) → total_by w (sort_stable less xs) ≡ total_by w xs
  unfolding sort_stable
  total_by-sort_stable w [] = refl
  total_by-sort_stable w (x ∷ xs) =
      omega (arith, total_by-insert_stable w x (sort_stable less xs), total_by-sort_stable w xs)

  module _ (through : (x y z : A) → less y x ≡ false → less z y ≡ false → less z x ≡ false)
      (one_way : (x y : A) → less y x ≡ true → less x y ≡ false) where
    NoneBefore-through :
        (x y : A) (zs : List A) → less y x ≡ false → NoneBefore y zs → NoneBefore x zs
    NoneBefore-through x y [] h n = tt
    NoneBefore-through x y (z ∷ zs) h (n, ns) = (through x y z h n, NoneBefore-through x y zs h ns)

    NoneBefore-insert_stable :
        (y x : A) (xs : List A)
        → less x y ≡ false
        → NoneBefore y xs
        → NoneBefore y (insert_stable less x xs)
    unfolding insert_stable
    NoneBefore-insert_stable y x [] h n = (h, tt)
    NoneBefore-insert_stable y x (z ∷ zs) h (n, ns) =
        if_intro (NoneBefore y) (less z x) (z ∷ insert_stable less x zs) (x ∷ z ∷ zs)
          (λ _. (n, NoneBefore-insert_stable y x zs h ns)) (λ _. (h, (n, ns)))

    insert_stable-InOrder : (x : A) (xs : List A) → InOrder xs → InOrder (insert_stable less x xs)
    unfolding insert_stable
    insert_stable-InOrder x [] o = (tt, tt)
    insert_stable-InOrder x (y ∷ ys) (n, o) =
        if_intro InOrder (less y x) (y ∷ insert_stable less x ys) (x ∷ y ∷ ys)
          (λ before.
            (NoneBefore-insert_stable y x ys (one_way x y before) n, insert_stable-InOrder x ys o))
          (λ after. ((after, NoneBefore-through x y ys after n), (n, o)))

    sort_stable-InOrder : (xs : List A) → InOrder (sort_stable less xs)
    unfolding sort_stable
    sort_stable-InOrder [] = tt
    sort_stable-InOrder (x ∷ xs) =
        insert_stable-InOrder x (sort_stable less xs) (sort_stable-InOrder xs)

less_by-through :
    (n : ℕ) (x y z : SlabCache) (wx wy wz : WhoStat)
    → less_by n y x wy wx ≡ false
    → less_by n z y wz wy ≡ false
    → less_by n z x wz wx ≡ false
unfolding less_by
less_by-through n x y z wx wy wz h k = ground arith

less_by-one_way :
    (n : ℕ) (x y : SlabCache) (wx wy : WhoStat)
    → less_by n y x wy wx ≡ true
    → less_by n x y wx wy ≡ false
unfolding less_by
less_by-one_way n x y wx wy h = ground arith

-- The larger first, and of those with the same the larger in another number.
abbrev pub Larger : ℕ → ℕ → ℕ → ℕ → Type 0
Larger a b a' b' = (b < a) ⊎ ((a ≡ b) × (b' ≤ a'))

-- What the orders of the table ask of a cache and one below it: more pages in hostage blocks, more
-- blocks, more bytes wasted, or more bytes.
abbrev pub MayPrecede : ℕ → Option (Dict WhoStat) → SlabCache → SlabCache → Type 0
MayPrecede zero who a b =
    Larger (who_at who a).hostage_pages (who_at who b).hostage_pages (who_at who a).blocks
      (who_at who b).blocks
MayPrecede (suc zero) who a b =
    Larger (who_at who a).blocks (who_at who b).blocks (who_at who a).hostage_pages
      (who_at who b).hostage_pages
MayPrecede (suc (suc zero)) who a b = wasted b ≤ wasted a
MayPrecede (suc (suc (suc n))) who a b = cache_bytes b ≤ cache_bytes a

abbrev pub PrecedesAll : ℕ → Option (Dict WhoStat) → SlabCache → List SlabCache → Type 0
PrecedesAll n who x [] = Unit {0}
PrecedesAll n who x (y ∷ ys) = MayPrecede n who x y × PrecedesAll n who x ys

abbrev pub IsOrdered : ℕ → Option (Dict WhoStat) → List SlabCache → Type 0
IsOrdered n who [] = Unit {0}
IsOrdered n who (x ∷ xs) = PrecedesAll n who x xs × IsOrdered n who xs

-- How often the table has a cache: not at all if the blocks are counted and it is in none.
abbrev pub times_shown : Option (Dict WhoStat) → SlabCache → ℕ
times_shown none c = 1
times_shown (some who) c = elim (lookup c.name who) [ none ↦ 0 | some stat ↦ min 1 stat.blocks ]

first_by-Larger : (a b a' b' : ℕ) → first_by b a b' a' ≡ false → Larger a b a' b'
first_by-Larger a b a' b' h = elim (dec_lt b a) [
  | yes more ↦ inl more
  | no less ↦ inr (ground arith, ground arith)
]

less_by-MayPrecede :
    (n : ℕ) (who : Option (Dict WhoStat)) (x y : SlabCache)
    → less_by n y x (who_at who y) (who_at who x) ≡ false
    → MayPrecede n who x y
unfolding less_by
less_by-MayPrecede zero who x y h = first_by-Larger _ _ _ _ h
less_by-MayPrecede (suc zero) who x y h = first_by-Larger _ _ _ _ h
less_by-MayPrecede (suc (suc zero)) who x y h = ground arith
less_by-MayPrecede (suc (suc (suc n))) who x y h = ground arith

InOrder-IsOrdered :
    (slab_sort : ℕ) (who : Option (Dict WhoStat)) (xs : List SlabCache)
    → InOrder (comes_first slab_sort who) xs
    → IsOrdered (slab_sort % 4) who xs
InOrder-IsOrdered slab_sort who [] h = tt
InOrder-IsOrdered slab_sort who (x ∷ xs) (n, o) = (first xs n, InOrder-IsOrdered slab_sort who xs o)
  where
    first :
        (ys : List SlabCache)
        → NoneBefore (comes_first slab_sort who) x ys
        → PrecedesAll (slab_sort % 4) who x ys
    first [] h = tt
    first (y ∷ ys) (h, hs) = (less_by-MayPrecede (slab_sort % 4) who x y h, first ys hs)

is_listed-times :
    (who : Option (Dict WhoStat)) (c : SlabCache)
    → times_shown who c ≡ (if is_listed who c then 1 else 0)
is_listed-times none c = refl
is_listed-times (some who) c = elim (Option-cases (lookup c.name who)) [
  | inl gone ↦ rw (gone, times_shown) refl
  | inr (stat, there) ↦ rw (there, times_shown) (ground arith)
]

total_by-listed :
    (who : Option (Dict WhoStat)) (w : SlabCache → ℕ) (slabs : List SlabCache)
    → total_by w (listed who slabs) ≡ total_by (λ c. times_shown who c * w c) slabs
unfolding listed
total_by-listed who w [] = refl
total_by-listed who w (c ∷ cs) = elim (Bool-cases (is_listed who c)) [
  | inl yes_listed ↦
      let e : times_shown who c ≡ 1 = is_listed-times who c ∙ rw yes_listed refl in
      rw (yes_listed, e) (omega (arith, total_by-listed who w cs))
  | inr left_out ↦
      let e : times_shown who c ≡ 0 = is_listed-times who c ∙ rw left_out refl in
      rw (left_out, e) (omega (arith, total_by-listed who w cs))
]

-- The table stands in the order chosen, by pages in hostage blocks, by blocks, by bytes wasted or by
-- bytes, the most first, the first two by each other where they are the same; it has all the caches,
-- or if blocks are counted those that are in at least one, each as often as it is there.
pub sorted_slabs-InOrder :
    (slab_sort : ℕ) (who : Option (Dict WhoStat)) (slabs : List SlabCache)
    → IsOrdered (slab_sort % 4) who (sorted_slabs slab_sort who slabs)
      × ((w : SlabCache → ℕ)
          → total_by w (sorted_slabs slab_sort who slabs)
            ≡ total_by (λ c. times_shown who c * w c) slabs)
unfolding sorted_slabs
sorted_slabs-InOrder slab_sort who slabs =
    let n = slab_sort % 4 in
    (
      InOrder-IsOrdered slab_sort who _ (
          sort_stable-InOrder (comes_first slab_sort who)
            (λ x y z. less_by-through n x y z (who_at who x) (who_at who y) (who_at who z))
            (λ x y. less_by-one_way n x y (who_at who x) (who_at who y)) (listed who slabs)),
      λ w.
          total_by-sort_stable (comes_first slab_sort who) w (listed who slabs)
          ∙ total_by-listed who w slabs,
    )

length-drop : (n : ℕ) (xs : List SlabCache) → length (drop n xs) ≡ length xs - n
length-drop zero xs = omega arith
length-drop (suc n) [] = omega arith
length-drop (suc n) (x ∷ xs) = omega (arith, length-drop n xs)

length-take : (n : ℕ) (xs : List SlabCache) → length (take n xs) ≡ min n (length xs)
length-take zero xs = omega arith
length-take (suc n) [] = omega arith
length-take (suc n) (x ∷ xs) = omega (arith, length-take n xs)

scroll_within-min :
    (scroll : ℤ) (room total : ℕ)
    → scroll_within scroll room total ≡ pos (min (pos_part scroll) (total - room))
unfolding ◌-ℤ◌ ltb_ℤ
scroll_within-min scroll room total = eq_of_parts _ _ (ground arith)

-- However far it is scrolled, up or down, the pane starts at the cache it is scrolled to, but not
-- before the first nor past the last that leaves it full, and shows as many caches as fit it, or all
-- there are.
pub length-slab_window :
    (rows : ℕ) (merged : Bool) (scroll : ℤ) (slabs : List SlabCache)
    → (let room = slab_rows rows merged in
        let shown = take room (drop (min (pos_part scroll) (length slabs - room)) slabs) in
        (slab_window rows merged scroll slabs ≡ some shown)
        × (length shown ≡ min room (length slabs)))
unfolding slab_window
length-slab_window rows merged scroll slabs =
    let room = slab_rows rows merged in
    let at = min (pos_part scroll) (length slabs - room) in
    (
      ap (λ (i : ℤ). shown_from i room slabs) (scroll_within-min scroll room (length slabs)),
      omega (arith, length-take room (drop at slabs), length-drop at slabs),
    )
