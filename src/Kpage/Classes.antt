-- ===== src/Kpage/Classes.antt =====
-- packages/fragview/kpage.go: the page classes and which of them the allocator cannot migrate.
use zfs_slab_mobility.Prelude.{ℕ, ◌+◌, ◌≡◌, Bool, true, false, not, List, [], ◌∷◌, arith, ◌==◌}

-- `class`, in the order of its values; `none` is `clNone`.
pub data Class : Type 0 where
  absent free file shmem anon abd slab pgtab compound uncached kernel reserved unknown : Class

-- `for k := clFree; k < nrClasses; k++`, and the same loop from `clFree + 1`.
abbrev pub classes_after_free : List Class
classes_after_free =
    file ∷ shmem ∷ anon ∷ abd ∷ slab ∷ pgtab ∷ compound ∷ uncached ∷ kernel ∷ reserved ∷ unknown
    ∷ []

abbrev pub classes_from_free : List Class
classes_from_free = free ∷ classes_after_free

-- `class.immovable`; the argument is the package variable `abdMovable`.
abbrev pub immovable : Bool → Class → Bool
immovable abd_movable absent = false
immovable abd_movable free = false
immovable abd_movable file = false
immovable abd_movable shmem = false
immovable abd_movable anon = false
immovable abd_movable abd = not abd_movable
immovable abd_movable slab = true
immovable abd_movable pgtab = true
immovable abd_movable compound = true
immovable abd_movable uncached = true
immovable abd_movable kernel = true
immovable abd_movable reserved = true
immovable abd_movable unknown = true

-- `[nrClasses]uint16`, an array indexed by class.
abbrev pub Counts : Type 0
Counts = Class → ℕ

abbrev pub no_pages : Counts
no_pages k = 0

unfoldable pub sum_over : List Class → Counts → ℕ
sum_over [] c = 0
sum_over (k ∷ ks) c = c k + sum_over ks c

abbrev pub code : Class → ℕ
code absent = 0
code free = 1
code file = 2
code shmem = 3
code anon = 4
code abd = 5
code slab = 6
code pgtab = 7
code compound = 8
code uncached = 9
code kernel = 10
code reserved = 11
code unknown = 12

-- Two classes are the same if their values are.
abbrev pub same_class : Class → Class → Bool
same_class j k = code j == code k

pub same_class_refl : (k : Class) → same_class k k ≡ true
same_class_refl k = ground arith
