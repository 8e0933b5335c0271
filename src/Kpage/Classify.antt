-- ===== src/Kpage/Classify.antt =====
-- What the classifier of packages/fragview/kpage.go says of a page, class by class.
use zfs_slab_mobility.Prelude.{ℕ, ◌≡◌, ◌≢◌, ◌↔◌, Bool, true, false, ◌&&◌, ◌||◌, not, arith}
use zfs_slab_mobility.Kpage.Classes.{abd, unknown, immovable}
use zfs_slab_mobility.Kpage.Kpf
use zfs_slab_mobility.Kpage.Flags.{test_bit, classify}

-- The page lies outside memory, or is free.
abbrev pub is_unused : ℕ → Bool
is_unused f = test_bit f Kpf.no_page || test_bit f Kpf.offline || test_bit f Kpf.buddy

-- The page belongs to the kernel whatever else its flags say.
abbrev pub is_kernel_owned : ℕ → Bool
is_kernel_owned f = test_bit f Kpf.slab || test_bit f Kpf.pg_table || test_bit f Kpf.reserved

-- A page is taken for one that the allocator can move exactly when it is unused, or on an LRU list
-- and not the kernel's own, or ARC data (private, off the LRU, not the kernel's own) on a machine
-- that can relocate it.
pub classify-movable_iff :
    (abd_movable : Bool) (f : ℕ)
    → (immovable abd_movable (classify f) ≡ false) ↔ (
        (is_unused f
          || (not (is_kernel_owned f)
              && (test_bit f Kpf.lru || (abd_movable && test_bit f Kpf.private))))
        ≡ true)
unfolding classify
classify-movable_iff abd_movable f = ground arith

-- Every flag that some rule of the classifier tests.
abbrev pub has_rule : ℕ → Bool
has_rule f =
    is_unused f
    || is_kernel_owned f
    || test_bit f Kpf.lru
    || test_bit f Kpf.private
    || test_bit f Kpf.compound_head
    || test_bit f Kpf.compound_tail
    || test_bit f Kpf.arch
    || test_bit f Kpf.arch2

-- The catch-all class is given exactly to a page that has flags, none of which any rule tests.
pub classify-unknown_iff : (f : ℕ) → (classify f ≡ unknown) ↔ ((f ≢ 0) × (has_rule f ≡ false))
unfolding classify
classify-unknown_iff f = ground arith

-- ARC data is exactly what has the private flag outside the LRU lists and is neither unused nor the
-- kernel's own.
pub classify-abd_iff :
    (f : ℕ)
    → (classify f ≡ abd) ↔ (
        (test_bit f Kpf.private && not (is_unused f || is_kernel_owned f || test_bit f Kpf.lru))
        ≡ true)
unfolding classify
classify-abd_iff f = ground arith
