-- ===== src/Kpage/Flags.antt =====
-- packages/fragview/kpage.go: the bits of a kpageflags word and the classifier over them.
use zfs_slab_mobility.Prelude.{ℕ, ◌/◌, ◌%◌, ◌^◌, Bool, ◌||◌, ◌==◌, if◌then◌else◌}
use zfs_slab_mobility.Kpage.Kpf
use zfs_slab_mobility.Kpage.Classes.{
  Class, absent, free, file, shmem, anon, abd, slab, pgtab, compound, uncached, kernel, reserved,
  unknown,
}

-- `f & (1 << b) != 0`.
unfoldable pub test_bit : ℕ → ℕ → Bool
test_bit f b = (f / 2 ^ b) % 2 == 1

-- The `bit(kpfLRU)` case: memory on the LRU lists.
classify_lru : ℕ → Class
classify_lru f =
    if test_bit f Kpf.anon || test_bit f Kpf.ksm
    then anon
    else if test_bit f Kpf.swapbacked
    then shmem
    else file

-- The `switch` of `classify`, first case first.
unfoldable pub classify : ℕ → Class
unfolding classify_lru
classify f =
    if test_bit f Kpf.no_page || test_bit f Kpf.offline
    then absent
    else if test_bit f Kpf.buddy
    then free
    else if test_bit f Kpf.slab
    then slab
    else if test_bit f Kpf.pg_table
    then pgtab
    else if test_bit f Kpf.reserved
    then reserved
    else if test_bit f Kpf.lru
    then classify_lru f
    else if test_bit f Kpf.private
    then abd
    else if test_bit f Kpf.compound_head || test_bit f Kpf.compound_tail
    then compound
    else if test_bit f Kpf.arch || test_bit f Kpf.arch2
    then uncached
    else if f == 0
    then kernel
    else unknown
