-- ===== src/Tests/LoadRuns.antt =====
-- packages/fragload/main.go and packages/fragcheck/main.go on one or two small files.
use zfs_slab_mobility.Prelude.{
  ℕ, zero, suc, ◌+◌, ◌-◌, ◌/◌, ◌%◌, ◌^◌, ◌≤◌, min, ◌≡◌, refl, arith, Option, none, some, List, [],
  ◌∷◌,
}
use zfs_slab_mobility.Load.{
  fill, Answer, taking, holding, filled, stopped, Writing, put_file, WriteRun, write_none,
  write_step, write_act, write_start, make_dirs,
}
use zfs_slab_mobility.Load.Written.{contents, WriteRun-complete}
use zfs_slab_mobility.Load.Dirs.{make_dirs-all}
use zfs_slab_mobility.Load.Clone.{
  Reply, errno, copied, call_failed, clone_range, Copied, clone_range-ends,
}

abbrev pub draw : ℕ → ℕ → ℕ → ℕ
draw seed stream k = (seed + stream + k) % 2 ^ 64

abbrev pub empty_disk : ℕ → Option (List ℕ)
empty_disk i = none

abbrev pub zeros : List ℕ
zeros = 0 ∷ 0 ∷ 0 ∷ 0 ∷ 0 ∷ 0 ∷ 0 ∷ 0 ∷ 0 ∷ []

abbrev pub full : List ℕ
full = 28 ∷ 124 ∷ 74 ∷ 127 ∷ 185 ∷ 121 ∷ 55 ∷ 158 ∷ 0 ∷ []

abbrev pub one_file : Writing
one_file = record { next = 3; errs = []; disk = put_file empty_disk 0 (some full) }

-- One worker finds nothing to do, the other writes the file.
abbrev pub writing :
    WriteRun draw 1 7 (write_start empty_disk 9 2) (one_file, stopped ∷ stopped ∷ [])
unfolding write_act fill
writing = write_step (stopped ∷ []) [] (taking full) none none (
    write_step (stopped ∷ []) [] (filled full 0) none none (
      write_step (stopped ∷ []) [] (holding zeros 0) none none (
        write_step [] (holding zeros 0 ∷ []) (taking zeros) none none
          (write_step (taking zeros ∷ []) [] (taking zeros) none none write_none))))

abbrev chunks : ℕ → ℕ → ℕ → Reply
chunks zero off len = copied (min 4 len)
chunks (suc zero) off len = copied (min 4 len)
chunks (suc (suc k)) off len = errno 5

chunks-fair : (k off len n : ℕ) → chunks k off len ≡ copied n → n ≤ len
chunks-fair zero off len n h = ground arith
chunks-fair (suc zero) off len n h = ground arith
chunks-fair (suc (suc k)) off len n h = cc

clone_range-ends_example : Copied 10 0 (clone_range chunks 10)
clone_range-ends_example = clone_range-ends chunks 10 chunks-fair

clone_run : clone_range chunks 10 ≡ ((0, 4) ∷ (4, 4) ∷ [], call_failed 8 5)
unfolding clone_range
clone_run = refl

WriteRun-complete_example : one_file.disk 0 ≡ some (contents draw 1 7 9 0)
WriteRun-complete_example =
    WriteRun-complete draw 1 7 9 2 empty_disk one_file (stopped ∷ stopped ∷ []) (omega arith)
      writing refl refl 0 (omega arith)

full_bytes : fill draw zeros 7 0 ≡ full
unfolding fill
full_bytes = refl

abbrev makes_all : ℕ → Answer
makes_all i = none

two_dirs : make_dirs makes_all ((1500 + 1000 - 1) / 1000) 0 ≡ none
unfolding make_dirs
two_dirs = refl

dirs_made : makes_all (1234 / 1000) ≡ none
dirs_made = make_dirs-all makes_all 1500 1000 1234 (omega arith) two_dirs (omega arith)
