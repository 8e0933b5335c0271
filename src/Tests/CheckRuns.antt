-- ===== src/Tests/CheckRuns.antt =====
-- packages/fragcheck/main.go on one or two small files.
use zfs_slab_mobility.Prelude.{
  Bool, true, false, ℕ, zero, suc, List, ◌+◌, ◌*◌, ◌≤◌, ◌≡◌, refl, arith, Option, none, some, [],
  ◌∷◌,
}
use zfs_slab_mobility.Load.{Writer}
use zfs_slab_mobility.Check.{
  Fault, unreadable, wrong_length, taking, reading, comparing, blaming, stopped, Checking,
  check_act, CheckRun, check_none, check_step, check_start,
}
use zfs_slab_mobility.Check.Verified.{Answers, CheckRun-refines}
use zfs_slab_mobility.Check.Ends.{Finishes, CheckRun-ends}
use zfs_slab_mobility.Check.Laid.{check-write}
use zfs_slab_mobility.Tests.LoadRuns.{draw, zeros, full, empty_disk, one_file, writing}

-- Two files of nine bytes, of which the second is missing.
abbrev done_checking : Checking
done_checking = record {
  next = 4;
  total = 9;
  bad = 1;
  first = some (unreadable 1);
  panicked = false;
}

checking :
    CheckRun draw one_file.disk 2 9 7 (check_start 9 2) 8 (done_checking, stopped ∷ stopped ∷ [])
unfolding check_act
checking = check_step (stopped ∷ []) [] (taking zeros) refl refl (
    check_step [] (taking zeros ∷ []) (taking full) refl refl (
      check_step (taking full ∷ []) [] (blaming zeros (unreadable 1)) refl refl (
        check_step [] (blaming zeros (unreadable 1) ∷ []) (comparing zeros 0 full) refl refl (
          check_step (comparing zeros 0 full ∷ []) [] (reading zeros 1) refl refl (
            check_step [] (reading zeros 1 ∷ []) (reading zeros 0) refl refl (
              check_step (reading zeros 0 ∷ []) [] (taking zeros) refl refl
                (check_step [] (taking zeros ∷ []) (taking zeros) refl refl check_none)))))))

CheckRun-refines_example :
    ◌≡◌ {A = Bool} false false × Answers draw one_file.disk 2 9 7 (9, some (1, some (unreadable 1)))
CheckRun-refines_example =
    CheckRun-refines draw one_file.disk 2 9 7 2 8 done_checking (stopped ∷ stopped ∷ [])
      (omega arith) checking refl

CheckRun-ends_example :
    (8 ≤ 5 * 2 + 2) × Finishes draw one_file.disk 2 9 7 (done_checking, stopped ∷ stopped ∷ [])
CheckRun-ends_example = CheckRun-ends draw one_file.disk 2 9 7 2 8 _ checking

abbrev sound_checking : Checking
sound_checking = record { next = 2; total = 9; bad = 0; first = none; panicked = false }

sound : CheckRun draw one_file.disk 1 9 7 (check_start 9 1) 4 (sound_checking, stopped ∷ [])
unfolding check_act
sound = check_step [] [] (taking full) refl refl (
    check_step [] [] (comparing zeros 0 full) refl refl (
      check_step [] [] (reading zeros 0) refl refl
        (check_step [] [] (taking zeros) refl refl check_none)))

check-write_example : ◌≡◌ {A = ℕ × Option (ℕ × Option Fault)} (9, none) (1 * 9, none)
check-write_example =
    check-write draw 1 9 7 2 1 4 empty_disk one_file (Writer.stopped ∷ Writer.stopped ∷ [])
      sound_checking (stopped ∷ []) (omega arith) writing refl refl (omega arith) sound refl

-- The first of two files cannot be read, and the second has lost its bytes.
abbrev spoilt : ℕ → Option (List ℕ)
spoilt zero = none
spoilt (suc i) = some []

abbrev panicked_checking : Checking
panicked_checking = record {
  next = 2;
  total = 0;
  bad = 2;
  first = some (unreadable 0);
  panicked = true;
}

-- `CompareAndSwap` panics on the second fault, whose error is of another type.
panic_run : CheckRun draw spoilt 2 9 7 (check_start 9 1) 7 (panicked_checking, taking zeros ∷ [])
unfolding check_act
panic_run = check_step [] [] (blaming zeros (wrong_length 1 0)) refl refl (
    check_step [] [] (comparing zeros 1 []) refl refl (
      check_step [] [] (reading zeros 1) refl refl (
        check_step [] [] (taking zeros) refl refl (
          check_step [] [] (blaming zeros (unreadable 0)) refl refl (
            check_step [] [] (reading zeros 0) refl refl
              (check_step [] [] (taking zeros) refl refl check_none))))))
