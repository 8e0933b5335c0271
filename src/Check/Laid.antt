-- ===== src/Check/Laid.antt =====
-- packages/fragcheck/main.go reads what packages/fragload/main.go wrote.
use zfs_slab_mobility.Prelude.{
  ℕ, zero, suc, ◌*◌, ◌<◌, ◌≡◌, refl, ◌∙◌, ap, arith, Option, none, some, List, same_text_refl,
  total_by, sum_below, sum_below-all,
}
use zfs_slab_mobility.Load
use zfs_slab_mobility.Load.{Writing, Writer, WriteRun, write_start, first_error}
use zfs_slab_mobility.Load.Written.{contents, WriteRun-complete}
use zfs_slab_mobility.Check.{Fault, Checker, Checking, live, CheckRun, check_start, verify_answer}
use zfs_slab_mobility.Check.Counted.{sizes, faults, length-contents}
use zfs_slab_mobility.Check.Verified.{Answers, CheckRun-refines}

sum_below-const : (f : ℕ → ℕ) (c n : ℕ) → ((i : ℕ) → i < n → f i ≡ c) → sum_below f n ≡ n * c
sum_below-const f c zero h = omega arith
sum_below-const f c (suc n) h =
    grind (arith, h n (omega arith), sum_below-const f c n (λ i lt. h i (omega arith)))

module _ (draw : ℕ → ℕ → ℕ → ℕ) (files size seed : ℕ) where
  no_fault :
      (disk : ℕ → Option (List ℕ)) (i : ℕ)
      → disk i ≡ some (contents draw files seed size i)
      → (faults draw disk files size seed i ≡ 0) × (sizes draw disk files size seed i ≡ size)
  no_fault disk i h = (
    rw (h, same_text_refl (contents draw files seed size i)) refl,
    rw h (length-contents draw disk files size seed i),
  )

  sound_answer :
      (disk : ℕ → Option (List ℕ)) (a : ℕ × Option (ℕ × Option Fault))
      → ((i : ℕ) → i < files → disk i ≡ some (contents draw files seed size i))
      → Answers draw disk files size seed a
      → a ≡ (files * size, none)
  sound_answer disk (bytes, none) laid (read, same) =
      ap (λ b. (b, none))
        (read
          ∙ sum_below-const (sizes draw disk files size seed) size files
              (λ i lt. (no_fault disk i (laid i lt)).1))
  sound_answer disk (bytes, some (n, none)) laid answers = absurd answers
  sound_answer disk (bytes, some (n, some f)) laid (read, judged, bad, _) = absurd (
      omega (
        arith,
        judged,
        bad,
        sum_below-all (faults draw disk files size seed) files
            (λ i lt. (no_fault disk i (laid i lt)).0),
      ))

  -- If fragload's workers return without an error, then fragcheck's, once all have returned, have
  -- read all the bytes of all the files and report none, whatever was on the disk before and in
  -- whatever order the workers of either ran, if each was given at least one.
  pub check-write :
      (load_jobs check_jobs n : ℕ) (before : ℕ → Option (List ℕ)) (w : Writing)
      (writers : List Writer) (s : Checking) (checkers : List Checker)
      → 0 < load_jobs
      → WriteRun draw files seed (write_start before size load_jobs) (w, writers)
      → total_by Load.live writers ≡ 0
      → first_error w.errs ≡ none
      → 0 < check_jobs
      → CheckRun draw w.disk files size seed (check_start size check_jobs) n (s, checkers)
      → total_by live checkers ≡ 0
      → verify_answer s ≡ (files * size, none)
  check-write load_jobs check_jobs n before w writers s checkers l run quiet no_err c check silent =
      sound_answer w.disk (verify_answer s)
        (WriteRun-complete draw files seed size load_jobs before w writers l run quiet no_err)
        (CheckRun-refines draw w.disk files size seed check_jobs n s checkers c check silent).1
