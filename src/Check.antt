-- ===== src/Check.antt =====
-- packages/fragcheck/main.go: `verify`, by workers that share their counters.
--
-- The disk is what `ReadFile` returns of each file, the same to every reader. A step is what one
-- worker does up to its next access to shared state, so that runs interleave workers in every order.
pub mod Differences
pub mod Counted
pub mod Noted
pub mod Verified
pub mod Ends
pub mod Laid
use zfs_slab_mobility.Prelude.{
  ℕ, zero, suc, ◌+◌, ◌≡◌, Bool, true, false, not, Option, none, some, List, [], ◌∷◌, ◌++◌, ltb,
  ◌==◌, if◌then◌else◌, length, replicate,
}
use zfs_slab_mobility.Load.{fill}

-- What is reported of a file: it cannot be read, has another length, or another byte.
pub data Fault : Type 0 where
  unreadable : ℕ → Fault
  wrong_length : ℕ → ℕ → Fault
  wrong_byte : ℕ → ℕ → ℕ → ℕ → Fault

pub data Checker : Type 0 where
  taking : List ℕ → Checker
  reading : List ℕ → ℕ → Checker
  comparing : List ℕ → ℕ → List ℕ → Checker
  blaming : List ℕ → Fault → Checker
  stopped : Checker

-- What the workers share.
pub record Checking : Type 0 where
  pub next : ℕ
  pub total : ℕ
  pub bad : ℕ
  pub first : Option Fault
  pub panicked : Bool

-- The loop over the bytes, from offset `off` on.
abbrev pub first_difference : ℕ → List ℕ → List ℕ → Option (ℕ × ℕ × ℕ)
first_difference off [] want = none
first_difference off (g ∷ got) [] = none
first_difference off (g ∷ got) (w ∷ want) =
    let rest = first_difference (off + 1) got want in
    if not (g == w) then some (off, g, w) else rest

abbrev pub live : Checker → ℕ
live stopped = 0
live _ = 1

-- Whether the error that tells of a fault wraps another (`%w`), and so is of another type.
abbrev pub wraps : Fault → Bool
wraps (unreadable i) = true
wraps (wrong_length i n) = false
wraps (wrong_byte i off g w) = false

-- `CompareAndSwap` panics if the value that is there is of another type than the new one.
abbrev pub clashes : Option Fault → Fault → Bool
clashes none e = false
clashes (some f) e = if wraps f then not (wraps e) else wraps e

-- What `CompareAndSwap(nil, e)` leaves if it does not panic.
abbrev pub keep_first : Option Fault → Fault → Option Fault
keep_first none e = some e
keep_first (some f) e = some f

-- `first.CompareAndSwap(nil, e)`; a panic in a worker ends the program.
abbrev pub swap_first : Checking → Fault → Checking
swap_first s e =
    if clashes s.first e
    then record s { panicked = true }
    else record s { first = keep_first s.first e }

-- What follows the comparison of file `i`; `want` is the buffer of the worker.
abbrev pub compared : Checking → List ℕ → ℕ → Option (ℕ × ℕ × ℕ) → Checking × Checker
compared s want i none = (s, taking want)
compared s want i (some (off, g, w)) =
    (record s { bad = s.bad + 1 }, blaming want (wrong_byte i off g w))

-- What follows reading file `i`.
abbrev pub was_read : Checking → List ℕ → ℕ → Option (List ℕ) → Checking × Checker
was_read s want i none = (record s { bad = s.bad + 1 }, blaming want (unreadable i))
was_read s want i (some got) = (record s { total = s.total + length got }, comparing want i got)

module _ (draw : ℕ → ℕ → ℕ → ℕ) (disk : ℕ → Option (List ℕ)) (files size seed : ℕ) where
  -- What a worker does next.
  unfoldable pub check_act : Checking → Checker → Checking × Checker
  unfolding fill
  check_act s (taking want) =
      (record s { next = s.next + 1 }, if ltb s.next files then reading want s.next else stopped)
  check_act s (reading want i) = was_read s want i (disk i)
  check_act s (comparing want i got) =
      let filled = fill draw want seed i in
      if not (length got == size)
      then (record s { bad = s.bad + 1 }, blaming want (wrong_length i (length got)))
      else compared s filled i (first_difference 0 got filled)
  check_act s (blaming want e) = (swap_first s e, taking want)
  check_act s stopped = (s, stopped)

  -- A run of so many steps of workers that have not returned; after a panic there are none.
  pub data CheckRun (v : Checking × List Checker) : ℕ → Checking × List Checker → Type 0 where
    check_none : CheckRun v 0 v
    check_step :
        {n : ℕ} {s : Checking} (pre post : List Checker) (x : Checker)
        → live x ≡ 1
        → s.panicked ≡ false
        → CheckRun v n (s, pre ++ x ∷ post)
        → CheckRun v (n + 1) ((check_act s x).0, pre ++ (check_act s x).1 ∷ post)

-- The workers of `verify` before the first of them runs.
abbrev pub check_start : ℕ → ℕ → Checking × List Checker
check_start size jobs = (
  record { next = 0; total = 0; bad = 0; first = none; panicked = false },
  replicate jobs (taking (replicate size 0)),
)

-- What `verify` returns: the bytes read, and if files differ how many and the first reported.
abbrev pub verify_answer : Checking → ℕ × Option (ℕ × Option Fault)
verify_answer s = (s.total, if ltb 0 s.bad then some (s.bad, s.first) else none)
