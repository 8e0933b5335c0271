-- ===== src/Check/Ends.antt =====
-- packages/fragcheck/main.go: the workers of `verify` come to an end.
use zfs_slab_mobility.Prelude.{
  ℕ, zero, suc, ◌+◌, ◌-◌, ◌*◌, ◌≤◌, ◌<◌, ◌≡◌, ◌⊎◌, refl, ap, subst, arith, not, Option, none, some,
  List, [], ◌∷◌, ◌++◌, ◌==◌, length, replicate, total_by, total_by-at, total_by-replicate, inl, inr,
  if_intro, true, false, Bool-cases,
}
use zfs_slab_mobility.Load.{fill}
use zfs_slab_mobility.Check.{
  Checker, taking, reading, comparing, blaming, stopped, Checking, first_difference, live, compared,
  was_read, check_act, CheckRun, check_none, check_step, check_start, clashes, keep_first,
}
use zfs_slab_mobility.Check.Noted.{Mixed}
use zfs_slab_mobility.Check.Verified.{Kept, run-Kept, start-Kept}

-- How many steps a worker may take before it takes another file.
abbrev pub work_left : Checker → ℕ
work_left (taking want) = 1
work_left (reading want i) = 4
work_left (comparing want i got) = 3
work_left (blaming want e) = 2
work_left stopped = 0

-- Workers that have not all returned.
find_live :
    (ws : List Checker)
    → (total_by live ws ≡ 0)
      ⊎ ((pre : List Checker) × (x : Checker) × (post : List Checker) × (live x ≡ 1)
          × (ws ≡ pre ++ x ∷ post))
find_live [] = inl refl
find_live (w ∷ ws) = elim (find_live ws) [
  | inr (pre, x, post, lives, e) ↦ inr (w ∷ pre, x, post, lives, ap (◌∷◌ w) e)
  | inl quiet ↦ at_front w ws quiet
]
  where
    at_front :
        (w : Checker) (ws : List Checker)
        → total_by live ws ≡ 0
        → (total_by live (w ∷ ws) ≡ 0)
          ⊎ ((pre : List Checker) × (x : Checker) × (post : List Checker) × (live x ≡ 1)
              × (w ∷ ws ≡ pre ++ x ∷ post))
    at_front stopped ws quiet = inl (omega arith)
    at_front (taking want) ws quiet = inr ([], taking want, ws, refl, refl)
    at_front (reading want i) ws quiet = inr ([], reading want i, ws, refl, refl)
    at_front (comparing want i got) ws quiet = inr ([], comparing want i got, ws, refl, refl)
    at_front (blaming want e) ws quiet = inr ([], blaming want e, ws, refl, refl)

module _ (draw : ℕ → ℕ → ℕ → ℕ) (disk : ℕ → Option (List ℕ)) (files size seed : ℕ) where
  abbrev potential : Checking → List Checker → ℕ
  potential s ws = 5 * (files - s.next) + total_by work_left ws

  -- A step of one worker uses up some of the work.
  act-potential :
      (s : Checking) (x : Checker)
      → live x ≡ 1
      → (let r = check_act draw disk files size seed s x in
          5 * (files - r.0.next) + work_left r.1 < 5 * (files - s.next) + work_left x)
  unfolding check_act
  act-potential s (taking want) h = ground arith
  act-potential s (reading want i) h = go (disk i)
    where
      go :
          (o : Option (List ℕ))
          → (let r = was_read s want i o in
              5 * (files - r.0.next) + work_left r.1 < 5 * (files - s.next) + 4)
      go none = omega arith
      go (some got) = omega arith
  act-potential s (comparing want i got) h =
      let Less = λ (r : Checking × Checker).
        5 * (files - r.0.next) + work_left r.1 < 5 * (files - s.next) + 3 in
      if_intro Less (not (length got == size)) _ _ (λ _. omega arith)
        (λ _. go (fill draw want seed i) (first_difference 0 got (fill draw want seed i)))
    where
      go :
          (b : List ℕ) (o : Option (ℕ × ℕ × ℕ))
          → (let r = compared s b i o in
              5 * (files - r.0.next) + work_left r.1 < 5 * (files - s.next) + 3)
      go b none = omega arith
      go b (some (off, g, w)) = omega arith
  act-potential s (blaming want e) h =
      if_intro (λ (t : Checking). 5 * (files - t.next) + 1 < 5 * (files - s.next) + 2)
        (clashes s.first e) (record s { panicked = true })
        (record s { first = keep_first s.first e }) (λ _. omega arith) (λ _. omega arith)
  act-potential s stopped h = absurd (omega arith)

  -- The potential left after a step of the worker between two lists.
  step-potential :
      (s : Checking) (pre post : List Checker) (x : Checker)
      → live x ≡ 1
      → (let r = check_act draw disk files size seed s x in
          potential r.0 (pre ++ r.1 ∷ post) < potential s (pre ++ x ∷ post))
  step-potential s pre post x lives =
      let y = (check_act draw disk files size seed s x).1 in
      omega (
        arith,
        act-potential s x lives,
        total_by-at work_left pre x post,
        total_by-at work_left pre y post,
      )

  run-potential :
      {v w : Checking × List Checker} {n : ℕ}
      → CheckRun draw disk files size seed v n w
      → n + potential w.0 w.1 ≤ potential v.0 v.1
  run-potential check_none = omega arith
  run-potential (check_step {s} pre post x lives on r) =
      omega (arith, run-potential r, step-potential s pre post x lives)

  -- All workers have returned, or the program has panicked over errors of two types.
  abbrev pub IsOver : Checking × List Checker → Type 0
  IsOver u =
      ((u.0.panicked ≡ false) × (total_by live u.1 ≡ 0))
      ⊎ ((u.0.panicked ≡ true) × Mixed draw disk files size seed)

  abbrev pub Finishes : Checking × List Checker → Type 0
  Finishes v =
      (m : ℕ) × (u : Checking × List Checker) × CheckRun draw disk files size seed v m u × IsOver u

  go_on :
      (fuel : ℕ) {v : Checking × List Checker} (n : ℕ) (s : Checking) (ws : List Checker)
      → CheckRun draw disk files size seed v n (s, ws)
      → Kept draw disk files size seed v.0 v.1
      → potential s ws < fuel
      → Finishes v
  go_on zero n s ws r k bound = absurd (omega arith)
  go_on (suc fuel) {v} n s ws r k bound = elim (Bool-cases s.panicked) [
    | inl off ↦
        (n, (s, ws), r, inr (off, (run-Kept draw disk files size seed r k).0.noted.mixed off))
    | inr on ↦ elim (find_live ws) [
      | inl quiet ↦ (n, (s, ws), r, inl (on, quiet))
      | inr (pre, x, post, lives, e) ↦
          let y = check_act draw disk files size seed s x in
          let r2 : CheckRun draw disk files size seed v n (s, pre ++ x ∷ post) =
            subst (λ l. CheckRun draw disk files size seed v n (s, l)) e r in
          let same = ap (total_by work_left) e in
          go_on fuel (n + 1) y.0 (pre ++ y.1 ∷ post) (check_step pre post x lives on r2) k
            (omega (arith, same, step-potential s pre post x lives))
    ]
  ]

  -- No run of the workers is longer than five steps for each file and one for each worker, and from
  -- every state that a run reaches they can run on until all have returned or `CompareAndSwap` has
  -- panicked, which it does only if one file cannot be read and another has a wrong length or a
  -- wrong byte.
  pub CheckRun-ends :
      (jobs n : ℕ) (w : Checking × List Checker)
      → CheckRun draw disk files size seed (check_start size jobs) n w
      → (n ≤ 5 * files + jobs) × Finishes w
  CheckRun-ends jobs n w r = (
    omega (arith, run-potential r, total_by-replicate work_left jobs (taking (replicate size 0))),
    go_on (potential w.0 w.1 + 1) 0 w.0 w.1 check_none
        (run-Kept draw disk files size seed r (start-Kept draw disk files size seed jobs)).0
        (omega arith),
  )
