-- ===== src/Check/Noted.antt =====
-- What packages/fragcheck/main.go notes of the faults: the first, and whether `CompareAndSwap`
-- panicked on one of another type.
use zfs_slab_mobility.Prelude.{
  ℕ, ◌≤◌, ◌≡◌, ◌≢◌, refl, arith, true, false, not, Option, none, some, List, ◌==◌, length, if_intro,
  some_injective, total_by, total_by-at,
}
use zfs_slab_mobility.Load.{fill}
use zfs_slab_mobility.Check.{
  Fault, Checker, taking, reading, comparing, blaming, stopped, Checking, first_difference, live,
  wraps, clashes, keep_first, compared, was_read, check_act, CheckRun, check_none, check_step,
}
use zfs_slab_mobility.Check.Counted.{Holds, Tidy}

module _ (draw : ℕ → ℕ → ℕ → ℕ) (disk : ℕ → Option (List ℕ)) (files size seed : ℕ) where
  -- Two faults are on the disk whose errors are of different types.
  abbrev pub Mixed : Type 0
  Mixed =
      (f : Fault) × (g : Fault) × Holds draw disk files size seed f
      × Holds draw disk files size seed g
      × (wraps f ≢ wraps g)

  pub record Noted (s : Checking) : Type 0 where
    pub reported : (f : Fault) → s.first ≡ some f → Holds draw disk files size seed f
    pub mixed : s.panicked ≡ true → Mixed

  clash-Mixed :
      (o : Option Fault) (e : Fault)
      → ((f : Fault) → o ≡ some f → Holds draw disk files size seed f)
      → Holds draw disk files size seed e
      → clashes o e ≡ true
      → Mixed
  clash-Mixed none e reported holds h = cc
  clash-Mixed (some f) e reported holds h = (f, e, reported f refl, holds, λ same. ground arith)

  keep_first-Holds :
      (o : Option Fault) (e : Fault)
      → ((f : Fault) → o ≡ some f → Holds draw disk files size seed f)
      → Holds draw disk files size seed e
      → (f : Fault) → keep_first o e ≡ some f
      → Holds draw disk files size seed f
  keep_first-Holds none e reported holds f h = rw (← some_injective h) holds
  keep_first-Holds (some g) e reported holds f h = reported f h

  pub act-Noted :
      (s : Checking) (x : Checker)
      → Tidy draw disk files size seed x
      → Noted s
      → Noted (check_act draw disk files size seed s x).0
  unfolding check_act Tidy
  act-Noted s (taking want) t k = record { reported = k.reported; mixed = k.mixed }
  act-Noted s (reading want i) t k = was (disk i)
    where
      was : (o : Option (List ℕ)) → Noted (was_read s want i o).0
      was none = record { reported = k.reported; mixed = k.mixed }
      was (some got) = record { reported = k.reported; mixed = k.mixed }
  act-Noted s (comparing want i got) t k =
      if_intro (λ (r : Checking × Checker). Noted r.0) (not (length got == size)) _ _
        (λ _. record { reported = k.reported; mixed = k.mixed })
        (λ _. was (fill draw want seed i) (first_difference 0 got (fill draw want seed i)))
    where
      was : (buf : List ℕ) (o : Option (ℕ × ℕ × ℕ)) → Noted (compared s buf i o).0
      was buf none = record { reported = k.reported; mixed = k.mixed }
      was buf (some (off, g, w)) = record { reported = k.reported; mixed = k.mixed }
  act-Noted s (blaming want e) (_, holds) k =
      if_intro Noted (clashes s.first e) (record s { panicked = true })
        (record s { first = keep_first s.first e })
        (λ clash. record {
          reported = k.reported;
          mixed = λ _. clash-Mixed s.first e k.reported holds clash;
        })
        (λ _. record { reported = keep_first-Holds s.first e k.reported holds; mixed = k.mixed })
  act-Noted s stopped t k = k

  -- A worker that panics has not returned.
  act-alive :
      (s : Checking) (x : Checker)
      → s.panicked ≡ false
      → (let r = check_act draw disk files size seed s x in r.0.panicked ≡ true → live r.1 ≡ 1)
  unfolding check_act
  act-alive s (taking want) h = λ p. cc
  act-alive s (reading want i) h = was (disk i)
    where
      was :
          (o : Option (List ℕ))
          → (let r = was_read s want i o in r.0.panicked ≡ true → live r.1 ≡ 1)
      was none p = refl
      was (some got) p = refl
  act-alive s (comparing want i got) h =
      if_intro (λ (r : Checking × Checker). r.0.panicked ≡ true → live r.1 ≡ 1)
        (not (length got == size)) _ _ (λ _ _. refl)
        (λ _. was (fill draw want seed i) (first_difference 0 got (fill draw want seed i)))
    where
      was :
          (buf : List ℕ) (o : Option (ℕ × ℕ × ℕ))
          → (let r = compared s buf i o in r.0.panicked ≡ true → live r.1 ≡ 1)
      was buf none p = refl
      was buf (some (off, g, w)) p = refl
  act-alive s (blaming want e) h = λ p. refl
  act-alive s stopped h = λ p. cc

  pub panicked-alive :
      {n : ℕ} {v w : Checking × List Checker}
      → CheckRun draw disk files size seed v n w
      → v.0.panicked ≡ false
      → w.0.panicked ≡ true
      → 1 ≤ total_by live w.1
  panicked-alive check_none calm p = cc
  panicked-alive (check_step {s} pre post x lives on r) calm p =
      let y = (check_act draw disk files size seed s x).1 in
      omega (arith, act-alive s x on p, total_by-at live pre y post)
