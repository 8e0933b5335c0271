-- ===== src/Check/Verified.antt =====
-- What packages/fragcheck/main.go has found when its workers are done.
use zfs_slab_mobility.Prelude.{
  ℕ, ◌+◌, ◌≤◌, ◌<◌, ◌≡◌, refl, sym, ◌∙◌, ap, arith, inl, inr, Option, none, some, List, ◌∷◌, ◌++◌,
  ltb, replicate, total_by, total_by-at, total_by-zero, length-total_by, length, length-append,
  Every, Every-at, Every-change, Every-replicate, length-replicate, total_by-replicate, Bool-cases,
  Option-cases, same_text, eq_of-same_text, sum_below, sum_below-capped, sum_below-zero, ltb→lt,
  false, nothing_there, ltb→le,
}
use mathlib.Core.Path.{transport}
use zfs_slab_mobility.Load.Written.{contents}
use zfs_slab_mobility.Check.{
  Fault, Checker, taking, reading, comparing, blaming, stopped, Checking, live, check_act, CheckRun,
  check_none, check_step, check_start, verify_answer,
}
use zfs_slab_mobility.Check.Counted.{
  sizes, faults, Tidy, start-Tidy, unread, unjudged, unblamed, ended, told, Done, Doing, act-Doing,
  act-Tidy, Holds,
}
use zfs_slab_mobility.Check.Noted.{Noted, act-Noted, panicked-alive}

module _ (draw : ℕ → ℕ → ℕ → ℕ) (disk : ℕ → Option (List ℕ)) (files size seed : ℕ) where
  pub record Kept (s : Checking) (ws : List Checker) : Type 0 where
    pub tidy : Every (Tidy draw disk files size seed) ws
    pub noted : Noted draw disk files size seed s
    pub done :
        Done draw disk files size seed s
          (total_by (unread draw disk files size seed) ws)
          (total_by (unjudged draw disk files size seed) ws)
          (total_by unblamed ws)
          (total_by ended ws)

  at-Doing :
      (s : Checking) (pre post : List Checker) (x : Checker)
      → (let ws = pre ++ x ∷ post in
          let rest = pre ++ post in
          Done draw disk files size seed s
            (total_by (unread draw disk files size seed) ws)
            (total_by (unjudged draw disk files size seed) ws)
            (total_by unblamed ws)
            (total_by ended ws)
          ≡ Doing draw disk files size seed s x
              (total_by (unread draw disk files size seed) rest)
              (total_by (unjudged draw disk files size seed) rest)
              (total_by unblamed rest)
              (total_by ended rest))
  at-Doing s pre post x =
      rw
        (
          total_by-at (unread draw disk files size seed) pre x post,
          total_by-at (unjudged draw disk files size seed) pre x post,
          total_by-at unblamed pre x post,
          total_by-at ended pre x post,
        )
        refl

  pub run-Kept :
      {v w : Checking × List Checker} {n : ℕ}
      → CheckRun draw disk files size seed v n w
      → Kept v.0 v.1
      → Kept w.0 w.1 × (length w.1 ≡ length v.1)
  run-Kept check_none k = (k, refl)
  run-Kept (check_step {s} pre post x lives on r) k =
      let (kept, n) = run-Kept r k in
      let y = check_act draw disk files size seed s x in
      let own = Every-at (Tidy draw disk files size seed) pre x post kept.tidy in
      (
        record {
          tidy =
              Every-change (Tidy draw disk files size seed) pre x y.1 post kept.tidy
                (act-Tidy draw disk files size seed s x own);
          noted = act-Noted draw disk files size seed s x own kept.noted;
          done = transport (sym (at-Doing y.0 pre post y.1)) (
              act-Doing draw disk files size seed s x _ _ _ _ own
                (transport (at-Doing s pre post x) kept.done));
        },
        omega (arith, n, length-append pre (x ∷ post), length-append pre (y.1 ∷ post)),
      )

  pub start-Kept : (jobs : ℕ) → (let w = check_start size jobs in Kept w.0 w.1)
  start-Kept jobs =
      let new = taking (replicate size 0) in
      record {
        tidy =
            Every-replicate (Tidy draw disk files size seed) jobs
              (start-Tidy draw disk files size seed);
        noted = record { reported = λ f h. absurd (nothing_there h); mixed = λ h. cc };
        done = record {
          read = omega (arith, total_by-replicate (unread draw disk files size seed) jobs new);
          judged = omega (arith, total_by-replicate (unjudged draw disk files size seed) jobs new);
          blamed = λ h. absurd (omega arith);
          taken = λ h. absurd (omega (arith, total_by-replicate ended jobs new));
        };
      }

  -- What the counters say when all workers have returned.
  all_counted :
      (jobs n : ℕ) (s : Checking) (ws : List Checker)
      → 0 < jobs
      → CheckRun draw disk files size seed (check_start size jobs) n (s, ws)
      → total_by live ws ≡ 0
      → (s.total ≡ sum_below (sizes draw disk files size seed) files)
        × (s.bad ≡ sum_below (faults draw disk files size seed) files)
        × (1 ≤ s.bad → 1 ≤ told s.first)
        × Noted draw disk files size seed s
  all_counted jobs n s ws staffed run quiet =
      let (k, len) = run-Kept run (start-Kept jobs) in
      let all = length-replicate jobs (taking (replicate size 0)) in
      let over : files ≤ s.next =
        k.done.taken
          (omega (arith, len, all, quiet, length-total_by live ended live_or_ended ws)) in
      let no_more = λ (w : Checker → ℕ) (h : w stopped ≡ 0).
        total_by-zero live w (λ x l. ap w (returned x l) ∙ h) ws quiet in
      (
        omega (
          arith,
          k.done.read,
          no_more (unread draw disk files size seed) refl,
          sum_below-capped files (sizes draw disk files size seed) s.next over,
        ),
        omega (
          arith,
          k.done.judged,
          no_more (unjudged draw disk files size seed) refl,
          sum_below-capped files (faults draw disk files size seed) s.next over,
        ),
        λ h. omega (arith, k.done.blamed h, no_more unblamed refl),
        k.noted,
      )
    where
      live_or_ended : (w : Checker) → 1 ≤ live w + ended w
      live_or_ended (taking buf) = omega arith
      live_or_ended (reading buf i) = omega arith
      live_or_ended (comparing buf i got) = omega arith
      live_or_ended (blaming buf e) = omega arith
      live_or_ended stopped = omega arith

      returned : (x : Checker) → live x ≡ 0 → x ≡ stopped
      returned stopped h = refl
      returned (taking buf) h = absurd (omega arith)
      returned (reading buf i) h = absurd (omega arith)
      returned (comparing buf i got) h = absurd (omega arith)
      returned (blaming buf e) h = absurd (omega arith)

  -- The answer that a reader of all files one after the other would give, but for which of the
  -- faults is reported.
  abbrev pub Answers : ℕ × Option (ℕ × Option Fault) → Type 0
  Answers (bytes, none) =
      (bytes ≡ sum_below (sizes draw disk files size seed) files)
      × ((i : ℕ) → i < files → disk i ≡ some (contents draw files seed size i))
  Answers (bytes, some (n, none)) = ⊥
  Answers (bytes, some (n, some f)) =
      (bytes ≡ sum_below (sizes draw disk files size seed) files)
      × (n ≡ sum_below (faults draw disk files size seed) files)
      × (0 < n)
      × Holds draw disk files size seed f

  -- If at least one worker was started and all have returned, then `CompareAndSwap` has not panicked
  -- and the bytes are those of every file that can be read; there is no error exactly if each file
  -- holds the bytes that its index and the seed give, and else the number of files that do not, and
  -- the fault of one of them: it cannot be read, or its length or the byte told of is wrong.
  pub CheckRun-refines :
      (jobs n : ℕ) (s : Checking) (ws : List Checker)
      → 0 < jobs
      → CheckRun draw disk files size seed (check_start size jobs) n (s, ws)
      → total_by live ws ≡ 0
      → (s.panicked ≡ false) × Answers (verify_answer s)
  CheckRun-refines jobs n s ws staffed run quiet =
      let (read, judged, blamed, noted) = all_counted jobs n s ws staffed run quiet in
      let calm : s.panicked ≡ false = elim (Bool-cases s.panicked) [
        | inl h ↦ absurd (omega (arith, quiet, panicked-alive draw disk files size seed run refl h))
        | inr h ↦ h
      ] in
      (
        calm,
        elim (Bool-cases (ltb 0 s.bad)) [
          | inl some_bad ↦ elim (Option-cases s.first) [
            | inl unknown ↦
                let b = blamed (ltb→lt 0 s.bad some_bad) in
                absurd (omega (arith, b, ap told unknown))
            | inr (f, first) ↦
                rw (some_bad, first) (read, judged, ltb→lt 0 s.bad some_bad, noted.reported f first)
          ]
          | inr none_bad ↦ rw none_bad (
            read,
            λ i lt. faultless i (
                sum_below-zero (faults draw disk files size seed) files
                  (omega (arith, judged, ltb→le 0 s.bad none_bad)) i lt),
          )
        ],
      )
    where
      faultless :
          (i : ℕ)
          → faults draw disk files size seed i ≡ 0
          → disk i ≡ some (contents draw files seed size i)
      faultless i h = elim (Option-cases (disk i)) [
        | inl missing ↦
            absurd
              (let one : faults draw disk files size seed i ≡ 1 = rw missing refl in omega arith)
        | inr (got, there) ↦ elim (Bool-cases (same_text got (contents draw files seed size i))) [
          | inl same ↦ there ∙ ap some (eq_of-same_text got _ same)
          | inr other ↦ absurd (
              let one : faults draw disk files size seed i ≡ 1 = rw (there, other) refl in
              omega arith)
        ]
      ]
