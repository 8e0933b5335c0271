-- ===== src/Check/Counted.antt =====
-- What each step of a worker of packages/fragcheck/main.go keeps true of the counters.
use zfs_slab_mobility.Prelude.{
  ℕ, ◌+◌, ◌-◌, ◌≤◌, ◌<◌, ◌≡◌, ◌≢◌, refl, sym, ◌∙◌, ap, arith, ◌⊎◌, inl, inr, true, false, not,
  Option, none, some, List, ltb, ◌==◌, if◌then◌else◌, replicate, length, length-replicate,
  Bool-cases, Option-cases, if_intro, ltb→le, ltb→lt, get_elem?, same_text, eq_of-same_text,
  sum_below, sum_below-next, capped, capped-inside, capped-outside,
}
use zfs_slab_mobility.Load.{fill}
use zfs_slab_mobility.Load.Written.{contents, Clean, start-Clean, Clean-full, fill-Clean}
use zfs_slab_mobility.Check.Differences.{
  length-fill_loop, no_difference, some_difference, odd_length, difference-Holds,
}
use zfs_slab_mobility.Check.{
  Fault, unreadable, wrong_length, wrong_byte, Checker, taking, reading, comparing, blaming,
  stopped, Checking, first_difference, clashes, keep_first, swap_first, compared, was_read,
  check_act,
}

-- How many bytes reading a file gives, and whether it differs from what it is to hold.
abbrev pub size_read : Option (List ℕ) → ℕ
size_read none = 0
size_read (some got) = length got

abbrev pub differs : Option (List ℕ) → List ℕ → ℕ
differs none want = 1
differs (some got) want = if same_text got want then 0 else 1

abbrev pub unblamed : Checker → ℕ
unblamed (blaming want e) = 1
unblamed _ = 0

abbrev pub ended : Checker → ℕ
ended stopped = 1
ended _ = 0

abbrev pub told : Option Fault → ℕ
told none = 0
told (some e) = 1

module _ (draw : ℕ → ℕ → ℕ → ℕ) (disk : ℕ → Option (List ℕ)) (files size seed : ℕ) where
  abbrev pub expected : ℕ → List ℕ
  expected i = contents draw files seed size i

  abbrev pub sizes : ℕ → ℕ
  sizes i = size_read (disk i)

  abbrev pub faults : ℕ → ℕ
  faults i = differs (disk i) (contents draw files seed size i)

  -- What is reported of a file is true of it.
  abbrev pub Holds : Fault → Type 0
  Holds (unreadable i) = (i < files) × (disk i ≡ none)
  Holds (wrong_length i n) =
      (i < files) × (got : List ℕ) × (disk i ≡ some got) × (length got ≡ n) × (n ≢ size)
  Holds (wrong_byte i off g w) =
      (i < files)
      × (got : List ℕ) × (disk i ≡ some got)
      × (get_elem? got off ≡ some g)
      × (get_elem? (expected i) off ≡ some w)
      × (g ≢ w)

  unfoldable pub Tidy : Checker → Type 0
  Tidy (taking want) = Clean draw files seed size want
  Tidy (reading want i) = Clean draw files seed size want × (i < files)
  Tidy (comparing want i got) = Clean draw files seed size want × (disk i ≡ some got) × (i < files)
  Tidy (blaming want e) = Clean draw files seed size want × Holds e
  Tidy stopped = Unit

  pub start-Tidy : Tidy (taking (replicate size 0))
  unfolding Tidy
  start-Tidy = start-Clean draw files seed size

  -- What a worker has yet to add to the counters.
  abbrev pub unread : Checker → ℕ
  unread (reading want i) = sizes i
  unread _ = 0

  abbrev pub unjudged : Checker → ℕ
  unjudged (reading want i) = faults i
  unjudged (comparing want i got) = faults i
  unjudged _ = 0

  -- What the shared state and the workers, of whom the others weigh what is given, have done.
  pub record Done (s : Checking) (r j b e : ℕ) : Type 0 where
    pub read : s.total + r ≡ sum_below (capped files sizes) s.next
    pub judged : s.bad + j ≡ sum_below (capped files faults) s.next
    pub blamed : 1 ≤ s.bad → 1 ≤ told s.first + b
    pub taken : 1 ≤ e → files ≤ s.next

  abbrev pub Doing : Checking → Checker → ℕ → ℕ → ℕ → ℕ → Type 0
  Doing s x r j b e = Done s (r + unread x) (j + unjudged x) (b + unblamed x) (e + ended x)

  take-Doing :
      (s : Checking) (want : List ℕ) (r j b e : ℕ)
      → Doing s (taking want) r j b e
      → Doing
          (record s { next = s.next + 1 })
          (if ltb s.next files then reading want s.next else stopped)
          r
          j
          b
          e
  take-Doing s want r j b e d =
      if_intro (λ x. Doing (record s { next = s.next + 1 }) x r j b e) (ltb s.next files)
        (reading want s.next) stopped
        (λ more. record {
          read = omega (
            arith,
            d.read,
            sum_below-next (capped files sizes) s.next,
            capped-inside files sizes s.next more,
          );
          judged = omega (
            arith,
            d.judged,
            sum_below-next (capped files faults) s.next,
            capped-inside files faults s.next more,
          );
          blamed = λ h. d.blamed h;
          taken = λ h. omega (arith, d.taken h);
        })
        (λ over. record {
          read = omega (
            arith,
            d.read,
            sum_below-next (capped files sizes) s.next,
            capped-outside files sizes s.next over,
          );
          judged = omega (
            arith,
            d.judged,
            sum_below-next (capped files faults) s.next,
            capped-outside files faults s.next over,
          );
          blamed = λ h. d.blamed h;
          taken = λ h. omega (arith, ltb→le s.next files over);
        })

  read-Doing :
      (s : Checking) (want : List ℕ) (i r j b e : ℕ)
      → Doing s (reading want i) r j b e
      → (let t = was_read s want i (disk i) in Doing t.0 t.1 r j b e)
  read-Doing s want i r j b e d = elim (Option-cases (disk i)) [
    | inl missing ↦
        let no_bytes : sizes i ≡ 0 = rw missing refl in
        let one_fault : faults i ≡ 1 = rw missing refl in
        rw missing (record {
          read = omega (arith, d.read, no_bytes);
          judged = omega (arith, d.judged, one_fault);
          blamed = λ h. omega arith;
          taken = λ h. d.taken h;
        })
    | inr (got, there) ↦
        let bytes : sizes i ≡ length got = rw there refl in
        rw there (record {
          read = omega (arith, d.read, bytes);
          judged = d.judged;
          blamed = λ h. d.blamed h;
          taken = λ h. d.taken h;
        })
  ]

  pub length-contents : (i : ℕ) → length (expected i) ≡ size
  unfolding fill
  length-contents i = length-fill_loop _ 0 (replicate size 0) ∙ length-replicate size 0

  -- A file is judged by its length and its first difference as by all its bytes.
  wrong_length-fault :
      (i : ℕ) (got : List ℕ) → disk i ≡ some got → (length got == size) ≡ false → faults i ≡ 1
  wrong_length-fault i got there odd = elim (Bool-cases (same_text got (expected i))) [
    | inl same ↦
        let e : length got ≡ size =
          ap length (eq_of-same_text got (expected i) same) ∙ length-contents i in
        absurd (ground arith)
    | inr other ↦ rw (there, other) refl
  ]

  compared-fault :
      (i : ℕ) (got : List ℕ)
      → disk i ≡ some got
      → (length got == size) ≡ true
      → ((first_difference 0 got (expected i) ≡ none) × (faults i ≡ 0))
        ⊎ ((d : ℕ × ℕ × ℕ) × (first_difference 0 got (expected i) ≡ some d) × (faults i ≡ 1))
  compared-fault i got there even = elim (Option-cases (first_difference 0 got (expected i))) [
    | inl none_found ↦
        let len : length got ≡ length (expected i) =
          (let e : length got ≡ size = ground arith in e ∙ sym (length-contents i)) in
        inl (none_found, rw (there, no_difference 0 got (expected i) len none_found) refl)
    | inr (d, found) ↦ inr (d, found, rw (there, some_difference 0 got (expected i) d found) refl)
  ]

  judge-Doing :
      (s : Checking) (want : List ℕ) (i : ℕ) (got : List ℕ) (r j b e : ℕ)
      → Clean draw files seed size want
      → disk i ≡ some got
      → Doing s (comparing want i got) r j b e
      → (let t = check_act draw disk files size seed s (comparing want i got) in
          Doing t.0 t.1 r j b e)
  unfolding check_act
  judge-Doing s want i got r j b e clean there d =
      let full : fill draw want seed i ≡ expected i =
        Clean-full draw files seed size want clean i in
      elim (Bool-cases (length got == size)) [
        | inr odd ↦
            let one = wrong_length-fault i got there odd in
            rw odd (record {
              read = d.read;
              judged = omega (arith, d.judged, one);
              blamed = λ h. omega arith;
              taken = λ h. d.taken h;
            })
        | inl even ↦ elim (compared-fault i got there even) [
          | inl (none_found, no_fault) ↦
              rw (even, full, none_found)
                (record {
                  read = d.read;
                  judged = omega (arith, d.judged, no_fault);
                  blamed = λ h. d.blamed h;
                  taken = λ h. d.taken h;
                })
          | inr ((off, g, w), found, one) ↦
              rw (even, full, found)
                (record {
                  read = d.read;
                  judged = omega (arith, d.judged, one);
                  blamed = λ h. omega arith;
                  taken = λ h. d.taken h;
                })
        ]
      ]

  blame-Doing :
      (s : Checking) (want : List ℕ) (f : Fault) (r j b e : ℕ)
      → Doing s (blaming want f) r j b e
      → Doing (swap_first s f) (taking want) r j b e
  blame-Doing s want f r j b e d =
      if_intro (λ (t : Checking). Doing t (taking want) r j b e) (clashes s.first f)
        (record s { panicked = true }) (record s { first = keep_first s.first f })
        (λ clash. record {
          read = d.read;
          judged = d.judged;
          blamed = λ h. told_before s.first clash;
          taken = λ h. d.taken h;
        })
        (λ _. record {
          read = d.read;
          judged = d.judged;
          blamed = λ h. told_after s.first;
          taken = λ h. d.taken h;
        })
    where
      told_before : (o : Option Fault) → clashes o f ≡ true → 1 ≤ told o + (b + 0)
      told_before none h = cc
      told_before (some g) h = omega arith

      told_after : (o : Option Fault) → 1 ≤ told (keep_first o f) + (b + 0)
      told_after none = omega arith
      told_after (some g) = omega arith

  pub act-Doing :
      (s : Checking) (x : Checker) (r j b e : ℕ)
      → Tidy x
      → Doing s x r j b e
      → (let t = check_act draw disk files size seed s x in Doing t.0 t.1 r j b e)
  unfolding check_act Tidy
  act-Doing s (taking want) r j b e t d = take-Doing s want r j b e d
  act-Doing s (reading want i) r j b e t d = read-Doing s want i r j b e d
  act-Doing s (comparing want i got) r j b e (clean, there, _) d =
      judge-Doing s want i got r j b e clean there d
  act-Doing s (blaming want f) r j b e t d = blame-Doing s want f r j b e d
  act-Doing s stopped r j b e t d = d

  pub act-Tidy :
      (s : Checking) (x : Checker) → Tidy x → Tidy (check_act draw disk files size seed s x).1
  unfolding check_act Tidy
  act-Tidy s (taking want) t =
      if_intro Tidy (ltb s.next files) (reading want s.next) stopped
        (λ more. (t, ltb→lt s.next files more)) (λ _. tt)
  act-Tidy s (reading want i) (t, lt) = was (disk i) refl
    where
      was : (o : Option (List ℕ)) → disk i ≡ o → Tidy (was_read s want i o).1
      was none h = (t, (lt, h))
      was (some got) h = (t, h, lt)
  act-Tidy s (comparing want i got) (clean, there, lt) =
      if_intro (λ (p : Checking × Checker). Tidy p.1) (not (length got == size)) _ _
        (λ odd. (clean, (lt, got, there, refl, λ e. odd_length (length got) size odd e)))
        (λ _.
          was (fill draw want seed i) (fill-Clean draw files seed size want i clean)
            (Clean-full draw files seed size want clean i)
            (first_difference 0 got (fill draw want seed i)) refl)
    where
      was :
          (buf : List ℕ)
          → Clean draw files seed size buf
          → buf ≡ expected i
          → (o : Option (ℕ × ℕ × ℕ)) → first_difference 0 got buf ≡ o
          → Tidy (compared s buf i o).1
      was buf ok full none h = ok
      was buf ok full (some (off, g, w)) h =
          let (_, at_got, at_buf, ne) = difference-Holds 0 got buf (off, g, w) h in
          let here : off - 0 ≡ off = omega arith in
          (ok, (lt, got, there, rw here at at_got, rw (here, full) at at_buf, ne))
  act-Tidy s (blaming want f) (t, _) = t
  act-Tidy s stopped t = t
