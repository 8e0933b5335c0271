-- ===== src/Load/Written.antt =====
-- What packages/fragload/main.go has written when its workers are done.
use zfs_slab_mobility.Prelude.{
  ℕ, ◌+◌, ◌≤◌, ◌<◌, ◌≡◌, ◌≢◌, refl, sym, ◌∙◌, ap, arith, ◌⊎◌, inl, inr, Option, none, some, List,
  [], ◌∷◌, ◌++◌, ltb, ◌==◌, if◌then◌else◌, replicate, total_by, total_by-at, total_by-le,
  length-total_by, length, length-append, total_by-grows, Every, Every-at, Every-change,
  Every-replicate, length-replicate, total_by-replicate, Bool-cases, if_intro, ltb→le, dec_lt,
}
use zfs_slab_mobility.Load.{
  fill_loop, fill, Writer, taking, holding, filled, stopped, Writing, put_file, live, write_act,
  WriteRun, write_none, write_step, write_start, first_error, Answer,
}

-- Filling a buffer twice is filling it once.
fill_loop-fill_loop :
    (f g : ℕ → ℕ) (i k : ℕ) (buf : List ℕ) → fill_loop f i (fill_loop g k buf) ≡ fill_loop f i buf
unfolding fill_loop
fill_loop-fill_loop f g i k (a ∷ b ∷ c ∷ d ∷ e ∷ x ∷ y ∷ h ∷ rest) =
    rw (fill_loop-fill_loop f g (i + 1) (k + 1) rest) refl
fill_loop-fill_loop f g i k [] = refl
fill_loop-fill_loop f g i k (a ∷ []) = refl
fill_loop-fill_loop f g i k (a ∷ b ∷ []) = refl
fill_loop-fill_loop f g i k (a ∷ b ∷ c ∷ []) = refl
fill_loop-fill_loop f g i k (a ∷ b ∷ c ∷ d ∷ []) = refl
fill_loop-fill_loop f g i k (a ∷ b ∷ c ∷ d ∷ e ∷ []) = refl
fill_loop-fill_loop f g i k (a ∷ b ∷ c ∷ d ∷ e ∷ x ∷ []) = refl
fill_loop-fill_loop f g i k (a ∷ b ∷ c ∷ d ∷ e ∷ x ∷ y ∷ []) = refl

module _ (draw : ℕ → ℕ → ℕ → ℕ) (files seed size : ℕ) where
  -- What file `i` is to hold: the buffer is zero at first.
  abbrev pub contents : ℕ → List ℕ
  contents i = fill draw (replicate size 0) seed i

  pub Clean : List ℕ → Type 0
  Clean buf = (i : ℕ) → fill draw buf seed i ≡ contents i

  pub start-Clean : Clean (replicate size 0)
  unfolding Clean
  start-Clean i = refl

  pub Clean-full : (buf : List ℕ) → Clean buf → (i : ℕ) → fill draw buf seed i ≡ contents i
  unfolding Clean
  Clean-full buf clean i = clean i

  pub fill-Clean : (buf : List ℕ) (i : ℕ) → Clean buf → Clean (fill draw buf seed i)
  unfolding Clean fill
  fill-Clean buf i clean j = fill_loop-fill_loop _ _ 0 0 buf ∙ clean j

  -- The buffers of a worker.
  Tidy : Writer → Type 0
  Tidy (taking buf) = Clean buf
  Tidy (holding buf i) = Clean buf
  Tidy (filled buf i) = Clean buf × (buf ≡ contents i)
  Tidy stopped = Unit

  abbrev busy_with : ℕ → Writer → ℕ
  busy_with i (holding buf j) = if j == i then 1 else 0
  busy_with i (filled buf j) = if j == i then 1 else 0
  busy_with i _ = 0

  abbrev ended : Writer → ℕ
  ended stopped = 1
  ended _ = 0

  record Kept (s : Writing) (ws : List Writer) : Type 0 where
    pub tidy : Every Tidy ws
    pub told :
        s.errs ≡ []
        → (i : ℕ) → i < s.next
        → i < files
        → (s.disk i ≡ some (contents i)) ⊎ (1 ≤ total_by (busy_with i) ws)
    pub taken : s.errs ≡ [] → 1 ≤ total_by ended ws → files ≤ s.next

  take-Kept :
      (pre post : List Writer) (buf : List ℕ) (s : Writing)
      → Kept s (pre ++ taking buf ∷ post)
      → Kept
          (record s { next = s.next + 1 })
          (pre ++ (if ltb s.next files then holding buf s.next else stopped) ∷ post)
  unfolding Tidy
  take-Kept pre post buf s k =
      let took = holding buf s.next in
      let clean = Every-at Tidy pre (taking buf) post k.tidy in
      if_intro (λ x. Kept (record s { next = s.next + 1 }) (pre ++ x ∷ post)) (ltb s.next files)
        took stopped
        (λ more. record {
          tidy = Every-change Tidy pre (taking buf) took post k.tidy clean;
          told = λ none_yet i lt inside. elim (dec_lt i s.next) [
            | yes before ↦ elim (k.told none_yet i before inside) [
              | inl written ↦ inl written
              | inr busy ↦
                  inr (total_by-grows (busy_with i) pre (taking buf) took post (omega arith) busy)
            ]
            | no this ↦ inr (
                let e : s.next ≡ i = omega arith in
                let own : busy_with i took ≡ 1 = ground arith in
                omega (arith, own, total_by-at (busy_with i) pre took post))
          ];
          taken = λ none_yet some_ended. omega (
            arith,
            k.taken none_yet
                (total_by-grows ended pre took (taking buf) post (omega arith) some_ended),
          );
        })
        (λ over. record {
          tidy = Every-change Tidy pre (taking buf) stopped post k.tidy tt;
          told = λ none_yet i lt inside.
              elim (k.told none_yet i (omega (arith, ltb→le s.next files over)) inside) [
                | inl written ↦ inl written
                | inr busy ↦
                    inr (
                      total_by-grows (busy_with i) pre (taking buf) stopped post (omega arith) busy)
              ];
          taken = λ none_yet some_ended. omega (arith, ltb→le s.next files over);
        })

  -- A worker that has filled its buffer.
  fill-Kept :
      (pre post : List Writer) (buf : List ℕ) (i : ℕ) (s : Writing)
      → Kept s (pre ++ holding buf i ∷ post)
      → Kept s (pre ++ filled (fill draw buf seed i) i ∷ post)
  unfolding Tidy
  fill-Kept pre post buf i s k =
      let clean = Every-at Tidy pre (holding buf i) post k.tidy in
      let after = filled (fill draw buf seed i) i in
      record {
        tidy =
            Every-change Tidy pre (holding buf i) after post k.tidy
              (fill-Clean buf i clean, Clean-full buf clean i);
        told = λ none_yet j lt inside. elim (k.told none_yet j lt inside) [
          | inl written ↦ inl written
          | inr busy ↦
              inr (total_by-grows (busy_with j) pre (holding buf i) after post (omega arith) busy)
        ];
        taken = λ none_yet some_ended.
            k.taken none_yet
              (total_by-grows ended pre after (holding buf i) post (omega arith) some_ended);
      }

  -- A worker whose file is written.
  written-Kept :
      (pre post : List Writer) (buf : List ℕ) (i : ℕ) (s : Writing)
      → Kept s (pre ++ filled buf i ∷ post)
      → Kept (record s { disk = put_file s.disk i (some buf) }) (pre ++ taking buf ∷ post)
  unfolding Tidy
  written-Kept pre post buf i s k =
      let (clean, full) = Every-at Tidy pre (filled buf i) post k.tidy in
      record {
        tidy = Every-change Tidy pre (filled buf i) (taking buf) post k.tidy clean;
        told = λ none_yet j lt inside. elim (Bool-cases (j == i)) [
          | inl own ↦ inl (
              let e : j ≡ i = ground arith in
              rw own (ap some full ∙ ap (λ n. some (contents n)) (sym e)))
          | inr other ↦ elim (k.told none_yet j lt inside) [
            | inl written ↦ inl (rw other written)
            | inr busy ↦ inr (
                let light : busy_with j (filled buf i) ≡ 0 = ground arith in
                total_by-grows (busy_with j) pre (filled buf i) (taking buf) post
                  (omega (arith, light)) busy)
          ]
        ];
        taken = λ none_yet some_ended.
            k.taken none_yet
              (total_by-grows ended pre (taking buf) (filled buf i) post (omega arith) some_ended);
      }

  -- Once there is an error, only the buffers matter.
  failed-Kept :
      (pre post : List Writer) (x : Writer) (s : Writing) (t : Writing)
      → (t.errs ≢ [])
      → Kept s (pre ++ x ∷ post)
      → Kept t (pre ++ stopped ∷ post)
  unfolding Tidy
  failed-Kept pre post x s t some_err k = record {
    tidy = Every-change Tidy pre x stopped post k.tidy tt;
    told = λ none_yet i lt inside. absurd (some_err none_yet);
    taken = λ none_yet some_ended. absurd (some_err none_yet);
  }

  snoc_ne : (es : List ℕ) (e : ℕ) → es ++ e ∷ [] ≢ []
  snoc_ne [] e h = cc
  snoc_ne (x ∷ es) e h = cc

  act-Kept :
      (pre post : List Writer) (x : Writer) (answer : Answer) (left : Option (List ℕ)) (s : Writing)
      → Kept s (pre ++ x ∷ post)
      → (let r = write_act draw files seed answer left s x in Kept r.0 (pre ++ r.1 ∷ post))
  unfolding write_act
  act-Kept pre post (taking buf) answer left s k = take-Kept pre post buf s k
  act-Kept pre post (holding buf i) answer left s k = fill-Kept pre post buf i s k
  act-Kept pre post (filled buf i) none left s k = written-Kept pre post buf i s k
  act-Kept pre post (filled buf i) (some e) left s k =
      failed-Kept pre post (filled buf i) s _ (snoc_ne s.errs e) k
  act-Kept pre post stopped answer left s k = k

  run-Kept :
      {v w : Writing × List Writer}
      → WriteRun draw files seed v w
      → Kept v.0 v.1
      → Kept w.0 w.1 × (length w.1 ≡ length v.1)
  run-Kept write_none k = (k, refl)
  run-Kept (write_step {s} pre post x answer left r) k =
      let (kept, n) = run-Kept r k in
      let y = (write_act draw files seed answer left s x).1 in
      (
        act-Kept pre post x answer left s kept,
        omega (arith, n, length-append pre (x ∷ post), length-append pre (y ∷ post)),
      )

  start-Kept :
      (jobs : ℕ) (disk : ℕ → Option (List ℕ)) → (let w = write_start disk size jobs in Kept w.0 w.1)
  unfolding Tidy
  start-Kept jobs disk = record {
    tidy = Every-replicate Tidy jobs start-Clean;
    told = λ none_yet i lt inside. absurd (omega arith);
    taken = λ none_yet some_ended.
        absurd (omega (arith, total_by-replicate ended jobs (taking (replicate size 0))));
  }

  -- If at least one worker was started, all have returned and none sent an error, every file holds
  -- the bytes that its index and the seed give, in whatever order the workers ran.
  pub WriteRun-complete :
      (jobs : ℕ) (disk : ℕ → Option (List ℕ)) (s : Writing) (ws : List Writer)
      → 0 < jobs
      → WriteRun draw files seed (write_start disk size jobs) (s, ws)
      → total_by live ws ≡ 0
      → first_error s.errs ≡ none
      → (i : ℕ) → i < files
      → s.disk i ≡ some (contents i)
  WriteRun-complete jobs disk s ws staffed run quiet no_err i inside =
      let (k, n) = run-Kept run (start-Kept jobs disk) in
      let all = length-replicate jobs (taking (replicate size 0)) in
      let no_errs = no_error s.errs no_err in
      let all_taken : files ≤ s.next =
        k.taken no_errs
          (omega (arith, n, all, quiet, length-total_by live ended live_or_ended ws)) in
      elim (k.told no_errs i (omega arith) inside) [
        | inl written ↦ written
        | inr busy ↦ absurd (omega (arith, total_by-le (busy_with i) live (busy_live i) ws))
      ]
    where
      no_error : (es : List ℕ) → first_error es ≡ none → es ≡ []
      no_error [] h = refl
      no_error (e ∷ es) h = cc

      live_or_ended : (w : Writer) → 1 ≤ live w + ended w
      live_or_ended (taking buf) = omega arith
      live_or_ended (holding buf j) = omega arith
      live_or_ended (filled buf j) = omega arith
      live_or_ended stopped = omega arith

      busy_live : (j : ℕ) (w : Writer) → busy_with j w ≤ live w
      busy_live j (taking buf) = omega arith
      busy_live j (holding buf l) = ground arith
      busy_live j (filled buf l) = ground arith
      busy_live j stopped = omega arith
