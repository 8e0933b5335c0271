-- ===== src/Compare/Passing.antt =====
-- When a comparison of packages/fragview/compare.go passes.
use zfs_slab_mobility.Prelude.{
  Text, some_injective, nothing_there, ℕ, zero, suc, ◌+◌, ◌≡◌, ◌≢◌, ◌↔◌, ◌⊎◌, inl, inr, refl, sym,
  ap, ◌∙◌, arith, min, Bool, true, false, not, none, some, List, [], ◌∷◌, if◌then◌else◌, length,
  map, get_elem?, Bool-cases, Option-cases,
}
use zfs_slab_mobility.Compare.{
  FloatOps, Group, Expectation, fatal, blank, paired_loop, medians, no_signal, by_label, judge_pair,
  judge_one, judge, exit_status,
}

undenied : (b : Bool) → not b ≡ false → b ≡ true
undenied b h = ground arith

contrary : true ≢ false
contrary h = cc

module _ {F : Type 0} (ops : FloatOps F) where
  -- What an expectation asks of two groups: a signal and a ratio within the bound, or none and the
  -- leave to skip.
  abbrev pub Holds : Group F → Group F → Expectation F → Type 0
  Holds from to e =
      let m = medians ops from to e in
      let ratio = ops.div_f m.1 m.0 in
      ((no_signal ops from e m.0 ≡ true) × (e.skip_no_signal ≡ true))
      ⊎ ((no_signal ops from e m.0 ≡ false)
          × ((if e.at_most then ops.le_f ratio e.bound else ops.le_f e.bound ratio) ≡ true))

  abbrev pub Passes : List (Group F) → Expectation F → Type 0
  Passes gs e =
      (from : Group F) × (to : Group F) × (by_label ops gs e.from ≡ some from)
      × (by_label ops gs e.to ≡ some to)
      × Holds from to e

  judge_pair-fatal :
      (from to : Group F) (e : Expectation F)
      → (fatal (judge_pair ops from to e) ≡ false) ↔ Holds from to e
  unfolding judge_pair fatal
  judge_pair-fatal from to e =
      let m = medians ops from to e in
      elim (Bool-cases (no_signal ops from e m.0)) [
        | inl quiet ↦ rw quiet (
          λ h. inl (refl, undenied e.skip_no_signal h),
          λ h. elim h [ inl (_, skip) ↦ rw skip refl | inr (loud, _) ↦ absurd (contrary loud) ],
        )
        | inr loud ↦ rw loud (
          λ h. inr (refl, undenied _ h),
          λ h. elim h [
            | inl (quiet, _) ↦ absurd (contrary (sym quiet))
            | inr (_, fits) ↦ rw fits refl
          ],
        )
      ]

  missing_fatal :
      (e : Expectation F) (name : Text) → fatal (record (blank ops e) { missing = name }) ≡ true
  unfolding fatal
  missing_fatal e name = ground arith

  judge_one-lost :
      (gs : List (Group F)) (e : Expectation F)
      → (by_label ops gs e.from ≡ none) ⊎ (by_label ops gs e.to ≡ none)
      → fatal (judge_one ops gs e) ≡ true
  unfolding judge_one
  judge_one-lost gs e (inl e1) = rw (judge_one, e1) (missing_fatal e e.from)
  judge_one-lost gs e (inr e2) = elim (Option-cases (by_label ops gs e.from)) [
    | inl e1 ↦ rw (judge_one, e1) (missing_fatal e e.from)
    | inr (from, e1) ↦ rw (judge_one, e1, e2) (missing_fatal e e.to)
  ]

  judge_one-pair :
      (gs : List (Group F)) (e : Expectation F) (from to : Group F)
      → by_label ops gs e.from ≡ some from
      → by_label ops gs e.to ≡ some to
      → fatal (judge_one ops gs e) ≡ fatal (judge_pair ops from to e)
  unfolding judge_one
  judge_one-pair gs e from to e1 e2 = rw (judge_one, e1, e2) refl

  lost_fails :
      (gs : List (Group F)) (e : Expectation F)
      → (by_label ops gs e.from ≡ none) ⊎ (by_label ops gs e.to ≡ none)
      → Passes gs e
      → true ≡ false
  lost_fails gs e (inl e1) (_, _, found, _, _) = absurd (nothing_there (sym e1 ∙ found))
  lost_fails gs e (inr e2) (_, _, _, found, _) = absurd (nothing_there (sym e2 ∙ found))

  lost_iff :
      (gs : List (Group F)) (e : Expectation F)
      → (by_label ops gs e.from ≡ none) ⊎ (by_label ops gs e.to ≡ none)
      → (fatal (judge_one ops gs e) ≡ false) ↔ Passes gs e
  lost_iff gs e out =
      let bad = judge_one-lost gs e out in
      (λ h. absurd (contrary (sym bad ∙ h)), λ p. bad ∙ lost_fails gs e out p)

  judge_one-fatal :
      (gs : List (Group F)) (e : Expectation F) → (fatal (judge_one ops gs e) ≡ false) ↔ Passes gs e
  judge_one-fatal gs e = elim (Option-cases (by_label ops gs e.from)) [
    | inl e1 ↦ lost_iff gs e (inl e1)
    | inr (from, e1) ↦ elim (Option-cases (by_label ops gs e.to)) [
      | inl e2 ↦ lost_iff gs e (inr e2)
      | inr (to, e2) ↦
          let same = judge_one-pair gs e from to e1 e2 in
          let (right, left) = judge_pair-fatal from to e in
          (
            λ h. (from, to, e1, e2, right (sym same ∙ h)),
            λ (from', to', e1', e2', h).
                judge_one-pair gs e from' to' e1' e2' ∙ (judge_pair-fatal from' to' e).1 h,
          )
    ]
  ]

  all_pass :
      (gs : List (Group F)) (e : Expectation F) (es : List (Expectation F))
      → Passes gs e
      → ((i : ℕ) (e' : Expectation F) → get_elem? es i ≡ some e' → Passes gs e')
      → (i : ℕ) (e' : Expectation F) → get_elem? (e ∷ es) i ≡ some e'
      → Passes gs e'
  all_pass gs e es first rest zero e' h = rw (← some_injective h) first
  all_pass gs e es first rest (suc i) e' h = rest i e' h

  -- A comparison exits with 0 exactly when, for every expectation, both groups are there and it
  -- holds: either the baseline shows a signal and the ratio is within the bound, or it shows none
  -- and the expectation may be skipped.
  pub exit_status-Passes_iff :
      (gs : List (Group F)) (es : List (Expectation F))
      → (exit_status ops (judge ops gs es) ≡ 0)
        ↔ ((i : ℕ) (e : Expectation F) → get_elem? es i ≡ some e → Passes gs e)
  unfolding exit_status judge
  exit_status-Passes_iff gs [] = (λ _ i e h. absurd (nothing_there h), λ _. refl)
  exit_status-Passes_iff gs (e ∷ es) =
      let (right, left) = judge_one-fatal gs e in
      elim (Bool-cases (fatal (judge_one ops gs e))) [
        | inl bad ↦ rw bad (
          λ h. absurd (omega (arith, h)),
          λ all. absurd (contrary (sym bad ∙ left (all 0 e refl))),
        )
        | inr fine ↦
            let (down, up) = exit_status-Passes_iff gs es in
            rw fine
              (λ h. all_pass gs e es (right fine) (down h), λ all. up (λ i e' h. all (suc i) e' h))
      ]

  -- The runs with a partner whose baseline is below the cap, each with its partner.
  abbrev pub paired : List (Text → F) → List (Text → F) → List ((Text → F) × (Text → F))
  paired [] to = []
  paired (s ∷ from) [] = []
  paired (s ∷ from) (t ∷ to) = (s, t) ∷ paired from to

  abbrev pub uncapped : Text → F → List ((Text → F) × (Text → F)) → List ((Text → F) × (Text → F))
  uncapped metric ceiling [] = []
  uncapped metric ceiling (p ∷ ps) =
      let rest = uncapped metric ceiling ps in
      if ops.le_f ceiling (p.0 metric) then rest else p ∷ rest

  -- The seeds kept are those runs with a partner whose baseline is below the cap, in their order;
  -- the other group keeps the values of their partners, and the count of those dropped grows by all
  -- other pairs.
  pub paired_loop-pairs :
      (metric : Text) (ceiling : F) (from to : List (Text → F)) (dropped : ℕ)
      → let (kept, partners, n) = paired_loop ops metric ceiling from to dropped in
        let pairs = uncapped metric ceiling (paired from to) in
        (kept ≡ map (λ (p : (Text → F) × (Text → F)). p.0 metric) pairs)
        × (partners ≡ map (λ (p : (Text → F) × (Text → F)). p.1 metric) pairs)
        × (n + length pairs ≡ dropped + min (length from) (length to))
  unfolding paired_loop
  paired_loop-pairs metric ceiling [] to dropped = (refl, refl, omega arith)
  paired_loop-pairs metric ceiling (s ∷ from) [] dropped = (refl, refl, omega arith)
  paired_loop-pairs metric ceiling (s ∷ from) (t ∷ to) dropped =
      let (own, others, total) = paired_loop-pairs metric ceiling from to dropped in
      elim (Bool-cases (ops.le_f ceiling (s metric))) [
        | inl capped ↦ rw capped (own, others, omega (arith, total))
        | inr low ↦
            rw low (ap (◌∷◌ (s metric)) own, ap (◌∷◌ (t metric)) others, omega (arith, total))
      ]
