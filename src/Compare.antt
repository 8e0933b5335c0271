-- ===== src/Compare.antt =====
-- packages/fragview/compare.go: whether the differences between two builds hold up.
--
-- A float64 is an element of any type with the operations used here (`FloatOps`). A map from names
-- to numbers is a function, zero at a missing key, as Go reads one. A name is its bytes.
pub mod Passing
pub mod Parse
pub mod Groups
use zfs_slab_mobility.Prelude.{
  ℕ, zero, suc, ◌+◌, ◌-◌, ◌/◌, ◌%◌, Bool, true, false, not, ◌&&◌, ◌||◌, Option, none, some, List,
  [], ◌∷◌, ◌==◌, if◌then◌else◌, length, get_or, Text, same_text, map,
}

-- The float64 operations of the source: `half_sum a b` is (a + b) / 2.
pub record FloatOps (F : Type 0) : Type 0 where
  pub zero_f : F
  pub lt_f : F → F → Bool
  pub le_f : F → F → Bool
  pub is_zero : F → Bool
  pub div_f : F → F → F
  pub half_sum : F → F → F

module _ {F : Type 0} (ops : FloatOps F) where
  insert : F → List F → List F
  insert x [] = x ∷ []
  insert x (y ∷ ys) = if ops.lt_f y x then y ∷ insert x ys else x ∷ y ∷ ys

  -- `sort.Float64s`.
  abbrev sorted : List F → List F
  sorted [] = []
  sorted (x ∷ xs) = insert x (sorted xs)

  unfoldable pub median : List F → F
  unfolding insert
  median xs =
      let s = sorted xs in
      let n = length s in
      if n == 0
      then ops.zero_f
      else if n % 2 == 1
      then get_or s (n / 2) ops.zero_f
      else ops.half_sum (get_or s (n / 2 - 1) ops.zero_f) (get_or s (n / 2) ops.zero_f)

-- `group`.
pub record Group (F : Type 0) : Type 0 where
  pub label : Text
  pub seeds : List (Text → F)
  pub median_of : Text → F

pub record Expectation (F : Type 0) : Type 0 where
  pub metric : Text
  pub from : Text
  pub to : Text
  pub at_most : Bool
  pub bound : F
  pub gate : Text
  pub floor : F
  pub ceiling : F
  pub skip_no_signal : Bool

pub record Verdict (F : Type 0) : Type 0 where
  pub expectation : Expectation F
  pub a : F
  pub b : F
  pub ratio : F
  pub ok : Bool
  pub missing : Text
  pub nosignal : Bool
  pub dropped : ℕ

-- `verdict.fatal`.
unfoldable pub fatal : {F : Type 0} → Verdict F → Bool
fatal v =
    if not (same_text v.missing [])
    then true
    else if v.nosignal
    then not v.expectation.skip_no_signal
    else not v.ok

module _ {F : Type 0} (ops : FloatOps F) where
  -- The loop of `pairedBelow`: the pairs of seeds kept, and the number dropped.
  unfoldable pub paired_loop :
      Text → F → List (Text → F) → List (Text → F) → ℕ → List F × List F × ℕ
  paired_loop metric ceiling [] to dropped = ([], [], dropped)
  paired_loop metric ceiling (s ∷ from) [] dropped = ([], [], dropped)
  paired_loop metric ceiling (s ∷ from) (t ∷ to) dropped =
      let (xs, ys, n) = paired_loop metric ceiling from to dropped in
      if ops.le_f ceiling (s metric) then (xs, ys, n + 1) else (s metric ∷ xs, t metric ∷ ys, n)

  unfoldable pub paired_below : Group F → Group F → Text → F → F × F × ℕ
  unfolding paired_loop median
  paired_below from to metric ceiling =
      let (xs, ys, dropped) = paired_loop metric ceiling from.seeds to.seeds 0 in
      if length xs == 0
      then (from.median_of metric, to.median_of metric, dropped)
      else (median ops xs, median ops ys, dropped)

  -- `byLabel[name]`, where the last group with a label has taken it over.
  unfoldable pub by_label : List (Group F) → Text → Option (Group F)
  by_label [] name = none
  by_label (g ∷ gs) name = elim (by_label gs name) [
    | some later ↦ some later
    | none ↦ if same_text g.label name then some g else none
  ]

  abbrev blank : Expectation F → Verdict F
  blank e = record {
    expectation = e;
    a = ops.zero_f;
    b = ops.zero_f;
    ratio = ops.zero_f;
    ok = false;
    missing = [];
    nosignal = false;
    dropped = 0;
  }

  -- The two medians compared, with the seeds dropped.
  abbrev pub medians : Group F → Group F → Expectation F → F × F × ℕ
  medians from to e =
      if ops.lt_f ops.zero_f e.ceiling
      then paired_below from to e.metric e.ceiling
      else (from.median_of e.metric, to.median_of e.metric, 0)

  -- The test for a baseline not worth comparing against.
  abbrev pub no_signal : Group F → Expectation F → F → Bool
  no_signal from e a =
      let gauge = if same_text e.gate [] then a else from.median_of e.gate in
      ops.is_zero a
      || (ops.lt_f ops.zero_f e.floor && ops.lt_f gauge e.floor)
      || (ops.lt_f ops.zero_f e.ceiling && ops.le_f e.ceiling gauge)

  -- The default case of the switch: both groups are there.
  unfoldable pub judge_pair : Group F → Group F → Expectation F → Verdict F
  unfolding paired_below
  judge_pair from to e =
      let (a, b, dropped) = medians from to e in
      let v = record (blank e) { a = a; b = b; dropped = dropped } in
      let ratio = ops.div_f b a in
      if no_signal from e a then record v { nosignal = true } else record v {
        ratio = ratio;
        ok = if e.at_most then ops.le_f ratio e.bound else ops.le_f e.bound ratio;
      }

  unfoldable pub judge_one : List (Group F) → Expectation F → Verdict F
  unfolding judge_pair by_label
  judge_one gs e = elim (by_label gs e.from) [
    | none ↦ record (blank e) { missing = e.from }
    | some from ↦ elim (by_label gs e.to) [
      | none ↦ record (blank e) { missing = e.to }
      | some to ↦ judge_pair from to e
    ]
  ]

  unfoldable pub judge : List (Group F) → List (Expectation F) → List (Verdict F)
  unfolding judge_one
  judge gs [] = []
  judge gs (e ∷ es) = judge_one gs e ∷ judge gs es

  -- The end of `compareSnapshots`: the exit status, 1 from the first fatal verdict on.
  unfoldable pub exit_status : List (Verdict F) → ℕ
  unfolding fatal
  exit_status [] = 0
  exit_status (v ∷ vs) = if fatal v then 1 else exit_status vs
