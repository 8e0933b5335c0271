-- ===== src/Tests/CompareRuns.antt =====
-- packages/fragview/compare.go, with numbers for the floats and quotients rounded down.
use zfs_slab_mobility.Prelude.{
  Text, ℕ, ◌+◌, ◌/◌, ◌≡◌, ◌↔◌, refl, false, [], ◌∷◌, some, ltb, leb, ◌==◌, get_elem?, min,
}
use zfs_slab_mobility.Compare.{
  FloatOps, Group, Expectation, paired_loop, judge, judge_one, judge_pair, by_label, median, fatal,
  exit_status,
}
use zfs_slab_mobility.Compare.Passing.{Passes, exit_status-Passes_iff, paired_loop-pairs}

abbrev whole_numbers : FloatOps ℕ
whole_numbers = record {
  zero_f = 0;
  lt_f = ltb;
  le_f = leb;
  is_zero = λ n. n == 0;
  div_f = λ a b. a / b;
  half_sum = λ a b. (a + b) / 2;
}

-- The one metric is named by the empty string.
abbrev seed : ℕ → Text → ℕ
seed n name = n

abbrev stock : Group ℕ
stock = record { label = 1 ∷ []; seeds = seed 500 ∷ seed 900 ∷ seed 400 ∷ []; median_of = seed 500 }

abbrev mobility : Group ℕ
mobility = record {
  label = 2 ∷ [];
  seeds = seed 700 ∷ seed 950 ∷ seed 600 ∷ [];
  median_of = seed 700;
}

abbrev grows : Expectation ℕ
grows = record {
  metric = [];
  from = 1 ∷ [];
  to = 2 ∷ [];
  at_most = false;
  bound = 1;
  gate = [];
  floor = 0;
  ceiling = 800;
  skip_no_signal = false;
}

passes : exit_status whole_numbers (judge whole_numbers (stock ∷ mobility ∷ []) (grows ∷ [])) ≡ 0
unfolding exit_status judge judge_one judge_pair by_label median fatal paired_loop
passes = refl

exit_status-Passes_iff_example :
    (exit_status whole_numbers (judge whole_numbers (stock ∷ mobility ∷ []) (grows ∷ [])) ≡ 0) ↔ (
      (i : ℕ) (e : Expectation ℕ)
      → get_elem? (grows ∷ []) i ≡ some e
      → Passes whole_numbers (stock ∷ mobility ∷ []) e)
exit_status-Passes_iff_example =
    exit_status-Passes_iff whole_numbers (stock ∷ mobility ∷ []) (grows ∷ [])

-- The seed whose baseline is 900 is dropped.
paired_loop-pairs_example :
    let (kept, partners, n) = paired_loop whole_numbers [] 800 stock.seeds mobility.seeds 0 in
    (kept ≡ 500 ∷ 400 ∷ []) × (partners ≡ 700 ∷ 600 ∷ []) × (n + 2 ≡ 0 + min 3 3)
unfolding paired_loop
paired_loop-pairs_example = paired_loop-pairs whole_numbers [] 800 stock.seeds mobility.seeds 0
