-- ===== src/Tests/ParseRuns.antt =====
-- packages/fragview/compare.go: `parseExpectation` on some expectations.
use zfs_slab_mobility.Prelude.{
  ℕ, ◌≡◌, refl, true, Option, none, some, if◌then◌else◌, Text, codes, parse_uint, cut_prefix,
}
use zfs_slab_mobility.Compare.Parse.{parsed, no_metric, no_arrow, no_floor, parse_expectation}
use zfs_slab_mobility.Compare.Parse.Written.{Plain, Limits, with_both, parse_expectation-spec_text}

-- Whole numbers in place of float64.
abbrev number : Text → Option ℕ
number s = let (n, bad) = parse_uint s in if bad then none else some n

abbrev limits : Limits
limits = with_both (codes "1") (codes "mixed") (codes "20") (codes "512")

plain : Plain (codes "slab_in") (codes "base") (codes "patched") limits
unfolding cut_prefix
plain = record {
  metric_colon = refl;
  from_dash = refl;
  from_less = refl;
  from_more = refl;
  to_less = refl;
  to_more = refl;
  to_equals = refl;
  to_unmarked = refl;
  limits_less = refl;
  limits_plain = (refl, refl, refl);
}

parse_expectation-spec_text_example :
    parse_expectation 0 number (codes "slab_in:base->patched?skip<=1@mixed:20:512")
    ≡ parsed (record {
      metric = codes "slab_in";
      from = codes "base";
      to = codes "patched";
      at_most = true;
      bound = 1;
      gate = codes "mixed";
      floor = 20;
      ceiling = 512;
      skip_no_signal = true;
    })
unfolding parse_uint
parse_expectation-spec_text_example =
    parse_expectation-spec_text 0 number (codes "slab_in") (codes "base") (codes "patched") true
      true limits plain

without_arrow : parse_expectation 0 number (codes "mixed:base<=1") ≡ no_arrow
unfolding parse_expectation
without_arrow = refl

without_metric : parse_expectation 0 number (codes "base->patched<=1") ≡ no_metric
unfolding parse_expectation
without_metric = refl

without_floor : parse_expectation 0 number (codes "mixed:base->patched>=1@hostage") ≡ no_floor
unfolding parse_expectation
without_floor = refl
