-- ===== src/Compare/Parse.antt =====
-- packages/fragview/compare.go: `parseExpectation`.
--
-- A float64 is an element of any type; `strconv.ParseFloat` is a parameter, `none` its error.
pub mod Parts
pub mod Written
use mathlib.Core.List.{reverse}
use zfs_slab_mobility.Prelude.{
  ℕ, Bool, true, false, Option, none, some, List, [], ◌∷◌, ◌++◌, ◌&&◌, ◌==◌, not, if◌then◌else◌,
  Text, codes, cut, cut_prefix,
}
use zfs_slab_mobility.Compare.{Expectation}

-- An expectation, or which of the errors it is.
pub data Parsed (F : Type 0) : Type 0 where
  parsed : Expectation F → Parsed F
  no_metric no_operator no_arrow no_floor bad_floor bad_ceiling bad_bound : Parsed F

abbrev pub skip_mark : Text
skip_mark = codes "?skip"

-- The target without the mark, and whether it had one.
abbrev pub unmarked : Text → Option Text → Text × Bool
unmarked to none = (to, false)
unmarked to (some rest) = (reverse rest, true)

abbrev pub cut_skip : Text → Text × Bool
cut_skip to = unmarked to (cut_prefix (reverse skip_mark) (reverse to))

module _ {F : Type 0} (zero_f : F) (parse_float : Text → Option F) where
  abbrev pub with_bound : Expectation F → Option F → Parsed F
  with_bound e none = bad_bound
  with_bound e (some b) = parsed (record e { bound = b })

  -- `hasCeiling`, and the text behind the floor.
  abbrev pub with_ceiling : Expectation F → Text → Option Text → Parsed F
  with_ceiling e bound none = with_bound e (parse_float bound)
  with_ceiling e bound (some ceiling) = elim (parse_float ceiling) [
    | none ↦ bad_ceiling
    | some c ↦ with_bound (record e { ceiling = c }) (parse_float bound)
  ]

  abbrev pub with_floor : Expectation F → Text → Text → Text → Option Text → Parsed F
  with_floor e bound name floor ceiling = elim (parse_float floor) [
    | none ↦ bad_floor
    | some f ↦ with_ceiling (record e { gate = name; floor = f }) bound ceiling
  ]

  abbrev pub with_bounds : Expectation F → Text → Text → Text → Parsed F
  with_bounds e bound name bounds = elim (cut (codes ":") bounds) [
    | none ↦ with_floor e bound name bounds none
    | some (floor, ceiling) ↦ with_floor e bound name floor (some ceiling)
  ]

  -- What follows the operator.
  abbrev pub with_limits : Expectation F → Text → Parsed F
  with_limits e limits = elim (cut (codes "@") limits) [
    | none ↦ with_bound e (parse_float limits)
    | some (bound, gate) ↦ elim (cut (codes ":") gate) [
      | none ↦ no_floor
      | some (name, bounds) ↦ with_bounds e bound name bounds
    ]
  ]

  -- The fields that the text before the limits fills.
  abbrev pub expectation_of : Text → Text → Text → Bool → Bool → Expectation F
  expectation_of metric from to at_most skip = record {
    metric = metric;
    from = from;
    to = to;
    at_most = at_most;
    bound = zero_f;
    gate = [];
    floor = zero_f;
    ceiling = zero_f;
    skip_no_signal = skip;
  }

  abbrev pub with_pair : Text → Bool → Option (Text × Text) → Parsed F
  with_pair metric at_most none = no_operator
  with_pair metric at_most (some (pair, limits)) = elim (cut (codes "->") pair) [
    | none ↦ no_arrow
    | some (from, to) ↦
        let marked = cut_skip to in
        with_limits (expectation_of metric from marked.0 at_most marked.1) limits
  ]

  unfoldable pub parse_expectation : Text → Parsed F
  unfolding cut cut_prefix
  parse_expectation spec = elim (cut (codes ":") spec) [
    | none ↦ no_metric
    | some (metric, rest) ↦ elim (cut (codes "<=") rest) [
      | some parts ↦ with_pair metric true (some parts)
      | none ↦ with_pair metric false (cut (codes ">=") rest)
    ]
  ]
