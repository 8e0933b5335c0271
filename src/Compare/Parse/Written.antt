-- ===== src/Compare/Parse/Written.antt =====
-- packages/fragview/compare.go: a written expectation is read by its parts.
use mathlib.Core.List.{append-nil, reverse, reverse-append, reverse-reverse}
use zfs_slab_mobility.Prelude.{
  Option-cases, inl, inr, ℕ, ◌≡◌, refl, ◌∙◌, ap, Bool, true, false, Option, none, some, [], ◌∷◌,
  ◌++◌, Text, codes, cut, cut_prefix,
}
use zfs_slab_mobility.Compare.{Expectation}
use zfs_slab_mobility.Compare.Parse.{
  Parsed, parsed, bad_floor, bad_ceiling, bad_bound, skip_mark, unmarked, cut_skip, with_floor,
  with_ceiling, with_bound, with_bounds, with_limits, with_pair, expectation_of, parse_expectation,
}
use zfs_slab_mobility.Compare.Parse.Parts.{
  is_free, cut_prefix-append, cut-found, cut-later, cut-behind, cut-append, cut-free,
  is_free-append, first_free,
}

-- The numbers of an expectation as they are written: a bound, and maybe a gate with a floor and
-- maybe a ceiling.
pub data Limits : Type 0 where
  bound_only : Text → Limits
  with_gate : Text → Text → Text → Limits
  with_both : Text → Text → Text → Text → Limits

abbrev pub limits_text : Limits → Text
limits_text (bound_only bound) = bound
limits_text (with_gate bound gate floor) = bound ++ (codes "@" ++ (gate ++ (codes ":" ++ floor)))
limits_text (with_both bound gate floor ceiling) =
    bound ++ (codes "@" ++ (gate ++ (codes ":" ++ (floor ++ (codes ":" ++ ceiling)))))

abbrev pub mark_of : Bool → Text
mark_of true = skip_mark
mark_of false = []

abbrev pub operator : Bool → Text
operator true = codes "<="
operator false = codes ">="

abbrev pub pair_of : Text → Text → Bool → Text → Text
pair_of from to skip rest = from ++ (codes "->" ++ (to ++ (mark_of skip ++ rest)))

-- An expectation as it is written.
abbrev pub spec_text : Text → Text → Text → Bool → Bool → Limits → Text
spec_text metric from to at_most skip limits =
    metric ++ (codes ":" ++ pair_of from to skip (operator at_most ++ limits_text limits))

-- No separator stands in a part before it.
abbrev pub PlainLimits : Limits → Type 0
PlainLimits (bound_only bound) = is_free b'@' bound ≡ true
PlainLimits (with_gate bound gate floor) =
    (is_free b'@' bound ≡ true) × (is_free b':' gate ≡ true) × (is_free b':' floor ≡ true)
PlainLimits (with_both bound gate floor ceiling) =
    (is_free b'@' bound ≡ true) × (is_free b':' gate ≡ true) × (is_free b':' floor ≡ true)

pub record Plain (metric from to : Text) (limits : Limits) : Type 0 where
  pub metric_colon : is_free b':' metric ≡ true
  pub from_dash : is_free b'-' from ≡ true
  pub from_less : is_free b'<' from ≡ true
  pub from_more : is_free b'>' from ≡ true
  pub to_less : is_free b'<' to ≡ true
  pub to_more : is_free b'>' to ≡ true
  pub to_equals : is_free b'=' to ≡ true
  pub to_unmarked : cut_prefix (reverse skip_mark) (reverse to) ≡ none
  pub limits_less : is_free b'<' (limits_text limits) ≡ true
  pub limits_plain : PlainLimits limits

cut_skip-mark :
    (to : Text) (skip : Bool)
    → cut_prefix (reverse skip_mark) (reverse to) ≡ none
    → cut_skip (to ++ (mark_of skip ++ [])) ≡ (to, skip)
cut_skip-mark to false h = ap cut_skip (append-nil to) ∙ ap (unmarked to) h
cut_skip-mark to true h =
    let found : cut_prefix (reverse skip_mark) (reverse (to ++ skip_mark)) ≡ some (reverse to) =
      ap (cut_prefix (reverse skip_mark)) (reverse-append to skip_mark)
      ∙ cut_prefix-append (reverse skip_mark) (reverse to) in
    ap (unmarked (to ++ skip_mark)) found ∙ ap (λ t. (t, true)) (reverse-reverse to)

mark-free : (c : ℕ) (skip : Bool) → is_free c skip_mark ≡ true → is_free c (mark_of skip) ≡ true
mark-free c true h = h
mark-free c false h = refl

module _ (metric from to : Text) (skip : Bool) (limits : Limits)
    (plain : Plain metric from to limits) where
  cut-less :
      cut (codes "<=") (pair_of from to skip (codes "<=" ++ limits_text limits))
      ≡ some (pair_of from to skip [], limits_text limits)
  unfolding cut_prefix
  cut-less = cut-behind _ _ from _ _ _ plain.from_less (
      cut-later (codes "<=") _ _ _ b'-' refl (
        cut-later (codes "<=") _ _ _ b'>' refl (
          cut-behind _ _ to _ _ _ plain.to_less (
            cut-behind _ _ (mark_of skip) _ _ _ (mark-free b'<' skip refl)
              (cut-found (codes "<=") _ _ refl)))))

  no_less : cut (codes "<=") (pair_of from to skip (codes ">=" ++ limits_text limits)) ≡ none
  no_less =
      let tail = codes ">=" ++ limits_text limits in
      cut-free b'<' (codes "=") (pair_of from to skip tail) (
        is_free-append b'<' from (codes "->" ++ (to ++ (mark_of skip ++ tail))) plain.from_less (
          is_free-append b'<' (codes "->") (to ++ (mark_of skip ++ tail)) refl (
            is_free-append b'<' to (mark_of skip ++ tail) plain.to_less (
              is_free-append b'<' (mark_of skip) tail (mark-free b'<' skip refl)
                (is_free-append b'<' (codes ">=") (limits_text limits) refl plain.limits_less)))))

  arrow_no_more :
      (t : Text) (k : Bool) (rest : Text)
      → is_free b'=' t ≡ true
      → cut_prefix (codes ">=") (codes ">" ++ (t ++ (mark_of k ++ (codes ">=" ++ rest)))) ≡ none
  unfolding cut_prefix
  arrow_no_more [] true rest h = refl
  arrow_no_more [] false rest h = refl
  arrow_no_more (x ∷ t) k rest h = rw ((first_free b'=' x t h).0) refl

  cut-more :
      cut (codes ">=") (pair_of from to skip (codes ">=" ++ limits_text limits))
      ≡ some (pair_of from to skip [], limits_text limits)
  unfolding cut_prefix
  cut-more = cut-behind _ _ from _ _ _ plain.from_more (
      cut-later (codes ">=") _ _ _ b'-' refl (
        cut-later (codes ">=") _ _ _ b'>'
          (arrow_no_more to skip (limits_text limits) plain.to_equals)
          (cut-behind _ _ to _ _ _ plain.to_more (
            cut-behind _ _ (mark_of skip) _ _ _ (mark-free b'>' skip refl)
              (cut-found (codes ">=") _ _ refl)))))

module _ {F : Type 0} (zero_f : F) (parse_float : Text → Option F) where
  -- What is made of the numbers, none of which may be missing: the first that cannot be read tells
  -- the error, the floor before the ceiling before the bound.
  abbrev pub numbers_read :
      Text → Text → Text → Bool → Bool → Text → Option F → Option F → Option F → Parsed F
  numbers_read metric from to at_most skip gate none c b = bad_floor
  numbers_read metric from to at_most skip gate (some f) none b = bad_ceiling
  numbers_read metric from to at_most skip gate (some f) (some c) none = bad_bound
  numbers_read metric from to at_most skip gate (some f) (some c) (some b) = parsed (record {
    metric = metric;
    from = from;
    to = to;
    at_most = at_most;
    bound = b;
    gate = gate;
    floor = f;
    ceiling = c;
    skip_no_signal = skip;
  })

  -- What an expectation is to be read as; a floor or a ceiling that is not written is 0.
  abbrev pub with_written : Text → Text → Text → Bool → Bool → Limits → Parsed F
  with_written metric from to at_most skip (bound_only bound) =
      numbers_read metric from to at_most skip [] (some zero_f) (some zero_f) (parse_float bound)
  with_written metric from to at_most skip (with_gate bound gate floor) =
      numbers_read metric from to at_most skip gate (parse_float floor) (some zero_f)
        (parse_float bound)
  with_written metric from to at_most skip (with_both bound gate floor ceiling) =
      numbers_read metric from to at_most skip gate (parse_float floor) (parse_float ceiling)
        (parse_float bound)

  module _ (metric from to : Text) (at_most skip : Bool) where
    abbrev start : Expectation F
    start = expectation_of zero_f parse_float metric from to at_most skip

    bound-read :
        (b : Option F)
        → with_bound zero_f parse_float start b
          ≡ numbers_read metric from to at_most skip [] (some zero_f) (some zero_f) b
    bound-read none = refl
    bound-read (some b) = refl

    gate_bound-read :
        (gate : Text) (f c : F) (b : Option F)
        → with_bound zero_f parse_float (record start { gate = gate; floor = f; ceiling = c }) b
          ≡ numbers_read metric from to at_most skip gate (some f) (some c) b
    gate_bound-read gate f c none = refl
    gate_bound-read gate f c (some b) = refl

    gate-read :
        (bound gate floor : Text)
        → with_floor zero_f parse_float start bound gate floor none
          ≡ numbers_read metric from to at_most skip gate
              (parse_float floor)
              (some zero_f)
              (parse_float bound)
    gate-read bound gate floor = elim (Option-cases (parse_float floor)) [
      | inl bad ↦ rw (bad, with_floor) refl
      | inr (f, ok) ↦ rw (ok, with_floor) (gate_bound-read gate f zero_f (parse_float bound))
    ]

    both-read :
        (bound gate floor ceiling : Text)
        → with_floor zero_f parse_float start bound gate floor (some ceiling)
          ≡ numbers_read metric from to at_most skip gate
              (parse_float floor)
              (parse_float ceiling)
              (parse_float bound)
    both-read bound gate floor ceiling = elim (Option-cases (parse_float floor)) [
      | inl bad ↦ rw (bad, with_floor) refl
      | inr (f, ok) ↦ elim (Option-cases (parse_float ceiling)) [
        | inl bad_c ↦ rw (ok, bad_c, with_floor, with_ceiling) refl
        | inr (c, ok_c) ↦
            rw (ok, ok_c, with_floor, with_ceiling) (gate_bound-read gate f c (parse_float bound))
      ]
    ]

  limits-read :
      (metric from to : Text) (at_most skip : Bool) (limits : Limits)
      → PlainLimits limits
      → (let e = expectation_of zero_f parse_float metric from to at_most skip in
          with_limits zero_f parse_float e (limits_text limits)
          ≡ with_written metric from to at_most skip limits)
  limits-read metric from to at_most skip (bound_only bound) h =
      rw (cut-free b'@' [] bound h, with_limits)
        (bound-read metric from to at_most skip (parse_float bound))
  limits-read metric from to at_most skip (with_gate bound gate floor) (h, g, f) =
      rw
        (
          cut-append b'@' [] bound (gate ++ (codes ":" ++ floor)) h,
          cut-append b':' [] gate floor g,
          cut-free b':' [] floor f,
          with_limits,
          with_bounds,
        )
        (gate-read metric from to at_most skip bound gate floor)
  limits-read metric from to at_most skip (with_both bound gate floor ceiling) (h, g, f) =
      rw
        (
          cut-append b'@' [] bound (gate ++ (codes ":" ++ (floor ++ (codes ":" ++ ceiling)))) h,
          cut-append b':' [] gate (floor ++ (codes ":" ++ ceiling)) g,
          cut-append b':' [] floor ceiling f,
          with_limits,
          with_bounds,
        )
        (both-read metric from to at_most skip bound gate floor ceiling)

  pair-read :
      (metric from to : Text) (at_most skip : Bool) (limits : Limits)
      → Plain metric from to limits
      → with_pair zero_f parse_float metric at_most
          (some (pair_of from to skip [], limits_text limits))
        ≡ with_written metric from to at_most skip limits
  pair-read metric from to at_most skip limits plain =
      rw
        (
          cut-append b'-' (codes ">") from (to ++ (mark_of skip ++ [])) plain.from_dash,
          cut_skip-mark to skip plain.to_unmarked,
          with_pair,
        )
        (limits-read metric from to at_most skip limits plain.limits_plain)

  -- An expectation that is written as documented, with no separator inside a part, is read as its
  -- parts, a floor or ceiling that is not written as 0; if a number cannot be read, the error is that
  -- of the floor, or else of the ceiling, or else of the bound.
  pub parse_expectation-spec_text :
      (metric from to : Text) (at_most skip : Bool) (limits : Limits)
      → Plain metric from to limits
      → parse_expectation zero_f parse_float (spec_text metric from to at_most skip limits)
        ≡ with_written metric from to at_most skip limits
  unfolding parse_expectation
  parse_expectation-spec_text metric from to true skip limits plain =
      rw
        (
          cut-append b':' [] metric (pair_of from to skip (codes "<=" ++ limits_text limits))
              plain.metric_colon,
          cut-less metric from to skip limits plain,
          parse_expectation,
        )
        (pair-read metric from to true skip limits plain)
  parse_expectation-spec_text metric from to false skip limits plain =
      rw
        (
          cut-append b':' [] metric (pair_of from to skip (codes ">=" ++ limits_text limits))
              plain.metric_colon,
          no_less metric from to skip limits plain,
          cut-more metric from to skip limits plain,
          parse_expectation,
        )
        (pair-read metric from to false skip limits plain)
