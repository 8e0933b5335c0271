-- ===== src/Prelude/Fields.antt =====
-- What the program uses of Go's strings and strconv, on ASCII bytes.
use Prim.Native.Nat.{ℕ, ◌+◌, ◌-◌, ◌*◌, ◌^◌}
use mathlib.Core.Bool.{Bool, true, false, ◌&&◌, ◌||◌}
use mathlib.Core.Option.{Option, none, some}
use mathlib.Core.List.{List, [], ◌∷◌, ◌++◌, reverse}
use zfs_slab_mobility.Prelude.Tests.{ltb, leb, ◌==◌, if◌then◌else◌}
use zfs_slab_mobility.Prelude.Strings.{Text}

abbrev pub is_space : ℕ → Bool
is_space c = c == b' ' || (leb 9 c && leb c 13)

close_field : Text → List Text → List Text
close_field [] rest = rest
close_field (c ∷ cs) rest = (c ∷ cs) ∷ rest

fields_loop : Text → Text → List Text
unfolding close_field
fields_loop [] field = close_field field []
fields_loop (c ∷ s) field = elim (is_space c) [
  | true ↦ close_field field (fields_loop s [])
  | false ↦ fields_loop s (field ++ c ∷ [])
]

-- `strings.Fields`.
unfoldable pub fields : Text → List Text
unfolding fields_loop
fields s = fields_loop s []

-- `strings.CutPrefix`: what stands behind a prefix, if it is there.
unfoldable pub cut_prefix : Text → Text → Option Text
cut_prefix [] s = some s
cut_prefix (p ∷ ps) [] = none
cut_prefix (p ∷ ps) (c ∷ s) = let rest = cut_prefix ps s in if p == c then rest else none

abbrev pub has_prefix : Text → Text → Bool
has_prefix p s = elim (cut_prefix p s) [ none ↦ false | some rest ↦ true ]

-- `strings.Cut`: what stands before and behind the first `sep`.
unfoldable pub cut : Text → Text → Option (Text × Text)
unfolding cut_prefix
cut sep [] = elim (cut_prefix sep []) [ none ↦ none | some rest ↦ some ([], rest) ]
cut sep (c ∷ s) =
    let later = cut sep s in
    elim (cut_prefix sep (c ∷ s)) [
      | some rest ↦ some ([], rest)
      | none ↦ elim later [ none ↦ none | some (before, after) ↦ some (c ∷ before, after) ]
    ]

abbrev pub max_u64 : ℕ
max_u64 = 2 ^ 64 - 1

-- The digits of `strconv.ParseUint(s, 10, 64)`: the number, and whether it is an error. A number
-- out of range comes as the largest one, with an error; so do all further bytes then, digits or not.
uint_loop : Text → ℕ → ℕ × Bool
uint_loop [] n = (n, false)
uint_loop (c ∷ s) n =
    let m = n * 10 + (c - b'0') in
    let rest = uint_loop s m in
    if ltb c b'0' || ltb b'9' c then (0, true) else if ltb max_u64 m then (max_u64, true) else rest

unfoldable pub parse_uint : Text → ℕ × Bool
unfolding uint_loop
parse_uint [] = (0, true)
parse_uint (c ∷ s) = uint_loop (c ∷ s) 0

abbrev pub trim_left : Text → Text
trim_left [] = []
trim_left (c ∷ s) = let rest = trim_left s in if is_space c then rest else c ∷ s

-- `strings.TrimSpace` and `strings.HasSuffix`, from behind.
abbrev pub trim_space : Text → Text
trim_space s = reverse (trim_left (reverse (trim_left s)))

abbrev pub has_suffix : Text → Text → Bool
has_suffix p s = has_prefix (reverse p) (reverse s)

-- A hexadecimal digit.
abbrev pub hex_digit : ℕ → Option ℕ
hex_digit c =
    if leb b'0' c && leb c b'9'
    then some (c - b'0')
    else if leb b'a' c && leb c b'f'
    then some (c - b'a' + 10)
    else if leb b'A' c && leb c b'F'
    then some (c - b'A' + 10)
    else none

hex_loop : Text → ℕ → Option ℕ
hex_loop [] n = some n
hex_loop (c ∷ s) n = elim (hex_digit c) [
  | none ↦ none
  | some d ↦ let rest = hex_loop s (n * 16 + d) in if ltb max_u64 (n * 16 + d) then none else rest
]

-- `strconv.ParseUint(s, 16, 64)`, `none` for an error.
unfoldable pub parse_hex : Text → Option ℕ
unfolding hex_loop
parse_hex [] = none
parse_hex (c ∷ s) = hex_loop (c ∷ s) 0
