-- ===== src/Prelude/Strings.antt =====
-- Texts as lists of bytes, and Go's maps from texts as association lists.
use Prim.Native.Nat.{ℕ}
use Prim.Native.Char.{code}
use Prim.Native.String.{String}
use mathlib.Core.Path.{◌≡◌, refl}
use mathlib.Core.Bool.{Bool, true, false, ◌&&◌}
use mathlib.Core.Option.{Option, none, some}
use mathlib.Core.List.{List, [], ◌∷◌}
use native.Mathlib.Omega.{arith}
use zfs_slab_mobility.Prelude.Tests.{◌==◌, if◌then◌else◌}

abbrev pub Text : Type 0
Text = List ℕ

-- The bytes of an ASCII literal.
abbrev pub codes : String → Text
codes String.[] = []
codes (String.◌∷◌ c s) = code c ∷ codes s

abbrev pub same_text : Text → Text → Bool
same_text [] [] = true
same_text [] (y ∷ ys) = false
same_text (x ∷ xs) [] = false
same_text (x ∷ xs) (y ∷ ys) = x == y && same_text xs ys

pub same_text_refl : (s : Text) → same_text s s ≡ true
same_text_refl [] = refl
same_text_refl (x ∷ xs) = ground (arith, same_text_refl xs)

pub eq_of-same_text : (s t : Text) → same_text s t ≡ true → s ≡ t
eq_of-same_text [] [] h = refl
eq_of-same_text [] (y ∷ ys) h = cc
eq_of-same_text (x ∷ xs) [] h = cc
eq_of-same_text (x ∷ xs) (y ∷ ys) h = ground (arith, eq_of-same_text xs ys)

-- A map that is not nil; no key stands in it twice. `put` is `m[k] = v`.
abbrev pub Dict {ℓ} : Type ℓ → Type ℓ
Dict A = List (Text × A)

module _ {ℓ} {A : Type ℓ} where
  abbrev pub lookup : Text → Dict A → Option A
  lookup k [] = none
  lookup k ((j, v) ∷ m) = let rest = lookup k m in if same_text j k then some v else rest

  abbrev pub put : Text → A → Dict A → Dict A
  put k v [] = (k, v) ∷ []
  put k v ((j, w) ∷ m) = let rest = put k v m in if same_text j k then (j, v) ∷ m else (j, w) ∷ rest

-- Reading a missing key gives the zero value.
abbrev pub value_or {ℓ} : {A : Type ℓ} → A → Option A → A
value_or d none = d
value_or d (some a) = a
