-- ===== src/Check/Differences.antt =====
-- The comparison of bytes of packages/fragcheck/main.go.
use zfs_slab_mobility.Prelude.{
  ℕ, suc, ◌+◌, ◌-◌, ◌≤◌, ◌≡◌, ◌≢◌, refl, arith, inl, inr, true, false, not, none, some, List, [],
  ◌∷◌, ◌==◌, length, Bool-cases, get_elem?, same_text, some_injective,
}
use zfs_slab_mobility.Load.{fill_loop}
use zfs_slab_mobility.Check.{first_difference}

pub length-fill_loop : (f : ℕ → ℕ) (k : ℕ) (buf : List ℕ) → length (fill_loop f k buf) ≡ length buf
unfolding fill_loop
length-fill_loop f k (a ∷ b ∷ c ∷ d ∷ e ∷ x ∷ y ∷ h ∷ rest) =
    omega (arith, length-fill_loop f (k + 1) rest)
length-fill_loop f k [] = refl
length-fill_loop f k (a ∷ []) = refl
length-fill_loop f k (a ∷ b ∷ []) = refl
length-fill_loop f k (a ∷ b ∷ c ∷ []) = refl
length-fill_loop f k (a ∷ b ∷ c ∷ d ∷ []) = refl
length-fill_loop f k (a ∷ b ∷ c ∷ d ∷ e ∷ []) = refl
length-fill_loop f k (a ∷ b ∷ c ∷ d ∷ e ∷ x ∷ []) = refl
length-fill_loop f k (a ∷ b ∷ c ∷ d ∷ e ∷ x ∷ y ∷ []) = refl

-- The loop over the bytes tells equal contents from others.
pub no_difference :
    (off : ℕ) (got want : List ℕ)
    → length got ≡ length want
    → first_difference off got want ≡ none
    → same_text got want ≡ true
no_difference off [] [] len h = refl
no_difference off [] (w ∷ want) len h = absurd (omega arith)
no_difference off (g ∷ got) [] len h = absurd (omega arith)
no_difference off (g ∷ got) (w ∷ want) len h = elim (Bool-cases (g == w)) [
  | inl same ↦ rw same (no_difference (off + 1) got want (omega arith) (rw same at h))
  | inr other ↦ absurd (cc)
]

pub some_difference :
    (off : ℕ) (got want : List ℕ) (d : ℕ × ℕ × ℕ)
    → first_difference off got want ≡ some d
    → same_text got want ≡ false
some_difference off [] want d h = cc
some_difference off (g ∷ got) [] d h = cc
some_difference off (g ∷ got) (w ∷ want) d h = elim (Bool-cases (g == w)) [
  | inl same ↦ rw same (some_difference (off + 1) got want d (rw same at h))
  | inr other ↦ rw other refl
]

pub odd_length : (a b : ℕ) → not (a == b) ≡ true → a ≢ b
odd_length a b h e = ground arith

-- The difference that is found is one.
pub difference-Holds :
    (off : ℕ) (got want : List ℕ) (d : ℕ × ℕ × ℕ)
    → first_difference off got want ≡ some d
    → (off ≤ d.0)
      × (get_elem? got (d.0 - off) ≡ some d.1)
      × (get_elem? want (d.0 - off) ≡ some d.2)
      × (d.1 ≢ d.2)
difference-Holds off [] want d h = cc
difference-Holds off (g ∷ got) [] d h = cc
difference-Holds off (g ∷ got) (w ∷ want) d h = elim (Bool-cases (g == w)) [
  | inl same ↦
      let (le, at_got, at_want, ne) = difference-Holds (off + 1) got want d (rw same at h) in
      let one_on : d.0 - off ≡ suc (d.0 - (off + 1)) = omega arith in
      (omega arith, rw one_on at_got, rw one_on at_want, ne)
  | inr other ↦
      let here : (off, g, w) ≡ d = some_injective (rw other at h) in
      rw (← here) (
        let none_on : off - off ≡ 0 = omega arith in
        (omega arith, rw none_on refl, rw none_on refl, λ e. ground arith))
]
