-- ===== src/Compare/Parse/Parts.antt =====
-- Where packages/fragview/compare.go finds the separators of an expectation.
use mathlib.Core.List.{append-nil}
use zfs_slab_mobility.Prelude.{
  ℕ, ◌≡◌, refl, ◌∙◌, ap, arith, Bool, true, false, none, some, [], ◌∷◌, ◌++◌, ◌&&◌, ◌==◌, not, Text,
  cut, cut_prefix, Bool-cases, inl, inr,
}

-- A text without a byte.
abbrev pub is_free : ℕ → Text → Bool
is_free c [] = true
is_free c (x ∷ s) = not (c == x) && is_free c s

pub cut_prefix-append : (p s : Text) → cut_prefix p (p ++ s) ≡ some s
unfolding cut_prefix
cut_prefix-append [] s = refl
cut_prefix-append (c ∷ p) s = let e : (c == c) ≡ true = ground arith in rw e (cut_prefix-append p s)

pub cut-found : (sep s r : Text) → cut_prefix sep s ≡ some r → cut sep s ≡ some ([], r)
unfolding cut
cut-found sep [] r h = rw (h, cut) refl
cut-found sep (x ∷ s) r h = rw (h, cut) refl

pub cut-later :
    (sep s a b : Text) (x : ℕ)
    → cut_prefix sep (x ∷ s) ≡ none
    → cut sep s ≡ some (a, b)
    → cut sep (x ∷ s) ≡ some (x ∷ a, b)
unfolding cut
cut-later sep s a b x h e = rw (h, e, cut) refl

cut-never :
    (sep s : Text) (x : ℕ)
    → cut_prefix sep (x ∷ s) ≡ none
    → cut sep s ≡ none
    → cut sep (x ∷ s) ≡ none
unfolding cut
cut-never sep s x h e = rw (h, e, cut) refl

pub other_byte : (c x : ℕ) (p s : Text) → (c == x) ≡ false → cut_prefix (c ∷ p) (x ∷ s) ≡ none
unfolding cut_prefix
other_byte c x p s h = rw (h, cut_prefix) refl

pub first_free :
    (c x : ℕ) (s : Text) → is_free c (x ∷ s) ≡ true → ((c == x) ≡ false) × (is_free c s ≡ true)
first_free c x s h = elim (Bool-cases (c == x)) [
  | inl same ↦ absurd cc
  | inr other ↦ (other, rw other at h)
]

-- Nothing is found in a text that is free of the separator's first byte.
pub cut-free : (c : ℕ) (p a : Text) → is_free c a ≡ true → cut (c ∷ p) a ≡ none
unfolding cut cut_prefix
cut-free c p [] h = refl
cut-free c p (x ∷ a) h =
    let (other, rest) = first_free c x a h in
    cut-never (c ∷ p) a x (other_byte c x p a other) (cut-free c p a rest)

-- A separator that is found behind a text is found behind that text and another that is free of its
-- first byte.
pub cut-behind :
    (c : ℕ) (p a s t u : Text)
    → is_free c a ≡ true
    → cut (c ∷ p) s ≡ some (t, u)
    → cut (c ∷ p) (a ++ s) ≡ some (a ++ t, u)
cut-behind c p [] s t u h e = e
cut-behind c p (x ∷ a) s t u h e =
    let (other, rest) = first_free c x a h in
    cut-later (c ∷ p) (a ++ s) (a ++ t) u x (other_byte c x p (a ++ s) other)
      (cut-behind c p a s t u rest e)

-- A separator is found behind a text that is free of its first byte.
pub cut-append :
    (c : ℕ) (p a b : Text) → is_free c a ≡ true → cut (c ∷ p) (a ++ ((c ∷ p) ++ b)) ≡ some (a, b)
cut-append c p a b h =
    cut-behind c p a ((c ∷ p) ++ b) [] b h
      (cut-found (c ∷ p) ((c ∷ p) ++ b) b (cut_prefix-append (c ∷ p) b))
    ∙ ap (λ t. some (t, b)) (append-nil a)

pub is_free-append :
    (c : ℕ) (a b : Text) → is_free c a ≡ true → is_free c b ≡ true → is_free c (a ++ b) ≡ true
is_free-append c [] b h k = k
is_free-append c (x ∷ a) b h k =
    let (other, rest) = first_free c x a h in rw (other, is_free-append c a b rest k) refl
