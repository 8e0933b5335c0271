-- ===== src/Load/Dirs.antt =====
-- packages/fragload/main.go: the directories that `write` makes first.
use zfs_slab_mobility.Prelude.{
  ℕ, zero, suc, ◌+◌, ◌-◌, ◌/◌, ◌<◌, ◌≡◌, arith, none, Option-cases, inl, inr, ceil_bounds,
  div_bounds, mul_lt,
}
use zfs_slab_mobility.Load.{Answer, make_dirs}

make_dirs-each :
    (mkdir : ℕ → Answer) (n i : ℕ)
    → make_dirs mkdir n i ≡ none
    → (j : ℕ) → j < n
    → mkdir (i + j) ≡ none
unfolding make_dirs
make_dirs-each mkdir zero i h j lt = absurd (omega arith)
make_dirs-each mkdir (suc n) i h j lt = elim (Option-cases (mkdir i)) [
  | inr (e, failed) ↦ absurd (cc)
  | inl made ↦
      at_or_after j lt made
        (λ k below. make_dirs-each mkdir n (i + 1) (rw (made, make_dirs) at h) k below)
]
  where
    at_or_after :
        (j : ℕ)
        → j < suc n
        → mkdir i ≡ none
        → ((k : ℕ) → k < n → mkdir (i + 1 + k) ≡ none)
        → mkdir (i + j) ≡ none
    at_or_after zero lt made rest = let e : i + 0 ≡ i = omega arith in rw e made
    at_or_after (suc k) lt made rest =
        let e : i + suc k ≡ i + 1 + k = omega arith in rw e (rest k (omega arith))

-- If the loop returns no error, the directory of every file was made.
pub make_dirs-all :
    (mkdir : ℕ → Answer) (files per_dir i : ℕ)
    → 0 < per_dir
    → make_dirs mkdir ((files + per_dir - 1) / per_dir) 0 ≡ none
    → i < files
    → mkdir (i / per_dir) ≡ none
make_dirs-all mkdir files per_dir i h made inside =
    let lt : i / per_dir < (files + per_dir - 1) / per_dir =
      mul_lt (i / per_dir) ((files + per_dir - 1) / per_dir) per_dir
        (omega (arith, (ceil_bounds files per_dir h).0, (div_bounds i per_dir h).0)) in
    let e : 0 + i / per_dir ≡ i / per_dir = omega arith in
    rw e at (make_dirs-each mkdir ((files + per_dir - 1) / per_dir) 0 made (i / per_dir) lt)
