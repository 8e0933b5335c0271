-- ===== src/Model/Sweep/Copy.antt =====
-- The `copy` of packages/fragview/main.go, block by block.
use zfs_slab_mobility.Prelude.{
  ℕ, zero, suc, ◌+◌, ◌-◌, ◌≤◌, ◌<◌, ◌≡◌, refl, ap, arith, length, get_elem?, some, List, [], ◌∷◌,
  ◌⊎◌,
}
use zfs_slab_mobility.Kpage.Classes.{Counts}
use zfs_slab_mobility.Model.Sweep.{copy_at}

pub length-copy_at : (at n : ℕ) (src dst : List Counts) → length (copy_at at n src dst) ≡ length dst
unfolding copy_at
length-copy_at at n src [] = refl
length-copy_at (suc at) n src (d ∷ dst) = ap suc (length-copy_at at n src dst)
length-copy_at zero zero src (d ∷ dst) = refl
length-copy_at zero (suc n) [] (d ∷ dst) = refl
length-copy_at zero (suc n) (x ∷ src) (d ∷ dst) = ap suc (length-copy_at zero n src dst)

pub copy_at_in :
    (at n b : ℕ) (src dst : List Counts) (v : Counts)
    → at ≤ b
    → b < at + n
    → b < length dst
    → get_elem? src (b - at) ≡ some v
    → get_elem? (copy_at at n src dst) b ≡ some v
unfolding copy_at
copy_at_in at n b src [] v lo hi len h = absurd (omega arith)
copy_at_in (suc at) n zero src (d ∷ dst) v lo hi len h = absurd (omega arith)
copy_at_in (suc at) n (suc b) src (d ∷ dst) v lo hi len h =
    let e : b - at ≡ suc b - suc at = omega arith in
    copy_at_in at n b src dst v (omega arith) (omega arith) (omega arith) (rw e h)
copy_at_in zero zero b src (d ∷ dst) v lo hi len h = absurd (omega arith)
copy_at_in zero (suc n) b [] (d ∷ dst) v lo hi len h = cc
copy_at_in zero (suc n) zero (x ∷ src) (d ∷ dst) v lo hi len h = h
copy_at_in zero (suc n) (suc b) (x ∷ src) (d ∷ dst) v lo hi len h =
    let e : b - 0 ≡ b = omega arith in
    let e' : suc b - 0 ≡ suc b = omega arith in
    copy_at_in zero n b src dst v (omega arith) (omega arith) (omega arith) (rw e (rw e' at h))

pub copy_at_out :
    (at n b : ℕ) (src dst : List Counts)
    → (b < at) ⊎ (at + n ≤ b)
    → get_elem? (copy_at at n src dst) b ≡ get_elem? dst b
unfolding copy_at
copy_at_out at n b src [] out = refl
copy_at_out (suc at) n zero src (d ∷ dst) out = refl
copy_at_out (suc at) n (suc b) src (d ∷ dst) out = copy_at_out at n b src dst (omega arith)
copy_at_out zero zero b src (d ∷ dst) out = refl
copy_at_out zero (suc n) b [] (d ∷ dst) out = refl
copy_at_out zero (suc n) zero (x ∷ src) (d ∷ dst) out = absurd (omega arith)
copy_at_out zero (suc n) (suc b) (x ∷ src) (d ∷ dst) out =
    copy_at_out zero n b src dst (omega arith)
