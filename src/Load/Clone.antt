-- ===== src/Load/Clone.antt =====
-- packages/fragload/main.go: `cloneRange`, one `copy_file_range` call at a time.
--
-- What the kernel answers to the k-th call, at an offset and for a length, is a parameter. Each call
-- that goes on has copied at least a byte, so a fuel of one more than the size is enough.
use zfs_slab_mobility.Prelude.{
  ℕ, zero, suc, ◌+◌, ◌-◌, ◌≤◌, ◌<◌, ◌≡◌, refl, arith, List, [], ◌∷◌, ltb, if◌then◌else◌, Bool-cases,
  inl, inr, ltb→lt, ltb→le,
}

pub data Reply : Type 0 where
  errno : ℕ → Reply
  copied : ℕ → Reply

pub data Outcome : Type 0 where
  cloned : Outcome
  call_failed : ℕ → ℕ → Outcome
  call_stalled : ℕ → ℕ → Outcome
  out_of_fuel : Outcome

-- What is copied first, and then the rest.
abbrev pub after_copy : ℕ → ℕ → List (ℕ × ℕ) × Outcome → List (ℕ × ℕ) × Outcome
after_copy off n (segs, o) = ((off, n) ∷ segs, o)

-- The body of the loop after a call at `off` for `left` bytes; `rest` goes on from an offset.
abbrev pub after_call : ℕ → ℕ → (ℕ → List (ℕ × ℕ) × Outcome) → Reply → List (ℕ × ℕ) × Outcome
after_call off left rest (errno e) = ([], call_failed off e)
after_call off left rest (copied zero) = ([], call_stalled off left)
after_call off left rest (copied (suc n)) = after_copy off (suc n) (rest (off + suc n))

module _ (call : ℕ → ℕ → ℕ → Reply) (size : ℕ) where
  -- The segments copied, from call `k` and offset `off` on, and how the loop ends.
  unfoldable pub clone_loop : ℕ → ℕ → ℕ → List (ℕ × ℕ) × Outcome
  clone_loop zero k off = ([], out_of_fuel)
  clone_loop (suc fuel) k off =
      let on = after_call off (size - off) (clone_loop fuel (k + 1)) (call k off (size - off)) in
      if ltb off size then on else ([], cloned)

  unfoldable pub clone_range : List (ℕ × ℕ) × Outcome
  unfolding clone_loop
  clone_range = clone_loop (size + 1) 0 0

-- The segments lie end to end, none empty.
abbrev pub Chain : ℕ → List (ℕ × ℕ) → ℕ → Type 0
Chain a [] b = a ≡ b
Chain a ((off, n) ∷ segs) b = (off ≡ a) × (0 < n) × Chain (a + n) segs b

-- What was copied from `a` on up to the end of the loop.
abbrev pub Copied : ℕ → ℕ → List (ℕ × ℕ) × Outcome → Type 0
Copied size a (segs, cloned) = Chain a segs size
Copied size a (segs, call_failed off e) = Chain a segs off × (off < size)
Copied size a (segs, call_stalled off left) = Chain a segs off × (off + left ≡ size) × (0 < left)
Copied size a (segs, out_of_fuel) = ⊥

module _ (call : ℕ → ℕ → ℕ → Reply) (size : ℕ) where
  after_copy-Copied :
      (a n : ℕ) (r : List (ℕ × ℕ) × Outcome)
      → 0 < n
      → Copied size (a + n) r
      → Copied size a (after_copy a n r)
  after_copy-Copied a n (segs, cloned) h c = (refl, h, c)
  after_copy-Copied a n (segs, call_failed off e) h (c, lt) = ((refl, h, c), lt)
  after_copy-Copied a n (segs, call_stalled off left) h (c, e, lt) = ((refl, h, c), e, lt)
  after_copy-Copied a n (segs, out_of_fuel) h c = c

  clone_loop-Copied :
      (fuel k off : ℕ)
      → ((k off len n : ℕ) → call k off len ≡ copied n → n ≤ len)
      → off ≤ size
      → size < off + fuel
      → Copied size off (clone_loop call size fuel k off)
  unfolding clone_loop
  clone_loop-Copied zero k off fair inside enough = absurd (omega arith)
  clone_loop-Copied (suc fuel) k off fair inside enough = elim (Bool-cases (ltb off size)) [
    | inr over ↦ rw over (let e : off ≡ size = omega (arith, ltb→le off size over) in e)
    | inl more ↦ rw more (
        one_more (call k off (size - off)) (clone_loop call size fuel (k + 1))
          (fair k off (size - off)) (λ b le gt. clone_loop-Copied fuel (k + 1) b fair le gt)
          (ltb→lt off size more))
  ]
    where
      one_more :
          (r : Reply) (rest : ℕ → List (ℕ × ℕ) × Outcome)
          → ((n : ℕ) → r ≡ copied n → n ≤ size - off)
          → ((b : ℕ) → b ≤ size → size < b + fuel → Copied size b (rest b))
          → off < size
          → Copied size off (after_call off (size - off) rest r)
      one_more (errno e) rest f h more = (refl, more)
      one_more (copied zero) rest f h more = (refl, omega arith, omega arith)
      one_more (copied (suc n)) rest f h more =
          let le = f (suc n) refl in
          after_copy-Copied off (suc n) (rest (off + suc n)) (omega arith)
            (h (off + suc n) (omega arith) (omega arith))

  -- If no call copies more than it is asked to, the loop comes to an end: it has copied the whole
  -- file in segments that lie end to end, or all that lies before the call that failed or copied
  -- nothing, and that call stands before the end of the file.
  pub clone_range-ends :
      ((k off len n : ℕ) → call k off len ≡ copied n → n ≤ len)
      → Copied size 0 (clone_range call size)
  unfolding clone_range
  clone_range-ends fair = clone_loop-Copied (size + 1) 0 0 fair (omega arith) (omega arith)
