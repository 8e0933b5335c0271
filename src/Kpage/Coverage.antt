-- ===== src/Kpage/Coverage.antt =====
-- Which page frames the block map of packages/fragview/kpage.go covers.
use zfs_slab_mobility.Prelude.{
  ℕ, ◌+◌, ◌-◌, ◌*◌, ◌/◌, ◌%◌, ◌^◌, ◌≤◌, ◌<◌, ◌≡◌, ◌↔◌, some, [], ◌∷◌, arith, mul_mono,
}
use native.Mathlib.Decide.{dec_le}
use zfs_slab_mobility.Kpage.Blocks.{RamRange, BlockMap, new_block_map}

-- The frames of the map's blocks.
abbrev pub Covers : BlockMap → ℕ → ℕ → Type 0
Covers m ppb pfn = (m.first_pfn ≤ pfn) × (pfn < m.first_pfn + m.nblocks * ppb)

-- With p for the block's pages: a = qa p + ra, b = qb p + rb, b - a = qd p + rd.
reach_forth :
    (qa qb qd p ra rb rd : ℕ)
    → rd < p
    → rb < p
    → ra < p
    → qa * p + ra + (qd * p + rd) ≡ qb * p + rb
    → qb * p + rb < qa * p + (qd + 1) * p
    → ra ≤ rb
reach_forth qa qb qd p ra rb rd h1 h2 h3 e lt = elim (dec_le qb (qa + qd)) [
  | yes le ↦ omega (arith, mul_mono qb (qa + qd) p le)
  | no gt ↦ absurd (omega (arith, mul_mono (qa + qd + 1) qb p (omega arith)))
]

reach_back :
    (qa qb qd p ra rb rd : ℕ)
    → rd < p
    → rb < p
    → ra < p
    → qa * p + ra + (qd * p + rd) ≡ qb * p + rb
    → ra ≤ rb
    → qb * p + rb < qa * p + (qd + 1) * p
reach_back qa qb qd p ra rb rd h1 h2 h3 e le = elim (dec_le qb (qa + qd)) [
  | yes le' ↦ omega (arith, mul_mono qb (qa + qd) p le')
  | no gt ↦ absurd (omega (arith, mul_mono (qa + qd + 1) qb p (omega arith)))
]

blocks_reach :
    (ppb a b : ℕ)
    → 0 < ppb
    → a ≤ b
    → (b < a / ppb * ppb + ((b - a) / ppb + 1) * ppb) ↔ (a % ppb ≤ b % ppb)
blocks_reach ppb a b h le = (
  λ lt. ground (
    arith,
    reach_forth (a / ppb) (b / ppb) ((b - a) / ppb) ppb (a % ppb) (b % ppb) ((b - a) % ppb),
  ),
  λ hle. ground (
    arith,
    reach_back (a / ppb) (b / ppb) ((b - a) / ppb) ppb (a % ppb) (b % ppb) ((b - a) % ppb),
  ),
)

-- The map of one range starts at or below its first frame, and reaches its last frame exactly when
-- that does not lie earlier in its block than the first frame lies in its own.
pub new_block_map-Covers_iff :
    (ppb : ℕ) (r : RamRange) (m : BlockMap)
    → 0 < ppb
    → r.first ≤ r.last
    → r.last < 2 ^ 64
    → new_block_map ppb (r ∷ []) ≡ some m
    → Covers m ppb r.first × (Covers m ppb r.last ↔ (r.first % ppb ≤ r.last % ppb))
unfolding new_block_map
new_block_map-Covers_iff ppb r m h le lt e = ground (arith, blocks_reach ppb r.first r.last h le)
