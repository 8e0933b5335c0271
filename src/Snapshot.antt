-- ===== src/Snapshot.antt =====
-- packages/fragview/snapshot.go: the counters of a map as bytes, and back.
pub mod RoundTrip
pub mod Format
pub mod Whole
use zfs_slab_mobility.Prelude.{
  ℕ, zero, suc, ◌+◌, ◌*◌, ◌/◌, ◌%◌, Bool, true, false, Option, none, some, List, [], ◌∷◌, ◌++◌,
  ◌==◌, if◌then◌else◌, length, get_or,
}
use zfs_slab_mobility.Kpage.Classes.{Class, code, Counts}
use zfs_slab_mobility.Kpage.Totals.{all_classes}

-- `nrClasses`.
abbrev pub stride : ℕ
stride = 13

-- The counters of some classes, two bytes each, the low one first: `PutUint16`.
abbrev pub row : List Class → Counts → List ℕ
row [] c = []
row (k ∷ ks) c = c k % 256 ∷ c k / 256 % 256 ∷ row ks c

-- The loops of `toSnapshot` that fill `raw`; block after block, class after class, they fill it
-- from front to back.
unfoldable pub encode_counts : List Counts → List ℕ
encode_counts [] = []
encode_counts (c ∷ cs) = row all_classes c ++ encode_counts cs

-- `binary.LittleEndian.Uint16(raw[i:])`.
abbrev pub uint16_at : List ℕ → ℕ → ℕ
uint16_at raw i = get_or raw i 0 + 256 * get_or raw (i + 1) 0

-- The loops of `readSnapshot`, from block `i` on.
unfoldable pub decode_loop : ℕ → ℕ → List ℕ → List Counts
decode_loop zero i raw = []
decode_loop (suc n) i raw =
    (λ k. uint16_at raw ((i * stride + code k) * 2)) ∷ decode_loop n (i + 1) raw

-- `none` is the error of counters that do not fit the number of blocks.
unfoldable pub decode_counts : ℕ → List ℕ → Option (List Counts)
unfolding decode_loop
decode_counts nblocks raw =
    if length raw == nblocks * stride * 2 then some (decode_loop nblocks 0 raw) else none
