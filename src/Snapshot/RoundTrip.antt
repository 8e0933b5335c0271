-- ===== src/Snapshot/RoundTrip.antt =====
-- The counters of packages/fragview/snapshot.go survive a snapshot.
use zfs_slab_mobility.Prelude.{
  ℕ, suc, ◌+◌, ◌*◌, ◌/◌, ◌%◌, ◌^◌, ◌<◌, ◌≡◌, refl, ap, sym, ◌∙◌, arith, true, some, List, [], ◌∷◌,
  ◌++◌, ◌==◌, length, get_or, get_elem?, length-append,
}
use mathlib.Core.Path.{fun_ext}
use zfs_slab_mobility.Kpage.Classes.{Class, code, Counts}
use zfs_slab_mobility.Kpage.Totals.{all_classes}
use zfs_slab_mobility.Snapshot.{stride, row, encode_counts, uint16_at, decode_loop, decode_counts}

get_or-append : (xs ys : List ℕ) (j : ℕ) → get_or (xs ++ ys) (length xs + j) 0 ≡ get_or ys j 0
get_or-append [] ys j = ap (λ (t : ℕ). get_or ys t 0) (omega arith)
get_or-append (x ∷ xs) ys j =
    let e : suc (length xs) + j ≡ suc (length xs + j) = omega arith in rw e (get_or-append xs ys j)

two_bytes : (n : ℕ) → n < 2 ^ 16 → n % 256 + 256 * (n / 256 % 256) ≡ n
two_bytes n h = omega arith

-- One block at the front of the bytes.
uint16_at-row :
    (c : Counts) (ys : List ℕ) (k : Class)
    → c k < 2 ^ 16
    → uint16_at (row all_classes c ++ ys) (code k * 2) ≡ c k
uint16_at-row c ys Class.absent h = two_bytes (c Class.absent) h
uint16_at-row c ys Class.free h = two_bytes (c Class.free) h
uint16_at-row c ys Class.file h = two_bytes (c Class.file) h
uint16_at-row c ys Class.shmem h = two_bytes (c Class.shmem) h
uint16_at-row c ys Class.anon h = two_bytes (c Class.anon) h
uint16_at-row c ys Class.abd h = two_bytes (c Class.abd) h
uint16_at-row c ys Class.slab h = two_bytes (c Class.slab) h
uint16_at-row c ys Class.pgtab h = two_bytes (c Class.pgtab) h
uint16_at-row c ys Class.compound h = two_bytes (c Class.compound) h
uint16_at-row c ys Class.uncached h = two_bytes (c Class.uncached) h
uint16_at-row c ys Class.kernel h = two_bytes (c Class.kernel) h
uint16_at-row c ys Class.reserved h = two_bytes (c Class.reserved) h
uint16_at-row c ys Class.unknown h = two_bytes (c Class.unknown) h

length-encode_counts : (cs : List Counts) → length (encode_counts cs) ≡ length cs * 26
unfolding encode_counts
length-encode_counts [] = refl
length-encode_counts (c ∷ cs) =
    length-append (row all_classes c) (encode_counts cs) ∙ omega (arith, length-encode_counts cs)

-- Bytes past a prefix.
uint16_at-append : (xs ys : List ℕ) (j : ℕ) → uint16_at (xs ++ ys) (length xs + j) ≡ uint16_at ys j
uint16_at-append xs ys j =
    let e : length xs + j + 1 ≡ length xs + (j + 1) = omega arith in
    rw (get_or-append xs ys j, e, get_or-append xs ys (j + 1)) refl

-- Every counter fits its two bytes.
abbrev pub Fits : List Counts → Type 0
Fits cs = (b : ℕ) (c : Counts) → get_elem? cs b ≡ some c → (k : Class) → c k < 2 ^ 16

block_back :
    (before : List ℕ) (c : Counts) (ys : List ℕ) (i : ℕ) (k : Class)
    → length before ≡ i * 26
    → c k < 2 ^ 16
    → uint16_at (before ++ (row all_classes c ++ ys)) ((i * stride + code k) * 2) ≡ c k
block_back before c ys i k e small =
    let at : (i * stride + code k) * 2 ≡ length before + code k * 2 = omega (arith, e) in
    rw at
      (uint16_at-append before (row all_classes c ++ ys) (code k * 2) ∙ uint16_at-row c ys k small)

append_assoc : (xs ys zs : List ℕ) → (xs ++ ys) ++ zs ≡ xs ++ (ys ++ zs)
append_assoc [] ys zs = refl
append_assoc (x ∷ xs) ys zs = rw (append_assoc xs ys zs) refl

same_cons : {c d : Counts} {cs ds : List Counts} → c ≡ d → cs ≡ ds → c ∷ cs ≡ d ∷ ds
same_cons e1 e2 = rw (e1, e2) refl

decode_loop-encode :
    (cs : List Counts) (before : List ℕ) (i : ℕ)
    → length before ≡ i * 26
    → Fits cs
    → decode_loop (length cs) i (before ++ encode_counts cs) ≡ cs
unfolding decode_loop encode_counts
decode_loop-encode [] before i e fits = refl
decode_loop-encode (c ∷ cs) before i e fits =
    let r = row all_classes c in
    let len : length (before ++ r) ≡ (i + 1) * 26 = length-append before r ∙ omega (arith, e) in
    same_cons (fun_ext (λ k. block_back before c (encode_counts cs) i k e (fits 0 c refl k))) (
      ap (decode_loop (length cs) (i + 1)) (sym (append_assoc before r (encode_counts cs)))
      ∙ decode_loop-encode cs (before ++ r) (i + 1) len (λ b c' h. fits (suc b) c' h))

-- The counters of any map, each below 2 ^ 16, are the same after they are written to a snapshot and
-- read back.
pub decode_counts-encode_counts :
    (counts : List Counts)
    → Fits counts
    → decode_counts (length counts) (encode_counts counts) ≡ some counts
unfolding decode_counts
decode_counts-encode_counts counts fits =
    let whole : (length (encode_counts counts) == length counts * stride * 2) ≡ true =
      ground (arith, length-encode_counts counts) in
    rw (whole, decode_loop-encode counts [] 0 refl fits) refl
