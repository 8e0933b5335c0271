-- ===== src/Load.antt =====
-- packages/fragload/main.go: the contents of the files, their writing by workers, and clones.
--
-- The draws of `math/rand/v2`'s PCG are a parameter, `draw seed stream k` the k-th `Uint64`, and so
-- is what the system answers. A file is named by its index. A `Step` is what one worker does up to
-- its next access to shared state, so that runs interleave workers in every order. A worker sends
-- one error at most, so the channel of `jobs` places always has room for it.
pub mod Written
pub mod Clone
pub mod Dirs
use zfs_slab_mobility.Prelude.{
  ℕ, zero, suc, ◌+◌, ◌-◌, ◌/◌, ◌%◌, ◌^◌, ◌≡◌, Option, none, some, List, [], ◌∷◌, ◌++◌, ltb, ◌==◌,
  if◌then◌else◌, replicate,
}

-- `binary.LittleEndian.PutUint64` before the rest of a buffer.
abbrev put_uint64 : ℕ → List ℕ → List ℕ
put_uint64 v rest =
    v % 256
    ∷ v / 2 ^ 8 % 256
    ∷ v / 2 ^ 16 % 256
    ∷ v / 2 ^ 24 % 256
    ∷ v / 2 ^ 32 % 256
    ∷ v / 2 ^ 40 % 256
    ∷ v / 2 ^ 48 % 256
    ∷ v / 2 ^ 56 % 256
    ∷ rest

-- The loop of `fill` from the k-th draw on: a tail of less than eight bytes is left as it is.
unfoldable pub fill_loop : (ℕ → ℕ) → ℕ → List ℕ → List ℕ
fill_loop next k (a ∷ b ∷ c ∷ d ∷ e ∷ f ∷ g ∷ h ∷ rest) =
    put_uint64 (next k) (fill_loop next (k + 1) rest)
fill_loop next k short = short

module _ (draw : ℕ → ℕ → ℕ → ℕ) where
  unfoldable pub fill : List ℕ → ℕ → ℕ → List ℕ
  unfolding fill_loop
  fill buf seed i = fill_loop (draw seed ((i + 0x9E3779B97F4A7C15) % 2 ^ 64)) 0 buf

-- What `Mkdir` or `WriteFile` returns: nil or an error.
abbrev pub Answer : Type 0
Answer = Option ℕ

-- `write`'s first loop, from directory `i` on.
unfoldable pub make_dirs : (ℕ → Answer) → ℕ → ℕ → Answer
make_dirs mkdir zero i = none
make_dirs mkdir (suc n) i =
    let rest = make_dirs mkdir n (i + 1) in elim (mkdir i) [ some e ↦ some e | none ↦ rest ]

pub data Writer : Type 0 where
  taking : List ℕ → Writer
  holding : List ℕ → ℕ → Writer
  filled : List ℕ → ℕ → Writer
  stopped : Writer

-- The state that the workers share, and the contents of the files.
pub record Writing : Type 0 where
  pub next : ℕ
  pub errs : List ℕ
  pub disk : ℕ → Option (List ℕ)

abbrev pub put_file : (ℕ → Option (List ℕ)) → ℕ → Option (List ℕ) → ℕ → Option (List ℕ)
put_file disk i content j = if j == i then content else disk j

-- 1 for a worker that has not returned.
abbrev pub live : Writer → ℕ
live stopped = 0
live _ = 1

module _ (draw : ℕ → ℕ → ℕ → ℕ) (files seed : ℕ) where
  -- What a worker does next. `left` is what a failed write leaves of the file.
  unfoldable pub write_act : Answer → Option (List ℕ) → Writing → Writer → Writing × Writer
  unfolding fill
  write_act answer left s (taking buf) =
      (record s { next = s.next + 1 }, if ltb s.next files then holding buf s.next else stopped)
  write_act answer left s (holding buf i) = (s, filled (fill draw buf seed i) i)
  write_act none left s (filled buf i) =
      (record s { disk = put_file s.disk i (some buf) }, taking buf)
  write_act (some e) left s (filled buf i) =
      (record s { disk = put_file s.disk i left; errs = s.errs ++ e ∷ [] }, stopped)
  write_act answer left s stopped = (s, stopped)

  pub data WriteRun : Writing × List Writer → Writing × List Writer → Type 0 where
    write_none : {w : Writing × List Writer} → WriteRun w w
    write_step :
        {w : Writing × List Writer} {s : Writing} (pre post : List Writer) (x : Writer)
        (answer : Answer) (left : Option (List ℕ))
        → WriteRun w (s, pre ++ x ∷ post)
        → WriteRun w ((write_act answer left s x).0, pre ++ (write_act answer left s x).1 ∷ post)

-- The workers of `write` before the first of them runs.
abbrev pub write_start : (ℕ → Option (List ℕ)) → ℕ → ℕ → Writing × List Writer
write_start disk size jobs =
    (record { next = 0; errs = []; disk = disk }, replicate jobs (taking (replicate size 0)))

-- `<-errs` of the closed channel.
abbrev pub first_error : List ℕ → Answer
first_error [] = none
first_error (e ∷ es) = some e
