-- ===== src/Tests/SnapshotRuns.antt =====
-- packages/fragview/snapshot.go at a frame of two blocks.
use zfs_slab_mobility.Prelude.{
  ℕ, zero, suc, ◌+◌, ◌<◌, ◌≡◌, refl, arith, true, false, Option, none, some, List, [], ◌∷◌,
  some_injective, nothing_there, Text, codes,
}
use zfs_slab_mobility.Prelude.Int.{pos}
use zfs_slab_mobility.Kpage.Unseen.{Unseen}
use zfs_slab_mobility.Snapshot.Format.{
  Snapshot, Picture, kernel_release, to_snapshot, write_snapshot, read_snapshot,
}
use zfs_slab_mobility.Snapshot.Whole.{omit_empty, frozen, read_snapshot-write_snapshot}
use zfs_slab_mobility.Kpage.Classes.{Class, Counts, code}
use zfs_slab_mobility.Snapshot.{encode_counts, decode_counts}
use zfs_slab_mobility.Snapshot.RoundTrip.{Fits, decode_counts-encode_counts}

abbrev low : Counts
low k = code k

abbrev high : Counts
high k = 300 + code k

abbrev two : List Counts
two = low ∷ high ∷ []

small : (k : Class) → code k < 13
small Class.absent = omega arith
small _ = omega arith

two-Fits : Fits two
two-Fits zero c h k = rw (← some_injective h) (omega (arith, small k))
two-Fits (suc zero) c h k = rw (← some_injective h) (omega (arith, small k))
two-Fits (suc (suc b)) c h k = absurd (nothing_there h)

decode_counts-encode_counts_example : decode_counts 2 (encode_counts two) ≡ some two
decode_counts-encode_counts_example = decode_counts-encode_counts two two-Fits

short_snapshot : decode_counts 3 (encode_counts two) ≡ none
unfolding decode_counts encode_counts
short_snapshot = refl

abbrev seen_frame : Picture
seen_frame = record {
  counts = two;
  first_pfn = 512;
  nblocks = 2;
  pages_per_block = 512;
  host = [];
  snapshot = [];
  kernel = [];
  taken = codes "2026-08-17 17:25";
  view_to = 1;
  ladder = record { orders = 3 ∷ 4 ∷ []; max_order = pos 10 };
  types = record { names = codes "Movable" ∷ []; counts = 2 ∷ [] };
  slabs =
      record {
        name = codes "dnode_t";
        active = 3;
        total = 4;
        obj_size = 960;
        pages_per_slab = 8;
        slabs = 1;
        active_slabs = 1;
      }
      ∷ [];
  who = some (
      (
        codes "dnode_t",
        record { blocks = 1; hostage_blocks = 1; pages = 8; hostage_pages = 8; mobile = false },
      )
      ∷ []);
  who_tot = record { blocks = 1; hostage_blocks = 1; hostage_free_pages = 20; walk_us = 5 };
  who_err = [];
  mem = some ((codes "MemFree", 7) ∷ []);
  vm = some [];
  arc = some [];
  sites = [];
  abd_movable = true;
  aliases = some [];
  arc_names = true;
}

abbrev label : Text
label = codes "held"

abbrev release : Text
release = codes "7.1.3"

abbrev same_bytes : List ℕ → Text
same_bytes raw = raw

abbrev an_unseen : Unseen
an_unseen = (0x110, 6) ∷ []

abbrev json_of : Snapshot → Text
json_of s = s.label

abbrev of_json : Text → Option Snapshot
of_json t = some (omit_empty (to_snapshot same_bytes seen_frame label release an_unseen))

read_snapshot-write_snapshot_example :
    read_snapshot some of_json some
      (write_snapshot same_bytes json_of same_bytes seen_frame label release an_unseen)
    ≡ some (frozen seen_frame label release)
read_snapshot-write_snapshot_example =
    read_snapshot-write_snapshot same_bytes some same_bytes some json_of of_json seen_frame label
      release an_unseen (λ raw. refl) (λ t. refl) refl two-Fits refl

written_keys :
    (to_snapshot same_bytes seen_frame label release an_unseen).unseen
    ≡ some ((codes "110", 6) ∷ [])
unfolding to_snapshot
written_keys = refl

empty_release : kernel_release (some []) ≡ none
unfolding kernel_release
empty_release = refl

a_release : kernel_release (some (codes "7.1\n")) ≡ some (codes "7.1")
unfolding kernel_release
a_release = refl
