-- ===== src/Snapshot/Whole.antt =====
-- A frame of packages/fragview/snapshot.go survives a snapshot, but for what the format drops.
use zfs_slab_mobility.Prelude.{
  ℕ, ◌≡◌, refl, ap, Option, none, some, List, [], ◌∷◌, length, map, Text, Dict,
}
use zfs_slab_mobility.Kpage.Unseen.{Unseen}
use zfs_slab_mobility.Stats.Counts.{SlabCache}
use zfs_slab_mobility.Stats.Who.{WhoStat, SiteStat}
use zfs_slab_mobility.Snapshot.{encode_counts, decode_counts}
use zfs_slab_mobility.Snapshot.RoundTrip.{Fits, decode_counts-encode_counts}
use zfs_slab_mobility.Snapshot.Format.{
  Snapshot, Picture, snap_slab, snap_who, snap_site, map_some, to_snapshot, write_snapshot, slab_of,
  who_back, site_back, is_filled, picture_of, read_snapshot,
}

-- A map that is nil where it is empty: what `omitempty` makes of it.
abbrev pub nil_if_empty {ℓ} : {A : Type ℓ} → Option (List A) → Option (List A)
nil_if_empty none = none
nil_if_empty (some []) = none
nil_if_empty (some (x ∷ xs)) = some (x ∷ xs)

abbrev pub omit_empty : Snapshot → Snapshot
omit_empty s = record s {
  who = nil_if_empty s.who;
  arc = nil_if_empty s.arc;
  unseen = nil_if_empty s.unseen;
  aliases = nil_if_empty s.aliases;
}

-- The frame that a snapshot of `f` under a label shows.
abbrev pub frozen : Picture → Text → Text → Picture
frozen f label kernel = record f {
  snapshot = label;
  kernel = kernel;
  taken = [];
  view_to = f.nblocks;
  who = nil_if_empty f.who;
  arc = nil_if_empty f.arc;
  aliases = nil_if_empty f.aliases;
  arc_names = is_filled f.arc;
}

slabs_back : (cs : List SlabCache) → map slab_of (map snap_slab cs) ≡ cs
slabs_back [] = refl
slabs_back (c ∷ cs) = ap (◌∷◌ c) (slabs_back cs)

sites_back : (ss : List SiteStat) → map site_back (map snap_site ss) ≡ ss
sites_back [] = refl
sites_back (s ∷ ss) = ap (◌∷◌ s) (sites_back ss)

dict_back : (ws : Dict WhoStat) → map who_back (map snap_who ws) ≡ ws
dict_back [] = refl
dict_back ((k, w) ∷ ws) = ap (◌∷◌ (k, w)) (dict_back ws)

who_map_back :
    (who : Option (Dict WhoStat))
    → map_some who_back (nil_if_empty (map_some snap_who who)) ≡ nil_if_empty who
who_map_back none = refl
who_map_back (some []) = refl
who_map_back (some (w ∷ ws)) = ap some (dict_back (w ∷ ws))

filled_back : (m : Option (Dict ℕ)) → is_filled (nil_if_empty m) ≡ is_filled m
filled_back none = refl
filled_back (some []) = refl
filled_back (some (x ∷ xs)) = refl

module _ (base64 : List ℕ → Text) where
  picture_back :
      (f : Picture) (label kernel : Text) (seen : Unseen)
      → picture_of (omit_empty (to_snapshot base64 f label kernel seen)) f.counts
        ≡ frozen f label kernel
  unfolding picture_of to_snapshot
  picture_back f label kernel seen =
      rw (slabs_back f.slabs, sites_back f.sites, who_map_back f.who, filled_back f.arc) refl

-- A frame whose counters fit and cover its blocks is read back as it was written, with the label
-- and the kernel's release of the writer, the whole map in the window and empty maps nil; the time
-- it was taken is lost. (gzip and base64 are undone by their inverses, and JSON gives the snapshot
-- back with its optional maps nil where they were empty.)
pub read_snapshot-write_snapshot :
    (base64 : List ℕ → Text) (unbase64 : Text → Option (List ℕ)) (gzip : Text → Text)
    (gunzip : Text → Option Text) (json : Snapshot → Text) (unjson : Text → Option Snapshot)
    (f : Picture) (label kernel : Text) (seen : Unseen)
    → ((raw : List ℕ) → unbase64 (base64 raw) ≡ some raw)
    → ((t : Text) → gunzip (gzip t) ≡ some t)
    → (let s = to_snapshot base64 f label kernel seen in unjson (json s) ≡ some (omit_empty s))
    → Fits f.counts
    → length f.counts ≡ f.nblocks
    → read_snapshot gunzip unjson unbase64 (write_snapshot base64 json gzip f label kernel seen)
      ≡ some (frozen f label kernel)
unfolding read_snapshot write_snapshot
read_snapshot-write_snapshot base64 unbase64 gzip gunzip json unjson f label kernel seen b64 gz js
      fits len =
    let counts : decode_counts f.nblocks (encode_counts f.counts) ≡ some f.counts =
      rw (← len) (decode_counts-encode_counts f.counts fits) in
    rw
      (gz (json (to_snapshot base64 f label kernel seen)), js, b64 (encode_counts f.counts), counts)
      (ap some (picture_back base64 f label kernel seen))
