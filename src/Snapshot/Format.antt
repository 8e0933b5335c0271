-- ===== src/Snapshot/Format.antt =====
-- packages/fragview/snapshot.go: a frame as a snapshot, and back.
--
-- A map is nil (`none`) or an association list. `encoding/json`, `compress/gzip` and
-- `encoding/base64` are parameters of the functions that use them.
use zfs_slab_mobility.Prelude.{
  ℕ, zero, suc, ◌+◌, ◌-◌, ◌/◌, ◌%◌, Bool, true, false, not, Option, none, some, List, [], ◌∷◌, ltb,
  ◌==◌, if◌then◌else◌, map, Text, Dict, ◌>>=◌,
}
use zfs_slab_mobility.Prelude.Int.{ℤ}
use zfs_slab_mobility.Kpage.Classes.{Counts}
use zfs_slab_mobility.Kpage.Unseen.{Unseen}
use zfs_slab_mobility.Stats.{FreeLadder, BlockTypes}
use zfs_slab_mobility.Stats.Counts.{SlabCache}
use zfs_slab_mobility.Stats.Who.{WhoStat, SiteStat, WhoTotals}
use zfs_slab_mobility.Snapshot.{encode_counts, decode_counts}

pub record SnapSlab : Type 0 where
  pub name : Text
  pub active : ℕ
  pub total : ℕ
  pub obj_size : ℕ
  pub pages_per_slab : ℕ
  pub slabs : ℕ
  pub active_slabs : ℕ

pub record SnapWho : Type 0 where
  pub blocks : ℕ
  pub hostage_blocks : ℕ
  pub pages : ℕ
  pub hostage_pages : ℕ
  pub mobile : Bool

pub record SnapSite : Type 0 where
  pub cache : Text
  pub fn : Text
  pub file : Text
  pub objects : ℕ
  pub blocks : ℕ

pub record SnapWhoTot : Type 0 where
  pub blocks : ℕ
  pub hostage_blocks : ℕ
  pub hostage_free_pages : ℕ
  pub walk_us : ℕ

pub record Snapshot : Type 0 where
  pub version : ℕ
  pub label : Text
  pub host : Text
  pub kernel : Text
  pub taken : Text
  pub pages_per_block : ℕ
  pub first_pfn : ℕ
  pub nblocks : ℕ
  pub counts : Text
  pub ladder : List ℕ
  pub max_order : ℤ
  pub type_names : List Text
  pub type_counts : List ℕ
  pub slabs : List SnapSlab
  pub who : Option (Dict SnapWho)
  pub who_tot : SnapWhoTot
  pub who_err : Text
  pub mem : Option (Dict ℕ)
  pub vm : Option (Dict ℕ)
  pub arc : Option (Dict ℕ)
  pub abd_movable : Bool
  pub unseen : Option (Dict ℕ)
  pub aliases : Option (Dict (List Text))
  pub sites : List SnapSite

-- The fields of `frame` and of its block map that a snapshot holds, and the window; the package
-- variables `abdMovable` and `cacheAliases` and whether the classes are named for a host with ARC.
pub record Picture : Type 0 where
  pub counts : List Counts
  pub first_pfn : ℕ
  pub nblocks : ℕ
  pub pages_per_block : ℕ
  pub host : Text
  pub snapshot : Text
  pub kernel : Text
  pub taken : Text
  pub view_to : ℕ
  pub ladder : FreeLadder
  pub types : BlockTypes
  pub slabs : List SlabCache
  pub who : Option (Dict WhoStat)
  pub who_tot : WhoTotals
  pub who_err : Text
  pub mem : Option (Dict ℕ)
  pub vm : Option (Dict ℕ)
  pub arc : Option (Dict ℕ)
  pub sites : List SiteStat
  pub abd_movable : Bool
  pub aliases : Option (Dict (List Text))
  pub arc_names : Bool

abbrev pub snapshot_version : ℕ
snapshot_version = 1

abbrev but_last : Text → Text
but_last [] = []
but_last (c ∷ []) = []
but_last (c ∷ d ∷ s) = c ∷ but_last (d ∷ s)

-- `kernelRelease`, of what the file holds; an empty file is a panic.
unfoldable pub kernel_release : Option Text → Option Text
kernel_release none = some []
kernel_release (some []) = none
kernel_release (some (c ∷ s)) = some (but_last (c ∷ s))

abbrev pub snap_slab : SlabCache → SnapSlab
snap_slab c = record {
  name = c.name;
  active = c.active;
  total = c.total;
  obj_size = c.obj_size;
  pages_per_slab = c.pages_per_slab;
  slabs = c.slabs;
  active_slabs = c.active_slabs;
}

abbrev pub snap_who : Text × WhoStat → Text × SnapWho
snap_who (k, w) = (
  k,
  record {
    blocks = w.blocks;
    hostage_blocks = w.hostage_blocks;
    pages = w.pages;
    hostage_pages = w.hostage_pages;
    mobile = w.mobile;
  },
)

abbrev pub snap_site : SiteStat → SnapSite
snap_site s = record {
  cache = s.cache;
  fn = s.fn;
  file = s.file;
  objects = s.objects;
  blocks = s.blocks;
}

abbrev pub map_some {ℓ κ} : {A : Type ℓ} {B : Type κ} → (A → B) → Option (List A) → Option (List B)
map_some f none = none
map_some f (some xs) = some (map f xs)

abbrev hex_char : ℕ → ℕ
hex_char d = if ltb d 10 then b'0' + d else b'a' + d - 10

-- `strconv.FormatUint(n, 16)`: a uint64 has at most sixteen digits.
abbrev format_hex : ℕ → ℕ → Text → Text
format_hex zero n s = s
format_hex (suc fuel) n s =
    let rest = format_hex fuel (n / 16) (hex_char (n % 16) ∷ s) in
    if n / 16 == 0 then hex_char (n % 16) ∷ s else rest

abbrev hex_keys : Unseen → Dict ℕ
hex_keys [] = []
hex_keys ((flags, count) ∷ seen) = (format_hex 16 flags [], count) ∷ hex_keys seen

-- The map of unclassified words, nil if there are none.
abbrev unseen_map : Unseen → Option (Dict ℕ)
unseen_map [] = none
unseen_map (u ∷ seen) = some (hex_keys (u ∷ seen))

module _ (base64 : List ℕ → Text) where
  -- `toSnapshot`; the kernel's release and the table of unknown words are read elsewhere.
  unfoldable pub to_snapshot : Picture → Text → Text → Unseen → Snapshot
  unfolding encode_counts
  to_snapshot f label kernel seen = record {
    version = snapshot_version;
    label = label;
    host = f.host;
    kernel = kernel;
    taken = [];
    pages_per_block = f.pages_per_block;
    first_pfn = f.first_pfn;
    nblocks = f.nblocks;
    counts = base64 (encode_counts f.counts);
    ladder = f.ladder.orders;
    max_order = f.ladder.max_order;
    type_names = f.types.names;
    type_counts = f.types.counts;
    slabs = map snap_slab f.slabs;
    who = map_some snap_who f.who;
    who_tot = record {
      blocks = f.who_tot.blocks;
      hostage_blocks = f.who_tot.hostage_blocks;
      hostage_free_pages = f.who_tot.hostage_free_pages;
      walk_us = f.who_tot.walk_us;
    };
    who_err = f.who_err;
    mem = f.mem;
    vm = f.vm;
    arc = f.arc;
    abd_movable = f.abd_movable;
    unseen = unseen_map seen;
    aliases = f.aliases;
    sites = map snap_site f.sites;
  }

  -- `writeSnapshot`, of the file's bytes.
  unfoldable pub write_snapshot :
      (Snapshot → Text) → (Text → Text) → Picture → Text → Text → Unseen → Text
  unfolding to_snapshot
  write_snapshot json gzip f label kernel seen = gzip (json (to_snapshot f label kernel seen))

abbrev pub slab_of : SnapSlab → SlabCache
slab_of c = record {
  name = c.name;
  active = c.active;
  total = c.total;
  obj_size = c.obj_size;
  pages_per_slab = c.pages_per_slab;
  slabs = c.slabs;
  active_slabs = c.active_slabs;
}

abbrev pub who_back : Text × SnapWho → Text × WhoStat
who_back (k, w) = (
  k,
  record {
    blocks = w.blocks;
    hostage_blocks = w.hostage_blocks;
    pages = w.pages;
    hostage_pages = w.hostage_pages;
    mobile = w.mobile;
  },
)

abbrev pub site_back : SnapSite → SiteStat
site_back s = record {
  cache = s.cache;
  fn = s.fn;
  file = s.file;
  objects = s.objects;
  blocks = s.blocks;
}

-- `len(m) > 0`.
abbrev pub is_filled {ℓ} : {A : Type ℓ} → Option (List A) → Bool
is_filled none = false
is_filled (some []) = false
is_filled (some (x ∷ xs)) = true

-- The frame of a snapshot whose counters are read.
unfoldable pub picture_of : Snapshot → List Counts → Picture
picture_of s counts = record {
  counts = counts;
  first_pfn = s.first_pfn;
  nblocks = s.nblocks;
  pages_per_block = s.pages_per_block;
  host = s.host;
  snapshot = s.label;
  kernel = s.kernel;
  taken = s.taken;
  view_to = s.nblocks;
  ladder = record { orders = s.ladder; max_order = s.max_order };
  types = record { names = s.type_names; counts = s.type_counts };
  slabs = map slab_of s.slabs;
  who = map_some who_back s.who;
  who_tot = record {
    blocks = s.who_tot.blocks;
    hostage_blocks = s.who_tot.hostage_blocks;
    hostage_free_pages = s.who_tot.hostage_free_pages;
    walk_us = s.who_tot.walk_us;
  };
  who_err = s.who_err;
  mem = s.mem;
  vm = s.vm;
  arc = s.arc;
  sites = map site_back s.sites;
  abd_movable = s.abd_movable;
  aliases = s.aliases;
  arc_names = is_filled s.arc;
}

-- `readSnapshot`, of the file's bytes: `none` is any of its errors.
unfoldable pub read_snapshot :
    (Text → Option Text)
    → (Text → Option Snapshot)
    → (Text → Option (List ℕ))
    → Text
    → Option Picture
unfolding decode_counts picture_of
read_snapshot gunzip unjson unbase64 file = gunzip file >>= λ text. unjson text >>= λ s.
    if not (s.version == snapshot_version)
    then none
    else unbase64 s.counts >>= λ raw.
        decode_counts s.nblocks raw >>= λ counts. some (picture_of s counts)
