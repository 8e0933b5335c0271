-- ===== src/Pixmap/Palette.antt =====
-- The colours of packages/fragview/pixmap.go, and the escape sequences of packages/fragview/render.go
-- that they are derived from. A channel is a byte; 27 is the escape character.
pub mod Distinct
use Prim.Native.String.{String}
use zfs_slab_mobility.Prelude.{
  ℕ, ◌+◌, ◌-◌, ◌*◌, ◌/◌, ◌%◌, List, [], ◌∷◌, none, some, Text, codes, cut, parse_uint, leb, get_or,
  if◌then◌else◌,
}
use zfs_slab_mobility.Kpage.Classes.{
  Class, absent, free, file, shmem, anon, abd, slab, pgtab, compound, uncached, kernel, reserved,
  unknown,
}

pub record Rgba : Type 0 where
  pub r : ℕ
  pub g : ℕ
  pub b : ℕ
  pub a : ℕ

abbrev rgb : ℕ → ℕ → ℕ → Rgba
rgb r g b = record { r = r; g = g; b = b; a = 255 }

-- A byte that `canvas` and `paintPixels` clear.
abbrev pub clear : Rgba
clear = record { r = 0; g = 0; b = 0; a = 0 }

abbrev pub hostage_px : Rgba
hostage_px = rgb 255 95 95

abbrev pub hover_px : Rgba
hover_px = rgb 255 255 255

abbrev escape : String → Text
escape s = 27 ∷ codes s

abbrev class_color : Class → Text
class_color absent = escape "[38;5;234m"
class_color free = escape "[38;5;238m"
class_color file = escape "[38;5;31m"
class_color shmem = escape "[38;5;37m"
class_color anon = escape "[38;5;65m"
class_color abd = escape "[38;5;96m"
class_color slab = escape "[38;5;136m"
class_color pgtab = escape "[38;5;97m"
class_color compound = escape "[38;5;131m"
class_color uncached = escape "[38;5;130m"
class_color kernel = escape "[38;5;95m"
class_color reserved = escape "[38;5;242m"
class_color unknown = escape "[38;5;245m"

-- `strings.TrimSuffix(rest, "m")`.
abbrev trim_m : Text → Text
trim_m [] = []
trim_m (c ∷ []) = if leb b'm' c then if leb c b'm' then [] else c ∷ [] else c ∷ []
trim_m (c ∷ d ∷ s) = c ∷ trim_m (d ∷ s)

-- `paletteIndex`. Each escape above is a run of digits that Atoi reads; on no digits at all
-- `parse_uint` gives 0, as `paletteIndex` does.
abbrev palette_index : Text → ℕ
palette_index esc = elim (cut (codes "38;5;") esc) [
  | none ↦ 0
  | some (_, rest) ↦ (parse_uint (trim_m rest)).0
]

abbrev levels : List ℕ
levels = 0 ∷ 95 ∷ 135 ∷ 175 ∷ 215 ∷ 255 ∷ []

-- `xterm256RGB`, of an index below 256; `uint8` takes the lowest byte.
xterm256_rgb : ℕ → Rgba
xterm256_rgb idx =
    let grey = (8 + (idx - 232) * 10) % 256 in
    let i = idx - 16 in
    let v = if leb 8 idx then 255 else 128 in
    if leb 232 idx
    then rgb grey grey grey
    else if leb 16 idx
    then rgb (get_or levels (i / 36) 0) (get_or levels (i / 6 % 6) 0) (get_or levels (i % 6) 0)
    else rgb (v * (idx % 2) % 256) (v * (idx / 2 % 2) % 256) (v * (idx / 4 % 2) % 256)

-- `classRGB`, which `init` fills.
unfoldable pub class_rgb : Class → Rgba
unfolding xterm256_rgb cut parse_uint
class_rgb k = xterm256_rgb (palette_index (class_color k))
