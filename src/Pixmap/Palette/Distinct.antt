-- ===== src/Pixmap/Palette/Distinct.antt =====
-- The colours of packages/fragview/pixmap.go tell the classes of page apart.
use zfs_slab_mobility.Prelude.{
  ℕ, ◌+◌, ◌*◌, ◌≡◌, ◌≢◌, refl, sym, ap, ◌∙◌, true, false, Bool, List, [], ◌∷◌, ◌==◌, if◌then◌else◌,
}
use zfs_slab_mobility.Kpage.Classes.{
  Class, absent, free, file, shmem, anon, abd, slab, pgtab, compound, uncached, kernel, reserved,
  unknown,
}
use zfs_slab_mobility.Pixmap.Palette.{Rgba, class_rgb, hostage_px, hover_px}

abbrev shade : Rgba → ℕ
shade c = c.r * 65536 + c.g * 256 + c.b

-- Six digits of colour, and the class that is painted so.
abbrev shades : List (ℕ × Class)
shades =
    (1842204, absent)
    ∷ (4473924, free)
    ∷ (34735, file)
    ∷ (44975, shmem)
    ∷ (6260575, anon)
    ∷ (8871815, abd)
    ∷ (11503360, slab)
    ∷ (8871855, pgtab)
    ∷ (11493215, compound)
    ∷ (11493120, uncached)
    ∷ (8871775, kernel)
    ∷ (7105644, reserved)
    ∷ (9079434, unknown)
    ∷ []

abbrev of_shade : List (ℕ × Class) → ℕ → Class
of_shade [] n = unknown
of_shade ((m, k) ∷ rest) n = let c = of_shade rest n in if m == n then k else c

of_shade-class_rgb : (k : Class) → of_shade shades (shade (class_rgb k)) ≡ k
unfolding class_rgb
of_shade-class_rgb absent = refl
of_shade-class_rgb free = refl
of_shade-class_rgb file = refl
of_shade-class_rgb shmem = refl
of_shade-class_rgb anon = refl
of_shade-class_rgb abd = refl
of_shade-class_rgb slab = refl
of_shade-class_rgb pgtab = refl
of_shade-class_rgb compound = refl
of_shade-class_rgb uncached = refl
of_shade-class_rgb kernel = refl
of_shade-class_rgb reserved = refl
of_shade-class_rgb unknown = refl

is_shade : List (ℕ × Class) → ℕ → Bool
is_shade [] n = false
is_shade ((m, k) ∷ rest) n = let c = is_shade rest n in if m == n then true else c

class_rgb-is_shade : (k : Class) → is_shade shades (shade (class_rgb k)) ≡ true
unfolding class_rgb is_shade
class_rgb-is_shade absent = refl
class_rgb-is_shade free = refl
class_rgb-is_shade file = refl
class_rgb-is_shade shmem = refl
class_rgb-is_shade anon = refl
class_rgb-is_shade abd = refl
class_rgb-is_shade slab = refl
class_rgb-is_shade pgtab = refl
class_rgb-is_shade compound = refl
class_rgb-is_shade uncached = refl
class_rgb-is_shade kernel = refl
class_rgb-is_shade reserved = refl
class_rgb-is_shade unknown = refl

other_shade : (k : Class) (c : Rgba) → is_shade shades (shade c) ≡ false → class_rgb k ≢ c
other_shade k c h e =
    let one = sym (class_rgb-is_shade k) ∙ ap (λ (d : Rgba). is_shade shades (shade d)) e ∙ h in cc

-- Two classes of the same colour are one class, and it has neither the colour of the box around a
-- hostage nor that of the box under the pointer.
pub class_rgb-distinct :
    (j k : Class)
    → class_rgb j ≡ class_rgb k
    → (j ≡ k) × (class_rgb k ≢ hostage_px) × (class_rgb k ≢ hover_px)
unfolding is_shade
class_rgb-distinct j k e = (
  sym (of_shade-class_rgb j)
      ∙ ap (λ (c : Rgba). of_shade shades (shade c)) e
      ∙ of_shade-class_rgb k,
  other_shade k hostage_px refl,
  other_shade k hover_px refl,
)
