-- ===== src/Pixmap/Encode.antt =====
-- packages/fragview/pixmap.go: `encode`, which cuts the picture into the escapes of the terminal.
--
-- zlib and base64 are parameters. An escape holds what the source prints into it; the identifiers
-- of the image and of the placement are fixed.
pub mod Joined
use zfs_slab_mobility.Prelude.{
  ℕ, zero, suc, ◌-◌, min, Bool, true, false, not, List, [], ◌∷◌, Option, none, some, Text,
  same_text, ltb, length, take, drop, if◌then◌else◌,
}

-- `a=t` carries the size of the picture, later pieces only `m`.
pub data Escape : Type 0 where
  transmit : ℕ → ℕ → Bool → Text → Escape
  go_on : Bool → Text → Escape

abbrev pub chunk : ℕ
chunk = 4096

abbrev pub next_escape : ℕ → ℕ → Bool → Bool → Text → Escape
next_escape w h first more piece = if first then transmit w h more piece else go_on more piece

-- `for len(enc) > 0`, with fuel; a round takes a byte at least.
unfoldable pub encode_loop : ℕ → ℕ → ℕ → Bool → Text → List Escape
encode_loop zero w h first enc = []
encode_loop (suc fuel) w h first [] = []
encode_loop (suc fuel) w h first (c ∷ enc) =
    let n = min chunk (length (c ∷ enc)) in
    let piece = take n (c ∷ enc) in
    let left = drop n (c ∷ enc) in
    let more = ltb 0 (length left) in
    next_escape w h first more piece ∷ encode_loop fuel w h false left

-- What is sent: the pieces, and the columns and rows of the placement.
pub record Sent : Type 0 where
  pub escapes : List Escape
  pub cols : ℕ
  pub rows : ℕ

module _ (deflate base64 : Text → Text) where
  -- `sent` is the picture that was sent last; nothing is sent if it is the same.
  unfoldable pub encode : Text → Text → ℕ → ℕ → ℕ → ℕ → Text × Option Sent
  unfolding encode_loop
  encode sent pix w h cols rows =
      let enc = base64 (deflate pix) in
      let out : Sent = record {
        escapes = encode_loop (length enc) w h true enc;
        cols = cols;
        rows = rows;
      } in
      if same_text sent pix then (sent, none) else (pix, some out)
