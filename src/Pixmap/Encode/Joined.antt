-- ===== src/Pixmap/Encode/Joined.antt =====
-- The pieces that packages/fragview/pixmap.go sends make up the picture.
use mathlib.Core.List.{append-nil}
use zfs_slab_mobility.Prelude.{
  ℕ, zero, suc, ◌-◌, min, ◌≤◌, ◌<◌, ◌≡◌, refl, ◌∙◌, ap, Bool, true, false, List, [], ◌∷◌, ◌++◌,
  Option, none, some, Text, same_text, ltb, length, take, drop, arith, inl, inr, Bool-cases,
  eq_of-same_text,
}
use zfs_slab_mobility.Pixmap.Encode.{Escape, transmit, go_on, chunk, encode_loop, Sent, encode}

-- What the receiver puts together, by the protocol: the first escape opens a picture, the others go
-- on with it, and `m=0` ends it. Anything else is no picture.
unfoldable pub rest_of : List Escape → Option Text
rest_of [] = none
rest_of (transmit w h more piece ∷ es) = none
rest_of (go_on true piece ∷ es) = elim (rest_of es) [ none ↦ none | some s ↦ some (piece ++ s) ]
rest_of (go_on false piece ∷ []) = some piece
rest_of (go_on false piece ∷ e ∷ es) = none

abbrev opened : ℕ → ℕ → Option Text → Option (ℕ × ℕ × Text)
opened w h none = none
opened w h (some s) = some (w, h, s)

unfoldable pub received : List Escape → Option (ℕ × ℕ × Text)
unfolding rest_of
received [] = none
received (go_on more piece ∷ es) = none
received (transmit w h more piece ∷ es) = opened w h (rest_of (go_on more piece ∷ es))

-- Each piece is one that the protocol allows.
abbrev pub Short : List Escape → Type 0
Short [] = Unit {0}
Short (transmit w h more piece ∷ es) = (length piece ≤ 4096) × Short es
Short (go_on more piece ∷ es) = (length piece ≤ 4096) × Short es

take-drop : (n : ℕ) (s : Text) → take n s ++ drop n s ≡ s
take-drop zero s = refl
take-drop (suc n) [] = refl
take-drop (suc n) (c ∷ s) = ap (λ t. c ∷ t) (take-drop n s)

length-take : (n : ℕ) (s : Text) → length (take n s) ≤ n
length-take zero s = omega arith
length-take (suc n) [] = omega arith
length-take (suc n) (c ∷ s) = omega (arith, length-take n s)

length-drop : (n : ℕ) (s : Text) → length (drop n s) ≡ length s - n
length-drop zero s = omega arith
length-drop (suc n) [] = omega arith
length-drop (suc n) (c ∷ s) = omega (arith, length-drop n s)

-- What a piece and the escapes of what is left make up together.
rest_step :
    (piece left : Text) (es : List Escape)
    → (left ≡ [] → es ≡ [])
    → (0 < length left → rest_of es ≡ some left)
    → rest_of (go_on (ltb 0 (length left)) piece ∷ es) ≡ some (piece ++ left)
unfolding rest_of
rest_step piece [] es h k = rw (h refl, append-nil piece) refl
rest_step piece (c ∷ s) es h k =
    let more : ltb 0 (length (c ∷ s)) ≡ true = ground arith in rw (more, k (omega arith)) refl

loop-nil : (fuel w h : ℕ) (s : Text) → s ≡ [] → encode_loop fuel w h false s ≡ []
unfolding encode_loop
loop-nil zero w h s e = refl
loop-nil (suc fuel) w h s e = rw e refl

encode_loop-Short : (fuel w h : ℕ) (first : Bool) (s : Text) → Short (encode_loop fuel w h first s)
unfolding encode_loop
encode_loop-Short zero w h first s = tt
encode_loop-Short (suc fuel) w h first [] = tt
encode_loop-Short (suc fuel) w h true (c ∷ s) =
    let n = min chunk (length (c ∷ s)) in
    (omega (arith, length-take n (c ∷ s)), encode_loop-Short fuel w h false (drop n (c ∷ s)))
encode_loop-Short (suc fuel) w h false (c ∷ s) =
    let n = min chunk (length (c ∷ s)) in
    (omega (arith, length-take n (c ∷ s)), encode_loop-Short fuel w h false (drop n (c ∷ s)))

-- The escapes of one text, the first of which may open a picture.
encode_loop-rest :
    (fuel w h : ℕ) (s : Text)
    → length s ≤ fuel
    → 0 < length s
    → rest_of (encode_loop fuel w h false s) ≡ some s
unfolding encode_loop
encode_loop-rest zero w h s le pos = absurd (omega arith)
encode_loop-rest (suc fuel) w h [] le pos = absurd (omega arith)
encode_loop-rest (suc fuel) w h (c ∷ s) le pos =
    let n = min chunk (length (c ∷ s)) in
    let left = drop n (c ∷ s) in
    let less : length left ≤ fuel = omega (arith, length-drop n (c ∷ s)) in
    rest_step (take n (c ∷ s)) left (encode_loop fuel w h false left) (loop-nil fuel w h left)
      (encode_loop-rest fuel w h left less)
    ∙ ap some (take-drop n (c ∷ s))

encode_loop-received :
    (fuel w h : ℕ) (s : Text)
    → length s ≤ fuel
    → 0 < length s
    → received (encode_loop fuel w h true s) ≡ some (w, h, s)
unfolding encode_loop received
encode_loop-received zero w h s le pos = absurd (omega arith)
encode_loop-received (suc fuel) w h [] le pos = absurd (omega arith)
encode_loop-received (suc fuel) w h (c ∷ s) le pos =
    let n = min chunk (length (c ∷ s)) in
    let left = drop n (c ∷ s) in
    let less : length left ≤ fuel = omega (arith, length-drop n (c ∷ s)) in
    ap (opened w h) (
      rest_step (take n (c ∷ s)) left (encode_loop fuel w h false left) (loop-nil fuel w h left)
        (encode_loop-rest fuel w h left less)
      ∙ ap some (take-drop n (c ∷ s)))

-- Nothing is sent, or what the receiver puts together in the order it comes.
abbrev pub Delivers : Text → Text → ℕ → ℕ → Text → Option Sent → Type 0
Delivers sent pix w h enc none = sent ≡ pix
Delivers sent pix w h enc (some o) = (received o.escapes ≡ some (w, h, enc)) × Short o.escapes

-- After `encode` the picture is the one sent last. Nothing is sent only if it was that before; what
-- is sent are pieces of at most 4,096 bytes, which the receiver puts together to what zlib and
-- base64 make of the picture, if that is not empty, and its size.
pub encode-received :
    (deflate base64 : Text → Text) (sent pix : Text) (w h cols rows : ℕ)
    → 0 < length (base64 (deflate pix))
    → let r = encode deflate base64 sent pix w h cols rows in
      (r.0 ≡ pix) × Delivers sent pix w h (base64 (deflate pix)) r.1
unfolding encode
encode-received deflate base64 sent pix w h cols rows some_text =
    elim (Bool-cases (same_text sent pix)) [
      | inl same ↦ let e = eq_of-same_text sent pix same in rw same (e, e)
      | inr other ↦
          let enc = base64 (deflate pix) in
          rw other (
            refl,
            (
              encode_loop-received (length enc) w h enc (omega arith) some_text,
              encode_loop-Short (length enc) w h true enc,
            ),
          )
    ]
