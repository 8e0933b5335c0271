-- ===== src/Merge/Lines.antt =====
-- The lines that packages/fragview/merge.go makes for a pane.
use zfs_slab_mobility.Prelude.{
  ℕ, ◌+◌, ◌≤◌, ◌<◌, arith, ◌||◌, Option, none, some, List, [], ◌∷◌, ◌++◌, ltb, leb, length,
  length-append, Text, codes, Dict, if_intro, Bool-cases, inl, inr,
}
use zfs_slab_mobility.Merge.{
  aliases, cache_label, contains, pack, after_pack, one_set, alias_loop, alias_lines,
}

module _ (known : Option (Dict (List Text))) (width most : ℕ) where
  -- A line that is left still has room.
  Room : List Text × Option Text → Type 0
  Room (out, none) = length out ≤ most
  Room (out, some line) = length out < most

  pack-Room :
      (ms out : List Text) (line : Text)
      → length out < most
      → Room (pack known width most ms out line)
  unfolding pack Room
  pack-Room [] out line h = h
  pack-Room (m ∷ ms) out line h =
      let wraps = ltb width (length line + 1 + length m) in
      elim (Bool-cases wraps) [
        | inr fits ↦ rw fits (pack-Room ms out (line ++ codes " " ++ m) h)
        | inl over ↦ elim (Bool-cases (leb most (length (out ++ line ∷ [])))) [
          | inl full ↦ rw (over, full) (omega (arith, length-append out (line ∷ [])))
          | inr room ↦
              rw (over, room)
                (pack-Room ms (out ++ line ∷ []) (codes "     " ++ codes " " ++ m)
                  (let gt : length (out ++ line ∷ []) < most = ground arith in gt))
        ]
      ]

  after_pack-length :
      (go : List Text → List Text) (r : List Text × Option Text)
      → ((out : List Text) → length out ≤ most → length (go out) ≤ most)
      → Room r
      → length (after_pack known width most go r) ≤ most
  unfolding Room
  after_pack-length go (out, none) h room = room
  after_pack-length go (out, some line) h room =
      h (out ++ line ∷ []) (omega (arith, room, length-append out (line ∷ [])))

  one_set-length :
      (line : Text) (seen out skip : List Text) (on : Text → List Text → List Text)
      (set : List Text)
      → length skip ≤ most
      → ((a : Text) (out2 : List Text) → length out2 ≤ most → length (on a out2) ≤ most)
      → length (one_set known width most line seen out skip on set) ≤ most
  unfolding one_set
  one_set-length line seen out skip on [] h go = h
  one_set-length line seen out skip on (a ∷ []) h go = h
  one_set-length line seen out skip on (a ∷ b ∷ more) h go =
      if_intro (λ (r : List Text). length r ≤ most) (contains seen a || leb most (length out)) skip
        (after_pack known width most (on a) (pack known width most (a ∷ b ∷ more) out line))
        (λ skips. h)
        (λ explains.
          let room : length out < most = ground arith in
          after_pack-length (on a) (pack known width most (a ∷ b ∷ more) out line) (go a)
            (pack-Room (a ∷ b ∷ more) out line room))

  alias_loop-length :
      (ns seen out : List Text)
      → length out ≤ most
      → length (alias_loop known width most ns seen out) ≤ most
  unfolding alias_loop
  alias_loop-length [] seen out h = h
  alias_loop-length (n ∷ ns) seen out h =
      one_set-length (codes " " ++ cache_label known n ++ codes " =") seen out
        (alias_loop known width most ns seen out) (λ a. alias_loop known width most ns (a ∷ seen))
        (aliases known n) (alias_loop-length ns seen out h)
        (λ a out2 le. alias_loop-length ns (a ∷ seen) out2 le)

  -- At most so many lines are made as fit the pane, however the sets are wrapped.
  pub alias_lines-length : (shown : List Text) → length (alias_lines known width most shown) ≤ most
  unfolding alias_lines
  alias_lines-length shown = alias_loop-length shown [] [] (omega arith)
