-- ===== src/Lib.antt =====
-- A verification library for fragview, the program of this repository that reads /proc/kpageflags and
-- shows what every pageblock of a machine is made of, and which blocks are pinned by pages that cannot
-- be moved, and for fragload and fragcheck, which lay down a set of files and verify it.
--
-- The parts of the program and their models. Paths are from the repository's root.
--
-- packages/fragview/kpage.go, in Kpage. `Kpage.Classes` has the page classes and `class.immovable`,
-- `Kpage.Kpf` the flag bits, `Kpage.Flags` the classifier, `Kpage.Unseen` the table of unknown flag
-- words, `Kpage.Blocks` the block map, `newBlockMap` and `refreshInto`. A `[nrClasses]uint16` is a
-- function of a class; a counter wraps at 2 ^ 16. The file behind kpageflags is a parameter `ReadAt`:
-- the bytes read and whether the read failed. A flag word is a number below 2 ^ 64, read as eight bytes.
-- `Kpage.Classify`, `Kpage.Unseen`, `Kpage.Coverage`, `Kpage.Reads`, `Kpage.Scan`
-- and `Kpage.Totals` prove what
-- these do.
--
-- packages/fragview/render.go, in Render. `Render.Summary` has `summarise`, the verdict on one block;
-- `Render.Window` has the window onto the map: `clamp`, `pan`, `zoom` and `wheel`. The proofs are in
-- `Render.Summary.Verdict`, `Render.Summary.Pick` and `Render.Window.Bounds`. `Render.Cells` has the map
-- drawn with text, `cellFor` and the rows of `blockMap`, with the proof in `Render.Cells.Red`, and
-- `Render.Slabs` the table of slab caches, with the proof in `Render.Slabs.Ordered`; `Render.Bar` has the
-- legend and the bar of `compositionLines`, and what they show.
--
-- packages/fragview/main.go, in Model. `Model.Keys` has `key` and the loop over the keys of one
-- message, `Model.Sweep` the scanner (`scanRange`, `scan`), `Model.Update` the messages, the commands
-- and the runs of the whole program as a relation on systems. A `Step` is one event of the runtime: an
-- input, a timer, a redraw, the end of a scan, or the arrival of its message. The proofs are in
-- `Model.Keys.Invariant`, `Model.Sweep.Slice`, `Model.Sweep.Round`, `Model.Sweep.Full` and
-- `Model.Update.Runs`.
--
-- packages/fragview/pixmap.go, in Pixmap. `Pixmap.Layout` has `pixLayoutFor`, `blockSpan` and
-- `resolveHover`; `Pixmap.Layout.Fits` and `Pixmap.Layout.Hover` prove what the layout and the pointer
-- do. `Pixmap.Bands` has `bandHeights`, by position in `stackOrder`, with the proof in `Pixmap.Bands.Sum`.
-- `Pixmap.Palette` has the colours, `Pixmap.Paint` what paints a tile and all tiles (`stack`, `box`,
-- `paintBlocks`), `Pixmap.Columns` `paintAggregated`, `Pixmap.Picture` `markHover` and `paintPixels`,
-- and `Pixmap.Encode` the escapes that carry a picture. A picture is its size and the colour of each
-- pixel. The proofs are in `Pixmap.Paint.Rows`, `Pixmap.Paint.Tile`, `Pixmap.Paint.Grid`,
-- `Pixmap.Paint.Whole`, `Pixmap.Palette.Distinct`, `Pixmap.Columns.Shown`, `Pixmap.Picture.Pixels` and `Pixmap.Encode.Joined`.
--
-- packages/fragview/flagdump.go, in Histogram: the histogram of flag words that `dumpFlags` makes, with
-- the proof in `Histogram.Gathered`.
--
-- packages/fragview/hostage.go and `frame.summarise` of packages/fragview/render.go, in Hostage: the
-- summary of the map, the report on what pins its hostages, and the ceilings by owner set. The proofs
-- are in `Hostage.Totals`, `Hostage.Owners` and `Hostage.Sole`.
--
-- packages/fragview/compare.go, in Compare: the parser of expectations (`Compare.Parse`), medians, pairs
-- of seeds, the judgement of expectations and the exit status of a comparison. A float64 is an element
-- of any type with the operations used (`FloatOps`). `Compare.Groups` has `groupSnapshots`, over what
-- is read and measured of each file. The proofs are in `Compare.Passing`, `Compare.Parse.Parts`,
-- `Compare.Parse.Written`, `Compare.Groups.Piles` and `Compare.Groups.Kept`.
--
-- packages/fragview/snapshot.go, in Snapshot: `Snapshot` has the counters of a map as bytes and back,
-- `Snapshot.Format` the file (`toSnapshot`, `writeSnapshot`, `readSnapshot`), with JSON, gzip and base64
-- as parameters. The proofs are in `Snapshot.RoundTrip` and `Snapshot.Whole`.
--
-- packages/fragview/stats.go and the readers of packages/fragview/main.go, in Stats: `Stats` has the free
-- ladder, its unusable index and the block types, `Stats.Counts` the slab caches and the files of one
-- number to a name, `Stats.Who` the order of a pageblock and the files of the slabwho module. `Kpage.Iomem`
-- reads the ranges of RAM. The proofs are in `Stats.Ladder`, `Stats.Safe` and `Stats.Who`. What they use
-- of Go's strings and strconv is in `Prelude.Fields`.
--
-- packages/fragview/merge.go, in Merge: the sets of merged caches, their labels and their legend. The
-- proofs are in `Merge.Members` and `Merge.Lines`.
--
-- packages/fragload/main.go, in Load: `Load` has the contents of a file (`fill`), the directories and the
-- workers of `write`, `Load.Clone` has `cloneRange`. packages/fragcheck/main.go, in Check: the workers of
-- `verify`. The workers of a program share a counter of files and their results; a run is a sequence of
-- steps, each by one worker up to its next access to what is shared; a panic of `CompareAndSwap` in
-- a worker of `verify`, on errors of two types, ends the run. The proofs are in `Load.Written`,
-- `Load.Dirs`, `Load.Clone`, `Check.Differences`, `Check.Counted`, `Check.Noted`, `Check.Verified`, `Check.Ends` and `Check.Laid`.
--
-- How they interact: the scanner classifies pages into the block map, a redraw summarises the map and
-- lays it out, the pointer is resolved against the layout that was drawn, and keys and the wheel move
-- the window that the next redraw shows.
--
-- Loops and fuel. The scan of a range takes at most one round for each block of the range, since a
-- round reads at least one block if a block of flags fits the buffer of 1 MiB; that is why a block has
-- at most 2 ^ 17 pages where a theorem says so. The loop of the layout tries at most as many row spans
-- as the map has rows, since a single row of tiles ends it. Both counts are the ones that the models
-- give, and no theorem assumes that the loop ends. `cloneRange` has a fuel of one more than the size, since
-- each call that goes on copies a byte; the workers of `verify` have none, their runs being as long as
-- they are. Counters of bytes and files are taken to stay below 2 ^ 63.
--
-- Numbers. An `int` that never goes below zero is a natural number and any other an integer without
-- bound (Prelude.Int): block and page numbers stay far below 2 ^ 63. uint16 counters, the uint64 count
-- of an unknown word and the sequence number of the pointer keep their wrap-around. A share of memory
-- in use is kept as a fraction. The float64 arithmetic of `zoom` is a parameter `scale`, of which only
-- the theorem on the pointer asks anything. The float64 arithmetic of `bandHeights` (`scaled`,
-- `by_frac`), `fade` (`mix`), `cellFor` (`level`) and the bar (`exact`) is a parameter too; of the order of the fractions
-- the theorems ask that it keeps their number and gives no others.
--
-- Not modelled: what is printed beside the map and styles, when a picture is drawn again, the tables of a comparison and the measures it takes of a
-- snapshot, clocks, the passes of fragload's `read`, `hot` and `clone` and fragcheck's
-- `hog`, the other programs of the repository (fragspike, mmapcheck, the slabwho kernel module), the
-- patches, and the virtual machine tests. A scan is one step here, so a key pressed while it runs counts
-- as pressed after it; the program's lock makes the two the same for all that the scan reads at its start.
pub mod Check
pub mod Compare
pub mod Histogram
pub mod Hostage
pub mod Kpage
pub mod Load
pub mod Merge
pub mod Model
pub mod Pixmap
pub mod Prelude
pub mod Render
pub mod Snapshot
pub mod Stats
pub mod Tests
