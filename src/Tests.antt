-- ===== src/Tests.antt =====
-- Runs of the models at small inputs, and the theorems at inputs that meet their hypotheses.
mod KpageRuns
mod RenderRuns
mod BarRuns
mod CellsRuns
mod WindowRuns
mod HistogramRuns
mod PixmapRuns
mod PictureRuns
mod SlabsRuns
mod SweepRuns
mod UpdateRuns
mod HostageRuns
mod CompareRuns
mod GroupsRuns
mod SnapshotRuns
mod StatsRuns
mod LoadRuns
mod ParseRuns
mod MergeRuns
mod CheckRuns
