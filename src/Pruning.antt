-- ===== src/Pruning.antt =====
-- packages/parquet/src/row-group-pruning.ts: whether a row group can be skipped, or taken whole.
pub mod Stats
pub mod InList
pub mod Spatial
pub mod RowGroups
pub mod Bounds
pub mod Place
pub mod InSorted
pub mod Leaves
pub mod InBuckets
pub mod InSound
pub mod Agree
pub mod MaySound
pub mod MustSound
pub mod Inverted
