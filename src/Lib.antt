-- ===== src/Lib.antt =====
-- LakeQL: a query engine over files in object stores. This library models the part of it that decides
-- what is read and what a row satisfies.
--
-- A query is an expression tree (packages/core/src/expr.ts). It is classified into parts
-- (predicate-plan.ts), its row groups are pruned by the statistics of the file and planned as ranges
-- (packages/parquet/src/row-group-pruning.ts, row-group-plan.ts), the rows that are read are tested by
-- the evaluator (packages/core/src/evaluator.ts), and the matching rows are ordered (query-sort.ts,
-- scalar-order.ts). Window functions see each row with the rows of its frame (window-frame.ts), over
-- which a segment tree computes aggregates (window-segment-tree.ts). Bytes come from an object store,
-- through a cache (object-store-cache.ts). Lance tables are described by protobuf messages
-- (packages/lance/src/proto.ts), among them the sequences of stable ids by which a row is found
-- (packages/lance/src/rowids.ts).
--
-- Base          shared names, Boolean tests, orders, integers, results, binary search (`lowerBound`)
-- Expr          scalars and expressions: packages/core/src/expr.ts, timestamp.ts, interval.ts
-- Builders      `eq`, `isIn`, `and` and the other functions of expr.ts that build expressions
-- Scalars       how JavaScript orders scalars; ISO timestamps (timestamp.ts); the host's functions
-- Evaluator     `evaluate`, `matches`, `compare`, `inList`, `sqlAnd`: packages/core/src/evaluator.ts
-- Pruning       `rowGroupMayMatch`, `rowGroupMustMatch`: packages/parquet/src/row-group-pruning.ts, with
--               Stats, InList, Spatial and RowGroups for its parts, and the proofs beside them
-- RowGroupPlan  `planRowGroupsFromMetadata`: packages/parquet/src/row-group-plan.ts
-- PredicatePlan `classifyPredicate`: packages/core/src/predicate-plan.ts
-- Sorting       `compareOrderedScalars`, `compareRows`, `normalizeOrderBy`, `addOrderedMatch`:
--               packages/core/src/scalar-order.ts, query-sort.ts
-- Cache         `SharedMemoryCache`: packages/core/src/object-store-cache.ts
-- CachedStore   `cachedObjectStore`: the same file
-- RowIds        `resolveRequestedRowIds`, `stableRowIdAtOffset`: packages/lance/src/rowids.ts
-- Proto         `ProtoReader`, `parseManifest`, `parseColumnMetadata`, `parseRowIdSequence` and the other
--               parsers: packages/lance/src/proto.ts, with Reader, RowIds, Encodings, Columns and
--               Manifest for its parts. Encode is a writer, as a specification
-- Window        `frameSpan`, `frameRows`, `peerGroups`: packages/core/src/window-frame.ts, in Frames and
--               RangeFrames; `segmentTreeAggregateValues`: window-segment-tree.ts, in Tree and
--               Aggregates; the rows of a partition: window.ts, window-utils.ts
-- RangeCache    `cachedRangeBuffer`, `coalescedRange`, `prefetchRetainableRanges`:
--               packages/parquet/src/range-cache.ts; in Shared, on a `SharedMemoryCache`
-- Tests         runs at concrete inputs
--
-- A thrown error is a value of `Result`, told apart by its code. A string is the list of its UTF-16
-- code units; a finite double is a whole multiple of 2^-1074, so that it compares exactly with a
-- BigInt. The state of a cache is passed along, and the time is an argument. What JavaScript and other
-- packages supply is a parameter: `Host` (Date.parse, arithmetic on doubles, regular expressions, the
-- functions of the expression language), `JsonHost` (JSON), `WindowHost` (the JSON text of a key, the
-- calendar of `Date`, square roots), `Utf8` (TextDecoder), `ObjectStore`
-- (the wrapped store) and the `read` of `CachedFile`. An array that is written at its indices, as that
-- of the segment tree, is a function of the index.
--
-- Loops are recursion on the list they run over, but for some. `lower_bound_loop` takes fuel: the
-- interval shrinks each round, so one round more than it has elements is enough. `evict_loop` takes
-- fuel: each round deletes an entry, so the number of entries is enough.
-- `fields_loop` and `packed_loop` take the number of bytes as fuel, since a field and a value take a
-- byte at least, and `array_encoding_loop` the depth of nesting, which is below the number of bytes.
-- `peer_groups_loop` takes the number of rows, as a group has a row. `size_loop` takes the number of
-- leaves and `query_loop` the right end, as they double and halve.
--
-- Not modelled: SQL text, grouping and joins, the sorting of window rows and the ranking functions,
-- Iceberg metadata, the pages of Parquet and Lance, indexes, the merge of sorted runs, and the
-- drivers, which do input and output. Calls of a cached store or of a cached file are sequences; reads
-- that overlap a write or another read are left out. Numbers of rows and bytes are exact, as they are
-- below 2^53.
pub mod Base
pub mod Expr
pub mod Scalars
pub mod Evaluator
pub mod Pruning
pub mod RowGroupPlan
pub mod RowIds
pub mod Cache
pub mod Builders
pub mod PredicatePlan
pub mod CachedStore
pub mod Tests
pub mod Sorting
pub mod Proto
pub mod Window
pub mod RangeCache
