-- ===== src/Proto.antt =====
-- packages/lance/src/proto.ts: the messages of the Lance format, decoded from protobuf. Reader models
-- `ProtoReader`; RowIds, Encodings, Columns and Manifest hold the messages and their parsers.
pub mod Reader
pub mod RowIds
pub mod Encodings
pub mod Columns
pub mod Manifest
pub mod Total
pub mod TotalRowIds
pub mod TotalEncodings
pub mod TotalColumns
pub mod TotalManifest
pub mod Encode
pub mod Fields
pub mod RoundTrip
pub mod Located
