-- ===== src/Examples.antt =====
-- The theorems at concrete inputs, and the inputs.
mod Store
mod Codec
mod Titiler
mod Upload
mod Stac
mod Storage
mod JsonEq
mod Access
mod Gate
mod Queue
mod Bulk
mod Composite
mod Finalize
mod Mosaic
mod Retry
mod JobStore
mod Shards
