-- ===== src/Titiler.antt =====
-- The tiles of the raster server: the callers that share one fetch, and the cache of its answers.
pub mod Inflight
pub mod TileCache
