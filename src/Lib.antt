-- ===== src/Lib.antt =====
-- geofastmapAPI: an OGC API server for vector and raster collections, in Python, over PostGIS,
-- Redis and a Titiler upstream.
--
-- What is modelled, and where:
--   Access     app/core/permissions.py: who may see and edit collections, maps, styles and views.
--              The database is a record of what the queries answer.
--   Gate       app/services/titiler_gate.py and db_load_gate.py: limits on concurrent calls. Each
--              block under the lock is one step of a relation; the event loop picks the order.
--   Json       the values that the `json` module reads and writes; the module itself is a
--              parameter (`Codec`) whose law is that a written value is read back.
--   Redis      the Redis commands as an interface with the laws of the commands' manual.
--   Queue      app/services/tile_build_queue.py and process_queue.py: payloads and leases.
--   Bulk       app/services/bulk_collection_activity.py: the mutex of a collection, and the counters of
--              the work that runs on it. The wait for an idle collection runs on fuel, which is
--              enough beyond the turn at which it ends.
--   Composite  app/services/composite_items.py: ids and pages of a composite collection's items.
--              A text is its list of code points; the members' queries are parameters.
--              Composite.Members, composite_collections.py: the check of the members when a
--              composite is written; the table of collections is a parameter.
--   Retry      app/services/titiler_retry.py and redis_resilience.py: calls tried again. The loop
--              of `run_redis_retry` runs on fuel: the limit is enough, or the attempts up to the
--              first answer where it has none.
--   JobStore   app/services/job_store.py: jobs in memory and in Redis hashes, their updates and
--              listings. How numbers and times are written is a parameter (`Texts`) with its round
--              trips; a time's zone is left out.
--   Shards     app/services/bulk_queue.py: the counters of a parent job; Queue.BulkImport and
--              Queue.BulkJobs: the payload of a bulk job, the registry and the removal.
--   Finalize   app/services/bulk_finalize_queue.py: the imports that wait for their promotion, and the
--              world that their handlers share; Finalize.Worker, bulk_finalize_worker.py; Finalize.Reconcile,
--              bulk_finalize_reconcile.py; Finalize.Watchdog, bulk_watchdog.py. The database is a
--              state with what the SQL answers and does (`Engine`), the job store its abstract view.
--   Mosaic     app/services/mosaic_plan.py: the slices of a search by months and seasons, and the
--              greedy cover of an area. The loop over months runs on fuel for the months of the
--              range, the greedy loop on the source's own limit. Floats and shapely are parameters.
--   Titiler    app/services/titiler_inflight.py and titiler_tile_cache.py: callers that share a fetch,
--              each block between two awaits as one step, and the cache of tiles.
--   Upload     app/services/bulk_upload_sessions.py, the parts of bulk_storage.py and the handlers of
--              app/api/routes/items.py for a file that is sent in parts. Access.Shares,
--              app/crud/resource_share.py: shares over the rows that the checks read.
--   Stac       app/services/stac_federation.py: the search in one catalog with its retries and pages,
--              and the merge over the catalogs. What a catalog replies is a parameter.
--   Storage    app/services/storage_self_heal.py: the removal of files that Redis does not refer to; the
--              answers of Redis, the listings and the regular expression are parameters.
--   Examples   the inputs at which the theorems are applied, with a store that keeps the laws.
--   Prelude    shared names, tests on numbers and texts, lists over the native numbers.
--
-- How the parts interact: the queues and the mutex share one Redis store, under keys that begin with
-- different prefixes (Queue.Keys); the payloads pass through one codec; every theorem about them
-- holds for each store and codec that keep the laws. An update of a job in the job store releases
-- the mutex of its collection (JobStore.Finish); the results of shards are counted in the state of
-- their parent job. The file of an upload in parts (Upload) becomes that of a bulk job in the queue,
-- which the self-heal of the storage keeps (Storage). The permission checks are called by the HTTP
-- routes.
--
-- Functions keep the source's names, without a leading underscore. A dynamically typed field is a
-- `Json` value, since the source does not check what it reads. `None` is `none` or `null`.
-- Numbers are natural numbers where the source's are never negative. Commands of Redis that fail end
-- most operations in the source: they, and the running out of keys, are modelled only where a
-- comment says so.
--
-- Not modelled: SQL and PostGIS, geometry and raster libraries, templates, the HTTP handlers but for
-- those of an upload in parts, the worker processes, and migrations: they are calls of libraries for
-- the most part.
pub mod Prelude
pub mod Access
pub mod Titiler
pub mod Upload
pub mod Stac
pub mod Storage
pub mod Gate
pub mod Json
pub mod Redis
pub mod Queue
pub mod Bulk
pub mod Composite
pub mod Retry
pub mod JobStore
pub mod Mosaic
pub mod Shards
pub mod Finalize
pub mod Examples
