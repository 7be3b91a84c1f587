-- ===== src/Lib.antt =====
-- OpenLithoHub: the full-chip streaming planner and the job server, modelled and verified.
--
-- The program cuts a layout into cores, each read with a halo of context (src/openlithohub/streaming),
-- and serves optimisation jobs over HTTP (src/openlithohub/server). The planner makes tile requests;
-- refinements subdivide a request or grow its halo; the ownership tree records which leaf owns which
-- area, and the work ledger which area a forward model ever ran on. The server keeps jobs in a store
-- whose records are the queue; the runtime admits runs, reserves queue slots during uploads, leases
-- artifacts during downloads, and runs one worker. Sinks take the cores of the tiles, and a reducer
-- folds their verdicts.
--
-- Base: shared names, Boolean tests on numbers, lists, dictionaries, integers, and outcomes of code
-- that may raise.
-- Streaming.Geometry: streaming/geometry.py (BoundingBox, HaloSpec, core_grid_boxes, read_bbox_for,
-- halo_actual). Geometry.Pixels says by counting owners of pixels what a cover is.
-- Streaming.CoreHalo: streaming/core_halo.py (plan_tile_requests, subdivide_request, TileScheduler,
-- plan_tiling).
-- Streaming.Ownership: streaming/ownership.py (OwnershipTree and partition_core).
-- Streaming.Work: streaming/work_accounting.py (WorkAccounting).
-- Streaming.VectorRuns: streaming/vector_runs.py (_subtract_spans, polygon_row_spans).
-- Streaming.OwnedRuns: streaming/vector_runs.py (OwnedRunSlice, iter_owned_runs_for_bbox). The canonical
-- runs of a row are a parameter.
-- Streaming.Verification: streaming/verification.py (StreamingVerificationReducer, fold_global).
-- Streaming.Sinks: streaming/sinks.py (TensorTileSink, MetricOnlyTileSink).
-- Streaming.Manhattan: streaming/sinks.py (_row_runs, StreamingManhattanTileSink).
-- Streaming.Pipeline: streaming/pipeline.py (_default_refinement, _grown_request, _core_slices).
-- Streaming.RunStreaming: the loop of run_streaming of the same file, with the tree, the ledger and the
--   cores given to the sink. What the screen and the verifiers decide on a tile is an argument, a function
--   of the tile and the state. `drain` recurs on the stack, and `run_pending` on refinements_left, which
--   each refinement lowers, so no fuel is needed.
-- Server.Schemas: server/schemas.py (JobStatus, transition_job_status).
-- Server.JobStore: server/job_store.py (InMemoryJobStore, and recover of SQLiteJobStore).
-- Server.SqliteStore: server/job_store.py (the queue, transitions and retention of SQLiteJobStore).
-- Server.Runtime: server/runtime.py (admission, QueueReservation, leases, delete_job, _evict_terminal).
-- Server.Worker: server/runtime.py (_worker_loop, wait_for_admission, _execute_job, run_admitted).
-- Server.Lifecycle: server/runtime.py (start, stop, _drain_queued_jobs, _reap_until_stopped).
-- SocsPlan: _utils/socs_memory_plan.py (plan_socs_decomposition, assert_headroom,
-- validate_worker_plan): how much of a spectrum a GPU may hold at once.
-- Verify.InterfaceRuns: verify/interface_runs.py (encode_binary_row_runs,
-- split_runs_outside_chebyshev).
-- Streaming.Examples, Server.Examples and the Examples of the parts: the theorems at concrete inputs.
--
-- A raised exception is a value of Outcome; a method that mutates and may raise returns the state
-- beside its result. Each operation that the source runs under a lock is one function, and a run is
-- any sequence of operations. Loops are structural recursions over the lists of the source's ranges.
-- The drain of the queue runs on fuel, the number of QUEUED records: each turn cancels one of them.
-- Pixel coordinates, areas, bytes and times are natural numbers, halos and budgets integers.
-- The clock, the test whether a path is a file, and the outcome of the optimiser are arguments.
-- Floating-point numbers are types with the operations that the code uses on them.
--
-- Not modelled: floating-point statistics, tensors and rasters, the models, metrics and simulators,
-- the HTTP layer, files, SQL and threads, memory-mapped files, the cast
-- of a tensor to the dtype of a sink, and the batches of run_streaming.
pub mod Base
pub mod Server
pub mod SocsPlan
pub mod Streaming
pub mod Verify
