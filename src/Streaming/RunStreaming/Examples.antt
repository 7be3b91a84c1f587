-- ===== src/Streaming/RunStreaming/Examples.antt =====
-- A run over a layout of 6 by 10 pixels in which every verifier of a whole tile asks for its subdivision.
use open_litho_hub.Base.{zero, suc, true, some, [], arith}
use open_litho_hub.Base.Int.{pos}
use open_litho_hub.Streaming.CoreHalo.{
  TileId, TileRequest, RefinementRequest, planned, sub_tile, quarter, do_subdivide,
}
use open_litho_hub.Streaming.Work.{Work}
use open_litho_hub.Streaming.RunStreaming.{
  RunState, Advice, settled, inconclusive, discharged, run_streaming,
}
use open_litho_hub.Streaming.RunStreaming.Ids.{tile_id_eq}
use open_litho_hub.Streaming.RunStreaming.Loop.{CommitsOnce, run_streaming-CommitsOnce}

abbrev ledger : Work TileId
ledger = record {
  full_chip_pixels = 0;
  reused_work_units = 0;
  forward_simulator_calls = 0;
  forward_simulator_input_pixels = 0;
  read_window_calls = 0;
  read_window_pixels = 0;
  screen_queries = 0;
  tiles_skipped = 0;
  tiles_refined = 0;
  tiles_screened_out = 0;
  dense_allocation_events = 0;
  n_subdivisions = 0;
  forward_union = [];
  unique_forward_pixels = 0;
  tile_areas = [];
  screened_tiles = [];
}

abbrev quarters : TileId → RefinementRequest
quarters i = record { tile_id = i; action = do_subdivide; extra_halo_px = pos 0; subdivision = 2 }

-- The first tile is screened out, the other planned ones are subdivided, and their children pass.
abbrev cautious : TileRequest → RunState → Advice
cautious r st = elim r.tile_id [
  | planned prefix idx ↦ elim idx [
    | zero ↦ discharged
    | suc k ↦ inconclusive (some (quarters r.tile_id))
  ]
  | sub_tile parent idx ↦ settled
  | quarter parent idx ↦ settled
]

run_streaming-CommitsOnce_example : CommitsOnce 6 10 (run_streaming 6 10 true cautious 4 1 2 ledger)
run_streaming-CommitsOnce_example =
    run_streaming-CommitsOnce 6 10 true cautious 4 1 2 ledger (omega arith)
