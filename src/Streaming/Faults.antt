-- ===== src/Streaming/Faults.antt =====
-- The ValueErrors of src/openlithohub/streaming, one constructor for each place that raises, and
-- KeyError.
pub data Error : Type 0 where
  degenerate_bbox negative_halo nonpositive_core_size nonpositive_core_stride : Error
  subdivision_below_two leaf_exists not_a_final_leaf no_children child_escapes : Error
  duplicate_child not_area_conserving unknown_disposition already_terminal : Error
  not_terminated coverage_mismatch key_error : Error
  unknown_action nonpositive_extra_halo stop_iteration slice_escapes bbox_escapes nonpositive_budget
        invalid_core_bounds zero_division domain_mismatch :
      Error
