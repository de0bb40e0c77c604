-- ===== src/Tests/Lean.antt =====
-- internal/lean: the property at two concrete rows of metrics.
use genesis_ssmp.Base.{◌∷◌, List, [], bytes, ℕ, pos}
use genesis_ssmp.Lean.{
  Column, timestamp_column, delta_encoding, MetricsRow, metrics_schema, metrics_row_to_values,
  Value,
}

abbrev metrics_at : ℕ → ℕ → MetricsRow
metrics_at time tokens = record {
  timestamp = pos time;
  mission_id = bytes "m1";
  status = bytes "running";
  pf_count = pos 3;
  pf_response_size = pos 900;
  retries = pos 0;
  rejects = pos 0;
  conflicts = pos 0;
  test_failures = pos 1;
  tokens_in = pos tokens;
  tokens_out = pos 10;
  turns = pos 2;
  elapsed_ms = pos 50;
  phase_transitions = pos 0;
}

abbrev first_row : List Value
first_row = metrics_row_to_values (metrics_at 1500 40)

abbrev second_row : List Value
second_row = metrics_row_to_values (metrics_at 2000 90)

abbrev first_column : Column
first_column = record { name = bytes "t"; col_type = timestamp_column; encoding = delta_encoding }

abbrev other_columns : List Column
other_columns = tail_of metrics_schema
  where
    tail_of : List Column → List Column
    tail_of [] = []
    tail_of (c ∷ cs) = cs
