-- ===== src/Tests/Planner.antt =====
-- god/planner.go: the property at a concrete task.
use genesis_ssmp.Heaven.State.{log_event}
use genesis_ssmp.Heaven.Leases.{acquire, scope_key}
use genesis_ssmp.God.Integrator.Integrate.{call_server}
use genesis_ssmp.God.Planner.Shape.{IsPlan, plan-IsPlan}
use genesis_ssmp.Heaven.Server.Soundness.{start_server}
use genesis_ssmp.God.Missions.{new_mission_dag, add_node, MissionDag}
use genesis_ssmp.Heaven.Server.{handle_lease_acquire, handle_append_event, Server}
use genesis_ssmp.Tests.Codec.{test_env}
use genesis_ssmp.God.Integrator.Conflict.{answered}
use genesis_ssmp.God.Planner.Plan.{
  PlanError, plan_rest, plan_buckets, ask_leases, log_mission, PlannerHost, plan,
}
use genesis_ssmp.God.Planner.Buckets.{
  gather_symbols, fresh_symbols, group_by_bucket, dir_map, append_at, scopes_from, Symbol,
}
use genesis_ssmp.Base.{
  List, true, get, put, Result, err, Option, some, length, ok, ◌≡◌, refl, ◌∷◌, [], Bytes, bytes,
  fields, fields_loop, width_of, has_prefix, same,
}
use genesis_ssmp.God.Planner.{
  is_among, is_mark, trim_marks, trim_left_marks, keywords_from, extract_keywords,
}

-- The task is in lower case.
abbrev lower : Bytes → Bytes
lower s = s

abbrev task : Bytes
task = bytes "fix the cache: cache (lru)"

task-keywords : extract_keywords lower task ≡ bytes "cache" ∷ bytes "lru" ∷ []
unfolding extract_keywords keywords_from trim_marks trim_left_marks is_mark is_among fields
    fields_loop width_of has_prefix same
task-keywords = refl

-- The server answers every call; the index knows one symbol for each keyword, all in one directory.
abbrev found : Bytes → Option (List Symbol)
found kw = some (
    record {
      id = length kw;
      name = kw;
      kind = bytes "function";
      path = bytes "p/a.go";
      start_byte = 0;
      end_byte = 9;
      start_line = 1;
      end_line = 1;
    }
    ∷ [])

abbrev host : PlannerHost
host = record {
  env = test_env;
  server_now = bytes "t0";
  builds = true;
  search = found;
  to_lower = lower;
  dir_base = λ path. bytes "p";
  largest_first = λ m. m;
  map_order = λ m. m;
  drawn_id = λ i. i ∷ [];
  now = bytes "2026-01-01T00:00:00Z";
  event_json = λ e. bytes "{}";
  acquire_delivery = λ i. answered;
  event_delivery = λ i. answered;
}

abbrev dag_of : Result PlanError MissionDag → MissionDag
dag_of (ok dag) = dag
dag_of (err e) = new_mission_dag [] [] [] []

abbrev outcome : Server × Result PlanError MissionDag
outcome = plan host task (bytes "/repo") start_server

plans : plan host task (bytes "/repo") start_server ≡ (outcome.0, ok (dag_of outcome.1))
unfolding plan plan_rest plan_buckets ask_leases log_mission gather_symbols fresh_symbols
    group_by_bucket dir_map append_at scopes_from new_mission_dag add_node call_server
    extract_keywords keywords_from trim_marks trim_left_marks is_mark is_among fields fields_loop
    width_of has_prefix same get put handle_lease_acquire handle_append_event acquire log_event
    scope_key
plans = refl

plan-IsPlan_example : IsPlan host (λ time. true) task (dag_of outcome.1)
plan-IsPlan_example =
    plan-IsPlan host (λ time. true) task (bytes "/repo") start_server outcome.0 (dag_of outcome.1)
      (λ i. refl) refl refl (λ m. refl) refl plans
