-- ===== src/God/Planner/Plan.antt =====
-- god/planner.go: `Plan`, over the model of the server.
use genesis_ssmp.Base.{
  ℕ, suc, Bool, true, false, Option, none, some, List, [], ◌∷◌, ◌++◌, map, Bytes, bytes, pos,
  Result, ok, err,
}
use genesis_ssmp.Heaven.State.{Env, Lease}
use genesis_ssmp.Heaven.Leases.{ScopeTarget, AcquireResult}
use genesis_ssmp.Heaven.Server.{
  Server, Answer, acquired_leases, internal_error, handle_append_event, handle_lease_acquire,
}
use genesis_ssmp.God.Missions.{Scope, Mission, DagNode, MissionDag, new_mission_dag, add_node}
use genesis_ssmp.God.Integrator.Conflict.{Delivery}
use genesis_ssmp.God.Integrator.Integrate.{call_server}
use genesis_ssmp.God.Planner.{extract_keywords}
use genesis_ssmp.God.Planner.Buckets.{Symbol, Buckets, gather_symbols, group_by_bucket, scopes_from}

-- The events of `Plan`; the second is that of the fallback, which names no scopes.
pub data PlanEvent : Type 0 where
  mission_created fallback_created : Bytes → Mission → PlanEvent

-- The server's environment and clock, the index, the identifiers in the order in which they are drawn,
-- the order of the Go maps, and how the calls of the server end; the calls for leases are numbered by
-- the identifier drawn for the mission.
pub record PlannerHost : Type 0 where
  pub env : Env
  pub server_now : Bytes
  pub builds : Bool
  pub search : Bytes → Option (List Symbol)
  pub to_lower : Bytes → Bytes
  pub dir_base : Bytes → Bytes
  pub largest_first : Buckets → Buckets
  pub map_order : Buckets → Buckets
  pub drawn_id : ℕ → Bytes
  pub now : Bytes
  pub event_json : PlanEvent → Bytes
  pub acquire_delivery : ℕ → Delivery
  pub event_delivery : ℕ → Delivery

pub data PlanError : Type 0 where
  build_failed : PlanError
  acquire_failed : Bytes → PlanError

-- A mission that `Plan` makes.
abbrev pub planned : PlannerHost → Bytes → Bytes → List Scope → List Bytes → Bytes → ℕ → Mission
planned host id goal scopes lease_ids task budget = record {
  mission_id = id;
  goal = goal;
  base_rev = bytes "HEAD";
  scopes = scopes;
  lease_ids = lease_ids;
  tasks = task ∷ [];
  token_budget = pos budget;
  created_at = host.now;
}

abbrev pub as_target : Scope → ScopeTarget
as_target s = record { scope_type = s.scope_type; scope_value = s.scope_value }

abbrev pub id_of : Lease → Bytes
id_of l = l.lease_id

-- The server after a request for leases, and its answer; a handler that panics answers nothing.
abbrev pub or_panicked : Server → Option (Server × Answer) → Server × Answer
or_panicked srv none = (srv, internal_error)
or_panicked srv (some x) = x

abbrev pub leases_of : Option Answer → Option AcquireResult
leases_of (some (acquired_leases r)) = some r
leases_of _ = none

-- `HeavenClient.LeaseAcquire`; `none` is its error.
unfoldable pub ask_leases :
    PlannerHost → ℕ → Bytes → Bytes → List Scope → Server → Server × Option AcquireResult
unfolding call_server handle_lease_acquire
ask_leases host i plan_id mission_id scopes srv =
    let (srv', answer) =
      call_server (host.acquire_delivery i)
        (or_panicked srv (
          handle_lease_acquire host.env host.server_now
            (record {
              owner_id = bytes "god-" ++ plan_id;
              mission_id = mission_id;
              scopes = map as_target scopes;
            })
            srv))
        srv in
    (srv', leases_of answer)

-- `HeavenClient.AppendEvent`, whose error is dropped.
unfoldable pub log_mission : PlannerHost → ℕ → PlanEvent → Server → Server
unfolding call_server handle_append_event
log_mission host i e srv =
    (call_server (host.event_delivery i) (handle_append_event host.env (host.event_json e) srv)
      srv).0

-- The mission of a bucket.
abbrev pub bucket_mission :
    PlannerHost → Bytes → Bytes → Bytes → List Scope → AcquireResult → Mission
bucket_mission host task_desc id name scopes r =
    planned host id (bytes "Implement " ++ (name ++ (bytes " bucket: " ++ task_desc))) scopes
      (map id_of r.acquired) name 8000

abbrev pub analysis : PlannerHost → Bytes → Mission
analysis host task_desc =
    planned host (host.drawn_id 1) (bytes "Analyze codebase for: " ++ task_desc) [] []
      (bytes "analyze") 4000

-- A node that waits for the analysis.
abbrev pub after_analysis : PlannerHost → Mission → DagNode
after_analysis host m = record { mission = m; depends_on = host.drawn_id 1 ∷ [] }

-- The loop over the buckets; `i` is the number of the identifier that is drawn next.
unfoldable pub plan_buckets :
    PlannerHost → Bytes → ℕ → Buckets → MissionDag → Server → Server × Result PlanError MissionDag
unfolding scopes_from ask_leases log_mission add_node
plan_buckets host task_desc i [] dag srv = (srv, ok dag)
plan_buckets host task_desc i ((name, symbols) ∷ buckets) dag srv =
    let scopes = scopes_from [] symbols in
    let id = host.drawn_id i in
    let (srv', answer) = ask_leases host i dag.plan_id id scopes srv in
    elim answer [
      | none ↦ (srv', err (acquire_failed name))
      | some r ↦
          let m = bucket_mission host task_desc id name scopes r in
          plan_buckets host task_desc (suc i) buckets (add_node (after_analysis host m) dag)
            (log_mission host i (mission_created dag.plan_id m) srv')
    ]

abbrev pub fallback : PlannerHost → Bytes → Mission
fallback host task_desc = planned host (host.drawn_id 2) task_desc [] [] (bytes "default") 8000

-- The missions after the analysis: one for each bucket, or the fallback where there is none.
unfoldable pub plan_rest :
    PlannerHost → Bytes → Buckets → MissionDag → Server → Server × Result PlanError MissionDag
unfolding plan_buckets log_mission add_node
plan_rest host task_desc [] dag srv = (
  log_mission host 2 (fallback_created dag.plan_id (fallback host task_desc)) srv,
  ok (add_node (after_analysis host (fallback host task_desc)) dag),
)
plan_rest host task_desc (b ∷ buckets) dag srv = plan_buckets host task_desc 2 (b ∷ buckets) dag srv

-- `Plan`
unfoldable pub plan : PlannerHost → Bytes → Bytes → Server → Server × Result PlanError MissionDag
unfolding extract_keywords gather_symbols group_by_bucket new_mission_dag add_node plan_rest
plan host task_desc repo_path srv = elim host.builds [
  | false ↦ (srv, err build_failed)
  | true ↦
      let keywords = extract_keywords host.to_lower task_desc in
      let symbols = gather_symbols host.search [] keywords in
      let buckets = group_by_bucket host.dir_base host.largest_first symbols in
      let dag = new_mission_dag host.now (host.drawn_id 0) task_desc repo_path in
      plan_rest host task_desc (host.map_order buckets)
        (add_node (record { mission = analysis host task_desc; depends_on = [] }) dag) srv
]
