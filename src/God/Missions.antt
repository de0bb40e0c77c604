-- ===== src/God/Missions.antt =====
-- god/mission.go and god/aa_validate.go.
use genesis_ssmp.Base.{
  Bool, true, false, List, [], ◌∷◌, ◌++◌, if◌then◌else◌, Bytes, is_empty, Result, ok, err, ◌>>◌,
  fail_if, ℤ, pos, ltℤ,
}

pub record Scope : Type 0 where
  pub scope_type : Bytes
  pub scope_value : Bytes

pub record Mission : Type 0 where
  pub mission_id : Bytes
  pub goal : Bytes
  pub base_rev : Bytes
  pub scopes : List Scope
  pub lease_ids : List Bytes
  pub tasks : List Bytes
  pub token_budget : ℤ
  pub created_at : Bytes

pub record DagNode : Type 0 where
  pub mission : Mission
  pub depends_on : List Bytes

pub record MissionDag : Type 0 where
  pub plan_id : Bytes
  pub task_desc : Bytes
  pub repo_path : Bytes
  pub nodes : List DagNode
  pub created_at : Bytes

-- `NewMissionDAG`
unfoldable pub new_mission_dag : Bytes → Bytes → Bytes → Bytes → MissionDag
new_mission_dag now plan_id task_desc repo_path = record {
  plan_id = plan_id;
  task_desc = task_desc;
  repo_path = repo_path;
  nodes = [];
  created_at = now;
}

-- `AddNode`
unfoldable pub add_node : DagNode → MissionDag → MissionDag
add_node node dag = record dag { nodes = dag.nodes ++ node ∷ [] }

abbrev pub ids_of : List DagNode → List Bytes
ids_of [] = []
ids_of (n ∷ ns) = n.mission.mission_id ∷ ids_of ns

-- `MissionIDs`
unfoldable pub mission_ids : MissionDag → List Bytes
mission_ids dag = ids_of dag.nodes

abbrev pub is_none_left : List Bytes → Bool
is_none_left [] = true
is_none_left (_ ∷ _) = false

abbrev pub roots_of : List DagNode → List DagNode
roots_of [] = []
roots_of (n ∷ ns) = let rest = roots_of ns in if is_none_left n.depends_on then n ∷ rest else rest

-- `Roots`
unfoldable pub roots : MissionDag → List DagNode
roots dag = roots_of dag.nodes

pub data MissionError : Type 0 where
  no_mission_id no_base_rev no_goal no_tasks negative_budget no_created_at bad_created_at :
      MissionError

-- `ValidateMission`; `is_rfc3339` says if `time.Parse` accepts a time.
unfoldable pub validate_mission : (Bytes → Bool) → Mission → Result MissionError (Unit {0})
validate_mission is_rfc3339 m =
    fail_if (is_empty m.mission_id) no_mission_id
    >> fail_if (is_empty m.base_rev) no_base_rev
    >> fail_if (is_empty m.goal) no_goal
    >> fail_if (is_none_left m.tasks) no_tasks
    >> fail_if (ltℤ m.token_budget (pos 0)) negative_budget
    >> fail_if (is_empty m.created_at) no_created_at
    >> (if is_rfc3339 m.created_at then ok tt else err bad_created_at)
