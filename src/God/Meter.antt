-- ===== src/God/Meter.antt =====
-- god/meter.go and god/thrash.go. The aggregator and the detector hold their own mutexes, so each
-- operation is one step. A mission's metrics are one object that the map points to: `check` is
-- `Check` on what `Get` returned for a mission. The counters are far below 2^63, the limits are not
-- negative, and the orchestrator's configuration does not change.
use genesis_ssmp.Base.{
  ℕ, suc, ◌+◌, ◌-◌, ◌/◌, Bool, Option, none, some, List, [], ◌∷◌, ◌++◌, if◌then◌else◌, ◌==◌, sum,
  Bytes, bytes, same, is_empty, Dict, get, put,
}

-- The texts that `detect` formats; `none` is the empty reason.
pub data Reason : Type 0 where
  over_soft_limit : ℕ → ℕ → Reason
  too_many_rejects : ℕ → ℕ → Reason
  too_many_conflicts : ℕ → ℕ → Reason
  too_many_test_failures : ℕ → ℕ → Reason

pub record MissionMetrics : Type 0 where
  pub mission_id : Bytes
  pub pf_count : ℕ
  pub pf_response_size : ℕ
  pub retries : ℕ
  pub rejects : ℕ
  pub conflicts : ℕ
  pub test_failures : ℕ
  pub tokens_in : ℕ
  pub tokens_out : ℕ
  pub started_at : Bytes
  pub elapsed_ms : ℕ
  pub turns : ℕ
  pub status : Bytes
  pub phase_transitions : ℕ
  pub thrash_reason : Option Reason
  pub turn_pf_counts : List ℕ

pub record ThrashConfig : Type 0 where
  pub pf_soft_limit : ℕ
  pub pf_consecutive_turns : ℕ
  pub max_rejects : ℕ
  pub max_conflicts : ℕ
  pub max_test_failures : ℕ

pub record ProviderUsage : Type 0 where
  pub mission_id : Bytes
  pub retries : ℕ
  pub request_bytes : ℕ
  pub response_bytes : ℕ

-- The events sent to the server: the mission's metrics, and their text where they are encoded.
pub data Sent : Type 0 where
  mission_thrashing : MissionMetrics → Reason → Sent
  metrics_snapshot : MissionMetrics → ℕ → Sent
  metrics_snapshot_lean : MissionMetrics → Bytes → Sent

-- The clock, and the package internal/lean: `since now t` is the time from a timestamp to `now`,
-- and `none` when it does not parse.
pub record Host : Type 0 where
  pub since : Bytes → Bytes → Option ℕ
  pub lean_enabled : Bool
  pub encode_metrics_row : Bytes → MissionMetrics → Option Bytes

-- The aggregator's and the detector's maps, and the events sent.
pub record Meter : Type 0 where
  pub missions : Dict MissionMetrics
  pub latched : Dict Bool
  pub sent : List Sent

unfoldable pub avg_pf_response_size : MissionMetrics → ℕ
avg_pf_response_size m = if m.pf_count == 0 then 0 else m.pf_response_size / m.pf_count

abbrev pub active : Bytes
active = bytes "active"

unfoldable pub new_metrics : Bytes → Bytes → MissionMetrics
new_metrics now id = record {
  mission_id = id;
  pf_count = 0;
  pf_response_size = 0;
  retries = 0;
  rejects = 0;
  conflicts = 0;
  test_failures = 0;
  tokens_in = 0;
  tokens_out = 0;
  started_at = now;
  elapsed_ms = 0;
  turns = 0;
  status = active;
  phase_transitions = 0;
  thrash_reason = none;
  turn_pf_counts = [];
}

-- `StartMission`
unfoldable pub start_mission : Bytes → Bytes → Meter → Meter
unfolding new_metrics
start_mission now id s = record s { missions = put id (new_metrics now id) s.missions }

abbrev pub or_new : Bytes → Bytes → Option MissionMetrics → MissionMetrics
or_new now id none = new_metrics now id
or_new now id (some m) = m

-- `getOrCreate`, and the write of the changed metrics.
unfoldable pub get_or_create : Bytes → Bytes → Meter → MissionMetrics
get_or_create now id s = or_new now id (get id s.missions)

unfoldable pub set_metrics : Bytes → MissionMetrics → Meter → Meter
set_metrics id m s = record s { missions = put id m s.missions }

abbrev pub or_kept : ℕ → Option ℕ → ℕ
or_kept kept none = kept
or_kept kept (some n) = n

-- The elapsed time is written when the mission has a start that parses.
unfoldable pub elapse : Host → Bytes → MissionMetrics → MissionMetrics
elapse host now m =
    if is_empty m.started_at
    then m
    else record m { elapsed_ms = or_kept m.elapsed_ms (host.since now m.started_at) }

unfoldable pub elapse_active : Host → Bytes → MissionMetrics → MissionMetrics
unfolding elapse
elapse_active host now m = if same m.status active then elapse host now m else m

-- `Get`
unfoldable pub get_metrics : Host → Bytes → Bytes → Meter → Meter × Option MissionMetrics
unfolding set_metrics elapse_active
get_metrics host now id s = elim (get id s.missions) [
  | none ↦ (s, none)
  | some m ↦ (set_metrics id (elapse_active host now m) s, some (elapse_active host now m))
]

-- `RecordPF`
unfoldable pub record_pf : Bytes → Bytes → ℕ → Meter → Meter
unfolding get_or_create set_metrics
record_pf now id response_bytes s =
    let m = get_or_create now id s in
    set_metrics id
      (record m {
        pf_count = suc m.pf_count;
        pf_response_size = m.pf_response_size + response_bytes;
      })
      s

-- `RecordProviderUsage`; a nil usage is `none`.
unfoldable pub record_provider_usage : Bytes → Option ProviderUsage → Meter → Meter
unfolding get_or_create set_metrics
record_provider_usage now none s = s
record_provider_usage now (some usage) s =
    let m = get_or_create now usage.mission_id s in
    set_metrics usage.mission_id
      (record m {
        retries = m.retries + usage.retries;
        tokens_in = m.tokens_in + usage.request_bytes / 4;
        tokens_out = m.tokens_out + usage.response_bytes / 4;
      })
      s

-- `RecordReject`
unfoldable pub record_reject : Bytes → Bytes → Meter → Meter
unfolding get_or_create set_metrics
record_reject now id s =
    let m = get_or_create now id s in set_metrics id (record m { rejects = suc m.rejects }) s

-- `RecordConflict`
unfoldable pub record_conflict : Bytes → Bytes → Meter → Meter
unfolding get_or_create set_metrics
record_conflict now id s =
    let m = get_or_create now id s in set_metrics id (record m { conflicts = suc m.conflicts }) s

-- `RecordTestFailure`
unfoldable pub record_test_failure : Bytes → Bytes → Meter → Meter
unfolding get_or_create set_metrics
record_test_failure now id s =
    let m = get_or_create now id s in
    set_metrics id (record m { test_failures = suc m.test_failures }) s

-- `RecordTestPass`
unfoldable pub record_test_pass : Bytes → Bytes → Meter → Meter
unfolding get_or_create set_metrics
record_test_pass now id s =
    let m = get_or_create now id s in set_metrics id (record m { test_failures = 0 }) s

-- `RecordPhaseTransition`
unfoldable pub record_phase_transition : Bytes → Bytes → Meter → Meter
unfolding get_or_create set_metrics
record_phase_transition now id s =
    let m = get_or_create now id s in
    set_metrics id (record m { phase_transitions = suc m.phase_transitions }) s

-- The metrics after `EndTurn`.
unfoldable pub ended_turn : MissionMetrics → MissionMetrics
ended_turn m = record m {
  turns = suc m.turns;
  turn_pf_counts = m.turn_pf_counts ++ (m.pf_count - sum m.turn_pf_counts) ∷ [];
}

-- `EndTurn`
unfoldable pub end_turn : Bytes → Bytes → Meter → Meter × ℕ
unfolding get_or_create set_metrics ended_turn
end_turn now id s = let m = ended_turn (get_or_create now id s) in (set_metrics id m s, m.turns)

unfoldable pub send : Sent → Meter → Meter
send e s = record s { sent = s.sent ++ e ∷ [] }

-- `logMetricsEvent`
unfoldable pub log_metrics_event : Host → Bytes → Bytes → Meter → Meter
unfolding send avg_pf_response_size
log_metrics_event host now id s = elim (get id s.missions) [
  | none ↦ s
  | some m ↦ elim (if host.lean_enabled then host.encode_metrics_row now m else none) [
    | none ↦ send (metrics_snapshot m (avg_pf_response_size m)) s
    | some tsln ↦ send (metrics_snapshot_lean m tsln) s
  ]
]

unfoldable pub completed : MissionMetrics → MissionMetrics
completed m = if same m.status active then record m { status = bytes "completed" } else m

-- `CompleteMission`
unfoldable pub complete_mission : Host → Bytes → Bytes → Meter → Meter
unfolding get_or_create set_metrics elapse completed log_metrics_event
complete_mission host now id s =
    log_metrics_event host now id
      (set_metrics id (completed (elapse host now (get_or_create now id s))) s)
