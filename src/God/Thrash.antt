-- ===== src/God/Thrash.antt =====
-- god/thrash.go: the detector, over the metrics of god/meter.go.
pub mod Detecting
pub mod Latch
pub mod Once
use genesis_ssmp.Base.{
  ℕ, suc, ◌-◌, ◌||◌, Bool, true, false, Option, none, some, List, [], ◌∷◌, if◌then◌else◌, leb, ltb,
  ◌==◌, length, drop, Bytes, bytes, get, put,
}
use genesis_ssmp.God.Meter.{
  Reason, over_soft_limit, too_many_rejects, too_many_conflicts, too_many_test_failures,
  MissionMetrics, ThrashConfig, mission_thrashing, Host, Meter, get_metrics, set_metrics, send,
  start_mission, record_pf, record_provider_usage, record_reject, record_conflict,
  record_test_failure, record_test_pass, record_phase_transition, end_turn, complete_mission,
  ProviderUsage,
}

-- The loop of `checkPFSoftLimit`: true when no count of the tail is below the limit.
unfoldable pub all_over : ℕ → List ℕ → Bool
all_over limit [] = true
all_over limit (count ∷ counts) = if ltb count limit then false else all_over limit counts

-- `checkPFSoftLimit`
unfoldable pub check_pf_soft_limit : ThrashConfig → MissionMetrics → Option Reason
unfolding all_over
check_pf_soft_limit config m =
    let needed = config.pf_consecutive_turns in
    let turns = length m.turn_pf_counts in
    if needed == 0 || ltb turns needed
    then none
    else if all_over config.pf_soft_limit (drop (turns - needed) m.turn_pf_counts)
    then some (over_soft_limit config.pf_soft_limit needed)
    else none

-- `detect`
unfoldable pub detect : ThrashConfig → MissionMetrics → Option Reason
unfolding check_pf_soft_limit
detect config m = elim (check_pf_soft_limit config m) [
  | some reason ↦ some reason
  | none ↦
      if leb config.max_rejects m.rejects
      then some (too_many_rejects m.rejects config.max_rejects)
      else if leb config.max_conflicts m.conflicts
      then some (too_many_conflicts m.conflicts config.max_conflicts)
      else if leb config.max_test_failures m.test_failures
      then some (too_many_test_failures m.test_failures config.max_test_failures)
      else none
]

pub record ThrashResult : Type 0 where
  pub thrashing : Bool
  pub reason : Option Reason

abbrev pub not_thrashing : ThrashResult
not_thrashing = record { thrashing = false; reason = none }

abbrev pub is_set : Option Bool → Bool
is_set none = false
is_set (some b) = b

-- `IsLatched`
unfoldable pub is_latched : Bytes → Meter → Bool
is_latched id s = is_set (get id s.latched)

-- The metrics after the first trigger.
unfoldable pub marked : Reason → MissionMetrics → MissionMetrics
marked reason m = record m { status = bytes "thrashing"; thrash_reason = some reason }

-- The first trigger of a mission.
unfoldable pub trigger : Bytes → MissionMetrics → Reason → Meter → Meter
unfolding marked send set_metrics
trigger id m reason s =
    send (mission_thrashing (marked reason m) reason)
      (set_metrics id (marked reason m) (record s { latched = put m.mission_id true s.latched }))

-- `Check` on the metrics that the map holds for a mission.
unfoldable pub check_metrics :
    ThrashConfig → Bytes → Option MissionMetrics → Meter → Meter × ThrashResult
unfolding is_latched detect trigger
check_metrics config id none s = (s, not_thrashing)
check_metrics config id (some m) s =
    if is_latched m.mission_id s
    then (s, record { thrashing = true; reason = m.thrash_reason })
    else elim (detect config m) [
      | none ↦ (s, not_thrashing)
      | some reason ↦ (trigger id m reason s, record { thrashing = true; reason = some reason })
    ]

-- `Check` on what `Get` returns.
unfoldable pub check : Host → ThrashConfig → Bytes → Bytes → Meter → Meter × ThrashResult
unfolding get_metrics check_metrics
check host config now id s = let (s', m) = get_metrics host now id s in check_metrics config id m s'

-- The calls of the aggregator and the detector, each at a time.
pub data MeterCall : Type 0 where
  start : Bytes → MeterCall
  pf : Bytes → ℕ → MeterCall
  provider_usage : Option ProviderUsage → MeterCall
  reject : Bytes → MeterCall
  conflict : Bytes → MeterCall
  test_failure : Bytes → MeterCall
  test_pass : Bytes → MeterCall
  phase_transition : Bytes → MeterCall
  turn_end : Bytes → MeterCall
  completion : Bytes → MeterCall
  reading : Bytes → MeterCall
  checking : Bytes → MeterCall

unfoldable pub call_one : Host → ThrashConfig → Bytes → MeterCall → Meter → Meter
unfolding start_mission record_pf record_provider_usage record_reject record_conflict
    record_test_failure record_test_pass record_phase_transition end_turn complete_mission
    get_metrics check
call_one host config now (start id) s = start_mission now id s
call_one host config now (pf id n) s = record_pf now id n s
call_one host config now (provider_usage u) s = record_provider_usage now u s
call_one host config now (reject id) s = record_reject now id s
call_one host config now (conflict id) s = record_conflict now id s
call_one host config now (test_failure id) s = record_test_failure now id s
call_one host config now (test_pass id) s = record_test_pass now id s
call_one host config now (phase_transition id) s = record_phase_transition now id s
call_one host config now (turn_end id) s = (end_turn now id s).0
call_one host config now (completion id) s = complete_mission host now id s
call_one host config now (reading id) s = (get_metrics host now id s).0
call_one host config now (checking id) s = (check host config now id s).0

unfoldable pub call_all : Host → ThrashConfig → List (Bytes × MeterCall) → Meter → Meter
unfolding call_one
call_all host config [] s = s
call_all host config ((now, c) ∷ cs) s = call_all host config cs (call_one host config now c s)

abbrev pub new_meter : Meter
new_meter = record { missions = []; latched = []; sent = [] }
