-- ===== src/Tests/Thrash.antt =====
-- god/meter.go and god/thrash.go: the properties at concrete inputs.
use genesis_ssmp.Base.{
  ◌≡◌, refl, true, false, none, List, [], ◌∷◌, Bytes, bytes, get, put, same, if◌then◌else◌,
}
use genesis_ssmp.God.Meter.{
  MissionMetrics, Host, ThrashConfig, new_metrics, get_metrics, record_reject, elapse,
  elapse_active, get_or_create, set_metrics, send,
}
use genesis_ssmp.God.Thrash.{
  check_metrics, check, is_latched, detect, trigger, marked, check_pf_soft_limit, call_one,
  call_all, new_meter, MeterCall, reject, pf, turn_end, checking,
}
use genesis_ssmp.God.Thrash.Latch.{Counted, thrash_events, call_all-latch}
use genesis_ssmp.God.Thrash.Once.{check-once}

-- No timestamp parses, and nothing is encoded.
abbrev idle_host : Host
idle_host = record {
  since = λ now t. none;
  lean_enabled = false;
  encode_metrics_row = λ now m. none;
}

-- The limits of `DefaultThrashConfig`.
abbrev default_config : ThrashConfig
default_config = record {
  pf_soft_limit = 20;
  pf_consecutive_turns = 2;
  max_rejects = 2;
  max_conflicts = 3;
  max_test_failures = 3;
}

abbrev mission : Bytes
mission = bytes "m"

abbrev two_rejects : List (Bytes × MeterCall)
two_rejects = ([], reject mission) ∷ ([], reject mission) ∷ []

abbrev more_calls : List (Bytes × MeterCall)
more_calls = ([], pf mission 9) ∷ ([], turn_end mission) ∷ ([], checking mission) ∷ []

call_all-latch_example :
    let s = call_all idle_host default_config more_calls new_meter in
    Counted mission (get mission s.missions)
    × (thrash_events mission s.sent ≡ (if is_latched mission s then 1 else 0))
call_all-latch_example = call_all-latch idle_host default_config more_calls mission

second_reject-is_thrashing :
    (check idle_host default_config [] mission
      (call_all idle_host default_config two_rejects new_meter)).1.thrashing
    ≡ true
unfolding check check_metrics get_metrics is_latched detect trigger check_pf_soft_limit call_one
    call_all record_reject new_metrics get_or_create set_metrics elapse elapse_active get put same
    send marked
second_reject-is_thrashing = refl

check-once_example :
    thrash_events mission
      (call_all idle_host default_config more_calls
        (check idle_host default_config [] mission
          (call_all idle_host default_config two_rejects new_meter)).0).sent
    ≡ 1
check-once_example =
    check-once idle_host default_config two_rejects [] mission more_calls second_reject-is_thrashing

abbrev paged : MissionMetrics
paged = record (new_metrics [] mission) { pf_count = 41; turns = 2; turn_pf_counts = 20 ∷ 21 ∷ [] }
