-- ===== src/God/Thrash/Latch.antt =====
-- god/meter.go and god/thrash.go: the counters over any sequence of calls, and the latch.
use genesis_ssmp.Base.{
  inl, inr, subst, ◌-◌, ℕ, ◌+◌, ◌≤◌, ◌≡◌, refl, Bool, true, false, Option, none, some, List, [],
  ◌∷◌, ◌++◌, arith, if◌then◌else◌, length, sum, length-append, sum-append, Bool-cases, Option-cases,
  Bytes, same, same_iff, get, get-put,
}
use genesis_ssmp.God.Meter.{
  MissionMetrics, Meter, Sent, mission_thrashing, Host, ThrashConfig, Reason, active, new_metrics,
  set_metrics, get_or_create, or_new, ended_turn, elapse, elapse_active, completed,
  log_metrics_event, send, get_metrics, start_mission, record_pf, record_provider_usage,
  record_reject, record_conflict, record_test_failure, record_test_pass, record_phase_transition,
  end_turn, complete_mission,
}
use genesis_ssmp.God.Thrash.{
  is_latched, detect, marked, trigger, check_metrics, check, MeterCall, call_one, call_all,
  new_meter, start, pf, provider_usage, reject, conflict, test_failure, test_pass, phase_transition,
  turn_end, completion, reading, checking,
}

abbrev pub is_thrash_of : Bytes → Sent → Bool
is_thrash_of id (mission_thrashing m r) = same m.mission_id id
is_thrash_of id _ = false

-- The thrashing events that were sent for a mission.
abbrev pub thrash_events : Bytes → List Sent → ℕ
thrash_events id [] = 0
thrash_events id (e ∷ es) = (if is_thrash_of id e then 1 else 0) + thrash_events id es

-- The metrics are those of the mission, no turn has more page faults than are left for it, and there
-- is one count for each turn.
abbrev pub Counted : Bytes → Option MissionMetrics → Type 0
Counted id none = Unit
Counted id (some m) =
    (m.mission_id ≡ id) × (sum m.turn_pf_counts ≤ m.pf_count) × (length m.turn_pf_counts ≡ m.turns)

abbrev pub IsMetered : Meter → Type 0
IsMetered s =
    (id : Bytes)
    → Counted id (get id s.missions)
      × (thrash_events id s.sent ≡ (if is_latched id s then 1 else 0))

Counted-if :
    (b : Bool) (id : Bytes) (x y : Option MissionMetrics)
    → Counted id x
    → Counted id y
    → Counted id (if b then x else y)
Counted-if true id x y h k = h
Counted-if false id x y h k = k

thrash_events-append :
    (id : Bytes) (es : List Sent) (e : Sent)
    → thrash_events id (es ++ e ∷ []) ≡ thrash_events id es + (if is_thrash_of id e then 1 else 0)
thrash_events-append id [] e = omega arith
thrash_events-append id (d ∷ es) e = omega (arith, thrash_events-append id es e)

set-IsMetered :
    (id : Bytes) (m : MissionMetrics) (s : Meter)
    → Counted id (some m)
    → IsMetered s
    → IsMetered (set_metrics id m s)
unfolding set_metrics is_latched
set-IsMetered id m s h k j = elim (Bool-cases (same id j)) [
  | inl e ↦
      let same_id : id ≡ j = (same_iff id j).0 e in
      (rw (get-put id j m s.missions, e) (subst (λ i. Counted i (some m)) same_id h), (k j).1)
  | inr e ↦ (rw (get-put id j m s.missions, e) (k j).0, (k j).1)
]

or_new-Counted :
    (now id : Bytes) (o : Option MissionMetrics)
    → Counted id o
    → Counted id (some (or_new now id o))
unfolding new_metrics
or_new-Counted now id none h = (refl, ground arith, refl)
or_new-Counted now id (some m) h = h

get_or_create-Counted :
    (now id : Bytes) (s : Meter) → IsMetered s → Counted id (some (get_or_create now id s))
unfolding get_or_create
get_or_create-Counted now id s k = or_new-Counted now id _ (k id).0

ended_turn-Counted :
    (id : Bytes) (m : MissionMetrics) → Counted id (some m) → Counted id (some (ended_turn m))
unfolding ended_turn
ended_turn-Counted id m (a, b, c) =
    let last = (m.pf_count - sum m.turn_pf_counts) ∷ [] in
    (
      a,
      ground (arith, sum-append m.turn_pf_counts last),
      ground (arith, length-append m.turn_pf_counts last),
    )

elapse-Counted :
    (host : Host) (now id : Bytes) (m : MissionMetrics)
    → Counted id (some m)
    → Counted id (some (elapse host now m))
unfolding elapse
elapse-Counted host now id m h = ground arith

elapse_active-Counted :
    (host : Host) (now id : Bytes) (m : MissionMetrics)
    → Counted id (some m)
    → Counted id (some (elapse_active host now m))
unfolding elapse_active
elapse_active-Counted host now id m h = elim (Bool-cases (same m.status active)) [
  | inl e ↦ rw e (elapse-Counted host now id m h)
  | inr e ↦ rw e h
]

completed-Counted :
    (id : Bytes) (m : MissionMetrics) → Counted id (some m) → Counted id (some (completed m))
unfolding completed
completed-Counted id m h = elim (Bool-cases (same m.status active)) [
  | inl e ↦ rw e h
  | inr e ↦ rw e h
]

-- An event that is no thrashing event.
send-IsMetered :
    (e : Sent) (s : Meter)
    → ((j : Bytes) → is_thrash_of j e ≡ false)
    → IsMetered s
    → IsMetered (send e s)
unfolding send is_latched
send-IsMetered e s h k j = ((k j).0, ground (arith, thrash_events-append j s.sent e, h j, (k j).1))

log_metrics_event-IsMetered :
    (host : Host) (now id : Bytes) (s : Meter)
    → IsMetered s
    → IsMetered (log_metrics_event host now id s)
unfolding log_metrics_event
log_metrics_event-IsMetered host now id s k = elim (Option-cases (get id s.missions)) [
  | inl e ↦ rw (e, log_metrics_event) k
  | inr (m, e) ↦
      elim (Option-cases (if host.lean_enabled then host.encode_metrics_row now m else none)) [
        | inl f ↦ rw (e, f, log_metrics_event) (send-IsMetered _ s (λ j. refl) k)
        | inr (t, f) ↦ rw (e, f, log_metrics_event) (send-IsMetered _ s (λ j. refl) k)
      ]
]

pub get_metrics-IsMetered :
    (host : Host) (now id : Bytes) (s : Meter)
    → IsMetered s
    → IsMetered (get_metrics host now id s).0 × Counted id (get_metrics host now id s).1
unfolding get_metrics
get_metrics-IsMetered host now id s k = elim (Option-cases (get id s.missions)) [
  | inl e ↦ rw (e, get_metrics) (k, tt)
  | inr (m, e) ↦
      let h : Counted id (some m) = subst (Counted id) e (k id).0 in
      let h' = elapse_active-Counted host now id m h in
      rw (e, get_metrics) (set-IsMetered id _ s h' k, h')
]

trigger-IsMetered :
    (id : Bytes) (m : MissionMetrics) (r : Reason) (s : Meter)
    → is_latched m.mission_id s ≡ false
    → Counted id (some m)
    → IsMetered s
    → IsMetered (trigger id m r s)
unfolding trigger set_metrics send marked is_latched
trigger-IsMetered id m r s new h k j = (
  (set-IsMetered id (marked r m) s h k j).0,
  ground (
    arith,
    thrash_events-append j s.sent (mission_thrashing (marked r m) r),
    (k j).1,
    get-put m.mission_id j true s.latched,
    same_iff m.mission_id j,
    new,
    h.0,
  ),
)

pub check_metrics-IsMetered :
    (config : ThrashConfig) (id : Bytes) (o : Option MissionMetrics) (s : Meter)
    → Counted id o
    → IsMetered s
    → IsMetered (check_metrics config id o s).0
unfolding check_metrics
check_metrics-IsMetered config id none s h k = k
check_metrics-IsMetered config id (some m) s h k = elim (Bool-cases (is_latched m.mission_id s)) [
  | inl e ↦ rw e k
  | inr e ↦ elim (Option-cases (detect config m)) [
    | inl f ↦ rw (e, f, check_metrics) k
    | inr (r, f) ↦ rw (e, f, check_metrics) (trigger-IsMetered id m r s e h k)
  ]
]

call_one-IsMetered :
    (host : Host) (config : ThrashConfig) (now : Bytes) (c : MeterCall) (s : Meter)
    → IsMetered s
    → IsMetered (call_one host config now c s)
unfolding call_one start_mission record_pf record_provider_usage record_reject record_conflict
    record_test_failure record_test_pass record_phase_transition end_turn complete_mission check
call_one-IsMetered host config now (start id) s k =
    set-IsMetered id _ s (or_new-Counted now id none tt) k
call_one-IsMetered host config now (pf id n) s k =
    let (a, b, c) = get_or_create-Counted now id s k in set-IsMetered id _ s (a, omega arith, c) k
call_one-IsMetered host config now (provider_usage none) s k = k
call_one-IsMetered host config now (provider_usage (some u)) s k =
    set-IsMetered u.mission_id _ s (get_or_create-Counted now u.mission_id s k) k
call_one-IsMetered host config now (reject id) s k =
    set-IsMetered id _ s (get_or_create-Counted now id s k) k
call_one-IsMetered host config now (conflict id) s k =
    set-IsMetered id _ s (get_or_create-Counted now id s k) k
call_one-IsMetered host config now (test_failure id) s k =
    set-IsMetered id _ s (get_or_create-Counted now id s k) k
call_one-IsMetered host config now (test_pass id) s k =
    set-IsMetered id _ s (get_or_create-Counted now id s k) k
call_one-IsMetered host config now (phase_transition id) s k =
    set-IsMetered id _ s (get_or_create-Counted now id s k) k
call_one-IsMetered host config now (turn_end id) s k =
    set-IsMetered id _ s
      (ended_turn-Counted id (get_or_create now id s) (get_or_create-Counted now id s k)) k
call_one-IsMetered host config now (completion id) s k = log_metrics_event-IsMetered host now id _ (
    set-IsMetered id _ s
      (completed-Counted id _ (elapse-Counted host now id _ (get_or_create-Counted now id s k))) k)
call_one-IsMetered host config now (reading id) s k = (get_metrics-IsMetered host now id s k).0
call_one-IsMetered host config now (checking id) s k =
    let (k', h) = get_metrics-IsMetered host now id s k in
    check_metrics-IsMetered config id _ _ h k'

pub call_all-IsMetered :
    (host : Host) (config : ThrashConfig) (cs : List (Bytes × MeterCall)) (s : Meter)
    → IsMetered s
    → IsMetered (call_all host config cs s)
unfolding call_all
call_all-IsMetered host config [] s k = k
call_all-IsMetered host config ((now, c) ∷ cs) s k =
    call_all-IsMetered host config cs _ (call_one-IsMetered host config now c s k)

-- After any calls of the aggregator and the detector, from empty maps: the metrics kept under a
-- mission are its own, its page faults cover the counts of its turns, each turn has one count, and
-- one thrashing event was sent for the mission if it is latched, and none if it is not.
pub call_all-latch :
    (host : Host) (config : ThrashConfig) (cs : List (Bytes × MeterCall)) (id : Bytes)
    → let s = call_all host config cs new_meter in
      Counted id (get id s.missions)
      × (thrash_events id s.sent ≡ (if is_latched id s then 1 else 0))
unfolding get is_latched
call_all-latch host config cs id = call_all-IsMetered host config cs new_meter (λ j. (tt, refl)) id
