-- ===== src/God/Thrash/Once.antt =====
-- god/thrash.go: the latch stays set.
use genesis_ssmp.Base.{
  ◌≡◌, refl, ◌∙◌, inl, inr, true, Option, none, some, List, [], ◌∷◌, arith, Bool-cases,
  Option-cases, Bytes, same_iff, get-put, subst,
}
use genesis_ssmp.God.Meter.{
  MissionMetrics, Meter, Host, ThrashConfig, set_metrics, log_metrics_event, send, get_metrics,
  start_mission, record_pf, record_provider_usage, record_reject, record_conflict,
  record_test_failure, record_test_pass, record_phase_transition, end_turn, complete_mission,
}
use genesis_ssmp.God.Thrash.{
  is_latched, detect, trigger, check_metrics, check, MeterCall, call_one, call_all, new_meter,
  start, pf, provider_usage, reject, conflict, test_failure, test_pass, phase_transition, turn_end,
  completion, reading, checking,
}
use genesis_ssmp.God.Thrash.Latch.{
  Counted, thrash_events, get_metrics-IsMetered, check_metrics-IsMetered, call_all-IsMetered,
  call_all-latch,
}

log_metrics_event-latched :
    (host : Host) (now id : Bytes) (s : Meter)
    → (log_metrics_event host now id s).latched ≡ s.latched
unfolding log_metrics_event send
log_metrics_event-latched host now id s = ground arith

get_metrics-latched :
    (host : Host) (now id : Bytes) (s : Meter) → (get_metrics host now id s).0.latched ≡ s.latched
unfolding get_metrics set_metrics
get_metrics-latched host now id s = ground arith

check_metrics-latched :
    (config : ThrashConfig) (id j : Bytes) (o : Option MissionMetrics) (s : Meter)
    → is_latched j s ≡ true
    → is_latched j (check_metrics config id o s).0 ≡ true
unfolding check_metrics trigger send set_metrics is_latched
check_metrics-latched config id j none s h = h
check_metrics-latched config id j (some m) s h = elim (Bool-cases (is_latched m.mission_id s)) [
  | inl e ↦ rw e h
  | inr e ↦ elim (Option-cases (detect config m)) [
    | inl f ↦ rw (e, f, check_metrics) h
    | inr (r, f) ↦
        rw (e, f, check_metrics) (ground (arith, get-put m.mission_id j true s.latched, h))
  ]
]

check-latched :
    (host : Host) (config : ThrashConfig) (now id j : Bytes) (s : Meter)
    → is_latched j s ≡ true
    → is_latched j (check host config now id s).0 ≡ true
unfolding check is_latched
check-latched host config now id j s h =
    check_metrics-latched config id j (get_metrics host now id s).1 (get_metrics host now id s).0
      (rw (get_metrics-latched host now id s) h)

call_one-latched :
    (host : Host) (config : ThrashConfig) (now : Bytes) (c : MeterCall) (s : Meter) (j : Bytes)
    → is_latched j s ≡ true
    → is_latched j (call_one host config now c s) ≡ true
unfolding call_one start_mission record_pf record_provider_usage record_reject record_conflict
    record_test_failure record_test_pass record_phase_transition end_turn complete_mission
    set_metrics is_latched
call_one-latched host config now (start id) s j h = h
call_one-latched host config now (pf id n) s j h = h
call_one-latched host config now (provider_usage none) s j h = h
call_one-latched host config now (provider_usage (some u)) s j h = h
call_one-latched host config now (reject id) s j h = h
call_one-latched host config now (conflict id) s j h = h
call_one-latched host config now (test_failure id) s j h = h
call_one-latched host config now (test_pass id) s j h = h
call_one-latched host config now (phase_transition id) s j h = h
call_one-latched host config now (turn_end id) s j h = h
call_one-latched host config now (completion id) s j h =
    rw (log_metrics_event-latched host now id) h
call_one-latched host config now (reading id) s j h = rw (get_metrics-latched host now id s) h
call_one-latched host config now (checking id) s j h = check-latched host config now id j s h

call_all-latched :
    (host : Host) (config : ThrashConfig) (cs : List (Bytes × MeterCall)) (s : Meter) (j : Bytes)
    → is_latched j s ≡ true
    → is_latched j (call_all host config cs s) ≡ true
unfolding call_all
call_all-latched host config [] s j h = h
call_all-latched host config ((now, c) ∷ cs) s j h =
    call_all-latched host config cs _ j (call_one-latched host config now c s j h)

thrashing-latched :
    (config : ThrashConfig) (id : Bytes) (o : Option MissionMetrics) (s : Meter)
    → Counted id o
    → (check_metrics config id o s).1.thrashing ≡ true
    → is_latched id (check_metrics config id o s).0 ≡ true
unfolding check_metrics trigger send set_metrics is_latched
thrashing-latched config id none s k h = absurd (ground arith)
thrashing-latched config id (some m) s k h = elim (Bool-cases (is_latched m.mission_id s)) [
  | inl e ↦ rw e (subst (λ i. is_latched i s ≡ true) k.0 e)
  | inr e ↦ elim (Option-cases (detect config m)) [
    | inl f ↦ absurd (ground arith)
    | inr (r, f) ↦
        rw (e, f, check_metrics)
          (ground (arith, get-put m.mission_id id true s.latched, same_iff m.mission_id id, k.0))
  ]
]

-- Once `Check` has called a mission thrashing, after any calls from empty maps, then exactly one
-- thrashing event of the mission is sent, whatever calls follow.
pub check-once :
    (host : Host) (config : ThrashConfig) (before : List (Bytes × MeterCall)) (now id : Bytes)
    (after : List (Bytes × MeterCall))
    → (check host config now id (call_all host config before new_meter)).1.thrashing ≡ true
    → thrash_events id
        (call_all host config after
          (check host config now id (call_all host config before new_meter)).0).sent
      ≡ 1
unfolding check
check-once host config before now id after h =
    let s = call_all host config before new_meter in
    let metered = call_all-latch host config before in
    let (k, counted) = get_metrics-IsMetered host now id s metered in
    let k' = check_metrics-IsMetered config id _ _ counted k in
    let s' = (check host config now id s).0 in
    let stays =
      call_all-latched host config after s' id (thrashing-latched config id _ _ counted h) in
    (call_all-IsMetered host config after s' k' id).1 ∙ rw stays refl
