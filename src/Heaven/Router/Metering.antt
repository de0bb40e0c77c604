-- ===== src/Heaven/Router/Metering.antt =====
-- heaven/pf.go: how `Handle` moves the counters of a mission.
use genesis_ssmp.Heaven.Blobs.{get_blob}
use genesis_ssmp.Base.{
  [], ◌∷◌, Option-cases, Dict, get, length, ℕ, suc, ◌+◌, ◌≡◌, refl, ◌∙◌, inl, inr, Bool, true,
  Option, none, some, List, arith, if◌then◌else◌, Bool-cases, Bytes, bytes, same, same_iff,
  same_refl, get-put,
}
use genesis_ssmp.Heaven.Json.{Json, Elements, nothing, element, Fields}
use genesis_ssmp.Heaven.Commands.{
  PfArgs, PfRequest, Shard, Metrics, PfHost, Faults, mission_key, metrics_of, set_metrics,
  store_shard, store_answer,
}
use genesis_ssmp.Heaven.Lookups.{
  prefetch_callers, prefetch_tests, handle_status, handle_symdef, handle_callers, handle_slice,
  handle_search, handle_tests,
}
use genesis_ssmp.Heaven.Prompts.{handle_prompt_section, handle_prompt_search, handle_prompt_summary}
use genesis_ssmp.Heaven.Router.{
  PfResponse, Command, dispatch, command_of, log_pf_event, count_call, count_bytes, respond, finish,
  handle, total_bytes, pf_status, pf_symdef, pf_callers, pf_slice, pf_search, pf_tests,
  pf_prompt_section, pf_prompt_search, pf_prompt_summary, unknown_command,
}

store_shard-missions :
    (host : PfHost) (kind : Bytes) (v : Json) (meta : Fields) (s : Faults)
    → (store_shard host kind v meta s).0.missions ≡ s.missions
unfolding store_shard
store_shard-missions host kind v meta s = ground arith

store_answer-missions :
    (host : PfHost) (kind : Bytes) (v : Option Json) (meta : Fields) (s : Faults)
    → (store_answer host kind v meta s).0.missions ≡ s.missions
unfolding store_answer
store_answer-missions host kind none meta s = refl
store_answer-missions host kind (some v) meta s =
    ground (arith, store_shard-missions host kind v meta s)

prefetch_callers-missions :
    (host : PfHost) (symbol : Bytes) (refs : Option Elements) (shards : List Shard) (s : Faults)
    → (prefetch_callers host symbol refs shards s).0.missions ≡ s.missions
unfolding prefetch_callers
prefetch_callers-missions host symbol none shards s = refl
prefetch_callers-missions host symbol (some nothing) shards s = refl
prefetch_callers-missions host symbol (some (element r refs)) shards s =
    ground (arith, store_shard-missions host)

prefetch_tests-missions :
    (host : PfHost) (symbol : Bytes) (shards : List Shard) (s : Faults)
    → (prefetch_tests host symbol shards s).0.missions ≡ s.missions
unfolding prefetch_tests
prefetch_tests-missions host symbol shards s = ground (arith, store_shard-missions host)

handle_symdef-missions :
    (host : PfHost) (args : PfArgs) (s : Faults)
    → (handle_symdef host args s).0.missions ≡ s.missions
unfolding handle_symdef
handle_symdef-missions host args s = ground (
  arith,
  store_answer-missions host,
  prefetch_callers-missions host,
  prefetch_tests-missions host,
)

dispatch-missions :
    (host : PfHost) (c : Command) (args : PfArgs) (s : Faults)
    → (dispatch host c args s).0.missions ≡ s.missions
unfolding dispatch handle_status handle_callers handle_slice handle_search handle_tests
    handle_prompt_section handle_prompt_search handle_prompt_summary
dispatch-missions host pf_status args s = ground (arith, store_answer-missions host)
dispatch-missions host pf_symdef args s = handle_symdef-missions host args s
dispatch-missions host pf_callers args s = ground (arith, store_answer-missions host)
dispatch-missions host pf_slice args s = ground (arith, store_answer-missions host)
dispatch-missions host pf_search args s = ground (arith, store_answer-missions host)
dispatch-missions host pf_tests args s = ground (arith, store_answer-missions host)
dispatch-missions host pf_prompt_section args s = ground (arith, store_answer-missions host)
dispatch-missions host pf_prompt_search args s = ground (arith, store_answer-missions host)
dispatch-missions host pf_prompt_summary args s = ground (arith, store_answer-missions host)
dispatch-missions host unknown_command args s = refl

log_pf_event-missions :
    (host : PfHost) (req : PfRequest) (k n : ℕ) (s : Faults)
    → (log_pf_event host req k n s).missions ≡ s.missions
unfolding log_pf_event
log_pf_event-missions host req k n s = ground arith

log_pf_event-blobs :
    (host : PfHost) (req : PfRequest) (k n : ℕ) (s : Faults)
    → (log_pf_event host req k n s).blobs ≡ s.blobs
unfolding log_pf_event
log_pf_event-blobs host req k n s = ground arith

pub get-set_metrics :
    (id j : Bytes) (m : Metrics) (s : Faults)
    → metrics_of j (set_metrics id m s)
      ≡ (if same (mission_key id) (mission_key j) then m else metrics_of j s)
unfolding metrics_of set_metrics
get-set_metrics id j m s = ground (arith, get-put (mission_key id) (mission_key j) m s.missions)

pub metrics-from :
    (j : Bytes) (s t : Faults) → s.missions ≡ t.missions → metrics_of j s ≡ metrics_of j t
unfolding metrics_of
metrics-from j s t e = rw e refl

-- The bytes of what a client reads of the shards: for each that can be read, the length of its blob.
pub data Weighs (blobs : Dict Bytes) : List Shard → ℕ → Type 0 where
  no_shards : Weighs blobs [] 0
  readable :
      {shard : Shard} {shards : List Shard} {content : Bytes} {n : ℕ}
      → get shard.blob_id blobs ≡ some content
      → Weighs blobs shards n
      → Weighs blobs (shard ∷ shards) (length content + n)
  unreadable :
      {shard : Shard} {shards : List Shard} {n : ℕ}
      → get shard.blob_id blobs ≡ none
      → Weighs blobs shards n
      → Weighs blobs (shard ∷ shards) n

total_bytes-Weighs :
    (blobs : Dict Bytes) (shards : List Shard) → Weighs blobs shards (total_bytes blobs shards)
unfolding total_bytes get_blob
total_bytes-Weighs blobs [] = no_shards
total_bytes-Weighs blobs (shard ∷ shards) = elim (Option-cases (get shard.blob_id blobs)) [
  | inl e ↦
      let nothing_more : 0 + total_bytes blobs shards ≡ total_bytes blobs shards = omega arith in
      rw (e, total_bytes, nothing_more) (unreadable e (total_bytes-Weighs blobs shards))
  | inr (content, e) ↦ rw (e, total_bytes) (readable e (total_bytes-Weighs blobs shards))
]

-- The counters after a request: one more call, and the bytes of the blobs of the shards that are
-- sent. An error counts as a call, but for a request of the wrong type.
abbrev pub Metered : PfRequest → Faults → Faults × Option PfResponse → Type 0
Metered req s (s', none) =
    let before = metrics_of req.args.mission_id s in
    metrics_of req.args.mission_id s' ≡ (
      if same req.type (bytes "request")
      then record before { pf_count = suc before.pf_count }
      else before)
Metered req s (s', some r) =
    let before = metrics_of req.args.mission_id s in
    (same req.type (bytes "request") ≡ true)
    × (r.meta.pf_count ≡ suc before.pf_count)
    × ((n : ℕ) × Weighs s'.blobs r.shards n × (r.meta.shard_bytes ≡ before.shard_bytes + n))
    × (metrics_of req.args.mission_id s'
        ≡ record { pf_count = r.meta.pf_count; shard_bytes = r.meta.shard_bytes })

-- The counters of the other missions stay.
abbrev pub OthersStay : PfRequest → Faults → Faults → Bytes → Type 0
OthersStay req s s' j = metrics_of j s' ≡ (
    if same (mission_key req.args.mission_id) (mission_key j)
    then metrics_of req.args.mission_id s'
    else metrics_of j s)

same_key :
    (req : PfRequest)
    → same (mission_key req.args.mission_id) (mission_key req.args.mission_id) ≡ true
same_key req = same_refl (mission_key req.args.mission_id)

counted :
    (id j : Bytes) (s : Faults)
    → metrics_of j (count_call id s) ≡ (
        if same (mission_key id) (mission_key j)
        then record (metrics_of id s) { pf_count = suc (metrics_of id s).pf_count }
        else metrics_of j s)
unfolding count_call
counted id j s = get-set_metrics id j _ s

weighed :
    (id j : Bytes) (n : ℕ) (s : Faults)
    → metrics_of j (count_bytes id n s) ≡ (
        if same (mission_key id) (mission_key j)
        then record (metrics_of id s) { shard_bytes = (metrics_of id s).shard_bytes + n }
        else metrics_of j s)
unfolding count_bytes
weighed id j n s = get-set_metrics id j _ s

-- The counters of any mission when a request has been answered.
answered :
    (host : PfHost) (req : PfRequest) (shards : List Shard) (prefetched : Bool) (s s' : Faults)
    (j : Bytes)
    → s'.missions ≡ (count_call req.args.mission_id s).missions
    → metrics_of j (respond host req shards prefetched s').0 ≡ (
        if same (mission_key req.args.mission_id) (mission_key j)
        then record {
          pf_count = suc (metrics_of req.args.mission_id s).pf_count;
          shard_bytes =
              (metrics_of req.args.mission_id s).shard_bytes + total_bytes s'.blobs shards;
        }
        else metrics_of j s)
unfolding respond
answered host req shards prefetched s s' j e =
    let id = req.args.mission_id in
    let n = total_bytes s'.blobs shards in
    metrics-from j (respond host req shards prefetched s').0 (count_bytes id n s')
      (log_pf_event-missions host req _ n (count_bytes id n s'))
    ∙ weighed id j n s'
    ∙ ground (
      arith,
      metrics-from j s' (count_call id s) e,
      metrics-from id s' (count_call id s) e,
      counted id j s,
      counted id id s,
      same_refl (mission_key id),
    )

respond-Metered :
    (host : PfHost) (req : PfRequest) (shards : List Shard) (prefetched : Bool) (s s' : Faults)
    → same req.type (bytes "request") ≡ true
    → s'.missions ≡ (count_call req.args.mission_id s).missions
    → Metered req s (respond host req shards prefetched s')
unfolding respond count_bytes set_metrics
respond-Metered host req shards prefetched s s' h e =
    let id = req.args.mission_id in
    let own = answered host req shards prefetched s s' id e in
    let kept =
      log_pf_event-blobs host req (length shards) (total_bytes s'.blobs shards)
        (count_bytes id (total_bytes s'.blobs shards) s') in
    (
      h,
      ground (arith, own, same_refl (mission_key id)),
      (
        total_bytes s'.blobs shards,
        rw kept (total_bytes-Weighs s'.blobs shards),
        ground (arith, own, same_refl (mission_key id)),
      ),
      refl,
    )

respond-OthersStay :
    (host : PfHost) (req : PfRequest) (shards : List Shard) (prefetched : Bool) (s s' : Faults)
    (j : Bytes)
    → s'.missions ≡ (count_call req.args.mission_id s).missions
    → OthersStay req s (respond host req shards prefetched s').0 j
respond-OthersStay host req shards prefetched s s' j e = ground (
  arith,
  answered host req shards prefetched s s' j e,
  answered host req shards prefetched s s' req.args.mission_id e,
  same_refl (mission_key req.args.mission_id),
)

-- A failed request, of the right type.
failed-Metered :
    (req : PfRequest) (s s' : Faults)
    → same req.type (bytes "request") ≡ true
    → s'.missions ≡ (count_call req.args.mission_id s).missions
    → Metered req s (s', none)
failed-Metered req s s' h e =
    let id = req.args.mission_id in
    ground (
      arith,
      metrics-from id s' (count_call id s) e,
      counted id id s,
      same_refl (mission_key id),
      h,
    )

failed-OthersStay :
    (req : PfRequest) (s s' : Faults) (j : Bytes)
    → s'.missions ≡ (count_call req.args.mission_id s).missions
    → OthersStay req s s' j
failed-OthersStay req s s' j e =
    let id = req.args.mission_id in
    ground (
      arith,
      metrics-from j s' (count_call id s) e,
      metrics-from id s' (count_call id s) e,
      counted id j s,
      counted id id s,
      same_refl (mission_key id),
    )

finish-Metered :
    (host : PfHost) (req : PfRequest) (s : Faults) (j : Bytes)
    (d : Faults × Option (List Shard × Bool))
    → same req.type (bytes "request") ≡ true
    → d.0.missions ≡ (count_call req.args.mission_id s).missions
    → Metered req s (finish host req d) × OthersStay req s (finish host req d).0 j
unfolding finish
finish-Metered host req s j (s', none) h k =
    (failed-Metered req s s' h k, failed-OthersStay req s s' j k)
finish-Metered host req s j (s', some (shards, prefetched)) h k = (
  respond-Metered host req shards prefetched s s' h k,
  respond-OthersStay host req shards prefetched s s' j k,
)

pub unmoved : (req : PfRequest) (s : Faults) (j : Bytes) → OthersStay req s s j
unfolding metrics_of
unmoved req s j = ground (arith, same_iff (mission_key req.args.mission_id) (mission_key j))

-- `Handle` counts a request of the right type for its mission as one call, whether it succeeds or
-- fails; where it answers, it adds the bytes of the blobs of the shards that it sends, and the
-- answer reports both counters as they are then. A request of another type is an error that counts
-- nothing. The counters of other missions do not move.
pub handle-Metered :
    (host : PfHost) (req : PfRequest) (s : Faults) (j : Bytes)
    → Metered req s (handle host req s) × OthersStay req s (handle host req s).0 j
unfolding handle
handle-Metered host req s j = elim (Bool-cases (same req.type (bytes "request"))) [
  | inl e ↦
      rw (e, handle)
        (finish-Metered host req s j _ e
          (dispatch-missions host (command_of req.command) req.args _))
  | inr e ↦ rw (e, handle) (rw e refl, unmoved req s j)
]
