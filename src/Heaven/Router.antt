-- ===== src/Heaven/Router.antt =====
-- heaven/pf.go: `Handle`, and heaven/pf_governor.go, which puts a budget before it. The counters of
-- a mission are far below 2^63, and the limits are not negative. Requests are taken one after the
-- other.
pub mod Metering
pub mod Budget
use genesis_ssmp.Base.{
  not, ℕ, suc, ◌+◌, ◌-◌, Bool, true, false, Option, none, some, List, [], ◌∷◌, ◌++◌, ltb, leb,
  if◌then◌else◌, length, Bytes, bytes, same, get, put, ℤ, pos, negsuc, Dict,
}
use genesis_ssmp.Heaven.Json.{Json, str, num, obj, no_more, field}
use genesis_ssmp.Heaven.Blobs.{get_blob}
use genesis_ssmp.Heaven.Commands.{
  PfArgs, PfRequest, Shard, Metrics, PfHost, Faults, Handled, metrics_of, set_metrics,
}
use genesis_ssmp.Heaven.Lookups.{
  handle_status, handle_symdef, handle_callers, handle_slice, handle_search, handle_tests,
}
use genesis_ssmp.Heaven.Prompts.{handle_prompt_section, handle_prompt_search, handle_prompt_summary}

pub record PfBudgetRemaining : Type 0 where
  pub pf_calls_left : ℤ
  pub shard_bytes_left : ℤ

pub record PfMeta : Type 0 where
  pub pf_count : ℕ
  pub shard_bytes : ℕ
  pub prefetched : Bool
  pub budget_remaining : Option PfBudgetRemaining

pub record PfResponse : Type 0 where
  pub type : Bytes
  pub shards : List Shard
  pub meta : PfMeta

pub data Command : Type 0 where
  pf_status pf_symdef pf_callers pf_slice pf_search pf_tests : Command
  pf_prompt_section pf_prompt_search pf_prompt_summary : Command
  unknown_command : Command

-- The strings that the switch of `Handle` compares with.
unfoldable pub command_of : Bytes → Command
command_of c =
    if same c (bytes "PF_STATUS")
    then pf_status
    else if same c (bytes "PF_SYMDEF")
    then pf_symdef
    else if same c (bytes "PF_CALLERS")
    then pf_callers
    else if same c (bytes "PF_SLICE")
    then pf_slice
    else if same c (bytes "PF_SEARCH")
    then pf_search
    else if same c (bytes "PF_TESTS")
    then pf_tests
    else if same c (bytes "PF_PROMPT_SECTION")
    then pf_prompt_section
    else if same c (bytes "PF_PROMPT_SEARCH")
    then pf_prompt_search
    else if same c (bytes "PF_PROMPT_SUMMARY")
    then pf_prompt_summary
    else unknown_command

abbrev pub not_prefetched : Handled → Faults × Option (List Shard × Bool)
not_prefetched (s, none) = (s, none)
not_prefetched (s, some shards) = (s, some (shards, false))

-- The switch of `Handle`.
unfoldable pub dispatch : PfHost → Command → PfArgs → Faults → Faults × Option (List Shard × Bool)
unfolding handle_status handle_symdef handle_callers handle_slice handle_search handle_tests
    handle_prompt_section handle_prompt_search handle_prompt_summary
dispatch host pf_status args s = not_prefetched (handle_status host args s)
dispatch host pf_symdef args s = handle_symdef host args s
dispatch host pf_callers args s = not_prefetched (handle_callers host args s)
dispatch host pf_slice args s = not_prefetched (handle_slice host args s)
dispatch host pf_search args s = not_prefetched (handle_search host args s)
dispatch host pf_tests args s = not_prefetched (handle_tests host args s)
dispatch host pf_prompt_section args s = not_prefetched (handle_prompt_section host args s)
dispatch host pf_prompt_search args s = not_prefetched (handle_prompt_search host args s)
dispatch host pf_prompt_summary args s = not_prefetched (handle_prompt_summary host args s)
dispatch host unknown_command args s = (s, none)

abbrev pub size_of : Option Bytes → ℕ
size_of none = 0
size_of (some content) = length content

-- The bytes of the shards' blobs; a blob that cannot be read counts for nothing.
unfoldable pub total_bytes : Dict Bytes → List Shard → ℕ
unfolding get_blob
total_bytes blobs [] = 0
total_bytes blobs (shard ∷ shards) =
    size_of (get_blob shard.blob_id blobs) + total_bytes blobs shards

abbrev pub append_written : PfHost → Option Bytes → Faults → Faults
append_written host none s = s
append_written host (some raw) s =
    if host.written s.journal raw then record s { journal = s.journal ++ raw ∷ [] } else s

-- `logPFEvent`: its errors are dropped.
unfoldable pub log_pf_event : PfHost → PfRequest → ℕ → ℕ → Faults → Faults
log_pf_event host req shard_count shard_bytes s =
    append_written host
      (host.marshal (
        obj (
          field (bytes "type") (str (bytes "pf")) (
            field (bytes "command") (str req.command) (
              field (bytes "mission_id") (str req.args.mission_id) (
                field (bytes "shard_count") (num (pos shard_count))
                  (field (bytes "shard_bytes") (num (pos shard_bytes)) no_more)))))))
      s

-- `m.pfCount.Add(1)` and `m.shardBytes.Add(n)`
unfoldable pub count_call : Bytes → Faults → Faults
unfolding metrics_of set_metrics
count_call id s =
    let m = metrics_of id s in set_metrics id (record m { pf_count = suc m.pf_count }) s

unfoldable pub count_bytes : Bytes → ℕ → Faults → Faults
unfolding metrics_of set_metrics
count_bytes id n s =
    let m = metrics_of id s in set_metrics id (record m { shard_bytes = m.shard_bytes + n }) s

-- `Handle`, after its switch.
unfoldable pub respond :
    PfHost → PfRequest → List Shard → Bool → Faults → Faults × Option PfResponse
unfolding total_bytes count_bytes log_pf_event metrics_of
respond host req shards prefetched s =
    let n = total_bytes s.blobs shards in
    let s' = log_pf_event host req (length shards) n (count_bytes req.args.mission_id n s) in
    let m = metrics_of req.args.mission_id s' in
    (
      s',
      some (record {
        type = bytes "response";
        shards = shards;
        meta = record {
          pf_count = m.pf_count;
          shard_bytes = m.shard_bytes;
          prefetched = prefetched;
          budget_remaining = none;
        };
      }),
    )

-- What follows the switch of `Handle`, its error included.
unfoldable pub finish :
    PfHost → PfRequest → Faults × Option (List Shard × Bool) → Faults × Option PfResponse
unfolding respond
finish host req (s, none) = (s, none)
finish host req (s, some (shards, prefetched)) = respond host req shards prefetched s

-- `PFRouter.Handle`; `none` is an error.
unfoldable pub handle : PfHost → PfRequest → Faults → Faults × Option PfResponse
unfolding count_call dispatch finish command_of
handle host req s =
    if not (same req.type (bytes "request"))
    then (s, none)
    else finish host req
        (dispatch host (command_of req.command) req.args (count_call req.args.mission_id s))

pub record PfGovernorConfig : Type 0 where
  pub max_pf_calls : ℕ
  pub max_shard_bytes : ℕ

-- `a - b` on `int`.
abbrev pub minusℤ : ℕ → ℕ → ℤ
minusℤ a b = if leb b a then pos (a - b) else negsuc (b - a - 1)

unfoldable pub with_budget : PfGovernorConfig → PfResponse → PfResponse
with_budget config resp = record resp {
  meta = record (resp.meta) {
    budget_remaining = some (record {
      pf_calls_left = minusℤ config.max_pf_calls resp.meta.pf_count;
      shard_bytes_left = minusℤ config.max_shard_bytes resp.meta.shard_bytes;
    });
  };
}

abbrev pub annotated : PfGovernorConfig → Faults × Option PfResponse → Faults × Option PfResponse
annotated config (s, none) = (s, none)
annotated config (s, some resp) = (s, some (with_budget config resp))

-- `PFGovernor.Handle`; the counters that `getMetrics` makes are written.
unfoldable pub governed :
    PfHost → PfGovernorConfig → PfRequest → Faults → Faults × Option PfResponse
unfolding metrics_of set_metrics handle with_budget
governed host config req s =
    let m = metrics_of req.args.mission_id s in
    let s' = set_metrics req.args.mission_id m s in
    if leb config.max_pf_calls m.pf_count
    then (s', none)
    else if leb config.max_shard_bytes m.shard_bytes
    then (s', none)
    else annotated config (handle host req s')

-- Requests through the governor, one after the other: the state, and each request with its answer.
unfoldable pub govern_all :
    PfHost
    → PfGovernorConfig
    → List PfRequest
    → Faults
    → Faults × List (PfRequest × Option PfResponse)
unfolding governed
govern_all host config [] s = (s, [])
govern_all host config (req ∷ reqs) s =
    let (s', answer) = governed host config req s in
    let (s'', answers) = govern_all host config reqs s' in (s'', (req, answer) ∷ answers)
