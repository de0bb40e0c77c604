-- ===== src/God/Integrator/Integrate.antt =====
-- god/integrator.go: `Integrate`, with the server's answers. A response is changed by no other code
-- while it is integrated. `CompileAA` returns no error, so that the branch for one is left out.
use genesis_ssmp.Base.{
  ℕ, Bool, true, false, not, ◌&&◌, Option, none, some, List, [], ◌∷◌, ◌++◌, leb, if◌then◌else◌,
  length, drop, Bytes, bytes, same, has_prefix, trim_suffix, Dict, get, put, ℤ, Result, ok, err,
}
use genesis_ssmp.Heaven.Server.{
  is_nil, Server, ManifestRequest, ManifestResponse, Reason, Answer, manifest_is, clocks_are,
  handle_append_event, handle_file_clock_inc, handle_validate_manifest,
}
use genesis_ssmp.God.Missions.{Mission}
use genesis_ssmp.God.AngelAssembly.Compile.{CompileResult}
use genesis_ssmp.God.Diff.Hunks.{generate_diff}
use genesis_ssmp.God.Edit.{EditOp, Disk, EditError, ApplyResult, apply_edit_ir}
use genesis_ssmp.God.Integrator.Rebase.{RebaseError, rebase_anchors}
use genesis_ssmp.God.Integrator.Conflict.{
  Failure, apply_failed, rebase_failed, Delivery, answered, lost, unanswered, IntegratorHost,
  GodEvent, integration_complete, conflict_detected, conflict_mission, conflict_region,
}

pub record Manifest : Type 0 where
  pub symbols_touched : List Bytes
  pub files_touched : List Bytes

pub record AngelResponse : Type 0 where
  pub output_type : Bytes
  pub edit_ir : Option (List EditOp)
  pub manifest : Manifest

pub record IntegrateRequest : Type 0 where
  pub owner_id : Bytes
  pub repo_root : Bytes
  pub response : AngelResponse
  pub mission : Mission
  pub file_clocks : Option (Dict ℤ)
  pub conflict_depth : ℕ
  pub skip_lease_check : Bool

-- The reasons for a result without success.
pub data Refusal : Type 0 where
  manifest_rejected : Reason → Refusal
  depth_reached : Failure → Refusal
  conflict_in : Bytes → Failure → Refusal

pub record IntegrateResult : Type 0 where
  pub success : Bool
  pub files_modified : List Bytes
  pub files_created : List Bytes
  pub ops_applied : ℕ
  pub diffs : List (Bytes × Bytes)
  pub conflict : Option CompileResult
  pub refusal : Option Refusal

pub data IntegrateError : Type 0 where
  only_edit_ir validate_failed clock_inc_failed : IntegrateError

-- The repository and the server.
pub record World : Type 0 where
  pub disk : Disk
  pub server : Server

-- The prefix of the repository's paths, with its slash.
unfoldable pub repo_prefix : Bytes → Bytes
repo_prefix root = trim_suffix b'/' root ++ b'/' ∷ []

unfoldable pub strip_prefix : Bytes → Bytes → Bytes
strip_prefix prefix path = if has_prefix path prefix then drop (length prefix) path else path

unfoldable pub normalize_ops : Bytes → List EditOp → List EditOp
unfolding strip_prefix
normalize_ops prefix [] = []
normalize_ops prefix (op ∷ ops) =
    record op { path = strip_prefix prefix op.path } ∷ normalize_ops prefix ops

unfoldable pub normalize_files : Bytes → List Bytes → List Bytes
unfolding strip_prefix
normalize_files prefix [] = []
normalize_files prefix (f ∷ fs) = strip_prefix prefix f ∷ normalize_files prefix fs

-- A call of the server, as it ends.
unfoldable pub call_server : Delivery → Server × Answer → Server → Server × Option Answer
call_server answered (srv', a) srv = (srv', some a)
call_server lost (srv', a) srv = (srv, none)
call_server unanswered (srv', a) srv = (srv', none)

abbrev pub response_of : Option Answer → Option ManifestResponse
response_of (some (manifest_is r)) = some r
response_of _ = none

unfoldable pub manifest_request : IntegrateRequest → List Bytes → ManifestRequest
manifest_request req files = record {
  owner_id = req.owner_id;
  mission_id = req.mission.mission_id;
  symbols_touched = req.response.manifest.symbols_touched;
  files_touched = files;
  expected_clocks = req.file_clocks;
}

-- `HeavenClient.ValidateManifest`; `none` is its error.
unfoldable pub ask_validation :
    IntegratorHost → IntegrateRequest → List Bytes → Server → Option ManifestResponse
unfolding call_server manifest_request handle_validate_manifest
ask_validation host req files srv =
    response_of
      (call_server host.validate_delivery
        (srv, handle_validate_manifest (manifest_request req files) srv) srv).1

-- `HeavenClient.AppendEvent`, whose error is dropped.
unfoldable pub post_event : IntegratorHost → GodEvent → World → World
unfolding call_server handle_append_event
post_event host e w = record w {
  server =
      (call_server host.event_delivery (handle_append_event host.env (host.event_json e) w.server)
        w.server).0;
}

abbrev pub is_clocks : Option Answer → Bool
is_clocks (some (clocks_are _)) = true
is_clocks _ = false

-- `HeavenClient.FileClockInc`; false is its error.
unfoldable pub inc_clocks : IntegratorHost → List Bytes → World → World × Bool
unfolding call_server handle_file_clock_inc
inc_clocks host files w =
    let (srv, answer) =
      call_server host.inc_delivery (handle_file_clock_inc host.env files w.server) w.server in
    (record w { server = srv }, is_clocks answer)

abbrev pub failed_result : Refusal → Option CompileResult → IntegrateResult
failed_result refusal conflict = record {
  success = false;
  files_modified = [];
  files_created = [];
  ops_applied = 0;
  diffs = [];
  conflict = conflict;
  refusal = some refusal;
}

-- `generateConflictMission`
unfoldable pub generate_conflict_mission :
    IntegratorHost → IntegrateRequest → List EditOp → Failure → World → World × IntegrateResult
unfolding conflict_region conflict_mission post_event
generate_conflict_mission host req ops failure w =
    if leb 2 req.conflict_depth
    then (w, failed_result (depth_reached failure) none)
    else let r = conflict_region ops (host.failure_text failure) in
      let compiled = conflict_mission host req.mission r failure in
      (
        post_event host
            (conflict_detected req.mission.mission_id compiled.mission.mission_id r.path failure) w,
        failed_result (conflict_in r.path failure) (some compiled),
      )

-- What the validation of the manifest leads to.
pub data Plan : Type 0 where
  proceed : List EditOp → Plan
  give_up : Failure → Plan
  reject : Reason → Plan
  stop : Plan

abbrev pub rebased_plan : Result RebaseError (List EditOp) → Plan
rebased_plan (ok ops) = proceed ops
rebased_plan (err e) = give_up (rebase_failed e)

unfoldable pub plan_for : IntegratorHost → List EditOp → Disk → Option ManifestResponse → Plan
unfolding rebase_anchors
plan_for host ops disk none = stop
plan_for host ops disk (some v) =
    if not v.allowed && not (is_nil v.clock_drift) && is_nil v.missing_leases
    then rebased_plan (rebase_anchors host.files disk ops)
    else if not v.allowed
    then reject v.reason
    else proceed ops

-- `snapshotFiles`
unfoldable pub snapshot_files : IntegratorHost → Disk → List Bytes → Dict Bytes
snapshot_files host disk [] = []
snapshot_files host disk (p ∷ ps) =
    let rest = snapshot_files host disk ps in
    elim (get (host.files.abs_path p) disk) [ none ↦ rest | some text ↦ put p text rest ]

abbrev pub or_blank : Option Bytes → Bytes
or_blank none = []
or_blank (some text) = text

abbrev pub with_diff : Bytes → Bytes → List (Bytes × Bytes) → List (Bytes × Bytes)
with_diff f [] rest = rest
with_diff f (c ∷ d) rest = (f, c ∷ d) ∷ rest

-- The loop that makes the diffs.
unfoldable pub diffs_of : IntegratorHost → Disk → Dict Bytes → List Bytes → List (Bytes × Bytes)
unfolding generate_diff
diffs_of host disk old_contents [] = []
diffs_of host disk old_contents (f ∷ fs) =
    let rest = diffs_of host disk old_contents fs in
    elim (get (host.files.abs_path f) disk) [
      | none ↦ rest
      | some new_data ↦ with_diff f (generate_diff f (or_blank (get f old_contents)) new_data) rest
    ]

-- The clocks of the touched files: no call where there are none.
unfoldable pub bump_clocks : IntegratorHost → List Bytes → World → World × Bool
unfolding inc_clocks
bump_clocks host [] w = (w, true)
bump_clocks host (f ∷ fs) w = inc_clocks host (f ∷ fs) w

-- `Integrate`, from the increments of the clocks on.
abbrev pub complete :
    IntegratorHost
    → IntegrateRequest
    → ApplyResult
    → List (Bytes × Bytes)
    → World × Bool
    → World × Result IntegrateError IntegrateResult
complete host req applied diffs (w, false) = (w, err clock_inc_failed)
complete host req applied diffs (w, true) = (
  post_event host
      (integration_complete req.mission.mission_id applied.files_modified applied.files_created
        applied.ops_applied)
      w,
  ok (record {
    success = true;
    files_modified = applied.files_modified;
    files_created = applied.files_created;
    ops_applied = applied.ops_applied;
    diffs = diffs;
    conflict = none;
    refusal = none;
  }),
)

abbrev pub as_ok : World × IntegrateResult → World × Result IntegrateError IntegrateResult
as_ok (w, r) = (w, ok r)

-- `Integrate`, after `ApplyEditIR`.
abbrev pub after_apply :
    IntegratorHost
    → IntegrateRequest
    → List Bytes
    → List EditOp
    → World
    → Disk × Result (ℕ × EditError) ApplyResult
    → World × Result IntegrateError IntegrateResult
after_apply host req files ops w (disk, err (i, e)) =
    as_ok (generate_conflict_mission host req ops (apply_failed i e) (record w { disk = disk }))
after_apply host req files ops w (disk, ok applied) =
    let diffs =
      diffs_of host disk (snapshot_files host w.disk files)
        (applied.files_modified ++ applied.files_created) in
    complete host req applied diffs (bump_clocks host files (record w { disk = disk }))

-- `Integrate`, with the operations and files normalised and a plan.
unfoldable pub carry_out :
    IntegratorHost
    → IntegrateRequest
    → List Bytes
    → List EditOp
    → World
    → Plan
    → World × Result IntegrateError IntegrateResult
unfolding generate_conflict_mission snapshot_files diffs_of bump_clocks post_event apply_edit_ir
carry_out host req files ops w stop = (w, err validate_failed)
carry_out host req files ops w (reject reason) =
    (w, ok (failed_result (manifest_rejected reason) none))
carry_out host req files ops w (give_up failure) =
    as_ok (generate_conflict_mission host req ops failure w)
carry_out host req files ops w (proceed planned) =
    after_apply host req files planned w (apply_edit_ir host.files planned w.disk)

unfoldable pub integrate_ops :
    IntegratorHost
    → IntegrateRequest
    → List EditOp
    → World
    → World × Result IntegrateError IntegrateResult
unfolding repo_prefix normalize_ops normalize_files ask_validation plan_for carry_out
integrate_ops host req raw_ops w =
    let prefix = repo_prefix req.repo_root in
    let ops = normalize_ops prefix raw_ops in
    let files = normalize_files prefix req.response.manifest.files_touched in
    carry_out host req files ops w (
      if req.skip_lease_check
      then proceed ops
      else plan_for host ops w.disk (ask_validation host req files w.server))

abbrev pub ops_or_error :
    IntegratorHost
    → IntegrateRequest
    → Option (List EditOp)
    → World
    → World × Result IntegrateError IntegrateResult
ops_or_error host req none w = (w, err only_edit_ir)
ops_or_error host req (some ops) w = integrate_ops host req ops w

-- `Integrate`
unfoldable pub integrate :
    IntegratorHost → IntegrateRequest → World → World × Result IntegrateError IntegrateResult
unfolding integrate_ops
integrate host req w =
    if same req.response.output_type (bytes "edit_ir")
    then ops_or_error host req req.response.edit_ir w
    else (w, err only_edit_ir)
