-- ===== src/Tests/Integrator.antt =====
-- god/integrator.go: the properties at concrete inputs.
use genesis_ssmp.Base.{
  arith, ◌+◌, ◌≡◌, refl, true, false, none, some, List, [], ◌∷◌, ◌++◌, Bytes, bytes, get, put, pos,
  Result, ok, err, All, ◌>>=◌, same, split_on, join, trim_suffix, has_prefix,
}
use genesis_ssmp.Heaven.State.{Lease, empty_state, log_event, log_raw}
use genesis_ssmp.Heaven.Leases.{issue, owner_holds_scope, scope_key}
use genesis_ssmp.Heaven.FileClock.{increment, bump_all, get_clocks, get_onto, clock}
use genesis_ssmp.Heaven.FileClock.Counting.{occurrences}
use genesis_ssmp.Heaven.Server.{
  handle_append_event, handle_file_clock_inc, handle_validate_manifest, validate_manifest, missing,
  clock_drift,
}
use genesis_ssmp.God.Diff.{compute_diff}
use genesis_ssmp.God.Diff.Hunks.{build_hunks}
use genesis_ssmp.God.Diff.Placing.{IsPlaced, build_hunks-IsPlaced}
use genesis_ssmp.God.Missions.{Mission}
use genesis_ssmp.God.Edit.{
  EditOp, replace_span, Disk, Host, apply_op, apply_edit_ir, apply_ops, apply_replace_span, span_of,
  read_file_lines, check_anchor, compute_anchor_hash, write_file_lines, write_file, split_content,
  note_op,
}
use genesis_ssmp.God.Edit.Spans.{SpanResult}
use genesis_ssmp.God.Integrator.Rebase.{rebase_anchors, rebase_op}
use genesis_ssmp.God.Integrator.Conflict.{IntegratorHost, answered}
use genesis_ssmp.God.Integrator.Integrate.{
  IntegrateRequest, IntegrateResult, IntegrateError, World, integrate, integrate_ops, carry_out,
  normalize_ops, normalize_files, repo_prefix, strip_prefix, plan_for, ask_validation, call_server,
  manifest_request, bump_clocks, inc_clocks, post_event,
}
use genesis_ssmp.God.Integrator.Leased.{IsLeased, clocks_of, touched, integrate-IsLeased}
use genesis_ssmp.God.Integrator.Rebased.{rebase_plain, rebase_anchors-plain, rebase_op-SpanResult}
use genesis_ssmp.God.Integrator.Unnamed.{unchecked, integrate-unnamed}
use genesis_ssmp.Tests.Codec.{test_env}

build_hunks-IsPlaced_example :
    All
      (IsPlaced (bytes "a" ∷ bytes "b" ∷ []) (bytes "a" ∷ bytes "c" ∷ []))
      (build_hunks (compute_diff (bytes "a" ∷ bytes "b" ∷ []) (bytes "a" ∷ bytes "c" ∷ [])))
build_hunks-IsPlaced_example =
    build_hunks-IsPlaced (bytes "a" ∷ bytes "b" ∷ []) (bytes "a" ∷ bytes "c" ∷ [])

-- The root is "r/", the hash of a text is the text, and every path can be written.
abbrev files : Host
files = record { abs_path = λ p. bytes "r/" ++ p; hash = λ t. t; writable = λ _. true }

abbrev integrator : IntegratorHost
integrator = record {
  files = files;
  env = test_env;
  failure_text = λ f. [];
  event_json = λ e. bytes "{}";
  now = [];
  drawn_id = bytes "c";
  validate_delivery = answered;
  inc_delivery = answered;
  event_delivery = answered;
}

abbrev disk : Disk
disk = (bytes "r/f", bytes "a\nb\nc\n") ∷ []

abbrev op : EditOp
op = record {
  op = replace_span;
  path = bytes "f";
  anchor_hash = bytes "a\nc\n";
  lines = pos 2 ∷ pos 2 ∷ [];
  content = bytes "x\n";
  symbol = [];
  template_text = [];
  instances = [];
}

abbrev file_lease : Lease
file_lease = record {
  lease_id = bytes "l";
  owner_id = bytes "o";
  mission_id = bytes "m";
  scope_type = bytes "file";
  scope_value = bytes "f";
  issued_at = [];
  expires_at = [];
}

abbrev world : World
world = record {
  disk = disk;
  server = record { state = issue file_lease empty_state; state_rev = 0 };
}

abbrev mission : Mission
mission = record {
  mission_id = bytes "m";
  goal = [];
  base_rev = [];
  scopes = [];
  lease_ids = [];
  tasks = [];
  token_budget = pos 0;
  created_at = [];
}

abbrev request : IntegrateRequest
request = record {
  owner_id = bytes "o";
  repo_root = bytes "r";
  response = record {
    output_type = bytes "edit_ir";
    edit_ir = some (op ∷ []);
    manifest = record { symbols_touched = []; files_touched = bytes "f" ∷ [] };
  };
  mission = mission;
  file_clocks = none;
  conflict_depth = 0;
  skip_lease_check = false;
}

abbrev result_or : Result IntegrateError IntegrateResult → IntegrateResult
result_or (ok r) = r
result_or (err e) = record {
  success = false;
  files_modified = [];
  files_created = [];
  ops_applied = 0;
  diffs = [];
  conflict = none;
  refusal = none;
}

abbrev after : World × Result IntegrateError IntegrateResult
after = integrate integrator request world

request-succeeds :
    (after ≡ (after.0, ok (result_or after.1))) × ((result_or after.1).success ≡ true)
unfolding integrate integrate_ops carry_out normalize_ops normalize_files repo_prefix strip_prefix
    plan_for ask_validation call_server manifest_request bump_clocks inc_clocks post_event
    apply_edit_ir apply_ops apply_op apply_replace_span span_of read_file_lines check_anchor
    compute_anchor_hash write_file_lines write_file split_content note_op handle_append_event
    handle_file_clock_inc handle_validate_manifest validate_manifest missing clock_drift
    owner_holds_scope scope_key increment bump_all get_clocks get_onto clock issue log_event log_raw
    get put same split_on join trim_suffix has_prefix ◌>>=◌
request-succeeds = (refl, refl)

integrate-IsLeased_example :
    IsLeased request world
    × (clocks_of after.0 (bytes "f")
        ≡ clocks_of world (bytes "f") + occurrences (bytes "f") (touched request))
integrate-IsLeased_example =
    integrate-IsLeased integrator request world after.0 (result_or after.1) (bytes "f") refl
      request-succeeds.0 request-succeeds.1

rebase_anchors-plain_example :
    rebase_anchors files disk (op ∷ op ∷ []) ≡ rebase_plain files disk 0 (op ∷ op ∷ [])
rebase_anchors-plain_example = rebase_anchors-plain files disk (op ∷ op ∷ [])

abbrev lines_of_f : List Bytes
lines_of_f = bytes "a" ∷ bytes "b" ∷ bytes "c" ∷ []

f-reads : read_file_lines disk (bytes "r/f") ≡ ok lines_of_f
unfolding read_file_lines get same split_on trim_suffix
f-reads = refl

abbrev rebased_op : EditOp
rebased_op = record op { anchor_hash = compute_anchor_hash files lines_of_f (pos 2) (pos 2) }

op-rebases : rebase_op files 0 lines_of_f op ≡ ok rebased_op
unfolding rebase_op ◌>>=◌
op-rebases = refl

rebase_op-SpanResult_example :
    (disk' : Disk) × (rebased_op.path ≡ op.path)
    × (rebased_op.lines ≡ op.lines)
    × (apply_op files disk rebased_op ≡ ok disk')
    × SpanResult files rebased_op (split_content op.content) disk disk'
rebase_op-SpanResult_example =
    rebase_op-SpanResult files disk 0 lines_of_f op rebased_op 2 2 refl refl (omega arith)
      (omega arith) (omega arith) f-reads refl op-rebases

abbrev unnamed : IntegrateRequest
unnamed = record request {
  response = record (request.response) {
    manifest = record { symbols_touched = []; files_touched = [] };
  };
}

integrate-unnamed_example :
    integrate integrator unnamed world ≡ integrate integrator (unchecked unnamed) world
integrate-unnamed_example = integrate-unnamed integrator unnamed world refl refl refl refl
