-- ===== src/God/Integrator/Unnamed.antt =====
-- god/integrator.go: the lease check goes by the manifest, not by the operations.
use genesis_ssmp.Base.{
  ◌++◌, Bool-cases, inl, inr, ℕ, ◌≡◌, refl, ap, ◌∙◌, Bool, true, false, Option, none, some, List,
  [], arith, if◌then◌else◌, Bytes, bytes, is_empty, same, Result, ok, err,
}
use genesis_ssmp.Heaven.Server.{
  Server, handle_validate_manifest, validate_manifest, missing, clock_drift,
}
use genesis_ssmp.God.Edit.{EditOp, Disk, EditError, ApplyResult, apply_edit_ir}
use genesis_ssmp.God.Integrator.Conflict.{answered, IntegratorHost}
use genesis_ssmp.God.Integrator.Integrate.{
  IntegrateRequest, World, proceed, plan_for, carry_out, generate_conflict_mission, after_apply,
  complete, bump_clocks, call_server, ask_validation, manifest_request, integrate, integrate_ops,
  ops_or_error, repo_prefix, normalize_ops, normalize_files, diffs_of, snapshot_files,
}

abbrev pub unchecked : IntegrateRequest → IntegrateRequest
unchecked req = record req { skip_lease_check = true }

complete-unchecked :
    (host : IntegratorHost) (req : IntegrateRequest) (applied : ApplyResult)
    (diffs : List (Bytes × Bytes)) (d : World × Bool)
    → complete host req applied diffs d ≡ complete host (unchecked req) applied diffs d
complete-unchecked host req applied diffs (w, true) = refl
complete-unchecked host req applied diffs (w, false) = refl

after_apply-unchecked :
    (host : IntegratorHost) (req : IntegrateRequest) (files : List Bytes) (ops : List EditOp)
    (w : World) (d : Disk × Result (ℕ × EditError) ApplyResult)
    → after_apply host req files ops w d ≡ after_apply host (unchecked req) files ops w d
unfolding generate_conflict_mission
after_apply-unchecked host req files ops w (disk, err (i, e)) = refl
after_apply-unchecked host req files ops w (disk, ok applied) =
    complete-unchecked host req applied
      (diffs_of host disk (snapshot_files host w.disk files)
        (applied.files_modified ++ applied.files_created))
      (bump_clocks host files (record w { disk = disk }))

ask_validation-unnamed :
    (host : IntegratorHost) (req : IntegrateRequest) (ops : List EditOp) (srv : Server)
    (disk : Disk)
    → is_empty req.owner_id ≡ false
    → host.validate_delivery ≡ answered
    → req.response.manifest.symbols_touched ≡ []
    → req.file_clocks ≡ none
    → plan_for host ops disk (ask_validation host req [] srv) ≡ proceed ops
unfolding ask_validation call_server handle_validate_manifest manifest_request validate_manifest
    missing clock_drift plan_for
ask_validation-unnamed host req ops srv disk owner delivered symbols clocks =
    rw (delivered, owner, symbols, clocks) refl

integrate_ops-unnamed :
    (host : IntegratorHost) (req : IntegrateRequest) (ops : List EditOp) (w : World)
    → is_empty req.owner_id ≡ false
    → host.validate_delivery ≡ answered
    → req.response.manifest ≡ record { symbols_touched = []; files_touched = [] }
    → req.file_clocks ≡ none
    → integrate_ops host req ops w ≡ integrate_ops host (unchecked req) ops w
unfolding integrate_ops carry_out normalize_files
integrate_ops-unnamed host req ops w owner delivered named clocks =
    let normal = normalize_ops (repo_prefix req.repo_root) ops in
    let files = normalize_files (repo_prefix req.repo_root) req.response.manifest.files_touched in
    let no_files : files ≡ [] =
      ap (λ m. normalize_files (repo_prefix req.repo_root) m.files_touched) named in
    let asked : plan_for host normal w.disk (ask_validation host req files w.server)
        ≡ proceed normal =
      rw no_files (
        ask_validation-unnamed host req normal w.server w.disk owner delivered
          (ap (λ m. m.symbols_touched) named) clocks) in
    let planned : (if req.skip_lease_check
          then proceed normal
          else plan_for host normal w.disk (ask_validation host req files w.server))
        ≡ proceed normal =
      ground (arith, asked) in
    ap (carry_out host req files normal w) planned
    ∙ after_apply-unchecked host req files normal w (apply_edit_ir host.files normal w.disk)

ops_or_error-unnamed :
    (host : IntegratorHost) (req : IntegrateRequest) (o : Option (List EditOp)) (w : World)
    → is_empty req.owner_id ≡ false
    → host.validate_delivery ≡ answered
    → req.response.manifest ≡ record { symbols_touched = []; files_touched = [] }
    → req.file_clocks ≡ none
    → ops_or_error host req o w ≡ ops_or_error host (unchecked req) o w
ops_or_error-unnamed host req none w owner delivered named clocks = refl
ops_or_error-unnamed host req (some ops) w owner delivered named clocks =
    integrate_ops-unnamed host req ops w owner delivered named clocks

-- A response whose manifest names nothing, from an owner with a name and without expected clocks, is
-- integrated as if the lease check were switched off, where the server's answer to the call of the
-- check arrives: no lease is asked for, whatever files its operations change.
pub integrate-unnamed :
    (host : IntegratorHost) (req : IntegrateRequest) (w : World)
    → is_empty req.owner_id ≡ false
    → host.validate_delivery ≡ answered
    → req.response.manifest ≡ record { symbols_touched = []; files_touched = [] }
    → req.file_clocks ≡ none
    → integrate host req w ≡ integrate host (unchecked req) w
unfolding integrate
integrate-unnamed host req w owner delivered named clocks =
    elim (Bool-cases (same req.response.output_type (bytes "edit_ir"))) [
      | inl e ↦
          rw (e, integrate)
            (ops_or_error-unnamed host req req.response.edit_ir w owner delivered named clocks)
      | inr e ↦ rw (e, integrate) refl
    ]
