-- ===== src/God/Integrator/Leased.antt =====
-- god/integrator.go: a success was leased, and is counted by the clocks.
use genesis_ssmp.Base.{
  ℕ, ◌+◌, ◌≡◌, refl, subst, ◌∙◌, inl, inr, Bool, true, false, not, ◌&&◌, Option, none, some, List,
  [], ◌∷◌, arith, Bytes, bytes, same, Bool-cases, Result, ok, err,
}
use genesis_ssmp.Heaven.State.{log_raw}
use genesis_ssmp.Heaven.FileClock.{clock}
use genesis_ssmp.Heaven.FileClock.Counting.{occurrences, increment-get_clocks}
use genesis_ssmp.Heaven.Server.{
  is_nil, Server, ManifestResponse, handle_append_event, handle_file_clock_inc,
  handle_validate_manifest, validate_manifest,
}
use genesis_ssmp.Heaven.Server.Manifest.{
  HoldsAll, validate_manifest-leases, validate_manifest-allowed_iff,
}
use genesis_ssmp.God.Edit.{EditOp, Disk, EditError, ApplyResult, apply_edit_ir}
use genesis_ssmp.God.Integrator.Rebase.{RebaseError, rebase_anchors}
use genesis_ssmp.God.Integrator.Conflict.{
  Failure, apply_failed, Delivery, answered, lost, unanswered, IntegratorHost, GodEvent,
}
use genesis_ssmp.God.Integrator.Integrate.{
  IntegrateRequest, IntegrateResult, IntegrateError, World, Plan, proceed, give_up, reject, stop,
  plan_for, rebased_plan, carry_out, generate_conflict_mission, after_apply, complete, bump_clocks,
  inc_clocks, is_clocks, call_server, post_event, ask_validation, response_of, manifest_request,
  integrate, integrate_ops, ops_or_error, repo_prefix, normalize_ops, normalize_files, as_ok,
}

abbrev pub clocks_of : World → Bytes → ℕ
clocks_of w p = clock w.server.state.clocks p

-- The condition on a success.
abbrev pub OnSuccess : Bool → Type 0 → Type 0
OnSuccess true P = P
OnSuccess false P = Unit

abbrev Counted : List Bytes → World → Bytes → World × Result IntegrateError IntegrateResult → Type 0
Counted files w p (w', err e) = Unit
Counted files w p (w', ok r) =
    OnSuccess r.success (clocks_of w' p ≡ clocks_of w p + occurrences p files)

post_event-clocks :
    (host : IntegratorHost) (e : GodEvent) (w : World) (p : Bytes)
    → clocks_of (post_event host e w) p ≡ clocks_of w p
unfolding post_event call_server handle_append_event log_raw
post_event-clocks host e w p = go host.event_delivery
  where
    go :
        (d : Delivery)
        → clocks_of
            (record w {
              server =
                  (call_server d
                    (handle_append_event host.env (host.event_json e) w.server)
                    w.server).0;
            })
            p
          ≡ clocks_of w p
    go answered = ground arith
    go lost = refl
    go unanswered = ground arith

inc_clocks-clocks :
    (host : IntegratorHost) (files : List Bytes) (w : World) (p : Bytes)
    → (inc_clocks host files w).1 ≡ true
    → clocks_of (inc_clocks host files w).0 p ≡ clocks_of w p + occurrences p files
unfolding inc_clocks call_server handle_file_clock_inc
inc_clocks-clocks host files w p h = go host.inc_delivery h
  where
    go :
        (d : Delivery)
        → is_clocks (call_server d (handle_file_clock_inc host.env files w.server) w.server).1
          ≡ true
        → clocks_of
            (record w {
              server = (call_server d (handle_file_clock_inc host.env files w.server) w.server).0;
            })
            p
          ≡ clocks_of w p + occurrences p files
    go answered k = ground (arith, (increment-get_clocks host.env files [] w.server.state p).0)
    go lost k = absurd (ground arith)
    go unanswered k = absurd (ground arith)

bump_clocks-clocks :
    (host : IntegratorHost) (files : List Bytes) (w : World) (p : Bytes)
    → (bump_clocks host files w).1 ≡ true
    → clocks_of (bump_clocks host files w).0 p ≡ clocks_of w p + occurrences p files
unfolding bump_clocks
bump_clocks-clocks host [] w p h = omega arith
bump_clocks-clocks host (f ∷ fs) w p h = inc_clocks-clocks host (f ∷ fs) w p h

generate_conflict_mission-fails :
    (host : IntegratorHost) (req : IntegrateRequest) (ops : List EditOp) (failure : Failure)
    (w : World)
    → (generate_conflict_mission host req ops failure w).1.success ≡ false
unfolding generate_conflict_mission
generate_conflict_mission-fails host req ops failure w = ground arith

as_ok-Counted :
    (files : List Bytes) (w : World) (p : Bytes) (d : World × IntegrateResult)
    → d.1.success ≡ false
    → Counted files w p (as_ok d)
as_ok-Counted files w p (w', r) h = rw h tt

complete-Counted :
    (host : IntegratorHost) (req : IntegrateRequest) (applied : ApplyResult)
    (diffs : List (Bytes × Bytes)) (files : List Bytes) (w : World) (p : Bytes) (d : World × Bool)
    → (d.1 ≡ true → clocks_of d.0 p ≡ clocks_of w p + occurrences p files)
    → Counted files w p (complete host req applied diffs d)
complete-Counted host req applied diffs files w p (w', false) h = tt
complete-Counted host req applied diffs files w p (w', true) h =
    post_event-clocks host _ w' p ∙ h refl

after_apply-Counted :
    (host : IntegratorHost) (req : IntegrateRequest) (files : List Bytes) (ops : List EditOp)
    (w : World) (p : Bytes) (d : Disk × Result (ℕ × EditError) ApplyResult)
    → Counted files w p (after_apply host req files ops w d)
after_apply-Counted host req files ops w p (disk, err (i, e)) =
    as_ok-Counted files w p
      (generate_conflict_mission host req ops (apply_failed i e) (record w { disk = disk }))
      (generate_conflict_mission-fails host req ops (apply_failed i e) (record w { disk = disk }))
after_apply-Counted host req files ops w p (disk, ok applied) =
    complete-Counted host req applied _ files w p _
      (bump_clocks-clocks host files (record w { disk = disk }) p)

carry_out-Counted :
    (host : IntegratorHost) (req : IntegrateRequest) (files : List Bytes) (ops : List EditOp)
    (w : World) (p : Bytes) (plan : Plan)
    → Counted files w p (carry_out host req files ops w plan)
unfolding carry_out
carry_out-Counted host req files ops w p (proceed planned) =
    after_apply-Counted host req files planned w p _
carry_out-Counted host req files ops w p (give_up failure) =
    as_ok-Counted files w p (generate_conflict_mission host req ops failure w)
      (generate_conflict_mission-fails host req ops failure w)
carry_out-Counted host req files ops w p (reject why) = tt
carry_out-Counted host req files ops w p stop = tt

-- The touched files, with the prefix of the repository taken off.
abbrev pub touched : IntegrateRequest → List Bytes
touched req = normalize_files (repo_prefix req.repo_root) req.response.manifest.files_touched

-- The owner of the request has its leases.
abbrev pub IsLeased : IntegrateRequest → World → Type 0
IsLeased req w =
    HoldsAll w.server.state req.owner_id (bytes "symbol") req.response.manifest.symbols_touched
    × HoldsAll w.server.state req.owner_id (bytes "file") (touched req)

-- A plan that goes on only with the leases.
abbrev NeedsLeases : IntegrateRequest → World → Plan → Type 0
NeedsLeases req w (proceed ops) = IsLeased req w
NeedsLeases req w _ = Unit

abbrev Leased : IntegrateRequest → World → World × Result IntegrateError IntegrateResult → Type 0
Leased req w (w', err e) = Unit
Leased req w (w', ok r) = OnSuccess r.success (IsLeased req w)

always :
    (req : IntegrateRequest) (w : World) (d : World × Result IntegrateError IntegrateResult)
    → IsLeased req w
    → Leased req w d
always req w (w', err e) h = tt
always req w (w', ok r) h = go r.success
  where
    go : (b : Bool) → OnSuccess b (IsLeased req w)
    go true = h
    go false = tt

as_ok-Leased :
    (req : IntegrateRequest) (w : World) (d : World × IntegrateResult)
    → d.1.success ≡ false
    → Leased req w (as_ok d)
as_ok-Leased req w (w', r) h = rw h tt

carry_out-Leased :
    (host : IntegratorHost) (req : IntegrateRequest) (files : List Bytes) (ops : List EditOp)
    (w : World) (plan : Plan)
    → NeedsLeases req w plan
    → Leased req w (carry_out host req files ops w plan)
unfolding carry_out
carry_out-Leased host req files ops w (proceed planned) h =
    always req w (after_apply host req files planned w (apply_edit_ir host.files planned w.disk)) h
carry_out-Leased host req files ops w (give_up failure) h =
    as_ok-Leased req w (generate_conflict_mission host req ops failure w)
      (generate_conflict_mission-fails host req ops failure w)
carry_out-Leased host req files ops w (reject why) h = tt
carry_out-Leased host req files ops w stop h = tt

rebased_plan-NeedsLeases :
    (req : IntegrateRequest) (w : World) (d : Result RebaseError (List EditOp))
    → IsLeased req w
    → NeedsLeases req w (rebased_plan d)
rebased_plan-NeedsLeases req w (ok ops) h = h
rebased_plan-NeedsLeases req w (err e) h = tt

ask_validation-lem :
    (host : IntegratorHost) (req : IntegrateRequest) (files : List Bytes) (srv : Server)
    (v : ManifestResponse)
    → ask_validation host req files srv ≡ some v
    → v ≡ validate_manifest srv.state (manifest_request req files)
unfolding ask_validation call_server handle_validate_manifest
ask_validation-lem host req files srv v h = go host.validate_delivery h
  where
    go :
        (d : Delivery)
        → response_of
            (call_server d (srv, handle_validate_manifest (manifest_request req files) srv) srv).1
          ≡ some v
        → v ≡ validate_manifest srv.state (manifest_request req files)
    go answered k = ground arith
    go lost k = absurd (ground arith)
    go unanswered k = absurd (ground arith)

plan_for-NeedsLeases :
    (host : IntegratorHost) (req : IntegrateRequest) (ops : List EditOp) (w : World)
    (o : Option ManifestResponse)
    → ask_validation host req (touched req) w.server ≡ o
    → NeedsLeases req w (plan_for host ops w.disk o)
unfolding plan_for manifest_request
plan_for-NeedsLeases host req ops w none e = tt
plan_for-NeedsLeases host req ops w (some v) e =
    let s = w.server.state in
    let asked = manifest_request req (touched req) in
    let same_v = ask_validation-lem host req (touched req) w.server v e in
    elim (Bool-cases (not v.allowed && not (is_nil v.clock_drift) && is_nil v.missing_leases)) [
      | inl f ↦
          let no_missing : is_nil v.missing_leases ≡ true = ground arith in
          rw (f, plan_for)
            (rebased_plan-NeedsLeases req w (rebase_anchors host.files w.disk ops) (
              validate_manifest-leases s asked
                (subst (λ x. is_nil x.missing_leases ≡ true) same_v no_missing)))
      | inr f ↦ elim (Bool-cases v.allowed) [
        | inr g ↦ rw (f, g, plan_for) tt
        | inl g ↦
            let held =
              (validate_manifest-allowed_iff s asked).0 (subst (λ x. x.allowed ≡ true) same_v g) in
            rw (f, g, plan_for) (held.0, held.1)
      ]
    ]

integrate_ops-plan :
    (host : IntegratorHost) (req : IntegrateRequest) (ops : List EditOp) (w : World) (p : Bytes)
    (skip : Bool)
    → req.skip_lease_check ≡ skip
    → skip ≡ false
    → Leased req w (integrate_ops host req ops w)
      × Counted (touched req) w p (integrate_ops host req ops w)
unfolding integrate_ops
integrate_ops-plan host req ops w p true e h = absurd (ground arith)
integrate_ops-plan host req ops w p false e h =
    let normal = normalize_ops (repo_prefix req.repo_root) ops in
    let plan = plan_for host normal w.disk (ask_validation host req (touched req) w.server) in
    rw (e, integrate_ops)
      (
        carry_out-Leased host req (touched req) normal w plan
            (plan_for-NeedsLeases host req normal w _ refl),
        carry_out-Counted host req (touched req) normal w p plan,
      )

ops_or_error-plan :
    (host : IntegratorHost) (req : IntegrateRequest) (o : Option (List EditOp)) (w : World)
    (p : Bytes)
    → req.skip_lease_check ≡ false
    → Leased req w (ops_or_error host req o w)
      × Counted (touched req) w p (ops_or_error host req o w)
ops_or_error-plan host req none w p h = (tt, tt)
ops_or_error-plan host req (some ops) w p h = integrate_ops-plan host req ops w p false h refl

integrate-plan :
    (host : IntegratorHost) (req : IntegrateRequest) (w : World) (p : Bytes)
    → req.skip_lease_check ≡ false
    → Leased req w (integrate host req w) × Counted (touched req) w p (integrate host req w)
unfolding integrate
integrate-plan host req w p h =
    elim (Bool-cases (same req.response.output_type (bytes "edit_ir"))) [
      | inl e ↦ rw (e, integrate) (ops_or_error-plan host req req.response.edit_ir w p h)
      | inr e ↦ rw (e, integrate) (tt, tt)
    ]

on_success : (b : Bool) (P : Type 0) → b ≡ true → OnSuccess b P → P
on_success true P e h = h
on_success false P e h = absurd (ground arith)

-- With its lease check, `Integrate` reports a success only if, when it asked the server, the owner of
-- the request held a lease on every symbol and every file that the manifest names; and then the
-- clock of each path has grown by the number of times that the manifest names it.
pub integrate-IsLeased :
    (host : IntegratorHost) (req : IntegrateRequest) (w w' : World) (r : IntegrateResult)
    (p : Bytes)
    → req.skip_lease_check ≡ false
    → integrate host req w ≡ (w', ok r)
    → r.success ≡ true
    → IsLeased req w × (clocks_of w' p ≡ clocks_of w p + occurrences p (touched req))
integrate-IsLeased host req w w' r p checked e success =
    let (leased, counted) = integrate-plan host req w p checked in
    (
      on_success r.success (IsLeased req w) success (subst (Leased req w) e leased),
      on_success r.success (clocks_of w' p ≡ clocks_of w p + occurrences p (touched req)) success
          (subst (Counted (touched req) w p) e counted),
    )
