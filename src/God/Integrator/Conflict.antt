-- ===== src/God/Integrator/Conflict.antt =====
-- god/integrator.go: `generateConflictMission`. The wording of errors and events is a parameter.
use genesis_ssmp.Base.{
  ℕ, suc, ◌+◌, ◌-◌, not, ◌&&◌, Option, none, some, List, [], ◌∷◌, ◌++◌, ltb, leb, if◌then◌else◌,
  Bytes, bytes, is_empty, contains, ℤ, pos, negsuc,
}
use genesis_ssmp.Heaven.State.{Env}
use genesis_ssmp.God.Missions.{Mission}
use genesis_ssmp.God.AngelAssembly.{Need, slice, Program}
use genesis_ssmp.God.AngelAssembly.Compile.{CompileResult, compile_aa}
use genesis_ssmp.God.Edit.{EditOp, Host, EditError}
use genesis_ssmp.God.Integrator.Rebase.{RebaseError}

-- The error that makes a conflict.
pub data Failure : Type 0 where
  apply_failed : ℕ → EditError → Failure
  rebase_failed : RebaseError → Failure

pub data GodEvent : Type 0 where
  integration_complete : Bytes → List Bytes → List Bytes → ℕ → GodEvent
  conflict_detected : Bytes → Bytes → Bytes → Failure → GodEvent

-- How a call of the server ends: answered, lost on its way, or done without an answer.
pub data Delivery : Type 0 where
  answered lost unanswered : Delivery

-- The disk, the server's own environment, texts, the clock, the identifier that is drawn, and how
-- the three calls of the server end.
pub record IntegratorHost : Type 0 where
  pub files : Host
  pub env : Env
  pub failure_text : Failure → Bytes
  pub event_json : GodEvent → Bytes
  pub now : Bytes
  pub drawn_id : Bytes
  pub validate_delivery : Delivery
  pub inc_delivery : Delivery
  pub event_delivery : Delivery

pub record Region : Type 0 where
  pub path : Bytes
  pub start_line : ℤ
  pub end_line : ℤ

abbrev pub region_of : Bytes → List ℤ → Region
region_of path (s ∷ e ∷ []) = record { path = path; start_line = s; end_line = e }
region_of path _ = record { path = path; start_line = pos 0; end_line = pos 0 }

-- The first operation with a path that the text contains.
unfoldable pub named_op : Bytes → List EditOp → Option EditOp
named_op text [] = none
named_op text (op ∷ ops) =
    let rest = named_op text ops in
    if not (is_empty op.path) && contains text op.path then some op else rest

-- The first operation with a path.
unfoldable pub first_op : List EditOp → Option EditOp
first_op [] = none
first_op (op ∷ ops) = let rest = first_op ops in if is_empty op.path then rest else some op

abbrev pub region_or : Region → Option EditOp → Region
region_or r none = r
region_or r (some op) = region_of op.path op.lines

-- `extractConflictRegion`
unfoldable pub conflict_region : List EditOp → Bytes → Region
unfolding named_op first_op
conflict_region ops text =
    region_or (region_or (region_of [] []) (first_op ops)) (named_op text ops)

-- `startLine - 10`, but at least 1.
abbrev pub context_start : ℤ → ℕ
context_start (pos n) = if ltb n 11 then 1 else n - 10
context_start (negsuc n) = 1

-- `(endLine - ctxStart) + 20` of an end line that is positive.
abbrev pub slice_length : ℕ → ℕ → ℤ
slice_length end_line start =
    if leb start (end_line + 20)
    then pos (end_line + 20 - start)
    else negsuc (start - (end_line + 20) - 1)

abbrev pub needs_of : Bytes → ℤ → ℤ → List Need
needs_of path start_line (pos (suc e)) =
    if is_empty path
    then []
    else slice path (pos (context_start start_line))
        (slice_length (suc e) (context_start start_line))
      ∷ []
needs_of path start_line _ = []

-- The program of `generateConflictMission`.
unfoldable pub conflict_program : Bytes → Region → Bytes → Program
conflict_program base_rev r text = record {
  base_rev = base_rev;
  leases = record { scope_type = bytes "file"; scope_value = r.path } ∷ [];
  needs = needs_of r.path r.start_line r.end_line;
  dos = (bytes "Resolve conflict in " ++ (r.path ++ (bytes ": " ++ text))) ∷ [];
  asserts = [];
  return_type = bytes "edit_ir";
}

-- The mission of `generateConflictMission`, with its tag and its smaller budget.
unfoldable pub conflict_mission : IntegratorHost → Mission → Region → Failure → CompileResult
unfolding conflict_program compile_aa
conflict_mission host mission r failure =
    let compiled =
      compile_aa host.now host.drawn_id
        (conflict_program mission.base_rev r (host.failure_text failure)) in
    record compiled {
      mission = record (compiled.mission) {
        goal = bytes "[CONFLICT] " ++ compiled.mission.goal;
        token_budget = pos 4000;
        created_at = host.now;
      };
    }
