-- ===== src/God/Isa/Compile.antt =====
-- god/isa_compiler.go.
use genesis_ssmp.Base.{
  Bool, true, false, List, [], ◌∷◌, ◌++◌, Option, none, some, if◌then◌else◌, Bytes, bytes, ℤ, pos,
  ltℤ,
}
use genesis_ssmp.God.Missions.{Scope, Mission}
use genesis_ssmp.God.AngelAssembly.{Need, symdef, callers, slice, Program}
use genesis_ssmp.God.AngelAssembly.Compile.{ShardRequest, CompileResult, blank_args, compile_aa}
use genesis_ssmp.God.Planner.{is_among}
use genesis_ssmp.God.Isa.{
  IsaNeed, isa_symdef, isa_callers, isa_slice, isa_test, IsaRun, IsaIfFail, IsaProgram,
}

pub record IsaCompileResult : Type 0 where
  pub compiled : CompileResult
  pub mode : Bytes
  pub invariants : List Bytes
  pub runs : List IsaRun
  pub if_fails : List IsaIfFail
  pub ops : List Bytes
  pub labels : List Bytes
  pub prompt_ref : Bytes
  pub halt : Bool

-- The scope that a need asks for; a test needs none.
abbrev pub lease_for : IsaNeed → Option Scope
lease_for (isa_symdef symbol) = some (record { scope_type = bytes "symbol"; scope_value = symbol })
lease_for (isa_callers symbol n) =
    some (record { scope_type = bytes "symbol"; scope_value = symbol })
lease_for (isa_slice path start n) = some (record { scope_type = bytes "file"; scope_value = path })
lease_for (isa_test pattern_text) = none

abbrev pub lease_key : Scope → Bytes
lease_key s = s.scope_type ++ (b':' ∷ s.scope_value)

-- The loop that derives the leases; `seen` holds the keys so far.
unfoldable pub isa_leases : List Bytes → List IsaNeed → List Scope
unfolding is_among
isa_leases seen [] = []
isa_leases seen (need ∷ needs) = elim (lease_for need) [
  | none ↦ isa_leases seen needs
  | some s ↦ elim (is_among (lease_key s) seen) [
    | true ↦ isa_leases seen needs
    | false ↦ s ∷ isa_leases (lease_key s ∷ seen) needs
  ]
]

abbrev pub or_wildcard : List Scope → List Scope
or_wildcard [] = record { scope_type = bytes "file"; scope_value = bytes "*" } ∷ []
or_wildcard (s ∷ ss) = s ∷ ss

-- The needs but for the tests.
unfoldable pub aa_needs : List IsaNeed → List Need
aa_needs [] = []
aa_needs (isa_symdef symbol ∷ needs) = symdef symbol ∷ aa_needs needs
aa_needs (isa_callers symbol n ∷ needs) = callers symbol n ∷ aa_needs needs
aa_needs (isa_slice path start n ∷ needs) = slice path start n ∷ aa_needs needs
aa_needs (isa_test pattern_text ∷ needs) = aa_needs needs

-- The tasks, from the ops and the invariants.
abbrev pub isa_dos : List Bytes → List Bytes → List Bytes
isa_dos (op ∷ ops) invariants = op ∷ ops
isa_dos [] (i ∷ invariants) = i ∷ invariants
isa_dos [] [] = bytes "execute ISA program" ∷ []

-- `lowerISAToAA`, which never returns an error.
unfoldable pub lower_isa : IsaProgram → Program
unfolding isa_leases aa_needs
lower_isa p = record {
  base_rev = p.base_rev;
  leases = or_wildcard (isa_leases [] p.needs);
  needs = aa_needs p.needs;
  dos = isa_dos p.ops p.invariants;
  asserts = p.asserts;
  return_type = bytes "edit_ir";
}

-- The requests for the tests.
unfoldable pub test_requests : Bytes → List IsaNeed → List ShardRequest
test_requests id [] = []
test_requests id (isa_test pattern_text ∷ needs) =
    record { command = bytes "PF_TESTS"; args = record (blank_args id) { symbol = pattern_text } }
    ∷ test_requests id needs
test_requests id (_ ∷ needs) = test_requests id needs

abbrev pub with_token_budget : ℤ → Mission → Mission
with_token_budget budget m = if ltℤ (pos 0) budget then record m { token_budget = budget } else m

-- `CompileISA`, with the identifier that `genID` draws. It never returns an error.
unfoldable pub compile_isa : Bytes → Bytes → IsaProgram → IsaCompileResult
unfolding compile_aa lower_isa test_requests
compile_isa now mission_id p =
    let cr = compile_aa now mission_id (lower_isa p) in
    record {
      compiled = record {
        mission = with_token_budget p.budget cr.mission;
        shard_requests = cr.shard_requests ++ test_requests mission_id p.needs;
      };
      mode = p.mode;
      invariants = p.invariants;
      runs = p.runs;
      if_fails = p.if_fails;
      ops = p.ops;
      labels = p.labels;
      prompt_ref = p.prompt_ref;
      halt = p.halt;
    }
