-- ===== src/God/AngelAssembly/Compile.antt =====
-- god/aa_compiler.go.
use genesis_ssmp.Base.{List, [], ◌∷◌, ◌++◌, if◌then◌else◌, Bytes, bytes, ℤ, pos, ltℤ}
use genesis_ssmp.God.Missions.{Mission}
use genesis_ssmp.God.AngelAssembly.{Need, symdef, callers, slice, Program}

pub record ShardRequestArgs : Type 0 where
  pub mission_id : Bytes
  pub symbol : Bytes
  pub path : Bytes
  pub start_line : ℤ
  pub n : ℤ
  pub top_k : ℤ

pub record ShardRequest : Type 0 where
  pub command : Bytes
  pub args : ShardRequestArgs

pub record CompileResult : Type 0 where
  pub mission : Mission
  pub shard_requests : List ShardRequest

-- `strings.Join(prog.Dos, "; ")`
unfoldable pub join_dos : List Bytes → Bytes
join_dos [] = []
join_dos (d ∷ []) = d
join_dos (d ∷ e ∷ dos) = d ++ (bytes "; " ++ join_dos (e ∷ dos))

abbrev pub blank_args : Bytes → ShardRequestArgs
blank_args mission_id = record {
  mission_id = mission_id;
  symbol = [];
  path = [];
  start_line = pos 0;
  n = pos 0;
  top_k = pos 0;
}

-- One round of the loop of `CompileAA`.
unfoldable pub shard_request : Bytes → Need → ShardRequest
shard_request id (symdef symbol) = record {
  command = bytes "PF_SYMDEF";
  args = record (blank_args id) { symbol = symbol };
}
shard_request id (callers symbol n) = record {
  command = bytes "PF_CALLERS";
  args = record (blank_args id) { symbol = symbol; top_k = if ltℤ (pos 0) n then n else pos 0 };
}
shard_request id (slice path start n) = record {
  command = bytes "PF_SLICE";
  args = record (blank_args id) { path = path; start_line = start; n = n };
}

unfoldable pub shard_requests_of : Bytes → List Need → List ShardRequest
unfolding shard_request
shard_requests_of id [] = []
shard_requests_of id (need ∷ needs) = shard_request id need ∷ shard_requests_of id needs

-- `CompileAA`, with the identifier that `genID` draws. It never returns an error.
unfoldable pub compile_aa : Bytes → Bytes → Program → CompileResult
unfolding join_dos shard_requests_of
compile_aa now mission_id prog = record {
  mission = record {
    mission_id = mission_id;
    goal = join_dos prog.dos;
    base_rev = prog.base_rev;
    scopes = prog.leases;
    lease_ids = [];
    tasks = prog.dos;
    token_budget = pos 8000;
    created_at = now;
  };
  shard_requests = shard_requests_of mission_id prog.needs;
}
