-- ===== src/Tests/Provider.antt =====
-- god/provider.go and god/macro_ops.go: the properties at a concrete provider.
use genesis_ssmp.Base.{
  zero, suc, ℕ, ◌≡◌, refl, true, false, Option, none, some, List, [], ◌∷◌, Bytes, bytes, has_prefix,
  pos, ok, err, ◌>>=◌,
}
use genesis_ssmp.God.Missions.{Mission}
use genesis_ssmp.God.Edit.{insert_after_symbol, EditOp, Disk, Host, EditError, apply_edit_ir}
use genesis_ssmp.God.MacroOps.{MacroOp, insert_import, expand_macro, expand_macro_ops, macro_anchor}
use genesis_ssmp.God.MacroOps.Refused.{expand_macro_ops-apply_edit_ir}
use genesis_ssmp.God.Provider.{MissionPack, Reply, ProviderUsage, ProviderHost}

-- Every digest is "00".
abbrev files : Host
files = record { abs_path = λ path. path; hash = λ text. bytes "00"; writable = λ path. true }

abbrev macro : MacroOp
macro = record {
  kind = insert_import;
  old_name = [];
  new_name = [];
  scope_path = [];
  func_name = [];
  param_name = [];
  param_type = [];
  position = pos 0;
  path = bytes "a.go";
  import_spec = bytes "fmt";
  test_func = [];
  case_name = [];
  case_body = [];
  func_sig = [];
  start_line = pos 0;
  end_line = pos 0;
  content = [];
}

abbrev disk : Disk
disk = (bytes "a.go", bytes "import os") ∷ []

abbrev macro_edits : List EditOp
macro_edits =
    record {
      op = insert_after_symbol;
      path = bytes "a.go";
      anchor_hash = bytes "macro-00";
      lines = [];
      content = bytes "fmt";
      symbol = bytes "import";
      template_text = [];
      instances = [];
    }
    ∷ []

macro_edits-expanded : expand_macro_ops files (macro ∷ []) ≡ ok macro_edits
unfolding expand_macro_ops expand_macro macro_anchor ◌>>=◌
macro_edits-expanded = refl

no_digest : (text : Bytes) → has_prefix (files.hash text) (bytes "macro-") ≡ false
unfolding has_prefix
no_digest text = refl

expand_macro_ops-apply_edit_ir_example :
    (e : EditError) × (apply_edit_ir files macro_edits disk ≡ (disk, err (0, e)))
expand_macro_ops-apply_edit_ir_example =
    expand_macro_ops-apply_edit_ir files macro [] macro_edits disk no_digest macro_edits-expanded

abbrev mission : Mission
mission = record {
  mission_id = bytes "m1";
  goal = [];
  base_rev = [];
  scopes = [];
  lease_ids = [];
  tasks = [];
  token_budget = pos 8000;
  created_at = [];
}

abbrev pack : MissionPack
pack = record {
  header = bytes "go";
  mission = mission;
  inline_shards = [];
  pf_endpoint = [];
  budget_meta = record {
    token_budget = pos 8000;
    header_tokens = pos 0;
    mission_tokens = pos 0;
    shard_tokens = pos 0;
    total_tokens = pos 0;
    shards_included = pos 0;
    shards_dropped = pos 0;
  };
  prompt_ref = none;
  phase = [];
}

abbrev macro_reply : Reply
macro_reply = record {
  mission_id = bytes "m1";
  output_type = bytes "macro_ops";
  edit_ir = none;
  macro_ops = some (some (macro ∷ []));
  diff = [];
  symbols_touched = some [];
  files_touched = some (bytes "a.go" ∷ []);
}

abbrev reply : Reply
reply = record macro_reply { output_type = bytes "edit_ir"; edit_ir = some (some macro_edits) }

abbrev only_ok : Bytes → Option Reply
only_ok [] = none
only_ok (c ∷ raw) = some macro_reply

-- The first answer is no JSON, and the second a reply with a macro.
abbrev second_try : ℕ → MissionPack → Option Bytes
second_try zero p = some []
second_try (suc n) p = some (bytes "{}")

abbrev host : ProviderHost
host = record {
  files = files;
  marshal = λ p. some (bytes "pack");
  unmarshal = only_ok;
  error_text = λ raw e. bytes "invalid JSON";
  send = second_try;
  elapsed_ms = 7;
}

abbrev usage : ProviderUsage
usage = record {
  mission_id = bytes "m1";
  request_bytes = 4;
  response_bytes = 2;
  retries = 1;
  duration_ms = 7;
  success = true;
}
