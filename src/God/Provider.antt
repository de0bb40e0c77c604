-- ===== src/God/Provider.antt =====
-- god/provider.go: the adapter of a provider, its checks and its one retry, with the mission pack of
-- god/prompt_compiler.go.
pub mod Accepted
use genesis_ssmp.Base.{
  ℕ, zero, suc, Bool, true, false, not, ◌&&◌, ◌||◌, Option, none, some, List, [], ◌∷◌, ◌++◌, ltb,
  if◌then◌else◌, length, take, Bytes, bytes, is_empty, same, ℤ, Result, ok, err, ◌>>=◌, ◌>>◌,
  fail_if,
}
use genesis_ssmp.God.Missions.{Mission}
use genesis_ssmp.God.Edit.{
  OpKind, add_file, delete_file, template, unknown_op, EditOp, Host, no_items,
}
use genesis_ssmp.God.MacroOps.{MacroOp, MacroError, expand_macro_ops, validate_macro_op}

-- `Meta` is its JSON text.
pub record PackedShard : Type 0 where
  pub kind : Bytes
  pub blob_id : Bytes
  pub content : Bytes
  pub meta : Bytes

pub record BudgetMeta : Type 0 where
  pub token_budget : ℤ
  pub header_tokens : ℤ
  pub mission_tokens : ℤ
  pub shard_tokens : ℤ
  pub total_tokens : ℤ
  pub shards_included : ℤ
  pub shards_dropped : ℤ

pub record PromptRef : Type 0 where
  pub prompt_id : Bytes
  pub pinned_sections : List ℤ
  pub recommended_by_role : List (Bytes × List ℤ)
  pub total_sections : ℤ
  pub total_tokens : ℤ
  pub inlined_tokens : ℤ

pub record MissionPack : Type 0 where
  pub header : Bytes
  pub mission : Mission
  pub inline_shards : List PackedShard
  pub pf_endpoint : Bytes
  pub budget_meta : BudgetMeta
  pub prompt_ref : Option PromptRef
  pub phase : Bytes

-- `AngelResponse` as it is decoded: a pointer or a slice that is nil is `none`.
pub record Reply : Type 0 where
  pub mission_id : Bytes
  pub output_type : Bytes
  pub edit_ir : Option (Option (List EditOp))
  pub macro_ops : Option (Option (List MacroOp))
  pub diff : Bytes
  pub symbols_touched : Option (List Bytes)
  pub files_touched : Option (List Bytes)

pub record ProviderUsage : Type 0 where
  pub mission_id : Bytes
  pub request_bytes : ℕ
  pub response_bytes : ℕ
  pub retries : ℕ
  pub duration_ms : ℕ
  pub success : Bool

pub data ReplyError : Type 0 where
  invalid_json no_mission_id other_mission no_edit_ir nil_ops no_macro_ops nil_macros : ReplyError
  empty_diff invalid_output_type nil_symbols nil_files : ReplyError
  invalid_op path_missing anchor_missing template_missing instances_missing : ReplyError
  bad_macro : MacroError → ReplyError

-- `validateEditOp`
unfoldable pub validate_edit_op : EditOp → Result ReplyError (Unit {0})
validate_edit_op op =
    fail_if (elim op.op [ unknown_op _ ↦ true | _ ↦ false ]) invalid_op
    >> fail_if (is_empty op.path) path_missing
    >> fail_if
        (is_empty op.anchor_hash
          && elim op.op [ add_file ↦ false | delete_file ↦ false | _ ↦ true ])
        anchor_missing
    >> elim op.op [
      | template ↦
          fail_if (is_empty op.template_text) template_missing
          >> fail_if (no_items op.instances) instances_missing
      | _ ↦ ok tt
    ]

unfoldable pub validate_edit_ops : List EditOp → Result ReplyError (Unit {0})
unfolding validate_edit_op
validate_edit_ops [] = ok tt
validate_edit_ops (op ∷ ops) = validate_edit_op op >> validate_edit_ops ops

abbrev pub as_reply_error : Result MacroError (Unit {0}) → Result ReplyError (Unit {0})
as_reply_error (ok t) = ok t
as_reply_error (err e) = err (bad_macro e)

unfoldable pub validate_macro_ops : List MacroOp → Result ReplyError (Unit {0})
unfolding validate_macro_op
validate_macro_ops [] = ok tt
validate_macro_ops (m ∷ ms) = as_reply_error (validate_macro_op m) >> validate_macro_ops ms

abbrev pub edit_ir_valid : Option (Option (List EditOp)) → Result ReplyError (Unit {0})
edit_ir_valid none = err no_edit_ir
edit_ir_valid (some none) = err nil_ops
edit_ir_valid (some (some ops)) = validate_edit_ops ops

abbrev pub macro_ops_valid : Option (Option (List MacroOp)) → Result ReplyError (Unit {0})
macro_ops_valid none = err no_macro_ops
macro_ops_valid (some none) = err nil_macros
macro_ops_valid (some (some ms)) = validate_macro_ops ms

abbrev pub is_nil_list : Option (List Bytes) → Bool
is_nil_list none = true
is_nil_list (some _) = false

-- The switch on the output type.
unfoldable pub validate_output : Reply → Result ReplyError (Unit {0})
unfolding validate_edit_ops validate_macro_ops
validate_output r =
    if same r.output_type (bytes "edit_ir")
    then edit_ir_valid r.edit_ir
    else if same r.output_type (bytes "macro_ops")
    then macro_ops_valid r.macro_ops
    else if same r.output_type (bytes "diff_fallback")
    then fail_if (is_empty r.diff) empty_diff
    else err invalid_output_type

-- `validateAngelResponse`
unfoldable pub validate_reply : Bytes → Reply → Result ReplyError (Unit {0})
unfolding validate_output
validate_reply expected_id r =
    fail_if (is_empty r.mission_id) no_mission_id
    >> fail_if (not (same r.mission_id expected_id)) other_mission
    >> validate_output r
    >> fail_if (is_nil_list r.symbols_touched) nil_symbols
    >> fail_if (is_nil_list r.files_touched) nil_files

-- What comes from outside: SHA-256, the two directions of the JSON codec, the wording of the error of an answer, the
-- provider's answer to each attempt, and the time that the call took.
pub record ProviderHost : Type 0 where
  pub files : Host
  pub marshal : MissionPack → Option Bytes
  pub unmarshal : Bytes → Option Reply
  pub error_text : Bytes → ReplyError → Bytes
  pub send : ℕ → MissionPack → Option Bytes
  pub elapsed_ms : ℕ

-- `parseAngelResponse` and `validateAngelResponse`
unfoldable pub read_reply : ProviderHost → Bytes → Bytes → Result ReplyError Reply
unfolding validate_reply
read_reply host expected_id raw = elim (host.unmarshal raw) [
  | none ↦ err invalid_json
  | some r ↦ validate_reply expected_id r >> ok r
]

abbrev pub snippet_of : Bytes → Bytes
snippet_of raw = if ltb 512 (length raw) then take 512 raw ++ bytes "\n... [truncated]" else raw

-- `buildRepairPack`
unfoldable pub build_repair_pack : MissionPack → Bytes → Bytes → MissionPack
build_repair_pack original raw error_text = record {
  header =
      original.header
      ++ (bytes "\n\n--- REPAIR REQUEST ---\nYour previous response failed validation.\nError: "
          ++ (error_text
              ++ (bytes "\nResponse snippet:\n"
                  ++ (snippet_of raw
                      ++ (bytes
                            "\nPlease return a corrected response matching the required JSON schema.\nRequired: {\"mission_id\": \"...\", \"output_type\": \"edit_ir\"|\"macro_ops\"|\"diff_fallback\", "
                          ++ bytes
                              "\"edit_ir\": {\"ops\": [...]}, \"manifest\": {\"symbols_touched\": [...], \"files_touched\": [...]}}")))));
  mission = original.mission;
  inline_shards = original.inline_shards;
  pf_endpoint = original.pf_endpoint;
  budget_meta = original.budget_meta;
  prompt_ref = none;
  phase = [];
}

pub data ProviderError : Type 0 where
  marshal_failed send_failed : ProviderError
  expansion_failed : MacroError → ProviderError
  validation_failed : ReplyError → ProviderError

abbrev pub Executed : Type 0
Executed = ProviderUsage × Result ProviderError Reply

-- The slice that `append` leaves nil when nothing is appended.
abbrev pub slice_of : List EditOp → Option (List EditOp)
slice_of [] = none
slice_of (op ∷ ops) = some (op ∷ ops)

abbrev pub macros_of : Option (Option (List MacroOp)) → List MacroOp
macros_of (some (some ms)) = ms
macros_of _ = []

abbrev pub is_given : Option (Option (List MacroOp)) → Bool
is_given none = false
is_given (some _) = true

-- A valid reply, with its macros expanded.
unfoldable pub expanded : ProviderHost → Reply → Result ProviderError Reply
unfolding expand_macro_ops
expanded host r =
    if same r.output_type (bytes "macro_ops") && is_given r.macro_ops
    then elim (expand_macro_ops host.files (macros_of r.macro_ops)) [
      | err e ↦ err (expansion_failed e)
      | ok ops ↦ ok (record r { edit_ir = some (slice_of ops); output_type = bytes "edit_ir" })
    ]
    else ok r

-- The usage and the answer at the end: `Success` is set where there is no error.
abbrev pub finished : ProviderHost → ProviderUsage → Result ProviderError Reply → Executed
finished host usage (ok r) = (record usage { duration_ms = host.elapsed_ms; success = true }, ok r)
finished host usage (err e) = (record usage { duration_ms = host.elapsed_ms }, err e)

-- What follows an invalid answer.
abbrev pub Retry : Type 0
Retry = Bytes → ReplyError → ProviderUsage → Executed

-- One round of the loop, from the check of the answer on.
abbrev pub on_reply :
    ProviderHost → ProviderUsage → Retry → Bytes → Result ReplyError Reply → Executed
on_reply host usage on_invalid raw (ok r) = finished host usage (expanded host r)
on_reply host usage on_invalid raw (err e) = on_invalid raw e usage

-- One round of the loop, from the answer on.
unfoldable pub on_answer : ProviderHost → Bytes → ProviderUsage → Retry → Option Bytes → Executed
unfolding read_reply expanded
on_answer host expected_id usage on_invalid none = finished host usage (err send_failed)
on_answer host expected_id usage on_invalid (some raw) =
    on_reply host (record usage { response_bytes = length raw }) on_invalid raw
      (read_reply host expected_id raw)

abbrev pub give_up : ProviderHost → Retry
give_up host raw e usage = finished host usage (err (validation_failed e))

-- The loop of `Execute`, with the number of retries that are left.
unfoldable pub attempts : ProviderHost → ℕ → ℕ → MissionPack → ProviderUsage → Executed
unfolding on_answer build_repair_pack
attempts host zero attempt pack usage =
    on_answer host pack.mission.mission_id usage (give_up host) (host.send attempt pack)
attempts host (suc left) attempt pack usage =
    on_answer host pack.mission.mission_id usage
      (λ raw e u.
        attempts host left (suc attempt) (build_repair_pack pack raw (host.error_text raw e))
          (record u { retries = suc u.retries }))
      (host.send attempt pack)

abbrev pub new_usage : Bytes → ℕ → ProviderUsage
new_usage mission_id request_bytes = record {
  mission_id = mission_id;
  request_bytes = request_bytes;
  response_bytes = 0;
  retries = 0;
  duration_ms = 0;
  success = false;
}

abbrev pub with_usage : Executed → Option ProviderUsage × Result ProviderError Reply
with_usage (usage, r) = (some usage, r)

-- `Execute`; `none` is the usage of a pack that cannot be marshalled.
unfoldable pub execute :
    ProviderHost → ℕ → MissionPack → Option ProviderUsage × Result ProviderError Reply
unfolding attempts
execute host max_retries pack = elim (host.marshal pack) [
  | none ↦ (none, err marshal_failed)
  | some json ↦
      with_usage
        (attempts host max_retries 0 pack (new_usage pack.mission.mission_id (length json)))
]
