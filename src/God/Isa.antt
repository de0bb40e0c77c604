-- ===== src/God/Isa.antt =====
-- god/isa_parser.go: the parser of Genesis ISA.
pub mod Lines
pub mod Compile
pub mod Parsed
pub mod Runnable
use genesis_ssmp.Base.{
  ℕ, Bool, List, [], ◌∷◌, if◌then◌else◌, Bytes, bytes, same, ℤ, pos, Result, ok, err, ◌>>=◌,
}
use genesis_ssmp.God.AngelAssembly.{atoi_where, is_not_positive, is_negative}

-- The kind is a constructor, with the fields that it uses; an `isa_callers` without a count has 0.
pub data IsaNeed : Type 0 where
  isa_symdef : Bytes → IsaNeed
  isa_callers : Bytes → ℤ → IsaNeed
  isa_slice : Bytes → ℤ → ℤ → IsaNeed
  isa_test : Bytes → IsaNeed

pub data IsaRun : Type 0 where
  run_test : Bytes → IsaRun
  run_lint run_typecheck : IsaRun

pub data IsaIfFail : Type 0 where
  retry : ℤ → IsaIfFail
  escalate halt_on_fail : IsaIfFail

pub record IsaProgram : Type 0 where
  pub version : ℤ
  pub base_rev : Bytes
  pub prompt_ref : Bytes
  pub mode : Bytes
  pub budget : ℤ
  pub invariants : List Bytes
  pub needs : List IsaNeed
  pub ops : List Bytes
  pub runs : List IsaRun
  pub asserts : List Bytes
  pub if_fails : List IsaIfFail
  pub labels : List Bytes
  pub halt : Bool

pub data IsaMessage : Type 0 where
  version_value version_twice version_number version_unsupported : IsaMessage
  base_rev_value base_rev_twice prompt_ref_value prompt_ref_twice : IsaMessage
  mode_value mode_twice mode_unknown budget_value budget_twice budget_number : IsaMessage
  invariant_value need_arguments op_value run_arguments assert_condition : IsaMessage
  if_fail_action label_name unknown_directive missing_version missing_base_rev : IsaMessage
  symdef_arguments callers_arguments callers_count slice_arguments slice_start : IsaMessage
  slice_count test_arguments unknown_need run_test_arguments unknown_run : IsaMessage
  retry_arguments retry_count unknown_action : IsaMessage
  -- An index that is out of range, which panics.
  no_isa_fields : IsaMessage

pub record IsaParseError : Type 0 where
  pub line : ℕ
  pub message : IsaMessage

-- What the loop of `ParseISA` changes.
pub record IsaParsing : Type 0 where
  pub program : IsaProgram
  pub versions : ℕ
  pub base_revs : ℕ
  pub prompt_refs : ℕ
  pub modes : ℕ
  pub budgets : ℕ

abbrev pub isa_need_symdef : List Bytes → Result IsaMessage IsaNeed
isa_need_symdef (symbol ∷ []) = ok (isa_symdef symbol)
isa_need_symdef _ = err symdef_arguments

abbrev pub isa_need_callers : List Bytes → Result IsaMessage IsaNeed
isa_need_callers (symbol ∷ []) = ok (isa_callers symbol (pos 0))
isa_need_callers (symbol ∷ top_k ∷ []) =
    atoi_where is_not_positive callers_count top_k >>= λ n. ok (isa_callers symbol n)
isa_need_callers _ = err callers_arguments

abbrev pub isa_need_slice : List Bytes → Result IsaMessage IsaNeed
isa_need_slice (path ∷ start_line ∷ line_count ∷ []) =
    atoi_where is_negative slice_start start_line >>= λ start.
    atoi_where is_not_positive slice_count line_count >>= λ n. ok (isa_slice path start n)
isa_need_slice _ = err slice_arguments

abbrev pub isa_need_test : List Bytes → Result IsaMessage IsaNeed
isa_need_test (pattern_text ∷ []) = ok (isa_test pattern_text)
isa_need_test _ = err test_arguments

-- `parseISANeed`, on the fields.
unfoldable pub parse_isa_need : List Bytes → Result IsaMessage IsaNeed
parse_isa_need [] = err no_isa_fields
parse_isa_need (kind ∷ args) =
    if same kind (bytes "symdef")
    then isa_need_symdef args
    else if same kind (bytes "callers")
    then isa_need_callers args
    else if same kind (bytes "slice")
    then isa_need_slice args
    else if same kind (bytes "test")
    then isa_need_test args
    else err unknown_need

abbrev pub isa_run_test : List Bytes → Result IsaMessage IsaRun
isa_run_test (pattern_text ∷ []) = ok (run_test pattern_text)
isa_run_test _ = err run_test_arguments

-- `parseISARun`, on the fields.
unfoldable pub parse_isa_run : List Bytes → Result IsaMessage IsaRun
parse_isa_run [] = err no_isa_fields
parse_isa_run (kind ∷ args) =
    if same kind (bytes "test")
    then isa_run_test args
    else if same kind (bytes "lint")
    then ok run_lint
    else if same kind (bytes "typecheck")
    then ok run_typecheck
    else err unknown_run

abbrev pub isa_retry : List Bytes → Result IsaMessage IsaIfFail
isa_retry (count ∷ []) = atoi_where is_not_positive retry_count count >>= λ n. ok (retry n)
isa_retry _ = err retry_arguments

-- `parseISAIfFail`, on the fields.
unfoldable pub parse_isa_if_fail : List Bytes → Result IsaMessage IsaIfFail
parse_isa_if_fail [] = err no_isa_fields
parse_isa_if_fail (action ∷ args) =
    if same action (bytes "RETRY")
    then isa_retry args
    else if same action (bytes "ESCALATE")
    then ok escalate
    else if same action (bytes "HALT")
    then ok halt_on_fail
    else err unknown_action
