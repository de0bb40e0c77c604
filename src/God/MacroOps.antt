-- ===== src/God/MacroOps.antt =====
-- god/macro_ops.go: the macro operations of an agent, and the Edit IR that they become.
pub mod Refused
use genesis_ssmp.Base.{
  ℕ, suc, Bool, true, false, List, [], ◌∷◌, ◌++◌, if◌then◌else◌, take, Bytes, bytes, is_empty, join,
  itoa, ℤ, pos, negsuc, ltℤ, Result, ok, err, ◌>>=◌, ◌>>◌, fail_if,
}
use genesis_ssmp.God.Edit.{OpKind, replace_span, insert_after_symbol, EditOp, Host}

pub data MacroOpKind : Type 0 where
  rename_symbol add_param insert_import add_test_case add_function_stub macro_span : MacroOpKind
  unknown_macro : Bytes → MacroOpKind

pub record MacroOp : Type 0 where
  pub kind : MacroOpKind
  pub old_name : Bytes
  pub new_name : Bytes
  pub scope_path : Bytes
  pub func_name : Bytes
  pub param_name : Bytes
  pub param_type : Bytes
  pub position : ℤ
  pub path : Bytes
  pub import_spec : Bytes
  pub test_func : Bytes
  pub case_name : Bytes
  pub case_body : Bytes
  pub func_sig : Bytes
  pub start_line : ℤ
  pub end_line : ℤ
  pub content : Bytes

pub data MacroError : Type 0 where
  unknown_kind old_name_required new_name_required func_name_required : MacroError
  param_name_required param_type_required path_required import_spec_required : MacroError
  test_func_required case_name_required case_body_required func_sig_required : MacroError
  start_line_required end_line_required : MacroError

-- `macroAnchor`; `host.hash` is the hex digest of SHA-256, of which the first 16 bytes are taken.
unfoldable pub macro_anchor : Host → List Bytes → Bytes
macro_anchor host parts = bytes "macro-" ++ take 32 (host.hash (bytes "macro:" ++ join b':' parts))

-- `%d`
abbrev pub decimal : ℤ → Bytes
decimal (pos n) = itoa n
decimal (negsuc n) = b'-' ∷ itoa (suc n)

-- `"*"` for a path that is missing.
abbrev pub or_star : Bytes → Bytes
or_star [] = bytes "*"
or_star (c ∷ path) = c ∷ path

abbrev pub edit_op : OpKind → Bytes → Bytes → List ℤ → Bytes → Bytes → EditOp
edit_op op path anchor_hash lines content symbol = record {
  op = op;
  path = path;
  anchor_hash = anchor_hash;
  lines = lines;
  content = content;
  symbol = symbol;
  template_text = [];
  instances = [];
}

-- `expandMacro`, with the six functions that it calls; each makes one operation.
unfoldable pub expand_macro : Host → MacroOp → Result MacroError (List EditOp)
unfolding macro_anchor
expand_macro host m = elim m.kind [
  | rename_symbol ↦ ok (
      edit_op replace_span (or_star m.scope_path)
        (macro_anchor host (bytes "rename" ∷ m.old_name ∷ m.new_name ∷ [])) [] m.new_name m.old_name
      ∷ [])
  | add_param ↦ ok (
      edit_op insert_after_symbol (or_star m.path)
        (macro_anchor host (bytes "add_param" ∷ m.func_name ∷ m.param_name ∷ [])) []
        (m.param_name ++ (b' ' ∷ m.param_type)) m.func_name
      ∷ [])
  | insert_import ↦ ok (
      edit_op insert_after_symbol m.path
        (macro_anchor host (bytes "insert_import" ∷ m.path ∷ m.import_spec ∷ [])) [] m.import_spec
        (bytes "import")
      ∷ [])
  | add_test_case ↦ ok (
      edit_op insert_after_symbol (or_star m.path)
        (macro_anchor host (bytes "add_test_case" ∷ m.test_func ∷ m.case_name ∷ [])) [] m.case_body
        m.test_func
      ∷ [])
  | add_function_stub ↦ ok (
      edit_op insert_after_symbol m.path
        (macro_anchor host (bytes "add_func_stub" ∷ m.path ∷ m.func_sig ∷ [])) [] m.func_sig []
      ∷ [])
  | macro_span ↦ ok (
      edit_op replace_span m.path
        (macro_anchor host (
          bytes "replace_span"
          ∷ m.path
          ∷ (decimal m.start_line ++ (b'-' ∷ decimal m.end_line))
          ∷ []))
        (m.start_line ∷ m.end_line ∷ []) m.content []
      ∷ [])
  | unknown_macro _ ↦ err unknown_kind
]

-- `ExpandMacroOps`
unfoldable pub expand_macro_ops : Host → List MacroOp → Result MacroError (List EditOp)
unfolding expand_macro
expand_macro_ops host [] = ok []
expand_macro_ops host (m ∷ ms) =
    expand_macro host m >>= λ ops. expand_macro_ops host ms >>= λ rest. ok (ops ++ rest)

-- `ValidateMacroOp`
unfoldable pub validate_macro_op : MacroOp → Result MacroError (Unit {0})
validate_macro_op m = elim m.kind [
  | rename_symbol ↦
      fail_if (is_empty m.old_name) old_name_required
      >> fail_if (is_empty m.new_name) new_name_required
  | add_param ↦
      fail_if (is_empty m.func_name) func_name_required
      >> fail_if (is_empty m.param_name) param_name_required
      >> fail_if (is_empty m.param_type) param_type_required
  | insert_import ↦
      fail_if (is_empty m.path) path_required
      >> fail_if (is_empty m.import_spec) import_spec_required
  | add_test_case ↦
      fail_if (is_empty m.test_func) test_func_required
      >> fail_if (is_empty m.case_name) case_name_required
      >> fail_if (is_empty m.case_body) case_body_required
  | add_function_stub ↦
      fail_if (is_empty m.path) path_required >> fail_if (is_empty m.func_sig) func_sig_required
  | macro_span ↦
      fail_if (is_empty m.path) path_required
      >> fail_if (ltℤ m.start_line (pos 1)) start_line_required
      >> fail_if (ltℤ m.end_line m.start_line) end_line_required
  | unknown_macro _ ↦ err unknown_kind
]
