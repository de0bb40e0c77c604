-- ===== src/God/Patch.antt =====
-- god/patch_v1.go: the parser of GENESIS_PATCH_V1 and the conversion to Edit IR.
pub mod Delta
pub mod Markers
pub mod Script
pub mod Converted
use genesis_ssmp.Base.{
  ℕ, suc, Bool, true, false, not, ◌&&◌, ◌||◌, Option, none, some, List, [], ◌∷◌, ◌++◌,
  if◌then◌else◌, length, drop, Bytes, bytes, is_empty, same, has_prefix, split_on, join, trim_space,
  fields, atoi, ℤ, pos, ltℤ, Result, ok, err, ◌>>=◌, ◌>>◌, fail_if,
}
use genesis_ssmp.God.Edit.{
  OpKind, replace_span, add_file, delete_span, insert_after_symbol, EditOp, newline,
}
use genesis_ssmp.God.MacroOps.{edit_op}
use genesis_ssmp.God.Provider.{Reply, is_nil_list, slice_of}

-- The strings of `Op`.
pub data PatchKind : Type 0 where
  patch_replace patch_add patch_delete patch_insert_after : PatchKind
  unknown_patch : Bytes → PatchKind

pub record PatchOp : Type 0 where
  pub op : PatchKind
  pub path : Bytes
  pub lines : List ℤ
  pub symbol : Bytes
  pub content : Bytes

-- A slice that is nil is `none`.
pub record PatchSet : Type 0 where
  pub mission_id : Bytes
  pub symbols : Option (List Bytes)
  pub files : Option (List Bytes)
  pub ops : List PatchOp

pub data OpError : Type 0 where
  malformed_header span_arguments bad_start bad_end symbol_argument unknown_type unterminated :
      OpError

pub data PatchError : Type 0 where
  missing_header missing_mission : PatchError
  at_op : ℕ → OpError → PatchError

abbrev pub drop_empty : List Bytes → List Bytes
drop_empty [] = []
drop_empty (p ∷ ps) =
    let rest = drop_empty ps in if is_empty (trim_space p) then rest else trim_space p ∷ rest

-- `splitCSV`
unfoldable pub split_csv : Bytes → List Bytes
split_csv s = drop_empty (split_on b',' s)

abbrev pub number_or : OpError → Option ℤ → Result OpError ℤ
number_or e none = err e
number_or e (some n) = ok n

-- The lines of `REPLACE` and `DELETE`.
abbrev pub span_arguments_of : List Bytes → Result OpError (List ℤ)
span_arguments_of (s ∷ e ∷ _) = number_or bad_start (atoi s) >>= λ start_line.
    number_or bad_end (atoi e) >>= λ end_line. ok (start_line ∷ end_line ∷ [])
span_arguments_of _ = err span_arguments

abbrev pub patch_op : PatchKind → Bytes → List ℤ → Bytes → PatchOp
patch_op kind path lines symbol = record {
  op = kind;
  path = path;
  lines = lines;
  symbol = symbol;
  content = [];
}

abbrev pub spanned : PatchKind → Bytes → List Bytes → Result OpError PatchOp
spanned kind path rest = span_arguments_of rest >>= λ lines. ok (patch_op kind path lines [])

abbrev pub symbol_op : Bytes → List Bytes → Result OpError PatchOp
symbol_op path [] = err symbol_argument
symbol_op path (w ∷ ws) = ok (patch_op patch_insert_after path [] (join b' ' (w ∷ ws)))

-- The header of an operation, from its fields.
unfoldable pub header_op : List Bytes → Result OpError PatchOp
header_op (_ ∷ op_type ∷ path ∷ rest) =
    if same op_type (bytes "REPLACE")
    then spanned patch_replace path rest
    else if same op_type (bytes "ADD")
    then ok (patch_op patch_add path [] [])
    else if same op_type (bytes "DELETE")
    then spanned patch_delete path rest
    else if same op_type (bytes "INSERT_AFTER")
    then symbol_op path rest
    else err unknown_type
header_op _ = err malformed_header

-- A block that is open: the line of its header, its operation, and the lines collected so far.
pub record OpenBlock : Type 0 where
  pub line : ℕ
  pub op : PatchOp
  pub content_lines : List Bytes

-- A `DELETE` has no content.
abbrev pub closed : OpenBlock → PatchOp
closed b = elim b.op.op [
  | patch_delete ↦ b.op
  | _ ↦ record (b.op) { content = join newline b.content_lines }
]

abbrev pub is_op_line : Bytes → Bool
is_op_line line = has_prefix (trim_space line) (bytes "### ")

abbrev pub is_end_line : Bytes → Bool
is_end_line line = same (trim_space line) (bytes "### END")

abbrev pub at_header : {A : Type 0} → ℕ → Result OpError A → Result PatchError A
at_header n (ok a) = ok a
at_header n (err e) = err (at_op n e)

-- The loop over the operations, with the loop over the lines of each: `n` is the number of the line.
unfoldable pub parse_ops : ℕ → Option OpenBlock → List Bytes → Result PatchError (List PatchOp)
unfolding header_op
parse_ops n none [] = ok []
parse_ops n (some b) [] = err (at_op b.line unterminated)
parse_ops n none (line ∷ lines) = elim (is_op_line line) [
  | true ↦ at_header n (header_op (fields (trim_space line))) >>= λ op.
      parse_ops (suc n) (some (record { line = n; op = op; content_lines = [] })) lines
  | false ↦ parse_ops (suc n) none lines
]
parse_ops n (some b) (line ∷ lines) = elim (is_end_line line) [
  | true ↦ parse_ops (suc n) none lines >>= λ ops. ok (closed b ∷ ops)
  | false ↦
      parse_ops (suc n) (some (record b { content_lines = b.content_lines ++ line ∷ [] })) lines
]

-- One line of metadata.
unfoldable pub meta_line : Bytes → PatchSet → PatchSet
unfolding split_csv
meta_line line ps =
    if has_prefix line (bytes "MISSION:")
    then record ps { mission_id = trim_space (drop 8 line) }
    else if has_prefix line (bytes "SYMBOLS:")
    then record ps { symbols = some (split_csv (drop 8 line)) }
    else if has_prefix line (bytes "FILES:")
    then record ps { files = some (split_csv (drop 6 line)) }
    else ps

-- The loop over the metadata, up to the first operation: the set, and the rest with its line.
unfoldable pub parse_meta : ℕ → List Bytes → PatchSet → PatchSet × ℕ × List Bytes
unfolding meta_line
parse_meta n [] ps = (ps, n, [])
parse_meta n (line ∷ lines) ps = elim (is_op_line line) [
  | true ↦ (ps, n, line ∷ lines)
  | false ↦ parse_meta (suc n) lines (meta_line (trim_space line) ps)
]

abbrev pub with_ops : PatchSet × ℕ × List Bytes → Result PatchError PatchSet
with_ops (ps, n, lines) =
    fail_if (is_empty ps.mission_id) missing_mission >> parse_ops n none lines >>= λ ops.
    ok (record ps { ops = ops })

abbrev pub empty_set : PatchSet
empty_set = record { mission_id = []; symbols = none; files = none; ops = [] }

-- `ParsePatchV1`, after the split: leading blank lines, the header, the metadata, the operations.
unfoldable pub parse_from : ℕ → List Bytes → Result PatchError PatchSet
unfolding parse_ops parse_meta
parse_from n [] = err missing_header
parse_from n (line ∷ lines) =
    let rest = parse_from (suc n) lines in
    if is_empty (trim_space line)
    then rest
    else if same (trim_space line) (bytes "GENESIS_PATCH_V1")
    then with_ops (parse_meta (suc n) lines empty_set)
    else err missing_header

-- `ParsePatchV1`
unfoldable pub parse_patch : Bytes → Result PatchError PatchSet
unfolding parse_from
parse_patch raw = parse_from 1 (split_on newline raw)

pub data PatchFault : Type 0 where
  no_mission_id no_symbols no_files no_ops : PatchFault
  no_path span_length span_range no_symbol unknown_op_type : ℕ → PatchFault

abbrev pub is_no_op : List PatchOp → Bool
is_no_op [] = true
is_no_op (_ ∷ _) = false

abbrev pub validate_span : ℕ → List ℤ → Result PatchFault (Unit {0})
validate_span i (s ∷ e ∷ []) = fail_if (ltℤ s (pos 1) || ltℤ e s) (span_range i)
validate_span i _ = err (span_length i)

unfoldable pub validate_patch_op : ℕ → PatchOp → Result PatchFault (Unit {0})
validate_patch_op i op = fail_if (is_empty op.path) (no_path i) >> elim op.op [
  | patch_replace ↦ validate_span i op.lines
  | patch_add ↦ ok tt
  | patch_delete ↦ validate_span i op.lines
  | patch_insert_after ↦ fail_if (is_empty op.symbol) (no_symbol i)
  | unknown_patch _ ↦ err (unknown_op_type i)
]

unfoldable pub validate_patch_ops : ℕ → List PatchOp → Result PatchFault (Unit {0})
unfolding validate_patch_op
validate_patch_ops i [] = ok tt
validate_patch_ops i (op ∷ ops) = validate_patch_op i op >> validate_patch_ops (suc i) ops

-- `ValidatePatchV1`
unfoldable pub validate_patch : PatchSet → Result PatchFault (Unit {0})
unfolding validate_patch_ops
validate_patch ps =
    fail_if (is_empty ps.mission_id) no_mission_id
    >> fail_if (is_nil_list ps.symbols) no_symbols
    >> fail_if (is_nil_list ps.files) no_files
    >> fail_if (is_no_op ps.ops) no_ops
    >> validate_patch_ops 0 ps.ops

abbrev pub placeholder : Bytes
placeholder = bytes "placeholder"

-- One operation of `PatchV1ToAngelResponse`; the last case is not reached after the validation.
unfoldable pub edit_op_of : PatchOp → Option EditOp
edit_op_of op = elim op.op [
  | patch_replace ↦ some (edit_op replace_span op.path placeholder op.lines op.content [])
  | patch_add ↦ some (edit_op add_file op.path placeholder [] op.content [])
  | patch_delete ↦ some (edit_op delete_span op.path placeholder op.lines [] [])
  | patch_insert_after ↦
      some (edit_op insert_after_symbol op.path placeholder [] op.content op.symbol)
  | unknown_patch _ ↦ none
]

abbrev pub cons_op : Option EditOp → Option (List EditOp) → Option (List EditOp)
cons_op (some op) (some ops) = some (op ∷ ops)
cons_op _ _ = none

unfoldable pub edit_ops_from : List PatchOp → Option (List EditOp)
unfolding edit_op_of
edit_ops_from [] = some []
edit_ops_from (op ∷ ops) = cons_op (edit_op_of op) (edit_ops_from ops)

pub data ConversionError : Type 0 where
  invalid_patch : PatchFault → ConversionError
  unknown_patch_op : ConversionError

abbrev pub reply_with : PatchSet → List EditOp → Reply
reply_with ps ops = record {
  mission_id = ps.mission_id;
  output_type = bytes "edit_ir";
  edit_ir = some (slice_of ops);
  macro_ops = none;
  diff = [];
  symbols_touched = ps.symbols;
  files_touched = ps.files;
}

abbrev pub reply_of : PatchSet → Option (List EditOp) → Result ConversionError Reply
reply_of ps none = err unknown_patch_op
reply_of ps (some ops) = ok (reply_with ps ops)

-- `PatchV1ToAngelResponse`
unfoldable pub patch_response : PatchSet → Result ConversionError Reply
unfolding validate_patch edit_ops_from
patch_response ps = elim (validate_patch ps) [
  | err e ↦ err (invalid_patch e)
  | ok _ ↦ reply_of ps (edit_ops_from ps.ops)
]
