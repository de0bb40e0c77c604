-- ===== src/God/Edit.antt =====
-- god/edit_apply.go, with `EditOp` and `EditIR` of god/provider.go. The strings of `op` are
-- constructors. The disk is a map from absolute paths to contents.
pub mod Lines
pub mod Frame
pub mod Spans
use genesis_ssmp.Base.{
  ℕ, zero, suc, ◌+◌, ◌-◌, Bool, true, false, not, ◌||◌, Option, none, some, List, [], ◌∷◌, ◌++◌,
  ltb, leb, ◌==◌, if◌then◌else◌, length, take, drop, Bytes, bytes, is_empty, same, contains,
  split_on, join, trim_suffix, replace_all, Dict, get, put, del, ℤ, pos, negsuc, pos_part, ltℤ,
  Result, ok, err, ◌>>=◌, ◌>>◌, fail_if,
}

pub data OpKind : Type 0 where
  replace_span delete_span insert_after_symbol add_file insert_before_symbol delete_file : OpKind
  replace_line insert_lines template : OpKind
  unknown_op : Bytes → OpKind

-- An instance of a template: the pairs of the Go map in the order in which the loop meets them.
pub record EditOp : Type 0 where
  pub op : OpKind
  pub path : Bytes
  pub anchor_hash : Bytes
  pub lines : List ℤ
  pub content : Bytes
  pub symbol : Bytes
  pub template_text : Bytes
  pub instances : List (List (Bytes × Bytes))

abbrev pub Disk : Type 0
Disk = Dict Bytes

-- What comes from outside: `filepath.Join(repoRoot, path)`, the hex digest of SHA-256, and the
-- paths at which the operating system lets the program write or remove a file.
pub record Host : Type 0 where
  pub abs_path : Bytes → Bytes
  pub hash : Bytes → Bytes
  pub writable : Bytes → Bool

pub data EditError : Type 0 where
  wrong_line_count invalid_range read_failed past_end anchor_mismatch symbol_not_found : EditError
  no_template no_instances write_failed delete_failed unknown_operation : EditError

abbrev pub newline : ℕ
newline = b'\n'

-- `readFileLines`
unfoldable pub read_file_lines : Disk → Bytes → Result EditError (List Bytes)
read_file_lines disk path = elim (get path disk) [
  | none ↦ err read_failed
  | some data_read ↦ ok (split_on newline (trim_suffix newline data_read))
]

unfoldable pub write_file : Host → Disk → Bytes → Bytes → Result EditError Disk
write_file host disk path text =
    if host.writable path then ok (put path text disk) else err write_failed

-- `writeFileLines`
unfoldable pub write_file_lines : Host → Disk → Bytes → List Bytes → Result EditError Disk
unfolding write_file
write_file_lines host disk path lines =
    write_file host disk path (join newline lines ++ (newline ∷ []))

-- `splitContent`
unfoldable pub split_content : Bytes → List Bytes
split_content [] = []
split_content (c ∷ s) = split_on newline (trim_suffix newline (c ∷ s))

-- A value of `endLine + 3` below zero ends its loop at once.
abbrev pub three_past : ℤ → ℕ
three_past (pos n) = n + 3
three_past (negsuc n) = 2 - n

abbrev pub each_line : List Bytes → Bytes
each_line [] = []
each_line (l ∷ ls) = l ++ (newline ∷ each_line ls)

-- The text that `ComputeAnchorHash` hashes: up to three lines before and after the span.
unfoldable pub anchor_text : List Bytes → ℤ → ℤ → Bytes
anchor_text lines start end =
    each_line (drop (pos_part start - 4) (take (pos_part start - 1) lines))
    ++ each_line (drop (pos_part end) (take (three_past end) lines))

-- `ComputeAnchorHash`
unfoldable pub compute_anchor_hash : Host → List Bytes → ℤ → ℤ → Bytes
unfolding anchor_text
compute_anchor_hash host lines start end = host.hash (anchor_text lines start end)

-- The first line that contains the symbol, from index `i` on.
unfoldable pub find_symbol : Bytes → ℕ → List Bytes → Option ℕ
find_symbol symbol i [] = none
find_symbol symbol i (l ∷ ls) =
    let rest = find_symbol symbol (suc i) ls in if contains l symbol then some i else rest

unfoldable pub symbol_line : Bytes → List Bytes → Result EditError ℕ
unfolding find_symbol
symbol_line symbol lines = elim (find_symbol symbol 0 lines) [
  | none ↦ err symbol_not_found
  | some i ↦ ok i
]

-- `len(op.Lines) != 2`, and the two bounds. A valid bound is not negative.
unfoldable pub span_of : List ℤ → Result EditError (ℕ × ℕ)
span_of (s ∷ e ∷ []) =
    if ltℤ s (pos 1) || ltℤ e s then err invalid_range else ok (pos_part s, pos_part e)
span_of _ = err wrong_line_count

-- `len(op.Lines) != 1`
unfoldable pub line_of : List ℤ → Result EditError ℕ
line_of (n ∷ []) = if ltℤ n (pos 1) then err invalid_range else ok (pos_part n)
line_of _ = err wrong_line_count

unfoldable pub check_anchor : Host → List Bytes → ℕ → ℕ → Bytes → Result EditError (Unit {0})
check_anchor host lines start end expected =
    fail_if (not (same (compute_anchor_hash host lines (pos start) (pos end)) expected))
      anchor_mismatch

-- `applyReplaceSpan`
unfoldable pub apply_replace_span : Host → Disk → Bytes → EditOp → Result EditError Disk
apply_replace_span host disk abs op = do
  (start, end) ← span_of op.lines
  lines ← read_file_lines disk abs
  fail_if (ltb (length lines) end) past_end
  check_anchor host lines start end op.anchor_hash
  write_file_lines host disk abs
      (take (start - 1) lines ++ (split_content op.content ++ drop end lines))

-- `applyDeleteSpan`
unfoldable pub apply_delete_span : Host → Disk → Bytes → EditOp → Result EditError Disk
apply_delete_span host disk abs op = do
  (start, end) ← span_of op.lines
  lines ← read_file_lines disk abs
  fail_if (ltb (length lines) end) past_end
  check_anchor host lines start end op.anchor_hash
  write_file_lines host disk abs (take (start - 1) lines ++ drop end lines)

-- The rest of the three operations that find a line by its symbol.
unfoldable pub insert_at_symbol :
    Host → Disk → Bytes → EditOp → ℕ → List Bytes → Result EditError Disk
insert_at_symbol host disk abs op offset text = do
  lines ← read_file_lines disk abs
  at ← symbol_line op.symbol lines
  check_anchor host lines (at + 1) (at + 1) op.anchor_hash
  write_file_lines host disk abs (take (at + offset) lines ++ (text ++ drop (at + offset) lines))

-- `applyInsertAfterSymbol`
unfoldable pub apply_insert_after_symbol : Host → Disk → Bytes → EditOp → Result EditError Disk
apply_insert_after_symbol host disk abs op =
    insert_at_symbol host disk abs op 1 (split_content op.content)

-- `applyInsertBeforeSymbol`
unfoldable pub apply_insert_before_symbol : Host → Disk → Bytes → EditOp → Result EditError Disk
apply_insert_before_symbol host disk abs op =
    insert_at_symbol host disk abs op 0 (split_content op.content)

-- `applyAddFile`; the directory is made if it can be written.
unfoldable pub apply_add_file : Host → Disk → Bytes → EditOp → Result EditError Disk
apply_add_file host disk abs op = write_file host disk abs op.content

-- `applyDeleteFile`
unfoldable pub apply_delete_file : Host → Disk → Bytes → EditOp → Result EditError Disk
apply_delete_file host disk abs op = elim (get abs disk) [
  | none ↦ err delete_failed
  | some _ ↦ if host.writable abs then ok (del abs disk) else err delete_failed
]

-- `applyReplaceLine`
unfoldable pub apply_replace_line : Host → Disk → Bytes → EditOp → Result EditError Disk
apply_replace_line host disk abs op = do
  n ← line_of op.lines
  lines ← read_file_lines disk abs
  fail_if (ltb (length lines) n) past_end
  check_anchor host lines n n op.anchor_hash
  write_file_lines host disk abs (take (n - 1) lines ++ (split_content op.content ++ drop n lines))

-- `applyInsertLines`
unfoldable pub apply_insert_lines : Host → Disk → Bytes → EditOp → Result EditError Disk
apply_insert_lines host disk abs op = do
  n ← line_of op.lines
  lines ← read_file_lines disk abs
  fail_if (ltb (length lines + 1) n) past_end
  let anchor = if ltb (length lines) n then length lines else n
  check_anchor host lines anchor anchor op.anchor_hash
  write_file_lines host disk abs
      (take (n - 1) lines ++ (split_content op.content ++ drop (n - 1) lines))

unfoldable pub fill : List (Bytes × Bytes) → Bytes → Bytes
fill [] text = text
fill ((key, val) ∷ pairs) text =
    fill pairs (replace_all text (bytes "{{" ++ (key ++ bytes "}}")) val)

-- The template for each instance, one behind the other with a newline between.
unfoldable pub expand : Bytes → List (List (Bytes × Bytes)) → Bytes
unfolding fill
expand text [] = []
expand text (i ∷ []) = fill i text
expand text (i ∷ j ∷ is) = fill i text ++ (newline ∷ expand text (j ∷ is))

abbrev pub no_items : List (List (Bytes × Bytes)) → Bool
no_items [] = true
no_items (_ ∷ _) = false

-- `applyTemplate`
unfoldable pub apply_template : Host → Disk → Bytes → EditOp → Result EditError Disk
unfolding expand
apply_template host disk abs op = do
  fail_if (is_empty op.template_text) no_template
  fail_if (no_items op.instances) no_instances
  insert_at_symbol host disk abs op 1 (split_content (expand op.template_text op.instances))

unfoldable pub apply_op : Host → Disk → EditOp → Result EditError Disk
apply_op host disk op =
    let abs = host.abs_path op.path in
    elim op.op [
      | replace_span ↦ apply_replace_span host disk abs op
      | delete_span ↦ apply_delete_span host disk abs op
      | insert_after_symbol ↦ apply_insert_after_symbol host disk abs op
      | add_file ↦ apply_add_file host disk abs op
      | insert_before_symbol ↦ apply_insert_before_symbol host disk abs op
      | delete_file ↦ apply_delete_file host disk abs op
      | replace_line ↦ apply_replace_line host disk abs op
      | insert_lines ↦ apply_insert_lines host disk abs op
      | template ↦ apply_template host disk abs op
      | unknown_op _ ↦ err unknown_operation
    ]

pub record ApplyResult : Type 0 where
  pub files_modified : List Bytes
  pub files_created : List Bytes
  pub files_deleted : List Bytes
  pub ops_applied : ℕ

-- `appendUnique`
unfoldable pub append_unique : List Bytes → Bytes → List Bytes
append_unique [] v = v ∷ []
append_unique (s ∷ slice) v = if same s v then s ∷ slice else s ∷ append_unique slice v

unfoldable pub note_op : EditOp → ApplyResult → ApplyResult
unfolding append_unique
note_op op r = elim op.op [
  | add_file ↦ record r {
    files_created = append_unique r.files_created op.path;
    ops_applied = suc r.ops_applied;
  }
  | delete_file ↦ record r {
    files_deleted = append_unique r.files_deleted op.path;
    ops_applied = suc r.ops_applied;
  }
  | _ ↦ record r {
    files_modified = append_unique r.files_modified op.path;
    ops_applied = suc r.ops_applied;
  }
]

-- The loop of `ApplyEditIR` at index `i`: the disk as it is left, and the answer. An error says
-- which operation failed.
unfoldable pub apply_ops :
    Host → ℕ → List EditOp → Disk → ApplyResult → Disk × Result (ℕ × EditError) ApplyResult
apply_ops host i [] disk r = (disk, ok r)
apply_ops host i (op ∷ ops) disk r = elim (apply_op host disk op) [
  | err e ↦ (disk, err (i, e))
  | ok disk' ↦ apply_ops host (suc i) ops disk' (note_op op r)
]

abbrev pub no_files : ApplyResult
no_files = record { files_modified = []; files_created = []; files_deleted = []; ops_applied = 0 }

-- `ApplyEditIR`
unfoldable pub apply_edit_ir : Host → List EditOp → Disk → Disk × Result (ℕ × EditError) ApplyResult
unfolding apply_ops
apply_edit_ir host ops disk = apply_ops host 0 ops disk no_files
