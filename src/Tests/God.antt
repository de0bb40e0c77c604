-- ===== src/Tests/God.antt =====
-- god/: the properties at concrete inputs.
use genesis_ssmp.Base.{
  ◌≤◌, ◌≡◌, ◌≢◌, refl, inl, inr, true, List, [], ◌∷◌, ◌++◌, arith, length, Bytes, bytes, get, put,
  same, split_on, join, trim_suffix, pos, ok, ◌>>=◌,
}
use genesis_ssmp.God.Diff.{compute_diff}
use genesis_ssmp.God.Diff.Sides.{old_side, new_side, compute_diff-Sides}
use genesis_ssmp.God.Diff.Longest.{kept, compute_diff-longest}
use genesis_ssmp.God.Edit.{
  EditOp, replace_span, delete_file, Disk, Host, split_content, apply_op, apply_edit_ir,
  apply_replace_span, span_of, read_file_lines, check_anchor, compute_anchor_hash, write_file_lines,
}
use genesis_ssmp.God.Edit.Frame.{Outcome, apply_edit_ir-Outcome, apply_edit_ir-frame}
use genesis_ssmp.God.Edit.Spans.{SpanResult, apply_op-SpanResult}

abbrev old_lines : List Bytes
old_lines = bytes "a" ∷ bytes "b" ∷ bytes "c" ∷ []

abbrev new_lines : List Bytes
new_lines = bytes "a" ∷ bytes "x" ∷ bytes "c" ∷ []

compute_diff-Sides_example :
    (old_side (compute_diff old_lines new_lines) ≡ old_lines)
    × (new_side (compute_diff old_lines new_lines) ≡ new_lines)
compute_diff-Sides_example = compute_diff-Sides old_lines new_lines

compute_diff-longest_example :
    length (bytes "a" ∷ bytes "c" ∷ []) ≤ kept (compute_diff old_lines new_lines)
compute_diff-longest_example =
    compute_diff-longest old_lines new_lines (bytes "a" ∷ bytes "c" ∷ [])
      (inr (bytes "c" ∷ [], refl, inl (inr ([], refl, refl))))
      (inr (bytes "c" ∷ [], refl, inl (inr ([], refl, refl))))

-- The root is "r/", the hash of a text is the text, and every path can be written.
abbrev host : Host
host = record { abs_path = λ p. bytes "r/" ++ p; hash = λ t. t; writable = λ _. true }

abbrev text_file : Bytes
text_file = bytes "a\nb\nc\n"

abbrev disk : Disk
disk = (bytes "r/f", text_file) ∷ (bytes "r/g", bytes "z\n") ∷ []

abbrev replace_b : EditOp
replace_b = record {
  op = replace_span;
  path = bytes "f";
  anchor_hash = bytes "a\nc\n";
  lines = pos 2 ∷ pos 2 ∷ [];
  content = bytes "x\n";
  symbol = [];
  template_text = [];
  instances = [];
}

abbrev delete_missing : EditOp
delete_missing = record replace_b { op = delete_file; path = bytes "h" }

abbrev edited : Disk
edited = (bytes "r/f", bytes "a\nx\nc\n") ∷ (bytes "r/g", bytes "z\n") ∷ []

replace_b_run : apply_op host disk replace_b ≡ ok edited
unfolding apply_op apply_replace_span span_of read_file_lines check_anchor compute_anchor_hash
    write_file_lines split_content get put same split_on join trim_suffix ◌>>=◌
replace_b_run = refl

apply_op-SpanResult_example : SpanResult host replace_b (split_content (bytes "x\n")) disk edited
apply_op-SpanResult_example =
    apply_op-SpanResult host replace_b disk edited (split_content (bytes "x\n")) refl replace_b_run

apply_edit_ir-Outcome_example :
    Outcome host 0 0
      (replace_b ∷ delete_missing ∷ [])
      disk
      (apply_edit_ir host (replace_b ∷ delete_missing ∷ []) disk).0
      (apply_edit_ir host (replace_b ∷ delete_missing ∷ []) disk).1
apply_edit_ir-Outcome_example = apply_edit_ir-Outcome host (replace_b ∷ delete_missing ∷ []) disk

not_g : bytes "r/g" ≢ bytes "r/f"
not_g e = ground arith

apply_edit_ir-frame_example :
    get (bytes "r/g") (apply_edit_ir host (replace_b ∷ []) disk).0 ≡ get (bytes "r/g") disk
apply_edit_ir-frame_example =
    apply_edit_ir-frame host (bytes "r/g") (replace_b ∷ []) disk (not_g, tt)
