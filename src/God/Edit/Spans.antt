-- ===== src/God/Edit/Spans.antt =====
-- god/edit_apply.go: the operations that replace a range of lines, when they succeed.
use genesis_ssmp.Base.{
  ℕ, ◌+◌, ◌-◌, ◌≤◌, ◌≡◌, ◌⊎◌, refl, subst, false, not, Option, none, some, List, [], ◌∷◌, ◌++◌,
  arith, All, All-append, All-take, All-drop, length, take, drop, length-take, length-drop,
  take-take-drop, ltb, Bytes, same, same_iff, get, ℤ, pos, negsuc, ok, Ensures, of_ok, of_err,
  Ensures->>=, Ensures-ok, Ensures-map, split_on, trim_suffix, fail_if-ok, Bool-cases, inl, inr,
  Option-cases,
}
use genesis_ssmp.God.Edit.{
  OpKind, replace_span, delete_span, replace_line, EditOp, Disk, Host, newline, read_file_lines,
  write_file, write_file_lines, split_content, compute_anchor_hash, span_of, line_of, check_anchor,
  apply_replace_span, apply_delete_span, apply_replace_line, apply_op, anchor_mismatch, past_end,
}
use genesis_ssmp.God.Edit.Lines.{IsOneLine, or_blank, read_file_lines-put, split_on-IsOneLine}

pub read_file_lines-IsOneLine :
    (disk : Disk) (abs : Bytes) {ls : List Bytes}
    → read_file_lines disk abs ≡ ok ls
    → All IsOneLine ls
unfolding read_file_lines
read_file_lines-IsOneLine disk abs e = elim (Option-cases (get abs disk)) [
  | inl f ↦ absurd (ground arith)
  | inr (text, f) ↦
      subst (All IsOneLine) {x = split_on newline (trim_suffix newline text)} (ground arith)
        (split_on-IsOneLine (trim_suffix newline text))
]

pub split_content-IsOneLine : (s : Bytes) → All IsOneLine (split_content s)
unfolding split_content
split_content-IsOneLine [] = tt
split_content-IsOneLine (c ∷ s) = split_on-IsOneLine _

-- The file `abs` of a disk holds these lines, or one empty line for none.
abbrev pub HoldsLines : Bytes → List Bytes → Disk → Type 0
HoldsLines abs ls disk = read_file_lines disk abs ≡ ok (or_blank ls)

pub write_file_lines-HoldsLines :
    (host : Host) (disk : Disk) (abs : Bytes) (ls : List Bytes)
    → All IsOneLine ls
    → Ensures (HoldsLines abs ls) (write_file_lines host disk abs ls)
unfolding write_file_lines write_file
write_file_lines-HoldsLines host disk abs ls h = elim (Bool-cases (host.writable abs)) [
  | inl w ↦ rw (w, write_file) (of_ok (read_file_lines-put disk abs ls h))
  | inr w ↦ rw (w, write_file) of_err
]

span_of-ok :
    (ls : List ℤ) {s e : ℕ} → span_of ls ≡ ok (s, e) → (ls ≡ pos s ∷ pos e ∷ []) × (1 ≤ s) × (s ≤ e)
unfolding span_of
span_of-ok (pos s ∷ pos e ∷ []) h = ground arith
span_of-ok (pos s ∷ negsuc e ∷ []) h = ground arith
span_of-ok (negsuc s ∷ e ∷ []) h = ground arith
span_of-ok [] h = ground arith
span_of-ok (s ∷ []) h = ground arith
span_of-ok (s ∷ e ∷ x ∷ ls) h = ground arith

line_of-ok : (ls : List ℤ) {n : ℕ} → line_of ls ≡ ok n → (ls ≡ pos n ∷ []) × (1 ≤ n)
unfolding line_of
line_of-ok (pos n ∷ []) h = ground arith
line_of-ok (negsuc n ∷ []) h = ground arith
line_of-ok [] h = ground arith
line_of-ok (n ∷ m ∷ ls) h = ground arith

pub check_anchor-ok :
    (host : Host) (lines : List Bytes) (start end : ℕ) (expected : Bytes) {t : Unit {0}}
    → check_anchor host lines start end expected ≡ ok t
    → compute_anchor_hash host lines (pos start) (pos end) ≡ expected
unfolding check_anchor
check_anchor-ok host lines start end expected h = ground (
  arith,
  fail_if-ok (not (same (compute_anchor_hash host lines (pos start) (pos end)) expected))
      anchor_mismatch h,
  same_iff (compute_anchor_hash host lines (pos start) (pos end)) expected,
)

-- The lines `from` to `to` of a file have given way to `text`, and the three lines around them had
-- the hash that the operation names.
pub record SpanEdit (host : Host) (op : EditOp) (text : List Bytes) (from to : ℕ)
    (disk disk' : Disk) : Type 0 where
  pub before : List Bytes
  pub gone : List Bytes
  pub after : List Bytes
  pub was : read_file_lines disk (host.abs_path op.path) ≡ ok (before ++ (gone ++ after))
  pub from_is : from ≡ length before + 1
  pub to_is : to ≡ length before + length gone
  pub not_empty : 1 ≤ length gone
  pub anchored :
      compute_anchor_hash host (before ++ (gone ++ after)) (pos from) (pos to) ≡ op.anchor_hash
  pub now : HoldsLines (host.abs_path op.path) (before ++ (text ++ after)) disk'

module _ (host : Host) (op : EditOp) (disk : Disk) (text : List Bytes) (clean : All IsOneLine text)
    (from to : ℕ) (lines : List Bytes)
    (was : read_file_lines disk (host.abs_path op.path) ≡ ok lines) (low : 1 ≤ from)
    (high : from ≤ to) (inside : to ≤ length lines)
    (anchored : compute_anchor_hash host lines (pos from) (pos to) ≡ op.anchor_hash) where
  cut :
      take (from - 1) lines ++ (take (to - (from - 1)) (drop (from - 1) lines) ++ drop to lines)
      ≡ lines
  cut = take-take-drop (from - 1) to lines (omega arith)

  SpanEdit-at :
      (disk' : Disk)
      → HoldsLines (host.abs_path op.path) (take (from - 1) lines ++ (text ++ drop to lines)) disk'
      → SpanEdit host op text from to disk disk'
  SpanEdit-at disk' now = record {
    before = take (from - 1) lines;
    gone = take (to - (from - 1)) (drop (from - 1) lines);
    after = drop to lines;
    was = rw cut was;
    from_is = omega (arith, length-take (from - 1) lines);
    to_is = omega (
      arith,
      length-take (from - 1) lines,
      length-take (to - (from - 1)) (drop (from - 1) lines),
      length-drop (from - 1) lines,
    );
    not_empty = omega (
      arith,
      length-take (to - (from - 1)) (drop (from - 1) lines),
      length-drop (from - 1) lines,
    );
    anchored = rw cut anchored;
    now = now;
  }

  write-SpanEdit : Ensures (SpanEdit host op text from to disk) (
      write_file_lines host disk
        (host.abs_path op.path)
        (take (from - 1) lines ++ (text ++ drop to lines)))
  write-SpanEdit =
      let whole = read_file_lines-IsOneLine disk (host.abs_path op.path) was in
      let clean_parts =
        All-append IsOneLine (take (from - 1) lines) (text ++ drop to lines)
          (All-take IsOneLine (from - 1) lines whole)
          (All-append IsOneLine text (drop to lines) clean (All-drop IsOneLine to lines whole)) in
      Ensures-map (write_file_lines-HoldsLines host disk (host.abs_path op.path) _ clean_parts)
        SpanEdit-at

not_past : (n m : ℕ) → ltb n m ≡ false → m ≤ n
not_past n m h = ground arith

-- What the three operations say of their success: the lines that they name and the new text.
abbrev pub SpanResult : Host → EditOp → List Bytes → Disk → Disk → Type 0
SpanResult host op text disk disk' =
    (from : ℕ) × (to : ℕ) × ((op.lines ≡ pos from ∷ pos to ∷ [])
      ⊎ ((op.lines ≡ pos from ∷ []) × (from ≡ to)))
    × SpanEdit host op text from to disk disk'

module _ (host : Host) (op : EditOp) (disk : Disk) where
  replace_span-SpanResult :
      Ensures
        (SpanResult host op (split_content op.content) disk)
        (apply_replace_span host disk (host.abs_path op.path) op)
  unfolding apply_replace_span
  replace_span-SpanResult = Ensures->>= λ (from, to) e. Ensures->>= λ lines was.
      Ensures->>= λ t inside. Ensures->>= λ u anchored.
        let (named, low, high) = span_of-ok op.lines e in
        Ensures-map
          (write-SpanEdit host op disk (split_content op.content)
            (split_content-IsOneLine op.content) from to lines was low high
            (not_past _ _ (fail_if-ok _ past_end inside))
            (check_anchor-ok host lines from to op.anchor_hash anchored))
          (λ d s. (from, to, inl named, s))

  delete_span-SpanResult :
      Ensures (SpanResult host op [] disk) (apply_delete_span host disk (host.abs_path op.path) op)
  unfolding apply_delete_span
  delete_span-SpanResult = Ensures->>= λ (from, to) e. Ensures->>= λ lines was.
      Ensures->>= λ t inside. Ensures->>= λ u anchored.
        let (named, low, high) = span_of-ok op.lines e in
        Ensures-map
          (write-SpanEdit host op disk [] tt from to lines was low high
            (not_past _ _ (fail_if-ok _ past_end inside))
            (check_anchor-ok host lines from to op.anchor_hash anchored))
          (λ d s. (from, to, inl named, s))

  replace_line-SpanResult :
      Ensures
        (SpanResult host op (split_content op.content) disk)
        (apply_replace_line host disk (host.abs_path op.path) op)
  unfolding apply_replace_line
  replace_line-SpanResult = Ensures->>= λ n e. Ensures->>= λ lines was. Ensures->>= λ t inside.
      Ensures->>= λ u anchored.
        let (named, low) = line_of-ok op.lines e in
        Ensures-map
          (write-SpanEdit host op disk (split_content op.content)
            (split_content-IsOneLine op.content) n n lines was low (omega arith)
            (not_past _ _ (fail_if-ok _ past_end inside))
            (check_anchor-ok host lines n n op.anchor_hash anchored))
          (λ d s. (n, n, inr (named, refl), s))

-- The text that an operation on a range of lines puts in, if it is one.
abbrev pub span_text : EditOp → Option (List Bytes)
span_text op = elim op.op [
  | replace_span ↦ some (split_content op.content)
  | replace_line ↦ some (split_content op.content)
  | delete_span ↦ some []
  | _ ↦ none
]

-- When `replace_span`, `delete_span` or `replace_line` succeeds, the file held the lines that the
-- operation names, the hash of the up to three lines before and after them was the operation's
-- anchor, and the file reads back as the lines before, the new text, and the lines after, or as
-- one empty line where that is nothing.
pub apply_op-SpanResult :
    (host : Host) (op : EditOp) (disk disk' : Disk) (text : List Bytes)
    → span_text op ≡ some text
    → apply_op host disk op ≡ ok disk'
    → SpanResult host op text disk disk'
unfolding apply_op
apply_op-SpanResult host op disk disk' text kind done = go op.op refl
  where
    go : (k : OpKind) → op.op ≡ k → SpanResult host op text disk disk'
    go replace_span e =
        let new : split_content op.content ≡ text = ground arith in
        let run : apply_replace_span host disk (host.abs_path op.path) op ≡ ok disk' =
          ground arith in
        subst (λ x. SpanResult host op x disk disk') new
          (Ensures-ok (replace_span-SpanResult host op disk) run)
    go delete_span e =
        let new : [] ≡ text = ground arith in
        let run : apply_delete_span host disk (host.abs_path op.path) op ≡ ok disk' =
          ground arith in
        subst (λ x. SpanResult host op x disk disk') new
          (Ensures-ok (delete_span-SpanResult host op disk) run)
    go replace_line e =
        let new : split_content op.content ≡ text = ground arith in
        let run : apply_replace_line host disk (host.abs_path op.path) op ≡ ok disk' =
          ground arith in
        subst (λ x. SpanResult host op x disk disk') new
          (Ensures-ok (replace_line-SpanResult host op disk) run)
    go _ e = absurd (ground arith)
