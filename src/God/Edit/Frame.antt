-- ===== src/God/Edit/Frame.antt =====
-- god/edit_apply.go: an operation touches its own file only, and the loop stops at the first error.
use genesis_ssmp.Base.{
  ℕ, suc, ◌+◌, ◌≡◌, ◌≢◌, refl, ap, ◌∙◌, List, [], ◌∷◌, ◌++◌, arith, All, length, Bytes, same_iff,
  get, get-put, get-del, Result, ok, err, Ensures, of_ok, of_err, Ensures->>=, Ensures-ok, subst,
  Bool-cases, inl, inr, Option-cases,
}
use genesis_ssmp.God.Edit.{
  OpKind, replace_span, delete_span, insert_after_symbol, add_file, insert_before_symbol,
  delete_file, replace_line, insert_lines, template, unknown_op, EditOp, Disk, Host, EditError,
  unknown_operation, write_file, write_file_lines, apply_replace_span, apply_delete_span,
  insert_at_symbol, apply_insert_after_symbol, apply_insert_before_symbol, apply_add_file,
  apply_delete_file, apply_replace_line, apply_insert_lines, apply_template, apply_op, ApplyResult,
  note_op, apply_ops, apply_edit_ir,
}

module _ (host : Host) (disk : Disk) (p : Bytes) where
  -- The new disk has at `p` what the old one had.
  abbrev KeepsFile : Result EditError Disk → Type 0
  KeepsFile = Ensures (λ (d : Disk). get p d ≡ get p disk)

  write_file-KeepsFile : (abs text : Bytes) → p ≢ abs → KeepsFile (write_file host disk abs text)
  unfolding write_file
  write_file-KeepsFile abs text ne = elim (Bool-cases (host.writable abs)) [
    | inl e ↦ rw (e, write_file) (of_ok (ground (arith, get-put abs p text disk, same_iff abs p)))
    | inr e ↦ rw (e, write_file) of_err
  ]

  write_file_lines-KeepsFile :
      (abs : Bytes) (ls : List Bytes) → p ≢ abs → KeepsFile (write_file_lines host disk abs ls)
  unfolding write_file_lines
  write_file_lines-KeepsFile abs ls ne = write_file-KeepsFile abs _ ne

  module _ (abs : Bytes) (op : EditOp) (ne : p ≢ abs) where
    written : (ls : List Bytes) → KeepsFile (write_file_lines host disk abs ls)
    written ls = write_file_lines-KeepsFile abs ls ne

    insert_at_symbol-KeepsFile :
        (n : ℕ) (text : List Bytes) → KeepsFile (insert_at_symbol host disk abs op n text)
    unfolding insert_at_symbol
    insert_at_symbol-KeepsFile n text =
        Ensures->>= λ ls _. Ensures->>= λ i _. Ensures->>= λ t _. written _

    apply_replace_span-KeepsFile : KeepsFile (apply_replace_span host disk abs op)
    unfolding apply_replace_span
    apply_replace_span-KeepsFile =
        Ensures->>= λ se _. Ensures->>= λ ls _. Ensures->>= λ t _. Ensures->>= λ u _. written _

    apply_delete_span-KeepsFile : KeepsFile (apply_delete_span host disk abs op)
    unfolding apply_delete_span
    apply_delete_span-KeepsFile =
        Ensures->>= λ se _. Ensures->>= λ ls _. Ensures->>= λ t _. Ensures->>= λ u _. written _

    apply_replace_line-KeepsFile : KeepsFile (apply_replace_line host disk abs op)
    unfolding apply_replace_line
    apply_replace_line-KeepsFile =
        Ensures->>= λ n _. Ensures->>= λ ls _. Ensures->>= λ t _. Ensures->>= λ u _. written _

    apply_insert_lines-KeepsFile : KeepsFile (apply_insert_lines host disk abs op)
    unfolding apply_insert_lines
    apply_insert_lines-KeepsFile =
        Ensures->>= λ n _. Ensures->>= λ ls _. Ensures->>= λ t _. Ensures->>= λ u _. written _

    apply_template-KeepsFile : KeepsFile (apply_template host disk abs op)
    unfolding apply_template
    apply_template-KeepsFile = Ensures->>= λ t _. Ensures->>= λ u _. insert_at_symbol-KeepsFile _ _

    apply_delete_file-KeepsFile : KeepsFile (apply_delete_file host disk abs op)
    unfolding apply_delete_file
    apply_delete_file-KeepsFile = elim (Option-cases (get abs disk)) [
      | inl e ↦ rw (e, apply_delete_file) of_err
      | inr (t, e) ↦ elim (Bool-cases (host.writable abs)) [
        | inl w ↦
            rw (e, apply_delete_file)
              (rw w (of_ok (ground (arith, get-del abs p disk, same_iff abs p))))
        | inr w ↦ rw (e, apply_delete_file) (rw w of_err)
      ]
    ]

    by_kind :
        (k : OpKind)
        → KeepsFile (elim k [
          | replace_span ↦ apply_replace_span host disk abs op
          | delete_span ↦ apply_delete_span host disk abs op
          | insert_after_symbol ↦ apply_insert_after_symbol host disk abs op
          | add_file ↦ apply_add_file host disk abs op
          | insert_before_symbol ↦ apply_insert_before_symbol host disk abs op
          | delete_file ↦ apply_delete_file host disk abs op
          | replace_line ↦ apply_replace_line host disk abs op
          | insert_lines ↦ apply_insert_lines host disk abs op
          | template ↦ apply_template host disk abs op
          | unknown_op _ ↦ err unknown_operation
        ])
    unfolding apply_insert_after_symbol apply_insert_before_symbol apply_add_file
    by_kind replace_span = apply_replace_span-KeepsFile
    by_kind delete_span = apply_delete_span-KeepsFile
    by_kind insert_after_symbol = insert_at_symbol-KeepsFile _ _
    by_kind add_file = write_file-KeepsFile abs _ ne
    by_kind insert_before_symbol = insert_at_symbol-KeepsFile _ _
    by_kind delete_file = apply_delete_file-KeepsFile
    by_kind replace_line = apply_replace_line-KeepsFile
    by_kind insert_lines = apply_insert_lines-KeepsFile
    by_kind template = apply_template-KeepsFile
    by_kind (unknown_op o) = of_err

  apply_op-KeepsFile : (op : EditOp) → p ≢ host.abs_path op.path → KeepsFile (apply_op host disk op)
  unfolding apply_op
  apply_op-KeepsFile op ne = by_kind (host.abs_path op.path) op ne op.op

module _ (host : Host) where
  -- The disk after operations that all succeed.
  pub data Applies : Disk → List EditOp → Disk → Type 0 where
    none_left : {d d' : Disk} → d ≡ d' → Applies d [] d'
    one_more :
        {d d' d'' : Disk} {op : EditOp} {ops : List EditOp}
        → apply_op host d op ≡ ok d'
        → Applies d' ops d''
        → Applies d (op ∷ ops) d''

  -- What the loop answers, from index `i` and count `n` on: all operations succeeded, or the first
  -- ones did and the next did not, on the disk that they left.
  abbrev pub Outcome :
      ℕ → ℕ → List EditOp → Disk → Disk → Result (ℕ × EditError) ApplyResult → Type 0
  Outcome i n ops d d' (ok r) = Applies d ops d' × (r.ops_applied ≡ n + length ops)
  Outcome i n ops d d' (err (k, e)) =
      (done : List EditOp) × (op : EditOp) × (later : List EditOp) × (ops ≡ done ++ (op ∷ later))
      × (k ≡ i + length done)
      × Applies d done d'
      × (apply_op host d' op ≡ err e)

  ops_applied-note_op :
      (op : EditOp) (r : ApplyResult) → (note_op op r).ops_applied ≡ suc r.ops_applied
  unfolding note_op
  ops_applied-note_op op r = ground arith

  Outcome-cons :
      (i n n' : ℕ) (op : EditOp) (ops : List EditOp) (d d' d'' : Disk)
      (answer : Result (ℕ × EditError) ApplyResult)
      → apply_op host d op ≡ ok d'
      → n' ≡ suc n
      → Outcome (suc i) n' ops d' d'' answer
      → Outcome i n (op ∷ ops) d d'' answer
  Outcome-cons i n n' op ops d d' d'' (ok r) e m (a, c) = (one_more e a, omega arith)
  Outcome-cons i n n' op ops d d' d'' (err (k, x)) e m (done, o, later, p, q, a, f) =
      (op ∷ done, o, later, ap (◌∷◌ op) p, omega arith, one_more e a, f)

  apply_ops-Outcome :
      (ops : List EditOp) (i : ℕ) (d : Disk) (r : ApplyResult)
      → Outcome i r.ops_applied ops d (apply_ops host i ops d r).0 (apply_ops host i ops d r).1
  unfolding apply_ops
  apply_ops-Outcome [] i d r = (none_left refl, omega arith)
  apply_ops-Outcome (op ∷ ops) i d r =
      go (λ d'. apply_ops-Outcome ops (suc i) d' (note_op op r)) (apply_op host d op) refl
    where
      go :
          ((d' : Disk)
            → Outcome
                (suc i)
                (note_op op r).ops_applied
                ops
                d'
                (apply_ops host (suc i) ops d' (note_op op r)).0
                (apply_ops host (suc i) ops d' (note_op op r)).1)
          → (answer : Result EditError Disk) → apply_op host d op ≡ answer
          → Outcome i r.ops_applied
              (op ∷ ops)
              d
              (apply_ops host i (op ∷ ops) d r).0
              (apply_ops host i (op ∷ ops) d r).1
      go rest (err x) e = rw (e, apply_ops) ([], op, ops, refl, omega arith, none_left refl, e)
      go rest (ok d') e =
          rw (e, apply_ops)
            (Outcome-cons i r.ops_applied _ op ops d d' _ _ e (ops_applied-note_op op r) (rest d'))

  -- `ApplyEditIR` applies all the operations in order, and counts them; or it stops at the first
  -- that fails, says its index and its error, and leaves the disk as the operations before it made
  -- it: what they wrote is not undone.
  pub apply_edit_ir-Outcome :
      (ops : List EditOp) (d : Disk)
      → Outcome 0 0 ops d (apply_edit_ir host ops d).0 (apply_edit_ir host ops d).1
  unfolding apply_edit_ir
  apply_edit_ir-Outcome ops d = apply_ops-Outcome ops 0 d _

  Applies-frame :
      (p : Bytes) {d d' : Disk} {ops : List EditOp}
      → Applies d ops d'
      → All (λ (op : EditOp). p ≢ host.abs_path op.path) ops
      → get p d' ≡ get p d
  Applies-frame p (none_left e) h = rw e
  Applies-frame p {d} (one_more {op} e a) h =
      Applies-frame p a h.1 ∙ Ensures-ok (apply_op-KeepsFile host d p op h.0) e

  All-prefix : (P : EditOp → Type 0) (xs ys : List EditOp) → All P (xs ++ ys) → All P xs
  All-prefix P [] ys h = tt
  All-prefix P (x ∷ xs) ys h = (h.0, All-prefix P xs ys h.1)

  frame_of :
      (p : Bytes) (ops : List EditOp) (d d' : Disk) (answer : Result (ℕ × EditError) ApplyResult)
      → Outcome 0 0 ops d d' answer
      → All (λ (op : EditOp). p ≢ host.abs_path op.path) ops
      → get p d' ≡ get p d
  frame_of p ops d d' (ok r) o h = Applies-frame p o.0 h
  frame_of p ops d d' (err (k, e)) (done, op, later, s, i, a, f) h = Applies-frame p a (
      All-prefix _ done (op ∷ later) (subst (All (λ (op : EditOp). p ≢ host.abs_path op.path)) s h))

  -- A file that is the path of no operation is what it was, whether or not the operations succeed.
  pub apply_edit_ir-frame :
      (p : Bytes) (ops : List EditOp) (d : Disk)
      → All (λ (op : EditOp). p ≢ host.abs_path op.path) ops
      → get p (apply_edit_ir host ops d).0 ≡ get p d
  apply_edit_ir-frame p ops d h = frame_of p ops d _ _ (apply_edit_ir-Outcome ops d) h
