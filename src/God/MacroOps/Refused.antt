-- ===== src/God/MacroOps/Refused.antt =====
-- god/macro_ops.go: what becomes of expanded macros in god/edit_apply.go.
use genesis_ssmp.Base.{
  Ensures, of_ok, of_err, Ensures-ok, ℕ, ◌+◌, ◌≡◌, ◌≢◌, refl, subst, false, not, List, [], ◌∷◌,
  ◌++◌, arith, Bytes, bytes, has_prefix, same, pos, Result, ok, err, >>=-eq-ok, fail_if-ok,
}
use genesis_ssmp.God.Edit.{
  anchor_text, apply_ops, apply_edit_ir, replace_span, insert_after_symbol, EditOp, Disk, Host,
  EditError, compute_anchor_hash, check_anchor, insert_at_symbol, apply_replace_span,
  apply_insert_after_symbol, apply_op,
}
use genesis_ssmp.God.MacroOps.{
  MacroOpKind, MacroOp, rename_symbol, add_param, insert_import, add_test_case, add_function_stub,
  macro_span, unknown_macro, macro_anchor, expand_macro, expand_macro_ops,
}

-- No digest is the anchor.
abbrev IsForeign : Host → Bytes → Type 0
IsForeign host anchor = (text : Bytes) → same (host.hash text) anchor ≡ false

check_anchor-IsForeign :
    (host : Host) (lines : List Bytes) (start end : ℕ) (anchor : Bytes) (t : Unit {0})
    → IsForeign host anchor
    → check_anchor host lines start end anchor ≢ ok t
unfolding check_anchor compute_anchor_hash
check_anchor-IsForeign host lines start end anchor t h e =
    let f =
      fail_if-ok (not (same (compute_anchor_hash host lines (pos start) (pos end)) anchor)) _ e in
    ground (arith, f, h (anchor_text lines (pos start) (pos end)))

-- The operation changes nothing on any disk.
abbrev pub IsRefused : Host → EditOp → Type 0
IsRefused host op = (disk disk' : Disk) → apply_op host disk op ≢ ok disk'

replace_span-IsForeign :
    (host : Host) (disk disk' : Disk) (abs : Bytes) (op : EditOp)
    → IsForeign host op.anchor_hash
    → apply_replace_span host disk abs op ≢ ok disk'
unfolding apply_replace_span
replace_span-IsForeign host disk disk' abs op h e =
    let (span, e1, f1) = >>=-eq-ok _ _ e in
    let (lines, e2, f2) = >>=-eq-ok _ _ f1 in
    let (t, e3, f3) = >>=-eq-ok _ _ f2 in
    let (u, e4, f4) = >>=-eq-ok _ _ f3 in
    check_anchor-IsForeign host lines span.0 span.1 op.anchor_hash u h e4

insert_after_symbol-IsForeign :
    (host : Host) (disk disk' : Disk) (abs : Bytes) (op : EditOp)
    → IsForeign host op.anchor_hash
    → apply_insert_after_symbol host disk abs op ≢ ok disk'
unfolding apply_insert_after_symbol insert_at_symbol
insert_after_symbol-IsForeign host disk disk' abs op h e =
    let (lines, e2, f2) = >>=-eq-ok _ _ e in
    let (at, e3, f3) = >>=-eq-ok _ _ f2 in
    let (u, e4, f4) = >>=-eq-ok _ _ f3 in
    check_anchor-IsForeign host lines (at + 1) (at + 1) op.anchor_hash u h e4

-- No text of the digest begins like the anchor of a macro.
has_prefix-same : (p q s : Bytes) → has_prefix s p ≡ false → same s (p ++ q) ≡ false
unfolding has_prefix same
has_prefix-same [] q s h = absurd (ground arith)
has_prefix-same (b ∷ p) q [] h = refl
has_prefix-same (b ∷ p) q (c ∷ s) h = ground (arith, has_prefix-same p q s)

macro_anchor-IsForeign :
    (host : Host) (parts : List Bytes)
    → ((text : Bytes) → has_prefix (host.hash text) (bytes "macro-") ≡ false)
    → IsForeign host (macro_anchor host parts)
unfolding macro_anchor
macro_anchor-IsForeign host parts h text =
    has_prefix-same (bytes "macro-") _ (host.hash text) (h text)

-- One operation, which is refused.
abbrev AloneRefused : Host → List EditOp → Type 0
AloneRefused host (op ∷ []) = IsRefused host op
AloneRefused host _ = ⊥

replace_span-IsRefused :
    (host : Host) (op : EditOp)
    → op.op ≡ replace_span
    → IsForeign host op.anchor_hash
    → IsRefused host op
unfolding apply_op
replace_span-IsRefused host op kind h disk disk' =
    rw (kind, apply_op) (replace_span-IsForeign host disk disk' (host.abs_path op.path) op h)

insert_after_symbol-IsRefused :
    (host : Host) (op : EditOp)
    → op.op ≡ insert_after_symbol
    → IsForeign host op.anchor_hash
    → IsRefused host op
unfolding apply_op
insert_after_symbol-IsRefused host op kind h disk disk' =
    rw (kind, apply_op) (insert_after_symbol-IsForeign host disk disk' (host.abs_path op.path) op h)

-- A macro becomes one operation, with a foreign anchor.
expand_macro-IsRefused :
    (host : Host) (m : MacroOp)
    → ((text : Bytes) → has_prefix (host.hash text) (bytes "macro-") ≡ false)
    → Ensures (AloneRefused host) (expand_macro host m)
unfolding expand_macro
expand_macro-IsRefused host m h = go m.kind refl
  where
    go : (kind : MacroOpKind) → m.kind ≡ kind → Ensures (AloneRefused host) (expand_macro host m)
    go rename_symbol q =
        rw (q, expand_macro)
          (of_ok (replace_span-IsRefused host _ refl (macro_anchor-IsForeign host _ h)))
    go add_param q =
        rw (q, expand_macro)
          (of_ok (insert_after_symbol-IsRefused host _ refl (macro_anchor-IsForeign host _ h)))
    go insert_import q =
        rw (q, expand_macro)
          (of_ok (insert_after_symbol-IsRefused host _ refl (macro_anchor-IsForeign host _ h)))
    go add_test_case q =
        rw (q, expand_macro)
          (of_ok (insert_after_symbol-IsRefused host _ refl (macro_anchor-IsForeign host _ h)))
    go add_function_stub q =
        rw (q, expand_macro)
          (of_ok (insert_after_symbol-IsRefused host _ refl (macro_anchor-IsForeign host _ h)))
    go macro_span q =
        rw (q, expand_macro)
          (of_ok (replace_span-IsRefused host _ refl (macro_anchor-IsForeign host _ h)))
    go (unknown_macro name) q = rw (q, expand_macro) of_err

apply_edit_ir-refused :
    (host : Host) (first rest ops : List EditOp) (disk : Disk)
    → AloneRefused host first
    → first ++ rest ≡ ops
    → (e : EditError) × (apply_edit_ir host ops disk ≡ (disk, err (0, e)))
unfolding apply_edit_ir apply_ops
apply_edit_ir-refused host [] rest ops disk h q = absurd h
apply_edit_ir-refused host (a ∷ b ∷ first) rest ops disk h q = absurd h
apply_edit_ir-refused host (op ∷ []) rest ops disk h q =
    subst (λ all. (e : EditError) × (apply_edit_ir host all disk ≡ (disk, err (0, e)))) q
      (go (apply_op host disk op) refl)
  where
    go :
        (r : Result EditError Disk)
        → apply_op host disk op ≡ r
        → (e : EditError) × (apply_edit_ir host (op ∷ rest) disk ≡ (disk, err (0, e)))
    go (ok disk') f = absurd (h disk disk' f)
    go (err e) f = (e, rw (f, apply_edit_ir, apply_ops) refl)

-- Where no digest begins with "macro-", no edit that is made of macros is ever applied: on any disk,
-- `ApplyEditIR` fails at the first operation and leaves every file as it was.
pub expand_macro_ops-apply_edit_ir :
    (host : Host) (m : MacroOp) (ms : List MacroOp) (ops : List EditOp) (disk : Disk)
    → ((text : Bytes) → has_prefix (host.hash text) (bytes "macro-") ≡ false)
    → expand_macro_ops host (m ∷ ms) ≡ ok ops
    → (e : EditError) × (apply_edit_ir host ops disk ≡ (disk, err (0, e)))
unfolding expand_macro_ops apply_edit_ir apply_ops
expand_macro_ops-apply_edit_ir host m ms ops disk h e =
    let (first, e1, f1) = >>=-eq-ok _ _ e in
    let (rest, e2, f2) = >>=-eq-ok _ _ f1 in
    apply_edit_ir-refused host first rest ops disk (Ensures-ok (expand_macro-IsRefused host m h) e1)
      (ground (arith, f2))
