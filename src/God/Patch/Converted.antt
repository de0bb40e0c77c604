-- ===== src/God/Patch/Converted.antt =====
-- god/patch_v1.go: the replies that patches become.
use genesis_ssmp.Base.{
  ℕ, suc, ◌≡◌, refl, sym, subst, Bool, true, false, ◌||◌, Option, none, some, List, [], ◌∷◌, arith,
  All, is_empty, same, same_refl, ℤ, pos, pos_part, ltℤ, Result, ok, err, ◌>>=◌, >>=-eq-ok, fail_if,
  fail_if-ok,
}
use genesis_ssmp.God.Edit.{
  replace_span, delete_span, insert_after_symbol, add_file, EditOp, span_of,
}
use genesis_ssmp.God.MacroOps.{edit_op}
use genesis_ssmp.God.Provider.Accepted.{edit_ops_of}
use genesis_ssmp.God.Provider.{
  Reply, validate_edit_op, validate_edit_ops, is_nil_list, validate_output, validate_reply,
}
use genesis_ssmp.God.Patch.{
  is_no_op, placeholder, no_path, PatchOp, PatchKind, patch_replace, patch_add, patch_delete,
  patch_insert_after, unknown_patch, PatchSet, PatchFault, validate_span, validate_patch_op,
  validate_patch_ops, validate_patch, reply_with, edit_op_of, edit_ops_from, cons_op, reply_of,
  patch_response,
}

-- Where an operation needs a span, it has one that can be read.
abbrev pub HasSpan : EditOp → Type 0
HasSpan op = elim op.op [
  | replace_span ↦ (n : ℕ × ℕ) × (span_of op.lines ≡ ok n)
  | delete_span ↦ (n : ℕ × ℕ) × (span_of op.lines ≡ ok n)
  | _ ↦ Unit
]

-- The edit of the same kind, in the same place, with the same content.
abbrev pub HasParts : PatchKind → PatchOp → EditOp → Type 0
HasParts patch_replace op e =
    (e.op ≡ replace_span) × (e.lines ≡ op.lines) × (e.content ≡ op.content)
HasParts patch_add op e = (e.op ≡ add_file) × (e.content ≡ op.content)
HasParts patch_delete op e = (e.op ≡ delete_span) × (e.lines ≡ op.lines)
HasParts patch_insert_after op e =
    (e.op ≡ insert_after_symbol) × (e.symbol ≡ op.symbol) × (e.content ≡ op.content)
HasParts (unknown_patch name) op e = ⊥

abbrev pub IsEditOf : PatchOp → EditOp → Type 0
IsEditOf op e = HasParts op.op op e × (e.path ≡ op.path)

-- One edit for each operation, in their order.
abbrev pub AllEdits : List PatchOp → List EditOp → Type 0
AllEdits [] [] = Unit
AllEdits (op ∷ ops) (e ∷ es) = IsEditOf op e × AllEdits ops es
AllEdits _ _ = ⊥

abbrev IsGood : Option EditOp → Type 0
IsGood none = Unit
IsGood (some op) = (validate_edit_op op ≡ ok tt) × HasSpan op

validate_span-span_of :
    (i : ℕ) (lines : List ℤ) (t : Unit {0})
    → validate_span i lines ≡ ok t
    → (n : ℕ × ℕ) × (span_of lines ≡ ok n)
unfolding span_of
validate_span-span_of i (s ∷ e ∷ []) t h =
    let f = fail_if-ok (ltℤ s (pos 1) || ltℤ e s) _ h in
    ((pos_part s, pos_part e), rw (f, span_of) refl)
validate_span-span_of i [] t h = absurd (ground arith)
validate_span-span_of i (s ∷ []) t h = absurd (ground arith)
validate_span-span_of i (s ∷ e ∷ x ∷ lines) t h = absurd (ground arith)

-- A valid operation becomes a valid one, with its span.
edit_op_of-IsGood :
    (i : ℕ) (op : PatchOp) (t : Unit {0})
    → validate_patch_op i op ≡ ok t
    → (e : EditOp) × (edit_op_of op ≡ some e)
      × (validate_edit_op e ≡ ok tt)
      × HasSpan e
      × IsEditOf op e
unfolding validate_patch_op edit_op_of validate_edit_op ◌>>=◌
edit_op_of-IsGood i op t h =
    let (u, e1, e2) = >>=-eq-ok (fail_if (is_empty op.path) (no_path i)) _ h in
    go op.op refl (fail_if-ok (is_empty op.path) (no_path i) e1)
  where
    go :
        (kind : PatchKind)
        → op.op ≡ kind
        → is_empty op.path ≡ false
        → (e : EditOp) × (edit_op_of op ≡ some e)
          × (validate_edit_op e ≡ ok tt)
          × HasSpan e
          × IsEditOf op e
    go patch_replace q f = (
      edit_op replace_span op.path placeholder op.lines op.content [],
      rw (q, edit_op_of) refl,
      rw f refl,
      validate_span-span_of i op.lines tt
          (rw q at (>>=-eq-ok (fail_if (is_empty op.path) (no_path i)) _ h).2),
      rw q ((refl, refl, refl), refl),
    )
    go patch_add q f = (
      edit_op add_file op.path placeholder [] op.content [],
      rw (q, edit_op_of) refl,
      rw f refl,
      tt,
      rw q ((refl, refl), refl),
    )
    go patch_delete q f = (
      edit_op delete_span op.path placeholder op.lines [] [],
      rw (q, edit_op_of) refl,
      rw f refl,
      validate_span-span_of i op.lines tt
          (rw q at (>>=-eq-ok (fail_if (is_empty op.path) (no_path i)) _ h).2),
      rw q ((refl, refl), refl),
    )
    go patch_insert_after q f = (
      edit_op insert_after_symbol op.path placeholder [] op.content op.symbol,
      rw (q, edit_op_of) refl,
      rw f refl,
      tt,
      rw q ((refl, refl, refl), refl),
    )
    go (unknown_patch name) q f = absurd (ground (arith, q, f, h))

edit_ops_from-valid :
    (i : ℕ) (ops : List PatchOp)
    → validate_patch_ops i ops ≡ ok tt
    → (es : List EditOp) × (edit_ops_from ops ≡ some es)
      × (validate_edit_ops es ≡ ok tt)
      × All HasSpan es
      × AllEdits ops es
unfolding validate_patch_ops edit_ops_from validate_edit_ops ◌>>=◌
edit_ops_from-valid i [] h = ([], refl, refl, tt, tt)
edit_ops_from-valid i (op ∷ ops) h =
    let (u, e1, e2) = >>=-eq-ok (validate_patch_op i op) (λ _. validate_patch_ops (suc i) ops) h in
    let (e, made, valid, spanned, same_op) = edit_op_of-IsGood i op u e1 in
    let (es, rest, all_valid, all_spanned, same_ops) = edit_ops_from-valid (suc i) ops e2 in
    (
      e ∷ es,
      rw (made, rest) refl,
      rw (valid, ◌>>=◌) all_valid,
      (spanned, all_spanned),
      (same_op, same_ops),
    )

-- What `ValidatePatchV1` checks.
abbrev Parts : PatchSet → Type 0
Parts ps =
    (is_empty ps.mission_id ≡ false)
    × (is_nil_list ps.symbols ≡ false)
    × (is_nil_list ps.files ≡ false)
    × (is_no_op ps.ops ≡ false)
    × (validate_patch_ops 0 ps.ops ≡ ok tt)

validate_patch-Parts : (ps : PatchSet) (t : Unit {0}) → validate_patch ps ≡ ok t → Parts ps
unfolding validate_patch
validate_patch-Parts ps t h =
    let (t1, h1, f5) = >>=-eq-ok _ _ h in
    let (t2, h2, f4) = >>=-eq-ok _ _ h1 in
    let (t3, h3, f3) = >>=-eq-ok _ _ h2 in
    let (t4, f1, f2) = >>=-eq-ok _ _ h3 in
    (fail_if-ok _ _ f1, fail_if-ok _ _ f2, fail_if-ok _ _ f3, fail_if-ok _ _ f4, f5)

abbrev is_no_edit : List EditOp → Bool
is_no_edit [] = true
is_no_edit (_ ∷ _) = false

some_op-made :
    (op : PatchOp) (ops : List PatchOp) (es : List EditOp)
    → edit_ops_from (op ∷ ops) ≡ some es
    → is_no_edit es ≡ false
unfolding edit_ops_from
some_op-made op ops es h = go (edit_op_of op) (edit_ops_from ops) h
  where
    go :
        (a : Option EditOp) (b : Option (List EditOp))
        → cons_op a b ≡ some es
        → is_no_edit es ≡ false
    go none b q = absurd (ground arith)
    go (some e) none q = absurd (ground arith)
    go (some e) (some rest) q = ground arith

-- A reply whose Edit IR is not empty and valid.
edit_reply-valid :
    (ps : PatchSet) (es : List EditOp) (r : Reply)
    → Parts ps
    → is_no_edit es ≡ false
    → validate_edit_ops es ≡ ok tt
    → reply_of ps (some es) ≡ ok r
    → (validate_reply ps.mission_id r ≡ ok tt)
      × (r.symbols_touched ≡ ps.symbols)
      × (r.files_touched ≡ ps.files)
      × (edit_ops_of r.edit_ir ≡ es)
unfolding validate_reply validate_output same ◌>>=◌
edit_reply-valid ps [] r h k v q = absurd (ground arith)
edit_reply-valid ps (e ∷ es) r (named, symbols, files, h, _) k v q =
    let p : reply_with ps (e ∷ es) ≡ r = ground (arith, q) in
    subst
      (λ x.
        (validate_reply ps.mission_id x ≡ ok tt)
        × (x.symbols_touched ≡ ps.symbols)
        × (x.files_touched ≡ ps.files)
        × (edit_ops_of x.edit_ir ≡ e ∷ es))
      p (rw (named, same_refl ps.mission_id, v, symbols, files, ◌>>=◌) refl, refl, refl, refl)

reply_of-valid :
    (ps : PatchSet) (ops : List PatchOp) (r : Reply)
    → ps.ops ≡ ops
    → reply_of ps (edit_ops_from ops) ≡ ok r
    → Parts ps
    → (validate_reply ps.mission_id r ≡ ok tt)
      × (r.symbols_touched ≡ ps.symbols)
      × (r.files_touched ≡ ps.files)
      × All HasSpan (edit_ops_of r.edit_ir)
      × AllEdits ops (edit_ops_of r.edit_ir)
reply_of-valid ps [] r at h (named, symbols, files, some_op, valid) = absurd (ground arith)
reply_of-valid ps (op ∷ ops) r at h (named, symbols, files, some_op, valid) =
    let (es, made, all_valid, spanned, edits) = edit_ops_from-valid 0 (op ∷ ops) (rw at at valid) in
    let (v, s, f, same_ops) =
      edit_reply-valid ps es r (named, symbols, files, some_op, valid) (some_op-made op ops es made)
        all_valid (rw made at h) in
    (
      v,
      s,
      f,
      subst (All HasSpan) (sym same_ops) spanned,
      subst (AllEdits (op ∷ ops)) (sym same_ops) edits,
    )

-- What `PatchV1ToAngelResponse` makes of a set of operations is a reply that `validateAngelResponse`
-- accepts for the mission of the set, with its manifest; its edits are one for each operation, in
-- their order, of the corresponding kind, with the same path, lines, symbol and content; each edit
-- that needs a span of lines has one in range, so that `ApplyEditIR` does not refuse it for its lines.
pub patch_response-valid :
    (ps : PatchSet) (r : Reply)
    → patch_response ps ≡ ok r
    → (validate_reply ps.mission_id r ≡ ok tt)
      × (r.symbols_touched ≡ ps.symbols)
      × (r.files_touched ≡ ps.files)
      × All HasSpan (edit_ops_of r.edit_ir)
      × AllEdits ps.ops (edit_ops_of r.edit_ir)
unfolding patch_response
patch_response-valid ps r h = go (validate_patch ps) refl
  where
    go :
        (v : Result PatchFault (Unit {0}))
        → validate_patch ps ≡ v
        → (validate_reply ps.mission_id r ≡ ok tt)
          × (r.symbols_touched ≡ ps.symbols)
          × (r.files_touched ≡ ps.files)
          × All HasSpan (edit_ops_of r.edit_ir)
          × AllEdits ps.ops (edit_ops_of r.edit_ir)
    go (err e) q = absurd (ground (arith, q, h))
    go (ok t) q =
        reply_of-valid ps ps.ops r refl (rw (q, patch_response) at h) (validate_patch-Parts ps t q)
