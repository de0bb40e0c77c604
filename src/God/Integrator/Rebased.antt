-- ===== src/God/Integrator/Rebased.antt =====
-- god/integrator.go: the rebase, its cache, and what it lets through.
use genesis_ssmp.God.Edit.Spans.{SpanResult, apply_op-SpanResult}
use genesis_ssmp.Base.{
  ◌≤◌, ◌++◌, ◌-◌, take, drop, join, same_refl, negsuc, ℕ, suc, ◌≡◌, ◌≢◌, refl, sym, ap, subst, ◌∙◌,
  inl, inr, true, false, some, List, [], ◌∷◌, arith, ltb, length, Bytes, same, same_iff, Bool-cases,
  Option-cases, Dict, get, put, get-put, ℤ, pos, Result, ok, err, ◌>>=◌, fail_if,
}
use genesis_ssmp.God.Edit.{
  split_content, newline, write_file_lines, write_file, past_end, EditOp, Disk, Host, EditError,
  read_file_lines, compute_anchor_hash, span_of, check_anchor, apply_op, anchor_mismatch,
  replace_span, apply_replace_span,
}
use genesis_ssmp.God.Integrator.Rebase.{
  RebaseError, read_error, lines_or, rebase_op, is_add_file, cached_lines, rebase_from,
  rebase_anchors,
}

-- The lines of a file, from the disk.
abbrev lines_at : Host → Disk → Bytes → Result RebaseError (List Bytes)
lines_at host disk path = lines_or (read_error path) (read_file_lines disk (host.abs_path path))

-- The rebase without a cache.
pub rebase_plain : Host → Disk → ℕ → List EditOp → Result RebaseError (List EditOp)
rebase_plain host disk i [] = ok []
rebase_plain host disk i (op ∷ ops) = elim (is_add_file op.op) [
  | true ↦ rebase_plain host disk (suc i) ops >>= λ rest. ok (op ∷ rest)
  | false ↦ lines_at host disk op.path >>= λ lines. rebase_op host i lines op >>= λ op'.
      rebase_plain host disk (suc i) ops >>= λ rest. ok (op' ∷ rest)
]

-- What the cache holds is on the disk.
abbrev IsFresh : Host → Disk → Dict (List Bytes) → Type 0
IsFresh host disk cache =
    (p : Bytes) (lines : List Bytes) → get p cache ≡ some lines → lines_at host disk p ≡ ok lines

>>=-cong :
    {E A B : Type 0} (m : Result E A) (f g : A → Result E B)
    → ((a : A) → m ≡ ok a → f a ≡ g a)
    → (m >>= f) ≡ (m >>= g)
unfolding ◌>>=◌
>>=-cong (ok a) f g h = h a refl
>>=-cong (err e) f g h = refl

cached_lines-lem :
    (host : Host) (disk : Disk) (path : Bytes) (cache : Dict (List Bytes))
    → IsFresh host disk cache
    → cached_lines host disk path (get path cache) ≡ lines_at host disk path
cached_lines-lem host disk path cache h = elim (Option-cases (get path cache)) [
  | inl e ↦ rw e refl
  | inr (lines, e) ↦ rw e (sym (h path lines e))
]

put-IsFresh :
    (host : Host) (disk : Disk) (path : Bytes) (lines : List Bytes) (cache : Dict (List Bytes))
    → lines_at host disk path ≡ ok lines
    → IsFresh host disk cache
    → IsFresh host disk (put path lines cache)
put-IsFresh host disk path lines cache e h p ls f = elim (Bool-cases (same path p)) [
  | inl g ↦
      let same_path : path ≡ p = (same_iff path p).0 g in
      let same_lines : lines ≡ ls = ground (arith, get-put path p lines cache, g, f) in
      rw (sym same_path, sym same_lines) e
  | inr g ↦ h p ls (sym (get-put path p lines cache ∙ rw g refl) ∙ f)
]

rebase_from-plain :
    (host : Host) (disk : Disk) (i : ℕ) (ops : List EditOp) (cache : Dict (List Bytes))
    → IsFresh host disk cache
    → rebase_from host disk i ops cache ≡ rebase_plain host disk i ops
unfolding rebase_from rebase_plain
rebase_from-plain host disk i [] cache h = refl
rebase_from-plain host disk i (op ∷ ops) cache h = elim (Bool-cases (is_add_file op.op)) [
  | inl e ↦
      rw (e, rebase_from, rebase_plain)
        (ap (λ m. m >>= λ rest. ok (op ∷ rest)) (rebase_from-plain host disk (suc i) ops cache h))
  | inr e ↦
      rw (e, rebase_from, rebase_plain)
        (subst
          (λ m.
            (m >>= λ lines. rebase_op host i lines op >>= λ op'.
            rebase_from host disk (suc i) ops (put op.path lines cache) >>= λ rest. ok (op' ∷ rest))
            ≡ (lines_at host disk op.path >>= λ lines. rebase_op host i lines op >>= λ op'.
                rebase_plain host disk (suc i) ops >>= λ rest. ok (op' ∷ rest)))
          (sym (cached_lines-lem host disk op.path cache h))
          (>>=-cong (lines_at host disk op.path) _ _ λ lines f.
            >>=-cong (rebase_op host i lines op) _ _ λ op' g.
              ap (λ m. m >>= λ rest. ok (op' ∷ rest))
                (rebase_from-plain host disk (suc i) ops (put op.path lines cache)
                  (put-IsFresh host disk op.path lines cache f h))))
]

-- The cache of the rebase changes no result: it is as if every operation read its file again.
pub rebase_anchors-plain :
    (host : Host) (disk : Disk) (ops : List EditOp)
    → rebase_anchors host disk ops ≡ rebase_plain host disk 0 ops
unfolding rebase_anchors get
rebase_anchors-plain host disk ops =
    rebase_from-plain host disk 0 ops [] (λ p lines e. absurd (ground arith))

-- The lines of a valid span are not negative.
span_of-pos :
    (s e : ℤ) (span : ℕ × ℕ) → span_of (s ∷ e ∷ []) ≡ ok span → (s ≡ pos span.0) × (e ≡ pos span.1)
unfolding span_of
span_of-pos (pos s) (pos e) span h = ground arith
span_of-pos (pos s) (negsuc e) span h = absurd (ground arith)
span_of-pos (negsuc s) (pos e) span h = absurd (ground arith)
span_of-pos (negsuc s) (negsuc e) span h = absurd (ground arith)

-- The result is not the error of a wrong anchor.
abbrev IsAnchored : {A : Type 0} → Result EditError A → Type 0
IsAnchored m = m ≢ err anchor_mismatch

>>=-IsAnchored :
    {A B : Type 0} (m : Result EditError A) (f : A → Result EditError B)
    → IsAnchored m
    → ((a : A) → m ≡ ok a → IsAnchored (f a))
    → IsAnchored (m >>= f)
unfolding ◌>>=◌
>>=-IsAnchored (ok a) f h k = k a refl
>>=-IsAnchored (err e) f h k = λ q. h (ground arith)

span_of-IsAnchored : (s e : ℤ) → IsAnchored (span_of (s ∷ e ∷ []))
unfolding span_of
span_of-IsAnchored s e = ground arith

check_anchor-IsAnchored :
    (host : Host) (lines : List Bytes) (start end : ℕ) (expected : Bytes)
    → compute_anchor_hash host lines (pos start) (pos end) ≡ expected
    → IsAnchored (check_anchor host lines start end expected)
unfolding check_anchor
check_anchor-IsAnchored host lines start end expected h =
    let hash = compute_anchor_hash host lines (pos start) (pos end) in
    let e : same hash expected ≡ true = (same_iff hash expected).1 h in rw e (ground arith)

replace_span-IsAnchored :
    (host : Host) (disk : Disk) (abs : Bytes) (lines : List Bytes) (op : EditOp) (s e : ℤ)
    → op.lines ≡ s ∷ e ∷ []
    → read_file_lines disk abs ≡ ok lines
    → op.anchor_hash ≡ compute_anchor_hash host lines s e
    → IsAnchored (apply_replace_span host disk abs op)
unfolding apply_replace_span write_file_lines write_file
replace_span-IsAnchored host disk abs lines op s e at read anchor =
    >>=-IsAnchored (span_of op.lines) _ (rw at (span_of-IsAnchored s e)) λ span g.
      let (s_pos, e_pos) = span_of-pos s e span (sym (ap span_of at) ∙ g) in
      >>=-IsAnchored (read_file_lines disk abs) _ (rw read (ground arith)) λ ls f.
        >>=-IsAnchored (fail_if (ltb (length ls) span.1) past_end) _ (ground arith) λ _ _.
          let same_lines : lines ≡ ls = ground (arith, read, f) in
          let hash : compute_anchor_hash host ls (pos span.0) (pos span.1) ≡ op.anchor_hash =
            rw (sym same_lines, sym s_pos, sym e_pos) (sym anchor) in
          >>=-IsAnchored (check_anchor host ls span.0 span.1 op.anchor_hash) _
            (check_anchor-IsAnchored host ls span.0 span.1 op.anchor_hash hash) λ _ _. ground arith

rebase_op-replace_span :
    (host : Host) (i : ℕ) (lines : List Bytes) (op op' : EditOp) (s e : ℤ)
    → op.op ≡ replace_span
    → op.lines ≡ s ∷ e ∷ []
    → rebase_op host i lines op ≡ ok op'
    → record op { anchor_hash = compute_anchor_hash host lines s e } ≡ op'
unfolding rebase_op ◌>>=◌
rebase_op-replace_span host i lines op op' s e kind at rebased = ground arith

apply_op-IsAnchored :
    (host : Host) (disk : Disk) (lines : List Bytes) (op : EditOp) (s e : ℤ)
    → op.op ≡ replace_span
    → op.lines ≡ s ∷ e ∷ []
    → read_file_lines disk (host.abs_path op.path) ≡ ok lines
    → op.anchor_hash ≡ compute_anchor_hash host lines s e
    → IsAnchored (apply_op host disk op)
unfolding apply_op
apply_op-IsAnchored host disk lines op s e kind at read anchor =
    rw (kind, apply_op)
      (replace_span-IsAnchored host disk (host.abs_path op.path) lines op s e at read anchor)

-- A replacement never fails for its anchor once it has been rebased.
never_refused :
    (host : Host) (disk : Disk) (i : ℕ) (lines : List Bytes) (op op' : EditOp) (s e : ℤ)
    → op.op ≡ replace_span
    → op.lines ≡ s ∷ e ∷ []
    → read_file_lines disk (host.abs_path op.path) ≡ ok lines
    → rebase_op host i lines op ≡ ok op'
    → apply_op host disk op' ≢ err anchor_mismatch
never_refused host disk i lines op op' s e kind at read rebased =
    subst (λ o. apply_op host disk o ≢ err anchor_mismatch)
      (rebase_op-replace_span host i lines op op' s e kind at rebased)
      (apply_op-IsAnchored host disk lines
        (record op { anchor_hash = compute_anchor_hash host lines s e }) s e kind at read refl)

-- It succeeds where its lines are there and its file can be written.
replace_span-succeeds :
    (host : Host) (disk : Disk) (lines : List Bytes) (op : EditOp) (from to : ℕ)
    → op.op ≡ replace_span
    → op.lines ≡ pos from ∷ pos to ∷ []
    → 1 ≤ from
    → from ≤ to
    → to ≤ length lines
    → read_file_lines disk (host.abs_path op.path) ≡ ok lines
    → host.writable (host.abs_path op.path) ≡ true
    → op.anchor_hash ≡ compute_anchor_hash host lines (pos from) (pos to)
    → (disk' : Disk) × (apply_op host disk op ≡ ok disk')
unfolding apply_op apply_replace_span span_of check_anchor write_file_lines write_file ◌>>=◌
replace_span-succeeds host disk lines op from to kind at low high inside read can_write anchor =
    let hash = compute_anchor_hash host lines (pos from) (pos to) in
    let low_fits : ltb from 1 ≡ false = ground arith in
    let high_fits : ltb to from ≡ false = ground arith in
    let all_there : ltb (length lines) to ≡ false = ground arith in
    let text =
      join newline (take (from - 1) lines ++ (split_content op.content ++ drop to lines))
      ++ (newline ∷ []) in
    (
      put (host.abs_path op.path) text disk,
      rw
          (
            kind,
            apply_op,
            at,
            low_fits,
            high_fits,
            read,
            ◌>>=◌,
            all_there,
            anchor,
            same_refl hash,
            can_write,
          )
          refl,
    )

-- A rebased replacement overwrites what the file holds by then in the lines that it names, whatever that
-- is and whatever anchor the agent gave: it keeps its file and lines, it succeeds, and the file reads back as the lines before
-- them, the new text, and the lines after them. The lines are in the file, which can be written.
pub rebase_op-SpanResult :
    (host : Host) (disk : Disk) (i : ℕ) (lines : List Bytes) (op op' : EditOp) (from to : ℕ)
    → op.op ≡ replace_span
    → op.lines ≡ pos from ∷ pos to ∷ []
    → 1 ≤ from
    → from ≤ to
    → to ≤ length lines
    → read_file_lines disk (host.abs_path op.path) ≡ ok lines
    → host.writable (host.abs_path op.path) ≡ true
    → rebase_op host i lines op ≡ ok op'
    → (disk' : Disk) × (op'.path ≡ op.path)
      × (op'.lines ≡ op.lines)
      × (apply_op host disk op' ≡ ok disk')
      × SpanResult host op' (split_content op.content) disk disk'
rebase_op-SpanResult host disk i lines op op' from to kind at low high inside read can_write h =
    let anchored = record op { anchor_hash = compute_anchor_hash host lines (pos from) (pos to) } in
    let (disk', done) =
      replace_span-succeeds host disk lines anchored from to kind at low high inside read can_write
        refl in
    subst
      (λ o.
        (d : Disk) × (o.path ≡ op.path)
        × (o.lines ≡ op.lines)
        × (apply_op host disk o ≡ ok d)
        × SpanResult host o (split_content op.content) disk d)
      (rebase_op-replace_span host i lines op op' (pos from) (pos to) kind at h)
      (
        disk',
        refl,
        refl,
        done,
        apply_op-SpanResult host anchored disk disk' (split_content op.content) (rw kind refl) done,
      )
