-- ===== src/God/Diff/Placing.antt =====
-- god/edit_diff.go: the hunks stand where they say.
use genesis_ssmp.Base.{
  ◌==◌, ℕ, ◌-◌, ◌≡◌, refl, sym, subst, ap, ◌∙◌, none, List, [], ◌∷◌, ◌++◌, arith, if◌then◌else◌,
  length, take, drop, All, take-append-drop, Bytes,
}
use genesis_ssmp.God.Diff.{Kind, same_line, old_line, new_line, DiffOp, compute_diff}
use genesis_ssmp.God.Diff.Sides.{old_side, new_side, compute_diff-Sides}
use genesis_ssmp.God.Diff.Hunks.{
  ChangeRange, Hunk, old_count, new_count, marked_lines, body_of, hunk_of, hunks_of, groups_of,
  changes_from, build_hunks, marker,
}

-- The lines of a hunk that are of the old file, and those of the new one, without their markers.
abbrev pub old_part : List Bytes → List Bytes
old_part [] = []
old_part ([] ∷ ls) = old_part ls
old_part ((m ∷ text) ∷ ls) = if m == b'+' then old_part ls else text ∷ old_part ls

abbrev pub new_part : List Bytes → List Bytes
new_part [] = []
new_part ([] ∷ ls) = new_part ls
new_part ((m ∷ text) ∷ ls) = if m == b'-' then new_part ls else text ∷ new_part ls

part-marked_lines :
    (ops : List DiffOp)
    → (old_part (marked_lines ops) ≡ old_side ops) × (new_part (marked_lines ops) ≡ new_side ops)
unfolding marked_lines
part-marked_lines [] = (refl, refl)
part-marked_lines (op ∷ ops) = go op.kind (part-marked_lines ops)
  where
    go :
        (k : Kind)
        → (old_part (marked_lines ops) ≡ old_side ops)
          × (new_part (marked_lines ops) ≡ new_side ops)
        → (old_part ((marker k ∷ op.text) ∷ marked_lines ops)
            ≡ elim k [ new_line ↦ old_side ops | _ ↦ op.text ∷ old_side ops ])
          × (new_part ((marker k ∷ op.text) ∷ marked_lines ops)
              ≡ elim k [ old_line ↦ new_side ops | _ ↦ op.text ∷ new_side ops ])
    go same_line (h, k) = (ap (◌∷◌ op.text) h, ap (◌∷◌ op.text) k)
    go old_line (h, k) = (ap (◌∷◌ op.text) h, k)
    go new_line (h, k) = (h, ap (◌∷◌ op.text) k)

count-side :
    (ops : List DiffOp)
    → (old_count ops ≡ length (old_side ops)) × (new_count ops ≡ length (new_side ops))
unfolding old_count new_count
count-side [] = (refl, refl)
count-side (op ∷ ops) = (ground (arith, (count-side ops).0), ground (arith, (count-side ops).1))

side-append :
    (xs ys : List DiffOp)
    → (old_side (xs ++ ys) ≡ old_side xs ++ old_side ys)
      × (new_side (xs ++ ys) ≡ new_side xs ++ new_side ys)
side-append [] ys = (refl, refl)
side-append (op ∷ xs) ys =
    (ground (arith, (side-append xs ys).0), ground (arith, (side-append xs ys).1))

-- The middle of three lists, cut out.
take-drop-middle {ℓ} :
    {A : Type ℓ} (xs ys zs : List A) → take (length ys) (drop (length xs) (xs ++ (ys ++ zs))) ≡ ys
take-drop-middle [] [] zs = refl
take-drop-middle [] (y ∷ ys) zs = ap (◌∷◌ y) (take-drop-middle [] ys zs)
take-drop-middle (x ∷ xs) ys zs = take-drop-middle xs ys zs

-- A hunk holds, of each file, the lines from where it says on, as many as it says.
abbrev pub IsPlaced : List Bytes → List Bytes → Hunk → Type 0
IsPlaced a b h =
    (take h.a_count (drop h.a_start a) ≡ old_part h.lines)
    × (take h.b_count (drop h.b_start b) ≡ new_part h.lines)
    × (length (old_part h.lines) ≡ h.a_count)
    × (length (new_part h.lines) ≡ h.b_count)

-- The hunk of the operations `mid`, behind `pre`.
abbrev hunk_at : List DiffOp → List DiffOp → Hunk
hunk_at pre mid = record {
  a_start = old_count pre;
  a_count = old_count mid;
  b_start = new_count pre;
  b_count = new_count mid;
  lines = marked_lines mid;
}

middle-IsPlaced :
    (pre mid post : List DiffOp)
    → IsPlaced (old_side (pre ++ (mid ++ post))) (new_side (pre ++ (mid ++ post))) (hunk_at pre mid)
middle-IsPlaced pre mid post = placed
  where
    parts :
        (old_part (marked_lines mid) ≡ old_side mid) × (new_part (marked_lines mid) ≡ new_side mid)
    parts = part-marked_lines mid

    old_whole : old_side (pre ++ (mid ++ post)) ≡ old_side pre ++ (old_side mid ++ old_side post)
    old_whole =
        (side-append pre (mid ++ post)).0 ∙ ap (◌++◌ (old_side pre)) (side-append mid post).0

    new_whole : new_side (pre ++ (mid ++ post)) ≡ new_side pre ++ (new_side mid ++ new_side post)
    new_whole =
        (side-append pre (mid ++ post)).1 ∙ ap (◌++◌ (new_side pre)) (side-append mid post).1

    placed :
        (take (old_count mid) (drop (old_count pre) (old_side (pre ++ (mid ++ post))))
          ≡ old_part (marked_lines mid))
        × (take (new_count mid) (drop (new_count pre) (new_side (pre ++ (mid ++ post))))
            ≡ new_part (marked_lines mid))
        × (length (old_part (marked_lines mid)) ≡ old_count mid)
        × (length (new_part (marked_lines mid)) ≡ new_count mid)
    placed = (
      rw ((count-side mid).0, (count-side pre).0, old_whole, parts.0)
          (take-drop-middle (old_side pre) (old_side mid) (old_side post)),
      rw ((count-side mid).1, (count-side pre).1, new_whole, parts.1)
          (take-drop-middle (new_side pre) (new_side mid) (new_side post)),
      rw parts.0 (sym (count-side mid).0),
      rw parts.1 (sym (count-side mid).1),
    )

cut-IsPlaced :
    (n k : ℕ) (ops : List DiffOp)
    → IsPlaced (old_side ops) (new_side ops) (hunk_at (take n ops) (take k (drop n ops)))
cut-IsPlaced n k ops =
    subst (λ o. IsPlaced (old_side o) (new_side o) (hunk_at (take n ops) (take k (drop n ops))))
      (ap (◌++◌ (take n ops)) (take-append-drop k (drop n ops)) ∙ take-append-drop n ops)
      (middle-IsPlaced (take n ops) (take k (drop n ops)) (drop k (drop n ops)))

hunks_of-IsPlaced :
    (ops : List DiffOp) (gs : List ChangeRange)
    → All (IsPlaced (old_side ops) (new_side ops)) (hunks_of ops gs)
unfolding hunks_of hunk_of body_of
hunks_of-IsPlaced ops [] = tt
hunks_of-IsPlaced ops (g ∷ gs) = (cut-IsPlaced (g.start - 3) _ ops, hunks_of-IsPlaced ops gs)

-- Every hunk of a diff is placed: its context and removed lines are the lines of the old file from
-- its start on, as many as its count says, and its context and added lines those of the new file.
pub build_hunks-IsPlaced : (a b : List Bytes) → All (IsPlaced a b) (build_hunks (compute_diff a b))
unfolding build_hunks
build_hunks-IsPlaced a b =
    let ops = compute_diff a b in
    let (old, new) = compute_diff-Sides a b in
    subst (λ x. All (IsPlaced x b) (build_hunks ops)) old
      (subst (λ y. All (IsPlaced (old_side ops) y) (build_hunks ops)) new
        (hunks_of-IsPlaced ops (groups_of (changes_from 0 none ops))))
