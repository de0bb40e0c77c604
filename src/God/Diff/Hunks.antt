-- ===== src/God/Diff/Hunks.antt =====
-- god/edit_diff.go: `buildHunks`, `unifiedDiff` and `GenerateDiff`.
use genesis_ssmp.Base.{
  ℕ, suc, ◌+◌, ◌-◌, Bool, true, false, Option, none, some, List, [], ◌∷◌, ◌++◌, ltb, leb,
  if◌then◌else◌, length, take, drop, Bytes, bytes, split_on, trim_suffix, itoa,
}
use genesis_ssmp.God.Diff.{Kind, same_line, old_line, new_line, DiffOp, compute_diff}

pub record ChangeRange : Type 0 where
  pub start : ℕ
  pub end : ℕ

pub record Hunk : Type 0 where
  pub a_start : ℕ
  pub a_count : ℕ
  pub b_start : ℕ
  pub b_count : ℕ
  pub lines : List Bytes

abbrev pub is_change : Kind → Bool
is_change same_line = false
is_change old_line = true
is_change new_line = true

abbrev pub close : Option ℕ → ℕ → List ChangeRange
close none i = []
close (some s) i = record { start = s; end = i } ∷ []

abbrev pub opened : Option ℕ → ℕ → Option ℕ
opened none i = some i
opened (some s) i = some s

-- The runs of changed lines from index `i` on, where one has begun at the index that is given.
unfoldable pub changes_from : ℕ → Option ℕ → List DiffOp → List ChangeRange
changes_from i run [] = close run i
changes_from i run (op ∷ ops) = elim (is_change op.kind) [
  | true ↦ changes_from (suc i) (opened run i) ops
  | false ↦ close run i ++ changes_from (suc i) none ops
]

-- The loop that merges ranges with at most six equal lines between them.
unfoldable pub merge_from : ChangeRange → List ChangeRange → List ChangeRange
merge_from current [] = current ∷ []
merge_from current (c ∷ cs) = elim (leb (c.start - current.end) 6) [
  | true ↦ merge_from (record current { end = c.end }) cs
  | false ↦ current ∷ merge_from c cs
]

abbrev pub groups_of : List ChangeRange → List ChangeRange
groups_of [] = []
groups_of (c ∷ cs) = merge_from c cs

-- How many lines of the old and of the new file operations make up.
unfoldable pub old_count : List DiffOp → ℕ
old_count [] = 0
old_count (op ∷ ops) = elim op.kind [
  | same_line ↦ suc (old_count ops)
  | old_line ↦ suc (old_count ops)
  | new_line ↦ old_count ops
]

unfoldable pub new_count : List DiffOp → ℕ
new_count [] = 0
new_count (op ∷ ops) = elim op.kind [
  | same_line ↦ suc (new_count ops)
  | old_line ↦ new_count ops
  | new_line ↦ suc (new_count ops)
]

abbrev pub marker : Kind → ℕ
marker same_line = b' '
marker old_line = b'-'
marker new_line = b'+'

unfoldable pub marked_lines : List DiffOp → List Bytes
marked_lines [] = []
marked_lines (op ∷ ops) = (marker op.kind ∷ op.text) ∷ marked_lines ops

-- The operations of a group with three more on each side, where there are.
unfoldable pub body_of : List DiffOp → ChangeRange → List DiffOp
body_of ops g =
    let ctx_start = g.start - 3 in
    let ctx_end = if ltb (length ops) (g.end + 3) then length ops else g.end + 3 in
    take (ctx_end - ctx_start) (drop ctx_start ops)

unfoldable pub hunk_of : List DiffOp → ChangeRange → Hunk
unfolding old_count new_count marked_lines body_of
hunk_of ops g = record {
  a_start = old_count (take (g.start - 3) ops);
  a_count = old_count (body_of ops g);
  b_start = new_count (take (g.start - 3) ops);
  b_count = new_count (body_of ops g);
  lines = marked_lines (body_of ops g);
}

unfoldable pub hunks_of : List DiffOp → List ChangeRange → List Hunk
unfolding hunk_of
hunks_of ops [] = []
hunks_of ops (g ∷ gs) = hunk_of ops g ∷ hunks_of ops gs

-- `buildHunks`
unfoldable pub build_hunks : List DiffOp → List Hunk
unfolding changes_from merge_from hunks_of
build_hunks ops = hunks_of ops (groups_of (changes_from 0 none ops))

unfoldable pub has_changes : List DiffOp → Bool
has_changes [] = false
has_changes (op ∷ ops) = if is_change op.kind then true else has_changes ops

unfoldable pub lines_text : List Bytes → Bytes
lines_text [] = []
lines_text (l ∷ ls) = l ++ (b'\n' ∷ lines_text ls)

unfoldable pub hunk_text : Hunk → Bytes
unfolding lines_text
hunk_text h =
    bytes "@@ -"
    ++ (itoa (suc h.a_start)
        ++ (b','
            ∷ (itoa h.a_count
                ++ (bytes " +"
                    ++ (itoa (suc h.b_start)
                        ++ (b',' ∷ (itoa h.b_count ++ (bytes " @@\n" ++ lines_text h.lines))))))))

unfoldable pub hunks_text : List Hunk → Bytes
unfolding hunk_text
hunks_text [] = []
hunks_text (h ∷ hs) = hunk_text h ++ hunks_text hs

abbrev pub with_header : Bytes → Bytes → List Hunk → Bytes
with_header path_a path_b [] = []
with_header path_a path_b (h ∷ hs) =
    bytes "--- " ++ (path_a ++ (bytes "\n+++ " ++ (path_b ++ (b'\n' ∷ hunks_text (h ∷ hs)))))

-- `unifiedDiff`
unfoldable pub unified_diff : Bytes → Bytes → List Bytes → List Bytes → Bytes
unfolding compute_diff has_changes build_hunks hunks_text
unified_diff path_a path_b a b =
    let ops = compute_diff a b in
    if has_changes ops then with_header path_a path_b (build_hunks ops) else []

-- `splitLines`
unfoldable pub split_lines : Bytes → List Bytes
split_lines [] = []
split_lines (c ∷ s) = split_on b'\n' (trim_suffix b'\n' (c ∷ s))

-- `GenerateDiff`
unfoldable pub generate_diff : Bytes → Bytes → Bytes → Bytes
unfolding unified_diff split_lines
generate_diff path old_content new_content =
    unified_diff (bytes "a/" ++ path) (bytes "b/" ++ path) (split_lines old_content)
      (split_lines new_content)
