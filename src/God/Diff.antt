-- ===== src/God/Diff.antt =====
-- god/edit_diff.go: `computeDiff`.
pub mod Sides
pub mod Longest
pub mod Hunks
pub mod Placing
use genesis_ssmp.Base.{
  ℕ, zero, suc, ◌+◌, Bool, true, false, List, [], ◌∷◌, ◌++◌, leb, if◌then◌else◌, Bytes, same,
  get_or, drop, length, replicate,
}

pub data Kind : Type 0 where
  same_line old_line new_line : Kind

pub record DiffOp : Type 0 where
  pub kind : Kind
  pub text : Bytes

-- One row of the table, from the row below it: for each place in `b` and its end.
unfoldable pub lcs_row : Bytes → List Bytes → List ℕ → List ℕ
lcs_row x [] below = 0 ∷ []
lcs_row x (y ∷ b) below =
    let rest = lcs_row x b (drop 1 below) in
    (if same x y
      then get_or below 1 0 + 1
      else if leb (get_or rest 0 0) (get_or below 0 0)
      then get_or below 0 0
      else get_or rest 0 0)
    ∷ rest

-- `lcs`, filled from the last row up.
unfoldable pub lcs_table : List Bytes → List Bytes → List (List ℕ)
lcs_table [] b = replicate (suc (length b)) 0 ∷ []
lcs_table (x ∷ a) b = let rows = lcs_table a b in lcs_row x b (get_or rows 0 []) ∷ rows

-- `lcs[i][j]`
abbrev pub cell : List (List ℕ) → ℕ → ℕ → ℕ
cell lcs i j = get_or (get_or lcs i []) j 0

abbrev pub all_of : Kind → List Bytes → List DiffOp
all_of k [] = []
all_of k (x ∷ xs) = record { kind = k; text = x } ∷ all_of k xs

-- The loop that traces back, at `a[i:]` and `b[j:]`, and the two loops after it.
unfoldable pub trace : List (List ℕ) → ℕ → ℕ → List Bytes → List Bytes → List DiffOp
trace lcs i j [] b = all_of new_line b
trace lcs i j (x ∷ a) [] = all_of old_line (x ∷ a)
trace lcs i j (x ∷ a) (y ∷ b) = elim (same x y) [
  | true ↦ record { kind = same_line; text = x } ∷ trace lcs (suc i) (suc j) a b
  | false ↦ elim (leb (cell lcs i (suc j)) (cell lcs (suc i) j)) [
    | true ↦ record { kind = old_line; text = x } ∷ trace lcs (suc i) j a (y ∷ b)
    | false ↦ record { kind = new_line; text = y } ∷ trace lcs i (suc j) (x ∷ a) b
  ]
]

-- `computeDiff`
unfoldable pub compute_diff : List Bytes → List Bytes → List DiffOp
unfolding lcs_row lcs_table trace
compute_diff a b = trace (lcs_table a b) 0 0 a b
