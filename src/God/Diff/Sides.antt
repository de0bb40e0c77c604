-- ===== src/God/Diff/Sides.antt =====
-- god/edit_diff.go: a diff holds both of its files.
use genesis_ssmp.Base.{
  ℕ, suc, ◌≡◌, refl, ap, List, [], ◌∷◌, leb, Bytes, same, same_iff, Bool-cases, inl, inr,
}
use genesis_ssmp.God.Diff.{old_line, new_line, DiffOp, lcs_table, cell, all_of, trace, compute_diff}

-- The lines of the file before, and of the file after, as a reader of the diff sees them.
abbrev pub old_side : List DiffOp → List Bytes
old_side [] = []
old_side (o ∷ ops) = elim o.kind [ new_line ↦ old_side ops | _ ↦ o.text ∷ old_side ops ]

abbrev pub new_side : List DiffOp → List Bytes
new_side [] = []
new_side (o ∷ ops) = elim o.kind [ old_line ↦ new_side ops | _ ↦ o.text ∷ new_side ops ]

abbrev Sides : List DiffOp → List Bytes → List Bytes → Type 0
Sides ops a b = (old_side ops ≡ a) × (new_side ops ≡ b)

all_of-new : (b : List Bytes) → Sides (all_of new_line b) [] b
all_of-new [] = (refl, refl)
all_of-new (y ∷ b) = ((all_of-new b).0, ap (◌∷◌ y) (all_of-new b).1)

all_of-old : (a : List Bytes) → Sides (all_of old_line a) a []
all_of-old [] = (refl, refl)
all_of-old (x ∷ a) = (ap (◌∷◌ x) (all_of-old a).0, (all_of-old a).1)

trace-Sides : (lcs : List (List ℕ)) (i j : ℕ) (a b : List Bytes) → Sides (trace lcs i j a b) a b
unfolding trace
trace-Sides lcs i j [] b = all_of-new b
trace-Sides lcs i j (x ∷ a) [] = all_of-old (x ∷ a)
trace-Sides lcs i j (x ∷ a) (y ∷ b) = elim (Bool-cases (same x y)) [
  | inl e ↦
      let h = trace-Sides lcs (suc i) (suc j) a b in
      rw (e, trace) (ap (◌∷◌ x) h.0, rw ((same_iff x y).0 e) (ap (◌∷◌ y) h.1))
  | inr e ↦ elim (Bool-cases (leb (cell lcs i (suc j)) (cell lcs (suc i) j))) [
    | inl f ↦
        let h = trace-Sides lcs (suc i) j a (y ∷ b) in rw (e, trace) (rw f (ap (◌∷◌ x) h.0, h.1))
    | inr f ↦
        let h = trace-Sides lcs i (suc j) (x ∷ a) b in rw (e, trace) (rw f (h.0, ap (◌∷◌ y) h.1))
  ]
]

-- The kept and the removed lines of a diff are the old file, and its kept and added lines the new
-- one, each in order, for any two files.
pub compute_diff-Sides :
    (a b : List Bytes) → (old_side (compute_diff a b) ≡ a) × (new_side (compute_diff a b) ≡ b)
unfolding compute_diff
compute_diff-Sides a b = trace-Sides (lcs_table a b) 0 0 a b
