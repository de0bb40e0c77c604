-- ===== src/God/Diff/Longest.antt =====
-- god/edit_diff.go: the table holds the lengths of longest common subsequences, and the diff keeps
-- as many lines as can be kept.
use Prim.Native.Nat.{max}
use genesis_ssmp.Base.{
  ℕ, zero, suc, ◌+◌, ◌≤◌, ◌≡◌, ◌≢◌, ◌⊎◌, refl, sym, ap, subst, ◌∙◌, true, false, List, [], ◌∷◌,
  arith, leb, Bytes, same, same_iff, Bool-cases, inl, inr, get_or, drop, length, replicate,
}
use genesis_ssmp.God.Diff.{
  Kind, same_line, old_line, new_line, DiffOp, lcs_row, lcs_table, cell, all_of, trace,
  compute_diff,
}

-- The length of a longest common subsequence, by recursion on both lists.
pub longest : List Bytes → List Bytes → ℕ
longest [] b = 0
longest (x ∷ a) [] = 0
longest (x ∷ a) (y ∷ b) = elim (same x y) [
  | true ↦ suc (longest a b)
  | false ↦ max (longest a (y ∷ b)) (longest (x ∷ a) b)
]

longest-same :
    (x y : Bytes) (a b : List Bytes) → same x y ≡ true → longest (x ∷ a) (y ∷ b) ≡ suc (longest a b)
unfolding longest
longest-same x y a b e = rw (e, longest)

longest-differ :
    (x y : Bytes) (a b : List Bytes)
    → same x y ≡ false
    → longest (x ∷ a) (y ∷ b) ≡ max (longest a (y ∷ b)) (longest (x ∷ a) b)
unfolding longest
longest-differ x y a b e = rw (e, longest)

longest-nil : (a : List Bytes) → longest a [] ≡ 0
unfolding longest
longest-nil [] = refl
longest-nil (x ∷ a) = refl

abbrev row_of : List Bytes → List Bytes → List ℕ
row_of a [] = 0 ∷ []
row_of a (y ∷ b) = longest a (y ∷ b) ∷ row_of a b

get_or-row_of :
    (a b : List Bytes) (l : ℕ) → l ≤ length b → get_or (row_of a b) l 0 ≡ longest a (drop l b)
get_or-row_of a [] zero h = sym (longest-nil a)
get_or-row_of a [] (suc l) h = absurd (omega arith)
get_or-row_of a (y ∷ b) zero h = refl
get_or-row_of a (y ∷ b) (suc l) h = get_or-row_of a b l (omega arith)

lcs_row-row_of : (x : Bytes) (a b : List Bytes) → lcs_row x b (row_of a b) ≡ row_of (x ∷ a) b
unfolding lcs_row
lcs_row-row_of x a [] = refl
lcs_row-row_of x a (y ∷ b) =
    rw
      (
        lcs_row-row_of x a b,
        get_or-row_of a b 0 (omega arith),
        get_or-row_of (x ∷ a) b 0 (omega arith),
      )
      (elim (Bool-cases (same x y)) [
        | inl e ↦ ground (arith, longest-same x y a b e)
        | inr e ↦ ground (arith, longest-differ x y a b e)
      ])

replicate-row_of : (b : List Bytes) → replicate (suc (length b)) 0 ≡ row_of [] b
unfolding longest
replicate-row_of [] = refl
replicate-row_of (y ∷ b) = ap (◌∷◌ 0) (replicate-row_of b)

abbrev rows_of : List Bytes → List Bytes → List (List ℕ)
rows_of [] b = row_of [] b ∷ []
rows_of (x ∷ a) b = row_of (x ∷ a) b ∷ rows_of a b

get_or-rows_of :
    (a b : List Bytes) (k : ℕ) → k ≤ length a → get_or (rows_of a b) k [] ≡ row_of (drop k a) b
get_or-rows_of [] b zero h = refl
get_or-rows_of [] b (suc k) h = absurd (omega arith)
get_or-rows_of (x ∷ a) b zero h = refl
get_or-rows_of (x ∷ a) b (suc k) h = get_or-rows_of a b k (omega arith)

lcs_table-rows_of : (a b : List Bytes) → lcs_table a b ≡ rows_of a b
unfolding lcs_table
lcs_table-rows_of [] b = ap (λ r. r ∷ []) (replicate-row_of b)
lcs_table-rows_of (x ∷ a) b =
    rw (lcs_table-rows_of a b, get_or-rows_of a b 0 (omega arith), lcs_row-row_of x a b)

-- From row `i` and column `j` on, the table is the one of `a` and `b`.
abbrev Holds : List (List ℕ) → ℕ → ℕ → List Bytes → List Bytes → Type 0
Holds lcs i j a b =
    (k l : ℕ)
    → k ≤ length a
    → l ≤ length b
    → cell lcs (k + i) (l + j) ≡ longest (drop k a) (drop l b)

abbrev pub kept : List DiffOp → ℕ
kept [] = 0
kept (o ∷ ops) = elim o.kind [ same_line ↦ suc (kept ops) | _ ↦ kept ops ]

kept-all_of : (k : Kind) (xs : List Bytes) → k ≢ same_line → kept (all_of k xs) ≡ 0
kept-all_of k [] h = refl
kept-all_of k (x ∷ xs) h = ground (arith, kept-all_of k xs h)

Holds-down :
    (lcs : List (List ℕ)) (i j : ℕ) (x : Bytes) (a b : List Bytes)
    → Holds lcs i j (x ∷ a) b
    → Holds lcs (suc i) j a b
Holds-down lcs i j x a b h k l p q =
    let e : k + suc i ≡ suc k + i = omega arith in rw e (h (suc k) l (omega arith) q)

Holds-right :
    (lcs : List (List ℕ)) (i j : ℕ) (y : Bytes) (a b : List Bytes)
    → Holds lcs i j a (y ∷ b)
    → Holds lcs i (suc j) a b
Holds-right lcs i j y a b h k l p q =
    let e : l + suc j ≡ suc l + j = omega arith in rw e (h k (suc l) p (omega arith))

kept-trace :
    (lcs : List (List ℕ)) (i j : ℕ) (a b : List Bytes)
    → Holds lcs i j a b
    → kept (trace lcs i j a b) ≡ longest a b
unfolding trace
kept-trace lcs i j [] b h = unfold longest in kept-all_of new_line b (λ e. cc)
kept-trace lcs i j (x ∷ a) [] h = unfold longest in kept-all_of old_line (x ∷ a) (λ e. cc)
kept-trace lcs i j (x ∷ a) (y ∷ b) h = elim (Bool-cases (same x y)) [
  | inl e ↦
      let diagonal = Holds-right lcs (suc i) j y a b (Holds-down lcs i j x a (y ∷ b) h) in
      rw (e, trace)
        (ap suc (kept-trace lcs (suc i) (suc j) a b diagonal) ∙ sym (longest-same x y a b e))
  | inr e ↦ elim (Bool-cases (leb (cell lcs i (suc j)) (cell lcs (suc i) j))) [
    | inl f ↦
        rw (e, trace)
          (rw f (
            kept-trace lcs (suc i) j a (y ∷ b) (Holds-down lcs i j x a (y ∷ b) h)
            ∙ ground (arith, f, down, right, longest-differ x y a b e)))
    | inr f ↦
        rw (e, trace)
          (rw f (
            kept-trace lcs i (suc j) (x ∷ a) b (Holds-right lcs i j y (x ∷ a) b h)
            ∙ ground (arith, f, down, right, longest-differ x y a b e)))
  ]
]
  where
    down : cell lcs (suc i) j ≡ longest a (y ∷ b)
    down =
        let p : 1 + i ≡ suc i = omega arith in
        let q : 0 + j ≡ j = omega arith in rw (p, q) at (h 1 0 (omega arith) (omega arith))

    right : cell lcs i (suc j) ≡ longest (x ∷ a) b
    right =
        let p : 0 + i ≡ i = omega arith in
        let q : 1 + j ≡ suc j = omega arith in rw (p, q) at (h 0 1 (omega arith) (omega arith))

rows_of-Holds : (a b : List Bytes) → Holds (rows_of a b) 0 0 a b
rows_of-Holds a b k l p q =
    let e : k + 0 ≡ k = omega arith in
    let f : l + 0 ≡ l = omega arith in
    rw (e, f) (rw (get_or-rows_of a b k p) (get_or-row_of (drop k a) b l q))

kept-compute_diff : (a b : List Bytes) → kept (compute_diff a b) ≡ longest a b
unfolding compute_diff
kept-compute_diff a b =
    kept-trace (lcs_table a b) 0 0 a b (rw lcs_table-rows_of (rows_of-Holds a b))

-- The lines of the first list are lines of the second, in the same order.
abbrev pub IsSubsequence : List Bytes → List Bytes → Type 0
IsSubsequence zs [] = zs ≡ []
IsSubsequence zs (x ∷ xs) =
    IsSubsequence zs xs ⊎ ((ys : List Bytes) × (zs ≡ x ∷ ys) × IsSubsequence ys xs)

IsSubsequence-tail :
    (z : Bytes) (zs xs : List Bytes) → IsSubsequence (z ∷ zs) xs → IsSubsequence zs xs
IsSubsequence-tail z zs [] h = cc
IsSubsequence-tail z zs (x ∷ xs) (inl h) = inl (IsSubsequence-tail z zs xs h)
IsSubsequence-tail z zs (x ∷ xs) (inr (ys, e, h)) =
    inl (subst (λ l. IsSubsequence l xs) (ground arith) h)

module _ (x y : Bytes) (a b : List Bytes) where
  longest_matched :
      (zs : List Bytes)
      → same x y ≡ true
      → ((ys : List Bytes) → IsSubsequence ys a → IsSubsequence ys b → length ys ≤ longest a b)
      → IsSubsequence zs (x ∷ a)
      → IsSubsequence zs (y ∷ b)
      → length zs ≤ longest (x ∷ a) (y ∷ b)
  longest_matched zs t ih (inl h) (inl k) = omega (arith, ih zs h k, longest-same x y a b t)
  longest_matched zs t ih (inl h) (inr (ys, e, k)) =
      let g = IsSubsequence-tail y ys a (subst (λ l. IsSubsequence l a) e h) in
      omega (arith, ih ys g k, longest-same x y a b t, ap length e)
  longest_matched zs t ih (inr (ys, e, h)) (inl k) =
      let g = IsSubsequence-tail x ys b (subst (λ l. IsSubsequence l b) e k) in
      omega (arith, ih ys h g, longest-same x y a b t, ap length e)
  longest_matched zs t ih (inr (ys, e, h)) (inr (ws, f, k)) =
      let g = subst (λ l. IsSubsequence l b) {x = ws} {y = ys} (ground arith) k in
      omega (arith, ih ys h g, longest-same x y a b t, ap length e)

  longest_differing :
      (zs : List Bytes)
      → same x y ≡ false
      → (IsSubsequence zs a → IsSubsequence zs (y ∷ b) → length zs ≤ longest a (y ∷ b))
      → (IsSubsequence zs (x ∷ a) → IsSubsequence zs b → length zs ≤ longest (x ∷ a) b)
      → IsSubsequence zs (x ∷ a)
      → IsSubsequence zs (y ∷ b)
      → length zs ≤ longest (x ∷ a) (y ∷ b)
  longest_differing zs t down right (inl h) k = omega (arith, down h k, longest-differ x y a b t)
  longest_differing zs t down right (inr h) (inl k) =
      omega (arith, right (inr h) k, longest-differ x y a b t)
  longest_differing zs t down right (inr (ys, e, h)) (inr (ws, f, k)) =
      absurd (ground (arith, same_iff x y))

length-le-longest :
    (a b zs : List Bytes) → IsSubsequence zs a → IsSubsequence zs b → length zs ≤ longest a b
length-le-longest [] b zs h k = rw h (omega arith)
length-le-longest (x ∷ a) [] zs h k = rw k (omega arith)
length-le-longest (x ∷ a) (y ∷ b) zs h k = elim (Bool-cases (same x y)) [
  | inl t ↦ longest_matched x y a b zs t (length-le-longest a b) h k
  | inr t ↦
      longest_differing x y a b zs t (length-le-longest a (y ∷ b) zs)
        (length-le-longest (x ∷ a) b zs) h k
]

-- The diff keeps the most lines that can be kept: every list of lines that is a subsequence of both
-- files is at most as long as the list of lines that the diff keeps.
pub compute_diff-longest :
    (a b zs : List Bytes)
    → IsSubsequence zs a
    → IsSubsequence zs b
    → length zs ≤ kept (compute_diff a b)
compute_diff-longest a b zs h k = rw kept-compute_diff (length-le-longest a b zs h k)
