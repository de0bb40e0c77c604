-- ===== src/God/Edit/Lines.antt =====
-- god/edit_apply.go: a file that is written by lines reads back as those lines.
use genesis_ssmp.Base.{
  Without, split_on-joined, ℕ, ◌≡◌, ◌≢◌, refl, ap, List, [], ◌∷◌, ◌++◌, arith, ◌==◌, All, Bytes,
  same_refl, split_on, cons_head, join, trim_suffix, put, get-put, ok, Bool-cases, inl, inr,
}
use genesis_ssmp.God.Edit.{Disk, newline, read_file_lines}

abbrev pub IsOneLine : Bytes → Type 0
IsOneLine = Without newline

trim_suffix-append : (c : ℕ) (s : Bytes) → trim_suffix c (s ++ (c ∷ [])) ≡ s
unfolding trim_suffix
trim_suffix-append c [] = ground arith
trim_suffix-append c (x ∷ []) = ground arith
trim_suffix-append c (x ∷ y ∷ s) = ap (◌∷◌ x) (trim_suffix-append c (y ∷ s))

-- A file of no lines is written as one empty line.
abbrev pub or_blank : List Bytes → List Bytes
or_blank [] = [] ∷ []
or_blank (l ∷ ls) = l ∷ ls

pub read_file_lines-put :
    (disk : Disk) (path : Bytes) (ls : List Bytes)
    → All IsOneLine ls
    → read_file_lines (put path (join newline ls ++ (newline ∷ [])) disk) path ≡ ok (or_blank ls)
unfolding read_file_lines join
read_file_lines-put disk path [] h =
    ground (arith, get-put path path (newline ∷ []) disk, same_refl path, blank)
  where
    blank : split_on newline (trim_suffix newline (newline ∷ [])) ≡ [] ∷ []
    blank = unfold split_on trim_suffix in refl
read_file_lines-put disk path (l ∷ ls) h = ground (
  arith,
  get-put path path (join newline (l ∷ ls) ++ (newline ∷ [])) disk,
  same_refl path,
  trim_suffix-append newline (join newline (l ∷ ls)),
  split_on-joined newline l ls h,
)

cons_head-IsOneLine :
    (c : ℕ) (ls : List Bytes) → c ≢ newline → All IsOneLine ls → All IsOneLine (cons_head c ls)
cons_head-IsOneLine c [] n h = ((n, tt), tt)
cons_head-IsOneLine c (l ∷ ls) n h = ((n, h.0), h.1)

pub split_on-IsOneLine : (s : Bytes) → All IsOneLine (split_on newline s)
unfolding split_on
split_on-IsOneLine [] = (tt, tt)
split_on-IsOneLine (c ∷ s) = elim (Bool-cases (c == newline)) [
  | inl e ↦ rw (e, split_on) (tt, split_on-IsOneLine s)
  | inr e ↦
      rw (e, split_on)
        (cons_head-IsOneLine c (split_on newline s) (ground arith) (split_on-IsOneLine s))
]
