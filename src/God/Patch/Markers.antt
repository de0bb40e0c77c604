-- ===== src/God/Patch/Markers.antt =====
-- god/patch_v1.go: the marker of each line that encodes a step.
use genesis_ssmp.Base.{
  ends_with, length-append, ends_plain-append, ◌||◌, ℕ, suc, ◌-◌, ◌≡◌, refl, ap, ◌∙◌, Bool, true,
  false, not, [], ◌∷◌, ◌++◌, arith, ◌==◌, if◌then◌else◌, length, take, Bytes, bytes, same,
  has_prefix, trim_space, itoa, ends_plain, starts_with_digit, trim_space-plain, trim_space-empty,
  itoa-starts, itoa-ends_plain, Bool-cases, inl, inr,
}
use genesis_ssmp.God.Patch.Delta.{
  Marker, keep_one, skip_one, keep_many, skip_many, literal, unbraced, marker_of, line_marker,
}

-- The spellings of a count: none for a single line, as it is, and in braces.
pub data Spelling : Type 0 where
  shortest counted braced : Spelling

-- What an encoded span says: keep or skip a number of lines, or put in a new one.
pub data Step : Type 0 where
  keep_lines skip_lines : Spelling → ℕ → Step
  new_line : Bytes → Step

abbrev pub spelled : Spelling → ℕ → Bytes
spelled shortest n = if n == 1 then [] else itoa n
spelled counted n = itoa n
spelled braced n = b'{' ∷ (itoa n ++ b'}' ∷ [])

-- The line that encodes a step.
unfoldable pub written : Step → Bytes
written (keep_lines w n) = b'@' ∷ b'K' ∷ spelled w n
written (skip_lines w n) = b'@' ∷ b'S' ∷ spelled w n
written (new_line l) = if has_prefix l (bytes "@") then b'@' ∷ l else l

-- A line that begins with "@" ends in a printing character; no other begins so when it is trimmed.
abbrev pub is_writable : Bytes → Bool
is_writable l =
    if has_prefix l (bytes "@") then ends_plain l else not (has_prefix (trim_space l) (bytes "@"))

keep-marker :
    (line w : Bytes) → starts_with_digit w ≡ true → marker_of line (b'@' ∷ b'K' ∷ w) ≡ keep_many w
unfolding marker_of has_prefix same
keep-marker line [] h = absurd (ground arith)
keep-marker line (c ∷ w) h = rw h refl

skip-marker :
    (line w : Bytes) → starts_with_digit w ≡ true → marker_of line (b'@' ∷ b'S' ∷ w) ≡ skip_many w
unfolding marker_of has_prefix same
skip-marker line [] h = absurd (ground arith)
skip-marker line (c ∷ w) h = rw h refl

-- A count that is not in braces is left as it is.
unbraced-counted :
    (k : ℕ) (w : Bytes) → starts_with_digit w ≡ true → unbraced (b'@' ∷ k ∷ w) ≡ b'@' ∷ k ∷ w
unfolding unbraced has_prefix
unbraced-counted k [] h = absurd (ground arith)
unbraced-counted k (c ∷ w) h =
    let not_brace : (c == b'{') ≡ false = ground arith in ground (arith, not_brace)

-- The braces are taken off.
ends_with-last : (s : Bytes) (c : ℕ) → ends_with c (s ++ c ∷ []) ≡ true
ends_with-last [] c = ground arith
ends_with-last (x ∷ []) c = ground arith
ends_with-last (x ∷ y ∷ s) c = ends_with-last (y ∷ s) c

take-all_but_last : (s : Bytes) (c : ℕ) → take (length s) (s ++ c ∷ []) ≡ s
take-all_but_last [] c = refl
take-all_but_last (x ∷ s) c = ap (x ∷◌) (take-all_but_last s c)

unbraced-braced :
    (k : ℕ) (w : Bytes)
    → has_prefix (b'@' ∷ k ∷ b'{' ∷ (w ++ b'}' ∷ [])) (bytes "@K{")
        || has_prefix (b'@' ∷ k ∷ b'{' ∷ (w ++ b'}' ∷ [])) (bytes "@S{")
      ≡ true
    → unbraced (b'@' ∷ k ∷ b'{' ∷ (w ++ b'}' ∷ [])) ≡ b'@' ∷ k ∷ w
unfolding unbraced
unbraced-braced k w h =
    let size : length (w ++ b'}' ∷ []) ≡ suc (length w) =
      length-append w (b'}' ∷ []) ∙ omega arith in
    let less : suc (suc (suc (suc (length w)))) - 1 ≡ suc (suc (suc (length w))) = omega arith in
    rw (h, ends_with-last (b'@' ∷ k ∷ b'{' ∷ w) b'}', size, less, take-all_but_last w b'}') refl

-- What the trimmed line of a count is, behind its letter.
counted-trimmed : (k n : ℕ) → unbraced (trim_space (b'@' ∷ k ∷ itoa n)) ≡ b'@' ∷ k ∷ itoa n
counted-trimmed k n =
    rw
      (trim_space-plain (b'@' ∷ k ∷ itoa n) refl
        (ends_plain-append (b'@' ∷ k ∷ []) (itoa n) (itoa-ends_plain n)))
      (unbraced-counted k (itoa n) (itoa-starts n))

braced-trimmed :
    (k n : ℕ)
    → has_prefix (b'@' ∷ k ∷ spelled braced n) (bytes "@K{")
        || has_prefix (b'@' ∷ k ∷ spelled braced n) (bytes "@S{")
      ≡ true
    → unbraced (trim_space (b'@' ∷ k ∷ spelled braced n)) ≡ b'@' ∷ k ∷ itoa n
braced-trimmed k n h =
    rw
      (trim_space-plain (b'@' ∷ k ∷ spelled braced n) refl
        (ends_plain-append (b'@' ∷ k ∷ b'{' ∷ itoa n) (b'}' ∷ []) refl))
      (unbraced-braced k (itoa n) h)

-- The marker of a count in its spelling.
abbrev pub keep_marker : Spelling → ℕ → Marker
keep_marker shortest n = if n == 1 then keep_one else keep_many (itoa n)
keep_marker _ n = keep_many (itoa n)

abbrev pub skip_marker : Spelling → ℕ → Marker
skip_marker shortest n = if n == 1 then skip_one else skip_many (itoa n)
skip_marker _ n = skip_many (itoa n)

pub keep_lines-marker :
    (w : Spelling) (n : ℕ) → line_marker (b'@' ∷ b'K' ∷ spelled w n) ≡ keep_marker w n
unfolding line_marker unbraced marker_of has_prefix same
keep_lines-marker shortest n = elim (Bool-cases (n == 1)) [
  | inl e ↦ rw (e, trim_space-plain (b'@' ∷ b'K' ∷ []) refl refl) refl
  | inr e ↦
      rw (e, counted-trimmed b'K' n) (keep-marker (b'@' ∷ b'K' ∷ itoa n) (itoa n) (itoa-starts n))
]
keep_lines-marker counted n =
    rw (counted-trimmed b'K' n)
      (keep-marker (b'@' ∷ b'K' ∷ spelled counted n) (itoa n) (itoa-starts n))
keep_lines-marker braced n =
    rw (braced-trimmed b'K' n refl)
      (keep-marker (b'@' ∷ b'K' ∷ spelled braced n) (itoa n) (itoa-starts n))

pub skip_lines-marker :
    (w : Spelling) (n : ℕ) → line_marker (b'@' ∷ b'S' ∷ spelled w n) ≡ skip_marker w n
unfolding line_marker unbraced marker_of has_prefix same
skip_lines-marker shortest n = elim (Bool-cases (n == 1)) [
  | inl e ↦ rw (e, trim_space-plain (b'@' ∷ b'S' ∷ []) refl refl) refl
  | inr e ↦
      rw (e, counted-trimmed b'S' n) (skip-marker (b'@' ∷ b'S' ∷ itoa n) (itoa n) (itoa-starts n))
]
skip_lines-marker counted n =
    rw (counted-trimmed b'S' n)
      (skip-marker (b'@' ∷ b'S' ∷ spelled counted n) (itoa n) (itoa-starts n))
skip_lines-marker braced n =
    rw (braced-trimmed b'S' n refl)
      (skip-marker (b'@' ∷ b'S' ∷ spelled braced n) (itoa n) (itoa-starts n))

escaped-marker :
    (l : Bytes) → ends_plain (b'@' ∷ l) ≡ true → line_marker (b'@' ∷ b'@' ∷ l) ≡ literal (b'@' ∷ l)
unfolding line_marker unbraced marker_of has_prefix same
escaped-marker l k = rw (trim_space-plain (b'@' ∷ b'@' ∷ l) refl k) refl

plain-marker :
    (l t : Bytes)
    → has_prefix l (bytes "@") ≡ false
    → has_prefix t (bytes "@") ≡ false
    → marker_of l (unbraced t) ≡ literal l
unfolding unbraced marker_of has_prefix same
plain-marker l [] h k = ground arith
plain-marker l (c ∷ t) h k = ground arith

pub new_line-marker :
    (l : Bytes) → is_writable l ≡ true → line_marker (written (new_line l)) ≡ literal l
unfolding written line_marker has_prefix
new_line-marker [] h = plain-marker [] (trim_space []) refl (rw trim_space-empty refl)
new_line-marker (c ∷ l) h = elim (Bool-cases (c == b'@')) [
  | inl e ↦
      let at : c ≡ b'@' = ground arith in
      rw (at, has_prefix) (escaped-marker l (ground (arith, h, at)))
  | inr e ↦ rw e (plain-marker (c ∷ l) (trim_space (c ∷ l)) (ground arith) (ground (arith, h, e)))
]
