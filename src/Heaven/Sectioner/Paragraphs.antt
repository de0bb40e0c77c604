-- ===== src/Heaven/Sectioner/Paragraphs.antt =====
-- heaven/sectioner.go: `splitAtParagraphs` ends, loses nothing and keeps to the limit.
use genesis_ssmp.Base.{
  ◌∙◌, ℕ, zero, suc, ◌+◌, ◌≤◌, ◌<◌, ◌≡◌, refl, ap, inl, inr, some, [], ◌∷◌, ◌++◌, arith, ltb, leb,
  if◌then◌else◌, length, take, drop, All, length-take, length-drop, take-append-drop, Bool-cases,
  Option-cases, Bytes, bytes, is_empty, last_index, has_prefix, concat, append-nil,
}
use genesis_ssmp.Heaven.Sectioner.{
  positive, after_newline, split_idx, split_loop, split_at_paragraphs,
}

last_index-lt :
    (s : Bytes) (c : ℕ) (sub : Bytes) (i : ℕ) → last_index s (c ∷ sub) ≡ some i → i < length s
unfolding last_index has_prefix
last_index-lt [] c sub i h = absurd (ground arith)
last_index-lt (x ∷ s) c sub i h = elim (Option-cases (last_index s (c ∷ sub))) [
  | inl e ↦ ground arith
  | inr (j, e) ↦ let below = last_index-lt s c sub j e in ground arith
]

after_newline-le :
    (cutoff : Bytes) (i : ℕ)
    → i < length cutoff
    → (0 < after_newline cutoff i) × (after_newline cutoff i ≤ length cutoff)
unfolding after_newline
after_newline-le cutoff i h = ground arith

-- Each part has a byte and at most the limit.
split_idx-bounds :
    (max_bytes : ℕ) (cutoff : Bytes)
    → 0 < max_bytes
    → length cutoff ≤ max_bytes
    → (0 < split_idx max_bytes cutoff) × (split_idx max_bytes cutoff ≤ max_bytes)
unfolding split_idx
split_idx-bounds max_bytes cutoff h k =
    elim (Option-cases (positive (last_index cutoff (bytes "\n\n")))) [
      | inr (i, e) ↦
          let small =
            after_newline-le cutoff i (last_index-lt cutoff b'\n' (bytes "\n") i (ground arith)) in
          rw (e, split_idx) (small.0, omega (arith, small.1))
      | inl e ↦ elim (Option-cases (positive (last_index cutoff (bytes "\n")))) [
        | inr (i, f) ↦
            let small =
              after_newline-le cutoff i (last_index-lt cutoff b'\n' [] i (ground arith)) in
            rw (e, f, split_idx) (small.0, omega (arith, small.1))
        | inl f ↦ rw (e, f, split_idx) (h, omega arith)
      ]
    ]

-- A part is not empty, and not longer than the limit.
abbrev pub IsPart : ℕ → Bytes → Type 0
IsPart max_bytes part = (0 < length part) × (length part ≤ max_bytes)

last-IsPart :
    (max_bytes : ℕ) (remaining : Bytes)
    → length remaining ≤ max_bytes
    → (concat (if is_empty remaining then [] else remaining ∷ []) ≡ remaining)
      × All (IsPart max_bytes) (if is_empty remaining then [] else remaining ∷ [])
last-IsPart max_bytes [] h = (refl, tt)
last-IsPart max_bytes (c ∷ s) h = (append-nil (c ∷ s), ((omega arith, h), tt))

first-IsPart :
    (max_bytes : ℕ) (remaining : Bytes)
    → 0 < max_bytes
    → max_bytes < length remaining
    → let n = split_idx max_bytes (take max_bytes remaining) in
      IsPart max_bytes (take n remaining) × (length (drop n remaining) < length remaining)
first-IsPart max_bytes remaining h k =
    let n = split_idx max_bytes (take max_bytes remaining) in
    let bounds =
      split_idx-bounds max_bytes (take max_bytes remaining) h
        (omega (arith, length-take max_bytes remaining)) in
    (
      (
        omega (arith, length-take n remaining, bounds.0, bounds.1),
        omega (arith, length-take n remaining, bounds.0, bounds.1),
      ),
      omega (arith, length-drop n remaining, bounds.0, bounds.1),
    )

split_loop-parts :
    (fuel max_bytes : ℕ) (remaining : Bytes)
    → 0 < max_bytes
    → length remaining < fuel
    → (concat (split_loop fuel max_bytes remaining) ≡ remaining)
      × All (IsPart max_bytes) (split_loop fuel max_bytes remaining)
unfolding split_loop
split_loop-parts zero max_bytes remaining h k = absurd (omega arith)
split_loop-parts (suc fuel) max_bytes remaining h k =
    elim (Bool-cases (ltb max_bytes (length remaining))) [
      | inl e ↦
          let n = split_idx max_bytes (take max_bytes remaining) in
          let (fits, shorter) = first-IsPart max_bytes remaining h (ground arith) in
          let (joined, rest) =
            split_loop-parts fuel max_bytes (drop n remaining) h (omega (arith, shorter, k)) in
          rw (e, split_loop)
            (ap (◌++◌ (take n remaining)) joined ∙ take-append-drop n remaining, (fits, rest))
      | inr e ↦ rw (e, split_loop) (last-IsPart max_bytes remaining (ground arith))
    ]

-- With a positive limit, `splitAtParagraphs` ends, within as many rounds as the text has bytes: the
-- parts joined are the text, and none is longer than the limit. Of a text that is not empty each
-- part has a byte.
pub split_at_paragraphs-parts :
    (text : Bytes) (max_bytes : ℕ)
    → 0 < max_bytes
    → 0 < length text
    → (concat (split_at_paragraphs text max_bytes) ≡ text)
      × All (IsPart max_bytes) (split_at_paragraphs text max_bytes)
unfolding split_at_paragraphs
split_at_paragraphs-parts text max_bytes h k = elim (Bool-cases (leb (length text) max_bytes)) [
  | inl e ↦ rw e (append-nil text, ((k, ground arith), tt))
  | inr e ↦ rw e (split_loop-parts (suc (length text)) max_bytes text h (omega arith))
]

-- With a positive limit, the loop of `splitAtParagraphs` ends before its rounds do, when these are
-- more than the bytes that remain: any number of rounds more gives the same parts.
pub split_loop-enough :
    (fuel more max_bytes : ℕ) (remaining : Bytes)
    → 0 < max_bytes
    → length remaining < fuel
    → split_loop (fuel + more) max_bytes remaining ≡ split_loop fuel max_bytes remaining
unfolding split_loop
split_loop-enough zero more max_bytes remaining h k = absurd (omega arith)
split_loop-enough (suc fuel) more max_bytes remaining h k =
    let one_more : suc fuel + more ≡ suc (fuel + more) = omega arith in
    rw one_more (elim (Bool-cases (ltb max_bytes (length remaining))) [
      | inl e ↦
          let n = split_idx max_bytes (take max_bytes remaining) in
          let (fits, shorter) = first-IsPart max_bytes remaining h (ground arith) in
          rw (e, split_loop)
            (ap (◌∷◌ (take n remaining)) (
              split_loop-enough fuel more max_bytes (drop n remaining) h
                (omega (arith, shorter, k))))
      | inr e ↦ rw (e, split_loop) refl
    ])
