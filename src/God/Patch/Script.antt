-- ===== src/God/Patch/Script.antt =====
-- god/patch_v1.go: the delta encoding as a script of steps.
use genesis_ssmp.Base.{
  split_on-joined, All-append, ◌&&◌, ◌≢◌, itoa-All, ltℤ, ℕ, zero, suc, ◌+◌, ◌-◌, ◌^◌, ◌≤◌, ◌<◌, ◌≡◌,
  refl, sym, ap, ◌∙◌, Bool, true, not, Option, none, some, List, [], ◌∷◌, ◌++◌, map, arith, ◌==◌,
  leb, if◌then◌else◌, length, length-drop, take, drop, All, Bytes, bytes, same, has_prefix,
  split_on, join, atoi, itoa, pos, trim_space-empty, atoi-itoa, Result, ok, err, ◌>>=◌, Bool-cases,
  inl, inr,
}
use genesis_ssmp.God.Edit.{newline}
use genesis_ssmp.God.Edit.Lines.{IsOneLine}
use genesis_ssmp.God.Patch.Delta.{
  keep_many, skip_many, unbraced, marker_of, line_marker, DecodeError, past_span, count_of,
  decode_step, decode_lines, decode_content, add_int64, slice_between,
}
use genesis_ssmp.God.Patch.Markers.{
  Spelling, shortest, counted, braced, Step, keep_lines, skip_lines, new_line, spelled, written,
  is_writable, keep_marker, skip_marker, keep_lines-marker, skip_lines-marker, new_line-marker,
}

abbrev pub prepend : List Bytes → Option (List Bytes) → Option (List Bytes)
prepend xs none = none
prepend xs (some ys) = some (xs ++ ys)

-- The lines of a script, and `none` where it goes past the span.
unfoldable pub play : List Step → List Bytes → Option (List Bytes)
play [] span = some []
play (keep_lines w n ∷ steps) span =
    let rest = play steps (drop n span) in
    if leb n (length span) then prepend (take n span) rest else none
play (skip_lines w n ∷ steps) span =
    let rest = play steps (drop n span) in if leb n (length span) then rest else none
play (new_line l ∷ steps) span = prepend (l ∷ []) (play steps span)

-- A count is at least one, and of 63 bits with the length of the span.
abbrev pub IsStep : ℕ → Step → Type 0
IsStep size (keep_lines w n) = (0 < n) × (n + size < 2 ^ 63)
IsStep size (skip_lines w n) = (0 < n) × (n + size < 2 ^ 63)
IsStep size (new_line l) = (is_writable l ≡ true) × IsOneLine l

drop_nil : (n : ℕ) → drop {A = Bytes} n [] ≡ []
drop_nil zero = refl
drop_nil (suc n) = refl

drop-drop : (i n : ℕ) (span : List Bytes) → drop n (drop i span) ≡ drop (i + n) span
drop-drop zero n span = ap (λ m. drop m span) (omega arith)
drop-drop (suc i) n [] = drop_nil n ∙ sym (drop_nil (suc i + n))
drop-drop (suc i) n (l ∷ span) =
    let e : suc i + n ≡ suc (i + n) = omega arith in rw e (drop-drop i n span)

-- The steps at a position, with the rest of the span in front of them.
module _ (span : List Bytes) (i n : ℕ) (inside : i ≤ length span) (some_lines : 0 < n)
    (small : n + length span < 2 ^ 63) where
  abbrev fits : Bool
  fits = leb n (length (drop i span))

  reads_count : count_of (atoi (itoa n)) ≡ ok n
  reads_count = rw (atoi-itoa n (omega (arith, small))) (ground (arith, some_lines))

  moves : add_int64 (pos i) n ≡ pos (i + n)
  moves = ground (arith, inside, small)

  tests : ltℤ (pos (length span)) (pos (i + n)) ≡ not fits
  tests = ground (arith, length-drop i span, inside)

  keeps : slice_between (pos i) (pos (i + n)) span ≡ ok (take n (drop i span))
  keeps = let e : i + n - i ≡ n = omega arith in ground (arith, ap (λ m. take m (drop i span)) e)

  keep-step :
      decode_step span (pos i) (keep_many (itoa n))
      ≡ (if fits then ok (take n (drop i span), pos (i + n)) else err past_span)
  unfolding decode_step ◌>>=◌
  keep-step =
      rw (reads_count, moves, tests, keeps, ◌>>=◌)
        (elim (Bool-cases fits) [ inl e ↦ rw (e, ◌>>=◌) refl | inr e ↦ rw (e, ◌>>=◌) refl ])

  skip-step :
      decode_step span (pos i) (skip_many (itoa n))
      ≡ (if fits then ok ([], pos (i + n)) else err past_span)
  unfolding decode_step ◌>>=◌
  skip-step =
      rw (reads_count, moves, tests, ◌>>=◌)
        (elim (Bool-cases fits) [ inl e ↦ rw (e, ◌>>=◌) refl | inr e ↦ rw (e, ◌>>=◌) refl ])

  -- One line, with the short marker.
  stays_inside : n ≡ 1 → leb (length span) i && not (ltℤ (pos i) (pos 0)) ≡ not fits
  stays_inside h = ground (arith, h, length-drop i span, inside)

  keep_lines-step :
      (w : Spelling)
      → decode_step span (pos i) (keep_marker w n)
        ≡ (if fits then ok (take n (drop i span), pos (i + n)) else err past_span)
  unfolding decode_step ◌>>=◌
  keep_lines-step shortest = elim (Bool-cases (n == 1)) [
    | inr e ↦ rw e keep-step
    | inl e ↦
        let one : n ≡ 1 = ground arith in
        rw e (
          rw (stays_inside one, sym one, moves, keeps, ◌>>=◌)
            (elim (Bool-cases fits) [ inl f ↦ rw (f, ◌>>=◌) refl | inr f ↦ rw (f, ◌>>=◌) refl ]))
  ]
  keep_lines-step counted = keep-step
  keep_lines-step braced = keep-step

  skip_lines-step :
      (w : Spelling)
      → decode_step span (pos i) (skip_marker w n)
        ≡ (if fits then ok ([], pos (i + n)) else err past_span)
  unfolding decode_step ◌>>=◌
  skip_lines-step shortest = elim (Bool-cases (n == 1)) [
    | inr e ↦ rw e skip-step
    | inl e ↦
        let one : n ≡ 1 = ground arith in
        rw e (
          rw (stays_inside one, sym one, moves, ◌>>=◌)
            (elim (Bool-cases fits) [ inl f ↦ rw (f, ◌>>=◌) refl | inr f ↦ rw (f, ◌>>=◌) refl ]))
  ]
  skip_lines-step counted = skip-step
  skip_lines-step braced = skip-step

-- The lines that a script asks for come out, and where it goes past the span the error says so.
abbrev Agrees : Option (List Bytes) → Result (ℕ × DecodeError) (List Bytes) → Type 0
Agrees (some out) (ok lines) = lines ≡ out
Agrees none (err (n, e)) = e ≡ past_span
Agrees _ _ = ⊥

Agrees-prepend :
    (xs : List Bytes) (o : Option (List Bytes)) (r : Result (ℕ × DecodeError) (List Bytes))
    → Agrees o r
    → Agrees (prepend xs o) (r >>= λ rest. ok (xs ++ rest))
unfolding ◌>>=◌
Agrees-prepend xs (some out) (ok lines) h = ap (◌++◌ xs) h
Agrees-prepend xs none (err (n, e)) h = h
Agrees-prepend xs (some out) (err e) h = absurd h
Agrees-prepend xs none (ok lines) h = absurd h

Agrees-same :
    (o : Option (List Bytes)) (r : Result (ℕ × DecodeError) (List Bytes))
    → Agrees o r
    → Agrees o (r >>= λ rest. ok rest)
unfolding ◌>>=◌
Agrees-same (some out) (ok lines) h = h
Agrees-same none (err (n, e)) h = h
Agrees-same (some out) (err e) h = absurd h
Agrees-same none (ok lines) h = absurd h

decode_lines-play :
    (span : List Bytes) (steps : List Step) (k i : ℕ)
    → i ≤ length span
    → All (IsStep (length span)) steps
    → Agrees (play steps (drop i span)) (decode_lines k span (pos i) (map written steps))
unfolding play decode_lines written ◌>>=◌
decode_lines-play span [] k i inside h = refl
decode_lines-play span (keep_lines w n ∷ steps) k i inside ((some_lines, small), hs) =
    rw (keep_lines-marker w n, keep_lines-step span i n inside some_lines small w)
      (elim (Bool-cases (leb n (length (drop i span)))) [
        | inl e ↦
            let further : i + n ≤ length span = ground (arith, e, length-drop i span, inside) in
            rw (e, drop-drop i n span, ◌>>=◌)
              (Agrees-prepend _ _ _ (decode_lines-play span steps (suc k) (i + n) further hs))
        | inr e ↦ rw (e, ◌>>=◌) refl
      ])
decode_lines-play span (skip_lines w n ∷ steps) k i inside ((some_lines, small), hs) =
    rw (skip_lines-marker w n, skip_lines-step span i n inside some_lines small w)
      (elim (Bool-cases (leb n (length (drop i span)))) [
        | inl e ↦
            let further : i + n ≤ length span = ground (arith, e, length-drop i span, inside) in
            rw (e, drop-drop i n span, ◌>>=◌)
              (Agrees-same _ _ (decode_lines-play span steps (suc k) (i + n) further hs))
        | inr e ↦ rw (e, ◌>>=◌) refl
      ])
decode_lines-play span (new_line l ∷ steps) k i inside ((plain, one_line), hs) =
    rw (new_line-marker l plain, decode_step, ◌>>=◌)
      (Agrees-prepend (l ∷ []) _ _ (decode_lines-play span steps (suc k) i inside hs))

IsOneLine-digits : (n : ℕ) → IsOneLine (itoa n)
IsOneLine-digits n = itoa-All (λ c. c ≢ newline) n (λ d h. omega (arith, h))

spelled-IsOneLine : (w : Spelling) (n : ℕ) → IsOneLine (spelled w n)
spelled-IsOneLine shortest n = elim (Bool-cases (n == 1)) [
  | inl e ↦ rw e tt
  | inr e ↦ rw e (IsOneLine-digits n)
]
spelled-IsOneLine counted n = IsOneLine-digits n
spelled-IsOneLine braced n = (
  omega arith,
  All-append (λ c. c ≢ newline) (itoa n) (b'}' ∷ []) (IsOneLine-digits n) (omega arith, tt),
)

written-IsOneLine : (size : ℕ) (step : Step) → IsStep size step → IsOneLine (written step)
unfolding written
written-IsOneLine size (keep_lines w n) h = (omega arith, (omega arith, spelled-IsOneLine w n))
written-IsOneLine size (skip_lines w n) h = (omega arith, (omega arith, spelled-IsOneLine w n))
written-IsOneLine size (new_line l) (h, k) = elim (Bool-cases (has_prefix l (bytes "@"))) [
  | inl e ↦ rw e (omega arith, k)
  | inr e ↦ rw e k
]

written-All-IsOneLine :
    (size : ℕ) (steps : List Step) → All (IsStep size) steps → All IsOneLine (map written steps)
written-All-IsOneLine size [] h = tt
written-All-IsOneLine size (s ∷ steps) (h, hs) =
    (written-IsOneLine size s h, written-All-IsOneLine size steps hs)

-- The empty text is no exception to the loop.
decode_content-lem :
    (encoded : Bytes) (span : List Bytes)
    → decode_content encoded span
      ≡ (decode_lines 1 span (pos 0) (split_on newline encoded) >>= λ out. ok (join newline out))
unfolding decode_content decode_lines decode_step line_marker marker_of unbraced split_on has_prefix
    same join ◌>>=◌
decode_content-lem [] span = rw trim_space-empty refl
decode_content-lem (c ∷ encoded) span = refl

-- What `Agrees` says of the text.
abbrev pub Decodes : Option (List Bytes) → Result (ℕ × DecodeError) Bytes → Type 0
Decodes (some out) (ok text) = text ≡ join newline out
Decodes none (err (n, e)) = e ≡ past_span
Decodes _ _ = ⊥

Agrees-Decodes :
    (o : Option (List Bytes)) (r : Result (ℕ × DecodeError) (List Bytes))
    → Agrees o r
    → Decodes o (r >>= λ out. ok (join newline out))
unfolding ◌>>=◌
Agrees-Decodes (some out) (ok lines) h = ap (join newline) h
Agrees-Decodes none (err (n, e)) h = h
Agrees-Decodes (some out) (err e) h = absurd h
Agrees-Decodes none (ok lines) h = absurd h

-- The delta encoding means what its script says: of a script of steps, written one to a line in any of
-- the spellings of a count,
-- `DecodePatchV1Content` makes the lines that the script keeps, skips and puts in, joined; where the
-- script goes past the span it returns that error, and it never panics. Each count is at least one
-- and, with the length of the span, of 63 bits; a new line that begins with "@" ends in a printing
-- character, and no other new line begins with "@" when it is trimmed.
pub decode_content-play :
    (span : List Bytes) (s : Step) (steps : List Step)
    → All (IsStep (length span)) (s ∷ steps)
    → Decodes (play (s ∷ steps) span) (decode_content (join newline (map written (s ∷ steps))) span)
decode_content-play span s steps h =
    rw
      (
        decode_content-lem (join newline (map written (s ∷ steps))) span,
        split_on-joined newline (written s) (map written steps)
            (written-All-IsOneLine (length span) (s ∷ steps) h),
      )
      (Agrees-Decodes _ _ (decode_lines-play span (s ∷ steps) 1 0 (omega arith) h))
