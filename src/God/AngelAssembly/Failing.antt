-- ===== src/God/AngelAssembly/Failing.antt =====
-- god/aa_parser.go: where an error is.
use genesis_ssmp.Base.{
  subst, Bool-cases, ◌⊎◌, inl, inr, ◌++◌, ◌∙◌, ltb, ℕ, suc, ◌+◌, ◌≡◌, ◌≢◌, refl, ap, Bool, true,
  false, Option, none, some, List, [], ◌∷◌, arith, if◌then◌else◌, length, drop, Bytes, bytes,
  is_empty, same, has_prefix, split_on, trim_space, fields, index_of, fields-trim_space, ℤ, Result,
  ok, err, ◌>>=◌, ◌>>◌, fail_if,
}
use genesis_ssmp.God.Missions.{Scope}
use genesis_ssmp.God.AngelAssembly.{
  lacks, Parsed, empty_program, lease_pairs, need_arguments, do_description, assert_arguments,
  base_rev_value, base_rev_twice, return_value, return_twice, missing_base_rev, missing_lease,
  missing_do, missing_return, Program, Message, no_fields, ParseError, Parsing, scope_at,
  parse_pairs, atoi_where, need_symdef, need_callers, need_slice, parse_need, assert_tests,
  parse_assert, Directive, base_rev_line, lease_line, need_line, do_line, assert_line, return_line,
  other_line, parse_directive, parse_code, parse_line, at_line, parse_lines, check_required,
  parse_aa, rest_of, strip_comment, callers_count, slice_start, slice_count, is_not_positive,
  is_negative,
}

-- The result is no panic.
abbrev IsSafe : {A : Type 0} → Result Message A → Type 0
IsSafe m = m ≢ err no_fields

>>=-IsSafe :
    {A B : Type 0} (m : Result Message A) (f : A → Result Message B)
    → IsSafe m
    → ((a : A) → IsSafe (f a))
    → IsSafe (m >>= f)
unfolding ◌>>=◌
>>=-IsSafe (ok a) f h k = k a
>>=-IsSafe (err e) f h k = λ q. h (ground arith)

atoi_where-IsSafe :
    (bad : ℤ → Bool) (message : Message) (text : Bytes)
    → message ≢ no_fields
    → IsSafe (atoi_where bad message text)
atoi_where-IsSafe bad message text h = ground arith

need_callers-IsSafe : (args : List Bytes) → IsSafe (need_callers args)
need_callers-IsSafe (symbol ∷ []) = ground arith
need_callers-IsSafe (symbol ∷ top_k ∷ []) =
    >>=-IsSafe (atoi_where is_not_positive callers_count top_k) _
      (atoi_where-IsSafe is_not_positive callers_count top_k (ground arith)) (λ n. ground arith)
need_callers-IsSafe [] = ground arith
need_callers-IsSafe (symbol ∷ top_k ∷ other ∷ args) = ground arith

need_slice-IsSafe : (args : List Bytes) → IsSafe (need_slice args)
need_slice-IsSafe (path ∷ start_line ∷ line_count ∷ []) =
    >>=-IsSafe (atoi_where is_negative slice_start start_line) _
      (atoi_where-IsSafe is_negative slice_start start_line (ground arith))
      λ start.
        >>=-IsSafe (atoi_where is_not_positive slice_count line_count) _
          (atoi_where-IsSafe is_not_positive slice_count line_count (ground arith))
          (λ n. ground arith)
need_slice-IsSafe [] = ground arith
need_slice-IsSafe (a ∷ []) = ground arith
need_slice-IsSafe (a ∷ b ∷ []) = ground arith
need_slice-IsSafe (a ∷ b ∷ c ∷ other ∷ args) = ground arith

need_symdef-IsSafe : (args : List Bytes) → IsSafe (need_symdef args)
need_symdef-IsSafe [] = ground arith
need_symdef-IsSafe (symbol ∷ []) = ground arith
need_symdef-IsSafe (symbol ∷ other ∷ args) = ground arith

IsSafe-if :
    {A : Type 0} (b : Bool) (x y : Result Message A)
    → IsSafe x
    → IsSafe y
    → IsSafe (if b then x else y)
IsSafe-if true x y h k = h
IsSafe-if false x y h k = k

parse_need-IsSafe : (words : List Bytes) → words ≢ [] → IsSafe (parse_need words)
unfolding parse_need
parse_need-IsSafe [] h = absurd (h refl)
parse_need-IsSafe (kind ∷ args) h =
    IsSafe-if (same kind (bytes "symdef")) _ _ (need_symdef-IsSafe args) (
      IsSafe-if (same kind (bytes "callers")) _ _ (need_callers-IsSafe args)
        (IsSafe-if (same kind (bytes "slice")) _ _ (need_slice-IsSafe args) (ground arith)))

assert_tests-IsSafe : (args : List Bytes) → IsSafe (assert_tests args)
assert_tests-IsSafe [] = ground arith
assert_tests-IsSafe (selector ∷ []) = ground arith
assert_tests-IsSafe (selector ∷ other ∷ args) = ground arith

parse_assert-IsSafe : (words : List Bytes) → words ≢ [] → IsSafe (parse_assert words)
unfolding parse_assert
parse_assert-IsSafe [] h = absurd (h refl)
parse_assert-IsSafe (kind ∷ args) h =
    IsSafe-if (same kind (bytes "tests")) _ _ (assert_tests-IsSafe args) (ground arith)

scope_at-IsSafe : (pair : Bytes) (o : Option ℕ) → IsSafe (scope_at pair o)
scope_at-IsSafe pair none = ground arith
scope_at-IsSafe pair (some i) = ground arith

parse_pairs-IsSafe : (pairs : List Bytes) (leases : List Scope) → IsSafe (parse_pairs pairs leases)
unfolding parse_pairs
parse_pairs-IsSafe [] leases = ground arith
parse_pairs-IsSafe (pair ∷ pairs) leases =
    >>=-IsSafe (scope_at pair (index_of pair (bytes ":"))) _
      (scope_at-IsSafe pair (index_of pair (bytes ":"))) (λ scope. parse_pairs-IsSafe pairs _)

-- `if bad { return error }` before the rest.
checked-IsSafe :
    {A : Type 0} (b : Bool) (message : Message) (m : Result Message A)
    → message ≢ no_fields
    → (b ≡ false → IsSafe m)
    → IsSafe (fail_if b message >> m)
unfolding ◌>>=◌
checked-IsSafe true message m h k = λ q. h (ground arith)
checked-IsSafe false message m h k = k refl

fail_if-IsSafe : (b : Bool) (message : Message) → message ≢ no_fields → IsSafe (fail_if b message)
fail_if-IsSafe true message h = λ q. h (ground arith)
fail_if-IsSafe false message h = ground arith

parse_directive-IsSafe :
    (d : Directive) (rest : Bytes) (s : Parsing)
    → (is_empty rest ≡ false → fields rest ≢ [])
    → IsSafe (parse_directive d rest s)
unfolding parse_directive
parse_directive-IsSafe base_rev_line rest s h =
    >>=-IsSafe _ _
      (checked-IsSafe (is_empty rest) base_rev_value _ (ground arith)
        (λ e. fail_if-IsSafe (ltb 1 (suc s.base_revs)) base_rev_twice (ground arith)))
      (λ _. ground arith)
parse_directive-IsSafe lease_line rest s h =
    >>=-IsSafe _ _
      (checked-IsSafe (is_empty rest) lease_pairs _ (ground arith)
        (λ e. parse_pairs-IsSafe (fields rest) s.program.leases))
      (λ l. ground arith)
parse_directive-IsSafe need_line rest s h =
    >>=-IsSafe _ _
      (checked-IsSafe (is_empty rest) need_arguments _ (ground arith)
        (λ e. parse_need-IsSafe (fields rest) (h e)))
      (λ l. ground arith)
parse_directive-IsSafe do_line rest s h =
    checked-IsSafe (is_empty rest) do_description _ (ground arith) (λ e. ground arith)
parse_directive-IsSafe assert_line rest s h =
    >>=-IsSafe _ _
      (checked-IsSafe (is_empty rest) assert_arguments _ (ground arith)
        (λ e. parse_assert-IsSafe (fields rest) (h e)))
      (λ l. ground arith)
parse_directive-IsSafe return_line rest s h =
    >>=-IsSafe _ _
      (checked-IsSafe (is_empty rest) return_value _ (ground arith)
        (λ e. fail_if-IsSafe (ltb 1 (suc s.returns)) return_twice (ground arith)))
      (λ _. ground arith)
parse_directive-IsSafe other_line rest s h = ground arith

rest_of-fields :
    (line : Bytes) (o : Option ℕ) → is_empty (rest_of line o) ≡ false → fields (rest_of line o) ≢ []
rest_of-fields line none h = absurd (ground arith)
rest_of-fields line (some i) h = fields-trim_space (drop (suc i) line) h

parse_line-IsSafe : (raw : Bytes) (s : Parsing) → IsSafe (parse_line raw s)
unfolding parse_line parse_code
parse_line-IsSafe raw s =
    let line = trim_space raw in
    IsSafe-if (is_empty line) _ _ (ground arith) (
      IsSafe-if (has_prefix line (bytes "#")) _ _ (ground arith)
        (parse_directive-IsSafe _ _ s (rest_of-fields (strip_comment line) _)))

-- Where the loop from line `n` fails: the lines before parse, the line there is the one that is refused,
-- with the message and the number of the error, and it does not panic.
abbrev pub FailsAtLine : ℕ → List Bytes → Parsing → ParseError → Type 0
FailsAtLine n lines s e =
    (before : List Bytes) × (raw : Bytes) × (after : List Bytes) × (s' : Parsing) × (lines
      ≡ before ++ (raw ∷ after))
    × (e.line ≡ n + length before)
    × (parse_lines n before s ≡ ok s')
    × (parse_line raw s' ≡ err e.message)
    × (e.message ≢ no_fields)

abbrev Located : ℕ → List Bytes → Parsing → Result ParseError Parsing → Type 0
Located n lines s (ok s') = Unit
Located n lines s (err e) = FailsAtLine n lines s e

parse_lines-Located :
    (n : ℕ) (lines : List Bytes) (s : Parsing) → Located n lines s (parse_lines n lines s)
unfolding parse_lines ◌>>=◌
parse_lines-Located n [] s = tt
parse_lines-Located n (line ∷ lines) s =
    go (parse_line line s) refl (λ s1. parse_lines-Located (suc n) lines s1)
  where
    later :
        (s1 : Parsing) (r : Result ParseError Parsing)
        → parse_line line s ≡ ok s1
        → Located (suc n) lines s1 r
        → Located n (line ∷ lines) s r
    later s1 (ok s2) q h = tt
    later s1 (err e) q (before, raw, after, s', cut, at, parsed, refused, safe) = (
      line ∷ before,
      raw,
      after,
      s',
      ap (line ∷◌) cut,
      omega (arith, at),
      rw (q, parse_lines, ◌>>=◌) parsed,
      refused,
      safe,
    )

    go :
        (m : Parsed)
        → parse_line line s ≡ m
        → ((s1 : Parsing) → Located (suc n) lines s1 (parse_lines (suc n) lines s1))
        → Located n (line ∷ lines) s (at_line n m >>= λ s1. parse_lines (suc n) lines s1)
    go (ok s1) q h = later s1 (parse_lines (suc n) lines s1) q (h s1)
    go (err message) q h = (
      [],
      line,
      lines,
      s,
      refl,
      omega arith,
      refl,
      q,
      λ z. parse_line-IsSafe line s (q ∙ ap err z),
    )

-- The message says of a required part that it is missing, and the program does not have it.
abbrev pub IsMissing : Program → Message → Type 0
IsMissing p missing_base_rev = p.base_rev ≡ []
IsMissing p missing_lease = p.leases ≡ []
IsMissing p missing_do = p.dos ≡ []
IsMissing p missing_return = p.return_type ≡ []
IsMissing p _ = ⊥

lacks-eq {ℓ} : {A : Type ℓ} → (xs : List A) → lacks xs ≡ true → xs ≡ []
lacks-eq [] h = refl
lacks-eq (x ∷ xs) h = absurd (ground (arith, h))

is_empty-eq : (s : Bytes) → is_empty s ≡ true → s ≡ []
is_empty-eq [] h = refl
is_empty-eq (c ∷ s) h = absurd (ground (arith, h))

check_required-IsMissing :
    (p : Program) (message : Message) → check_required p ≡ err message → IsMissing p message
unfolding check_required ◌>>=◌
check_required-IsMissing p message h = elim (Bool-cases (is_empty p.base_rev)) [
  | inl a ↦
      subst (IsMissing p) {x = missing_base_rev} {y = message} (ground (arith, h, a))
        (is_empty-eq p.base_rev a)
  | inr a ↦ elim (Bool-cases (lacks p.leases)) [
    | inl b ↦
        subst (IsMissing p) {x = missing_lease} {y = message} (ground (arith, h, a, b))
          (lacks-eq p.leases b)
    | inr b ↦ elim (Bool-cases (lacks p.dos)) [
      | inl c ↦
          subst (IsMissing p) {x = missing_do} {y = message} (ground (arith, h, a, b, c))
            (lacks-eq p.dos c)
      | inr c ↦ elim (Bool-cases (is_empty p.return_type)) [
        | inl d ↦
            subst (IsMissing p) {x = missing_return} {y = message} (ground (arith, h, a, b, c, d))
              (is_empty-eq p.return_type d)
        | inr d ↦ absurd (ground (arith, h, a, b, c, d))
      ]
    ]
  ]
]

abbrev pub start : Parsing
start = record { program = empty_program; base_revs = 0; returns = 0 }

-- Where an error of `ParseAA` is: in line 0 for a required part that is missing, after all lines have
-- been read; else in the first line that is refused, counted from 1.
abbrev pub IsLocated : Bytes → Result ParseError Program → Type 0
IsLocated source (ok p) = Unit
IsLocated source (err e) =
    ((e.line ≡ 0)
      × ((s : Parsing) × (parse_lines 1 (split_on b'\n' source) start ≡ ok s)
          × IsMissing s.program e.message))
    ⊎ FailsAtLine 1 (split_on b'\n' source) start e

-- `ParseAA` does not panic, whatever the source is: it returns a program, or the error of the first line
-- of the source that cannot be read, with the number of that line, counted from 1, or, where every
-- line can be read, an error of line 0 that names a required part which the program does not have.
pub parse_aa-IsLocated : (source : Bytes) → IsLocated source (parse_aa source)
unfolding parse_aa ◌>>=◌
parse_aa-IsLocated source =
    go (parse_lines 1 (split_on b'\n' source) start) refl
      (parse_lines-Located 1 (split_on b'\n' source) start)
  where
    finish :
        (s : Parsing) (m : Result Message Program)
        → parse_lines 1 (split_on b'\n' source) start ≡ ok s
        → check_required s.program ≡ m
        → IsLocated source (at_line 0 m)
    finish s (ok p) q c = tt
    finish s (err message) q c = inl (refl, (s, q, check_required-IsMissing s.program message c))

    go :
        (r : Result ParseError Parsing)
        → parse_lines 1 (split_on b'\n' source) start ≡ r
        → Located 1 (split_on b'\n' source) start r
        → IsLocated source (r >>= λ s. at_line 0 (check_required s.program))
    go (ok s) q h = finish s (check_required s.program) q refl
    go (err e) q h = inr h
