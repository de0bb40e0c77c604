-- ===== src/God/AngelAssembly/Parsed.antt =====
-- god/aa_parser.go: what a successful parse promises, and where an error is.
use genesis_ssmp.Base.{
  ℕ, zero, suc, ◌-◌, ◌<◌, ◌≡◌, refl, inl, inr, Bool, true, false, ◌||◌, Option, none, some, List,
  [], ◌∷◌, ◌++◌, arith, ltb, leb, if◌then◌else◌, length, take, drop, All, All-append, Bool-cases,
  Bytes, bytes, is_empty, same, has_prefix, split_on, trim_space, fields, index_of, index_of-first,
  IsWord, fields-IsWord, atoi, ℤ, pos, negsuc, Result, ok, err, fail_if-ok, Ensures, of_ok, of_err,
  Ensures->>=, Ensures-ok, >>=-eq-ok,
}
use genesis_ssmp.God.Missions.{Scope}
use genesis_ssmp.God.AngelAssembly.{
  Need, symdef, callers, slice, Program, Message, Parsing, scope_at, parse_pairs, atoi_where,
  is_not_positive, is_negative, need_symdef, need_callers, need_slice, parse_need, assert_tests,
  parse_assert, Directive, base_rev_line, lease_line, need_line, do_line, assert_line, return_line,
  other_line, parse_directive, parse_code, parse_line, at_line, parse_lines, lacks, check_required,
  callers_count, slice_start, slice_count, parse_aa,
}

-- A scope has a type without a colon, and a value.
abbrev pub IsScope : Scope → Type 0
IsScope s = IsWord s.scope_type × IsWord s.scope_value × (index_of s.scope_type (bytes ":") ≡ none)

-- The numbers are in the range that their command allows.
abbrev pub IsNeed : Need → Type 0
IsNeed (symdef symbol) = IsWord symbol
IsNeed (callers symbol n) = IsWord symbol × (is_negative n ≡ false)
IsNeed (slice path start n) =
    IsWord path × (is_negative start ≡ false) × (is_not_positive n ≡ false)

-- The parts of a program that is being read.
abbrev pub IsProgram : Program → Type 0
IsProgram p = All IsScope p.leases × All IsNeed p.needs × All IsWord p.dos × All IsWord p.asserts

is_empty-take : (n : ℕ) (s : Bytes) → 0 < n → 0 < length s → is_empty (take n s) ≡ false
is_empty-take zero s h k = absurd (omega arith)
is_empty-take (suc n) [] h k = absurd (omega arith)
is_empty-take (suc n) (c ∷ s) h k = refl

is_empty-drop : (n : ℕ) (s : Bytes) → n < length s → is_empty (drop n s) ≡ false
is_empty-drop n [] h = absurd (omega arith)
is_empty-drop zero (c ∷ s) h = refl
is_empty-drop (suc n) (c ∷ s) h = is_empty-drop n s (omega arith)

scope_at-IsScope : (pair : Bytes) → Ensures IsScope (scope_at pair (index_of pair (bytes ":")))
scope_at-IsScope pair = go (index_of pair (bytes ":")) refl
  where
    go : (o : Option ℕ) → index_of pair (bytes ":") ≡ o → Ensures IsScope (scope_at pair o)
    go none e = of_err
    go (some i) e = elim (Bool-cases (ltb i 1 || leb (length pair - 1) i)) [
      | inl f ↦ rw f of_err
      | inr f ↦ rw f (
          of_ok (
            is_empty-take i pair (ground arith) (ground arith),
            is_empty-drop (suc i) pair (ground arith),
            index_of-first b':' pair i e,
          ))
    ]

parse_pairs-IsScope :
    (pairs : List Bytes) (leases : List Scope)
    → All IsScope leases
    → Ensures (All IsScope) (parse_pairs pairs leases)
unfolding parse_pairs
parse_pairs-IsScope [] leases h = of_ok h
parse_pairs-IsScope (pair ∷ pairs) leases h = Ensures->>= λ scope e.
    parse_pairs-IsScope pairs (leases ++ scope ∷ [])
      (All-append IsScope leases (scope ∷ []) h (Ensures-ok (scope_at-IsScope pair) e, tt))

pub atoi_where-ok :
    {E : Type 0} (bad : ℤ → Bool) (message : E) (text : Bytes)
    → Ensures (λ n. bad n ≡ false) (atoi_where bad message text)
atoi_where-ok {E = E} bad message text = go (atoi text)
  where
    go :
        (o : Option ℤ)
        → Ensures
            (λ n. bad n ≡ false)
            (elim o as (λ _. Result E ℤ) [
              | none ↦ err message
              | some n ↦ if bad n then err message else ok n
            ])
    go none = of_err
    go (some n) = elim (Bool-cases (bad n)) [ inl f ↦ rw f of_err | inr f ↦ rw f (of_ok f) ]

need_symdef-IsNeed : (args : List Bytes) → All IsWord args → Ensures IsNeed (need_symdef args)
need_symdef-IsNeed (symbol ∷ []) h = of_ok h.0
need_symdef-IsNeed [] h = of_err
need_symdef-IsNeed (symbol ∷ other ∷ args) h = of_err

pub not_negative : (n : ℤ) → is_not_positive n ≡ false → is_negative n ≡ false
not_negative (pos n) h = ground arith
not_negative (negsuc n) h = absurd (ground arith)

need_callers-IsNeed : (args : List Bytes) → All IsWord args → Ensures IsNeed (need_callers args)
need_callers-IsNeed (symbol ∷ []) h = of_ok (h.0, refl)
need_callers-IsNeed (symbol ∷ top_k ∷ []) h = Ensures->>= λ n e.
    of_ok (h.0, not_negative n (Ensures-ok (atoi_where-ok is_not_positive callers_count top_k) e))
need_callers-IsNeed [] h = of_err
need_callers-IsNeed (symbol ∷ top_k ∷ other ∷ args) h = of_err

need_slice-IsNeed : (args : List Bytes) → All IsWord args → Ensures IsNeed (need_slice args)
need_slice-IsNeed (path ∷ start_line ∷ line_count ∷ []) h = Ensures->>= λ start e.
    Ensures->>= λ n f. of_ok (
      h.0,
      Ensures-ok (atoi_where-ok is_negative slice_start start_line) e,
      Ensures-ok (atoi_where-ok is_not_positive slice_count line_count) f,
    )
need_slice-IsNeed [] h = of_err
need_slice-IsNeed (a ∷ []) h = of_err
need_slice-IsNeed (a ∷ b ∷ []) h = of_err
need_slice-IsNeed (a ∷ b ∷ c ∷ other ∷ args) h = of_err

pub Ensures-if :
    {E A : Type 0} {P : A → Type 0} (b : Bool) (x y : Result E A)
    → Ensures P x
    → Ensures P y
    → Ensures P (if b then x else y)
Ensures-if true x y h k = h
Ensures-if false x y h k = k

parse_need-IsNeed : (words : List Bytes) → All IsWord words → Ensures IsNeed (parse_need words)
unfolding parse_need
parse_need-IsNeed [] h = of_err
parse_need-IsNeed (kind ∷ args) h =
    Ensures-if (same kind (bytes "symdef")) _ _ (need_symdef-IsNeed args h.1) (
      Ensures-if (same kind (bytes "callers")) _ _ (need_callers-IsNeed args h.1)
        (Ensures-if (same kind (bytes "slice")) _ _ (need_slice-IsNeed args h.1) of_err))

assert_tests-IsWord : (args : List Bytes) → All IsWord args → Ensures IsWord (assert_tests args)
assert_tests-IsWord (selector ∷ []) h = of_ok h.0
assert_tests-IsWord [] h = of_err
assert_tests-IsWord (selector ∷ other ∷ args) h = of_err

parse_assert-IsWord : (words : List Bytes) → All IsWord words → Ensures IsWord (parse_assert words)
unfolding parse_assert
parse_assert-IsWord [] h = of_err
parse_assert-IsWord (kind ∷ args) h =
    Ensures-if (same kind (bytes "tests")) _ _ (assert_tests-IsWord args h.1) of_err

parse_directive-IsProgram :
    (d : Directive) (rest : Bytes) (s : Parsing)
    → IsProgram s.program
    → Ensures (λ s'. IsProgram s'.program) (parse_directive d rest s)
unfolding parse_directive
parse_directive-IsProgram base_rev_line rest s h = Ensures->>= λ _ _. of_ok h
parse_directive-IsProgram lease_line rest s (l, n, d, a) = Ensures->>= λ leases e. of_ok (
  let (t, f, g) = >>=-eq-ok _ _ e in
      Ensures-ok (parse_pairs-IsScope (fields rest) s.program.leases l) g,
  n,
  d,
  a,
)
parse_directive-IsProgram need_line rest s (l, n, d, a) = Ensures->>= λ need e. of_ok (
  l,
  All-append IsNeed s.program.needs (need ∷ []) n (
    let (t, f, g) = >>=-eq-ok _ _ e in
        Ensures-ok (parse_need-IsNeed (fields rest) (fields-IsWord rest)) g,
    tt,
  ),
  d,
  a,
)
parse_directive-IsProgram do_line rest s (l, n, d, a) =
    Ensures->>=
      λ t e. of_ok (l, n, All-append IsWord s.program.dos (rest ∷ []) d (fail_if-ok _ _ e, tt), a)
parse_directive-IsProgram assert_line rest s (l, n, d, a) = Ensures->>= λ word e. of_ok (
  l,
  n,
  d,
  All-append IsWord s.program.asserts (word ∷ []) a (
    let (t, f, g) = >>=-eq-ok _ _ e in
        Ensures-ok (parse_assert-IsWord (fields rest) (fields-IsWord rest)) g,
    tt,
  ),
)
parse_directive-IsProgram return_line rest s h = Ensures->>= λ _ _. of_ok h
parse_directive-IsProgram other_line rest s h = of_err

parse_line-IsProgram :
    (raw : Bytes) (s : Parsing)
    → IsProgram s.program
    → Ensures (λ s'. IsProgram s'.program) (parse_line raw s)
unfolding parse_line parse_code
parse_line-IsProgram raw s h =
    let line = trim_space raw in
    Ensures-if (is_empty line) _ _ (of_ok h)
      (Ensures-if (has_prefix line (bytes "#")) _ _ (of_ok h) (parse_directive-IsProgram _ _ s h))

at_line-Ensures :
    {A : Type 0} {P : A → Type 0} (n : ℕ) (m : Result Message A)
    → Ensures P m
    → Ensures P (at_line n m)
at_line-Ensures n (ok a) (of_ok h) = of_ok h
at_line-Ensures n (err e) h = of_err

parse_lines-IsProgram :
    (n : ℕ) (lines : List Bytes) (s : Parsing)
    → IsProgram s.program
    → Ensures (λ s'. IsProgram s'.program) (parse_lines n lines s)
unfolding parse_lines
parse_lines-IsProgram n [] s h = of_ok h
parse_lines-IsProgram n (line ∷ lines) s h = Ensures->>= λ s' e.
    parse_lines-IsProgram (suc n) lines s'
      (Ensures-ok (at_line-Ensures n (parse_line line s) (parse_line-IsProgram line s h)) e)

-- A whole program: the required parts are there.
abbrev pub IsWhole : Program → Type 0
IsWhole p =
    (is_empty p.base_rev ≡ false)
    × (lacks p.leases ≡ false)
    × (lacks p.dos ≡ false)
    × (is_empty p.return_type ≡ false)

check_required-IsWhole :
    (p : Program) → IsProgram p → Ensures (λ q. IsProgram q × IsWhole q) (check_required p)
unfolding check_required
check_required-IsWhole p h = Ensures->>= λ t e.
    let (t3, e3, f4) = >>=-eq-ok _ _ e in
    let (t2, e2, f3) = >>=-eq-ok _ _ e3 in
    let (t1, f1, f2) = >>=-eq-ok _ _ e2 in
    of_ok (h, (fail_if-ok _ _ f1, fail_if-ok _ _ f2, fail_if-ok _ _ f3, fail_if-ok _ _ f4))

-- What `ParseAA` accepts is a whole program: it has a base revision, a lease, a task and a return
-- type; each lease has a type without a colon and a value; each need names a symbol or a path and has
-- its numbers in range; and no task and no selector is empty.
pub parse_aa-IsProgram :
    (source : Bytes) (p : Program) → parse_aa source ≡ ok p → IsProgram p × IsWhole p
unfolding parse_aa
parse_aa-IsProgram source p h =
    let lines = split_on b'\n' source in
    let (s, e, f) = >>=-eq-ok _ _ h in
    Ensures-ok
      (at_line-Ensures 0 (check_required s.program) (
        check_required-IsWhole s.program
          (Ensures-ok (parse_lines-IsProgram 1 lines _ (tt, tt, tt, tt)) e)))
      f
