-- ===== src/God/Isa/Parsed.antt =====
-- god/isa_parser.go: what a successful parse promises.
use genesis_ssmp.Base.{
  ℕ, suc, ◌≡◌, refl, inl, inr, false, List, [], ◌∷◌, All, All-append, Bool-cases, Bytes, bytes,
  is_empty, same, has_prefix, split_on, trim_space, fields, IsWord, fields-IsWord, Result, ok, err,
  fail_if-ok, Ensures, of_ok, of_err, Ensures->>=, Ensures-ok, >>=-eq-ok,
}
use genesis_ssmp.God.AngelAssembly.{is_not_positive, is_negative}
use genesis_ssmp.God.AngelAssembly.Parsed.{atoi_where-ok, not_negative, Ensures-if}
use genesis_ssmp.God.Isa.{
  IsaNeed, isa_symdef, isa_callers, isa_slice, isa_test, IsaProgram, IsaMessage, IsaParsing,
  isa_need_symdef, isa_need_callers, isa_need_slice, isa_need_test, parse_isa_need, callers_count,
  slice_start, slice_count,
}
use genesis_ssmp.God.Isa.Lines.{
  IsaDirective, version_line, base_rev_line, prompt_ref_line, mode_line, budget_line,
  invariant_line, need_line, op_line, run_line, assert_line, if_fail_line, label_line, halt_line,
  other_line, parse_isa_directive, parse_isa_code, parse_isa_line, at_isa_line, parse_isa_lines,
  with_mode, check_isa, parse_isa,
}

-- The numbers are in the range that the kind allows, and no name is empty.
abbrev pub IsIsaNeed : IsaNeed → Type 0
IsIsaNeed (isa_symdef symbol) = IsWord symbol
IsIsaNeed (isa_callers symbol n) = IsWord symbol × (is_negative n ≡ false)
IsIsaNeed (isa_slice path start n) =
    IsWord path × (is_negative start ≡ false) × (is_not_positive n ≡ false)
IsIsaNeed (isa_test pattern_text) = IsWord pattern_text

abbrev pub IsIsa : IsaProgram → Type 0
IsIsa p = All IsIsaNeed p.needs × All IsWord p.ops

isa_need_symdef-IsIsaNeed :
    (args : List Bytes) → All IsWord args → Ensures IsIsaNeed (isa_need_symdef args)
isa_need_symdef-IsIsaNeed (symbol ∷ []) h = of_ok h.0
isa_need_symdef-IsIsaNeed [] h = of_err
isa_need_symdef-IsIsaNeed (symbol ∷ other ∷ args) h = of_err

isa_need_callers-IsIsaNeed :
    (args : List Bytes) → All IsWord args → Ensures IsIsaNeed (isa_need_callers args)
isa_need_callers-IsIsaNeed (symbol ∷ []) h = of_ok (h.0, refl)
isa_need_callers-IsIsaNeed (symbol ∷ top_k ∷ []) h = Ensures->>= λ n e.
    of_ok (h.0, not_negative n (Ensures-ok (atoi_where-ok is_not_positive callers_count top_k) e))
isa_need_callers-IsIsaNeed [] h = of_err
isa_need_callers-IsIsaNeed (symbol ∷ top_k ∷ other ∷ args) h = of_err

isa_need_slice-IsIsaNeed :
    (args : List Bytes) → All IsWord args → Ensures IsIsaNeed (isa_need_slice args)
isa_need_slice-IsIsaNeed (path ∷ start_line ∷ line_count ∷ []) h = Ensures->>= λ start e.
    Ensures->>= λ n f. of_ok (
      h.0,
      Ensures-ok (atoi_where-ok is_negative slice_start start_line) e,
      Ensures-ok (atoi_where-ok is_not_positive slice_count line_count) f,
    )
isa_need_slice-IsIsaNeed [] h = of_err
isa_need_slice-IsIsaNeed (a ∷ []) h = of_err
isa_need_slice-IsIsaNeed (a ∷ b ∷ []) h = of_err
isa_need_slice-IsIsaNeed (a ∷ b ∷ c ∷ other ∷ args) h = of_err

isa_need_test-IsIsaNeed :
    (args : List Bytes) → All IsWord args → Ensures IsIsaNeed (isa_need_test args)
isa_need_test-IsIsaNeed (word ∷ []) h = of_ok h.0
isa_need_test-IsIsaNeed [] h = of_err
isa_need_test-IsIsaNeed (word ∷ other ∷ args) h = of_err

parse_isa_need-IsIsaNeed :
    (words : List Bytes) → All IsWord words → Ensures IsIsaNeed (parse_isa_need words)
unfolding parse_isa_need
parse_isa_need-IsIsaNeed [] h = of_err
parse_isa_need-IsIsaNeed (kind ∷ args) h =
    Ensures-if (same kind (bytes "symdef")) _ _ (isa_need_symdef-IsIsaNeed args h.1) (
      Ensures-if (same kind (bytes "callers")) _ _ (isa_need_callers-IsIsaNeed args h.1) (
        Ensures-if (same kind (bytes "slice")) _ _ (isa_need_slice-IsIsaNeed args h.1)
          (Ensures-if (same kind (bytes "test")) _ _ (isa_need_test-IsIsaNeed args h.1) of_err)))

parse_isa_directive-IsIsa :
    (d : IsaDirective) (rest : Bytes) (s : IsaParsing)
    → IsIsa s.program
    → Ensures (λ s'. IsIsa s'.program) (parse_isa_directive d rest s)
unfolding parse_isa_directive
parse_isa_directive-IsIsa version_line rest s h = Ensures->>= λ _ _. of_ok h
parse_isa_directive-IsIsa base_rev_line rest s h = Ensures->>= λ _ _. of_ok h
parse_isa_directive-IsIsa prompt_ref_line rest s h = Ensures->>= λ _ _. of_ok h
parse_isa_directive-IsIsa mode_line rest s h = Ensures->>= λ _ _. of_ok h
parse_isa_directive-IsIsa budget_line rest s h = Ensures->>= λ _ _. of_ok h
parse_isa_directive-IsIsa invariant_line rest s h = Ensures->>= λ _ _. of_ok h
parse_isa_directive-IsIsa need_line rest s (n, o) = Ensures->>= λ need e. of_ok (
  All-append IsIsaNeed s.program.needs (need ∷ []) n (
    let (t, f, g) = >>=-eq-ok _ _ e in
        Ensures-ok (parse_isa_need-IsIsaNeed (fields rest) (fields-IsWord rest)) g,
    tt,
  ),
  o,
)
parse_isa_directive-IsIsa op_line rest s (n, o) =
    Ensures->>=
      λ t e. of_ok (n, All-append IsWord s.program.ops (rest ∷ []) o (fail_if-ok _ _ e, tt))
parse_isa_directive-IsIsa run_line rest s h = Ensures->>= λ _ _. of_ok h
parse_isa_directive-IsIsa assert_line rest s h = Ensures->>= λ _ _. of_ok h
parse_isa_directive-IsIsa if_fail_line rest s h = Ensures->>= λ _ _. of_ok h
parse_isa_directive-IsIsa label_line rest s h = Ensures->>= λ _ _. of_ok h
parse_isa_directive-IsIsa halt_line rest s h = of_ok h
parse_isa_directive-IsIsa other_line rest s h = of_err

parse_isa_line-IsIsa :
    (raw : Bytes) (s : IsaParsing)
    → IsIsa s.program
    → Ensures (λ s'. IsIsa s'.program) (parse_isa_line raw s)
unfolding parse_isa_line parse_isa_code
parse_isa_line-IsIsa raw s h =
    let line = trim_space raw in
    Ensures-if (is_empty line) _ _ (of_ok h)
      (Ensures-if (has_prefix line (bytes "#")) _ _ (of_ok h) (parse_isa_directive-IsIsa _ _ s h))

at_isa_line-Ensures :
    {A : Type 0} {P : A → Type 0} (n : ℕ) (m : Result IsaMessage A)
    → Ensures P m
    → Ensures P (at_isa_line n m)
at_isa_line-Ensures n (ok a) (of_ok h) = of_ok h
at_isa_line-Ensures n (err e) h = of_err

parse_isa_lines-IsIsa :
    (n : ℕ) (lines : List Bytes) (s : IsaParsing)
    → IsIsa s.program
    → Ensures (λ s'. IsIsa s'.program) (parse_isa_lines n lines s)
unfolding parse_isa_lines
parse_isa_lines-IsIsa n [] s h = of_ok h
parse_isa_lines-IsIsa n (line ∷ lines) s h = Ensures->>= λ s' e.
    parse_isa_lines-IsIsa (suc n) lines s'
      (Ensures-ok (at_isa_line-Ensures n (parse_isa_line line s) (parse_isa_line-IsIsa line s h)) e)

with_mode-IsIsa : (p : IsaProgram) → IsIsa p → IsIsa (with_mode p)
with_mode-IsIsa p h = elim (Bool-cases (is_empty p.mode)) [ inl e ↦ rw e h | inr e ↦ rw e h ]

with_mode-base_rev : (p : IsaProgram) → (with_mode p).base_rev ≡ p.base_rev
with_mode-base_rev p = elim (Bool-cases (is_empty p.mode)) [ inl e ↦ rw e refl | inr e ↦ rw e refl ]

check_isa-IsIsa :
    (s : IsaParsing) → IsIsa s.program → Ensures (λ p. IsIsa p × IsWord p.base_rev) (check_isa s)
unfolding check_isa
check_isa-IsIsa s h = Ensures->>= λ t e.
    let (t1, e1, e2) = >>=-eq-ok _ _ e in
    of_ok (with_mode-IsIsa s.program h, rw (with_mode-base_rev s.program) (fail_if-ok _ _ e2))

pub parse_isa-IsIsa :
    (source : Bytes) (p : IsaProgram) → parse_isa source ≡ ok p → IsIsa p × IsWord p.base_rev
unfolding parse_isa
parse_isa-IsIsa source p h =
    let (s, e, f) = >>=-eq-ok _ _ h in
    Ensures-ok
      (at_isa_line-Ensures 0 (check_isa s) (
        check_isa-IsIsa s
          (Ensures-ok (parse_isa_lines-IsIsa 1 (split_on b'\n' source) _ (tt, tt)) e)))
      f
