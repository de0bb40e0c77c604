-- ===== src/God/Isa/Lines.antt =====
-- god/isa_parser.go: the lines of a program.
use genesis_ssmp.Base.{
  ℕ, suc, ◌-◌, Bool, true, false, not, ◌&&◌, ◌||◌, List, [], ◌∷◌, ◌++◌, ltb, leb, ◌==◌,
  if◌then◌else◌, length, take, drop, Bytes, bytes, is_empty, same, has_prefix, ends_with, split_on,
  trim_space, fields, index_of, ℤ, pos, ltℤ, Result, ok, err, ◌>>=◌, ◌>>◌, fail_if,
}
use genesis_ssmp.God.AngelAssembly.{strip_comment, keyword_of, rest_of, atoi_where, is_not_positive}
use genesis_ssmp.God.Isa.{
  IsaProgram, IsaMessage, IsaParseError, IsaParsing, parse_isa_need, parse_isa_run,
  parse_isa_if_fail, version_value, version_twice, version_number, version_unsupported,
  base_rev_value, base_rev_twice, prompt_ref_value, prompt_ref_twice, mode_value, mode_twice,
  mode_unknown, budget_value, budget_twice, budget_number, invariant_value, need_arguments,
  op_value, run_arguments, assert_condition, if_fail_action, label_name, unknown_directive,
  missing_version, missing_base_rev,
}

-- An invariant without the quotes around it.
abbrev pub unquoted : Bytes → Bytes
unquoted s =
    if leb 2 (length s) && (has_prefix s (b'"' ∷ []) && ends_with b'"' s)
    then drop 1 (take (length s - 1) s)
    else s

pub data IsaDirective : Type 0 where
  version_line base_rev_line prompt_ref_line mode_line budget_line invariant_line : IsaDirective
  need_line op_line run_line assert_line if_fail_line label_line halt_line : IsaDirective
  other_line : IsaDirective

abbrev pub isa_keywords : List (Bytes × IsaDirective)
isa_keywords =
    (bytes "ISA_VERSION", version_line)
    ∷ (bytes "BASE_REV", base_rev_line)
    ∷ (bytes "PROMPT_REF", prompt_ref_line)
    ∷ (bytes "MODE", mode_line)
    ∷ (bytes "BUDGET", budget_line)
    ∷ (bytes "INVARIANT", invariant_line)
    ∷ (bytes "NEED", need_line)
    ∷ (bytes "OP", op_line)
    ∷ (bytes "RUN", run_line)
    ∷ (bytes "ASSERT", assert_line)
    ∷ (bytes "IF_FAIL", if_fail_line)
    ∷ (bytes "LABEL", label_line)
    ∷ (bytes "HALT", halt_line)
    ∷ []

abbrev pub look_up : List (Bytes × IsaDirective) → Bytes → IsaDirective
look_up [] keyword = other_line
look_up ((k, d) ∷ table) keyword = if same keyword k then d else look_up table keyword

-- The keywords of the switch of `ParseISA`.
unfoldable pub isa_directive_of : Bytes → IsaDirective
isa_directive_of keyword = look_up isa_keywords keyword

abbrev pub is_not_zero : ℤ → Bool
is_not_zero n = ltℤ n (pos 0) || ltℤ (pos 0) n

-- `strconv.Atoi(rest)` and the test of `ISA_VERSION`.
abbrev pub parse_version : Bytes → Result IsaMessage ℤ
parse_version rest = atoi_where (λ n. false) version_number rest >>= λ v.
    fail_if (is_not_zero v) version_unsupported >> ok v

-- The switch of `ParseISA`.
unfoldable pub parse_isa_directive :
    IsaDirective → Bytes → IsaParsing → Result IsaMessage IsaParsing
unfolding parse_isa_need parse_isa_run parse_isa_if_fail
parse_isa_directive version_line rest s =
    fail_if (is_empty rest) version_value
    >> fail_if (ltb 1 (suc s.versions)) version_twice
    >> parse_version rest
    >>= λ v.
        ok (record s { program = record (s.program) { version = v }; versions = suc s.versions })
parse_isa_directive base_rev_line rest s =
    fail_if (is_empty rest) base_rev_value
    >> fail_if (ltb 1 (suc s.base_revs)) base_rev_twice
    >> ok
        (record s { program = record (s.program) { base_rev = rest }; base_revs = suc s.base_revs })
parse_isa_directive prompt_ref_line rest s =
    fail_if (is_empty rest) prompt_ref_value
    >> fail_if (ltb 1 (suc s.prompt_refs)) prompt_ref_twice
    >> ok (record s {
      program = record (s.program) { prompt_ref = rest };
      prompt_refs = suc s.prompt_refs;
    })
parse_isa_directive mode_line rest s =
    fail_if (is_empty rest) mode_value
    >> fail_if (ltb 1 (suc s.modes)) mode_twice
    >> fail_if (not (same rest (bytes "SOLO")) && not (same rest (bytes "SWARM"))) mode_unknown
    >> ok (record s { program = record (s.program) { mode = rest }; modes = suc s.modes })
parse_isa_directive budget_line rest s =
    fail_if (is_empty rest) budget_value
    >> fail_if (ltb 1 (suc s.budgets)) budget_twice
    >> atoi_where is_not_positive budget_number rest
    >>= λ b. ok (record s { program = record (s.program) { budget = b }; budgets = suc s.budgets })
parse_isa_directive invariant_line rest s =
    fail_if (is_empty rest) invariant_value
    >> ok (record s {
      program = record (s.program) { invariants = s.program.invariants ++ unquoted rest ∷ [] };
    })
parse_isa_directive need_line rest s =
    fail_if (is_empty rest) need_arguments >> parse_isa_need (fields rest) >>= λ need.
    ok (record s { program = record (s.program) { needs = s.program.needs ++ need ∷ [] } })
parse_isa_directive op_line rest s =
    fail_if (is_empty rest) op_value
    >> ok (record s { program = record (s.program) { ops = s.program.ops ++ rest ∷ [] } })
parse_isa_directive run_line rest s =
    fail_if (is_empty rest) run_arguments >> parse_isa_run (fields rest) >>= λ run.
    ok (record s { program = record (s.program) { runs = s.program.runs ++ run ∷ [] } })
parse_isa_directive assert_line rest s =
    fail_if (is_empty rest) assert_condition
    >> ok (record s { program = record (s.program) { asserts = s.program.asserts ++ rest ∷ [] } })
parse_isa_directive if_fail_line rest s =
    fail_if (is_empty rest) if_fail_action >> parse_isa_if_fail (fields rest) >>= λ f.
    ok (record s { program = record (s.program) { if_fails = s.program.if_fails ++ f ∷ [] } })
parse_isa_directive label_line rest s =
    fail_if (is_empty rest) label_name
    >> ok (record s { program = record (s.program) { labels = s.program.labels ++ rest ∷ [] } })
parse_isa_directive halt_line rest s =
    ok (record s { program = record (s.program) { halt = true } })
parse_isa_directive other_line rest s = err unknown_directive

-- A line that is neither blank nor a comment.
unfoldable pub parse_isa_code : Bytes → IsaParsing → Result IsaMessage IsaParsing
unfolding isa_directive_of parse_isa_directive
parse_isa_code line s =
    let space = index_of line (bytes " ") in
    parse_isa_directive (isa_directive_of (keyword_of line space)) (rest_of line space) s

-- One round of the loop of `ParseISA`.
unfoldable pub parse_isa_line : Bytes → IsaParsing → Result IsaMessage IsaParsing
unfolding parse_isa_code
parse_isa_line raw s =
    let line = trim_space raw in
    if is_empty line
    then ok s
    else if has_prefix line (bytes "#")
    then ok s
    else parse_isa_code (strip_comment line) s

abbrev pub at_isa_line : {A : Type 0} → ℕ → Result IsaMessage A → Result IsaParseError A
at_isa_line n (ok a) = ok a
at_isa_line n (err message) = err (record { line = n; message = message })

-- The loop of `ParseISA`, from the line with number `n` on.
unfoldable pub parse_isa_lines : ℕ → List Bytes → IsaParsing → Result IsaParseError IsaParsing
unfolding parse_isa_line
parse_isa_lines n [] s = ok s
parse_isa_lines n (line ∷ lines) s =
    at_isa_line n (parse_isa_line line s) >>= λ s'. parse_isa_lines (suc n) lines s'

abbrev pub with_mode : IsaProgram → IsaProgram
with_mode p = if is_empty p.mode then record p { mode = bytes "SWARM" } else p

-- The required parts, and the mode where none is given.
unfoldable pub check_isa : IsaParsing → Result IsaMessage IsaProgram
check_isa s =
    fail_if (s.versions == 0) missing_version
    >> fail_if (is_empty s.program.base_rev) missing_base_rev
    >> ok (with_mode s.program)

abbrev pub empty_isa : IsaProgram
empty_isa = record {
  version = pos 0;
  base_rev = [];
  prompt_ref = [];
  mode = [];
  budget = pos 0;
  invariants = [];
  needs = [];
  ops = [];
  runs = [];
  asserts = [];
  if_fails = [];
  labels = [];
  halt = false;
}

-- `ParseISA`
unfoldable pub parse_isa : Bytes → Result IsaParseError IsaProgram
unfolding parse_isa_lines check_isa
parse_isa source =
    parse_isa_lines 1 (split_on b'\n' source) (record {
      program = empty_isa;
      versions = 0;
      base_revs = 0;
      prompt_refs = 0;
      modes = 0;
      budgets = 0;
    })
    >>= λ s. at_isa_line 0 (check_isa s)
