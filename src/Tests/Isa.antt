-- ===== src/Tests/Isa.antt =====
-- god/isa_parser.go and god/isa_compiler.go: the property at a concrete program.
use genesis_ssmp.Base.{
  ◌≡◌, refl, true, [], ◌∷◌, Bytes, bytes, split_on, trim_space, trim_words, width_of, fields,
  fields_loop, index_of, has_prefix, same, atoi, digits_onto, pos, ok, ◌>>=◌,
}
use genesis_ssmp.God.AngelAssembly.{strip_comment}
use genesis_ssmp.God.Isa.{
  IsaProgram, isa_callers, isa_test, retry, parse_isa_need, parse_isa_if_fail,
}
use genesis_ssmp.God.Isa.Lines.{
  parse_isa, parse_isa_lines, parse_isa_line, parse_isa_code, parse_isa_directive, isa_directive_of,
  check_isa,
}
use genesis_ssmp.God.Isa.Compile.{compile_isa}
use genesis_ssmp.God.Isa.Runnable.{IsRunnable, compile_isa-IsRunnable}

abbrev isa_source : Bytes
isa_source =
    bytes
      "ISA_VERSION 0\nBASE_REV r1\nBUDGET 500 # small\nINVARIANT \"f stays\"\nNEED callers f 3\nNEED test g\nIF_FAIL RETRY 2\nHALT\n"

abbrev isa_program : IsaProgram
isa_program = record {
  version = pos 0;
  base_rev = bytes "r1";
  prompt_ref = [];
  mode = bytes "SWARM";
  budget = pos 500;
  invariants = bytes "f stays" ∷ [];
  needs = isa_callers (bytes "f") (pos 3) ∷ isa_test (bytes "g") ∷ [];
  ops = [];
  runs = [];
  asserts = [];
  if_fails = retry (pos 2) ∷ [];
  labels = [];
  halt = true;
}

isa_source-parses : parse_isa isa_source ≡ ok isa_program
unfolding parse_isa parse_isa_lines parse_isa_line parse_isa_code parse_isa_directive
    isa_directive_of parse_isa_need parse_isa_if_fail strip_comment check_isa split_on trim_space
    trim_words width_of fields fields_loop index_of has_prefix same atoi digits_onto ◌>>=◌
isa_source-parses = refl

compile_isa-IsRunnable_example :
    IsRunnable
      (λ time. true)
      (bytes "m1")
      isa_program
      (compile_isa (bytes "t") (bytes "m1") isa_program)
compile_isa-IsRunnable_example =
    compile_isa-IsRunnable (λ time. true) isa_source (bytes "t") (bytes "m1") isa_program
      isa_source-parses (refl, tt) refl refl refl
