-- ===== src/Tests/Assembly.antt =====
-- god/aa_parser.go and god/aa_compiler.go: the properties at a concrete program.
use genesis_ssmp.Base.{
  ◌≡◌, refl, [], ◌∷◌, Bytes, bytes, split_on, trim_space, trim_words, width_of, fields, fields_loop,
  index_of, has_prefix, same, atoi, digits_onto, pos, ok, ◌>>=◌,
}
use genesis_ssmp.God.AngelAssembly.{
  Program, slice, parse_aa, parse_lines, parse_line, parse_code, parse_directive, directive_of,
  parse_pairs, parse_need, strip_comment, check_required,
}
use genesis_ssmp.God.AngelAssembly.Compile.{compile_aa}
use genesis_ssmp.God.AngelAssembly.Parsed.{IsProgram, IsWhole, parse_aa-IsProgram}
use genesis_ssmp.God.AngelAssembly.Failing.{IsLocated, parse_aa-IsLocated}
use genesis_ssmp.God.AngelAssembly.Served.{AllFor, compile_aa-AllFor}

abbrev source : Bytes
source =
    bytes
      "BASE_REV r1\nLEASE symbol:f file:g.go\n# what is needed\nNEED slice g.go 3 10\nDO rename f # now\nRETURN edit_ir\n"

abbrev program : Program
program = record {
  base_rev = bytes "r1";
  leases =
      record { scope_type = bytes "symbol"; scope_value = bytes "f" }
      ∷ record { scope_type = bytes "file"; scope_value = bytes "g.go" }
      ∷ [];
  needs = slice (bytes "g.go") (pos 3) (pos 10) ∷ [];
  dos = bytes "rename f" ∷ [];
  asserts = [];
  return_type = bytes "edit_ir";
}

source-parses : parse_aa source ≡ ok program
unfolding parse_aa parse_lines parse_line parse_code parse_directive directive_of parse_pairs
    parse_need strip_comment check_required split_on trim_space trim_words width_of fields
    fields_loop index_of has_prefix same atoi digits_onto ◌>>=◌
source-parses = refl

parse_aa-IsProgram_example : IsProgram program × IsWhole program
parse_aa-IsProgram_example = parse_aa-IsProgram source program source-parses

parse_aa-IsLocated_example : IsLocated (bytes "DO\nNEED") (parse_aa (bytes "DO\nNEED"))
parse_aa-IsLocated_example = parse_aa-IsLocated (bytes "DO\nNEED")

compile_aa-AllFor_example :
    AllFor (bytes "m1") program.needs (compile_aa [] (bytes "m1") program).shard_requests
compile_aa-AllFor_example = compile_aa-AllFor source [] (bytes "m1") program source-parses
