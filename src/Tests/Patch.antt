-- ===== src/Tests/Patch.antt =====
-- god/patch_v1.go: the properties at a concrete patch and a concrete span.
use genesis_ssmp.Base.{
  ◌≡◌, refl, true, some, List, [], ◌∷◌, arith, map, All, Bytes, bytes, split_on, join, trim_space,
  trim_words, width_of, fields, fields_loop, has_prefix, same, atoi, digits_onto, pos, ok, err,
  ◌>>=◌,
}
use genesis_ssmp.God.Edit.{newline}
use genesis_ssmp.God.Patch.{
  PatchSet, patch_replace, patch_add, parse_patch, parse_from, parse_meta, parse_ops, header_op,
  meta_line, split_csv, validate_patch, validate_patch_ops, validate_patch_op, edit_ops_from,
  edit_op_of, reply_with, patch_response,
}
use genesis_ssmp.God.Patch.Delta.{
  decode_content, decode_lines, decode_step, line_marker, marker_of, unbraced, panic,
}
use genesis_ssmp.God.Patch.Markers.{
  is_writable, Step, shortest, counted, braced, keep_lines, skip_lines, new_line, written,
}
use genesis_ssmp.God.Patch.Script.{play, Decodes, decode_content-play}
use genesis_ssmp.God.Patch.Converted.{AllEdits, HasSpan, patch_response-valid}
use genesis_ssmp.God.Provider.{Reply, validate_reply}
use genesis_ssmp.God.Provider.Accepted.{edit_ops_of}

abbrev patch_text : Bytes
patch_text =
    bytes
      "GENESIS_PATCH_V1\nMISSION: m1\nSYMBOLS: f, g\nFILES: a.go\n\n### REPLACE a.go 2 3\nx\n\ny\n### END\n### ADD b.go\n### END\n"

abbrev patch_set : PatchSet
patch_set = record {
  mission_id = bytes "m1";
  symbols = some (bytes "f" ∷ bytes "g" ∷ []);
  files = some (bytes "a.go" ∷ []);
  ops =
      record {
        op = patch_replace;
        path = bytes "a.go";
        lines = pos 2 ∷ pos 3 ∷ [];
        symbol = [];
        content = bytes "x\n\ny";
      }
      ∷ record { op = patch_add; path = bytes "b.go"; lines = []; symbol = []; content = [] }
      ∷ [];
}

patch_text-parses : parse_patch patch_text ≡ ok patch_set
unfolding parse_patch parse_from parse_meta parse_ops header_op meta_line split_csv split_on join
    trim_space trim_words width_of fields fields_loop has_prefix same atoi digits_onto ◌>>=◌
patch_text-parses = refl

abbrev patch_reply : Reply
patch_reply = reply_with patch_set (edit_ops_of (some (edit_ops_from patch_set.ops)))

patch_set-converts : patch_response patch_set ≡ ok patch_reply
unfolding patch_response validate_patch validate_patch_ops validate_patch_op edit_ops_from
    edit_op_of ◌>>=◌
patch_set-converts = refl

patch_response-valid_example :
    (validate_reply (bytes "m1") patch_reply ≡ ok tt)
    × (patch_reply.symbols_touched ≡ patch_set.symbols)
    × (patch_reply.files_touched ≡ patch_set.files)
    × All HasSpan (edit_ops_of patch_reply.edit_ir)
    × AllEdits patch_set.ops (edit_ops_of patch_reply.edit_ir)
patch_response-valid_example = patch_response-valid patch_set patch_reply patch_set-converts

abbrev old_lines : List Bytes
old_lines = bytes "a" ∷ bytes "b" ∷ bytes "c" ∷ []

abbrev changes : List Step
changes = skip_lines shortest 1 ∷ new_line (bytes "@x") ∷ keep_lines braced 2 ∷ []

changes-play :
    play (keep_lines counted 1 ∷ changes) (bytes "z" ∷ old_lines)
    ≡ some (bytes "z" ∷ bytes "@x" ∷ bytes "b" ∷ bytes "c" ∷ [])
unfolding play
changes-play = refl

writable : is_writable (bytes "@x") ≡ true
unfolding has_prefix
writable = refl

decode_content-play_example :
    Decodes (play (keep_lines counted 1 ∷ changes) (bytes "z" ∷ old_lines)) (
      decode_content
        (join newline (map written (keep_lines counted 1 ∷ changes)))
        (bytes "z" ∷ old_lines))
decode_content-play_example =
    decode_content-play (bytes "z" ∷ old_lines) (keep_lines counted 1) changes (
      (omega arith, omega arith),
      (
        (omega arith, omega arith),
        ((writable, (omega arith, (omega arith, tt))), ((omega arith, omega arith), tt)),
      ),
    )

-- A count of 2^63 - 1 behind one line that is kept.
overflow_panics : decode_content (bytes "@K\n@K9223372036854775807") old_lines ≡ err (2, panic)
unfolding decode_content decode_lines decode_step line_marker marker_of unbraced split_on trim_space
    trim_words width_of has_prefix same atoi digits_onto ◌>>=◌
overflow_panics = refl
