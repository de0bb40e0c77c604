-- ===== src/God/AngelAssembly.antt =====
-- god/aa_parser.go: the parser of Angel Assembly.
pub mod Compile
pub mod Parsed
pub mod Failing
pub mod Served
use genesis_ssmp.Base.{
  ℕ, zero, suc, ◌+◌, ◌-◌, ◌*◌, ◌^◌, Bool, true, false, not, ◌&&◌, ◌||◌, Option, none, some, List,
  [], ◌∷◌, ◌++◌, ltb, leb, ◌==◌, if◌then◌else◌, length, take, drop, Bytes, bytes, is_empty, same,
  has_prefix, split_on, trim_space, fields, index_of, atoi, ℤ, pos, negsuc, ltℤ, Result, ok, err,
  ◌>>=◌, ◌>>◌, fail_if,
}
use genesis_ssmp.God.Missions.{Scope}

-- The kind is a constructor, with the fields that it uses; a `callers` without a count has 0.
pub data Need : Type 0 where
  symdef : Bytes → Need
  callers : Bytes → ℤ → Need
  slice : Bytes → ℤ → ℤ → Need

pub record Program : Type 0 where
  pub base_rev : Bytes
  pub leases : List Scope
  pub needs : List Need
  pub dos : List Bytes
  pub asserts : List Bytes
  pub return_type : Bytes

pub data Message : Type 0 where
  base_rev_value base_rev_twice lease_pairs lease_format need_arguments do_description : Message
  assert_arguments return_value return_twice unknown_directive : Message
  symdef_arguments callers_arguments callers_count slice_arguments slice_start slice_count : Message
  unknown_need tests_arguments unknown_assert : Message
  missing_base_rev missing_lease missing_do missing_return : Message
  -- An index that is out of range, which panics.
  no_fields : Message

pub record ParseError : Type 0 where
  pub line : ℕ
  pub message : Message

-- What the loop of `ParseAA` changes.
pub record Parsing : Type 0 where
  pub program : Program
  pub base_revs : ℕ
  pub returns : ℕ

abbrev pub Parsed : Type 0
Parsed = Result Message Parsing

-- The bytes before a place, or all of them.
abbrev pub before : Option ℕ → Bytes → Bytes
before none line = line
before (some i) line = trim_space (take i line)

-- The line without an inline comment.
unfoldable pub strip_comment : Bytes → Bytes
strip_comment line = before (index_of line (bytes " #")) line

-- `strings.SplitN(line, " ", 2)`
abbrev pub keyword_of : Bytes → Option ℕ → Bytes
keyword_of line none = line
keyword_of line (some i) = take i line

abbrev pub rest_of : Bytes → Option ℕ → Bytes
rest_of line none = []
rest_of line (some i) = trim_space (drop (suc i) line)

-- A pair of a `LEASE` line: `colonIdx < 1 || colonIdx >= len(pair)-1` is an error.
abbrev pub scope_at : Bytes → Option ℕ → Result Message Scope
scope_at pair none = err lease_format
scope_at pair (some i) =
    if ltb i 1 || leb (length pair - 1) i
    then err lease_format
    else ok (record { scope_type = take i pair; scope_value = drop (suc i) pair })

unfoldable pub parse_pairs : List Bytes → List Scope → Result Message (List Scope)
parse_pairs [] leases = ok leases
parse_pairs (pair ∷ pairs) leases =
    scope_at pair (index_of pair (bytes ":")) >>= λ scope. parse_pairs pairs (leases ++ scope ∷ [])

abbrev pub atoi_where : {E : Type 0} → (ℤ → Bool) → E → Bytes → Result E ℤ
atoi_where bad message text = elim (atoi text) [
  | none ↦ err message
  | some n ↦ if bad n then err message else ok n
]

abbrev pub is_not_positive : ℤ → Bool
is_not_positive n = ltℤ n (pos 1)

abbrev pub is_negative : ℤ → Bool
is_negative n = ltℤ n (pos 0)

abbrev pub need_symdef : List Bytes → Result Message Need
need_symdef (symbol ∷ []) = ok (symdef symbol)
need_symdef _ = err symdef_arguments

abbrev pub need_callers : List Bytes → Result Message Need
need_callers (symbol ∷ []) = ok (callers symbol (pos 0))
need_callers (symbol ∷ top_k ∷ []) =
    atoi_where is_not_positive callers_count top_k >>= λ n. ok (callers symbol n)
need_callers _ = err callers_arguments

abbrev pub need_slice : List Bytes → Result Message Need
need_slice (path ∷ start_line ∷ line_count ∷ []) =
    atoi_where is_negative slice_start start_line >>= λ start.
    atoi_where is_not_positive slice_count line_count >>= λ n. ok (slice path start n)
need_slice _ = err slice_arguments

-- `parseNeed`, on the fields.
unfoldable pub parse_need : List Bytes → Result Message Need
parse_need [] = err no_fields
parse_need (kind ∷ args) =
    if same kind (bytes "symdef")
    then need_symdef args
    else if same kind (bytes "callers")
    then need_callers args
    else if same kind (bytes "slice")
    then need_slice args
    else err unknown_need

abbrev pub assert_tests : List Bytes → Result Message Bytes
assert_tests (selector ∷ []) = ok selector
assert_tests _ = err tests_arguments

-- `parseAssert`, on the fields: the selector of the tests.
unfoldable pub parse_assert : List Bytes → Result Message Bytes
parse_assert [] = err no_fields
parse_assert (kind ∷ args) =
    if same kind (bytes "tests") then assert_tests args else err unknown_assert

pub data Directive : Type 0 where
  base_rev_line lease_line need_line do_line assert_line return_line other_line : Directive

-- The keywords of the switch of `ParseAA`.
unfoldable pub directive_of : Bytes → Directive
directive_of keyword =
    if same keyword (bytes "BASE_REV")
    then base_rev_line
    else if same keyword (bytes "LEASE")
    then lease_line
    else if same keyword (bytes "NEED")
    then need_line
    else if same keyword (bytes "DO")
    then do_line
    else if same keyword (bytes "ASSERT")
    then assert_line
    else if same keyword (bytes "RETURN")
    then return_line
    else other_line

-- The switch of `ParseAA`.
unfoldable pub parse_directive : Directive → Bytes → Parsing → Parsed
unfolding parse_pairs parse_need parse_assert
parse_directive base_rev_line rest s =
    fail_if (is_empty rest) base_rev_value
    >> fail_if (ltb 1 (suc s.base_revs)) base_rev_twice
    >> ok
        (record s { program = record (s.program) { base_rev = rest }; base_revs = suc s.base_revs })
parse_directive lease_line rest s =
    fail_if (is_empty rest) lease_pairs >> parse_pairs (fields rest) s.program.leases >>= λ leases.
    ok (record s { program = record (s.program) { leases = leases } })
parse_directive need_line rest s =
    fail_if (is_empty rest) need_arguments >> parse_need (fields rest) >>= λ need.
    ok (record s { program = record (s.program) { needs = s.program.needs ++ need ∷ [] } })
parse_directive do_line rest s =
    fail_if (is_empty rest) do_description
    >> ok (record s { program = record (s.program) { dos = s.program.dos ++ rest ∷ [] } })
parse_directive assert_line rest s =
    fail_if (is_empty rest) assert_arguments >> parse_assert (fields rest) >>= λ a.
    ok (record s { program = record (s.program) { asserts = s.program.asserts ++ a ∷ [] } })
parse_directive return_line rest s =
    fail_if (is_empty rest) return_value
    >> fail_if (ltb 1 (suc s.returns)) return_twice
    >> ok
        (record s { program = record (s.program) { return_type = rest }; returns = suc s.returns })
parse_directive other_line rest s = err unknown_directive

-- A line that is neither blank nor a comment.
unfoldable pub parse_code : Bytes → Parsing → Parsed
unfolding directive_of parse_directive
parse_code line s =
    let space = index_of line (bytes " ") in
    parse_directive (directive_of (keyword_of line space)) (rest_of line space) s

-- One round of the loop of `ParseAA`.
unfoldable pub parse_line : Bytes → Parsing → Parsed
unfolding strip_comment parse_code
parse_line raw s =
    let line = trim_space raw in
    if is_empty line
    then ok s
    else if has_prefix line (bytes "#")
    then ok s
    else parse_code (strip_comment line) s

abbrev pub at_line : {A : Type 0} → ℕ → Result Message A → Result ParseError A
at_line n (ok a) = ok a
at_line n (err message) = err (record { line = n; message = message })

-- The loop of `ParseAA`, from the line with number `n` on.
unfoldable pub parse_lines : ℕ → List Bytes → Parsing → Result ParseError Parsing
unfolding parse_line
parse_lines n [] s = ok s
parse_lines n (line ∷ lines) s =
    at_line n (parse_line line s) >>= λ s'. parse_lines (suc n) lines s'

abbrev pub lacks {ℓ} : {A : Type ℓ} → List A → Bool
lacks [] = true
lacks (_ ∷ _) = false

-- The required fields.
unfoldable pub check_required : Program → Result Message Program
check_required p =
    fail_if (is_empty p.base_rev) missing_base_rev
    >> fail_if (lacks p.leases) missing_lease
    >> fail_if (lacks p.dos) missing_do
    >> fail_if (is_empty p.return_type) missing_return
    >> ok p

abbrev pub empty_program : Program
empty_program = record {
  base_rev = [];
  leases = [];
  needs = [];
  dos = [];
  asserts = [];
  return_type = [];
}

-- `ParseAA`
unfoldable pub parse_aa : Bytes → Result ParseError Program
unfolding parse_lines check_required
parse_aa source =
    parse_lines 1 (split_on b'\n' source)
      (record { program = empty_program; base_revs = 0; returns = 0 })
    >>= λ s. at_line 0 (check_required s.program)
