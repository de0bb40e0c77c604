-- ===== src/God/Patch/Delta.antt =====
-- god/patch_v1.go: the delta encoding of a replaced span.
use genesis_ssmp.Base.{
  ends_with, ℕ, suc, ◌+◌, ◌-◌, ◌^◌, Bool, true, false, not, ◌&&◌, ◌||◌, Option, none, some, List,
  [], ◌∷◌, ◌++◌, ltb, leb, if◌then◌else◌, length, take, drop, Bytes, bytes, is_empty, same,
  has_prefix, split_on, join, trim_space, atoi, ℤ, pos, negsuc, pos_part, ltℤ, minus, Result, ok,
  err, ◌>>=◌, ◌>>◌, fail_if,
}
use genesis_ssmp.God.Edit.{Disk, newline, read_file_lines}
use genesis_ssmp.God.Patch.{PatchOp, patch_replace}

-- `@K{N}` and `@S{N}` without the braces.
unfoldable pub unbraced : Bytes → Bytes
unbraced t =
    if (has_prefix t (bytes "@K{") || has_prefix t (bytes "@S{")) && ends_with b'}' t
    then take 2 t ++ drop 3 (take (length t - 1) t)
    else t

-- `trimmed[2] >= '0' && trimmed[2] <= '9'`, behind a test of the length.
abbrev pub starts_digit : Bytes → Bool
starts_digit [] = false
starts_digit (c ∷ s) = leb b'0' c && leb c b'9'

-- The cases of the switch, with the text of a count.
pub data Marker : Type 0 where
  keep_one skip_one : Marker
  keep_many skip_many literal : Bytes → Marker

-- The marker of a line, from the line and its trimmed text.
unfoldable pub marker_of : Bytes → Bytes → Marker
marker_of line t =
    if same t (bytes "@K")
    then keep_one
    else if has_prefix t (bytes "@K") && starts_digit (drop 2 t)
    then keep_many (drop 2 t)
    else if same t (bytes "@S")
    then skip_one
    else if has_prefix t (bytes "@S") && starts_digit (drop 2 t)
    then skip_many (drop 2 t)
    else if has_prefix line (bytes "@@")
    then literal (drop 1 line)
    else literal line

unfoldable pub line_marker : Bytes → Marker
unfolding unbraced marker_of
line_marker line = marker_of line (unbraced (trim_space line))

-- An index that is out of range panics.
pub data DecodeError : Type 0 where
  past_span invalid_count low_count panic : DecodeError

-- The sum in 64 bits, for a number that 63 bits hold.
abbrev pub add_int64 : ℤ → ℕ → ℤ
add_int64 (pos a) n = if ltb (a + n) (2 ^ 63) then pos (a + n) else minus (2 ^ 64 - (a + n))
add_int64 (negsuc a) n = if leb n a then negsuc (a - n) else pos (n - a - 1)

-- `origSpan[from:to]`, where `to` is not past the end.
abbrev pub slice_between : ℤ → ℤ → List Bytes → Result DecodeError (List Bytes)
slice_between (pos i) (pos j) span = if leb i j then ok (take (j - i) (drop i span)) else err panic
slice_between _ _ span = err panic

abbrev pub count_of : Option ℤ → Result DecodeError ℕ
count_of none = err invalid_count
count_of (some n) = if ltℤ n (pos 1) then err low_count else ok (pos_part n)

-- The lines that a marker puts out, and the position after it.
unfoldable pub decode_step : List Bytes → ℤ → Marker → Result DecodeError (List Bytes × ℤ)
decode_step span p keep_one =
    fail_if (leb (length span) (pos_part p) && not (ltℤ p (pos 0))) past_span
    >> slice_between p (add_int64 p 1) span
    >>= λ lines. ok (lines, add_int64 p 1)
decode_step span p (keep_many count) = count_of (atoi count) >>= λ n.
    fail_if (ltℤ (pos (length span)) (add_int64 p n)) past_span
    >> slice_between p (add_int64 p n) span
    >>= λ lines. ok (lines, add_int64 p n)
decode_step span p skip_one =
    fail_if (leb (length span) (pos_part p) && not (ltℤ p (pos 0))) past_span
    >> ok ([], add_int64 p 1)
decode_step span p (skip_many count) = count_of (atoi count) >>= λ n.
    fail_if (ltℤ (pos (length span)) (add_int64 p n)) past_span >> ok ([], add_int64 p n)
decode_step span p (literal line) = ok (line ∷ [], p)

abbrev pub at_line_number : {A : Type 0} → ℕ → Result DecodeError A → Result (ℕ × DecodeError) A
at_line_number n (ok a) = ok a
at_line_number n (err e) = err (n, e)

-- The loop of `DecodePatchV1Content` from line `n` on.
unfoldable pub decode_lines :
    ℕ → List Bytes → ℤ → List Bytes → Result (ℕ × DecodeError) (List Bytes)
unfolding line_marker decode_step
decode_lines n span p [] = ok []
decode_lines n span p (line ∷ lines) =
    at_line_number n (decode_step span p (line_marker line)) >>= λ (out, p').
    decode_lines (suc n) span p' lines >>= λ rest. ok (out ++ rest)

-- `DecodePatchV1Content`
unfoldable pub decode_content : Bytes → List Bytes → Result (ℕ × DecodeError) Bytes
unfolding decode_lines
decode_content [] span = ok []
decode_content (c ∷ encoded) span =
    decode_lines 1 span (pos 0) (split_on newline (c ∷ encoded)) >>= λ out. ok (join newline out)

abbrev pub is_directive : Bytes → Bool
is_directive t =
    same t (bytes "@K")
    || same t (bytes "@S")
    || ((has_prefix t (bytes "@K") || has_prefix t (bytes "@S"))
        && (starts_digit (drop 2 t) || has_prefix (drop 2 t) (bytes "{")))

abbrev pub any_directive : List Bytes → Bool
any_directive [] = false
any_directive (l ∷ ls) = is_directive (trim_space l) || any_directive ls

-- `containsDeltaDirectives`
unfoldable pub contains_directives : Bytes → Bool
contains_directives content = any_directive (split_on newline content)

pub data SetError : Type 0 where
  unreadable out_of_bounds : ℕ → SetError
  undecoded : ℕ → ℕ × DecodeError → SetError

-- `DecodePatchV1Set`, one operation that is encoded.
unfoldable pub decode_op : Disk → Bytes → ℕ → PatchOp → Result SetError PatchOp
unfolding decode_content
decode_op disk repo_root i op = elim (read_file_lines disk (repo_root ++ (b'/' ∷ op.path))) [
  | err e ↦ err (unreadable i)
  | ok file_lines ↦ elim op.lines [
    | [] ↦ ok op
    | s ∷ rest ↦ elim rest [
      | [] ↦ ok op
      | e ∷ _ ↦
          if ltℤ s (pos 1) || (ltℤ (pos (length file_lines)) e || ltℤ e s)
          then err (out_of_bounds i)
          else elim (decode_content op.content
              (take (pos_part e - (pos_part s - 1)) (drop (pos_part s - 1) file_lines))) [
                | err f ↦ err (undecoded i f)
                | ok content ↦ ok (record op { content = content })
              ]
    ]
  ]
]

abbrev pub has_two : List ℤ → Bool
has_two (_ ∷ _ ∷ []) = true
has_two _ = false

-- The operations that are decoded: a `REPLACE` with a span and a content with directives.
abbrev pub is_encoded : PatchOp → Bool
is_encoded op = elim op.op [
  | patch_replace ↦ has_two op.lines && not (is_empty op.content) && contains_directives op.content
  | _ ↦ false
]

-- The loop of `DecodePatchV1Set`: the operations as they are left, and the error.
unfoldable pub decode_ops : Disk → Bytes → ℕ → List PatchOp → List PatchOp × Option SetError
unfolding decode_op contains_directives
decode_ops disk repo_root i [] = ([], none)
decode_ops disk repo_root i (op ∷ ops) = elim (is_encoded op) [
  | false ↦ let (rest, e) = decode_ops disk repo_root (suc i) ops in (op ∷ rest, e)
  | true ↦ elim (decode_op disk repo_root i op) [
    | err e ↦ (op ∷ ops, some e)
    | ok op' ↦ let (rest, e) = decode_ops disk repo_root (suc i) ops in (op' ∷ rest, e)
  ]
]
