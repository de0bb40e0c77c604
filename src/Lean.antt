-- ===== src/Lean.antt =====
-- internal/lean/encoder.go and internal/lean/decoder.go: the fields of a row of telemetry, for the types
-- of columns that the metrics have, and internal/lean/tsln.go. A time is a number of milliseconds, so
-- that a difference of times holds while it is below 292 years; how a time is rendered as a text, which
-- no column of the metrics does, is a parameter.
pub mod ReadBack
pub mod Line
use genesis_ssmp.God.Edit.{newline}
use genesis_ssmp.Base.{
  ℕ, ◌%◌, ◌++◌, join, split_on, trim_space, is_empty, zero, suc, ◌+◌, ◌-◌, ◌^◌, Bool, ◌||◌, Option,
  none, some, List, [], ◌∷◌, ltb, if◌then◌else◌, Bytes, bytes, same, has_prefix, atoi, itoa, minus,
  ℤ, pos, negsuc, ◌>>=◌,
}
use genesis_ssmp.God.MacroOps.{decimal}

pub data ColType : Type 0 where
  timestamp_column string_column int_column : ColType

pub data Encoding : Type 0 where
  delta_encoding repeat_encoding raw_encoding : Encoding

pub record Column : Type 0 where
  pub name : Bytes
  pub col_type : ColType
  pub encoding : Encoding

pub data Value : Type 0 where
  time_value : ℤ → Value
  text_value : Bytes → Value
  int_value : ℤ → Value

-- The sum and the difference of two integers of 64 bits.
abbrev pub sum_of : ℤ → ℤ → ℤ
sum_of (pos a) (pos b) = pos (a + b)
sum_of (pos a) (negsuc b) = if ltb b a then pos (a - suc b) else negsuc (b - a)
sum_of (negsuc a) (pos b) = if ltb a b then pos (b - suc a) else negsuc (a - b)
sum_of (negsuc a) (negsuc b) = negsuc (suc (a + b))

abbrev pub negated : ℤ → ℤ
negated (pos n) = minus n
negated (negsuc n) = pos (suc n)

abbrev pub wrap64 : ℤ → ℤ
wrap64 (pos n) = if ltb n (2 ^ 63) then pos n else minus (2 ^ 64 - n)
wrap64 (negsuc n) = if ltb n (2 ^ 63) then negsuc n else pos (2 ^ 64 - suc n)

-- `toInt64`
abbrev pub to_int64 : Value → ℤ
to_int64 (int_value n) = n
to_int64 _ = pos 0

-- `%v`
abbrev pub shown : (ℤ → Bytes) → Value → Bytes
shown time_text (time_value t) = time_text t
shown time_text (text_value s) = s
shown time_text (int_value n) = decimal n

-- A difference with its sign, and 0 without one.
abbrev pub signed : ℤ → Bytes
signed (pos zero) = bytes "0"
signed (pos (suc n)) = b'+' ∷ itoa (suc n)
signed (negsuc n) = b'-' ∷ itoa (suc n)

-- `EncodeRow`, an integer, after that of the row before.
unfoldable pub encode_int : Encoding → Option ℤ → ℤ → Bytes
encode_int delta_encoding (some p) n = signed (wrap64 (sum_of n (negated p)))
encode_int _ _ n = decimal n

-- `EncodeRow`, a text.
unfoldable pub encode_text : Encoding → Option Bytes → Bytes → Bytes
encode_text repeat_encoding (some p) s = if same s p then bytes "=" else s
encode_text _ _ s = s

-- The offset of a time from the base.
abbrev pub encode_time : ℤ → Value → Option Bytes
encode_time base (time_value t) = some (decimal (sum_of t (negated base)))
encode_time base _ = none

abbrev pub int_before : Option Value → Option ℤ
int_before none = none
int_before (some v) = some (to_int64 v)

abbrev pub text_before : (ℤ → Bytes) → Option Value → Option Bytes
text_before time_text none = none
text_before time_text (some v) = some (shown time_text v)

-- `EncodeRow`, the switch; `none` is its error.
unfoldable pub encode_field : (ℤ → Bytes) → ℤ → Column → Option Value → Value → Option Bytes
unfolding encode_int encode_text
encode_field time_text base col prev v = elim col.col_type [
  | timestamp_column ↦ encode_time base v
  | string_column ↦ some (encode_text col.encoding (text_before time_text prev) (shown time_text v))
  | int_column ↦ some (encode_int col.encoding (int_before prev) (to_int64 v))
]

abbrev pub first_of : Option (List Value) → Option Value
first_of none = none
first_of (some []) = none
first_of (some (v ∷ vs)) = some v

abbrev pub rest_of_row : Option (List Value) → Option (List Value)
rest_of_row none = none
rest_of_row (some []) = some []
rest_of_row (some (v ∷ vs)) = some vs

abbrev pub cons_field : {A : Type 0} → Option A → Option (List A) → Option (List A)
cons_field (some f) (some fs) = some (f ∷ fs)
cons_field _ _ = none

-- `EncodeRow`, the loop over the columns, after the row before; `none` is an error, as for a row that has
-- not a value for each column.
unfoldable pub encode_fields :
    (ℤ → Bytes) → ℤ → List Column → Option (List Value) → List Value → Option (List Bytes)
unfolding encode_field
encode_fields time_text base [] prev [] = some []
encode_fields time_text base (col ∷ cols) prev (v ∷ vs) =
    cons_field (encode_field time_text base col (first_of prev) v)
      (encode_fields time_text base cols (rest_of_row prev) vs)
encode_fields _ _ _ _ _ = none

-- The line that `EncodeRow` writes.
abbrev pub as_line : Option (List Bytes) → Option Bytes
as_line none = none
as_line (some fields) = some (join b'|' fields ++ (newline ∷ []))

unfoldable pub encode_row :
    (ℤ → Bytes) → ℤ → List Column → Option (List Value) → List Value → Option Bytes
unfolding encode_fields
encode_row time_text base cols prev vs = as_line (encode_fields time_text base cols prev vs)

-- The base in the header, which `time.RFC3339` writes in whole seconds.
abbrev pub header_base : ℕ → ℕ
header_base base = base - base % 1000

abbrev pub is_signed : Bytes → Bool
is_signed val = has_prefix val (bytes "+") || has_prefix val (bytes "-")

abbrev pub added : ℤ → Option ℤ → Option ℤ
added p none = none
added p (some d) = some (wrap64 (sum_of p d))

-- `decodeDeltaInt`
unfoldable pub decode_int : Encoding → Option ℤ → Bytes → Option ℤ
decode_int delta_encoding (some p) val = if is_signed val then added p (atoi val) else atoi val
decode_int _ _ val = atoi val

-- `Decode`, a text; the value before is repeated as it is.
unfoldable pub decode_text : Encoding → Option Value → Bytes → Value
decode_text repeat_encoding (some p) val = if same val (bytes "=") then p else text_value val
decode_text _ _ val = text_value val

abbrev pub as_time : ℤ → Option ℤ → Option Value
as_time base none = none
as_time base (some offset) = some (time_value (sum_of base offset))

abbrev pub as_int : Option ℤ → Option Value
as_int none = none
as_int (some n) = some (int_value n)

-- `Decode`, the switch; `none` is an error.
unfoldable pub decode_field : ℤ → Column → Option Value → Bytes → Option Value
unfolding decode_int decode_text
decode_field base col prev val = elim col.col_type [
  | timestamp_column ↦ as_time base (atoi val)
  | string_column ↦ some (decode_text col.encoding prev val)
  | int_column ↦ as_int (decode_int col.encoding (int_before prev) val)
]

-- `Decode`, the loop over the columns of a row; `none` is an error, as for a row that has not a field for
-- each column.
unfoldable pub decode_fields :
    ℤ → List Column → Option (List Value) → List Bytes → Option (List Value)
unfolding decode_field
decode_fields base [] prev [] = some []
decode_fields base (col ∷ cols) prev (val ∷ vals) =
    cons_field (decode_field base col (first_of prev) val)
      (decode_fields base cols (rest_of_row prev) vals)
decode_fields _ _ _ _ = none

abbrev pub then_rows : Option (List Value) → Option (List (List Value)) → Option (List (List Value))
then_rows (some vs) (some rows) = some (vs ∷ rows)
then_rows _ _ = none

-- `Decode`, the loop over the lines after the separator: an empty one is skipped.
unfoldable pub decode_rows :
    ℤ → List Column → Option (List Value) → List Bytes → Option (List (List Value))
unfolding decode_fields
decode_rows base cols prev [] = some []
decode_rows base cols prev (line ∷ lines) =
    let row = decode_fields base cols prev (split_on b'|' (trim_space line)) in
    let after = then_rows row (decode_rows base cols row lines) in
    let skipped = decode_rows base cols prev lines in
    if is_empty (trim_space line) then skipped else after

-- The counters are of type int.
pub record MetricsRow : Type 0 where
  pub timestamp : ℤ
  pub mission_id : Bytes
  pub status : Bytes
  pub pf_count : ℤ
  pub pf_response_size : ℤ
  pub retries : ℤ
  pub rejects : ℤ
  pub conflicts : ℤ
  pub test_failures : ℤ
  pub tokens_in : ℤ
  pub tokens_out : ℤ
  pub turns : ℤ
  pub elapsed_ms : ℤ
  pub phase_transitions : ℤ

abbrev pub counter_column : Bytes → Column
counter_column name = record { name = name; col_type = int_column; encoding = delta_encoding }

-- `MetricsSchema`
abbrev pub metrics_schema : List Column
metrics_schema =
    record { name = bytes "t"; col_type = timestamp_column; encoding = delta_encoding }
    ∷ record { name = bytes "status"; col_type = string_column; encoding = repeat_encoding }
    ∷ counter_column (bytes "pf_count")
    ∷ counter_column (bytes "pf_resp_size")
    ∷ counter_column (bytes "retries")
    ∷ counter_column (bytes "rejects")
    ∷ counter_column (bytes "conflicts")
    ∷ counter_column (bytes "test_fail")
    ∷ counter_column (bytes "tokens_in")
    ∷ counter_column (bytes "tokens_out")
    ∷ counter_column (bytes "turns")
    ∷ counter_column (bytes "elapsed_ms")
    ∷ counter_column (bytes "phase_tx")
    ∷ []

-- `metricsRowToValues`
abbrev pub metrics_row_to_values : MetricsRow → List Value
metrics_row_to_values r =
    time_value r.timestamp
    ∷ text_value r.status
    ∷ int_value r.pf_count
    ∷ int_value r.pf_response_size
    ∷ int_value r.retries
    ∷ int_value r.rejects
    ∷ int_value r.conflicts
    ∷ int_value r.test_failures
    ∷ int_value r.tokens_in
    ∷ int_value r.tokens_out
    ∷ int_value r.turns
    ∷ int_value r.elapsed_ms
    ∷ int_value r.phase_transitions
    ∷ []
