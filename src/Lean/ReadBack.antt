-- ===== src/Lean/ReadBack.antt =====
-- internal/lean: what is read back of the fields of a row of telemetry.
use genesis_ssmp.God.Edit.{newline}
use genesis_ssmp.Base.{
  All, ◌≢◌, true, ◌%◌, map, length, starts_plain, ends_plain, ends_plain-append, is_plain,
  starts_with_digit, itoa-starts, itoa-ends_plain, itoa-All, subst, digits_onto, ℕ, zero, suc, ◌+◌,
  ◌-◌, ◌^◌, ◌≤◌, ◌<◌, ◌≡◌, refl, sym, ap, ◌∙◌, inl, inr, false, Option, none, some, List, [], ◌∷◌,
  arith, ltb, ◌==◌, if◌then◌else◌, Bytes, bytes, same, same_iff, same_refl, has_prefix, atoi, itoa,
  atoi-itoa, atoi-signed, Bool-cases, ℤ, pos, negsuc,
}
use genesis_ssmp.God.MacroOps.{decimal}
use genesis_ssmp.Lean.{
  header_base, signed, ColType, timestamp_column, string_column, int_column, Encoding,
  delta_encoding, repeat_encoding, raw_encoding, Column, Value, time_value, text_value, int_value,
  sum_of, negated, wrap64, encode_int, encode_text, encode_field, encode_fields, decode_int,
  decode_text, decode_field, decode_fields, first_of, rest_of_row, text_before, as_int, as_time,
}

-- What is read back of a counter: one that has not changed becomes 0.
abbrev pub counted_back : Encoding → Option ℕ → ℕ → ℕ
counted_back delta_encoding (some p) n = if n == p then 0 else n
counted_back _ _ n = n

abbrev pub pos_of : Option ℕ → Option ℤ
pos_of none = none
pos_of (some n) = some (pos n)

abbrev IsSmall : Option ℕ → Type 0
IsSmall none = Unit
IsSmall (some p) = p < 2 ^ 63

-- The difference of two counters, with its sign.
signed-more :
    (p m : ℕ)
    → p + suc m < 2 ^ 63
    → wrap64 (sum_of (pos (p + suc m)) (negated (pos p))) ≡ pos (suc m)
signed-more zero m h = ground (arith, h)
signed-more (suc p) m h = ground (arith, h)

signed-less :
    (n m : ℕ) → n + suc m < 2 ^ 63 → wrap64 (sum_of (pos n) (negated (pos (n + suc m)))) ≡ negsuc m
signed-less n m h = let e : n + suc m ≡ suc (n + m) = omega arith in rw e (ground (arith, h))

signed-none : (n : ℕ) → n < 2 ^ 63 → wrap64 (sum_of (pos n) (negated (pos n))) ≡ pos 0
signed-none zero h = ground arith
signed-none (suc n) h = ground (arith, h)

decode-more :
    (p m : ℕ)
    → p + suc m < 2 ^ 63
    → decode_int delta_encoding
        (some (pos p))
        (encode_int delta_encoding (some (pos p)) (pos (p + suc m)))
      ≡ some (pos (p + suc m))
unfolding decode_int encode_int has_prefix same
decode-more p m h =
    rw (signed-more p m h, (atoi-signed (suc m) (omega (arith, h))).0) (ground (arith, h))

decode-less :
    (n m : ℕ)
    → n + suc m < 2 ^ 63
    → decode_int delta_encoding
        (some (pos (n + suc m)))
        (encode_int delta_encoding (some (pos (n + suc m))) (pos n))
      ≡ some (pos n)
unfolding decode_int encode_int has_prefix same
decode-less n m h =
    rw (signed-less n m h, (atoi-signed (suc m) (omega (arith, h))).1) (ground (arith, h))

decode-none :
    (n : ℕ)
    → n < 2 ^ 63
    → decode_int delta_encoding (some (pos n)) (encode_int delta_encoding (some (pos n)) (pos n))
      ≡ some (pos 0)
unfolding decode_int encode_int has_prefix same atoi digits_onto
decode-none n h = rw (signed-none n h) refl

decode_int-raw : (n : ℕ) → n < 2 ^ 63 → atoi (decimal (pos n)) ≡ some (pos n)
decode_int-raw n h = atoi-itoa n h

decode_int-encode_int :
    (enc : Encoding) (prev : Option ℕ) (n : ℕ)
    → IsSmall prev
    → n < 2 ^ 63
    → decode_int enc (pos_of prev) (encode_int enc (pos_of prev) (pos n))
      ≡ some (pos (counted_back enc prev n))
unfolding decode_int encode_int
decode_int-encode_int delta_encoding none n h k = decode_int-raw n k
decode_int-encode_int repeat_encoding prev n h k = decode_int-raw n k
decode_int-encode_int raw_encoding prev n h k = decode_int-raw n k
decode_int-encode_int delta_encoding (some p) n h k = elim (Bool-cases (n == p)) [
  | inl e ↦ let at : p ≡ n = ground arith in rw (e, at) (decode-none n k)
  | inr e ↦ elim (Bool-cases (ltb p n)) [
    | inl f ↦
        let at : n ≡ p + suc (n - p - 1) = ground arith in
        rw e (
          subst
            (λ x.
              decode_int delta_encoding (some (pos p))
                (encode_int delta_encoding (some (pos p)) (pos x))
              ≡ some (pos x))
            (sym at) (decode-more p (n - p - 1) (omega (arith, at, k))))
    | inr f ↦
        let at : p ≡ n + suc (p - n - 1) = ground arith in
        rw e (
          subst
            (λ x.
              decode_int delta_encoding (some (pos x))
                (encode_int delta_encoding (some (pos x)) (pos n))
              ≡ some (pos n))
            (sym at) (decode-less n (p - n - 1) (omega (arith, at, h))))
  ]
]

-- A text that a field can hold: it is not the mark of repetition, it has no separator and no newline, and a
-- printing byte at either end.
abbrev pub IsFieldText : Bytes → Type 0
IsFieldText s =
    (starts_plain s ≡ true) × (ends_plain s ≡ true) × All (λ c. (c ≢ b'|') × (c ≢ newline)) s

-- A value fits its column: a time is not before the base.
abbrev pub FitsColumn : ℕ → ColType → Value → Type 0
FitsColumn base timestamp_column (time_value (pos t)) = (base ≤ t) × (t < 2 ^ 43)
FitsColumn base string_column (text_value s) = (same s (bytes "=") ≡ false) × IsFieldText s
FitsColumn base int_column (int_value (pos n)) = n < 2 ^ 63
FitsColumn _ _ _ = ⊥

abbrev pub FitsBefore : ℕ → ColType → Option Value → Type 0
FitsBefore base t none = Unit
FitsBefore base t (some v) = FitsColumn base t v

-- The rows have a value that fits for each column.
abbrev pub FitsRow : ℕ → List Column → Option (List Value) → List Value → Type 0
FitsRow base [] prev [] = Unit
FitsRow base (col ∷ cols) prev (v ∷ vs) =
    FitsBefore base col.col_type (first_of prev)
    × FitsColumn base col.col_type v
    × FitsRow base cols (rest_of_row prev) vs
FitsRow _ _ _ _ = ⊥

-- A time is read back as many milliseconds early as the header leaves out of the base.
abbrev pub early : ℕ → Value → Value
early base (time_value (pos t)) = time_value (pos (t - base % 1000))
early base (time_value (negsuc t)) = time_value (negsuc t)
early base (text_value s) = text_value s
early base (int_value n) = int_value n

abbrev pub early_before : ℕ → Option Value → Option Value
early_before base none = none
early_before base (some v) = some (early base v)

abbrev pub early_row : ℕ → Option (List Value) → Option (List Value)
early_row base none = none
early_row base (some vs) = some (map (early base) vs)

first_of-early_row :
    (base : ℕ) (prev : Option (List Value))
    → first_of (early_row base prev) ≡ early_before base (first_of prev)
first_of-early_row base none = refl
first_of-early_row base (some []) = refl
first_of-early_row base (some (v ∷ vs)) = refl

rest_of_row-early_row :
    (base : ℕ) (prev : Option (List Value))
    → rest_of_row (early_row base prev) ≡ early_row base (rest_of_row prev)
rest_of_row-early_row base none = refl
rest_of_row-early_row base (some []) = refl
rest_of_row-early_row base (some (v ∷ vs)) = refl

-- What is read back of a value: a time is early, and a counter that has not changed is 0.
abbrev pub counter_back : Encoding → Option Value → ℕ → Value
counter_back enc (some (int_value (pos p))) n = int_value (pos (counted_back enc (some p) n))
counter_back enc _ n = int_value (pos n)

abbrev pub read_back : ℕ → Column → Option Value → Value → Value
read_back base col prev (int_value (pos n)) = counter_back col.encoding prev n
read_back base col prev (int_value (negsuc n)) = int_value (negsuc n)
read_back base col prev (text_value s) = text_value s
read_back base col prev (time_value t) = early base (time_value t)

abbrev pub read_back_row : ℕ → List Column → Option (List Value) → List Value → List Value
read_back_row base (col ∷ cols) prev (v ∷ vs) =
    read_back base col (first_of prev) v ∷ read_back_row base cols (rest_of_row prev) vs
read_back_row _ _ _ _ = []

decode_text-encode_text :
    (time_text : ℤ → Bytes) (enc : Encoding) (prev : Option Value) (base : ℕ) (s : Bytes)
    → FitsBefore base string_column prev
    → same s (bytes "=") ≡ false
    → decode_text enc (early_before base prev) (encode_text enc (text_before time_text prev) s)
      ≡ text_value s
unfolding decode_text encode_text
decode_text-encode_text time_text delta_encoding prev base s h k = refl
decode_text-encode_text time_text raw_encoding prev base s h k = refl
decode_text-encode_text time_text repeat_encoding none base s h k = refl
decode_text-encode_text time_text repeat_encoding (some (time_value t)) base s h k = absurd h
decode_text-encode_text time_text repeat_encoding (some (int_value n)) base s h k = absurd h
decode_text-encode_text time_text repeat_encoding (some (text_value q)) base s h k =
    elim (Bool-cases (same s q)) [
      | inl e ↦ rw (e, same_refl (bytes "=")) (ap text_value (sym ((same_iff s q).0 e)))
      | inr e ↦ rw (e, k) refl
    ]

sum_of-gap : (base t : ℕ) → base ≤ t → sum_of (pos t) (negated (pos base)) ≡ pos (t - base)
sum_of-gap zero t h = ground (arith, h)
sum_of-gap (suc base) t h = ground (arith, h)

-- What may stand in a field.
abbrev pub IsField : Bytes → Type 0
IsField = IsFieldText

itoa-IsField : (n : ℕ) → IsField (itoa n)
itoa-IsField n = (plain_start (itoa n) (itoa-starts n), itoa-ends_plain n, itoa-All _ n apart)
  where
    plain_start : (s : Bytes) → starts_with_digit s ≡ true → starts_plain s ≡ true
    plain_start [] h = h
    plain_start (c ∷ s) h = ground (arith, h)

    apart : (d : ℕ) → d < 10 → ((b'0' + d) ≢ b'|') × ((b'0' + d) ≢ newline)
    apart d h = (ground (arith, h), ground (arith, h))

after_sign-IsField :
    (c n : ℕ) → (is_plain c ≡ true) → (c ≢ b'|') → (c ≢ newline) → IsField (c ∷ itoa n)
after_sign-IsField c n p h k =
    let (starts, ends, apart) = itoa-IsField n in
    (p, ends_plain-append (c ∷ []) (itoa n) ends, ((h, k), apart))

decimal-IsField : (n : ℤ) → IsField (decimal n)
decimal-IsField (pos n) = itoa-IsField n
decimal-IsField (negsuc n) = after_sign-IsField b'-' (suc n) refl (ground arith) (ground arith)

signed-IsField : (n : ℤ) → IsField (signed n)
signed-IsField (pos zero) = (refl, refl, ((ground arith, ground arith), tt))
signed-IsField (pos (suc n)) = after_sign-IsField b'+' (suc n) refl (ground arith) (ground arith)
signed-IsField (negsuc n) = after_sign-IsField b'-' (suc n) refl (ground arith) (ground arith)

encode_int-IsField : (enc : Encoding) (prev : Option ℤ) (n : ℤ) → IsField (encode_int enc prev n)
unfolding encode_int
encode_int-IsField delta_encoding (some p) n = signed-IsField (wrap64 (sum_of n (negated p)))
encode_int-IsField delta_encoding none n = decimal-IsField n
encode_int-IsField repeat_encoding prev n = decimal-IsField n
encode_int-IsField raw_encoding prev n = decimal-IsField n

encode_text-IsField :
    (enc : Encoding) (prev : Option Bytes) (s : Bytes)
    → IsField s
    → IsField (encode_text enc prev s)
unfolding encode_text
encode_text-IsField delta_encoding prev s h = h
encode_text-IsField raw_encoding prev s h = h
encode_text-IsField repeat_encoding none s h = h
encode_text-IsField repeat_encoding (some p) s h = elim (Bool-cases (same s p)) [
  | inl e ↦ rw e (refl, refl, ((ground arith, ground arith), tt))
  | inr e ↦ rw e h
]

-- One field is written, and read back after the value before it.
IsReadBack : (ℤ → Bytes) → ℕ → Column → Option Value → Value → Type 0
IsReadBack time_text base col prev v =
    (x : Bytes) × (encode_field time_text (pos base) col prev v ≡ some x)
    × IsField x
    × (decode_field (pos (header_base base)) col (early_before base prev) x
        ≡ some (read_back base col prev v))

encode_field-IsReadBack :
    (time_text : ℤ → Bytes) (base : ℕ) (col : Column) (prev : Option Value) (v : Value)
    → FitsBefore base col.col_type prev
    → FitsColumn base col.col_type v
    → IsReadBack time_text base col prev v
unfolding encode_field decode_field IsReadBack
encode_field-IsReadBack time_text base col prev v h k = go col.col_type refl prev v h k
  where
    counted :
        (prev : Option ℕ) (n : ℕ)
        → IsSmall prev
        → n < 2 ^ 63
        → as_int
            (decode_int col.encoding (pos_of prev) (encode_int col.encoding (pos_of prev) (pos n)))
          ≡ some (int_value (pos (counted_back col.encoding prev n)))
    counted prev n h k = ap as_int (decode_int-encode_int col.encoding prev n h k)

    first_counted : (enc : Encoding) (n : ℕ) → counted_back enc none n ≡ n
    first_counted delta_encoding n = refl
    first_counted repeat_encoding n = refl
    first_counted raw_encoding n = refl

    go :
        (t : ColType)
        → col.col_type ≡ t
        → (prev : Option Value) (v : Value) → FitsBefore base t prev
        → FitsColumn base t v
        → IsReadBack time_text base col prev v
    go string_column e prev (text_value s) h (k, is_text) = rw e (
      encode_text col.encoding (text_before time_text prev) s,
      refl,
      encode_text-IsField col.encoding (text_before time_text prev) s is_text,
      ap some (decode_text-encode_text time_text col.encoding prev base s h k),
    )
    go string_column e prev (time_value t) h k = absurd k
    go string_column e prev (int_value n) h k = absurd k
    go timestamp_column e prev (time_value (pos t)) h (after, small) =
        let gap : sum_of (pos t) (negated (pos base)) ≡ pos (t - base) = sum_of-gap base t after in
        let whole : header_base base + (t - base) ≡ t - base % 1000 = omega (arith, after) in
        rw (e, gap)
          (
            itoa (t - base),
            refl,
            itoa-IsField (t - base),
            ap (as_time (pos (header_base base))) (atoi-itoa (t - base) (omega (arith, small)))
                ∙ ap (λ n. some (time_value (pos n))) whole,
          )
    go timestamp_column e prev (time_value (negsuc t)) h k = absurd k
    go timestamp_column e prev (text_value s) h k = absurd k
    go timestamp_column e prev (int_value n) h k = absurd k
    go int_column e none (int_value (pos n)) h k = rw e (
      encode_int col.encoding none (pos n),
      refl,
      encode_int-IsField col.encoding none (pos n),
      counted none n tt k ∙ ap (λ n. some (int_value (pos n))) (first_counted col.encoding n),
    )
    go int_column e (some (int_value (pos p))) (int_value (pos n)) h k = rw e (
      encode_int col.encoding (some (pos p)) (pos n),
      refl,
      encode_int-IsField col.encoding (some (pos p)) (pos n),
      counted (some p) n h k,
    )
    go int_column e (some (int_value (negsuc p))) v h k = absurd h
    go int_column e (some (text_value s)) v h k = absurd h
    go int_column e (some (time_value s)) v h k = absurd h
    go int_column e prev (int_value (negsuc n)) h k = absurd k
    go int_column e prev (text_value s) h k = absurd k
    go int_column e prev (time_value s) h k = absurd k

-- A row is read back from its fields.
pub decode_fields-encode_fields :
    (time_text : ℤ → Bytes) (base : ℕ) (cols : List Column) (prev : Option (List Value))
    (vs : List Value)
    → FitsRow base cols prev vs
    → (fields : List Bytes) × (encode_fields time_text (pos base) cols prev vs ≡ some fields)
      × All IsField fields
      × (length fields ≡ length cols)
      × (decode_fields (pos (header_base base)) cols (early_row base prev) fields
          ≡ some (read_back_row base cols prev vs))
unfolding encode_fields decode_fields IsReadBack
decode_fields-encode_fields time_text base [] prev [] h = ([], refl, tt, refl, refl)
decode_fields-encode_fields time_text base [] prev (v ∷ vs) h = absurd h
decode_fields-encode_fields time_text base (col ∷ cols) prev [] h = absurd h
decode_fields-encode_fields time_text base (col ∷ cols) prev (v ∷ vs) (h, k, hs) =
    let (x, written, field, read) =
      encode_field-IsReadBack time_text base col (first_of prev) v h k in
    let (xs, rest_written, fields, counts, rest_read) =
      decode_fields-encode_fields time_text base cols (rest_of_row prev) vs hs in
    (
      x ∷ xs,
      rw (written, rest_written) refl,
      (field, fields),
      ap suc counts,
      rw (first_of-early_row base prev, rest_of_row-early_row base prev, read, rest_read) refl,
    )
