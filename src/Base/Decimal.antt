-- ===== src/Base/Decimal.antt =====
-- `strconv.Atoi` and `strconv.Itoa`.
use Prim.Native.Nat.{ℕ, zero, suc, ◌+◌, ◌-◌, ◌*◌, ◌/◌, ◌%◌, ◌^◌}
use mathlib.Core.Bool.{true, false, ◌&&◌}
use mathlib.Core.List.{[], ◌∷◌}
use mathlib.Core.Option.{Option, none, some}
use genesis_ssmp.Base.Tests.{ltb, leb, ◌==◌, if◌then◌else◌}
use genesis_ssmp.Base.Text.{Bytes}
use genesis_ssmp.Base.Int.{ℤ, pos, negsuc}

-- The number that the digits go on to, from the one before them.
unfoldable pub digits_onto : ℕ → Bytes → Option ℕ
digits_onto n [] = some n
digits_onto n (c ∷ s) =
    let rest = digits_onto (n * 10 + (c - b'0')) s in
    if leb b'0' c && leb c b'9' then rest else none

-- At least one digit.
abbrev pub digits : Bytes → Option ℕ
digits [] = none
digits (c ∷ s) = digits_onto 0 (c ∷ s)

abbrev pub positive_int : Option ℕ → Option ℤ
positive_int none = none
positive_int (some n) = if ltb n (2 ^ 63) then some (pos n) else none

abbrev pub minus : ℕ → ℤ
minus zero = pos 0
minus (suc n) = negsuc n

abbrev pub negative_int : Option ℕ → Option ℤ
negative_int none = none
negative_int (some n) = if leb n (2 ^ 63) then some (minus n) else none

-- `none` is an error: no number, or one that 64 bits do not hold.
unfoldable pub atoi : Bytes → Option ℤ
unfolding digits_onto
atoi [] = none
atoi (c ∷ s) =
    if c == b'-'
    then negative_int (digits s)
    else if c == b'+'
    then positive_int (digits s)
    else positive_int (digits (c ∷ s))

-- The digits of a number before those given; `rounds` bounds the number of digits.
unfoldable pub digits_before : ℕ → ℕ → Bytes → Bytes
digits_before zero n acc = acc
digits_before (suc rounds) n acc = elim (ltb n 10) [
  | true ↦ (b'0' + n) ∷ acc
  | false ↦ digits_before rounds (n / 10) ((b'0' + n % 10) ∷ acc)
]

-- `strconv.Itoa` of a number that is not negative; it has at most `n + 1` digits.
unfoldable pub itoa : ℕ → Bytes
unfolding digits_before
itoa n = digits_before (suc n) n []
