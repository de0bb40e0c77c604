-- ===== src/Base/Plain.antt =====
-- What `strings.TrimSpace` and `strings.Atoi` make of plain bytes.
use Prim.Native.Nat.{ℕ, zero, suc, ◌+◌, ◌-◌, ◌*◌, ◌/◌, ◌%◌, ◌^◌, ◌<◌}
use mathlib.Core.Path.{◌≡◌, refl, ap, ◌∙◌}
use mathlib.Core.Logic.{◌⊎◌, inl, inr}
use mathlib.Core.Bool.{Bool, true, false, not, ◌&&◌}
use mathlib.Core.List.{List, [], ◌∷◌, ◌++◌, map, reverse, reverse-append, reverse-reverse}
use mathlib.Core.Option.{some}
use native.Mathlib.Omega.{arith}
use genesis_ssmp.Base.Lists.{All}
use genesis_ssmp.Base.Tests.{ltb, leb, ◌==◌, Bool-cases}
use genesis_ssmp.Base.Text.{Bytes, has_prefix, spaces, width_of, trim_words, trim_space}
use genesis_ssmp.Base.Int.{pos}
use genesis_ssmp.Base.Decimal.{
  minus, negative_int, digits_onto, positive_int, atoi, digits_before, itoa,
}

-- A printing byte of ASCII.
abbrev pub is_plain : ℕ → Bool
is_plain c = ltb 32 c && ltb c 128

-- No word begins with the byte.
abbrev none_starts : ℕ → List Bytes → Bool
none_starts c [] = true
none_starts c ([] ∷ ws) = false
none_starts c ((b ∷ w) ∷ ws) = not (c == b) && none_starts c ws

width_of-none_starts :
    (c : ℕ) (s : Bytes) (ws : List Bytes) → none_starts c ws ≡ true → width_of ws (c ∷ s) ≡ 0
unfolding width_of has_prefix
width_of-none_starts c s [] h = refl
width_of-none_starts c s ([] ∷ ws) h = absurd (ground arith)
width_of-none_starts c s ((b ∷ w) ∷ ws) h = ground (arith, width_of-none_starts c s ws)

plain-none_starts : (c : ℕ) → is_plain c ≡ true → none_starts c spaces ≡ true
plain-none_starts c h = ground arith

plain-none_ends : (c : ℕ) → is_plain c ≡ true → none_starts c (map reverse spaces) ≡ true
plain-none_ends c h = ground arith

-- The last byte is plain.
abbrev pub ends_plain : Bytes → Bool
ends_plain [] = false
ends_plain (c ∷ []) = is_plain c
ends_plain (c ∷ d ∷ s) = ends_plain (d ∷ s)

abbrev pub starts_plain : Bytes → Bool
starts_plain [] = false
starts_plain (c ∷ s) = is_plain c

pub ends_plain-append : (p s : Bytes) → ends_plain s ≡ true → ends_plain (p ++ s) ≡ true
ends_plain-append [] s h = h
ends_plain-append (c ∷ []) [] h = absurd (ground arith)
ends_plain-append (c ∷ []) (d ∷ s) h = h
ends_plain-append (c ∷ d ∷ p) s h = ends_plain-append (d ∷ p) s h

last_of :
    (s : Bytes)
    → ends_plain s ≡ true
    → (t : Bytes) × (d : ℕ) × (s ≡ t ++ d ∷ []) × (is_plain d ≡ true)
last_of [] h = absurd (ground arith)
last_of (c ∷ []) h = ([], c, refl, h)
last_of (c ∷ d ∷ s) h = let (t, e, p, k) = last_of (d ∷ s) h in (c ∷ t, e, ap (◌∷◌ c) p, k)

trim_words-still : (ws : List Bytes) (s : Bytes) → width_of ws s ≡ 0 → trim_words ws 0 s ≡ s
unfolding trim_words
trim_words-still ws [] h = refl
trim_words-still ws (c ∷ s) h = rw (h, trim_words) refl

-- A text between plain bytes is trimmed.
pub trim_space-plain : (s : Bytes) → starts_plain s ≡ true → ends_plain s ≡ true → trim_space s ≡ s
unfolding trim_space
trim_space-plain [] h k = refl
trim_space-plain (c ∷ s) h k =
    let (t, d, e, p) = last_of (c ∷ s) k in
    let first =
      trim_words-still spaces (c ∷ s) (width_of-none_starts c s spaces (plain-none_starts c h)) in
    let back : reverse (c ∷ s) ≡ d ∷ reverse t = ap reverse e ∙ reverse-append t (d ∷ []) in
    let last : trim_words (map reverse spaces) 0 (reverse (c ∷ s)) ≡ reverse (c ∷ s) =
      trim_words-still (map reverse spaces) (reverse (c ∷ s)) (
        ap (width_of (map reverse spaces)) back
        ∙ width_of-none_starts d (reverse t) (map reverse spaces) (plain-none_ends d p)) in
    ap (λ u. reverse (trim_words (map reverse spaces) 0 (reverse u))) first
    ∙ ap reverse last
    ∙ reverse-reverse (c ∷ s)

digits_onto-digit :
    (m d : ℕ) (acc : Bytes)
    → d < 10
    → digits_onto m ((b'0' + d) ∷ acc) ≡ digits_onto (m * 10 + d) acc
unfolding digits_onto
digits_onto-digit m d acc h =
    let e : m * 10 + ((b'0' + d) - b'0') ≡ m * 10 + d = omega arith in
    ground (arith, ap (λ n. digits_onto n acc) e)

pub trim_space-empty : trim_space [] ≡ []
unfolding trim_space trim_words
trim_space-empty = refl

-- The digits of a number, read back.
digits_before-digits_onto :
    (rounds n : ℕ) (acc : Bytes)
    → n < rounds
    → digits_onto 0 (digits_before rounds n acc) ≡ digits_onto n acc
unfolding digits_before
digits_before-digits_onto zero n acc h = absurd (omega arith)
digits_before-digits_onto (suc rounds) n acc h = elim (Bool-cases (ltb n 10)) [
  | inl e ↦
      rw (e, digits_before)
        (digits_onto-digit 0 n acc (ground arith) ∙ ap (λ m. digits_onto m acc) (omega arith))
  | inr e ↦
      rw (e, digits_before)
        (digits_before-digits_onto rounds (n / 10) _ (ground arith)
          ∙ digits_onto-digit (n / 10) (n % 10) acc (omega arith)
          ∙ ap (λ m. digits_onto m acc) (omega arith))
]

-- The digits begin and end with a digit.
abbrev is_digit : ℕ → Bool
is_digit c = leb b'0' c && leb c b'9'

abbrev pub starts_with_digit : Bytes → Bool
starts_with_digit [] = false
starts_with_digit (c ∷ s) = is_digit c

digits_before-starts :
    (rounds n : ℕ) (acc : Bytes)
    → n < rounds
    → starts_with_digit (digits_before rounds n acc) ≡ true
unfolding digits_before
digits_before-starts zero n acc h = absurd (omega arith)
digits_before-starts (suc rounds) n acc h = elim (Bool-cases (ltb n 10)) [
  | inl e ↦ rw (e, digits_before) (ground arith)
  | inr e ↦ rw (e, digits_before) (digits_before-starts rounds (n / 10) _ (ground arith))
]

digits_before-ends :
    (rounds n : ℕ) (acc : Bytes)
    → n < rounds
    → (acc ≡ []) ⊎ (ends_plain acc ≡ true)
    → ends_plain (digits_before rounds n acc) ≡ true
unfolding digits_before
digits_before-ends zero n acc h k = absurd (omega arith)
digits_before-ends (suc rounds) n acc h k = elim (Bool-cases (ltb n 10)) [
  | inl e ↦ rw (e, digits_before) (last_digit n acc k (ground arith))
  | inr e ↦
      rw (e, digits_before)
        (digits_before-ends rounds (n / 10) _ (ground arith)
          (inr (last_digit (n % 10) acc k (omega arith))))
]
  where
    last_digit :
        (d : ℕ) (acc : Bytes)
        → (acc ≡ []) ⊎ (ends_plain acc ≡ true)
        → d < 10
        → ends_plain ((b'0' + d) ∷ acc) ≡ true
    last_digit d [] k below = ground arith
    last_digit d (x ∷ acc) (inl e) below = absurd (ground arith)
    last_digit d (x ∷ acc) (inr e) below = e

pub itoa-ends_plain : (n : ℕ) → ends_plain (itoa n) ≡ true
unfolding itoa
itoa-ends_plain n = digits_before-ends (suc n) n [] (omega arith) (inl refl)

pub itoa-starts : (n : ℕ) → starts_with_digit (itoa n) ≡ true
unfolding itoa
itoa-starts n = digits_before-starts (suc n) n [] (omega arith)

digits_before-All :
    (P : ℕ → Type 0) (rounds n : ℕ) (acc : Bytes)
    → ((d : ℕ) → d < 10 → P (b'0' + d))
    → All P acc
    → All P (digits_before rounds n acc)
unfolding digits_before
digits_before-All P zero n acc h k = k
digits_before-All P (suc rounds) n acc h k = elim (Bool-cases (ltb n 10)) [
  | inl e ↦ rw (e, digits_before) (h n (ground arith), k)
  | inr e ↦
      rw (e, digits_before) (digits_before-All P rounds (n / 10) _ h (h (n % 10) (omega arith), k))
]

-- What holds of the ten digits holds of each byte of a number.
pub itoa-All : (P : ℕ → Type 0) (n : ℕ) → ((d : ℕ) → d < 10 → P (b'0' + d)) → All P (itoa n)
unfolding itoa
itoa-All P n h = digits_before-All P (suc n) n [] h tt

-- A number below 2^63 is read back from its digits.
pub atoi-itoa : (n : ℕ) → n < 2 ^ 63 → atoi (itoa n) ≡ some (pos n)
unfolding itoa atoi digits_onto
atoi-itoa n h =
    go (digits_before (suc n) n []) (digits_before-starts (suc n) n [] (omega arith))
      (digits_before-digits_onto (suc n) n [] (omega arith))
  where
    go :
        (s : Bytes)
        → starts_with_digit s ≡ true
        → digits_onto 0 s ≡ digits_onto n []
        → atoi s ≡ some (pos n)
    go [] k e = absurd (ground arith)
    go (c ∷ s) k e =
        let minus_not : (c == b'-') ≡ false = ground arith in
        let plus_not : (c == b'+') ≡ false = ground arith in
        rw (minus_not, plus_not) (ap positive_int e ∙ ground (arith, h))

-- So is one with its sign in front.
pub atoi-signed :
    (n : ℕ)
    → n < 2 ^ 63
    → (atoi (b'+' ∷ itoa n) ≡ some (pos n)) × (atoi (b'-' ∷ itoa n) ≡ some (minus n))
unfolding itoa atoi digits_onto
atoi-signed n h =
    go (digits_before (suc n) n []) (digits_before-starts (suc n) n [] (omega arith))
      (digits_before-digits_onto (suc n) n [] (omega arith))
  where
    go :
        (s : Bytes)
        → starts_with_digit s ≡ true
        → digits_onto 0 s ≡ digits_onto n []
        → (atoi (b'+' ∷ s) ≡ some (pos n)) × (atoi (b'-' ∷ s) ≡ some (minus n))
    go [] k e = absurd (ground arith)
    go (c ∷ s) k e = (ap positive_int e ∙ ground (arith, h), ap negative_int e ∙ ground (arith, h))
