-- ===== src/Base/Text.antt =====
-- Go strings as lists of bytes, with what the program uses of package strings.
use Prim.Native.Nat.{ℕ, zero, suc, ◌-◌}
use Prim.Native.Char.{code}
use Prim.Native.String.{String}
use mathlib.Core.Path.{◌≡◌, refl}
use mathlib.Core.Logic.{◌↔◌}
use mathlib.Core.Bool.{Bool, true, false, ◌&&◌, ◌||◌}
use mathlib.Core.List.{List, [], ◌∷◌, ◌++◌, map, reverse}
use mathlib.Core.Option.{Option, none, some}
use native.Mathlib.Omega.{arith}
use genesis_ssmp.Base.Lists.{length}
use genesis_ssmp.Base.Tests.{◌==◌, if◌then◌else◌}

abbrev pub Bytes : Type 0
Bytes = List ℕ

-- The bytes of an ASCII literal.
abbrev pub bytes : String → Bytes
bytes String.[] = []
bytes (String.◌∷◌ c s) = code c ∷ bytes s

-- `a == b` on strings.
unfoldable pub same : Bytes → Bytes → Bool
same [] [] = true
same (x ∷ xs) (y ∷ ys) = x == y && same xs ys
same _ _ = false

pub same_iff : (a b : Bytes) → (same a b ≡ true) ↔ (a ≡ b)
unfolding same
same_iff (x ∷ a) (y ∷ b) = ground (arith, same_iff a b)
same_iff _ _ = ground arith

pub same_refl : (a : Bytes) → same a a ≡ true
same_refl a = (same_iff a a).1 refl

-- `s == ""`
abbrev pub is_empty : Bytes → Bool
is_empty [] = true
is_empty (_ ∷ _) = false

unfoldable pub has_prefix : Bytes → Bytes → Bool
has_prefix s [] = true
has_prefix [] (p ∷ ps) = false
has_prefix (c ∷ s) (p ∷ ps) = c == p && has_prefix s ps

-- `strings.Contains(s, sub)`
unfoldable pub contains : Bytes → Bytes → Bool
contains [] sub = has_prefix [] sub
contains (c ∷ s) sub = has_prefix (c ∷ s) sub || contains s sub

-- `strings.Split(s, sep)` for a one-byte separator: never an empty list.
abbrev pub cons_head : ℕ → List Bytes → List Bytes
cons_head c [] = (c ∷ []) ∷ []
cons_head c (l ∷ ls) = (c ∷ l) ∷ ls

unfoldable pub split_on : ℕ → Bytes → List Bytes
split_on sep [] = [] ∷ []
split_on sep (c ∷ s) = if c == sep then [] ∷ split_on sep s else cons_head c (split_on sep s)

-- `strings.Join(parts, sep)` for a one-byte separator.
unfoldable pub join : ℕ → List Bytes → Bytes
join sep [] = []
join sep (l ∷ []) = l
join sep (l ∷ m ∷ ls) = l ++ (sep ∷ join sep (m ∷ ls))

-- `strings.TrimSuffix(s, "c")` for one byte.
unfoldable pub trim_suffix : ℕ → Bytes → Bytes
trim_suffix c [] = []
trim_suffix c (x ∷ []) = if x == c then [] else x ∷ []
trim_suffix c (x ∷ y ∷ s) = x ∷ trim_suffix c (y ∷ s)

-- `strings.ReplaceAll(s, old, new)` for an `old` that is not empty; `skip` bytes of a match are
-- still to be passed over.
unfoldable pub replace_from : Bytes → Bytes → ℕ → Bytes → Bytes
replace_from old new skip [] = []
replace_from old new (suc skip) (c ∷ s) = replace_from old new skip s
replace_from old new zero (c ∷ s) = elim (has_prefix (c ∷ s) old) [
  | true ↦ new ++ replace_from old new (length old - 1) s
  | false ↦ c ∷ replace_from old new zero s
]

abbrev pub replace_all : Bytes → Bytes → Bytes → Bytes
replace_all s old new = replace_from old new 0 s

-- `strings.SplitAfter(s, sep)` for a one-byte separator: each piece keeps its separator.
unfoldable pub split_after : ℕ → Bytes → List Bytes
split_after sep [] = [] ∷ []
split_after sep (c ∷ s) =
    if c == sep then (c ∷ []) ∷ split_after sep s else cons_head c (split_after sep s)

-- `strings.LastIndex(s, sub)`; `none` is -1.
unfoldable pub last_index : Bytes → Bytes → Option ℕ
last_index [] sub = if has_prefix [] sub then some 0 else none
last_index (c ∷ s) sub = elim (last_index s sub) [
  | some i ↦ some (suc i)
  | none ↦ if has_prefix (c ∷ s) sub then some 0 else none
]

-- The runes that `unicode.IsSpace` accepts, in UTF-8.
abbrev pub spaces : List Bytes
spaces =
    (9 ∷ [])
    ∷ (10 ∷ [])
    ∷ (11 ∷ [])
    ∷ (12 ∷ [])
    ∷ (13 ∷ [])
    ∷ (32 ∷ [])
    ∷ (194 ∷ 133 ∷ [])
    ∷ (194 ∷ 160 ∷ [])
    ∷ (225 ∷ 154 ∷ 128 ∷ [])
    ∷ (226 ∷ 128 ∷ 128 ∷ [])
    ∷ (226 ∷ 128 ∷ 129 ∷ [])
    ∷ (226 ∷ 128 ∷ 130 ∷ [])
    ∷ (226 ∷ 128 ∷ 131 ∷ [])
    ∷ (226 ∷ 128 ∷ 132 ∷ [])
    ∷ (226 ∷ 128 ∷ 133 ∷ [])
    ∷ (226 ∷ 128 ∷ 134 ∷ [])
    ∷ (226 ∷ 128 ∷ 135 ∷ [])
    ∷ (226 ∷ 128 ∷ 136 ∷ [])
    ∷ (226 ∷ 128 ∷ 137 ∷ [])
    ∷ (226 ∷ 128 ∷ 138 ∷ [])
    ∷ (226 ∷ 128 ∷ 168 ∷ [])
    ∷ (226 ∷ 128 ∷ 169 ∷ [])
    ∷ (226 ∷ 128 ∷ 175 ∷ [])
    ∷ (226 ∷ 129 ∷ 159 ∷ [])
    ∷ (227 ∷ 128 ∷ 128 ∷ [])
    ∷ []

-- The length of the first of the words that `s` begins with, or 0.
unfoldable pub width_of : List Bytes → Bytes → ℕ
width_of [] s = 0
width_of (w ∷ ws) s = if has_prefix s w then length w else width_of ws s

-- `s` without the words that it begins with; `skip` bytes of a word are still to be passed over.
unfoldable pub trim_words : List Bytes → ℕ → Bytes → Bytes
unfolding width_of
trim_words ws skip [] = []
trim_words ws (suc skip) (c ∷ s) = trim_words ws skip s
trim_words ws zero (c ∷ s) = elim (width_of ws (c ∷ s)) [
  | zero ↦ c ∷ s
  | suc skip ↦ trim_words ws skip s
]

-- `strings.TrimSpace`
unfoldable pub trim_space : Bytes → Bytes
unfolding trim_words
trim_space s = reverse (trim_words (map reverse spaces) 0 (reverse (trim_words spaces 0 s)))

-- `strings.TrimLeft(s, "c")` for one byte.
unfoldable pub trim_left_byte : ℕ → Bytes → Bytes
trim_left_byte c [] = []
trim_left_byte c (x ∷ s) = let rest = trim_left_byte c s in if x == c then rest else x ∷ s

abbrev pub flush_word : Bytes → List Bytes
flush_word [] = []
flush_word (c ∷ word) = (c ∷ word) ∷ []

-- The loop of `strings.Fields`, with the word so far; `skip` bytes of a space are still to be passed
-- over.
unfoldable pub fields_loop : Bytes → ℕ → Bytes → List Bytes
unfolding width_of
fields_loop word skip [] = flush_word word
fields_loop word (suc skip) (c ∷ s) = fields_loop word skip s
fields_loop word zero (c ∷ s) = elim (width_of spaces (c ∷ s)) [
  | zero ↦ fields_loop (word ++ c ∷ []) 0 s
  | suc skip ↦ flush_word word ++ fields_loop [] skip s
]

-- `strings.Fields`
unfoldable pub fields : Bytes → List Bytes
unfolding fields_loop
fields s = fields_loop [] 0 s

abbrev pub map_suc : Option ℕ → Option ℕ
map_suc none = none
map_suc (some i) = some (suc i)

-- `strings.Index(s, sub)`; `none` is -1.
unfoldable pub index_of : Bytes → Bytes → Option ℕ
index_of [] sub = if has_prefix [] sub then some 0 else none
index_of (c ∷ s) sub =
    let rest = index_of s sub in if has_prefix (c ∷ s) sub then some 0 else map_suc rest

abbrev pub ends_with : ℕ → Bytes → Bool
ends_with c [] = false
ends_with c (x ∷ []) = x == c
ends_with c (x ∷ y ∷ s) = ends_with c (y ∷ s)
