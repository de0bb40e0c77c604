-- ===== src/Base/Words.antt =====
-- Words and spaces: what `strings.TrimSpace`, `strings.Fields` and `strings.Index` promise.
use Prim.Native.Nat.{ℕ, zero, suc}
use mathlib.Core.Path.{◌≡◌, refl, sym, ap, ◌∙◌}
use mathlib.Core.Logic.{◌⊎◌, ◌≢◌, inl, inr}
use mathlib.Core.Bool.{false}
use mathlib.Core.List.{List, [], ◌∷◌, ◌++◌, map, reverse, reverse-append, reverse-reverse}
use mathlib.Core.Option.{none, some}
use native.Mathlib.Omega.{arith}
use genesis_ssmp.Base.Lists.{take, All}
use genesis_ssmp.Base.Tests.{◌==◌, Bool-cases}
use genesis_ssmp.Base.Text.{
  Bytes, is_empty, has_prefix, spaces, width_of, trim_words, trim_space, flush_word, fields_loop,
  fields, index_of,
}

abbrev pub IsWord : Bytes → Type 0
IsWord w = is_empty w ≡ false

flush_word-IsWord :
    (word : Bytes) (rest : List Bytes) → All IsWord rest → All IsWord (flush_word word ++ rest)
flush_word-IsWord [] rest h = h
flush_word-IsWord (c ∷ word) rest h = (refl, h)

fields_loop-IsWord : (word : Bytes) (skip : ℕ) (s : Bytes) → All IsWord (fields_loop word skip s)
unfolding fields_loop
fields_loop-IsWord [] skip [] = tt
fields_loop-IsWord (c ∷ word) skip [] = (refl, tt)
fields_loop-IsWord word (suc skip) (c ∷ s) = fields_loop-IsWord word skip s
fields_loop-IsWord word zero (c ∷ s) =
    go (width_of spaces (c ∷ s)) (fields_loop-IsWord (word ++ c ∷ []) 0 s)
      (λ skip. fields_loop-IsWord [] skip s)
  where
    go :
        (n : ℕ)
        → All IsWord (fields_loop (word ++ c ∷ []) 0 s)
        → ((skip : ℕ) → All IsWord (fields_loop [] skip s))
        → All IsWord (elim n [
          | zero ↦ fields_loop (word ++ c ∷ []) 0 s
          | suc skip ↦ flush_word word ++ fields_loop [] skip s
        ])
    go zero h k = h
    go (suc skip) h k = flush_word-IsWord word _ (k skip)

-- No field is empty.
pub fields-IsWord : (s : Bytes) → All IsWord (fields s)
unfolding fields
fields-IsWord s = fields_loop-IsWord [] 0 s

-- What is left of a text begins with none of the words.
abbrev Trimmed : List Bytes → Bytes → Type 0
Trimmed ws s = (s ≡ []) ⊎ (width_of ws s ≡ 0)

trim_words-Trimmed : (ws : List Bytes) (skip : ℕ) (s : Bytes) → Trimmed ws (trim_words ws skip s)
unfolding trim_words
trim_words-Trimmed ws skip [] = inl refl
trim_words-Trimmed ws (suc skip) (c ∷ s) = trim_words-Trimmed ws skip s
trim_words-Trimmed ws zero (c ∷ s) = go (width_of ws (c ∷ s)) refl (λ k. trim_words-Trimmed ws k s)
  where
    go :
        (n : ℕ)
        → width_of ws (c ∷ s) ≡ n
        → ((k : ℕ) → Trimmed ws (trim_words ws k s))
        → Trimmed ws (elim n [ zero ↦ c ∷ s | suc skip ↦ trim_words ws skip s ])
    go zero e h = inr e
    go (suc skip) e h = h skip

trim_words-suffix :
    (ws : List Bytes) (skip : ℕ) (s : Bytes) → (p : Bytes) × (s ≡ p ++ trim_words ws skip s)
unfolding trim_words
trim_words-suffix ws skip [] = ([], refl)
trim_words-suffix ws (suc skip) (c ∷ s) =
    let (p, e) = trim_words-suffix ws skip s in (c ∷ p, ap (◌∷◌ c) e)
trim_words-suffix ws zero (c ∷ s) = go (width_of ws (c ∷ s)) (λ k. trim_words-suffix ws k s)
  where
    go :
        (n : ℕ)
        → ((k : ℕ) → (p : Bytes) × (s ≡ p ++ trim_words ws k s))
        → (p : Bytes) × (c ∷ s ≡ p ++ elim n [ zero ↦ c ∷ s | suc skip ↦ trim_words ws skip s ])
    go zero h = ([], refl)
    go (suc skip) h = (c ∷ (h skip).0, ap (◌∷◌ c) (h skip).1)

has_prefix-append : (t q w : Bytes) → has_prefix (t ++ q) w ≡ false → has_prefix t w ≡ false
unfolding has_prefix
has_prefix-append t q [] h = h
has_prefix-append [] q (b ∷ w) h = refl
has_prefix-append (c ∷ t) q (b ∷ w) h = ground (arith, has_prefix-append t q w)

width_of-append :
    (ws : List Bytes) (t q : Bytes) → All IsWord ws → width_of ws (t ++ q) ≡ 0 → width_of ws t ≡ 0
unfolding width_of
width_of-append [] t q h e = refl
width_of-append ([] ∷ ws) t q (h, hs) e = absurd (ground arith)
width_of-append ((b ∷ w) ∷ ws) t q (h, hs) e = elim (Bool-cases (has_prefix (t ++ q) (b ∷ w))) [
  | inl f ↦ absurd (ground arith)
  | inr f ↦ let g = has_prefix-append t q (b ∷ w) f in ground (arith, g, width_of-append ws t q hs)
]

spaces-IsWord : All IsWord spaces
spaces-IsWord = search

Trimmed-append : (t q u : Bytes) → u ≡ t ++ q → Trimmed spaces u → Trimmed spaces t
Trimmed-append [] q u e h = inl refl
Trimmed-append (c ∷ t) q u e (inl h) = absurd (ground arith)
Trimmed-append (c ∷ t) q u e (inr h) =
    inr (width_of-append spaces (c ∷ t) q spaces-IsWord (ap (width_of spaces) (sym e) ∙ h))

-- A trimmed text begins with no space.
trim_space-Trimmed : (s : Bytes) → Trimmed spaces (trim_space s)
unfolding trim_space
trim_space-Trimmed s =
    let u = trim_words spaces 0 s in
    let v = trim_words (map reverse spaces) 0 (reverse u) in
    let (p, e) = trim_words-suffix (map reverse spaces) 0 (reverse u) in
    let whole : u ≡ reverse v ++ reverse p =
      sym (reverse-reverse u) ∙ ap reverse e ∙ reverse-append p v in
    Trimmed-append (reverse v) (reverse p) u whole (trim_words-Trimmed spaces 0 s)

fields_loop-some :
    (c : ℕ) (word : Bytes) (skip : ℕ) (s : Bytes) → fields_loop (c ∷ word) skip s ≢ []
unfolding fields_loop
fields_loop-some c word skip [] = ground arith
fields_loop-some c word (suc skip) (d ∷ s) = fields_loop-some c word skip s
fields_loop-some c word zero (d ∷ s) =
    go (width_of spaces (d ∷ s)) (fields_loop-some c (word ++ d ∷ []) 0 s)
  where
    go :
        (n : ℕ)
        → fields_loop (c ∷ (word ++ d ∷ [])) 0 s ≢ []
        → (elim n as (λ _. List Bytes) [
          | zero ↦ fields_loop ((c ∷ word) ++ d ∷ []) 0 s
          | suc skip ↦ flush_word (c ∷ word) ++ fields_loop [] skip s
        ])
          ≢ []
    go zero h = h
    go (suc skip) h = ground arith

fields_loop-unspaced :
    (c : ℕ) (t : Bytes) → width_of spaces (c ∷ t) ≡ 0 → fields_loop [] 0 (c ∷ t) ≢ []
unfolding fields_loop
fields_loop-unspaced c t e = rw (e, fields_loop) (fields_loop-some c [] 0 t)

-- A trimmed text that is not empty has a field.
pub fields-trim_space : (s : Bytes) → is_empty (trim_space s) ≡ false → fields (trim_space s) ≢ []
unfolding fields
fields-trim_space s h = go (trim_space s) h (trim_space-Trimmed s)
  where
    go : (t : Bytes) → is_empty t ≡ false → Trimmed spaces t → fields_loop [] 0 t ≢ []
    go [] k e = absurd (ground arith)
    go (c ∷ t) k (inl e) = absurd (ground arith)
    go (c ∷ t) k (inr e) = fields_loop-unspaced c t e

-- The first place of a byte has none before it.
pub index_of-first :
    (c : ℕ) (s : Bytes) (i : ℕ) → index_of s (c ∷ []) ≡ some i → index_of (take i s) (c ∷ []) ≡ none
unfolding index_of has_prefix
index_of-first c [] i h = absurd (ground arith)
index_of-first c (x ∷ s) zero h = refl
index_of-first c (x ∷ s) (suc i) h = elim (Bool-cases (x == c)) [
  | inl e ↦ absurd (ground arith)
  | inr e ↦ ground (arith, index_of-first c s i)
]
