-- ===== src/Base/Split.antt =====
-- `strings.Split` of what `strings.Join` made.
use Prim.Native.Nat.{ℕ}
use mathlib.Core.Path.{◌≡◌, refl, ap, ◌∙◌}
use mathlib.Core.Logic.{◌≢◌}
use mathlib.Core.List.{List, [], ◌∷◌, ◌++◌}
use native.Mathlib.Omega.{arith}
use genesis_ssmp.Base.Lists.{All}
use genesis_ssmp.Base.Text.{Bytes, split_on, join}

-- The byte is not in the text.
abbrev pub Without : ℕ → Bytes → Type 0
Without sep = All (λ c. c ≢ sep)

pub split_on-first :
    (sep : ℕ) (l s : Bytes) → Without sep l → split_on sep (l ++ (sep ∷ s)) ≡ l ∷ split_on sep s
unfolding split_on
split_on-first sep [] s h = ground arith
split_on-first sep (c ∷ l) s h = ground (arith, h.0, split_on-first sep l s h.1)

pub split_on-only : (sep : ℕ) (l : Bytes) → Without sep l → split_on sep l ≡ l ∷ []
unfolding split_on
split_on-only sep [] h = refl
split_on-only sep (c ∷ l) h = ground (arith, h.0, split_on-only sep l h.1)

pub split_on-joined :
    (sep : ℕ) (l : Bytes) (ls : List Bytes)
    → All (Without sep) (l ∷ ls)
    → split_on sep (join sep (l ∷ ls)) ≡ l ∷ ls
unfolding join
split_on-joined sep l [] h = split_on-only sep l h.0
split_on-joined sep l (m ∷ ls) h =
    split_on-first sep l (join sep (m ∷ ls)) h.0 ∙ ap (◌∷◌ l) (split_on-joined sep m ls h.1)
