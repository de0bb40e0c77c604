-- ===== src/Base/Assoc.antt =====
-- A Go map with string keys, as an association list that holds each key once.
use mathlib.Core.Path.{◌≡◌, refl}
use mathlib.Core.List.{List, [], ◌∷◌}
use mathlib.Core.Option.{Option, none, some}
use native.Mathlib.Omega.{arith}
use genesis_ssmp.Base.Tests.{if◌then◌else◌}
use genesis_ssmp.Base.Text.{Bytes, same, same_iff}

abbrev pub Dict {ℓ} : Type ℓ → Type ℓ
Dict V = List (Bytes × V)

module _ {ℓ} {V : Type ℓ} where
  -- `v, ok := m[k]`
  unfoldable pub get : Bytes → Dict V → Option V
  get k [] = none
  get k ((j, v) ∷ m) = if same j k then some v else get k m

  -- `m[k] = v`
  unfoldable pub put : Bytes → V → Dict V → Dict V
  put k v [] = (k, v) ∷ []
  put k v ((j, w) ∷ m) = if same j k then (k, v) ∷ m else (j, w) ∷ put k v m

  -- `delete(m, k)`
  unfoldable pub del : Bytes → Dict V → Dict V
  del k [] = []
  del k ((j, w) ∷ m) = let rest = del k m in if same j k then rest else (j, w) ∷ rest

  pub get-put :
      (k j : Bytes) (v : V) (m : Dict V)
      → get j (put k v m) ≡ (if same k j then some v else get j m)
  unfolding get put
  get-put k j v [] = refl
  get-put k j v ((i, w) ∷ m) =
      ground (arith, same_iff k j, same_iff i k, same_iff i j, get-put k j v m)

  pub get-del : (k j : Bytes) (m : Dict V) → get j (del k m) ≡ (if same k j then none else get j m)
  unfolding get del
  get-del k j [] = ground arith
  get-del k j ((i, w) ∷ m) = ground (arith, same_iff k j, same_iff i k, same_iff i j, get-del k j m)
