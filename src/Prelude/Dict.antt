-- ===== src/Prelude/Dict.antt =====
-- Python's `dict` in its order: a list of pairs in which the first entry of a key counts.
use mathlib.Core.Path.{◌≡◌, refl, subst₂}
use mathlib.Core.Logic.{inl, inr}
use mathlib.Core.Option.{Option, none, some}
use mathlib.Core.List.{List, [], ◌∷◌}
use native.Mathlib.Omega.{arith}
use marriage_be.Prelude.Tests.{some_inj, Eq, ◌==◌, Bool-cases, if◌then◌else◌}
use marriage_be.Prelude.Lists.{All}

module _ {ℓ κ} {K : Type ℓ} {V : Type κ} ⦃e : Eq K⦄ where
  unfoldable pub get : K → List (K × V) → Option V
  get k [] = none
  get k ((j, v) ∷ m) = if j == k then some v else get k m

  unfoldable pub put : K → V → List (K × V) → List (K × V)
  put k v [] = (k, v) ∷ []
  put k v ((j, w) ∷ m) = if j == k then (j, v) ∷ m else (j, w) ∷ put k v m

  -- `{**m, **n}`
  unfoldable pub merge : List (K × V) → List (K × V) → List (K × V)
  unfolding put
  merge m [] = m
  merge m ((k, v) ∷ n) = merge (put k v m) n

  pub get-put :
      (k j : K) (v : V) (m : List (K × V))
      → get j (put k v m) ≡ (if k == j then some v else get j m)
  unfolding get put
  get-put k j v [] = refl
  get-put k j v ((i, w) ∷ m) =
      grind (arith, e.equal_iff k j, e.equal_iff i k, e.equal_iff i j, get-put k j v m)

module _ {ℓ κ μ} {K : Type ℓ} {V : Type κ} ⦃e : Eq K⦄ where
  pub get-All :
      (P : K → V → Type μ) (k : K) (v : V) (m : List (K × V))
      → All (λ c. P c.0 c.1) m
      → get k m ≡ some v
      → P k v
  unfolding get
  get-All P k v [] h g = cc
  get-All P k v ((j, w) ∷ m) h g = elim (Bool-cases (j == k)) [
    | inl same ↦ subst₂ P ((e.equal_iff j k).0 same) (some_inj (rw same at g)) h.0
    | inr other ↦ get-All P k v m h.1 (rw other at g)
  ]
