-- ===== src/Prelude/Sort.antt =====
-- `sorted`, ORDER BY, LIMIT and OFFSET: a stable insertion sort by a Boolean order.
use Prim.Native.Nat.{ℕ, zero, suc}
use mathlib.Core.Path.{◌≡◌, refl}
use mathlib.Core.Logic.{inl, inr}
use mathlib.Core.Bool.{Bool, true, false}
use mathlib.Core.List.{List, [], ◌∷◌, Permᴰ}
use mathlib.Core.List.Permᴰ
use marriage_be.Prelude.Tests.{if◌then◌else◌, Bool-cases}
use marriage_be.Prelude.Lists.{All}

module _ {ℓ} {A : Type ℓ} where
  -- `leq x y`: `x` may stand before `y`
  insert_by : (leq : A → A → Bool) → A → List A → List A
  insert_by leq x [] = x ∷ []
  insert_by leq x (y ∷ ys) =
      let rest = insert_by leq x ys in if leq x y then x ∷ y ∷ ys else y ∷ rest

  unfoldable pub sort_by : (leq : A → A → Bool) → List A → List A
  unfolding insert_by
  sort_by leq [] = []
  sort_by leq (x ∷ xs) = insert_by leq x (sort_by leq xs)

  unfoldable pub take : ℕ → List A → List A
  take zero xs = []
  take (suc n) [] = []
  take (suc n) (x ∷ xs) = x ∷ take n xs

  unfoldable pub drop : ℕ → List A → List A
  drop zero xs = xs
  drop (suc n) [] = []
  drop (suc n) (x ∷ xs) = drop n xs

  -- every item may stand before all that follow it
  abbrev pub IsSorted : (leq : A → A → Bool) → List A → Type ℓ
  IsSorted leq [] = Unit
  IsSorted leq (x ∷ xs) = All (λ y. leq x y ≡ true) xs × IsSorted leq xs

  insert_by-perm : (leq : A → A → Bool) (x : A) (ys : List A) → Permᴰ (insert_by leq x ys) (x ∷ ys)
  unfolding insert_by
  insert_by-perm leq x [] = Permᴰ.refl (x ∷ [])
  insert_by-perm leq x (y ∷ ys) = elim (Bool-cases (leq x y)) [
    | inl before ↦ rw before (Permᴰ.refl (x ∷ y ∷ ys))
    | inr after ↦
        rw after (Permᴰ.trans (Permᴰ.cons refl (insert_by-perm leq x ys)) (Permᴰ.swap refl refl))
  ]

  pub sort_by-perm : (leq : A → A → Bool) (xs : List A) → Permᴰ (sort_by leq xs) xs
  unfolding sort_by
  sort_by-perm leq [] = Permᴰ.nil
  sort_by-perm leq (x ∷ xs) =
      Permᴰ.trans (insert_by-perm leq x (sort_by leq xs)) (Permᴰ.cons refl (sort_by-perm leq xs))

  All-insert_by {κ} :
      (leq : A → A → Bool) (P : A → Type κ) (x : A) (ys : List A)
      → P x
      → All P ys
      → All P (insert_by leq x ys)
  unfolding insert_by
  All-insert_by leq P x [] h k = (h, tt)
  All-insert_by leq P x (y ∷ ys) h k = elim (Bool-cases (leq x y)) [
    | inl before ↦ rw before (h, k)
    | inr after ↦ rw after (k.0, All-insert_by leq P x ys h k.1)
  ]

  module _ (leq : A → A → Bool) (total : (x y : A) → leq x y ≡ false → leq y x ≡ true)
      (transitive : (x y z : A) → leq x y ≡ true → leq y z ≡ true → leq x z ≡ true) where
    All-before :
        (x y : A) (ys : List A)
        → leq x y ≡ true
        → All (λ z. leq y z ≡ true) ys
        → All (λ z. leq x z ≡ true) ys
    All-before x y [] h k = tt
    All-before x y (z ∷ zs) h k = (transitive x y z h k.0, All-before x y zs h k.1)

    insert_by-IsSorted : (x : A) (ys : List A) → IsSorted leq ys → IsSorted leq (insert_by leq x ys)
    unfolding insert_by
    insert_by-IsSorted x [] h = (tt, tt)
    insert_by-IsSorted x (y ∷ ys) h = elim (Bool-cases (leq x y)) [
      | inl before ↦ rw before ((before, All-before x y ys before h.0), h)
      | inr after ↦ rw after (
        (All-insert_by leq (λ z. leq y z ≡ true) x ys (total x y after) h.0),
        insert_by-IsSorted x ys h.1,
      )
    ]

    pub sort_by-IsSorted : (xs : List A) → IsSorted leq (sort_by leq xs)
    unfolding sort_by
    sort_by-IsSorted [] = tt
    sort_by-IsSorted (x ∷ xs) = insert_by-IsSorted x (sort_by leq xs) (sort_by-IsSorted xs)
