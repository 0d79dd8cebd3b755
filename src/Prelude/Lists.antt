-- ===== src/Prelude/Lists.antt =====
-- `any`, `all` and `in` of Python over lists, and counting.
use Prim.Native.Nat.{ℕ, suc, ◌+◌}
use mathlib.Core.Path.{◌≡◌, refl, ◌∙◌}
use mathlib.Core.Logic.{◌≢◌}
use mathlib.Core.Bool.{Bool, true, false, ◌||◌, ◌&&◌}
use mathlib.Core.Option.{Option, none, some}
use mathlib.Core.List.{List, [], ◌∷◌, ◌++◌, map, Permᴰ}
use native.Mathlib.Omega.{arith}
use marriage_be.Prelude.Tests.{if◌then◌else◌, Eq, ◌==◌}

module _ {ℓ} {A : Type ℓ} where
  abbrev pub length : List A → ℕ
  length [] = 0
  length (x ∷ xs) = suc (length xs)

  unfoldable pub any : (A → Bool) → List A → Bool
  any p [] = false
  any p (x ∷ xs) = p x || any p xs

  unfoldable pub all : (A → Bool) → List A → Bool
  all p [] = true
  all p (x ∷ xs) = p x && all p xs

  -- the rows that a WHERE clause selects
  unfoldable pub select : (A → Bool) → List A → List A
  select p [] = []
  select p (x ∷ xs) = let rest = select p xs in elim (p x) [ true ↦ x ∷ rest | false ↦ rest ]

  -- `next((x for x in xs if p(x)), None)`
  unfoldable pub first : (A → Bool) → List A → Option A
  first p [] = none
  first p (x ∷ xs) = let rest = first p xs in elim (p x) [ true ↦ some x | false ↦ rest ]

  pub length-append : (xs ys : List A) → length (xs ++ ys) ≡ length xs + length ys
  length-append [] ys = omega arith
  length-append (x ∷ xs) ys = omega (arith, length-append xs ys)

  -- how many items pass the test
  unfoldable pub count : (A → Bool) → List A → ℕ
  count p [] = 0
  count p (x ∷ xs) = if p x then suc (count p xs) else count p xs

  pub count-perm : (p : A → Bool) {xs ys : List A} → Permᴰ xs ys → count p xs ≡ count p ys
  unfolding count
  count-perm p Permᴰ.nil = refl
  count-perm p (Permᴰ.cons e h) = ground (arith, count-perm p h)
  count-perm p (Permᴰ.swap e f) = ground arith
  count-perm p (Permᴰ.trans h k) = count-perm p h ∙ count-perm p k

  pub select-append :
      (p : A → Bool) (xs ys : List A) → select p (xs ++ ys) ≡ select p xs ++ select p ys
  unfolding select
  select-append p [] ys = refl
  select-append p (x ∷ xs) ys = ground (arith, select-append p xs ys)

abbrev pub mem {ℓ} : {A : Type ℓ} ⦃e : Eq A⦄ → A → List A → Bool
mem a [] = false
mem a (x ∷ xs) = (x == a) || mem a xs

abbrev pub All {ℓ κ} : {A : Type ℓ} → (A → Type κ) → List A → Type κ
All P [] = Unit
All P (x ∷ xs) = P x × All P xs

module _ {ℓ κ} {A : Type ℓ} {B : Type κ} where
  -- the selected items that were changed by `f`, tested by `q` that does not see the change
  pub any-map-select :
      (p : A → Bool) (f : A → B) (q : A → Bool) (r : B → Bool)
      → ((a : A) → r (f a) ≡ q a)
      → (xs : List A) → any r (map f (select p xs)) ≡ any (λ x. p x && q x) xs
  unfolding any select
  any-map-select p f q r same [] = refl
  any-map-select p f q r same (x ∷ xs) = ground (arith, same x, any-map-select p f q r same xs)

  pub map-select-ne_nil :
      (p : A → Bool) (f : A → B) (xs : List A) → any p xs ≡ true → map f (select p xs) ≢ []
  unfolding any select
  map-select-ne_nil p f [] h = λ e. cc
  map-select-ne_nil p f (x ∷ xs) h = λ e. ground (arith, map-select-ne_nil p f xs)
