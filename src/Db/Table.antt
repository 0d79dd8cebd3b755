-- ===== src/Db/Table.antt =====
-- A table as the list of its rows, in the order in which a SELECT without ORDER BY yields them.
-- `key` is the row's primary key.
pub mod Keys
pub mod Laws
use marriage_be.Prelude.{
  ℕ, Bool, true, false, Option, none, some, List, [], ◌∷◌, ◌++◌, ◌≡◌, refl, ap, arith, map,
  if◌then◌else◌, ◌==◌, is_some, select, ltb, suc, zero, ◌<◌, not, ==-self, nat_eq,
}

module _ {Row : Type 0} where
  -- `session.get`
  unfoldable pub find : (Row → ℕ) → ℕ → List Row → Option Row
  find key k [] = none
  find key k (r ∷ rs) = if key r == k then some r else find key k rs

  -- the objects that a query loaded are mutated, each in the same way
  unfoldable pub modify : (Row → Bool) → (Row → Row) → List Row → List Row
  modify p f [] = []
  modify p f (r ∷ rs) = (if p r then f r else r) ∷ modify p f rs

  -- the object with a key is mutated
  unfoldable pub update : (Row → ℕ) → ℕ → (Row → Row) → List Row → List Row
  unfolding modify
  update key k = modify (λ r. key r == k)

  -- `DELETE ... WHERE`
  unfoldable pub delete : (Row → Bool) → List Row → List Row
  unfolding select
  delete p = select (λ r. not (p r))
