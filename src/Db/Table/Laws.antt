-- ===== src/Db/Table/Laws.antt =====
-- What a read of a table yields after its rows were mutated.
use mathlib.Core.Option
use marriage_be.Prelude.{
  ℕ, Bool, true, false, some, List, [], ◌∷◌, ◌≡◌, refl, arith, map, any, if◌then◌else◌, ◌==◌,
  select, ◌&&◌, nat_eq, All, Bool-cases, inl, inr,
}
use marriage_be.Db.Table.{find, modify, update, delete}

module _ {Row : Type 0} (key : Row → ℕ) where
  -- mutating each row by `f` where `p` holds keeps every key in its place
  pub find-modify :
      (p : Row → Bool) (f : Row → Row)
      → ((r : Row) → key (f r) ≡ key r)
      → (k : ℕ) (t : List Row)
      → find key k (modify p f t) ≡ Option.map (λ r. if p r then f r else r) (find key k t)
  unfolding find modify
  find-modify p f keeps k [] = refl
  find-modify p f keeps k (r ∷ t) = ground (arith, keeps r, find-modify p f keeps k t)

  pub find-key : (k : ℕ) (t : List Row) (r : Row) → find key k t ≡ some r → key r ≡ k
  unfolding find
  find-key k [] r h = cc
  find-key k (s ∷ t) r h = ground (arith, find-key k t r)

  pub find-update_self :
      (f : Row → Row)
      → ((r : Row) → key (f r) ≡ key r)
      → (k : ℕ) (t : List Row) → find key k (update key k f t) ≡ Option.map f (find key k t)
  unfolding find update
  find-update_self f keeps k [] = refl
  find-update_self f keeps k (r ∷ t) = ground (arith, keeps r, find-update_self f keeps k t)

  pub find-update_ne :
      (f : Row → Row)
      → ((r : Row) → key (f r) ≡ key r)
      → (k j : ℕ) (t : List Row) → (k == j) ≡ false
      → find key j (update key k f t) ≡ find key j t
  unfolding find update
  find-update_ne f keeps k j [] h = refl
  find-update_ne f keeps k j (r ∷ t) h = ground (arith, keeps r, find-update_ne f keeps k j t h)

module _ {Row : Type 0} where
  -- a mutation that reaches no row changes nothing
  pub modify_none :
      (p : Row → Bool) (f : Row → Row) (t : List Row) → any p t ≡ false → modify p f t ≡ t
  unfolding any modify
  modify_none p f [] h = refl
  modify_none p f (r ∷ t) h = ground (arith, modify_none p f t)

  pub select_none : (p : Row → Bool) (t : List Row) → any p t ≡ false → select p t ≡ []
  unfolding any select
  select_none p [] h = refl
  select_none p (r ∷ t) h = ground (arith, select_none p t)

  -- after the mutation no row is left in which `q` holds, if `f` ends it
  pub any-modify :
      (p q : Row → Bool) (f : Row → Row)
      → ((r : Row) → q (f r) ≡ false)
      → ((r : Row) → q r ≡ true → p r ≡ true)
      → (t : List Row) → any q (modify p f t) ≡ false
  unfolding any modify
  any-modify p q f ends covers [] = refl
  any-modify p q f ends covers (r ∷ t) =
      ground (arith, ends r, covers r, any-modify p q f ends covers t)

  -- a column of the rows in which `q` holds, where `f` reaches none of them
  pub map-select-modify :
      {A : Type 0} (p q : Row → Bool) (f : Row → Row) (column : Row → A)
      → ((r : Row) → q (f r) ≡ q r)
      → (t : List Row) → any (λ r. p r && q r) t ≡ false
      → map column (select q (modify p f t)) ≡ map column (select q t)
  unfolding any select modify
  map-select-modify p q f column same [] h = refl
  map-select-modify p q f column same (r ∷ t) h =
      ground (arith, same r, map-select-modify p q f column same t)

  pub any-delete : (p : Row → Bool) (t : List Row) → any p (delete p t) ≡ false
  unfolding any delete
  any-delete p [] = refl
  any-delete p (r ∷ t) = ground (arith, any-delete p t)

  -- rows for which `p` fails survive: a test that holds only of such is not affected
  pub any-delete_other :
      (p q : Row → Bool)
      → ((r : Row) → q r ≡ true → p r ≡ false)
      → (t : List Row) → any q (delete p t) ≡ any q t
  unfolding any delete
  any-delete_other p q other [] = refl
  any-delete_other p q other (r ∷ t) = ground (arith, other r, any-delete_other p q other t)

  pub delete_cons_true :
      (p : Row → Bool) (r : Row) (t : List Row) → p r ≡ true → delete p (r ∷ t) ≡ delete p t
  unfolding delete
  delete_cons_true p r t h = ground arith

  pub delete_cons_false :
      (p : Row → Bool) (r : Row) (t : List Row) → p r ≡ false → delete p (r ∷ t) ≡ r ∷ delete p t
  unfolding delete
  delete_cons_false p r t h = ground arith

  pub All-delete :
      (P : Row → Type 0) (p : Row → Bool) (t : List Row)
      → All P t
      → All (λ r. P r × (p r ≡ false)) (delete p t)
  All-delete P p [] h = unfold delete in tt
  All-delete P p (r ∷ t) h = elim (Bool-cases (p r)) [
    | inl gone ↦ rw (delete_cons_true p r t gone) (All-delete P p t h.1)
    | inr stays ↦ rw (delete_cons_false p r t stays) ((h.0, stays), All-delete P p t h.1)
  ]

module _ {Row : Type 0} (key : Row → ℕ) where
  pub find-delete :
      (p : Row → Bool) (k : ℕ) (t : List Row) (r : Row)
      → find key k t ≡ some r
      → p r ≡ false
      → find key k (delete p t) ≡ some r
  unfolding find delete
  find-delete p k [] r h stays = cc
  find-delete p k (s ∷ t) r h stays = ground (arith, find-delete p k t r)
