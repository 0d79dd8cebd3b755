-- ===== src/Db/Table/Keys.antt =====
-- A primary key: at most one row has it.
use mathlib.Core.Path.{subst}
use marriage_be.Prelude.{
  ℕ, Bool, false, ◌&&◌, Option, none, some, List, [], ◌∷◌, ◌++◌, ◌==◌, ◌≡◌, refl, ◌∙◌, ap, arith,
  any, if◌then◌else◌, nat_eq, Bool-cases, inl, inr,
}
use marriage_be.Db.Table.{find, modify, delete}
use marriage_be.Db.Table.Laws.{delete_cons_true, delete_cons_false}

module _ {Row : Type 0} (key : Row → ℕ) where
  abbrev pub IsKeyed : List Row → Type 0
  IsKeyed [] = Unit
  IsKeyed (r ∷ rs) = (any (λ x. key x == key r) rs ≡ false) × IsKeyed rs

  abbrev pub found_and : (Row → Bool) → Option Row → Bool
  found_and q none = false
  found_and q (some r) = q r

  none_with_key :
      (q : Row → Bool) (k : ℕ) (t : List Row)
      → any (λ x. key x == k) t ≡ false
      → any (λ x. key x == k && q x) t ≡ false
  unfolding any
  none_with_key q k [] h = refl
  none_with_key q k (r ∷ t) h = ground (arith, none_with_key q k t)

  -- A test of the rows with a key is a test of the one row that a lookup finds.
  pub any-key :
      (q : Row → Bool) (k : ℕ) (t : List Row)
      → IsKeyed t
      → any (λ x. key x == k && q x) t ≡ found_and q (find key k t)
  unfolding any find
  any-key q k [] h = refl
  any-key q k (r ∷ t) h = elim (Bool-cases (key r == k)) [
    | inl same ↦
        let free : any (λ x. key x == k && q x) t ≡ false = none_with_key q k t (
          subst (λ (j : ℕ). any (λ x. key x == j) t ≡ false) ((nat_eq.equal_iff (key r) k).0 same)
            h.0) in
        rw (same, free) (ground arith)
    | inr differs ↦ rw differs (any-key q k t h.1)
  ]

  any_key-modify :
      (p : Row → Bool) (f : Row → Row)
      → ((r : Row) → key (f r) ≡ key r)
      → (k : ℕ) (t : List Row) → any (λ x. key x == k) (modify p f t) ≡ any (λ x. key x == k) t
  unfolding any modify
  any_key-modify p f keeps k [] = refl
  any_key-modify p f keeps k (r ∷ t) = ground (arith, keeps r, any_key-modify p f keeps k t)

  kept_key :
      (p : Row → Bool) (f : Row → Row)
      → ((r : Row) → key (f r) ≡ key r)
      → (r : Row) → key (if p r then f r else r) ≡ key r
  kept_key p f keeps r = ground (arith, keeps r)

  pub modify-IsKeyed :
      (p : Row → Bool) (f : Row → Row)
      → ((r : Row) → key (f r) ≡ key r)
      → (t : List Row) → IsKeyed t
      → IsKeyed (modify p f t)
  unfolding modify
  modify-IsKeyed p f keeps [] h = tt
  modify-IsKeyed p f keeps (r ∷ t) h = (
    any_key-modify p f keeps (key (if p r then f r else r)) t
        ∙ (ap (λ (k : ℕ). any (λ x. key x == k) t) (kept_key p f keeps r) ∙ h.0),
    modify-IsKeyed p f keeps t h.1,
  )

  free_after :
      (x : Row) (t : List Row) (r : Row)
      → any (λ y. key y == key r) (x ∷ t) ≡ false
      → any (λ y. key y == key x) t ≡ false
      → any (λ y. key y == key x) (t ++ r ∷ []) ≡ false
  unfolding any
  free_after x [] r free h = ground (arith, free)
  free_after x (y ∷ t) r free h = ground (arith, free_after x t r)

  none-delete :
      (p : Row → Bool) (k : ℕ) (t : List Row)
      → any (λ x. key x == k) t ≡ false
      → any (λ x. key x == k) (delete p t) ≡ false
  unfolding any delete
  none-delete p k [] h = refl
  none-delete p k (r ∷ t) h = ground (arith, none-delete p k t)

  pub append-IsKeyed :
      (t : List Row) (r : Row)
      → any (λ x. key x == key r) t ≡ false
      → IsKeyed t
      → IsKeyed (t ++ r ∷ [])
  unfolding any
  append-IsKeyed [] r free h = (refl, tt)
  append-IsKeyed (x ∷ t) r free h =
      (free_after x t r free h.0, append-IsKeyed t r (ground (arith, free)) h.1)

  pub delete-IsKeyed : (p : Row → Bool) (t : List Row) → IsKeyed t → IsKeyed (delete p t)
  delete-IsKeyed p [] h = unfold delete in tt
  delete-IsKeyed p (r ∷ t) h = elim (Bool-cases (p r)) [
    | inl gone ↦ rw (delete_cons_true p r t gone) (delete-IsKeyed p t h.1)
    | inr stays ↦
        rw (delete_cons_false p r t stays) (none-delete p (key r) t h.0, delete-IsKeyed p t h.1)
  ]

  pub find-none : (k : ℕ) (t : List Row) → find key k t ≡ none → any (λ x. key x == k) t ≡ false
  unfolding find any
  find-none k [] h = refl
  find-none k (r ∷ t) h = ground (arith, find-none k t)
