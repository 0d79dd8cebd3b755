-- ===== src/Users/Accounts.antt =====
-- auth/user_admin.py, create_one_user: the email and the number of a new account.
use marriage_be.Prelude.{
  ℕ, ◌+◌, ◌≤◌, String, true, false, List, [], ◌∷◌, ◌++◌, ◌==◌, nat_eq, leb, ltb, any, all, ◌≡◌,
  refl, arith, string_eq, strip,
}
use marriage_be.Db.Result.{ok}
use marriage_be.Users.{Role, User, create_user, create_one_user, highest_number}

-- no number in use is above the highest one
bounded : (m : ℕ) (us : List User) → highest_number us ≤ m → all (λ u. leb u.number m) us ≡ true
unfolding highest_number all
bounded m [] h = refl
bounded m (u ∷ us) h = ground (arith, bounded m us)

below :
    (m : ℕ) (us : List User)
    → all (λ u. leb u.number m) us ≡ true
    → all (λ u. ltb u.number (m + 1)) us ≡ true
unfolding all
below m [] h = refl
below m (u ∷ us) h = ground (arith, below m us)

-- An account that is created is appended, active and with the given role; its email, in lower case
-- and without outer spaces, is no other account's in lower case, and its number is above every
-- other one.
pub create_one_user_unique :
    (lower hashed : String → String) (email name password : String) (role : Role) (id now : ℕ)
    (us us' : List User) (v : User)
    → create_one_user lower hashed email name password role id now us ≡ ok (v, us')
    → (us' ≡ us ++ v ∷ [])
      × (v.email ≡ lower (strip email))
      × (any (λ u. lower u.email == v.email) us ≡ false)
      × (all (λ u. ltb u.number v.number) us ≡ true)
      × (v.role ≡ role)
      × (v.is_active ≡ true)
unfolding create_one_user create_user
create_one_user_unique lower hashed email name password role id now us us' v h =
    let numbers = below (highest_number us) us (bounded (highest_number us) us (omega arith)) in
    (ground arith, ground arith, ground arith, ground (arith, numbers), ground arith, ground arith)
