-- ===== src/Users/Admins.antt =====
-- auth/user_admin.py, update_one_user: the active administrators.
use marriage_be.Prelude.{
  ℕ, ◌+◌, ◌≤◌, String, Bool, true, false, ◌&&◌, ◌||◌, Option, some, List, [], ◌∷◌, ◌==◌, nat_eq,
  leb, select, length, if◌then◌else◌, ◌≡◌, refl, ◌∙◌, arith, Option-cases, Bool-cases, inl, inr,
  string_eq,
}
use marriage_be.Db.Table.{find, update, modify}
use marriage_be.Db.Result.{ok}
use marriage_be.Users.{
  admin, role_eq, User, user_key, get_user, UserUpdate, is_active_admin, edited, update_one_user,
  loses_admin, is_other_role, is_false,
}

abbrev pub count : (User → Bool) → List User → ℕ
count p users = length (select p users)

-- how many of the accounts that an edit reaches are active administrators
lost :
    (id : ℕ) (f : User → User) (us : List User)
    → count is_active_admin us
      ≤ count is_active_admin (update user_key id f us)
        + count (λ u. u.id == id && is_active_admin u) us
unfolding update select modify
lost id f [] = omega arith
lost id f (u ∷ us) = ground (arith, lost id f us)

-- no account with the id, so none of an administrator
none_left :
    (id : ℕ) (us : List User)
    → count (λ v. v.id == id) us ≡ 0
    → count (λ v. v.id == id && is_active_admin v) us ≡ 0
unfolding select
none_left id [] h = refl
none_left id (v ∷ us) h = ground (arith, none_left id us)

only_one :
    (id : ℕ) (us : List User) (u : User)
    → find user_key id us ≡ some u
    → count (λ v. v.id == id) us ≤ 1
    → count (λ v. v.id == id && is_active_admin v) us ≡ (if is_active_admin u then 1 else 0)
unfolding find select
only_one id [] u h one = cc
only_one id (v ∷ us) u h one = ground (arith, only_one id us u, none_left id us)

-- an edit that takes neither the role nor the activity away
edited-is_active_admin :
    (payload : UserUpdate) (now : ℕ) (u : User)
    → (is_other_role admin payload.role || is_false payload.is_active) ≡ false
    → is_active_admin u ≡ true
    → is_active_admin (edited payload now u) ≡ true
unfolding edited
edited-is_active_admin payload now u h a = ground arith

none_lost :
    (id : ℕ) (f : User → User) (us : List User)
    → ((u : User) → is_active_admin u ≡ true → is_active_admin (f u) ≡ true)
    → count is_active_admin us ≤ count is_active_admin (update user_key id f us)
unfolding update select modify
none_lost id f [] keeps = omega arith
none_lost id f (u ∷ us) keeps = ground (arith, none_lost id f us keeps, keeps u)

-- what an accepted edit says
accepted :
    (user_id : ℕ) (payload : UserUpdate) (admin_id now : ℕ) (us us' : List User) (u v : User)
    (action : Option String)
    → get_user user_id us ≡ some u
    → update_one_user user_id payload admin_id now us ≡ ok (v, action, us')
    → (us' ≡ update user_key user_id (edited payload now) us)
      × ((loses_admin payload u && leb (count is_active_admin us) 1) ≡ false)
unfolding update_one_user
accepted user_id payload admin_id now us us' u v action stored h = (ground arith, ground arith)

module _ (user_id : ℕ) (payload : UserUpdate) (now : ℕ) (us : List User) (u : User)
    (stored : get_user user_id us ≡ some u) (one : count (λ v. v.id == user_id) us ≤ 1)
    (some_admin : 1 ≤ count is_active_admin us) where
  abbrev after : List User
  after = update user_key user_id (edited payload now) us

  losing :
      loses_admin payload u ≡ true
      → leb (count is_active_admin us) 1 ≡ false
      → 1 ≤ count is_active_admin after
  unfolding get_user
  losing h many =
      ground (arith, lost user_id (edited payload now) us, only_one user_id us u stored one)

  not_losing : loses_admin payload u ≡ false → 1 ≤ count is_active_admin after
  unfolding get_user
  not_losing h = elim (Bool-cases (is_active_admin u)) [
    | inl a ↦
        let keeps =
          none_lost user_id (edited payload now) us
            (λ v. edited-is_active_admin payload now v (rw a at h)) in
        omega (arith, keeps, some_admin)
    | inr b ↦
        let none_there : count (λ v. v.id == user_id && is_active_admin v) us ≡ 0 =
          only_one user_id us u stored one ∙ rw b refl in
        omega (arith, lost user_id (edited payload now) us, none_there, some_admin)
  ]

-- Where no two accounts have the edited id and there is an active administrator, there is still
-- one after an accepted edit of any account by anyone.
pub update_one_user_keeps_admin :
    (user_id : ℕ) (payload : UserUpdate) (admin_id now : ℕ) (us us' : List User) (v : User)
    (action : Option String)
    → count (λ u. u.id == user_id) us ≤ 1
    → 1 ≤ count is_active_admin us
    → update_one_user user_id payload admin_id now us ≡ ok (v, action, us')
    → 1 ≤ count is_active_admin us'
update_one_user_keeps_admin user_id payload admin_id now us us' v action one some_admin h =
    elim (Option-cases (get_user user_id us)) [
      | inl missing ↦ unfold update_one_user in ground arith
      | inr (u, stored) ↦
          let (same, many) = accepted user_id payload admin_id now us us' u v action stored h in
          elim (Bool-cases (loses_admin payload u)) [
            | inl loses ↦
                rw same
                  (losing user_id payload now us u stored one some_admin loses (rw loses at many))
            | inr stays ↦ rw same (not_losing user_id payload now us u stored one some_admin stays)
          ]
    ]
