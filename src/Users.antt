-- ===== src/Users.antt =====
-- auth/user_admin.py with auth/repositories.py, auth/service.py and auth/models.py: the accounts of
-- an administrator. The state is the table of users; the activity log gets the action that a call
-- returns. Hashing, and the lower case of a text, are given.
pub mod Admins
pub mod Accounts
use marriage_be.Prelude.{
  ℕ, ◌+◌, String, Bool, true, false, ◌&&◌, ◌||◌, not, Option, none, some, List, [], ◌∷◌, ◌++◌, ◌==◌,
  nat_eq, string_eq, option_beq, ltb, leb, any, select, length, strip, if◌then◌else◌, ◌≡◌, ◌↔◌, Eq,
  arith,
}
use marriage_be.Db.Table.{find, update}
use marriage_be.Db.Result.{Result, ok, err, ◌>>=◌, ◌>>◌, guard, api_error, integrity_error}

pub data Role : Type 0 where
  admin reviewer viewer : Role

abbrev role_beq : Role → Role → Bool
role_beq admin admin = true
role_beq reviewer reviewer = true
role_beq viewer viewer = true
role_beq _ _ = false

pub role_beq_iff : (a b : Role) → (role_beq a b ≡ true) ↔ (a ≡ b)
role_beq_iff a b = ground arith

instance abbrev pub role_eq : Eq Role
role_eq = record { equal = role_beq; equal_iff = role_beq_iff }

pub record User : Type 0 where
  pub id : ℕ
  pub number : ℕ
  pub email : String
  pub name : Option String
  pub password_hash : String
  pub role : Role
  pub is_active : Bool
  pub created_at : ℕ
  pub updated_at : ℕ

abbrev pub user_key : User → ℕ
user_key u = u.id

unfoldable pub get_user : ℕ → List User → Option User
unfolding find
get_user user_id = find user_key user_id

get_user_by_email : String → List User → Option User
get_user_by_email email [] = none
get_user_by_email email (u ∷ us) = if u.email == email then some u else get_user_by_email email us

-- `verified` is `verify_password`.
unfoldable authenticate :
    (verified : String → String → Bool) → (email password : String) → List User → Option User
unfolding get_user_by_email
authenticate verified email password users = elim (get_user_by_email email users) [
  | none ↦ none
  | some user ↦
      if not user.is_active || not (verified password user.password_hash) then none else some user
]

unfoldable pub highest_number : List User → ℕ
highest_number [] = 0
highest_number (u ∷ us) =
    let rest = highest_number us in if leb rest u.number then u.number else rest

-- The flush raises where the email is taken.
unfoldable pub create_user :
    (email password_hash : String)
    → Role
    → (name : Option String) → (id now : ℕ) → List User
    → Result (User × List User)
unfolding highest_number any
create_user email password_hash role name id now users =
    let user : User = record {
      id = id;
      number = highest_number users + 1;
      email = email;
      name = name;
      password_hash = password_hash;
      role = role;
      is_active = true;
      created_at = now;
      updated_at = now;
    } in
    do
      guard (not (any (λ (u : User). u.email == email) users)) integrity_error
      ok (user, users ++ user ∷ [])

unfoldable pub create_one_user :
    (lower : String → String) (hashed : String → String) (email name password : String)
    → Role
    → (id now : ℕ) → List User
    → Result (User × List User)
unfolding create_user any strip
create_one_user lower hashed email name password role id now users =
    let normalized = lower (strip email) in
    do
      guard (not (any (λ (u : User). lower u.email == normalized) users))
          (api_error 409 "USER_EXISTS")
      create_user normalized (hashed password) role (some (strip name)) id now users

pub record UserUpdate : Type 0 where
  pub name : Option String
  pub role : Option Role
  pub is_active : Option Bool

abbrev pub is_active_admin : User → Bool
is_active_admin u = u.role == admin && u.is_active

abbrev or_kept {ℓ} : {A : Type ℓ} → Option A → A → A
or_kept none a = a
or_kept (some b) a = b

stripped : Option String → Option String → Option String
unfolding strip
stripped none name = name
stripped (some given) name = some (strip given)

abbrev same_bool : Bool → Bool → Bool
same_bool true b = b
same_bool false b = not b

has_changes : User → User → Bool
has_changes u v =
    not (option_beq u.name v.name)
    || not (u.role == v.role)
    || not (same_bool u.is_active v.is_active)

assigned : UserUpdate → User → User
unfolding stripped
assigned payload u = record u {
  name = stripped payload.name u.name;
  role = or_kept payload.role u.role;
  is_active = or_kept payload.is_active u.is_active;
}

-- `updated_at` follows where the flush finds a changed column.
unfoldable pub edited : UserUpdate → (now : ℕ) → User → User
unfolding assigned has_changes
edited payload now u =
    let v = assigned payload u in if has_changes u v then record v { updated_at = now } else u

abbrev pub is_false : Option Bool → Bool
is_false (some false) = true
is_false _ = false

abbrev pub is_other_role : Role → Option Role → Bool
is_other_role role none = false
is_other_role role (some r) = not (r == role)

abbrev pub loses_admin : UserUpdate → User → Bool
loses_admin payload u =
    is_active_admin u && (is_other_role admin payload.role || is_false payload.is_active)

action : User → User → Option String
unfolding has_changes
action u v =
    if not (has_changes u v)
    then none
    else if option_beq u.name v.name && u.role == v.role
    then some (if v.is_active then "user.enabled" else "user.disabled")
    else some "user.updated"

-- `admin_id` is the caller's. The result has the action for the activity log, if there is one.
unfoldable pub update_one_user :
    (user_id : ℕ)
    → UserUpdate
    → (admin_id now : ℕ) → List User
    → Result (User × Option String × List User)
unfolding get_user update edited action select
update_one_user user_id payload admin_id now users = elim (get_user user_id users) [
  | none ↦ err (api_error 404 "USER_NOT_FOUND")
  | some user ↦ do
    guard (not (user.id == admin_id && is_other_role user.role payload.role))
        (api_error 409 "CANNOT_CHANGE_OWN_ROLE")
    guard (not (user.id == admin_id && is_false payload.is_active))
        (api_error 409 "CANNOT_DISABLE_SELF")
    guard (not (loses_admin payload user && leb (length (select is_active_admin users)) 1))
        (api_error 409 "LAST_ADMIN")
    ok (
      edited payload now user,
      action user (edited payload now user),
      update user_key user_id (edited payload now) users,
    )
]

rehashed : String → (now : ℕ) → User → User
rehashed hash now u =
    if u.password_hash == hash then u else record u { password_hash = hash; updated_at = now }

unfoldable reset_user_password :
    (hashed : String → String) (user_id : ℕ) (password : String) (now : ℕ)
    → List User
    → Result (List User)
unfolding get_user update rehashed
reset_user_password hashed user_id password now users = elim (get_user user_id users) [
  | none ↦ err (api_error 404 "USER_NOT_FOUND")
  | some user ↦ ok (update user_key user_id (rehashed (hashed password) now) users)
]
