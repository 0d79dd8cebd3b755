-- ===== src/Examples/Users.antt =====
-- An administrator who makes the other one a viewer.
use marriage_be.Prelude.{
  ℕ, ◌≤◌, String, true, false, none, some, List, [], ◌∷◌, ◌==◌, ◌≡◌, refl, nat_eq, arith, select,
}
use marriage_be.Db.Result.{ok}
use marriage_be.Users.{Role, admin, viewer, User, UserUpdate, is_active_admin, update_one_user}
use marriage_be.Users.{create_one_user}
use marriage_be.Users.Accounts.{create_one_user_unique}
use marriage_be.Prelude.{any, all, ltb, ◌++◌, strip, string_eq}
use marriage_be.Users.Admins.{count, update_one_user_keeps_admin}

abbrev user_of : (id : ℕ) → Role → User
user_of id role = record {
  id = id;
  number = id;
  email = "a@b.my";
  name = none;
  password_hash = "x";
  role = role;
  is_active = true;
  created_at = 0;
  updated_at = 0;
}

abbrev demotion : UserUpdate
demotion = record { name = none; role = some viewer; is_active = none }

abbrev users : List User
users = user_of 1 admin ∷ user_of 2 admin ∷ []

abbrev left : List User
left = user_of 1 admin ∷ record (user_of 2 viewer) { updated_at = 5 } ∷ []

demoted :
    update_one_user 2 demotion 1 5 users
    ≡ ok (record (user_of 2 viewer) { updated_at = 5 }, some "user.updated", left)
unfolding update_one_user
demoted = refl

update_one_user_keeps_admin_example : 1 ≤ count is_active_admin left
unfolding select
update_one_user_keeps_admin_example =
    update_one_user_keeps_admin 2 demotion 1 5 users left
      (record (user_of 2 viewer) { updated_at = 5 }) (some "user.updated") (omega arith)
      (omega arith) demoted

abbrev same : String → String
same s = s

abbrev created : User
created = record (user_of 3 viewer) { email = "c@b.my"; name = some "C"; password_hash = "y" }

third_account :
    create_one_user same same " c@b.my" "C" "y" viewer 3 0 users
    ≡ ok (created, users ++ created ∷ [])
unfolding create_one_user
third_account = refl

create_one_user_unique_example :
    (users ++ created ∷ [] ≡ users ++ created ∷ [])
    × (created.email ≡ strip " c@b.my")
    × (any (λ u. same u.email == created.email) users ≡ false)
    × (all (λ u. ltb u.number created.number) users ≡ true)
    × (created.role ≡ viewer)
    × (created.is_active ≡ true)
create_one_user_unique_example =
    create_one_user_unique same same " c@b.my" "C" "y" viewer 3 0 users (users ++ created ∷ [])
      created third_account
