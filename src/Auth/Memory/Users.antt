-- ===== src/Auth/Memory/Users.antt =====
-- internal/auth/store/memory/users.go. A new user's random id is an argument.
use akira_mcp.Base.{
  ℕ, Bool, true, false, not, ◌&&◌, Option, none, some, [], ◌==◌, list_eq, nat_eq, if◌then◌else◌,
}
use akira_mcp.Base.Map.{lookup, insert, erase}
use akira_mcp.Base.Text.{Text}
use akira_mcp.Auth.Types.{
  Result, ok, err, User, EmailVerification, user_not_found, user_exists, email_exists,
  connect_key_exists,
}
use akira_mcp.Auth.Memory.{Store, user_at}

-- The key has another owner.
abbrev pub clashes : Option Text → Text → Bool
clashes none user_id = false
clashes (some other) user_id = not (other == user_id)

abbrev pub new_user : Text → Text → Text → Text → User
new_user id username email password_hash = record {
  id = id;
  username = username;
  email = email;
  password_hash = password_hash;
  connect_key = [];
  email_verified = false;
}

abbrev pub add_user : Store → User → Store
add_user s u = record s {
  users = insert u.username u s.users;
  by_id = insert u.id u.username s.by_id;
  by_email = insert u.email u.username s.by_email;
}

-- createUserLocked; the same as CreateUser, which only takes the lock.
unfoldable pub create_user : Text → Text → Text → Text → Store → Store × Result User
create_user new_id username email password_hash s = elim (lookup username s.users) [
  | some _ ↦ (s, err user_exists)
  | none ↦ elim (lookup email s.by_email) [
    | some _ ↦ (s, err email_exists)
    | none ↦ let u = new_user new_id username email password_hash in (add_user s u, ok u)
  ]
]

abbrev pub save_first_code : Text → ℕ → ℕ → Store × Result User → Store × Result User
save_first_code code_hash expires_at now (s, err e) = (s, err e)
save_first_code code_hash expires_at now (s, ok u) =
    (record s { verifs = insert u.id code s.verifs }, ok u)
  where
    code : EmailVerification
    code = record {
      code_hash = code_hash;
      user_id = u.id;
      expires_at = expires_at;
      created_at = now;
      attempts = 0;
    }

-- CreateUserWithCode
unfoldable pub create_user_with_code :
    Text → Text → Text → Text → Text → ℕ → ℕ → Store → Store × Result User
unfolding create_user
create_user_with_code new_id username email password_hash code_hash expires_at now s =
    save_first_code code_hash expires_at now (create_user new_id username email password_hash s)

abbrev user_named : Store → Option Text → Result User
user_named s none = err user_not_found
user_named s (some username) = ok (user_at s username)

abbrev or_not_found : Option User → Result User
or_not_found none = err user_not_found
or_not_found (some u) = ok u

unfoldable pub get_user_by_username : Text → Store → Result User
get_user_by_username username s = or_not_found (lookup username s.users)

unfoldable pub get_user_by_email : Text → Store → Result User
get_user_by_email email s = user_named s (lookup email s.by_email)

unfoldable pub get_user_by_id : Text → Store → Result User
get_user_by_id user_id s = user_named s (lookup user_id s.by_id)

-- s.byID[id] for a missing id is the empty name.
abbrev name_or_empty : Option Text → Text
name_or_empty none = []
name_or_empty (some name) = name

unfoldable pub get_user_by_connect_key : Text → Store → Result User
get_user_by_connect_key key s = elim (lookup key s.by_key) [
  | none ↦ err user_not_found
  | some id ↦ or_not_found (lookup (name_or_empty (lookup id s.by_id)) s.users)
]

unfoldable pub verify_email : Text → Store → Store × Result (Unit {0})
verify_email user_id s = elim (lookup user_id s.by_id) [
  | none ↦ (s, err user_not_found)
  | some username ↦
      let u = record (user_at s username) { email_verified = true } in
      (record s { users = insert username u s.users }, ok tt)
]

unfoldable pub set_connect_key : Text → Text → Store → Store × Result (Unit {0})
set_connect_key user_id key s = elim (lookup user_id s.by_id) [
  | none ↦ (s, err user_not_found)
  | some username ↦
      if clashes (lookup key s.by_key) user_id
      then (s, err connect_key_exists)
      else let u = user_at s username in
        let old = u.connect_key in
        let by_key = if not (old == []) && not (old == key) then erase old s.by_key else s.by_key in
        (
          record s {
            users = insert username (record u { connect_key = key }) s.users;
            by_key = insert key user_id by_key;
          },
          ok tt,
        )
]
