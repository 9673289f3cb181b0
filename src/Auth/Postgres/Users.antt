-- ===== src/Auth/Postgres/Users.antt =====
-- internal/auth/store/postgres/users.go. newID is an argument.
use akira_mcp.Base.{
  ℕ, Bool, not, ◌&&◌, List, ◌∷◌, Option, none, some, ◌==◌, list_eq, nat_eq, if◌then◌else◌, ◌⊎◌, inl,
  inr,
}
use akira_mcp.Base.Map.{lookup, insert}
use akira_mcp.Base.Text.{Text}
use akira_mcp.Auth.Types.{User, Result, ok, err, EmailVerification, user_not_found}
use akira_mcp.Auth.Postgres.{
  UserRow, Tables, DbError, users_username_key, users_email_key, users_connect_key_key,
  other_constraint, no_rows, map_error, scan_user, has_key, select, exists_row, update, micros,
}

abbrev pub new_row : Text → Text → Text → Text → UserRow
new_row id username email password_hash = record {
  user_id = id;
  username = username;
  email = email;
  password_hash = password_hash;
  connect_key = none;
  email_verified_at = none;
}

-- INSERT INTO users; the constraints are checked in the order in which the table declares them.
unfoldable pub insert_user : UserRow → List UserRow → DbError ⊎ List UserRow
unfolding exists_row
insert_user r rows =
    if exists_row (λ q. q.user_id == r.user_id) rows
    then inl other_constraint
    else if exists_row (λ q. q.username == r.username) rows
    then inl users_username_key
    else if exists_row (λ q. q.email == r.email) rows
    then inl users_email_key
    else inr (r ∷ rows)

-- CreateUser
unfoldable pub create_user : Text → Text → Text → Text → Tables → Tables × Result User
unfolding insert_user
create_user id username email password_hash t =
    let r = new_row id username email password_hash in
    elim (insert_user r t.users) [
      | inl e ↦ (t, err (map_error e))
      | inr rows ↦ (record t { users = rows }, ok (scan_user r))
    ]

-- CreateUserWithCode: both rows, or none. The default of created_at is `now`.
unfoldable pub create_user_with_code :
    Text → Text → Text → Text → Text → ℕ → ℕ → Tables → Tables × Result User
unfolding insert_user
create_user_with_code id username email password_hash code_hash expires_at now t =
    let r = new_row id username email password_hash in
    let code : EmailVerification = record {
      code_hash = code_hash;
      user_id = id;
      expires_at = micros expires_at;
      created_at = micros now;
      attempts = 0;
    } in
    elim (insert_user r t.users) [
      | inl e ↦ (t, err (map_error e))
      | inr rows ↦ elim (lookup id t.email_verifications) [
        | some _ ↦ (t, err (map_error other_constraint))
        | none ↦ (
          record t { users = rows; email_verifications = insert id code t.email_verifications },
          ok (scan_user r),
        )
      ]
    ]

abbrev pub scanned : Option UserRow → Result User
scanned none = err (map_error no_rows)
scanned (some r) = ok (scan_user r)

unfoldable pub get_user_by_username : Text → Tables → Result User
unfolding select
get_user_by_username username t = scanned (select (λ r. r.username == username) t.users)

unfoldable pub get_user_by_email : Text → Tables → Result User
unfolding select
get_user_by_email email t = scanned (select (λ r. r.email == email) t.users)

unfoldable pub get_user_by_id : Text → Tables → Result User
unfolding select
get_user_by_id user_id t = scanned (select (λ r. r.user_id == user_id) t.users)

unfoldable pub get_user_by_connect_key : Text → Tables → Result User
unfolding select
get_user_by_connect_key key t = scanned (select (has_key key) t.users)

-- VerifyEmail
unfoldable pub verify_email : Text → ℕ → Tables → Tables × Result (Unit {0})
unfolding update exists_row
verify_email user_id now t =
    if exists_row (λ r. r.user_id == user_id) t.users
    then (
      record t {
        users = update user_id (λ r. record r { email_verified_at = some (micros now) }) t.users;
      },
      ok tt,
    )
    else (t, err user_not_found)

-- Another user has the key: the update violates the constraint on connect_key.
abbrev pub key_taken : Text → Text → List UserRow → Bool
key_taken user_id key rows = exists_row (λ r. has_key key r && not (r.user_id == user_id)) rows

-- SetConnectKey; the constraint is checked only if there is a row to update.
unfoldable pub set_connect_key : Text → Text → Tables → Tables × Result (Unit {0})
unfolding update exists_row
set_connect_key user_id key t =
    if not (exists_row (λ r. r.user_id == user_id) t.users)
    then (t, err user_not_found)
    else if key_taken user_id key t.users
    then (t, err (map_error users_connect_key_key))
    else (
      record t { users = update user_id (λ r. record r { connect_key = some key }) t.users },
      ok tt,
    )
