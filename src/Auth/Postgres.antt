-- ===== src/Auth/Postgres.antt =====
-- internal/auth/store/postgres: the tables of migrations/ and the statements on them. A statement is
-- a function from the tables to the tables; a transaction that is not committed leaves them as they
-- were. A lost database is not modelled, and the clock of the database is that of the program, read in
-- microseconds.
pub mod Users
pub mod Tokens
pub mod OAuth
pub mod Agreement
pub mod Completion
mod Tests
use akira_mcp.Base.{
  ℕ, ◌/◌, ◌*◌, Bool, true, false, ◌||◌, List, [], ◌∷◌, Option, none, some, ◌==◌, list_eq, nat_eq,
  if◌then◌else◌,
}
use akira_mcp.Base.Map.{Map}
use akira_mcp.Base.Text.{Text}
use akira_mcp.Auth.Types.{
  User, RefreshToken, EmailVerification, OAuthClient, OAuthCode, StoreError, user_not_found,
  user_exists, email_exists, connect_key_exists, unavailable, Result, ok, err,
}

-- A row of users; created_at is never read.
pub record UserRow : Type 0 where
  pub user_id : Text
  pub username : Text
  pub email : Text
  pub password_hash : Text
  pub connect_key : Option Text
  pub email_verified_at : Option ℕ

-- The tables; all but users by their primary key.
pub record Tables : Type 0 where
  pub users : List UserRow
  pub refresh_tokens : Map Text RefreshToken
  pub email_verifications : Map Text EmailVerification
  pub oauth_clients : Map Text OAuthClient
  pub oauth_codes : Map Text OAuthCode

-- A time as a timestamptz column or now() has it: whole microseconds.
abbrev pub micros : ℕ → ℕ
micros t = t / 1000 * 1000

-- The constraint that a statement violates, or that it finds no row.
pub data DbError : Type 0 where
  users_username_key users_email_key users_connect_key_key other_constraint no_rows : DbError

-- mapError; an error that it passes on is none of the sentinels.
abbrev pub map_error : DbError → StoreError
map_error users_username_key = user_exists
map_error users_email_key = email_exists
map_error users_connect_key_key = connect_key_exists
map_error no_rows = user_not_found
map_error other_constraint = unavailable

-- scanUser
abbrev pub scan_user : UserRow → User
scan_user r = record {
  id = r.user_id;
  username = r.username;
  email = r.email;
  password_hash = r.password_hash;
  connect_key = elim r.connect_key [ none ↦ [] | some key ↦ key ];
  email_verified = elim r.email_verified_at [ none ↦ false | some _ ↦ true ];
}

abbrev pub has_key : Text → UserRow → Bool
has_key key r = elim r.connect_key [ none ↦ false | some k ↦ k == key ]

-- SELECT ... WHERE, where one row at most satisfies the condition.
unfoldable pub select : (UserRow → Bool) → List UserRow → Option UserRow
select p [] = none
select p (r ∷ rows) = if p r then some r else select p rows

-- SELECT EXISTS
unfoldable pub exists_row : (UserRow → Bool) → List UserRow → Bool
exists_row p [] = false
exists_row p (r ∷ rows) = p r || exists_row p rows

-- UPDATE ... WHERE user_id = $1
unfoldable pub update : Text → (UserRow → UserRow) → List UserRow → List UserRow
update user_id f [] = []
update user_id f (r ∷ rows) =
    let rest = update user_id f rows in if r.user_id == user_id then f r ∷ rest else r ∷ rest
