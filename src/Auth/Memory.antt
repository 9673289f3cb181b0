-- ===== src/Auth/Memory.antt =====
-- internal/auth/store/memory/memory.go: the in-memory store. Each method runs under one lock, so a
-- method is a function from the store to the new store and its result.
pub mod Users
pub mod Verification
pub mod Refresh
pub mod OAuth
pub mod Indexes
pub mod Accounts
pub mod History
pub mod Lookups
pub mod OneTime
pub mod Attempts
mod Tests
use akira_mcp.Base.{ℕ, false, Option, none, some, []}
use akira_mcp.Base.Map.{Map, lookup}
use akira_mcp.Base.Text.{Text}
use akira_mcp.Base.{list_eq, nat_eq}
use akira_mcp.Auth.Types.{User, RefreshToken, EmailVerification, OAuthClient, OAuthCode}

pub record Store : Type 0 where
  pub users : Map Text User
  pub by_id : Map Text Text
  pub by_email : Map Text Text
  pub by_key : Map Text Text
  pub refr : Map Text RefreshToken
  pub verifs : Map Text EmailVerification
  pub clients : Map Text OAuthClient
  pub codes : Map Text OAuthCode

-- New
abbrev pub empty_store : Store
empty_store = record {
  users = [];
  by_id = [];
  by_email = [];
  by_key = [];
  refr = [];
  verifs = [];
  clients = [];
  codes = [];
}

-- authstore.User{}
abbrev pub zero_user : User
zero_user = record {
  id = [];
  username = [];
  email = [];
  password_hash = [];
  connect_key = [];
  email_verified = false;
}

-- Go's zero value on a missing key.
abbrev pub or_zero : Option User → User
or_zero none = zero_user
or_zero (some u) = u

-- s.users[username]
abbrev pub user_at : Store → Text → User
user_at s username = or_zero (lookup username s.users)
