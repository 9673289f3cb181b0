-- ===== src/Auth/Http/Stored.antt =====
-- The handlers' store interface, met by both stores: `now` is the reading of the clock and `new_id`
-- the id that a new user draws.
use akira_mcp.Base.{ℕ}
use akira_mcp.Base.Text.{Text}
use akira_mcp.Auth.Http.{StoreApi}
use akira_mcp.Auth.Memory.{Store}
use akira_mcp.Auth.Memory.Users.{
  create_user_with_code, get_user_by_username, get_user_by_email, get_user_by_id, set_connect_key,
}
use akira_mcp.Auth.Memory.Refresh.{save_refresh, rotate_refresh, revoke_refresh}
use akira_mcp.Auth.Memory.Verification.{save_email_verification, complete_email_verification}
use akira_mcp.Auth.Memory.OAuth.{
  save_oauth_client, get_oauth_client, save_oauth_code, consume_oauth_code,
}
use akira_mcp.Auth.Postgres.{Tables}
use akira_mcp.Auth.Postgres.Users
use akira_mcp.Auth.Postgres.Tokens
use akira_mcp.Auth.Postgres.OAuth

abbrev pub memory_api : ℕ → Text → StoreApi
memory_api now new_id = record {
  State = Store;
  create_user_with_code = λ username email hash code_hash expires_at s.
      create_user_with_code new_id username email hash code_hash expires_at now s;
  get_user_by_username = get_user_by_username;
  get_user_by_email = get_user_by_email;
  get_user_by_id = get_user_by_id;
  set_connect_key = set_connect_key;
  save_refresh = save_refresh;
  rotate_refresh = λ hash tok s. rotate_refresh hash tok now s;
  revoke_refresh = revoke_refresh;
  save_email_verification = λ tok s. save_email_verification tok now s;
  complete_email_verification =
      λ user_id hash key s. complete_email_verification user_id hash key now s;
  save_oauth_client = save_oauth_client;
  get_oauth_client = get_oauth_client;
  save_oauth_code = λ code s. save_oauth_code code now s;
  consume_oauth_code = λ hash s. consume_oauth_code hash now s;
}

abbrev pub postgres_api : ℕ → Text → StoreApi
postgres_api now new_id = record {
  State = Tables;
  create_user_with_code = λ username email hash code_hash expires_at t.
      Users.create_user_with_code new_id username email hash code_hash expires_at now t;
  get_user_by_username = Users.get_user_by_username;
  get_user_by_email = Users.get_user_by_email;
  get_user_by_id = Users.get_user_by_id;
  set_connect_key = Users.set_connect_key;
  save_refresh = Tokens.save_refresh;
  rotate_refresh = λ hash tok t. Tokens.rotate_refresh hash tok now t;
  revoke_refresh = Tokens.revoke_refresh;
  save_email_verification = Tokens.save_email_verification;
  complete_email_verification =
      λ user_id hash key t. Tokens.complete_email_verification user_id hash key now t;
  save_oauth_client = OAuth.save_oauth_client;
  get_oauth_client = OAuth.get_oauth_client;
  save_oauth_code = OAuth.save_oauth_code;
  consume_oauth_code = λ hash t. OAuth.consume_oauth_code hash now t;
}
