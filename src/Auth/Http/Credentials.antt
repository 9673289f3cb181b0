-- ===== src/Auth/Http/Credentials.antt =====
-- checkCredentials of internal/auth/httpapi/oauth.go and issuePair of token.go.
use akira_mcp.Base.{ℕ, ◌+◌, ◌/◌, not, ◌||◌, [], ◌==◌, list_eq, nat_eq}
use akira_mcp.Base.Text.{Text}
use akira_mcp.Auth.Types.{StoreError, user_not_found, User}
use akira_mcp.Auth.Http.{
  StoreApi, Env, Handler, Reply, failure, issued, server_error, invalid_request, ◌>>=◌, ◌>>◌, pure,
  fail_if, or_reply, reads, writes,
}

-- nanoseconds in a second
abbrev pub nanos : ℕ
nanos = 1_000_000_000

abbrev pub invalid_credentials : Reply
invalid_credentials = failure 401 "invalid_grant" "invalid credentials"

abbrev pub credentials_error : StoreError → Reply
credentials_error user_not_found = invalid_credentials
credentials_error _ = server_error "authorization failed"

module _ (api : StoreApi) (env : Env) where
  -- checkCredentials; the bcrypt comparison for an unknown name only takes time.
  unfoldable pub check_credentials : Text → Text → Handler api.State User
  check_credentials username password = do
    fail_if (username == [] || password == [])
        (invalid_request "username and password are required")
    user ← reads (api.get_user_by_username username) credentials_error
    fail_if (not (env.password_matches user.password_hash password) || not user.email_verified)
        invalid_credentials
    pure user

  -- issuePair
  unfoldable pub issue_pair : Text → Handler api.State Reply
  issue_pair user_id = do
    access ← or_reply (env.sign_access user_id) (server_error "failed to issue tokens")
    raw ← or_reply env.draw_refresh (server_error "failed to issue tokens")
    writes
        (api.save_refresh (record {
          token_hash = env.hash_token raw;
          user_id = user_id;
          expires_at = env.now + env.refresh_ttl;
          created_at = env.now;
        }))
        (λ _. server_error "failed to issue tokens")
    pure (issued access raw (env.access_ttl / nanos))
