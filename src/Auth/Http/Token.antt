-- ===== src/Auth/Http/Token.antt =====
-- internal/auth/httpapi/token.go
use akira_mcp.Base.{◌+◌, ◌/◌, not, ◌||◌, [], ◌==◌, list_eq, nat_eq, if◌then◌else◌}
use akira_mcp.Base.Text.{Text, bytes}
use akira_mcp.Auth.Types.{StoreError, oauth_code_not_found, refresh_not_found}
use akira_mcp.Auth.Http.{
  StoreApi, Env, Handler, Reply, failure, issued, no_content, Body, server_error, invalid_request,
  ◌>>=◌, ◌>>◌, pure, stop, fail_if, or_reply, writes, decode,
}
use akira_mcp.Auth.Http.Credentials.{check_credentials, issue_pair, nanos}

-- tokenRequest; parseTokenRequest decodes it from a form or from JSON.
pub record TokenRequest : Type 0 where
  pub grant_type : Text
  pub username : Text
  pub password : Text
  pub refresh_token : Text
  pub code : Text
  pub client_id : Text
  pub redirect_uri : Text
  pub code_verifier : Text

abbrev pub consume_error : StoreError → Reply
consume_error oauth_code_not_found =
    failure 401 "invalid_grant" "unknown, expired or already used authorization code"
consume_error _ = server_error "token issuance failed"

abbrev pub rotate_error : StoreError → Reply
rotate_error refresh_not_found =
    failure 401 "invalid_grant" "unknown, expired or already used refresh token"
rotate_error _ = server_error "token issuance failed"

abbrev pub invalid_code_grant : Reply
invalid_code_grant = failure 401 "invalid_grant" "invalid authorization code"

module _ (api : StoreApi) (env : Env) where
  unfoldable pub grant_password : TokenRequest → Handler api.State Reply
  grant_password req = do
    fail_if (req.username == [] || req.password == [])
        (invalid_request "username and password are required")
    user ← check_credentials api env req.username req.password
    issue_pair api env user.id

  unfoldable pub grant_authorization_code : TokenRequest → Handler api.State Reply
  grant_authorization_code req = do
    fail_if
        (req.code == []
          || (req.client_id == [] || (req.redirect_uri == [] || req.code_verifier == [])))
        (invalid_request "code, client_id, redirect_uri and code_verifier are required")
    code ← writes (api.consume_oauth_code (env.hash_token req.code)) consume_error
    fail_if (not (code.client_id == req.client_id) || not (code.redirect_uri == req.redirect_uri))
        invalid_code_grant
    fail_if (not (env.s256 req.code_verifier == code.code_challenge)) invalid_code_grant
    issue_pair api env code.user_id

  -- The new record's user id is what the store copies from the old one.
  unfoldable pub grant_refresh : TokenRequest → Handler api.State Reply
  grant_refresh req = do
    fail_if (req.refresh_token == []) (invalid_request "refresh_token is required")
    raw ← or_reply env.draw_refresh (server_error "failed to issue tokens")
    rec ←
        writes
          (api.rotate_refresh (env.hash_token req.refresh_token) (record {
            token_hash = env.hash_token raw;
            user_id = [];
            expires_at = env.now + env.refresh_ttl;
            created_at = env.now;
          }))
          rotate_error
    access ← or_reply (env.sign_access rec.user_id) (server_error "failed to issue tokens")
    pure (issued access raw (env.access_ttl / nanos))

  -- handleToken
  unfoldable pub handle_token : Body TokenRequest → Handler api.State Reply
  handle_token body = do
    req ← decode body
    if req.grant_type == bytes "password"
        then grant_password req
        else if req.grant_type == bytes "refresh_token"
        then grant_refresh req
        else if req.grant_type == bytes "authorization_code"
        then grant_authorization_code req
        else stop (
            failure 400 "unsupported_grant_type"
              "grant_type must be authorization_code, password or refresh_token")

  -- handleRevoke
  unfoldable handle_revoke : Body Text → Handler api.State Reply
  handle_revoke body = do
    token ← decode body
    fail_if (token == []) (invalid_request "refresh_token is required")
    writes (api.revoke_refresh (env.hash_token token)) (λ _. server_error "revoke failed")
    pure no_content
