-- ===== src/Auth/Http/Account.antt =====
-- internal/auth/httpapi/account.go
use akira_mcp.Base.{ℕ, zero, suc, not, ◌||◌, none, some, [], ◌==◌, list_eq, nat_eq}
use akira_mcp.Base.Text.{Text, bytes, has_prefix, trim_prefix}
use akira_mcp.Auth.Types.{
  StoreError, user_not_found, connect_key_exists, unavailable, Result, ok, err, User,
}
use akira_mcp.Auth.Http.{
  StoreApi, Env, Handler, Reply, failure, account, regenerated, server_error, ◌>>=◌, ◌>>◌, pure,
  fail_if, or_reply, reads, writes, connect_key_attempts,
}

abbrev pub invalid_token : Reply
invalid_token = failure 401 "invalid_token" "invalid or expired access token"

abbrev bearer_error : StoreError → Reply
bearer_error user_not_found = invalid_token
bearer_error _ = server_error "request failed"

module _ (api : StoreApi) (env : Env) where
  -- userFromBearer, on the value of the Authorization header
  unfoldable pub user_from_bearer : Text → Handler api.State User
  user_from_bearer header = do
    let token = trim_prefix header (bytes "Bearer ")
    fail_if (not (has_prefix header (bytes "Bearer ")) || token == [])
        (failure 401 "invalid_token" "Authorization: Bearer <access_token> is required")
    subject ← or_reply (env.parse_access token) invalid_token
    sub ← or_reply subject invalid_token
    fail_if (sub == []) invalid_token
    reads (api.get_user_by_id sub) bearer_error

  -- handleMe
  unfoldable handle_me : Text → Handler api.State Reply
  handle_me header = do
    user ← user_from_bearer header
    pure (account user.id user.username user.email user.email_verified user.connect_key)

  -- assignConnectKey: `round` counts the keys drawn so far.
  unfoldable pub assign_connect_key : ℕ → ℕ → Text → api.State → api.State × Result Text
  assign_connect_key zero round user_id s = (s, err unavailable)
  assign_connect_key (suc left) round user_id s = elim (env.draw_key round) [
    | none ↦ (s, err unavailable)
    | some key ↦
        let (t, r) = api.set_connect_key user_id key s in
        elim r [
          | ok _ ↦ (t, ok key)
          | err e ↦ elim e [
            | connect_key_exists ↦ assign_connect_key left (suc round) user_id t
            | other ↦ (t, err other)
          ]
        ]
  ]

  -- handleRegenerateConnectKey
  unfoldable pub handle_regenerate_connect_key : Text → Handler api.State Reply
  handle_regenerate_connect_key header = do
    user ← user_from_bearer header
    key ←
        writes (assign_connect_key connect_key_attempts 0 user.id)
          (λ _. server_error "failed to regenerate connect key")
    pure (regenerated key)
